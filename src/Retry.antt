-- ===== src/Retry.antt =====
-- src/exporter.rs: `post_with_retry`. The answers of the server are a parameter, the attempt's number
-- (from 0) being given; the result is what the task does, in its order.
pub mod Attempts
mod Examples
use rolly.Base.{ℕ, suc, ◌+◌, List, [], ◌∷◌}

-- `Ok` with a success status, `Ok` with another, or `Err`.
pub data Answer : Type 0 where
  success rejected unreachable : Answer

pub data Action : Type 0 where
  -- The POST with the attempt's number.
  post : ℕ → Action
  -- "export attempt n/3 failed"
  report_failure : ℕ → Action
  sleep_ms : ℕ → Action
  report_drop : Action

abbrev pub retry_delays : List ℕ
retry_delays = 100 ∷ 400 ∷ 1600 ∷ []

pub attempts : (ℕ → Answer) → ℕ → List ℕ → List Action
attempts answer attempt [] = report_drop ∷ []
attempts answer attempt (delay ∷ delays) =
    let again =
      report_failure (attempt + 1) ∷ (sleep_ms delay ∷ attempts answer (suc attempt) delays) in
    post attempt ∷ elim (answer attempt) [ success ↦ [] | rejected ↦ again | unreachable ↦ again ]

pub post_with_retry : (ℕ → Answer) → List Action
unfolding attempts
post_with_retry answer = attempts answer 0 retry_delays
