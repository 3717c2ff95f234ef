-- ===== src/Retry/Examples.antt =====
-- `post_with_retry` of src/exporter.rs against a server that answers the second attempt, and against
-- one that is down.
use rolly.Base.{ℕ, zero, suc, ◌≡◌, ◌<◌, ◌≢◌, refl, arith, true, false, [], ◌∷◌, take}
use rolly.Retry.{
  Answer, success, rejected, unreachable, post, report_failure, sleep_ms, attempts, post_with_retry,
  retry_delays,
}
use rolly.Retry.Attempts.{
  posts, slept, dropped, range_from, sum, post_with_retry_succeeds, post_with_retry_gives_up,
}

abbrev second : ℕ → Answer
second zero = rejected
second (suc _) = success

abbrev down : ℕ → Answer
down _ = unreachable

run_second : post_with_retry second ≡ post 0 ∷ (report_failure 1 ∷ (sleep_ms 100 ∷ (post 1 ∷ [])))
unfolding post_with_retry attempts
run_second = refl

rejected-ne-success : rejected ≢ success
rejected-ne-success e = ground arith

unreachable-ne-success : unreachable ≢ success
unreachable-ne-success e = ground arith

second-fails : (i : ℕ) → i < 1 → second i ≢ success
second-fails zero h = rejected-ne-success
second-fails (suc i) h = absurd (omega arith)

post_with_retry_succeeds_example :
    (posts (post_with_retry second) ≡ range_from 0 2)
    × (slept (post_with_retry second) ≡ sum (take 1 retry_delays))
    × (dropped (post_with_retry second) ≡ false)
post_with_retry_succeeds_example = post_with_retry_succeeds second 1 (omega arith) second-fails refl

post_with_retry_gives_up_example :
    (posts (post_with_retry down) ≡ 0 ∷ (1 ∷ (2 ∷ [])))
    × (slept (post_with_retry down) ≡ 2100)
    × (dropped (post_with_retry down) ≡ true)
post_with_retry_gives_up_example = post_with_retry_gives_up down (λ i h. unreachable-ne-success)
