-- ===== src/Retry/Attempts.antt =====
-- How often `post_with_retry` of src/exporter.rs posts, how long it waits, and when it gives up.
use rolly.Base.{
  ℕ, zero, suc, ◌+◌, ◌*◌, ◌≤◌, ◌<◌, ◌≡◌, ◌≢◌, refl, ap, Bool, true, false, List, [], ◌∷◌, arith,
  length, take,
}
use native.Mathlib.Nat.{add-zero, zero-add, suc-add, add-suc}
use rolly.Retry.{
  Answer, success, Action, post, report_failure, sleep_ms, report_drop, retry_delays, attempts,
  post_with_retry,
}

-- The attempts made, the time slept, and whether the batch is dropped.
abbrev pub posts : List Action → List ℕ
posts [] = []
posts (post n ∷ r) = n ∷ posts r
posts (report_failure n ∷ r) = posts r
posts (sleep_ms d ∷ r) = posts r
posts (report_drop ∷ r) = posts r

abbrev pub slept : List Action → ℕ
slept [] = 0
slept (post n ∷ r) = slept r
slept (report_failure n ∷ r) = slept r
slept (sleep_ms d ∷ r) = d + slept r
slept (report_drop ∷ r) = slept r

abbrev pub dropped : List Action → Bool
dropped [] = false
dropped (post n ∷ r) = dropped r
dropped (report_failure n ∷ r) = dropped r
dropped (sleep_ms d ∷ r) = dropped r
dropped (report_drop ∷ r) = true

-- The numbers from `n` on.
abbrev pub range_from : ℕ → ℕ → List ℕ
range_from n zero = []
range_from n (suc k) = n ∷ range_from (suc n) k

abbrev pub sum : List ℕ → ℕ
sum [] = 0
sum (d ∷ ds) = d + sum ds

-- What one attempt that fails leaves to do.
attempts-failed :
    (answer : ℕ → Answer) (n d : ℕ) (ds : List ℕ)
    → answer n ≢ success
    → attempts answer n (d ∷ ds)
      ≡ post n ∷ (report_failure (n + 1) ∷ (sleep_ms d ∷ attempts answer (suc n) ds))
unfolding attempts
attempts-failed answer n d ds h = ground arith

attempts-success :
    (answer : ℕ → Answer) (n d : ℕ) (ds : List ℕ)
    → answer n ≡ success
    → attempts answer n (d ∷ ds) ≡ post n ∷ []
unfolding attempts
attempts-success answer n d ds h = rw h

attempts_succeed :
    (answer : ℕ → Answer) (k n : ℕ) (ds : List ℕ)
    → k < length ds
    → ((i : ℕ) → i < k → answer (n + i) ≢ success)
    → answer (n + k) ≡ success
    → (posts (attempts answer n ds) ≡ range_from n (suc k))
      × (slept (attempts answer n ds) ≡ sum (take k ds))
      × (dropped (attempts answer n ds) ≡ false)
attempts_succeed answer k n [] lt fail ok = absurd (omega arith)
attempts_succeed answer zero n (d ∷ ds) lt fail ok =
    rw (attempts-success answer n d ds (rw add-zero at ok)) (refl, refl, refl)
attempts_succeed answer (suc k) n (d ∷ ds) lt fail ok =
    let (p, q, r) =
      attempts_succeed answer k (suc n) ds (omega arith)
        (λ i h. rw (suc-add, ← add-suc) (fail (suc i) (omega arith)))
        (rw (suc-add, ← add-suc) ok) in
    rw (attempts-failed answer n d ds (rw add-zero at (fail 0 (omega arith))))
      (ap (λ t. n ∷ t) p, ap (λ t. d + t) q, r)

attempts_give_up :
    (answer : ℕ → Answer) (n : ℕ) (ds : List ℕ)
    → ((i : ℕ) → i < length ds → answer (n + i) ≢ success)
    → (posts (attempts answer n ds) ≡ range_from n (length ds))
      × (slept (attempts answer n ds) ≡ sum ds)
      × (dropped (attempts answer n ds) ≡ true)
attempts_give_up answer n [] fail = unfold attempts in (refl, refl, refl)
attempts_give_up answer n (d ∷ ds) fail =
    let (p, q, r) =
      attempts_give_up answer (suc n) ds
        (λ i h. rw (suc-add, ← add-suc) (fail (suc i) (omega arith))) in
    rw (attempts-failed answer n d ds (rw add-zero at (fail 0 (omega arith))))
      (ap (λ t. n ∷ t) p, ap (λ t. d + t) q, r)

-- If attempt `k` (of 0, 1 and 2) is the first that the server answers with success, then attempts 0 to
-- `k` are made and no other, the task sleeps through the first `k` delays, and the batch is not dropped.
pub post_with_retry_succeeds :
    (answer : ℕ → Answer) (k : ℕ)
    → k < 3
    → ((i : ℕ) → i < k → answer i ≢ success)
    → answer k ≡ success
    → (posts (post_with_retry answer) ≡ range_from 0 (suc k))
      × (slept (post_with_retry answer) ≡ sum (take k retry_delays))
      × (dropped (post_with_retry answer) ≡ false)
unfolding post_with_retry
post_with_retry_succeeds answer k lt fail ok =
    attempts_succeed answer k 0 retry_delays lt (λ i h. rw zero-add (fail i h)) (rw zero-add ok)

-- If no attempt succeeds there are three, not four: the delay of 1600 ms behind the last one is slept
-- through as well, 2100 ms in all, and then the batch is dropped.
pub post_with_retry_gives_up :
    (answer : ℕ → Answer)
    → ((i : ℕ) → i < 3 → answer i ≢ success)
    → (posts (post_with_retry answer) ≡ 0 ∷ (1 ∷ (2 ∷ [])))
      × (slept (post_with_retry answer) ≡ 2100)
      × (dropped (post_with_retry answer) ≡ true)
unfolding post_with_retry
post_with_retry_gives_up answer fail =
    attempts_give_up answer 0 retry_delays (λ i h. rw zero-add (fail i h))

length-attempts :
    (answer : ℕ → Answer) (n : ℕ) (ds : List ℕ) → length (attempts answer n ds) ≤ 3 * length ds + 1
unfolding attempts
length-attempts answer n [] = omega arith
length-attempts answer n (d ∷ ds) = ground (arith, length-attempts answer (suc n) ds)

pub length-post_with_retry : (answer : ℕ → Answer) → length (post_with_retry answer) ≤ 10
unfolding post_with_retry
length-post_with_retry answer = length-attempts answer 0 retry_delays
