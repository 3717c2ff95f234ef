-- ===== src/Exporter/Pool/Examples.antt =====
-- The pool of src/exporter.rs with one permit and two tasks, of which one posts.
use rolly.Base.{
  ℕ, zero, suc, ◌+◌, ◌*◌, ◌≡◌, ◌≤◌, ◌⊎◌, refl, arith, Option, none, some, [], ◌∷◌, All, total,
}
use rolly.Retry.{Answer, success, post_with_retry}
use rolly.Exporter.Pool.{
  Semaphore, waiting, posting, ended, Pool, Step, take_permit, initial, Reach, start, spawn, next,
  done, more,
}
use rolly.Exporter.Pool.Limit.{permits, Reach-limited}
use rolly.Exporter.Pool.Progress.{Run-ends, Reach-progress}

try_acquire : ℕ → Option ℕ
try_acquire zero = none
try_acquire (suc n) = some n

try_acquire-some : (s s' : ℕ) → try_acquire s ≡ some s' → s ≡ s' + 1
unfolding try_acquire
try_acquire-some zero s' h = cc
try_acquire-some (suc s) s' h = let e : s ≡ s' = cc in omega (arith, e)

try_acquire-none : (s : ℕ) → try_acquire s ≡ none → s ≡ 0
unfolding try_acquire
try_acquire-none zero h = refl
try_acquire-none (suc s) h = cc

abbrev counting : Semaphore
counting = record {
  Sem = ℕ;
  new = λ n. n;
  available = λ s. s;
  acquire = try_acquire;
  release = λ s. s + 1;
  available-new = λ n. refl;
  available-acquire = try_acquire-some;
  available-waits = try_acquire-none;
  available-release = λ s. refl;
}

abbrev friendly : ℕ → Answer
friendly n = success

abbrev two_tasks : Pool counting
two_tasks = record { semaphore = 1; tasks = waiting ∷ (waiting ∷ []) }

two_tasks-Reach : Reach counting 1 two_tasks
unfolding initial
two_tasks-Reach = spawn (spawn start)

abbrev first_posts : Pool counting
first_posts = record { semaphore = 0; tasks = posting (post_with_retry friendly) ∷ (waiting ∷ []) }

first_takes : Step counting two_tasks first_posts
unfolding try_acquire
first_takes = take_permit 0 friendly refl refl

first_posts-Reach : Reach counting 1 first_posts
first_posts-Reach = next two_tasks-Reach first_takes

Reach-limited_example :
    (total permits first_posts.tasks ≤ 1) × (0 + total permits first_posts.tasks ≡ 1)
Reach-limited_example = Reach-limited counting first_posts-Reach

Run-ends_example : 1 ≤ 12 * 2
Run-ends_example = Run-ends counting two_tasks-Reach (more first_takes done)

Reach-progress_example :
    All (λ t. t ≡ ended) first_posts.tasks ⊎ ((q : Pool counting) × Step counting first_posts q)
Reach-progress_example = Reach-progress counting first_posts-Reach (omega arith)
