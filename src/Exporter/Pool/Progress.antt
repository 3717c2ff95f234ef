-- ===== src/Exporter/Pool/Progress.antt =====
-- The waiting for the tasks in src/exporter.rs comes to an end: `while join_set.join_next()` ends.
use rolly.Base.{
  ℕ, suc, ◌+◌, ◌*◌, ◌≡◌, ◌≤◌, ◌<◌, ◌⊎◌, inl, inr, refl, arith, some, List, [], ◌∷◌, All, length,
  get_elem?, total, total-set, total-append, length-append, length-set, Option-cases,
}
use rolly.Retry.{unreachable, Action, post_with_retry}
use rolly.Retry.Attempts.{length-post_with_retry}
use rolly.Exporter.Pool.{
  Semaphore, Phase, waiting, posting, ended, Pool, Step, take_permit, act, finish, initial, Reach,
  start, spawn, next, Run, done, more,
}
use rolly.Exporter.Pool.Limit.{permits, Reach-limited}

-- The steps that a task can make at most: it takes its permit, acts ten times, and ends.
abbrev pub steps_left : Phase → ℕ
steps_left waiting = 12
steps_left (posting actions) = length actions + 1
steps_left ended = 0

module _ (sm : Semaphore) where
  Step-steps_left :
      {p q : Pool sm} → Step sm p q → total steps_left q.tasks + 1 ≤ total steps_left p.tasks
  Step-steps_left {p} (take_permit i answer free taken) = omega (
    arith,
    total-set steps_left p.tasks i waiting (posting (post_with_retry answer)) free,
    length-post_with_retry answer,
  )
  Step-steps_left {p} (act i turn) = omega (arith, total-set steps_left p.tasks i _ _ turn)
  Step-steps_left {p} (finish i turn) = omega (arith, total-set steps_left p.tasks i _ ended turn)

  Step-length : {p q : Pool sm} → Step sm p q → length q.tasks ≡ length p.tasks
  Step-length {p} (take_permit i answer free taken) = length-set p.tasks i _
  Step-length {p} (act i turn) = length-set p.tasks i _
  Step-length {p} (finish i turn) = length-set p.tasks i ended

  Reach-steps_left :
      {n : ℕ} {p : Pool sm} → Reach sm n p → total steps_left p.tasks ≤ 12 * length p.tasks
  unfolding initial
  Reach-steps_left start = omega arith
  Reach-steps_left (spawn {p = p} r) = omega (
    arith,
    total-append steps_left p.tasks (waiting ∷ []),
    length-append p.tasks (waiting ∷ []),
    Reach-steps_left r,
  )
  Reach-steps_left (next r s) = omega (arith, Reach-steps_left r, Step-steps_left s, Step-length s)

  Run-steps_left :
      {n : ℕ} {p q : Pool sm}
      → Run sm n p q
      → n + total steps_left q.tasks ≤ total steps_left p.tasks
  Run-steps_left done = omega arith
  Run-steps_left (more s r) = omega (arith, Step-steps_left s, Run-steps_left r)

  -- Once no task is spawned any more, the tasks make at most twelve steps each, in whatever order they
  -- run and whatever the server answers: the waiting for them cannot go on for ever.
  pub Run-ends :
      {max n : ℕ} {p q : Pool sm} → Reach sm max p → Run sm n p q → n ≤ 12 * length p.tasks
  Run-ends r s = omega (arith, Reach-steps_left r, Run-steps_left s)

-- What can be done next with a list of tasks.
data Choice (ts : List Phase) : Type 0 where
  none_left : All (λ t. t ≡ ended) ts → total permits ts ≡ 0 → Choice ts
  busy : (i : ℕ) (actions : List Action) → get_elem? ts i ≡ some (posting actions) → Choice ts
  all_wait : (i : ℕ) → get_elem? ts i ≡ some waiting → total permits ts ≡ 0 → Choice ts

Choice-waiting : (ts : List Phase) → Choice ts → Choice (waiting ∷ ts)
Choice-waiting ts (none_left h z) = all_wait 0 refl (omega arith)
Choice-waiting ts (busy i actions g) = busy (suc i) actions g
Choice-waiting ts (all_wait i g z) = all_wait 0 refl (omega arith)

Choice-ended : (ts : List Phase) → Choice ts → Choice (ended ∷ ts)
Choice-ended ts (none_left h z) = none_left (refl, h) (omega arith)
Choice-ended ts (busy i actions g) = busy (suc i) actions g
Choice-ended ts (all_wait i g z) = all_wait (suc i) g (omega arith)

choice : (ts : List Phase) → Choice ts
choice [] = none_left tt refl
choice (waiting ∷ ts) = Choice-waiting ts (choice ts)
choice (posting actions ∷ ts) = busy 0 actions refl
choice (ended ∷ ts) = Choice-ended ts (choice ts)

module _ (sm : Semaphore) where
  progress_at :
      {max : ℕ} {p : Pool sm}
      → Reach sm max p
      → 0 < max
      → Choice p.tasks
      → All (λ t. t ≡ ended) p.tasks ⊎ ((q : Pool sm) × Step sm p q)
  progress_at r lt (none_left h z) = inl h
  progress_at r lt (busy i [] g) = inr (_, finish i g)
  progress_at r lt (busy i (a ∷ rest) g) = inr (_, act i g)
  progress_at {p = p} r lt (all_wait i g z) = elim (Option-cases (sm.acquire p.semaphore)) [
    | inl waits ↦
        absurd (omega (arith, sm.available-waits p.semaphore waits, (Reach-limited sm r).1))
    | inr (s', taken) ↦ inr (_, take_permit i (λ _. unreachable) g taken)
  ]

  -- No deadlock: if at least one POST is allowed at once, then in every pool that can be reached either
  -- all tasks have ended or one of them can make a step.
  pub Reach-progress :
      {max : ℕ} {p : Pool sm}
      → Reach sm max p
      → 0 < max
      → All (λ t. t ≡ ended) p.tasks ⊎ ((q : Pool sm) × Step sm p q)
  Reach-progress {p = p} r lt = progress_at r lt (choice p.tasks)
