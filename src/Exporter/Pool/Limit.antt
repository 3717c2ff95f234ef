-- ===== src/Exporter/Pool/Limit.antt =====
-- How many POSTs the pool of src/exporter.rs makes at once.
use rolly.Base.{ℕ, ◌+◌, ◌≡◌, ◌≤◌, ◌∙◌, arith, [], ◌∷◌, total, total-append, total-set}
use rolly.Retry.{post_with_retry}
use rolly.Exporter.Pool.{
  initial, Semaphore, Phase, waiting, posting, ended, Pool, Step, take_permit, act, finish, Reach,
  start, spawn, next,
}

-- A task that posts holds one permit.
abbrev pub permits : Phase → ℕ
permits waiting = 0
permits (posting actions) = 1
permits ended = 0

module _ (sm : Semaphore) where
  -- The permits that are left and those that are held.
  abbrev pub all_permits : Pool sm → ℕ
  all_permits p = sm.available p.semaphore + total permits p.tasks

  Step-all_permits : {p q : Pool sm} → Step sm p q → all_permits q ≡ all_permits p
  Step-all_permits {p} (take_permit i answer free taken) = omega (
    arith,
    total-set permits p.tasks i waiting (posting (post_with_retry answer)) free,
    sm.available-acquire p.semaphore _ taken,
  )
  Step-all_permits {p} (act i turn) = omega (arith, total-set permits p.tasks i _ _ turn)
  Step-all_permits {p} (finish i turn) =
      omega (arith, total-set permits p.tasks i _ ended turn, sm.available-release p.semaphore)

  Reach-all_permits : {n : ℕ} {p : Pool sm} → Reach sm n p → all_permits p ≡ n
  unfolding initial
  Reach-all_permits {n} start = omega (arith, sm.available-new n)
  Reach-all_permits (spawn {p = p} r) =
      omega (arith, total-append permits p.tasks (waiting ∷ []), Reach-all_permits r)
  Reach-all_permits (next r s) = Step-all_permits s ∙ Reach-all_permits r

  -- In every pool that can be reached, at most `max_concurrent_exports` tasks post at once, and the
  -- permits that they do not hold are available.
  pub Reach-limited :
      {n : ℕ} {p : Pool sm}
      → Reach sm n p
      → (total permits p.tasks ≤ n) × (sm.available p.semaphore + total permits p.tasks ≡ n)
  Reach-limited r = omega (arith, Reach-all_permits r)
