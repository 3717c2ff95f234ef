-- ===== src/Exporter/Pool.antt =====
-- The tasks that `flush_batch` of src/exporter.rs spawns: each takes a permit of the semaphore, makes
-- its POST with retries, and gives the permit back when it ends. Tasks run in any order, so the pool
-- is a step relation. The semaphore of tokio is a parameter with its documented laws.
pub mod Limit
pub mod Progress
mod Examples
use rolly.Base.{
  ℕ, ◌+◌, ◌≡◌, ◌<◌, Option, none, some, List, [], ◌∷◌, ◌++◌, get_elem?, set, zero, suc,
}
use rolly.Retry.{Answer, Action, post_with_retry}

-- `tokio::sync::Semaphore`: `acquire` waits while no permit is left, and dropping a permit returns it.
pub record Semaphore : Type 1 where
  pub Sem : Type 0
  pub new : ℕ → Sem
  pub available : Sem → ℕ
  pub acquire : Sem → Option Sem
  pub release : Sem → Sem
  pub available-new : (n : ℕ) → available (new n) ≡ n
  pub available-acquire : (s s' : Sem) → acquire s ≡ some s' → available s ≡ available s' + 1
  pub available-waits : (s : Sem) → acquire s ≡ none → available s ≡ 0
  pub available-release : (s : Sem) → available (release s) ≡ available s + 1

-- A task waits for its permit, then does what is left of `post_with_retry`, and ends.
pub data Phase : Type 0 where
  waiting : Phase
  posting : List Action → Phase
  ended : Phase

module _ (sm : Semaphore) where
  pub record Pool : Type 0 where
    pub semaphore : sm.Sem
    pub tasks : List Phase

  -- One step of the i-th task. The server's answers are any.
  pub data Step (p : Pool) : Pool → Type 0 where
    take_permit :
        (i : ℕ) (answer : ℕ → Answer) {s' : sm.Sem}
        → get_elem? p.tasks i ≡ some waiting
        → sm.acquire p.semaphore ≡ some s'
        → Step p
            (record { semaphore = s'; tasks = set p.tasks i (posting (post_with_retry answer)) })
    act :
        (i : ℕ) {a : Action} {rest : List Action}
        → get_elem? p.tasks i ≡ some (posting (a ∷ rest))
        → Step p (record p { tasks = set p.tasks i (posting rest) })
    finish :
        (i : ℕ)
        → get_elem? p.tasks i ≡ some (posting [])
        → Step p (record { semaphore = sm.release p.semaphore; tasks = set p.tasks i ended })

  unfoldable pub initial : ℕ → Pool
  initial max_concurrent_exports = record { semaphore = sm.new max_concurrent_exports; tasks = [] }

  -- What happens to the pool of a loop: a task is spawned, or one of them makes a step.
  pub data Reach (max_concurrent_exports : ℕ) : Pool → Type 0 where
    start : Reach max_concurrent_exports (initial max_concurrent_exports)
    spawn :
        {p : Pool}
        → Reach max_concurrent_exports p
        → Reach max_concurrent_exports (record p { tasks = p.tasks ++ (waiting ∷ []) })
    next : {p q : Pool} → Reach max_concurrent_exports p → Step p q → Reach max_concurrent_exports q

  -- A run of `n` steps, with no task spawned meanwhile.
  pub data Run : ℕ → Pool → Pool → Type 0 where
    done : {p : Pool} → Run zero p p
    more : {n : ℕ} {p q r : Pool} → Step p q → Run n q r → Run (suc n) p r
