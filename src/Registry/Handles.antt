-- ===== src/Registry/Handles.antt =====
-- What the registry of src/metrics.rs hands out under a name, also when threads race to create it.
use rolly.Base.{
  ℕ, ◌≡◌, refl, sym, ap, ◌∙◌, arith, Bool, true, Option, none, some, List, [], ◌∷◌, if◌then◌else◌,
}
use rolly.Base.Bytes.{beq_bytes_refl}
use rolly.Registry.{Named, find, or_insert, inserted, get_or_create, get_or_create_slow}

if_refl : {A : Type 0} {b : Bool} {x : A} (y : A) → b ≡ true → (if b then x else y) ≡ x
if_refl y h = rw (h)

module _ {T : Type 0} where
  find-or_insert :
      (name : List ℕ) (fresh : T) (t : Named T)
      → find name (or_insert name fresh t) ≡ some (inserted name fresh t)
  unfolding find or_insert inserted
  find-or_insert name fresh [] = if_refl none (beq_bytes_refl name)
  find-or_insert name fresh ((n, x) ∷ t) = ground (arith, find-or_insert name fresh t)

  slow_if :
      (name : List ℕ) (fresh : T) (later t : Named T) (o : Option T)
      → find name t ≡ o
      → find name
          (elim o as (λ _. Named T × T) [
            | none ↦ get_or_create_slow name fresh later
            | some x ↦ (t, x)
          ]).0
        ≡ some
            (elim o as (λ _. Named T × T) [
              | none ↦ get_or_create_slow name fresh later
              | some x ↦ (t, x)
            ]).1
  unfolding get_or_create_slow
  slow_if name fresh later t none h = find-or_insert name fresh later
  slow_if name fresh later t (some x) h = h

  find-get_or_create :
      (name : List ℕ) (fresh : T) (later : Named T → Named T) (t : Named T)
      → find name (get_or_create name fresh later t).0 ≡ some (get_or_create name fresh later t).1
  unfolding get_or_create
  find-get_or_create name fresh later t = slow_if name fresh (later t) t (find name t) refl

  fast :
      (name : List ℕ) (fresh : T) (later : Named T → Named T) (t : Named T) (x : T)
      → find name t ≡ some x
      → get_or_create name fresh later t ≡ (t, x)
  unfolding get_or_create
  fast name fresh later t x h =
      ap
        (λ (o : Option T). elim o as (λ _. Named T × T) [
          | none ↦ get_or_create_slow name fresh (later t)
          | some y ↦ (t, y)
        ])
        h

  -- The slow path finds what another thread has put there.
  or_insert-found :
      (name : List ℕ) (fresh : T) (t : Named T) (x : T)
      → find name t ≡ some x
      → get_or_create_slow name fresh t ≡ (t, x)
  unfolding find get_or_create_slow or_insert inserted
  or_insert-found name fresh [] x h = absurd cc
  or_insert-found name fresh ((n, y) ∷ t) x h = ground (arith, h, or_insert-found name fresh t x)

  slow :
      (name : List ℕ) (fresh : T) (later : Named T → Named T) (t : Named T)
      → find name t ≡ none
      → get_or_create name fresh later t ≡ get_or_create_slow name fresh (later t)
  unfolding get_or_create
  slow name fresh later t h =
      ap
        (λ (o : Option T). elim o as (λ _. Named T × T) [
          | none ↦ get_or_create_slow name fresh (later t)
          | some y ↦ (t, y)
        ])
        h

  raced_if :
      (name : List ℕ) (fresh other_fresh : T) (t : Named T) (o : Option T)
      → find name t ≡ o
      → get_or_create name fresh (λ u. (get_or_create name other_fresh (λ v. v) u).0) t
        ≡ get_or_create name other_fresh (λ v. v) t
  raced_if name fresh other_fresh t none h =
      slow name fresh _ t h
      ∙ or_insert-found name fresh _ _ (find-get_or_create name other_fresh (λ v. v) t)
  raced_if name fresh other_fresh t (some x) h =
      fast name fresh _ t x h ∙ sym (fast name other_fresh _ t x h)

  -- What a thread gets under a name is what the registry holds under it, whatever other threads do
  -- between its two locks, and every later request of that name, with whatever description or limit,
  -- gets the same and leaves the registry as it is. If two threads race to create the name, one making
  -- its whole call between the two locks of the other, both get the same, and the registry is as if
  -- only the faster one had asked.
  pub get_or_create-stable :
      (name : List ℕ) (fresh other_fresh : T) (later other_later : Named T → Named T) (t : Named T)
      → (find name (get_or_create name fresh later t).0 ≡ some (get_or_create name fresh later t).1)
        × (get_or_create name other_fresh other_later (get_or_create name fresh later t).0
            ≡ get_or_create name fresh later t)
        × (get_or_create name fresh (λ u. (get_or_create name other_fresh (λ v. v) u).0) t
            ≡ get_or_create name other_fresh (λ v. v) t)
  get_or_create-stable name fresh other_fresh later other_later t =
      let found = find-get_or_create name fresh later t in
      (found, fast name other_fresh other_later _ _ found, raced_if name fresh other_fresh t _ refl)
