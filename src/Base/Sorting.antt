-- ===== src/Base/Sorting.antt =====
-- The standard library's stable `sort` and `sort_by`, and `dedup`, on lists. `le a b` says that `a`
-- may stand before `b`.
pub mod Order
use mathlib.Core.Bool.{Bool, true, false}
use mathlib.Core.List.{List, [], ◌∷◌}
use rolly.Base.Tests.{if◌then◌else◌}

module _ {ℓ} {A : Type ℓ} (le : A → A → Bool) where
  unfoldable pub insert_sorted : A → List A → List A
  insert_sorted x [] = x ∷ []
  insert_sorted x (y ∷ ys) = if le x y then x ∷ (y ∷ ys) else y ∷ insert_sorted x ys

  unfoldable pub sort : List A → List A
  unfolding insert_sorted
  sort [] = []
  sort (x ∷ xs) = insert_sorted x (sort xs)

-- Of each run of equal items the first stays.
module _ {ℓ} {A : Type ℓ} (same : A → A → Bool) where
  dedup_from : A → List A → List A
  dedup_from x [] = []
  dedup_from x (y ∷ ys) = elim (same y x) [ true ↦ dedup_from x ys | false ↦ y ∷ dedup_from y ys ]

  unfoldable pub dedup : List A → List A
  unfolding dedup_from
  dedup [] = []
  dedup (x ∷ xs) = x ∷ dedup_from x xs
