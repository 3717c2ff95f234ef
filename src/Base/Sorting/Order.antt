-- ===== src/Base/Sorting/Order.antt =====
-- Sorting by a total order gives one list for all orders of the items.
use mathlib.Core.Path.{◌≡◌, refl, sym, ap, ◌∙◌}
use mathlib.Core.Logic.{inl, inr}
use mathlib.Core.Bool.{Bool, true, false}
use mathlib.Core.List.{List, [], ◌∷◌, Permᴰ}
use native.Mathlib.Omega.{arith}
use rolly.Base.Tests.{Bool-cases}
use rolly.Base.Sorting.{insert_sorted, sort}

pub record IsTotalOrder {ℓ} {A : Type ℓ} (le : A → A → Bool) : Type ℓ where
  pub total : (a b : A) → le a b ≡ false → le b a ≡ true
  pub antisym : (a b : A) → le a b ≡ true → le b a ≡ true → a ≡ b
  pub trans : (a b c : A) → le a b ≡ true → le b c ≡ true → le a c ≡ true

module _ {ℓ} {A : Type ℓ} {le : A → A → Bool} (o : IsTotalOrder le) where
  insert_comm_le :
      (x y : A) (l : List A)
      → le x y ≡ true
      → insert_sorted le x (insert_sorted le y l) ≡ insert_sorted le y (insert_sorted le x l)
  unfolding insert_sorted
  insert_comm_le x y [] h = ground (arith, h, o.antisym x y)
  insert_comm_le x y (z ∷ l) h = ground (
    arith,
    h,
    o.antisym x y,
    o.total x z,
    o.total y z,
    o.trans x y z,
    o.antisym y z,
    o.antisym x z,
    o.trans y x z,
    insert_comm_le x y l h,
  )

  insert_comm :
      (x y : A) (l : List A)
      → insert_sorted le x (insert_sorted le y l) ≡ insert_sorted le y (insert_sorted le x l)
  insert_comm x y l = elim (Bool-cases (le x y)) [
    | inl h ↦ insert_comm_le x y l h
    | inr h ↦ sym (insert_comm_le y x l (o.total x y h))
  ]

  pub sort-Permᴰ : {l₁ l₂ : List A} → Permᴰ l₁ l₂ → sort le l₁ ≡ sort le l₂
  unfolding sort
  sort-Permᴰ Permᴰ.nil = refl
  sort-Permᴰ (Permᴰ.cons {a = a} {b = b} {l₁ = l₁} {l₂ = l₂} e d) =
      ap (λ x. insert_sorted le x (sort le l₁)) e ∙ ap (insert_sorted le b) (sort-Permᴰ d)
  sort-Permᴰ (Permᴰ.swap {a = a} {b = b} {l = l} e f) = insert_comm a b (sort le l) ∙ rw (e, f)
  sort-Permᴰ (Permᴰ.trans d e) = sort-Permᴰ d ∙ sort-Permᴰ e
