-- ===== src/Metrics/AttrOrder.antt =====
-- The order in which a caller writes the attributes of an update, in src/metrics.rs.
use mathlib.Core.List.{Perm}
use mathlib.Core.Logic.{∥∥₁_elim}
use rolly.Base.{ℕ, ◌≡◌, refl, arith, true, false, Option, List, [], ◌∷◌}
use rolly.Base.Bytes.{beq_bytes, beq_bytes_iff}
use rolly.Base.Sorting.Order.{IsTotalOrder, sort-Permᴰ}
use rolly.Metrics.{Attrs, Exemplar, Instrument, le_bytes, le_pair, owned_attrs, record_value}
use rolly.Metrics.Hash.{attrs_key-Perm}

le_bytes_total : (a b : List ℕ) → le_bytes a b ≡ false → le_bytes b a ≡ true
unfolding le_bytes
le_bytes_total [] b h = cc
le_bytes_total (x ∷ a) [] h = refl
le_bytes_total (x ∷ a) (y ∷ b) h = ground (arith, h, le_bytes_total a b)

le_bytes_antisym : (a b : List ℕ) → le_bytes a b ≡ true → le_bytes b a ≡ true → a ≡ b
unfolding le_bytes
le_bytes_antisym [] [] h k = refl
le_bytes_antisym [] (y ∷ b) h k = cc
le_bytes_antisym (x ∷ a) [] h k = cc
le_bytes_antisym (x ∷ a) (y ∷ b) h k = ground (arith, h, k, le_bytes_antisym a b)

le_bytes_trans : (a b c : List ℕ) → le_bytes a b ≡ true → le_bytes b c ≡ true → le_bytes a c ≡ true
unfolding le_bytes
le_bytes_trans [] b c h k = refl
le_bytes_trans (x ∷ a) [] c h k = cc
le_bytes_trans (x ∷ a) (y ∷ b) [] h k = cc
le_bytes_trans (x ∷ a) (y ∷ b) (z ∷ c) h k = ground (arith, h, k, le_bytes_trans a b c)

le_bytes_refl : (a : List ℕ) → le_bytes a a ≡ true
unfolding le_bytes
le_bytes_refl [] = refl
le_bytes_refl (x ∷ a) = ground (arith, le_bytes_refl a)

beq_bytes→≡ : (a b : List ℕ) → beq_bytes a b ≡ true → a ≡ b
beq_bytes→≡ a b = (beq_bytes_iff a b).0

≡→beq_bytes : (a b : List ℕ) → a ≡ b → beq_bytes a b ≡ true
≡→beq_bytes a b = (beq_bytes_iff a b).1

le_pair_total : (a b : List ℕ × List ℕ) → le_pair a b ≡ false → le_pair b a ≡ true
unfolding le_pair
le_pair_total (k, v) (k', v') h = ground (
  arith,
  h,
  beq_bytes→≡ k k',
  ≡→beq_bytes k' k,
  beq_bytes→≡ k' k,
  ≡→beq_bytes k k',
  le_bytes_total v v',
  le_bytes_total k k',
)

le_pair_antisym : (a b : List ℕ × List ℕ) → le_pair a b ≡ true → le_pair b a ≡ true → a ≡ b
unfolding le_pair
le_pair_antisym (k, v) (k', v') h j = ground (
  arith,
  h,
  j,
  beq_bytes→≡ k k',
  ≡→beq_bytes k' k,
  beq_bytes→≡ k' k,
  ≡→beq_bytes k k',
  le_bytes_antisym v v',
  le_bytes_antisym k k',
)

le_pair_trans :
    (a b c : List ℕ × List ℕ) → le_pair a b ≡ true → le_pair b c ≡ true → le_pair a c ≡ true
unfolding le_pair
le_pair_trans (k, v) (k', v') (l, w) h j = ground (
  arith,
  h,
  j,
  beq_bytes→≡ k k',
  beq_bytes→≡ k' l,
  beq_bytes→≡ k l,
  ≡→beq_bytes k k',
  ≡→beq_bytes k' l,
  ≡→beq_bytes k l,
  le_bytes_trans v v' w,
  le_bytes_trans k k' l,
  le_bytes_antisym k k',
)

le_pair-IsTotalOrder : IsTotalOrder le_pair
le_pair-IsTotalOrder = record {
  total = le_pair_total;
  antisym = le_pair_antisym;
  trans = le_pair_trans;
}

owned_attrs-Perm : (l₁ l₂ : Attrs) → Perm l₁ l₂ → owned_attrs l₁ ≡ owned_attrs l₂
unfolding owned_attrs
owned_attrs-Perm l₁ l₂ d = ∥∥₁_elim d (hlevel) (λ e. sort-Permᴰ le_pair-IsTotalOrder e)

-- The order in which the attributes of an update are written does not matter: the instrument is the
-- same afterwards, with the attributes that it stores, and the warning is the same.
pub record_value-Perm :
    {V : Type 0} (m : Instrument V) (l₁ l₂ : Attrs) (initial : V) (update : V → V)
    (exemplar : Option Exemplar)
    → Perm l₁ l₂
    → record_value m l₁ initial update exemplar ≡ record_value m l₂ initial update exemplar
unfolding record_value
record_value-Perm m l₁ l₂ initial update exemplar d =
    rw (attrs_key-Perm l₁ l₂ d, owned_attrs-Perm l₁ l₂ d)
