-- ===== src/Metrics/Totals.antt =====
-- The value of a counter of src/metrics.rs after a sequence of `add`.
use rolly.Base.{
  ℕ, ◌≡◌, ap, ◌∙◌, ◌+◌, ◌%◌, ◌^◌, ◌<◌, ◌⊎◌, inl, arith, true, some, List, [], ◌∷◌, length,
}
use rolly.Base.Int.{ℤ, pos, as_u64, as_i64, as_u64-lt, as_u64-as_i64}
use rolly.Metrics.{
  Attrs, Table, Counter, Tracing, get, contains_key, fresh_point, capture_exemplar, recorded, add,
  add_i64, attrs_key, ExemplarValue,
}
use rolly.Metrics.Points.{at_hand, record_value-get-same}

pub add_all : Tracing → Counter → List ℕ → Attrs → Counter
unfolding add
add_all env c [] attrs = c
add_all env c (v ∷ vs) attrs = add_all env (add env c v attrs).0 vs attrs

unfoldable pub total : List ℕ → ℕ
total [] = 0
total (v ∷ vs) = v + total vs

-- The value that an attribute set has, 0 if it is new.
unfoldable pub value_of : Attrs → Counter → ℤ
value_of attrs c = (at_hand (fresh_point attrs (pos 0)) (get (attrs_key attrs) c.points)).value

as_u64-add_i64 : (t : ℤ) (v : ℕ) → as_u64 (add_i64 t v) ≡ (as_u64 t + v) % 2 ^ 64
unfolding add_i64
as_u64-add_i64 t v = as_u64-as_i64 ((as_u64 t + v) % 2 ^ 64) (omega arith)

get→contains_key :
    {V : Type 0} (key : ℕ) (t : Table V) (v : V) → get key t ≡ some v → contains_key key t ≡ true
unfolding get contains_key
get→contains_key key [] v h = ground arith
get→contains_key key ((k, w) ∷ t) v h = ground (arith, get→contains_key key t v)

-- `add` on a set that is known or has room.
add-value :
    (env : Tracing) (c : Counter) (v : ℕ) (attrs : Attrs)
    → (contains_key (attrs_key attrs) c.points ≡ true) ⊎ (length c.points < c.max_cardinality)
    → (contains_key (attrs_key attrs) (add env c v attrs).0.points ≡ true)
      × (as_u64 (value_of attrs (add env c v attrs).0) ≡ (as_u64 (value_of attrs c) + v) % 2 ^ 64)
unfolding add value_of recorded
add-value env c v attrs h =
    let here =
      record_value-get-same c attrs (pos 0) (λ total. add_i64 total v)
        (capture_exemplar env (ExemplarValue.int (as_i64 v))) h in
    (
      get→contains_key (attrs_key attrs) _ _ here,
      ap (λ o. as_u64 (at_hand (fresh_point attrs (pos 0)) o).value) here
          ∙ as_u64-add_i64 (value_of attrs c) v,
    )

-- The value of an attribute set after the additions, as a bit pattern, is the sum of its value and
-- of all that was added, modulo 2^64, if the set is known or there is room for it.
pub add_all-total :
    (env : Tracing) (c : Counter) (vs : List ℕ) (attrs : Attrs)
    → (contains_key (attrs_key attrs) c.points ≡ true) ⊎ (length c.points < c.max_cardinality)
    → as_u64 (value_of attrs (add_all env c vs attrs))
      ≡ (as_u64 (value_of attrs c) + total vs) % 2 ^ 64
unfolding add_all total
add_all-total env c [] attrs h = omega (arith, as_u64-lt (value_of attrs c))
add_all-total env c (v ∷ vs) attrs h =
    let (known, value) = add-value env c v attrs h in
    omega (arith, value, add_all-total env (add env c v attrs).0 vs attrs (inl known))
