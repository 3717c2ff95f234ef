-- ===== src/Metrics/Points.antt =====
-- The limit on attribute sets that `add`, `set` and `observe` of src/metrics.rs share.
use rolly.Base.{
  ℕ, suc, ◌≡◌, refl, ◌⊎◌, ◌+◌, ◌≤◌, ◌<◌, arith, Bool, true, false, not, ◌&&◌, Option, none, some,
  List, [], ◌∷◌, leb, ◌==◌, if◌then◌else◌, length,
}
use rolly.Metrics.{
  Attrs, Exemplar, Table, get, contains_key, upsert, Instrument, recorded, record_value, attrs_key,
  fresh_point,
}

-- The value at hand, or the fresh one.
abbrev pub at_hand : {V : Type 0} → V → Option V → V
at_hand fresh none = fresh
at_hand fresh (some v) = v

-- An update of one value: the attributes, the value of a new point, the change and the exemplar.
abbrev pub Update : Type 0 → Type 0
Update V = Attrs × V × (V → V) × Option Exemplar

-- The warnings that are left: one until the flag is set.
abbrev pub left : Bool → ℕ
left warned = if warned then 0 else 1

guard_if :
    (known : Bool) (size limit : ℕ)
    → known ≡ true ⊎ size < limit
    → (not known && leb limit size) ≡ false
guard_if known size limit h = ground (arith, h)

module _ {V : Type 0} where
  length-upsert :
      (key : ℕ) (fresh : V) (update : V → V) (t : Table V)
      → length (upsert key fresh update t) ≡ (if contains_key key t then length t else length t + 1)
  unfolding upsert contains_key
  length-upsert key fresh update [] = refl
  length-upsert key fresh update ((k, v) ∷ t) = ground (arith, length-upsert key fresh update t)

  get-upsert-same :
      (key : ℕ) (fresh : V) (update : V → V) (t : Table V)
      → get key (upsert key fresh update t) ≡ some (update (at_hand fresh (get key t)))
  unfolding upsert get
  get-upsert-same key fresh update [] = ground arith
  get-upsert-same key fresh update ((k, v) ∷ t) = ground (arith, get-upsert-same key fresh update t)

  get-upsert-other :
      (key other : ℕ) (fresh : V) (update : V → V) (t : Table V)
      → key == other ≡ false
      → get other (upsert key fresh update t) ≡ get other t
  unfolding upsert get
  get-upsert-other key other fresh update [] h = rw (h)
  get-upsert-other key other fresh update ((k, v) ∷ t) h =
      ground (arith, h, get-upsert-other key other fresh update t h)

  get-none : (key : ℕ) (t : Table V) → contains_key key t ≡ false → get key t ≡ none
  unfolding get contains_key
  get-none key [] h = refl
  get-none key ((k, v) ∷ t) h = ground (arith, get-none key t)

module _ {V : Type 0} where
  -- The instrument after a sequence of updates, with the number of overflow warnings.
  unfoldable pub record_all : Instrument V → List (Update V) → Instrument V × ℕ
  unfolding record_value
  record_all m [] = (m, 0)
  record_all m ((attrs, initial, update, exemplar) ∷ rest) =
      let (m', warned) = record_value m attrs initial update exemplar in
      let (last, warnings) = record_all m' rest in (last, if warned then suc warnings else warnings)

  record_value-bounded :
      (m : Instrument V) (attrs : Attrs) (initial : V) (update : V → V) (exemplar : Option Exemplar)
      → length m.points ≤ m.max_cardinality
      → (length (record_value m attrs initial update exemplar).0.points ≤ m.max_cardinality)
        × ((record_value m attrs initial update exemplar).0.max_cardinality ≡ m.max_cardinality)
  unfolding record_value
  record_value-bounded m attrs initial update exemplar h = ground (
    arith,
    length-upsert (attrs_key attrs) (fresh_point attrs initial) (recorded exemplar update) m.points,
  )

  -- However many updates are made, an instrument whose attribute sets are within its limit stays
  -- within the same limit.
  pub record_all-bounded :
      (m : Instrument V) (updates : List (Update V))
      → length m.points ≤ m.max_cardinality
      → length (record_all m updates).0.points ≤ m.max_cardinality
  unfolding record_all
  record_all-bounded m [] h = h
  record_all-bounded m ((attrs, initial, update, exemplar) ∷ rest) h =
      let (bounded, same) = record_value-bounded m attrs initial update exemplar h in
      omega (
        arith,
        same,
        bounded,
        record_all-bounded (record_value m attrs initial update exemplar).0 rest
            (omega (arith, bounded, same)),
      )

  record_value-warns :
      (m : Instrument V) (attrs : Attrs) (initial : V) (update : V → V) (exemplar : Option Exemplar)
      (n : ℕ)
      → n ≤ left (record_value m attrs initial update exemplar).0.overflow_warned
      → (if (record_value m attrs initial update exemplar).1 then suc n else n)
        ≤ left m.overflow_warned
  unfolding record_value
  record_value-warns m attrs initial update exemplar n h = ground (arith, h)

  -- The overflow warning is emitted at most once in the life of an instrument, and never if the
  -- flag is set already.
  record_all-warns_once :
      (m : Instrument V) (updates : List (Update V))
      → (record_all m updates).1 ≤ left m.overflow_warned
  unfolding record_all
  record_all-warns_once m [] = omega arith
  record_all-warns_once m ((attrs, initial, update, exemplar) ∷ rest) =
      record_value-warns m attrs initial update exemplar _
        (record_all-warns_once (record_value m attrs initial update exemplar).0 rest)

  record_value-room :
      (m : Instrument V) (attrs : Attrs) (initial : V) (update : V → V) (exemplar : Option Exemplar)
      → contains_key (attrs_key attrs) m.points ≡ true ⊎ length m.points < m.max_cardinality
      → (record_value m attrs initial update exemplar).0.points
        ≡ upsert (attrs_key attrs) (fresh_point attrs initial) (recorded exemplar update) m.points
  unfolding record_value
  record_value-room m attrs initial update exemplar h = rw (guard_if _ _ m.max_cardinality h)

  pub record_value-get-same :
      (m : Instrument V) (attrs : Attrs) (initial : V) (update : V → V) (exemplar : Option Exemplar)
      → (contains_key (attrs_key attrs) m.points ≡ true) ⊎ (length m.points < m.max_cardinality)
      → get (attrs_key attrs) (record_value m attrs initial update exemplar).0.points
        ≡ some (
            recorded exemplar update
              (at_hand (fresh_point attrs initial) (get (attrs_key attrs) m.points)))
  record_value-get-same m attrs initial update exemplar h = rw (
    record_value-room m attrs initial update exemplar h,
    get-upsert-same (attrs_key attrs) (fresh_point attrs initial) (recorded exemplar update)
        m.points,
  )

  pub record_value-get-other :
      (m : Instrument V) (attrs : Attrs) (initial : V) (update : V → V) (exemplar : Option Exemplar)
      (other : ℕ)
      → (contains_key (attrs_key attrs) m.points ≡ true) ⊎ (length m.points < m.max_cardinality)
      → attrs_key attrs == other ≡ false
      → get other (record_value m attrs initial update exemplar).0.points ≡ get other m.points
  record_value-get-other m attrs initial update exemplar other h k = rw (
    record_value-room m attrs initial update exemplar h,
    get-upsert-other (attrs_key attrs) other (fresh_point attrs initial) (recorded exemplar update)
        m.points k,
  )

  -- An update adds one point at most.
  pub record_value-grows :
      (m : Instrument V) (attrs : Attrs) (initial : V) (update : V → V) (exemplar : Option Exemplar)
      → (length (record_value m attrs initial update exemplar).0.points ≤ length m.points + 1)
        × ((record_value m attrs initial update exemplar).0.max_cardinality ≡ m.max_cardinality)
  unfolding record_value
  record_value-grows m attrs initial update exemplar = ground (
    arith,
    length-upsert (attrs_key attrs) (fresh_point attrs initial) (recorded exemplar update) m.points,
  )
