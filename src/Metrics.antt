-- ===== src/Metrics.antt =====
-- src/metrics.rs: instruments, their data, and the registry. A `HashMap` is an association list, a
-- handle (`Counter`, `Gauge`, `Histogram`) is the `Inner` that its `Arc` shares, and a method returns
-- the new one. A string is the list of its bytes and an `f64` its bit pattern.
pub mod Points
pub mod Lookup
pub mod Partition
pub mod Buckets
pub mod Hash
pub mod AttrOrder
pub mod Totals
mod Examples
use rolly.Base.{
  ℕ, zero, suc, ◌+◌, ◌-◌, ◌*◌, ◌/◌, ◌%◌, ◌^◌, bit_xor, Bool, true, false, not, ◌&&◌, Option, none,
  some, List, [], ◌∷◌, ltb, leb, ◌==◌, if◌then◌else◌, length, replicate, get_elem?,
}
use rolly.Base.Int.{ℤ, pos, as_u64, as_i64}
use rolly.Base.F64.{lt_f64, le_f64, zero_f64, infinity, neg_infinity}
use rolly.Base.Bytes.{beq_bytes}
use rolly.Base.Sorting.{sort}

abbrev pub Attrs : Type 0
Attrs = List (List ℕ × List ℕ)

pub data ExemplarValue : Type 0 where
  int : ℤ → ExemplarValue
  double : ℕ → ExemplarValue

pub record Exemplar : Type 0 where
  pub trace_id : List ℕ
  pub span_id : List ℕ
  pub time_unix_nano : ℕ
  pub value : ExemplarValue

-- What the thread's subscriber answers: is there one, the IDs of the nearest span with `SpanFields`,
-- and the clock.
pub record Tracing : Type 0 where
  pub has_been_set : Bool
  pub current_trace_context : Option (List ℕ × List ℕ)
  pub now : ℕ

-- `trace_id == [0u8; 16]`
is_zero_id : List ℕ → Bool
unfolding beq_bytes
is_zero_id id = beq_bytes id (replicate 16 0)

exemplar_at : Option (List ℕ × List ℕ) → ℕ → ExemplarValue → Option Exemplar
exemplar_at none now v = none
exemplar_at (some (t, s)) now v =
    if is_zero_id t
    then none
    else some (record { trace_id = t; span_id = s; time_unix_nano = now; value = v })

pub capture_exemplar : Tracing → ExemplarValue → Option Exemplar
unfolding exemplar_at
capture_exemplar env v =
    if not env.has_been_set then none else exemplar_at env.current_trace_context env.now v

-- The hash of attributes: FNV-1a of each pair, added up so that the order does not matter.
abbrev pub fnv_offset : ℕ
fnv_offset = 0xcbf29ce484222325

abbrev pub fnv_prime : ℕ
fnv_prime = 0x100000001b3

fnv_byte : ℕ → ℕ → ℕ
fnv_byte h byte = bit_xor h byte * fnv_prime % 2 ^ 64

fnv_bytes : ℕ → List ℕ → ℕ
unfolding fnv_byte
fnv_bytes h [] = h
fnv_bytes h (byte ∷ bytes) = fnv_bytes (fnv_byte h byte) bytes

pub pair_hash : List ℕ × List ℕ → ℕ
unfolding fnv_bytes fnv_byte
pair_hash (k, v) = fnv_bytes (fnv_byte (fnv_bytes fnv_offset k) 0xff) v

unfoldable pub hash_loop : ℕ → Attrs → ℕ
hash_loop combined [] = combined
hash_loop combined (p ∷ ps) = hash_loop ((combined + pair_hash p) % 2 ^ 64) ps

unfoldable pub attrs_hash_unordered : Attrs → ℕ
unfolding hash_loop
attrs_hash_unordered attrs = hash_loop 0 attrs

-- `if attrs.is_empty() { 0 } else { attrs_hash_unordered(attrs) }`
pub attrs_key : Attrs → ℕ
attrs_key [] = 0
attrs_key (p ∷ ps) = attrs_hash_unordered (p ∷ ps)

-- Strings compare by their bytes, pairs by the key and then by the value.
pub le_bytes : List ℕ → List ℕ → Bool
le_bytes [] bs = true
le_bytes (a ∷ r) [] = false
le_bytes (a ∷ r) (b ∷ bs) = if a == b then le_bytes r bs else ltb a b

pub le_pair : List ℕ × List ℕ → List ℕ × List ℕ → Bool
le_pair (k, v) (k', v') = if beq_bytes k k' then le_bytes v v' else le_bytes k k'

pub owned_attrs : Attrs → Attrs
owned_attrs attrs = sort le_pair attrs

-- `HashMap<u64, V>`: no key stands twice.
abbrev pub Table : Type 0 → Type 0
Table V = List (ℕ × V)

module _ {V : Type 0} where
  unfoldable pub get : ℕ → Table V → Option V
  get key [] = none
  get key ((k, v) ∷ t) = if k == key then some v else get key t

  unfoldable pub contains_key : ℕ → Table V → Bool
  contains_key key [] = false
  contains_key key ((k, v) ∷ t) = if k == key then true else contains_key key t

  -- `update(data.entry(key).or_insert_with(|| fresh))`
  unfoldable pub upsert : ℕ → V → (V → V) → Table V → Table V
  upsert key fresh update [] = (key, update fresh) ∷ []
  upsert key fresh update ((k, v) ∷ t) =
      if k == key then (k, update v) ∷ t else (k, v) ∷ upsert key fresh update t

-- An attribute set with its value and the last exemplar.
pub record Point (V : Type 0) : Type 0 where
  pub attrs : Attrs
  pub value : V
  pub exemplar : Option Exemplar

-- What the three kinds of instruments share: `CounterInner` and `GaugeInner` are no more.
pub record Instrument (V : Type 0) : Type 0 where
  pub name : List ℕ
  pub description : List ℕ
  pub max_cardinality : ℕ
  pub overflow_warned : Bool
  pub points : Table (Point V)

-- `if exemplar.is_some() { entry.2 = exemplar; }`
unfoldable pub newer : Option Exemplar → Option Exemplar → Option Exemplar
newer none old = old
newer (some e) old = some e

module _ {V : Type 0} where
  -- The new entry, or the one at hand, after the update of its value.
  unfoldable pub recorded : Option Exemplar → (V → V) → Point V → Point V
  unfolding newer
  recorded exemplar update p = record p {
    value = update p.value;
    exemplar = newer exemplar p.exemplar;
  }

  abbrev pub fresh_point : Attrs → V → Point V
  fresh_point attrs initial = record { attrs = owned_attrs attrs; value = initial; exemplar = none }

  -- The common part of `add`, `set` and `observe`. The flag of the result says that the overflow
  -- warning was emitted.
  unfoldable pub record_value :
      Instrument V → Attrs → V → (V → V) → Option Exemplar → Instrument V × Bool
  unfolding recorded
  record_value m attrs initial update exemplar =
      if not (contains_key (attrs_key attrs) m.points) && leb m.max_cardinality (length m.points)
      then (record m { overflow_warned = true }, not m.overflow_warned)
      else (
        record m {
          points =
              upsert (attrs_key attrs) (fresh_point attrs initial) (recorded exemplar update)
                m.points;
        },
        false,
      )

abbrev pub Counter : Type 0
Counter = Instrument ℤ

abbrev pub Gauge : Type 0
Gauge = Instrument ℕ

-- `entry.1 += value as i64`, which wraps in a release build.
unfoldable pub add_i64 : ℤ → ℕ → ℤ
add_i64 total value = as_i64 ((as_u64 total + value) % 2 ^ 64)

unfoldable pub add : Tracing → Counter → ℕ → Attrs → Counter × Bool
add env c value attrs =
    record_value c attrs (pos 0) (λ total. add_i64 total value)
      (capture_exemplar env (int (as_i64 value)))

unfoldable pub set : Tracing → Gauge → ℕ → Attrs → Gauge × Bool
set env g value attrs =
    record_value g attrs zero_f64 (λ _. value) (capture_exemplar env (double value))

pub record HistogramState : Type 0 where
  pub bucket_counts : List ℕ
  pub sum : ℕ
  pub count : ℕ
  pub min : ℕ
  pub max : ℕ

-- `HistogramInner`
pub record Histogram : Type 0 where
  pub boundaries : List ℕ
  pub inner : Instrument HistogramState

passes : (ℕ → Bool) → Option ℕ → Bool
passes p none = false
passes p (some b) = p b

-- The test at an index that is in range.
unfoldable pub passes_at : (ℕ → Bool) → List ℕ → ℕ → Bool
unfolding passes
passes_at p bs i = passes p (get_elem? bs i)

-- The loop of the standard library's binary search (since Rust 1.82), which halves the range of `size`
-- elements from `base` on until one is left. The length of the slice is enough fuel.
unfoldable pub partition_loop : (ℕ → Bool) → List ℕ → ℕ → ℕ → ℕ → ℕ
unfolding passes_at
partition_loop p bs zero base size = base
partition_loop p bs (suc fuel) base size =
    let half = size / 2 in
    let rest =
      partition_loop p bs fuel (if passes_at p bs (base + half) then base + half else base)
        (size - half) in
    if ltb 1 size then rest else base

-- `partition_point`
unfoldable pub partition_point : (ℕ → Bool) → List ℕ → ℕ
unfolding partition_loop passes_at
partition_point p [] = 0
partition_point p (b ∷ bs) =
    let base = partition_loop p (b ∷ bs) (length (b ∷ bs)) 0 (length (b ∷ bs)) in
    if passes_at p (b ∷ bs) base then base + 1 else base

-- `counts[i] += 1`; the index is in range.
unfoldable pub increment : ℕ → List ℕ → List ℕ
increment i [] = []
increment zero (c ∷ cs) = (c + 1) % 2 ^ 64 ∷ cs
increment (suc i) (c ∷ cs) = c ∷ increment i cs

unfoldable pub bucket_index : List ℕ → ℕ → ℕ
unfolding le_f64
bucket_index boundaries value = partition_point (λ b. le_f64 b value) boundaries

unfoldable pub empty_state : List ℕ → HistogramState
empty_state boundaries = record {
  bucket_counts = replicate (length boundaries + 1) 0;
  sum = zero_f64;
  count = 0;
  min = infinity;
  max = neg_infinity;
}

-- The rounded sum of two `f64` is a parameter.
module _ (add_f64 : ℕ → ℕ → ℕ) where
  unfoldable pub observe_state : List ℕ → ℕ → HistogramState → HistogramState
  unfolding increment bucket_index lt_f64
  observe_state boundaries value s = record {
    bucket_counts = increment (bucket_index boundaries value) s.bucket_counts;
    sum = add_f64 s.sum value;
    count = (s.count + 1) % 2 ^ 64;
    min = if lt_f64 value s.min then value else s.min;
    max = if lt_f64 s.max value then value else s.max;
  }

  unfoldable pub observe : Tracing → Histogram → ℕ → Attrs → Histogram × Bool
  observe env h value attrs =
      let (inner', warned) =
        record_value h.inner attrs (empty_state h.boundaries) (observe_state h.boundaries value)
          (capture_exemplar env (double value)) in
      (record h { inner = inner' }, warned)
