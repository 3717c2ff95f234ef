-- ===== src/Registry.antt =====
-- src/metrics.rs: `MetricsRegistry`. A handle that a caller holds shares its `Inner` with the
-- registry, which never removes or replaces an entry: a call on a handle is one on the entry of its
-- name. The maps' order of iteration, which Rust leaves open, is here the order of creation.
pub mod Handles
pub mod Snapshots
mod Examples
use rolly.Base.{ℕ, Bool, true, false, Option, none, some, List, [], ◌∷◌, ◌++◌, if◌then◌else◌}
use rolly.Base.Int.{ℤ}
use rolly.Base.F64.{lt_f64, eq_f64}
use rolly.Base.Bytes.{beq_bytes}
use rolly.Base.Sorting.{sort, dedup}
use rolly.Metrics.{Table, Point, Instrument, Counter, Gauge, HistogramState, Histogram}

-- `HashMap<String, T>`
abbrev pub Named : Type 0 → Type 0
Named T = List (List ℕ × T)

module _ {T : Type 0} where
  unfoldable pub find : List ℕ → Named T → Option T
  find name [] = none
  find name ((n, x) ∷ t) = if beq_bytes n name then some x else find name t

  -- `map.entry(name).or_insert_with(|| fresh)`
  unfoldable pub or_insert : List ℕ → T → Named T → Named T
  or_insert name fresh [] = (name, fresh) ∷ []
  or_insert name fresh ((n, x) ∷ t) =
      if beq_bytes n name then (n, x) ∷ t else (n, x) ∷ or_insert name fresh t

  -- The entry that `or_insert` returns.
  unfoldable pub inserted : List ℕ → T → Named T → T
  inserted name fresh [] = fresh
  inserted name fresh ((n, x) ∷ t) = if beq_bytes n name then x else inserted name fresh t

  -- A call through a handle: the entry of that name changes.
  pub modify : List ℕ → (T → T) → Named T → Named T
  modify name f [] = []
  modify name f ((n, x) ∷ t) = if beq_bytes n name then (n, f x) ∷ t else (n, x) ∷ modify name f t

pub record MetricsRegistry : Type 0 where
  pub counters : Named Counter
  pub gauges : Named Gauge
  pub histograms : Named Histogram
  pub default_max_cardinality : ℕ

abbrev pub default_limit : ℕ
default_limit = 2000

pub with_max_cardinality : ℕ → MetricsRegistry
with_max_cardinality max_cardinality = record {
  counters = [];
  gauges = [];
  histograms = [];
  default_max_cardinality = max_cardinality;
}

pub new : MetricsRegistry
unfolding with_max_cardinality
new = with_max_cardinality default_limit

pub fresh_instrument : {V : Type 0} → List ℕ → List ℕ → ℕ → Instrument V
fresh_instrument name description max_cardinality = record {
  name = name;
  description = description;
  max_cardinality = max_cardinality;
  overflow_warned = false;
  points = [];
}

-- The slow path, under the write lock.
module _ {T : Type 0} where
  unfoldable pub get_or_create_slow : List ℕ → T → Named T → Named T × T
  get_or_create_slow name fresh t = (or_insert name fresh t, inserted name fresh t)

  -- The fast path, under the read lock, and then the slow one. Between the two locks other threads
  -- may change the map: `later` is what they make of it.
  unfoldable pub get_or_create : List ℕ → T → (Named T → Named T) → Named T → Named T × T
  get_or_create name fresh later t = elim (find name t) [
    | some x ↦ (t, x)
    | none ↦ get_or_create_slow name fresh (later t)
  ]

-- Alone, without another thread between the locks.
abbrev undisturbed : {T : Type 0} → Named T → Named T
undisturbed t = t

unfoldable pub counter_with_max_cardinality :
    MetricsRegistry → List ℕ → List ℕ → ℕ → MetricsRegistry × Counter
unfolding get_or_create get_or_create_slow fresh_instrument
counter_with_max_cardinality r name description max_cardinality =
    let (t, c) =
      get_or_create name (fresh_instrument name description max_cardinality) undisturbed
        r.counters in
    (record r { counters = t }, c)

pub counter : MetricsRegistry → List ℕ → List ℕ → MetricsRegistry × Counter
unfolding counter_with_max_cardinality
counter r name description =
    counter_with_max_cardinality r name description r.default_max_cardinality

pub gauge_with_max_cardinality : MetricsRegistry → List ℕ → List ℕ → ℕ → MetricsRegistry × Gauge
unfolding get_or_create get_or_create_slow fresh_instrument
gauge_with_max_cardinality r name description max_cardinality =
    let (t, g) =
      get_or_create name (fresh_instrument name description max_cardinality) undisturbed r.gauges in
    (record r { gauges = t }, g)

pub gauge : MetricsRegistry → List ℕ → List ℕ → MetricsRegistry × Gauge
unfolding gauge_with_max_cardinality
gauge r name description = gauge_with_max_cardinality r name description r.default_max_cardinality

-- `sort_by(partial_cmp or Equal)`: `a` may stay before `b` unless it is greater.
le_or_unordered : ℕ → ℕ → Bool
unfolding lt_f64
le_or_unordered a b = if lt_f64 b a then false else true

pub sorted_boundaries : List ℕ → List ℕ
unfolding le_or_unordered
sorted_boundaries boundaries = dedup eq_f64 (sort le_or_unordered boundaries)

pub histogram_with_max_cardinality :
    MetricsRegistry → List ℕ → List ℕ → List ℕ → ℕ → MetricsRegistry × Histogram
unfolding get_or_create get_or_create_slow fresh_instrument sorted_boundaries
histogram_with_max_cardinality r name description boundaries max_cardinality =
    let (t, h) =
      get_or_create name
        (record {
          boundaries = sorted_boundaries boundaries;
          inner = fresh_instrument name description max_cardinality;
        })
        undisturbed r.histograms in
    (record r { histograms = t }, h)

pub histogram : MetricsRegistry → List ℕ → List ℕ → List ℕ → MetricsRegistry × Histogram
unfolding histogram_with_max_cardinality
histogram r name description boundaries =
    histogram_with_max_cardinality r name description boundaries r.default_max_cardinality

-- Snapshots. `exemplar.take()` leaves nothing behind.
pub data MetricSnapshot : Type 0 where
  counter_snapshot : List ℕ → List ℕ → List (Point ℤ) → MetricSnapshot
  gauge_snapshot : List ℕ → List ℕ → List (Point ℕ) → MetricSnapshot
  histogram_snapshot : List ℕ → List ℕ → List ℕ → List (Point HistogramState) → MetricSnapshot

module _ {V : Type 0} where
  unfoldable pub take_exemplars : Table (Point V) → Table (Point V)
  take_exemplars [] = []
  take_exemplars ((k, p) ∷ t) = (k, record p { exemplar = none }) ∷ take_exemplars t

  unfoldable pub values : Table (Point V) → List (Point V)
  values [] = []
  values ((k, p) ∷ t) = p ∷ values t

  unfoldable pub drained : Instrument V → Instrument V
  unfolding take_exemplars
  drained m = record m { points = take_exemplars m.points }

-- The snapshot of one instrument before those of the rest; one without data is passed over.
unfoldable pub present :
    {V : Type 0}
    → (List (Point V) → MetricSnapshot)
    → Table (Point V)
    → List MetricSnapshot
    → List MetricSnapshot
unfolding values
present snapshot [] rest = rest
present snapshot ((k, p) ∷ t) rest = snapshot (p ∷ values t) ∷ rest

unfoldable pub counter_snapshots : Named Counter → List MetricSnapshot
unfolding present
counter_snapshots [] = []
counter_snapshots ((n, c) ∷ t) =
    present (counter_snapshot c.name c.description) c.points (counter_snapshots t)

unfoldable pub gauge_snapshots : Named Gauge → List MetricSnapshot
unfolding present
gauge_snapshots [] = []
gauge_snapshots ((n, g) ∷ t) =
    present (gauge_snapshot g.name g.description) g.points (gauge_snapshots t)

unfoldable pub histogram_snapshots : Named Histogram → List MetricSnapshot
unfolding present
histogram_snapshots [] = []
histogram_snapshots ((n, h) ∷ t) =
    present (histogram_snapshot h.inner.name h.inner.description h.boundaries) h.inner.points
      (histogram_snapshots t)

module _ {T : Type 0} where
  unfoldable pub map_values : (T → T) → Named T → Named T
  map_values f [] = []
  map_values f ((n, x) ∷ t) = (n, f x) ∷ map_values f t

unfoldable pub collect : MetricsRegistry → MetricsRegistry × List MetricSnapshot
unfolding drained map_values counter_snapshots gauge_snapshots histogram_snapshots
collect r = (
  record r {
    counters = map_values drained r.counters;
    gauges = map_values drained r.gauges;
    histograms = map_values (λ h. record h { inner = drained h.inner }) r.histograms;
  },
  counter_snapshots r.counters ++ (gauge_snapshots r.gauges ++ histogram_snapshots r.histograms),
)
