-- ===== src/Registry/Snapshots.antt =====
-- What `collect` of src/metrics.rs returns and leaves behind.
use mathlib.Core.List.{map-append}
use rolly.Base.{◌≡◌, refl, ap, ◌∙◌, none, List, [], ◌∷◌, map, sym}
use rolly.Metrics.{Point, Table, Counter, Gauge, Histogram}
use rolly.Registry.{
  Named, MetricsRegistry, MetricSnapshot, counter_snapshot, gauge_snapshot, histogram_snapshot,
  take_exemplars, values, present, drained, counter_snapshots, gauge_snapshots, histogram_snapshots,
  map_values, collect,
}

without_exemplar : {V : Type 0} → Point V → Point V
without_exemplar p = record p { exemplar = none }

-- The snapshot with the exemplar of every point taken off.
unfoldable pub without_exemplars : MetricSnapshot → MetricSnapshot
unfolding without_exemplar
without_exemplars (counter_snapshot name description points) =
    counter_snapshot name description (map without_exemplar points)
without_exemplars (gauge_snapshot name description points) =
    gauge_snapshot name description (map without_exemplar points)
without_exemplars (histogram_snapshot name description boundaries points) =
    histogram_snapshot name description boundaries (map without_exemplar points)

module _ {V : Type 0} where
  values-take_exemplars :
      (t : Table (Point V)) → values (take_exemplars t) ≡ map without_exemplar (values t)
  unfolding values take_exemplars without_exemplar
  values-take_exemplars [] = refl
  values-take_exemplars ((k, p) ∷ t) =
      ap (λ ps. (record p { exemplar = none }) ∷ ps) (values-take_exemplars t)

  take_exemplars-twice :
      (t : Table (Point V)) → take_exemplars (take_exemplars t) ≡ take_exemplars t
  unfolding take_exemplars
  take_exemplars-twice [] = refl
  take_exemplars-twice ((k, p) ∷ t) =
      ap (λ ps. (k, record p { exemplar = none }) ∷ ps) (take_exemplars-twice t)

present-drained :
    {V : Type 0} (snapshot : List (Point V) → MetricSnapshot) (t : Table (Point V))
    {rest : List MetricSnapshot} (rest' : List MetricSnapshot)
    → ((ps : List (Point V)) → without_exemplars (snapshot ps) ≡ snapshot (map without_exemplar ps))
    → rest ≡ map without_exemplars rest'
    → present snapshot (take_exemplars t) rest ≡ map without_exemplars (present snapshot t rest')
unfolding present take_exemplars without_exemplar
present-drained snapshot [] rest' hs e = e
present-drained snapshot ((k, p) ∷ t) {rest} rest' hs e =
    ap (λ ps. snapshot (record p { exemplar = none } ∷ ps) ∷ rest) (values-take_exemplars t)
    ∙ ap (λ l. snapshot (map without_exemplar (p ∷ values t)) ∷ l) e
    ∙ ap (λ x. x ∷ map without_exemplars rest') (sym (hs (p ∷ values t)))

counter_snapshots-drained :
    (t : Named Counter)
    → counter_snapshots (map_values drained t) ≡ map without_exemplars (counter_snapshots t)
unfolding counter_snapshots map_values drained without_exemplars
counter_snapshots-drained [] = refl
counter_snapshots-drained ((n, c) ∷ t) =
    present-drained (counter_snapshot c.name c.description) c.points (counter_snapshots t)
      (λ ps. refl) (counter_snapshots-drained t)

gauge_snapshots-drained :
    (t : Named Gauge)
    → gauge_snapshots (map_values drained t) ≡ map without_exemplars (gauge_snapshots t)
unfolding gauge_snapshots map_values drained without_exemplars
gauge_snapshots-drained [] = refl
gauge_snapshots-drained ((n, g) ∷ t) =
    present-drained (gauge_snapshot g.name g.description) g.points (gauge_snapshots t) (λ ps. refl)
      (gauge_snapshots-drained t)

histogram_snapshots-drained :
    (t : Named Histogram)
    → histogram_snapshots (map_values (λ h. record h { inner = drained h.inner }) t)
      ≡ map without_exemplars (histogram_snapshots t)
unfolding histogram_snapshots map_values drained without_exemplars
histogram_snapshots-drained [] = refl
histogram_snapshots-drained ((n, h) ∷ t) =
    present-drained (histogram_snapshot h.inner.name h.inner.description h.boundaries)
      h.inner.points (histogram_snapshots t) (λ ps. refl) (histogram_snapshots-drained t)

-- A second `collect` with no update between sees the same instruments with the same points and
-- values, but no exemplar: the first has taken them all.
pub collect-twice :
    (r : MetricsRegistry) → (collect (collect r).0).1 ≡ map without_exemplars (collect r).1
unfolding collect
collect-twice r = rw (
  counter_snapshots-drained r.counters,
  gauge_snapshots-drained r.gauges,
  histogram_snapshots-drained r.histograms,
  map-append,
  map-append,
)
