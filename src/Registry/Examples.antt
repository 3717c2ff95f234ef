-- ===== src/Registry/Examples.antt =====
-- The registry of src/metrics.rs: a counter that two threads create, and two collections.
use rolly.Base.{◌≡◌, false, some, [], ◌∷◌, map}
use rolly.Base.Int.{pos}
use rolly.Base.Text.{codes}
use rolly.Metrics.{int, Counter}
use rolly.Registry.{
  Named, MetricsRegistry, find, or_insert, get_or_create, fresh_instrument, collect,
}
use rolly.Registry.Handles.{get_or_create-stable}
use rolly.Registry.Snapshots.{without_exemplars, collect-twice}

abbrev first : Counter
first = fresh_instrument (codes "requests") (codes "mine") 10

abbrev second : Counter
second = fresh_instrument (codes "requests") (codes "theirs") 20

-- Between the two locks the other thread creates the counter.
abbrev race : Named Counter → Named Counter
race t = or_insert (codes "requests") second t

abbrev same : Named Counter → Named Counter
same t = t

get_or_create-stable_example :
    (find (codes "requests") (get_or_create (codes "requests") first race []).0
      ≡ some (get_or_create (codes "requests") first race []).1)
    × (get_or_create
          (codes "requests")
          second
          same
          (get_or_create (codes "requests") first race []).0
        ≡ get_or_create (codes "requests") first race [])
    × (get_or_create
          (codes "requests")
          first
          (λ u. (get_or_create (codes "requests") second (λ v. v) u).0)
          []
        ≡ get_or_create (codes "requests") second (λ v. v) [])
get_or_create-stable_example = get_or_create-stable (codes "requests") first second race same []

abbrev registry : MetricsRegistry
registry = record {
  counters =
      (
        codes "requests",
        record {
          name = codes "requests";
          description = [];
          max_cardinality = 10;
          overflow_warned = false;
          points =
              (
                0,
                record {
                  attrs = [];
                  value = pos 3;
                  exemplar = some (record {
                    trace_id = 1 ∷ [];
                    span_id = 2 ∷ [];
                    time_unix_nano = 7;
                    value = int (pos 3);
                  });
                },
              )
              ∷ [];
        },
      )
      ∷ [];
  gauges = [];
  histograms = [];
  default_max_cardinality = 10;
}

collect-twice_example :
    (collect (collect registry).0).1 ≡ map without_exemplars (collect registry).1
collect-twice_example = collect-twice registry
