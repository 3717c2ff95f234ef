-- ===== src/Metrics/Examples.antt =====
-- The instruments of src/metrics.rs on concrete updates.
use mathlib.Core.List.{Perm}
use mathlib.Core.List.Permᴰ
use rolly.Base.{
  ℕ, suc, ◌+◌, ◌%◌, ◌^◌, ◌≡◌, ◌≤◌, inr, refl, arith, true, false, none, List, [], ◌∷◌, length, All,
  take, drop,
}
use rolly.Base.Int.{ℤ, pos, as_u64}
use rolly.Base.Text.{codes}
use rolly.Base.F64.{zero_f64, one_f64, infinity, le_f64}
use rolly.Metrics.{
  Attrs, Counter, Tracing, get, attrs_key, record_value, empty_state, bucket_index, partition_point,
  partition_loop, passes_at,
}
use rolly.Metrics.Points.{Update, record_all, record_all-bounded}
use rolly.Metrics.Lookup.{history, record_all-get}
use rolly.Metrics.Totals.{add_all, total, value_of, add_all-total}
use rolly.Metrics.Buckets.{
  IsState, IsAscending, observe_all, observe_all-counts, bucket_index-bounds,
}
use rolly.Metrics.AttrOrder.{record_value-Perm}

-- Room for one attribute set.
abbrev requests : Counter
requests = record {
  name = codes "requests";
  description = [];
  max_cardinality = 1;
  overflow_warned = false;
  points = [];
}

abbrev get_method : Attrs
get_method = (codes "method", codes "GET") ∷ []

abbrev post_method : Attrs
post_method = (codes "method", codes "POST") ∷ []

abbrev updates : List (Update ℤ)
updates =
    (get_method, pos 0, (λ t. pos 1), none)
    ∷ ((post_method, pos 0, (λ t. pos 2), none) ∷ ((post_method, pos 0, (λ t. pos 3), none) ∷ []))

record_all-bounded_example : length (record_all requests updates).0.points ≤ 1
record_all-bounded_example = record_all-bounded requests updates (omega arith)

-- Room for three.
abbrev wide : Counter
wide = record requests { max_cardinality = 3 }

record_all-get_example :
    get (attrs_key post_method) (record_all wide updates).0.points
    ≡ history (attrs_key post_method) (get (attrs_key post_method) []) updates
record_all-get_example = record_all-get (attrs_key post_method) wide updates (omega arith)

-- No subscriber is set.
abbrev silent : Tracing
silent = record { has_been_set = false; current_trace_context = none; now = 0 }

add_all-total_example :
    as_u64 (value_of get_method (add_all silent requests (3 ∷ (4 ∷ [])) get_method))
    ≡ (as_u64 (value_of get_method requests) + total (3 ∷ (4 ∷ []))) % 2 ^ 64
add_all-total_example = add_all-total silent requests (3 ∷ (4 ∷ [])) get_method (inr (omega arith))

observe_all-counts_example :
    IsState (one_f64 ∷ []) (
      observe_all
        (λ a b. b)
        (one_f64 ∷ [])
        (zero_f64 ∷ (one_f64 ∷ []))
        (empty_state (one_f64 ∷ [])))
    × ((observe_all
          (λ a b. b)
          (one_f64 ∷ [])
          (zero_f64 ∷ (one_f64 ∷ []))
          (empty_state (one_f64 ∷ []))).count
        ≡ 2)
observe_all-counts_example =
    observe_all-counts (λ a b. b) (one_f64 ∷ []) (zero_f64 ∷ (one_f64 ∷ [])) (omega arith)

abbrev boundaries : List ℕ
boundaries = zero_f64 ∷ (one_f64 ∷ (infinity ∷ []))

boundaries-IsAscending : IsAscending boundaries
unfolding IsAscending le_f64
boundaries-IsAscending = ((refl, (refl, tt)), ((refl, tt), (tt, tt)))

second_bucket : bucket_index boundaries one_f64 ≡ 2
unfolding bucket_index partition_point partition_loop passes_at le_f64
second_bucket = refl

-- With NaN in the middle, the search still finds the place of a value below it.
around_nan : bucket_index (zero_f64 ∷ (suc infinity ∷ (one_f64 ∷ []))) zero_f64 ≡ 1
unfolding bucket_index partition_point partition_loop passes_at le_f64
around_nan = refl

bucket_index-bounds_example :
    All (λ b. le_f64 b one_f64 ≡ true) (take (bucket_index boundaries one_f64) boundaries)
    × All (λ b. le_f64 b one_f64 ≡ false) (drop (bucket_index boundaries one_f64) boundaries)
bucket_index-bounds_example = bucket_index-bounds boundaries one_f64 boundaries-IsAscending

swapped :
    Perm
      ((codes "a", codes "1") ∷ get_method)
      ((codes "method", codes "GET") ∷ ((codes "a", codes "1") ∷ []))
swapped = ∣ Permᴰ.swap refl refl ∣₁

record_value-Perm_example :
    record_value requests ((codes "a", codes "1") ∷ get_method) (pos 0) (λ t. pos 1) none
    ≡ record_value requests
        ((codes "method", codes "GET") ∷ ((codes "a", codes "1") ∷ []))
        (pos 0)
        (λ t. pos 1)
        none
record_value-Perm_example = record_value-Perm requests _ _ (pos 0) (λ t. pos 1) none swapped
