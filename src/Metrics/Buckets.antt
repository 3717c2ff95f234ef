-- ===== src/Metrics/Buckets.antt =====
-- The buckets of a histogram in src/metrics.rs, `observe`.
use rolly.Base.{
  ◌++◌, take-append, drop-append, ℕ, zero, suc, ◌≡◌, refl, ap, ◌+◌, ◌^◌, ◌≤◌, ◌<◌, arith, Bool,
  true, false, List, [], ◌∷◌, length, take, drop, All, replicate,
}
use rolly.Base.F64.{le_f64, le_f64_trans}
use rolly.Metrics.{HistogramState, bucket_index, increment, empty_state, observe_state}
use rolly.Metrics.Partition.{partition_point-bound, partition_point-append}

total : List ℕ → ℕ
total [] = 0
total (c ∷ cs) = c + total cs

-- The state that the histogram's own boundaries allow: a bucket more than boundaries, and in the
-- buckets together as many values as were counted.
unfoldable pub IsState : List ℕ → HistogramState → Type 0
unfolding total
IsState boundaries s =
    (length s.bucket_counts ≡ length boundaries + 1) × (total s.bucket_counts ≡ s.count)

length-increment : (i : ℕ) (cs : List ℕ) → length (increment i cs) ≡ length cs
unfolding increment
length-increment zero [] = refl
length-increment (suc i) [] = refl
length-increment zero (c ∷ cs) = refl
length-increment (suc i) (c ∷ cs) = ap suc (length-increment i cs)

total-increment :
    (i : ℕ) (cs : List ℕ)
    → i < length cs
    → total cs + 1 < 2 ^ 64
    → total (increment i cs) ≡ total cs + 1
unfolding increment total
total-increment zero [] h k = absurd (omega arith)
total-increment (suc i) [] h k = absurd (omega arith)
total-increment zero (c ∷ cs) h k = omega arith
total-increment (suc i) (c ∷ cs) h k =
    omega (arith, total-increment i cs (omega arith) (omega arith))

total-zeros : (n : ℕ) → total (replicate n 0) ≡ 0
unfolding total
total-zeros zero = refl
total-zeros (suc n) = omega (arith, total-zeros n)

length-zeros : (n : ℕ) → length {A = ℕ} (replicate n 0) ≡ n
length-zeros zero = refl
length-zeros (suc n) = omega (arith, length-zeros n)

empty_state-IsState : (boundaries : List ℕ) → IsState boundaries (empty_state boundaries)
unfolding empty_state IsState
empty_state-IsState boundaries =
    (length-zeros (length boundaries + 1), total-zeros (length boundaries + 1))

module _ (add_f64 : ℕ → ℕ → ℕ) where
  observe_state-IsState :
      (boundaries : List ℕ) (value : ℕ) (s : HistogramState)
      → IsState boundaries s
      → s.count + 1 < 2 ^ 64
      → IsState boundaries (observe_state add_f64 boundaries value s)
        × ((observe_state add_f64 boundaries value s).count ≡ s.count + 1)
  unfolding observe_state IsState bucket_index
  observe_state-IsState boundaries value s (h, k) small =
      let i = bucket_index boundaries value in
      let inside : i ≤ length boundaries = partition_point-bound _ boundaries in
      let counted : total (increment i s.bucket_counts) ≡ total s.bucket_counts + 1 =
        total-increment i s.bucket_counts (omega (arith, inside, h)) (omega (arith, k, small)) in
      (
        (omega (arith, length-increment i s.bucket_counts, h), omega (arith, counted, k, small)),
        omega (arith, small),
      )

  -- The state after a sequence of observed values.
  unfoldable pub observe_all : List ℕ → List ℕ → HistogramState → HistogramState
  unfolding observe_state
  observe_all boundaries [] s = s
  observe_all boundaries (v ∷ vs) s =
      observe_all boundaries vs (observe_state add_f64 boundaries v s)

  observe_all-from :
      (boundaries values : List ℕ) (s : HistogramState)
      → IsState boundaries s
      → s.count + length values < 2 ^ 64
      → IsState boundaries (observe_all boundaries values s)
        × ((observe_all boundaries values s).count ≡ s.count + length values)
  unfolding observe_all
  observe_all-from boundaries [] s h small = (h, omega arith)
  observe_all-from boundaries (v ∷ vs) s h small =
      let (good, counted) = observe_state-IsState boundaries v s h (omega arith) in
      let (end, all) =
        observe_all-from boundaries vs (observe_state add_f64 boundaries v s) good
          (omega (arith, counted)) in
      (end, omega (arith, all, counted))

  -- After fewer than 2^64 values, NaN and infinities among them, a histogram has one bucket more
  -- than boundaries, its count is the number of the values, and so is the sum of its buckets: each
  -- value was put into exactly one.
  pub observe_all-counts :
      (boundaries values : List ℕ)
      → length values < 2 ^ 64
      → IsState boundaries (observe_all boundaries values (empty_state boundaries))
        × ((observe_all boundaries values (empty_state boundaries)).count ≡ length values)
  unfolding empty_state
  observe_all-counts boundaries values small =
      let (good, counted) =
        observe_all-from boundaries values (empty_state boundaries) (empty_state-IsState boundaries)
          (omega (arith, small)) in
      (good, omega (arith, counted))

-- Each boundary is at most every later one, so that none is NaN, unless it stands alone.
unfoldable pub IsAscending : List ℕ → Type 0
IsAscending [] = Unit
IsAscending (b ∷ bs) = All (λ c. le_f64 b c ≡ true) bs × IsAscending bs

abbrev AtMost : ℕ → ℕ → Type 0
AtMost value b = le_f64 b value ≡ true

abbrev Above : ℕ → ℕ → Type 0
Above value b = le_f64 b value ≡ false

above_if :
    (b c value : ℕ) (t : Bool)
    → le_f64 c value ≡ t
    → le_f64 b c ≡ true
    → le_f64 b value ≡ false
    → le_f64 c value ≡ false
above_if b c value true e h k = let up = le_f64_trans b c value h e in absurd cc
above_if b c value false e h k = e

Above-all :
    (b value : ℕ) (bs : List ℕ)
    → Above value b
    → All (λ c. le_f64 b c ≡ true) bs
    → All (Above value) bs
Above-all b value [] k h = tt
Above-all b value (c ∷ bs) k (h, hs) =
    (above_if b c value (le_f64 c value) refl h k, Above-all b value bs k hs)

-- Where a value parts ascending boundaries.
abbrev Parted : List ℕ → ℕ → Type 0
Parted bs value =
    (front : List ℕ) × (back : List ℕ) × (bs ≡ front ++ back)
    × All (AtMost value) front
    × All (Above value) back

Parted-if :
    (b : ℕ) (bs : List ℕ) (value : ℕ) (t : Bool)
    → le_f64 b value ≡ t
    → All (λ c. le_f64 b c ≡ true) bs
    → Parted bs value
    → Parted (b ∷ bs) value
Parted-if b bs value true e h (front, back, split, low, high) =
    (b ∷ front, back, ap (λ xs. b ∷ xs) split, (e, low), high)
Parted-if b bs value false e h _ = ([], b ∷ bs, refl, tt, (e, Above-all b value bs e h))

parted : (bs : List ℕ) (value : ℕ) → IsAscending bs → Parted bs value
unfolding IsAscending
parted [] value h = ([], [], refl, tt, tt)
parted (b ∷ bs) value (h, hs) = Parted-if b bs value (le_f64 b value) refl h (parted bs value hs)

-- The binary search over boundaries of which each is at most every later one puts a value, also NaN
-- or an infinity, into the bucket behind all the boundaries that are at most the value: those before
-- the bucket are, and none from it on is. So a value that equals a boundary lies in the bucket
-- above it.
pub bucket_index-bounds :
    (boundaries : List ℕ) (value : ℕ)
    → IsAscending boundaries
    → All (λ b. le_f64 b value ≡ true) (take (bucket_index boundaries value) boundaries)
      × All (λ b. le_f64 b value ≡ false) (drop (bucket_index boundaries value) boundaries)
unfolding bucket_index
bucket_index-bounds boundaries value h =
    let (front, back, split, low, high) = parted boundaries value h in
    let found = partition_point-append (λ b. le_f64 b value) front back low high in
    rw (split, found, take-append front back, drop-append front back) (low, high)
