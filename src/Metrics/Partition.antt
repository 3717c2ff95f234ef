-- ===== src/Metrics/Partition.antt =====
-- The binary search by which `Histogram::observe` of src/metrics.rs finds a bucket.
use rolly.Base.{
  ℕ, zero, suc, ◌+◌, ◌-◌, ◌/◌, ◌≡◌, refl, ◌≤◌, ◌<◌, arith, Bool, true, false, List, [], ◌∷◌, ◌++◌,
  ltb, if◌then◌else◌, length, length-append, All,
}
use rolly.Metrics.{passes_at, partition_loop, partition_point}

Between : ℕ → ℕ → Type 0
Between r k = (r ≤ k) × (k ≤ r + 1)

found_if :
    (more : Bool) (rest base k : ℕ)
    → (more ≡ true → Between rest k)
    → (more ≡ false → Between base k)
    → Between (if more then rest else base) k
found_if true rest base k h l = h refl
found_if false rest base k h l = l refl

module _ (p : ℕ → Bool) where
  -- A test that holds at all elements of the front and at none of the back.
  passes_at-back :
      (back : List ℕ) (i : ℕ) → All (λ b. p b ≡ false) back → passes_at p back i ≡ false
  unfolding passes_at
  passes_at-back [] zero h = refl
  passes_at-back [] (suc i) h = refl
  passes_at-back (b ∷ back) zero (h, k) = h
  passes_at-back (b ∷ back) (suc i) (h, k) = passes_at-back back i k

  passes_at-append :
      (front back : List ℕ) (i : ℕ)
      → All (λ b. p b ≡ true) front
      → All (λ b. p b ≡ false) back
      → passes_at p (front ++ back) i ≡ ltb i (length front)
  unfolding passes_at
  passes_at-append [] back i h k = ground (arith, passes_at-back back i k)
  passes_at-append (b ∷ front) back zero (h, hs) k = ground (arith, h)
  passes_at-append (b ∷ front) back (suc i) (h, hs) k =
      ground (arith, passes_at-append front back i hs k)

  -- The range shrinks, but stays inside the slice.
  partition_loop-bound :
      (bs : List ℕ) (fuel base size n : ℕ)
      → 1 ≤ size
      → base + size ≤ n
      → partition_loop p bs fuel base size < n
  unfolding partition_loop
  partition_loop-bound bs zero base size n some_left inside = omega arith
  partition_loop-bound bs (suc fuel) base size n some_left inside =
      let half = size / 2 in
      let at = if passes_at p bs (base + half) then base + half else base in
      let below : at ≤ base + half = ground arith in
      let rest =
        partition_loop-bound bs fuel at (size - half) n (omega arith) (omega (arith, below)) in
      ground (arith, rest)

  -- If the test holds exactly below `k`, the element that is left is the last one at which it holds,
  -- or the first one at which it does not.
  partition_loop-found :
      (bs : List ℕ) (k fuel base size : ℕ)
      → ((i : ℕ) → passes_at p bs i ≡ ltb i k)
      → 1 ≤ size
      → size ≤ fuel
      → base ≤ k
      → k ≤ base + size
      → Between (partition_loop p bs fuel base size) k
  unfolding partition_loop Between
  partition_loop-found bs k zero base size test some_left enough low high = absurd (omega arith)
  partition_loop-found bs k (suc fuel) base size test some_left enough low high =
      let half = size / 2 in
      let at = if passes_at p bs (base + half) then base + half else base in
      let tested = test (base + half) in
      let low' : at ≤ k = ground (arith, tested) in
      let high' : k ≤ at + (size - half) = ground (arith, tested) in
      found_if (ltb 1 size) _ base k
        (λ more.
          partition_loop-found bs k fuel at (size - half) test (omega arith) (ground (arith, more))
            low' high')
        (λ last. (low, ground (arith, last)))

  pub partition_point-bound : (bs : List ℕ) → partition_point p bs ≤ length bs
  unfolding partition_point
  partition_point-bound [] = omega arith
  partition_point-bound (b ∷ bs) =
      let inside =
        partition_loop-bound (b ∷ bs) (length (b ∷ bs)) 0 (length (b ∷ bs)) (length (b ∷ bs))
          (omega arith) (omega arith) in
      ground (arith, inside)

  partition_point-found :
      (bs : List ℕ) (k : ℕ)
      → ((i : ℕ) → passes_at p bs i ≡ ltb i k)
      → k ≤ length bs
      → partition_point p bs ≡ k
  unfolding partition_point Between
  partition_point-found [] k test high = omega arith
  partition_point-found (b ∷ bs) k test high =
      let (low, close) =
        partition_loop-found (b ∷ bs) k (length (b ∷ bs)) 0 (length (b ∷ bs)) test (omega arith)
          (omega arith) (omega arith) (omega (arith, high)) in
      let tested = test (partition_loop p (b ∷ bs) (length (b ∷ bs)) 0 (length (b ∷ bs))) in
      ground (arith, low, close, tested)

  -- On a partitioned slice the binary search finds the length of the front.
  pub partition_point-append :
      (front back : List ℕ)
      → All (λ b. p b ≡ true) front
      → All (λ b. p b ≡ false) back
      → partition_point p (front ++ back) ≡ length front
  partition_point-append front back h k =
      partition_point-found (front ++ back) (length front) (λ i. passes_at-append front back i h k)
        (omega (arith, length-append front back))
