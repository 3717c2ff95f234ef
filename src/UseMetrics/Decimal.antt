-- ===== src/UseMetrics/Decimal.antt =====
-- Decimal numbers, as /proc prints them, and `parse_u64` of src/use_metrics.rs.
use rolly.Base.{
  ◌>>=◌, ℕ, zero, suc, ◌+◌, ◌-◌, ◌*◌, ◌/◌, ◌%◌, ◌^◌, ◌≤◌, ◌<◌, ◌≡◌, ◌≢◌, refl, arith, some, List,
  [], ◌∷◌, ◌++◌, ltb, if◌then◌else◌, All, All-append,
}
use rolly.UseMetrics.{parse_digits, parse_u64}

-- `more` more digits may stand before the last.
unfoldable pub digits : ℕ → ℕ → List ℕ
digits zero v = (b'0' + v) ∷ []
digits (suc more) v =
    let many = digits more (v / 10) ++ ((b'0' + v % 10) ∷ []) in
    if ltb v 10 then (b'0' + v) ∷ [] else many

-- Twenty digits hold any 64-bit number.
abbrev pub decimal : ℕ → List ℕ
decimal v = digits 19 v

abbrev limit : ℕ → ℕ
limit zero = 10
limit (suc more) = 10 * limit more

abbrev pub IsDigit : ℕ → Type 0
IsDigit c = (b'0' ≤ c) × (c ≤ b'9')

append-ne-nil : (xs : List ℕ) (x : ℕ) → xs ++ (x ∷ []) ≢ []
append-ne-nil [] x e = cc
append-ne-nil (y ∷ ys) x e = cc

digits-IsDigit : (more v : ℕ) → v < limit more → All IsDigit (digits more v)
unfolding digits
digits-IsDigit zero v h = omega arith
digits-IsDigit (suc more) v h = ground (
  arith,
  digits-IsDigit more (v / 10) (omega arith),
  All-append IsDigit (digits more (v / 10)) ((b'0' + v % 10) ∷ []),
)

parse_digits-append :
    (xs ys : List ℕ) (acc : ℕ)
    → parse_digits acc (xs ++ ys) ≡ (parse_digits acc xs >>= λ a. parse_digits a ys)
unfolding parse_digits
parse_digits-append [] ys acc = refl
parse_digits-append (x ∷ xs) ys acc =
    ground (arith, parse_digits-append xs ys (acc * 10 + (x - b'0')))

parse_digits-digits :
    (more v : ℕ) → v < limit more → v < 2 ^ 64 → parse_digits 0 (digits more v) ≡ some v
unfolding parse_digits digits
parse_digits-digits zero v h k = ground arith
parse_digits-digits (suc more) v h k = ground (
  arith,
  parse_digits-append (digits more (v / 10)) ((b'0' + v % 10) ∷ []) 0,
  parse_digits-digits more (v / 10) (omega arith) (omega arith),
)

-- Digits with no sign are read as they are.
parse_u64-digits :
    (xs : List ℕ) (v : ℕ)
    → All IsDigit xs
    → parse_digits 0 xs ≡ some v
    → xs ≢ []
    → parse_u64 xs ≡ some v
unfolding parse_u64
parse_u64-digits [] v h k ne = absurd (ne refl)
parse_u64-digits (x ∷ xs) v h k ne = ground (arith, h, k)

pub decimal-ne-nil : (v : ℕ) → decimal v ≢ []
unfolding digits
decimal-ne-nil v = ground (arith, append-ne-nil (digits 18 (v / 10)) (b'0' + v % 10))

pub decimal-IsDigit : (v : ℕ) → v < 2 ^ 64 → All IsDigit (decimal v)
decimal-IsDigit v h = digits-IsDigit 19 v (omega arith)

pub parse_u64-decimal : (v : ℕ) → v < 2 ^ 64 → parse_u64 (decimal v) ≡ some v
parse_u64-decimal v h =
    parse_u64-digits (decimal v) v (decimal-IsDigit v h) (parse_digits-digits 19 v (omega arith) h)
      (decimal-ne-nil v)
