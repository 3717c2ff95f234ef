-- ===== src/Tower.antt =====
-- src/tower: the middleware around HTTP services. The `http` crate is a parameter with its documented
-- laws; what the inner service does and how futures are polled is not modelled.
pub mod Propagation
pub mod Request
use rolly.Base.{
  ℕ, ◌+◌, ◌≡◌, ◌≢◌, ◌≤◌, ◌<◌, Bool, true, false, ◌&&◌, leb, if◌then◌else◌, Option, some, List, [],
  ◌∷◌, All,
}

-- Header names compare without regard to the case of ASCII letters.
lowercase_byte : ℕ → ℕ
lowercase_byte c = if leb b'A' c && leb c b'Z' then c + 32 else c

unfoldable pub lowercase : List ℕ → List ℕ
unfolding lowercase_byte
lowercase [] = []
lowercase (c ∷ cs) = lowercase_byte c ∷ lowercase cs

-- A name that `insert` takes as it stands: lower-case letters.
abbrev pub IsLowercase : List ℕ → Type 0
IsLowercase name = All (λ c. (b'a' ≤ c) × (c ≤ b'z')) name

-- `HeaderMap`, on a map with room for one more name, and `HeaderValue`, which visible ASCII makes.
pub record Http : Type 1 where
  pub HeaderMap : Type 0
  pub HeaderValue : Type 0
  pub from_str : List ℕ → Option HeaderValue
  pub to_str : HeaderValue → Option (List ℕ)
  pub get : List ℕ → HeaderMap → Option HeaderValue
  pub insert : List ℕ → HeaderValue → HeaderMap → HeaderMap
  pub from_str-visible :
      (s : List ℕ)
      → All (λ c. (32 ≤ c) × (c < 127)) s
      → (v : HeaderValue) × (from_str s ≡ some v) × (to_str v ≡ some s)
  pub get-insert :
      (name other : List ℕ) (v : HeaderValue) (m : HeaderMap)
      → IsLowercase name
      → lowercase other ≡ name
      → get other (insert name v m) ≡ some v
  pub get-insert_other :
      (name other : List ℕ) (v : HeaderValue) (m : HeaderMap)
      → IsLowercase name
      → lowercase other ≢ name
      → get other (insert name v m) ≡ get other m
