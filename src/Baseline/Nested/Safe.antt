-- ===== src/Baseline/Nested/Safe.antt =====
-- The arguments that tools/render_baseline.rs prints into its drawing: they cannot break it.
use mathlib.Core.Path.{subst}
use rolly.Base.{
  ℕ, ◌^◌, ◌<◌, ◌≤◌, ◌≡◌, ◌⊎◌, refl, sym, ap, ◌∙◌, arith, Bool, true, false, not, ◌&&◌, ◌||◌, List,
  [], ◌∷◌, ◌++◌, ◌==◌, ◌>>=◌, if◌then◌else◌, All, inl,
}
use rolly.Base.Bytes.{beq_bytes}
use rolly.UseMetrics.Decimal.{decimal, decimal-IsDigit, IsDigit}
use rolly.Baseline.{Arithmetic, xml_escape}
use rolly.Baseline.Escape.{
  escaped, escape_each, by_character, escaped-plain, IsPlain, xml_escape-escape_each,
}
use rolly.Baseline.Nested.{text, quoted, is_entity, read_char, read, read-append, IsSafe}

nothing-IsSafe : IsSafe []
unfolding read
nothing-IsSafe = record { content = λ k. refl; value = λ n k. refl }

append-IsSafe : (xs ys : List ℕ) → IsSafe xs → IsSafe ys → IsSafe (xs ++ ys)
append-IsSafe xs ys h k = record {
  content =
      λ o. read-append xs ys (text, o) ∙ ap (λ r. r >>= λ s. read ys s) (h.content o) ∙ k.content o;
  value = λ n o.
      read-append xs ys (quoted n, o) ∙ ap (λ r. r >>= λ s. read ys s) (h.value n o) ∙ k.value n o;
}

plain-IsSafe : (c : ℕ) → IsPlain c → IsSafe (c ∷ [])
unfolding read read_char
plain-IsSafe c (h0, h1, h2, h3) = record {
  content = λ o. rw (h1, h0) refl;
  value = λ n o. rw (h3, h1) refl;
}

escaped-IsSafe : (c : ℕ) → IsSafe (escaped c)
unfolding read read_char is_entity beq_bytes
escaped-IsSafe =
    by_character (λ c. IsSafe (escaped c)) record { content = λ k. refl; value = λ n k. refl }
      record { content = λ k. refl; value = λ n k. refl }
      record { content = λ k. refl; value = λ n k. refl }
      record { content = λ k. refl; value = λ n k. refl }
      (λ c h. subst (λ t. IsSafe t) (sym (escaped-plain c h)) (plain-IsSafe c h))

escape_each-IsSafe : (s : List ℕ) → IsSafe (escape_each s)
unfolding escape_each
escape_each-IsSafe [] = nothing-IsSafe
escape_each-IsSafe (c ∷ cs) =
    append-IsSafe (escaped c) (escape_each cs) (escaped-IsSafe c) (escape_each-IsSafe cs)

pub xml_escape-IsSafe : (s : List ℕ) → IsSafe (xml_escape s)
xml_escape-IsSafe s = subst (λ t. IsSafe t) (sym (xml_escape-escape_each s)) (escape_each-IsSafe s)

-- A character of a printed number: a digit, a sign, a point, or a letter of `inf` and `NaN`.
abbrev pub IsNumeral : ℕ → Type 0
IsNumeral c = ((b'-' ≤ c) × (c ≤ b'9')) ⊎ ((b'A' ≤ c) × (c ≤ b'z'))

numeral-IsPlain : (c : ℕ) → IsNumeral c → IsPlain c
numeral-IsPlain c h = ground (arith, h)

pub number-IsSafe : (xs : List ℕ) → All IsNumeral xs → IsSafe xs
number-IsSafe [] h = nothing-IsSafe
number-IsSafe (c ∷ cs) (h, k) =
    append-IsSafe (c ∷ []) cs (plain-IsSafe c (numeral-IsPlain c h)) (number-IsSafe cs k)

digits-IsNumeral : (xs : List ℕ) → All IsDigit xs → All IsNumeral xs
digits-IsNumeral [] h = tt
digits-IsNumeral (c ∷ cs) (h, k) = (inl (omega (arith, h), omega (arith, h)), digits-IsNumeral cs k)

pub decimal-IsSafe : (v : ℕ) → v < 2 ^ 64 → IsSafe (decimal v)
decimal-IsSafe v h = number-IsSafe (decimal v) (digits-IsNumeral (decimal v) (decimal-IsDigit v h))

-- What the code relies on of `f64`: how it prints, and that `as u32` is a `u32`.
pub record PrintsNumbers (f : Arithmetic) : Type 0 where
  pub fixed-numeral : (places x : ℕ) → All IsNumeral (f.fixed places x)
  pub display-numeral : (x : ℕ) → All IsNumeral (f.display x)
  pub to_u32-lt : (x : ℕ) → f.to_u32 x < 2 ^ 32

-- A text without a character that has to be escaped.
abbrev pub is_plain : List ℕ → Bool
is_plain [] = true
is_plain (c ∷ cs) = not ((c == b'&') || (c == b'<') || (c == b'>') || (c == b'"')) && is_plain cs

pub plain_text-IsSafe : (xs : List ℕ) → is_plain xs ≡ true → IsSafe xs
plain_text-IsSafe [] h = nothing-IsSafe
plain_text-IsSafe (c ∷ cs) h =
    let (first, rest) = both c (is_plain cs) h in
    append-IsSafe (c ∷ []) cs (plain-IsSafe c first) (plain_text-IsSafe cs rest)
  where
    both :
        (c : ℕ) (b : Bool)
        → not ((c == b'&') || (c == b'<') || (c == b'>') || (c == b'"')) && b ≡ true
        → IsPlain c × (b ≡ true)
    both c b e = ground (arith, e)

pub if-IsSafe : (b : Bool) (xs ys : List ℕ) → IsSafe xs → IsSafe ys → IsSafe (if b then xs else ys)
if-IsSafe true xs ys h k = h
if-IsSafe false xs ys h k = k
