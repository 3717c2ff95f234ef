-- ===== src/Baseline/Search.antt =====
-- The search in a text by which tools/render_baseline.rs finds what it replaces.
use rolly.Base.{
  ℕ, zero, suc, ◌≡◌, ◌≤◌, ◌⊎◌, refl, sym, ap, ◌∙◌, arith, Bool-cases, false, Option, none, some,
  List, [], ◌∷◌, ◌++◌, append_assoc, inl, inr, ◌==◌, ==_iff, All, length, length-append,
}
use rolly.Baseline.{strip_prefix, found, find}

pub strip_prefix-some : (p s r : List ℕ) → strip_prefix p s ≡ some r → s ≡ p ++ r
unfolding strip_prefix
strip_prefix-some [] s r e = cc
strip_prefix-some (p ∷ ps) [] r e = absurd (let c : none ≡ some r = e in cc)
strip_prefix-some (p ∷ ps) (c ∷ cs) r e = elim (Bool-cases (p == c)) [
  | inl h ↦
      let k : strip_prefix ps cs ≡ some r = sym (rw h refl) ∙ e in
      let same : p ≡ c = (==_iff p c).0 h in
      ap (λ t. t ∷ cs) (sym same) ∙ ap (λ t. p ∷ t) (strip_prefix-some ps cs r k)
  | inr h ↦ absurd (let k : none ≡ some r = sym (rw h refl) ∙ e in cc)
]

pub strip_prefix-append : (p r : List ℕ) → strip_prefix p (p ++ r) ≡ some r
unfolding strip_prefix
strip_prefix-append [] r = refl
strip_prefix-append (p ∷ ps) r = ground (arith, strip_prefix-append ps r)

-- What comes behind enough characters does not count.
strip_prefix-none :
    (p a ys zs : List ℕ)
    → length p ≤ length a
    → strip_prefix p (a ++ ys) ≡ none
    → strip_prefix p (a ++ zs) ≡ none
unfolding strip_prefix
strip_prefix-none [] a ys zs h e = absurd (let c : some (a ++ ys) ≡ none = e in cc)
strip_prefix-none (p ∷ ps) [] ys zs h e = absurd (omega (arith, h))
strip_prefix-none (p ∷ ps) (c ∷ cs) ys zs h e = elim (Bool-cases (p == c)) [
  | inl same ↦
      let k : strip_prefix ps (cs ++ ys) ≡ none = sym (rw same refl) ∙ e in
      rw same (strip_prefix-none ps cs ys zs (omega (arith, h)) k)
  | inr other ↦ rw other refl
]

find-here : (p s r : List ℕ) → strip_prefix p s ≡ some r → find p s ≡ some 0
unfolding find found
find-here p [] r e = ap (λ o. found o none) e
find-here p (c ∷ cs) r e = ap (λ o. found o (find p cs)) e

-- What a result of `found` comes from.
found-zero :
    (o : Option (List ℕ)) (later : Option ℕ) → found o later ≡ some 0 → (r : List ℕ) × (o ≡ some r)
unfolding found
found-zero (some r) later e = (r, refl)
found-zero none (some i) e = absurd (let h : some (suc i) ≡ some 0 = e in cc)
found-zero none none e = absurd (let h : none ≡ some 0 = e in cc)

found-suc :
    (o : Option (List ℕ)) (later : Option ℕ) (n : ℕ)
    → found o later ≡ some (suc n)
    → (o ≡ none) × (later ≡ some n)
unfolding found
found-suc (some r) later n e = absurd (let h : some 0 ≡ some (suc n) = e in cc)
found-suc none (some i) n e = (refl, cc)
found-suc none none n e = absurd (let h : none ≡ some (suc n) = e in cc)

-- Where a pattern is found, it is.
pub find-some :
    (p s : List ℕ) (n : ℕ)
    → find p s ≡ some n
    → (before : List ℕ) × (rest : List ℕ) × (s ≡ before ++ (p ++ rest)) × (length before ≡ n)
unfolding find
find-some p [] zero e =
    let (r, h) = found-zero (strip_prefix p []) none e in ([], r, strip_prefix-some p [] r h, refl)
find-some p [] (suc n) e =
    let (h, k) = found-suc (strip_prefix p []) none n e in absurd (let c : none ≡ some n = k in cc)
find-some p (c ∷ cs) zero e =
    let (r, h) = found-zero (strip_prefix p (c ∷ cs)) _ e in
    ([], r, strip_prefix-some p (c ∷ cs) r h, refl)
find-some p (c ∷ cs) (suc n) e =
    let (h, k) = found-suc (strip_prefix p (c ∷ cs)) _ n e in
    let (before, rest, same, count) = find-some p cs n k in
    (c ∷ before, rest, ap (λ t. c ∷ t) same, ap suc count)

find-next :
    (p : List ℕ) (c : ℕ) (cs : List ℕ) (n : ℕ)
    → find p (c ∷ cs) ≡ some (suc n)
    → (strip_prefix p (c ∷ cs) ≡ none) × (find p cs ≡ some n)
unfolding find
find-next p c cs n e = found-suc (strip_prefix p (c ∷ cs)) _ n e

find-later :
    (p : List ℕ) (c : ℕ) (cs : List ℕ) (n : ℕ)
    → strip_prefix p (c ∷ cs) ≡ none
    → find p cs ≡ some n
    → find p (c ∷ cs) ≡ some (suc n)
unfolding find found
find-later p c cs n h k = ap (λ o. found o (find p cs)) h ∙ ap (λ o. found none o) k

-- What stands behind the pattern does not count.
pub find-stable :
    (p xs ys zs : List ℕ)
    → find p (xs ++ (p ++ ys)) ≡ some (length xs)
    → find p (xs ++ (p ++ zs)) ≡ some (length xs)
find-stable p [] ys zs e = find-here p (p ++ zs) zs (strip_prefix-append p zs)
find-stable p (x ∷ xs) ys zs e =
    let (h, k) = find-next p x (xs ++ (p ++ ys)) (length xs) e in
    let h' : strip_prefix p (((x ∷ xs) ++ p) ++ zs) ≡ none =
      strip_prefix-none p ((x ∷ xs) ++ p) ys zs (omega (arith, length-append (x ∷ xs) p))
        (ap (strip_prefix p) (append_assoc (x ∷ xs) p ys) ∙ h) in
    find-later p x (xs ++ (p ++ zs)) (length xs)
      (ap (strip_prefix p) (sym (append_assoc (x ∷ xs) p zs)) ∙ h') (find-stable p xs ys zs k)

-- No line break.
abbrev pub IsLine : List ℕ → Type 0
IsLine xs = All (λ c. 10 == c ≡ false) xs

-- The end of the text or of a line.
abbrev pub EndsLine : List ℕ → Type 0
EndsLine rest = (rest ≡ []) ⊎ ((r : List ℕ) × (rest ≡ 10 ∷ r))

strip_break : (c : ℕ) (cs : List ℕ) → 10 == c ≡ false → strip_prefix (10 ∷ []) (c ∷ cs) ≡ none
unfolding strip_prefix
strip_break c cs h = rw h

pub find-break : (xs r : List ℕ) → IsLine xs → find (10 ∷ []) (xs ++ (10 ∷ r)) ≡ some (length xs)
find-break [] r h = find-here (10 ∷ []) (10 ∷ r) r (strip_prefix-append (10 ∷ []) r)
find-break (c ∷ xs) r (h, k) =
    find-later (10 ∷ []) c (xs ++ (10 ∷ r)) (length xs) (strip_break c _ h) (find-break xs r k)

pub find-no_break : (xs : List ℕ) → IsLine xs → find (10 ∷ []) xs ≡ none
unfolding find found strip_prefix
find-no_break [] h = refl
find-no_break (c ∷ xs) (h, k) =
    ap (λ o. found o (find (10 ∷ []) xs)) (strip_break c xs h)
    ∙ ap (λ o. found none o) (find-no_break xs k)

-- Every text is a line and what ends it.
pub split-IsLine :
    (xs : List ℕ)
    → (line : List ℕ) × (rest : List ℕ) × (xs ≡ line ++ rest) × IsLine line × EndsLine rest
split-IsLine [] = ([], [], refl, tt, inl refl)
split-IsLine (c ∷ xs) = elim (Bool-cases (10 == c)) [
  | inl h ↦ ([], c ∷ xs, refl, tt, inr (xs, ap (λ t. t ∷ xs) (sym ((==_iff 10 c).0 h))))
  | inr h ↦
      let (line, rest, same, is_line, ends) = split-IsLine xs in
      (c ∷ line, rest, ap (λ t. c ∷ t) same, (h, is_line), ends)
]
