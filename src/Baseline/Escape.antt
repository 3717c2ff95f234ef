-- ===== src/Baseline/Escape.antt =====
-- `xml_escape` of tools/render_baseline.rs, against what a reader of XML makes of it.
use mathlib.Core.Path.{subst}
use rolly.Base.{
  ℕ, ◌≡◌, refl, sym, ap, ◌∙◌, Bool-cases, true, false, Option, none, some, List, [], ◌∷◌, ◌++◌,
  append_assoc, inl, inr, ◌==◌, ==_iff, if◌then◌else◌,
}
use rolly.Base.Text.{codes}
use rolly.Base.Bytes.{beq_bytes}
use rolly.Baseline.{replace, xml_escape}

-- What stands for a character.
abbrev pub escaped : ℕ → List ℕ
escaped c =
    if c == b'&'
    then codes "&amp;"
    else if c == b'<'
    then codes "&lt;"
    else if c == b'>'
    then codes "&gt;"
    else if c == b'"'
    then codes "&quot;"
    else c ∷ []

unfoldable pub escape_each : List ℕ → List ℕ
escape_each [] = []
escape_each (c ∷ cs) = escaped c ++ escape_each cs

replace-append :
    (c : ℕ) (by xs ys : List ℕ) → replace c by (xs ++ ys) ≡ replace c by xs ++ replace c by ys
unfolding replace
replace-append c by [] ys = refl
replace-append c by (x ∷ xs) ys = rw (replace-append c by xs ys, append_assoc)

xml_escape-append : (xs ys : List ℕ) → xml_escape (xs ++ ys) ≡ xml_escape xs ++ xml_escape ys
unfolding xml_escape
xml_escape-append xs ys = rw (replace-append, replace-append, replace-append, replace-append)

-- No character that is escaped.
abbrev pub IsPlain : ℕ → Type 0
IsPlain c = (c == b'&' ≡ false) × (c == b'<' ≡ false) × (c == b'>' ≡ false) × (c == b'"' ≡ false)

-- The five cases of `escaped`.
pub by_character :
    (P : ℕ → Type 0)
    → P b'&'
    → P b'<'
    → P b'>'
    → P b'"'
    → ((c : ℕ) → IsPlain c → P c)
    → (c : ℕ) → P c
by_character P amp lt gt quot plain c = elim (Bool-cases (c == b'&')) [
  | inl e ↦ subst P (sym ((==_iff c _).0 e)) amp
  | inr h0 ↦ elim (Bool-cases (c == b'<')) [
    | inl e ↦ subst P (sym ((==_iff c _).0 e)) lt
    | inr h1 ↦ elim (Bool-cases (c == b'>')) [
      | inl e ↦ subst P (sym ((==_iff c _).0 e)) gt
      | inr h2 ↦ elim (Bool-cases (c == b'"')) [
        | inl e ↦ subst P (sym ((==_iff c _).0 e)) quot
        | inr h3 ↦ plain c (h0, h1, h2, h3)
      ]
    ]
  ]
]

pub escaped-plain : (c : ℕ) → IsPlain c → escaped c ≡ c ∷ []
escaped-plain c (h0, h1, h2, h3) = rw (h0, h1, h2, h3)

replace-other : (x : ℕ) (by : List ℕ) (c : ℕ) → (c == x) ≡ false → replace x by (c ∷ []) ≡ c ∷ []
unfolding replace
replace-other x by c h = rw h

xml_escape-one : (c : ℕ) → xml_escape (c ∷ []) ≡ escaped c
unfolding xml_escape
xml_escape-one =
    by_character (λ c. xml_escape (c ∷ []) ≡ escaped c) (unfold replace in refl)
      (unfold replace in refl) (unfold replace in refl) (unfold replace in refl)
      (λ c (h0, h1, h2, h3).
        rw
          (
            replace-other b'&' _ c h0,
            replace-other b'<' _ c h1,
            replace-other b'>' _ c h2,
            replace-other b'"' _ c h3,
          )
          (sym (escaped-plain c (h0, h1, h2, h3))))

-- The four replacements, one after the other, are one pass over the characters.
pub xml_escape-escape_each : (s : List ℕ) → xml_escape s ≡ escape_each s
unfolding escape_each
xml_escape-escape_each [] = unfold xml_escape replace in refl
xml_escape-escape_each (c ∷ cs) =
    xml_escape-append (c ∷ []) cs
    ∙ ap (λ t. t ++ xml_escape cs) (xml_escape-one c)
    ∙ ap (λ t. escaped c ++ t) (xml_escape-escape_each cs)

-- The predefined entities of XML.
abbrev named : List ℕ → List ℕ
named name =
    if beq_bytes name (codes "amp")
    then b'&' ∷ []
    else if beq_bytes name (codes "lt")
    then b'<' ∷ []
    else if beq_bytes name (codes "gt")
    then b'>' ∷ []
    else if beq_bytes name (codes "quot")
    then b'"' ∷ []
    else []

-- Character data as XML has it; in an entity its name is read up to the semicolon.
pub unescape : Option (List ℕ) → List ℕ → List ℕ
unescape entity [] = []
unescape none (c ∷ cs) = elim (c == b'&') [
  | true ↦ unescape (some []) cs
  | false ↦ c ∷ unescape none cs
]
unescape (some name) (c ∷ cs) = elim (c == b';') [
  | true ↦ named name ++ unescape none cs
  | false ↦ unescape (some (name ++ (c ∷ []))) cs
]

unescape-other :
    (c : ℕ) (rest : List ℕ) → c == b'&' ≡ false → unescape none (c ∷ rest) ≡ c ∷ unescape none rest
unfolding unescape
unescape-other c rest h = rw (h, unescape)

unescape-escaped :
    (c : ℕ) (rest : List ℕ) → unescape none (escaped c ++ rest) ≡ c ∷ unescape none rest
unfolding unescape beq_bytes
unescape-escaped c rest =
    by_character (λ c. unescape none (escaped c ++ rest) ≡ c ∷ unescape none rest) refl refl refl
      refl
      (λ c h. ap (λ t. unescape none (t ++ rest)) (escaped-plain c h) ∙ unescape-other c rest h.0) c

unescape-escape_each : (s : List ℕ) → unescape none (escape_each s) ≡ s
unfolding escape_each unescape
unescape-escape_each [] = refl
unescape-escape_each (c ∷ cs) =
    unescape-escaped c (escape_each cs) ∙ ap (λ t. c ∷ t) (unescape-escape_each cs)

-- A reader of XML gets back every text that was escaped.
pub unescape-xml_escape : (s : List ℕ) → unescape none (xml_escape s) ≡ s
unescape-xml_escape s = ap (unescape none) (xml_escape-escape_each s) ∙ unescape-escape_each s
