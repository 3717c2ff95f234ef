-- ===== src/Baseline/Cut.antt =====
-- A description that tools/render_baseline.rs cuts inside a character.
use rolly.Base.{
  ℕ, suc, ◌<◌, ◌≤◌, ◌≡◌, refl, ap, ◌∙◌, arith, none, some, List, [], ◌∷◌, ◌++◌, ◌>>=◌, Option, true,
  false, not, ◌&&◌, leb, ltb, length, get_elem?,
}
use rolly.Base.F64.{zero_f64}
use rolly.Baseline.{
  Arithmetic, Baseline, Entry, shown_description, is_char_boundary, endpoint_order, entries_of,
}
use rolly.Baseline.Svg.{rows, svg_lines, max_from, render_svg}
use rolly.Baseline.Main.{main}

-- The 38th byte continues a character, and there are more than 40.
pub record IsCut (description : List ℕ) : Type 0 where
  pub byte : ℕ
  pub long : 40 < length description
  pub at : get_elem? description 37 ≡ some byte
  pub low : 0x80 ≤ byte
  pub high : byte < 0xc0

inside_character : (b : ℕ) → 0x80 ≤ b → b < 0xc0 → not (leb 0x80 b && ltb b 0xc0) ≡ false
inside_character b h k = ground (arith, h, k)

shown_description-IsCut : (d : List ℕ) → IsCut d → shown_description d ≡ none
unfolding shown_description
shown_description-IsCut d h =
    let cut : is_char_boundary 37 d ≡ false =
      ap (λ o. elim o [ some b ↦ not (leb 0x80 b && ltb b 0xc0) | none ↦ true ]) h.at
      ∙ inside_character h.byte h.low h.high in
    let longer : ltb 40 (length d) ≡ true = ground (arith, h.long) in rw (longer, cut) refl

bind_none :
    {A B : Type 0} (o : Option A) (g : A → Option B) → ((a : A) → g a ≡ none) → (o >>= g) ≡ none
bind_none none g h = refl
bind_none (some a) g h = h a

rows-IsCut :
    (f : Arithmetic) (max_us i : ℕ) (front back : List Entry) (e : Entry)
    → IsCut e.bench.description
    → rows f max_us i (front ++ (e ∷ back)) ≡ none
unfolding rows
rows-IsCut f max_us i [] back e h = rw (shown_description-IsCut e.bench.description h) refl
rows-IsCut f max_us i (x ∷ front) back e h =
    bind_none (shown_description x.bench.description) _
      (λ desc. rw (rows-IsCut f max_us (suc i) front back e h) refl)

render_svg-none :
    (f : Arithmetic) (baseline : Baseline) (es : List Entry) (avg pct : ℕ) (verdict : List ℕ)
    → rows f (max_from f zero_f64 es) 0 es ≡ none
    → render_svg f baseline es avg pct verdict ≡ none
unfolding render_svg svg_lines
render_svg-none f baseline es avg pct verdict h = rw h refl

-- If the description of one of the entries has more than 40 bytes and the 38th continues a character,
-- there is no drawing: the program panics.
pub main-IsCut :
    (f : Arithmetic) (toml_str : List ℕ) (baseline : Baseline) (front back : List Entry) (e : Entry)
    → entries_of baseline endpoint_order ≡ front ++ (e ∷ back)
    → IsCut e.bench.description
    → (main f toml_str baseline).1 ≡ none
unfolding main
main-IsCut f toml_str baseline front back e here h =
    render_svg-none f baseline (entries_of baseline endpoint_order) _ _ _ (
      ap (rows f (max_from f zero_f64 (entries_of baseline endpoint_order)) 0) here
      ∙ rows-IsCut f (max_from f zero_f64 (entries_of baseline endpoint_order)) 0 front back e h)
