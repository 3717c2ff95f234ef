-- ===== src/Baseline/Nested/Drawn.antt =====
-- The tags in the drawing of tools/render_baseline.rs.
use rolly.Base.{ℕ, ◌%◌, ◌≡◌, refl, Bool-cases, some, List, [], ◌∷◌, ◌==◌, inl, inr}
use rolly.Base.Text.{codes}
use rolly.Base.Bytes.{beq_bytes}
use rolly.Baseline.{Metadata, CpuBudget, Arithmetic, Entry}
use rolly.Baseline.Svg.{
  preamble, card, column_headers, row_background, row_lines, summary, badge_and_footer,
}
use rolly.Baseline.Nested.{
  text, State, is_entity, close_tag, begin_end, read_char, read, slot, check_line, check_lines,
}

-- Inside the root.
abbrev pub inside : State
inside = (text, codes "svg" ∷ [])

pub preamble-check : (n : ℕ) → check_lines (preamble n) (text, []) ≡ some inside
unfolding check_lines check_line slot read read_char is_entity close_tag begin_end beq_bytes
preamble-check n = refl

pub card-check : (n : ℕ) (m : Metadata) → check_lines (card n m) inside ≡ some inside
unfolding check_lines check_line slot read read_char is_entity close_tag begin_end beq_bytes
card-check n m = refl

pub column_headers-check : check_lines column_headers inside ≡ some inside
unfolding check_lines check_line slot read read_char is_entity close_tag begin_end beq_bytes
column_headers-check = refl

pub row_background-check : (i y : ℕ) → check_lines (row_background i y) inside ≡ some inside
unfolding check_lines check_line slot read read_char is_entity close_tag begin_end beq_bytes
row_background-check i y = elim (Bool-cases (i % 2 == 0)) [ inl e ↦ rw e refl | inr e ↦ rw e refl ]

pub row_lines-check :
    (f : Arithmetic) (max_us y : ℕ) (e : Entry) (desc : List ℕ)
    → check_lines (row_lines f max_us y e desc) inside ≡ some inside
unfolding check_lines check_line slot read read_char is_entity close_tag begin_end beq_bytes
row_lines-check f max_us y e desc = refl

pub summary-check :
    (f : Arithmetic) (n max_us : ℕ) (b : CpuBudget) (avg pct : ℕ)
    → check_lines (summary f n max_us b avg pct) inside ≡ some inside
unfolding check_lines check_line slot read read_char is_entity close_tag begin_end beq_bytes
summary-check f n max_us b avg pct = refl

pub badge_and_footer-check :
    (f : Arithmetic) (n : ℕ) (b : CpuBudget) (verdict : List ℕ)
    → check_lines (badge_and_footer f n b verdict) inside ≡ some (text, [])
unfolding check_lines check_line slot read read_char is_entity close_tag begin_end beq_bytes
badge_and_footer-check f n b verdict = refl
