-- ===== src/Baseline/Svg.antt =====
-- `render_svg` of tools/render_baseline.rs. Every `writeln!` is a line of pieces.
mod Pieces
mod Layout
mod Rows
mod Footer
pub use Pieces.{Piece, lit, arg}
pub use Layout.{bar_max_w, row_h, table_top}
unfoldable pub use Layout.{bar_color, verdict_color, verdict_bg, bar_w, budget_bar_x, max_from}
pub use Rows.{preamble, card, column_headers, row_background, row_lines}
pub use Footer.{summary, badge_and_footer}
use rolly.Base.{
  ℕ, zero, suc, ◌+◌, ◌-◌, ◌*◌, ◌/◌, ◌%◌, Option, some, List, [], ◌∷◌, ◌++◌, ◌==◌, ◌>>=◌,
  if◌then◌else◌, length,
}
use rolly.Base.Text.{codes}
use rolly.Base.Bytes.{beq_bytes}
use rolly.Base.F64.{zero_f64, one_f64, lt_f64, is_nan}
use rolly.UseMetrics.Decimal.{decimal}
use rolly.Baseline.{
  Metadata, CpuBudget, Baseline, Arithmetic, Entry, hundred, us_of, short_name, xml_escape,
  shown_description,
}

-- The rows from the i-th on.
unfoldable pub rows : Arithmetic → ℕ → ℕ → List Entry → Option (List (List Piece))
rows f max_us i [] = some []
rows f max_us i (e ∷ es) = do
  desc ← shown_description e.bench.description
  rest ← rows f max_us (suc i) es
  let y = table_top + i * row_h
  some (row_background i y ++ (row_lines f max_us y e desc ++ rest))

unfoldable pub svg_lines :
    Arithmetic → Baseline → List Entry → ℕ → ℕ → List ℕ → Option (List (List Piece))
unfolding rows max_from
svg_lines f baseline entries avg pct verdict = do
  let n_rows = length entries
  let max_us = max_from f zero_f64 entries
  table ← rows f max_us 0 entries
  some (
      preamble n_rows
      ++ (card n_rows baseline.metadata
          ++ (column_headers
              ++ (table
                  ++ (summary f n_rows max_us baseline.cpu_budget avg pct
                      ++ badge_and_footer f n_rows baseline.cpu_budget verdict)))))

unfoldable pub text_of : List Piece → List ℕ
text_of [] = 10 ∷ []
text_of (lit t ∷ ps) = codes t ++ text_of ps
text_of (arg t ∷ ps) = t ++ text_of ps

unfoldable pub text_of_lines : List (List Piece) → List ℕ
unfolding text_of
text_of_lines [] = []
text_of_lines (l ∷ ls) = text_of l ++ text_of_lines ls

-- `none` where a description is cut inside a character.
unfoldable pub render_svg : Arithmetic → Baseline → List Entry → ℕ → ℕ → List ℕ → Option (List ℕ)
unfolding svg_lines text_of_lines
render_svg f baseline entries avg pct verdict =
    svg_lines f baseline entries avg pct verdict >>= λ lines. some (text_of_lines lines)
