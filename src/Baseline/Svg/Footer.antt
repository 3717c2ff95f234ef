-- ===== src/Baseline/Svg/Footer.antt =====
-- The part of the drawing of tools/render_baseline.rs below its table.
use rolly.Base.{ℕ, ◌+◌, ◌-◌, ◌/◌, List, [], ◌∷◌}
use rolly.Baseline.{CpuBudget, Arithmetic}
use rolly.Baseline.Svg.Layout.{
  width, table_top, table_bottom, summary_y, footer_y, badge_x, verdict_color, verdict_bg,
  budget_bar_x,
}
use rolly.Baseline.Svg.Pieces.{Piece, lit, arg, num}

abbrev pub summary : Arithmetic → ℕ → ℕ → CpuBudget → ℕ → ℕ → List (List Piece)
summary f n_rows max_us budget avg pct =
    (lit "  <line x1=\""
      ∷ num (budget_bar_x f max_us)
      ∷ lit "\" y1=\""
      ∷ num table_top
      ∷ lit "\" x2=\""
      ∷ num (budget_bar_x f max_us)
      ∷ lit "\" y2=\""
      ∷ num (table_bottom n_rows)
      ∷ lit "\" stroke=\"#dc2626\" stroke-width=\"1\" stroke-dasharray=\"4,2\"/>"
      ∷ [])
    ∷ (lit "  <line x1=\"32\" y1=\""
        ∷ num (summary_y n_rows - 4)
        ∷ lit "\" x2=\""
        ∷ num (width - 32)
        ∷ lit "\" y2=\""
        ∷ num (summary_y n_rows - 4)
        ∷ lit "\" stroke=\"#e2e8f0\" stroke-width=\"1\"/>"
        ∷ [])
    ∷ (lit "  <text x=\"36\" y=\""
        ∷ num (summary_y n_rows + 14)
        ∷ lit "\" class=\"summary\">Weighted avg: "
        ∷ arg (f.fixed 2 avg)
        ∷ lit " us/req</text>"
        ∷ [])
    ∷ (lit "  <text x=\"250\" y=\""
        ∷ num (summary_y n_rows + 14)
        ∷ lit "\" class=\"summary\">CPU at "
        ∷ num budget.target_rps
        ∷ lit " req/s: "
        ∷ arg (f.fixed 2 pct)
        ∷ lit "%</text>"
        ∷ [])
    ∷ []

abbrev pub badge_and_footer : Arithmetic → ℕ → CpuBudget → List ℕ → List (List Piece)
badge_and_footer f n_rows budget verdict =
    (lit "  <rect x=\""
      ∷ num badge_x
      ∷ lit "\" y=\""
      ∷ num (summary_y n_rows + 4)
      ∷ lit "\" width=\"70\" height=\"20\" rx=\"10\" fill=\""
      ∷ arg (verdict_bg verdict)
      ∷ lit "\" stroke=\""
      ∷ arg (verdict_color verdict)
      ∷ lit "\" stroke-width=\"1\"/>"
      ∷ [])
    ∷ (lit "  <text x=\""
        ∷ num (badge_x + 35)
        ∷ lit "\" y=\""
        ∷ num (summary_y n_rows + 4 + 14)
        ∷ lit "\" text-anchor=\"middle\" class=\"verdict\" fill=\""
        ∷ arg (verdict_color verdict)
        ∷ lit "\">"
        ∷ arg verdict
        ∷ lit "</text>"
        ∷ [])
    ∷ (lit "  <text x=\""
        ∷ num (width / 2)
        ∷ lit "\" y=\""
        ∷ num (footer_y n_rows)
        ∷ lit "\" text-anchor=\"middle\" class=\"footer\">Budget: "
        ∷ arg (f.fixed 1 budget.budget_us_per_request)
        ∷ lit " us/req ("
        ∷ arg (f.display budget.budget_percent)
        ∷ lit "% CPU at "
        ∷ num budget.target_rps
        ∷ lit " req/s)</text>"
        ∷ [])
    ∷ (lit "  <text x=\""
        ∷ num (width / 2)
        ∷ lit "\" y=\""
        ∷ num (footer_y n_rows + 16)
        ∷ lit
            "\" text-anchor=\"middle\" class=\"footer\">rolly &#x2014; github.com/l1x/rolly</text>"
        ∷ [])
    ∷ (lit "</svg>" ∷ [])
    ∷ []
