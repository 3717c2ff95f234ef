-- ===== src/Baseline/Main.antt =====
-- `main` of tools/render_baseline.rs, from the text of the file and what TOML makes of it.
use rolly.Base.{ℕ, Option, List}
use rolly.Base.F64.{le_f64}
use rolly.Baseline.{
  Arithmetic, Baseline, endpoint_order, entries_of, all_zero, weighted_avg_us, total_cpu_pct,
  verdict_of, computed_values, write_values,
}
use rolly.Baseline.Svg.{render_svg}

-- The new text of the file, which is written first, and the drawing.
unfoldable pub main : Arithmetic → List ℕ → Baseline → List ℕ × Option (List ℕ)
main f toml_str baseline =
    let entries = entries_of baseline endpoint_order in
    let avg = weighted_avg_us f entries in
    let pct = total_cpu_pct f baseline avg in
    let verdict = verdict_of (all_zero entries) (le_f64 pct baseline.cpu_budget.budget_percent) in
    (
      write_values (computed_values f avg pct verdict) toml_str,
      render_svg f baseline entries avg pct verdict,
    )
