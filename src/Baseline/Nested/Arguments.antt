-- ===== src/Baseline/Nested/Arguments.antt =====
-- The arguments of every line of the drawing of tools/render_baseline.rs.
use rolly.Base.{ℕ, ◌%◌, ◌^◌, ◌<◌, ◌≤◌, refl, arith, Bool-cases, List, ◌==◌, inl, inr}
use rolly.Base.Text.{codes}
use rolly.UseMetrics.Decimal.{decimal}
use rolly.Baseline.{Metadata, CpuBudget, Arithmetic, Entry, us_of}
use rolly.Baseline.Svg.{
  preamble, card, column_headers, row_background, row_lines, summary, badge_and_footer, bar_max_w,
  bar_color, bar_w, budget_bar_x, verdict_bg, verdict_color,
}
use rolly.Baseline.Nested.{AllSafe, IsSafe}
use rolly.Baseline.Nested.Safe.{
  PrintsNumbers, decimal-IsSafe, number-IsSafe, xml_escape-IsSafe, plain_text-IsSafe, if-IsSafe,
}

number : (v : ℕ) → v < 2 ^ 34 → IsSafe (decimal v)
number v h = decimal-IsSafe v (omega (arith, h))

pub preamble-AllSafe : (n : ℕ) → n ≤ 6 → AllSafe (preamble n)
preamble-AllSafe n h = (
  (number _ (omega arith), (number _ (omega (arith, h)), tt)),
  (tt, (tt, (tt, (tt, (tt, (tt, (tt, (tt, (tt, (tt, tt)))))))))),
)

pub card-AllSafe : (n : ℕ) (m : Metadata) → n ≤ 6 → AllSafe (card n m)
card-AllSafe n m h = (
  (number _ (omega arith), (number _ (omega (arith, h)), tt)),
  (
    (
      number _ (omega arith),
      (number _ (omega arith), (number _ (omega arith), (number _ (omega (arith, h)), tt))),
    ),
    (
      (number _ (omega arith), (number _ (omega arith), (number _ (omega arith), tt))),
      (
        (number _ (omega arith), (xml_escape-IsSafe _, tt)),
        (
          (
            number _ (omega arith),
            (xml_escape-IsSafe _, (xml_escape-IsSafe _, (xml_escape-IsSafe _, tt))),
          ),
          ((number _ (omega arith), tt), tt),
        ),
      ),
    ),
  ),
)

pub column_headers-AllSafe : AllSafe column_headers
column_headers-AllSafe = (
  (number _ (omega arith), tt),
  (
    (number _ (omega arith), (number _ (omega arith), tt)),
    (
      (number _ (omega arith), tt),
      (
        (number _ (omega arith), tt),
        (
          (number _ (omega arith), tt),
          ((number _ (omega arith), (number _ (omega arith), (number _ (omega arith), tt))), tt),
        ),
      ),
    ),
  ),
)

pub row_background-AllSafe : (i y : ℕ) → y < 2 ^ 31 → AllSafe (row_background i y)
row_background-AllSafe i y h = elim (Bool-cases (i % 2 == 0)) [
  | inl e ↦
      rw e
        ((number _ (omega (arith, h)), (number _ (omega arith), (number _ (omega arith), tt))), tt)
  | inr e ↦ rw e tt
]

bar_color-IsSafe : (f : Arithmetic) (us : ℕ) → IsSafe (bar_color f us)
unfolding bar_color
bar_color-IsSafe f us = if-IsSafe _ _ _ (plain_text-IsSafe (codes "#059669") refl) (
    if-IsSafe _ _ _ (plain_text-IsSafe (codes "#ea580c") refl)
      (plain_text-IsSafe (codes "#dc2626") refl))

verdict_color-IsSafe : (verdict : List ℕ) → IsSafe (verdict_color verdict)
unfolding verdict_color
verdict_color-IsSafe verdict = if-IsSafe _ _ _ (plain_text-IsSafe (codes "#059669") refl) (
    if-IsSafe _ _ _ (plain_text-IsSafe (codes "#dc2626") refl)
      (plain_text-IsSafe (codes "#64748b") refl))

verdict_bg-IsSafe : (verdict : List ℕ) → IsSafe (verdict_bg verdict)
unfolding verdict_bg
verdict_bg-IsSafe verdict = if-IsSafe _ _ _ (plain_text-IsSafe (codes "#ecfdf5") refl) (
    if-IsSafe _ _ _ (plain_text-IsSafe (codes "#fef2f2") refl)
      (plain_text-IsSafe (codes "#f1f5f9") refl))

bar_w-lt : (f : Arithmetic) → PrintsNumbers f → (max_us us : ℕ) → bar_w f max_us us < 2 ^ 32
unfolding bar_w
bar_w-lt f laws max_us us = ground (arith, laws.to_u32-lt (f.mul (f.div us max_us) bar_max_w))

budget_bar_x-lt : (f : Arithmetic) → PrintsNumbers f → (max_us : ℕ) → budget_bar_x f max_us < 2 ^ 34
unfolding budget_bar_x
budget_bar_x-lt f laws max_us = omega (arith, laws.to_u32-lt _)

pub row_lines-AllSafe :
    (f : Arithmetic) (max_us y : ℕ) (e : Entry) (desc : List ℕ)
    → PrintsNumbers f
    → y < 2 ^ 31
    → e.bench.allocations_approx < 2 ^ 64
    → AllSafe (row_lines f max_us y e desc)
row_lines-AllSafe f max_us y e desc laws h allocs = (
  (number _ (omega (arith, h)), (xml_escape-IsSafe _, tt)),
  (
    (
      number _ (omega arith),
      (
        number _ (omega (arith, h)),
        (
          number _ (omega (arith, bar_w-lt f laws max_us (us_of f e))),
          (bar_color-IsSafe f (us_of f e), tt),
        ),
      ),
    ),
    (
      (
        number _ (omega (arith, bar_w-lt f laws max_us (us_of f e))),
        (number _ (omega (arith, h)), (number-IsSafe _ (laws.fixed-numeral _ _), tt)),
      ),
      (
        (number _ (omega (arith, h)), (number-IsSafe _ (laws.fixed-numeral _ _), tt)),
        (
          (number _ (omega (arith, h)), (decimal-IsSafe _ allocs, tt)),
          (
            (number _ (omega (arith, h)), (xml_escape-IsSafe _, tt)),
            (
              (
                number _ (omega (arith, h)),
                (number _ (omega arith), (number _ (omega (arith, h)), tt)),
              ),
              tt,
            ),
          ),
        ),
      ),
    ),
  ),
)

pub summary-AllSafe :
    (f : Arithmetic) (n max_us : ℕ) (b : CpuBudget) (avg pct : ℕ)
    → PrintsNumbers f
    → n ≤ 6
    → b.target_rps < 2 ^ 64
    → AllSafe (summary f n max_us b avg pct)
summary-AllSafe f n max_us b avg pct laws h rps = (
  (
    number _ (budget_bar_x-lt f laws max_us),
    (
      number _ (omega arith),
      (number _ (budget_bar_x-lt f laws max_us), (number _ (omega (arith, h)), tt)),
    ),
  ),
  (
    (number _ (omega (arith, h)), (number _ (omega arith), (number _ (omega (arith, h)), tt))),
    (
      (number _ (omega (arith, h)), (number-IsSafe _ (laws.fixed-numeral _ _), tt)),
      (
        (
          number _ (omega (arith, h)),
          (decimal-IsSafe _ rps, (number-IsSafe _ (laws.fixed-numeral _ _), tt)),
        ),
        tt,
      ),
    ),
  ),
)

pub badge_and_footer-AllSafe :
    (f : Arithmetic) (n : ℕ) (b : CpuBudget) (verdict : List ℕ)
    → PrintsNumbers f
    → n ≤ 6
    → b.target_rps < 2 ^ 64
    → IsSafe verdict
    → AllSafe (badge_and_footer f n b verdict)
badge_and_footer-AllSafe f n b verdict laws h rps safe = (
  (
    number _ (omega arith),
    (number _ (omega (arith, h)), (verdict_bg-IsSafe verdict, (verdict_color-IsSafe verdict, tt))),
  ),
  (
    (
      number _ (omega arith),
      (number _ (omega (arith, h)), (verdict_color-IsSafe verdict, (safe, tt))),
    ),
    (
      (
        number _ (omega arith),
        (
          number _ (omega (arith, h)),
          (
            number-IsSafe _ (laws.fixed-numeral _ _),
            (number-IsSafe _ (laws.display-numeral _), (decimal-IsSafe _ rps, tt)),
          ),
        ),
      ),
      ((number _ (omega arith), (number _ (omega (arith, h)), tt)), (tt, tt)),
    ),
  ),
)
