-- ===== src/Baseline/Svg/Layout.antt =====
-- Places, sizes and colors in the drawing of tools/render_baseline.rs. There are at most six rows, so that
-- no `u32` overflows.
use rolly.Base.{ℕ, ◌+◌, ◌*◌, List, [], ◌∷◌, if◌then◌else◌}
use rolly.Base.Text.{codes}
use rolly.Base.Bytes.{beq_bytes}
use rolly.Base.F64.{zero_f64, one_f64, lt_f64, is_nan}
use rolly.Baseline.{Arithmetic, Entry, us_of}

-- Constants as `f64`.
abbrev budget_us : ℕ
budget_us = 0x4040_a666_6666_6666

abbrev low_ratio : ℕ
low_ratio = 0x3fe6_6666_6666_6666

abbrev pub bar_max_w : ℕ
bar_max_w = 0x4066_8000_0000_0000

-- The layout.
abbrev pub width : ℕ
width = 780

abbrev pub row_h : ℕ
row_h = 32

abbrev pub header_y : ℕ
header_y = 100

abbrev pub table_top : ℕ
table_top = header_y + row_h + 4

abbrev pub table_bottom : ℕ → ℕ
table_bottom n_rows = table_top + n_rows * row_h

abbrev pub summary_y : ℕ → ℕ
summary_y n_rows = table_bottom n_rows + 16

abbrev pub footer_y : ℕ → ℕ
footer_y n_rows = summary_y n_rows + 60

abbrev pub height : ℕ → ℕ
height n_rows = footer_y n_rows + 30

abbrev pub bar_col_x : ℕ
bar_col_x = 200

abbrev pub card_x : ℕ
card_x = 16

abbrev pub card_y : ℕ
card_y = 12

abbrev pub badge_x : ℕ
badge_x = 500

-- `f64::max` and `f64::min`
abbrev max_f64 : ℕ → ℕ → ℕ
max_f64 a b = if is_nan a then b else if is_nan b then a else if lt_f64 a b then b else a

abbrev min_f64 : ℕ → ℕ → ℕ
min_f64 a b = if is_nan a then b else if is_nan b then a else if lt_f64 b a then b else a

unfoldable pub bar_color : Arithmetic → ℕ → List ℕ
bar_color f us =
    let ratio = f.div us budget_us in
    if lt_f64 ratio low_ratio
    then codes "#059669"
    else if lt_f64 ratio one_f64
    then codes "#ea580c"
    else codes "#dc2626"

unfoldable pub verdict_color : List ℕ → List ℕ
verdict_color verdict =
    if beq_bytes verdict (codes "PASS")
    then codes "#059669"
    else if beq_bytes verdict (codes "FAIL")
    then codes "#dc2626"
    else codes "#64748b"

unfoldable pub verdict_bg : List ℕ → List ℕ
verdict_bg verdict =
    if beq_bytes verdict (codes "PASS")
    then codes "#ecfdf5"
    else if beq_bytes verdict (codes "FAIL")
    then codes "#fef2f2"
    else codes "#f1f5f9"

-- The longest time, and at least the budget.
unfoldable pub max_from : Arithmetic → ℕ → List Entry → ℕ
max_from f acc [] = max_f64 acc budget_us
max_from f acc (e ∷ es) = max_from f (max_f64 acc (us_of f e)) es

unfoldable pub bar_w : Arithmetic → ℕ → ℕ → ℕ
bar_w f max_us us =
    if lt_f64 zero_f64 max_us then f.to_u32 (f.mul (f.div us max_us) bar_max_w) else 0

unfoldable pub budget_bar_x : Arithmetic → ℕ → ℕ
budget_bar_x f max_us =
    bar_col_x + f.to_u32 (min_f64 (f.mul (f.div budget_us max_us) bar_max_w) bar_max_w)
