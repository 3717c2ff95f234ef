-- ===== src/Baseline/Nested/Whole.antt =====
-- The whole drawing of tools/render_baseline.rs.
use rolly.Base.{
  ℕ, zero, suc, ◌+◌, ◌*◌, ◌^◌, ◌<◌, ◌≤◌, ◌≡◌, refl, arith, Bool, Bool-cases, true, false, Option,
  none, some, List, [], ◌∷◌, ◌++◌, All, All-append, inl, inr, length, take, ltb,
}
use rolly.Base.Text.{codes}
use rolly.Baseline.{Baseline, Arithmetic, Entry, shown_description, is_char_boundary, verdict_of}
use rolly.Baseline.Svg.{
  Piece, preamble, card, column_headers, row_background, row_lines, rows, summary, badge_and_footer,
  svg_lines, max_from, render_svg, table_top, row_h,
}
use rolly.Baseline.Nested.{
  text, check_lines, check_lines-append, check_lines-read, AllSafe, IsSafe, IsNested,
}
use rolly.Baseline.Nested.Safe.{PrintsNumbers, plain_text-IsSafe}
use rolly.Baseline.Nested.Drawn.{
  inside, preamble-check, card-check, column_headers-check, row_background-check, row_lines-check,
  summary-check, badge_and_footer-check,
}
use rolly.Base.F64.{zero_f64}
use rolly.Baseline.{Benchmark, endpoint_order, entries_of, get, keep_entry}
use rolly.Baseline.Main.{main}
use rolly.Baseline.Nested.Arguments.{
  preamble-AllSafe, card-AllSafe, column_headers-AllSafe, row_background-AllSafe, row_lines-AllSafe,
  summary-AllSafe, badge_and_footer-AllSafe,
}

-- A benchmark whose description can be cut anywhere.
abbrev pub IsAscii : List ℕ → Type 0
IsAscii s = All (λ b. b < 128) s

abbrev pub IsPrintable : Entry → Type 0
IsPrintable e = (e.bench.allocations_approx < 2 ^ 64) × IsAscii e.bench.description

is_char_boundary-IsAscii : (s : List ℕ) (i : ℕ) → IsAscii s → is_char_boundary i s ≡ true
is_char_boundary-IsAscii [] i h = refl
is_char_boundary-IsAscii (b ∷ s) zero (h, k) = ground (arith, h)
is_char_boundary-IsAscii (b ∷ s) (suc i) (h, k) = is_char_boundary-IsAscii s i k

shown_description-IsAscii :
    (s : List ℕ) → IsAscii s → (desc : List ℕ) × (shown_description s ≡ some desc)
unfolding shown_description
shown_description-IsAscii s h = elim (Bool-cases (ltb 40 (length s))) [
  | inl long ↦ (take 37 s ++ codes "...", rw (long, is_char_boundary-IsAscii s 37 h) refl)
  | inr short ↦ (s, rw short refl)
]

-- Lines that leave the reader inside the root.
record IsDrawn (ls : List (List Piece)) : Type 0 where
  pub safe : AllSafe ls
  pub check : check_lines ls inside ≡ some inside

append-IsDrawn : (ls ms : List (List Piece)) → IsDrawn ls → IsDrawn ms → IsDrawn (ls ++ ms)
append-IsDrawn ls ms h k = record {
  safe = All-append _ ls ms h.safe k.safe;
  check = check_lines-append ls ms inside inside inside h.check k.check;
}

module _ (f : Arithmetic) (laws : PrintsNumbers f) where
  row-IsDrawn :
      (max_us i : ℕ) (e : Entry) (desc : List ℕ) (rest : List (List Piece))
      → i ≤ 6
      → e.bench.allocations_approx < 2 ^ 64
      → IsDrawn rest
      → let y = table_top + i * row_h in
        IsDrawn (row_background i y ++ (row_lines f max_us y e desc ++ rest))
  row-IsDrawn max_us i e desc rest h allocs k =
      let y = table_top + i * row_h in
      append-IsDrawn (row_background i y) (row_lines f max_us y e desc ++ rest)
        record {
          safe = row_background-AllSafe i y (omega (arith, h));
          check = row_background-check i y;
        }
        (append-IsDrawn (row_lines f max_us y e desc) rest
          record {
            safe = row_lines-AllSafe f max_us y e desc laws (omega (arith, h)) allocs;
            check = row_lines-check f max_us y e desc;
          }
          k)

  rows-IsDrawn :
      (max_us i : ℕ) (es : List Entry)
      → i + length es ≤ 6
      → All IsPrintable es
      → (ls : List (List Piece)) × (rows f max_us i es ≡ some ls) × IsDrawn ls
  unfolding rows
  rows-IsDrawn max_us i [] h fine =
      ([], refl, record { safe = tt; check = unfold check_lines in refl })
  rows-IsDrawn max_us i (e ∷ es) h ((allocs, ascii), fine) =
      let (desc, shown) = shown_description-IsAscii e.bench.description ascii in
      let (ls, rest, drawn) = rows-IsDrawn max_us (suc i) es (omega (arith, h)) fine in
      (_, rw (shown, rest) refl, row-IsDrawn max_us i e desc ls (omega (arith, h)) allocs drawn)

IsDrawn-by :
    {ls : List (List Piece)} → AllSafe ls → check_lines ls inside ≡ some inside → IsDrawn ls
IsDrawn-by h k = record { safe = h; check = k }

-- Lines that close the root.
record Ends (ls : List (List Piece)) : Type 0 where
  pub safe : AllSafe ls
  pub check : check_lines ls inside ≡ some (text, [])

append-Ends : (ls ms : List (List Piece)) → IsDrawn ls → Ends ms → Ends (ls ++ ms)
append-Ends ls ms h k = record {
  safe = All-append _ ls ms h.safe k.safe;
  check = check_lines-append ls ms inside inside (text, []) h.check k.check;
}

-- Lines that open and close the root.
record IsWhole (ls : List (List Piece)) : Type 0 where
  pub safe : AllSafe ls
  pub check : check_lines ls (text, []) ≡ some (text, [])

IsWhole-from :
    (ls ms : List (List Piece))
    → AllSafe ls
    → check_lines ls (text, []) ≡ some inside
    → Ends ms
    → IsWhole (ls ++ ms)
IsWhole-from ls ms h c k = record {
  safe = All-append _ ls ms h k.safe;
  check = check_lines-append ls ms (text, []) inside (text, []) c k.check;
}

length-keep_entry :
    (name : List ℕ) (o : Option Benchmark) (w : Option ℕ) (rest : List Entry)
    → length (keep_entry name o w rest) ≤ suc (length rest)
unfolding keep_entry
length-keep_entry name none w rest = omega arith
length-keep_entry name (some bench) w rest = omega arith

length-entries_of :
    (baseline : Baseline) (names : List (List ℕ))
    → length (entries_of baseline names) ≤ length names
unfolding entries_of
length-entries_of baseline [] = omega arith
length-entries_of baseline (name ∷ names) = omega (
  arith,
  length-keep_entry name (get name baseline.benchmarks) (get name baseline.traffic_weights)
      (entries_of baseline names),
  length-entries_of baseline names,
)

verdict_of-IsSafe : (pending within : Bool) → IsSafe (verdict_of pending within)
verdict_of-IsSafe true within = plain_text-IsSafe (codes "PENDING") refl
verdict_of-IsSafe false true = plain_text-IsSafe (codes "PASS") refl
verdict_of-IsSafe false false = plain_text-IsSafe (codes "FAIL") refl

render_svg-IsNested :
    (f : Arithmetic) (baseline : Baseline) (entries : List Entry) (avg pct : ℕ) (verdict : List ℕ)
    → PrintsNumbers f
    → length entries ≤ 6
    → baseline.cpu_budget.target_rps < 2 ^ 64
    → All IsPrintable entries
    → IsSafe verdict
    → (svg : List ℕ) × (render_svg f baseline entries avg pct verdict ≡ some svg) × IsNested svg
unfolding render_svg svg_lines
render_svg-IsNested f baseline entries avg pct verdict laws six rps fine safe =
    let n = length entries in
    let max_us = max_from f zero_f64 entries in
    let (table, drawn, is_drawn) = rows-IsDrawn f laws max_us 0 entries (omega (arith, six)) fine in
    let whole : IsWhole (
        preamble n
        ++ (card n baseline.metadata
            ++ (column_headers
                ++ (table
                    ++ (summary f n max_us baseline.cpu_budget avg pct
                        ++ badge_and_footer f n baseline.cpu_budget verdict))))) =
      IsWhole-from (preamble n) _ (preamble-AllSafe n six) (preamble-check n) (
        append-Ends (card n baseline.metadata) _
          (IsDrawn-by (card-AllSafe n baseline.metadata six) (card-check n baseline.metadata))
          (append-Ends column_headers _ (IsDrawn-by column_headers-AllSafe column_headers-check) (
            append-Ends table _ is_drawn (
              append-Ends (summary f n max_us baseline.cpu_budget avg pct) _
                (IsDrawn-by (summary-AllSafe f n max_us baseline.cpu_budget avg pct laws six rps)
                  (summary-check f n max_us baseline.cpu_budget avg pct))
                record {
                  safe = badge_and_footer-AllSafe f n baseline.cpu_budget verdict laws six rps safe;
                  check = badge_and_footer-check f n baseline.cpu_budget verdict;
                })))) in
    (_, rw drawn refl, check_lines-read _ (text, []) (text, []) whole.safe whole.check)

-- If printed numbers have no character of a tag, integers have 64 bits and the descriptions are ASCII,
-- then `main` always draws, whatever names, times, versions and platforms the file has, and in the
-- drawing every element is closed where it was opened and every entity is one.
pub main-IsNested :
    (f : Arithmetic) (toml_str : List ℕ) (baseline : Baseline)
    → PrintsNumbers f
    → baseline.cpu_budget.target_rps < 2 ^ 64
    → All IsPrintable (entries_of baseline endpoint_order)
    → (svg : List ℕ) × ((main f toml_str baseline).1 ≡ some svg) × IsNested svg
unfolding main
main-IsNested f toml_str baseline laws rps fine =
    render_svg-IsNested f baseline (entries_of baseline endpoint_order) _ _ _ laws
      (length-entries_of baseline endpoint_order) rps fine (verdict_of-IsSafe _ _)
