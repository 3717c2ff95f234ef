-- ===== src/Baseline.antt =====
-- tools/render_baseline.rs: the summary of the benchmarks, written back into their file and drawn as an
-- SVG. Text is a list of bytes, as `str` holds it. The parsing of TOML, and the rounded arithmetic
-- and the printing of `f64`, are arguments.
pub mod Svg
pub mod Escape
pub mod Search
pub mod Written
pub mod Main
pub mod Cut
pub mod Nested
mod Examples
use rolly.Base.{
  ℕ, zero, suc, ◌+◌, Bool, true, false, ◌&&◌, Option, none, some, List, [], ◌∷◌, ◌++◌, ltb, leb,
  ◌==◌, not, if◌then◌else◌, length, take, drop, get_elem?,
}
use rolly.Base.Text.{codes}
use rolly.Base.Bytes.{beq_bytes}
use rolly.Base.F64.{zero_f64, one_f64, le_f64, lt_f64, is_nan}

-- The file as TOML; an `f64` is its bit pattern.
pub record Metadata : Type 0 where
  pub version : List ℕ
  pub date : List ℕ
  pub platform : List ℕ
  pub cpu : List ℕ
  pub rust_version : List ℕ
  pub notes : List ℕ

pub record Benchmark : Type 0 where
  pub description : List ℕ
  pub mean_ns : ℕ
  pub median_ns : ℕ
  pub allocations_approx : ℕ

pub record CpuBudget : Type 0 where
  pub target_rps : ℕ
  pub budget_percent : ℕ
  pub budget_us_per_request : ℕ
  pub weighted_avg_us : ℕ
  pub total_cpu_percent : ℕ
  pub verdict : List ℕ

pub record Baseline : Type 0 where
  pub metadata : Metadata
  pub benchmarks : List (List ℕ × Benchmark)
  pub traffic_weights : List (List ℕ × ℕ)
  pub cpu_budget : CpuBudget

-- Rounded arithmetic on `f64`, the cast `as u32`, and printing with a number of places or as `{}`.
pub record Arithmetic : Type 0 where
  pub add : ℕ → ℕ → ℕ
  pub mul : ℕ → ℕ → ℕ
  pub div : ℕ → ℕ → ℕ
  pub of_u64 : ℕ → ℕ
  pub to_u32 : ℕ → ℕ
  pub fixed : ℕ → ℕ → List ℕ
  pub display : ℕ → List ℕ
  -- What an empty `sum()` is, a zero of either sign.
  pub empty_sum : ℕ

-- Constants as `f64`.
abbrev pub thousand : ℕ
thousand = 0x408f_4000_0000_0000

abbrev pub million : ℕ
million = 0x412e_8480_0000_0000

abbrev pub hundred : ℕ
hundred = 0x4059_0000_0000_0000

-- `s.strip_prefix(prefix)`
unfoldable pub strip_prefix : List ℕ → List ℕ → Option (List ℕ)
strip_prefix [] s = some s
strip_prefix (p ∷ ps) [] = none
strip_prefix (p ∷ ps) (c ∷ cs) = if p == c then strip_prefix ps cs else none

unfoldable pub short_name : List ℕ → List ℕ
unfolding strip_prefix
short_name name = elim (strip_prefix (codes "ecommerce_") name) [ some rest ↦ rest | none ↦ name ]

-- `s.replace(c, by)` of an ASCII character.
unfoldable pub replace : ℕ → List ℕ → List ℕ → List ℕ
replace c by [] = []
replace c by (x ∷ xs) = (if x == c then by else x ∷ []) ++ replace c by xs

unfoldable pub xml_escape : List ℕ → List ℕ
unfolding replace
xml_escape s =
    replace b'"' (codes "&quot;")
      (replace b'>' (codes "&gt;") (replace b'<' (codes "&lt;") (replace b'&' (codes "&amp;") s)))

-- At the front, or behind the first character.
found : Option (List ℕ) → Option ℕ → Option ℕ
found (some _) later = some 0
found none (some i) = some (suc i)
found none none = none

-- `text.find(pattern)`
unfoldable pub find : List ℕ → List ℕ → Option ℕ
unfolding strip_prefix found
find pattern [] = found (strip_prefix pattern []) none
find pattern (c ∷ cs) = found (strip_prefix pattern (c ∷ cs)) (find pattern cs)

-- `text.replace_range(start..end, val)`
abbrev pub replace_range : ℕ → ℕ → List ℕ → List ℕ → List ℕ
replace_range start end val text = take start text ++ (val ++ drop end text)

end_at : ℕ → ℕ → Option ℕ → ℕ
end_at val_start len (some i) = val_start + i
end_at val_start len none = len

-- The end of the value, from its start on.
value_end : ℕ → List ℕ → ℕ
unfolding find end_at
value_end val_start text = end_at val_start (length text) (find (10 ∷ []) (drop val_start text))

-- The body of the loop, from the outcome of the search for the prefix on.
write_at : ℕ → List ℕ → List ℕ → Option ℕ → List ℕ
unfolding value_end
write_at prefix_len val updated (some start) =
    let val_start = start + prefix_len in
    replace_range val_start (value_end val_start updated) val updated
write_at prefix_len val updated none = updated

unfoldable pub write_value : List ℕ × List ℕ → List ℕ → List ℕ
unfolding find write_at
write_value (key, val) updated =
    let prefix = key ++ codes " = " in write_at (length prefix) val updated (find prefix updated)

unfoldable pub write_values : List (List ℕ × List ℕ) → List ℕ → List ℕ
unfolding write_value
write_values [] updated = updated
write_values (v ∷ vs) updated = write_values vs (write_value v updated)

-- `is_char_boundary`, inside a text: the byte is none that continues a character.
abbrev pub is_char_boundary : ℕ → List ℕ → Bool
is_char_boundary i text = elim (get_elem? text i) [
  | some b ↦ not (leb 0x80 b && ltb b 0xc0)
  | none ↦ true
]

-- The description, truncated to fit; slicing inside a character panics.
unfoldable pub shown_description : List ℕ → Option (List ℕ)
shown_description description =
    if ltb 40 (length description)
    then if is_char_boundary 37 description then some (take 37 description ++ codes "...") else none
    else some description

-- A row of the table: the name, the benchmark and the weight.
pub record Entry : Type 0 where
  pub name : List ℕ
  pub bench : Benchmark
  pub weight : ℕ

-- `get` of a `BTreeMap`, whose keys differ.
unfoldable pub get : {A : Type 0} → List ℕ → List (List ℕ × A) → Option A
get key [] = none
get key ((k, a) ∷ rest) = if beq_bytes k key then some a else get key rest

abbrev pub endpoint_order : List (List ℕ)
endpoint_order =
    codes "ecommerce_catalog_browse"
    ∷ (codes "ecommerce_search"
        ∷ (codes "ecommerce_product_detail"
            ∷ (codes "ecommerce_cart_add"
                ∷ (codes "ecommerce_checkout" ∷ (codes "ecommerce_health" ∷ [])))))

weight_or_zero : Option ℕ → ℕ
weight_or_zero none = zero_f64
weight_or_zero (some w) = w

-- The closure of `filter_map`, before the entries of the other names.
keep_entry : List ℕ → Option Benchmark → Option ℕ → List Entry → List Entry
unfolding weight_or_zero
keep_entry name none weight rest = rest
keep_entry name (some bench) weight rest =
    record { name = name; bench = bench; weight = weight_or_zero weight } ∷ rest

unfoldable pub entries_of : Baseline → List (List ℕ) → List Entry
unfolding get keep_entry
entries_of baseline [] = []
entries_of baseline (name ∷ names) =
    keep_entry name (get name baseline.benchmarks) (get name baseline.traffic_weights)
      (entries_of baseline names)

unfoldable pub all_zero : List Entry → Bool
all_zero [] = true
all_zero (e ∷ es) = (e.bench.mean_ns == 0) && all_zero es

module _ (f : Arithmetic) where
  -- `b.mean_ns as f64 / 1000.0`
  abbrev pub us_of : Entry → ℕ
  us_of e = f.div (f.of_u64 e.bench.mean_ns) thousand

  -- `sum()` over the weighted times, from the left.
  weighted_sum : List Entry → ℕ → ℕ
  weighted_sum [] acc = acc
  weighted_sum (e ∷ es) acc = weighted_sum es (f.add acc (f.mul (us_of e) e.weight))

  unfoldable pub weighted_avg_us : List Entry → ℕ
  unfolding weighted_sum
  weighted_avg_us entries = weighted_sum entries f.empty_sum

  unfoldable pub total_cpu_pct : Baseline → ℕ → ℕ
  total_cpu_pct baseline avg =
      f.mul (f.div (f.mul avg (f.of_u64 baseline.cpu_budget.target_rps)) million) hundred

-- The three verdicts.
abbrev pub verdict_of : Bool → Bool → List ℕ
verdict_of true within = codes "PENDING"
verdict_of false true = codes "PASS"
verdict_of false false = codes "FAIL"

module _ (f : Arithmetic) where
  -- The values that `main` writes into the file.
  unfoldable pub computed_values : ℕ → ℕ → List ℕ → List (List ℕ × List ℕ)
  computed_values avg pct verdict =
      (codes "weighted_avg_us", f.fixed 3 avg)
      ∷ ((codes "total_cpu_percent", f.fixed 2 pct)
          ∷ ((codes "verdict", b'"' ∷ (verdict ++ (b'"' ∷ []))) ∷ []))
