-- ===== src/Baseline/Examples.antt =====
-- The tool tools/render_baseline.rs on concrete files.
use rolly.Base.{ℕ, ◌≡◌, inl, refl, arith, none, some, List, [], ◌∷◌, ◌++◌, length, replicate, All}
use rolly.Base.Text.{codes}
use rolly.Base.Bytes.{beq_bytes}
use rolly.Baseline.{
  Arithmetic, Baseline, Entry, endpoint_order, entries_of, get, weight_or_zero, keep_entry,
  strip_prefix, found, find, write_value, write_at, value_end, end_at, xml_escape,
}
use rolly.Baseline.Main.{main}
use rolly.Baseline.Escape.{unescape, unescape-xml_escape}
use rolly.Baseline.Search.{IsLine, EndsLine}
use rolly.Baseline.Written.{read_value, write_value_found}
use rolly.Baseline.Nested.{IsNested}
use rolly.Baseline.Nested.Safe.{PrintsNumbers}
use rolly.Baseline.Nested.Whole.{IsPrintable, main-IsNested}
use rolly.Baseline.Cut.{IsCut, main-IsCut}

unescape-xml_escape_example : unescape none (xml_escape (codes "a<b & \"c\"")) ≡ codes "a<b & \"c\""
unescape-xml_escape_example = unescape-xml_escape (codes "a<b & \"c\"")

-- With a comment behind the value, which is replaced with it.
abbrev file : List ℕ
file = codes "budget = 5\nverdict = \"\" # pending\nend = 1\n"

found_at : find (codes "verdict" ++ codes " = ") file ≡ some 11
unfolding find found strip_prefix
found_at = refl

one-IsLine : IsLine (codes "\"PASS\"")
one-IsLine = (refl, (refl, (refl, (refl, (refl, (refl, tt))))))

comment_lost :
    write_value (codes "verdict", codes "\"PASS\"") file
    ≡ codes "budget = 5\nverdict = \"PASS\"\nend = 1\n"
unfolding write_value write_at value_end end_at find found strip_prefix
comment_lost = refl

write_value_found_example :
    (before : List ℕ) × (line : List ℕ) × (rest : List ℕ) × (length before ≡ 11)
    × IsLine line
    × EndsLine rest
    × (file ≡ before ++ ((codes "verdict" ++ codes " = ") ++ (line ++ rest)))
    × (write_value (codes "verdict", codes "\"PASS\"") file
        ≡ before ++ ((codes "verdict" ++ codes " = ") ++ (codes "\"PASS\"" ++ rest)))
    × (read_value (codes "verdict") (write_value (codes "verdict", codes "\"PASS\"") file)
        ≡ some (codes "\"PASS\""))
write_value_found_example =
    write_value_found (codes "verdict") (codes "\"PASS\"") file 11 one-IsLine found_at

-- Arithmetic that knows one number.
abbrev ones : Arithmetic
ones = record {
  add = λ a b. b;
  mul = λ a b. b;
  div = λ a b. a;
  of_u64 = λ v. v;
  to_u32 = λ x. 90;
  fixed = λ places x. codes "1.0";
  display = λ x. codes "4";
  empty_sum = 0;
}

ones-PrintsNumbers : PrintsNumbers ones
ones-PrintsNumbers = record {
  fixed-numeral = λ places x. (
    inl (omega arith, omega arith),
    (inl (omega arith, omega arith), (inl (omega arith, omega arith), tt)),
  );
  display-numeral = λ x. (inl (omega arith, omega arith), tt);
  to_u32-lt = λ x. omega arith;
}

abbrev baseline_with : List ℕ → Baseline
baseline_with description = record {
  metadata = record {
    version = codes "1 & 2";
    date = codes "today";
    platform = codes "</svg>";
    cpu = codes "a";
    rust_version = [];
    notes = [];
  };
  benchmarks =
      (
        codes "ecommerce_health",
        record {
          description = description;
          mean_ns = 400;
          median_ns = 400;
          allocations_approx = 3;
        },
      )
      ∷ [];
  traffic_weights = [];
  cpu_budget = record {
    target_rps = 3000;
    budget_percent = 1;
    budget_us_per_request = 2;
    weighted_avg_us = 0;
    total_cpu_percent = 0;
    verdict = [];
  };
}

abbrev entry_with : List ℕ → Entry
entry_with description = record {
  name = codes "ecommerce_health";
  bench = record {
    description = description;
    mean_ns = 400;
    median_ns = 400;
    allocations_approx = 3;
  };
  weight = 0;
}

one_entry :
    (description : List ℕ)
    → entries_of (baseline_with description) endpoint_order ≡ entry_with description ∷ []
unfolding entries_of get keep_entry weight_or_zero beq_bytes
one_entry description = refl

printable : All IsPrintable (entries_of (baseline_with (codes "GET")) endpoint_order)
unfolding entries_of get keep_entry weight_or_zero beq_bytes
printable = ((omega arith, (omega arith, (omega arith, (omega arith, tt)))), tt)

main-IsNested_example :
    (svg : List ℕ) × ((main ones file (baseline_with (codes "GET"))).1 ≡ some svg) × IsNested svg
main-IsNested_example =
    main-IsNested ones file (baseline_with (codes "GET")) ones-PrintsNumbers (omega arith) printable

-- An e with an acute accent at the cut.
abbrev accented : List ℕ
accented = replicate 36 97 ++ (0xc3 ∷ (0xa9 ∷ replicate 10 97))

accented-IsCut : IsCut accented
accented-IsCut = record {
  byte = 0xa9;
  long = omega arith;
  at = refl;
  low = omega arith;
  high = omega arith;
}

main-IsCut_example : (main ones file (baseline_with accented)).1 ≡ none
main-IsCut_example =
    main-IsCut ones file (baseline_with accented) [] [] (entry_with accented) (one_entry accented)
      accented-IsCut
