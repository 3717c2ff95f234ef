-- ===== src/UseMetrics/Examples.antt =====
-- src/use_metrics.rs on a line with parentheses and spaces in the command's name.
use rolly.Base.{ℕ, ◌+◌, ◌-◌, ◌*◌, ◌≡◌, refl, arith, none, some, List, [], ◌∷◌, replicate, All}
use rolly.Base.Text.{codes}
use rolly.UseMetrics.{
  memory_usage, is_whitespace, split_whitespace, split_from, push_word, parse_u64, read_cpu_ticks,
  cpu_utilization, poll,
}
use rolly.UseMetrics.Parse.{IsPlain, Reading, stat, statm, IsReading, poll-rounds}

command_ticks :
    read_cpu_ticks (some (codes "1 (a) b) S 1 1 1 0 -1 4 9 0 0 0 250 37 0 0 20")) ≡ some (250, 37)
unfolding read_cpu_ticks split_whitespace split_from push_word is_whitespace
command_ticks = refl

too_large : parse_u64 (codes "18446744073709551616") ≡ none
unfolding parse_u64
too_large = refl

signed : parse_u64 (codes "+12") ≡ some 12
unfolding parse_u64
signed = refl

abbrev command : List ℕ
command = codes "1 (a) b"

abbrev before : List (List ℕ)
before = replicate 11 (codes "7")

abbrev after : List (List ℕ)
after = codes "0" ∷ []

seven-IsPlain : IsPlain (codes "7")
unfolding is_whitespace
seven-IsPlain = (((refl, tt), λ e. cc), (refl, tt))

zero-IsPlain : IsPlain (codes "0")
unfolding is_whitespace
zero-IsPlain = (((refl, tt), λ e. cc), (refl, tt))

before-IsPlain : All IsPlain before
before-IsPlain = let p = seven-IsPlain in (p, (p, (p, (p, (p, (p, (p, (p, (p, (p, (p, tt)))))))))))

-- Between the rounds the process has used 7 ticks and let go of a page.
abbrev first : Reading
first = record {
  command = command;
  before = before;
  utime = 250;
  stime = 37;
  after = after;
  size = codes "7";
  rss = 3;
  pages = [];
}

abbrev second : Reading
second = record first { stime = 44; rss = 2 }

first-IsReading : IsReading 4096 first
first-IsReading = record {
  eleven = refl;
  before = before-IsPlain;
  after = (zero-IsPlain, tt);
  size = seven-IsPlain.0;
  pages = tt;
  times = omega arith;
  bytes = omega arith;
  rss = omega arith;
}

second-IsReading : IsReading 4096 second
second-IsReading = record {
  eleven = refl;
  before = before-IsPlain;
  after = (zero-IsPlain, tt);
  size = seven-IsPlain.0;
  pages = tt;
  times = omega arith;
  bytes = omega arith;
  rss = omega arith;
}

poll-rounds_example :
    (poll 4096 (λ t. t) (some (stat first)) (some (statm first)) none
      ≡ (some (250 + 37), memory_usage (3 * 4096) ∷ []))
    × (poll 4096
          (λ t. t)
          (some (stat second))
          (some (statm second))
          (poll 4096 (λ t. t) (some (stat first)) (some (statm first)) none).0
        ≡ (
          some (250 + 44),
          cpu_utilization ((250 + 44) - (250 + 37)) ∷ (memory_usage (2 * 4096) ∷ []),
        ))
poll-rounds_example = poll-rounds 4096 (λ t. t) first second first-IsReading second-IsReading
