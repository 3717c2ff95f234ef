-- ===== src/UseMetrics.antt =====
-- src/use_metrics.rs: reading the process's CPU ticks and memory from /proc, and one round of the loop
-- that reports them. Text is a list of code points; the contents of the two files, the clock and the
-- arithmetic on `f64` are arguments.
pub mod Decimal
pub mod Words
pub mod Parse
mod Examples
use rolly.Base.{
  ◌>>=◌, ℕ, zero, suc, ◌+◌, ◌-◌, ◌*◌, ◌%◌, ◌^◌, Bool, true, false, ◌&&◌, ◌||◌, Option, none, some,
  List, [], ◌∷◌, ◌++◌, ltb, leb, ◌==◌, if◌then◌else◌, get_elem?,
}

-- `rsplit_once(c)`, the part behind the last `c`.
unfoldable pub after_last : ℕ → List ℕ → Option (List ℕ)
after_last c [] = none
after_last c (x ∷ xs) = elim (after_last c xs) [
  | some rest ↦ some rest
  | none ↦ if x == c then some xs else none
]

-- `char::is_whitespace`, the property White_Space of Unicode.
unfoldable pub is_whitespace : ℕ → Bool
is_whitespace c =
    (leb 9 c && leb c 13)
    || (c == 32)
    || (c == 0x85)
    || (c == 0xa0)
    || (c == 0x1680)
    || (leb 0x2000 c && leb c 0x200a)
    || (c == 0x2028)
    || (c == 0x2029)
    || (c == 0x202f)
    || (c == 0x205f)
    || (c == 0x3000)

-- The word under way, in front of the words behind it; no word is empty.
push_word : List ℕ → List (List ℕ) → List (List ℕ)
push_word [] words = words
push_word (c ∷ cs) words = (c ∷ cs) ∷ words

-- `split_whitespace()`: `word` is what has been read of the current word.
split_from : List ℕ → List ℕ → List (List ℕ)
unfolding push_word
split_from word [] = push_word word []
split_from word (c ∷ cs) = elim (is_whitespace c) [
  | true ↦ push_word word (split_from [] cs)
  | false ↦ split_from (word ++ (c ∷ [])) cs
]

unfoldable pub split_whitespace : List ℕ → List (List ℕ)
unfolding split_from
split_whitespace text = split_from [] text

-- `parse::<u64>()`: an optional plus sign and at least one digit; too large a number is an error.
parse_digits : ℕ → List ℕ → Option ℕ
parse_digits acc [] = some acc
parse_digits acc (c ∷ cs) =
    elim (leb b'0' c && leb c b'9' && ltb (acc * 10 + (c - b'0')) (2 ^ 64)) [
      | true ↦ parse_digits (acc * 10 + (c - b'0')) cs
      | false ↦ none
    ]

parse_unsigned : List ℕ → Option ℕ
parse_unsigned [] = none
parse_unsigned (c ∷ cs) = parse_digits 0 (c ∷ cs)

unfoldable pub parse_u64 : List ℕ → Option ℕ
unfolding parse_unsigned parse_digits
parse_u64 [] = none
parse_u64 (c ∷ cs) = if c == b'+' then parse_unsigned cs else parse_unsigned (c ∷ cs)

-- The files as `read_to_string` returns them, `none` on an error.
unfoldable pub read_cpu_ticks : Option (List ℕ) → Option (ℕ × ℕ)
unfolding after_last split_whitespace parse_u64
read_cpu_ticks stat = do
  text ← stat
  after_comm ← after_last b')' text
  let fields = split_whitespace after_comm
  utime_field ← get_elem? fields 11
  utime ← parse_u64 utime_field
  stime_field ← get_elem? fields 12
  stime ← parse_u64 stime_field
  some (utime, stime)

unfoldable pub read_rss_pages : Option (List ℕ) → Option ℕ
unfolding split_whitespace parse_u64
read_rss_pages statm = do text ← statm; rss ← get_elem? (split_whitespace text) 1; parse_u64 rss

-- The two metric events.
pub data Sample : Type 0 where
  cpu_utilization : ℕ → Sample
  memory_usage : ℕ → Sample

-- The loop's `prev_cpu_ticks` with what it reports. `utilization delta` is the quotient of the CPU
-- time of `delta` ticks and the time since the last round, as an `f64`.
unfoldable pub cpu_samples : (ℕ → ℕ) → Option ℕ → ℕ → List Sample
cpu_samples utilization none total_ticks = []
cpu_samples utilization (some prev) total_ticks =
    cpu_utilization (utilization (total_ticks - prev)) ∷ []

poll_cpu : (ℕ → ℕ) → Option (ℕ × ℕ) → Option ℕ → Option ℕ × List Sample
unfolding cpu_samples
poll_cpu utilization none prev_cpu_ticks = (prev_cpu_ticks, [])
poll_cpu utilization (some (utime, stime)) prev_cpu_ticks =
    let total_ticks = (utime + stime) % 2 ^ 64 in
    (some total_ticks, cpu_samples utilization prev_cpu_ticks total_ticks)

poll_memory : ℕ → Option ℕ → List Sample
poll_memory page_size none = []
poll_memory page_size (some rss_pages) = memory_usage (rss_pages * page_size % 2 ^ 64) ∷ []

-- One round of `poll_loop`.
unfoldable pub poll :
    ℕ → (ℕ → ℕ) → Option (List ℕ) → Option (List ℕ) → Option ℕ → Option ℕ × List Sample
unfolding poll_cpu poll_memory
poll page_size utilization stat statm prev_cpu_ticks =
    let (prev', samples) = poll_cpu utilization (read_cpu_ticks stat) prev_cpu_ticks in
    (prev', samples ++ poll_memory page_size (read_rss_pages statm))
