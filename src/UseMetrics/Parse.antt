-- ===== src/UseMetrics/Parse.antt =====
-- `read_cpu_ticks` and `read_rss_pages` of src/use_metrics.rs on the lines that the kernel writes.
use rolly.Base.{
  ◌+◌, ◌-◌, none, ◌*◌, ◌%◌, Option, ℕ, ◌^◌, ◌<◌, ◌≡◌, refl, arith, false, some, List, [], ◌∷◌, ◌++◌,
  ◌==◌, All, All-append, length, get_elem?-append_right,
}
use native.Mathlib.Nat.{mod-eq_of_lt}
use rolly.UseMetrics.{
  poll, poll_cpu, poll_memory, cpu_samples, cpu_utilization, memory_usage, read_cpu_ticks,
  read_rss_pages, is_whitespace,
}
use rolly.UseMetrics.Decimal.{decimal, IsDigit, decimal-IsDigit, decimal-ne-nil, parse_u64-decimal}
use rolly.UseMetrics.Words.{
  IsWord, line, after_last-append, split_whitespace-line, split_whitespace-words,
}

-- A word without a closing parenthesis.
abbrev pub IsPlain : List ℕ → Type 0
IsPlain w = IsWord w × All (λ c. c == b')' ≡ false) w

digit_is_plain :
    (cs : List ℕ)
    → All IsDigit cs
    → All (λ c. is_whitespace c ≡ false) cs × All (λ c. c == b')' ≡ false) cs
unfolding is_whitespace
digit_is_plain [] h = (tt, tt)
digit_is_plain (c ∷ cs) (h, k) =
    let (spaces, parens) = digit_is_plain cs k in ((ground arith, spaces), (ground arith, parens))

decimal-IsPlain : (v : ℕ) → v < 2 ^ 64 → IsPlain (decimal v)
decimal-IsPlain v h =
    let (spaces, parens) = digit_is_plain (decimal v) (decimal-IsDigit v h) in
    ((spaces, decimal-ne-nil v), parens)

line-plain : (ws : List (List ℕ)) → All IsPlain ws → All (λ c. c == b')' ≡ false) (line ws)
line-plain [] h = (refl, tt)
line-plain (w ∷ ws) (h, hs) = (refl, All-append _ w (line ws) h.1 (line-plain ws hs))

plain_words : (ws : List (List ℕ)) → All IsPlain ws → All IsWord ws
plain_words [] h = tt
plain_words (w ∷ ws) (h, hs) = (h.0, plain_words ws hs)

-- Whatever stands before the last closing parenthesis, so also for a command with spaces and
-- parentheses in its name: if eleven words follow, then two 64-bit numbers and any more words, the
-- two numbers are read.
read_cpu_ticks-line :
    (command : List ℕ) (before after : List (List ℕ)) (utime stime : ℕ)
    → length before ≡ 11
    → All IsPlain before
    → All IsPlain after
    → utime < 2 ^ 64
    → stime < 2 ^ 64
    → read_cpu_ticks
        (some (command ++ (b')' ∷ line (before ++ (decimal utime ∷ (decimal stime ∷ after))))))
      ≡ some (utime, stime)
unfolding read_cpu_ticks
read_cpu_ticks-line command before after utime stime eleven hb ha hu hs =
    let numbers = decimal utime ∷ (decimal stime ∷ after) in
    let plain =
      All-append IsPlain before numbers hb
        (decimal-IsPlain utime hu, (decimal-IsPlain stime hs, ha)) in
    rw (
      after_last-append b')' command (line (before ++ numbers)) (line-plain _ plain),
      split_whitespace-line (before ++ numbers) (plain_words _ plain),
      get_elem?-append_right before numbers 11 0 (omega (arith, eleven)),
      parse_u64-decimal utime hu,
      get_elem?-append_right before numbers 12 1 (omega (arith, eleven)),
      parse_u64-decimal stime hs,
    )

-- The second word of /proc/self/statm is read, if it is a 64-bit number.
pub read_rss_pages-line :
    (size : List ℕ) (rss : ℕ) (after : List (List ℕ))
    → IsWord size
    → rss < 2 ^ 64
    → All IsWord after
    → read_rss_pages (some (size ++ line (decimal rss ∷ after))) ≡ some rss
unfolding read_rss_pages
read_rss_pages-line size rss after h hr ha = rw (
  split_whitespace-words size (decimal rss ∷ after) h ((decimal-IsPlain rss hr).0, ha),
  parse_u64-decimal rss hr,
)

poll-line :
    (page_size : ℕ) (utilization : ℕ → ℕ) (command size : List ℕ)
    (before after pages : List (List ℕ)) (utime stime rss : ℕ) (prev : Option ℕ)
    → length before ≡ 11
    → All IsPlain before
    → All IsPlain after
    → IsWord size
    → All IsWord pages
    → utime + stime < 2 ^ 64
    → rss * page_size < 2 ^ 64
    → rss < 2 ^ 64
    → poll page_size utilization
        (some (command ++ (b')' ∷ line (before ++ (decimal utime ∷ (decimal stime ∷ after))))))
        (some (size ++ line (decimal rss ∷ pages)))
        prev
      ≡ (
        some (utime + stime),
        cpu_samples utilization prev (utime + stime) ++ (memory_usage (rss * page_size) ∷ []),
      )
unfolding poll poll_cpu poll_memory
poll-line page_size utilization command size before after pages utime stime rss prev eleven hb ha hz
      hp hu hm hr =
    let whole : (utime + stime) % 2 ^ 64 ≡ utime + stime = omega (arith, hu) in
    let bytes : rss * page_size % 2 ^ 64 ≡ rss * page_size = mod-eq_of_lt hm in
    rw (
      read_cpu_ticks-line command before after utime stime eleven hb ha (omega (arith, hu))
          (omega (arith, hu)),
      read_rss_pages-line size rss pages hz hr hp,
      whole,
      bytes,
    )

-- What the kernel writes into the two files: the words around the times and the pages.
pub record Reading : Type 0 where
  pub command : List ℕ
  pub before : List (List ℕ)
  pub utime : ℕ
  pub stime : ℕ
  pub after : List (List ℕ)
  pub size : List ℕ
  pub rss : ℕ
  pub pages : List (List ℕ)

abbrev pub stat : Reading → List ℕ
stat r = r.command ++ (b')' ∷ line (r.before ++ (decimal r.utime ∷ (decimal r.stime ∷ r.after))))

abbrev pub statm : Reading → List ℕ
statm r = r.size ++ line (decimal r.rss ∷ r.pages)

-- Eleven words before the times, no later word with a closing parenthesis, and numbers that fit.
pub record IsReading (page_size : ℕ) (r : Reading) : Type 0 where
  pub eleven : length r.before ≡ 11
  pub before : All IsPlain r.before
  pub after : All IsPlain r.after
  pub size : IsWord r.size
  pub pages : All IsWord r.pages
  pub times : r.utime + r.stime < 2 ^ 64
  pub bytes : r.rss * page_size < 2 ^ 64
  pub rss : r.rss < 2 ^ 64

read :
    (page_size : ℕ) (utilization : ℕ → ℕ) (r : Reading) (prev : Option ℕ)
    → IsReading page_size r
    → poll page_size utilization (some (stat r)) (some (statm r)) prev ≡ (
      some (r.utime + r.stime),
      cpu_samples utilization prev (r.utime + r.stime) ++ (memory_usage (r.rss * page_size) ∷ []),
    )
read page_size utilization r prev h =
    poll-line page_size utilization r.command r.size r.before r.after r.pages r.utime r.stime r.rss
      prev h.eleven h.before h.after h.size h.pages h.times h.bytes h.rss

-- The first two rounds of the loop on lines as the kernel writes them: eleven words, then the two
-- times, behind the command's closing parenthesis, which no later word holds, and the size of the
-- process before its resident pages; the sum of the times, the pages and their product with the page
-- size fit 64 bits. The first round reports the memory in bytes, and no CPU time; the second one
-- reports the utilization for the ticks since the first, for no ticks if their count has gone back, and then
-- the memory. Each keeps its own sum of the times for the next round.
pub poll-rounds :
    (page_size : ℕ) (utilization : ℕ → ℕ) (first second : Reading)
    → IsReading page_size first
    → IsReading page_size second
    → let start = poll page_size utilization (some (stat first)) (some (statm first)) none in
      (start ≡ (some (first.utime + first.stime), memory_usage (first.rss * page_size) ∷ []))
      × (poll page_size utilization (some (stat second)) (some (statm second)) start.0 ≡ (
        some (second.utime + second.stime),
        cpu_utilization (utilization ((second.utime + second.stime) - (first.utime + first.stime)))
            ∷ (memory_usage (second.rss * page_size) ∷ []),
      ))
unfolding cpu_samples
poll-rounds page_size utilization first second h k =
    let start = read page_size utilization first none h in
    (start, rw (start) (read page_size utilization second (some (first.utime + first.stime)) k))
