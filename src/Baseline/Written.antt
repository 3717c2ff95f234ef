-- ===== src/Baseline/Written.antt =====
-- How tools/render_baseline.rs writes a value back: what the text is before and after.
use rolly.Base.{
  ℕ, ◌+◌, ◌≡◌, refl, sym, ap, ◌∙◌, true, false, Option, none, some, List, [], ◌∷◌, ◌++◌,
  append_assoc, append-nil, inl, inr, ◌==◌, length, length-append, drop, take-append, drop-append,
  drop-append_add,
}
use rolly.Base.Text.{codes}
use rolly.Baseline.{find, replace_range, end_at, value_end, write_at, write_value}
use rolly.Baseline.Search.{
  find-some, find-stable, find-break, find-no_break, split-IsLine, IsLine, EndsLine,
}

module _ (front line rest : List ℕ) where
  text_end :
      IsLine line
      → EndsLine rest
      → end_at (length front) (length (front ++ (line ++ rest))) (find (10 ∷ []) (line ++ rest))
        ≡ length front + length line
  unfolding end_at
  text_end h (inl e) =
      ap (λ r. end_at (length front) (length (front ++ (line ++ r))) (find (10 ∷ []) (line ++ r))) e
      ∙ ap (λ t. end_at (length front) (length (front ++ t)) (find (10 ∷ []) t)) (append-nil line)
      ∙ ap (end_at (length front) (length (front ++ line))) (find-no_break line h)
      ∙ length-append front line
  text_end h (inr (r, e)) =
      ap (λ r. end_at (length front) (length (front ++ (line ++ r))) (find (10 ∷ []) (line ++ r))) e
      ∙ ap (end_at (length front) (length (front ++ (line ++ (10 ∷ r))))) (find-break line r h)

  value_end-line :
      IsLine line
      → EndsLine rest
      → value_end (length front) (front ++ (line ++ rest)) ≡ length front + length line
  unfolding value_end
  value_end-line h k =
      ap (λ t. end_at (length front) (length (front ++ (line ++ rest))) (find (10 ∷ []) t))
        (drop-append front (line ++ rest))
      ∙ text_end h k

  replace_range-line :
      (val : List ℕ)
      → replace_range (length front) (length front + length line) val (front ++ (line ++ rest))
        ≡ front ++ (val ++ rest)
  replace_range-line val = rw (take-append, drop-append_add, drop-append) refl

-- The text of `before`, the key, the value `line` and `rest`, when the key is found first there.
written :
    (before prefix line rest val : List ℕ)
    → IsLine line
    → EndsLine rest
    → write_at (length prefix) val (before ++ (prefix ++ (line ++ rest))) (some (length before))
      ≡ before ++ (prefix ++ (val ++ rest))
unfolding write_at
written before prefix line rest val h k =
    ap (λ n. at n (before ++ (prefix ++ (line ++ rest)))) (sym (length-append before prefix))
    ∙ ap (at (length (before ++ prefix))) (sym (append_assoc before prefix (line ++ rest)))
    ∙ ap
        (λ e.
          replace_range (length (before ++ prefix)) e val ((before ++ prefix) ++ (line ++ rest)))
        (value_end-line (before ++ prefix) line rest h k)
    ∙ replace_range-line (before ++ prefix) line rest val
    ∙ append_assoc before prefix (val ++ rest)
  where
    at : ℕ → List ℕ → List ℕ
    at n text = replace_range n (value_end n text) val text

-- The rest of the line behind the first ` = ` of a key, as a reader of the file has it.
first_line : List ℕ → List ℕ
first_line [] = []
first_line (c ∷ cs) = elim (10 == c) [ true ↦ [] | false ↦ c ∷ first_line cs ]

read_at : ℕ → List ℕ → Option ℕ → Option (List ℕ)
unfolding first_line
read_at prefix_len text (some start) = some (first_line (drop (start + prefix_len) text))
read_at prefix_len text none = none

pub read_value : List ℕ → List ℕ → Option (List ℕ)
unfolding read_at
read_value key text =
    let prefix = key ++ codes " = " in read_at (length prefix) text (find prefix text)

first_line-append :
    (line rest : List ℕ) → IsLine line → EndsLine rest → first_line (line ++ rest) ≡ line
unfolding first_line
first_line-append [] rest h (inl e) = ap first_line e
first_line-append [] rest h (inr (r, e)) = ap first_line e
first_line-append (c ∷ line) rest (h, k) ends =
    rw (h, first_line) (ap (λ t. c ∷ t) (first_line-append line rest k ends))

read_written :
    (before prefix val rest : List ℕ)
    → IsLine val
    → EndsLine rest
    → read_at (length prefix) (before ++ (prefix ++ (val ++ rest))) (some (length before))
      ≡ some val
unfolding read_at
read_written before prefix val rest h k =
    ap (λ t. some (first_line t))
      (drop-append_add before (prefix ++ (val ++ rest)) (length prefix)
        ∙ drop-append prefix (val ++ rest))
    ∙ ap some (first_line-append val rest h k)

-- If the key and ` = ` are found, for the first time behind `before`, the value is all that follows up
-- to the end of the line; it alone is replaced, and if the new value has no line break, who looks
-- for the key afterwards reads the new value there.
pub write_value_found :
    (key val text : List ℕ) (n : ℕ)
    → IsLine val
    → find (key ++ codes " = ") text ≡ some n
    → (before : List ℕ) × (line : List ℕ) × (rest : List ℕ) × (length before ≡ n)
      × IsLine line
      × EndsLine rest
      × (text ≡ before ++ ((key ++ codes " = ") ++ (line ++ rest)))
      × (write_value (key, val) text ≡ before ++ ((key ++ codes " = ") ++ (val ++ rest)))
      × (read_value key (write_value (key, val) text) ≡ some val)
unfolding write_value read_value
write_value_found key val text n one_line e =
    let prefix = key ++ codes " = " in
    let (before, tail, same, count) = find-some prefix text n e in
    let (line, rest, split, is_line, ends) = split-IsLine tail in
    let whole : text ≡ before ++ (prefix ++ (line ++ rest)) =
      same ∙ ap (λ t. before ++ (prefix ++ t)) split in
    let first : find prefix (before ++ (prefix ++ (line ++ rest))) ≡ some (length before) =
      ap (find prefix) (sym whole) ∙ e ∙ ap some (sym count) in
    let new : write_at (length prefix) val text (find prefix text)
        ≡ before ++ (prefix ++ (val ++ rest)) =
      ap (λ t. write_at (length prefix) val t (find prefix t)) whole
      ∙ ap (write_at (length prefix) val (before ++ (prefix ++ (line ++ rest)))) first
      ∙ written before prefix line rest val is_line ends in
    (
      before,
      line,
      rest,
      count,
      is_line,
      ends,
      whole,
      new,
      ap (λ t. read_at (length prefix) t (find prefix t)) new
          ∙ ap (read_at (length prefix) (before ++ (prefix ++ (val ++ rest))))
              (find-stable prefix before (line ++ rest) (val ++ rest) first)
          ∙ read_written before prefix val rest one_line ends,
    )
