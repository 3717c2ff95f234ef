-- ===== src/UseMetrics/Words.antt =====
-- `rsplit_once` and `split_whitespace` in src/use_metrics.rs, on lines of words.
use rolly.Base.{
  ℕ, ◌≡◌, ◌≢◌, refl, sym, ap, ◌∙◌, arith, false, none, some, List, [], ◌∷◌, ◌++◌, append-nil,
  append_assoc, ◌==◌, All,
}
use rolly.UseMetrics.{after_last, is_whitespace, push_word, split_from, split_whitespace}

after_last-none : (c : ℕ) (xs : List ℕ) → All (λ x. x == c ≡ false) xs → after_last c xs ≡ none
unfolding after_last
after_last-none c [] h = refl
after_last-none c (x ∷ xs) (h, k) = rw (after_last-none c xs k, h)

pub after_last-append :
    (c : ℕ) (xs rest : List ℕ)
    → All (λ x. x == c ≡ false) rest
    → after_last c (xs ++ (c ∷ rest)) ≡ some rest
unfolding after_last
after_last-append c [] rest h = rw (after_last-none c rest h) (ground arith)
after_last-append c (x ∷ xs) rest h = rw (after_last-append c xs rest h)

abbrev pub IsWord : List ℕ → Type 0
IsWord w = All (λ c. is_whitespace c ≡ false) w × (w ≢ [])

-- Words with a space before each, and a line break at the end.
abbrev pub line : List (List ℕ) → List ℕ
line [] = 10 ∷ []
line (w ∷ ws) = 32 ∷ (w ++ line ws)

split_from-cons :
    (word : List ℕ) (c : ℕ) (cs : List ℕ)
    → is_whitespace c ≡ false
    → split_from word (c ∷ cs) ≡ split_from (word ++ (c ∷ [])) cs
unfolding split_from
split_from-cons word c cs h = ground (arith, h)

split_from-append :
    (word w rest : List ℕ)
    → All (λ c. is_whitespace c ≡ false) w
    → split_from word (w ++ rest) ≡ split_from (word ++ w) rest
split_from-append word [] rest h = ap (λ t. split_from t rest) (sym (append-nil word))
split_from-append word (c ∷ cs) rest (h, k) =
    split_from-cons word c (cs ++ rest) h
    ∙ (split_from-append (word ++ (c ∷ [])) cs rest k
        ∙ ap (λ t. split_from t rest) (append_assoc word (c ∷ []) cs))

push_word-IsWord : (w : List ℕ) (ws : List (List ℕ)) → IsWord w → push_word w ws ≡ w ∷ ws
unfolding push_word
push_word-IsWord [] ws (h, ne) = absurd (ne refl)
push_word-IsWord (c ∷ cs) ws h = refl

split_from-line :
    (word : List ℕ) (ws : List (List ℕ))
    → All IsWord ws
    → split_from word (line ws) ≡ push_word word ws
unfolding split_from is_whitespace
split_from-line word [] h = refl
split_from-line word (w ∷ ws) (h, hs) =
    ap (push_word word)
      (split_from-append [] w (line ws) h.0 ∙ split_from-line w ws hs ∙ push_word-IsWord w ws h)

-- A line of words is split into the words.
pub split_whitespace-line : (ws : List (List ℕ)) → All IsWord ws → split_whitespace (line ws) ≡ ws
unfolding split_whitespace push_word
split_whitespace-line ws h = split_from-line [] ws h

-- The first word may stand without a space before it.
pub split_whitespace-words :
    (w : List ℕ) (ws : List (List ℕ))
    → IsWord w
    → All IsWord ws
    → split_whitespace (w ++ line ws) ≡ w ∷ ws
unfolding split_whitespace
split_whitespace-words w ws h hs =
    split_from-append [] w (line ws) h.0 ∙ split_from-line w ws hs ∙ push_word-IsWord w ws h
