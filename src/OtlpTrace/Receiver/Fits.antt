-- ===== src/OtlpTrace/Receiver/Fits.antt =====
-- Lists of fields that are short, and that the format can hold if they are; how the receiver goes
-- through them.
use rolly.Base.{
  bind_some, ◌>>=◌, ℕ, Bool-cases, inl, inr, ◌+◌, ◌<◌, ◌^◌, ◌≡◌, sym, ap, ◌∙◌, arith, Option, some,
  List, [], ◌∷◌, ◌++◌, ◌==◌, length, length-append, All, All-append, append_assoc, append-nil,
}
use rolly.Base.Bytes.{IsU64}
use rolly.Wire.{Field, delimited, print, decode, IsField, IsMessage}
use rolly.Wire.RoundTrip.{print-append, decode-print}
use rolly.Proto.Writes.{
  bytes_field, fixed_field, message_field, concat_map, message_field-IsMessage, delimited_size,
}
use rolly.OtlpTrace.Receiver.{merge_all}

-- Less than 32 GiB on the wire.
abbrev pub IsShort : List Field → Type 0
IsShort fs = length (print fs) < 2 ^ 35

pub IsShort-append : (fs gs : List Field) → IsShort (fs ++ gs) → IsShort fs × IsShort gs
IsShort-append fs gs h =
    let e : length (print fs) + length (print gs) < 2 ^ 35 =
      rw (← length-append, ← print-append fs gs) h in
    omega (arith, e)

pub IsShort-message : (n : ℕ) (fs : List Field) → IsShort (message_field n fs) → IsShort fs
IsShort-message n [] h = h
IsShort-message n (f ∷ fs) h = omega (arith, h, delimited_size n (print (f ∷ fs)))

bytes_field-IsMessage :
    (n : ℕ) (bs : List ℕ) → n < 2 ^ 32 → IsShort (bytes_field n bs) → IsMessage (bytes_field n bs)
bytes_field-IsMessage n [] hn h = tt
bytes_field-IsMessage n (b ∷ bs) hn h = ((hn, omega (arith, h, delimited_size n (b ∷ bs))), tt)

-- Fields that the format can hold, if they are short.
abbrev pub Fits : List Field → Type 0
Fits fs = IsShort fs → IsMessage fs

pub Fits-append : (fs gs : List Field) → Fits fs → Fits gs → Fits (fs ++ gs)
Fits-append fs gs h k short =
    let (left, right) = IsShort-append fs gs short in All-append IsField fs gs (h left) (k right)

pub Fits-fixed : (n v : ℕ) → n < 2 ^ 32 → IsU64 v → Fits (fixed_field n v)
Fits-fixed n v hn hv short = elim (Bool-cases (v == 0)) [
  | inl z ↦ rw z tt
  | inr other ↦ rw other ((hn, hv), tt)
]

pub Fits-bytes : (n : ℕ) (bs : List ℕ) → n < 2 ^ 32 → Fits (bytes_field n bs)
Fits-bytes n bs hn short = bytes_field-IsMessage n bs hn short

pub Fits-message : (n : ℕ) (fs : List Field) → n < 2 ^ 32 → Fits (message_field n fs)
Fits-message n fs hn short = message_field-IsMessage n fs hn short

pub Fits-concat_map :
    {A : Type 0} (n : ℕ) (g : A → List Field) (xs : List A)
    → n < 2 ^ 32
    → Fits (concat_map (λ x. message_field n (g x)) xs)
Fits-concat_map n g [] hn short = tt
Fits-concat_map n g (x ∷ xs) hn short =
    Fits-append (message_field n (g x)) _ (Fits-message n (g x) hn) (Fits-concat_map n g xs hn)
      short

-- One list of fields behind another.
pub merge_all-append :
    {A : Type 0} (merge : Field → A → Option A) (a b : A) (fs gs : List Field)
    → merge_all merge a fs ≡ some b
    → merge_all merge a (fs ++ gs) ≡ merge_all merge b gs
unfolding merge_all
merge_all-append merge a b [] gs e = ap (λ o. o >>= (λ x. merge_all merge x gs)) e
merge_all-append merge a b (f ∷ fs) gs e =
    let (c, d, r) = bind_some (merge f a) _ b e in rw d (merge_all-append merge c b fs gs r)

-- A message inside a field is decoded, and then received.
pub receive_message :
    {A : Type 0} (merge : Field → A → Option A) (a b : A) (fs : List Field)
    → IsMessage fs
    → merge_all merge a fs ≡ some b
    → (decode (print fs) >>= merge_all merge a) ≡ some b
receive_message merge a b fs valid e = ap (λ o. o >>= merge_all merge a) (decode-print fs valid) ∙ e

-- A repeated field: `with` is the message by the items that it has so far.
pub repeated-merge :
    {A B : Type 0} (merge : Field → A → Option A) (n : ℕ) (g : B → List Field) (with : List B → A)
    (P : B → Type 0)
    → ((ys : List B) (x : B)
        → P x
        → IsShort (g x)
        → merge_all merge (with ys) (message_field n (g x)) ≡ some (with (ys ++ (x ∷ []))))
    → (xs ys : List B) → All P xs
    → IsShort (concat_map (λ x. message_field n (g x)) xs)
    → merge_all merge (with ys) (concat_map (λ x. message_field n (g x)) xs)
      ≡ some (with (ys ++ xs))
repeated-merge merge n g with P each [] ys h k =
    unfold merge_all in ap (λ l. some (with l)) (sym (append-nil ys))
repeated-merge merge n g with P each (x ∷ xs) ys (h, hs) k =
    let (first, rest) = IsShort-append (message_field n (g x)) _ k in
    merge_all-append merge (with ys) (with (ys ++ (x ∷ []))) (message_field n (g x)) _
      (each ys x h (IsShort-message n (g x) first))
    ∙ repeated-merge merge n g with P each xs (ys ++ (x ∷ [])) hs rest
    ∙ ap (λ l. some (with l)) (append_assoc ys (x ∷ []) xs)

-- A message field that `outer` merges into the field that it has.
pub nested-merge :
    {A B : Type 0} (outer : Field → A → Option A) (inner : Field → B → Option B) (n : ℕ)
    (with : B → A) (d b : B) (fs : List Field)
    → ((bs : List ℕ)
        → outer (delimited n bs) (with d)
          ≡ (decode bs >>= merge_all inner d >>= (λ x. some (with x))))
    → IsMessage fs
    → merge_all inner d fs ≡ some b
    → merge_all outer (with d) (message_field n fs) ≡ some (with b)
unfolding merge_all
nested-merge outer inner n with d b [] each valid e = ap (λ o. o >>= (λ x. some (with x))) e
nested-merge outer inner n with d b (f ∷ fs) each valid e =
    rw (each (print (f ∷ fs)), receive_message inner d b (f ∷ fs) valid e)
