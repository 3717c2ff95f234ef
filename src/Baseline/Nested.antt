-- ===== src/Baseline/Nested.antt =====
-- A reader of XML that follows the tags of a document, with their attributes and entities. It describes
-- what tools/render_baseline.rs should draw and is not a translation of code.
pub mod Safe
pub mod Drawn
pub mod Arguments
pub mod Whole
use Prim.Native.String.{String}
use rolly.Base.{
  ℕ, ◌≡◌, refl, sym, ap, ◌∙◌, arith, Bool, Bool-cases, true, false, ◌||◌, ◌&&◌, Option, none, some,
  List, [], ◌∷◌, ◌++◌, ◌==◌, ◌>>=◌, if◌then◌else◌, All, bind_some,
}
use rolly.Base.Text.{codes}
use rolly.Base.Bytes.{beq_bytes}
use rolly.Baseline.Svg.{Piece, lit, arg, text_of, text_of_lines}

-- Where the reader is; a name or an entity is collected.
pub data Mode : Type 0 where
  text : Mode
  entity : List ℕ → Mode
  tag : List ℕ → Mode
  attributes : List ℕ → Mode
  quoted : List ℕ → Mode
  empty_tag : Mode
  end_tag : List ℕ → Mode

-- With the names of the elements that are open.
abbrev pub State : Type 0
State = Mode × List (List ℕ)

is_entity : List ℕ → Bool
is_entity [] = false
is_entity (c ∷ cs) =
    (c == b'#')
    || beq_bytes (c ∷ cs) (codes "amp")
    || beq_bytes (c ∷ cs) (codes "lt")
    || beq_bytes (c ∷ cs) (codes "gt")
    || beq_bytes (c ∷ cs) (codes "quot")

-- The end of an element must be the one that is open.
close_tag : List ℕ → List (List ℕ) → Option State
close_tag name [] = none
close_tag name (top ∷ open_tags) = if beq_bytes name top then some (text, open_tags) else none

begin_end : List ℕ → List (List ℕ) → Option State
begin_end [] open_tags = some (end_tag [], open_tags)
begin_end (c ∷ cs) open_tags = none

pub read_char : ℕ → State → Option State
unfolding is_entity close_tag begin_end
read_char c (text, open_tags) =
    if c == b'<'
    then some (tag [], open_tags)
    else if c == b'&'
    then some (entity [], open_tags)
    else some (text, open_tags)
read_char c (entity name, open_tags) =
    if c == b';'
    then if is_entity name then some (text, open_tags) else none
    else some (entity (name ++ (c ∷ [])), open_tags)
read_char c (tag name, open_tags) =
    if c == b'/'
    then begin_end name open_tags
    else if c == b' '
    then some (attributes name, open_tags)
    else if c == b'>'
    then some (text, name ∷ open_tags)
    else if (c == b'<') || (c == b'"')
    then none
    else some (tag (name ++ (c ∷ [])), open_tags)
read_char c (attributes name, open_tags) =
    if c == b'"'
    then some (quoted name, open_tags)
    else if c == b'/'
    then some (empty_tag, open_tags)
    else if c == b'>'
    then some (text, name ∷ open_tags)
    else if c == b'<'
    then none
    else some (attributes name, open_tags)
read_char c (quoted name, open_tags) =
    if c == b'"'
    then some (attributes name, open_tags)
    else if c == b'<'
    then none
    else some (quoted name, open_tags)
read_char c (empty_tag, open_tags) = if c == b'>' then some (text, open_tags) else none
read_char c (end_tag name, open_tags) =
    if c == b'>' then close_tag name open_tags else some (end_tag (name ++ (c ∷ [])), open_tags)

unfoldable pub read : List ℕ → State → Option State
unfolding read_char
read [] s = some s
read (c ∷ cs) s = read_char c s >>= λ s'. read cs s'

-- Every element that is opened is closed, in the right order, and no character ends a tag, a value or
-- an entity where it should not.
abbrev pub IsNested : List ℕ → Type 0
IsNested document = read document (text, []) ≡ some (text, [])

bind_through :
    {A B C : Type 0} (o : Option A) (h : A → Option C) (f : A → Option B) (g : B → Option C)
    → ((a : A) → h a ≡ (f a >>= g))
    → (o >>= h) ≡ ((o >>= f) >>= g)
bind_through none h f g e = refl
bind_through (some a) h f g e = e a

pub read-append :
    (xs ys : List ℕ) (s : State) → read (xs ++ ys) s ≡ (read xs s >>= λ s'. read ys s')
unfolding read
read-append [] ys s = refl
read-append (c ∷ xs) ys s =
    bind_through (read_char c s) (λ s'. read (xs ++ ys) s') (λ s'. read xs s') (λ s'. read ys s')
      (λ s'. read-append xs ys s')

-- A text that changes nothing, as content and as a value.
pub record IsSafe (t : List ℕ) : Type 0 where
  pub content : (open_tags : List (List ℕ)) → read t (text, open_tags) ≡ some (text, open_tags)
  pub value :
      (name : List ℕ) (open_tags : List (List ℕ))
      → read t (quoted name, open_tags) ≡ some (quoted name, open_tags)

-- What a line does if its arguments are safe; they must stand in content or in a value.
slot : State → Option State
slot (text, open_tags) = some (text, open_tags)
slot (quoted name, open_tags) = some (quoted name, open_tags)
slot (_, open_tags) = none

unfoldable pub check_line : List Piece → State → Option State
unfolding slot read
check_line [] s = read (10 ∷ []) s
check_line (lit t ∷ ps) s = read (codes t) s >>= λ s'. check_line ps s'
check_line (arg t ∷ ps) s = slot s >>= λ s'. check_line ps s'

-- The arguments of a line.
abbrev pub AreSafe : List Piece → Type 0
AreSafe [] = Unit
AreSafe (lit t ∷ ps) = AreSafe ps
AreSafe (arg t ∷ ps) = IsSafe t × AreSafe ps

read_on :
    (xs ys : List ℕ) (s s1 s2 : State)
    → read xs s ≡ some s1
    → read ys s1 ≡ some s2
    → read (xs ++ ys) s ≡ some s2
read_on xs ys s s1 s2 h k = read-append xs ys s ∙ ap (λ o. o >>= λ s'. read ys s') h ∙ k

slot-read : (t : List ℕ) (s s' : State) → IsSafe t → slot s ≡ some s' → read t s ≡ some s'
unfolding slot
slot-read t (text, open_tags) s' safe e = safe.content open_tags ∙ e
slot-read t (quoted name, open_tags) s' safe e = safe.value name open_tags ∙ e
slot-read t (entity name, open_tags) s' safe e = absurd (let c : none ≡ some s' = e in cc)
slot-read t (tag name, open_tags) s' safe e = absurd (let c : none ≡ some s' = e in cc)
slot-read t (attributes name, open_tags) s' safe e = absurd (let c : none ≡ some s' = e in cc)
slot-read t (empty_tag, open_tags) s' safe e = absurd (let c : none ≡ some s' = e in cc)
slot-read t (end_tag name, open_tags) s' safe e = absurd (let c : none ≡ some s' = e in cc)

pub check_line-read :
    (ps : List Piece) (s s' : State)
    → AreSafe ps
    → check_line ps s ≡ some s'
    → read (text_of ps) s ≡ some s'
unfolding check_line text_of
check_line-read [] s s' safe e = e
check_line-read (lit t ∷ ps) s s' safe e =
    let (s1, h, k) = bind_some (read (codes t) s) (λ x. check_line ps x) s' e in
    read_on (codes t) (text_of ps) s s1 s' h (check_line-read ps s1 s' safe k)
check_line-read (arg t ∷ ps) s s' (safe, rest) e =
    let (s1, h, k) = bind_some (slot s) (λ x. check_line ps x) s' e in
    read_on t (text_of ps) s s1 s' (slot-read t s s1 safe h) (check_line-read ps s1 s' rest k)

-- Lines, one after the other.
unfoldable pub check_lines : List (List Piece) → State → Option State
unfolding check_line
check_lines [] s = some s
check_lines (l ∷ ls) s = check_line l s >>= λ s'. check_lines ls s'

abbrev pub AllSafe : List (List Piece) → Type 0
AllSafe ls = All AreSafe ls

pub check_lines-read :
    (ls : List (List Piece)) (s s' : State)
    → AllSafe ls
    → check_lines ls s ≡ some s'
    → read (text_of_lines ls) s ≡ some s'
unfolding check_lines text_of_lines
check_lines-read [] s s' safe e = unfold read in e
check_lines-read (l ∷ ls) s s' (safe, rest) e =
    let (s1, h, k) = bind_some (check_line l s) (λ x. check_lines ls x) s' e in
    read_on (text_of l) (text_of_lines ls) s s1 s' (check_line-read l s s1 safe h)
      (check_lines-read ls s1 s' rest k)

pub check_lines-append :
    (ls ms : List (List Piece)) (s s1 s2 : State)
    → check_lines ls s ≡ some s1
    → check_lines ms s1 ≡ some s2
    → check_lines (ls ++ ms) s ≡ some s2
unfolding check_lines
check_lines-append [] ms s s1 s2 h k = let same : s ≡ s1 = cc in ap (check_lines ms) same ∙ k
check_lines-append (l ∷ ls) ms s s1 s2 h k =
    let (s', i, j) = bind_some (check_line l s) (λ x. check_lines ls x) s1 h in
    ap (λ o. o >>= λ x. check_lines (ls ++ ms) x) i ∙ check_lines-append ls ms s' s1 s2 j k
