-- ===== src/Tower/Propagation/Examples.antt =====
-- src/tower/propagation.rs on a concrete request: headers as a function from names to values.
use rolly.Base.{
  ℕ, ◌≡◌, ◌≢◌, ◌≤◌, ◌<◌, refl, sym, arith, true, false, Bool, ◌&&◌, Option, none, some, List, [],
  ◌∷◌, All, leb, ltb, if◌then◌else◌, replicate,
}
use rolly.Base.Bytes.{beq_bytes, beq_bytes_iff, beq_bytes_refl}
use rolly.Base.Text.{codes}
use rolly.Layer.{SpanFields}
use rolly.Tower.{Http, lowercase, IsLowercase}
use rolly.Tower.Propagation.{call}
use rolly.Tower.Propagation.Traceparent.{parse, call-traceparent}

are_visible : List ℕ → Bool
are_visible [] = true
are_visible (c ∷ cs) = leb 32 c && ltb c 127 && are_visible cs

are_visible-All : (s : List ℕ) → All (λ c. (32 ≤ c) × (c < 127)) s → are_visible s ≡ true
unfolding are_visible
are_visible-All [] h = refl
are_visible-All (c ∷ cs) ((l, u), k) = let e = are_visible-All cs k in ground (arith, l, u, e)

unfoldable checked : List ℕ → Option (List ℕ)
unfolding are_visible
checked s = if are_visible s then some s else none

checked-visible :
    (s : List ℕ)
    → All (λ c. (32 ≤ c) × (c < 127)) s
    → (v : List ℕ) × (checked s ≡ some v) × (some v ≡ some s)
unfolding checked
checked-visible s h = (s, rw (are_visible-All s h), refl)

abbrev Headers : Type 0
Headers = List ℕ → Option (List ℕ)

unfoldable with_header : List ℕ → List ℕ → Headers → Headers
unfolding beq_bytes
with_header name v m = λ other. if beq_bytes name (lowercase other) then some v else m other

with_header-same :
    (name other v : List ℕ) (m : Headers)
    → IsLowercase name
    → lowercase other ≡ name
    → with_header name v m other ≡ some v
unfolding with_header
with_header-same name other v m _ same = rw (same, beq_bytes_refl name)

differs : (a b : List ℕ) (t : Bool) → beq_bytes a b ≡ t → a ≢ b → t ≡ false
differs a b true h ne = absurd (ne ((beq_bytes_iff a b).0 h))
differs a b false h ne = refl

with_header-other :
    (name other v : List ℕ) (m : Headers)
    → IsLowercase name
    → lowercase other ≢ name
    → with_header name v m other ≡ m other
unfolding with_header
with_header-other name other v m _ ne = rw (differs name (lowercase other) _ refl (λ e. ne (sym e)))

abbrev http : Http
http = record {
  HeaderMap = Headers;
  HeaderValue = List ℕ;
  from_str = checked;
  to_str = some;
  get = λ name m. m name;
  insert = with_header;
  from_str-visible = checked-visible;
  get-insert = with_header-same;
  get-insert_other = with_header-other;
}

abbrev fields : SpanFields
fields = record {
  start_nanos = 5;
  attrs = [];
  trace_id = replicate 16 0xa1;
  span_id = replicate 8 0x2b;
  parent_span_id = replicate 8 0;
  sampled = false;
}

abbrev headers : Headers
headers = with_header (codes "host") (codes "example.com") (λ other. none)

same_name : lowercase (codes "TraceParent") ≡ codes "traceparent"
unfolding lowercase
same_name = refl

not_host : lowercase (codes "host") ≢ codes "traceparent"
unfolding lowercase
not_host e = cc

-- Two spans without fields stand below the one with fields, which is not sampled.
call-traceparent_example :
    (v : List ℕ) × (s : List ℕ) × (call http
        (none ∷ (none ∷ (some fields ∷ [])))
        headers
        (codes "TraceParent")
      ≡ some v)
    × (some v ≡ some s)
    × (parse s
        ≡ some (record {
          version = 0 ∷ [];
          trace_id = replicate 16 0xa1;
          parent_id = replicate 8 0x2b;
          flags = 1 ∷ [];
        }))
    × (call http (none ∷ (none ∷ (some fields ∷ []))) headers (codes "host")
        ≡ headers (codes "host"))
call-traceparent_example =
    call-traceparent http 2 fields [] headers (codes "TraceParent") (codes "host") (omega arith)
      (omega arith) refl refl same_name not_host
