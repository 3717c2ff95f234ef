-- ===== src/OtlpTrace/Receiver/Attributes.antt =====
-- The attributes and the status of a span, as the receiver gets them back.
use rolly.Base.{ℕ, ◌≡◌, ◌≢◌, refl, ap, ◌∙◌, arith, Option, none, some, List, [], ◌∷◌, ◌++◌, All}
use rolly.Wire.{Field, print, decode}
use rolly.Proto.Writes.{bytes_field, uint_field, message_field, concat_map}
use rolly.OtlpTrace.{KeyValue, StatusCode, unset, ok, error, status_number, SpanStatus, SpanData}
use rolly.OtlpTrace.Fields.{key_value_fields, status_fields, span_status_fields}
use rolly.OtlpTrace.Receiver.{
  merge_all, receive_key_value, merge_status, receive_status, code_of, merge_span,
}
use rolly.OtlpTrace.Receiver.Fits.{
  IsShort, IsShort-message, Fits, Fits-append, Fits-bytes, Fits-message, merge_all-append,
  receive_message, repeated-merge,
}
use rolly.OtlpTrace.Receiver.Values.{IsValue, receive_key_value-print}

-- A status that OTLP can tell from none.
abbrev pub IsStatus : Option SpanStatus → Type 0
IsStatus none = Unit
IsStatus (some s) = status_fields s ≢ []

-- The rule of a field that holds an attribute.
attribute-merge :
    (s : SpanData) (kv : KeyValue) (fs : List Field)
    → receive_key_value (print fs) ≡ some kv
    → merge_all merge_span s (message_field 9 fs)
      ≡ some (record s { attributes = s.attributes ++ (kv ∷ []) })
unfolding merge_all merge_span
attribute-merge s kv [] e =
    unfold receive_key_value decode print merge_all in let d : none ≡ some kv = e in absurd cc
attribute-merge s kv (f ∷ fs) e = rw e

unfoldable pub attributes_fields : List KeyValue → List Field
attributes_fields attrs = concat_map (λ kv. message_field 9 (key_value_fields kv)) attrs

pub attributes-merge :
    (s : SpanData) (attrs : List KeyValue)
    → All (λ kv. IsValue kv.value) attrs
    → IsShort (attributes_fields attrs)
    → merge_all merge_span s (attributes_fields attrs)
      ≡ some (record s { attributes = s.attributes ++ attrs })
unfolding attributes_fields
attributes-merge s attrs h k =
    repeated-merge merge_span 9 key_value_fields (λ l. record s { attributes = l })
      (λ kv. IsValue kv.value)
      (λ l kv valid short.
        attribute-merge (record s { attributes = l }) kv (key_value_fields kv)
          (receive_key_value-print kv valid short))
      attrs s.attributes h k

message-merge :
    (m : List ℕ)
    → merge_all merge_status (record { message = []; code = unset }) (bytes_field 2 m)
      ≡ some (record { message = m; code = unset })
unfolding merge_all merge_status
message-merge [] = refl
message-merge (c ∷ m) = refl

code-merge :
    (m : List ℕ) (c : StatusCode)
    → merge_all merge_status (record { message = m; code = unset }) (uint_field 3 (status_number c))
      ≡ some (record { message = m; code = c })
unfolding merge_all merge_status code_of
code-merge m unset = refl
code-merge m ok = refl
code-merge m error = refl

Fits-status : (s : SpanStatus) → Fits (status_fields s)
Fits-status s =
    Fits-append (bytes_field 2 s.message) _ (Fits-bytes 2 s.message (omega arith)) (code s.code)
  where
    code : (c : StatusCode) → Fits (uint_field 3 (status_number c))
    code unset short = tt
    code ok short = omega arith
    code error short = omega arith

receive_status-print :
    (s : SpanStatus) → IsShort (status_fields s) → receive_status (print (status_fields s)) ≡ some s
unfolding receive_status
receive_status-print s short =
    receive_message merge_status (record { message = []; code = unset }) s (status_fields s)
      (Fits-status s short)
      (merge_all-append merge_status _ (record { message = s.message; code = unset })
          (bytes_field 2 s.message) _ (message-merge s.message)
        ∙ code-merge s.message s.code)

pub status-merge :
    (s : SpanData) (o : Option SpanStatus)
    → s.status ≡ none
    → IsStatus o
    → IsShort (span_status_fields o)
    → merge_all merge_span s (span_status_fields o) ≡ some (record s { status = o })
status-merge s none e h k = unfold merge_all in ap (λ o. some (record s { status = o })) e
status-merge s (some st) e h k =
    merged (status_fields st) h (receive_status-print st (IsShort-message 15 (status_fields st) k))
  where
    merged :
        (fs : List Field)
        → fs ≢ []
        → receive_status (print fs) ≡ some st
        → merge_all merge_span s (message_field 15 fs) ≡ some (record s { status = some st })
    merged [] ne d = absurd (ne refl)
    merged (f ∷ fs) ne d = unfold merge_all merge_span in rw d

pub Fits-span_status : (o : Option SpanStatus) → Fits (span_status_fields o)
Fits-span_status none short = tt
Fits-span_status (some s) short = Fits-message 15 (status_fields s) (omega arith) short
