-- ===== src/Layer/Written.antt =====
-- The span that src/otlp_layer.rs exports, written out from what the program recorded.
use mathlib.Core.Path.{subst}
use rolly.Base.{
  ℕ, ◌≡◌, refl, sym, ap, ◌∙◌, ◌<◌, ◌^◌, Bool, true, false, Option, none, some, List, [], ◌∷◌, ◌++◌,
  append_assoc, append-nil, length, if◌then◌else◌, replicate,
}
use rolly.Base.Int.{as_i64}
use rolly.Base.Bytes.{beq_bytes, beq_bytes_iff}
use rolly.Base.Text.{codes}
use rolly.Wire.{print, decode}
use rolly.OtlpTrace.{KeyValue, AnyValue, string, int, bool, double, SpanData, internal}
use rolly.OtlpTrace.Fields.{trace_request_fields}
use rolly.Exporter.{Mpsc, Exporter, send_traces}
use rolly.Layer.{
  SpanFields, FieldCollector, Recorded, by_debug, by_str, by_i64, by_u64, by_bool, by_f64, Values,
  hex_to_bytes_16, push_attr, parsed_id, visit, collect, collect_from, empty_collector, id_or,
  zero_trace_id, OtlpLayer, on_new_span, on_close, span_of,
}
use rolly.Layer.Spans.{descend, descend-sampled, sampled_is_sent}

abbrev text : List ℕ → List ℕ → List KeyValue
text name s =
    if beq_bytes name (codes "message") then [] else record { key = name; value = string s } ∷ []

abbrev one : List ℕ → AnyValue → List KeyValue
one name value = record { key = name; value = value } ∷ []

-- Every field is an attribute, but a text named message.
attribute : List ℕ → Recorded → List KeyValue
attribute name (by_debug s) = text name s
attribute name (by_str s) = text name s
attribute name (by_i64 i) = one name (int i)
attribute name (by_u64 n) = one name (int (as_i64 n))
attribute name (by_bool b) = one name (bool b)
attribute name (by_f64 d) = one name (double d)

unfoldable pub attributes_of : Values → List KeyValue
unfolding attribute
attributes_of [] = []
attributes_of ((name, r) ∷ rest) = attribute name r ++ attributes_of rest

newer_id : List ℕ → Option (List ℕ) → List ℕ
newer_id held none = held
newer_id held (some t) = t

id_after : List ℕ → List ℕ → Recorded → List ℕ
unfolding newer_id
id_after held name (by_str s) =
    if beq_bytes name (codes "trace_id") then newer_id held (hex_to_bytes_16 s) else held
id_after held name _ = held

-- The last string field named trace_id that is 32 hexadecimal digits.
unfoldable pub recorded_id : List ℕ → Values → List ℕ
unfolding id_after
recorded_id held [] = held
recorded_id held ((name, r) ∷ rest) = recorded_id (id_after held name r) rest

-- The ID of the innermost of the spans.
unfoldable pub innermost : List ℕ → List (Values × List ℕ × ℕ) → List ℕ
innermost id [] = id
innermost id ((values, span_id, now) ∷ inner) = innermost span_id inner

two_names :
    (name : List ℕ)
    → beq_bytes name (codes "message") ≡ true
    → beq_bytes name (codes "trace_id") ≡ false
unfolding beq_bytes
two_names name h =
    subst (λ n. beq_bytes n (codes "trace_id") ≡ false)
      (sym ((beq_bytes_iff name (codes "message")).0 h)) refl

-- The two tests of a text's name, one after the other.
attrs_if :
    (is_message is_id : Bool) (o : Option (List ℕ)) (name s : List ℕ) (c : FieldCollector)
    → (if is_message
        then record c { message = some s }
        else push_attr name (string s) (if is_id then parsed_id o c else c)).attrs
      ≡ c.attrs ++ (if is_message then [] else one name (string s))
unfolding push_attr parsed_id
attrs_if true is_id o name s c = sym (append-nil c.attrs)
attrs_if false false o name s c = refl
attrs_if false true none name s c = refl
attrs_if false true (some t) name s c = refl

id_if :
    (is_message is_id : Bool) (o : Option (List ℕ)) (name s : List ℕ) (c : FieldCollector)
    → (is_message ≡ true → is_id ≡ false)
    → id_or zero_trace_id
        (if is_message
          then record c { message = some s }
          else push_attr name (string s) (if is_id then parsed_id o c else c)).trace_id
      ≡ (if is_id
          then newer_id (id_or zero_trace_id c.trace_id) o
          else id_or zero_trace_id c.trace_id)
unfolding push_attr parsed_id newer_id id_or
id_if true true o name s c h = let e = h refl in absurd cc
id_if true false o name s c h = refl
id_if false false o name s c h = refl
id_if false true none name s c h = refl
id_if false true (some t) name s c h = refl

visit-attribute :
    (name : List ℕ) (r : Recorded) (c : FieldCollector)
    → (visit name r c).attrs ≡ c.attrs ++ attribute name r
unfolding visit push_attr parsed_id attribute
visit-attribute name (by_debug s) c =
    attrs_if (beq_bytes name (codes "message")) false none name s c
visit-attribute name (by_str s) c =
    attrs_if (beq_bytes name (codes "message")) (beq_bytes name (codes "trace_id"))
      (hex_to_bytes_16 s) name s c
visit-attribute name (by_i64 i) c = refl
visit-attribute name (by_u64 n) c = refl
visit-attribute name (by_bool b) c = refl
visit-attribute name (by_f64 d) c = refl

visit-id_after :
    (name : List ℕ) (r : Recorded) (c : FieldCollector)
    → id_or zero_trace_id (visit name r c).trace_id
      ≡ id_after (id_or zero_trace_id c.trace_id) name r
unfolding visit push_attr parsed_id id_after newer_id id_or
visit-id_after name (by_debug s) c =
    id_if (beq_bytes name (codes "message")) false none name s c (λ h. refl)
visit-id_after name (by_str s) c =
    id_if (beq_bytes name (codes "message")) (beq_bytes name (codes "trace_id")) (hex_to_bytes_16 s)
      name s c (two_names name)
visit-id_after name (by_i64 i) c = refl
visit-id_after name (by_u64 n) c = refl
visit-id_after name (by_bool b) c = refl
visit-id_after name (by_f64 d) c = refl

collect_from-attributes_of :
    (values : Values) (c : FieldCollector)
    → (collect_from c values).attrs ≡ c.attrs ++ attributes_of values
unfolding collect_from attributes_of
collect_from-attributes_of [] c = sym (append-nil c.attrs)
collect_from-attributes_of ((name, r) ∷ rest) c =
    collect_from-attributes_of rest (visit name r c)
    ∙ ap (λ xs. xs ++ attributes_of rest) (visit-attribute name r c)
    ∙ append_assoc c.attrs (attribute name r) (attributes_of rest)

collect_from-recorded_id :
    (values : Values) (c : FieldCollector)
    → id_or zero_trace_id (collect_from c values).trace_id
      ≡ recorded_id (id_or zero_trace_id c.trace_id) values
unfolding collect_from recorded_id
collect_from-recorded_id [] c = refl
collect_from-recorded_id ((name, r) ∷ rest) c =
    collect_from-recorded_id rest (visit name r c)
    ∙ ap (λ id. recorded_id id rest) (visit-id_after name r c)

module _ (normalized : ℕ → ℕ) (layer : OtlpLayer) where
  descend-innermost :
      (root : SpanFields) (inner : List (Values × List ℕ × ℕ))
      → (descend normalized layer root inner).span_id ≡ innermost root.span_id inner
  unfolding descend innermost on_new_span
  descend-innermost root [] = refl
  descend-innermost root ((values, span_id, now) ∷ inner) =
      descend-innermost (on_new_span normalized layer values (some root) span_id now) inner

-- The span as the program has it: opened with the values and the ID below the spans that are open
-- inside a root with the ID `root_id`.
unfoldable pub written :
    List ℕ → List (Values × List ℕ × ℕ) → Values → List ℕ → ℕ → List ℕ → ℕ → SpanData
unfolding attributes_of recorded_id innermost
written root_id inner values span_id opened name closed = record {
  trace_id = recorded_id (replicate 16 0) values;
  span_id = span_id;
  parent_span_id = innermost root_id inner;
  name = name;
  kind = internal;
  start_time_unix_nano = opened;
  end_time_unix_nano = closed;
  attributes = attributes_of values;
  status = none;
}

module _ (normalized : ℕ → ℕ) (layer : OtlpLayer) where
  span_of-written :
      (root : SpanFields) (inner : List (Values × List ℕ × ℕ)) (values : Values) (span_id : List ℕ)
      (opened : ℕ) (name : List ℕ) (closed : ℕ)
      → span_of
          (on_new_span normalized layer values
            (some (descend normalized layer root inner))
            span_id
            opened)
          name
          closed
        ≡ written root.span_id inner values span_id opened name closed
  unfolding span_of on_new_span written collect empty_collector
  span_of-written root inner values span_id opened name closed = rw (
    collect_from-recorded_id values empty_collector,
    collect_from-attributes_of values empty_collector,
    descend-innermost normalized layer root inner,
  )

  -- A span that the program opens below any sampled span, at any depth, is sent when it closes, if
  -- traces are exported and the request takes less than 32 GiB: the exporter gets bytes that a
  -- protobuf decoder reads as the request of the one span with the times of its opening and close,
  -- the trace ID that its last string field of that name with 32 hexadecimal digits gives, or zeros,
  -- its own ID, the ID of the innermost span above it, its name, and each field that it was opened
  -- with, except a text named message, as an attribute, in order.
  pub written_span_is_sent :
      (ch : Mpsc) (e : Exporter ch.Sender) (root : SpanFields) (inner : List (Values × List ℕ × ℕ))
      (values : Values) (span_id : List ℕ) (opened : ℕ) (name : List ℕ) (closed : ℕ)
      → layer.export_traces ≡ true
      → root.sampled ≡ true
      → length (
          print (
            trace_request_fields layer.resource_attrs layer.scope_name layer.scope_version
              (written root.span_id inner values span_id opened name closed ∷ [])))
        < 2 ^ 35
      → (bytes : List ℕ) × (on_close ch layer
            (some (
              on_new_span normalized layer values
                (some (descend normalized layer root inner))
                span_id
                opened))
            name
            closed
            e
          ≡ some (send_traces ch bytes e))
        × (decode bytes
            ≡ some (
                trace_request_fields layer.resource_attrs layer.scope_name layer.scope_version
                  (written root.span_id inner values span_id opened name closed ∷ [])))
  unfolding descend on_new_span
  written_span_is_sent ch e root inner values span_id opened name closed on sampled small =
      let same = span_of-written root inner values span_id opened name closed in
      let fields =
        on_new_span normalized layer values (some (descend normalized layer root inner)) span_id
          opened in
      subst
        (λ s.
          (bytes : List ℕ) × (on_close ch layer (some fields) name closed e
            ≡ some (send_traces ch bytes e))
          × (decode bytes
              ≡ some (
                  trace_request_fields layer.resource_attrs layer.scope_name layer.scope_version
                    (s ∷ []))))
        same
        (sampled_is_sent normalized layer ch e fields [] name closed on
          (descend-sampled normalized layer root inner ∙ sampled)
          (subst
            (λ s.
              length (
                print (
                  trace_request_fields layer.resource_attrs layer.scope_name layer.scope_version
                    (s ∷ [])))
              < 2 ^ 35)
            (sym same) small))
