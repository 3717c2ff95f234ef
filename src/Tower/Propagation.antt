-- ===== src/Tower/Propagation.antt =====
-- src/tower/propagation.rs: the `traceparent` header of outgoing requests.
pub mod Traceparent
mod Examples
use rolly.Base.{ℕ, Option, none, some, List, [], ◌∷◌, ◌++◌}
use rolly.Base.Text.{codes}
use rolly.TraceId.{hex_encode}
use rolly.Layer.{SpanFields}
use rolly.Tower.{Http}

-- The loop over the ancestors of the current span, with the `SpanFields` that each has stored.
nearest_ancestor : List (Option SpanFields) → Option SpanFields
nearest_ancestor [] = none
nearest_ancestor (some fields ∷ rest) = some fields
nearest_ancestor (none ∷ rest) = nearest_ancestor rest

-- The scope of the current span: the span itself, then its ancestors; empty if there is none.
pub nearest : List (Option SpanFields) → Option SpanFields
unfolding nearest_ancestor
nearest [] = none
nearest (some fields ∷ ancestors) = some fields
nearest (none ∷ ancestors) = nearest_ancestor ancestors

-- `format!("00-{}-{}-01", tid, sid)`
pub traceparent : List ℕ → List ℕ → List ℕ
traceparent trace_id span_id =
    codes "00-" ++ (hex_encode trace_id ++ (codes "-" ++ (hex_encode span_id ++ codes "-01")))

module _ (http : Http) where
  -- `if let Ok(val) = HeaderValue::from_str(&traceparent)`
  inserted_header : Option http.HeaderValue → http.HeaderMap → http.HeaderMap
  inserted_header none headers = headers
  inserted_header (some val) headers = http.insert (codes "traceparent") val headers

  propagated : Option SpanFields → http.HeaderMap → http.HeaderMap
  unfolding inserted_header
  propagated none headers = headers
  propagated (some fields) headers =
      inserted_header (http.from_str (traceparent fields.trace_id fields.span_id)) headers

  -- The headers with which `call` passes the request on.
  pub call : List (Option SpanFields) → http.HeaderMap → http.HeaderMap
  unfolding propagated nearest
  call scope headers = propagated (nearest scope) headers
