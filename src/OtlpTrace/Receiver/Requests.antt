-- ===== src/OtlpTrace/Receiver/Requests.antt =====
-- The receiver of whole requests.
use rolly.Base.{◌>>=◌, ℕ, Option, some, List, [], ◌∷◌, ◌++◌, ◌==◌, if◌then◌else◌}
use rolly.Wire.{Field, delimited, decode}
use rolly.OtlpTrace.{KeyValue, SpanData}
use rolly.OtlpTrace.Receiver.{merge_all, receive_key_value, receive_span}

pub record ScopeSpans : Type 0 where
  pub scope_name : List ℕ
  pub scope_version : List ℕ
  pub spans : List SpanData

pub record ResourceSpans : Type 0 where
  pub resource : List KeyValue
  pub scope_spans : List ScopeSpans

unfoldable pub merge_resource : Field → List KeyValue → Option (List KeyValue)
merge_resource (delimited n bs) attrs =
    if n == 1 then receive_key_value bs >>= (λ kv. some (attrs ++ (kv ∷ []))) else some attrs
merge_resource _ attrs = some attrs

unfoldable pub merge_scope : Field → List ℕ × List ℕ → Option (List ℕ × List ℕ)
merge_scope (delimited n bs) (name, version) =
    some (if n == 1 then (bs, version) else if n == 2 then (name, bs) else (name, version))
merge_scope _ scope = some scope

unfoldable pub merge_scope_spans : Field → ScopeSpans → Option ScopeSpans
merge_scope_spans (delimited n bs) s =
    if n == 1
    then decode bs
      >>= merge_all merge_scope (s.scope_name, s.scope_version)
      >>= (λ (name, version). some (record s { scope_name = name; scope_version = version }))
    else if n == 2
    then receive_span bs >>= (λ span. some (record s { spans = s.spans ++ (span ∷ []) }))
    else some s
merge_scope_spans _ s = some s

unfoldable pub receive_scope_spans : List ℕ → Option ScopeSpans
receive_scope_spans bs =
    decode bs
    >>= merge_all merge_scope_spans (record { scope_name = []; scope_version = []; spans = [] })

unfoldable pub merge_resource_spans : Field → ResourceSpans → Option ResourceSpans
merge_resource_spans (delimited n bs) r =
    if n == 1
    then decode bs
      >>= merge_all merge_resource r.resource
      >>= (λ attrs. some (record r { resource = attrs }))
    else if n == 2
    then receive_scope_spans bs
      >>= (λ s. some (record r { scope_spans = r.scope_spans ++ (s ∷ []) }))
    else some r
merge_resource_spans _ r = some r

unfoldable pub receive_resource_spans : List ℕ → Option ResourceSpans
receive_resource_spans bs =
    decode bs >>= merge_all merge_resource_spans (record { resource = []; scope_spans = [] })

unfoldable pub merge_request : Field → List ResourceSpans → Option (List ResourceSpans)
merge_request (delimited n bs) rs =
    if n == 1 then receive_resource_spans bs >>= (λ r. some (rs ++ (r ∷ []))) else some rs
merge_request _ rs = some rs

unfoldable pub receive_request : List ℕ → Option (List ResourceSpans)
receive_request bs = decode bs >>= merge_all merge_request []
