-- ===== src/OtlpTrace/Receiver.antt =====
-- A collector's view of the trace requests of src/otlp_trace.rs: a receiver that builds the messages
-- up field by field, by the field numbers of OTLP, as protobuf prescribes (the last value of a
-- single field counts, the values of a repeated one are appended, unknown fields are skipped). It is
-- written from the format and not from the encoders.
pub mod Fits
pub mod Values
pub mod Attributes
pub mod Spans
pub mod Requests
pub mod RoundTrip
use rolly.Base.{
  ◌>>=◌, ℕ, Bool, true, false, not, Option, none, some, List, [], ◌∷◌, ◌++◌, ◌==◌, if◌then◌else◌,
}
use rolly.Base.Int.{as_i64}
use rolly.Wire.{Field, varint, fixed64, delimited, decode}
use rolly.OtlpTrace.{
  AnyValue, string, int, bool, double, bytes, KeyValue, SpanKind, unspecified, internal, server,
  client, producer, consumer, StatusCode, unset, ok, error, SpanStatus, SpanData,
}

unfoldable pub merge_all : {A : Type 0} → (Field → A → Option A) → A → List Field → Option A
merge_all merge a [] = some a
merge_all merge a (f ∷ fs) = merge f a >>= λ b. merge_all merge b fs

-- A `oneof`: what it was set to last, if anything.
unfoldable pub merge_value : Field → Option AnyValue → Option (Option AnyValue)
merge_value (delimited n bs) o =
    some (if n == 1 then some (string bs) else if n == 7 then some (bytes bs) else o)
merge_value (varint n v) o =
    some
      (if n == 2 then some (bool (not (v == 0))) else if n == 3 then some (int (as_i64 v)) else o)
merge_value (fixed64 n v) o = some (if n == 4 then some (double v) else o)

unfoldable pub receive_value : List ℕ → Option (Option AnyValue)
receive_value bs = decode bs >>= merge_all merge_value none

-- A key with its value, which may be missing.
abbrev pub Pair : Type 0
Pair = List ℕ × Option AnyValue

unfoldable pub merge_key_value : Field → Pair → Option Pair
merge_key_value (delimited n bs) (k, v) =
    if n == 1
    then some (bs, v)
    else if n == 2
    then receive_value bs >>= (λ w. some (k, w))
    else some (k, v)
merge_key_value _ p = some p

complete : Pair → Option KeyValue
complete (k, none) = none
complete (k, some v) = some (record { key = k; value = v })

unfoldable pub receive_key_value : List ℕ → Option KeyValue
unfolding complete
receive_key_value bs = decode bs >>= merge_all merge_key_value ([], none) >>= complete

unfoldable pub kind_of : ℕ → SpanKind
kind_of v =
    if v == 1
    then internal
    else if v == 2
    then server
    else if v == 3
    then client
    else if v == 4
    then producer
    else if v == 5
    then consumer
    else unspecified

unfoldable pub code_of : ℕ → StatusCode
code_of v = if v == 1 then ok else if v == 2 then error else unset

unfoldable pub merge_status : Field → SpanStatus → Option SpanStatus
merge_status (delimited n bs) s = some (if n == 2 then record s { message = bs } else s)
merge_status (varint n v) s = some (if n == 3 then record s { code = code_of v } else s)
merge_status (fixed64 n v) s = some s

unfoldable pub receive_status : List ℕ → Option SpanStatus
receive_status bs = decode bs >>= merge_all merge_status (record { message = []; code = unset })

unfoldable pub merge_span : Field → SpanData → Option SpanData
merge_span (delimited n bs) s =
    if n == 1
    then some (record s { trace_id = bs })
    else if n == 2
    then some (record s { span_id = bs })
    else if n == 4
    then some (record s { parent_span_id = bs })
    else if n == 5
    then some (record s { name = bs })
    else if n == 9
    then receive_key_value bs >>= (λ kv. some (record s { attributes = s.attributes ++ (kv ∷ []) }))
    else if n == 15
    then receive_status bs >>= (λ st. some (record s { status = some st }))
    else some s
merge_span (varint n v) s = some (if n == 6 then record s { kind = kind_of v } else s)
merge_span (fixed64 n v) s = some (
    if n == 7
    then record s { start_time_unix_nano = v }
    else if n == 8
    then record s { end_time_unix_nano = v }
    else s)

unfoldable pub empty_span : SpanData
empty_span = record {
  trace_id = [];
  span_id = [];
  parent_span_id = [];
  name = [];
  kind = unspecified;
  start_time_unix_nano = 0;
  end_time_unix_nano = 0;
  attributes = [];
  status = none;
}

unfoldable pub receive_span : List ℕ → Option SpanData
receive_span bs = decode bs >>= merge_all merge_span empty_span
