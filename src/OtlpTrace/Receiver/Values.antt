-- ===== src/OtlpTrace/Receiver/Values.antt =====
-- The receiver gets back the attributes that src/otlp_trace.rs encodes.
use rolly.Base.{
  ◌>>=◌, ℕ, ◌≡◌, ◌≢◌, refl, ap, ◌∙◌, arith, true, false, none, some, List, [], ◌∷◌, All-append,
}
use rolly.Base.Int.{IsI64, as_u64-lt, as_i64-as_u64}
use rolly.Base.Bytes.{IsU64}
use rolly.Wire.{Field, print, IsField, IsMessage}
use rolly.Proto.Writes.{bytes_field, message_field}
use rolly.OtlpTrace.{AnyValue, string, int, bool, double, bytes, KeyValue}
use rolly.OtlpTrace.Fields.{any_value_fields, key_value_fields}
use rolly.OtlpTrace.Receiver.Fits.{
  IsShort, IsShort-append, IsShort-message, Fits-bytes, Fits-message, merge_all-append,
  receive_message,
}
use rolly.OtlpTrace.Receiver.{
  merge_all, merge_value, receive_value, merge_key_value, receive_key_value, complete,
}

-- An attribute that OTLP can carry: the string and the bytes are not empty.
abbrev pub IsValue : AnyValue → Type 0
IsValue (string s) = s ≢ []
IsValue (bytes b) = b ≢ []
IsValue (int i) = IsI64 i
IsValue (double d) = IsU64 d
IsValue (bool b) = Unit

any_value-merge :
    (v : AnyValue) → IsValue v → merge_all merge_value none (any_value_fields v) ≡ some (some v)
unfolding merge_all merge_value
any_value-merge (string []) h = absurd (h refl)
any_value-merge (string (c ∷ s)) h = refl
any_value-merge (bytes []) h = absurd (h refl)
any_value-merge (bytes (c ∷ s)) h = refl
any_value-merge (int i) h = rw (as_i64-as_u64 i h)
any_value-merge (double d) h = refl
any_value-merge (bool true) h = refl
any_value-merge (bool false) h = refl

any_value-IsMessage :
    (v : AnyValue) → IsValue v → IsShort (any_value_fields v) → IsMessage (any_value_fields v)
any_value-IsMessage (string s) h k = Fits-bytes 1 s (omega arith) k
any_value-IsMessage (bytes s) h k = Fits-bytes 7 s (omega arith) k
any_value-IsMessage (int i) h k = ((omega arith, as_u64-lt i), tt)
any_value-IsMessage (double d) h k = ((omega arith, h), tt)
any_value-IsMessage (bool true) h k = omega arith
any_value-IsMessage (bool false) h k = omega arith

receive_value-print :
    (v : AnyValue)
    → IsValue v
    → IsShort (any_value_fields v)
    → receive_value (print (any_value_fields v)) ≡ some (some v)
unfolding receive_value
receive_value-print v h k =
    receive_message merge_value none (some v) (any_value_fields v) (any_value-IsMessage v h k)
      (any_value-merge v h)

key-merge : (k : List ℕ) → merge_all merge_key_value ([], none) (bytes_field 1 k) ≡ some (k, none)
unfolding merge_all merge_key_value
key-merge [] = refl
key-merge (c ∷ k) = refl

-- The field of a value is never left out.
value-merge :
    (k : List ℕ) (v : AnyValue)
    → IsValue v
    → IsShort (any_value_fields v)
    → merge_all merge_key_value (k, none) (message_field 2 (any_value_fields v)) ≡ some (k, some v)
unfolding merge_all merge_key_value
value-merge k v h s = merged (any_value_fields v) (receive_value-print v h s) (present v h)
  where
    present : (v : AnyValue) → IsValue v → any_value_fields v ≢ []
    present (string []) h = absurd (h refl)
    present (bytes []) h = absurd (h refl)
    present _ h = λ e. cc

    merged :
        (fs : List Field)
        → receive_value (print fs) ≡ some (some v)
        → fs ≢ []
        → merge_all merge_key_value (k, none) (message_field 2 fs) ≡ some (k, some v)
    merged [] e ne = absurd (ne refl)
    merged (f ∷ fs) e ne = rw e

module _ (kv : KeyValue) (valid : IsValue kv.value) (short : IsShort (key_value_fields kv)) where
  pieces : IsShort (bytes_field 1 kv.key) × IsShort (message_field 2 (any_value_fields kv.value))
  pieces = IsShort-append (bytes_field 1 kv.key) (message_field 2 (any_value_fields kv.value)) short

  key_value-IsMessage : IsMessage (key_value_fields kv)
  key_value-IsMessage =
      All-append IsField (bytes_field 1 kv.key) _ (Fits-bytes 1 kv.key (omega arith) (pieces.0))
        (Fits-message 2 (any_value_fields kv.value) (omega arith) (pieces.1))

  key_value-merge :
      merge_all merge_key_value ([], none) (key_value_fields kv) ≡ some (kv.key, some kv.value)
  key_value-merge =
      merge_all-append merge_key_value ([], none) (kv.key, none) (bytes_field 1 kv.key) _
        (key-merge kv.key)
      ∙ value-merge kv.key kv.value valid (IsShort-message 2 (any_value_fields kv.value) (pieces.1))

  pub receive_key_value-print : receive_key_value (print (key_value_fields kv)) ≡ some kv
  unfolding receive_key_value complete
  receive_key_value-print =
      ap (λ o. o >>= complete)
        (receive_message merge_key_value ([], none) (kv.key, some kv.value) (key_value_fields kv)
          key_value-IsMessage key_value-merge)
