-- ===== src/Proto/Examples.antt =====
-- src/proto.rs on concrete fields: the theorems applied, and a few runs.
use rolly.Base.{
  dec_le, lt_wf, ◌≡◌, refl, arith, zero, suc, ◌^◌, ◌≤◌, none, some, List, [], ◌∷◌, length, ℕ,
}
use rolly.Proto.{
  extend_from_slice, encode_varint, encode_message_field, encode_message_field_in_place,
  encode_varint_loop,
}
use rolly.Proto.InPlace.{in_place-eq-encode_message_field, in_place_panics}

run_varint : encode_varint 300 (7 ∷ []) ≡ some (7 ∷ (0xac ∷ (0x02 ∷ [])))
unfolding encode_varint encode_varint_loop lt_wf dec_le
run_varint = refl

abbrev body : List ℕ
body = 1 ∷ (2 ∷ (3 ∷ []))

in_place-eq-encode_message_field_example :
    encode_message_field_in_place 2 (extend_from_slice body) (9 ∷ [])
    ≡ encode_message_field 2 body (9 ∷ [])
unfolding extend_from_slice
in_place-eq-encode_message_field_example =
    in_place-eq-encode_message_field 2 (extend_from_slice body) body (9 ∷ []) (omega arith)
      (λ b. refl) (omega arith)

zeros : ℕ → List ℕ
zeros zero = []
zeros (suc n) = 0 ∷ zeros n

length-zeros : (n : ℕ) → length (zeros n) ≡ n
unfolding zeros
length-zeros zero = refl
length-zeros (suc n) = omega (arith, length-zeros n)

large_enough : (n : ℕ) → 2 ^ 35 ≤ n → 2 ^ 35 ≤ length (zeros n)
large_enough n h = omega (arith, length-zeros n)

in_place_panics_example :
    encode_message_field_in_place 2 (extend_from_slice (zeros (2 ^ 35))) [] ≡ none
unfolding extend_from_slice
in_place_panics_example =
    in_place_panics 2 (extend_from_slice (zeros (2 ^ 35))) (zeros (2 ^ 35)) [] (omega arith)
      (λ b. refl) (large_enough (2 ^ 35) (omega arith))
