-- ===== src/Tests/Codec.antt =====
-- The theorems on the codecs, with an encoder that writes a tag before the numbers.
use state_engine.Prelude.{
  ℕ, ℤ, pos, ◌≡◌, ◌↔◌, refl, Bool, true, Option, none, some, List, [], ◌∷◌, ◌++◌, Bytes, ◌==◌,
  if◌then◌else◌, arith,
}
use state_engine.Codec.Dispatch
use state_engine.Codec.Dispatch.{CodecLib, rlp_decode}
use state_engine.Codec.Typed.{type_of, rlp_decode-typed}
use state_engine.Codec.{
  Rlp, RlpLaws, Counters, CountersLaws, decoded, panics, zeros, bytes_encode, bytes_encode-zeros,
  uint64_encode, uint64_decode, uint64_decode-encode,
}

abbrev first_number : Bytes → Option ℕ
first_number [] = none
first_number (n ∷ rest) = some n

abbrev tagged_number : Bytes → Option ℕ
tagged_number [] = none
tagged_number (tag ∷ rest) = if tag == 0 then first_number rest else none

abbrev tagged_numbers : Bytes → Option (List ℕ)
tagged_numbers [] = none
tagged_numbers (tag ∷ rest) = if tag == 1 then some rest else none

abbrev tagged : Rlp
tagged = record {
  encode_number = λ n. 0 ∷ n ∷ [];
  encode_numbers = λ ns. 1 ∷ ns;
  decode_number = tagged_number;
  decode_numbers = tagged_numbers;
  decode_bytes = λ b. some b;
}

tagged-RlpLaws : RlpLaws tagged
tagged-RlpLaws = record {
  decode-encode_number = λ n. refl;
  decode-encode_numbers = λ ns. refl;
  numbers-encode_number = λ n. refl;
}

record Counter : Type 0 where
  amount : ℕ
  bounded : Bool
  bounds : ℕ × ℕ

abbrev counters : Counters
counters = record {
  Counter = Counter;
  value = λ x. x.amount;
  has_limits = λ x. x.bounded;
  limits = λ x. x.bounds;
  new_unbounded = record { amount = 0; bounded = true; bounds = (0, 0) };
  new_bounded = λ a b. record { amount = 0; bounded = true; bounds = (a, b) };
  set_value = λ n x. record x { amount = n };
}

counters-CountersLaws : CountersLaws counters
counters-CountersLaws = record {
  value-set_value = λ n x. refl;
  limits-set_value = λ n x. refl;
  limits-new_bounded = λ a b. refl;
}

bytes_encode-zeros_example :
    bytes_encode tagged (zeros 2 ++ 7 ∷ []) ≡ bytes_encode tagged (zeros 0 ++ 7 ∷ [])
bytes_encode-zeros_example = bytes_encode-zeros tagged 2 0 (7 ∷ [])

abbrev nonce : Counter
nonce = record { amount = 5; bounded = true; bounds = (1, 9) }

uint64_decode-encode_example :
    (y : Counter) × (uint64_decode tagged counters (uint64_encode tagged counters nonce)
      ≡ decoded y)
    × (counters.value y ≡ counters.value nonce)
    × (counters.limits y ≡ counters.limits nonce)
uint64_decode-encode_example =
    uint64_decode-encode tagged counters tagged-RlpLaws counters-CountersLaws nonce refl
      (omega arith) (omega arith) (omega arith)

abbrev codecs : CodecLib
codecs = record {
  rlp = tagged;
  values = record {
    encode_string = λ b. b;
    decode_string = λ b. some b;
    encode_strings = λ bs. [];
    decode_strings = λ b. none;
    encode_integer = λ i. none;
    decode_integer = first_number;
    encode_three = λ a b c. [];
    encode_struct = λ n. n ∷ [];
    decode_struct = first_number;
  };
  counters = counters;
  signed = record {
    Signed = ℤ;
    value = λ x. x;
    has_limits = λ x. true;
    limits = λ x. (x, x);
    new_unbounded = pos 0;
    new_bounded = λ a b. a;
    set_value = λ n x. n;
    encode = λ x. [];
    decode = λ b. none;
  };
  wide = record {
    Wide = ℕ;
    value = λ x. x;
    has_limits = λ x. true;
    limits = λ x. (x, x);
    new_unbounded = 0;
    set_value = λ n x. n;
    set_limits = λ a b x. x;
  };
  PathValue = List Bytes;
  encode_path = λ p. [];
  decode_path = λ b. [];
}

rlp_decode-typed_example :
    (v : Dispatch.Value codecs) × (Dispatch.value (Dispatch.bigint_rlp (record { bigint = pos 7 }))
      ≡ Dispatch.value v)
    × (type_of codecs v ≡ 11)
    × ((Dispatch.rlp_encode codecs (some v) ≡ panics)
        ↔ (type_of codecs (Dispatch.bigint (pos 3)) ≡ 7))
unfolding rlp_decode
rlp_decode-typed_example =
    rlp_decode-typed codecs (7 ∷ []) (Dispatch.bigint (pos 3))
      (Dispatch.value (Dispatch.bigint_rlp (record { bigint = pos 7 }))) refl
