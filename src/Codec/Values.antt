-- ===== src/Codec/Values.antt =====
-- storage/codec/ethcodec/rlp: the codecs of the commutative Int64 and U256 and of the
-- noncommutative Bigint, Int64, String, Uint32 and Uint64. An encoding or a decoding that returns an
-- error is `none` or `failed`.
use state_engine.Prelude.{
  ℕ, suc, ◌-◌, ◌%◌, ◌^◌, ◌<◌, ◌≡◌, refl, ap, ◌∙◌, ℤ, pos, negsuc, Bool, true, Option, none, some,
  List, [], ◌∷◌, Bytes, length, ltb, ◌==◌, if◌then◌else◌, arith,
}
use state_engine.Codec.{Decoded, decoded, failed, panics, set_bytes}

-- `rlp.EncodeToBytes` and `rlp.DecodeBytes` at the types of these codecs.
pub record ValueRlp : Type 0 where
  pub encode_string : Bytes → Bytes
  pub decode_string : Bytes → Option Bytes
  pub encode_strings : List Bytes → Bytes
  pub decode_strings : Bytes → Option (List Bytes)
  -- at `*big.Int`: a negative number is an error
  pub encode_integer : ℤ → Option Bytes
  pub decode_integer : Bytes → Option ℕ
  -- at three numbers of type `uint256.Int`
  pub encode_three : ℕ → ℕ → ℕ → Bytes
  -- at the structs with one number
  pub encode_struct : ℕ → Bytes
  pub decode_struct : Bytes → Option ℕ

pub record ValueRlpLaws (r : ValueRlp) : Type 0 where
  pub encode_integer-negative : (n : ℕ) → r.encode_integer (negsuc n) ≡ none
  pub decode-encode_integer :
      (n : ℕ) → (b : Bytes) × (r.encode_integer (pos n) ≡ some b) × (r.decode_integer b ≡ some n)

-- `commutative.Int64`, with the encoding of a number in 8 bytes by `codec.Int64`.
pub record SignedLib : Type 1 where
  pub Signed : Type 0
  pub value : Signed → ℤ
  pub has_limits : Signed → Bool
  pub limits : Signed → ℤ × ℤ
  pub new_unbounded : Signed
  pub new_bounded : ℤ → ℤ → Signed
  pub set_value : ℤ → Signed → Signed
  pub encode : ℤ → Bytes
  -- `none` is a panic
  pub decode : Bytes → Option ℤ

-- `commutative.U256`
pub record WideLib : Type 1 where
  pub Wide : Type 0
  pub value : Wide → ℕ
  pub has_limits : Wide → Bool
  pub limits : Wide → ℕ × ℕ
  pub new_unbounded : Wide
  pub set_value : ℕ → Wide → Wide
  pub set_limits : ℕ → ℕ → Wide → Wide

-- `BigintRLP`, the integer with its codec.
pub record BigintRlp : Type 0 where
  pub bigint : ℤ

module _ (r : ValueRlp) where
  module _ (s : SignedLib) where
    unfoldable pub int64_encode : s.Signed → Bytes
    int64_encode x =
        if s.has_limits x
        then r.encode_strings
            (s.encode (s.value x) ∷ s.encode (s.limits x).0 ∷ s.encode (s.limits x).1 ∷ [])
        else r.encode_string (s.encode (s.value x))

    unfoldable pub int64_single : Option ℤ → Decoded s.Signed
    int64_single none = panics
    int64_single (some v) = decoded (s.set_value v s.new_unbounded)

    unfoldable pub int64_of_string : Option Bytes → Decoded s.Signed
    unfolding int64_single
    int64_of_string none = failed
    int64_of_string (some buf) = int64_single (s.decode buf)

    unfoldable pub int64_bounded : Option ℤ → Option ℤ → Option ℤ → Decoded s.Signed
    int64_bounded (some v) (some low) (some high) = decoded (s.set_value v (s.new_bounded low high))
    int64_bounded _ _ _ = panics

    unfoldable pub int64_of_strings : Option (List Bytes) → Decoded s.Signed
    unfolding int64_bounded
    int64_of_strings none = failed
    int64_of_strings (some (v ∷ low ∷ high ∷ rest)) =
        int64_bounded (s.decode v) (s.decode low) (s.decode high)
    int64_of_strings (some _) = panics

    -- Eight bytes as a string are nine.
    unfoldable pub int64_decode : Bytes → Decoded s.Signed
    unfolding int64_of_string int64_of_strings
    int64_decode buffer =
        if length buffer == 9
        then int64_of_string (r.decode_string buffer)
        else int64_of_strings (r.decode_strings buffer)

  module _ (w : WideLib) where
    -- A number of type `uint256.Int` is not negative, so its encoding is never an error.
    unfoldable pub u256_encode : w.Wide → Option Bytes
    u256_encode x =
        if w.has_limits x
        then some (r.encode_three (w.value x) (w.limits x).0 (w.limits x).1)
        else r.encode_integer (pos (w.value x))

    -- `SetFromBig` and `SetBytes` keep the low 256 bits.
    unfoldable pub u256_of_integer : Option ℕ → Decoded w.Wide
    u256_of_integer none = failed
    u256_of_integer (some n) =
        decoded (w.set_limits 0 (2 ^ 256 - 1) (w.set_value (n % 2 ^ 256) w.new_unbounded))

    unfoldable pub u256_of_strings : Bytes → Option (List Bytes) → Decoded w.Wide
    unfolding u256_of_integer
    u256_of_strings buffer none = u256_of_integer (r.decode_integer buffer)
    u256_of_strings buffer (some (v ∷ low ∷ high ∷ rest)) = decoded (
        w.set_value (set_bytes 0 v % 2 ^ 256)
          (w.set_limits (set_bytes 0 low % 2 ^ 256) (set_bytes 0 high % 2 ^ 256) w.new_unbounded))
    u256_of_strings buffer (some _) = panics

    unfoldable pub u256_decode : Bytes → Decoded w.Wide
    unfolding u256_of_strings
    u256_decode buffer = u256_of_strings buffer (r.decode_strings buffer)

  unfoldable pub bigint_encode : ℤ → Option Bytes
  bigint_encode i = r.encode_integer i

  unfoldable pub integer_of : Option ℕ → Decoded BigintRlp
  integer_of none = failed
  integer_of (some n) = decoded (record { bigint = pos n })

  -- The decoder returns its receiver, a `*BigintRLP`, and not the `Bigint` in it.
  unfoldable pub bigint_decode : Bytes → Decoded BigintRlp
  unfolding integer_of
  bigint_decode buffer = integer_of (r.decode_integer buffer)

  unfoldable pub nc_int64_encode : ℤ → Option Bytes
  nc_int64_encode i = r.encode_integer i

  -- `big.Int.Int64`: the low 64 bits, in two's complement.
  unfoldable pub low_signed : ℕ → ℤ
  low_signed n =
      let low = n % 2 ^ 64 in if ltb low (2 ^ 63) then pos low else negsuc (2 ^ 64 - suc low)

  unfoldable pub low_integer_of : Option ℕ → Decoded ℤ
  unfolding low_signed
  low_integer_of none = failed
  low_integer_of (some n) = decoded (low_signed n)

  unfoldable pub nc_int64_decode : Bytes → Decoded ℤ
  unfolding low_integer_of
  nc_int64_decode buffer = low_integer_of (r.decode_integer buffer)

  unfoldable pub string_encode : Bytes → Bytes
  string_encode s = r.encode_string s

  unfoldable pub string_of : Option Bytes → Decoded Bytes
  string_of none = failed
  string_of (some s) = decoded s

  unfoldable pub string_decode : Bytes → Decoded Bytes
  unfolding string_of
  string_decode buffer = string_of (r.decode_string buffer)

  -- The codecs of Uint32 and Uint64 are the same.
  unfoldable pub number_encode : ℕ → Bytes
  number_encode n = r.encode_struct n

  unfoldable pub number_of : Option ℕ → Decoded ℕ
  number_of none = failed
  number_of (some n) = decoded n

  unfoldable pub number_decode : Bytes → Decoded ℕ
  unfolding number_of
  number_decode buffer = number_of (r.decode_struct buffer)

  low_signed-small : (n : ℕ) → n < 2 ^ 63 → low_signed n ≡ pos n
  unfolding low_signed
  low_signed-small n h =
      let low : n % 2 ^ 64 ≡ n = omega arith in
      let few : ltb n (2 ^ 63) ≡ true = ground arith in rw (low_signed, low, few) refl

  -- An Int64 that is not negative is decoded from its encoding, and a negative one has no encoding.
  nc_int64_decode-encode :
      ValueRlpLaws r
      → (n : ℕ) → n < 2 ^ 63
      → ((b : Bytes) × (nc_int64_encode (pos n) ≡ some b) × (nc_int64_decode b ≡ decoded (pos n)))
        × (nc_int64_encode (negsuc n) ≡ none)
  unfolding nc_int64_encode nc_int64_decode low_integer_of
  nc_int64_decode-encode laws n small =
      let (b, enc, dec) = laws.decode-encode_integer n in
      (
        (b, enc, ap low_integer_of dec ∙ ap decoded (low_signed-small n small)),
        laws.encode_integer-negative n,
      )
