-- ===== src/Codec.antt =====
-- storage/codec/ethcodec/rlp: the codecs of the bytes and of the commutative Uint64. The RLP encoder
-- of go-ethereum and the CRDT are parameters.
pub mod Values
pub mod Dispatch
pub mod Typed
pub mod Arco
use state_engine.Prelude.{
  ℕ, zero, suc, sym, ◌++◌, ◌+◌, ◌*◌, ◌%◌, ◌^◌, ◌≡◌, ◌<◌, refl, ap, ◌∙◌, Bool, true, Option, none,
  some, List, [], ◌∷◌, Bytes, if◌then◌else◌, arith,
}

-- `rlp.EncodeToBytes` and `rlp.DecodeBytes` at the types that the codecs use; `none` is an error.
pub record Rlp : Type 0 where
  pub encode_number : ℕ → Bytes
  pub encode_numbers : List ℕ → Bytes
  pub decode_number : Bytes → Option ℕ
  pub decode_numbers : Bytes → Option (List ℕ)
  pub decode_bytes : Bytes → Option Bytes

pub record RlpLaws (r : Rlp) : Type 0 where
  pub decode-encode_number : (n : ℕ) → r.decode_number (r.encode_number n) ≡ some n
  pub decode-encode_numbers : (ns : List ℕ) → r.decode_numbers (r.encode_numbers ns) ≡ some ns
  pub numbers-encode_number : (n : ℕ) → r.decode_numbers (r.encode_number n) ≡ none

-- `commutative.Uint64`.
pub record Counters : Type 1 where
  pub Counter : Type 0
  pub value : Counter → ℕ
  pub has_limits : Counter → Bool
  pub limits : Counter → ℕ × ℕ
  pub new_unbounded : Counter
  pub new_bounded : ℕ → ℕ → Counter
  pub set_value : ℕ → Counter → Counter

pub record CountersLaws (c : Counters) : Type 0 where
  pub value-set_value : (n : ℕ) (x : c.Counter) → c.value (c.set_value n x) ≡ n
  pub limits-set_value : (n : ℕ) (x : c.Counter) → c.limits (c.set_value n x) ≡ c.limits x
  pub limits-new_bounded : (a b : ℕ) → c.limits (c.new_bounded a b) ≡ (a, b)

pub data Decoded (A : Type 0) : Type 0 where
  decoded : A → Decoded A
  failed : Decoded A
  panics : Decoded A

-- `new(big.Int).SetBytes(raw)`, with the first byte as the highest.
abbrev pub set_bytes : ℕ → Bytes → ℕ
set_bytes acc [] = acc
set_bytes acc (b ∷ raw) = set_bytes (acc * 256 + b) raw

unfoldable pub bytes_encode : Rlp → Bytes → Bytes
bytes_encode r raw = r.encode_number (set_bytes 0 raw)

unfoldable pub bytes_decode : Rlp → Bytes → Decoded Bytes
bytes_decode r buffer = elim (r.decode_bytes buffer) [ none ↦ failed | some out ↦ decoded out ]

-- `n` bytes that are zero.
abbrev pub zeros : ℕ → Bytes
zeros zero = []
zeros (suc n) = 0 ∷ zeros n

set_bytes-zeros : (n : ℕ) (raw : Bytes) → set_bytes 0 (zeros n ++ raw) ≡ set_bytes 0 raw
set_bytes-zeros zero raw = refl
set_bytes-zeros (suc n) raw = set_bytes-zeros n raw

-- The leading zero bytes of a text are not in its encoding, whatever the RLP encoder: texts that
-- differ in them only are encoded alike.
pub bytes_encode-zeros :
    (r : Rlp) (m n : ℕ) (raw : Bytes)
    → bytes_encode r (zeros m ++ raw) ≡ bytes_encode r (zeros n ++ raw)
unfolding bytes_encode
bytes_encode-zeros r m n raw =
    ap r.encode_number (set_bytes-zeros m raw ∙ sym (set_bytes-zeros n raw))

module _ (r : Rlp) (c : Counters) where
  unfoldable pub uint64_encode : c.Counter → Bytes
  uint64_encode x =
      if c.has_limits x
      then r.encode_numbers (c.value x ∷ (c.limits x).0 ∷ (c.limits x).1 ∷ [])
      else r.encode_number (c.value x)

  -- `big.Int.Uint64` takes the low 64 bits.
  unfoldable pub uint64_of_list : List ℕ → Decoded c.Counter
  uint64_of_list (v ∷ low ∷ high ∷ rest) =
      decoded (c.set_value (v % 2 ^ 64) (c.new_bounded (low % 2 ^ 64) (high % 2 ^ 64)))
  uint64_of_list _ = panics

  unfoldable pub uint64_of_number : Option ℕ → Decoded c.Counter
  uint64_of_number none = failed
  uint64_of_number (some n) = decoded (c.set_value (n % 2 ^ 64) c.new_unbounded)

  unfoldable pub uint64_from : Bytes → Option (List ℕ) → Decoded c.Counter
  unfolding uint64_of_number uint64_of_list
  uint64_from buffer none = uint64_of_number (r.decode_number buffer)
  uint64_from buffer (some arr) = uint64_of_list arr

  unfoldable pub uint64_decode : Bytes → Decoded c.Counter
  unfolding uint64_from
  uint64_decode buffer = uint64_from buffer (r.decode_numbers buffer)

  low_bits : (n : ℕ) → n < 2 ^ 64 → n % 2 ^ 64 ≡ n
  low_bits n h = omega arith

  -- A counter with limits whose numbers have 64 bits is decoded from its encoding with the same value
  -- and the same limits.
  pub uint64_decode-encode :
      RlpLaws r
      → CountersLaws c
      → (x : c.Counter) → c.has_limits x ≡ true
      → c.value x < 2 ^ 64
      → (c.limits x).0 < 2 ^ 64
      → (c.limits x).1 < 2 ^ 64
      → (y : c.Counter) × (uint64_decode (uint64_encode x) ≡ decoded y)
        × (c.value y ≡ c.value x)
        × (c.limits y ≡ c.limits x)
  unfolding uint64_decode uint64_encode uint64_from uint64_of_list
  uint64_decode-encode rl cl x has v low high =
      let all = c.value x ∷ (c.limits x).0 ∷ (c.limits x).1 ∷ [] in
      let y = c.set_value (c.value x) (c.new_bounded (c.limits x).0 (c.limits x).1) in
      (
        y,
        rw has (
            ap (uint64_from (r.encode_numbers all)) (rl.decode-encode_numbers all)
            ∙ rw (low_bits (c.value x) v, low_bits (c.limits x).0 low, low_bits (c.limits x).1 high)
                refl),
        cl.value-set_value (c.value x) (c.new_bounded (c.limits x).0 (c.limits x).1),
        cl.limits-set_value (c.value x) (c.new_bounded (c.limits x).0 (c.limits x).1)
            ∙ cl.limits-new_bounded (c.limits x).0 (c.limits x).1,
      )
