-- ===== src/Codec/Dispatch.antt =====
-- storage/codec/ethcodec/rlp/rlp_codec.go and the codec of paths: the choice of a codec by the type
-- of a value, and by the type of a hint.
use state_engine.Prelude.{ℕ, ℤ, Option, none, some, [], Bytes}
use state_engine.Codec.{
  Rlp, Counters, Decoded, decoded, failed, panics, bytes_encode, bytes_decode, uint64_encode,
  uint64_decode,
}
use state_engine.Codec.Values.{
  ValueRlp, BigintRlp, SignedLib, WideLib, int64_encode, int64_decode, u256_encode, u256_decode,
  bigint_encode, bigint_decode, nc_int64_encode, nc_int64_decode, string_encode, string_decode,
  number_encode, number_decode,
}

-- The encoder, and the CRDT of the common library.
pub record CodecLib : Type 1 where
  pub rlp : Rlp
  pub values : ValueRlp
  pub counters : Counters
  pub signed : SignedLib
  pub wide : WideLib
  -- `commutative.Path` with its own codec
  pub PathValue : Type 0
  pub encode_path : PathValue → Bytes
  pub decode_path : Bytes → PathValue

module _ (l : CodecLib) where
  -- A value by its type. `bigint_rlp` is the receiver that `BigintRLP.Decode` returns, a type that no
  -- case of the switches has, and `other` is a value of another type.
  pub data Value : Type 0 where
    uint64 : l.counters.Counter → Value
    u256 : l.wide.Wide → Value
    int64 : l.signed.Signed → Value
    path : l.PathValue → Value
    nc_int64 : ℤ → Value
    nc_uint64 : ℕ → Value
    nc_uint32 : ℕ → Value
    bigint : ℤ → Value
    bigint_rlp : BigintRlp → Value
    bytes : Bytes → Value
    string : Bytes → Value
    other : Value

  -- What a decoder returns: a value, or the buffer where there is no hint.
  pub data Output : Type 0 where
    value : Value → Output
    buffer : Bytes → Output

  unfoldable pub path_encode : l.PathValue → Bytes
  path_encode p = l.values.encode_string (l.encode_path p)

  unfoldable pub path_of : Option Bytes → Decoded l.PathValue
  path_of none = failed
  path_of (some b) = decoded (l.decode_path b)

  unfoldable pub path_decode : Bytes → Decoded l.PathValue
  unfolding path_of
  path_decode b = path_of (l.values.decode_string b)

  abbrev pub or_failed : Option Bytes → Decoded Bytes
  or_failed none = failed
  or_failed (some b) = decoded b

  -- `none` is nil, which is a deletion.
  unfoldable pub rlp_encode : Option Value → Decoded Bytes
  unfolding bytes_encode uint64_encode int64_encode u256_encode bigint_encode nc_int64_encode
      string_encode number_encode path_encode
  rlp_encode none = decoded []
  rlp_encode (some (uint64 x)) = decoded (uint64_encode l.rlp l.counters x)
  rlp_encode (some (u256 x)) = or_failed (u256_encode l.values l.wide x)
  rlp_encode (some (int64 x)) = decoded (int64_encode l.values l.signed x)
  rlp_encode (some (path p)) = decoded (path_encode p)
  rlp_encode (some (nc_int64 i)) = or_failed (nc_int64_encode l.values i)
  rlp_encode (some (nc_uint64 n)) = decoded (number_encode l.values n)
  rlp_encode (some (nc_uint32 n)) = decoded (number_encode l.values n)
  rlp_encode (some (bigint i)) = or_failed (bigint_encode l.values i)
  rlp_encode (some (bytes b)) = decoded (bytes_encode l.rlp b)
  rlp_encode (some (string s)) = decoded (string_encode l.values s)
  rlp_encode (some (bigint_rlp x)) = panics
  rlp_encode (some other) = panics

  unfoldable pub as_value : {A : Type 0} → (A → Value) → Decoded A → Decoded Output
  as_value f (decoded x) = decoded (value (f x))
  as_value f failed = failed
  as_value f panics = panics

  unfoldable pub rlp_decode : Bytes → Option Value → Decoded Output
  unfolding bytes_decode uint64_decode int64_decode u256_decode bigint_decode nc_int64_decode
      string_decode number_decode path_decode as_value
  rlp_decode b none = decoded (buffer b)
  rlp_decode b (some (uint64 x)) = as_value uint64 (uint64_decode l.rlp l.counters b)
  rlp_decode b (some (u256 x)) = as_value u256 (u256_decode l.values l.wide b)
  rlp_decode b (some (int64 x)) = as_value int64 (int64_decode l.values l.signed b)
  rlp_decode b (some (path p)) = as_value path (path_decode b)
  rlp_decode b (some (nc_int64 i)) = as_value nc_int64 (nc_int64_decode l.values b)
  rlp_decode b (some (nc_uint64 n)) = as_value nc_uint64 (number_decode l.values b)
  rlp_decode b (some (nc_uint32 n)) = as_value nc_uint32 (number_decode l.values b)
  rlp_decode b (some (bigint i)) = as_value bigint_rlp (bigint_decode l.values b)
  rlp_decode b (some (bytes x)) = as_value bytes (bytes_decode l.rlp b)
  rlp_decode b (some (string s)) = as_value string (string_decode l.values b)
  rlp_decode b (some (bigint_rlp x)) = panics
  rlp_decode b (some other) = panics
