-- ===== src/Codec/Typed.antt =====
-- The types of the values that `RlpCodec.Decode` returns.
use state_engine.Prelude.{
  ℕ, ◌≡◌, ◌≢◌, ◌↔◌, ◌≤◌, ◌∙◌, ◌==◌, Bool-cases, inl, inr, none, Option, if◌then◌else◌, arith, refl,
  subst, some, Bytes,
}
use state_engine.Codec.{Decoded, decoded, failed, panics}
use state_engine.Codec.Dispatch.{
  CodecLib, Value, Output, value, buffer, uint64, u256, int64, path, nc_int64, nc_uint64, nc_uint32,
  bigint, bigint_rlp, bytes, string, other, as_value, or_failed, rlp_decode, rlp_encode,
}

module _ (l : CodecLib) where
  -- The dynamic type of a value.
  abbrev pub type_of : Value l → ℕ
  type_of (uint64 x) = 0
  type_of (u256 x) = 1
  type_of (int64 x) = 2
  type_of (path p) = 3
  type_of (nc_int64 i) = 4
  type_of (nc_uint64 n) = 5
  type_of (nc_uint32 n) = 6
  type_of (bigint i) = 7
  type_of (bytes b) = 8
  type_of (string s) = 9
  type_of other = 10
  type_of (bigint_rlp x) = 11

  -- The type that a buffer is decoded as with a hint: that of the hint, but for a Bigint, whose codec
  -- returns itself.
  abbrev pub decoded_type : Value l → ℕ
  decoded_type hint = if type_of hint == 7 then 11 else type_of hint

  -- A decoded output is a value of the type.
  abbrev pub HasType : ℕ → Decoded (Output l) → Type 0
  HasType n (decoded (value v)) = type_of v ≡ n
  HasType n (decoded (buffer b)) = ⊥
  HasType n failed = Unit
  HasType n panics = Unit

  as_value-HasType :
      {A : Type 0} (f : A → Value l) (n : ℕ) (d : Decoded A)
      → ((x : A) → type_of (f x) ≡ n)
      → HasType n (as_value l f d)
  unfolding as_value
  as_value-HasType f n (decoded x) h = h x
  as_value-HasType f n failed h = tt
  as_value-HasType f n panics h = tt

  decode-HasType :
      (b : Bytes) (hint : Value l) → HasType (decoded_type hint) (rlp_decode l b (some hint))
  unfolding rlp_decode
  decode-HasType b (uint64 x) = as_value-HasType uint64 0 _ (λ x. refl)
  decode-HasType b (u256 x) = as_value-HasType u256 1 _ (λ x. refl)
  decode-HasType b (int64 x) = as_value-HasType int64 2 _ (λ x. refl)
  decode-HasType b (path p) = as_value-HasType path 3 _ (λ x. refl)
  decode-HasType b (nc_int64 i) = as_value-HasType nc_int64 4 _ (λ x. refl)
  decode-HasType b (nc_uint64 n) = as_value-HasType nc_uint64 5 _ (λ x. refl)
  decode-HasType b (nc_uint32 n) = as_value-HasType nc_uint32 6 _ (λ x. refl)
  decode-HasType b (bigint i) = as_value-HasType bigint_rlp 11 _ (λ x. refl)
  decode-HasType b (bytes x) = as_value-HasType bytes 8 _ (λ x. refl)
  decode-HasType b (string s) = as_value-HasType string 9 _ (λ x. refl)
  decode-HasType b (bigint_rlp x) = tt
  decode-HasType b other = tt

  as_type :
      (n : ℕ) (out : Output l)
      → HasType n (decoded out)
      → (v : Value l) × (out ≡ value v) × (type_of v ≡ n)
  as_type n (value v) h = (v, refl, h)
  as_type n (buffer b) h = absurd h

  refused : (v : Value l) → type_of v ≡ 11 → rlp_encode l (some v) ≡ panics
  unfolding rlp_encode
  refused (bigint_rlp x) h = refl
  refused other h = refl
  refused (uint64 x) h = absurd (omega (arith, h))
  refused (u256 x) h = absurd (omega (arith, h))
  refused (int64 x) h = absurd (omega (arith, h))
  refused (path p) h = absurd (omega (arith, h))
  refused (nc_int64 i) h = absurd (omega (arith, h))
  refused (nc_uint64 n) h = absurd (omega (arith, h))
  refused (nc_uint32 n) h = absurd (omega (arith, h))
  refused (bigint i) h = absurd (omega (arith, h))
  refused (bytes b) h = absurd (omega (arith, h))
  refused (string s) h = absurd (omega (arith, h))

  or_failed-accepts : (o : Option Bytes) → or_failed l o ≢ panics
  or_failed-accepts none e = cc
  or_failed-accepts (some b) e = cc

  accepted : (v : Value l) → type_of v ≤ 9 → rlp_encode l (some v) ≢ panics
  unfolding rlp_encode
  accepted (uint64 x) h = λ e. cc
  accepted (u256 x) h = or_failed-accepts _
  accepted (int64 x) h = λ e. cc
  accepted (path p) h = λ e. cc
  accepted (nc_int64 i) h = or_failed-accepts _
  accepted (nc_uint64 n) h = λ e. cc
  accepted (nc_uint32 n) h = λ e. cc
  accepted (bigint i) h = or_failed-accepts _
  accepted (bytes x) h = λ e. cc
  accepted (string s) h = λ e. cc
  accepted other h = absurd (omega (arith, h))
  accepted (bigint_rlp x) h = absurd (omega (arith, h))

  known :
      (b : Bytes) (hint : Value l) (out : Output l)
      → rlp_decode l b (some hint) ≡ decoded out
      → type_of hint ≤ 9
  unfolding rlp_decode
  known b (uint64 x) out h = omega arith
  known b (u256 x) out h = omega arith
  known b (int64 x) out h = omega arith
  known b (path p) out h = omega arith
  known b (nc_int64 i) out h = omega arith
  known b (nc_uint64 n) out h = omega arith
  known b (nc_uint32 n) out h = omega arith
  known b (bigint i) out h = omega arith
  known b (bytes x) out h = omega arith
  known b (string s) out h = omega arith
  known b other out h = cc
  known b (bigint_rlp x) out h = cc

  -- A buffer that is decoded with a hint, if it is, is decoded as a value of the hint's type, and not
  -- as a bare buffer, but for a Bigint as the hint: there the value is a `*BigintRLP`. To encode what
  -- was decoded is a panic with a Bigint as the hint, and with no other.
  pub rlp_decode-typed :
      (b : Bytes) (hint : Value l) (out : Output l)
      → rlp_decode l b (some hint) ≡ decoded out
      → (v : Value l) × (out ≡ value v)
        × (type_of v ≡ (if type_of hint == 7 then 11 else type_of hint))
        × ((rlp_encode l (some v) ≡ panics) ↔ (type_of hint ≡ 7))
  rlp_decode-typed b hint out h =
      let (v, e, t) =
        as_type (decoded_type hint) out
          (subst (HasType (decoded_type hint)) h (decode-HasType b hint)) in
      (
        v,
        e,
        t,
        (
          λ panicked. elim (Bool-cases (type_of hint == 7)) [
            | inl seven ↦ ground (arith, seven)
            | inr no_bigint ↦
                let own : type_of v ≡ type_of hint = t ∙ rw no_bigint refl in
                absurd (accepted v (omega (arith, own, known b hint out h)) panicked)
          ],
          λ seven. refused v (t ∙ rw seven refl),
        ),
      )
