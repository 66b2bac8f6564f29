-- ===== src/Codec/Arco.antt =====
-- storage/codec/arcocodec/codec.go and storage/codec/storage_codec.go: the codec that writes the type
-- of a value behind it, and the choice between that one and the codec of the Ethereum storage.
use state_engine.Prelude.{
  ℕ, ◌≡◌, inl, inr, refl, sym, ap, false≢true, Bool-cases, ◌∙◌, Bool, true, false, Option, none,
  some, List, [], ◌∷◌, ◌++◌, Bytes, ◌==◌, if◌then◌else◌, arith,
}
use state_engine.Libs.Search.{Member}
use state_engine.Codec.{Decoded, decoded, panics}
use state_engine.Paths.Persist.{should_persist_to_eth}

-- The types of the CRDT. The codec decodes all but the last two.
pub data Kind : Type 0 where
  string : Kind
  bigint : Kind
  bytes : Kind
  path : Kind
  int64 : Kind
  uint64 : Kind
  uint256 : Kind
  nc_int64 : Kind
  nc_uint32 : Kind
  nc_uint64 : Kind

-- `TypeID`, `Encode` and the methods `Decode` of the types.
pub record CrdtLib (V : Type 0) : Type 0 where
  pub kind : V → Kind
  pub type_id : Kind → ℕ
  pub encode : V → Bytes
  pub decode_as : Kind → Bytes → V

pub record CrdtLaws {V : Type 0} (c : CrdtLib V) : Type 0 where
  -- The identifiers are different.
  pub type_id-inj : (j k : Kind) → c.type_id j ≡ c.type_id k → j ≡ k
  pub decode_as-encode : (v : V) → c.decode_as (c.kind v) (c.encode v) ≡ v

==_refl : (n : ℕ) → (n == n) ≡ true
==_refl n = ground arith

==_sound : (m n : ℕ) → (m == n) ≡ true → m ≡ n
==_sound m n h = ground arith

module _ {V : Type 0} (c : CrdtLib V) where
  -- `none` is nil.
  unfoldable pub arco_encode : Option V → Bytes
  arco_encode none = []
  arco_encode (some v) = c.encode v ++ c.type_id (c.kind v) ∷ []

  -- The cases of the switch, in their order.
  unfoldable pub find_kind : ℕ → List Kind → Option Kind
  find_kind id [] = none
  find_kind id (k ∷ ks) = let later = find_kind id ks in if id == c.type_id k then some k else later

  abbrev pub cases : List Kind
  cases = string ∷ bigint ∷ bytes ∷ path ∷ int64 ∷ uint64 ∷ uint256 ∷ nc_int64 ∷ []

  unfoldable pub decode_kind : Option Kind → Bytes → Decoded (Option V)
  decode_kind none buffer = panics
  decode_kind (some k) buffer = decoded (some (c.decode_as k buffer))

  -- The buffer without its last byte, and that byte.
  unfoldable pub split_last : ℕ → Bytes → Bytes × ℕ
  split_last b [] = ([], b)
  split_last b (d ∷ buffer) = let (front, last) = split_last d buffer in (b ∷ front, last)

  -- A codec with an identifier decodes the whole buffer at that type.
  unfoldable pub arco_decode : ℕ → Bytes → Decoded (Option V)
  unfolding find_kind decode_kind split_last
  arco_decode id [] = decoded none
  arco_decode id (b ∷ buffer) =
      let (front, last) = split_last b buffer in
      if id == 0
      then decode_kind (find_kind last cases) front
      else decode_kind (find_kind id cases) (b ∷ buffer)

  split_last-append :
      (b : ℕ) (buffer : Bytes) (d : ℕ) → split_last b (buffer ++ d ∷ []) ≡ (b ∷ buffer, d)
  unfolding split_last
  split_last-append b [] d = refl
  split_last-append b (x ∷ buffer) d =
      ap (λ (p : Bytes × ℕ). (b ∷ p.0, p.1)) (split_last-append x buffer d)

  arco_decode-append :
      (front : Bytes) (d : ℕ)
      → arco_decode 0 (front ++ d ∷ []) ≡ decode_kind (find_kind d cases) front
  unfolding arco_decode split_last
  arco_decode-append [] d = refl
  arco_decode-append (b ∷ front) d = rw (arco_decode, split_last-append b front d) refl

  -- The types that the switch has.
  abbrev pub is_decoded : Kind → Bool
  is_decoded nc_uint32 = false
  is_decoded nc_uint64 = false
  is_decoded _ = true

  find_kind-Member :
      (laws : CrdtLaws c) (k : Kind) (ks : List Kind)
      → Member k ks
      → find_kind (c.type_id k) ks ≡ some k
  unfolding find_kind
  find_kind-Member laws k [] m = absurd m
  find_kind-Member laws k (j ∷ ks) (inl eq) = rw (eq, ==_refl (c.type_id j)) refl
  find_kind-Member laws k (j ∷ ks) (inr m) =
      let later = find_kind-Member laws k ks m in
      elim (Bool-cases (c.type_id k == c.type_id j)) [
        | inl found ↦
            let one : j ≡ k =
              sym (laws.type_id-inj k j (==_sound (c.type_id k) (c.type_id j) found)) in
            rw found (ap some one)
        | inr other ↦ rw other later
      ]

  -- A type that the switch lacks.
  find_kind-missing :
      (laws : CrdtLaws c) (k : Kind) (ks : List Kind)
      → is_decoded k ≡ false
      → ((j : Kind) → Member j ks → is_decoded j ≡ true)
      → find_kind (c.type_id k) ks ≡ none
  unfolding find_kind
  find_kind-missing laws k [] missing all = refl
  find_kind-missing laws k (j ∷ ks) missing all =
      let later = find_kind-missing laws k ks missing (λ i m. all i (inr m)) in
      elim (Bool-cases (c.type_id k == c.type_id j)) [
        | inl found ↦
            let one : k ≡ j = laws.type_id-inj k j (==_sound (c.type_id k) (c.type_id j) found) in
            absurd (false≢true (sym missing ∙ ap is_decoded one ∙ all j (inl refl)))
        | inr other ↦ rw other later
      ]

  Member-cases : (k : Kind) → is_decoded k ≡ true → Member k cases
  Member-cases string h = inl refl
  Member-cases bigint h = inr (inl refl)
  Member-cases bytes h = inr (inr (inl refl))
  Member-cases path h = inr (inr (inr (inl refl)))
  Member-cases int64 h = inr (inr (inr (inr (inl refl))))
  Member-cases uint64 h = inr (inr (inr (inr (inr (inl refl)))))
  Member-cases uint256 h = inr (inr (inr (inr (inr (inr (inl refl))))))
  Member-cases nc_int64 h = inr (inr (inr (inr (inr (inr (inr (inl refl)))))))
  Member-cases nc_uint32 h = absurd (false≢true h)
  Member-cases nc_uint64 h = absurd (false≢true h)

  AllDecoded : (ks : List Kind) → Type 0
  AllDecoded [] = Unit
  AllDecoded (k ∷ ks) = (is_decoded k ≡ true) × AllDecoded ks

  AllDecoded-Member :
      (ks : List Kind) → AllDecoded ks → (j : Kind) → Member j ks → is_decoded j ≡ true
  unfolding AllDecoded
  AllDecoded-Member [] all j m = absurd m
  AllDecoded-Member (k ∷ ks) (h, all) j (inl eq) = ap is_decoded eq ∙ h
  AllDecoded-Member (k ∷ ks) (h, all) j (inr m) = AllDecoded-Member ks all j m

  AllDecoded-cases : AllDecoded cases
  unfolding AllDecoded
  AllDecoded-cases = (refl, (refl, (refl, (refl, (refl, (refl, (refl, (refl, tt))))))))

  -- A value is decoded from its encoding where the switch has its type; a noncommutative Uint32 or
  -- Uint64 is encoded as well, but decoding it panics. Nil is decoded as nil.
  pub arco_decode-encode :
      (laws : CrdtLaws c) (v : V)
      → (arco_decode 0 (arco_encode none) ≡ decoded none)
        × (arco_decode 0 (arco_encode (some v))
            ≡ (if is_decoded (c.kind v) then decoded (some v) else panics))
  unfolding arco_encode arco_decode decode_kind
  arco_decode-encode laws v =
      let outcome : Decoded (Option V) =
        if is_decoded (c.kind v) then decoded (some v) else panics in
      let read : is_decoded (c.kind v) ≡ true
          → decode_kind (some (c.kind v)) (c.encode v) ≡ outcome =
        λ has. rw has (ap (λ x. decoded (some x)) (laws.decode_as-encode v)) in
      let open_last = arco_decode-append (c.encode v) (c.type_id (c.kind v)) in
      (
        refl,
        elim (Bool-cases (is_decoded (c.kind v))) [
          | inl has ↦
              open_last
              ∙ ap (λ k. decode_kind k (c.encode v))
                  (find_kind-Member laws (c.kind v) cases (Member-cases (c.kind v) has))
              ∙ read has
          | inr lacks ↦
              open_last
              ∙ ap (λ k. decode_kind k (c.encode v))
                  (find_kind-missing laws (c.kind v) cases lacks
                    (AllDecoded-Member cases AllDecoded-cases))
              ∙ (let no_case : panics ≡ outcome = rw lacks refl in no_case)
        ],
      )

-- The codec by the storage that a path goes to.
unfoldable pub storage_encode :
    {V : Type 0} → (V → Decoded Bytes) → (V → Decoded Bytes) → Bytes → V → Decoded Bytes
unfolding should_persist_to_eth
storage_encode eth_codec arco_codec key v =
    if should_persist_to_eth key then eth_codec v else arco_codec v

unfoldable pub storage_decode :
    {V O : Type 0} → (Bytes → V → O) → (Bytes → V → O) → Bytes → Bytes → V → O
unfolding should_persist_to_eth
storage_decode eth_codec arco_codec key buffer hint =
    if should_persist_to_eth key then eth_codec buffer hint else arco_codec buffer hint
