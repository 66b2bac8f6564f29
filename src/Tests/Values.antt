-- ===== src/Tests/Values.antt =====
-- The theorems on the codec of the execution storage, with values that are their encodings.
use state_engine.Prelude.{
  ℕ, ◌≡◌, refl, sym, ap, ◌∙◌, none, some, List, [], ◌∷◌, Bytes, ◌==◌, if◌then◌else◌,
}
use state_engine.Codec.{decoded}
use state_engine.Codec.Arco
use state_engine.Codec.Arco.{
  Kind, CrdtLib, CrdtLaws, arco_encode, arco_decode, is_decoded, arco_decode-encode,
}

abbrev id : Kind → ℕ
id Arco.string = 1
id Arco.bigint = 2
id Arco.bytes = 3
id Arco.path = 4
id Arco.int64 = 5
id Arco.uint64 = 6
id Arco.uint256 = 7
id Arco.nc_int64 = 8
id Arco.nc_uint32 = 9
id Arco.nc_uint64 = 10

abbrev kinds : List Kind
kinds =
    Arco.string ∷ Arco.bigint ∷ Arco.bytes ∷ Arco.path ∷ Arco.int64 ∷ Arco.uint64 ∷ Arco.uint256
    ∷ Arco.nc_int64 ∷ Arco.nc_uint32 ∷ Arco.nc_uint64 ∷ []

abbrev kind_at : List Kind → ℕ → Kind
kind_at [] n = Arco.string
kind_at (k ∷ ks) n = let later = kind_at ks n in if id k == n then k else later

kind_at-id : (k : Kind) → kind_at kinds (id k) ≡ k
kind_at-id Arco.string = refl
kind_at-id Arco.bigint = refl
kind_at-id Arco.bytes = refl
kind_at-id Arco.path = refl
kind_at-id Arco.int64 = refl
kind_at-id Arco.uint64 = refl
kind_at-id Arco.uint256 = refl
kind_at-id Arco.nc_int64 = refl
kind_at-id Arco.nc_uint32 = refl
kind_at-id Arco.nc_uint64 = refl

-- A value is its type with its encoding.
abbrev crdt : CrdtLib (Kind × Bytes)
crdt = record { kind = λ v. v.0; type_id = id; encode = λ v. v.1; decode_as = λ k b. (k, b) }

crdt-CrdtLaws : CrdtLaws crdt
crdt-CrdtLaws = record {
  type_id-inj = λ j k h. sym (kind_at-id j) ∙ ap (kind_at kinds) h ∙ kind_at-id k;
  decode_as-encode = λ v. refl;
}

arco_decode-encode_example :
    (arco_decode crdt 0 (arco_encode crdt none) ≡ decoded none)
    × (arco_decode crdt 0 (arco_encode crdt (some (Arco.uint64, 7 ∷ [])))
        ≡ decoded (some (Arco.uint64, 7 ∷ [])))
arco_decode-encode_example = arco_decode-encode crdt crdt-CrdtLaws (Arco.uint64, 7 ∷ [])
