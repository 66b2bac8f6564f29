-- ===== src/Proofs/AccountResult.antt =====
-- storage/ethstorage: ethtrie_types.go, ethtrie_util.go, the proofs of eth_account.go and
-- eth_world_state.go, and `GetProof` of ethtrie_storage_proof.go. A run that panics is `none`.
use state_engine.Prelude.{
  ℕ, zero, suc, ◌-◌, ◌%◌, Bool, true, false, ◌||◌, Option, none, some, List, [], ◌∷◌, ◌++◌, map,
  Bytes, codes, has_prefix, length, drop, ltb, ◌==◌, if◌then◌else◌, ◌>>=◌,
}
use state_engine.Libs.EthLib.{EthLib, Result, ok, err}
use state_engine.Libs.ProofLib.{ProofLib}
use state_engine.Builder.{hex_decode}

pub data ProofError : Type 0 where
  library : ℕ → ProofError
  invalid_hex : ProofError
  too_long : ℕ → ProofError
  not_found : ProofError
  not_verified : ProofError

pub record StorageResult : Type 0 where
  pub key : Bytes
  pub value : ℕ
  pub proof : List Bytes

pub record AccountResult : Type 0 where
  pub address : Bytes
  pub account_proof : List Bytes
  pub balance : ℕ
  pub code_hash : Bytes
  pub nonce : ℕ
  pub storage_hash : Bytes
  pub storage_proof : List StorageResult

-- `BytesToHash` of at most 32 bytes: zeros in front.
unfoldable pub pad : ℕ → Bytes → Bytes
pad zero b = b
pad (suc n) b = 0 ∷ pad n b

-- `decodeHash`: the hash and the length of the input.
unfoldable pub decoded_hash : Option Bytes → (Bytes × ℕ) × Option ProofError
unfolding pad
decoded_hash none = ((pad 32 [], 0), some invalid_hex)
decoded_hash (some b) =
    if ltb 32 (length b)
    then ((pad 32 [], length b), some (too_long (length b)))
    else ((pad (32 - length b) b, length b), none)

abbrev even_hex : Bytes → Bytes
even_hex s = if length s % 2 == 1 then codes "0" ++ s else s

unfoldable pub decode_hash : Bytes → (Bytes × ℕ) × Option ProofError
unfolding decoded_hash hex_decode has_prefix
decode_hash s =
    let digits = if has_prefix s (codes "0x") || has_prefix s (codes "0X") then drop 2 s else s in
    decoded_hash (hex_decode (even_hex digits))

-- `bytes.Equal` of data that may be nil
abbrev pub or_nil : Option Bytes → Bytes
or_nil none = []
or_nil (some b) = b

module _ (l : EthLib) (p : ProofLib l) where
  -- `proofList.Put` for every node
  abbrev pub proof_list : List Bytes → List Bytes
  proof_list nodes = map p.encode nodes

  -- The nodes of a proof, decoded from their texts, under keys that a text and its node give.
  unfoldable pub put_proof : (Bytes → Bytes → Bytes) → List Bytes → p.Db → Option (Result p.Db)
  put_proof key [] db = some (ok db)
  put_proof key (text ∷ texts) db = l.decode text >>= λ node.
      (let (x, db) = p.put (key text node) node db in
        let rest = put_proof key texts db in elim x [ none ↦ rest | some e ↦ some (err e) ])

  abbrev pub node_key : Bytes → Bytes → Bytes
  node_key text node = if ltb (length node) 32 then node else l.keccak node

  unfoldable pub proof_array_to_db : List Bytes → Option (Result p.Db)
  unfolding put_proof
  proof_array_to_db proofs = put_proof node_key proofs p.new_db

  -- `VerifyProof`: it panics unless the proof gives data, which are its result here.
  unfoldable pub checked : Option Bytes × Option ℕ → Option Bytes
  checked (some (c ∷ data_read), none) = some (c ∷ data_read)
  checked _ = none

  unfoldable pub verify_loaded : Bytes → Bytes → Result p.Db → Option Bytes
  unfolding checked
  verify_loaded root addr (err e) = none
  verify_loaded root addr (ok db) = checked (p.verify_proof root (l.keccak addr) db)

  unfoldable pub verify_proof : Bytes → List Bytes → Bytes → Option Bytes
  unfolding proof_array_to_db verify_loaded
  verify_proof root proof addr = proof_array_to_db proof >>= verify_loaded root addr

  -- `Validate` decides by the length of the text, and gives a short one the nil key.
  abbrev text_key : Bytes → Bytes → Bytes
  text_key text node = if ltb (length text) 32 then [] else l.keccak node

  abbrev is_absent : Option Bytes × Option ℕ → Option ProofError
  is_absent (some v, none) = none
  is_absent _ = some not_verified

  unfoldable pub validate_loaded : Bytes → StorageResult → Result p.Db → Option (Option ProofError)
  validate_loaded storage_hash entry (err e) = some (some (library e))
  validate_loaded storage_hash entry (ok db) = l.decode entry.key >>= λ decoded.
      some (is_absent (p.verify_proof storage_hash (l.keccak decoded) db))

  unfoldable pub validate_entries : Bytes → List StorageResult → Option (Option ProofError)
  unfolding validate_loaded put_proof
  validate_entries storage_hash [] = some none
  validate_entries storage_hash (entry ∷ entries) =
      let rest = validate_entries storage_hash entries in
      put_proof text_key entry.proof p.new_db >>= λ loaded.
      validate_loaded storage_hash entry loaded >>= λ x. elim x [
        | none ↦ rest
        | some e ↦ some (some e)
      ]

  -- The value of an account is neither nil nor empty.
  unfoldable pub account_found : Option Bytes × Option ℕ → Bool
  account_found (some (c ∷ v), none) = true
  account_found _ = false

  unfoldable pub validate_account : Bytes → AccountResult → Result p.Db → Option (Option ProofError)
  unfolding account_found validate_entries
  validate_account root res (err e) = some (some (library e))
  validate_account root res (ok db) =
      let entries = validate_entries res.storage_hash res.storage_proof in
      if account_found (p.verify_proof root (l.keccak res.address) db)
      then entries
      else some (some not_verified)

  -- `AccountResult.Validate`
  unfoldable pub validate : Bytes → AccountResult → Option (Option ProofError)
  unfolding validate_account proof_array_to_db
  validate root res = proof_array_to_db res.account_proof >>= validate_account root res

  -- `IsAccountProvable`: an address that cannot be decoded is that of no bytes.
  unfoldable pub provable_value : Option Bytes × Option ℕ → Option Bytes × Option ProofError
  unfolding account_found
  provable_value (v, x) = (v, if account_found (v, x) then none else some not_verified)

  unfoldable pub proved_into : Bytes → Bytes → Option ℕ × p.Db → Option Bytes × Option ProofError
  unfolding provable_value
  proved_into root key (some e, db) = (none, some (library e))
  proved_into root key (none, db) = provable_value (p.verify_proof root key db)

  unfoldable pub is_account_provable : Bytes → Bytes → l.Trie → Option Bytes × Option ProofError
  unfolding proved_into
  is_account_provable addr root trie =
      let key = l.keccak (or_nil (l.decode addr)) in
      if length (l.get trie key).0 == 0
      then (none, some not_found)
      else proved_into root key (p.prove_into trie key p.new_db)
