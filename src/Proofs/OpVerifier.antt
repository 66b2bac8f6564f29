-- ===== src/Proofs/OpVerifier.antt =====
-- op/op_verifier.go: the verification of an account's proof and of the proofs of its storage against
-- a state root.
use state_engine.Prelude.{
  ℕ, ◌≡◌, ◌⊎◌, ◌&&◌, Option, none, some, List, [], ◌∷◌, Bytes, bytes_eq, length, ltb, ◌==◌, is_none,
  if◌then◌else◌,
}
use state_engine.Libs.EthLib.{EthLib, Result, ok, err}
use state_engine.Libs.ProofLib.{ProofLib}

-- A number of the proof is not negative.
pub record OptimismStorageProof : Type 0 where
  pub key : Bytes
  pub value : ℕ
  pub proof : List Bytes

pub record OptimismAccountResult : Type 0 where
  pub account_proof : List Bytes
  pub address : Bytes
  pub balance : ℕ
  pub code_hash : Bytes
  pub nonce : ℕ
  pub storage_hash : Bytes
  pub storage_proof : List OptimismStorageProof

-- The errors that the messages tell apart, with the error that they wrap.
pub data VerifyError : Type 0 where
  load_failed : ℕ → VerifyError
  verify_failed : ℕ → VerifyError
  encode_failed : VerifyError
  storage_mismatch : VerifyError
  account_mismatch : VerifyError

abbrev pub or_nil : Option Bytes → Bytes
or_nil none = []
or_nil (some b) = b

module _ (l : EthLib) (p : ProofLib l) where
  -- Small nodes are not hashed.
  unfoldable pub node_key : Bytes → Bytes
  node_key node = if ltb (length node) 32 then node else l.keccak node

  -- The nodes of a proof in a database.
  unfoldable pub load_nodes : List Bytes → p.Db → Result p.Db
  unfolding node_key
  load_nodes [] db = ok db
  load_nodes (node ∷ nodes) db =
      let (x, db) = p.put (node_key node) node db in
      let rest = load_nodes nodes db in elim x [ none ↦ rest | some e ↦ err e ]

  -- `bytes.Equal(val, comparison)`
  unfoldable pub compare_value : Option Bytes → Option Bytes → VerifyError → Option VerifyError
  unfolding bytes_eq
  compare_value val none mismatch = some encode_failed
  compare_value val (some comparison) mismatch =
      if bytes_eq (or_nil val) comparison then none else some mismatch

  unfoldable pub check_value : ℕ → Option Bytes × Option ℕ → Option VerifyError
  unfolding compare_value
  check_value value (val, some e) = some (verify_failed e)
  check_value value (val, none) =
      if is_none val && (value == 0)
      then none
      else compare_value val (p.encode_number value) storage_mismatch

  unfoldable pub verify_loaded : Bytes → OptimismStorageProof → Result p.Db → Option VerifyError
  unfolding check_value
  verify_loaded storage_hash entry (err e) = some (load_failed e)
  verify_loaded storage_hash entry (ok db) =
      check_value entry.value (p.verify_proof storage_hash (l.keccak entry.key) db)

  unfoldable pub verify_entries : Bytes → List OptimismStorageProof → Option VerifyError
  unfolding verify_loaded load_nodes
  verify_entries storage_hash [] = none
  verify_entries storage_hash (entry ∷ entries) =
      let rest = verify_entries storage_hash entries in
      elim (verify_loaded storage_hash entry (load_nodes entry.proof p.new_db)) [
        | none ↦ rest
        | some e ↦ some e
      ]

  unfoldable pub check_account : Bytes → Option Bytes × Option ℕ → Option VerifyError
  unfolding bytes_eq
  check_account claimed (val, some e) = some (verify_failed e)
  check_account claimed (val, none) =
      if bytes_eq claimed (or_nil val) then none else some account_mismatch

  unfoldable pub verify_account : Bytes → Bytes → Bytes → Result p.Db → Option VerifyError
  unfolding check_account
  verify_account state_root address claimed (err e) = some (load_failed e)
  verify_account state_root address claimed (ok db) =
      check_account claimed (p.verify_proof state_root (l.keccak address) db)

  unfoldable pub verify_claim : Bytes → OptimismAccountResult → Option Bytes → Option VerifyError
  unfolding verify_account load_nodes
  verify_claim state_root res none = some encode_failed
  verify_claim state_root res (some claimed) =
      verify_account state_root res.address claimed (load_nodes res.account_proof p.new_db)

  -- `none` is the error nil.
  unfoldable pub verify : Bytes → OptimismAccountResult → Option VerifyError
  unfolding verify_entries verify_claim
  verify state_root res = elim (verify_entries res.storage_hash res.storage_proof) [
    | some e ↦ some e
    | none ↦
        verify_claim state_root res
          (p.encode_claim res.nonce res.balance res.storage_hash res.code_hash)
  ]

  -- What a proof shows of a key under a root.
  abbrev pub Proves : Bytes → Bytes → List Bytes → Option Bytes → Type 0
  Proves root key nodes val =
      (db : p.Db) × (load_nodes nodes p.new_db ≡ ok db)
      × (p.verify_proof root (l.keccak key) db ≡ (val, none))

  -- The proof of an entry gives its value: nothing for 0, or the value's encoding.
  abbrev pub IsProven : Bytes → OptimismStorageProof → Type 0
  IsProven root entry =
      (val : Option Bytes) × Proves root entry.key entry.proof val
      × (((val ≡ none) × (entry.value ≡ 0)) ⊎ (p.encode_number entry.value ≡ some (or_nil val)))

  abbrev pub AllProven : Bytes → List OptimismStorageProof → Type 0
  AllProven root [] = Unit
  AllProven root (entry ∷ entries) = IsProven root entry × AllProven root entries

  -- The account's proof gives the encoding of what the result claims of it.
  abbrev pub IsAccountProven : Bytes → OptimismAccountResult → Type 0
  IsAccountProven root res =
      (val : Option Bytes) × Proves root res.address res.account_proof val
      × (p.encode_claim res.nonce res.balance res.storage_hash res.code_hash ≡ some (or_nil val))
