-- ===== src/Proofs/Soundness.antt =====
-- What a verification of op without an error has shown.
use state_engine.Prelude.{
  ℕ, ◌≡◌, ◌⊎◌, inl, inr, refl, sym, ap, ◌∙◌, Bool, true, false, ◌&&◌, Option, none, some, List, [],
  ◌∷◌, Bytes, bytes_eq, bytes_eq_sound, ◌==◌, is_none, if◌then◌else◌, arith,
}
use state_engine.Libs.EthLib.{EthLib, Result, ok, err}
use state_engine.Libs.ProofLib.{ProofLib}
use state_engine.Proofs.OpVerifier.{
  OptimismStorageProof, OptimismAccountResult, VerifyError, storage_mismatch, account_mismatch,
  or_nil, load_nodes, compare_value, check_value, verify_loaded, verify_entries, check_account,
  verify_account, verify_claim, verify, IsProven, AllProven, IsAccountProven,
}

if-none : {A : Type 0} (b : Bool) (x : A) → (if b then none else some x) ≡ none → b ≡ true
if-none true x h = refl
if-none false x h = absurd cc

if-or :
    {A : Type 0} (b : Bool) (o : Option A)
    → (if b then none else o) ≡ none
    → (b ≡ true) ⊎ (o ≡ none)
if-or true o h = inl refl
if-or false o h = inr h

-- The first error decides.
both-none :
    {A : Type 0} (first rest : Option A)
    → elim first [ none ↦ rest | some e ↦ some e ] ≡ none
    → (first ≡ none) × (rest ≡ none)
both-none none rest h = (refl, h)
both-none (some e) rest h = absurd cc

nil-zero : (val : Option Bytes) (n : ℕ) → (is_none val && (n == 0)) ≡ true → (val ≡ none) × (n ≡ 0)
nil-zero none n h = (refl, ground arith)
nil-zero (some b) n h = absurd cc

module _ (l : EthLib) (p : ProofLib l) where
  compare_value-eq :
      (val enc : Option Bytes) (mismatch : VerifyError)
      → compare_value l p val enc mismatch ≡ none
      → enc ≡ some (or_nil val)
  unfolding compare_value
  compare_value-eq val none mismatch h = absurd cc
  compare_value-eq val (some c) mismatch h =
      ap some (sym (bytes_eq_sound (or_nil val) c (if-none (bytes_eq (or_nil val) c) mismatch h)))

  check_value-shows :
      (value : ℕ) (val : Option Bytes) (x : Option ℕ)
      → check_value l p value (val, x) ≡ none
      → (x ≡ none) × (((val ≡ none) × (value ≡ 0)) ⊎ (p.encode_number value ≡ some (or_nil val)))
  unfolding check_value
  check_value-shows value val (some e) h = absurd cc
  check_value-shows value val none h = (
    refl,
    elim (if-or (is_none val && (value == 0))
        (compare_value l p val (p.encode_number value) storage_mismatch) h) [
          | inl nil ↦ inl (nil-zero val value nil)
          | inr same ↦ inr (compare_value-eq val (p.encode_number value) storage_mismatch same)
        ],
  )

  verify_loaded-IsProven :
      (root : Bytes) (entry : OptimismStorageProof) (loaded : Result p.Db)
      → load_nodes l p entry.proof p.new_db ≡ loaded
      → verify_loaded l p root entry loaded ≡ none
      → IsProven l p root entry
  unfolding verify_loaded
  verify_loaded-IsProven root entry (err e) eq h = absurd cc
  verify_loaded-IsProven root entry (ok db) eq h =
      let read = p.verify_proof root (l.keccak entry.key) db in
      let (clean, shown) = check_value-shows entry.value read.0 read.1 h in
      (read.0, (db, eq, ap (λ x. (read.0, x)) clean), shown)

  -- The first entry passes, and so do the others.
  verify_entries-split :
      (root : Bytes) (entry : OptimismStorageProof) (entries : List OptimismStorageProof)
      → verify_entries l p root (entry ∷ entries) ≡ none
      → (verify_loaded l p root entry (load_nodes l p entry.proof p.new_db) ≡ none)
        × (verify_entries l p root entries ≡ none)
  unfolding verify_entries
  verify_entries-split root entry entries h =
      both-none (verify_loaded l p root entry (load_nodes l p entry.proof p.new_db))
        (verify_entries l p root entries) h

  verify_entries-AllProven :
      (root : Bytes) (entries : List OptimismStorageProof)
      → verify_entries l p root entries ≡ none
      → AllProven l p root entries
  verify_entries-AllProven root [] h = tt
  verify_entries-AllProven root (entry ∷ entries) h =
      let (first, rest) = verify_entries-split root entry entries h in
      (
        verify_loaded-IsProven root entry (load_nodes l p entry.proof p.new_db) refl first,
        verify_entries-AllProven root entries rest,
      )

  check_account-shows :
      (claimed : Bytes) (val : Option Bytes) (x : Option ℕ)
      → check_account l p claimed (val, x) ≡ none
      → (x ≡ none) × (claimed ≡ or_nil val)
  unfolding check_account
  check_account-shows claimed val (some e) h = absurd cc
  check_account-shows claimed val none h = (
    refl,
    bytes_eq_sound claimed (or_nil val)
        (if-none (bytes_eq claimed (or_nil val)) account_mismatch h),
  )

  verify_account-IsAccountProven :
      (root : Bytes) (res : OptimismAccountResult) (claimed : Bytes) (loaded : Result p.Db)
      → p.encode_claim res.nonce res.balance res.storage_hash res.code_hash ≡ some claimed
      → load_nodes l p res.account_proof p.new_db ≡ loaded
      → verify_account l p root res.address claimed loaded ≡ none
      → IsAccountProven l p root res
  unfolding verify_account
  verify_account-IsAccountProven root res claimed (err e) enc eq h = absurd cc
  verify_account-IsAccountProven root res claimed (ok db) enc eq h =
      let read = p.verify_proof root (l.keccak res.address) db in
      let (clean, same) = check_account-shows claimed read.0 read.1 h in
      (read.0, (db, eq, ap (λ x. (read.0, x)) clean), enc ∙ ap some same)

  verify_claim-IsAccountProven :
      (root : Bytes) (res : OptimismAccountResult) (claim : Option Bytes)
      → p.encode_claim res.nonce res.balance res.storage_hash res.code_hash ≡ claim
      → verify_claim l p root res claim ≡ none
      → IsAccountProven l p root res
  unfolding verify_claim
  verify_claim-IsAccountProven root res none enc h = absurd cc
  verify_claim-IsAccountProven root res (some claimed) enc h =
      verify_account-IsAccountProven root res claimed (load_nodes l p res.account_proof p.new_db)
        enc refl h

  -- A result that is verified without an error is proven: the proof of every storage entry gives the
  -- entry's value, that is, nothing for the value 0 or else its encoding, under the storage hash,
  -- and the account's proof gives the encoding of the nonce, balance, storage hash and code hash
  -- under the state root.
  pub verify-proven :
      (state_root : Bytes) (res : OptimismAccountResult)
      → verify l p state_root res ≡ none
      → AllProven l p res.storage_hash res.storage_proof × IsAccountProven l p state_root res
  unfolding verify
  verify-proven state_root res h =
      let claim = p.encode_claim res.nonce res.balance res.storage_hash res.code_hash in
      let (entries, account) =
        both-none (verify_entries l p res.storage_hash res.storage_proof)
          (verify_claim l p state_root res claim) h in
      (
        verify_entries-AllProven res.storage_hash res.storage_proof entries,
        verify_claim-IsAccountProven state_root res claim refl account,
      )
