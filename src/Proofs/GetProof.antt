-- ===== src/Proofs/GetProof.antt =====
-- storage/ethstorage: `IsAccountStorageProvable` of eth_account.go, `GetAccountProof` of
-- eth_world_state.go and `GetProof` of ethtrie_storage_proof.go. A run that panics is `none`.
use state_engine.Prelude.{
  ℕ, suc, ◌%◌, ◌^◌, Option, none, some, List, [], ◌∷◌, Bytes, bytes_eq, ◌==◌, is_none, ◌&&◌,
  if◌then◌else◌, ◌>>=◌,
}
use state_engine.Libs.EthLib.{EthLib, Result, ok, err}
use state_engine.Libs.ProofLib.{ProofLib}
use state_engine.Codec.{set_bytes}
use state_engine.EthStorage.Backend.{StorageError}
use state_engine.EthStorage.Account.{Account, get_storage_root, get_code_hash}
use state_engine.EthStorage.World.{EthEnv, World, Ref, get_account}
use state_engine.Proofs.ProofCache.{ProofProvider}
use state_engine.Proofs.AccountResult.{
  ProofError, library, not_found, StorageResult, AccountResult, decode_hash, or_nil, proof_list,
  proof_array_to_db, verify_proof,
}

-- Data, a proof and an error.
abbrev pub Provable : Type 0
Provable = Bytes × List Bytes × Option ProofError

module _ (l : EthLib) (p : ProofLib l) where
  unfoldable pub compare_data : Bytes → List Bytes → Option Bytes × Option ℕ → Provable
  unfolding bytes_eq
  compare_data data_read proofs (v, x) =
      if is_none x && bytes_eq (or_nil v) data_read
      then (data_read, proofs, none)
      else ([], proofs, some not_found)

  unfoldable pub provable_in : Bytes → Bytes → Bytes → List Bytes → Result p.Db → Provable
  unfolding compare_data
  provable_in root key data_read proofs (err e) = ([], proofs, some (library e))
  provable_in root key data_read proofs (ok db) =
      compare_data data_read proofs (p.verify_proof root key db)

  unfoldable pub provable_data :
      Bytes → Bytes → Bytes × Option ℕ → List Bytes × Option ℕ → Option Provable
  unfolding provable_in proof_array_to_db
  provable_data root key ([], x) proved = some ([], [], some not_found)
  provable_data root key (c ∷ v, some e) proved = some ([], [], some not_found)
  provable_data root key (c ∷ v, none) (nodes, some e) =
      some ([], proof_list l p nodes, some (library e))
  provable_data root key (c ∷ v, none) (nodes, none) =
      proof_array_to_db l p (proof_list l p nodes) >>= λ db.
      some (provable_in root key (c ∷ v) (proof_list l p nodes) db)

  unfoldable pub is_account_storage_provable : Bytes → Account l → Option Provable
  unfolding provable_data decode_hash
  is_account_storage_provable key a =
      let (hash, x) = decode_hash key in
      let storage_key = l.keccak hash.0 in
      elim x [
        | some e ↦ some ([], [], some e)
        | none ↦ a.storage_trie >>= λ t.
            provable_data a.state.root storage_key (l.get t storage_key) (p.prove t storage_key)
      ]

  -- The proof of one storage key, or an error.
  abbrev output_key : Bytes × ℕ → Bytes
  output_key (hash, size) = if size == 32 then p.encode hash else p.encode_big hash

  unfoldable pub proved_key :
      Bytes → Bytes × Option ℕ → List Bytes × Option ℕ → StorageResult × Option ProofError
  proved_key key (v, x) (nodes, e) = (
    record {
      key = key;
      value = set_bytes 0 (or_nil (p.decode_bytes v)) % 2 ^ 256;
      proof = proof_list l p nodes;
    },
    elim e [ none ↦ none | some e ↦ some (library e) ],
  )

  unfoldable pub storage_result :
      Account l → (Bytes × ℕ) × Option ProofError → StorageResult × Option ProofError
  unfolding proved_key
  storage_result a (hash, some e) = (record { key = []; value = 0; proof = [] }, some e)
  storage_result a (hash, none) =
      let key = l.keccak hash.0 in
      elim a.storage_trie [
        | none ↦ (record { key = output_key hash; value = 0; proof = [] }, none)
        | some t ↦ proved_key (output_key hash) (l.get t key) (p.prove t key)
      ]

  -- The first error ends the loop.
  unfoldable pub storage_results : Account l → List Bytes → List StorageResult × Option ProofError
  unfolding storage_result decode_hash
  storage_results a [] = ([], none)
  storage_results a (k ∷ ks) =
      let rest = storage_results a ks in
      let (out, x) = storage_result a (decode_hash k) in
      elim x [ none ↦ (out ∷ rest.0, rest.1) | some e ↦ ([], some e) ]

module _ {V : Type 0} (e : EthEnv V) (p : ProofLib e.lib) where
  abbrev account_proof : Bytes × Option ℕ → List Bytes × Option ℕ → List Bytes × Option ℕ
  account_proof ([], x) proved = ([], none)
  account_proof (c ∷ v, x) (nodes, y) = (proof_list e.lib p nodes, y)

  unfoldable pub get_account_proof : Bytes → World e → Option (List Bytes × Option ℕ)
  get_account_proof addr w = w.world_state_trie >>= λ t.
      (let key = e.lib.keccak addr in some (account_proof (e.lib.get t key) (p.prove t key)))

  -- What follows the proofs of the storage keys.
  unfoldable pub result_of :
      Bytes
      → Account e.lib
      → World e
      → List StorageResult × Option ProofError
      → Option (Option AccountResult × Option ProofError)
  unfolding get_account_proof verify_proof get_storage_root get_code_hash
  result_of addr a w (results, some x) = some (none, some x)
  result_of addr a w (results, none) = get_account_proof addr w >>= λ proof.
      w.world_state_trie >>= λ t. elim proof.1 [
        | some x ↦ some (none, some (library x))
        | none ↦ verify_proof e.lib p (e.lib.hash t) proof.0 addr >>= λ u. some (
          some (record {
            address = addr;
            account_proof = proof.0;
            balance = a.state.balance;
            code_hash = get_code_hash e.lib a;
            nonce = a.state.nonce;
            storage_hash = get_storage_root e.lib a;
            storage_proof = results;
          }),
          none,
        )
      ]

  -- No account is nil with the error of the lookup, which may be nil as well.
  unfoldable pub proof_from :
      Bytes
      → List Bytes
      → Option Ref × Option StorageError × World e
      → Option ((Option AccountResult × Option ProofError) × Option StorageError × World e)
  unfolding storage_results result_of
  proof_from addr keys (none, x, w) = some ((none, none), x, w)
  proof_from addr keys (some r, x, w) =
      result_of addr (w.accounts r) w (storage_results e.lib p (w.accounts r) keys) >>= λ res.
      some (res, none, w)

  -- `GetProof`, which counts a visit of the provider.
  unfoldable pub get_proof :
      Bytes
      → List Bytes
      → ProofProvider e
      → Option ((Option AccountResult × Option ProofError) × Option StorageError × ProofProvider e)
  unfolding proof_from get_account
  get_proof addr keys provider = get_account e addr provider.data_store >>= λ found.
      proof_from addr keys found >>= λ out.
      some (out.0, out.1, record provider { visits = suc provider.visits; data_store = out.2 })
