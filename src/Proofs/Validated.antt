-- ===== src/Proofs/Validated.antt =====
-- `Validate` on what `GetProof` returns.
use state_engine.Prelude.{
  ◌≡◌, refl, sym, subst, suc, ap, ◌∙◌, true, Option, none, some, List, [], ◌∷◌, Bytes, >>=-eq-some,
  ◌>>=◌, ℕ,
}
use state_engine.Libs.EthLib.{EthLib, Result, ok, err}
use state_engine.Libs.ProofLib.{ProofLib}
use state_engine.EthStorage.Backend.{StorageError}
use state_engine.EthStorage.Account.{Account, get_code_hash, get_storage_root}
use state_engine.EthStorage.World.{EthEnv, World, Ref, get_account}
use state_engine.Proofs.ProofCache.{ProofProvider}
use state_engine.Proofs.AccountResult.{
  ProofError, library, StorageResult, AccountResult, checked, verify_loaded, verify_proof,
  account_found, validate_account, validate_entries, validate, proof_array_to_db,
}
use state_engine.Proofs.GetProof.{
  get_account_proof, result_of, proof_from, get_proof, storage_results,
}
use state_engine.Proofs.KeptTrie.{KeepsTrie, get_account-KeepsTrie}

module _ (l : EthLib) (p : ProofLib l) where
  checked-found :
      (found : Option Bytes × Option ℕ) (u : Bytes)
      → checked l p found ≡ some u
      → account_found l p found ≡ true
  unfolding checked account_found
  checked-found (none, x) u h = cc
  checked-found (some [], x) u h = cc
  checked-found (some (c ∷ v), some x) u h = cc
  checked-found (some (c ∷ v), none) u h = refl

  -- An account's proof that `VerifyProof` has checked is the part of a result that `Validate` reads
  -- first.
  validate-verified :
      (root : Bytes) (res : AccountResult) (u : Bytes)
      → verify_proof l p root res.account_proof res.address ≡ some u
      → validate l p root res ≡ validate_entries l p res.storage_hash res.storage_proof
  unfolding validate verify_proof
  validate-verified root res u h =
      let (loaded, e, v) =
        >>=-eq-some (proof_array_to_db l p res.account_proof) (verify_loaded l p root res.address) u
          h in
      rw e (accepts loaded v)
    where
      accepts :
          (loaded : Result p.Db)
          → verify_loaded l p root res.address loaded ≡ some u
          → validate_account l p root res loaded
            ≡ validate_entries l p res.storage_hash res.storage_proof
      accepts (err x) v = cc
      accepts (ok db) v =
          rw (validate_account, checked-found (p.verify_proof root (l.keccak res.address) db) u v)
            refl

module _ {V : Type 0} (e : EthEnv V) (p : ProofLib e.lib) where
  -- What `Validate` makes of a result against the root of a world.
  abbrev pub IsAccepted : World e → AccountResult → Type 0
  IsAccepted w res =
      (t : e.lib.Trie) × (w.world_state_trie ≡ some t)
      × (validate e.lib p (e.lib.hash t) res
          ≡ validate_entries e.lib p res.storage_hash res.storage_proof)

  -- A result without an error is accepted and has the given storage entries.
  abbrev Accepts :
      World e → List StorageResult → Option (Option AccountResult × Option ProofError) → Type 0
  Accepts w results (some (some res, none)) = IsAccepted w res × (res.storage_proof ≡ results)
  Accepts w results _ = Unit

  -- The result that `GetProof` puts together.
  abbrev made : Bytes → Account e.lib → List StorageResult → List Bytes → AccountResult
  made addr a results nodes = record {
    address = addr;
    account_proof = nodes;
    balance = a.state.balance;
    code_hash = get_code_hash e.lib a;
    nonce = a.state.nonce;
    storage_hash = get_storage_root e.lib a;
    storage_proof = results;
  }

  made-Accepts :
      (addr : Bytes) (a : Account e.lib) (w : World e) (results : List StorageResult)
      (nodes : List Bytes) (t : e.lib.Trie) (verified : Option Bytes)
      → w.world_state_trie ≡ some t
      → verify_proof e.lib p (e.lib.hash t) nodes addr ≡ verified
      → Accepts w results (verified >>= λ u. some (some (made addr a results nodes), none))
  made-Accepts addr a w results nodes t none opened h = tt
  made-Accepts addr a w results nodes t (some u) opened h =
      ((t, opened, validate-verified e.lib p (e.lib.hash t) (made addr a results nodes) u h), refl)

  proved-Accepts :
      (addr : Bytes) (a : Account e.lib) (w : World e) (results : List StorageResult)
      (trie : Option e.lib.Trie) (nodes : List Bytes) (x : Option ℕ)
      → w.world_state_trie ≡ trie
      → Accepts w results (
          trie >>= λ t. elim x [
            | some x ↦ some (none, some (library x))
            | none ↦ verify_proof e.lib p (e.lib.hash t) nodes addr >>= λ u.
                some (some (made addr a results nodes), none)
          ])
  proved-Accepts addr a w results none nodes x opened = tt
  proved-Accepts addr a w results (some t) nodes (some x) opened = tt
  proved-Accepts addr a w results (some t) nodes none opened =
      made-Accepts addr a w results nodes t (verify_proof e.lib p (e.lib.hash t) nodes addr) opened
        refl

  result_of-Accepts :
      (addr : Bytes) (a : Account e.lib) (w : World e)
      (out : List StorageResult × Option ProofError)
      → Accepts w out.0 (result_of e p addr a w out)
  unfolding result_of
  result_of-Accepts addr a w (results, some x) = tt
  result_of-Accepts addr a w (results, none) = with_proof (get_account_proof e p addr w)
    where
      with_proof :
          (proof : Option (List Bytes × Option ℕ))
          → Accepts w results (
              proof >>= λ proof. w.world_state_trie >>= λ t. elim proof.1 [
                | some x ↦ some (none, some (library x))
                | none ↦ verify_proof e.lib p (e.lib.hash t) proof.0 addr >>= λ u.
                    some (some (made addr a results proof.0), none)
              ])
      with_proof none = tt
      with_proof (some (nodes, x)) = proved-Accepts addr a w results w.world_state_trie nodes x refl

  -- The account that is proven, and the world in which it was found.
  proof_from-IsAccepted :
      (addr : Bytes) (keys : List Bytes) (found : Option Ref × Option StorageError × World e)
      (res : AccountResult) (x : Option StorageError) (w : World e)
      → proof_from e p addr keys found ≡ some ((some res, none), x, w)
      → IsAccepted found.2 res
        × ((a : Account e.lib) × (res.storage_proof ≡ (storage_results e.lib p a keys).0))
  unfolding proof_from
  proof_from-IsAccepted addr keys (none, y, v) res x w h = cc
  proof_from-IsAccepted addr keys (some r, y, v) res x w h =
      let out = storage_results e.lib p (v.accounts r) keys in
      let (made, e₁, e₂) =
        >>=-eq-some (result_of e p addr (v.accounts r) v out) (λ res. some (res, none, v))
          ((some res, none), x, w) h in
      let same : made ≡ (some res, none) = cc in
      let (accepted, entries) =
        subst (Accepts v out.0) (e₁ ∙ ap some same) (result_of-Accepts addr (v.accounts r) v out) in
      (accepted, (v.accounts r, entries))

  IsAccepted-from :
      (v w : World e) (res : AccountResult)
      → w.world_state_trie ≡ v.world_state_trie
      → IsAccepted w res
      → IsAccepted v res
  IsAccepted-from v w res same (t, opened, accepted) = (t, sym same ∙ opened, accepted)

  IsAccepted-empty :
      (a : Account e.lib) (keys : List Bytes) (w : World e) (res : AccountResult)
      → res.storage_proof ≡ (storage_results e.lib p a keys).0
      → IsAccepted w res
      → keys ≡ []
      → (t : e.lib.Trie) × (w.world_state_trie ≡ some t)
        × (validate e.lib p (e.lib.hash t) res ≡ some none)
  unfolding storage_results
  IsAccepted-empty a keys w res entries (t, opened, accepted) none_asked =
      let empty : res.storage_proof ≡ [] =
        entries ∙ ap (λ ks. (storage_results e.lib p a ks).0) none_asked in
      (
        t,
        opened,
        accepted
            ∙ ap (validate_entries e.lib p res.storage_hash) empty
            ∙ (unfold validate_entries in refl),
      )

  -- `Validate` accepts the account of a result that `GetProof` returns without an error, at the root
  -- of the world trie: what it says is what it says of the storage entries, and nothing is wrong
  -- where no storage key was asked for.
  pub get_proof-validate :
      (addr : Bytes) (keys : List Bytes) (provider after : ProofProvider e) (res : AccountResult)
      (x : Option StorageError)
      → get_proof e p addr keys provider ≡ some ((some res, none), x, after)
      → IsAccepted provider.data_store res
        × (keys ≡ []
            → (t : e.lib.Trie) × (provider.data_store.world_state_trie ≡ some t)
              × (validate e.lib p (e.lib.hash t) res ≡ some none))
  unfolding get_proof
  get_proof-validate addr keys provider after res x h =
      let (found, e₁, h₁) =
        >>=-eq-some (get_account e addr provider.data_store)
          (λ found. proof_from e p addr keys found >>= λ out.
            some
              (out.0, out.1, record provider { visits = suc provider.visits; data_store = out.2 }))
          ((some res, none), x, after) h in
      let (out, e₂, h₂) =
        >>=-eq-some (proof_from e p addr keys found)
          (λ out.
            some
              (out.0, out.1, record provider { visits = suc provider.visits; data_store = out.2 }))
          ((some res, none), x, after) h₁ in
      let kept =
        subst (KeepsTrie e provider.data_store) e₁
          (get_account-KeepsTrie e addr provider.data_store) in
      let returned : out ≡ ((some res, none), x, out.2) = cc in
      let (accepted, (a, entries)) =
        proof_from-IsAccepted addr keys found res x out.2 (e₂ ∙ ap some returned) in
      let here = IsAccepted-from provider.data_store found.2 res kept accepted in
      (here, λ no_keys. IsAccepted-empty a keys provider.data_store res entries here no_keys)
