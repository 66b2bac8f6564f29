-- ===== src/Proofs/CacheBound.antt =====
-- The size of the cache of proof providers.
use state_engine.Prelude.{
  ℕ, zero, suc, ◌≤◌, ◌<◌, ◌≡◌, inl, inr, refl, sym, ap, ◌∙◌, true, some, List, [], ◌∷◌, map, Bytes,
  bytes_eq, bytes_eq_refl, length, get_elem?, ltb, map_get, map_put, ◌>>=◌, Bool-cases,
  Option-cases, arith,
}
use state_engine.Libs.SliceLib.{firsts}
use state_engine.Libs.Search.{Member}
use state_engine.Libs.EthLib.{Result, ok, err}
use state_engine.Libs.ProofLib.{CacheLib, CacheLaws}
use state_engine.EthStorage.World.{EthEnv, World, Ref, load_eth_trie_by_root}
use state_engine.Proofs.ProofCache.{
  MerkleProofCache, ratio, dict_delete, drop_lowest, clean_up, add_provider, count_visit,
  with_loaded, get_proof_provider,
}

length-map_list : {A B : Type 0} (f : A → B) (xs : List A) → length (map f xs) ≡ length xs
length-map_list f [] = refl
length-map_list f (x ∷ xs) = ap suc (length-map_list f xs)

get_elem?-Member :
    {A : Type 0} (xs : List A) (i : ℕ)
    → i < length xs
    → (x : A) × (get_elem? xs i ≡ some x) × Member x xs
get_elem?-Member [] i h = absurd (omega arith)
get_elem?-Member (x ∷ xs) zero h = (x, refl, inl refl)
get_elem?-Member (x ∷ xs) (suc i) h =
    let (y, at, m) = get_elem?-Member xs i (omega arith) in (y, at, inr m)

length-map_put :
    {A : Type 0} (k : Bytes) (v : A) (m : List (Bytes × A))
    → length (map_put k v m) ≤ suc (length m)
unfolding map_put
length-map_put k v [] = omega arith
length-map_put k v ((j, w) ∷ m) = let ih = length-map_put k v m in ground arith

length-dict_delete_le :
    {A : Type 0} (k : Bytes) (m : List (Bytes × A)) → length (dict_delete k m) ≤ length m
length-dict_delete_le k [] = omega arith
length-dict_delete_le k ((j, w) ∷ m) = let ih = length-dict_delete_le k m in ground arith

length-dict_delete :
    {A : Type 0} (k : Bytes) (m : List (Bytes × A))
    → Member k (firsts m)
    → length (dict_delete k m) < length m
length-dict_delete k [] h = absurd h
length-dict_delete k ((j, w) ∷ m) (inl eq) =
    let le = length-dict_delete_le k m in
    let same : bytes_eq j k ≡ true = ap (λ x. bytes_eq x k) (sym eq) ∙ bytes_eq_refl k in
    rw same (omega arith)
length-dict_delete k ((j, w) ∷ m) (inr h) = let ih = length-dict_delete k m h in ground arith

module _ {V : Type 0} (e : EthEnv V) (lib : CacheLib) (laws : CacheLaws lib) where
  -- The providers that the cache holds are within its capacity.
  abbrev pub IsBounded : MerkleProofCache e → Type 0
  IsBounded c = length c.merkle_dict ≤ c.max_cached

  -- The position of the lowest ratio is that of a key.
  lowest :
      (f : Bytes × Ref → lib.Float) (entries : List (Bytes × Ref))
      → 0 < length entries
      → (i : ℕ) × (k : Bytes) × (lib.extreme lib.less (map f entries) ≡ some i)
        × (get_elem? (firsts entries) i ≡ some k)
        × Member k (firsts entries)
  lowest f [] h = absurd (omega arith)
  lowest f (x ∷ xs) h =
      let (i, found, small) = laws.extreme-place lib.less (f x) (map f xs) in
      let sizes = length-map_list f xs in
      let keys = length-map_list (λ (p : Bytes × Ref). p.0) xs in
      let (k, at, member) = get_elem?-Member (firsts (x ∷ xs)) i (omega arith) in
      (i, k, found, at, member)

  drop_lowest-length :
      (c : MerkleProofCache e)
      → 0 < length c.merkle_dict
      → (d : MerkleProofCache e) × (drop_lowest e lib c ≡ some d)
        × (length d.merkle_dict < length c.merkle_dict)
        × (d.max_cached ≡ c.max_cached)
  unfolding drop_lowest
  drop_lowest-length c some_entry =
      let entries = lib.kvs c.merkle_dict in
      let size = laws.length-kvs c.merkle_dict in
      let (i, k, found, at, member) =
        lowest (λ p. ratio e lib (c.providers p.1)) entries (omega arith) in
      (
        record c { merkle_dict = dict_delete k c.merkle_dict },
        rw (found, at) refl,
        length-dict_delete k c.merkle_dict (laws.kvs-from c.merkle_dict k member),
        refl,
      )

  clean_up-IsBounded :
      (c : MerkleProofCache e)
      → length c.merkle_dict ≤ suc c.max_cached
      → (d : MerkleProofCache e) × (clean_up e lib c ≡ some d)
        × IsBounded d
        × (d.max_cached ≡ c.max_cached)
  unfolding clean_up
  clean_up-IsBounded c size = elim (Bool-cases (ltb c.max_cached (length c.merkle_dict))) [
    | inl full ↦
        let (d, eq, shorter, same) = drop_lowest-length c (ground arith) in
        (d, (rw (clean_up, full) eq), omega (arith, same), same)
    | inr few ↦ (c, rw (clean_up, few) refl, ground arith, refl)
  ]

  with_loaded-IsBounded :
      (root : Bytes) (loaded : Result (World e)) (c : MerkleProofCache e)
      → IsBounded c
      → (out : Result Ref) × (d : MerkleProofCache e) × (with_loaded e lib root loaded c
          ≡ some (out, d))
        × IsBounded d
        × (d.max_cached ≡ c.max_cached)
  unfolding with_loaded add_provider count_visit
  with_loaded-IsBounded root (err x) c bounded = (err x, c, refl, bounded, refl)
  with_loaded-IsBounded root (ok store) c bounded =
      let put = length-map_put root c.next c.merkle_dict in
      let (d, eq, small, same) =
        clean_up-IsBounded (add_provider e lib root store c) (omega arith) in
      (
        ok c.next,
        count_visit e d,
        ap (λ o. o >>= λ cleaned. some (ok c.next, count_visit e cleaned)) eq,
        small,
        same,
      )

  -- `GetProofProvider` neither panics nor lets a cache within its capacity grow beyond it, whatever
  -- entry the lowest ratio picks, and it leaves the capacity as it is.
  pub get_proof_provider-IsBounded :
      (root : Bytes) (c : MerkleProofCache e)
      → IsBounded c
      → (out : Result Ref) × (d : MerkleProofCache e) × (get_proof_provider e lib root c
          ≡ some (out, d))
        × IsBounded d
        × (d.max_cached ≡ c.max_cached)
  unfolding get_proof_provider count_visit
  get_proof_provider-IsBounded root c bounded = elim (Option-cases (map_get root c.merkle_dict)) [
    | inl missing ↦
        let (out, d, eq, small, same) =
          with_loaded-IsBounded root (load_eth_trie_by_root e root c.handles c.db) c bounded in
        (out, d, (rw (get_proof_provider, missing) eq), small, same)
    | inr (r, found) ↦ (ok r, count_visit e c, rw (get_proof_provider, found) refl, bounded, refl)
  ]
