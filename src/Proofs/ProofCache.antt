-- ===== src/Proofs/ProofCache.antt =====
-- storage/ethstorage/ethtrie_proof_cache.go: the cache of proof providers by root. A provider is a
-- pointer that the cache shares with its callers; a run that panics is `none`.
use state_engine.Prelude.{
  ℕ, suc, Bool, true, false, not, Option, none, some, List, [], ◌∷◌, map, Bytes, bytes_eq, length,
  get_elem?, keep, ltb, ◌==◌, map_get, map_put, if◌then◌else◌, ◌>>=◌,
}
use state_engine.Libs.SliceLib.{firsts}
use state_engine.Libs.EthLib.{Result, ok, err}
use state_engine.Libs.ProofLib.{CacheLib}
use state_engine.EthStorage.World.{EthEnv, World, Ref, load_eth_trie_by_root}

-- `delete(dict, k)`
abbrev pub dict_delete : {A : Type 0} → Bytes → List (Bytes × A) → List (Bytes × A)
dict_delete k m = keep (λ p. not (bytes_eq p.0 k)) m

module _ {V : Type 0} (e : EthEnv V) where
  pub record ProofProvider : Type 0 where
    pub root : Bytes
    pub total_visits : ℕ
    pub visits : ℕ
    pub data_store : World e

  -- `db` is the trie database, with the handles of its disks.
  pub record MerkleProofCache : Type 0 where
    pub max_cached : ℕ
    pub merkle_dict : List (Bytes × Ref)
    pub db : World e
    pub handles : List ℕ
    pub providers : Ref → ProofProvider
    pub next : Ref

  -- `NewProofProvider`, and the provider that the cache makes
  unfoldable pub new_proof_provider : Bytes → World e → ProofProvider
  new_proof_provider root store = record {
    root = root;
    total_visits = 1;
    visits = 1;
    data_store = store;
  }

  unfoldable pub new_merkle_proof_cache :
      ℕ → World e → List ℕ → (Ref → ProofProvider) → Ref → MerkleProofCache
  new_merkle_proof_cache max_cached db handles providers next = record {
    max_cached = max_cached;
    merkle_dict = [];
    db = db;
    handles = handles;
    providers = providers;
    next = next;
  }

  abbrev is_in : Ref → List Ref → Bool
  is_in r [] = false
  is_in r (q ∷ qs) = let later = is_in r qs in if r == q then true else later

  -- `totalVisits++` of every provider of the dictionary, each of which is there once
  unfoldable pub count_visit : MerkleProofCache → MerkleProofCache
  count_visit c = record c {
    providers = λ r.
        if is_in r (map (λ p. p.1) c.merkle_dict)
        then record (c.providers r) {
          total_visits = suc (ProofProvider.total_visits (c.providers r));
        }
        else c.providers r;
  }

  module _ (lib : CacheLib) where
    abbrev pub ratio : ProofProvider → lib.Float
    ratio p = lib.quotient p.visits p.total_visits

    -- The entry with the lowest ratio of visits goes. No entry, or a position out of range, panics.
    unfoldable pub drop_lowest : MerkleProofCache → Option MerkleProofCache
    drop_lowest c =
        let entries = lib.kvs c.merkle_dict in
        let ratios = map (λ p. ratio (c.providers p.1)) entries in
        lib.extreme lib.less ratios >>= λ i. get_elem? (firsts entries) i >>= λ k.
        some (record c { merkle_dict = dict_delete k c.merkle_dict })

    unfoldable pub clean_up : MerkleProofCache → Option MerkleProofCache
    unfolding drop_lowest
    clean_up c =
        let dropped = drop_lowest c in
        if ltb c.max_cached (length c.merkle_dict) then dropped else some c

    unfoldable pub add_provider : Bytes → World e → MerkleProofCache → MerkleProofCache
    unfolding new_proof_provider map_put
    add_provider root store c = record c {
      merkle_dict = map_put root c.next c.merkle_dict;
      providers = λ r. if r == c.next then new_proof_provider root store else c.providers r;
      next = suc c.next;
    }

    unfoldable pub with_loaded :
        Bytes → Result (World e) → MerkleProofCache → Option (Result Ref × MerkleProofCache)
    unfolding add_provider clean_up count_visit
    with_loaded root (err x) c = some (err x, c)
    with_loaded root (ok store) c =
        clean_up (add_provider root store c) >>= λ cleaned. some (ok c.next, count_visit cleaned)

    unfoldable pub get_proof_provider :
        Bytes → MerkleProofCache → Option (Result Ref × MerkleProofCache)
    unfolding with_loaded count_visit map_get load_eth_trie_by_root
    get_proof_provider root c = elim (map_get root c.merkle_dict) [
      | some r ↦ some (ok r, count_visit c)
      | none ↦ with_loaded root (load_eth_trie_by_root e root c.handles c.db) c
    ]
