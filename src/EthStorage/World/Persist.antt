-- ===== src/EthStorage/World/Persist.antt =====
-- storage/ethstorage/eth_world_state.go: `WriteWorldTrie`, `persistToEthStore` and the roots of the
-- last blocks. A run that panics is `none`.
use state_engine.Prelude.{
  ℕ, zero, suc, not, Option, none, some, List, [], ◌∷◌, ◌++◌, map, Bytes, length, keep, ltb, ◌==◌,
  map_get, map_put, if◌then◌else◌, ◌>>=◌,
}
use state_engine.Libs.EthLib.{joined}
use state_engine.EthStorage.Backend.{library, commit_trie}
use state_engine.EthStorage.Account
use state_engine.EthStorage.World.{EthEnv, World, Ref, store_account}

-- The roots by block number: a Go map.
abbrev pub Roots : Type 0
Roots = List (ℕ × Bytes)

unfoldable pub root_get : ℕ → Roots → Option Bytes
root_get n [] = none
root_get n ((m, root) ∷ rs) = let later = root_get n rs in if m == n then some root else later

unfoldable pub root_put : ℕ → Bytes → Roots → Roots
root_put n root [] = (n, root) ∷ []
root_put n root ((m, old) ∷ rs) =
    let later = root_put n root rs in if m == n then (n, root) ∷ rs else (m, old) ∷ later

-- `delete(this.blockRoots, n)`
abbrev pub root_delete : ℕ → Roots → Roots
root_delete n rs = keep (λ r. not (r.0 == n)) rs

-- `_, minBlockNum := slice.Min(keys)`
unfoldable pub oldest : (ℕ → List ℕ → ℕ) → List ℕ → Option ℕ
oldest min_of [] = none
oldest min_of (k ∷ ks) = some (min_of k ks)

abbrev pub max_roots : ℕ
max_roots = 1024

-- What the map lacks has the zero hash.
abbrev zero_hash : ℕ → Bytes
zero_hash zero = []
zero_hash (suc n) = 0 ∷ zero_hash n

abbrev pub or_zero_hash : Option Bytes → Bytes
or_zero_hash none = zero_hash 32
or_zero_hash (some root) = root

-- Pointers of one account together, under its address.
abbrev appended : {A : Type 0} → Option (List A) → A → List A
appended none r = r ∷ []
appended (some rs) r = rs ++ r ∷ []

abbrev pub to_list : {A : Type 0} → Option A → List A
to_list none = []
to_list (some x) = x ∷ []

module _ {V : Type 0} (e : EthEnv V) where
  -- The accounts as they are when the function is called.
  unfoldable pub write_world_trie : List Ref → World e → Option (Bytes × World e)
  unfolding joined
  write_world_trie dirty w = w.world_state_trie >>= λ t.
      (let encoded_addrs = e.slices.transform (λ r. e.lib.keccak ((w.accounts r).addr)) dirty in
        let encoded_accts = e.slices.transform (λ r. Account.encode e.lib (w.accounts r)) dirty in
        let (errs, t) = e.lib.parallel_update encoded_addrs encoded_accts t in
        some (
          e.lib.hash t,
          record w { world_state_trie = some t; db_err = w.db_err ++ map library (joined errs) },
        ))

  -- The loop `for len(this.blockRoots) >= 1024`, on fuel; `none` is out of fuel.
  unfoldable pub evict : ℕ → Roots → Option Roots
  unfolding oldest
  evict zero rs = none
  evict (suc fuel) rs =
      if ltb (length rs) max_roots then some rs else elim (oldest e.maps.min_of (e.maps.keys rs)) [
        | none ↦ none
        | some n ↦ evict fuel (root_delete n rs)
      ]

  -- What becomes of the roots: the oldest make room for the root of the block.
  unfoldable pub remember : ℕ → Bytes → Roots → Option Roots
  unfolding evict root_put
  remember block root rs = evict (suc (length rs)) rs >>= λ kept. some (root_put block root kept)

  unfoldable pub group_accounts :
      List (Option Ref) → (Ref → Bytes) → List (Bytes × List Ref) → List (Bytes × List Ref)
  unfolding map_get map_put
  group_accounts [] addr groups = groups
  group_accounts (none ∷ rs) addr groups = group_accounts rs addr groups
  group_accounts (some r ∷ rs) addr groups =
      group_accounts rs addr (map_put (addr r) (appended (map_get (addr r) groups) r) groups)

  -- The commits of the accounts of one group, in order.
  unfoldable pub commit_group : ℕ → List Ref → World e → Option (World e)
  unfolding Account.commit store_account
  commit_group block [] w = some w
  commit_group block (r ∷ rs) w = Account.commit e.lib block w.dbs (w.accounts r) >>= λ done.
      commit_group block rs
        (record (store_account e r done.1 w) { dbs = done.2; db_err = w.db_err ++ to_list done.0 })

  -- The groups run in parallel on different accounts; the model takes them in the order of the map.
  unfoldable pub commit_groups : ℕ → List (List Ref) → World e → Option (World e)
  unfolding commit_group
  commit_groups block [] w = some w
  commit_groups block (g ∷ gs) w = commit_group block g w >>= λ w. commit_groups block gs w

  -- `this.trieDB.Commit(this.worldStateTrie, blockNum)`
  unfoldable pub commit_world : ℕ → World e → Option (World e)
  unfolding commit_trie
  commit_world block w = w.world_state_trie >>= λ t.
      (let (done, dbs) = commit_trie e.lib t block w.dbs in
        some (record w {
          world_state_trie = done.trie;
          dbs = dbs;
          db_err = w.db_err ++ to_list done.error;
        }))

  -- The error returned is `dbErr`.
  unfoldable pub persist_to_eth_store : ℕ → List (Option Ref) → World e → Option (World e)
  unfolding remember group_accounts commit_groups commit_world
  persist_to_eth_store block dirty w = w.world_state_trie >>= λ t.
      remember block (e.lib.hash t) w.block_roots >>= λ roots.
      (let w = record w { block_roots = roots } in
        let groups = group_accounts dirty (λ r. (w.accounts r).addr) [] in
        commit_groups block (e.maps.values groups) w >>= λ w. commit_world block w)

  unfoldable pub get_root_hash : ℕ → World e → Bytes
  unfolding root_get
  get_root_hash block w = or_zero_hash (root_get block w.block_roots)
