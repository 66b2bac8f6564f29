-- ===== src/EthStorage/Writer.antt =====
-- storage/ethstorage/eth_storage_indexer.go and eth_storage_writer.go: the transitions of a
-- generation by account, and the two phases that bring them into the world state. A run that panics
-- is `none`. The accounts of an index are different, and the loops that the source runs in parallel
-- over them run here in the order of the index.
pub mod Versions
pub mod Updated
pub mod Cached
pub mod Found
use state_engine.Prelude.{
  ℕ, suc, ◌-◌, ◌^◌, ℤ, pos, negsuc, Bool, true, not, ◌&&◌, Option, none, some, List, [], ◌∷◌, ◌++◌,
  map, Bytes, length, is_none, is_some, map_put, if◌then◌else◌, ◌>>=◌,
}
use state_engine.Libs.Cells.{CellLib, Heap, Filter, withdrawn}
use state_engine.Paths.Account.{get_account_addr}
use state_engine.EthStorage.Account.Update.{Batch, update_account_storage_trie}
use state_engine.EthStorage.World.{EthEnv, EthWorldState, World, Ref, preload, store_account}
use state_engine.EthStorage.World.Persist.{write_world_trie, persist_to_eth_store, to_list}

-- `associative.Pair[*Account, []*StateCell]`
pub record AccountPair : Type 0 where
  pub first : Ref
  pub second : List Ref

-- `indexer.UnorderedIndexer` of the common library over the addresses. `import` is given the key of
-- a transition, with false for one that is left out, what starts a pair and what adds to one; a
-- `none` is a panic.
pub record AccountIndexLib (H : Type 0) : Type 1 where
  pub Index : Type 0
  pub new : Index
  pub import :
      (Ref → H → Option (Bytes × Bool))
      → (Bytes → Ref → H → Option (AccountPair × H))
      → (Bytes → Ref → AccountPair → AccountPair)
      → List Ref
      → H
      → Index
      → Option (Index × H)
  -- ParallelForeachDo
  pub for_each : (AccountPair → AccountPair) → Index → Index
  -- Values
  pub values : Index → List AccountPair

-- `uint64(version)`
abbrev pub block_number : ℤ → ℕ
block_number (pos n) = n
block_number (negsuc n) = 2 ^ 64 - suc n

-- The world state, and the cells behind the pointers.
pub record State {V : Type 0} (e : EthEnv V) (c : CellLib V) : Type 0 where
  pub world : World e
  pub heap : Heap c

pub record Env (V : Type 0) : Type 1 where
  pub eth : EthEnv V
  pub cells : CellLib V
  pub filter : Filter cells
  pub index : AccountIndexLib (State eth cells)
  -- `StateCells.KVs`
  pub kvs : List cells.Cell → Batch V
  -- `slice.MaxIf`: the element with the highest number
  pub max_if : {A : Type 0} → (A → ℤ) → A → List A → A

module _ {V : Type 0} (e : Env V) where
  abbrev pub Eth : Type 0
  Eth = State e.eth e.cells

  pub record EthIndexer : Type 0 where
    pub version : ℤ
    pub index : e.index.Index
    -- nil before the indexer is committed
    pub dirty_accounts : Option (List Ref)

  unfoldable pub new_eth_indexer : ℤ → EthIndexer
  new_eth_indexer version = record { version = version; index = e.index.new; dirty_accounts = none }

  -- An address that cannot be decoded is that of no bytes.
  abbrev or_no_bytes : Option Bytes → Bytes
  or_no_bytes none = []
  or_no_bytes (some b) = b

  -- The callbacks of the indexer.
  unfoldable pub account_key : Ref → Eth → Option (Bytes × Bool)
  unfolding get_account_addr
  account_key r h = e.cells.get_path (h.heap r) >>= λ path.
      some
        (e.eth.lib.bytes_to_address (or_no_bytes (e.eth.lib.decode (get_account_addr path))), true)

  unfoldable pub account_pair : Bytes → Ref → Eth → Option (AccountPair × Eth)
  unfolding preload
  account_pair addr r h = preload e.eth addr h.world >>= λ loaded.
      some (record { first = loaded.0; second = r ∷ [] }, record h { world = loaded.1 })

  unfoldable pub account_add : Bytes → Ref → AccountPair → AccountPair
  account_add addr r p = record p { second = p.second ++ r ∷ [] }

  -- `slice.CopyIf`; the filter is asked for the transitions that are not withdrawn.
  unfoldable pub copy_if : List Ref → Heap e.cells → List Ref × Heap e.cells
  copy_if [] h = ([], h)
  copy_if (r ∷ rs) h =
      let (pass, g) = e.filter r h in
      let taken = copy_if rs g in
      let left = copy_if rs h in
      if withdrawn e.cells h r then left else (if pass then r ∷ taken.0 else taken.0, taken.1)

  unfoldable pub import_index : List Ref → e.index.Index → Eth → Option (e.index.Index × Eth)
  unfolding copy_if account_key account_pair account_add
  import_index trans index h =
      let (eth_trans, heap) = copy_if trans h.heap in
      e.index.import account_key account_pair account_add eth_trans (record h { heap = heap }) index

  unfoldable pub import : List Ref → EthIndexer → Eth → Option (EthIndexer × Eth)
  unfolding import_index
  import trans ix h =
      import_index trans ix.index h >>= λ done. some (record ix { index = done.0 }, done.1)

  -- The accounts without transitions are removed from a list that nobody reads, so they stay in the
  -- index.
  unfoldable pub finalize : Heap e.cells → EthIndexer → EthIndexer
  finalize heap ix = record ix {
    index =
        e.index.for_each
          (λ p. record p { second = e.eth.slices.remove_if (withdrawn e.cells heap) p.second })
          ix.index;
  }

  abbrev pub or_no_accounts : Option (List Ref) → List Ref
  or_no_accounts none = []
  or_no_accounts (some rs) = rs

  -- `new(EthIndexer).Merge(idxers)`
  unfoldable pub merge : List EthIndexer → EthIndexer
  unfolding new_eth_indexer
  merge [] = new_eth_indexer (pos 0)
  merge (ix ∷ ixs) =
      let held = e.eth.slices.remove_if (λ x. is_none x.dirty_accounts) (ix ∷ ixs) in
      record {
        version = EthIndexer.version (e.max_if (λ x. x.version) ix ixs);
        index = e.index.new;
        dirty_accounts = some (e.eth.slices.concate_do (λ x. or_no_accounts x.dirty_accounts) held);
      }

  pub record EthStorageWriter : Type 0 where
    pub indexer : EthIndexer
    pub buffer : List EthIndexer

  unfoldable pub new_eth_storage_writer : ℤ → EthStorageWriter
  unfolding new_eth_indexer
  new_eth_storage_writer version = record { indexer = new_eth_indexer version; buffer = [] }

  -- The accounts enter the cache of the world state.
  unfoldable pub cache_accounts : List Ref → World e.eth → World e.eth
  unfolding map_put
  cache_accounts [] w = w
  cache_accounts (r ∷ rs) w =
      cache_accounts rs (record w { account_cache = map_put (w.accounts r).addr r w.account_cache })

  -- The update of the account of a pair.
  unfoldable pub update_account : AccountPair → Eth → Option (World e.eth)
  unfolding update_account_storage_trie store_account
  update_account p h =
      update_account_storage_trie e.eth.lib e.eth.search e.eth.fields e.eth.encoder
        (h.world.accounts p.first) (e.kvs (map h.heap p.second)) h.world.dbs
      >>= λ done. some (record (store_account e.eth p.first done.1 h.world) {
        dbs = done.2;
        db_err = h.world.db_err ++ to_list done.0;
      })

  unfoldable pub update_accounts : List AccountPair → Eth → Option (World e.eth)
  unfolding update_account
  update_accounts [] h = some h.world
  update_accounts (p ∷ ps) h =
      let after = (update_account p h >>= λ w. update_accounts ps (record h { world = w })) in
      let skipped = update_accounts ps h in elim p.second [ [] ↦ skipped | _ ∷ _ ↦ after ]

  -- The accounts enter the cache, are updated, and are written to the world trie.
  unfoldable pub write_accounts : List AccountPair → Eth → Option (World e.eth)
  unfolding cache_accounts update_accounts write_world_trie
  write_accounts accounts h =
      let dirty = map (λ p. p.first) accounts in
      update_accounts accounts (record h { world = cache_accounts dirty h.world }) >>= λ updated.
      write_world_trie e.eth dirty updated >>= λ written. some written.1

  -- The error returned is `dbErr` of the world state.
  unfoldable pub precommit : EthStorageWriter → Eth → Option (EthStorageWriter × Eth)
  unfolding finalize write_accounts new_eth_indexer
  precommit w h =
      let ix = finalize h.heap w.indexer in
      let accounts = e.index.values ix.index in
      write_accounts accounts h >>= λ world. some (
        record {
          indexer = new_eth_indexer (negsuc 0);
          buffer =
              w.buffer ++ record ix { dirty_accounts = some (map (λ p. p.first) accounts) } ∷ [];
        },
        record h { world = world },
      )

  -- The version of the call is not read.
  unfoldable pub commit : ℕ → EthStorageWriter → Eth → Option (EthStorageWriter × Eth)
  unfolding merge persist_to_eth_store
  commit version w h =
      let merged = merge w.buffer in
      let dirty = map (λ r. some r) (or_no_accounts merged.dirty_accounts) in
      persist_to_eth_store e.eth (block_number merged.version) dirty h.world >>= λ world.
      some (record w { buffer = [] }, record h { world = world })
