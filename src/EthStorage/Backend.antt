-- ===== src/EthStorage/Backend.antt =====
-- storage/ethstorage/ethtrie_storage_backend.go, and the errors of the Ethereum storage. The
-- databases are pointers that all accounts share, so their contents are passed from call to call.
use state_engine.Prelude.{
  ℕ, zero, suc, ◌/◌, Option, none, some, List, [], ◌∷◌, Bytes, get_elem?, ◌==◌, if◌then◌else◌,
}
use state_engine.Libs.EthLib.{EthLib, Result, ok, err}

-- An error of go-ethereum, or one that the code makes, joined with the error it wraps.
pub data StorageError : Type 0 where
  library : ℕ → StorageError
  not_found : StorageError
  invalid_account : Bytes → StorageError
  invalid_format : Bytes → StorageError
  commit_failed : ℕ → StorageError
  update_failed : ℕ → StorageError
  reload_failed : ℕ → StorageError
  load_failed : List ℕ → StorageError

-- The contents of the trie database, and those of the disk databases by handle.
pub record Databases (l : EthLib) : Type 0 where
  pub nodes : l.Nodes
  pub disk : ℕ → l.Disk

-- The handles of the 16 shards. The trie database is the one of `Databases`.
pub record EthShardTrieDb : Type 0 where
  pub disk_shards : List ℕ

-- `slice.Fill(diskdbs[:], handle)`
abbrev copies : ℕ → ℕ → List ℕ
copies zero handle = []
copies (suc n) handle = handle ∷ copies n handle

-- Both constructors open one database and give every shard its handle.
unfoldable pub new_eth_shard_trie_mem_db : ℕ → EthShardTrieDb
new_eth_shard_trie_mem_db handle = record { disk_shards = copies 16 handle }

unfoldable pub new_eth_shard_lvl_db : Result ℕ → Result EthShardTrieDb
new_eth_shard_lvl_db (ok handle) = ok (record { disk_shards = copies 16 handle })
new_eth_shard_lvl_db (err e) = err e

-- `none` is a panic: an index out of range.
unfoldable pub shard_from_key : Bytes → EthShardTrieDb → Option ℕ
shard_from_key [] b = get_elem? b.disk_shards 0
shard_from_key (c ∷ key) b = get_elem? b.disk_shards (c / 16)

module _ (l : EthLib) where
  -- `diskDB.Put` and `diskDB.Get` through a handle.
  unfoldable pub put_shard : ℕ → Bytes → Bytes → Databases l → Option ℕ × Databases l
  put_shard shard k v dbs =
      let (e, d) = l.disk_put k v (dbs.disk shard) in
      (e, record dbs { disk = λ s. if s == shard then d else dbs.disk s })

  -- The root, the new trie, which is nil after an error, and the error.
  pub record Committed : Type 0 where
    pub root : Bytes
    pub trie : Option l.Trie
    pub error : Option StorageError

  -- `ethmpt.NewParallel(ethmpt.TrieID(root), mainTrieDB)`
  unfoldable pub reopen : Bytes → Result l.Trie → Committed
  reopen root (ok t) = record { root = root; trie = some t; error = none }
  reopen root (err e) = record { root = root; trie = none; error = some (reload_failed e) }

  -- What follows `mainTrieDB.Update`.
  unfoldable pub after_update : Bytes → Option ℕ × l.Nodes → Databases l → Committed × Databases l
  unfolding reopen
  after_update root (none, nodes) dbs =
      (reopen root (l.new_parallel root nodes), record dbs { nodes = nodes })
  after_update root (some e, nodes) dbs = (
    record { root = []; trie = none; error = some (update_failed e) },
    record dbs { nodes = nodes },
  )

  -- What follows `trie.Commit`.
  unfoldable pub after_commit :
      ℕ → Result (Bytes × Option l.NodeSet) → Databases l → Committed × Databases l
  unfolding reopen after_update
  after_commit block (err e) dbs =
      (record { root = []; trie = none; error = some (commit_failed e) }, dbs)
  after_commit block (ok (root, none)) dbs = (reopen root (l.new_parallel root dbs.nodes), dbs)
  after_commit block (ok (root, some set)) dbs =
      after_update root (l.update root block set dbs.nodes) dbs

  -- `EthShardTrieDB.Commit`
  unfoldable pub commit_trie : l.Trie → ℕ → Databases l → Committed × Databases l
  unfolding after_commit
  commit_trie t block dbs = after_commit block (l.commit t) dbs
