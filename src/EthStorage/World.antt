-- ===== src/EthStorage/World.antt =====
-- storage/ethstorage/eth_world_state.go: the world trie, the cache of accounts and the reads of
-- both. An account is a pointer, which the cache, the indexers and the callers share; it is a number
-- here, and the world gives the account behind it. A run that panics is `none`.
pub mod Persist
pub mod Roots
pub mod Keys
pub mod Lookup
use state_engine.Prelude.{
  ℕ, suc, ◌+◌, Bool, true, false, Option, none, some, List, [], ◌∷◌, Bytes, length, ltb, ◌==◌,
  map_get, if◌then◌else◌, ◌>>=◌,
}
use state_engine.Libs.SliceLib.{SliceLib}
use state_engine.Libs.Search.{SearchLib}
use state_engine.Libs.MapLib.{MapLib}
use state_engine.Libs.EthLib.{EthLib, StateAccount, Result, ok, err}
use state_engine.Paths.Account.{parse_account_addr}
use state_engine.EthStorage.Backend.{
  StorageError, library, invalid_account, invalid_format, load_failed, Databases, EthShardTrieDb,
}
use state_engine.EthStorage.Account
use state_engine.EthStorage.Account.{
  FieldLib, Account, Got, crdt, raw, nothing, new_account, with_trie, load_trie,
  empty_account_state, new_account_with_shared_cache,
}

-- The libraries, and the codec that the world state is made with.
pub record EthEnv (V : Type 0) : Type 1 where
  pub lib : EthLib
  pub slices : SliceLib
  pub search : SearchLib
  pub maps : MapLib
  pub fields : FieldLib V
  pub encoder : Bytes → V → Bytes
  -- The decoder at a path, some bytes and a hint.
  pub decoder : Bytes → Bytes → V → Got V

abbrev pub Ref : Type 0
Ref = ℕ

-- `worldStateTrie` is nil after a commit that failed. The accounts are those behind the pointers,
-- of which `next` is not used yet.
pub record EthWorldState (l : EthLib) : Type 0 where
  pub world_state_trie : Option l.Trie
  pub account_cache : List (Bytes × Ref)
  pub account_cache_enabled : Bool
  pub trie_db : EthShardTrieDb
  pub db_err : List StorageError
  pub block_roots : List (ℕ × Bytes)
  pub accounts : Ref → Account l
  pub next : Ref
  pub dbs : Databases l

module _ {V : Type 0} (e : EthEnv V) where
  abbrev pub World : Type 0
  World = EthWorldState e.lib

  unfoldable pub new_eth_data_store : e.lib.Trie → EthShardTrieDb → World → World
  new_eth_data_store trie trie_db w = record w {
    world_state_trie = some trie;
    account_cache = [];
    account_cache_enabled = false;
    trie_db = trie_db;
    db_err = [];
    block_roots = [];
  }

  unfoldable pub enable_account_cache : World → World
  enable_account_cache w = record w { account_cache_enabled = true }

  unfoldable pub disable_account_cache : World → World
  disable_account_cache w = record w { account_cache_enabled = false }

  -- `&Account{...}`
  unfoldable pub allocate : Account e.lib → World → Ref × World
  allocate a w = (
    w.next,
    record w { accounts = λ r. if r == w.next then a else w.accounts r; next = suc w.next },
  )

  unfoldable pub store_account : Ref → Account e.lib → World → World
  store_account r a w = record w { accounts = λ q. if q == r then a else w.accounts q }

  -- The pointer, which may be nil, the error, which may be nil as well, and the world.
  abbrev pub Found : Type 0
  Found = Option Ref × Option StorageError × World

  -- The account of the trie, without a backend, with the code that a disk has.
  unfoldable pub loaded_account : Bytes → StateAccount → e.lib.Trie → ℕ → World → Ref × World
  unfolding allocate
  loaded_account address state t shard w =
      allocate
        (record {
          addr = address;
          state = state;
          code = (e.lib.disk_get (w.dbs.disk shard) state.code_hash).0;
          storage_trie = some t;
          backend = none;
          error = none;
          trie_dirty = false;
        })
        w

  abbrev pub loaded_from : Bytes → StateAccount → e.lib.Trie → World → List ℕ → Option Found
  loaded_from address state t w [] = none
  loaded_from address state t w (shard ∷ shards) =
      let (r, w) = loaded_account address state t shard w in some (some r, none, w)

  -- The code is read from the first shard.
  unfoldable pub from_trie : Bytes → StateAccount → Result e.lib.Trie → World → Option Found
  unfolding loaded_account
  from_trie address state (err x) w = some (none, some (library x), w)
  from_trie address state (ok t) w = loaded_from address state t w w.trie_db.disk_shards

  unfoldable pub decoded_account : Bytes → Result StateAccount → World → Option Found
  unfolding from_trie
  decoded_account address (err x) w = some (none, some (library x), w)
  decoded_account address (ok state) w =
      from_trie address state (e.lib.new state.root w.dbs.nodes) w

  unfoldable pub looked_up : Bytes → Bytes × Option ℕ → World → Option Found
  unfolding decoded_account
  looked_up address ([], none) w = some (none, none, w)
  looked_up address (buffer, some x) w = some (none, some (library x), w)
  looked_up address (c ∷ buffer, none) w =
      decoded_account address (e.lib.decode_account (c ∷ buffer)) w

  -- The array of an address is never empty.
  unfoldable pub get_account : Bytes → World → Option Found
  unfolding looked_up map_get
  get_account address w = elim (map_get address w.account_cache) [
    | some r ↦ some (some r, none, w)
    | none ↦ w.world_state_trie >>= λ t. looked_up address (e.lib.get t (e.lib.keccak address)) w
  ]

  -- A new account where there is none, for whatever reason.
  unfoldable pub or_new : Bytes → Found → Ref × World
  unfolding allocate new_account_with_shared_cache empty_account_state
  or_new address (some r, _, w) = (r, w)
  or_new address (none, _, w) =
      allocate
        (new_account_with_shared_cache e.lib address w.trie_db (empty_account_state e.lib) w.dbs) w

  unfoldable pub preload : Bytes → World → Option (Ref × World)
  unfolding get_account or_new
  preload addr w =
      let address = e.lib.bytes_to_address addr in
      get_account address w >>= λ found. some (or_new address found)

  -- `Has` of an account that is not in the cache.
  unfoldable pub has_with_trie : Bytes → Account e.lib → Result e.lib.Trie → Option Bool
  unfolding Account.has with_trie
  has_with_trie key a (err _) = some false
  has_with_trie key a (ok t) = Account.has e.lib key (with_trie e.lib (ok t) a)

  unfoldable pub has_decoded : Bytes → Bytes → Result StateAccount → World → Option Bool
  unfolding has_with_trie load_trie new_account
  has_decoded key address (err _) w = some false
  has_decoded key address (ok state) w =
      has_with_trie key (new_account e.lib address w.trie_db state)
        (load_trie e.lib state.root w.dbs)

  unfoldable pub has_looked_up : Bytes → Bytes → Bytes → World → Option Bool
  unfolding has_decoded
  has_looked_up key address [] w = some false
  has_looked_up key address (c ∷ buffer) w =
      has_decoded key address (e.lib.decode_account (c ∷ buffer)) w

  -- `ThreadSafeGet` and `Get` of the world trie are one operation here, the read of a key.
  unfoldable pub has_at : Bytes → Option Bytes → World → Option Bool
  unfolding has_looked_up Account.has map_get
  has_at key none w = some false
  has_at key (some acct_bytes) w =
      let address = e.lib.bytes_to_address acct_bytes in
      elim (map_get address w.account_cache) [
        | some r ↦ Account.has e.lib key (w.accounts r)
        | none ↦ w.world_state_trie >>= λ t.
            has_looked_up key address (e.lib.get t (e.lib.keccak address)).0 w
      ]

  unfoldable pub has_parsed : Bytes → Bytes × Bytes × Bytes → World → Option Bool
  unfolding has_at
  has_parsed key (_, acct_key, suffix) w =
      let found = has_at key (e.lib.decode acct_key) w in
      if length acct_key == 0 then some false else if length suffix == 0 then some false else found

  unfoldable pub has : Bytes → World → Option Bool
  unfolding has_parsed parse_account_addr
  has key w = has_parsed key (parse_account_addr key) w

  -- `account.Get(path)` may load the code into the account.
  unfoldable pub get_from : Bytes → Found → Option (Got V × World)
  unfolding Account.get store_account
  get_from path (none, x, w) = some (nothing x, w)
  get_from path (some r, x, w) = Account.get e.lib e.fields path w.dbs (w.accounts r) >>= λ got.
      some (got.0, store_account r got.1 w)

  unfoldable pub get_at : Bytes → Bytes → Option Bytes → World → Option (Got V × World)
  unfolding get_from get_account
  get_at path acct_key none w = some (nothing (some (invalid_format acct_key)), w)
  get_at path acct_key (some acct_bytes) w =
      get_account (e.lib.bytes_to_address acct_bytes) w >>= get_from path

  unfoldable pub get_parsed : Bytes → Bytes × Bytes × Bytes → World → Option (Got V × World)
  unfolding get_at
  get_parsed path (_, acct_key, _) w =
      let found = get_at path acct_key (e.lib.decode acct_key) w in
      if length acct_key == 0 then some (nothing (some (invalid_account acct_key)), w) else found

  unfoldable pub get : Bytes → World → Option (Got V × World)
  unfolding get_parsed parse_account_addr
  get path w = get_parsed path (parse_account_addr path) w

  -- What `GetAs` makes of the result of `Get`. The bytes are decoded where there is a hint.
  unfoldable pub convert : Bytes → Option V → Got V → Got V
  convert path hint (crdt v) = crdt v
  convert path hint (nothing x) = nothing x
  convert path hint (raw buffer (some x)) = nothing (some (library x))
  convert path none (raw buffer none) = raw buffer none
  convert path (some h) (raw buffer none) = e.decoder path buffer h

  unfoldable pub get_as : Bytes → Option V → World → Option (Got V × World)
  unfolding get convert
  get_as path hint w = get path w >>= λ got. some (convert path hint got.0, got.1)

  -- `LoadEthTrieByRoot`, with the handles that the trie database gives.
  unfoldable pub load_eth_trie_by_root : Bytes → List ℕ → World → Result World
  unfolding new_eth_data_store
  load_eth_trie_by_root root handles w = elim (e.lib.new root w.dbs.nodes) [
    | err x ↦ err x
    | ok t ↦ ok (new_eth_data_store t (record { disk_shards = handles }) w)
  ]
