-- ===== src/EthStorage/Account.antt =====
-- storage/ethstorage/eth_account.go: an account, its fields and its storage trie. A run that
-- panics is `none`.
pub mod Update
pub mod Batches
pub mod Encoded
pub mod Fields
pub mod Written
use state_engine.Prelude.{
  ℕ, ◌+◌, Bool, true, false, ◌||◌, Option, none, some, List, [], ◌∷◌, Bytes, codes, length, ltb,
  ◌==◌, has_suffix, if◌then◌else◌, ◌>>=◌,
}
use state_engine.Libs.EthLib.{EthLib, StateAccount, Result, ok, err}
use state_engine.Paths.Constants.{eth_account_full_length, path_nonce, path_balance, path_code}
use state_engine.Paths.Account.{get_path_under}
use state_engine.EthStorage.Backend.{
  StorageError, library, not_found, Databases, EthShardTrieDb, shard_from_key, commit_failed,
  Committed, commit_trie,
}

-- The CRDT that accounts read and make: the assertions `.Value().(T)`, where `none` is a panic, and
-- the constructors.
pub record FieldLib (V : Type 0) : Type 0 where
  pub as_uint64 : V → Option ℕ
  pub as_u256 : V → Option ℕ
  pub as_bytes : V → Option Bytes
  pub unbounded_uint64 : ℕ → V
  pub unbounded_u256 : ℕ → V
  pub new_bytes : Bytes → V

-- The storage trie, the backend and the code may be nil.
pub record Account (l : EthLib) : Type 0 where
  pub addr : Bytes
  pub state : StateAccount
  pub code : Option Bytes
  pub storage_trie : Option l.Trie
  pub backend : Option EthShardTrieDb
  pub error : Option StorageError
  pub trie_dirty : Bool

-- What `Get` returns: a CRDT, the bytes of the trie with the trie's error, or nil with an
-- error, which may be nil too.
pub data Got (V : Type 0) : Type 0 where
  crdt : V → Got V
  raw : Bytes → Option ℕ → Got V
  nothing : Option StorageError → Got V

abbrev pub is_account_root : Bytes → Bool
is_account_root path = length path == eth_account_full_length + 1

abbrev native_prefix : Bytes
native_prefix = codes "/storage/native/"

-- A Go slice that may be nil.
abbrev bytes_of : Option Bytes → Bytes
bytes_of none = []
bytes_of (some c) = c

module _ (l : EthLib) where
  unfoldable pub new_account : Bytes → EthShardTrieDb → StateAccount → Account l
  new_account addr backend state = record {
    addr = addr;
    state = state;
    code = none;
    storage_trie = none;
    backend = some backend;
    error = none;
    trie_dirty = false;
  }

  -- `LoadTrie`
  unfoldable pub load_trie : Bytes → Databases l → Result l.Trie
  load_trie root dbs = l.new_parallel root dbs.nodes

  unfoldable pub with_trie : Result l.Trie → Account l → Account l
  with_trie (ok t) a = record a { storage_trie = some t }
  with_trie (err e) a = record a { error = some (library e) }

  unfoldable pub new_account_with_shared_cache :
      Bytes → EthShardTrieDb → StateAccount → Databases l → Account l
  unfolding new_account load_trie with_trie
  new_account_with_shared_cache addr backend state dbs =
      with_trie (load_trie state.root dbs) (new_account addr backend state)

  unfoldable pub empty_account_state : StateAccount
  empty_account_state = record {
    nonce = 0;
    balance = 0;
    root = l.empty_root_hash;
    code_hash = l.keccak [];
  }

  -- `this.storageTrie.Get(key)`
  unfoldable pub trie_get : Bytes → Account l → Option (Bytes × Option ℕ)
  trie_get key a = elim a.storage_trie [ none ↦ none | some t ↦ some (l.get t key) ]

  unfoldable pub set_address : Bytes → Account l → Account l
  set_address addr a = record a { addr = addr }

  unfoldable pub get_code : Account l → Option Bytes
  get_code a = a.code

  unfoldable pub get_state : Bytes → Account l → Option Bytes
  unfolding trie_get
  get_state key a = trie_get key a >>= λ found. some found.0

  unfoldable pub get_storage_root : Account l → Bytes
  get_storage_root a = elim a.storage_trie [ none ↦ l.empty_root_hash | some t ↦ l.hash t ]

  unfoldable pub get_code_hash : Account l → Bytes
  get_code_hash a = elim a.storage_trie [ none ↦ l.keccak [] | some t ↦ a.state.code_hash ]

  unfoldable pub native_key : Bytes → Bytes → Option Bytes
  native_key key [] = some (l.keccak key)
  native_key key (c ∷ under) = elim (l.decode (c ∷ under)) [
    | none ↦ none
    | some decoded ↦ some (l.keccak decoded)
  ]

  -- A native key is decoded, and the code panics where it cannot be.
  unfoldable pub to_storage_key : Bytes → Option Bytes
  unfolding native_key get_path_under
  to_storage_key key = native_key key (get_path_under key native_prefix)

  unfoldable pub has : Bytes → Account l → Option Bool
  unfolding trie_get to_storage_key has_suffix
  has path a =
      let stored =
        (to_storage_key path >>= λ key.
        trie_get key a >>= λ found. some (ltb 0 (length found.0))) in
      if is_account_root path
      then some true
      else if has_suffix path path_balance || has_suffix path path_nonce
      then some true
      else if has_suffix path path_code
      then some (ltb 0 (length (bytes_of a.code)))
      else stored

  module _ {V : Type 0} (f : FieldLib V) where
    -- `v, err := storageTrie.Get(key)`; an empty value is none.
    abbrev pub stored_value : Bytes × Option ℕ → Got V
    stored_value ([], e) = nothing (some not_found)
    stored_value (c ∷ v, e) = raw (c ∷ v) e

    -- The code that is read from the disk stays in the account, nil after an error.
    unfoldable pub loaded_code : Option Bytes × Option ℕ → Account l → Got V × Account l
    loaded_code (data_read, some e) a = (nothing (some (library e)), record a { code = data_read })
    loaded_code (data_read, none) a =
        (crdt (f.new_bytes (bytes_of data_read)), record a { code = data_read })

    unfoldable pub get_code_value : Bytes → Databases l → Account l → Option (Got V × Account l)
    unfolding loaded_code shard_from_key
    get_code_value path dbs a = elim a.code [
      | some c ↦ some (crdt (f.new_bytes c), a)
      | none ↦ a.backend >>= λ b. shard_from_key path b >>= λ shard.
          some (loaded_code (l.disk_get (dbs.disk shard) a.state.code_hash) a)
    ]

    unfoldable pub get : Bytes → Databases l → Account l → Option (Got V × Account l)
    unfolding get_code_value trie_get to_storage_key has_suffix
    get path dbs a =
        let stored =
          (to_storage_key path >>= λ key.
          trie_get key a >>= λ found. some (stored_value found, a)) in
        let coded = get_code_value path dbs a in
        if has_suffix path path_balance
        then some (crdt (f.unbounded_u256 a.state.balance), a)
        else if has_suffix path path_nonce
        then some (crdt (f.unbounded_uint64 a.state.nonce), a)
        else if has_suffix path path_code
        then coded
        else stored

  unfoldable pub encode : Account l → Bytes
  encode a = l.encode_account a.state

  unfoldable pub decoded_account : Result StateAccount → Result (Account l)
  decoded_account (err e) = err e
  decoded_account (ok state) = ok (record {
    addr = [];
    state = state;
    code = none;
    storage_trie = none;
    backend = none;
    error = none;
    trie_dirty = false;
  })

  unfoldable pub decode : Bytes → Result (Account l)
  unfolding decoded_account
  decode buffer = decoded_account (l.decode_account buffer)

  -- `backend.Commit` reads the nil backend once the trie has been committed.
  unfoldable pub commit_without_backend :
      Result (Bytes × Option l.NodeSet) → Databases l → Option (Committed l × Databases l)
  commit_without_backend (err e) dbs =
      some (record { root = []; trie = none; error = some (commit_failed e) }, dbs)
  commit_without_backend (ok _) dbs = none

  -- `this.backend.Commit(this.storageTrie, block)`; a nil trie is a panic.
  unfoldable pub commit_storage : ℕ → Databases l → Account l → Option (Committed l × Databases l)
  unfolding commit_without_backend commit_trie
  commit_storage block dbs a = a.storage_trie >>= λ t. elim a.backend [
    | none ↦ commit_without_backend (l.commit t) dbs
    | some b ↦ some (commit_trie l t block dbs)
  ]

  unfoldable pub commit :
      ℕ → Databases l → Account l → Option (Option StorageError × Account l × Databases l)
  unfolding commit_storage
  commit block dbs a =
      let dirty =
        (commit_storage block dbs a >>= λ done.
        some (done.0.error, record a { storage_trie = done.0.trie; trie_dirty = false }, done.1)) in
      if a.trie_dirty then dirty else some (none, a, dbs)
