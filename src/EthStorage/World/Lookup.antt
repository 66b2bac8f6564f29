-- ===== src/EthStorage/World/Lookup.antt =====
-- The reads of the world state: `Has` and `Get` of one key, and the accounts that the trie gives.
use state_engine.Prelude.{
  ℕ, ◌<◌, ◌≡◌, ◌⊎◌, inl, inr, refl, sym, ap, ◌∙◌, Bool, false, Option, none, some, List, [], ◌∷◌,
  Bytes, length, ◌==◌, map_get, ◌>>=◌, arith,
}
use state_engine.Libs.EthLib.{Result, ok, err, StateAccount, IsSameOpen, OpenLaws}
use state_engine.Paths.Account.{parse_account_addr}
use state_engine.EthStorage.Backend.{StorageError}
use state_engine.EthStorage.Account
use state_engine.EthStorage.Account.{
  Account, Got, new_account, with_trie, load_trie, crdt, raw, nothing, to_storage_key, trie_get,
  stored_value,
}
use state_engine.EthStorage.Account.Written.{IsStorage}
use state_engine.EthStorage.World.{
  EthEnv, World, Ref, has_parsed, get_parsed, get, has, get_from, get_at, has_at, has_with_trie,
  has_decoded, has_looked_up, loaded_account, loaded_from, from_trie, decoded_account, looked_up,
  store_account, get_account,
}
use state_engine.EthStorage.World.Keys.{
  parsed-key, parsed-suffix, found-store, found, has-get_account, has-alike,
}

module _ {V : Type 0} (e : EthEnv V) where
  get_from-found :
      (k : Bytes) (r : Ref) (x : Option StorageError) (w : World e)
      → IsStorage k
      → found e (get_from e k (some r, x, w)) ≡ Account.has e.lib k (w.accounts r)
  unfolding get_from
  get_from-found k r x w storage =
      found-store (Account.get e.lib e.fields k w.dbs (w.accounts r)) (λ a. store_account e r a w)
      ∙ sym (has-get_account e k w.dbs (w.accounts r) storage)

  -- The world state has the handles of its disks.
  abbrev pub HasShards : World e → Type 0
  HasShards w = (shard : ℕ) × (rest : List ℕ) × (w.trie_db.disk_shards ≡ shard ∷ rest)

  loaded-trie :
      (address : Bytes) (state : StateAccount) (t : e.lib.Trie) (shard : ℕ) (w : World e)
      → ((loaded_account e address state t shard w).1.accounts
          (loaded_account e address state t shard w).0).storage_trie
        ≡ some t
  unfolding loaded_account
  loaded-trie address state t shard w = ground arith

  opened-found :
      (k address : Bytes) (state : StateAccount) (w : World e) (n p : Result e.lib.Trie)
      → IsStorage k
      → HasShards w
      → IsSameOpen e.lib n p
      → has_with_trie e k (new_account e.lib address w.trie_db state) p
        ≡ found e (from_trie e address state n w >>= get_from e k)
  unfolding has_with_trie with_trie from_trie new_account get_from
  opened-found k address state w (err x) (err y) storage shards same = refl
  opened-found k address state w (err x) (ok u) storage shards same = absurd same
  opened-found k address state w (ok t) (err y) storage shards same = absurd same
  opened-found k address state w (ok t) (ok u) storage (shard, rest, has_shards) same =
      let (r, loaded) = loaded_account e address state t shard w in
      let start : Option Bool = found e (from_trie e address state (ok t) w >>= get_from e k) in
      let opened : start ≡ found e (get_from e k (some r, none, loaded)) =
        ap (λ shards. found e (loaded_from e address state t w shards >>= get_from e k))
          has_shards in
      has-alike e k (with_trie e.lib (ok u) (new_account e.lib address w.trie_db state))
        (loaded.accounts r) u t storage refl (loaded-trie address state t shard w)
        (λ j. sym (same j))
      ∙ sym (get_from-found k r none loaded storage)
      ∙ sym opened

  module _ (laws : OpenLaws e.lib) where
    decoded-found :
        (k address : Bytes) (state : Result StateAccount) (w : World e)
        → IsStorage k
        → HasShards w
        → has_decoded e k address state w
          ≡ found e (decoded_account e address state w >>= get_from e k)
    unfolding has_decoded decoded_account get_from load_trie
    decoded-found k address (err x) w storage shards = refl
    decoded-found k address (ok state) w storage shards =
        opened-found k address state w (e.lib.new state.root w.dbs.nodes)
          (e.lib.new_parallel state.root w.dbs.nodes) storage shards
          (laws.new-new_parallel state.root w.dbs.nodes)

    looked-found :
        (k address : Bytes) (read : Bytes × Option ℕ) (w : World e)
        → IsStorage k
        → HasShards w
        → (read.0 ≡ []) ⊎ (read.1 ≡ none)
        → has_looked_up e k address read.0 w ≡ found e (looked_up e address read w >>= get_from e k)
    unfolding has_looked_up looked_up get_from
    looked-found k address ([], none) w storage shards h = refl
    looked-found k address ([], some x) w storage shards h = refl
    looked-found k address (c ∷ buffer, some x) w storage shards (inl h) = absurd cc
    looked-found k address (c ∷ buffer, some x) w storage shards (inr h) = absurd cc
    looked-found k address (c ∷ buffer, none) w storage shards h =
        decoded-found k address (e.lib.decode_account (c ∷ buffer)) w storage shards

    -- What an account's lookup gives, by the trie and by the cache.
    abbrev has_cached : Bytes → Bytes → World e → Option Ref → Option Bool
    has_cached k address w (some r) = Account.has e.lib k (w.accounts r)
    has_cached k address w none = w.world_state_trie >>= λ t.
        has_looked_up e k address (e.lib.get t (e.lib.keccak address)).0 w

    abbrev get_cached :
        Bytes → World e → Option Ref → Option (Option Ref × Option StorageError × World e)
    get_cached address w (some r) = some (some r, none, w)
    get_cached address w none =
        w.world_state_trie >>= λ t. looked_up e address (e.lib.get t (e.lib.keccak address)) w

    trie-found :
        (k address : Bytes) (w : World e) (trie : Option e.lib.Trie)
        → IsStorage k
        → HasShards w
        → (trie >>= λ t. has_looked_up e k address (e.lib.get t (e.lib.keccak address)).0 w)
          ≡ found e (
              (trie >>= λ t. looked_up e address (e.lib.get t (e.lib.keccak address)) w)
              >>= get_from e k)
    trie-found k address w none storage shards = refl
    trie-found k address w (some t) storage shards =
        looked-found k address (e.lib.get t (e.lib.keccak address)) w storage shards
          (laws.get-fails t (e.lib.keccak address))

    cached-found :
        (k address : Bytes) (w : World e) (cached : Option Ref)
        → IsStorage k
        → HasShards w
        → has_cached k address w cached ≡ found e (get_cached address w cached >>= get_from e k)
    cached-found k address w (some r) storage shards = sym (get_from-found k r none w storage)
    cached-found k address w none storage shards =
        trie-found k address w w.world_state_trie storage shards

    at-found :
        (k acct_key : Bytes) (address : Option Bytes) (w : World e)
        → IsStorage k
        → HasShards w
        → has_at e k address w ≡ found e (get_at e k acct_key address w)
    unfolding has_at get_at get_account
    at-found k acct_key none w storage shards = refl
    at-found k acct_key (some b) w storage shards =
        cached-found k (e.lib.bytes_to_address b) w
          (map_get (e.lib.bytes_to_address b) w.account_cache) storage shards

    parsed-found :
        (k : Bytes) (p : Bytes × Bytes × Bytes) (w : World e)
        → IsStorage k
        → HasShards w
        → (length p.1 == 0) ≡ false
        → (length p.2 == 0) ≡ false
        → has_parsed e k p w ≡ found e (get_parsed e k p w)
    unfolding has_parsed get_parsed
    parsed-found k (pre, acct_key, suffix) w storage shards some_key some_suffix =
        rw (has_parsed, some_key, some_suffix, get_parsed)
          (at-found k acct_key (e.lib.decode acct_key) w storage shards)

    -- `Has` of a storage key below an account says whether `Get` finds a value, in the cache and in
    -- the trie, and the two panic together. Conditions are that the key is longer than an account's
    -- path, ends in no account field and is no account's root, that the trie database opens a root
    -- alike for both, that a failed read of a trie has no data, and that `ThreadSafeGet` of the world
    -- trie, which `Has` calls, reads as `Get` does.
    pub has-get :
        (k : Bytes) (w : World e)
        → 64 < length k
        → IsStorage k
        → HasShards w
        → has e k w ≡ found e (get e k w)
    unfolding has get
    has-get k w long storage shards =
        parsed-found k (parse_account_addr k) w storage shards (parsed-key k long)
          (parsed-suffix k long)
