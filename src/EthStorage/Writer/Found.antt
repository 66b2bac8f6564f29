-- ===== src/EthStorage/Writer/Found.antt =====
-- `EthStorageWriter.Precommit`, and what `Get` of the world state finds afterwards.
use state_engine.Prelude.{
  ℕ, negsuc, ◌≡◌, ◌≢◌, refl, sym, ap, ◌∙◌, subst, false, Option, some, List, [], ◌∷◌, ◌++◌, map,
  Bytes, length, map_get, ◌==◌, ◌>>=◌, >>=-eq-some,
}
use state_engine.Libs.Cells.{Heap}
use state_engine.Libs.Search.{Member, SearchLaws}
use state_engine.Libs.EthLib.{EthLaws}
use state_engine.Paths.Account.{get_account_addr}
use state_engine.EthStorage.Backend.{StorageError, Databases, EthShardTrieDb}
use state_engine.EthStorage.Account
use state_engine.EthStorage.Account.{Account, Got, stored_value, to_storage_key}
use state_engine.EthStorage.Account.Batches.{entries, IsAligned}
use state_engine.EthStorage.Account.Encoded.{encoded, AllKeyed, IsOnly}
use state_engine.EthStorage.Account.Fields.{is_nonce, is_balance, is_code, AllReadable, AllSharded}
use state_engine.EthStorage.Account.Written.{IsStorage, IsRead, update-read}
use state_engine.EthStorage.World
use state_engine.EthStorage.World.{World, Ref, get_from, get_at, get_parsed, get_account}
use state_engine.EthStorage.Writer.{
  Env, Eth, EthStorageWriter, AccountPair, finalize, write_accounts, precommit, new_eth_indexer,
}
use state_engine.EthStorage.Writer.Cached.{IsAlone, IsWritten, write_accounts-IsWritten}
use state_engine.EthStorage.Writer.Updated.{accounts_of, AreDistinct, batch_of, IsUpdate, some-inj}

module _ {V : Type 0} (e : Env V) where
  -- A read of the world state at a key of an account in the cache is a read of that account.
  get_cached :
      (k b : Bytes) (r : Ref) (w : World e.eth) (got : Got V) (a : Account e.eth.lib)
      → (length (get_account_addr k) == 0) ≡ false
      → e.eth.lib.decode (get_account_addr k) ≡ some b
      → map_get (e.eth.lib.bytes_to_address b) w.account_cache ≡ some r
      → Account.get e.eth.lib e.eth.fields k w.dbs (w.accounts r) ≡ some (got, a)
      → (World.get e.eth k w >>= λ found. some found.0) ≡ some got
  unfolding get_account_addr World.get
  get_cached k b r w got a long decoded there read =
      rw (World.get, get_parsed, long, decoded, get_at, get_account, there, get_from, read) refl

  -- A read of a storage key does not look at the databases.
  get-dbs :
      (k : Bytes) (dbs dbs' : Databases e.eth.lib) (a : Account e.eth.lib)
      → IsStorage k
      → Account.get e.eth.lib e.eth.fields k dbs a ≡ Account.get e.eth.lib e.eth.fields k dbs' a
  unfolding Account.get
  get-dbs k dbs dbs' a (root, nonce, balance, code) = rw (Account.get, balance, nonce, code) refl

  -- An account after its update, at a storage key of the batch.
  update-IsRead :
      (sl : SearchLaws e.eth.search) (el : EthLaws e.eth.lib) (heap : Heap e.cells)
      (p : AccountPair) (a after : Account e.eth.lib) (clean : Type 0) (t : e.eth.lib.Trie)
      (backend : EthShardTrieDb) (k : Bytes) (v : Option V) (key : Bytes)
      → IsUpdate e heap p a after clean
      → clean
      → IsAligned (batch_of e heap p)
      → AllKeyed e.eth.lib e.eth.encoder (batch_of e heap p)
      → AllReadable is_nonce e.eth.fields.as_uint64 (batch_of e heap p)
      → AllReadable is_balance e.eth.fields.as_u256 (batch_of e heap p)
      → AllReadable is_code e.eth.fields.as_bytes (batch_of e heap p)
      → a.storage_trie ≡ some t
      → a.backend ≡ some backend
      → AllSharded e.eth.lib e.eth.search sl e.eth.fields (batch_of e heap p) backend
      → Member (k, v) (entries (batch_of e heap p))
      → IsStorage k
      → to_storage_key e.eth.lib k ≡ some key
      → IsOnly e.eth.lib e.eth.encoder (batch_of e heap p) key (encoded e.eth.lib e.eth.encoder k v)
      → (dbs : Databases e.eth.lib) × IsRead e.eth.lib e.eth.search e.eth.fields e.eth.encoder k v
          dbs after
  update-IsRead sl el heap p a after clean t backend k v key (x, dbs, final, run, no_error) ok
        aligned keyed nonces balances codes has_trie has_backend sharded m storage is_key only =
      let (err, made, last, done, holds) =
        update-read e.eth.lib e.eth.search e.eth.fields e.eth.encoder sl el (batch_of e heap p) a
          dbs t backend aligned keyed nonces balances codes has_trie has_backend sharded in
      let same = some-inj (sym done ∙ run) in
      let (_, _, _, reads) = holds (
        ap (λ (r : Option StorageError × Account e.eth.lib × Databases e.eth.lib). r.0) same
        ∙ no_error ok) in
      (
        last,
        subst (IsRead e.eth.lib e.eth.search e.eth.fields e.eth.encoder k v last)
            (ap (λ (r : Option StorageError × Account e.eth.lib × Databases e.eth.lib). r.1) same)
            (reads k v key m storage is_key only),
      )

  -- The pairs that `Precommit` works on.
  abbrev pub pairs_of : EthStorageWriter e → Heap e.cells → List AccountPair
  pairs_of w heap = e.index.values (finalize e heap w.indexer).index

  precommit-IsWritten :
      (w w' : EthStorageWriter e) (h h' : Eth e) (p : AccountPair)
      → precommit e w h ≡ some (w', h')
      → AreDistinct (pairs_of w h.heap)
      → Member p (pairs_of w h.heap)
      → p.second ≢ []
      → IsAlone e (h.world.accounts p.first).addr p.first (accounts_of (pairs_of w h.heap)) h.world
      → IsWritten e h.heap p (h.world.accounts p.first).addr h.world h'.world
  unfolding precommit
  precommit-IsWritten w w' h h' p run d m some_there alone =
      let ix = finalize e h.heap w.indexer in
      let accounts = pairs_of w h.heap in
      let (world, written, made) =
        >>=-eq-some (write_accounts e accounts h)
          (λ world. some (
            record {
              indexer = new_eth_indexer e (negsuc 0);
              buffer =
                  w.buffer
                  ++ record ix { dirty_accounts = some (map (λ p. p.first) accounts) } ∷ [];
            },
            record h { world = world },
          ))
          (w', h') run in
      subst (IsWritten e h.heap p (h.world.accounts p.first).addr h.world)
        (ap (λ (r : EthStorageWriter e × Eth e). r.1.world) (some-inj made))
        (write_accounts-IsWritten e accounts h world p written d m some_there alone)

  -- What `Precommit` writes, `Get` finds: where it reports no error, the read of a storage key that a
  -- transition of an account has written returns the encoded value, or that there is none for a
  -- deletion. Conditions are that the accounts of the index are different, also by their addresses,
  -- that the account has its trie and its backend, and those on the batch of the account under
  -- which its update does not panic; entries with one storage key agree.
  pub precommit-get :
      (sl : SearchLaws e.eth.search) (el : EthLaws e.eth.lib) (w w' : EthStorageWriter e)
      (h h' : Eth e) (p : AccountPair) (t : e.eth.lib.Trie) (backend : EthShardTrieDb) (k b : Bytes)
      (v : Option V) (key : Bytes)
      → precommit e w h ≡ some (w', h')
      → h'.world.db_err ≡ []
      → AreDistinct (pairs_of w h.heap)
      → Member p (pairs_of w h.heap)
      → p.second ≢ []
      → IsAlone e (h.world.accounts p.first).addr p.first (accounts_of (pairs_of w h.heap)) h.world
      → IsAligned (batch_of e h.heap p)
      → AllKeyed e.eth.lib e.eth.encoder (batch_of e h.heap p)
      → AllReadable is_nonce e.eth.fields.as_uint64 (batch_of e h.heap p)
      → AllReadable is_balance e.eth.fields.as_u256 (batch_of e h.heap p)
      → AllReadable is_code e.eth.fields.as_bytes (batch_of e h.heap p)
      → (h.world.accounts p.first).storage_trie ≡ some t
      → (h.world.accounts p.first).backend ≡ some backend
      → AllSharded e.eth.lib e.eth.search sl e.eth.fields (batch_of e h.heap p) backend
      → Member (k, v) (entries (batch_of e h.heap p))
      → IsStorage k
      → to_storage_key e.eth.lib k ≡ some key
      → IsOnly e.eth.lib e.eth.encoder
          (batch_of e h.heap p)
          key
          (encoded e.eth.lib e.eth.encoder k v)
      → (length (get_account_addr k) == 0) ≡ false
      → e.eth.lib.decode (get_account_addr k) ≡ some b
      → e.eth.lib.bytes_to_address b ≡ (h.world.accounts p.first).addr
      → (x : Option ℕ) × ((World.get e.eth k h'.world >>= λ found. some found.0)
          ≡ some (stored_value e.eth.lib e.eth.fields (encoded e.eth.lib e.eth.encoder k v, x)))
  precommit-get sl el w w' h h' p t backend k b v key run clean d m some_there alone aligned keyed
        nonces balances codes has_trie has_backend sharded inside storage is_key only long decoded
        own =
      let (update, there) = precommit-IsWritten w w' h h' p run d m some_there alone in
      let (dbs, (x, read)) =
        update-IsRead sl el h.heap p (h.world.accounts p.first) (h'.world.accounts p.first)
          (h'.world.db_err ≡ []) t backend k v key update clean aligned keyed nonces balances codes
          has_trie has_backend sharded inside storage is_key only in
      (
        x,
        get_cached k b p.first h'.world
            (stored_value e.eth.lib e.eth.fields (encoded e.eth.lib e.eth.encoder k v, x))
            (h'.world.accounts p.first) long decoded
            (ap (λ addr. map_get addr h'.world.account_cache) own ∙ there)
            (get-dbs k h'.world.dbs dbs (h'.world.accounts p.first) storage ∙ read),
      )
