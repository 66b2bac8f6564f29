-- ===== src/EthStorage/Account/Written.antt =====
-- `UpdateAccountStorageTrie`, and what `Get` then finds in the account.
use state_engine.Prelude.{
  ℕ, ◌≡◌, ◌⊎◌, inl, inr, refl, ap, ◌∙◌, Bool, true, false, ◌||◌, Option, none, some, Bytes, length,
  ltb, ◌>>=◌,
}
use state_engine.Libs.Search.{SearchLib, SearchLaws, Member}
use state_engine.Libs.EthLib.{EthLib, EthLaws}
use state_engine.EthStorage.Backend.{StorageError, library, Databases, EthShardTrieDb}
use state_engine.EthStorage.Account.{
  FieldLib, Account, to_storage_key, trie_get, get, stored_value, get_storage_root, is_account_root,
}
use state_engine.EthStorage.Account.Update.{
  Batch, take_root, after_code, update_account_storage_trie,
}
use state_engine.EthStorage.Account.Batches.{Entry, entries, IsAligned}
use state_engine.EthStorage.Account.Encoded.{encoded, AllKeyed, IsOnly, HoldsBatch, write_trie_lem}
use state_engine.EthStorage.Account.Fields.{
  is_nonce, is_balance, is_code, AllReadable, FieldOf, AllSharded, take_root_lem, take_nonce_lem,
  take_balance_lem, take_code_lem,
}

-- A key of the account's storage: neither its root nor one of its fields.
abbrev pub IsStorage : Bytes → Type 0
IsStorage k =
    (is_account_root k ≡ false)
    × (is_nonce k ≡ false)
    × (is_balance k ≡ false)
    × (is_code k ≡ false)

-- A field after the update: that of an entry which the test selects, or the old one where the batch
-- has no such entry but for those of earlier steps.
abbrev pub FieldIn :
    {V A : Type 0} → (Bytes → Bool) → (Bytes → Bool) → (V → Option A) → Batch V → A → A → Type 0
FieldIn {V} p before read b old new =
    ((new ≡ old) × ((e : Entry V) → Member e (entries b) → before e.0 ≡ false → p e.0 ≡ false))
    ⊎ ((k : Bytes) × (v : V) × Member (k, some v) (entries b) × (p k ≡ true) × (read v ≡ some new))

or-false : (p q : Bool) → (p || q) ≡ false → (p ≡ false) × (q ≡ false)
or-false false q h = (refl, h)
or-false true q h = absurd cc

field-in :
    {V A : Type 0} (p before : Bytes → Bool) (read : V → Option A) (b c : Batch V) (old new : A)
    → ((e : Entry V) → before e.0 ≡ false → Member e (entries b) → Member e (entries c))
    → ((e : Entry V) → Member e (entries c) → Member e (entries b))
    → FieldOf p read c old new
    → FieldIn p before read b old new
field-in p before read b c old new stays from (inl (same, fails)) =
    inl (same, λ e m not_before. fails e (stays e not_before m))
field-in p before read b c old new stays from (inr (k, v, m, passes, reads)) =
    inr (k, v, from (k, some v) m, passes, reads)

module _ (l : EthLib) (s : SearchLib) {V : Type 0} (f : FieldLib V)
    (encode : Bytes → V → Bytes) where
  -- What `Get` returns for a key that was written: the bytes, with an error of the trie if it has one.
  abbrev pub IsRead : Bytes → Option V → Databases l → Account l → Type 0
  IsRead k v dbs a =
      (x : Option ℕ) × (get l f k dbs a ≡ some (stored_value l f (encoded l encode k v, x), a))

  get-storage :
      (k : Bytes) (key : Bytes) (dbs : Databases l) (a : Account l) (t : l.Trie)
      → IsStorage k
      → to_storage_key l k ≡ some key
      → a.storage_trie ≡ some t
      → get l f k dbs a ≡ some (stored_value l f (l.get t key), a)
  unfolding get trie_get
  get-storage k key dbs a t (root, nonce, balance, code) is_key has_trie =
      let found : trie_get l key a ≡ some (l.get t key) =
        ap (λ o. elim o [ none ↦ none | some t ↦ some (l.get t key) ]) has_trie in
      rw (get, balance, nonce, code, is_key)
        (ap (λ o. o >>= λ x. some (stored_value l f x, a)) found)

  IsRead-held :
      (k : Bytes) (v : Option V) (key : Bytes) (dbs : Databases l) (a : Account l) (t : l.Trie)
      → IsStorage k
      → to_storage_key l k ≡ some key
      → a.storage_trie ≡ some t
      → (l.get t key).0 ≡ encoded l encode k v
      → IsRead k v dbs a
  IsRead-held k v key dbs a t storage is_key has_trie held = (
    (l.get t key).1,
    get-storage k key dbs a t storage is_key has_trie
        ∙ ap (λ w. some (stored_value l f (w, (l.get t key).1), a)) held,
  )

  module _ (sl : SearchLaws s) (el : EthLaws l) where
    after_code_lem :
        (x : Option ℕ) (a : Account l) (c : Batch V) (dbs : Databases l) (t : l.Trie)
        → IsAligned c
        → AllKeyed l encode c
        → a.storage_trie ≡ some t
        → (err : Option StorageError) × (after : l.Trie) × (root : Bytes) × (dirty : Bool)
          × (after_code l s f encode (x, a, c, dbs)
              ≡ some (
                err,
                record a {
                  storage_trie = some after;
                  state = record a.state { root = root };
                  trie_dirty = dirty;
                },
                dbs,
              ))
          × (err ≡ none → (root ≡ l.hash after) × HoldsBatch l encode c after)
    unfolding after_code
    after_code_lem (some x) a c dbs t aligned keyed has_trie = (
      some (library x),
      t,
      a.state.root,
      a.trie_dirty,
      ap (λ o. some (some (library x), record a { storage_trie = o }, dbs)) has_trie,
      λ h. absurd cc,
    )
    after_code_lem none a c dbs t aligned keyed has_trie =
        let dirty = ltb 0 (length c.keys) in
        let (err, after, root, eq, holds) =
          write_trie_lem l encode s sl el f (record a { trie_dirty = dirty }) c t aligned keyed
            has_trie in
        (err, after, root, dirty, ap (λ o. o >>= λ done. some (done.0, done.1, dbs)) eq, holds)

    -- What the account is after an update: its fields are those of the batch, the root is that of
    -- the storage trie, and every storage key of the batch reads what the batch has for it.
    abbrev pub IsUpdated : Batch V → Account l → Account l → Databases l → Type 0
    IsUpdated b a after dbs =
        FieldIn is_nonce is_account_root f.as_uint64 b a.state.nonce after.state.nonce
        × FieldIn is_balance (λ k. is_account_root k || is_nonce k) f.as_u256 b a.state.balance
            after.state.balance
        × (after.state.root ≡ get_storage_root l after)
        × ((k : Bytes) (v : Option V) (key : Bytes)
            → Member (k, v) (entries b)
            → IsStorage k
            → to_storage_key l k ≡ some key
            → IsOnly l encode b key (encoded l encode k v)
            → IsRead k v dbs after)

    -- The update of an account that has its trie and its backend does not panic on a batch with a
    -- value for every key, values of the right types at the account's fields, and native keys that
    -- can be decoded. Where it returns no error, the account is as the batch says: the nonce and the
    -- balance are those of the entries for them, the root is that of the storage trie, and `Get` of
    -- a storage key of the batch returns the encoded value, or that there is none for a deletion,
    -- provided that entries with one storage key agree.
    pub update-read :
        (b : Batch V) (a : Account l) (dbs : Databases l) (t : l.Trie) (backend : EthShardTrieDb)
        → IsAligned b
        → AllKeyed l encode b
        → AllReadable is_nonce f.as_uint64 b
        → AllReadable is_balance f.as_u256 b
        → AllReadable is_code f.as_bytes b
        → a.storage_trie ≡ some t
        → a.backend ≡ some backend
        → AllSharded l s sl f b backend
        → (err : Option StorageError) × (after : Account l) × (final : Databases l)
          × (update_account_storage_trie l s f encode a b dbs ≡ some (err, after, final))
          × (err ≡ none → IsUpdated b a after final)
    unfolding update_account_storage_trie get_storage_root
    update-read b a dbs t backend h keyed nonces balances codes has_trie has_backend sharded =
        let b0 = take_root l s f b in
        let t0 = take_root_lem l s sl f b h in
        let (n, b1, e1, t1, nonce) =
          take_nonce_lem l s sl f a b0 t0.aligned (λ e m. nonces e (t0.from e m)) in
        let from1 : (e : Entry V) → Member e (entries b1) → Member e (entries b) =
          λ e m. t0.from e (t1.from e m) in
        let a1 : Account l = record a { state = record a.state { nonce = n } } in
        let (u, b2, e2, t2, balance) =
          take_balance_lem l s sl f a1 b1 t1.aligned (λ e m. balances e (from1 e m)) in
        let from2 : (e : Entry V) → Member e (entries b2) → Member e (entries b) =
          λ e m. from1 e (t2.from e m) in
        let a2 : Account l = record a1 { state = record a1.state { balance = u } } in
        let (x, code, code_hash, b3, dbs3, e3, t3, coded) =
          take_code_lem l s sl f a2 b2 dbs backend t2.aligned (λ e m. codes e (from2 e m))
            has_backend (λ e m. sharded e (from2 e m)) in
        let from3 : (e : Entry V) → Member e (entries b3) → Member e (entries b) =
          λ e m. from2 e (t3.from e m) in
        let a3 : Account l = record a2 {
          code = code;
          state = record a2.state { code_hash = code_hash };
        } in
        let (err, trie, root, dirty, e4, holds) =
          after_code_lem x a3 b3 dbs3 t t3.aligned (λ e m. keyed e (from3 e m)) has_trie in
        let after : Account l = record a3 {
          storage_trie = some trie;
          state = record a3.state { root = root };
          trie_dirty = dirty;
        } in
        (
          err,
          after,
          dbs3,
          rw (e1, e2, e3) e4,
          λ clean. (
            field-in is_nonce is_account_root f.as_uint64 b b0 a.state.nonce n t0.stays t0.from
                nonce,
            field-in is_balance (λ k. is_account_root k || is_nonce k) f.as_u256 b b1
                a.state.balance u
                (λ e early m.
                  let (not_root, not_nonce) = or-false (is_account_root e.0) (is_nonce e.0) early in
                  t1.stays e not_nonce (t0.stays e not_root m))
                from1 balance,
            (holds clean).0,
            λ k v key m storage is_key only.
                let m3 =
                  t3.stays (k, v) storage.3
                    (t2.stays (k, v) storage.2
                      (t1.stays (k, v) storage.1 (t0.stays (k, v) storage.0 m))) in
                let held =
                  (holds clean).1 k v key m3 is_key
                    (λ j w mj j_is. only j w (from3 (j, w) mj) j_is) in
                IsRead-held k v key dbs3 after trie storage is_key refl held,
          ),
        )
