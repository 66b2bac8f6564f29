-- ===== src/EthStorage/Writer/Cached.antt =====
-- `EthStorageWriter.Precommit`: the accounts enter the cache, and the world trie is written.
use state_engine.Prelude.{
  ◌≡◌, ◌≢◌, inl, inr, refl, sym, ap, ◌∙◌, subst, some, List, [], ◌∷◌, ◌++◌, map, Bytes, bytes_eq,
  bytes_eq_iff, map_get, map_put, map_get-put, ◌>>=◌, >>=-eq-some, Bool-cases,
}
use state_engine.Libs.Cells.{Heap}
use state_engine.Libs.Search.{Member}
use state_engine.Libs.EthLib.{joined}
use state_engine.EthStorage.Backend.{library}
use state_engine.EthStorage.Account
use state_engine.EthStorage.Account.{Account, Got, stored_value, to_storage_key}
use state_engine.EthStorage.World.{World, Ref}
use state_engine.EthStorage.World.Persist.{write_world_trie}
use state_engine.EthStorage.Writer.{
  Env, Eth, AccountPair, cache_accounts, update_accounts, write_accounts,
}
use state_engine.EthStorage.Writer.Updated.{
  accounts_of, AreDistinct, IsUpdate, update_accounts-Effect, Member-of, empty_left, some-inj,
}

module _ {V : Type 0} (e : Env V) where
  -- Accounts of the list that have the address are the one account.
  abbrev pub IsAlone : Bytes → Ref → List Ref → World e.eth → Type 0
  IsAlone addr r rs w = (q : Ref) → Member q rs → (w.accounts q).addr ≡ addr → q ≡ r

  put_stays :
      (addr : Bytes) (r q : Ref) (w : World e.eth)
      → ((w.accounts q).addr ≡ addr → q ≡ r)
      → map_get addr w.account_cache ≡ some r
      → map_get addr (map_put (w.accounts q).addr q w.account_cache) ≡ some r
  put_stays addr r q w only there =
      map_get-put (w.accounts q).addr addr q w.account_cache
      ∙ elim (Bool-cases (bytes_eq (w.accounts q).addr addr)) [
        | inl same ↦ rw same (ap some (only ((bytes_eq_iff (w.accounts q).addr addr).0 same)))
        | inr other ↦ rw other there
      ]

  cached_stays :
      (addr : Bytes) (r : Ref) (rs : List Ref) (w : World e.eth)
      → IsAlone addr r rs w
      → map_get addr w.account_cache ≡ some r
      → map_get addr (cache_accounts e rs w).account_cache ≡ some r
  unfolding cache_accounts
  cached_stays addr r [] w alone there = there
  cached_stays addr r (q ∷ rs) w alone there =
      cached_stays addr r rs
        (record w { account_cache = map_put (w.accounts q).addr q w.account_cache })
        (λ p m. alone p (inr m)) (put_stays addr r q w (alone q (inl refl)) there)

  cached :
      (addr : Bytes) (r : Ref) (rs : List Ref) (w : World e.eth)
      → (w.accounts r).addr ≡ addr
      → IsAlone addr r rs w
      → Member r rs
      → map_get addr (cache_accounts e rs w).account_cache ≡ some r
  unfolding cache_accounts
  cached addr r [] w own alone m = absurd m
  cached addr r (q ∷ rs) w own alone (inl same) =
      let mine : (w.accounts q).addr ≡ addr = ap (λ p. (w.accounts p).addr) (sym same) ∙ own in
      let put : map_get addr (map_put (w.accounts q).addr q w.account_cache) ≡ some r =
        map_get-put (w.accounts q).addr addr q w.account_cache
        ∙ rw ((bytes_eq_iff (w.accounts q).addr addr).1 mine) (ap some (sym same)) in
      cached_stays addr r rs
        (record w { account_cache = map_put (w.accounts q).addr q w.account_cache })
        (λ p m. alone p (inr m)) put
  cached addr r (q ∷ rs) w own alone (inr m) =
      cached addr r rs (record w { account_cache = map_put (w.accounts q).addr q w.account_cache })
        own (λ p later. alone p (inr later)) m

  accounts-cache_accounts :
      (rs : List Ref) (w : World e.eth) → (cache_accounts e rs w).accounts ≡ w.accounts
  unfolding cache_accounts
  accounts-cache_accounts [] w = refl
  accounts-cache_accounts (r ∷ rs) w =
      accounts-cache_accounts rs
        (record w { account_cache = map_put (w.accounts r).addr r w.account_cache })

  -- What `Precommit` leaves of the account of a pair.
  abbrev pub IsWritten : Heap e.cells → AccountPair → Bytes → World e.eth → World e.eth → Type 0
  IsWritten heap p addr w w' =
      IsUpdate e heap p (w.accounts p.first) (w'.accounts p.first) (w'.db_err ≡ [])
      × (map_get addr w'.account_cache ≡ some p.first)

  write_world_trie-keeps :
      (dirty : List Ref) (v : World e.eth) (written : Bytes × World e.eth)
      → write_world_trie e.eth dirty v ≡ some written
      → (written.1.accounts ≡ v.accounts)
        × (written.1.account_cache ≡ v.account_cache)
        × (written.1.db_err ≡ [] → v.db_err ≡ [])
  unfolding write_world_trie
  write_world_trie-keeps dirty v written h =
      let (t, _, is_written) =
        >>=-eq-some v.world_state_trie
          (λ t.
            (let encoded_addrs =
                e.eth.slices.transform (λ r. e.eth.lib.keccak ((v.accounts r).addr)) dirty in
              let encoded_accts =
                e.eth.slices.transform (λ r. Account.encode e.eth.lib (v.accounts r)) dirty in
              let (errs, t) = e.eth.lib.parallel_update encoded_addrs encoded_accts t in
              some (
                e.eth.lib.hash t,
                record v {
                  world_state_trie = some t;
                  db_err = v.db_err ++ map library (joined errs);
                },
              )))
          written h in
      subst
        (λ (r : Bytes × World e.eth).
          (r.1.accounts ≡ v.accounts)
          × (r.1.account_cache ≡ v.account_cache)
          × (r.1.db_err ≡ [] → v.db_err ≡ []))
        (some-inj is_written) (refl, refl, λ clean. empty_left v.db_err _ clean)

  -- The world trie is written after the update.
  finished :
      (heap : Heap e.cells) (p : AccountPair) (before : Account e.eth.lib) (v w : World e.eth)
      → IsUpdate e heap p before (v.accounts p.first) (v.db_err ≡ [])
      → w.accounts ≡ v.accounts
      → (w.db_err ≡ [] → v.db_err ≡ [])
      → IsUpdate e heap p before (w.accounts p.first) (w.db_err ≡ [])
  finished heap p before v w (x, dbs, final, run, no_error) same clean = (
    x,
    dbs,
    final,
    run ∙ ap (λ all. some (x, all p.first, final)) (sym same),
    λ c. no_error (clean c),
  )

  pub write_accounts-IsWritten :
      (ps : List AccountPair) (h : Eth e) (w : World e.eth) (p : AccountPair)
      → write_accounts e ps h ≡ some w
      → AreDistinct ps
      → Member p ps
      → p.second ≢ []
      → IsAlone (h.world.accounts p.first).addr p.first (accounts_of ps) h.world
      → IsWritten h.heap p (h.world.accounts p.first).addr h.world w
  unfolding write_accounts write_world_trie
  write_accounts-IsWritten ps h w p run d m some_there alone =
      let w₀ = h.world in
      let start = cache_accounts e (accounts_of ps) w₀ in
      let (v, updates, rest) =
        >>=-eq-some (update_accounts e ps (record h { world = start }))
          (λ updated. write_world_trie e.eth (accounts_of ps) updated >>= λ written. some written.1)
          w run in
      let (written, writes, is_w) =
        >>=-eq-some (write_world_trie e.eth (accounts_of ps) v) (λ written. some written.1) w
          rest in
      let (same_accounts, same_cache, clean) =
        write_world_trie-keeps (accounts_of ps) v written writes in
      let f = update_accounts-Effect e ps (record h { world = start }) v d updates in
      let mine =
        cached (w₀.accounts p.first).addr p.first (accounts_of ps) w₀ refl alone
          (Member-of p ps m) in
      subst (IsWritten h.heap p (w₀.accounts p.first).addr w₀) (some-inj is_w) (
        finished h.heap p (w₀.accounts p.first) v written.1
            (subst (λ all. IsUpdate e h.heap p (all p.first) (v.accounts p.first) (v.db_err ≡ []))
              (accounts-cache_accounts (accounts_of ps) w₀) (f.updated p m some_there))
            same_accounts clean,
        ap (map_get (w₀.accounts p.first).addr) (same_cache ∙ f.cache) ∙ mine,
      )
