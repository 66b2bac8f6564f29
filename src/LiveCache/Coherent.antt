-- ===== src/LiveCache/Coherent.antt =====
-- The cache of live state beside the live storage: both writers take the same generations, and the
-- cache agrees with the storage after the block.
use state_engine.Prelude.{
  ◌≡◌, ◌⊎◌, inl, inr, refl, sym, ap, subst, ◌∙◌, none, some, List, [], ◌∷◌, ◌++◌, append-nil,
  append_assoc, map, Bytes,
}
use state_engine.Libs.SliceLib.{SliceLaws, concat_map}
use state_engine.Libs.Cells.{Ref, Heap, withdrawn}
use state_engine.Libs.Stores.{StoreLaws, CacheLaws}
use state_engine.LiveStorage.{LiveStorageWriter, select, all_some}
use state_engine.LiveStorage.Writes.{settle}
use state_engine.LiveStorage.Pipeline.{taken}
use state_engine.LiveStorage.Block.{run_block, IsIdle, run_block-settle}
use state_engine.LiveCache.{
  LiveCacheIndexer, LiveCacheWriter, new_live_cache_indexer, import, reset, finalize, precommit,
}
use state_engine.LiveCache.Commit.{
  block, AllLive, writes, paths, all_some-paths, cache_commit-settle,
}
use state_engine.LiveCache.Agree.{Agrees, settle-Agrees}
use state_engine.LiveCache.Twins.{
  Setting, Twin, cache_env, store_env, live_in, cached, cache_generation, run_cache, stored,
  AllTwins, kept, live_in-AllLive, block_writes-kept, AllLive-append, SameOn-refl,
}

concat_map-append :
    {A B : Type 0} (f : A → List B) (xs : List A) (x : A)
    → concat_map f (xs ++ x ∷ []) ≡ concat_map f xs ++ f x
concat_map-append f [] x = append-nil (f x)
concat_map-append f (y ∷ xs) x =
    ap (λ l. f y ++ l) (concat_map-append f xs x) ∙ sym (append_assoc (f y) (concat_map f xs) (f x))

module _ {V W : Type 0} (s : Setting V W) (sl : SliceLaws s.slices) (st : StoreLaws s.store)
    (cl : CacheLaws s.cache) where
  finalize-live :
      (h : Heap s.cells) (ix : LiveCacheIndexer V)
      → (ix' : LiveCacheIndexer V) × (finalize (cache_env s) h ix ≡ some ix')
        × (ix'.buffer ≡ live_in s h ix.buffer)
  unfolding finalize
  finalize-live h ix =
      let left = s.slices.remove_if (withdrawn s.cells h) ix.buffer in
      let path = λ (r : Ref). s.cells.get_path (h r) in
      let same : left ≡ live_in s h ix.buffer = sl.remove_if_lem (withdrawn s.cells h) ix.buffer in
      let found : all_some (s.slices.transform path left)
          ≡ some (paths (cache_env s) h (live_in s h ix.buffer)) =
        ap all_some (sl.transform_lem path left ∙ ap (map path) same)
        ∙ all_some-paths (cache_env s) h (live_in s h ix.buffer)
            (live_in-AllLive s h h ix.buffer (SameOn-refl s h ix.buffer)) in
      (
        record ix {
          buffer = left;
          keys = paths (cache_env s) h (live_in s h ix.buffer);
          values = s.slices.transform (λ r. s.cells.value (h r)) left;
        },
        rw (finalize, found) refl,
        same,
      )

  -- A generation of the cache writer adds the transitions that are left to those to commit.
  cache_generation-block :
      (b : Twin s.cells) (w : LiveCacheWriter (cache_env s))
      → w.indexer ≡ new_live_cache_indexer
      → (w' : LiveCacheWriter (cache_env s)) × (cache_generation s b w ≡ some w')
        × (w'.indexer ≡ new_live_cache_indexer)
        × (w'.cache ≡ w.cache)
        × (block (cache_env s) w'
            ≡ block (cache_env s) w ++ live_in s b.finalized (cached s b.trans b.cached_at))
  unfolding precommit reset import
  cache_generation-block b w idle =
      let start : LiveCacheIndexer V = record w.indexer {
        buffer = (select s.filter b.trans b.cached_at w.indexer.import_buffer).0;
        import_buffer = [];
      } in
      let (ix, done, left) = finalize-live b.finalized start in
      let fresh : start.buffer ≡ cached s b.trans b.cached_at =
        ap (λ (i : LiveCacheIndexer V). (select s.filter b.trans b.cached_at i.import_buffer).0)
          idle in
      (
        record w { indexer = new_live_cache_indexer; buffer = w.buffer ++ ix ∷ [] },
        rw (precommit, done) refl,
        refl,
        refl,
        concat_map-append (λ (i : LiveCacheIndexer V). i.buffer) w.buffer ix
            ∙ ap (λ rs. block (cache_env s) w ++ rs) (left ∙ ap (live_in s b.finalized) fresh),
      )

  -- What a commit of transitions leaves in the cache.
  abbrev Reads :
      Heap s.cells
      → List Ref
      → LiveCacheWriter (cache_env s)
      → LiveCacheWriter (cache_env s)
      → Type 0
  Reads h rs w w' =
      (k : Bytes)
      → (s.cache.get w'.cache k ≡ settle k (writes (cache_env s) h rs) (s.cache.get w.cache k))
        ⊎ (s.cache.get w'.cache k ≡ none)

  run_cache-settle :
      (h : Heap s.cells) (bs : List (Twin s.cells)) (w : LiveCacheWriter (cache_env s))
      → w.indexer ≡ new_live_cache_indexer
      → AllLive (cache_env s) h (block (cache_env s) w)
      → AllTwins s h bs
      → (w' : LiveCacheWriter (cache_env s)) × (run_cache s h bs w ≡ some w')
        × (w'.buffer ≡ [])
        × Reads h (block (cache_env s) w ++ kept s bs) w w'
  run_cache-settle h [] w idle live twins =
      let (w', done, empty, reads) = cache_commit-settle (cache_env s) sl cl h w live in
      (
        w',
        done,
        empty,
        subst (λ rs. Reads h rs w w') (sym (append-nil (block (cache_env s) w))) reads,
      )
  run_cache-settle h (b ∷ bs) w idle live (alike, same, twins) =
      let (v, done, fresh, untouched, more) = cache_generation-block b w idle in
      let mine : block (cache_env s) v
          ≡ block (cache_env s) w
            ++ live_in s b.finalized (taken (store_env s) b.trans b.stored_at) =
        more ∙ ap (λ rs. block (cache_env s) w ++ live_in s b.finalized rs) alike in
      let live_v : AllLive (cache_env s) h (block (cache_env s) v) =
        subst (AllLive (cache_env s) h) (sym mine) (
          AllLive-append s h (block (cache_env s) w)
            (live_in s b.finalized (taken (store_env s) b.trans b.stored_at)) live
            (live_in-AllLive s b.finalized h (taken (store_env s) b.trans b.stored_at) same)) in
      let (w', rest, empty, reads) = run_cache-settle h bs v fresh live_v twins in
      let all : block (cache_env s) v ++ kept s bs ≡ block (cache_env s) w ++ kept s (b ∷ bs) =
        ap (λ rs. rs ++ kept s bs) mine
        ∙ append_assoc (block (cache_env s) w)
            (live_in s b.finalized (taken (store_env s) b.trans b.stored_at)) (kept s bs) in
      (
        w',
        rw done rest,
        empty,
        λ k. elim (subst (λ rs. Reads h rs v w') all reads k) [
          | inl held ↦ inl (
              held
              ∙ ap
                  (λ c.
                    settle k (writes (cache_env s) h (block (cache_env s) w ++ kept s (b ∷ bs)))
                      (s.cache.get c k))
                  untouched)
          | inr gone ↦ inr gone
        ],
      )

  -- The cache and the storage after a block, when both writers have taken its generations: none of
  -- them panics, and if at every key the cache had what the storage had, encoded, or nothing, then
  -- it is so afterwards. Conditions are that nothing of an earlier block is pending in the writers,
  -- that they take the same transitions of every generation, that the cells of those do not change
  -- between `Precommit` and the commit, and that slices, storage and cache keep their laws.
  pub run_cache-Agrees :
      (h : Heap s.cells) (bs : List (Twin s.cells)) (cw : LiveCacheWriter (cache_env s))
      (sw : LiveStorageWriter (store_env s))
      → cw.indexer ≡ new_live_cache_indexer
      → cw.buffer ≡ []
      → IsIdle (store_env s) sw
      → AllTwins s h bs
      → ((k : Bytes) → Agrees s.convert k (s.cache.get cw.cache k) (s.store.get sw.store k))
      → (cw' : LiveCacheWriter (cache_env s)) × (sw' : LiveStorageWriter (store_env s)) × (run_cache
            s h bs cw
          ≡ some cw')
        × (run_block (store_env s) (stored s bs) sw ≡ some sw')
        × ((k : Bytes) → Agrees s.convert k (s.cache.get cw'.cache k) (s.store.get sw'.store k))
  run_cache-Agrees h bs cw sw fresh empty idle twins agree =
      let (cw', cached_run, _, reads) =
        run_cache-settle h bs cw fresh
          (subst
            (λ ixs. AllLive (cache_env s) h (concat_map (λ (i : LiveCacheIndexer V). i.buffer) ixs))
            (sym empty) tt)
          twins in
      let (sw', stored_run, _, stores) =
        run_block-settle (store_env s) sl st (stored s bs) sw idle in
      let ours : block (cache_env s) cw ++ kept s bs ≡ kept s bs =
        ap (λ ixs. concat_map (λ (i : LiveCacheIndexer V). i.buffer) ixs ++ kept s bs) empty in
      let theirs = block_writes-kept s h bs twins in
      (
        cw',
        sw',
        cached_run,
        stored_run,
        λ k. elim (subst (λ rs. Reads h rs cw cw') ours reads k) [
          | inl held ↦
              subst (λ o. Agrees s.convert k o (s.store.get sw'.store k)) (sym held)
                (subst
                  (Agrees s.convert k
                    (settle k (writes (cache_env s) h (kept s bs)) (s.cache.get cw.cache k)))
                  (sym (stores k ∙ ap (λ ws. settle k ws (s.store.get sw.store k)) theirs))
                  (settle-Agrees s.convert k (writes (cache_env s) h (kept s bs))
                    (s.cache.get cw.cache k) (s.store.get sw.store k) (agree k)))
          | inr gone ↦ subst (λ o. Agrees s.convert k o (s.store.get sw'.store k)) (sym gone) tt
        ],
      )
