-- ===== src/LiveCache/Twins.antt =====
-- The generations of a block as the writers of the cache and of the live storage take them.
use state_engine.Prelude.{
  ◌≡◌, inl, inr, refl, sym, ap, ◌∙◌, true, false, not, Option, none, some, List, [], ◌∷◌, ◌++◌, map,
  Bytes, is_none, keep, ℕ, ◌>>=◌, Bool-cases, Option-cases,
}
use state_engine.Libs.SliceLib.{SliceLib}
use state_engine.Libs.Cells.{CellLib, Ref, Heap, Filter, withdrawn}
use state_engine.Libs.Stores.{Store, Cache}
use state_engine.LiveStorage
use state_engine.LiveStorage.{LiveStorageWriter, select, all_some}
use state_engine.LiveStorage.Pipeline.{write_of, entries, taken}
use state_engine.LiveStorage.Block.{Generation, block_writes}
use state_engine.LiveCache.{Env, LiveCacheWriter, import, precommit, commit}
use state_engine.LiveCache.Commit.{AllLive, writes, path_or_empty}
use state_engine.LiveCache.Agree.{encode_write}

-- The two writers as `StorageProxy` makes them, with one filter.
pub record Setting (V W : Type 0) : Type 1 where
  pub slices : SliceLib
  pub cells : CellLib V
  pub convert : Bytes → V → Bytes × W × Option ℕ
  pub filter : Filter cells
  pub store : Store W
  pub cache : Cache V

-- A generation as both writers see it: its transitions, the heaps at the two imports, and the one at
-- `Precommit`.
pub record Twin {V : Type 0} (c : CellLib V) : Type 0 where
  pub trans : List Ref
  pub cached_at : Heap c
  pub stored_at : Heap c
  pub finalized : Heap c

module _ {V W : Type 0} (s : Setting V W) where
  abbrev pub cache_env : Env V
  cache_env = record { slices = s.slices; cells = s.cells; filter = s.filter; cache = s.cache }

  abbrev pub store_env : LiveStorage.Env V W
  store_env = record {
    slices = s.slices;
    cells = s.cells;
    forward_convert = s.convert;
    filter = s.filter;
    store = s.store;
  }

  abbrev pub live_in : Heap s.cells → List Ref → List Ref
  live_in h = keep (λ r. not (withdrawn s.cells h r))

  -- The transitions that the cache takes.
  abbrev pub cached : List Ref → Heap s.cells → List Ref
  cached trans h = (select s.filter trans h []).0

  abbrev pub cache_generation :
      Twin s.cells → LiveCacheWriter cache_env → Option (LiveCacheWriter cache_env)
  cache_generation b w =
      precommit cache_env true b.finalized
        (record w { indexer = (import cache_env b.trans b.cached_at w.indexer).0 })
      >>= precommit cache_env false b.finalized

  abbrev pub run_cache :
      Heap s.cells
      → List (Twin s.cells)
      → LiveCacheWriter cache_env
      → Option (LiveCacheWriter cache_env)
  run_cache h [] w = commit cache_env h w
  run_cache h (b ∷ bs) w = cache_generation b w >>= run_cache h bs

  -- The generations as the storage sees them.
  abbrev pub stored : List (Twin s.cells) → List (Generation s.cells)
  stored [] = []
  stored (b ∷ bs) =
      record { trans = b.trans; imported = b.stored_at; finalized = b.finalized } ∷ stored bs

  -- Cells that are the same in two heaps.
  abbrev pub SameOn : Heap s.cells → Heap s.cells → List Ref → Type 0
  SameOn h g [] = Unit
  SameOn h g (r ∷ rs) = (h r ≡ g r) × SameOn h g rs

  -- Both writers take the same transitions, whose cells do not change between `Precommit` and the
  -- commit.
  abbrev pub AllTwins : Heap s.cells → List (Twin s.cells) → Type 0
  AllTwins h [] = Unit
  AllTwins h (b ∷ bs) =
      (cached b.trans b.cached_at ≡ taken store_env b.trans b.stored_at)
      × SameOn h b.finalized (taken store_env b.trans b.stored_at)
      × AllTwins h bs

  -- What the cache commits.
  abbrev pub kept : List (Twin s.cells) → List Ref
  kept [] = []
  kept (b ∷ bs) = live_in b.finalized (taken store_env b.trans b.stored_at) ++ kept bs

  pub live_in-AllLive :
      (h g : Heap s.cells) (rs : List Ref) → SameOn g h rs → AllLive cache_env g (live_in h rs)
  live_in-AllLive h g [] same = tt
  live_in-AllLive h g (r ∷ rs) (here, same) = elim (Bool-cases (withdrawn s.cells h r)) [
    | inl gone ↦ rw gone (live_in-AllLive h g rs same)
    | inr there ↦
        rw there (ap (λ c. is_none (s.cells.get_path c)) here ∙ there, live_in-AllLive h g rs same)
  ]

  write_of-some :
      (o : Option Bytes) (v : Option V) (k : Bytes)
      → o ≡ some k
      → write_of store_env o v ≡ encode_write s.convert (path_or_empty cache_env o, v) ∷ []
  unfolding write_of
  write_of-some none v k h = cc
  write_of-some (some j) none k h = refl
  write_of-some (some j) (some v) k h = refl

  pub entries-writes :
      (h g : Heap s.cells) (rs : List Ref)
      → SameOn g h rs
      → entries store_env h rs ≡ map (encode_write s.convert) (writes cache_env g (live_in h rs))
  unfolding entries write_of
  entries-writes h g [] same = refl
  entries-writes h g (r ∷ rs) (here, same) = elim (Option-cases (s.cells.get_path (h r))) [
    | inl gone ↦ rw (gone, write_of) (entries-writes h g rs same)
    | inr (k, there) ↦
        let own : write_of store_env (s.cells.get_path (h r)) (s.cells.value (h r))
            ≡ encode_write s.convert
                (path_or_empty cache_env (s.cells.get_path (g r)), s.cells.value (g r))
              ∷ [] =
          write_of-some (s.cells.get_path (h r)) (s.cells.value (h r)) k there
          ∙ ap
              (λ c.
                encode_write s.convert
                  (path_or_empty cache_env (s.cells.get_path c), s.cells.value c)
                ∷ [])
              (sym here) in
        let live : not (withdrawn s.cells h r) ≡ true = ap (λ o. not (is_none o)) there in
        ap (λ ws. ws ++ entries store_env h rs) own
        ∙ ap
            (◌∷◌ (
              encode_write s.convert
                (path_or_empty cache_env (s.cells.get_path (g r)), s.cells.value (g r))))
            (entries-writes h g rs same)
        ∙ rw live refl
  ]

  writes-append :
      (g : Heap s.cells) (rs qs : List Ref)
      → map (encode_write s.convert) (writes cache_env g (rs ++ qs))
        ≡ map (encode_write s.convert) (writes cache_env g rs)
          ++ map (encode_write s.convert) (writes cache_env g qs)
  writes-append g [] qs = refl
  writes-append g (r ∷ rs) qs =
      ap
        (◌∷◌ (
          encode_write s.convert
            (path_or_empty cache_env (s.cells.get_path (g r)), s.cells.value (g r))))
        (writes-append g rs qs)

  -- The storage is given the writes of the cache, encoded.
  pub block_writes-kept :
      (g : Heap s.cells) (bs : List (Twin s.cells))
      → AllTwins g bs
      → block_writes store_env (stored bs)
        ≡ map (encode_write s.convert) (writes cache_env g (kept bs))
  block_writes-kept g [] twins = refl
  block_writes-kept g (b ∷ bs) (taken_alike, same, twins) =
      ap (λ ws. ws ++ block_writes store_env (stored bs))
        (entries-writes b.finalized g (taken store_env b.trans b.stored_at) same)
      ∙ ap
          (λ ws.
            map (encode_write s.convert)
              (writes cache_env g (live_in b.finalized (taken store_env b.trans b.stored_at)))
            ++ ws)
          (block_writes-kept g bs twins)
      ∙ sym (writes-append g (live_in b.finalized (taken store_env b.trans b.stored_at)) (kept bs))

  pub AllLive-append :
      (g : Heap s.cells) (rs qs : List Ref)
      → AllLive cache_env g rs
      → AllLive cache_env g qs
      → AllLive cache_env g (rs ++ qs)
  AllLive-append g [] qs a b = b
  AllLive-append g (r ∷ rs) qs (here, a) b = (here, AllLive-append g rs qs a b)

  pub kept-AllLive :
      (g : Heap s.cells) (bs : List (Twin s.cells)) → AllTwins g bs → AllLive cache_env g (kept bs)
  kept-AllLive g [] twins = tt
  kept-AllLive g (b ∷ bs) (taken_alike, same, twins) =
      AllLive-append g (live_in b.finalized (taken store_env b.trans b.stored_at)) (kept bs)
        (live_in-AllLive b.finalized g (taken store_env b.trans b.stored_at) same)
        (kept-AllLive g bs twins)

  pub SameOn-refl : (h : Heap s.cells) (rs : List Ref) → SameOn h h rs
  SameOn-refl h [] = tt
  SameOn-refl h (r ∷ rs) = (refl, SameOn-refl h rs)
