-- ===== src/Tests/Storage.antt =====
-- The theorems on the writers of the execution storage, with stores and caches that are functions.
use state_engine.Prelude.{
  ℕ, ◌≡◌, ◌⊎◌, refl, true, false, none, some, List, [], ◌∷◌, Bytes, codes, bytes_eq, ◌==◌,
  if◌then◌else◌,
}
use state_engine.Libs.SliceLib.{plain_slices, plain_slices-laws}
use state_engine.Libs.Cells.{plain_cells, Heap}
use state_engine.Libs.Stores.{plain_store, plain_store-laws, plain_cache, plain_cache-laws}
use state_engine.LiveStorage.{
  LiveStgIndexer, new_live_stg_indexer, Env, LiveStorageWriter, import, precommit, commit,
}
use state_engine.LiveStorage.Writes.{replay, settle, is_set}
use state_engine.LiveStorage.Commit.{pending, get_after_commit, commit-settle, commit-set_deleted}
use state_engine.LiveStorage.Pipeline.{precommit-import}
use state_engine.LiveCache
use state_engine.LiveCache.Commit.{block, writes, cache_commit-settle}

abbrev k : Bytes
k = codes "k"

abbrev j : Bytes
j = codes "j"

abbrev env : Env ℕ ℕ
env = record {
  slices = plain_slices;
  cells = plain_cells ℕ;
  forward_convert = λ key v. (key, v, none);
  filter = λ r h. (true, h);
  store = plain_store ℕ;
}

-- The first generation sets `k`, the second one sets `j` and deletes `k`.
abbrev first_generation : LiveStgIndexer ℕ ℕ
first_generation = record {
  buffer = [];
  import_buffer = [];
  key_buffer = k ∷ [];
  value_buffer = some 1 ∷ [];
  encoded_buffer = some 1 ∷ [];
}

abbrev second_generation : LiveStgIndexer ℕ ℕ
second_generation = record {
  buffer = [];
  import_buffer = [];
  key_buffer = j ∷ k ∷ [];
  value_buffer = some 2 ∷ none ∷ [];
  encoded_buffer = some 2 ∷ none ∷ [];
}

abbrev writer : LiveStorageWriter env
writer = record {
  indexer = new_live_stg_indexer;
  buffer = first_generation ∷ second_generation ∷ [];
  store = λ x. none;
}

commit-settle_example :
    (w' : LiveStorageWriter env) × (errs : List ℕ) × (commit env writer ≡ some (w', errs))
    × (w'.buffer ≡ [])
    × (w'.indexer ≡ writer.indexer)
    × ((x : Bytes)
        → env.store.get w'.store x
          ≡ settle x (pending writer.buffer) (env.store.get writer.store x))
commit-settle_example =
    commit-settle env plain_slices-laws (plain_store-laws ℕ) writer (refl, (refl, tt))

commit-set_deleted_example :
    (v : ℕ) × (get_after_commit env plain_slices-laws (plain_store-laws ℕ) writer k ≡ some (some v))
    × (replay k (pending writer.buffer) (env.store.get writer.store k) ≡ none)
unfolding is_set bytes_eq
commit-set_deleted_example =
    commit-set_deleted env plain_slices-laws (plain_store-laws ℕ) writer k
      ((k, some 1) ∷ (j, some 2) ∷ []) (refl, (refl, tt)) refl refl

-- Transition 0 deletes `j`, every other one sets `k`; transition 2 has been withdrawn.
abbrev heap : Heap env.cells
heap r = record {
  path = if r == 2 then none else if r == 0 then some j else some k;
  content = if r == 0 then none else some r;
  tx = r;
  bound = false;
  skip = false;
}

precommit-import_example :
    (late : LiveStorageWriter env) × (plain : LiveStorageWriter env) × (precommit env false heap
        (record writer { indexer = (import env (1 ∷ []) heap writer.indexer).0 })
      ≡ some late)
    × (precommit env false heap writer ≡ some plain)
    × (pending late.buffer ≡ pending plain.buffer)
    × (late.indexer ≡ plain.indexer)
precommit-import_example =
    precommit-import env plain_slices-laws (1 ∷ []) heap heap writer (refl, (refl, tt))

abbrev cached : LiveCache.Env ℕ
cached = record {
  slices = plain_slices;
  cells = plain_cells ℕ;
  filter = λ r h. (true, h);
  cache = plain_cache ℕ;
}

abbrev cache_writer : LiveCache.LiveCacheWriter cached
cache_writer = record {
  indexer = LiveCache.new_live_cache_indexer;
  buffer = (record { buffer = 1 ∷ 0 ∷ []; import_buffer = []; keys = []; values = [] }) ∷ [];
  cache = λ x. some 9;
}

cache_commit-settle_example :
    (w' : LiveCache.LiveCacheWriter cached) × (LiveCache.commit cached heap cache_writer ≡ some w')
    × (w'.buffer ≡ [])
    × ((x : Bytes)
        → (cached.cache.get w'.cache x
            ≡ settle x
                (writes cached heap (block cached cache_writer))
                (cached.cache.get cache_writer.cache x))
          ⊎ (cached.cache.get w'.cache x ≡ none))
cache_commit-settle_example =
    cache_commit-settle cached plain_slices-laws (plain_cache-laws ℕ) heap cache_writer
      (refl, (refl, tt))
