-- ===== src/LiveCache.antt =====
-- storage/execstorage/livecache: the indexer and the writer of the cache of live state. `Commit`
-- reads the cells through their pointers, as they are by then. `none` as the result of an operation
-- is a panic.
pub mod Commit
pub mod Agree
pub mod Coherent
pub mod Twins
use state_engine.Prelude.{
  ℕ, Bool, true, false, not, Option, none, some, List, [], ◌∷◌, ◌++◌, map, Bytes, is_none,
  if◌then◌else◌,
}
use state_engine.Libs.SliceLib.{SliceLib}
use state_engine.Libs.Cells.{CellLib, Ref, Heap, Filter, withdrawn}
use state_engine.Libs.Stores.{Cache}
use state_engine.LiveStorage.{all_some, select}

pub record LiveCacheIndexer (V : Type 0) : Type 0 where
  pub buffer : List Ref
  pub import_buffer : List Ref
  pub keys : List Bytes
  pub values : List (Option V)

abbrev pub new_live_cache_indexer : {V : Type 0} → LiveCacheIndexer V
new_live_cache_indexer = record { buffer = []; import_buffer = []; keys = []; values = [] }

-- What a writer is created with; the version is not read.
pub record Env (V : Type 0) : Type 1 where
  pub slices : SliceLib
  pub cells : CellLib V
  pub filter : Filter cells
  pub cache : Cache V

pub record LiveCacheWriter {V : Type 0} (e : Env V) : Type 0 where
  pub indexer : LiveCacheIndexer V
  pub buffer : List (LiveCacheIndexer V)
  pub cache : e.cache.State

abbrev pub new_live_cache_writer : {V : Type 0} (e : Env V) → e.cache.State → LiveCacheWriter e
new_live_cache_writer e st = record { indexer = new_live_cache_indexer; buffer = []; cache = st }

module _ {V : Type 0} (e : Env V) where
  unfoldable pub import :
      List Ref → Heap e.cells → LiveCacheIndexer V → LiveCacheIndexer V × Heap e.cells
  unfolding select
  import trans h ix =
      let chosen = select e.filter trans h ix.import_buffer in
      (record ix { import_buffer = chosen.0 }, chosen.1)

  unfoldable pub reset : LiveCacheIndexer V → LiveCacheIndexer V
  reset ix = record ix { buffer = ix.import_buffer; import_buffer = [] }

  unfoldable pub finalize : Heap e.cells → LiveCacheIndexer V → Option (LiveCacheIndexer V)
  unfolding all_some
  finalize h ix =
      let kept = e.slices.remove_if (withdrawn e.cells h) ix.buffer in
      elim (all_some (e.slices.transform (λ r. e.cells.get_path (h r)) kept)) [
        | none ↦ none
        | some keys ↦ some (record ix {
          buffer = kept;
          keys = keys;
          values = e.slices.transform (λ r. e.cells.value (h r)) kept;
        })
      ]

  -- No indexer of the argument is nil, so nothing is removed first.
  unfoldable pub merge : List (LiveCacheIndexer V) → LiveCacheIndexer V
  merge idxers = record {
    buffer = e.slices.concate_do (λ ix. ix.buffer) idxers;
    import_buffer = [];
    keys = [];
    values = [];
  }

  unfoldable pub precommit : Bool → Heap e.cells → LiveCacheWriter e → Option (LiveCacheWriter e)
  unfolding reset finalize
  precommit true h w = some (record w { indexer = reset w.indexer })
  precommit false h w = elim (finalize h w.indexer) [
    | none ↦ none
    | some ix ↦ some (record w { indexer = new_live_cache_indexer; buffer = w.buffer ++ ix ∷ [] })
  ]

  -- `DeleteBatch`, `SetBatch` and `Evict`. The values that are set are not nil; the source passes
  -- them on as they are, and here `none` would stand for one that is.
  unfoldable pub write_batches :
      (List Bytes × List (Option V)) × (List Bytes × List (Option V))
      → LiveCacheWriter e
      → Option (LiveCacheWriter e)
  unfolding all_some
  write_batches (del, set) w = elim (all_some set.1) [
    | none ↦ none
    | some values ↦
        let done = e.cache.set_batch set.0 values (e.cache.delete_batch del.0 w.cache) in
        some (record w { buffer = []; cache = e.cache.evict done })
  ]

  -- The loop over the merged cells, and the writes.
  unfoldable pub commit_cells :
      Heap e.cells → List Ref → LiveCacheWriter e → Option (LiveCacheWriter e)
  unfolding write_batches all_some
  commit_cells h cells w = elim (all_some (map (λ r. e.cells.get_path (h r)) cells)) [
    | none ↦ none
    | some keys ↦
        write_batches (e.slices.move_both_if is_none keys (map (λ r. e.cells.value (h r)) cells)) w
  ]

  unfoldable pub commit : Heap e.cells → LiveCacheWriter e → Option (LiveCacheWriter e)
  unfolding merge commit_cells
  commit h w = commit_cells h (merge w.buffer).buffer w
