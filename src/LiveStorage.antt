-- ===== src/LiveStorage.antt =====
-- storage/execstorage/livebackend: the indexer and the writer of the persistent execution storage.
-- The writer keeps one indexer for each generation of the block and writes them all at `Commit`.
-- `none` as the result of an operation is a panic.
pub mod Writes
pub mod Commit
pub mod Pipeline
pub mod Block
pub mod Only
use state_engine.Prelude.{
  ℕ, Bool, true, false, ◌&&◌, not, Option, none, some, List, [], ◌∷◌, ◌++◌, map, Bytes, is_none,
  if◌then◌else◌,
}
use state_engine.Libs.SliceLib.{SliceLib}
use state_engine.Libs.Cells.{CellLib, Ref, Heap, Filter, withdrawn}
use state_engine.Libs.Stores.{Store}

-- Reads through pointers, one after the other: all of them, or a panic.
unfoldable pub all_some {ℓ} : {A : Type ℓ} → List (Option A) → Option (List A)
all_some [] = some []
all_some (none ∷ xs) = none
all_some (some x ∷ xs) = elim (all_some xs) [ none ↦ none | some ys ↦ some (x ∷ ys) ]

-- `for i := range trans { if test(trans[i]) { out = append(out, trans[i]) } }`, with a test that may
-- change the heap.
unfoldable pub select : {H : Type 0} → (Ref → H → Bool × H) → List Ref → H → List Ref → List Ref × H
select test [] h out = (out, h)
select test (r ∷ rs) h out =
    select test rs (test r h).1 (if (test r h).0 then out ++ r ∷ [] else out)

-- `partitionIDs` is never written. A value is `none` for a deletion.
pub record LiveStgIndexer (V W : Type 0) : Type 0 where
  pub buffer : List Ref
  pub import_buffer : List Ref
  pub key_buffer : List Bytes
  pub value_buffer : List (Option V)
  pub encoded_buffer : List (Option W)

abbrev pub new_live_stg_indexer : {V W : Type 0} → LiveStgIndexer V W
new_live_stg_indexer = record {
  buffer = [];
  import_buffer = [];
  key_buffer = [];
  value_buffer = [];
  encoded_buffer = [];
}

-- What a writer is created with. `forward_convert` is the codec's, with the key and the error that
-- it returns beside the value; the code uses the value only.
pub record Env (V W : Type 0) : Type 1 where
  pub slices : SliceLib
  pub cells : CellLib V
  pub forward_convert : Bytes → V → Bytes × W × Option ℕ
  pub filter : Filter cells
  pub store : Store W

-- The loop of `Finalize` that encodes the values that are not nil.
unfoldable pub encode_values :
    {V W : Type 0}
    → (Bytes → V → Bytes × W × Option ℕ)
    → List Bytes
    → List (Option V)
    → List (Option W)
encode_values f (k ∷ ks) (none ∷ vs) = none ∷ encode_values f ks vs
encode_values f (k ∷ ks) (some v ∷ vs) = some (f k v).1 ∷ encode_values f ks vs
encode_values f _ _ = []

-- The embedded indexer, the finalized ones, and the store.
pub record LiveStorageWriter {V W : Type 0} (e : Env V W) : Type 0 where
  pub indexer : LiveStgIndexer V W
  pub buffer : List (LiveStgIndexer V W)
  pub store : e.store.State

abbrev pub new_live_storage_writer :
    {V W : Type 0} (e : Env V W) → e.store.State → LiveStorageWriter e
new_live_storage_writer e st = record { indexer = new_live_stg_indexer; buffer = []; store = st }

-- `errors.Join` over the results: the errors that are not nil.
unfoldable pub join_errors : List (Option ℕ) → List ℕ
join_errors [] = []
join_errors (none ∷ es) = join_errors es
join_errors (some x ∷ es) = x ∷ join_errors es

module _ {V W : Type 0} (e : Env V W) where
  -- `trans[i].GetPath() != nil && this.filter(trans[i])`
  unfoldable pub importable : Ref → Heap e.cells → Bool × Heap e.cells
  importable r h = if withdrawn e.cells h r then (false, h) else e.filter r h

  unfoldable pub import :
      List Ref → Heap e.cells → LiveStgIndexer V W → LiveStgIndexer V W × Heap e.cells
  unfolding select importable
  import trans h ix =
      let chosen = select importable trans h ix.import_buffer in
      (record ix { import_buffer = chosen.0 }, chosen.1)

  unfoldable pub reset : LiveStgIndexer V W → LiveStgIndexer V W
  reset ix = record ix { buffer = ix.import_buffer; import_buffer = [] }

  unfoldable pub finalize : Heap e.cells → LiveStgIndexer V W → Option (LiveStgIndexer V W)
  unfolding all_some encode_values
  finalize h ix =
      let kept = e.slices.remove_if (withdrawn e.cells h) ix.buffer in
      elim (all_some (e.slices.transform (λ r. e.cells.get_path (h r)) kept)) [
        | none ↦ none
        | some keys ↦
            let values = e.slices.transform (λ r. e.cells.value (h r)) kept in
            some (record ix {
              buffer = kept;
              key_buffer = keys;
              value_buffer = values;
              encoded_buffer = encode_values e.forward_convert keys values;
            })
      ]

  -- No indexer of the argument is nil, so nothing is removed first.
  unfoldable pub merge : List (LiveStgIndexer V W) → LiveStgIndexer V W
  merge idxers = record {
    buffer = [];
    import_buffer = [];
    key_buffer = e.slices.concate_do (λ ix. ix.key_buffer) idxers;
    value_buffer = e.slices.concate_do (λ ix. ix.value_buffer) idxers;
    encoded_buffer = e.slices.concate_do (λ ix. ix.encoded_buffer) idxers;
  }

  unfoldable pub precommit :
      Bool → Heap e.cells → LiveStorageWriter e → Option (LiveStorageWriter e)
  unfolding reset finalize
  precommit true h w = some (record w { indexer = reset w.indexer })
  precommit false h w = elim (finalize h w.indexer) [
    | none ↦ none
    | some ix ↦ some (record w { indexer = new_live_stg_indexer; buffer = w.buffer ++ ix ∷ [] })
  ]

  -- The deletions, and then the sets.
  unfoldable pub write_batches :
      (List Bytes × List (Option W)) × (List Bytes × List (Option W))
      → LiveStorageWriter e
      → Option (LiveStorageWriter e × List ℕ)
  unfolding all_some join_errors
  write_batches (del, set) w = elim (all_some (e.slices.transform (λ v. v) set.1)) [
    | none ↦ none
    | some encoded ↦
        let done = e.store.set_batch set.0 encoded (e.store.delete_batch del.0 w.store) in
        some (record w { buffer = []; store = done.1 }, join_errors done.0)
  ]

  -- The writer, and the errors of the store.
  unfoldable pub commit : LiveStorageWriter e → Option (LiveStorageWriter e × List ℕ)
  unfolding merge write_batches
  commit w =
      let merged = merge w.buffer in
      write_batches (e.slices.move_both_if is_none merged.key_buffer merged.encoded_buffer) w
