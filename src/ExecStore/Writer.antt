-- ===== src/ExecStore/Writer.antt =====
-- state/cache/execution_store_indexer.go and execution_store_writer.go: the transitions of a
-- generation are written to the local view. The buffer holds pointers, which the heap resolves.
use state_engine.Prelude.{
  ℕ, ◌≡◌, refl, ap, ◌∙◌, Bool, false, not, Option, none, some, List, [], ◌∷◌, ◌++◌, Bytes, is_none,
  map_get, map_get-put, Option-cases, inl, inr, keep, bytes_eq, if◌then◌else◌, ◌>>=◌,
}
use state_engine.Libs.SliceLib.{SliceLib, SliceLaws}
use state_engine.ExecStore.{ExecLib, Exec, put_cell}
use state_engine.ExecStore.Export.{clear}

-- The filter is not read.
pub record ExecutionCacheIndexer : Type 0 where
  pub version : ℕ
  pub buffer : List ℕ

abbrev pub new_execution_cache_indexer : ℕ → ExecutionCacheIndexer
new_execution_cache_indexer version = record { version = version; buffer = [] }

pub record ExecutionCacheWriter (l : ExecLib) : Type 0 where
  pub indexer : ExecutionCacheIndexer
  pub store : Exec l

abbrev pub new_execution_cache_writer : (l : ExecLib) → Exec l → ℕ → ExecutionCacheWriter l
new_execution_cache_writer l s version = record {
  indexer = new_execution_cache_indexer version;
  store = s;
}

unfoldable pub import : List ℕ → ExecutionCacheIndexer → ExecutionCacheIndexer
import transitions ix = record ix { buffer = ix.buffer ++ transitions }

module _ (l : ExecLib) where
  unfoldable pub finalize : SliceLib → (ℕ → l.Cell) → ExecutionCacheIndexer → ExecutionCacheIndexer
  finalize lib h ix = record ix {
    buffer = lib.remove_if (λ r. is_none (l.get_path (h r))) ix.buffer;
  }

  -- The loop of `Precommit`; `none` is the dereference of a nil path.
  unfoldable pub put_all : (ℕ → l.Cell) → List ℕ → Exec l → Option (Exec l)
  put_all h [] s = some s
  put_all h (r ∷ rs) s = l.get_path (h r) >>= λ path. put_all h rs (put_cell l path (h r) s)

  -- The buffer stays as it is.
  unfoldable pub precommit :
      SliceLib → (ℕ → l.Cell) → ExecutionCacheWriter l → Option (ExecutionCacheWriter l)
  unfolding finalize put_all
  precommit lib h w =
      let ix = finalize lib h w.indexer in
      put_all h ix.buffer w.store >>= λ s. some (record { indexer = ix; store = s })

  unfoldable pub commit : ℕ → ExecutionCacheWriter l → ExecutionCacheWriter l
  unfolding clear
  commit version w = record {
    indexer = new_execution_cache_indexer version;
    store = clear l w.store;
  }

  -- Whether a transition is one of the path `k`.
  abbrev pub writes_to : Bytes → Option Bytes → Bool
  writes_to k none = false
  writes_to k (some path) = bytes_eq path k

  -- The last transition of the path `k` that has not been withdrawn, or what was there.
  abbrev pub latest_cell : (ℕ → l.Cell) → List ℕ → Bytes → Option l.Cell → Option l.Cell
  latest_cell h [] k old = old
  latest_cell h (r ∷ rs) k old =
      latest_cell h rs k (if writes_to k (l.get_path (h r)) then some (h r) else old)

  abbrev live : (ℕ → l.Cell) → List ℕ → List ℕ
  live h rs = keep (λ r. not (is_none (l.get_path (h r)))) rs

  put_all-latest :
      (h : ℕ → l.Cell) (rs : List ℕ) (s : Exec l)
      → (s' : Exec l) × (put_all h (live h rs) s ≡ some s')
        × ((k : Bytes) → map_get k s'.local_cells ≡ latest_cell h rs k (map_get k s.local_cells))
  unfolding put_all
  put_all-latest h [] s = (s, refl, λ k. refl)
  put_all-latest h (r ∷ rs) s = elim (Option-cases (l.get_path (h r))) [
    | inl e ↦ let (s', done, reads) = put_all-latest h rs s in (s', rw e done, λ k. rw e (reads k))
    | inr (path, e) ↦
        let (s', done, reads) = put_all-latest h rs (put_cell l path (h r) s) in
        (
          s',
          rw e (rw e done),
          λ k. rw e (reads k ∙ ap (latest_cell h rs k) (map_get-put path k (h r) s.local_cells)),
        )
  ]

  -- `Precommit` never panics; afterwards the local view has at every path the last transition of
  -- the buffer that has not been withdrawn, as the cell is by then, or what it had before.
  pub precommit-latest :
      (lib : SliceLib) (laws : SliceLaws lib) (h : ℕ → l.Cell) (w : ExecutionCacheWriter l)
      → (w' : ExecutionCacheWriter l) × (precommit lib h w ≡ some w')
        × ((k : Bytes)
            → map_get k w'.store.local_cells
              ≡ latest_cell h w.indexer.buffer k (map_get k w.store.local_cells))
  unfolding precommit finalize
  precommit-latest lib laws h w =
      let (s', done, reads) = put_all-latest h w.indexer.buffer w.store in
      let kept = laws.remove_if_lem (λ r. is_none (l.get_path (h r))) w.indexer.buffer in
      (record { indexer = finalize lib h w.indexer; store = s' }, rw (kept, done) refl, reads)
