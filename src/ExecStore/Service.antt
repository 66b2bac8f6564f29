-- ===== src/ExecStore/Service.antt =====
-- What execution_state_store.go offers to the scheduler: `ExportAll`, `KVs`, `GetWriters` and the
-- setters. `to_accesses` and `to_transitions` are `StateCells.To` of the common library, and
-- `values`, `sorter` and the writers of a committed store are the common library's too.
use state_engine.Prelude.{ℕ, Option, none, some, List, [], ◌∷◌, map, Bytes, if◌then◌else◌, ◌>>=◌}
use state_engine.Libs.SliceLib.{SliceLib}
use state_engine.Platform.{Platform}
use state_engine.ExecStore.{ExecLib, Exec, ExecutionStateStore, new_execution_state_store}
use state_engine.ExecStore.Export.{export}
use state_engine.ExecStore.Writer.{ExecutionCacheWriter, new_execution_cache_writer}

-- The shards and the hash are those of the memory pool.
abbrev pub new_default_execution_state_store :
    {Cell Backend : Type 0} → Option Backend → Platform → ExecutionStateStore Cell Backend
new_default_execution_state_store backend platform = new_execution_state_store backend platform

-- The writer of the local view itself, or one of the committed store.
pub data StoreWriter (l : ExecLib) (W : Type 0) : Type 0 where
  of_view : ExecutionCacheWriter l → StoreWriter l W
  of_committed : W → StoreWriter l W

module _ (l : ExecLib) where
  unfoldable pub set_committed_store : Option l.Backend → Exec l → Exec l
  set_committed_store backend s = record s { committed_store = backend }

  unfoldable pub set_id : ℕ → Exec l → Exec l
  set_id id s = record s { id = id }

  unfoldable pub set_version : ℕ → Exec l → Exec l
  set_version version s = record s { state_version = version }

  -- The accesses and the transitions; the preprocessors that it is given are not passed on.
  unfoldable pub export_all :
      SliceLib
      → (List (Bytes × l.Cell) → List l.Cell)
      → (List l.Cell → List l.Cell)
      → (List l.Cell → List l.Cell)
      → Exec l
      → List l.Cell × List l.Cell
  unfolding export
  export_all lib values to_accesses to_transitions s =
      let all = export l lib values [] s in (to_accesses all, to_transitions all)

  -- The path of a cell and its value, which is asserted to be a CRDT: nil is a panic.
  unfoldable pub key_value : l.Cell → Option (Bytes × l.Value)
  key_value v =
      l.value v >>= λ x. if l.is_crdt x then (l.get_path v >>= λ path. some (path, x)) else none

  unfoldable pub key_values : List l.Cell → Option (List Bytes × List l.Value)
  unfolding key_value
  key_values [] = some ([], [])
  key_values (v ∷ vs) =
      key_value v >>= λ first. key_values vs >>= λ rest. some (first.0 ∷ rest.0, first.1 ∷ rest.1)

  unfoldable pub kvs :
      SliceLib
      → (List (Bytes × l.Cell) → List l.Cell)
      → (List l.Cell → List l.Cell)
      → (List l.Cell → List l.Cell)
      → Exec l
      → Option (List Bytes × List l.Value)
  unfolding export key_values
  kvs lib values sorter to_transitions s =
      key_values (to_transitions (export l lib values (some sorter ∷ []) s))

  -- The version of the writer is the signed reading of these 64 bits. `versioned` is the assertion
  -- that the committed store has writers, and those; `none` is a panic.
  unfoldable pub get_writers :
      {W : Type 0} → (l.Backend → Option (List W)) → Exec l → Option (List (StoreWriter l W))
  get_writers versioned s =
      let self = of_view (new_execution_cache_writer l s s.state_version) in
      elim s.committed_store [
        | none ↦ some (self ∷ [])
        | some backend ↦ versioned backend >>= λ ws. some (self ∷ map of_committed ws)
      ]
