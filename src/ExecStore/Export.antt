-- ===== src/ExecStore/Export.antt =====
-- What leaves the local view: `WildcardsToStateCell`, `Export` and `Clear`, and state_cache_filter.go.
-- `values` is `mapi.Values` of the common library, which fixes an order of the entries of a map, and
-- `keep_entries` is `mapi.RemoveIf` by what stays.
use state_engine.Prelude.{
  ℕ, Bool, true, Option, none, some, List, [], ◌∷◌, ◌++◌, Bytes, codes, bytes_eq, slice, length,
  ltb, if◌then◌else◌, ◌>>=◌,
}
use state_engine.Paths.Constants.{eth_account_prefix_length, eth_account_full_length}
use state_engine.Libs.SliceLib.{SliceLib}
use state_engine.Libs.Stores.{contains}
use state_engine.ExecStore.{ExecLib, Exec}

module _ (l : ExecLib) where
  -- One cell for each pending wildcard deletion.
  unfoldable pub wildcards_to_state_cell : List (ℕ × Bytes) → List l.Cell
  wildcards_to_state_cell [] = []
  wildcards_to_state_cell ((generation, wildcard) ∷ rest) =
      l.set_preexist true (l.new_state_cell generation (wildcard ++ codes "*") none)
      ∷ wildcards_to_state_cell rest

  -- The preprocessors; nil ones are passed over.
  unfoldable pub run_preprocs :
      List (Option (List l.Cell → List l.Cell)) → List l.Cell → List l.Cell
  run_preprocs [] buffer = buffer
  run_preprocs (none ∷ procs) buffer = run_preprocs procs buffer
  run_preprocs (some proc ∷ procs) buffer = run_preprocs procs (proc buffer)

  unfoldable pub export :
      SliceLib
      → (List (Bytes × l.Cell) → List l.Cell)
      → List (Option (List l.Cell → List l.Cell))
      → Exec l
      → List l.Cell
  unfolding wildcards_to_state_cell run_preprocs
  export lib values procs s =
      lib.remove_if l.path_lookup_only (run_preprocs procs (values s.local_cells))
      ++ wildcards_to_state_cell s.pending_wildcard_deletes

  -- The pending wildcard deletions stay.
  unfoldable pub clear : Exec l → Exec l
  clear s = record s { local_cells = [] }

  -- `path[PREFIX : PREFIX + LENGTH]`, which panics on a path that is shorter.
  unfoldable pub address_of : Bytes → Option Bytes
  address_of path =
      if ltb (length path) eth_account_full_length
      then none
      else some (slice path eth_account_prefix_length eth_account_full_length)

  -- `RemoveByAddress`, over the entries of the map.
  unfoldable pub remove_by_address : Bytes → List (Bytes × l.Cell) → Option (List (Bytes × l.Cell))
  unfolding address_of
  remove_by_address addr [] = some []
  remove_by_address addr ((path, cell) ∷ rest) = address_of path >>= λ a.
      remove_by_address addr rest >>= λ others.
      some (if bytes_eq a addr then others else (path, cell) ∷ others)

  unfoldable pub add_to_auto_reversion : Bytes → List Bytes → List Bytes
  unfolding contains
  add_to_auto_reversion addr ignored = if contains addr ignored then ignored else addr ∷ ignored

  -- Whether the transition is of an address that is ignored.
  unfoldable pub is_ignored : List Bytes → l.Cell → Option Bool
  unfolding address_of contains
  is_ignored ignored cell =
      l.get_path cell >>= λ path. address_of path >>= λ a. some (contains a ignored)

  unfoldable pub remove_ignored : List Bytes → List l.Cell → Option (List l.Cell)
  unfolding is_ignored
  remove_ignored ignored [] = some []
  remove_ignored ignored (cell ∷ rest) = is_ignored ignored cell >>= λ gone.
      remove_ignored ignored rest >>= λ others. some (if gone then others else cell ∷ others)

  unfoldable pub filter_by_address : List Bytes → List l.Cell → Option (List l.Cell)
  unfolding remove_ignored
  filter_by_address [] transitions = some transitions
  filter_by_address (a ∷ ignored) transitions = remove_ignored (a ∷ ignored) transitions
