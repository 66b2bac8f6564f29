-- ===== src/ExecStore/Read.antt =====
-- The lookups of execution_state_store.go and state_cache_wildcard.go.
use state_engine.Prelude.{
  ℕ, ◌+◌, Bool, true, false, Option, none, some, List, [], ◌∷◌, Bytes, bytes_eq, length, take, drop,
  map_get, is_some, leb, ltb, if◌then◌else◌, ◌>>=◌, ℤ, sub_ℕ,
}
use state_engine.Paths.Constants.{eth_account_prefix_length, min_read_size}
use state_engine.Paths.Parent.{get_parent_path}
use state_engine.Platform.{is_immediate_child_of_sys_path}
use state_engine.ExecStore.{ExecLib, Exec, Error, not_in_parent, Found, lib_err, put_cell, save}

module _ (l : ExecLib) where
  -- The cell and the error of the backend.
  unfoldable pub get_from_committed : Exec l → ℕ → Bytes → Option l.Value → l.Cell × Option Error
  get_from_committed s tx path hint = elim s.committed_store [
    | none ↦ (l.init_cell tx path none false, none)
    | some backend ↦
        let got = l.get_as backend path hint in
        (l.init_cell tx path got.0 (is_some got.0), lib_err got.1)
  ]

  -- The cell of a path that a wildcard has deleted.
  unfoldable pub deleted_cell : Exec l → Bytes → Option l.Value → l.Cell × Option Error
  unfolding get_from_committed
  deleted_cell s path hint =
      let got = get_from_committed s 0 path hint in
      (l.increment_writes (l.clear_value got.0), got.1)

  -- The loop over the pending wildcard deletions; `none` is the result `false`.
  unfoldable pub resolve_wildcard_deletion :
      Exec l → Bytes → Option l.Value → List (ℕ × Bytes) → Option (l.Cell × Option Error)
  unfolding deleted_cell
  resolve_wildcard_deletion s path hint [] = none
  resolve_wildcard_deletion s path hint ((generation, wildcard) ∷ rest) =
      if ltb (length path) (length wildcard)
      then resolve_wildcard_deletion s path hint rest
      else if bytes_eq (take (length wildcard) path) wildcard
      then some (deleted_cell s path hint)
      else resolve_wildcard_deletion s path hint rest

  abbrev pub found : l.Cell → Bool → Option Error → Found l
  found cell local err = record { value = l.value cell; cell = cell; local = local; err = err }

  -- `addToLocalCache`, which dereferences the path of the cell.
  unfoldable pub add_to_local_cache :
      l.Cell → Option Error → Exec l → Option Bytes → Option (Exec l × Found l)
  add_to_local_cache cell err s none = none
  add_to_local_cache cell err s (some k) = some (put_cell l k cell s, found cell true err)

  -- The callback `addToLocalCache`, or nil.
  unfoldable pub add_found : Bool → l.Cell → Option Error → Exec l → Option (Exec l × Found l)
  unfolding add_to_local_cache
  add_found false cell err s = some (s, found cell false err)
  add_found true cell err s = add_to_local_cache cell err s (l.get_path cell)

  -- A path that is not in the local cells: the cell that a wildcard has deleted, or the committed one.
  unfoldable pub resolve_deleted :
      ℕ
      → Bytes
      → Option l.Value
      → Bool
      → Exec l
      → Option (l.Cell × Option Error)
      → Option (Exec l × Found l)
  unfolding get_from_committed add_found
  resolve_deleted tx path hint add s (some got) =
      some (put_cell l path got.0 s, found got.0 true got.1)
  resolve_deleted tx path hint add s none =
      let got = get_from_committed s tx path hint in add_found add got.0 got.1 s

  unfoldable pub resolve_local :
      ℕ → Bytes → Option l.Value → Bool → Exec l → Option l.Cell → Option (Exec l × Found l)
  unfolding resolve_deleted resolve_wildcard_deletion
  resolve_local tx path hint add s (some cell) = some (s, found cell true none)
  resolve_local tx path hint add s none =
      resolve_deleted tx path hint add s
        (resolve_wildcard_deletion s path hint s.pending_wildcard_deletes)

  -- `ResolveCellForRead` with `cached` true, as all its callers call it: the local cell, or a cell
  -- that a wildcard has deleted, or the committed one.
  unfoldable pub resolve_cell_for_read :
      ℕ → Bytes → Option l.Value → Bool → Exec l → Option (Exec l × Found l)
  unfolding map_get resolve_local
  resolve_cell_for_read tx path hint add s =
      resolve_local tx path hint add s (map_get path s.local_cells)

  -- `RlpCodec.Decode` with a path as the type: `PathRLP.Decode`. `none` is an error, and a nil value.
  unfoldable pub decode_path_rlp : Bytes → Option l.Value
  decode_path_rlp buffer = elim (l.rlp_decode_bytes buffer) [
    | none ↦ none
    | some decoded ↦ some (l.decode_path decoded)
  ]

  -- `meta.(*commutative.Path)`, after the decoding of a value that is raw bytes.
  unfoldable pub path_meta : l.Value → Option l.PathMeta
  unfolding decode_path_rlp
  path_meta v = elim (l.as_bytes v) [
    | none ↦ l.as_path v
    | some raw ↦ decode_path_rlp raw >>= l.as_path
  ]

  unfoldable pub exists_in_meta : Option l.Value → Bytes → Option Bool
  unfolding path_meta
  exists_in_meta none child = some false
  exists_in_meta (some v) child = path_meta v >>= λ meta. some (l.exists meta child)

  -- The lookup of the metadata of the parent path.
  unfoldable pub ask_parent : ℕ → Bytes → Bytes → Bool → Exec l → Option (Exec l × Bool)
  unfolding resolve_cell_for_read exists_in_meta
  ask_parent tx parent path add s = do
    (s', meta) ← resolve_cell_for_read tx parent (some l.new_path) add s
    ok ← exists_in_meta meta.value (drop (length parent) path)
    some (s', ok)

  unfoldable pub exists_in_parent : ℕ → Bytes → Bool → Exec l → Option (Exec l × Bool)
  unfolding ask_parent get_parent_path is_immediate_child_of_sys_path
  exists_in_parent tx path add s =
      if is_immediate_child_of_sys_path s.platform path
      then some (s, true)
      else ask_parent tx (get_parent_path path).0 path add s

  -- A cell that is in no store.
  abbrev pub missing : ℕ → Bytes → Found l
  missing tx path = record {
    value = none;
    cell = l.init_cell tx path none false;
    local = false;
    err = some not_in_parent;
  }

  unfoldable pub read_cell : ℕ → Bytes → Option l.Value → Bool → Exec l → Option (Exec l × Found l)
  unfolding exists_in_parent resolve_cell_for_read
  read_cell tx path hint add s = do
    (s', ok) ← exists_in_parent tx path add s
    if ok then resolve_cell_for_read tx path hint add s' else some (s', missing tx path)

  abbrev pub size_of : Option l.Value → ℕ
  size_of none = 0
  size_of (some v) = l.mem_size v

  -- The value, the cell and the size.
  unfoldable pub read :
      ℕ → Bytes → Option l.Value → Exec l → Option (Exec l × (Option l.Value × l.Cell × ℕ))
  unfolding read_cell
  read tx path hint s = do
    (s', f) ← read_cell tx path hint true s
    let got = l.get tx path f.cell
    some (save l f.local path got.0 s', (got.1, got.0, min_read_size + size_of f.value))

  -- A read of the committed value; the cell is dropped.
  unfoldable pub read_committed : ℕ → Bytes → Option l.Value → Exec l → Option l.Value × ℕ
  unfolding get_from_committed
  read_committed tx path hint s =
      let got = get_from_committed s tx path hint in
      elim (got.1) [
        | some err ↦ (none, min_read_size)
        | none ↦ ((l.get tx path got.0).1, min_read_size + size_of (l.value got.0))
      ]

  unfoldable pub has_path : Bytes → Exec l → Bool
  unfolding map_get
  has_path path s =
      if leb (length path) eth_account_prefix_length
      then true
      else elim (map_get path s.local_cells) [
        | some cell ↦ is_some (l.value cell)
        | none ↦ elim s.committed_store [ none ↦ false | some backend ↦ l.has backend path ]
      ]

  unfoldable pub get_if_cached : Bytes → Exec l → Option l.Cell
  unfolding map_get
  get_if_cached path s = map_get path s.local_cells

  -- The size of the new value less that of the one that is read.
  unfoldable pub diff_size : ℕ → Bytes → Option l.Value → Exec l → Option (Exec l × ℤ)
  unfolding read_cell
  diff_size tx path new_val s = do
    (s', f) ← read_cell tx path new_val false s
    some (s', sub_ℕ (size_of new_val) (size_of f.value))
