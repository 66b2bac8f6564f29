-- ===== src/ExecStore/Write.antt =====
-- The writes of execution_state_store.go.
use state_engine.Prelude.{
  ℕ, Bool, true, false, not, ◌&&◌, ◌||◌, ◌==◌, Option, none, some, Bytes, codes, has_suffix,
  map_get, if◌then◌else◌, ◌>>=◌, ℤ, pos,
}
use state_engine.Paths.Constants.{system}
use state_engine.Paths.Parent.{get_parent_path}
use state_engine.Platform.{Platform, is_sys_path, is_container_path}
use state_engine.ExecStore.{
  ExecLib, Exec, Error, unknown_data_type, parent_missing, lib_err, put_cell, save,
}
use state_engine.ExecStore.Read.{resolve_cell_for_read, read_cell, has_path, diff_size}

-- The paths with an expression in place of a key.
unfoldable pub is_special : Bytes → Bool
is_special path = has_suffix path (codes "*") || has_suffix path (codes "[:]")

-- Whether a write under a parent path changes the metadata of the parent.
unfoldable pub tracks_children : Platform → ℕ → Bytes → Bool
unfolding is_sys_path is_container_path
tracks_children p tx parent =
    is_container_path p parent || (not (is_sys_path p parent) && not (tx == system))

module _ (l : ExecLib) where
  -- `cell.Set(tx, path, value, this)` on the local cell of `key`.
  unfoldable pub set_local :
      Bytes → ℕ → Bytes → Option l.Value → l.Cell → Exec l → Exec l × (l.Cell × Option Error)
  set_local key tx path value cell s =
      let out = l.set tx path value cell s in
      (put_cell l key out.0.0 out.1, (out.0.0, lib_err out.0.1))

  -- The metadata of the parent path records the child.
  unfoldable pub update_parent :
      ℕ → Bytes → Bytes → Option l.Value → Exec l → Option (Exec l × Option Error)
  unfolding resolve_cell_for_read set_local tracks_children
  update_parent tx parent path child s =
      if tracks_children s.platform tx parent
      then (resolve_cell_for_read l tx parent (some l.new_path) true s >>= λ got.
          let out = set_local parent tx path child got.1.cell got.0 in some (out.0, out.1.1))
      else some (s, none)

  -- The cell a pointer stands for after other calls: that of the store, if it is a local cell.
  unfoldable pub current : Bool → Bytes → l.Cell → Exec l → l.Cell
  unfolding map_get
  current false path cell s = cell
  current true path cell s = elim (map_get path s.local_cells) [ none ↦ cell | some c ↦ c ]

  -- `cell.SetBlockBound(b)`
  unfoldable pub bind_cell :
      Bool → Bool → Bytes → l.Cell → Option Error → Exec l → Exec l × (l.Cell × Option Error)
  unfolding current
  bind_cell bound local path cell err s =
      let marked = l.set_block_bound bound (current local path cell s) in
      (save l local path marked s, (marked, err))

  -- The cell takes the transient status of its container; the error is that of the read.
  unfoldable pub inherit_bound :
      Bool
      → ℕ
      → Bytes
      → Bytes
      → l.Cell
      → Option Error
      → Exec l
      → Option (Exec l × (l.Cell × Option Error))
  unfolding read_cell bind_cell current is_container_path
  inherit_bound local tx parent path cell err s =
      if is_container_path s.platform parent
      then (read_cell l tx parent (some l.new_path) false s >>= λ got. elim (got.1.value) [
        | none ↦ some (got.0, (current local path cell got.0, got.1.err))
        | some v ↦
            (l.as_path v >>= λ meta.
            some (bind_cell (l.is_block_bound meta) local path cell got.1.err got.0))
      ])
      else some (s, (current local path cell s, err))

  -- The rest of `write` after the value is set.
  unfoldable pub write_parent :
      Bool → ℕ → Bytes → Bytes → l.Cell → Exec l → Option (Exec l × (l.Cell × Option Error))
  unfolding update_parent inherit_bound
  write_parent local tx parent path cell s =
      update_parent tx parent path (l.value cell) s >>= λ done.
      inherit_bound local tx parent path cell done.1 done.0

  unfoldable pub after_set :
      ℕ
      → Bytes
      → Bytes
      → Exec l × (l.Cell × Option Error)
      → Option (Exec l × (l.Cell × Option Error))
  unfolding write_parent
  after_set tx parent path out = elim (out.1.1) [
    | some e ↦ some out
    | none ↦ write_parent true tx parent path out.1.0 out.0
  ]

  -- `write`, where the parent exists.
  unfoldable pub write_under :
      ℕ → Bytes → Bytes → Option l.Value → Exec l → Option (Exec l × (l.Cell × Option Error))
  unfolding resolve_cell_for_read set_local after_set write_parent is_special
  write_under tx parent path value s =
      if is_special path
      then write_parent false tx parent path (l.new_state_cell tx path value) s
      else (resolve_cell_for_read l tx path value true s >>= λ got.
          after_set tx parent path (set_local path tx path value got.1.cell got.0))

  -- `write`: the cell and the error.
  unfoldable pub write_cell :
      ℕ → Bytes → Option l.Value → Exec l → Option (Exec l × (l.Cell × Option Error))
  unfolding write_under has_path get_parent_path
  write_cell tx path value s =
      let parent = (get_parent_path path).0 in
      if has_path l parent s || (tx == system)
      then write_under tx parent path value s
      else some (s, (l.new_state_cell tx path value, some (parent_missing parent path)))

  -- `newVal != nil && newVal.TypeID() == uint8(reflect.Invalid)`
  unfoldable pub is_invalid : Option l.Value → Bool
  is_invalid none = false
  is_invalid (some v) = l.type_id v == 0

  -- `Write` without a callback: the difference of the sizes and the error.
  unfoldable pub write : ℕ → Bytes → Option l.Value → Exec l → Option (Exec l × (ℤ × Option Error))
  unfolding write_cell diff_size is_invalid
  write tx path value s =
      if is_invalid value
      then some (s, (pos 0, some unknown_data_type))
      else (write_cell tx path value s >>= λ out.
          diff_size l tx path value out.0 >>= λ diff. some (diff.0, (diff.1, out.1.1)))

  -- The cell and the error.
  unfoldable pub inject :
      ℕ → Bytes → Option l.Value → Exec l → Option (Exec l × (l.Cell × Option Error))
  unfolding resolve_cell_for_read set_local
  inject tx path value s = resolve_cell_for_read l tx path value true s >>= λ got.
      some (set_local path tx path value got.1.cell got.0)
