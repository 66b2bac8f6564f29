-- ===== src/ExecStore/Indexes.antt =====
-- `DoReadOnly`, `IndexOf` and `KeyAt` of state_cache_path.go. `do_read` is `StateCell.Do` with the
-- function that counts one read and returns the cell, which may change its counters; `idx_of` and
-- `view_key_at` are the methods of `View()` of a path.
use state_engine.Prelude.{
  ℕ, ◌-◌, ◌^◌, Bool, true, Option, none, some, [], Bytes, if◌then◌else◌, ◌>>=◌,
}
use state_engine.Paths.Constants.{min_read_size}
use state_engine.ExecStore.{ExecLib, Exec, save}
use state_engine.ExecStore.Read.{read_cell}

module _ (l : ExecLib) (is_path : Bytes → Bool) (do_read : ℕ → Bytes → l.Cell → l.Cell)
    (idx_of : l.PathMeta → Bytes → ℕ) (view_key_at : l.PathMeta → ℕ → Option Bytes) where
  -- The cell, put back where it is a local one; the error is always nil.
  unfoldable pub do_read_only : ℕ → Bytes → Option l.Value → Exec l → Option (Exec l × l.Cell)
  unfolding read_cell
  do_read_only tx path hint s = read_cell l tx path hint true s >>= λ got.
      let cell = do_read tx path got.1.cell in some (save l got.1.local path cell got.0, cell)

  -- The index of the key in the value of the cell; a key that is no string is `none`.
  unfoldable pub index_in : Option l.Value → Option Bytes → ℕ
  index_in (some v) (some key) = elim (l.as_path v) [
    | none ↦ 2 ^ 64 - 1
    | some meta ↦ idx_of meta key
  ]
  index_in _ _ = 2 ^ 64 - 1

  unfoldable pub index_of :
      ℕ → Bytes → Option Bytes → Option l.Value → Exec l → Option (Exec l × (ℕ × ℕ))
  unfolding do_read_only index_in
  index_of tx path key hint s =
      if is_path path
      then (do_read_only tx path hint s >>= λ got.
          some (got.0, (index_in (l.value got.1) key, min_read_size)))
      else some (s, (2 ^ 64 - 1, 0))

  -- The key at the index in the value of the cell; an index of another type is `none`.
  unfoldable pub key_in : Option l.Value → Option ℕ → Bytes
  key_in (some v) (some index) = elim (l.as_path v >>= λ meta. view_key_at meta index) [
    | none ↦ []
    | some key ↦ key
  ]
  key_in _ _ = []

  unfoldable pub key_at :
      ℕ → Bytes → Option ℕ → Option l.Value → Exec l → Option (Exec l × (Bytes × ℕ))
  unfolding do_read_only key_in
  key_at tx path index hint s =
      if is_path path
      then (do_read_only tx path hint s >>= λ got.
          some (got.0, (key_in (l.value got.1) index, min_read_size)))
      else some (s, ([], min_read_size))
