-- ===== src/ExecStore/PathOps.antt =====
-- state_cache_path.go: the operations on the elements of a container by their index.
-- `is_path` is `common.IsPath` of the common library.
use state_engine.Prelude.{
  ℕ, ◌+◌, Bool, false, ◌==◌, Option, none, some, [], ◌++◌, Bytes, length, if◌then◌else◌, ◌>>=◌, ℤ,
  pos, ◌+ℤ◌,
}
use state_engine.Paths.Constants.{system, min_read_size, min_write_size}
use state_engine.ExecStore.{
  ExecLib, Exec, Error, not_a_path, exceeded_length, key_not_found, empty_path, empty_container,
}
use state_engine.ExecStore.Read.{read_cell, read}
use state_engine.ExecStore.Write.{write}

module _ (l : ExecLib) (is_path : Bytes → Bool) where
  -- The raw value, the value and its size.
  unfoldable pub peek :
      Bytes → Option l.Value → Exec l → Option (Exec l × (Option l.Value × Option l.Value × ℕ))
  unfolding read_cell
  peek path hint s = read_cell l system path hint false s >>= λ got. some (
    got.0,
    elim (got.1.value) [
      | none ↦ (none, none, min_read_size)
      | some v ↦ (l.raw v, some v, l.mem_size v)
    ],
  )

  -- `KeyAt(idx)` where an empty key is refused.
  unfoldable pub nonempty_key : Bytes → ℕ → Option Bytes → Option Bytes × ℕ × Option Error
  nonempty_key path size none = (none, size, some exceeded_length)
  nonempty_key path size (some sub_key) =
      if length sub_key == 0
      then (none, size, some exceeded_length)
      else (some (path ++ sub_key), size, none)

  -- The metadata is asserted to be a delta set before it is compared with nil.
  unfoldable pub get_key_by_idx :
      ℕ → Bytes → ℕ → Exec l → Option (Exec l × (Option Bytes × ℕ × Option Error))
  unfolding read nonempty_key
  get_key_by_idx tx path idx s =
      if is_path path
      then (read l tx path (some l.new_path) s >>= λ got. got.1.0 >>= λ meta.
          l.as_delta_set meta >>= λ set. some (got.0, nonempty_key path got.1.2 (l.key_at set idx)))
      else some (s, (none, min_read_size, some not_a_path))

  unfoldable pub key_or_error : Bytes → ℕ → Option Bytes → Option Bytes × ℕ × Option Error
  key_or_error path size none = (some [], size, some key_not_found)
  key_or_error path size (some sub_key) = (some (path ++ sub_key), size, none)

  -- The key of a container that may be nil.
  unfoldable pub key_of_meta :
      Bytes → ℕ → ℕ → Option l.Value → Option (Option Bytes × ℕ × Option Error)
  unfolding key_or_error
  key_of_meta path idx size none = some (key_or_error path size none)
  key_of_meta path idx size (some meta) =
      l.as_delta_set meta >>= λ set. some (key_or_error path size (l.key_at set idx))

  unfoldable pub min : ℕ → Bytes → ℕ → Exec l → Option (Exec l × (Option Bytes × ℕ × Option Error))
  unfolding read key_of_meta
  min tx path idx s =
      if is_path path
      then (read l tx path (some l.new_path) s >>= λ got.
          key_of_meta path idx got.1.2 got.1.0 >>= λ key. some (got.0, key))
      else some (s, (none, min_read_size, some not_a_path))

  unfoldable pub max : ℕ → Bytes → ℕ → Exec l → Option (Exec l × (Option Bytes × ℕ × Option Error))
  unfolding read key_of_meta
  max tx path idx s =
      if is_path path
      then (read l tx path (some l.new_path) s >>= λ got.
          key_of_meta path idx got.1.2 got.1.0 >>= λ key. some (got.0, key))
      else some (s, (none, min_read_size, some not_a_path))

  -- The read of the element; a key is present where there is no error.
  unfoldable pub read_key :
      ℕ
      → Option l.Value
      → Option Bytes × ℕ × Option Error
      → Exec l
      → Option (Exec l × (Option l.Value × ℕ × Option Error))
  unfolding read
  read_key tx hint (key, size, some e) s = some (s, (none, size, some e))
  read_key tx hint (none, size, none) s = some (s, (none, size, none))
  read_key tx hint (some key, size, none) s =
      read l tx key hint s >>= λ got. some (got.0, (got.1.0, size + got.1.2, none))

  unfoldable pub read_at :
      ℕ
      → Bytes
      → ℕ
      → Option l.Value
      → Exec l
      → Option (Exec l × (Option l.Value × ℕ × Option Error))
  unfolding get_key_by_idx read_key
  read_at tx path idx hint s =
      get_key_by_idx tx path idx s >>= λ found. read_key tx hint found.1 found.0

  -- The deletion of the value that was read under the last key.
  unfoldable pub pop_key :
      ℕ
      → Bytes
      → ℕ
      → Option l.Value × l.Cell × ℕ
      → Exec l
      → Option (Exec l × (Option l.Value × ℤ × Option Error))
  unfolding write
  pop_key tx key size (none, cell, more) s =
      some (s, (none, pos (size + more), some empty_container))
  pop_key tx key size (some v, cell, more) s = write l tx key none s >>= λ done.
      some (done.0, (some v, pos (size + more) +ℤ done.1.0, done.1.1))

  -- The element under the last key, when there is one.
  unfoldable pub pop_last :
      ℕ
      → Bytes
      → Option l.Value
      → ℕ
      → Option Bytes
      → Exec l
      → Option (Exec l × (Option l.Value × ℤ × Option Error))
  unfolding read pop_key
  pop_last tx path hint size none s = some (s, (none, pos size, some empty_path))
  pop_last tx path hint size (some sub_key) s =
      read l tx (path ++ sub_key) hint s >>= λ got. pop_key tx (path ++ sub_key) size got.1 got.0

  unfoldable pub pop_back :
      ℕ → Bytes → Option l.Value → Exec l → Option (Exec l × (Option l.Value × ℤ × Option Error))
  unfolding read pop_last
  pop_back tx path hint s =
      if is_path path
      then (read l tx path hint s >>= λ got. got.1.0 >>= λ meta.
          l.as_delta_set meta >>= λ set. pop_last tx path hint got.1.2 (l.last set) got.0)
      else some (s, (none, pos min_read_size, some not_a_path))

  -- `key.(string)` panics on nil.
  unfoldable pub write_key :
      ℕ
      → Option l.Value
      → Option Bytes × ℕ × Option Error
      → Exec l
      → Option (Exec l × (ℤ × Option Error))
  unfolding write
  write_key tx value (key, size, some e) s = some (s, (pos size, some e))
  write_key tx value (none, size, none) s = none
  write_key tx value (some key, size, none) s =
      write l tx key value s >>= λ done. some (done.0, (pos size +ℤ done.1.0, done.1.1))

  unfoldable pub write_at :
      ℕ → Bytes → ℕ → Option l.Value → Exec l → Option (Exec l × (ℤ × Option Error))
  unfolding get_key_by_idx write_key
  write_at tx path idx value s =
      if is_path path
      then (get_key_by_idx tx path idx s >>= λ found. write_key tx value found.1 found.0)
      else some (s, (pos min_write_size, some not_a_path))
