-- ===== src/ExecStore/Elements.antt =====
-- The operations on the elements of a container leave every local cell under its own path.
use state_engine.Prelude.{ℕ, Bool, false, Option, none, some, ◌++◌, Bytes, ◌>>=◌}
use state_engine.ExecStore.{ExecLib, Exec, Error}
use state_engine.ExecStore.PathOps.{
  peek, get_key_by_idx, key_of_meta, min, max, read_key, read_at, pop_key, pop_last, pop_back,
  write_key, write_at,
}
use state_engine.ExecStore.Lookups.{CellLaws, IsKeyed}
use state_engine.ExecStore.Ends.{Ends, Ends-bind, Ends-then, Ends-if}
use state_engine.ExecStore.Keyed.{PathLaws, Keyed, KeyedAt, read_cell-KeyedAt, read-Keyed}
use state_engine.ExecStore.KeyedWrites.{write-Keyed}

module _ (l : ExecLib) (laws : CellLaws l) (more : PathLaws l) (is_path : Bytes → Bool) where
  pub peek-Keyed :
      (path : Bytes) (hint : Option l.Value) (s : Exec l)
      → IsKeyed l s
      → Ends (Keyed l) (peek l is_path path hint s)
  unfolding peek Ends
  peek-Keyed path hint s keyed =
      Ends-bind (KeyedAt l path) (Keyed l) _ _
        (read_cell-KeyedAt l laws more _ path hint false s keyed) (λ got held. held.0)

  get_key_by_idx-Keyed :
      (tx : ℕ) (path : Bytes) (idx : ℕ) (s : Exec l)
      → IsKeyed l s
      → Ends (Keyed l) (get_key_by_idx l is_path tx path idx s)
  unfolding get_key_by_idx Ends
  get_key_by_idx-Keyed tx path idx s keyed =
      Ends-if (Keyed l) (is_path path) _ _
        (Ends-bind (Keyed l) (Keyed l) _ _
          (read-Keyed l laws more tx path (some l.new_path) s keyed)
          (λ got held.
            Ends-then (Keyed l) got.1.0 _
              (λ meta. Ends-then (Keyed l) (l.as_delta_set meta) _ (λ set. held))))
        keyed

  key_of_meta-Keyed :
      (path : Bytes) (idx size : ℕ) (meta : Option l.Value) (s : Exec l)
      → IsKeyed l s
      → Ends (Keyed l) (key_of_meta l is_path path idx size meta >>= λ key. some (s, key))
  unfolding Ends
  key_of_meta-Keyed path idx size meta s keyed =
      Ends-then (Keyed l {B = Option Bytes × ℕ × Option Error})
        (key_of_meta l is_path path idx size meta) (λ key. some (s, key)) (λ key. keyed)

  pub min-Keyed :
      (tx : ℕ) (path : Bytes) (idx : ℕ) (s : Exec l)
      → IsKeyed l s
      → Ends (Keyed l) (min l is_path tx path idx s)
  unfolding min Ends
  min-Keyed tx path idx s keyed =
      Ends-if (Keyed l) (is_path path) _ _
        (Ends-bind (Keyed l) (Keyed l) _ _
          (read-Keyed l laws more tx path (some l.new_path) s keyed)
          (λ got held. key_of_meta-Keyed path idx got.1.2 got.1.0 got.0 held))
        keyed

  pub max-Keyed :
      (tx : ℕ) (path : Bytes) (idx : ℕ) (s : Exec l)
      → IsKeyed l s
      → Ends (Keyed l) (max l is_path tx path idx s)
  unfolding max Ends
  max-Keyed tx path idx s keyed =
      Ends-if (Keyed l) (is_path path) _ _
        (Ends-bind (Keyed l) (Keyed l) _ _
          (read-Keyed l laws more tx path (some l.new_path) s keyed)
          (λ got held. key_of_meta-Keyed path idx got.1.2 got.1.0 got.0 held))
        keyed

  read_key-Keyed :
      (tx : ℕ) (hint : Option l.Value) (key : Option Bytes × ℕ × Option Error) (s : Exec l)
      → IsKeyed l s
      → Ends (Keyed l) (read_key l is_path tx hint key s)
  unfolding read_key Ends
  read_key-Keyed tx hint (key, size, some e) s keyed = keyed
  read_key-Keyed tx hint (none, size, none) s keyed = keyed
  read_key-Keyed tx hint (some key, size, none) s keyed =
      Ends-bind (Keyed l) (Keyed l) _ _ (read-Keyed l laws more tx key hint s keyed)
        (λ got held. held)

  pub read_at-Keyed :
      (tx : ℕ) (path : Bytes) (idx : ℕ) (hint : Option l.Value) (s : Exec l)
      → IsKeyed l s
      → Ends (Keyed l) (read_at l is_path tx path idx hint s)
  unfolding read_at
  read_at-Keyed tx path idx hint s keyed =
      Ends-bind (Keyed l) (Keyed l) _ _ (get_key_by_idx-Keyed tx path idx s keyed)
        (λ found held. read_key-Keyed tx hint found.1 found.0 held)

  pop_key-Keyed :
      (tx : ℕ) (key : Bytes) (size : ℕ) (got : Option l.Value × l.Cell × ℕ) (s : Exec l)
      → IsKeyed l s
      → Ends (Keyed l) (pop_key l is_path tx key size got s)
  unfolding pop_key Ends
  pop_key-Keyed tx key size (none, cell, more) s keyed = keyed
  pop_key-Keyed tx key size (some v, cell, rest) s keyed =
      Ends-bind (Keyed l) (Keyed l) _ _ (write-Keyed l laws more tx key none s keyed)
        (λ done held. held)

  pop_last-Keyed :
      (tx : ℕ) (path : Bytes) (hint : Option l.Value) (size : ℕ) (last : Option Bytes) (s : Exec l)
      → IsKeyed l s
      → Ends (Keyed l) (pop_last l is_path tx path hint size last s)
  unfolding pop_last Ends
  pop_last-Keyed tx path hint size none s keyed = keyed
  pop_last-Keyed tx path hint size (some key) s keyed =
      Ends-bind (Keyed l) (Keyed l) _ _ (read-Keyed l laws more tx (path ++ key) hint s keyed)
        (λ got held. pop_key-Keyed tx (path ++ key) size got.1 got.0 held)

  pub pop_back-Keyed :
      (tx : ℕ) (path : Bytes) (hint : Option l.Value) (s : Exec l)
      → IsKeyed l s
      → Ends (Keyed l) (pop_back l is_path tx path hint s)
  unfolding pop_back Ends
  pop_back-Keyed tx path hint s keyed =
      Ends-if (Keyed l) (is_path path) _ _
        (Ends-bind (Keyed l) (Keyed l) _ _ (read-Keyed l laws more tx path hint s keyed)
          (λ got held. Ends-then (Keyed l) got.1.0 _ (λ meta.
            Ends-then (Keyed l) (l.as_delta_set meta) _
              (λ set. pop_last-Keyed tx path hint got.1.2 (l.last set) got.0 held))))
        keyed

  write_key-Keyed :
      (tx : ℕ) (v : Option l.Value) (key : Option Bytes × ℕ × Option Error) (s : Exec l)
      → IsKeyed l s
      → Ends (Keyed l) (write_key l is_path tx v key s)
  unfolding write_key Ends
  write_key-Keyed tx v (key, size, some e) s keyed = keyed
  write_key-Keyed tx v (none, size, none) s keyed = tt
  write_key-Keyed tx v (some key, size, none) s keyed =
      Ends-bind (Keyed l) (Keyed l) _ _ (write-Keyed l laws more tx key v s keyed)
        (λ done held. held)

  pub write_at-Keyed :
      (tx : ℕ) (path : Bytes) (idx : ℕ) (v : Option l.Value) (s : Exec l)
      → IsKeyed l s
      → Ends (Keyed l) (write_at l is_path tx path idx v s)
  unfolding write_at Ends
  write_at-Keyed tx path idx v s keyed =
      Ends-if (Keyed l) (is_path path) _ _
        (Ends-bind (Keyed l) (Keyed l) _ _ (get_key_by_idx-Keyed tx path idx s keyed)
          (λ found held. write_key-Keyed tx v found.1 found.0 held))
        keyed
