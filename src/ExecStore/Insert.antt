-- ===== src/ExecStore/Insert.antt =====
-- `set` and `Insert` of execution_state_store.go: the transitions of another view are copied into
-- this one. `is_path`, `is_committed`, `copy_to` and `sorter` are the common library's, and the copy
-- may write to the store.
use state_engine.Prelude.{
  Bool, not, ◌&&◌, Option, none, some, List, [], ◌∷◌, Bytes, if◌then◌else◌, ◌>>=◌,
}
use state_engine.Libs.SliceLib.{SliceLib}
use state_engine.ExecStore.{ExecLib, Exec}

module _ (l : ExecLib) (slices : SliceLib) (is_path : Bytes → Bool) (is_committed : l.Cell → Bool)
    (copy_to : l.Cell → Exec l → Exec l) (sorter : List l.Cell → List l.Cell) where
  -- A nil cell, or a committed path, is left out.
  unfoldable pub set_cell : Option l.Cell → Exec l → Option (Exec l)
  set_cell none s = some s
  set_cell (some v) s =
      l.get_path v >>= λ path. some (if is_path path && is_committed v then s else copy_to v s)

  -- The cells with their paths; a nil path is a panic.
  unfoldable pub with_paths : List l.Cell → Option (List (Bytes × l.Cell))
  with_paths [] = some []
  with_paths (v ∷ vs) = l.get_path v >>= λ path. with_paths vs >>= λ rest. some ((path, v) ∷ rest)

  unfoldable pub cells_of : List (Bytes × l.Cell) → List l.Cell
  cells_of [] = []
  cells_of ((path, v) ∷ rest) = v ∷ cells_of rest

  unfoldable pub copy_all : List l.Cell → Exec l → Exec l
  copy_all [] s = s
  copy_all (v ∷ vs) s = copy_all vs (copy_to v s)

  -- The new paths first, in the order of the sorter; the other transitions of paths are dropped, and
  -- the rest follows.
  unfoldable pub insert : List l.Cell → Exec l → Option (Exec l)
  unfolding with_paths cells_of copy_all
  insert transitions s = with_paths transitions >>= λ known.
      let split = slices.move_if (λ p. is_path p.0 && not (is_committed p.1)) known in
      let rest = slices.remove_if (λ p. is_path p.0) split.1 in
      some (copy_all (cells_of rest) (copy_all (sorter (cells_of split.0)) s))
