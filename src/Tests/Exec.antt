-- ===== src/Tests/Exec.antt =====
-- The theorems on the local view of the state, at the stores of `Fixtures`.
use state_engine.Prelude.{
  ℕ, ◌≡◌, refl, true, false, ◌||◌, Option, none, some, List, [], ◌∷◌, Bytes, codes, bytes_eq,
  map_get, map_put, ◌==◌, if◌then◌else◌, ◌+◌, pos, sub_ℕ, has_suffix,
}
use state_engine.Libs.SliceLib.{plain_slices, plain_slices-laws}
use state_engine.Libs.Stores.{contains}
use state_engine.Paths.Parent.{get_parent_path}
use state_engine.Platform.{new_platform, is_container_path, is_immediate_child_of_sys_path}
use state_engine.ExecStore.{Exec, Found, parent_missing, put_cell}
use state_engine.ExecStore.Read.{
  resolve_cell_for_read, exists_in_meta, path_meta, read_cell, has_path, size_of, resolve_local,
  resolve_deleted, resolve_wildcard_deletion, get_from_committed, add_found, add_to_local_cache,
  read, exists_in_parent, ask_parent,
}
use state_engine.ExecStore.Write.{is_special, set_local, inject, write_cell, is_invalid, write}
use state_engine.ExecStore.Export.{address_of, remove_by_address}
use state_engine.ExecStore.Writer.{ExecutionCacheWriter, precommit, latest_cell, precommit-latest}
use state_engine.ExecStore.Lookups.{covered, committed_value, below, over, view, IsKeyed, ViewsBut}
use state_engine.ExecStore.Resolve.{resolve_cell_for_read-view}
use state_engine.ExecStore.Reads.{parent_of_path, listed, read_cell-readable}
use state_engine.ExecStore.Writes.{write_cell-view}
use state_engine.ExecStore.Sizes.{write-parent_missing, write-size_zero}
use state_engine.ExecStore.Filters.{belongs, remove_by_address-get}
use state_engine.Paths.Constants.{min_read_size}
use state_engine.ExecStore.Calls.{Given}
use state_engine.ExecStore.Reachable.{Reached, fresh, after, by_inject, by_read, Reached-IsKeyed}
use state_engine.Tests.Fixtures.{
  lib-PathLaws, committed, ids, container, Value, number, cell_at, lib, lib-CellLaws, plain,
  element, inner, slot, orphan, store, wiped, store-IsKeyed, wiped-IsKeyed,
}

resolve_cell_for_read-view_example :
    (s' : Exec lib) × (f : Found lib) × (resolve_cell_for_read lib 1 element none true wiped
      ≡ some (s', f))
    × (f.value ≡ view lib element none wiped)
    × ((k : Bytes) → view lib k none s' ≡ view lib k none wiped)
    × ViewsBut lib (λ k. bytes_eq element k) wiped s'
    × IsKeyed lib s'
resolve_cell_for_read-view_example =
    resolve_cell_for_read-view lib lib-CellLaws 1 element none true wiped wiped-IsKeyed

read_cell-readable_example :
    (s' : Exec lib) × (f : Found lib) × (read_cell lib 1 element none true store ≡ some (s', f))
    × (f.value ≡ (if true then view lib element none store else none))
    × (view lib element none s' ≡ view lib element none store)
    × ViewsBut lib (λ k. bytes_eq (parent_of_path element) k || bytes_eq element k) store s'
    × IsKeyed lib s'
unfolding listed view over below covered committed_value map_get bytes_eq exists_in_meta
    get_parent_path is_immediate_child_of_sys_path contains
read_cell-readable_example =
    read_cell-readable lib lib-CellLaws 1 element none true store true store-IsKeyed refl refl

write_cell-view_example :
    (s' : Exec lib) × (c : lib.Cell) × (write_cell lib 1 inner (some (number 6)) store
      ≡ some (s', (c, none)))
    × ((h : Option Value) → view lib inner h s' ≡ some (number 6))
    × ViewsBut lib (λ k. bytes_eq (parent_of_path inner) k || bytes_eq inner k) store s'
    × IsKeyed lib s'
unfolding is_special has_suffix bytes_eq is_container_path has_path map_get get_parent_path
write_cell-view_example =
    write_cell-view lib lib-CellLaws 1 inner (some (number 6)) store store-IsKeyed (plain 1 inner)
      refl refl refl refl

write-parent_missing_example :
    (s' : Exec lib) × (write lib 1 orphan (some (number 6)) store
      ≡ some (
        s',
        (
          sub_ℕ
              (size_of lib (some (number 6)))
              (size_of lib (if false then view lib orphan (some (number 6)) store else none)),
          some (parent_missing (parent_of_path orphan) orphan),
        ),
      ))
    × ViewsBut lib (λ k. bytes_eq (parent_of_path orphan) k || bytes_eq orphan k) store s'
unfolding listed view over below covered committed_value map_get bytes_eq exists_in_meta
    get_parent_path is_immediate_child_of_sys_path contains is_invalid has_path
write-parent_missing_example =
    write-parent_missing lib lib-CellLaws 1 orphan (some (number 6)) store false store-IsKeyed refl
      refl refl refl

write-size_zero_example :
    (s' : Exec lib) × (write lib 1 slot (some (number 6)) store ≡ some (s', (pos 0, none)))
    × (view lib slot (some (number 6)) s' ≡ some (number 6))
unfolding is_special has_suffix bytes_eq is_container_path has_path map_get get_parent_path
    is_invalid is_immediate_child_of_sys_path
write-size_zero_example =
    write-size_zero lib lib-CellLaws 1 slot (some (number 6)) store store-IsKeyed (plain 1 slot)
      refl refl refl refl refl refl

-- Transition 1 has been withdrawn; 0 and 2 are of one path.
abbrev heap : ℕ → lib.Cell
heap r = record {
  path = if r == 1 then none else some slot;
  content = some (number r);
  writes = 0;
  bound = false;
}

abbrev generation : ExecutionCacheWriter lib
generation = record { indexer = record { version = 0; buffer = 0 ∷ 1 ∷ 2 ∷ [] }; store = store }

precommit-latest_example :
    (w' : ExecutionCacheWriter lib) × (precommit lib plain_slices heap generation ≡ some w')
    × ((k : Bytes)
        → map_get k w'.store.local_cells
          ≡ latest_cell lib heap generation.indexer.buffer k
              (map_get k generation.store.local_cells))
precommit-latest_example = precommit-latest lib plain_slices plain_slices-laws heap generation

abbrev cells : List (Bytes × lib.Cell)
cells = (slot, cell_at slot none) ∷ (element, cell_at element none) ∷ []

remove_by_address-get_example :
    (m : List (Bytes × lib.Cell)) × (remove_by_address lib
        (codes "0x41eff1c3adfca1ccacced2198241747863dbf800")
        cells
      ≡ some m)
    × ((k : Bytes)
        → map_get k m ≡ (
            if belongs lib (codes "0x41eff1c3adfca1ccacced2198241747863dbf800") k
            then none
            else map_get k cells))
unfolding address_of
remove_by_address-get_example =
    remove_by_address-get lib (codes "0x41eff1c3adfca1ccacced2198241747863dbf800") cells (
      (codes "0x41eff1c3adfca1ccacced2198241747863dbf800", refl),
      ((codes "0x41eff1c3adfca1ccacced2198241747863dbf800", refl), tt),
    )

abbrev given : Given lib
given = record {
  slices = plain_slices;
  is_path = λ path. has_suffix path (codes "/");
  is_committed = λ c. false;
  copy_to = λ c s. s;
  sorter = λ cs. cs;
  do_read = λ tx path c. c;
  idx_of = λ names key. 0;
  view_key_at = λ names i. none;
}

-- A slot that has been injected, and then an element of the container that has been read.
abbrev filled : Exec lib
filled = put_cell lib element (cell_at element (some (number 5))) (
    put_cell lib container (cell_at container (committed container))
      (put_cell lib slot (cell_at slot (some (number 6))) store))

filled-Reached : Reached lib given filled
unfolding inject resolve_cell_for_read resolve_local resolve_deleted resolve_wildcard_deletion
    get_from_committed add_found add_to_local_cache set_local map_get bytes_eq read read_cell
    exists_in_parent ask_parent exists_in_meta is_immediate_child_of_sys_path contains
    get_parent_path path_meta is_container_path map_put
filled-Reached =
    after
      (after (fresh (some committed) (new_platform ids))
        (by_inject 1 slot (some (number 6)) ((cell_at slot (some (number 6)), none), refl)))
      (by_read {s = put_cell lib slot (cell_at slot (some (number 6))) store} 1 element none
        ((some (number 5), cell_at element (some (number 5)), min_read_size + 8), refl))

Reached-IsKeyed_example : IsKeyed lib filled
Reached-IsKeyed_example =
    Reached-IsKeyed lib given lib-CellLaws lib-PathLaws
      (record { get_path-do_read = λ tx path c. refl; copy_to-IsKeyed = λ c s keyed. keyed })
      filled-Reached
