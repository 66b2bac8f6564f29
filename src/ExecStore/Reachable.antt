-- ===== src/ExecStore/Reachable.antt =====
-- The local view as a state machine: the stores that its operations reach from a new one.
use state_engine.Prelude.{ℕ, ◌≡◌, ◌≢◌, refl, Bool, Option, some, List, [], ◌∷◌, Bytes, map_get}
use state_engine.Platform.{Platform}
use state_engine.ExecStore.{ExecLib, Exec, new_execution_state_store}
use state_engine.ExecStore.Read.{
  resolve_cell_for_read, exists_in_parent, diff_size, read_cell, read,
}
use state_engine.ExecStore.Write.{write, inject}
use state_engine.ExecStore.PathOps.{peek, min, max, read_at, pop_back, write_at}
use state_engine.ExecStore.Indexes.{do_read_only, index_of, key_at}
use state_engine.ExecStore.Backend.{get, get_as}
use state_engine.ExecStore.Insert.{insert}
use state_engine.ExecStore.Export.{clear}
use state_engine.ExecStore.Writer.{ExecutionCacheWriter, precommit, commit}
use state_engine.ExecStore.Lookups.{CellLaws, IsKeyed}
use state_engine.ExecStore.Ends.{Ends, Ends-some}
use state_engine.ExecStore.Keyed.{
  resolve-Keyed, exists_in_parent-Keyed, diff_size-Keyed, PathLaws, Keyed, read_cell-Keyed,
  read-Keyed,
}
use state_engine.ExecStore.KeyedWrites.{write-Keyed, inject-Keyed}
use state_engine.ExecStore.Elements.{
  peek-Keyed, min-Keyed, max-Keyed, read_at-Keyed, pop_back-Keyed, write_at-Keyed,
}
use state_engine.ExecStore.Service.{set_committed_store, set_id, set_version}
use state_engine.ExecStore.Calls.{
  do_read_only-Keyed, Given, GivenLaws, get-Keyed, get_as-Keyed, index_of-Keyed, key_at-Keyed,
  insert-IsKeyed, precommit-IsKeyed,
}

map_get-empty :
    {A : Type 0} (k : Bytes) (c : A) (m : List (Bytes × A)) → m ≡ [] → map_get k m ≢ some c
unfolding map_get
map_get-empty k c [] e h = cc
map_get-empty k c (x ∷ m) e h = cc

module _ (l : ExecLib) (g : Given l) where
  -- A run that does not panic leaves this store.
  abbrev pub Leaves : {B : Type 0} → Option (Exec l × B) → Exec l → Type 0
  Leaves {B} m s' = (b : B) × (m ≡ some (s', b))

  -- One call of an operation.
  pub data Step : Exec l → Exec l → Type 0 where
    by_read :
        {s s' : Exec l} (tx : ℕ) (path : Bytes) (hint : Option l.Value)
        → Leaves (read l tx path hint s) s'
        → Step s s'
    by_read_cell :
        {s s' : Exec l} (tx : ℕ) (path : Bytes) (hint : Option l.Value) (add : Bool)
        → Leaves (read_cell l tx path hint add s) s'
        → Step s s'
    by_write :
        {s s' : Exec l} (tx : ℕ) (path : Bytes) (v : Option l.Value)
        → Leaves (write l tx path v s) s'
        → Step s s'
    by_inject :
        {s s' : Exec l} (tx : ℕ) (path : Bytes) (v : Option l.Value)
        → Leaves (inject l tx path v s) s'
        → Step s s'
    by_get : {s s' : Exec l} (path : Bytes) → Leaves (get l path s) s' → Step s s'
    by_get_as :
        {s s' : Exec l} (path : Bytes) (hint : Option l.Value)
        → Leaves (get_as l path hint s) s'
        → Step s s'
    by_peek :
        {s s' : Exec l} (path : Bytes) (hint : Option l.Value)
        → Leaves (peek l g.is_path path hint s) s'
        → Step s s'
    by_min :
        {s s' : Exec l} (tx : ℕ) (path : Bytes) (idx : ℕ)
        → Leaves (min l g.is_path tx path idx s) s'
        → Step s s'
    by_max :
        {s s' : Exec l} (tx : ℕ) (path : Bytes) (idx : ℕ)
        → Leaves (max l g.is_path tx path idx s) s'
        → Step s s'
    by_read_at :
        {s s' : Exec l} (tx : ℕ) (path : Bytes) (idx : ℕ) (hint : Option l.Value)
        → Leaves (read_at l g.is_path tx path idx hint s) s'
        → Step s s'
    by_pop_back :
        {s s' : Exec l} (tx : ℕ) (path : Bytes) (hint : Option l.Value)
        → Leaves (pop_back l g.is_path tx path hint s) s'
        → Step s s'
    by_write_at :
        {s s' : Exec l} (tx : ℕ) (path : Bytes) (idx : ℕ) (v : Option l.Value)
        → Leaves (write_at l g.is_path tx path idx v s) s'
        → Step s s'
    by_index_of :
        {s s' : Exec l} (tx : ℕ) (path : Bytes) (key : Option Bytes) (hint : Option l.Value)
        → Leaves (index_of l g.is_path g.do_read g.idx_of g.view_key_at tx path key hint s) s'
        → Step s s'
    by_key_at :
        {s s' : Exec l} (tx : ℕ) (path : Bytes) (index : Option ℕ) (hint : Option l.Value)
        → Leaves (key_at l g.is_path g.do_read g.idx_of g.view_key_at tx path index hint s) s'
        → Step s s'
    by_insert :
        {s s' : Exec l} (transitions : List l.Cell)
        → insert l g.slices g.is_path g.is_committed g.copy_to g.sorter transitions s ≡ some s'
        → Step s s'
    by_precommit :
        (w w' : ExecutionCacheWriter l) (h : ℕ → l.Cell)
        → precommit l g.slices h w ≡ some w'
        → Step w.store w'.store
    by_commit : (w : ExecutionCacheWriter l) (version : ℕ) → Step w.store (commit l version w).store
    by_do_read_only :
        {s s' : Exec l} (tx : ℕ) (path : Bytes) (hint : Option l.Value)
        → Leaves (do_read_only l g.is_path g.do_read g.idx_of g.view_key_at tx path hint s) s'
        → Step s s'
    by_resolve :
        {s s' : Exec l} (tx : ℕ) (path : Bytes) (hint : Option l.Value) (add : Bool)
        → Leaves (resolve_cell_for_read l tx path hint add s) s'
        → Step s s'
    by_exists_in_parent :
        {s s' : Exec l} (tx : ℕ) (path : Bytes) (add : Bool)
        → Leaves (exists_in_parent l tx path add s) s'
        → Step s s'
    by_diff_size :
        {s s' : Exec l} (tx : ℕ) (path : Bytes) (v : Option l.Value)
        → Leaves (diff_size l tx path v s) s'
        → Step s s'
    by_set_committed_store :
        (backend : Option l.Backend) (s : Exec l) → Step s (set_committed_store l backend s)
    by_set_id : (id : ℕ) (s : Exec l) → Step s (set_id l id s)
    by_set_version : (version : ℕ) (s : Exec l) → Step s (set_version l version s)
    by_clear : (s : Exec l) → Step s (clear l s)

  -- A new store, and what the operations make of it one after the other.
  pub data Reached : Exec l → Type 0 where
    fresh : (b : Option l.Backend) (p : Platform) → Reached (new_execution_state_store b p)
    after : {s s' : Exec l} → Reached s → Step s s' → Reached s'

  module _ (laws : CellLaws l) (more : PathLaws l) (given : GivenLaws l g) where
    Leaves-IsKeyed :
        {B : Type 0} (m : Option (Exec l × B)) (s' : Exec l)
        → Ends (Keyed l) m
        → Leaves m s'
        → IsKeyed l s'
    Leaves-IsKeyed m s' ends (b, e) = Ends-some (Keyed l) m (s', b) ends e

    empty-IsKeyed : (s : Exec l) → s.local_cells ≡ [] → IsKeyed l s
    empty-IsKeyed s e k c held = absurd (map_get-empty k c s.local_cells e held)

    Step-IsKeyed : {s s' : Exec l} → Step s s' → IsKeyed l s → IsKeyed l s'
    unfolding commit clear set_committed_store set_id set_version
    Step-IsKeyed {s} {s'} (by_read tx path hint e) keyed =
        Leaves-IsKeyed _ s' (read-Keyed l laws more tx path hint s keyed) e
    Step-IsKeyed {s} {s'} (by_read_cell tx path hint add e) keyed =
        Leaves-IsKeyed _ s' (read_cell-Keyed l laws more tx path hint add s keyed) e
    Step-IsKeyed {s} {s'} (by_write tx path v e) keyed =
        Leaves-IsKeyed _ s' (write-Keyed l laws more tx path v s keyed) e
    Step-IsKeyed {s} {s'} (by_inject tx path v e) keyed =
        Leaves-IsKeyed _ s' (inject-Keyed l laws more tx path v s keyed) e
    Step-IsKeyed {s} {s'} (by_get path e) keyed =
        Leaves-IsKeyed _ s' (get-Keyed l g laws more given path s keyed) e
    Step-IsKeyed {s} {s'} (by_get_as path hint e) keyed =
        Leaves-IsKeyed _ s' (get_as-Keyed l g laws more given path hint s keyed) e
    Step-IsKeyed {s} {s'} (by_peek path hint e) keyed =
        Leaves-IsKeyed _ s' (peek-Keyed l laws more g.is_path path hint s keyed) e
    Step-IsKeyed {s} {s'} (by_min tx path idx e) keyed =
        Leaves-IsKeyed _ s' (min-Keyed l laws more g.is_path tx path idx s keyed) e
    Step-IsKeyed {s} {s'} (by_max tx path idx e) keyed =
        Leaves-IsKeyed _ s' (max-Keyed l laws more g.is_path tx path idx s keyed) e
    Step-IsKeyed {s} {s'} (by_read_at tx path idx hint e) keyed =
        Leaves-IsKeyed _ s' (read_at-Keyed l laws more g.is_path tx path idx hint s keyed) e
    Step-IsKeyed {s} {s'} (by_pop_back tx path hint e) keyed =
        Leaves-IsKeyed _ s' (pop_back-Keyed l laws more g.is_path tx path hint s keyed) e
    Step-IsKeyed {s} {s'} (by_write_at tx path idx v e) keyed =
        Leaves-IsKeyed _ s' (write_at-Keyed l laws more g.is_path tx path idx v s keyed) e
    Step-IsKeyed {s} {s'} (by_index_of tx path key hint e) keyed =
        Leaves-IsKeyed _ s' (index_of-Keyed l g laws more given tx path key hint s keyed) e
    Step-IsKeyed {s} {s'} (by_key_at tx path index hint e) keyed =
        Leaves-IsKeyed _ s' (key_at-Keyed l g laws more given tx path index hint s keyed) e
    Step-IsKeyed {s} {s'} (by_insert vs e) keyed =
        Ends-some (IsKeyed l) _ s' (insert-IsKeyed l g laws more given vs s keyed) e
    Step-IsKeyed (by_precommit w w' h e) keyed =
        Ends-some (λ (u : ExecutionCacheWriter l). IsKeyed l u.store) _ w'
          (precommit-IsKeyed l g laws more given h w keyed) e
    Step-IsKeyed (by_commit w version) keyed = empty-IsKeyed (clear l w.store) refl
    Step-IsKeyed {s} {s'} (by_do_read_only tx path hint e) keyed =
        Leaves-IsKeyed _ s' (do_read_only-Keyed l g laws more given tx path hint s keyed) e
    Step-IsKeyed {s} {s'} (by_resolve tx path hint add e) keyed =
        Leaves-IsKeyed _ s' (resolve-Keyed l laws more tx path hint add s keyed) e
    Step-IsKeyed {s} {s'} (by_exists_in_parent tx path add e) keyed =
        Leaves-IsKeyed _ s' (exists_in_parent-Keyed l laws more tx path add s keyed) e
    Step-IsKeyed {s} {s'} (by_diff_size tx path v e) keyed =
        Leaves-IsKeyed _ s' (diff_size-Keyed l laws more tx path v s keyed) e
    Step-IsKeyed (by_set_committed_store backend s) keyed = keyed
    Step-IsKeyed (by_set_id id s) keyed = keyed
    Step-IsKeyed (by_set_version version s) keyed = keyed
    Step-IsKeyed (by_clear s) keyed = empty-IsKeyed (clear l s) refl

    -- Whatever operations have been called on a new store, in any order: as long as none of them has
    -- panicked, every local cell stands under its own path. Conditions are that the methods of cells
    -- keep their laws.
    pub Reached-IsKeyed : {s : Exec l} → Reached s → IsKeyed l s
    Reached-IsKeyed (fresh b p) = empty-IsKeyed (new_execution_state_store b p) refl
    Reached-IsKeyed (after r st) = Step-IsKeyed st (Reached-IsKeyed r)
