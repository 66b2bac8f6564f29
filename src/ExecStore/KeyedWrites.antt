-- ===== src/ExecStore/KeyedWrites.antt =====
-- The writes of the local view leave every cell under its own path.
use state_engine.Prelude.{
  ℕ, ◌≡◌, ◌∙◌, ◌||◌, ◌==◌, Bool, true, false, Option, none, some, Bytes, map_get, Option-cases, inl,
  inr, false≢true,
}
use state_engine.Paths.Constants.{system}
use state_engine.Platform.{is_container_path}
use state_engine.ExecStore.{ExecLib, Exec, Error}
use state_engine.ExecStore.Read.{has_path}
use state_engine.ExecStore.Write.{
  is_special, tracks_children, set_local, update_parent, current, bind_cell, inherit_bound,
  write_parent, after_set, write_under, write_cell, is_invalid, write, inject,
}
use state_engine.ExecStore.Lookups.{CellLaws, IsKeyed, IsKeyed-put}
use state_engine.ExecStore.Reads.{parent_of_path}
use state_engine.ExecStore.Ends.{Ends, Ends-bind, Ends-then, Ends-if, Ends-elim}
use state_engine.ExecStore.Keyed.{
  PathLaws, Keyed, KeyedAt, KeyedCell, save-IsKeyed, resolve-KeyedAt, read_cell-KeyedAt,
  diff_size-Keyed,
}

module _ (l : ExecLib) (laws : CellLaws l) (more : PathLaws l) where
  set_local-KeyedCell :
      (key : Bytes) (tx : ℕ) (path : Bytes) (v : Option l.Value) (c : l.Cell) (s : Exec l)
      → IsKeyed l s
      → l.get_path c ≡ some key
      → KeyedCell l key (set_local l key tx path v c s)
  unfolding set_local
  set_local-KeyedCell key tx path v c s keyed own =
      let out = l.set tx path v c s in
      let held = more.get_path-set tx path v c s ∙ own in
      (IsKeyed-put l out.1 key out.0.0 (more.set-IsKeyed tx path v c s keyed) held, held)

  update_parent-Keyed :
      (tx : ℕ) (parent path : Bytes) (child : Option l.Value) (s : Exec l)
      → IsKeyed l s
      → Ends (Keyed l) (update_parent l tx parent path child s)
  unfolding update_parent Ends
  update_parent-Keyed tx parent path child s keyed =
      Ends-if (Keyed l) (tracks_children s.platform tx parent) _ _
        (Ends-bind (KeyedAt l parent) (Keyed l) _ _
          (resolve-KeyedAt l laws more tx parent (some l.new_path) true s keyed)
          (λ got held. (set_local-KeyedCell parent tx path child got.1.cell got.0 held.0 held.1).0))
        keyed

  get_path-current :
      (local : Bool) (path : Bytes) (c : l.Cell) (s : Exec l)
      → IsKeyed l s
      → (local ≡ true → l.get_path c ≡ some path)
      → local ≡ true
      → l.get_path (current l local path c s) ≡ some path
  unfolding current
  get_path-current false path c s keyed own h = absurd (false≢true h)
  get_path-current true path c s keyed own h = elim (Option-cases (map_get path s.local_cells)) [
    | inl e ↦ rw (current, e) (own h)
    | inr (d, e) ↦ rw (current, e) (keyed path d e)
  ]

  inherit_bound-Keyed :
      (local : Bool) (tx : ℕ) (parent path : Bytes) (c : l.Cell) (err : Option Error) (s : Exec l)
      → IsKeyed l s
      → (local ≡ true → l.get_path c ≡ some path)
      → Ends (Keyed l) (inherit_bound l local tx parent path c err s)
  unfolding inherit_bound bind_cell Ends
  inherit_bound-Keyed local tx parent path c err s keyed own =
      Ends-if (Keyed l) (is_container_path s.platform parent) _ _
        (Ends-bind (KeyedAt l parent) (Keyed l) _ _
          (read_cell-KeyedAt l laws more tx parent (some l.new_path) false s keyed)
          (λ got held. Ends-elim (Keyed l) got.1.value _ _ held.0 (λ v.
            Ends-then (Keyed l) (l.as_path v) _ (λ meta.
              save-IsKeyed l laws more local path
                (l.set_block_bound (l.is_block_bound meta) (current l local path c got.0)) got.0
                held.0
                (λ h.
                  more.get_path-set_block_bound (l.is_block_bound meta)
                    (current l local path c got.0)
                  ∙ get_path-current local path c got.0 held.0 own h)))))
        keyed

  write_parent-Keyed :
      (local : Bool) (tx : ℕ) (parent path : Bytes) (c : l.Cell) (s : Exec l)
      → IsKeyed l s
      → (local ≡ true → l.get_path c ≡ some path)
      → Ends (Keyed l) (write_parent l local tx parent path c s)
  unfolding write_parent
  write_parent-Keyed local tx parent path c s keyed own =
      Ends-bind (Keyed l) (Keyed l) _ _ (update_parent-Keyed tx parent path (l.value c) s keyed)
        (λ done held. inherit_bound-Keyed local tx parent path c done.1 done.0 held own)

  after_set-Keyed :
      (tx : ℕ) (parent path : Bytes) (out : Exec l × (l.Cell × Option Error))
      → KeyedCell l path out
      → Ends (Keyed l) (after_set l tx parent path out)
  unfolding after_set Ends
  after_set-Keyed tx parent path (s, (c, none)) held =
      write_parent-Keyed true tx parent path c s held.0 (λ h. held.1)
  after_set-Keyed tx parent path (s, (c, some e)) held = held.0

  write_cell-Keyed :
      (tx : ℕ) (path : Bytes) (v : Option l.Value) (s : Exec l)
      → IsKeyed l s
      → Ends (Keyed l) (write_cell l tx path v s)
  unfolding write_cell write_under Ends
  write_cell-Keyed tx path v s keyed =
      Ends-if (Keyed l) (has_path l (parent_of_path path) s || (tx == system)) _ _
        (Ends-if (Keyed l) (is_special path) _ _
          (write_parent-Keyed false tx (parent_of_path path) path (l.new_state_cell tx path v) s
            keyed (λ h. absurd (false≢true h)))
          (Ends-bind (KeyedAt l path) (Keyed l) _ _
            (resolve-KeyedAt l laws more tx path v true s keyed)
            (λ got held.
              after_set-Keyed tx (parent_of_path path) path _
                (set_local-KeyedCell path tx path v got.1.cell got.0 held.0 held.1))))
        keyed

  pub write-Keyed :
      (tx : ℕ) (path : Bytes) (v : Option l.Value) (s : Exec l)
      → IsKeyed l s
      → Ends (Keyed l) (write l tx path v s)
  unfolding write Ends
  write-Keyed tx path v s keyed = Ends-if (Keyed l) (is_invalid l v) _ _ keyed (
      Ends-bind (Keyed l) (Keyed l) _ _ (write_cell-Keyed tx path v s keyed) (λ out held.
        Ends-bind (Keyed l) (Keyed l) _ _ (diff_size-Keyed l laws more tx path v out.0 held)
          (λ diff kept. kept)))

  pub inject-Keyed :
      (tx : ℕ) (path : Bytes) (v : Option l.Value) (s : Exec l)
      → IsKeyed l s
      → Ends (Keyed l) (inject l tx path v s)
  unfolding inject Ends
  inject-Keyed tx path v s keyed =
      Ends-bind (KeyedAt l path) (Keyed l) _ _ (resolve-KeyedAt l laws more tx path v true s keyed)
        (λ got held. (set_local-KeyedCell path tx path v got.1.cell got.0 held.0 held.1).0)
