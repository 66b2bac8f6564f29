-- ===== src/ExecStore/Writes.antt =====
-- What `Write` leaves: the error branches, the value written, and the difference it reports.
use state_engine.Prelude.{
  ℕ, ◌≡◌, refl, ap, ◌∙◌, Bool, true, false, ◌||◌, ◌==◌, Option, none, some, Bytes, bytes_eq,
  Bool-cases, inl, inr, if◌then◌else◌, ◌>>=◌,
}
use state_engine.Paths.Constants.{system}
use state_engine.Platform.{is_container_path}
use state_engine.ExecStore.{ExecLib, Exec, Error, lib_err, put_cell}
use state_engine.ExecStore.Read.{resolve_cell_for_read, has_path}
use state_engine.ExecStore.Write.{
  is_special, tracks_children, set_local, update_parent, current, inherit_bound, write_parent,
  after_set, write_under, write_cell,
}
use state_engine.ExecStore.Lookups.{
  CellLaws, view, view-put_other, view-put_self, IsKeyed, IsKeyed-put, ViewsBut, ViewsBut-two,
}
use state_engine.ExecStore.Resolve.{resolve-Resolves, Resolves-Agrees}
use state_engine.ExecStore.Reads.{parent_of_path}

module _ (l : ExecLib) where
  -- The cells take every value written by `tx` under `path`: `Set` has no error, does not write to
  -- the store, keeps the cell's path, and leaves the value in the cell of the path itself.
  abbrev pub IsPlainWrite : ℕ → Bytes → Type 0
  IsPlainWrite tx path =
      (v : Option l.Value) (c : l.Cell) (s : Exec l)
      → (c' : l.Cell) × (l.set tx path v c s ≡ ((c', none), s))
        × (l.get_path c' ≡ l.get_path c)
        × (l.get_path c ≡ some path → l.value c' ≡ v)

  -- A store that differs from another at one path only.
  abbrev pub DiffersAt : Bytes → Exec l → Exec l → Type 0
  DiffersAt path s s' =
      (s'.platform ≡ s.platform)
      × ((k : Bytes) (h : Option l.Value) → bytes_eq path k ≡ false → view l k h s' ≡ view l k h s)
      × IsKeyed l s'

  module _ (laws : CellLaws l) where
    -- A resolved cell that is set under its key.
    set_resolved :
        (key : Bytes) (hint : Option l.Value) (tx : ℕ) (path : Bytes) (v : Option l.Value)
        (s : Exec l)
        → IsKeyed l s
        → IsPlainWrite tx path
        → (s' : Exec l) × (c' : l.Cell) × ((B : Type 0)
              (k : Exec l × (l.Cell × Option Error) → Option B)
            → (resolve_cell_for_read l tx key hint true s >>= λ got.
                k (set_local l key tx path v got.1.cell got.0))
              ≡ k (s', (c', none)))
          × (key ≡ path → l.value c' ≡ v)
          × ((h : Option l.Value) → view l key h s' ≡ l.value c')
          × DiffersAt key s s'
    unfolding set_local
    set_resolved key hint tx path v s keyed plain =
        let (s1, f, e, r) = resolve-Resolves l laws tx key hint true s keyed in
        let (platform, _, same, keyed1) = Resolves-Agrees l laws key hint true s s1 f keyed r in
        let (_, _, own, _, _) = r in
        let (c', done, path', value') = plain v f.cell s1 in
        let finish : (l.Cell × Option ℕ) × Exec l → Exec l × (l.Cell × Option Error) =
          λ out. (put_cell l key out.0.0 out.1, (out.0.0, lib_err out.0.1)) in
        (
          put_cell l key c' s1,
          c',
          λ B k.
              ap (λ x. x >>= λ got. k (set_local l key tx path v got.1.cell got.0)) e
              ∙ ap (λ x. k (finish x)) done,
          λ k. value' (own ∙ ap some k),
          λ h. view-put_self l key h c' s1,
          (
            platform,
            λ k h ne. view-put_other l k key h c' s1 ne ∙ same k h ne,
            IsKeyed-put l s1 key c' keyed1 (path' ∙ own),
          ),
        )

    update_parent-DiffersAt :
        (tx : ℕ) (parent path : Bytes) (child : Option l.Value) (s : Exec l)
        → IsKeyed l s
        → IsPlainWrite tx path
        → (s' : Exec l) × (update_parent l tx parent path child s ≡ some (s', none))
          × DiffersAt parent s s'
    unfolding update_parent
    update_parent-DiffersAt tx parent path child s keyed plain =
        let choose : Bool → Option (Exec l × Option Error) = λ x.
          if x
          then (resolve_cell_for_read l tx parent (some l.new_path) true s >>= λ got.
              let out = set_local l parent tx path child got.1.cell got.0 in some (out.0, out.1.1))
          else some (s, none) in
        elim (Bool-cases (tracks_children s.platform tx parent)) [
          | inl e ↦
              let (s', c', done, _, _, differs) =
                set_resolved parent (some l.new_path) tx path child s keyed plain in
              (
                s',
                ap choose e ∙ done (Exec l × Option Error) (λ out. some (out.0, out.1.1)),
                differs,
              )
          | inr e ↦ (s, ap choose e, (refl, λ k h ne. refl, keyed))
        ]

    -- The steps of `write` after the value is set, where the parent is not a container.
    after_set-DiffersAt :
        (tx : ℕ) (parent path : Bytes) (s : Exec l) (c : l.Cell)
        → IsKeyed l s
        → IsPlainWrite tx path
        → is_container_path s.platform parent ≡ false
        → (s' : Exec l) × (c' : l.Cell) × (after_set l tx parent path (s, (c, none))
            ≡ some (s', (c', none)))
          × DiffersAt parent s s'
    unfolding after_set write_parent inherit_bound
    after_set-DiffersAt tx parent path s c keyed plain flat =
        let (s', done, differs) =
          update_parent-DiffersAt tx parent path (l.value c) s keyed plain in
        (
          s',
          current l true path c s',
          ap (λ x. x >>= λ out. inherit_bound l true tx parent path c out.1 out.0) done
              ∙ rw (inherit_bound, ap (λ p. is_container_path p parent) differs.0 ∙ flat) refl,
          differs,
        )

    -- The write of a value where the parent exists and is not a container.
    write_under-view :
        (tx : ℕ) (parent path : Bytes) (value : Option l.Value) (s : Exec l)
        → IsKeyed l s
        → IsPlainWrite tx path
        → bytes_eq parent path ≡ false
        → is_special path ≡ false
        → is_container_path s.platform parent ≡ false
        → (s' : Exec l) × (c : l.Cell) × (write_under l tx parent path value s
            ≡ some (s', (c, none)))
          × (s'.platform ≡ s.platform)
          × ((h : Option l.Value) → view l path h s' ≡ value)
          × ((k : Bytes) (h : Option l.Value)
              → bytes_eq parent k ≡ false
              → bytes_eq path k ≡ false
              → view l k h s' ≡ view l k h s)
          × IsKeyed l s'
    unfolding write_under
    write_under-view tx parent path value s keyed plain apart named flat =
        let (s1, c1, done, val, seen, (platform, same, keyed1)) =
          set_resolved path value tx path value s keyed plain in
        let (s2, c2, after, (platform2, same2, keyed2)) =
          after_set-DiffersAt tx parent path s1 c1 keyed1 plain
            (ap (λ p. is_container_path p parent) platform ∙ flat) in
        (
          s2,
          c2,
          rw (write_under, named) refl
              ∙ done (Exec l × (l.Cell × Option Error)) (after_set l tx parent path)
              ∙ after,
          platform2 ∙ platform,
          λ h. same2 path h apart ∙ seen h ∙ val refl,
          λ k h ne ne2. same2 k h ne ∙ same k h ne2,
          keyed2,
        )

    pub write_cell-done :
        (tx : ℕ) (path : Bytes) (value : Option l.Value) (s : Exec l)
        → IsKeyed l s
        → IsPlainWrite tx path
        → bytes_eq (parent_of_path path) path ≡ false
        → is_special path ≡ false
        → is_container_path s.platform (parent_of_path path) ≡ false
        → (has_path l (parent_of_path path) s || (tx == system)) ≡ true
        → (s' : Exec l) × (c : l.Cell) × (write_cell l tx path value s ≡ some (s', (c, none)))
          × (s'.platform ≡ s.platform)
          × ((h : Option l.Value) → view l path h s' ≡ value)
          × ((k : Bytes) (h : Option l.Value)
              → bytes_eq (parent_of_path path) k ≡ false
              → bytes_eq path k ≡ false
              → view l k h s' ≡ view l k h s)
          × IsKeyed l s'
    unfolding write_cell
    write_cell-done tx path value s keyed plain apart named flat there =
        let (s', c, done, platform, seen, same, keyed') =
          write_under-view tx (parent_of_path path) path value s keyed plain apart named flat in
        (s', c, rw (write_cell, there) refl ∙ done, platform, seen, same, keyed')

    -- A write of `tx` under a path that is no expression, whose parent exists (or `tx` is the system)
    -- and is not a container, on cells that take every value: `write` has no error. Afterwards the
    -- path has the value as its view, all paths but this one and its parent keep theirs, and the
    -- local cells stand under their own paths.
    pub write_cell-view :
        (tx : ℕ) (path : Bytes) (value : Option l.Value) (s : Exec l)
        → IsKeyed l s
        → IsPlainWrite tx path
        → bytes_eq (parent_of_path path) path ≡ false
        → is_special path ≡ false
        → is_container_path s.platform (parent_of_path path) ≡ false
        → (has_path l (parent_of_path path) s || (tx == system)) ≡ true
        → (s' : Exec l) × (c : l.Cell) × (write_cell l tx path value s ≡ some (s', (c, none)))
          × ((h : Option l.Value) → view l path h s' ≡ value)
          × ViewsBut l (λ k. bytes_eq (parent_of_path path) k || bytes_eq path k) s s'
          × IsKeyed l s'
    write_cell-view tx path value s keyed plain apart named flat there =
        let (s', c, done, _, seen, same, keyed') =
          write_cell-done tx path value s keyed plain apart named flat there in
        (s', c, done, seen, ViewsBut-two l (parent_of_path path) path s s' same, keyed')
