-- ===== src/ExecStore/Resolve.antt =====
-- `ResolveCellForRead` finds the view of the path, and adds cells only where they agree with it.
use state_engine.Prelude.{
  ℕ, ◌≡◌, refl, sym, ap, ◌∙◌, inl, inr, Bool, true, false, Option, none, some, Bytes, bytes_eq,
  map_get, map_get-put_self, Option-cases, Bool-cases, is_some, if◌then◌else◌, false≢true, subst,
}
use state_engine.ExecStore.{ExecLib, Exec, Found, put_cell}
use state_engine.ExecStore.Read.{
  get_from_committed, deleted_cell, found, add_to_local_cache, add_found, resolve_deleted,
  resolve_local, resolve_cell_for_read,
}
use state_engine.ExecStore.Lookups.{
  CellLaws, covered, committed_value, below, over, view, view-put, view-put_other,
  resolve_wildcard_deletion-covered, Resolves, IsKeyed, IsKeyed-put, ViewsBut, ViewsBut-one,
}

module _ (l : ExecLib) (laws : CellLaws l) where
  value-deleted_cell :
      (s : Exec l) (path : Bytes) (hint : Option l.Value)
      → l.value (deleted_cell l s path hint).0 ≡ none
  unfolding deleted_cell
  value-deleted_cell s path hint =
      laws.value-increment_writes (l.clear_value (get_from_committed l s 0 path hint).0)
      ∙ laws.value-clear_value (get_from_committed l s 0 path hint).0

  value-get_from_committed :
      (s : Exec l) (tx : ℕ) (path : Bytes) (hint : Option l.Value)
      → (l.value (get_from_committed l s tx path hint).0
          ≡ committed_value l s.committed_store path hint)
        × (l.get_path (get_from_committed l s tx path hint).0 ≡ some path)
  unfolding get_from_committed committed_value
  value-get_from_committed s tx path hint = elim (Option-cases s.committed_store) [
    | inl e ↦
        rw e (laws.value-init_cell tx path none false, laws.get_path-init_cell tx path none false)
    | inr (b, e) ↦
        let v = (l.get_as b path hint).0 in
        rw e (
          laws.value-init_cell tx path v (is_some v),
          laws.get_path-init_cell tx path v (is_some v),
        )
  ]

  get_path-deleted_cell :
      (s : Exec l) (path : Bytes) (hint : Option l.Value)
      → l.get_path (deleted_cell l s path hint).0 ≡ some path
  unfolding deleted_cell
  get_path-deleted_cell s path hint =
      laws.get_path-increment_writes (l.clear_value (get_from_committed l s 0 path hint).0)
      ∙ laws.get_path-clear_value (get_from_committed l s 0 path hint).0
      ∙ (value-get_from_committed s 0 path hint).1

  -- The lookup in the committed store.
  add_found-committed :
      (tx : ℕ) (path : Bytes) (hint : Option l.Value) (add : Bool) (s : Exec l)
      → let got = get_from_committed l s tx path hint in
        add_found l add got.0 got.1 s
        ≡ some (if add then put_cell l path got.0 s else s, found l got.0 add got.1)
  unfolding add_found add_to_local_cache
  add_found-committed tx path hint false s = refl
  add_found-committed tx path hint true s =
      let got = get_from_committed l s tx path hint in
      ap (add_to_local_cache l got.0 got.1 s) (value-get_from_committed s tx path hint).1

  resolve-committed :
      (tx : ℕ) (path : Bytes) (hint : Option l.Value) (add : Bool) (s : Exec l)
      → view l path hint s ≡ committed_value l s.committed_store path hint
      → let got = get_from_committed l s tx path hint in
        Resolves l path hint add s
          (if add then put_cell l path got.0 s else s)
          (found l got.0 add got.1)
  resolve-committed tx path hint false s all =
      let (val, own) = value-get_from_committed s tx path hint in
      (val ∙ sym all, val ∙ sym all, own, inl refl, λ h. absurd (false≢true h))
  resolve-committed tx path hint true s all =
      let got = get_from_committed l s tx path hint in
      let (val, own) = value-get_from_committed s tx path hint in
      (
        val ∙ sym all,
        val ∙ sym all,
        own,
        inr refl,
        λ h. (refl, map_get-put_self path got.0 s.local_cells),
      )

  resolve-deleted :
      (path : Bytes) (hint : Option l.Value) (add : Bool) (s : Exec l)
      → view l path hint s ≡ none
      → let got = deleted_cell l s path hint in
        Resolves l path hint add s (put_cell l path got.0 s) (found l got.0 true got.1)
  resolve-deleted path hint add s gone =
      let seen = value-deleted_cell s path hint ∙ sym gone in
      (
        seen,
        seen,
        get_path-deleted_cell s path hint,
        inr refl,
        λ h. (refl, map_get-put_self path (deleted_cell l s path hint).0 s.local_cells),
      )

  -- The three places a value is found in.
  view-local :
      (path : Bytes) (hint : Option l.Value) (s : Exec l) (o : Option l.Cell)
      → map_get path s.local_cells ≡ o
      → view l path hint s ≡ over l o (below l path hint s)
  unfolding view
  view-local path hint s o e = ap (λ x. over l x (below l path hint s)) e

  view-below :
      (path : Bytes) (hint : Option l.Value) (s : Exec l) (b : Bool)
      → map_get path s.local_cells ≡ none
      → covered path s.pending_wildcard_deletes ≡ b
      → view l path hint s ≡ (if b then none else committed_value l s.committed_store path hint)
  unfolding over below
  view-below path hint s b e h =
      view-local path hint s none e
      ∙ ap (λ x. if x then none else committed_value l s.committed_store path hint) h

  resolve-covered :
      (tx : ℕ) (path : Bytes) (hint : Option l.Value) (add : Bool) (s : Exec l) (b : Bool)
      → map_get path s.local_cells ≡ none
      → covered path s.pending_wildcard_deletes ≡ b
      → resolve_cell_for_read l tx path hint add s
        ≡ resolve_deleted l tx path hint add s
            (if b then some (deleted_cell l s path hint) else none)
  unfolding resolve_cell_for_read resolve_local
  resolve-covered tx path hint add s b e h =
      ap (resolve_local l tx path hint add s) e
      ∙ ap (resolve_deleted l tx path hint add s) (
          resolve_wildcard_deletion-covered l s path hint s.pending_wildcard_deletes
          ∙ ap (λ x. if x then some (deleted_cell l s path hint) else none) h)

  -- `ResolveCellForRead` never panics: it finds the view l of the path, and what it leaves in the
  -- store agrees with the view.
  pub resolve-Resolves :
      (tx : ℕ) (path : Bytes) (hint : Option l.Value) (add : Bool) (s : Exec l)
      → IsKeyed l s
      → (s' : Exec l) × (f : Found l) × (resolve_cell_for_read l tx path hint add s ≡ some (s', f))
        × Resolves l path hint add s s' f
  unfolding resolve_cell_for_read resolve_local resolve_deleted over
  resolve-Resolves tx path hint add s keyed = elim (Option-cases (map_get path s.local_cells)) [
    | inr (cell, e) ↦
        let seen = sym (view-local path hint s (some cell) e) in
        (
          s,
          found l cell true none,
          ap (resolve_local l tx path hint add s) e,
          (seen, seen, keyed path cell e, inl refl, λ h. (refl, e)),
        )
    | inl e ↦ elim (Bool-cases (covered path s.pending_wildcard_deletes)) [
      | inl h ↦
          let got = deleted_cell l s path hint in
          (
            put_cell l path got.0 s,
            found l got.0 true got.1,
            resolve-covered tx path hint add s true e h,
            resolve-deleted path hint add s (view-below path hint s true e h),
          )
      | inr h ↦
          let got = get_from_committed l s tx path hint in
          (
            if add then put_cell l path got.0 s else s,
            found l got.0 add got.1,
            resolve-covered tx path hint add s false e h ∙ add_found-committed tx path hint add s,
            resolve-committed tx path hint add s (view-below path hint s false e h),
          )
    ]
  ]

  -- A store whose views are those of another, but for other hints at `path`.
  abbrev pub Agrees : Bytes → Option l.Value → Exec l → Exec l → Type 0
  Agrees path hint s s' =
      (s'.platform ≡ s.platform)
      × ((k : Bytes) → view l k hint s' ≡ view l k hint s)
      × ((k : Bytes) (h : Option l.Value) → bytes_eq path k ≡ false → view l k h s' ≡ view l k h s)
      × IsKeyed l s'

  pub Agrees-refl :
      (path : Bytes) (hint : Option l.Value) (s : Exec l) → IsKeyed l s → Agrees path hint s s
  Agrees-refl path hint s keyed = (refl, λ k. refl, λ k h ne. refl, keyed)

  pub Resolves-Agrees :
      (path : Bytes) (hint : Option l.Value) (add : Bool) (s s' : Exec l) (f : Found l)
      → IsKeyed l s
      → Resolves l path hint add s s' f
      → Agrees path hint s s'
  Resolves-Agrees path hint add s s' f keyed (_, same, own, stays, _) = elim stays [
    | inl e ↦ subst (Agrees path hint s) (sym e) (Agrees-refl path hint s keyed)
    | inr e ↦ subst (Agrees path hint s) (sym e) (
      refl,
      λ k. view-put l k path hint f.cell s same,
      λ k h ne. view-put_other l k path h f.cell s ne,
      IsKeyed-put l s path f.cell keyed own,
    )
  ]

  pub resolve_cell_for_read-Agrees :
      (tx : ℕ) (path : Bytes) (hint : Option l.Value) (add : Bool) (s : Exec l)
      → IsKeyed l s
      → (s' : Exec l) × (f : Found l) × (resolve_cell_for_read l tx path hint add s ≡ some (s', f))
        × (f.value ≡ view l path hint s)
        × Agrees path hint s s'
  resolve_cell_for_read-Agrees tx path hint add s keyed =
      let (s', f, e, r) = resolve-Resolves tx path hint add s keyed in
      (s', f, e, r.0, Resolves-Agrees path hint add s s' f keyed r)

  -- `ResolveCellForRead` on a store whose local cells stand under their own paths never panics. It
  -- finds the view of the path: the local value, nothing under a pending wildcard deletion, or the
  -- committed value. Whether or not it adds the cell, all paths keep their views under that hint,
  -- the other paths under every hint, and the cells stand under their own paths.
  pub resolve_cell_for_read-view :
      (tx : ℕ) (path : Bytes) (hint : Option l.Value) (add : Bool) (s : Exec l)
      → IsKeyed l s
      → (s' : Exec l) × (f : Found l) × (resolve_cell_for_read l tx path hint add s ≡ some (s', f))
        × (f.value ≡ view l path hint s)
        × ((k : Bytes) → view l k hint s' ≡ view l k hint s)
        × ViewsBut l (λ k. bytes_eq path k) s s'
        × IsKeyed l s'
  resolve_cell_for_read-view tx path hint add s keyed =
      let (s', f, e, val, (_, same, others, keyed')) =
        resolve_cell_for_read-Agrees tx path hint add s keyed in
      (s', f, e, val, same, ViewsBut-one l path s s' others, keyed')
