-- ===== src/ExecStore/Keyed.antt =====
-- The lookups of the local view leave every cell under its own path.
use state_engine.Prelude.{
  ℕ, ◌≡◌, refl, sym, ◌∙◌, Bool, true, false, Option, none, some, Bytes, drop, length, subst,
}
use state_engine.Platform.{is_immediate_child_of_sys_path}
use state_engine.ExecStore.{ExecLib, Exec, Found, save}
use state_engine.ExecStore.Read.{
  resolve_cell_for_read, exists_in_meta, ask_parent, exists_in_parent, read_cell, read, diff_size,
}
use state_engine.ExecStore.Lookups.{CellLaws, IsKeyed, IsKeyed-put}
use state_engine.ExecStore.Resolve.{resolve-Resolves, Resolves-Agrees}
use state_engine.ExecStore.Reads.{parent_of_path}
use state_engine.ExecStore.Ends.{Ends, Ends-bind, Ends-then, Ends-if, Ends-weaken}

-- What the store relies on of cells that are read and set: they keep their paths, and a `Set` that
-- writes to the store leaves the cells there under their own paths.
pub record PathLaws (l : ExecLib) : Type 0 where
  pub get_path-set :
      (tx : ℕ) (path : Bytes) (v : Option l.Value) (c : l.Cell) (s : Exec l)
      → l.get_path (l.set tx path v c s).0.0 ≡ l.get_path c
  pub set-IsKeyed :
      (tx : ℕ) (path : Bytes) (v : Option l.Value) (c : l.Cell) (s : Exec l)
      → IsKeyed l s
      → IsKeyed l (l.set tx path v c s).1
  pub get_path-get :
      (tx : ℕ) (path : Bytes) (c : l.Cell) → l.get_path (l.get tx path c).0 ≡ l.get_path c
  pub get_path-set_block_bound :
      (b : Bool) (c : l.Cell) → l.get_path (l.set_block_bound b c) ≡ l.get_path c

-- The store that a run leaves.
abbrev pub Keyed : (l : ExecLib) {B : Type 0} → Exec l × B → Type 0
Keyed l (s, b) = IsKeyed l s

-- A lookup of the path, or a change of the cell there.
abbrev pub KeyedAt : (l : ExecLib) → Bytes → Exec l × Found l → Type 0
KeyedAt l path (s, f) = IsKeyed l s × (l.get_path f.cell ≡ some path)

abbrev pub KeyedCell : (l : ExecLib) {B : Type 0} → Bytes → Exec l × (l.Cell × B) → Type 0
KeyedCell l path (s, (c, b)) = IsKeyed l s × (l.get_path c ≡ some path)

module _ (l : ExecLib) (laws : CellLaws l) (more : PathLaws l) where
  pub save-IsKeyed :
      (local : Bool) (path : Bytes) (c : l.Cell) (s : Exec l)
      → IsKeyed l s
      → (local ≡ true → l.get_path c ≡ some path)
      → IsKeyed l (save l local path c s)
  save-IsKeyed true path c s keyed own = IsKeyed-put l s path c keyed (own refl)
  save-IsKeyed false path c s keyed own = keyed

  pub resolve-KeyedAt :
      (tx : ℕ) (path : Bytes) (hint : Option l.Value) (add : Bool) (s : Exec l)
      → IsKeyed l s
      → Ends (KeyedAt l path) (resolve_cell_for_read l tx path hint add s)
  unfolding Ends
  resolve-KeyedAt tx path hint add s keyed =
      let (s', f, e, r) = resolve-Resolves l laws tx path hint add s keyed in
      let (_, _, own, _, _) = r in
      let (_, _, _, keyed') = Resolves-Agrees l laws path hint add s s' f keyed r in
      subst (Ends (KeyedAt l path)) (sym e) (keyed', own)

  pub resolve-Keyed :
      (tx : ℕ) (path : Bytes) (hint : Option l.Value) (add : Bool) (s : Exec l)
      → IsKeyed l s
      → Ends (Keyed l) (resolve_cell_for_read l tx path hint add s)
  resolve-Keyed tx path hint add s keyed =
      Ends-weaken (KeyedAt l path) (Keyed l) (resolve_cell_for_read l tx path hint add s)
        (resolve-KeyedAt tx path hint add s keyed) (λ got held. held.0)

  pub exists_in_parent-Keyed :
      (tx : ℕ) (path : Bytes) (add : Bool) (s : Exec l)
      → IsKeyed l s
      → Ends (Keyed l) (exists_in_parent l tx path add s)
  unfolding exists_in_parent ask_parent Ends
  exists_in_parent-Keyed tx path add s keyed =
      Ends-if (Keyed l) (is_immediate_child_of_sys_path s.platform path) (some (s, true))
        (ask_parent l tx (parent_of_path path) path add s) keyed
        (Ends-bind (KeyedAt l (parent_of_path path)) (Keyed l) _ _
          (resolve-KeyedAt tx (parent_of_path path) (some l.new_path) add s keyed)
          (λ got held.
            Ends-then (Keyed l {B = Bool})
              (exists_in_meta l got.1.value (drop (length (parent_of_path path)) path))
              (λ ok. some (got.0, ok)) (λ ok. held.0)))

  pub read_cell-KeyedAt :
      (tx : ℕ) (path : Bytes) (hint : Option l.Value) (add : Bool) (s : Exec l)
      → IsKeyed l s
      → Ends (KeyedAt l path) (read_cell l tx path hint add s)
  unfolding read_cell Ends
  read_cell-KeyedAt tx path hint add s keyed =
      Ends-bind (Keyed l) (KeyedAt l path) _ _ (exists_in_parent-Keyed tx path add s keyed)
        (λ got held.
          Ends-if (KeyedAt l path) got.1 _ _ (resolve-KeyedAt tx path hint add got.0 held)
            (held, laws.get_path-init_cell tx path none false))

  pub read_cell-Keyed :
      (tx : ℕ) (path : Bytes) (hint : Option l.Value) (add : Bool) (s : Exec l)
      → IsKeyed l s
      → Ends (Keyed l) (read_cell l tx path hint add s)
  read_cell-Keyed tx path hint add s keyed =
      Ends-weaken (KeyedAt l path) (Keyed l) _ (read_cell-KeyedAt tx path hint add s keyed)
        (λ got held. held.0)

  pub read-Keyed :
      (tx : ℕ) (path : Bytes) (hint : Option l.Value) (s : Exec l)
      → IsKeyed l s
      → Ends (Keyed l) (read l tx path hint s)
  unfolding read Ends
  read-Keyed tx path hint s keyed =
      Ends-bind (KeyedAt l path) (Keyed l) _ _ (read_cell-KeyedAt tx path hint true s keyed)
        (λ got held.
          save-IsKeyed got.1.local path (l.get tx path got.1.cell).0 got.0 held.0
            (λ local. more.get_path-get tx path got.1.cell ∙ held.1))

  pub diff_size-Keyed :
      (tx : ℕ) (path : Bytes) (v : Option l.Value) (s : Exec l)
      → IsKeyed l s
      → Ends (Keyed l) (diff_size l tx path v s)
  unfolding diff_size Ends
  diff_size-Keyed tx path v s keyed =
      Ends-bind (KeyedAt l path) (Keyed l) _ _ (read_cell-KeyedAt tx path v false s keyed)
        (λ got held. held.0)
