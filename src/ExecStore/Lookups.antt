-- ===== src/ExecStore/Lookups.antt =====
-- What `ResolveCellForRead` finds. The view of a path is its value in the local cells, or nothing
-- under a pending wildcard deletion, or the committed value.
use state_engine.Prelude.{
  ℕ, ◌≡◌, refl, ap, ◌∙◌, ◌⊎◌, inl, inr, Bool, true, false, ◌||◌, Option, none, some, List, [], ◌∷◌,
  Bytes, bytes_eq, bytes_eq_refl, bytes_eq_sound, has_prefix, length, take, ltb, map_get,
  map_get-put, Bool-cases, if◌then◌else◌, arith,
}
use state_engine.ExecStore.{ExecLib, Exec, Found, put_cell}
use state_engine.ExecStore.Read.{deleted_cell, resolve_wildcard_deletion}

-- What the store relies on of the cells.
pub record CellLaws (l : ExecLib) : Type 0 where
  pub get_path-init_cell :
      (tx : ℕ) (path : Bytes) (v : Option l.Value) (b : Bool)
      → l.get_path (l.init_cell tx path v b) ≡ some path
  pub value-init_cell :
      (tx : ℕ) (path : Bytes) (v : Option l.Value) (b : Bool)
      → l.value (l.init_cell tx path v b) ≡ v
  pub get_path-clear_value : (c : l.Cell) → l.get_path (l.clear_value c) ≡ l.get_path c
  pub value-clear_value : (c : l.Cell) → l.value (l.clear_value c) ≡ none
  pub get_path-increment_writes : (c : l.Cell) → l.get_path (l.increment_writes c) ≡ l.get_path c
  pub value-increment_writes : (c : l.Cell) → l.value (l.increment_writes c) ≡ l.value c

-- Whether a pending wildcard deletion is a prefix of the path.
unfoldable pub covered : Bytes → List (ℕ × Bytes) → Bool
unfolding has_prefix
covered path [] = false
covered path ((generation, wildcard) ∷ rest) = has_prefix path wildcard || covered path rest

-- The comparison of the loop is that of `strings.HasPrefix`.
prefix_test :
    (s p : Bytes)
    → (if ltb (length s) (length p) then false else bytes_eq (take (length p) s) p) ≡ has_prefix s p
unfolding has_prefix bytes_eq
prefix_test s [] = ground arith
prefix_test [] (d ∷ p) = ground arith
prefix_test (c ∷ s) (d ∷ p) = ground (arith, prefix_test s p)

module _ (l : ExecLib) where
  unfoldable pub committed_value : Option l.Backend → Bytes → Option l.Value → Option l.Value
  committed_value none path hint = none
  committed_value (some backend) path hint = (l.get_as backend path hint).0

  -- What the path reads where it is not in the local cells.
  unfoldable pub below : Bytes → Option l.Value → Exec l → Option l.Value
  unfolding covered committed_value
  below path hint s =
      if covered path s.pending_wildcard_deletes
      then none
      else committed_value s.committed_store path hint

  unfoldable pub over : Option l.Cell → Option l.Value → Option l.Value
  over none v = v
  over (some cell) v = l.value cell

  -- The value that a read of the path is to find.
  unfoldable pub view : Bytes → Option l.Value → Exec l → Option l.Value
  unfolding map_get over below
  view path hint s = over (map_get path s.local_cells) (below path hint s)

  pub resolve_wildcard_deletion-covered :
      (s : Exec l) (path : Bytes) (hint : Option l.Value) (ws : List (ℕ × Bytes))
      → resolve_wildcard_deletion l s path hint ws
        ≡ (if covered path ws then some (deleted_cell l s path hint) else none)
  unfolding resolve_wildcard_deletion covered
  resolve_wildcard_deletion-covered s path hint [] = refl
  resolve_wildcard_deletion-covered s path hint ((generation, wildcard) ∷ rest) =
      ground (arith, prefix_test path wildcard, resolve_wildcard_deletion-covered s path hint rest)

  view-put_cell :
      (k path : Bytes) (hint : Option l.Value) (c : l.Cell) (s : Exec l)
      → view k hint (put_cell l path c s)
        ≡ over (if bytes_eq path k then some c else map_get k s.local_cells) (below k hint s)
  unfolding view
  view-put_cell k path hint c s =
      ap (λ o. over o (below k hint s)) (map_get-put path k c s.local_cells)

  -- A cell that agrees with the view may be put into the local cells.
  pub view-put :
      (k path : Bytes) (hint : Option l.Value) (c : l.Cell) (s : Exec l)
      → l.value c ≡ view path hint s
      → view k hint (put_cell l path c s) ≡ view k hint s
  unfolding view over
  view-put k path hint c s same = elim (Bool-cases (bytes_eq path k)) [
    | inl eq ↦
        view-put_cell k path hint c s
        ∙ rw eq (same ∙ ap (λ q. view q hint s) (bytes_eq_sound path k eq))
    | inr ne ↦ view-put_cell k path hint c s ∙ rw ne refl
  ]

  pub view-put_other :
      (k path : Bytes) (hint : Option l.Value) (c : l.Cell) (s : Exec l)
      → bytes_eq path k ≡ false
      → view k hint (put_cell l path c s) ≡ view k hint s
  unfolding view
  view-put_other k path hint c s other = view-put_cell k path hint c s ∙ rw other refl

  pub view-put_self :
      (path : Bytes) (hint : Option l.Value) (c : l.Cell) (s : Exec l)
      → view path hint (put_cell l path c s) ≡ l.value c
  unfolding over
  view-put_self path hint c s = view-put_cell path path hint c s ∙ rw (bytes_eq_refl path) refl

  -- Whether the cell that was found stands in the local cells.
  abbrev pub IsHeld : Bytes → Exec l → l.Cell → Type 0
  IsHeld path s cell = map_get path s.local_cells ≡ some cell

  -- What a lookup leaves: the value it finds is that of the view; the store is as before, but for
  -- the cell at the path, and a lookup that may add cells leaves the cell in the store.
  abbrev pub Resolves : Bytes → Option l.Value → Bool → Exec l → Exec l → Found l → Type 0
  Resolves path hint add s s' f =
      (f.value ≡ view path hint s)
      × (l.value f.cell ≡ view path hint s)
      × (l.get_path f.cell ≡ some path)
      × ((s' ≡ s) ⊎ (s' ≡ put_cell l path f.cell s))
      × (add ≡ true → (f.local ≡ true) × IsHeld path s' f.cell)

  -- Every local cell has the path of its key.
  abbrev pub IsKeyed : Exec l → Type 0
  IsKeyed s = (k : Bytes) (c : l.Cell) → IsHeld k s c → l.get_path c ≡ some k

  pub IsKeyed-put :
      (s : Exec l) (path : Bytes) (c : l.Cell)
      → IsKeyed s
      → l.get_path c ≡ some path
      → IsKeyed (put_cell l path c s)
  IsKeyed-put s path c keyed own k d held =
      ground (arith, map_get-put path k c s.local_cells, keyed k d, bytes_eq_sound path k)

  -- A store where the paths that are not `touched` have the views they have in another.
  abbrev pub ViewsBut : (Bytes → Bool) → Exec l → Exec l → Type 0
  ViewsBut touched s s' =
      (k : Bytes) (h : Option l.Value) → (touched k ≡ true) ⊎ (view k h s' ≡ view k h s)

  pub ViewsBut-one :
      (path : Bytes) (s s' : Exec l)
      → ((k : Bytes) (h : Option l.Value) → bytes_eq path k ≡ false → view k h s' ≡ view k h s)
      → ViewsBut (λ k. bytes_eq path k) s s'
  ViewsBut-one path s s' same k h = elim (Bool-cases (bytes_eq path k)) [
    | inl eq ↦ inl eq
    | inr ne ↦ inr (same k h ne)
  ]

  pub ViewsBut-two :
      (parent path : Bytes) (s s' : Exec l)
      → ((k : Bytes) (h : Option l.Value)
          → bytes_eq parent k ≡ false
          → bytes_eq path k ≡ false
          → view k h s' ≡ view k h s)
      → ViewsBut (λ k. bytes_eq parent k || bytes_eq path k) s s'
  ViewsBut-two parent path s s' same k h = elim (Bool-cases (bytes_eq parent k)) [
    | inl eq ↦ inl (rw eq refl)
    | inr ne ↦ elim (Bool-cases (bytes_eq path k)) [
      | inl eq ↦ inl (rw (ne, eq) refl)
      | inr ne2 ↦ inr (same k h ne ne2)
    ]
  ]
