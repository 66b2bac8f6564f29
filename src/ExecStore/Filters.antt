-- ===== src/ExecStore/Filters.antt =====
-- What `RemoveByAddress` of state/cache/state_cache_filter.go leaves.
use state_engine.Prelude.{
  ◌≡◌, refl, sym, ap, ◌∙◌, Bool, true, false, Option, none, some, List, [], ◌∷◌, Bytes, bytes_eq,
  bytes_eq_sound, map_get, Bool-cases, inl, inr, if◌then◌else◌,
}
use state_engine.ExecStore.{ExecLib}
use state_engine.ExecStore.Export.{address_of, remove_by_address}

module _ (l : ExecLib) where
  -- Whether the path is one of the account.
  abbrev pub is_at : Bytes → Option Bytes → Bool
  is_at addr none = false
  is_at addr (some a) = bytes_eq a addr

  abbrev pub belongs : Bytes → Bytes → Bool
  belongs addr path = is_at addr (address_of l path)

  -- Every key is long enough to hold an address.
  abbrev pub AllAddressed : List (Bytes × l.Cell) → Type 0
  AllAddressed [] = Unit
  AllAddressed ((path, cell) ∷ rest) =
      ((a : Bytes) × (address_of l path ≡ some a)) × AllAddressed rest

  abbrev no_cell : Option l.Cell
  no_cell = none

  nothing-get : (b : Bool) → (if b then no_cell else no_cell) ≡ no_cell
  nothing-get true = refl
  nothing-get false = refl

  dropped-get :
      (addr path k : Bytes) (cell : l.Cell) (m : List (Bytes × l.Cell))
      → belongs addr path ≡ true
      → (if belongs addr k then none else map_get k m)
        ≡ (if belongs addr k then none else if bytes_eq path k then some cell else map_get k m)
  dropped-get addr path k cell m h = elim (Bool-cases (bytes_eq path k)) [
    | inl eq ↦ let same = sym (ap (belongs addr) (bytes_eq_sound path k eq)) ∙ h in rw same refl
    | inr ne ↦ rw ne refl
  ]

  kept-get :
      (addr path k : Bytes) (cell : l.Cell) (m : List (Bytes × l.Cell))
      → belongs addr path ≡ false
      → (if bytes_eq path k then some cell else if belongs addr k then none else map_get k m)
        ≡ (if belongs addr k then none else if bytes_eq path k then some cell else map_get k m)
  kept-get addr path k cell m h = elim (Bool-cases (bytes_eq path k)) [
    | inl eq ↦
        let same = sym (ap (belongs addr) (bytes_eq_sound path k eq)) ∙ h in rw (eq, same) refl
    | inr ne ↦ rw ne refl
  ]

  -- Where every path of the local cells is long enough, `RemoveByAddress` does not panic; then the
  -- paths of the account have no cell, and the others have the cell they had.
  pub remove_by_address-get :
      (addr : Bytes) (m : List (Bytes × l.Cell))
      → AllAddressed m
      → (m' : List (Bytes × l.Cell)) × (remove_by_address l addr m ≡ some m')
        × ((k : Bytes) → map_get k m' ≡ (if belongs addr k then none else map_get k m))
  unfolding remove_by_address map_get
  remove_by_address-get addr [] h = ([], refl, λ k. sym (nothing-get (belongs addr k)))
  remove_by_address-get addr ((path, cell) ∷ rest) ((a, e), hs) =
      let (others, done, reads) = remove_by_address-get addr rest hs in
      let at : belongs addr path ≡ bytes_eq a addr = ap (is_at addr) e in
      elim (Bool-cases (bytes_eq a addr)) [
        | inl h ↦ (
          others,
          rw (e, done, h) refl,
          λ k. reads k ∙ dropped-get addr path k cell rest (at ∙ h),
        )
        | inr h ↦ (
          (path, cell) ∷ others,
          rw (e, done, h) refl,
          λ k.
              ap (λ o. if bytes_eq path k then some cell else o) (reads k)
              ∙ kept-get addr path k cell rest (at ∙ h),
        )
      ]
