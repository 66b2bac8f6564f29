-- ===== src/ExecStore/Backend.antt =====
-- `Get` and `GetAs`: the local view as the committed store of another view.
use state_engine.Prelude.{
  ◌≡◌, ap, ◌∙◌, Bool, false, not, ◌||◌, Option, none, some, Bytes, bytes_eq, is_some, if◌then◌else◌,
  ◌>>=◌,
}
use state_engine.Paths.Constants.{system}
use state_engine.ExecStore.{ExecLib, Exec}
use state_engine.ExecStore.Read.{read_cell}
use state_engine.ExecStore.Lookups.{CellLaws, view, IsKeyed, ViewsBut}
use state_engine.ExecStore.Reads.{parent_of_path, listed, read_cell-readable}

module _ (l : ExecLib) where
  -- A value that is no CRDT or has its deltas applied is handed out as it is, a path is cloned, and
  -- any other value is built anew.
  unfoldable pub detach_value : l.Value → l.Value
  detach_value v =
      if not (l.is_crdt v) || l.is_delta_applied v
      then v
      else if is_some (l.as_path v)
      then l.clone_path v
      else l.rebuild v

  unfoldable pub detach : Option l.Value → Option l.Value
  unfolding detach_value
  detach none = none
  detach (some v) = some (detach_value v)

  -- The error is always nil.
  unfoldable pub get : Bytes → Exec l → Option (Exec l × Option l.Value)
  unfolding read_cell detach
  get path s = read_cell l system path none false s >>= λ got. some (got.0, detach got.1.value)

  -- A hint that is no CRDT is dropped, as `none`.
  unfoldable pub get_as : Bytes → Option l.Value → Exec l → Option (Exec l × Option l.Value)
  unfolding read_cell detach
  get_as path hint s =
      read_cell l system path hint false s >>= λ got. some (got.0, detach got.1.value)

  module _ (laws : CellLaws l) where
    -- `GetAs` of a path other than its own parent, on a store whose local cells stand under their own
    -- paths and where the parent's metadata is of a path: it does not panic, and returns the view of
    -- the path, detached, if the metadata lists it, and nil if not. The paths other than this one and
    -- its parent keep their views, and the path keeps its own under the hint.
    get_as-view :
        (path : Bytes) (hint : Option l.Value) (s : Exec l) (b : Bool)
        → IsKeyed l s
        → bytes_eq (parent_of_path path) path ≡ false
        → listed l path s ≡ some b
        → (s' : Exec l) × (get_as path hint s
            ≡ some (s', detach (if b then view l path hint s else none)))
          × (view l path hint s' ≡ view l path hint s)
          × ViewsBut l (λ k. bytes_eq (parent_of_path path) k || bytes_eq path k) s s'
    unfolding get_as
    get_as-view path hint s b keyed apart h =
        let (s', f, done, val, stays, others, _) =
          read_cell-readable l laws system path hint false s b keyed apart h in
        (
          s',
          ap (λ o. o >>= λ got. some (got.0, detach got.1.value)) done
              ∙ ap (λ v. some (s', detach v)) val,
          stays,
          others,
        )
