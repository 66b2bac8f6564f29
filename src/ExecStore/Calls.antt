-- ===== src/ExecStore/Calls.antt =====
-- The other operations that are given functions of the common library, or take cells from elsewhere,
-- leave every local cell under its own path.
use state_engine.Prelude.{
  ℕ, ◌≡◌, ◌∙◌, Bool, true, false, not, ◌&&◌, Option, none, some, List, [], ◌∷◌, Bytes,
}
use state_engine.Libs.SliceLib.{SliceLib}
use state_engine.ExecStore.{ExecLib, Exec, put_cell}
use state_engine.ExecStore.Indexes.{do_read_only, index_of, key_at}
use state_engine.ExecStore.Backend.{get, get_as}
use state_engine.ExecStore.Insert.{with_paths, cells_of, copy_all, insert}
use state_engine.ExecStore.Writer.{ExecutionCacheWriter, finalize, put_all, precommit}
use state_engine.ExecStore.Lookups.{CellLaws, IsKeyed, IsKeyed-put}
use state_engine.ExecStore.Ends.{Ends, Ends-self, Ends-bind, Ends-then, Ends-if}
use state_engine.ExecStore.Keyed.{PathLaws, Keyed, KeyedAt, save-IsKeyed, read_cell-KeyedAt}

-- The functions of the common library that the operations are given beside the store's own.
pub record Given (l : ExecLib) : Type 1 where
  pub slices : SliceLib
  pub is_path : Bytes → Bool
  pub is_committed : l.Cell → Bool
  pub copy_to : l.Cell → Exec l → Exec l
  pub sorter : List l.Cell → List l.Cell
  pub do_read : ℕ → Bytes → l.Cell → l.Cell
  pub idx_of : l.PathMeta → Bytes → ℕ
  pub view_key_at : l.PathMeta → ℕ → Option Bytes

-- `Do` and `CopyTo` keep the cells under their own paths.
pub record GivenLaws (l : ExecLib) (g : Given l) : Type 0 where
  pub get_path-do_read :
      (tx : ℕ) (path : Bytes) (c : l.Cell) → l.get_path (g.do_read tx path c) ≡ l.get_path c
  pub copy_to-IsKeyed : (c : l.Cell) (s : Exec l) → IsKeyed l s → IsKeyed l (g.copy_to c s)

module _ (l : ExecLib) (g : Given l) (laws : CellLaws l) (more : PathLaws l)
    (given : GivenLaws l g) where
  pub get-Keyed : (path : Bytes) (s : Exec l) → IsKeyed l s → Ends (Keyed l) (get l path s)
  unfolding get Ends
  get-Keyed path s keyed =
      Ends-bind (KeyedAt l path) (Keyed l) _ _
        (read_cell-KeyedAt l laws more _ path none false s keyed) (λ got held. held.0)

  pub get_as-Keyed :
      (path : Bytes) (hint : Option l.Value) (s : Exec l)
      → IsKeyed l s
      → Ends (Keyed l) (get_as l path hint s)
  unfolding get_as Ends
  get_as-Keyed path hint s keyed =
      Ends-bind (KeyedAt l path) (Keyed l) _ _
        (read_cell-KeyedAt l laws more _ path hint false s keyed) (λ got held. held.0)

  pub do_read_only-Keyed :
      (tx : ℕ) (path : Bytes) (hint : Option l.Value) (s : Exec l)
      → IsKeyed l s
      → Ends (Keyed l) (do_read_only l g.is_path g.do_read g.idx_of g.view_key_at tx path hint s)
  unfolding do_read_only Ends
  do_read_only-Keyed tx path hint s keyed =
      Ends-bind (KeyedAt l path) (Keyed l) _ _
        (read_cell-KeyedAt l laws more tx path hint true s keyed)
        (λ got held.
          save-IsKeyed l laws more got.1.local path (g.do_read tx path got.1.cell) got.0 held.0
            (λ local. given.get_path-do_read tx path got.1.cell ∙ held.1))

  pub index_of-Keyed :
      (tx : ℕ) (path : Bytes) (key : Option Bytes) (hint : Option l.Value) (s : Exec l)
      → IsKeyed l s
      → Ends (Keyed l) (index_of l g.is_path g.do_read g.idx_of g.view_key_at tx path key hint s)
  unfolding index_of Ends
  index_of-Keyed tx path key hint s keyed =
      Ends-if (Keyed l) (g.is_path path) _ _
        (Ends-bind (Keyed l) (Keyed l) _ _ (do_read_only-Keyed tx path hint s keyed)
          (λ got held. held))
        keyed

  pub key_at-Keyed :
      (tx : ℕ) (path : Bytes) (index : Option ℕ) (hint : Option l.Value) (s : Exec l)
      → IsKeyed l s
      → Ends (Keyed l) (key_at l g.is_path g.do_read g.idx_of g.view_key_at tx path index hint s)
  unfolding key_at Ends
  key_at-Keyed tx path index hint s keyed =
      Ends-if (Keyed l) (g.is_path path) _ _
        (Ends-bind (Keyed l) (Keyed l) _ _ (do_read_only-Keyed tx path hint s keyed)
          (λ got held. held))
        keyed

  copy_all-IsKeyed :
      (vs : List l.Cell) (s : Exec l)
      → IsKeyed l s
      → IsKeyed l (copy_all l g.slices g.is_path g.is_committed g.copy_to g.sorter vs s)
  unfolding copy_all
  copy_all-IsKeyed [] s keyed = keyed
  copy_all-IsKeyed (v ∷ vs) s keyed =
      copy_all-IsKeyed vs (g.copy_to v s) (given.copy_to-IsKeyed v s keyed)

  pub insert-IsKeyed :
      (vs : List l.Cell) (s : Exec l)
      → IsKeyed l s
      → Ends (IsKeyed l) (insert l g.slices g.is_path g.is_committed g.copy_to g.sorter vs s)
  unfolding insert Ends
  insert-IsKeyed vs s keyed =
      let copied = copy_all l g.slices g.is_path g.is_committed g.copy_to g.sorter in
      let known = with_paths l g.slices g.is_path g.is_committed g.copy_to g.sorter vs in
      let bare = cells_of l g.slices g.is_path g.is_committed g.copy_to g.sorter in
      let split : List (Bytes × l.Cell) → List (Bytes × l.Cell) × List (Bytes × l.Cell) =
        g.slices.move_if (λ p. g.is_path p.0 && not (g.is_committed p.1)) in
      let created : List (Bytes × l.Cell) → List l.Cell = λ ps. g.sorter (bare (split ps).0) in
      let rest : List (Bytes × l.Cell) → List l.Cell =
        λ ps. bare (g.slices.remove_if (λ p. g.is_path p.0) (split ps).1) in
      Ends-then (IsKeyed l) known (λ ps. some (copied (rest ps) (copied (created ps) s)))
        (λ ps.
          copy_all-IsKeyed (rest ps) (copied (created ps) s)
            (copy_all-IsKeyed (created ps) s keyed))

  put_all-IsKeyed :
      (h : ℕ → l.Cell) (rs : List ℕ) (s : Exec l)
      → IsKeyed l s
      → Ends (IsKeyed l) (put_all l h rs s)
  unfolding put_all Ends
  put_all-IsKeyed h [] s keyed = keyed
  put_all-IsKeyed h (r ∷ rs) s keyed =
      Ends-bind (λ path. l.get_path (h r) ≡ some path) (IsKeyed l) (l.get_path (h r)) _
        (Ends-self (l.get_path (h r)))
        (λ path own.
          put_all-IsKeyed h rs (put_cell l path (h r) s) (IsKeyed-put l s path (h r) keyed own))

  pub precommit-IsKeyed :
      (h : ℕ → l.Cell) (w : ExecutionCacheWriter l)
      → IsKeyed l w.store
      → Ends (λ (w' : ExecutionCacheWriter l). IsKeyed l w'.store) (precommit l g.slices h w)
  unfolding precommit Ends
  precommit-IsKeyed h w keyed =
      let ix = finalize l g.slices h w.indexer in
      Ends-bind (IsKeyed l) (λ (w' : ExecutionCacheWriter l). IsKeyed l w'.store)
        (put_all l h ix.buffer w.store) (λ s. some (record { indexer = ix; store = s }))
        (put_all-IsKeyed h ix.buffer w.store keyed) (λ s held. held)
