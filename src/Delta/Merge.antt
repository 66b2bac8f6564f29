-- ===== src/Delta/Merge.antt =====
-- What `DeltaSequence.Finalize` leaves of the transitions of a path.
use state_engine.Prelude.{
  ◌≡◌, refl, Bool, false, ◌||◌, none, List, [], ◌∷◌, ◌==◌, if◌then◌else◌, arith,
}
use state_engine.Libs.Cells.{CellLaws, Ref, Heap, withdraw}
use state_engine.Delta.{Env, withdraw_all}

-- `r` is one of the pointers.
abbrev pub holds : Ref → List Ref → Bool
holds q [] = false
holds q (r ∷ rs) = (q == r) || holds q rs

module _ {V : Type 0} (e : Env V) (cl : CellLaws e.cells) where
  -- Withdrawing a list of cells leaves no path in them and touches no other cell.
  pub get_path-withdraw_all :
      (rs : List Ref) (h : Heap e.cells) (q : Ref)
      → e.cells.get_path (withdraw_all e rs h q)
        ≡ (if holds q rs then none else e.cells.get_path (h q))
  unfolding withdraw_all
  get_path-withdraw_all [] h q = refl
  get_path-withdraw_all (r ∷ rs) h q =
      ground
        (arith, get_path-withdraw_all rs (withdraw e.cells r h) q, cl.get_path-clear_path (h q))

  -- `ApplyDelta` changes no path.
  abbrev pub KeepsPaths : Type 0
  KeepsPaths =
      (r : Ref) (rs : List Ref) (h : Heap e.cells) (q : Ref)
      → e.cells.get_path ((e.apply_delta r rs h).1 q) ≡ e.cells.get_path (h q)
