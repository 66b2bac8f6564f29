-- ===== src/Delta.antt =====
-- state/committer/delta_sequence.go: the transitions of one path, sorted and merged into the first.
-- `none` as the result of an operation is a panic.
pub mod Order
pub mod Merge
pub mod Distinct
pub mod First
use state_engine.Prelude.{
  ℕ, Bool, true, false, not, ◌||◌, Option, none, some, List, [], ◌∷◌, ◌++◌, map, Bytes, ltb, ◌==◌,
  is_none, if◌then◌else◌,
}
use mathlib.Core.List.{reverse}
use state_engine.Paths.Constants.{system}
use state_engine.Libs.SliceLib.{SliceLib}
use state_engine.Libs.Cells.{CellLib, Ref, Heap, withdraw, withdrawn}

-- The comparison that `sort` hands to `sort.SliceStable`, on the transactions of two elements.
unfoldable pub less : ℕ → ℕ → Bool
less i j = if i == system then true else if j == system then false else ltb i j

module _ {A : Type 0} (tx : A → ℕ) where
  -- One round of Go's insertion sort: the element moves to the left while it is less than its
  -- neighbour. The sorted part is kept with its last element first.
  unfoldable pub insert : A → List A → List A
  unfolding less
  insert x [] = x ∷ []
  insert x (p ∷ r) = if less (tx x) (tx p) then p ∷ insert x r else x ∷ p ∷ r

  unfoldable pub insert_all : List A → List A → List A
  unfolding insert
  insert_all [] r = r
  insert_all (x ∷ xs) r = insert_all xs (insert x r)

  -- `sort.SliceStable` with `less`. Go sorts up to 20 elements by insertion, and longer slices by
  -- insertion in blocks of 20 that it merges; both give the one stable order where the comparison
  -- is a strict weak order, which it is not on two system transactions.
  unfoldable pub sort : List A → List A
  unfolding insert_all
  sort xs = reverse (insert_all xs [])

-- What the code takes of the cell library: `ApplyDelta` merges the cells of the list into the first
-- one, and may return an error.
pub record Env (V : Type 0) : Type 1 where
  pub cells : CellLib V
  pub slices : SliceLib
  pub apply_delta : Ref → List Ref → Heap cells → Option ℕ × Heap cells

module _ {V : Type 0} (e : Env V) where
  unfoldable pub withdraw_all : List Ref → Heap e.cells → Heap e.cells
  withdraw_all [] h = h
  withdraw_all (r ∷ rs) h = withdraw_all rs (withdraw e.cells r h)

  -- `ApplyDelta`, the panic on its error, and the loop that flags the merged transitions.
  unfoldable pub merge_sorted : List Ref → Heap e.cells → Option (Option Ref × Heap e.cells)
  unfolding withdraw_all
  merge_sorted [] h = some (none, h)
  merge_sorted (r ∷ rs) h = elim ((e.apply_delta r rs h).0) [
    | some err ↦ none
    | none ↦ some (some r, withdraw_all rs (e.apply_delta r rs h).1)
  ]

  -- `Finalize`. `RemoveIf` shortens the copy `trans` of the slice, and the sequence goes on with the
  -- slice itself, whose array the removal may have rearranged.
  unfoldable pub finalize : List Ref → Heap e.cells → Option (Option Ref × Heap e.cells)
  unfolding sort merge_sorted
  finalize trans h =
      let this = e.slices.array_after_remove (withdrawn e.cells h) trans in
      merge_sorted (sort (λ r. e.cells.get_tx (h r)) this) h
