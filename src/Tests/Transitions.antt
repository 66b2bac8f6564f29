-- ===== src/Tests/Transitions.antt =====
-- The theorems on the transitions of one path, at a sequence with the system in it.
use mathlib.Core.List.{reverse}
use state_engine.Prelude.{
  ℕ, ◌≡◌, refl, false, none, some, List, [], ◌∷◌, codes, ◌==◌, if◌then◌else◌, arith,
}
use state_engine.Paths.Constants.{system}
use state_engine.Libs.Cells.{plain_cells, plain_cells-laws, Heap}
use state_engine.Delta.{sort, Env}
use state_engine.Delta.Order.{IsAbove, of_tx, sort-IsAbove, of_tx-sort, of_tx-sort-system}
use state_engine.Delta.First.{Finalized, finalize-least}
use state_engine.Libs.SliceLib.{plain_slices, plain_slices-laws}

abbrev stamps : ℕ → ℕ
stamps r = if r == 0 then 7 else if r == 1 then 3 else if r == 3 then 3 else system

abbrev batch : List ℕ
batch = 0 ∷ 1 ∷ 2 ∷ 3 ∷ 4 ∷ []

sort-IsAbove_example : IsAbove stamps 0 (sort stamps batch)
sort-IsAbove_example = sort-IsAbove stamps batch

of_tx-sort_example : of_tx stamps 3 (sort stamps batch) ≡ of_tx stamps 3 batch
of_tx-sort_example = of_tx-sort stamps 3 batch (λ e. omega arith)

of_tx-sort-system_example :
    of_tx stamps system (sort stamps batch) ≡ reverse (of_tx stamps system batch)
of_tx-sort-system_example = of_tx-sort-system stamps batch

-- Cells of one path; a merge that changes nothing.
abbrev merging : Env ℕ
merging = record { cells = plain_cells ℕ; slices = plain_slices; apply_delta = λ r rs h. (none, h) }

abbrev heap : Heap merging.cells
heap r = record {
  path = some (codes "k");
  content = some r;
  tx = stamps r;
  bound = false;
  skip = false;
}

finalize-least_example : Finalized merging (plain_cells-laws ℕ) batch heap
finalize-least_example =
    finalize-least merging (plain_cells-laws ℕ) plain_slices-laws (λ r rs h q. refl) batch heap
      (λ e. cc) (refl, (refl, (refl, (refl, (refl, tt))))) (λ q h. refl)
