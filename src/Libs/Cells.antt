-- ===== src/Libs/Cells.antt =====
-- `common-lib/crdt/statecell`. A transition is a pointer to a state cell, which several owners
-- share; a pointer is a number and the heap gives the cell that it points to.
use state_engine.Prelude.{ℕ, ◌≡◌, refl, Bool, Option, none, Bytes, ◌==◌, if◌then◌else◌, is_none}

-- The methods of a cell that the storage layers call. `get_path` is `none` where the transition has
-- been withdrawn, `value` is `none` for a deletion, `clear_path` is `SetPath(nil)`.
pub record CellLib (V : Type 0) : Type 1 where
  pub Cell : Type 0
  pub get_path : Cell → Option Bytes
  pub value : Cell → Option V
  pub get_tx : Cell → ℕ
  pub is_block_bound : Cell → Bool
  pub if_skip_conflict_check : Cell → Bool
  pub clear_path : Cell → Cell

pub record CellLaws {V : Type 0} (c : CellLib V) : Type 0 where
  pub get_path-clear_path : (x : c.Cell) → c.get_path (c.clear_path x) ≡ none
  pub value-clear_path : (x : c.Cell) → c.value (c.clear_path x) ≡ c.value x
  pub get_tx-clear_path : (x : c.Cell) → c.get_tx (c.clear_path x) ≡ c.get_tx x

abbrev pub Ref : Type 0
Ref = ℕ

module _ {V : Type 0} (c : CellLib V) where
  abbrev pub Heap : Type 0
  Heap = Ref → c.Cell

  -- `SetPath(nil)` through a pointer.
  abbrev pub withdraw : Ref → Heap → Heap
  withdraw r h q = if q == r then c.clear_path (h q) else h q

  -- `v.GetPath() == nil`
  abbrev pub withdrawn : Heap → Ref → Bool
  withdrawn h r = is_none (c.get_path (h r))

  -- A filter of transitions is given the pointer, and may change the cell.
  abbrev pub Filter : Type 0
  Filter = Ref → Heap → Bool × Heap

-- A cell as a record.
pub record PlainCell (V : Type 0) : Type 0 where
  pub path : Option Bytes
  pub content : Option V
  pub tx : ℕ
  pub bound : Bool
  pub skip : Bool

abbrev pub plain_cells : (V : Type 0) → CellLib V
plain_cells V = record {
  Cell = PlainCell V;
  get_path = λ x. x.path;
  value = λ x. x.content;
  get_tx = λ x. x.tx;
  is_block_bound = λ x. x.bound;
  if_skip_conflict_check = λ x. x.skip;
  clear_path = λ x. record x { path = none };
}

pub plain_cells-laws : (V : Type 0) → CellLaws (plain_cells V)
plain_cells-laws V = record {
  get_path-clear_path = λ x. refl;
  value-clear_path = λ x. refl;
  get_tx-clear_path = λ x. refl;
}
