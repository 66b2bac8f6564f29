-- ===== src/Committer/Whitelist.antt =====
-- What the whitelist of `StateCommitter.Finalize` leaves, and how often the writers are committed.
use state_engine.Prelude.{
  ℕ, ◌≡◌, refl, Bool, false, not, ◌&&◌, ◌||◌, none, List, [], ◌∷◌, if◌then◌else◌, arith, Bool-cases,
  inl, inr,
}
use state_engine.Libs.Cells.{CellLaws, Ref, Heap}
use state_engine.Delta.{withdraw_all}
use state_engine.Delta.Merge.{holds, get_path-withdraw_all}
use state_engine.Committer.{Env, listed, withdraw_others, whitelist}

module _ {V : Type 0} (e : Env V) (cl : CellLaws e.delta.cells) where
  -- Whether the transition stands in the group of a transaction that is not on the list.
  abbrev pub excluded : List ℕ → List (ℕ × List Ref) → Ref → Bool
  excluded txs [] q = false
  excluded txs ((tx, rs) ∷ groups) q =
      (not (listed e tx txs) && holds q rs) || excluded txs groups q

  get_path-group :
      (txs : List ℕ) (tx : ℕ) (rs : List Ref) (h : Heap e.delta.cells) (q : Ref)
      → e.delta.cells.get_path ((if listed e tx txs then h else withdraw_all e.delta rs h) q)
        ≡ (if not (listed e tx txs) && holds q rs then none else e.delta.cells.get_path (h q))
  get_path-group txs tx rs h q = elim (Bool-cases (listed e tx txs)) [
    | inl on ↦ rw on refl
    | inr off ↦ rw off (get_path-withdraw_all e.delta cl rs h q)
  ]

  get_path-withdraw_others :
      (txs : List ℕ) (groups : List (ℕ × List Ref)) (h : Heap e.delta.cells) (q : Ref)
      → e.delta.cells.get_path (withdraw_others e txs groups h q)
        ≡ (if excluded txs groups q then none else e.delta.cells.get_path (h q))
  unfolding withdraw_others
  get_path-withdraw_others txs [] h q = refl
  get_path-withdraw_others txs ((tx, rs) ∷ groups) h q = ground (
    arith,
    get_path-withdraw_others txs groups (if listed e tx txs then h else withdraw_all e.delta rs h)
        q,
    get_path-group txs tx rs h q,
  )

  -- A whitelist with at least one transaction withdraws exactly the transitions in the groups of the
  -- transactions that it does not name; every other cell keeps its path.
  pub get_path-whitelist :
      (t : ℕ) (txs : List ℕ) (groups : List (ℕ × List Ref)) (h : Heap e.delta.cells) (q : Ref)
      → e.delta.cells.get_path (whitelist e (t ∷ txs) groups h q)
        ≡ (if excluded (t ∷ txs) groups q then none else e.delta.cells.get_path (h q))
  unfolding whitelist
  get_path-whitelist t txs groups h q = get_path-withdraw_others (t ∷ txs) groups h q
