-- ===== src/Delta/First.antt =====
-- `DeltaSequence.Finalize` on the transitions of a path, none of which is withdrawn.
use state_engine.Prelude.{
  ℕ, ◌≤◌, ◌≡◌, ◌≢◌, ◌⊎◌, inl, inr, refl, sym, ap, subst, ◌∙◌, Bool, true, false, not, ◌&&◌, ◌==◌,
  none, some, List, [], ◌∷◌, keep, if◌then◌else◌, Bool-cases, Option-cases, arith, false≢true,
}
use state_engine.Libs.SliceLib.{SliceLaws}
use state_engine.Libs.Cells.{CellLaws, Ref, Heap, withdrawn}
use state_engine.Delta.{Env, withdraw_all, merge_sorted, finalize, sort}
use state_engine.Delta.Order.{rank, IsAbove, sort-IsAbove}
use state_engine.Delta.Merge.{holds, get_path-withdraw_all, KeepsPaths}
use state_engine.Delta.Distinct.{IsDistinct, holds-sort, sort-IsDistinct}

keep-all :
    (f : Ref → Bool) (rs : List Ref) → ((q : Ref) → holds q rs ≡ true → f q ≡ true) → keep f rs ≡ rs
keep-all f [] all = refl
keep-all f (r ∷ rs) all =
    let first : f r ≡ true = all r (ground arith) in
    rw first (ap (◌∷◌ r) (keep-all f rs (λ q h. all q (ground (arith, h)))))

held-above :
    (tx : Ref → ℕ) (n : ℕ) (rs : List Ref) (q : Ref)
    → IsAbove tx n rs
    → holds q rs ≡ true
    → n ≤ rank (tx q)
held-above tx n [] q above h = absurd (false≢true h)
held-above tx n (r ∷ rs) q (le, above) h = elim (Bool-cases (q == r)) [
  | inl eq ↦ let same : q ≡ r = ground (arith, eq) in subst (λ x. n ≤ rank (tx x)) (sym same) le
  | inr ne ↦
      let later = held-above tx (rank (tx r)) rs q above (ground (arith, h, ne)) in
      omega (arith, le, later)
]

-- The rest of a list without repetitions is the list without its first pointer.
rest-holds :
    (r q : Ref) (rs : List Ref)
    → holds r rs ≡ false
    → holds q rs ≡ (holds q (r ∷ rs) && not (q == r))
rest-holds r q rs out = elim (Bool-cases (q == r)) [
  | inl eq ↦ let same : q ≡ r = ground (arith, eq) in ap (λ x. holds x rs) same ∙ out ∙ (rw eq refl)
  | inr ne ↦ ground (arith, ne)
]

module _ {V : Type 0} (e : Env V) (cl : CellLaws e.cells) where
  abbrev tx_of : Heap e.cells → Ref → ℕ
  tx_of h r = e.cells.get_tx (h r)

  -- The others of the transitions.
  abbrev pub is_other : List Ref → Ref → Ref → Bool
  is_other trans r q = holds q trans && not (q == r)

  -- `Finalize` returns the transition with the paths of the others withdrawn.
  abbrev pub Merges : List Ref → Heap e.cells → Ref → Type 0
  Merges trans h r =
      (h' : Heap e.cells) × (finalize e trans h ≡ some (some r, h'))
      × ((q : Ref)
          → e.cells.get_path (h' q) ≡ (if is_other trans r q then none else e.cells.get_path (h q)))

  -- `Finalize` panics since the merge of the others into the transition reports an error.
  abbrev pub Panics : List Ref → Heap e.cells → Ref → Type 0
  Panics trans h r =
      (finalize e trans h ≡ none)
      × ((rs : List Ref) × (err : ℕ) × ((q : Ref) → holds q rs ≡ is_other trans r q)
          × ((e.apply_delta r rs h).0 ≡ some err))

  abbrev pub Finalized : List Ref → Heap e.cells → Type 0
  Finalized trans h =
      (r : Ref) × (holds r trans ≡ true)
      × ((q : Ref)
          → holds q trans ≡ true
          → rank (e.cells.get_tx (h r)) ≤ rank (e.cells.get_tx (h q)))
      × (Merges trans h r ⊎ Panics trans h r)

  module _ (sl : SliceLaws e.slices) (keeps : KeepsPaths e cl) where
    -- The outcome, by that of `ApplyDelta`.
    merged :
        (trans : List Ref) (h : Heap e.cells) (r : Ref) (rs : List Ref)
        → finalize e trans h ≡ merge_sorted e (r ∷ rs) h
        → ((q : Ref) → holds q rs ≡ is_other trans r q)
        → Merges trans h r ⊎ Panics trans h r
    unfolding merge_sorted
    merged trans h r rs runs others = elim (Option-cases (e.apply_delta r rs h).0) [
      | inl fine ↦ inl (
        withdraw_all e rs (e.apply_delta r rs h).1,
        runs ∙ (rw (merge_sorted, fine) refl),
        λ q.
            get_path-withdraw_all e cl rs (e.apply_delta r rs h).1 q
            ∙ ap (λ o. if holds q rs then none else o) (keeps r rs h q)
            ∙ ap (λ (b : Bool). if b then none else e.cells.get_path (h q)) (others q),
      )
      | inr (err, failed) ↦ inr (runs ∙ (rw (merge_sorted, failed) refl), (rs, err, others, failed))
    ]

    from_sorted :
        (trans : List Ref) (h : Heap e.cells) (l : List Ref) (x : Ref)
        → finalize e trans h ≡ merge_sorted e l h
        → ((q : Ref) → holds q l ≡ holds q trans)
        → IsDistinct l
        → IsAbove (tx_of h) 0 l
        → holds x l ≡ true
        → Finalized trans h
    from_sorted trans h [] x runs same d above some_one = absurd (false≢true some_one)
    from_sorted trans h (r ∷ rs) x runs same (out, d) (low, above) some_one = (
      r,
      sym (same r) ∙ ground arith,
      λ q hq. elim (Bool-cases (q == r)) [
        | inl eq ↦
            let own : q ≡ r = ground (arith, eq) in
            subst (λ y. rank (tx_of h r) ≤ rank (tx_of h y)) (sym own) (omega arith)
        | inr ne ↦
            let inside : holds q (r ∷ rs) ≡ true = same q ∙ hq in
            held-above (tx_of h) (rank (tx_of h r)) rs q above (ground (arith, ne, inside))
      ],
      merged trans h r rs runs (λ q. rest-holds r q rs out ∙ ap (λ b. b && not (q == r)) (same q)),
    )

    -- `Finalize` of distinct transitions, one at least and none of them withdrawn: it takes one that
    -- no other stands before, the system's transitions standing before all others and those by their
    -- numbers. Either it returns that one and withdraws exactly the others, or it panics, and then
    -- `ApplyDelta` of that one and the others has reported an error. The conditions are
    -- that `ApplyDelta` changes no path and that the slices keep their laws.
    pub finalize-least :
        (trans : List Ref) (h : Heap e.cells)
        → trans ≢ []
        → IsDistinct trans
        → ((q : Ref) → holds q trans ≡ true → withdrawn e.cells h q ≡ false)
        → Finalized trans h
    unfolding finalize
    finalize-least [] h some_one d live = absurd (some_one refl)
    finalize-least (x ∷ xs) h some_one d live =
        let trans = x ∷ xs in
        let whole : e.slices.array_after_remove (withdrawn e.cells h) trans ≡ trans =
          sl.array_after_remove_lem (withdrawn e.cells h) trans
            (keep-all (λ q. not (withdrawn e.cells h q)) trans (λ q hq. ap not (live q hq))) in
        from_sorted trans h (sort (tx_of h) trans) x
          (ap (λ l. merge_sorted e (sort (tx_of h) l) h) whole) (λ q. holds-sort (tx_of h) q trans)
          (sort-IsDistinct (tx_of h) trans d) (sort-IsAbove (tx_of h) trans)
          (holds-sort (tx_of h) x trans ∙ ground arith)
