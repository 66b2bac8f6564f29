-- ===== src/LiveStorage/Only.antt =====
-- The writes of transitions of which at most one stands at a key: the order of deletions and sets
-- does not matter.
use state_engine.Prelude.{
  ◌≡◌, refl, sym, ap, ◌∙◌, ◌≢◌, Bool, true, false, ◌||◌, ◌&&◌, is_some, ap₂, false≢true, Option,
  none, some, List, [], ◌∷◌, ◌++◌, Bytes, ◌==◌, ==_iff, inl, inr, bytes_eq, bytes_eq_iff,
  bytes_eq_refl, is_none, if◌then◌else◌, arith, Bool-cases,
}
use state_engine.Libs.Cells.{Ref, Heap}
use state_engine.Delta.Merge.{holds}
use state_engine.LiveStorage
use state_engine.LiveStorage.{LiveStorageWriter}
use state_engine.LiveStorage.Writes.{
  replay, settle, settle-replay, last_set, last_set_unset, is_set, is_deleted,
}
use state_engine.LiveStorage.Pipeline.{write_of, entries}

module _ {V W : Type 0} (l : LiveStorage.Env V W) where
  -- What the writer stores for a value, `none` for a deletion.
  abbrev pub encoded : Bytes → Option V → Option W
  encoded k none = none
  encoded k (some v) = some (l.forward_convert k v).1

  is_at : Bytes → Option Bytes → Bool
  is_at k none = false
  is_at k (some j) = bytes_eq j k

  replay-write_of :
      (k : Bytes) (o : Option Bytes) (v : Option V) (ws : List (Bytes × Option W)) (old : Option W)
      → replay k (write_of l o v ++ ws) old ≡ replay k ws (if is_at k o then encoded k v else old)
  unfolding replay write_of is_at
  replay-write_of k none v ws old = refl
  replay-write_of k (some j) none ws old = refl
  replay-write_of k (some j) (some v) ws old = elim (Bool-cases (bytes_eq j k)) [
    | inl same ↦
        rw same (ap (λ x. replay k ws (some (l.forward_convert x v).1)) ((bytes_eq_iff j k).0 same))
    | inr other ↦ rw other refl
  ]

  is_set-write_of :
      (k : Bytes) (o : Option Bytes) (v : Option V) (ws : List (Bytes × Option W))
      → is_set k (write_of l o v ++ ws) ≡ ((is_at k o && is_some v) || is_set k ws)
  unfolding is_set write_of is_at
  is_set-write_of k none v ws = refl
  is_set-write_of k (some j) none ws = ground arith
  is_set-write_of k (some j) (some v) ws = ground arith

  is_deleted-write_of :
      (k : Bytes) (o : Option Bytes) (v : Option V) (ws : List (Bytes × Option W))
      → is_deleted k (write_of l o v ++ ws) ≡ ((is_at k o && is_none v) || is_deleted k ws)
  unfolding is_deleted write_of is_at
  is_deleted-write_of k none v ws = refl
  is_deleted-write_of k (some j) none ws = ground arith
  is_deleted-write_of k (some j) (some v) ws = ground arith

  is_at-true : (k : Bytes) (o : Option Bytes) → is_at k o ≡ true → o ≡ some k
  unfolding is_at
  is_at-true k none h = cc
  is_at-true k (some j) h = ap some ((bytes_eq_iff j k).0 h)

  is_at-some : (k : Bytes) (o : Option Bytes) → o ≡ some k → is_at k o ≡ true
  unfolding is_at
  is_at-some k o h = rw h (bytes_eq_refl k)

  module _ (h : Heap l.cells) (k : Bytes) (r : Ref) (path : l.cells.get_path (h r) ≡ some k) where
    -- `r` is the only transition of the list at its key.
    abbrev IsOnly : List Ref → Type 0
    IsOnly rs = (q : Ref) → holds q rs ≡ true → l.cells.get_path (h q) ≡ some k → q ≡ r

    IsOnly-tail : (q : Ref) (rs : List Ref) → IsOnly (q ∷ rs) → IsOnly rs
    IsOnly-tail q rs only p hp = only p (ground arith)

    -- A transition of the list is at the key exactly if it is `r`.
    is_at-eq :
        (q : Ref) (rs : List Ref) → IsOnly (q ∷ rs) → is_at k (l.cells.get_path (h q)) ≡ (r == q)
    is_at-eq q rs only = elim (Bool-cases (is_at k (l.cells.get_path (h q)))) [
      | inl here ↦
          let same = only q (ground arith) (is_at-true k (l.cells.get_path (h q)) here) in
          here ∙ sym ((==_iff r q).1 (sym same))
      | inr off ↦ elim (Bool-cases (r == q)) [
        | inl same ↦
            let there = ap (λ p. l.cells.get_path (h p)) (sym ((==_iff r q).0 same)) ∙ path in
            absurd (false≢true (sym off ∙ is_at-some k (l.cells.get_path (h q)) there))
        | inr other ↦ off ∙ sym other
      ]
    ]

    replay-only :
        (rs : List Ref) (old : Option W)
        → IsOnly rs
        → replay k (entries l h rs) old
          ≡ (if holds r rs then encoded k (l.cells.value (h r)) else old)
    unfolding entries
    replay-only [] old only = unfold replay in refl
    replay-only (q ∷ rs) old only =
        replay-write_of k (l.cells.get_path (h q)) (l.cells.value (h q)) (entries l h rs) old
        ∙ replay-only rs
            (if is_at k (l.cells.get_path (h q)) then encoded k (l.cells.value (h q)) else old)
            (IsOnly-tail q rs only)
        ∙ elim (Bool-cases (r == q)) [
          | inl same ↦
              let there = ap (λ p. encoded k (l.cells.value (h p))) (sym ((==_iff r q).0 same)) in
              ground (arith, is_at-eq q rs only, there)
          | inr other ↦ ground (arith, is_at-eq q rs only)
        ]

    is_set-only :
        (rs : List Ref)
        → IsOnly rs
        → is_set k (entries l h rs) ≡ (holds r rs && is_some (l.cells.value (h r)))
    unfolding entries
    is_set-only [] only = unfold is_set in refl
    is_set-only (q ∷ rs) only =
        is_set-write_of k (l.cells.get_path (h q)) (l.cells.value (h q)) (entries l h rs)
        ∙ elim (Bool-cases (r == q)) [
          | inl same ↦
              let there = ap (λ p. is_some (l.cells.value (h p))) (sym ((==_iff r q).0 same)) in
              ground (arith, is_at-eq q rs only, there, is_set-only rs (IsOnly-tail q rs only))
          | inr other ↦ ground (arith, is_at-eq q rs only, is_set-only rs (IsOnly-tail q rs only))
        ]

    is_deleted-only :
        (rs : List Ref)
        → IsOnly rs
        → is_deleted k (entries l h rs) ≡ (holds r rs && is_none (l.cells.value (h r)))
    unfolding entries
    is_deleted-only [] only = unfold is_deleted in refl
    is_deleted-only (q ∷ rs) only =
        is_deleted-write_of k (l.cells.get_path (h q)) (l.cells.value (h q)) (entries l h rs)
        ∙ elim (Bool-cases (r == q)) [
          | inl same ↦
              let there = ap (λ p. is_none (l.cells.value (h p))) (sym ((==_iff r q).0 same)) in
              ground (arith, is_at-eq q rs only, there, is_deleted-only rs (IsOnly-tail q rs only))
          | inr other ↦
              ground (arith, is_at-eq q rs only, is_deleted-only rs (IsOnly-tail q rs only))
        ]

    set_and_deleted : (b : Bool) (o : Option V) → ((b && is_some o) && (b && is_none o)) ≡ false
    set_and_deleted true none = refl
    set_and_deleted true (some v) = refl
    set_and_deleted false o = refl

    -- The store settles to what the only transition at the key says.
    pub settle-only :
        (rs : List Ref) (old : Option W)
        → IsOnly rs
        → holds r rs ≡ true
        → settle k (entries l h rs) old ≡ encoded k (l.cells.value (h r))
    settle-only rs old only there =
        settle-replay k (entries l h rs) old (
          ap₂ ◌&&◌ (is_set-only rs only) (is_deleted-only rs only)
          ∙ set_and_deleted (holds r rs) (l.cells.value (h r)))
        ∙ replay-only rs old only
        ∙ rw there refl

  no_writes :
      (h : Heap l.cells) (k : Bytes) (rs : List Ref)
      → ((q : Ref) → holds q rs ≡ true → l.cells.get_path (h q) ≢ some k)
      → (is_set k (entries l h rs) ≡ false) × (is_deleted k (entries l h rs) ≡ false)
  unfolding entries
  no_writes h k [] nobody = unfold is_set is_deleted in (refl, refl)
  no_writes h k (q ∷ rs) nobody =
      let (unset, kept) = no_writes h k rs (λ p hp. nobody p (ground arith)) in
      let o = l.cells.get_path (h q) in
      let v = l.cells.value (h q) in
      let off : is_at k o ≡ false = elim (Bool-cases (is_at k o)) [
        | inl here ↦ absurd (nobody q (ground arith) (is_at-true k o here))
        | inr away ↦ away
      ] in
      (
        is_set-write_of k o v (entries l h rs) ∙ rw (off, unset) refl,
        is_deleted-write_of k o v (entries l h rs) ∙ rw (off, kept) refl,
      )

  -- A key at which no transition of the list stands stays as it is.
  pub settle-no_one :
      (h : Heap l.cells) (k : Bytes) (rs : List Ref) (old : Option W)
      → ((q : Ref) → holds q rs ≡ true → l.cells.get_path (h q) ≢ some k)
      → settle k (entries l h rs) old ≡ old
  unfolding settle
  settle-no_one h k rs old nobody =
      let (unset, kept) = no_writes h k rs nobody in
      ap (λ b. last_set k (entries l h rs) (if b then none else old)) kept
      ∙ last_set_unset k (entries l h rs) old unset
