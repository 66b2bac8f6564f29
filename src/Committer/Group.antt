-- ===== src/Committer/Group.antt =====
-- The merge of the transitions of one path by `StateCommitter.Finalize`: one of them is left.
use state_engine.Prelude.{
  ◌≡◌, refl, sym, ap, ◌∙◌, Bool, true, false, not, Option, none, some, List, [], ◌∷◌, Bytes, keep,
  is_none, if◌then◌else◌, ◌>>=◌, false≢true, Bool-cases, inl, inr,
}
use state_engine.Libs.SliceLib.{SliceLaws}
use state_engine.Libs.Cells.{CellLaws, Ref, Heap, withdrawn}
use state_engine.Delta
use state_engine.Delta.{sort, merge_sorted, withdraw_all}
use state_engine.Delta.Merge.{holds, get_path-withdraw_all, KeepsPaths}
use state_engine.Delta.Distinct.{
  IsDistinct, holds-sort, sort-IsDistinct, rest_of, holds-keep, unheld-keep, holds_of_keep,
  not-true, keep-IsDistinct, first_unique, first-held, rest-outside,
}
use state_engine.Committer.{Env, finalize_group}

-- A path that is left was there before.
pub still-in :
    (a b : Option Bytes) (g : Bool)
    → a ≡ (if g then none else b)
    → is_none a ≡ false
    → (is_none b ≡ false) × (g ≡ false)
still-in a b true p h = absurd (false≢true (sym h ∙ ap is_none p))
still-in a b false p h = (ap is_none (sym p) ∙ h, refl)

keep-keep : {A : Type 0} (f : A → Bool) (xs : List A) → keep f (keep f xs) ≡ keep f xs
keep-keep f [] = refl
keep-keep f (x ∷ xs) = elim (Bool-cases (f x)) [
  | inl stays ↦ rw stays (rw stays (ap (◌∷◌ x) (keep-keep f xs)))
  | inr goes ↦ rw goes (keep-keep f xs)
]

module _ {V : Type 0} (e : Env V) where
  abbrev pub Cells : Type 0
  Cells = Heap e.delta.cells

  abbrev pub path_at : Cells → Ref → Option Bytes
  path_at h q = e.delta.cells.get_path (h q)

  -- `ApplyDelta` reports no error.
  abbrev pub NeverFails : Type 0
  NeverFails = (r : Ref) (rs : List Ref) (h : Cells) → (e.delta.apply_delta r rs h).0 ≡ none

  -- Of the transitions of a path there is at most one in play after the merge, and one if there was
  -- one before it.
  abbrev pub AtMostOne : Cells → List Ref → Type 0
  AtMostOne h rs =
      (q r : Ref)
      → holds q rs ≡ true
      → holds r rs ≡ true
      → withdrawn e.delta.cells h q ≡ false
      → withdrawn e.delta.cells h r ≡ false
      → q ≡ r

  abbrev pub KeepsOne : Cells → Cells → List Ref → Type 0
  KeepsOne h h' rs =
      (q : Ref)
      → holds q rs ≡ true
      → withdrawn e.delta.cells h q ≡ false
      → (r : Ref) × (holds r rs ≡ true) × (withdrawn e.delta.cells h' r ≡ false)

  module _ (cl : CellLaws e.delta.cells) (sl : SliceLaws e.delta.slices)
      (keeps : KeepsPaths e.delta cl) (never : NeverFails) where
    sorted : List Ref → Cells → List Ref
    sorted rs h = sort (λ r. e.delta.cells.get_tx (h r)) rs

    -- The merge of a group withdraws all its transitions but the first of the sorted ones.
    merge_sorted-path :
        (rs : List Ref) (h : Cells)
        → (h' : Cells) × ((merge_sorted e.delta rs h >>= λ done. some done.1) ≡ some h')
          × ((q : Ref) → path_at h' q ≡ (if holds q (rest_of rs) then none else path_at h q))
    unfolding merge_sorted
    merge_sorted-path [] h = (h, refl, λ q. refl)
    merge_sorted-path (r ∷ rs) h = (
      withdraw_all e.delta rs (e.delta.apply_delta r rs h).1,
      rw (merge_sorted, never r rs h) refl,
      λ q.
          get_path-withdraw_all e.delta cl rs (e.delta.apply_delta r rs h).1 q
          ∙ ap (λ o. if holds q rs then none else o) (keeps r rs h q),
    )

    live-twice :
        (rs : List Ref) (h : Cells)
        → let live = keep (λ r. not (withdrawn e.delta.cells h r)) rs in
          e.delta.slices.array_after_remove (withdrawn e.delta.cells h) live ≡ live
    live-twice rs h =
        sl.array_after_remove_lem (withdrawn e.delta.cells h)
          (keep (λ r. not (withdrawn e.delta.cells h r)) rs)
          (keep-keep (λ r. not (withdrawn e.delta.cells h r)) rs)

    -- Nothing of the group is withdrawn, so that the removal of `Delta.finalize` finds nothing.
    group-path :
        (rs : List Ref) (h : Cells)
        → e.delta.slices.array_after_remove (withdrawn e.delta.cells h) rs ≡ rs
        → (h' : Cells) × (finalize_group e rs h ≡ some h')
          × ((q : Ref)
              → path_at h' q ≡ (if holds q (rest_of (sorted rs h)) then none else path_at h q))
    unfolding finalize_group sorted sort Delta.finalize
    group-path [] h live = (h, refl, λ q. refl)
    group-path (r ∷ rs) h live =
        let (h', done, path) = merge_sorted-path (sorted (r ∷ rs) h) h in
        (
          h',
          ap (λ l. merge_sorted e.delta (sorted l h) h >>= λ done. some done.1) live ∙ done,
          path,
        )

    -- What the merge of one group does to the heap.
    pub record Effect (rs : List Ref) (h h' : Cells) : Type 0 where
      pub gone : Ref → Bool
      pub path : (q : Ref) → path_at h' q ≡ (if gone q then none else path_at h q)
      pub outside : (q : Ref) → holds q rs ≡ false → gone q ≡ false
      pub one : AtMostOne h' rs
      pub some_left : KeepsOne h h' rs

    -- The transitions that are in play, as the merge sorts them.
    abbrev contest : List Ref → Cells → List Ref
    contest rs h = sorted (keep (λ r. not (withdrawn e.delta.cells h r)) rs) h

    holds-contest :
        (rs : List Ref) (h : Cells) (q : Ref)
        → holds q rs ≡ true
        → withdrawn e.delta.cells h q ≡ false
        → holds q (contest rs h) ≡ true
    unfolding sorted
    holds-contest rs h q hq live =
        holds-sort (λ r. e.delta.cells.get_tx (h r)) q
          (keep (λ r. not (withdrawn e.delta.cells h r)) rs)
        ∙ holds-keep (λ r. not (withdrawn e.delta.cells h r)) q rs (ap not live)
        ∙ hq

    outside-contest :
        (rs : List Ref) (h : Cells) (q : Ref) → holds q rs ≡ false → holds q (contest rs h) ≡ false
    unfolding sorted
    outside-contest rs h q out =
        holds-sort (λ r. e.delta.cells.get_tx (h r)) q
          (keep (λ r. not (withdrawn e.delta.cells h r)) rs)
        ∙ unheld-keep (λ r. not (withdrawn e.delta.cells h r)) q rs out

    -- What takes part was in the group and in play.
    in_contest :
        (rs : List Ref) (h : Cells) (q : Ref)
        → holds q (contest rs h) ≡ true
        → (holds q rs ≡ true) × (withdrawn e.delta.cells h q ≡ false)
    unfolding sorted
    in_contest rs h q hq =
        let live = λ (r : Ref). not (withdrawn e.delta.cells h r) in
        let (inside, kept) =
          holds_of_keep live q rs
            (sym (holds-sort (λ r. e.delta.cells.get_tx (h r)) q (keep live rs)) ∙ hq) in
        (inside, not-true (withdrawn e.delta.cells h q) kept)

    contest-IsDistinct : (rs : List Ref) (h : Cells) → IsDistinct rs → IsDistinct (contest rs h)
    unfolding sorted
    contest-IsDistinct rs h d =
        sort-IsDistinct (λ r. e.delta.cells.get_tx (h r))
          (keep (λ r. not (withdrawn e.delta.cells h r)) rs)
          (keep-IsDistinct (λ r. not (withdrawn e.delta.cells h r)) rs d)

    pub group-Effect :
        (rs : List Ref) (h : Cells)
        → IsDistinct rs
        → (h' : Cells) × (finalize_group e
              (e.delta.slices.remove_if (withdrawn e.delta.cells h) rs)
              h
            ≡ some h')
          × Effect rs h h'
    group-Effect rs h d =
        let live = λ (r : Ref). not (withdrawn e.delta.cells h r) in
        let (h', done, path) = group-path (keep live rs) h (live-twice rs h) in
        let gone = λ (q : Ref). holds q (rest_of (contest rs h)) in
        let here = λ (q : Ref) (left : withdrawn e.delta.cells h' q ≡ false).
          still-in (path_at h' q) (path_at h q) (gone q) (path q) left in
        (
          h',
          rw (sl.remove_if_lem (withdrawn e.delta.cells h) rs) done,
          record {
            gone = gone;
            path = path;
            outside = λ q out. rest-outside (contest rs h) q (outside-contest rs h q out);
            one = λ q r hq hr lq lr.
                first_unique (contest rs h) q r (holds-contest rs h q hq (here q lq).0)
                  (holds-contest rs h r hr (here r lr).0) (here q lq).1 (here r lr).1;
            some_left = λ q hq lq.
                let (r, hr, front) =
                  first-held (contest rs h) q (contest-IsDistinct rs h d)
                    (holds-contest rs h q hq lq) in
                let (inside, live_before) = in_contest rs h r hr in
                (r, inside, ap is_none (path r ∙ rw front refl) ∙ live_before);
          },
        )
