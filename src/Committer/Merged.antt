-- ===== src/Committer/Merged.antt =====
-- What the merge of `StateCommitter.Finalize` leaves of every path: one transition.
use state_engine.Prelude.{
  ◌≡◌, refl, sym, ap, ◌∙◌, Bool, true, false, ◌||◌, Option, none, some, List, [], ◌∷◌, Bytes,
  is_none, if◌then◌else◌, arith, false≢true,
}
use state_engine.Libs.SliceLib.{SliceLaws}
use state_engine.Libs.Cells.{CellLaws, Ref, withdrawn}
use state_engine.Delta.Merge.{holds, KeepsPaths}
use state_engine.Delta.Distinct.{IsDistinct}
use state_engine.Committer.Group.{
  still-in, Cells, path_at, NeverFails, AtMostOne, KeepsOne, Effect, group-Effect,
}
use state_engine.Committer.{Env, finalize_groups}

-- A group holds none of the others' pointers, and none twice.
abbrev pub held : {K : Type 0} → Ref → List (K × List Ref) → Bool
held q [] = false
held q ((path, rs) ∷ groups) = holds q rs || held q groups

abbrev pub AreDisjoint : {K : Type 0} → List (K × List Ref) → Type 0
AreDisjoint [] = Unit
AreDisjoint ((path, rs) ∷ groups) =
    IsDistinct rs × ((q : Ref) → holds q rs ≡ true → held q groups ≡ false) × AreDisjoint groups

or_true : (b : Bool) → (b || true) ≡ true
or_true b = ground arith

or_left : (a b : Bool) → (a || b) ≡ false → a ≡ false
or_left a b h = ground arith

or_right : (a b : Bool) → (a || b) ≡ false → b ≡ false
or_right a b h = ground arith

both_free : (a b : Bool) → a ≡ false → b ≡ false → (a || b) ≡ false
both_free a b h k = ground arith

disjoint : (a b : Bool) → (a ≡ true → b ≡ false) → b ≡ true → a ≡ false
disjoint true b apart h = absurd (false≢true (sym (apart refl) ∙ h))
disjoint false b apart h = refl

both :
    (a b : Bool) (x y z : Option Bytes)
    → x ≡ (if b then none else y)
    → y ≡ (if a then none else z)
    → x ≡ (if a || b then none else z)
both true true x y z p q = p
both true false x y z p q = p ∙ q
both false true x y z p q = p
both false false x y z p q = p ∙ q

module _ {V : Type 0} (e : Env V) where
  abbrev pub AllMerged : Cells e → Cells e → List (Bytes × List Ref) → Type 0
  AllMerged h h' [] = Unit
  AllMerged h h' ((path, rs) ∷ groups) =
      AtMostOne e h' rs × KeepsOne e h h' rs × AllMerged h h' groups

  module _ (cl : CellLaws e.delta.cells) (sl : SliceLaws e.delta.slices)
      (keeps : KeepsPaths e.delta cl) (never : NeverFails e) where
    -- What the merge of some groups does to the transitions outside them, and to all.
    pub record Outside (groups : List (Bytes × List Ref)) (h h' : Cells e) : Type 0 where
      pub gone : Ref → Bool
      pub path : (q : Ref) → path_at e h' q ≡ (if gone q then none else path_at e h q)
      pub outside : (q : Ref) → held q groups ≡ false → gone q ≡ false

    AllMerged-from :
        (h h₁ h' : Cells e) (groups : List (Bytes × List Ref))
        → ((q : Ref) → held q groups ≡ true → path_at e h₁ q ≡ path_at e h q)
        → AllMerged h₁ h' groups
        → AllMerged h h' groups
    AllMerged-from h h₁ h' [] same m = tt
    AllMerged-from h h₁ h' ((path, rs) ∷ groups) same (one, left, m) = (
      one,
      λ q hq lq. left q hq (ap is_none (same q (rw hq refl)) ∙ lq),
      AllMerged-from h h₁ h' groups (λ q hq. same q (rw hq (or_true (holds q rs)))) m,
    )

    merge_next :
        (path : Bytes) (rs : List Ref) (groups : List (Bytes × List Ref)) (h h₁ h' : Cells e)
        → AreDisjoint ((path, rs) ∷ groups)
        → Effect e cl sl keeps never rs h h₁
        → AllMerged h₁ h' groups
        → Outside groups h₁ h'
        → AllMerged h h' ((path, rs) ∷ groups) × Outside ((path, rs) ∷ groups) h h'
    merge_next path rs groups h h₁ h' (d, apart, ds) f m out =
        let kept = λ (q : Ref) (free : holds q rs ≡ false).
          f.path q ∙ ap (λ (b : Bool). if b then none else path_at e h q) (f.outside q free) in
        let later = λ (q : Ref) (free : held q groups ≡ false).
          out.path q ∙ ap (λ (b : Bool). if b then none else path_at e h₁ q) (out.outside q free) in
        let before = λ (q : Ref) (left : withdrawn e.delta.cells h' q ≡ false).
          (still-in (path_at e h' q) (path_at e h₁ q) (out.gone q) (out.path q) left).0 in
        (
          (
            λ q r hq hr lq lr. f.one q r hq hr (before q lq) (before r lr),
            λ q hq lq.
                let (r, hr, lr) = f.some_left q hq lq in
                (r, hr, ap is_none (later r (apart r hr)) ∙ lr),
            AllMerged-from h h₁ h' groups
                (λ q inside. kept q (disjoint (holds q rs) (held q groups) (apart q) inside)) m,
          ),
          record {
            gone = λ q. f.gone q || out.gone q;
            path = λ q.
                both (f.gone q) (out.gone q) (path_at e h' q) (path_at e h₁ q) (path_at e h q)
                  (out.path q) (f.path q);
            outside = λ q free.
                both_free (f.gone q) (out.gone q)
                  (f.outside q (or_left (holds q rs) (held q groups) free))
                  (out.outside q (or_right (holds q rs) (held q groups) free));
          },
        )

    pub merge_all :
        (groups : List (Bytes × List Ref)) (h : Cells e)
        → AreDisjoint groups
        → (h' : Cells e) × (finalize_groups e groups h ≡ some h')
          × AllMerged h h' groups
          × Outside groups h h'
    unfolding finalize_groups
    merge_all [] h d =
        (h, refl, tt, record { gone = λ q. false; path = λ q. refl; outside = λ q free. refl })
    merge_all ((path, rs) ∷ groups) h (d, apart, ds) =
        let (h₁, first, f) = group-Effect e cl sl keeps never rs h d in
        let (h', rest, m, out) = merge_all groups h₁ ds in
        let (merged, outside) = merge_next path rs groups h h₁ h' (d, apart, ds) f m out in
        (h', rw first rest, merged, outside)

    -- On groups of which none holds a pointer twice, or one that another group holds: if `ApplyDelta`
    -- never reports an error, which would be a panic, and changes no path, and the slices keep their
    -- laws, the merge of the groups returns. Of every group it leaves at most one transition in play,
    -- and one if there was one before.
    pub finalize_groups-AllMerged :
        (groups : List (Bytes × List Ref)) (h : Cells e)
        → AreDisjoint groups
        → (h' : Cells e) × (finalize_groups e groups h ≡ some h') × AllMerged h h' groups
    finalize_groups-AllMerged groups h d =
        let (h', done, merged, outside) = merge_all groups h d in (h', done, merged)
