-- ===== src/Delta/Distinct.antt =====
-- The sort of `DeltaSequence` holds the pointers that it is given, each as often.
use mathlib.Core.List.{reverse_aux}
use state_engine.Prelude.{
  not, keep, ap, ℕ, ◌≡◌, refl, ◌∙◌, Bool, true, false, ◌||◌, List, [], ◌∷◌, ◌==◌, ==_iff, arith,
  Bool-cases, inl, inr,
}
use state_engine.Libs.Cells.{Ref}
use state_engine.Delta.{insert, insert_all, sort, less}
use state_engine.Delta.Merge.{holds}

-- No pointer stands twice in the list.
abbrev pub IsDistinct : List Ref → Type 0
IsDistinct [] = Unit
IsDistinct (r ∷ rs) = (holds r rs ≡ false) × IsDistinct rs

module _ (tx : Ref → ℕ) where
  holds-insert : (q x : Ref) (r : List Ref) → holds q (insert tx x r) ≡ ((q == x) || holds q r)
  unfolding insert
  holds-insert q x [] = refl
  holds-insert q x (p ∷ r) = ground (arith, holds-insert q x r)

  holds-insert_all :
      (q : Ref) (xs r : List Ref) → holds q (insert_all tx xs r) ≡ (holds q xs || holds q r)
  unfolding insert_all
  holds-insert_all q [] r = refl
  holds-insert_all q (x ∷ xs) r =
      ground (arith, holds-insert_all q xs (insert tx x r), holds-insert q x r)

  holds-reverse_aux :
      (q : Ref) (l acc : List Ref) → holds q (reverse_aux l acc) ≡ (holds q l || holds q acc)
  holds-reverse_aux q [] acc = refl
  holds-reverse_aux q (x ∷ l) acc = ground (arith, holds-reverse_aux q l (x ∷ acc))

  or_none : (b : Bool) → (b || false) ≡ b
  or_none true = refl
  or_none false = refl

  pub holds-sort : (q : Ref) (xs : List Ref) → holds q (sort tx xs) ≡ holds q xs
  unfolding sort
  holds-sort q xs =
      holds-reverse_aux q (insert_all tx xs []) []
      ∙ or_none (holds q (insert_all tx xs []))
      ∙ holds-insert_all q xs []
      ∙ or_none (holds q xs)

  insert-IsDistinct :
      (x : Ref) (r : List Ref) → holds x r ≡ false → IsDistinct r → IsDistinct (insert tx x r)
  unfolding insert
  insert-IsDistinct x [] h d = (refl, tt)
  insert-IsDistinct x (p ∷ r) h (hp, d) = elim (Bool-cases (less (tx x) (tx p))) [
    | inl lt ↦ rw lt (ground (arith, holds-insert p x r), insert-IsDistinct x r (ground arith) d)
    | inr ge ↦ rw ge (h, (hp, d))
  ]

  abbrev AreApart : List Ref → List Ref → Type 0
  AreApart xs r = (q : Ref) → holds q xs ≡ true → holds q r ≡ false

  insert_all-IsDistinct :
      (xs r : List Ref)
      → IsDistinct xs
      → IsDistinct r
      → AreApart xs r
      → IsDistinct (insert_all tx xs r)
  unfolding insert_all
  insert_all-IsDistinct [] r dx d apart = d
  insert_all-IsDistinct (x ∷ xs) r (hx, dx) d apart =
      insert_all-IsDistinct xs (insert tx x r) dx (insert-IsDistinct x r (apart x (ground arith)) d)
        (λ q held. ground (arith, holds-insert q x r, apart q, ==_iff q x))

  reverse_aux-IsDistinct :
      (l acc : List Ref)
      → IsDistinct l
      → IsDistinct acc
      → AreApart l acc
      → IsDistinct (reverse_aux l acc)
  reverse_aux-IsDistinct [] acc dl d apart = d
  reverse_aux-IsDistinct (x ∷ l) acc (hx, dl) d apart =
      reverse_aux-IsDistinct l (x ∷ acc) dl (apart x (ground arith), d)
        (λ q held. ground (arith, apart q, ==_iff q x))

  pub sort-IsDistinct : (xs : List Ref) → IsDistinct xs → IsDistinct (sort tx xs)
  unfolding sort
  sort-IsDistinct xs d =
      reverse_aux-IsDistinct (insert_all tx xs []) []
        (insert_all-IsDistinct xs [] d tt (λ q held. refl)) tt (λ q held. refl)

abbrev pub rest_of : List Ref → List Ref
rest_of [] = []
rest_of (r ∷ rs) = rs

pub holds-keep :
    (p : Ref → Bool) (q : Ref) (rs : List Ref) → p q ≡ true → holds q (keep p rs) ≡ holds q rs
holds-keep p q [] h = refl
holds-keep p q (r ∷ rs) h = elim (Bool-cases (p r)) [
  | inl kept ↦ rw kept (ap (λ b. (q == r) || b) (holds-keep p q rs h))
  | inr left ↦ rw left (ground (arith, holds-keep p q rs h, ==_iff q r))
]

pub unheld-keep :
    (p : Ref → Bool) (q : Ref) (rs : List Ref) → holds q rs ≡ false → holds q (keep p rs) ≡ false
unheld-keep p q [] h = refl
unheld-keep p q (r ∷ rs) h = ground (arith, unheld-keep p q rs)

pub holds_of_keep :
    (p : Ref → Bool) (q : Ref) (rs : List Ref)
    → holds q (keep p rs) ≡ true
    → (holds q rs ≡ true) × (p q ≡ true)
holds_of_keep p q [] h = cc
holds_of_keep p q (r ∷ rs) h = elim (Bool-cases (p r)) [
  | inl kept ↦ elim (Bool-cases (q == r)) [
    | inl same ↦ (rw same refl, ap p ((==_iff q r).0 same) ∙ kept)
    | inr other ↦
        let (there, passed) = holds_of_keep p q rs (rw other at (rw kept at h)) in
        (rw other there, passed)
  ]
  | inr left ↦ let (there, passed) = holds_of_keep p q rs (rw left at h) in (ground arith, passed)
]

pub not-true : (b : Bool) → not b ≡ true → b ≡ false
not-true true h = cc
not-true false h = refl

pub keep-IsDistinct : (p : Ref → Bool) (rs : List Ref) → IsDistinct rs → IsDistinct (keep p rs)
keep-IsDistinct p [] d = tt
keep-IsDistinct p (r ∷ rs) (h, d) = elim (Bool-cases (p r)) [
  | inl kept ↦ rw kept (unheld-keep p r rs h, keep-IsDistinct p rs d)
  | inr left ↦ rw left (keep-IsDistinct p rs d)
]

-- Two of the pointers that are not behind the first are the first.
pub first_unique :
    (s : List Ref) (q r : Ref)
    → holds q s ≡ true
    → holds r s ≡ true
    → holds q (rest_of s) ≡ false
    → holds r (rest_of s) ≡ false
    → q ≡ r
first_unique [] q r hq hr gq gr = cc
first_unique (x ∷ s) q r hq hr gq gr = ground (arith, ==_iff q x, ==_iff r x)

pub first-held :
    (s : List Ref) (q : Ref)
    → IsDistinct s
    → holds q s ≡ true
    → (r : Ref) × (holds r s ≡ true) × (holds r (rest_of s) ≡ false)
first-held [] q d hq = cc
first-held (x ∷ s) q (h, d) hq = (x, ground arith, h)

pub rest-outside : (s : List Ref) (q : Ref) → holds q s ≡ false → holds q (rest_of s) ≡ false
rest-outside [] q h = refl
rest-outside (x ∷ s) q h = ground arith
