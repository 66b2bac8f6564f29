-- ===== src/Libs/SliceLib.antt =====
-- `common-lib/exp/slice`. A function that shortens the slice it is given returns what stays.
use state_engine.Prelude.{
  ◌≡◌, ◌∙◌, refl, ap, Bool, not, List, [], ◌∷◌, ◌++◌, map, keep, drop, length,
}

pub record SliceLib : Type 1 where
  -- RemoveIf
  pub remove_if : {A : Type 0} → (A → Bool) → List A → List A
  -- MoveIf: what is moved out, and what stays
  pub move_if : {A : Type 0} → (A → Bool) → List A → List A × List A
  -- A slice header that was copied before a RemoveIf or a MoveIf keeps its length and shows what the
  -- call has left in the array.
  pub array_after_remove : {A : Type 0} → (A → Bool) → List A → List A
  pub array_after_move : {A : Type 0} → (A → Bool) → List A → List A
  -- MoveBothIf, on a slice of keys and one of values, by a test on the value
  pub move_both_if :
      {A B : Type 0} → (B → Bool) → List A → List B → (List A × List B) × (List A × List B)
  -- Transform, ParallelTransform
  pub transform : {A B : Type 0} → (A → B) → List A → List B
  -- ConcateDo
  pub concate_do : {A B : Type 0} → (A → List B) → List A → List B

abbrev pub concat_map : {A B : Type 0} → (A → List B) → List A → List B
concat_map f [] = []
concat_map f (x ∷ xs) = f x ++ concat_map f xs

-- The pairs of a key and a value, those with a test on the value first.
abbrev pub zip : {A B : Type 0} → List A → List B → List (A × B)
zip [] ys = []
zip (x ∷ xs) [] = []
zip (x ∷ xs) (y ∷ ys) = (x, y) ∷ zip xs ys

abbrev pub firsts : {A B : Type 0} → List (A × B) → List A
firsts = map (λ p. p.0)

abbrev pub seconds : {A B : Type 0} → List (A × B) → List B
seconds = map (λ p. p.1)

pub record SliceLaws (s : SliceLib) : Type 1 where
  pub remove_if_lem :
      {A : Type 0} (p : A → Bool) (xs : List A) → s.remove_if p xs ≡ keep (λ x. not (p x)) xs
  pub move_if_lem :
      {A : Type 0} (p : A → Bool) (xs : List A)
      → s.move_if p xs ≡ (keep p xs, keep (λ x. not (p x)) xs)
  -- A RemoveIf that removes nothing leaves the array as it was.
  pub array_after_remove_lem :
      {A : Type 0} (p : A → Bool) (xs : List A)
      → keep (λ x. not (p x)) xs ≡ xs
      → s.array_after_remove p xs ≡ xs
  pub move_both_if_lem :
      {A B : Type 0} (p : B → Bool) (xs : List A) (ys : List B)
      → s.move_both_if p xs ys ≡ (
        (firsts (keep (λ e. p e.1) (zip xs ys)), seconds (keep (λ e. p e.1) (zip xs ys))),
        (
          firsts (keep (λ e. not (p e.1)) (zip xs ys)),
          seconds (keep (λ e. not (p e.1)) (zip xs ys)),
        ),
      )
  pub transform_lem : {A B : Type 0} (f : A → B) (xs : List A) → s.transform f xs ≡ map f xs
  pub concate_do_lem :
      {A B : Type 0} (f : A → List B) (xs : List A) → s.concate_do f xs ≡ concat_map f xs

-- What stays is moved to the front of the array, whose end is left as it was.
abbrev compacted : {A : Type 0} → List A → List A → List A
compacted stays xs = stays ++ drop (length stays) xs

compacted-all : {A : Type 0} (xs : List A) → compacted xs xs ≡ xs
compacted-all [] = refl
compacted-all (x ∷ xs) = ap (◌∷◌ x) (compacted-all xs)

abbrev pub plain_slices : SliceLib
plain_slices = record {
  remove_if = λ p xs. keep (λ x. not (p x)) xs;
  move_if = λ p xs. (keep p xs, keep (λ x. not (p x)) xs);
  array_after_remove = λ p xs. compacted (keep (λ x. not (p x)) xs) xs;
  array_after_move = λ p xs. compacted (keep (λ x. not (p x)) xs) xs;
  move_both_if = λ p xs ys. (
    (firsts (keep (λ e. p e.1) (zip xs ys)), seconds (keep (λ e. p e.1) (zip xs ys))),
    (firsts (keep (λ e. not (p e.1)) (zip xs ys)), seconds (keep (λ e. not (p e.1)) (zip xs ys))),
  );
  transform = λ f xs. map f xs;
  concate_do = λ f xs. concat_map f xs;
}

pub plain_slices-laws : SliceLaws plain_slices
plain_slices-laws = record {
  remove_if_lem = λ p xs. refl;
  move_if_lem = λ p xs. refl;
  array_after_remove_lem = λ p xs all. ap (λ stays. compacted stays xs) all ∙ compacted-all xs;
  move_both_if_lem = λ p xs ys. refl;
  transform_lem = λ f xs. refl;
  concate_do_lem = λ f xs. refl;
}
