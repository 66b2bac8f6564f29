-- ===== src/Libs/Search.antt =====
-- `common-lib/exp/slice`: the searches, and the functions on two slices that are kept in step.
use state_engine.Prelude.{
  ℕ, zero, suc, ◌≡◌, ◌⊎◌, inl, inr, refl, sym, ap, subst, Bool, true, false, Option, none, some,
  List, [], ◌∷◌, Bytes, if◌then◌else◌,
}
use state_engine.Libs.SliceLib.{zip, firsts, seconds}

-- The place of the first element with a property.
unfoldable pub first_place : {A : Type 0} → (A → Bool) → List A → Option ℕ
first_place p [] = none
first_place p (x ∷ xs) =
    let later = first_place p xs in
    if p x then some 0 else elim later [ none ↦ none | some i ↦ some (suc i) ]

-- A list without the element at a place.
unfoldable pub erase : {A : Type 0} → ℕ → List A → List A
erase i [] = []
erase zero (x ∷ xs) = xs
erase (suc i) (x ∷ xs) = x ∷ erase i xs

-- The element stands in the list.
abbrev pub Member : {A : Type 0} → A → List A → Type 0
Member x [] = ⊥
Member x (y ∷ ys) = (x ≡ y) ⊎ Member x ys

pub record SearchLib : Type 1 where
  -- FindFirstIf: `none` is the position -1 with the pointer nil
  pub find_first_if : {A : Type 0} → (A → Bool) → List A → Option ℕ
  -- RemoveAt
  pub remove_at : {A : Type 0} → ℕ → List A → List A
  -- SortBy1st: keys and values, by an order of the keys
  pub sort_by_1st :
      {B : Type 0} → (Bytes → Bytes → Bool) → List Bytes → List B → List Bytes × List B

pub record SearchLaws (s : SearchLib) : Type 1 where
  pub find_first_if_lem :
      {A : Type 0} (p : A → Bool) (xs : List A) → s.find_first_if p xs ≡ first_place p xs
  pub remove_at_lem : {A : Type 0} (i : ℕ) (xs : List A) → s.remove_at i xs ≡ erase i xs
  -- The sorted slices hold the same pairs.
  pub sort_by_1st-from :
      {B : Type 0} (lt : Bytes → Bytes → Bool) (ks : List Bytes) (vs : List B) (e : Bytes × B)
      → Member e (zip (s.sort_by_1st lt ks vs).0 (s.sort_by_1st lt ks vs).1)
      → Member e (zip ks vs)
  pub sort_by_1st-to :
      {B : Type 0} (lt : Bytes → Bytes → Bool) (ks : List Bytes) (vs : List B) (e : Bytes × B)
      → Member e (zip ks vs)
      → Member e (zip (s.sort_by_1st lt ks vs).0 (s.sort_by_1st lt ks vs).1)

-- Insertion sort.
abbrev pub insert_pair :
    {B : Type 0} → (Bytes → Bytes → Bool) → Bytes × B → List (Bytes × B) → List (Bytes × B)
insert_pair lt e [] = e ∷ []
insert_pair lt e (f ∷ fs) =
    let later = insert_pair lt e fs in if lt f.0 e.0 then f ∷ later else e ∷ f ∷ fs

abbrev pub sort_pairs : {B : Type 0} → (Bytes → Bytes → Bool) → List (Bytes × B) → List (Bytes × B)
sort_pairs lt [] = []
sort_pairs lt (e ∷ es) = insert_pair lt e (sort_pairs lt es)

abbrev pub plain_search : SearchLib
plain_search = record {
  find_first_if = λ p xs. first_place p xs;
  remove_at = λ i xs. erase i xs;
  sort_by_1st =
      λ lt ks vs. (firsts (sort_pairs lt (zip ks vs)), seconds (sort_pairs lt (zip ks vs)));
}

Member-if :
    {A : Type 0} (b : Bool) (x e f : A) (es fs : List A)
    → (Member x es → (x ≡ e) ⊎ Member x fs)
    → Member x (if b then f ∷ es else e ∷ f ∷ fs)
    → (x ≡ e) ⊎ Member x (f ∷ fs)
Member-if true x e f es fs ih (inl h) = inr (inl h)
Member-if true x e f es fs ih (inr h) = elim (ih h) [ inl own ↦ inl own | inr m ↦ inr (inr m) ]
Member-if false x e f es fs ih (inl h) = inl h
Member-if false x e f es fs ih (inr h) = inr h

if-Member :
    {A : Type 0} (b : Bool) (x e f : A) (es fs : List A)
    → ((x ≡ e) ⊎ Member x fs → Member x es)
    → (x ≡ e) ⊎ Member x (f ∷ fs)
    → Member x (if b then f ∷ es else e ∷ f ∷ fs)
if-Member true x e f es fs ih (inl h) = inr (ih (inl h))
if-Member true x e f es fs ih (inr (inl h)) = inl h
if-Member true x e f es fs ih (inr (inr h)) = inr (ih (inr h))
if-Member false x e f es fs ih (inl h) = inl h
if-Member false x e f es fs ih (inr h) = inr h

module _ {B : Type 0} (lt : Bytes → Bytes → Bool) where
  insert-from :
      (x e : Bytes × B) (es : List (Bytes × B))
      → Member x (insert_pair lt e es)
      → (x ≡ e) ⊎ Member x es
  insert-from x e [] m = m
  insert-from x e (f ∷ fs) m =
      Member-if (lt f.0 e.0) x e f (insert_pair lt e fs) fs (insert-from x e fs) m

  insert-to :
      (x e : Bytes × B) (es : List (Bytes × B))
      → (x ≡ e) ⊎ Member x es
      → Member x (insert_pair lt e es)
  insert-to x e [] m = m
  insert-to x e (f ∷ fs) m =
      if-Member (lt f.0 e.0) x e f (insert_pair lt e fs) fs (insert-to x e fs) m

  sort-from : (x : Bytes × B) (es : List (Bytes × B)) → Member x (sort_pairs lt es) → Member x es
  sort-from x [] m = m
  sort-from x (e ∷ es) m = elim (insert-from x e (sort_pairs lt es) m) [
    | inl own ↦ inl own
    | inr later ↦ inr (sort-from x es later)
  ]

  sort-to : (x : Bytes × B) (es : List (Bytes × B)) → Member x es → Member x (sort_pairs lt es)
  sort-to x [] m = m
  sort-to x (e ∷ es) (inl own) = insert-to x e (sort_pairs lt es) (inl own)
  sort-to x (e ∷ es) (inr m) = insert-to x e (sort_pairs lt es) (inr (sort-to x es m))

zip_parts : {B : Type 0} (es : List (Bytes × B)) → zip (firsts es) (seconds es) ≡ es
zip_parts [] = refl
zip_parts (e ∷ es) = ap (◌∷◌ e) (zip_parts es)

pub plain_search-laws : SearchLaws plain_search
plain_search-laws = record {
  find_first_if_lem = λ p xs. refl;
  remove_at_lem = λ i xs. refl;
  sort_by_1st-from = λ lt ks vs e m.
      sort-from lt e (zip ks vs) (subst (Member e) (zip_parts (sort_pairs lt (zip ks vs))) m);
  sort_by_1st-to = λ lt ks vs e m.
      subst (Member e) (sym (zip_parts (sort_pairs lt (zip ks vs)))) (sort-to lt e (zip ks vs) m);
}
