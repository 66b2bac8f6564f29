-- ===== src/Libs/MapLib.antt =====
-- `common-lib/exp/map` and `slice.Min`: the keys and the values of a Go map, in an order that Go
-- leaves open, and the least of some numbers.
use state_engine.Prelude.{
  ℕ, ◌≤◌, ◌≡◌, inl, inr, refl, Bool, true, false, List, [], ◌∷◌, Bytes, leb, if◌then◌else◌, arith,
}
use state_engine.Libs.SliceLib.{firsts, seconds}
use state_engine.Libs.Search.{Member}

pub record MapLib : Type 1 where
  -- Keys
  pub keys : {A : Type 0} → List (ℕ × A) → List ℕ
  -- the values of KVs
  pub values : {A : Type 0} → List (Bytes × A) → List A
  -- the value of Min, on a slice that is not empty
  pub min_of : ℕ → List ℕ → ℕ

pub record MapLaws (m : MapLib) : Type 1 where
  pub keys-from :
      {A : Type 0} (xs : List (ℕ × A)) (k : ℕ) → Member k (m.keys xs) → Member k (firsts xs)
  pub keys-to :
      {A : Type 0} (xs : List (ℕ × A)) (k : ℕ) → Member k (firsts xs) → Member k (m.keys xs)
  pub min_of-mem : (k : ℕ) (ks : List ℕ) → Member (m.min_of k ks) (k ∷ ks)
  pub min_of-le : (k : ℕ) (ks : List ℕ) (j : ℕ) → Member j (k ∷ ks) → m.min_of k ks ≤ j

abbrev least : ℕ → List ℕ → ℕ
least k [] = k
least k (j ∷ js) = least (if leb k j then k else j) js

abbrev pub plain_maps : MapLib
plain_maps = record { keys = λ xs. firsts xs; values = λ xs. seconds xs; min_of = least }

least-mem : (k : ℕ) (ks : List ℕ) → Member (least k ks) (k ∷ ks)
least-mem k [] = inl refl
least-mem k (j ∷ js) = elim (least-mem (if leb k j then k else j) js) [
  | inl eq ↦ choose (leb k j) eq
  | inr m ↦ inr (inr m)
]
  where
    choose :
        (b : Bool)
        → least (if leb k j then k else j) js ≡ (if b then k else j)
        → Member (least (if leb k j then k else j) js) (k ∷ j ∷ js)
    choose true eq = inl eq
    choose false eq = inr (inl eq)

least_le : (k : ℕ) (ks : List ℕ) → least k ks ≤ k
least_le k [] = omega arith
least_le k (j ∷ js) = let ih = least_le (if leb k j then k else j) js in ground arith

least-le : (k : ℕ) (ks : List ℕ) (j : ℕ) → Member j (k ∷ ks) → least k ks ≤ j
least-le k ks j (inl eq) = let le = least_le k ks in omega (arith, eq)
least-le k [] j (inr m) = absurd m
least-le k (i ∷ is) j (inr (inl eq)) =
    let le = least_le (if leb k i then k else i) is in ground (arith, eq)
least-le k (i ∷ is) j (inr (inr m)) = least-le (if leb k i then k else i) is j (inr m)

pub plain_maps-laws : MapLaws plain_maps
plain_maps-laws = record {
  keys-from = λ xs k m. m;
  keys-to = λ xs k m. m;
  min_of-mem = least-mem;
  min_of-le = least-le;
}
