-- ===== src/EthStorage/Account/Batches.antt =====
-- What the batch of an account's update holds while the entries of the account's own fields are
-- taken out of it.
use state_engine.Prelude.{
  ℕ, zero, suc, ◌≡◌, ◌⊎◌, inl, inr, refl, sym, ap, ap₂, subst, ◌∙◌, Bool, true, false, false≢true,
  Option, none, some, List, [], ◌∷◌, Bytes, length, get_elem?, Bool-cases, arith,
}
use state_engine.Libs.SliceLib.{zip}
use state_engine.Libs.Search.{SearchLib, SearchLaws, Member, first_place, erase}
use state_engine.EthStorage.Account.Update.{Batch}

abbrev pub Entry : Type 0 → Type 0
Entry V = Bytes × Option V

abbrev pub entries : {V : Type 0} → Batch V → List (Entry V)
entries b = zip b.keys b.vals

abbrev pub IsAligned : {V : Type 0} → Batch V → Type 0
IsAligned b = length b.keys ≡ length b.vals

erase-from :
    {A B : Type 0} (i : ℕ) (ks : List A) (vs : List B) (e : A × B)
    → Member e (zip (erase i ks) (erase i vs))
    → Member e (zip ks vs)
unfolding erase
erase-from i [] vs e h = h
erase-from zero (k ∷ []) [] e h = h
erase-from zero (k ∷ j ∷ ks) [] e h = h
erase-from (suc i) (k ∷ ks) [] e h = h
erase-from zero (k ∷ ks) (v ∷ vs) e h = inr h
erase-from (suc i) (k ∷ ks) (v ∷ vs) e (inl h) = inl h
erase-from (suc i) (k ∷ ks) (v ∷ vs) e (inr h) = inr (erase-from i ks vs e h)

length-erase :
    {A B : Type 0} (i : ℕ) (ks : List A) (vs : List B)
    → length ks ≡ length vs
    → length (erase i ks) ≡ length (erase i vs)
unfolding erase
length-erase i [] [] h = refl
length-erase i [] (v ∷ vs) h = absurd (omega arith)
length-erase i (k ∷ ks) [] h = absurd (omega arith)
length-erase zero (k ∷ ks) (v ∷ vs) h = omega arith
length-erase (suc i) (k ∷ ks) (v ∷ vs) h =
    let ih = length-erase i ks vs (omega arith) in omega arith

-- The place of the first key that passes a test, with the entry that stands there.
abbrev pub Picked : {V : Type 0} → (Bytes → Bool) → List Bytes → List (Option V) → Type 0
Picked {V} p ks vs =
    ((first_place p ks ≡ none) × ((e : Entry V) → Member e (zip ks vs) → p e.0 ≡ false))
    ⊎ ((pos : ℕ) × (k : Bytes) × (v : Option V) × (first_place p ks ≡ some pos)
        × (get_elem? ks pos ≡ some k)
        × (get_elem? vs pos ≡ some v)
        × (p k ≡ true)
        × Member (k, v) (zip ks vs)
        × ((e : Entry V)
            → p e.0 ≡ false
            → Member e (zip ks vs)
            → Member e (zip (erase pos ks) (erase pos vs))))

Picked-here :
    {V : Type 0} (p : Bytes → Bool) (k : Bytes) (ks : List Bytes) (v : Option V)
    (vs : List (Option V))
    → p k ≡ true
    → Picked p (k ∷ ks) (v ∷ vs)
unfolding first_place erase
Picked-here {V} p k ks v vs passes = inr (
  0,
  k,
  v,
  rw passes refl,
  refl,
  refl,
  passes,
  inl refl,
  λ e misses. λ m. elim m [
    | inl eq ↦ absurd (false≢true (sym misses ∙ ap (λ (x : Entry V). p x.0) eq ∙ passes))
    | inr later ↦ later
  ],
)

Picked-there :
    {V : Type 0} (p : Bytes → Bool) (k : Bytes) (ks : List Bytes) (v : Option V)
    (vs : List (Option V))
    → p k ≡ false
    → Picked p ks vs
    → Picked p (k ∷ ks) (v ∷ vs)
unfolding first_place erase
Picked-there {V} p k ks v vs misses (inl (none_there, fails)) = inl (
  rw (misses, none_there) refl,
  λ e m. elim m [ inl eq ↦ ap (λ (x : Entry V). p x.0) eq ∙ misses | inr later ↦ fails e later ],
)
Picked-there p k ks v vs misses (inr (pos, j, w, at, key, val, passes, member, stays)) = inr (
  suc pos,
  j,
  w,
  rw (misses, at) refl,
  key,
  val,
  passes,
  inr member,
  λ e fails m. elim m [ inl eq ↦ inl eq | inr later ↦ inr (stays e fails later) ],
)

picked :
    {V : Type 0} (p : Bytes → Bool) (ks : List Bytes) (vs : List (Option V))
    → length ks ≡ length vs
    → Picked p ks vs
unfolding first_place
picked p [] vs h = inl (refl, λ e m. absurd m)
picked p (k ∷ ks) [] h = absurd (omega arith)
picked p (k ∷ ks) (v ∷ vs) h =
    let later = picked p ks vs (omega arith) in
    elim (Bool-cases (p k)) [
      | inl passes ↦ Picked-here p k ks v vs passes
      | inr misses ↦ Picked-there p k ks v vs misses later
    ]

-- A batch after the first entry that passes a test has been taken out: its entries are old ones, and
-- no entry that fails the test is lost.
pub record Taken {V : Type 0} (p : Bytes → Bool) (b c : Batch V) : Type 0 where
  pub aligned : IsAligned c
  pub from : (e : Entry V) → Member e (entries c) → Member e (entries b)
  pub stays : (e : Entry V) → p e.0 ≡ false → Member e (entries b) → Member e (entries c)

module _ (s : SearchLib) (laws : SearchLaws s) {V : Type 0} where
  -- Nothing to take, or an entry at a position.
  abbrev pub Stage : (Bytes → Bool) → Batch V → Type 0
  Stage p b =
      ((s.find_first_if p b.keys ≡ none) × ((e : Entry V) → Member e (entries b) → p e.0 ≡ false))
      ⊎ ((pos : ℕ) × (k : Bytes) × (v : Option V) × (s.find_first_if p b.keys ≡ some pos)
          × (get_elem? b.keys pos ≡ some k)
          × (get_elem? b.vals pos ≡ some v)
          × (p k ≡ true)
          × Member (k, v) (entries b)
          × ((c : Batch V)
              → c.keys ≡ s.remove_at pos b.keys
              → c.vals ≡ s.remove_at pos b.vals
              → Taken p b c))

  pub untouched : (p : Bytes → Bool) (b : Batch V) → IsAligned b → Taken p b b
  untouched p b h = record { aligned = h; from = λ e m. m; stays = λ e misses m. m }

  pub stage : (p : Bytes → Bool) (b : Batch V) → IsAligned b → Stage p b
  stage p b h = elim (picked p b.keys b.vals h) [
    | inl (missing, fails) ↦ inl (laws.find_first_if_lem p b.keys ∙ missing, fails)
    | inr (pos, k, v, at, key, val, passes, member, stays) ↦ inr (
      pos,
      k,
      v,
      laws.find_first_if_lem p b.keys ∙ at,
      key,
      val,
      passes,
      member,
      λ c ek ev.
          let keys = ek ∙ laws.remove_at_lem pos b.keys in
          let vals = ev ∙ laws.remove_at_lem pos b.vals in
          record {
            aligned = ap length keys ∙ length-erase pos b.keys b.vals h ∙ sym (ap length vals);
            from = λ e m.
                erase-from pos b.keys b.vals e (subst (λ ws. Member e ws) (ap₂ zip keys vals) m);
            stays = λ e misses m.
                subst (λ ws. Member e ws) (sym (ap₂ zip keys vals)) (stays e misses m);
          },
    )
  ]
