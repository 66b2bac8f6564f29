-- ===== src/EthStorage/World/Roots.antt =====
-- The roots of the last blocks, which `persistToEthStore` keeps.
use state_engine.Prelude.{
  ℕ, zero, suc, ◌≤◌, ◌<◌, ◌≡◌, ◌⊎◌, inl, inr, refl, ap, ◌∙◌, Bool, true, false, not, Option, none,
  some, List, [], ◌∷◌, Bytes, length, ltb, ◌==◌, if◌then◌else◌, Bool-cases, arith, ◌>>=◌,
}
use state_engine.Libs.SliceLib.{firsts}
use state_engine.Libs.Search.{Member}
use state_engine.Libs.MapLib.{MapLaws}
use state_engine.EthStorage.World.{EthEnv}
use state_engine.EthStorage.World.Persist.{
  Roots, root_get, root_put, root_delete, oldest, max_roots, evict, remember,
}

-- `delete` takes away its key and nothing else.
root_get-delete :
    (n k : ℕ) (rs : Roots)
    → root_get k (root_delete n rs) ≡ (if n == k then none else root_get k rs)
unfolding root_get
root_get-delete n k [] = ground arith
root_get-delete n k ((m, root) ∷ rs) = let ih = root_get-delete n k rs in ground arith

length-delete_le : (n : ℕ) (rs : Roots) → length (root_delete n rs) ≤ length rs
length-delete_le n [] = omega arith
length-delete_le n ((m, root) ∷ rs) = let ih = length-delete_le n rs in ground arith

length-delete : (n : ℕ) (rs : Roots) → Member n (firsts rs) → length (root_delete n rs) < length rs
length-delete n [] h = absurd h
length-delete n ((m, root) ∷ rs) (inl h) = let le = length-delete_le n rs in ground arith
length-delete n ((m, root) ∷ rs) (inr h) = let ih = length-delete n rs h in ground arith

Member-if :
    (b : Bool) (k m : ℕ) (root : Bytes) (rs : Roots) (ms : List ℕ)
    → (Member k (firsts rs) → Member k ms)
    → Member k (firsts (if not b then (m, root) ∷ rs else rs))
    → Member k (m ∷ ms)
Member-if true k m root rs ms f h = inr (f h)
Member-if false k m root rs ms f (inl h) = inl h
Member-if false k m root rs ms f (inr h) = inr (f h)

firsts-delete : (n k : ℕ) (rs : Roots) → Member k (firsts (root_delete n rs)) → Member k (firsts rs)
firsts-delete n k [] h = h
firsts-delete n k ((m, root) ∷ rs) h =
    Member-if (m == n) k m root (root_delete n rs) (firsts rs) (firsts-delete n k rs) h

root_get-put :
    (n k : ℕ) (root : Bytes) (rs : Roots)
    → root_get k (root_put n root rs) ≡ (if n == k then some root else root_get k rs)
unfolding root_get root_put
root_get-put n k root [] = refl
root_get-put n k root ((m, old) ∷ rs) = let ih = root_get-put n k root rs in ground arith

length-put : (n : ℕ) (root : Bytes) (rs : Roots) → length (root_put n root rs) ≤ suc (length rs)
unfolding root_put
length-put n root [] = omega arith
length-put n root ((m, old) ∷ rs) = let ih = length-put n root rs in ground arith

Member-put :
    (b : Bool) (n m k : ℕ) (root old : Bytes) (rs later : Roots)
    → (Member k (firsts later) → (k ≡ n) ⊎ Member k (firsts rs))
    → Member k (firsts (if b then (n, root) ∷ rs else (m, old) ∷ later))
    → (k ≡ n) ⊎ Member k (m ∷ firsts rs)
Member-put true n m k root old rs later f (inl h) = inl h
Member-put true n m k root old rs later f (inr h) = inr (inr h)
Member-put false n m k root old rs later f (inl h) = inr (inl h)
Member-put false n m k root old rs later f (inr h) = elim (f h) [
  | inl own ↦ inl own
  | inr left ↦ inr (inr left)
]

firsts-put :
    (n k : ℕ) (root : Bytes) (rs : Roots)
    → Member k (firsts (root_put n root rs))
    → (k ≡ n) ⊎ Member k (firsts rs)
unfolding root_put
firsts-put n k root [] (inl h) = inl h
firsts-put n k root [] (inr h) = absurd h
firsts-put n k root ((m, old) ∷ rs) h =
    Member-put (m == n) n m k root old rs (root_put n root rs) (firsts-put n k root rs) h

-- A Go map has a number once.
abbrev pub IsMap : Roots → Type 0
IsMap [] = Unit
IsMap ((m, root) ∷ rs) = (root_get m rs ≡ none) × IsMap rs

IsMap-delete : (n : ℕ) (rs : Roots) → IsMap rs → IsMap (root_delete n rs)
IsMap-delete n [] h = tt
IsMap-delete n ((m, root) ∷ rs) (out, h) = elim (Bool-cases (m == n)) [
  | inl eq ↦ rw eq (IsMap-delete n rs h)
  | inr ne ↦ rw ne (ground (arith, root_get-delete n m rs, out), IsMap-delete n rs h)
]

length-delete_absent :
    (n : ℕ) (rs : Roots) → root_get n rs ≡ none → length (root_delete n rs) ≡ length rs
unfolding root_get
length-delete_absent n [] h = refl
length-delete_absent n ((m, root) ∷ rs) h = elim (Bool-cases (m == n)) [
  | inl eq ↦ absurd (ground (arith, eq, h))
  | inr ne ↦ rw ne (ap suc (length-delete_absent n rs (ground (arith, ne, h))))
]

-- A map loses one entry with a number that it has.
length-delete_one :
    (n : ℕ) (rs : Roots)
    → IsMap rs
    → Member n (firsts rs)
    → suc (length (root_delete n rs)) ≡ length rs
length-delete_one n [] h member = absurd member
length-delete_one n ((m, root) ∷ rs) (out, h) member = elim (Bool-cases (m == n)) [
  | inl eq ↦
      let same : m ≡ n = ground (arith, eq) in
      rw eq (ap suc (length-delete_absent n rs (rw same at out)))
  | inr ne ↦ elim member [
    | inl own ↦ absurd (ground (arith, ne, own))
    | inr later ↦ rw ne (ap suc (length-delete_one n rs h later))
  ]
]

length-put_ge : (n : ℕ) (root : Bytes) (rs : Roots) → length rs ≤ length (root_put n root rs)
unfolding root_put
length-put_ge n root [] = omega arith
length-put_ge n root ((m, old) ∷ rs) = let ih = length-put_ge n root rs in ground arith

-- A number that is not in the map any more was below all that are.
abbrev pub IsKeptOrOld : Roots → Roots → ℕ → Type 0
IsKeptOrOld rs kept n =
    (root_get n kept ≡ root_get n rs)
    ⊎ ((root_get n kept ≡ none) × ((m : ℕ) → Member m (firsts kept) → n ≤ m))

module _ {V : Type 0} (e : EthEnv V) (laws : MapLaws e.maps) where
  abbrev Evicted : Roots → Option Roots → Type 0
  Evicted rs result =
      (kept : Roots) × (result ≡ some kept)
      × (length kept < max_roots)
      × ((m : ℕ) → Member m (firsts kept) → Member m (firsts rs))
      × ((n : ℕ) → IsKeptOrOld rs kept n)
      × (length rs < max_roots → kept ≡ rs)
      × (max_roots ≤ length rs → suc (length kept) ≡ max_roots)

  oldest-keys :
      (ks : List ℕ) (rs : Roots) (m : ℕ)
      → Member m ks
      → ((k : ℕ) → Member k ks → Member k (firsts rs))
      → ((k : ℕ) → Member k (firsts rs) → Member k ks)
      → (n : ℕ) × (oldest e.maps.min_of ks ≡ some n)
        × Member n (firsts rs)
        × ((m : ℕ) → Member m (firsts rs) → n ≤ m)
  unfolding oldest
  oldest-keys [] rs m some_key from to = absurd some_key
  oldest-keys (k ∷ ks) rs i some_key from to = (
    e.maps.min_of k ks,
    refl,
    from (e.maps.min_of k ks) (laws.min_of-mem k ks),
    λ m h. laws.min_of-le k ks m (to m h),
  )

  -- The number that the loop removes is one of the map, and the least.
  oldest-least :
      (rs : Roots)
      → max_roots ≤ length rs
      → (n : ℕ) × (oldest e.maps.min_of (e.maps.keys rs) ≡ some n)
        × Member n (firsts rs)
        × ((m : ℕ) → Member m (firsts rs) → n ≤ m)
  unfolding oldest
  oldest-least [] h = absurd (omega arith)
  oldest-least ((m, root) ∷ rs) h =
      oldest-keys (e.maps.keys ((m, root) ∷ rs)) ((m, root) ∷ rs) m
        (laws.keys-to ((m, root) ∷ rs) m (inl refl)) (laws.keys-from ((m, root) ∷ rs))
        (laws.keys-to ((m, root) ∷ rs))

  evict-step :
      (fuel : ℕ) (rs : Roots) (n : ℕ)
      → ltb (length rs) max_roots ≡ false
      → oldest e.maps.min_of (e.maps.keys rs) ≡ some n
      → evict e (suc fuel) rs ≡ evict e fuel (root_delete n rs)
  unfolding evict
  evict-step fuel rs n full eq = rw (full, eq) refl

  -- What was kept or old after a deletion of the least number was so before.
  kept-delete :
      (rs kept : Roots) (n : ℕ)
      → ((m : ℕ) → Member m (firsts rs) → n ≤ m)
      → ((m : ℕ) → Member m (firsts kept) → Member m (firsts (root_delete n rs)))
      → (k : ℕ) → IsKeptOrOld (root_delete n rs) kept k
      → IsKeptOrOld rs kept k
  kept-delete rs kept n least sub k (inr h) = inr h
  kept-delete rs kept n least sub k (inl same) =
      let gone = root_get-delete n k rs in
      elim (Bool-cases (n == k)) [
        | inl eq ↦ inr (
          same ∙ gone ∙ (rw eq refl),
          λ m h.
              let same_key : n ≡ k = ground (arith, eq) in
              omega (arith, least m (firsts-delete n m rs (sub m h)), same_key),
        )
        | inr ne ↦ inl (same ∙ gone ∙ (rw ne refl))
      ]

  -- One turn leaves the last room, or is not the last.
  next-size :
      (rs kept : Roots) (n : ℕ)
      → suc (length (root_delete n rs)) ≡ length rs
      → max_roots ≤ length rs
      → (length (root_delete n rs) < max_roots → kept ≡ root_delete n rs)
      → (max_roots ≤ length (root_delete n rs) → suc (length kept) ≡ max_roots)
      → suc (length kept) ≡ max_roots
  next-size rs kept n one full few many =
      elim (Bool-cases (ltb (length (root_delete n rs)) max_roots)) [
        | inl room ↦
            let less : length (root_delete n rs) < max_roots = ground (arith, room) in
            omega (arith, ap length (few less), one, full, less)
        | inr more ↦ many (ground (arith, more))
      ]

  evict-newest :
      (fuel : ℕ) (rs : Roots) → length rs < fuel → IsMap rs → Evicted rs (evict e fuel rs)
  unfolding evict
  evict-newest zero rs h map = absurd (omega arith)
  evict-newest (suc fuel) rs h map = elim (Bool-cases (ltb (length rs) max_roots)) [
    | inl few ↦
        let room : length rs < max_roots = ground (arith, few) in
        (
          rs,
          rw few refl,
          room,
          λ m k. k,
          λ n. inl refl,
          λ few'. refl,
          λ full. absurd (omega (arith, room, full)),
        )
    | inr full ↦
        let (n, eq, member, least) = oldest-least rs (ground arith) in
        let one = length-delete_one n rs map member in
        let many : max_roots ≤ length rs = ground (arith, full) in
        let (kept, done, size, sub, old, few, room) =
          evict-newest fuel (root_delete n rs) (omega (arith, one, h)) (IsMap-delete n rs map) in
        (
          kept,
          evict-step fuel rs n full eq ∙ done,
          size,
          λ m k. firsts-delete n m rs (sub m k),
          λ k. kept-delete rs kept n least sub k (old k),
          λ few'. absurd (omega (arith, many, few')),
          λ many'. next-size rs kept n one many few room,
        )
  ]

  -- The number is the block's, or reads as it did before, or is gone and was below all that are left.
  abbrev pub Remembered : ℕ → Roots → Roots → ℕ → Type 0
  Remembered block rs after n =
      (n ≡ block)
      ⊎ ((root_get n after ≡ root_get n rs)
          ⊎ ((root_get n after ≡ none)
              × ((m : ℕ) → Member m (firsts after) → (m ≡ block) ⊎ (n ≤ m))))

  remembered :
      (block : ℕ) (root : Bytes) (rs kept : Roots) (n : ℕ)
      → IsKeptOrOld rs kept n
      → Remembered block rs (root_put block root kept) n
  remembered block root rs kept n old =
      let put = root_get-put block n root kept in
      elim (Bool-cases (block == n)) [
        | inl eq ↦ inl (ground (arith, eq))
        | inr ne ↦
            let other : root_get n (root_put block root kept) ≡ root_get n kept =
              put ∙ (rw ne refl) in
            elim old [
              | inl same ↦ inr (inl (other ∙ same))
              | inr gone ↦ inr (
                  inr (
                    other ∙ gone.0,
                    λ m h. elim (firsts-put block m root kept h) [
                      | inl is_block ↦ inl is_block
                      | inr left ↦ inr (gone.1 m left)
                    ],
                  ))
            ]
      ]

  -- On a map of roots, the loop of `persistToEthStore` ends. Afterwards there are at most 1024 roots,
  -- and the block's own is one of them. Where there were fewer than 1024 before, every number but the
  -- block's reads as before; where there were 1024 or more, at least 1023 are there. Any number but the
  -- block's either reads as before, or is gone and was at most every number that is left other than
  -- the block's.
  pub remember-newest :
      (block : ℕ) (root : Bytes) (rs : Roots)
      → IsMap rs
      → (after : Roots) × (remember e block root rs ≡ some after)
        × (length after ≤ max_roots)
        × (root_get block after ≡ some root)
        × (length rs < max_roots → (n : ℕ) → (n ≡ block) ⊎ (root_get n after ≡ root_get n rs))
        × (max_roots ≤ length rs → max_roots ≤ suc (length after))
        × ((n : ℕ) → Remembered block rs after n)
  unfolding remember
  remember-newest block root rs map =
      let (kept, done, size, sub, old, few, many) =
        evict-newest (suc (length rs)) rs (omega arith) map in
      (
        root_put block root kept,
        ap (λ r. r >>= λ kept. some (root_put block root kept)) done,
        omega (arith, size, length-put block root kept),
        root_get-put block block root kept ∙ ground arith,
        λ room n. elim (Bool-cases (block == n)) [
          | inl eq ↦ inl (ground (arith, eq))
          | inr ne ↦ inr (root_get-put block n root kept ∙ rw ne (ap (root_get n) (few room)))
        ],
        λ full. omega (arith, many full, length-put_ge block root kept),
        λ n. remembered block root rs kept n (old n),
      )
