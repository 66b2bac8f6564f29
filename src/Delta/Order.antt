-- ===== src/Delta/Order.antt =====
-- The order that `DeltaSequence.sort` puts transitions into.
use mathlib.Core.List.{reverse, reverse_aux, reverse-reverse, Perm, reverse_perm, perm_middle}
use mathlib.Core.List.Perm
use state_engine.Prelude.{
  ℕ, ◌+◌, ◌≤◌, ◌≡◌, ◌≢◌, refl, sym, ap, ◌∙◌, Bool, true, false, List, [], ◌∷◌, ◌++◌, append_assoc,
  append-nil, keep, ◌==◌, if◌then◌else◌, arith, Bool-cases, inl, inr,
}
use state_engine.Paths.Constants.{system}
use state_engine.Delta.{less, insert, insert_all, sort}

-- The place of a transaction: the system first, then the others by their numbers.
abbrev pub rank : ℕ → ℕ
rank t = if t == system then 0 else t + 1

module _ {A : Type 0} (tx : A → ℕ) where
  -- Ranks fall from the front to the back.
  abbrev IsBelow : ℕ → List A → Type 0
  IsBelow n [] = Unit
  IsBelow n (x ∷ xs) = (rank (tx x) ≤ n) × IsBelow (rank (tx x)) xs

  abbrev pub IsAbove : ℕ → List A → Type 0
  IsAbove n [] = Unit
  IsAbove n (x ∷ xs) = (n ≤ rank (tx x)) × IsAbove (rank (tx x)) xs

  insert-IsBelow :
      (n : ℕ) (x : A) (r : List A) → rank (tx x) ≤ n → IsBelow n r → IsBelow n (insert tx x r)
  unfolding insert less
  insert-IsBelow n x [] h b = (h, tt)
  insert-IsBelow n x (p ∷ r) h (hp, b) = elim (Bool-cases (less (tx x) (tx p))) [
    | inl lt ↦
        let le : rank (tx x) ≤ rank (tx p) = ground arith in
        rw lt (hp, insert-IsBelow (rank (tx p)) x r le b)
    | inr ge ↦ let le : rank (tx p) ≤ rank (tx x) = ground arith in rw ge (h, (le, b))
  ]

  raise : (m n : ℕ) (r : List A) → m ≤ n → IsBelow m r → IsBelow n r
  raise m n [] h b = tt
  raise m n (x ∷ r) h (hx, b) = (omega arith, b)

  lower : (m n : ℕ) (r : List A) → m ≤ n → IsAbove n r → IsAbove m r
  lower m n [] h b = tt
  lower m n (x ∷ r) h (hx, b) = (omega arith, b)

  -- Some bound holds of every list that falls.
  abbrev Falls : List A → Type 0
  Falls r = (n : ℕ) × IsBelow n r

  insert_all-Falls : (xs r : List A) → Falls r → Falls (insert_all tx xs r)
  unfolding insert_all
  insert_all-Falls [] r f = f
  insert_all-Falls (x ∷ xs) r (n, b) = insert_all-Falls xs (insert tx x r) (
    n + rank (tx x),
    insert-IsBelow (n + rank (tx x)) x r (omega arith)
        (raise n (n + rank (tx x)) r (omega arith) b),
  )

  reverse_aux-IsAbove :
      (n : ℕ) (l acc : List A) → IsBelow n l → IsAbove n acc → IsAbove 0 (reverse_aux l acc)
  reverse_aux-IsAbove n [] acc b a = lower 0 n acc (omega arith) a
  reverse_aux-IsAbove n (x ∷ l) acc (h, b) a =
      reverse_aux-IsAbove (rank (tx x)) l (x ∷ acc) b (omega arith, lower (rank (tx x)) n acc h a)

  -- After the sort the system's transitions come first, and then the others by their transactions.
  pub sort-IsAbove : (xs : List A) → IsAbove 0 (sort tx xs)
  unfolding sort
  sort-IsAbove xs =
      let (n, b) = insert_all-Falls xs [] (0, tt) in
      reverse_aux-IsAbove n (insert_all tx xs []) [] b tt

  insert-perm : (x : A) (r : List A) → Perm (insert tx x r) (x ∷ r)
  unfolding insert
  insert-perm x [] = Perm.refl (x ∷ [])
  insert-perm x (p ∷ r) = elim (Bool-cases (less (tx x) (tx p))) [
    | inl lt ↦ rw lt (Perm.trans (Perm.cons p (insert-perm x r)) (Perm.swap x p r))
    | inr ge ↦ rw ge (Perm.refl (x ∷ p ∷ r))
  ]

  insert_all-perm : (xs r : List A) → Perm (insert_all tx xs r) (xs ++ r)
  unfolding insert_all
  insert_all-perm [] r = Perm.refl r
  insert_all-perm (x ∷ xs) r =
      Perm.trans (insert_all-perm xs (insert tx x r))
        (Perm.trans (Perm.append (Perm.refl xs) (insert-perm x r)) (perm_middle xs r))

  -- The sort neither loses nor repeats a transition.
  sort-perm : (xs : List A) → Perm (sort tx xs) xs
  unfolding sort
  sort-perm xs =
      Perm.trans (reverse_perm (insert_all tx xs []))
        (rw (append-nil xs) at (insert_all-perm xs []))

  -- The transitions of a transaction.
  abbrev pub of_tx : ℕ → List A → List A
  of_tx t = keep (λ x. tx x == t)

  keep-append : (p : A → Bool) (xs ys : List A) → keep p (xs ++ ys) ≡ keep p xs ++ keep p ys
  keep-append p [] ys = refl
  keep-append p (x ∷ xs) ys = ground (arith, keep-append p xs ys)

  keep-reverse_aux :
      (p : A → Bool) (xs acc : List A)
      → keep p (reverse_aux xs acc) ≡ reverse_aux (keep p xs) (keep p acc)
  keep-reverse_aux p [] acc = refl
  keep-reverse_aux p (x ∷ xs) acc = ground (arith, keep-reverse_aux p xs (x ∷ acc))

  insert-other :
      (t : ℕ) (x : A) (r : List A) → (tx x == t) ≡ false → of_tx t (insert tx x r) ≡ of_tx t r
  unfolding insert
  insert-other t x [] h = rw h
  insert-other t x (p ∷ r) h = ground (arith, insert-other t x r)

  insert-same :
      (t : ℕ) (x : A) (r : List A)
      → (t == system) ≡ false
      → (tx x == t) ≡ true
      → of_tx t (insert tx x r) ≡ x ∷ of_tx t r
  unfolding insert less
  insert-same t x [] s h = rw h
  insert-same t x (p ∷ r) s h = elim (Bool-cases (less (tx x) (tx p))) [
    | inl lt ↦
        let other : (tx p == t) ≡ false = ground arith in rw (lt, other) (insert-same t x r s h)
    | inr ge ↦ rw (ge, h)
  ]

  insert-system : (x : A) (r : List A) → (tx x == system) ≡ true → insert tx x r ≡ r ++ x ∷ []
  unfolding insert less
  insert-system x [] h = refl
  insert-system x (p ∷ r) h = rw h (ap (◌∷◌ p) (insert-system x r h))

  of_tx-insert_all :
      (t : ℕ) (xs r : List A)
      → (t == system) ≡ false
      → of_tx t (insert_all tx xs r) ≡ reverse_aux (of_tx t xs) (of_tx t r)
  unfolding insert_all
  of_tx-insert_all t [] r s = refl
  of_tx-insert_all t (x ∷ xs) r s = elim (Bool-cases (tx x == t)) [
    | inl same ↦ rw same (
        of_tx-insert_all t xs (insert tx x r) s
        ∙ ap (reverse_aux (of_tx t xs)) (insert-same t x r s same))
    | inr other ↦ rw other (
        of_tx-insert_all t xs (insert tx x r) s
        ∙ ap (reverse_aux (of_tx t xs)) (insert-other t x r other))
  ]

  of_tx-insert_all-system :
      (xs r : List A) → of_tx system (insert_all tx xs r) ≡ of_tx system r ++ of_tx system xs
  unfolding insert_all
  of_tx-insert_all-system [] r = sym (append-nil (of_tx system r))
  of_tx-insert_all-system (x ∷ xs) r = elim (Bool-cases (tx x == system)) [
    | inl same ↦ rw same (
        of_tx-insert_all-system xs (insert tx x r)
        ∙ ap (λ l. of_tx system l ++ of_tx system xs) (insert-system x r same)
        ∙ ap (λ l. l ++ of_tx system xs) (keep-append (λ y. tx y == system) r (x ∷ []))
        ∙ rw same (append_assoc (of_tx system r) (x ∷ []) (of_tx system xs)))
    | inr other ↦ rw other (
        of_tx-insert_all-system xs (insert tx x r)
        ∙ ap (λ l. l ++ of_tx system xs) (insert-other system x r other))
  ]

  -- The sort is stable for every transaction but the system's.
  pub of_tx-sort : (t : ℕ) (xs : List A) → t ≢ system → of_tx t (sort tx xs) ≡ of_tx t xs
  unfolding sort
  of_tx-sort t xs h =
      let s : (t == system) ≡ false = ground arith in
      keep-reverse_aux (λ x. tx x == t) (insert_all tx xs []) []
      ∙ ap reverse (of_tx-insert_all t xs [] s)
      ∙ reverse-reverse (of_tx t xs)

  -- The transitions of the system, which the comparison calls less than each other both ways, come
  -- out in the opposite order.
  pub of_tx-sort-system : (xs : List A) → of_tx system (sort tx xs) ≡ reverse (of_tx system xs)
  unfolding sort
  of_tx-sort-system xs =
      keep-reverse_aux (λ x. tx x == system) (insert_all tx xs []) []
      ∙ ap reverse (of_tx-insert_all-system xs [])
