-- ===== src/Paths/Account.antt =====
-- The functions of common/path_types.go that take an account path apart by its fixed lengths:
-- `ParseAccountAddr`, `GetAccountAddr`, `GetPathUnder`, `IsEthAddress`.
use state_engine.Prelude.{
  ℕ, zero, suc, ◌+◌, ◌-◌, ◌≤◌, ◌≡◌, inl, inr, refl, ap, Bool, true, false, not, ◌&&◌, ◌||◌, [], ◌∷◌,
  ◌++◌, ◌∙◌, append-nil, bytes_eq_refl, arith, Bytes, codes, bytes_eq, has_prefix, length, take,
  drop, slice, length-append, length-take, length-drop, take-append-drop, drop_of_length, ltb, ◌==◌,
  if◌then◌else◌, Bool-cases,
}
use state_engine.Paths.Constants.{
  eth_account_prefix_length, eth_account_length, eth_account_full_length,
}

-- The prefix, the address and the suffix.
unfoldable pub parse_account_addr : Bytes → Bytes × Bytes × Bytes
parse_account_addr acct =
    if ltb (length acct) (eth_account_prefix_length + eth_account_length) then (acct, [], []) else (
      take eth_account_prefix_length acct,
      slice acct eth_account_prefix_length (eth_account_prefix_length + eth_account_length),
      drop (eth_account_prefix_length + eth_account_length) acct,
    )

unfoldable pub get_account_addr : Bytes → Bytes
unfolding parse_account_addr
get_account_addr path = (parse_account_addr path).1

unfoldable pub get_path_under : Bytes → Bytes → Bytes
unfolding has_prefix bytes_eq
get_path_under key prefix =
    let sub_key = drop (eth_account_prefix_length + eth_account_length) key in
    if ltb (eth_account_prefix_length + eth_account_length) (length key)
    then if not (bytes_eq sub_key prefix) && has_prefix sub_key prefix
      then drop (length prefix) sub_key
      else []
    else []

-- `path[len(path)-1] == '/'` is read only where the path is 43 bytes long.
unfoldable pub is_eth_address : Bytes → Bool
unfolding has_prefix bytes_eq
is_eth_address path =
    if not (has_prefix path (codes "0x"))
    then false
    else (length path == eth_account_length)
      || ((length path == eth_account_length + 1)
          && bytes_eq (drop (length path - 1) path) (codes "/"))

-- The first 64 bytes of an account path: the shared prefix and the address.
abbrev pub IsAccount : Bytes → Type 0
IsAccount acct = length acct ≡ eth_account_full_length

drop-empty : (n : ℕ) → drop {A = ℕ} n [] ≡ []
drop-empty zero = refl
drop-empty (suc n) = refl

take-empty : (n : ℕ) → take {A = ℕ} n [] ≡ []
take-empty zero = refl
take-empty (suc n) = refl

take-drop-add : (i j : ℕ) (s : Bytes) → take j (drop i s) ++ drop (i + j) s ≡ drop i s
take-drop-add zero j s = let e : 0 + j ≡ j = omega arith in rw e (take-append-drop j s)
take-drop-add (suc i) j [] = rw (take-empty j, drop-empty (suc i + j))
take-drop-add (suc i) j (c ∷ s) =
    let e : suc i + j ≡ suc (i + j) = omega arith in rw e (take-drop-add i j s)

length-take_of_le : (n : ℕ) (s : Bytes) → n ≤ length s → length (take n s) ≡ n
length-take_of_le n s h = omega (arith, length-take n s)

length-slice : (i j : ℕ) (s : Bytes) → i + j ≤ length s → length (take j (drop i s)) ≡ j
length-slice i j s h = omega (arith, length-take j (drop i s), length-drop i s)

le_of_not-ltb : (m n : ℕ) → ltb m n ≡ false → n ≤ m
le_of_not-ltb m n h = ground arith

weaken : (n : ℕ) → 64 ≤ n → 22 ≤ n
weaken n h = omega arith

-- The three parts make up the path; the prefix and the address have their fixed lengths where the
-- path is long enough, and are the whole path and empty where it is not.
parse_account_addr-append :
    (path : Bytes)
    → let p = parse_account_addr path in
      let short = ltb (length path) eth_account_full_length in
      ((p.0 ++ (p.1 ++ p.2) ≡ path)
        × (length p.0 ≡ (if short then length path else 22))
        × (length p.1 ≡ (if short then 0 else 42)))
unfolding parse_account_addr
parse_account_addr-append path = elim (Bool-cases (ltb (length path) 64)) [
  | inl short ↦ rw short (append-nil path, refl, refl)
  | inr long ↦
      let parts =
        ap (λ s. take 22 path ++ s) (take-drop-add 22 42 path) ∙ take-append-drop 22 path in
      rw long (
        parts,
        length-take_of_le 22 path (weaken (length path) (le_of_not-ltb (length path) 64 long)),
        length-slice 22 42 path (le_of_not-ltb (length path) 64 long),
      )
]

drop-account : (acct s : Bytes) → IsAccount acct → drop 64 (acct ++ s) ≡ s
drop-account acct s h = rw h at (drop_of_length acct s)

pub has_prefix-append : (p s : Bytes) → has_prefix (p ++ s) p ≡ true
unfolding has_prefix
has_prefix-append [] [] = refl
has_prefix-append [] (c ∷ s) = refl
has_prefix-append (c ∷ p) s = ground (arith, has_prefix-append p s)

bytes_eq-append_cons : (p : Bytes) (c : ℕ) (s : Bytes) → bytes_eq (p ++ c ∷ s) p ≡ false
unfolding bytes_eq
bytes_eq-append_cons [] c s = refl
bytes_eq-append_cons (d ∷ p) c s = ground (arith, bytes_eq-append_cons p c s)

-- `GetPathUnder` returns what follows the prefix under any account.
pub get_path_under-append :
    (acct prefix rest : Bytes)
    → IsAccount acct
    → get_path_under (acct ++ (prefix ++ rest)) prefix ≡ rest
unfolding get_path_under
get_path_under-append acct prefix [] h =
    rw (drop-account acct (prefix ++ []) h, append-nil prefix, bytes_eq_refl) (ground arith)
get_path_under-append acct prefix (c ∷ rest) h =
    let long = length-append acct (prefix ++ c ∷ rest) in
    let longer = length-append prefix (c ∷ rest) in
    rw
      (
        drop-account acct (prefix ++ c ∷ rest) h,
        bytes_eq-append_cons prefix c rest,
        has_prefix-append prefix (c ∷ rest),
        drop_of_length prefix (c ∷ rest),
      )
      (ground (arith, long, longer))
