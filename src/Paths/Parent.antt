-- ===== src/Paths/Parent.antt =====
-- `GetParentPath` of common/path_types.go: a path is cut behind the last slash that is not its last
-- byte.
use state_engine.Prelude.{
  ℕ, suc, ◌+◌, ◌-◌, ◌<◌, ◌≡◌, ◌≢◌, refl, sym, ap, false, ◌||◌, Option, none, some, [], ◌∷◌, ◌++◌,
  append_assoc, ◌∙◌, arith, subst, Bytes, codes, bytes_eq, length, take, drop, length-append,
  take_of_length, drop_of_length, contains_byte, last_index, last_index_from, after_index, ◌==◌,
  if◌then◌else◌, Bool-cases, ◌⊎◌, inl, inr, ==_iff,
}
use state_engine.Paths.Constants.{slash}

-- The part of the key that the cut keeps.
unfoldable pub get_parent_path : Bytes → Bytes × Bytes
unfolding last_index bytes_eq
get_parent_path key =
    if (length key == 0) || bytes_eq key (codes "/")
    then (key, key)
    else let path = take (after_index (last_index slash (take (length key - 1) key))) key in
      (path, drop (length path) key)

abbrev pub parent_of : Bytes → Bytes
parent_of key = (get_parent_path key).0

parent_tests :
    (parent_of (codes "/a/b/c") ≡ codes "/a/b/")
    × (parent_of (codes "/a/b/") ≡ codes "/a/")
    × (parent_of (codes "abc") ≡ [])
    × (parent_of (codes "/") ≡ codes "/")
unfolding get_parent_path
parent_tests = (refl, refl, refl, refl)

-- Without the byte the search keeps what it had found.
last_index_from-absent :
    (b i : ℕ) (found : Option ℕ) (s : Bytes)
    → contains_byte b s ≡ false
    → last_index_from b i found s ≡ found
unfolding last_index_from contains_byte
last_index_from-absent b i found [] h = refl
last_index_from-absent b i found (c ∷ s) h =
    ground (arith, last_index_from-absent b (suc i) found s)

last_index_from-append :
    (b i : ℕ) (found : Option ℕ) (s t : Bytes)
    → last_index_from b i found (s ++ t)
      ≡ last_index_from b (i + length s) (last_index_from b i found s) t
unfolding last_index_from
last_index_from-append b i found [] t = ap (λ n. last_index_from b n found t) (omega arith)
last_index_from-append b i found (c ∷ s) t =
    last_index_from-append b (suc i) (if c == b then some i else found) s t
    ∙ ap
        (λ n.
          last_index_from b n (last_index_from b (suc i) (if c == b then some i else found) s) t)
        (omega arith)

-- A directory: the empty text, or a text that ends in a slash.
abbrev pub IsDir : Bytes → Type 0
IsDir dir = (dir ≡ []) ⊎ ((d : Bytes) × (dir ≡ d ++ slash ∷ []))

last_index-dir : (dir : Bytes) → IsDir dir → after_index (last_index slash dir) ≡ length dir
unfolding last_index last_index_from
last_index-dir dir (inl e) = rw e
last_index-dir dir (inr (d, e)) = rw (e, last_index_from-append, length-append) (omega arith)

take-init : (s : Bytes) (c : ℕ) → take (length (s ++ c ∷ []) - 1) (s ++ c ∷ []) ≡ s
take-init s c =
    let e : length (s ++ c ∷ []) - 1 ≡ length s = omega (arith, length-append s (c ∷ [])) in
    rw e (take_of_length s (c ∷ []))

snoc-length : (s : Bytes) (c : ℕ) → (length (s ++ c ∷ []) == 0) ≡ false
snoc-length s c = ground (arith, length-append s (c ∷ []))

last_index-append :
    (dir mid : Bytes)
    → contains_byte slash mid ≡ false
    → last_index slash (dir ++ mid) ≡ last_index slash dir
unfolding last_index
last_index-append dir mid h =
    last_index_from-append slash 0 none dir mid
    ∙ last_index_from-absent slash (0 + length dir) (last_index_from slash 0 none dir) mid h

-- Where the cut falls.
cut-eq-length :
    (dir mid : Bytes) (c : ℕ)
    → IsDir dir
    → contains_byte slash mid ≡ false
    → after_index
        (last_index slash (take (length ((dir ++ mid) ++ c ∷ []) - 1) ((dir ++ mid) ++ c ∷ [])))
      ≡ length dir
cut-eq-length dir mid c d h = rw (take-init, last_index-append dir mid h) (last_index-dir dir d)

-- A directory followed by a name, which holds no slash but perhaps as its last byte, is cut into
-- the two, unless the whole is "/".
pub get_parent_path-append :
    (dir mid : Bytes) (c : ℕ)
    → IsDir dir
    → contains_byte slash mid ≡ false
    → bytes_eq (dir ++ (mid ++ c ∷ [])) (codes "/") ≡ false
    → get_parent_path (dir ++ (mid ++ c ∷ [])) ≡ (dir, mid ++ c ∷ [])
unfolding get_parent_path
get_parent_path-append dir mid c d h root =
    let e = append_assoc dir mid (c ∷ []) in
    let whole : (length (dir ++ (mid ++ c ∷ [])) == 0) ≡ false =
      rw (← e) (snoc-length (dir ++ mid) c) in
    let cut = rw e at (cut-eq-length dir mid c d h) in
    rw (whole, root, cut, take_of_length dir (mid ++ c ∷ []), drop_of_length dir (mid ++ c ∷ []))
      refl

-- Every text but the empty one is a directory and a name.
split_name :
    (key : Bytes)
    → key ≢ []
    → (dir : Bytes) × (mid : Bytes) × (c : ℕ) × IsDir dir
      × (contains_byte slash mid ≡ false)
      × (key ≡ dir ++ (mid ++ c ∷ []))
unfolding contains_byte
split_name [] h = absurd (h refl)
split_name (x ∷ []) h = ([], [], x, inl refl, refl, refl)
split_name (x ∷ y ∷ s) h = grow (split_name (y ∷ s) (λ e. cc))
  where
    grow :
        (dir : Bytes) × (mid : Bytes) × (c : ℕ) × IsDir dir
          × (contains_byte slash mid ≡ false)
          × (y ∷ s ≡ dir ++ (mid ++ c ∷ []))
        → (dir : Bytes) × (mid : Bytes) × (c : ℕ) × IsDir dir
          × (contains_byte slash mid ≡ false)
          × (x ∷ y ∷ s ≡ dir ++ (mid ++ c ∷ []))
    grow ([], mid, c, d, h, e) = elim (Bool-cases (x == slash)) [
      | inl yes' ↦
          (x ∷ [], mid, c, inr ([], ap (λ z. z ∷ []) ((==_iff x slash).0 yes')), h, ap (◌∷◌ x) e)
      | inr no' ↦ ([], x ∷ mid, c, inl refl, ground (arith, h), ap (◌∷◌ x) e)
    ]
    grow (z ∷ dir, mid, c, inl d, h, e) = absurd (cc)
    grow (z ∷ dir, mid, c, inr (u, d), h, e) =
        (x ∷ z ∷ dir, mid, c, inr (x ∷ u, ap (◌∷◌ x) d), h, ap (◌∷◌ x) e)

-- What a cut promises: the parent is a directory, parent and rest make up the key, the rest is not
-- empty and holds no slash before its last byte.
abbrev pub IsCut : Bytes → Bytes × Bytes → Type 0
IsCut key (dir, name) =
    IsDir dir
    × (dir ++ name ≡ key)
    × ((mid : Bytes) × (c : ℕ) × (name ≡ mid ++ c ∷ []) × (contains_byte slash mid ≡ false))

-- `GetParentPath` cuts every key but the empty one and "/" into a directory, which is empty or ends
-- in a slash, and a name, which is not empty and holds no slash but perhaps as its last byte. So a
-- slash at the end of the key belongs to the name: of "/a/b/" the parent is "/a/".
pub get_parent_path-IsCut :
    (key : Bytes) → key ≢ [] → bytes_eq key (codes "/") ≡ false → IsCut key (get_parent_path key)
get_parent_path-IsCut key h root =
    let (dir, mid, c, d, lacks, e) = split_name key h in
    subst (λ k. IsCut k (get_parent_path k)) (sym e)
      (rw (get_parent_path-append dir mid c d lacks (rw e at root))
        (d, refl, (mid, c, refl, lacks)))

-- The parent of a key other than the empty one and "/" is strictly shorter.
length-parent-lt :
    (key : Bytes)
    → key ≢ []
    → bytes_eq key (codes "/") ≡ false
    → length (get_parent_path key).0 < length key
length-parent-lt key h root =
    let (d, e, (mid, c, n, lacks)) = get_parent_path-IsCut key h root in
    omega (
      arith,
      ap length e,
      ap length n,
      length-append (get_parent_path key).0 (get_parent_path key).1,
      length-append mid (c ∷ []),
    )
