-- ===== src/Platform/Laws.antt =====
-- Which paths keep no record in their parent.
use state_engine.Prelude.{
  ℕ, ◌≡◌, ◌≢◌, inl, inr, refl, sym, ap, Bool, true, false, not, ◌&&◌, ◌||◌, none, ◌-◌, [], ◌∷◌,
  ◌++◌, ◌∙◌, append_assoc, arith, Bytes, codes, bytes_eq, bytes_eq_iff, contains_byte, has_suffix,
  length, length-append, drop_of_length, leb, Bool-cases, is_some, map_get, if◌then◌else◌,
}
use state_engine.Paths.Constants.{slash, path_storage_container, path_storage_native}
use state_engine.Paths.Account.{IsAccount}
use state_engine.Paths.Parent.{
  get_parent_path, get_parent_path-IsCut, get_parent_path-append, IsDir,
}
use state_engine.Paths.Persist.{has_suffix-append}
use state_engine.Platform.{
  TypeIds, Platform, new_platform, is_sys_path, is_container_path, is_immediate_child_of_sys_path,
}

contains_byte-append : (b : ℕ) (s : Bytes) → contains_byte b (s ++ b ∷ []) ≡ true
unfolding contains_byte
contains_byte-append b [] = ground arith
contains_byte-append b (c ∷ s) = ground (arith, contains_byte-append b s)

-- A directory without a slash is empty, and so a system path.
slashless-IsDir :
    (p : Platform) (dir : Bytes)
    → IsDir dir
    → contains_byte slash dir ≡ false
    → is_sys_path p dir ≡ true
unfolding is_sys_path
slashless-IsDir p dir (inl e) h = rw e
slashless-IsDir p dir (inr (d, e)) h = absurd (cc (contains_byte-append slash d, rw e at h))

nonempty : (p : Platform) (path : Bytes) → is_sys_path p path ≡ false → path ≢ []
unfolding is_sys_path
nonempty p path h e = cc (rw e at h)

not_root :
    (p : Platform) (path : Bytes) → is_sys_path p path ≡ false → bytes_eq path (codes "/") ≡ false
unfolding is_sys_path
not_root p path h = elim (Bool-cases (bytes_eq path (codes "/"))) [
  | inl root ↦ absurd (cc (rw ((bytes_eq_iff path (codes "/")).0 root) at h))
  | inr other ↦ other
]

choose : (c s : Bool) → (if c then false else s || false) ≡ (not c && s)
choose true s = refl
choose false true = refl
choose false false = refl

choose_all : (c : Bool) → (if c then false else true) ≡ (not c && true)
choose_all true = refl
choose_all false = refl

-- The children of a system path are those whose parent is a system path, but for the children of
-- containers; the last test, for a parent without a slash, never decides.
is_immediate_child_of_sys_path-eq :
    (p : Platform) (path : Bytes)
    → is_immediate_child_of_sys_path p path
      ≡ is_sys_path p path
        || (not (is_container_path p (get_parent_path path).0)
            && is_sys_path p (get_parent_path path).0)
unfolding is_immediate_child_of_sys_path
is_immediate_child_of_sys_path-eq p path = elim (Bool-cases (is_sys_path p path)) [
  | inl sys ↦ rw sys
  | inr other ↦
      let cut = get_parent_path-IsCut path (nonempty p path other) (not_root p path other) in
      let slashless = slashless-IsDir p (get_parent_path path).0 cut.0 in
      elim (Bool-cases (contains_byte slash (get_parent_path path).0)) [
        | inl has ↦ rw (other, has) (choose _ _)
        | inr lacks ↦ rw (other, lacks, slashless lacks) (choose_all _)
      ]
]

-- Under an account's system paths, a path is one exactly if its name there is one of the defaults.
is_sys_path-append :
    (p : Platform) (acct : Bytes) (c : ℕ) (sub : Bytes)
    → IsAccount acct
    → is_sys_path p (acct ++ c ∷ sub) ≡ is_some (map_get (c ∷ sub) p.default_paths)
unfolding is_sys_path
is_sys_path-append p acct c sub h =
    let long = length-append acct (c ∷ sub) in
    let cut = rw h at (drop_of_length acct (c ∷ sub)) in
    let over : leb (length (acct ++ c ∷ sub)) 64 ≡ false = ground (arith, long) in rw (over, cut)

last_and : (b : Bool) → (b && false) ≡ false
last_and true = refl
last_and false = refl

last_or : (b : Bool) → (b || true) ≡ true
last_or true = refl
last_or false = refl

bytes_eq_of_length : (s t : Bytes) → length s ≢ length t → bytes_eq s t ≡ false
bytes_eq_of_length s t h = elim (Bool-cases (bytes_eq s t)) [
  | inl same ↦ absurd (h (ap length ((bytes_eq_iff s t).0 same)))
  | inr other ↦ other
]

-- The parent of a name in a directory under an account.
parent-under :
    (acct d mid : Bytes) (c : ℕ)
    → IsAccount acct
    → contains_byte slash mid ≡ false
    → (get_parent_path (acct ++ ((d ++ slash ∷ []) ++ (mid ++ c ∷ [])))).0
      ≡ acct ++ (d ++ slash ∷ [])
parent-under acct d mid c h lacks =
    let dir = acct ++ (d ++ slash ∷ []) in
    let e = append_assoc acct (d ++ slash ∷ []) (mid ++ c ∷ []) in
    let sizes = length-append acct ((d ++ slash ∷ []) ++ (mid ++ c ∷ [])) in
    let more = length-append dir (mid ++ c ∷ []) in
    let less = length-append acct (d ++ slash ∷ []) in
    let last = length-append mid (c ∷ []) in
    let root =
      bytes_eq_of_length (dir ++ (mid ++ c ∷ [])) (codes "/") (omega (arith, more, less, last)) in
    rw (← e) (
      ap (λ (p : Bytes × Bytes). p.0)
        (get_parent_path-append dir mid c (inr (acct ++ d, sym (append_assoc acct d (slash ∷ []))))
          lacks root))

container_name-new :
    (ids : TypeIds) (mid : Bytes) (c : ℕ)
    → map_get (path_storage_container ++ (mid ++ c ∷ [])) (new_platform ids).default_paths ≡ none
unfolding map_get bytes_eq
container_name-new ids [] c = refl
container_name-new ids (x ∷ mid) c = refl

is_container_path-append :
    (p : Platform) (acct : Bytes) → is_container_path p (acct ++ path_storage_container) ≡ true
unfolding is_container_path
is_container_path-append p acct =
    rw (append_assoc acct (codes "/storage") (codes "/container/")) at
      (has_suffix-append (acct ++ codes "/storage") (codes "/container/"))

-- An element of an account's container is no exempt child: its parent has to list it.
container-child :
    (ids : TypeIds) (acct mid : Bytes) (c : ℕ)
    → IsAccount acct
    → contains_byte slash mid ≡ false
    → is_immediate_child_of_sys_path
        (new_platform ids)
        (acct ++ (path_storage_container ++ (mid ++ c ∷ [])))
      ≡ false
container-child ids acct mid c h lacks =
    let p = new_platform ids in
    let sys =
      is_sys_path-append p acct slash (codes "storage/container/" ++ (mid ++ c ∷ [])) h
      ∙ ap is_some (container_name-new ids mid c) in
    rw
      (
        is_immediate_child_of_sys_path-eq,
        sys,
        parent-under acct (codes "/storage/container") mid c h lacks,
        is_container_path-append p acct,
      )
      refl

is_container_path-native :
    (p : Platform) (acct : Bytes) → is_container_path p (acct ++ path_storage_native) ≡ false
unfolding is_container_path has_suffix bytes_eq
is_container_path-native p acct =
    let e = append_assoc acct (codes "/stor") (codes "age/native/") in
    let size = length-append (acct ++ codes "/stor") (codes "age/native/") in
    let cut : length ((acct ++ codes "/stor") ++ codes "age/native/") - 11
        ≡ length (acct ++ codes "/stor") =
      omega (arith, size) in
    rw (← e, cut, drop_of_length)
      (last_and (leb 11 (length ((acct ++ codes "/stor") ++ codes "age/native/"))))

-- A native storage slot of an account is exempt.
native-child :
    (ids : TypeIds) (acct mid : Bytes) (c : ℕ)
    → IsAccount acct
    → contains_byte slash mid ≡ false
    → is_immediate_child_of_sys_path
        (new_platform ids)
        (acct ++ (path_storage_native ++ (mid ++ c ∷ [])))
      ≡ true
unfolding map_get bytes_eq
native-child ids acct mid c h lacks =
    let p = new_platform ids in
    let sys = is_sys_path-append p acct slash (codes "storage/native/") h in
    rw
      (
        is_immediate_child_of_sys_path-eq,
        parent-under acct (codes "/storage/native") mid c h lacks,
        is_container_path-native p acct,
        sys,
      )
      (last_or _)
