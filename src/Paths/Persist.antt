-- ===== src/Paths/Persist.antt =====
-- `ShouldPersistToEth` and `ShouldPersistToArco` of common/path_types.go: which storage a path goes
-- to.
use state_engine.Prelude.{
  ℕ, ◌+◌, ◌-◌, ◌<◌, ◌≡◌, ◌≢◌, ◌⊎◌, refl, ap, Bool, true, false, ◌||◌, Option, none, some, [], ◌∷◌,
  ◌++◌, ◌∙◌, append_assoc, append-nil, arith, Bytes, codes, bytes_eq, bytes_eq_refl, has_suffix,
  length, length-append, drop_of_length, contains_byte, leb, if◌then◌else◌, inl, inr, get_elem?,
}
use state_engine.Paths.Constants.{
  slash, eth_account_prefix, eth_account_full_length, path_nonce, path_balance, path_code,
  path_eth_native,
}
use state_engine.Paths.Segment.{
  get_segment_at, segments_from, get_segment_at-segments, segments, wrap, flush,
}

-- `sub, ok := ...; return ok && sub == PATH_ETH_NATIVE`
abbrev is_native : Option Bytes → Bool
is_native none = false
is_native (some sub) = bytes_eq sub path_eth_native

-- The three tests `HasSuffix` for the nonce, the balance and the code.
unfoldable pub is_account_field : Bytes → Bool
unfolding has_suffix
is_account_field path =
    has_suffix path path_nonce || has_suffix path path_balance || has_suffix path path_code

unfoldable pub should_persist_to_eth : Bytes → Bool
unfolding has_suffix get_segment_at bytes_eq is_account_field
should_persist_to_eth path =
    if leb (length path) (eth_account_full_length + 1)
    then false
    else if is_account_field path
    then true
    else if has_suffix path (codes "/")
    then false
    else is_native (get_segment_at path 5 false true)

unfoldable pub should_persist_to_arco : Bytes → Bool
should_persist_to_arco path = true

abbrev pub sample_account : Bytes
sample_account = eth_account_prefix ++ codes "0x41eff1c3adfca1ccacced2198241747863dbf800"

persist_tests :
    (should_persist_to_eth (sample_account ++ codes "/storage/native/0x01") ≡ true)
    × (should_persist_to_eth (sample_account ++ codes "/storage/container/k") ≡ false)
    × (should_persist_to_eth (sample_account ++ codes "/") ≡ false)
    × (should_persist_to_eth (sample_account ++ codes "/nonce") ≡ true)
unfolding should_persist_to_eth
persist_tests = (refl, refl, refl, refl)

pub has_suffix-append : (s p : Bytes) → has_suffix (s ++ p) p ≡ true
unfolding has_suffix
has_suffix-append s p =
    let e : length (s ++ p) - length p ≡ length s = omega (arith, length-append s p) in
    let l = length-append s p in rw (e, drop_of_length, bytes_eq_refl) (ground (arith, l))

not-short : (n : ℕ) → 65 < n → leb n 65 ≡ false
not-short n h = ground arith

is_account_field-append :
    (s field : Bytes)
    → (field ≡ path_nonce) ⊎ ((field ≡ path_balance) ⊎ (field ≡ path_code))
    → is_account_field (s ++ field) ≡ true
unfolding is_account_field
is_account_field-append s field (inl e) = let ends = has_suffix-append s path_nonce in rw (e, ends)
is_account_field-append s field (inr (inl e)) =
    let ends = has_suffix-append s path_balance in rw e (ground (arith, ends))
is_account_field-append s field (inr (inr e)) =
    let ends = has_suffix-append s path_code in rw e (ground (arith, ends))

-- A path that is longer than an account's root and ends in "/nonce", "/balance" or "/code" goes to
-- the Ethereum storage wherever it stands, inside a container too.
should_persist_to_eth-field :
    (s field : Bytes)
    → eth_account_full_length + 1 < length (s ++ field)
    → (field ≡ path_nonce) ⊎ ((field ≡ path_balance) ⊎ (field ≡ path_code))
    → should_persist_to_eth (s ++ field) ≡ true
unfolding should_persist_to_eth
should_persist_to_eth-field s field long which =
    let short = not-short (length (s ++ field)) long in
    rw (short, is_account_field-append s field which)

-- A run without slashes, read up to the next slash.
segments_from-run :
    (cur run rest : Bytes)
    → contains_byte slash run ≡ false
    → segments_from cur (run ++ slash ∷ rest) ≡ flush (cur ++ run) ++ segments rest
unfolding segments_from contains_byte
segments_from-run cur [] rest h = rw append-nil
segments_from-run cur (c ∷ run) rest h =
    let later =
      rw (append_assoc cur (c ∷ []) run) at
        (segments_from-run (cur ++ c ∷ []) run rest (ground arith)) in
    ground (arith, later)

flush-ne : (s : Bytes) → s ≢ [] → flush s ≡ s ∷ []
flush-ne [] h = absurd (h refl)
flush-ne (c ∷ s) h = refl

segments-run :
    (run rest : Bytes)
    → run ≢ []
    → contains_byte slash run ≡ false
    → segments (run ++ slash ∷ rest) ≡ run ∷ segments rest
segments-run run rest some_byte h =
    segments_from-run [] run rest h ∙ ap (λ s. s ++ segments rest) (flush-ne run some_byte)

-- A path two levels under an account's storage.
abbrev pub storage_path : Bytes → Bytes → Bytes → Bytes
storage_path addr dir key =
    eth_account_prefix ++ (addr ++ (codes "/storage/" ++ (dir ++ (slash ∷ key))))

segment_five :
    (addr dir key : Bytes)
    → addr ≢ []
    → contains_byte slash addr ≡ false
    → dir ≢ []
    → contains_byte slash dir ≡ false
    → get_elem? (segments (storage_path addr dir key)) 5 ≡ some dir
unfolding segments_from
segment_five addr dir key a la d ld =
    rw (segments-run addr (codes "storage/" ++ (dir ++ (slash ∷ key))) a la)
      (rw (segments-run dir key d ld) refl)

should_persist_to_eth-segments :
    (path dir : Bytes)
    → 65 < length path
    → is_account_field path ≡ false
    → has_suffix path (codes "/") ≡ false
    → get_elem? (segments path) 5 ≡ some dir
    → should_persist_to_eth path ≡ bytes_eq (dir ++ codes "/") path_eth_native
unfolding should_persist_to_eth wrap
should_persist_to_eth-segments path dir long field end fifth =
    rw (not-short (length path) long, field, end, get_segment_at-segments, fifth)

storage_path-long :
    (addr dir key : Bytes) → length addr ≡ 42 → 65 < length (storage_path addr dir key)
storage_path-long addr dir key size =
    omega (arith, length-append addr (codes "/storage/" ++ (dir ++ (slash ∷ key))))

ne_of_length : (s : Bytes) → length s ≡ 42 → s ≢ []
ne_of_length [] h = absurd (omega arith)
ne_of_length (c ∷ s) h = λ e. cc

-- Of the paths `/storage/<dir>/<key>` under an account's address, which has 42 bytes and no slash,
-- exactly those with the directory "native" go to the Ethereum storage. The conditions are that the
-- directory is not empty and has no slash, and that the path ends neither in a slash nor in an
-- account field.
pub should_persist_to_eth-storage :
    (addr dir key : Bytes)
    → length addr ≡ 42
    → contains_byte slash addr ≡ false
    → dir ≢ []
    → contains_byte slash dir ≡ false
    → is_account_field (storage_path addr dir key) ≡ false
    → has_suffix (storage_path addr dir key) (codes "/") ≡ false
    → should_persist_to_eth (storage_path addr dir key)
      ≡ bytes_eq (dir ++ codes "/") path_eth_native
unfolding should_persist_to_eth
should_persist_to_eth-storage addr dir key size la d ld field end =
    should_persist_to_eth-segments (storage_path addr dir key) dir
      (storage_path-long addr dir key size) field end
      (segment_five addr dir key (ne_of_length addr size) la d ld)
