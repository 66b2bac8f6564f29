-- ===== src/Builder/Laws.antt =====
-- Parsing and building of account paths.
use state_engine.Prelude.{
  ◌+◌, ◌*◌, ◌≤◌, ◌≡◌, refl, true, none, some, [], ◌∷◌, ◌++◌, append_assoc, arith, Bytes, codes,
  length, take, leb,
}
use state_engine.Paths.Constants.{eth_account_prefix, path_func_profile}
use state_engine.Paths.Account.{IsAccount, get_path_under, get_path_under-append}
use state_engine.Builder.{
  hex_decode, copy_into, invalid_address, parse_address_and_selector, parse_address_sub_string,
  PathBuilder, Encoders, derive_uid_from_path, profile_field,
}

hex_decode-x : (s : Bytes) → hex_decode (b'0' ∷ b'x' ∷ s) ≡ none
unfolding hex_decode
hex_decode-x s = refl

-- The address of a path with the usual form, prefix and "0x".
sub_string-x :
    (rest : Bytes)
    → 40 ≤ length rest
    → parse_address_sub_string (eth_account_prefix ++ (codes "0x" ++ rest))
      ≡ codes "0x" ++ take 40 rest
unfolding parse_address_sub_string
sub_string-x rest h =
    let over : leb 64 (length (eth_account_prefix ++ (codes "0x" ++ rest))) ≡ true = ground arith in
    rw over

parse_address_and_selector-none :
    (path acct : Bytes)
    → parse_address_sub_string path ≡ acct
    → hex_decode acct ≡ none
    → parse_address_and_selector path
      ≡ (copy_into 20 [], copy_into 4 [], some (invalid_address acct))
parse_address_and_selector-none path acct e h =
    unfold parse_address_and_selector in ground (arith, e, h)

-- Every path of an account written with "0x", as all the code writes them, fails to parse: the "0x"
-- is handed to the hexadecimal decoder. The address and the selector that come back are zero.
parse_address_and_selector-x :
    (rest : Bytes)
    → 40 ≤ length rest
    → parse_address_and_selector (eth_account_prefix ++ (codes "0x" ++ rest))
      ≡ (copy_into 20 [], copy_into 4 [], some (invalid_address (codes "0x" ++ take 40 rest)))
parse_address_and_selector-x rest h =
    parse_address_and_selector-none (eth_account_prefix ++ (codes "0x" ++ rest))
      (codes "0x" ++ take 40 rest) (sub_string-x rest h) (hex_decode-x (take 40 rest))

-- The identifier that is derived from a path of an account written with "0x" is 0, whatever the
-- account and the selector, and the builder stays as it was.
pub derive_uid_from_path-x :
    (e : Encoders) (b : PathBuilder) (rest : Bytes)
    → 40 ≤ length rest
    → derive_uid_from_path e b (eth_account_prefix ++ (codes "0x" ++ rest)) ≡ (b, 0)
unfolding derive_uid_from_path
derive_uid_from_path-x e b rest h = rw (derive_uid_from_path, parse_address_and_selector-x rest h)

-- `hexutil.Encode` writes "0x" and two digits for each byte.
abbrev pub EncodesLength : Encoders → Type 0
EncodesLength e = (s : Bytes) → length (e.hex_encode s) ≡ 2 + 2 * length s

-- What `ProfileField` builds for a 20-byte address is found again under the account's profiles.
get_path_under-profile_field :
    (e : Encoders) (b : PathBuilder) (field : Bytes)
    → EncodesLength e
    → length b.address ≡ 20
    → get_path_under (profile_field e b field) path_func_profile
      ≡ e.hex_encode b.selector ++ (codes "/" ++ field)
unfolding profile_field
get_path_under-profile_field e b field law size =
    let acct = eth_account_prefix ++ e.hex_encode b.address in
    let rest = e.hex_encode b.selector ++ (codes "/" ++ field) in
    let long : IsAccount acct = omega (arith, law b.address, size) in
    rw (append_assoc eth_account_prefix (e.hex_encode b.address) (path_func_profile ++ rest)) at
      (get_path_under-append acct path_func_profile rest long)
