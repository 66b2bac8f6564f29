-- ===== src/Builder.antt =====
-- common/path_builder.go, and the parsing of common/utils.go: account paths from addresses and
-- selectors, and back. An address is the list of its 20 bytes, a selector that of its 4.
pub mod Laws
pub mod Defaults
use state_engine.Prelude.{
  ℕ, ◌+◌, ◌-◌, ◌*◌, Bool, ◌&&◌, Option, none, some, List, [], ◌∷◌, ◌++◌, Bytes, codes, length, take,
  drop, slice, leb, if◌then◌else◌,
}
use state_engine.Paths.Constants.{
  eth_account_prefix, eth_account_prefix_length, eth_account_full_length, path_func_profile,
  selector_length, short_contract_address_length, eth_path,
}

-- encoding/hex: the value of a digit.
unfoldable pub from_hex_char : ℕ → Option ℕ
from_hex_char c =
    if leb b'0' c && leb c b'9'
    then some (c - b'0')
    else if leb b'a' c && leb c b'f'
    then some (c - b'a' + 10)
    else if leb b'A' c && leb c b'F'
    then some (c - b'A' + 10)
    else none

unfoldable pub hex_pair : Option ℕ → Option ℕ → Option Bytes → Option Bytes
hex_pair (some a) (some b) (some rest) = some ((a * 16 + b) ∷ rest)
hex_pair _ _ _ = none

-- `hex.DecodeString`; `none` is an error, on an odd length or another byte than a digit.
unfoldable pub hex_decode : Bytes → Option Bytes
unfolding from_hex_char hex_pair
hex_decode [] = some []
hex_decode (a ∷ []) = none
hex_decode (a ∷ b ∷ s) = hex_pair (from_hex_char a) (from_hex_char b) (hex_decode s)

-- The errors carry the text that the message names.
pub data ParseError : Type 0 where
  invalid_address : Bytes → ParseError
  invalid_selector : Bytes → ParseError

-- `copy` into a zeroed array of `n` bytes.
unfoldable pub copy_into : ℕ → Bytes → Bytes
copy_into ℕ.zero s = []
copy_into (ℕ.suc n) [] = 0 ∷ copy_into n []
copy_into (ℕ.suc n) (c ∷ s) = c ∷ copy_into n s

unfoldable pub parse_address_sub_string : Bytes → Bytes
parse_address_sub_string path =
    if leb eth_account_full_length (length path)
    then slice path eth_account_prefix_length eth_account_full_length
    else []

-- The text that is parsed as the selector.
unfoldable pub selector_text : Bytes → Bytes
selector_text path =
    let from = eth_account_full_length + length path_func_profile in
    if leb (from + selector_length) (length path)
    then slice path from (from + selector_length)
    else []

abbrev pub zero_address : Bytes
zero_address = copy_into 20 []

abbrev pub zero_selector : Bytes
zero_selector = copy_into 4 []

unfoldable pub parse_address_and_selector : Bytes → Bytes × Bytes × Option ParseError
unfolding hex_decode parse_address_sub_string selector_text copy_into
parse_address_and_selector path =
    let acct = parse_address_sub_string path in
    let selector = selector_text path in
    elim (hex_decode acct) [
      | none ↦ (copy_into 20 [], copy_into 4 [], some (invalid_address acct))
      | some addr ↦ elim (hex_decode selector) [
        | none ↦ (copy_into 20 [], copy_into 4 [], some (invalid_selector selector))
        | some sel ↦ (copy_into 20 addr, copy_into 4 sel, none)
      ]
    ]

pub record PathBuilder : Type 0 where
  pub sender : Bytes
  pub address : Bytes
  pub selector : Bytes
  pub platform : ℕ

unfoldable pub new_path_builder_from_path : Bytes → PathBuilder × Option ParseError
unfolding parse_address_and_selector
new_path_builder_from_path path =
    let parsed = parse_address_and_selector path in
    (
      record {
        sender = copy_into 20 [];
        address = parsed.0;
        selector = parsed.1;
        platform = eth_path;
      },
      parsed.2,
    )

abbrev pub new_container_path_builder : ℕ → PathBuilder
new_container_path_builder platform = record {
  sender = copy_into 20 [];
  address = copy_into 20 [];
  selector = copy_into 4 [];
  platform = platform;
}

abbrev pub new_eth_path_builder : PathBuilder
new_eth_path_builder = new_container_path_builder eth_path

-- What the code takes of its libraries: `codec.Uint64(0).FromBytes` and `hexutil.Encode`.
pub record Encoders : Type 0 where
  pub uint64_from_bytes : Bytes → ℕ
  pub hex_encode : Bytes → Bytes

module _ (e : Encoders) where
  unfoldable pub derive_eth_callee_uid : Bytes → Bytes → ℕ
  derive_eth_callee_uid addr selector =
      e.uint64_from_bytes (take short_contract_address_length addr ++ selector)

  unfoldable pub derive_uid : PathBuilder → ℕ
  unfolding derive_eth_callee_uid
  derive_uid b = derive_eth_callee_uid b.address b.selector

  -- The builder is changed where the path parses.
  unfoldable pub derive_uid_from_path : PathBuilder → Bytes → PathBuilder × ℕ
  unfolding derive_uid parse_address_and_selector
  derive_uid_from_path b path = elim ((parse_address_and_selector path).2) [
    | some err ↦ (b, 0)
    | none ↦
        let b' = record b {
          address = (parse_address_and_selector path).0;
          selector = (parse_address_and_selector path).1;
        } in
        (b', derive_uid b')
  ]

  unfoldable pub profile_field : PathBuilder → Bytes → Bytes
  profile_field b field =
      eth_account_prefix
      ++ (e.hex_encode b.address
          ++ (path_func_profile ++ (e.hex_encode b.selector ++ (codes "/" ++ field))))

  unfoldable pub under_sender_path : PathBuilder → Bytes → Bytes
  under_sender_path b subpath = eth_account_prefix ++ (e.hex_encode b.sender ++ subpath)
