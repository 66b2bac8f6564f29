-- ===== src/Platform.antt =====
-- common/platform.go: the paths that every account has, and the tests that rest on them.
pub mod Laws
use state_engine.Prelude.{
  ℕ, ◌+◌, ◌*◌, ◌%◌, Bool, true, false, not, ◌&&◌, ◌||◌, Option, none, some, List, [], ◌∷◌, ◌++◌,
  map, Bytes, map_get, codes, bytes_eq, has_suffix, contains_byte, length, drop, get_or, ◌==◌,
  is_some, leb, ltb, if◌then◌else◌,
}
use state_engine.Paths.Constants.{
  slash, eth_account_prefix, eth_account_full_length, path_root, path_code, path_nonce,
  path_balance, path_func_profile, path_storage_root, path_storage_container, path_storage_native,
}
use state_engine.Paths.Parent.{get_parent_path}

-- The type ids of the CRDT library that the platform names.
pub record TypeIds : Type 0 where
  pub path : ℕ
  pub bytes : ℕ
  pub uint64 : ℕ
  pub uint256 : ℕ

pub record Platform : Type 0 where
  pub default_paths : List (Bytes × ℕ)

abbrev pub new_platform : TypeIds → Platform
new_platform ids = record {
  default_paths =
      (path_root, ids.path)
      ∷ (path_code, ids.bytes)
      ∷ (path_nonce, ids.uint64)
      ∷ (path_balance, ids.uint256)
      ∷ (path_func_profile, ids.path)
      ∷ (path_storage_root, ids.path)
      ∷ (path_storage_container, ids.path)
      ∷ (path_storage_native, ids.path)
      ∷ [];
}

module _ (p : Platform) where
  unfoldable pub is_sys_path : Bytes → Bool
  unfolding map_get bytes_eq
  is_sys_path path =
      if leb (length path) eth_account_full_length
      then true
      else is_some (map_get (drop eth_account_full_length path) p.default_paths)

  unfoldable pub is_container_path : Bytes → Bool
  unfolding has_suffix bytes_eq
  is_container_path path = has_suffix path (codes "/container/")

  unfoldable pub is_immediate_child_of_sys_path : Bytes → Bool
  unfolding is_sys_path is_container_path get_parent_path contains_byte
  is_immediate_child_of_sys_path path =
      let parent = (get_parent_path path).0 in
      if is_sys_path path
      then true
      else if is_container_path parent
      then false
      else is_sys_path parent || not (contains_byte slash parent)

-- The account's shard. `hex2int` is the common library's; `none` is the panic, on a key that is too
-- short and on a division by zero.
unfoldable pub eth_account_shard : (hex2int : ℕ → ℕ) → ℕ → Bytes → Option ℕ
eth_account_shard hex2int num_of_shard key =
    if ltb (length key) 24
    then none
    else if num_of_shard == 0
    then none
    else some ((hex2int (get_or key 22 0) * 16 + hex2int (get_or key 23 0)) % num_of_shard)
