-- ===== src/Builder/Defaults.antt =====
-- `Platform.GetDefault` of common/platform.go and `CreateDefaultPaths` of common/utils.go: the
-- built-in paths of a new account.
use state_engine.Prelude.{
  ℕ, Bool, ◌==◌, Option, none, some, List, [], ◌∷◌, ◌++◌, map, Bytes, if◌then◌else◌,
}
use state_engine.Paths.Constants.{eth_account_prefix}
use state_engine.Platform.{TypeIds, Platform, new_platform}

-- `sorted` is `mapi.KVs` and then `slice.SortBy1st` by the keys.
unfoldable pub get_default :
    (sorted : List (Bytes × ℕ) → List (Bytes × ℕ)) → Platform → Bytes → List (Bytes × ℕ)
get_default sorted p acct =
    map (λ entry. (eth_account_prefix ++ (acct ++ entry.0), entry.1)) (sorted p.default_paths)

-- The store that the caller passes, and the fresh values and cells of the common library.
pub record Accounts : Type 1 where
  pub Value : Type 0
  pub Cell : Type 0
  pub Store : Type 0
  pub has : Bytes → Store → Bool
  -- The error, or `none` for nil.
  pub write : ℕ → Bytes → Option Value → Store → Store × Option ℕ
  pub new_state_cell : ℕ → Bytes → Option Value → Cell
  pub ids : TypeIds
  pub string_id : ℕ
  pub int64_id : ℕ
  pub new_path : Value
  pub new_string : Value
  pub new_unbounded_u256 : Value
  pub new_unbounded_uint64 : Value
  pub new_int64 : Value
  pub new_bytes : Value

module _ (a : Accounts) where
  -- The switch; a type of no case leaves nil.
  unfoldable pub default_value : ℕ → Option a.Value
  default_value id =
      if id == a.ids.path
      then some a.new_path
      else if id == a.string_id
      then some a.new_string
      else if id == a.ids.uint256
      then some a.new_unbounded_u256
      else if id == a.ids.uint64
      then some a.new_unbounded_uint64
      else if id == a.int64_id
      then some a.new_int64
      else if id == a.ids.bytes
      then some a.new_bytes
      else none

  -- The store, the transitions and the error; an error leaves no transitions.
  unfoldable pub create_paths :
      ℕ → List (Bytes × ℕ) → List a.Cell → a.Store → a.Store × List a.Cell × Option ℕ
  unfolding default_value
  create_paths tx [] transitions s = (s, transitions, none)
  create_paths tx ((path, id) ∷ rest) transitions s =
      let v = default_value id in
      let kept = create_paths tx rest transitions s in
      let done = a.write tx path v s in
      let more = create_paths tx rest (transitions ++ a.new_state_cell tx path v ∷ []) done.0 in
      if a.has path s
      then kept
      else elim (done.1) [ some err ↦ (done.0, [], some err) | none ↦ more ]

  unfoldable pub create_default_paths :
      (sorted : List (Bytes × ℕ) → List (Bytes × ℕ))
      → ℕ
      → Bytes
      → a.Store
      → a.Store × List a.Cell × Option ℕ
  unfolding get_default create_paths
  create_default_paths sorted tx acct s =
      create_paths tx (get_default sorted (new_platform a.ids) acct) [] s
