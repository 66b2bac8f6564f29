-- ===== src/Tests/Fixtures.antt =====
-- Concrete cells, values and stores for the tests of the local view: cells are records, values are
-- numbers or directories, and the committed store is a function.
use state_engine.Prelude.{
  true, ℕ, ◌+◌, refl, ap, Bool, false, Option, none, some, List, [], ◌∷◌, ◌++◌, Bytes, codes,
  bytes_eq, bytes_eq_refl, map_get, is_some, ◌∙◌, if◌then◌else◌,
}
use state_engine.Libs.Stores.{contains}
use state_engine.Paths.Persist.{sample_account}
use state_engine.Platform.{TypeIds, new_platform}
use state_engine.ExecStore.{ExecLib, Exec, new_execution_state_store}
use state_engine.ExecStore.Lookups.{CellLaws, IsKeyed}
use state_engine.ExecStore.Keyed.{PathLaws}
use state_engine.ExecStore.Writes.{IsPlainWrite}

pub data Value : Type 0 where
  number : ℕ → Value
  directory : List Bytes → Value

pub record Cell : Type 0 where
  pub path : Option Bytes
  pub content : Option Value
  pub writes : ℕ
  pub bound : Bool

abbrev pub as_directory : Value → Option (List Bytes)
as_directory (number n) = none
as_directory (directory names) = some names

abbrev pub type_of : Value → ℕ
type_of (number n) = 3
type_of (directory names) = 1

abbrev pub is_own : Bytes → Option Bytes → Bool
is_own path none = false
is_own path (some own) = bytes_eq own path

abbrev pub cell_at : Bytes → Option Value → Cell
cell_at path v = record { path = some path; content = v; writes = 0; bound = false }

abbrev pub lib : ExecLib
lib = record {
  Value = Value;
  Cell = Cell;
  Backend = Bytes → Option Value;
  PathMeta = List Bytes;
  DeltaSet = List Bytes;
  get_as = λ b path hint. (b path, none);
  has = λ b path. is_some (b path);
  init_cell = λ tx path v preexist. cell_at path v;
  new_state_cell = λ tx path v. cell_at path v;
  get_path = λ c. c.path;
  value = λ c. c.content;
  clear_value = λ c. record c { content = none };
  increment_writes = λ c. record c { writes = c.writes + 1 };
  set = λ tx path v c s.
      ((record c { content = if is_own path c.path then v else c.content }, none), s);
  get = λ tx path c. (c, c.content);
  set_block_bound = λ b c. record c { bound = b };
  set_preexist = λ b c. c;
  path_lookup_only = λ c. false;
  type_id = type_of;
  mem_size = λ v. 8;
  as_bytes = λ v. none;
  as_path = as_directory;
  as_delta_set = as_directory;
  new_path = directory [];
  raw = λ v. some v;
  is_crdt = λ v. true;
  is_delta_applied = λ v. false;
  clone_path = λ v. v;
  rebuild = λ v. v;
  exists = λ names child. contains child names;
  is_block_bound = λ names. false;
  key_at = λ names i. none;
  last = λ names. none;
  rlp_decode_bytes = λ b. some b;
  decode_path = λ b. directory [];
}

pub lib-CellLaws : CellLaws lib
lib-CellLaws = record {
  get_path-init_cell = λ tx path v b. refl;
  value-init_cell = λ tx path v b. refl;
  get_path-clear_value = λ c. refl;
  value-clear_value = λ c. refl;
  get_path-increment_writes = λ c. refl;
  value-increment_writes = λ c. refl;
}

pub lib-PathLaws : PathLaws lib
lib-PathLaws = record {
  get_path-set = λ tx path v c s. refl;
  set-IsKeyed = λ tx path v c s keyed. keyed;
  get_path-get = λ tx path c. refl;
  get_path-set_block_bound = λ b c. refl;
}

pub plain : (tx : ℕ) (path : Bytes) → IsPlainWrite lib tx path
plain tx path v c s = (
  record c { content = if is_own path c.path then v else c.content },
  refl,
  refl,
  λ own. ap (λ o. if is_own path o then v else c.content) own ∙ rw (bytes_eq_refl path) refl,
)

abbrev pub ids : TypeIds
ids = record { path = 1; bytes = 2; uint64 = 3; uint256 = 4 }

abbrev pub container : Bytes
container = sample_account ++ codes "/storage/container/"

abbrev pub element : Bytes
element = container ++ codes "a"

abbrev pub inner : Bytes
inner = container ++ codes "c/x"

abbrev pub slot : Bytes
slot = sample_account ++ codes "/storage/native/0x01"

abbrev pub orphan : Bytes
orphan = container ++ codes "d/x"

-- The container lists `a` and holds the directory `c/`; the native slots have theirs.
abbrev pub committed : Bytes → Option Value
committed k =
    if bytes_eq k container
    then some (directory (codes "a" ∷ codes "c/" ∷ []))
    else if bytes_eq k element
    then some (number 5)
    else if bytes_eq k (container ++ codes "c/")
    then some (directory [])
    else if bytes_eq k (sample_account ++ codes "/storage/native/")
    then some (directory [])
    else none

abbrev pub store : Exec lib
store = new_execution_state_store (some committed) (new_platform ids)

-- The container is deleted by a wildcard.
abbrev pub wiped : Exec lib
wiped = record store { pending_wildcard_deletes = (1, container) ∷ [] }

pub store-IsKeyed : IsKeyed lib store
unfolding map_get
store-IsKeyed k c held = cc

pub wiped-IsKeyed : IsKeyed lib wiped
unfolding map_get
wiped-IsKeyed k c held = cc
