-- ===== src/ExecStore.antt =====
-- state/cache: `ExecutionStateStore`, the local view of the state while a transaction is executed.
-- The cells, the values and the committed store are the common library's: they are parameters.
-- An operation returns the new store beside its result; `none` in place of both is a panic.
pub mod Read
pub mod Write
pub mod PathOps
pub mod Export
pub mod Writer
pub mod Lookups
pub mod Resolve
pub mod Reads
pub mod Backend
pub mod Insert
pub mod Indexes
pub mod Writes
pub mod Sizes
pub mod Filters
pub mod Ends
pub mod Service
pub mod Keyed
pub mod KeyedWrites
pub mod Calls
pub mod Reachable
pub mod Elements
use state_engine.Prelude.{ℕ, Bool, true, false, Option, none, some, List, [], ◌∷◌, Bytes, map_put}
use state_engine.Paths.Constants.{latest_state_version}
use state_engine.Platform.{Platform}

-- The memory pool is left out: it only allocates. `committed_store` is `none` for nil.
pub record ExecutionStateStore (Cell Backend : Type 0) : Type 0 where
  pub committed_store : Option Backend
  pub local_cells : List (Bytes × Cell)
  pub pending_wildcard_deletes : List (ℕ × Bytes)
  pub platform : Platform
  pub state_version : ℕ
  pub id : ℕ

abbrev pub new_execution_state_store :
    {Cell Backend : Type 0} → Option Backend → Platform → ExecutionStateStore Cell Backend
new_execution_state_store backend platform = record {
  committed_store = backend;
  local_cells = [];
  pending_wildcard_deletes = [];
  platform = platform;
  state_version = latest_state_version;
  id = 0;
}

pub data Error : Type 0 where
  lib_error : ℕ → Error
  not_in_parent : Error
  unknown_data_type : Error
  parent_missing : Bytes → Bytes → Error
  not_a_path : Error
  exceeded_length : Error
  key_not_found : Error
  empty_path : Error
  empty_container : Error

-- What the store calls. A dynamic value that is nil is `none`; a type assertion is a function into
-- `Option`.
pub record ExecLib : Type 1 where
  pub Value : Type 0
  pub Cell : Type 0
  pub Backend : Type 0
  pub PathMeta : Type 0
  pub DeltaSet : Type 0
  -- The committed store: `GetAs` with a hint of the type, and `Has`.
  pub get_as : Backend → Bytes → Option Value → Option Value × Option ℕ
  pub has : Backend → Bytes → Bool
  -- `NewStateCell().Init(tx, path, 0, 0, 0, value, preexist)` and
  -- `statecell.NewStateCell(tx, path, 0, 1, 0, value, nil)`.
  pub init_cell : ℕ → Bytes → Option Value → Bool → Cell
  pub new_state_cell : ℕ → Bytes → Option Value → Cell
  -- The methods of cells. `Set` is given the store and may write to it.
  pub get_path : Cell → Option Bytes
  pub value : Cell → Option Value
  pub clear_value : Cell → Cell
  pub increment_writes : Cell → Cell
  pub set :
      ℕ
      → Bytes
      → Option Value
      → Cell
      → ExecutionStateStore Cell Backend
      → (Cell × Option ℕ) × ExecutionStateStore Cell Backend
  pub get : ℕ → Bytes → Cell → Cell × Option Value
  pub set_block_bound : Bool → Cell → Cell
  pub set_preexist : Bool → Cell → Cell
  pub path_lookup_only : Cell → Bool
  -- Values.
  pub type_id : Value → ℕ
  pub mem_size : Value → ℕ
  pub as_bytes : Value → Option Bytes
  pub as_path : Value → Option PathMeta
  pub as_delta_set : Value → Option DeltaSet
  pub new_path : Value
  pub raw : Value → Option Value
  pub is_crdt : Value → Bool
  pub is_delta_applied : Value → Bool
  -- `Clone` of a path, and `Get`, `Limits` and `New` of another value.
  pub clone_path : Value → Value
  pub rebuild : Value → Value
  pub exists : PathMeta → Bytes → Bool
  pub is_block_bound : PathMeta → Bool
  pub key_at : DeltaSet → ℕ → Option Bytes
  pub last : DeltaSet → Option Bytes
  -- `rlp.DecodeBytes` into bytes, and `Path.Decode`.
  pub rlp_decode_bytes : Bytes → Option Bytes
  pub decode_path : Bytes → Value

-- The store of a library.
abbrev pub Exec : ExecLib → Type 0
Exec l = ExecutionStateStore l.Cell l.Backend

-- What a lookup returns. `local` says that the pointer is that of the local cell of the path, so
-- that a change of the cell is a change of the store.
pub record Found (l : ExecLib) : Type 0 where
  pub value : Option l.Value
  pub cell : l.Cell
  pub local : Bool
  pub err : Option Error

abbrev pub lib_err : Option ℕ → Option Error
lib_err none = none
lib_err (some e) = some (lib_error e)

module _ (l : ExecLib) where
  -- `localCells[path] = cell`
  abbrev pub put_cell : Bytes → l.Cell → Exec l → Exec l
  put_cell path cell s = record s { local_cells = map_put path cell s.local_cells }

  abbrev pub save : Bool → Bytes → l.Cell → Exec l → Exec l
  save true path cell s = put_cell path cell s
  save false path cell s = s
