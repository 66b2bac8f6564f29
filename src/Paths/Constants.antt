-- ===== src/Paths/Constants.antt =====
-- The constants of common/constants.go. A `const` without a value is written with the value that Go
-- gives it.
use state_engine.Prelude.{ℕ, ◌+◌, ◌-◌, ◌^◌, ◌++◌, Bytes, codes, length}

-- `iota` counts the specifications of the block from 0, and UNKNOWN is the third.
abbrev pub max_depth : ℕ
max_depth = 12

-- math.MaxInt32
abbrev pub system : ℕ
system = 2 ^ 31 - 1

abbrev pub unknown : ℕ
unknown = 2

abbrev pub eth_path : ℕ
eth_path = 1

abbrev pub arn_path : ℕ
arn_path = 2

abbrev pub min_read_size : ℕ
min_read_size = 32

abbrev pub min_write_size : ℕ
min_write_size = 32

abbrev pub eth : Bytes
eth = codes "blcc://eth1.0/"

abbrev pub eth_account_prefix : Bytes
eth_account_prefix = eth ++ codes "account/"

abbrev pub eth_account_prefix_length : ℕ
eth_account_prefix_length = length eth_account_prefix

abbrev pub eth_account_length : ℕ
eth_account_length = 42

abbrev pub eth_account_full_length : ℕ
eth_account_full_length = eth_account_prefix_length + eth_account_length

abbrev pub short_contract_address_length : ℕ
short_contract_address_length = 4

abbrev pub selector_length : ℕ
selector_length = 4

-- math.MaxUint64
abbrev pub latest_state_version : ℕ
latest_state_version = 2 ^ 64 - 1

abbrev pub path_root : Bytes
path_root = codes "/"

abbrev pub path_code : Bytes
path_code = codes "/code"

abbrev pub path_nonce : Bytes
path_nonce = codes "/nonce"

abbrev pub path_balance : Bytes
path_balance = codes "/balance"

abbrev pub path_func_profile : Bytes
path_func_profile = codes "/profiles/"

abbrev pub path_storage_root : Bytes
path_storage_root = codes "/storage/"

abbrev pub path_arco_container : Bytes
path_arco_container = codes "container/"

abbrev pub path_eth_native : Bytes
path_eth_native = codes "native/"

abbrev pub path_storage_container : Bytes
path_storage_container = path_storage_root ++ path_arco_container

abbrev pub path_storage_native : Bytes
path_storage_native = path_storage_root ++ path_eth_native

-- The byte that separates the segments of a path.
abbrev pub slash : ℕ
slash = b'/'
