-- ===== src/Tests/Ethereum.antt =====
-- The theorems on the Ethereum storage, with a trie that is a function.
use state_engine.Prelude.{
  ℕ, zero, suc, ◌≤◌, ◌<◌, ◌⊎◌, arith, ◌≡◌, inl, inr, refl, sym, ap, ◌∙◌, false, false≢true, Option,
  none, some, [], ◌∷◌, ◌++◌, Bytes, codes, length, has_suffix,
}
use state_engine.Libs.SliceLib.{plain_slices}
use state_engine.Libs.Search.{plain_search, plain_search-laws}
use state_engine.Libs.MapLib.{plain_maps, plain_maps-laws}
use state_engine.Libs.EthLib.{plain_eth, plain_eth-laws}
use state_engine.Paths.Persist.{sample_account}
use state_engine.EthStorage.Backend.{StorageError, Databases, EthShardTrieDb, shard_from_key}
use state_engine.EthStorage.Account.{FieldLib, Account, to_storage_key}
use state_engine.EthStorage.Account.Update.{Batch, update_account_storage_trie}
use state_engine.EthStorage.Account.Batches.{Entry}
use state_engine.EthStorage.Account.Encoded.{AllKeyed}
use state_engine.EthStorage.Account.Fields.{is_nonce, is_balance, is_code, AllReadable, AllSharded}
use state_engine.EthStorage.Account.Written.{IsUpdated, update-read}
use state_engine.EthStorage.World.{EthEnv}
use state_engine.EthStorage.World.Persist.{Roots, root_get, max_roots, remember}
use state_engine.EthStorage.World.Roots.{IsMap, Remembered, remember-newest}

pub data TestValue : Type 0 where
  number : ℕ → TestValue
  text : Bytes → TestValue

abbrev pub as_number : TestValue → Option ℕ
as_number (number n) = some n
as_number (text b) = none

abbrev pub as_text : TestValue → Option Bytes
as_text (number n) = none
as_text (text b) = some b

abbrev pub fields : FieldLib TestValue
fields = record {
  as_uint64 = as_number;
  as_u256 = as_number;
  as_bytes = as_text;
  unbounded_uint64 = number;
  unbounded_u256 = number;
  new_bytes = text;
}

abbrev pub encode_value : Bytes → TestValue → Bytes
encode_value k (number n) = n ∷ []
encode_value k (text b) = b

abbrev pub env : EthEnv TestValue
env = record {
  lib = plain_eth;
  slices = plain_slices;
  search = plain_search;
  maps = plain_maps;
  fields = fields;
  encoder = encode_value;
  decoder = λ path buffer hint. state_engine.EthStorage.Account.crdt hint;
}

-- The roots of the blocks below a number.
abbrev roots_below : ℕ → Roots
roots_below zero = []
roots_below (suc n) = (n, 1 ∷ []) ∷ roots_below n

root_get-roots_below : (n m : ℕ) → n ≤ m → root_get m (roots_below n) ≡ none
unfolding root_get
root_get-roots_below zero m h = refl
root_get-roots_below (suc n) m h = ground (arith, root_get-roots_below n m (omega (arith, h)))

roots_below-IsMap : (n : ℕ) → IsMap (roots_below n)
roots_below-IsMap zero = tt
roots_below-IsMap (suc n) = (root_get-roots_below n n (omega arith), roots_below-IsMap n)

-- There is no room for the root of the block 1024.
remember-newest_example :
    (after : Roots) × (remember env 1024 (3 ∷ []) (roots_below 1024) ≡ some after)
    × (length after ≤ max_roots)
    × (root_get 1024 after ≡ some (3 ∷ []))
    × (length (roots_below 1024) < max_roots
        → (n : ℕ) → (n ≡ 1024) ⊎ (root_get n after ≡ root_get n (roots_below 1024)))
    × (max_roots ≤ length (roots_below 1024) → max_roots ≤ suc (length after))
    × ((n : ℕ) → Remembered env plain_maps-laws 1024 (roots_below 1024) after n)
remember-newest_example =
    remember-newest env plain_maps-laws 1024 (3 ∷ []) (roots_below 1024) (roots_below-IsMap 1024)

abbrev pub backend : EthShardTrieDb
backend = record {
  disk_shards = 0 ∷ 0 ∷ 0 ∷ 0 ∷ 0 ∷ 0 ∷ 0 ∷ 0 ∷ 0 ∷ 0 ∷ 0 ∷ 0 ∷ 0 ∷ 0 ∷ 0 ∷ 0 ∷ [];
}

abbrev pub no_data : Bytes → Bytes
no_data k = []

abbrev pub account : Account plain_eth
account = record {
  addr = 1 ∷ [];
  state = record { nonce = 0; balance = 0; root = []; code_hash = [] };
  code = none;
  storage_trie = some no_data;
  backend = some backend;
  error = none;
  trie_dirty = false;
}

abbrev pub databases : Databases plain_eth
databases = record { nodes = λ root k. []; disk = λ shard k. none }

abbrev pub nonce_key : Bytes
nonce_key = sample_account ++ codes "/nonce"

abbrev pub storage_key : Bytes
storage_key = sample_account ++ codes "/storage/native/0x01"

-- A nonce and an entry of the storage.
abbrev pub batch : Batch TestValue
batch = record {
  keys = nonce_key ∷ storage_key ∷ [];
  vals = some (number 7) ∷ some (number 9) ∷ [];
}

pub batch-AllKeyed : AllKeyed plain_eth encode_value batch
unfolding to_storage_key
batch-AllKeyed e (inl eq) =
    (nonce_key, ap (λ (x : Entry TestValue). to_storage_key plain_eth x.0) eq)
batch-AllKeyed e (inr (inl eq)) =
    (codes "0x01", ap (λ (x : Entry TestValue). to_storage_key plain_eth x.0) eq)
batch-AllKeyed e (inr (inr m)) = absurd m

pub batch-nonces : AllReadable is_nonce as_number batch
unfolding has_suffix
batch-nonces e (inl eq) h = (number 7, 7, ap (λ (x : Entry TestValue). x.1) eq, refl)
batch-nonces e (inr (inl eq)) h =
    absurd (false≢true (sym (ap (λ (x : Entry TestValue). is_nonce x.0) eq) ∙ h))
batch-nonces e (inr (inr m)) h = absurd m

pub batch-balances : AllReadable is_balance as_number batch
unfolding has_suffix
batch-balances e (inl eq) h =
    absurd (false≢true (sym (ap (λ (x : Entry TestValue). is_balance x.0) eq) ∙ h))
batch-balances e (inr (inl eq)) h =
    absurd (false≢true (sym (ap (λ (x : Entry TestValue). is_balance x.0) eq) ∙ h))
batch-balances e (inr (inr m)) h = absurd m

pub batch-codes : AllReadable is_code as_text batch
unfolding has_suffix
batch-codes e (inl eq) h =
    absurd (false≢true (sym (ap (λ (x : Entry TestValue). is_code x.0) eq) ∙ h))
batch-codes e (inr (inl eq)) h =
    absurd (false≢true (sym (ap (λ (x : Entry TestValue). is_code x.0) eq) ∙ h))
batch-codes e (inr (inr m)) h = absurd m

pub batch-AllSharded : AllSharded plain_eth plain_search plain_search-laws fields batch backend
unfolding shard_from_key
batch-AllSharded e (inl eq) = (0, ap (λ (x : Entry TestValue). shard_from_key x.0 backend) eq)
batch-AllSharded e (inr (inl eq)) = (0, ap (λ (x : Entry TestValue). shard_from_key x.0 backend) eq)
batch-AllSharded e (inr (inr m)) = absurd m

update-read_example :
    (err : Option StorageError) × (after : Account plain_eth) × (final : Databases plain_eth)
    × (update_account_storage_trie plain_eth plain_search fields encode_value account batch
          databases
        ≡ some (err, after, final))
    × (err ≡ none
        → IsUpdated plain_eth plain_search fields encode_value plain_search-laws plain_eth-laws
            batch account after final)
update-read_example =
    update-read plain_eth plain_search fields encode_value plain_search-laws plain_eth-laws batch
      account databases no_data backend refl batch-AllKeyed batch-nonces batch-balances batch-codes
      refl refl batch-AllSharded
