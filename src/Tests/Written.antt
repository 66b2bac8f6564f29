-- ===== src/Tests/Written.antt =====
-- What is found in the world state after `Precommit`, at a concrete account; and a shard.
use state_engine.Prelude.{
  ◌≡◌, ◌∙◌, refl, ap, sym, negsuc, false, Option, none, some, [], ◌∷◌, Bytes, codes, ◌==◌,
  if◌then◌else◌, ◌>>=◌, arith, inl, inr, ℕ, has_suffix,
}
use state_engine.Libs.Cells.{plain_cells, Heap}
use state_engine.Libs.EthLib.{plain_eth, plain_eth-laws}
use state_engine.Libs.Search.{Member, plain_search-laws, first_place, erase}
use state_engine.Paths.Account.{get_account_addr}
use state_engine.EthStorage.Account.{stored_value, to_storage_key}
use state_engine.EthStorage.Account.Batches.{Entry}
use state_engine.EthStorage.Account.Encoded.{encoded}
use state_engine.EthStorage.Backend.{new_eth_shard_trie_mem_db, shard_from_key}
use state_engine.EthStorage.Shards.{shard_from_key-some}
use state_engine.EthStorage.World
use state_engine.EthStorage.World.{Ref}
use state_engine.EthStorage.Writer.{AccountPair, Eth, EthStorageWriter, precommit}
use state_engine.EthStorage.Writer.Found.{precommit-get}
use state_engine.Tests.Ethereum.{
  TestValue, number, env, encode_value, account, backend, storage_key, nonce_key, no_data, fields,
  batch-AllKeyed, batch-nonces, batch-balances, batch-codes, batch-AllSharded,
}
use state_engine.Tests.World.{world, writer_env, reached}

abbrev address : Bytes
address = codes "0x41eff1c3adfca1ccacced2198241747863dbf800"

-- Transition 0 sets the nonce, 1 an entry of the storage.
abbrev heap : Heap (plain_cells TestValue)
heap r = record {
  path = some (if r == 0 then nonce_key else storage_key);
  content = some (if r == 0 then number 7 else number 9);
  tx = 1;
  bound = false;
  skip = false;
}

abbrev pair : AccountPair
pair = record { first = 0; second = 0 ∷ 1 ∷ [] }

-- The account is not in the cache yet.
abbrev start : Eth writer_env
start = record {
  world = record world { account_cache = []; accounts = λ r. record account { addr = address } };
  heap = heap;
}

abbrev writer : EthStorageWriter writer_env
writer = record {
  indexer = record { version = negsuc 0; index = (address, pair) ∷ []; dirty_accounts = none };
  buffer = [];
}

abbrev final : EthStorageWriter writer_env × Eth writer_env
unfolding precommit first_place erase to_storage_key get_account_addr has_suffix
final = reached (writer, start) (precommit writer_env writer start)

storage-only :
    (j : Bytes) (u : Option TestValue)
    → Member {A = Entry TestValue}
        (j, u)
        ((nonce_key, some (number 7)) ∷ (storage_key, some (number 9)) ∷ [])
    → to_storage_key plain_eth j ≡ some (codes "0x01")
    → encoded plain_eth encode_value j u ≡ 9 ∷ []
unfolding to_storage_key
storage-only j u (inl eq) h =
    let path : some nonce_key ≡ some (codes "0x01") =
      sym (ap (λ (x : Entry TestValue). to_storage_key plain_eth x.0) eq) ∙ h in
    cc
storage-only j u (inr (inl eq)) h =
    ap (λ (x : Entry TestValue). encoded plain_eth encode_value x.0 x.1) eq
storage-only j u (inr (inr m)) h = absurd m

only_account : (q : Ref) → Member q (0 ∷ []) → address ≡ address → q ≡ 0
only_account q (inl same) h = same
only_account q (inr m) h = absurd m

precommit-get_example :
    (x : Option ℕ) × ((World.get env storage_key final.1.world >>= λ found. some found.0)
      ≡ some (stored_value plain_eth fields (9 ∷ [], x)))
unfolding precommit to_storage_key get_account_addr has_suffix first_place erase
precommit-get_example =
    precommit-get writer_env plain_search-laws plain_eth-laws writer final.0 start final.1 pair
      no_data backend storage_key address (some (number 9)) (codes "0x01") refl refl
      ((λ m. absurd m), tt) (inl refl) (λ same. cc) only_account refl batch-AllKeyed batch-nonces
      batch-balances batch-codes refl refl batch-AllSharded (inr (inl refl))
      (refl, refl, refl, refl) refl storage-only refl refl refl

shard_from_key-some_example :
    (handle : ℕ) × (shard_from_key (200 ∷ 1 ∷ []) (new_eth_shard_trie_mem_db 5) ≡ some handle)
unfolding new_eth_shard_trie_mem_db
shard_from_key-some_example =
    shard_from_key-some (200 ∷ 1 ∷ []) (new_eth_shard_trie_mem_db 5) refl (omega arith)
