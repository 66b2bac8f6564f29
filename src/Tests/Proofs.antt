-- ===== src/Tests/Proofs.antt =====
-- The theorems on Merkle proofs, with a database that is a function and proofs that are the value.
use state_engine.Prelude.{◌≡◌, refl, Option, none, some, List, [], ◌∷◌, Bytes, arith}
use state_engine.Libs.EthLib.{Result, plain_eth}
use state_engine.Libs.ProofLib.{ProofLib, plain_cache, plain_cache-laws}
use state_engine.Proofs.ProofCache.{MerkleProofCache, ProofProvider, get_proof_provider}
use state_engine.Proofs.CacheBound.{IsBounded, get_proof_provider-IsBounded}
use state_engine.Proofs.OpVerifier.{OptimismAccountResult, verify, AllProven, IsAccountProven}
use state_engine.Proofs.Soundness.{verify-proven}
use state_engine.EthStorage.World.{Ref}
use state_engine.EthStorage.Backend.{StorageError}
use state_engine.Proofs.AccountResult.{AccountResult, ProofError, validate}
use state_engine.Proofs.GetProof.{get_proof}
use state_engine.Proofs.Validated.{IsAccepted, get_proof-validate}
use state_engine.Tests.Ethereum.{env}
use state_engine.Tests.World.{world}

abbrev provider : ProofProvider env
provider = record { root = 1 ∷ []; total_visits = 3; visits = 1; data_store = world }

-- A full cache of one provider.
abbrev full : MerkleProofCache env
full = record {
  max_cached = 1;
  merkle_dict = (1 ∷ [], 0) ∷ [];
  db = world;
  handles = 0 ∷ [];
  providers = λ r. provider;
  next = 1;
}

get_proof_provider-IsBounded_example :
    (out : Result Ref) × (d : MerkleProofCache env) × (get_proof_provider env plain_cache
        (2 ∷ [])
        full
      ≡ some (out, d))
    × IsBounded env plain_cache plain_cache-laws d
    × (d.max_cached ≡ 1)
get_proof_provider-IsBounded_example =
    get_proof_provider-IsBounded env plain_cache plain_cache-laws (2 ∷ []) full (omega arith)

-- The last node put is the value of every key.
abbrev last_node : ProofLib plain_eth
last_node = record {
  Db = Option Bytes;
  new_db = none;
  put = λ k v db. (none, some v);
  verify_proof = λ root key db. (db, none);
  prove = λ t k. ([], none);
  prove_into = λ t k db. (none, db);
  encode = λ b. b;
  encode_big = λ b. b;
  decode_bytes = λ b. some b;
  encode_number = λ n. some (n ∷ []);
  encode_claim = λ nonce balance storage code. some (nonce ∷ balance ∷ []);
}

-- An account with one entry of its storage.
abbrev result : OptimismAccountResult
result = record {
  account_proof = (4 ∷ 5 ∷ []) ∷ [];
  address = 9 ∷ [];
  balance = 5;
  code_hash = [];
  nonce = 4;
  storage_hash = [];
  storage_proof = record { key = 1 ∷ []; value = 6; proof = (6 ∷ []) ∷ [] } ∷ [];
}

verify-proven_example :
    AllProven plain_eth last_node [] result.storage_proof
    × IsAccountProven plain_eth last_node (8 ∷ []) result
unfolding verify
verify-proven_example = verify-proven plain_eth last_node (8 ∷ []) result refl

-- A proof is the value of the key.
abbrev value_proof : ProofLib plain_eth
value_proof = record last_node { prove = λ t k. (t k ∷ [], none) }

-- Every account has the nonce 4 and the balance 5, and none is in the cache.
abbrev uniform : ProofProvider env
uniform = record provider {
  data_store = record world { world_state_trie = some (λ k. 4 ∷ 5 ∷ []); account_cache = [] };
}

abbrev proven : AccountResult
proven = record {
  address = 9 ∷ [];
  account_proof = (4 ∷ 5 ∷ []) ∷ [];
  balance = 5;
  code_hash = [];
  nonce = 4;
  storage_hash = [];
  storage_proof = [];
}

abbrev provider_after :
    Option ((Option AccountResult × Option ProofError) × Option StorageError × ProofProvider env)
    → ProofProvider env
provider_after none = uniform
provider_after (some out) = out.2

abbrev after : ProofProvider env
unfolding get_proof
after = provider_after (get_proof env value_proof (9 ∷ []) [] uniform)

get_proof-validate_example :
    IsAccepted env value_proof uniform.data_store proven
    × (◌≡◌ {A = List Bytes} [] []
        → (t : Bytes → Bytes) × (uniform.data_store.world_state_trie ≡ some t)
          × (validate plain_eth value_proof (plain_eth.hash t) proven ≡ some none))
unfolding get_proof
get_proof-validate_example =
    get_proof-validate env value_proof (9 ∷ []) [] uniform after proven none refl
