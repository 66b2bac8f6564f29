-- ===== src/Libs/ProofLib.antt =====
-- What the Merkle proofs use of go-ethereum and of common-lib: proofs of a trie, the database in
-- memory that a proof is put into, and the search for an extreme element.
use state_engine.Prelude.{
  ℕ, suc, ◌<◌, ◌≡◌, refl, Bool, Option, none, some, List, [], ◌∷◌, Bytes, length, arith,
}
use state_engine.Libs.SliceLib.{firsts}
use state_engine.Libs.Search.{Member}
use state_engine.Libs.EthLib.{EthLib}

pub record ProofLib (l : EthLib) : Type 1 where
  -- `memorydb.Database`, with the error of `Put`
  pub Db : Type 0
  pub new_db : Db
  pub put : Bytes → Bytes → Db → Option ℕ × Db
  -- `trie.VerifyProof(root, key, db)`: the value, which may be nil, and the error
  pub verify_proof : Bytes → Bytes → Db → Option Bytes × Option ℕ
  -- `trie.Prove`: the nodes that are put, in order, and the error
  pub prove : l.Trie → Bytes → List Bytes × Option ℕ
  -- `trie.Prove` into a database
  pub prove_into : l.Trie → Bytes → Db → Option ℕ × Db
  -- `hexutil.Encode`, and `hexutil.EncodeBig` of the number that some bytes are
  pub encode : Bytes → Bytes
  pub encode_big : Bytes → Bytes
  -- `rlp.DecodeBytes` at bytes; `none` is an error.
  pub decode_bytes : Bytes → Option Bytes
  -- `rlp.EncodeToBytes` of the bytes of a number, and of an account's claim; `none` is an error.
  pub encode_number : ℕ → Option Bytes
  pub encode_claim : ℕ → ℕ → Bytes → Bytes → Option Bytes

pub record CacheLib : Type 1 where
  -- `float64`, a quotient of numbers, and its order
  pub Float : Type 0
  pub quotient : ℕ → ℕ → Float
  pub less : Float → Float → Bool
  -- `slice.Extreme`: the position
  pub extreme : (Float → Float → Bool) → List Float → Option ℕ
  -- `mapi.KVs`: the entries in an order that Go leaves open
  pub kvs : {A : Type 0} → List (Bytes × A) → List (Bytes × A)

pub record CacheLaws (c : CacheLib) : Type 1 where
  pub extreme-place :
      (less : c.Float → c.Float → Bool) (x : c.Float) (xs : List c.Float)
      → (i : ℕ) × (c.extreme less (x ∷ xs) ≡ some i) × (i < length (x ∷ xs))
  pub length-kvs : {A : Type 0} (m : List (Bytes × A)) → length (c.kvs m) ≡ length m
  pub kvs-from :
      {A : Type 0} (m : List (Bytes × A)) (k : Bytes)
      → Member k (firsts (c.kvs m))
      → Member k (firsts m)

abbrev pub plain_cache : CacheLib
plain_cache = record {
  Float = ℕ;
  quotient = λ a b. a;
  less = λ a b. state_engine.Prelude.ltb a b;
  extreme = λ less xs. some 0;
  kvs = λ m. m;
}

pub plain_cache-laws : CacheLaws plain_cache
plain_cache-laws = record {
  extreme-place = λ less x xs. (0, refl, omega arith);
  length-kvs = λ m. refl;
  kvs-from = λ m k h. h;
}
