-- ===== src/Tests/World.antt =====
-- The theorems on the world state of the Ethereum storage and on its writer.
use state_engine.Prelude.{
  ◌≡◌, inl, inr, refl, ℤ, pos, negsuc, Bool, true, false, Option, none, some, List, [], ◌∷◌, map,
  Bytes, codes, ltb, map_get, map_put, has_suffix, if◌then◌else◌, ◌>>=◌, arith,
}
use state_engine.Libs.Search.{Member, first_place}
use state_engine.Libs.Cells.{plain_cells, Heap}
use state_engine.Libs.EthLib.{plain_eth-open}
use state_engine.EthStorage.World
use state_engine.EthStorage.World.{Ref, loaded_account}
use state_engine.EthStorage.World.Keys.{found}
use state_engine.EthStorage.World.Lookup.{has-get}
use state_engine.EthStorage.Writer.{
  AccountPair, AccountIndexLib, Env, Eth, EthStorageWriter, new_eth_storage_writer, commit,
}
use state_engine.EthStorage.Writer.Versions.{
  imports, precommits, run, unversioned_block, commit_at, commit-unversioned,
}
use state_engine.Tests.Ethereum.{
  TestValue, number, env, account, backend, databases, storage_key, no_data,
}

-- The account of the storage key is in the cache, and its trie is empty.
abbrev pub world : World.World env
world = record {
  world_state_trie = some no_data;
  account_cache = (codes "0x41eff1c3adfca1ccacced2198241747863dbf800", 0) ∷ [];
  account_cache_enabled = false;
  trie_db = backend;
  db_err = [];
  block_roots = [];
  accounts = λ r. account;
  next = 1;
  dbs = databases;
}

has-get_example : World.has env storage_key world ≡ found env (World.get env storage_key world)
unfolding has_suffix
has-get_example =
    has-get env plain_eth-open storage_key world (omega arith) (refl, refl, refl, refl)
      (0, 0 ∷ 0 ∷ 0 ∷ 0 ∷ 0 ∷ 0 ∷ 0 ∷ 0 ∷ 0 ∷ 0 ∷ 0 ∷ 0 ∷ 0 ∷ 0 ∷ 0 ∷ [], refl)

module _ {H : Type 0} (key : Ref → H → Option (Bytes × Bool))
    (start : Bytes → Ref → H → Option (AccountPair × H))
    (add : Bytes → Ref → AccountPair → AccountPair) where
  abbrev pub import_at :
      Bytes
      → Ref
      → H
      → List (Bytes × AccountPair)
      → Option AccountPair
      → Option (List (Bytes × AccountPair) × H)
  import_at k r h index (some p) = some (map_put k (add k r p) index, h)
  import_at k r h index none = start k r h >>= λ made. some (map_put k made.0 index, made.1)

  abbrev pub import_all :
      List Ref → H → List (Bytes × AccountPair) → Option (List (Bytes × AccountPair) × H)
  import_all [] h index = some (index, h)
  import_all (r ∷ rs) h index = key r h >>= λ k.
      import_at k.0 r h index (map_get k.0 index) >>= λ done. import_all rs done.1 done.0

abbrev pub pairs : {H : Type 0} → AccountIndexLib H
pairs {H} = record {
  Index = List (Bytes × AccountPair);
  new = [];
  import = import_all {H = H};
  for_each = λ f index. map (λ p. (p.0, f p.1)) index;
  values = λ index. map (λ p. p.1) index;
}

abbrev pub less : ℤ → ℤ → Bool
less (pos a) (pos b) = ltb a b
less (pos a) (negsuc b) = false
less (negsuc a) (pos b) = true
less (negsuc a) (negsuc b) = ltb b a

abbrev pub highest : {A : Type 0} → (A → ℤ) → A → List A → A
highest f x [] = x
highest f x (y ∷ ys) = highest f (if less (f x) (f y) then y else x) ys

highest-mem : {A : Type 0} (f : A → ℤ) (x : A) (xs : List A) → Member (highest f x xs) (x ∷ xs)
highest-mem f x [] = inl refl
highest-mem f x (y ∷ ys) =
    highest-or f x y ys (less (f x) (f y)) (highest-mem f (if less (f x) (f y) then y else x) ys)
  where
    highest-or :
        {A : Type 0} (f : A → ℤ) (x y : A) (ys : List A) (b : Bool) {z : A}
        → Member z ((if b then y else x) ∷ ys)
        → Member z (x ∷ y ∷ ys)
    highest-or f x y ys true (inl eq) = inr (inl eq)
    highest-or f x y ys true (inr m) = inr (inr m)
    highest-or f x y ys false (inl eq) = inl eq
    highest-or f x y ys false (inr m) = inr (inr m)

abbrev pub or_no_path : Option Bytes → Bytes
or_no_path none = []
or_no_path (some path) = path

abbrev pub writer_env : Env TestValue
writer_env = record {
  eth = env;
  cells = plain_cells TestValue;
  filter = λ r h. (true, h);
  index = pairs;
  kvs = λ cells. record {
    keys = map (λ x. or_no_path x.path) cells;
    vals = map (λ x. x.content) cells;
  };
  max_if = highest;
}

-- One transition, at the storage key.
abbrev heap : Heap (plain_cells TestValue)
heap r = record {
  path = some storage_key;
  content = some (number 9);
  tx = 1;
  bound = false;
  skip = false;
}

abbrev start : Eth writer_env
start = record { world = world; heap = heap }

abbrev pub reached : {A : Type 0} → A → Option A → A
reached d none = d
reached d (some x) = x

abbrev final : EthStorageWriter writer_env × Eth writer_env
unfolding run
final =
    reached (new_eth_storage_writer writer_env (negsuc 0), start)
      (run writer_env (imports (0 ∷ []) ∷ precommits ∷ [])
        (new_eth_storage_writer writer_env (negsuc 0), start))

-- One generation, and a commit with the version 5.
commit-unversioned_example :
    commit writer_env 5 final.0 final.1
    ≡ commit_at writer_env (unversioned_block writer_env final.0.buffer) final.0 final.1
unfolding run new_eth_storage_writer first_place
commit-unversioned_example =
    commit-unversioned writer_env (λ x xs. highest-mem (λ ix. ix.version) x xs)
      (imports (0 ∷ []) ∷ precommits ∷ []) start final.0 final.1 5 refl
