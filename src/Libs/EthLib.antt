-- ===== src/Libs/EthLib.antt =====
-- go-ethereum, as the Ethereum storage uses it: the trie, the database of its nodes, the disk
-- databases, the hash and the encoding of accounts. An error is a number.
use state_engine.Prelude.{
  ℕ, ◌≡◌, ◌⊎◌, inl, inr, refl, Bool-cases, Option, none, some, List, [], ◌∷◌, Bytes, bytes_eq,
  if◌then◌else◌,
}
use state_engine.Libs.SliceLib.{zip}
use state_engine.Libs.Stores.{last_write}

-- `types.StateAccount`.
pub record StateAccount : Type 0 where
  pub nonce : ℕ
  pub balance : ℕ
  pub root : Bytes
  pub code_hash : Bytes

-- A value and an error, of which the code uses one.
pub data Result (A : Type 0) : Type 0 where
  ok : A → Result A
  err : ℕ → Result A

pub record EthLib : Type 1 where
  pub Trie : Type 0
  -- What `trie.Commit` collects.
  pub NodeSet : Type 0
  -- The contents of a `*triedb.Database`.
  pub Nodes : Type 0
  -- The contents of an `ethdb.Database`.
  pub Disk : Type 0
  -- `trie.Get`: the data, which are empty for a missing key, and the error.
  pub get : Trie → Bytes → Bytes × Option ℕ
  -- `trie.ParallelUpdate`: an error for each key, and the trie. An empty value is a deletion.
  pub parallel_update : List Bytes → List Bytes → Trie → List (Option ℕ) × Trie
  pub hash : Trie → Bytes
  -- `trie.Commit(false)`: the root and the nodes, which may be nil.
  pub commit : Trie → Result (Bytes × Option NodeSet)
  -- `triedb.Update(root, EmptyRootHash, block, nodes, nil)`
  pub update : Bytes → ℕ → NodeSet → Nodes → Option ℕ × Nodes
  -- `trie.NewParallel` and `trie.New` at a root
  pub new_parallel : Bytes → Nodes → Result Trie
  pub new : Bytes → Nodes → Result Trie
  -- `Get` and `Put` of a disk database; data that are not found are nil.
  pub disk_get : Disk → Bytes → Option Bytes × Option ℕ
  pub disk_put : Bytes → Bytes → Disk → Option ℕ × Disk
  pub keccak : Bytes → Bytes
  -- `hexutil.Decode`, `ethcommon.BytesToAddress`
  pub decode : Bytes → Option Bytes
  pub bytes_to_address : Bytes → Bytes
  pub empty_root_hash : Bytes
  -- `rlp.EncodeToBytes` and `rlp.DecodeBytes` at `types.StateAccount`
  pub encode_account : StateAccount → Bytes
  pub decode_account : Bytes → Result StateAccount

-- The first error of a list in which `none` is nil.
unfoldable pub first_error : List (Option ℕ) → Option ℕ
first_error [] = none
first_error (none ∷ es) = first_error es
first_error (some e ∷ es) = some e

-- `errors.Join(errs...)`, as the list of the errors that are not nil.
unfoldable pub joined : List (Option ℕ) → List ℕ
joined [] = []
joined (none ∷ es) = joined es
joined (some e ∷ es) = e ∷ joined es

-- A trie after an update without errors is read through the updates, the last one of a key first.
pub record EthLaws (l : EthLib) : Type 0 where
  pub get-parallel_update :
      (ks vs : List Bytes) (t : l.Trie) (k : Bytes)
      → first_error (l.parallel_update ks vs t).0 ≡ none
      → some (l.get (l.parallel_update ks vs t).1 k).0
        ≡ last_write k (zip ks vs) (some (l.get t k).0)

-- Two results of opening a trie at a root: they fail together, and the tries read alike.
abbrev pub IsSameOpen : (l : EthLib) → Result l.Trie → Result l.Trie → Type 0
IsSameOpen l (ok t) (ok u) = (k : Bytes) → l.get t k ≡ l.get u k
IsSameOpen l (err x) (err y) = Unit
IsSameOpen l (ok t) (err y) = ⊥
IsSameOpen l (err x) (ok u) = ⊥

-- `trie.New` and `trie.NewParallel` open the same trie, and a read that fails has no data.
pub record OpenLaws (l : EthLib) : Type 0 where
  pub new-new_parallel :
      (root : Bytes) (nodes : l.Nodes) → IsSameOpen l (l.new root nodes) (l.new_parallel root nodes)
  pub get-fails : (t : l.Trie) (k : Bytes) → ((l.get t k).0 ≡ []) ⊎ ((l.get t k).1 ≡ none)

-- A trie as a function. Nothing fails, and a database gives the trie of a root.
abbrev pub or_empty : Option Bytes → Bytes
or_empty none = []
or_empty (some v) = v

-- An account of a nonce and a balance, with the empty root.
abbrev plain_account : Bytes → Result StateAccount
plain_account (n ∷ b ∷ []) = ok (record { nonce = n; balance = b; root = []; code_hash = [] })
plain_account _ = err 0

abbrev pub plain_eth : EthLib
plain_eth = record {
  Trie = Bytes → Bytes;
  NodeSet = Unit;
  Nodes = Bytes → Bytes → Bytes;
  Disk = Bytes → Option Bytes;
  get = λ t k. (t k, none);
  parallel_update = λ ks vs t. ([], λ k. or_empty (last_write k (zip ks vs) (some (t k))));
  hash = λ t. [];
  commit = λ t. ok ([], none);
  update = λ root block set nodes. (none, nodes);
  new_parallel = λ root nodes. ok (nodes root);
  new = λ root nodes. ok (nodes root);
  disk_get = λ d k. (d k, none);
  disk_put = λ k v d. (none, λ j. if bytes_eq k j then some v else d j);
  keccak = λ b. b;
  decode = λ b. some b;
  bytes_to_address = λ b. b;
  empty_root_hash = [];
  encode_account = λ a. a.nonce ∷ a.balance ∷ [];
  decode_account = plain_account;
}

last_write-or_empty :
    (k : Bytes) (ws : List (Bytes × Bytes)) (old : Bytes)
    → some (or_empty (last_write k ws (some old))) ≡ last_write k ws (some old)
unfolding last_write
last_write-or_empty k [] old = refl
last_write-or_empty k ((j, v) ∷ ws) old = elim (Bool-cases (bytes_eq j k)) [
  | inl found ↦ rw found (last_write-or_empty k ws v)
  | inr other ↦ rw other (last_write-or_empty k ws old)
]

pub plain_eth-laws : EthLaws plain_eth
plain_eth-laws = record {
  get-parallel_update = λ ks vs t k h. last_write-or_empty k (zip ks vs) (t k);
}

pub plain_eth-open : OpenLaws plain_eth
plain_eth-open = record { new-new_parallel = λ root nodes k. refl; get-fails = λ t k. inr refl }
