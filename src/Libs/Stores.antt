-- ===== src/Libs/Stores.antt =====
-- `common-lib/storage`: a store with string keys that is written in batches.
use state_engine.Prelude.{
  ℕ, ◌≡◌, refl, ◌⊎◌, inl, Bool, false, ◌||◌, Option, none, some, List, [], ◌∷◌, Bytes, bytes_eq,
  if◌then◌else◌,
}
use state_engine.Libs.SliceLib.{zip}

pub record Store (V : Type 0) : Type 1 where
  pub State : Type 0
  pub get : State → Bytes → Option V
  pub delete_batch : List Bytes → State → State
  -- The errors, `none` for nil, and the store.
  pub set_batch : List Bytes → List V → State → List (Option ℕ) × State

unfoldable pub contains : Bytes → List Bytes → Bool
contains k [] = false
contains k (j ∷ js) = bytes_eq j k || contains k js

-- What a sequence of writes leaves at a key: the last write decides.
unfoldable pub last_write : {V : Type 0} → Bytes → List (Bytes × V) → Option V → Option V
last_write k [] old = old
last_write k ((j, v) ∷ ws) old = last_write k ws (if bytes_eq j k then some v else old)

pub record StoreLaws {V : Type 0} (s : Store V) : Type 0 where
  pub get-delete_batch :
      (ks : List Bytes) (st : s.State) (k : Bytes)
      → s.get (s.delete_batch ks st) k ≡ (if contains k ks then none else s.get st k)
  pub get-set_batch :
      (ks : List Bytes) (vs : List V) (st : s.State) (k : Bytes)
      → s.get (s.set_batch ks vs st).1 k ≡ last_write k (zip ks vs) (s.get st k)

-- A store as a function.
abbrev pub plain_store : (V : Type 0) → Store V
plain_store V = record {
  State = Bytes → Option V;
  get = λ st k. st k;
  delete_batch = λ ks st k. if contains k ks then none else st k;
  set_batch = λ ks vs st. ([], λ k. last_write k (zip ks vs) (st k));
}

pub plain_store-laws : (V : Type 0) → StoreLaws (plain_store V)
plain_store-laws V = record {
  get-delete_batch = λ ks st k. refl;
  get-set_batch = λ ks vs st k. refl;
}

-- `common-lib/storage/cache`: a store in memory that may drop entries to stay within its capacity.
pub record Cache (V : Type 0) : Type 1 where
  pub State : Type 0
  pub get : State → Bytes → Option V
  pub delete_batch : List Bytes → State → State
  pub set_batch : List Bytes → List V → State → State
  pub evict : State → State

pub record CacheLaws {V : Type 0} (s : Cache V) : Type 0 where
  pub get-delete_batch :
      (ks : List Bytes) (st : s.State) (k : Bytes)
      → s.get (s.delete_batch ks st) k ≡ (if contains k ks then none else s.get st k)
  pub get-set_batch :
      (ks : List Bytes) (vs : List V) (st : s.State) (k : Bytes)
      → s.get (s.set_batch ks vs st) k ≡ last_write k (zip ks vs) (s.get st k)
  pub get-evict :
      (st : s.State) (k : Bytes)
      → (s.get (s.evict st) k ≡ s.get st k) ⊎ (s.get (s.evict st) k ≡ none)

-- A cache that keeps everything.
abbrev pub plain_cache : (V : Type 0) → Cache V
plain_cache V = record {
  State = Bytes → Option V;
  get = λ st k. st k;
  delete_batch = λ ks st k. if contains k ks then none else st k;
  set_batch = λ ks vs st k. last_write k (zip ks vs) (st k);
  evict = λ st. st;
}

pub plain_cache-laws : (V : Type 0) → CacheLaws (plain_cache V)
plain_cache-laws V = record {
  get-delete_batch = λ ks st k. refl;
  get-set_batch = λ ks vs st k. refl;
  get-evict = λ st k. inl refl;
}
