-- ===== src/EthStorage/World/Keys.antt =====
-- The keys of an account's storage, and the reads of one account under them.
use state_engine.Prelude.{
  ℕ, ◌-◌, ◌<◌, ◌≡◌, refl, sym, ap, ◌∙◌, Bool, true, false, Option, none, some, [], ◌∷◌, Bytes,
  length, ltb, ◌==◌, take, drop, length-take, length-drop, ◌>>=◌, arith,
}
use state_engine.Paths.Account.{parse_account_addr}
use state_engine.EthStorage.Backend.{Databases}
use state_engine.EthStorage.Account
use state_engine.EthStorage.Account.{
  Account, Got, new_account, with_trie, load_trie, crdt, raw, nothing, to_storage_key, trie_get,
  stored_value,
}
use state_engine.EthStorage.Account.Written.{IsStorage}
use state_engine.EthStorage.World.{EthEnv}

-- `Get` found a value.
abbrev pub is_found : {V : Type 0} → Got V → Bool
is_found (crdt v) = true
is_found (raw v x) = true
is_found (nothing x) = false

long-key : (k : Bytes) → 64 < length k → ltb (length k) 64 ≡ false
long-key k h = ground arith

pub parsed-key : (k : Bytes) → 64 < length k → (length (parse_account_addr k).1 == 0) ≡ false
unfolding parse_account_addr
parsed-key k h =
    let size : length (take 42 (drop 22 k)) ≡ 42 =
      omega (arith, length-take 42 (drop 22 k), length-drop 22 k) in
    rw (parse_account_addr, long-key k h, size) refl

left-over : (n m : ℕ) → n ≡ m - 64 → 64 < m → (n == 0) ≡ false
left-over n m e h = ground arith

pub parsed-suffix : (k : Bytes) → 64 < length k → (length (parse_account_addr k).2 == 0) ≡ false
unfolding parse_account_addr
parsed-suffix k h =
    rw (parse_account_addr, long-key k h)
      (left-over (length (drop 64 k)) (length k) (length-drop 64 k) h)

bind-same :
    {A B : Type 0} (o : Option A) (f g : A → Option B)
    → ((x : A) → f x ≡ g x)
    → (o >>= f) ≡ (o >>= g)
bind-same none f g h = refl
bind-same (some x) f g h = h x

pub found-store :
    {V A B : Type 0} (o : Option (Got V × A)) (f : A → B)
    → (◌>>=◌ {A = Got V × B} (o >>= λ got. some (got.0, f got.1)) (λ got. some (is_found got.0)))
      ≡ (o >>= λ got. some (is_found got.0))
found-store none f = refl
found-store (some got) f = refl

module _ {V : Type 0} (e : EthEnv V) where
  abbrev pub found : {A : Type 0} → Option (Got V × A) → Option Bool
  found r = r >>= λ got. some (is_found got.0)

  stored-found :
      {A : Type 0} (a : A) (o : Option (Bytes × Option ℕ))
      → (o >>= λ x. some (ltb 0 (length x.0)))
        ≡ found (o >>= λ x. some (stored_value e.lib e.fields x, a))
  stored-found a none = refl
  stored-found a (some ([], x)) = refl
  stored-found a (some (c ∷ v, x)) = ap some (ground arith)

  keyed-found :
      (a : Account e.lib) (o : Option Bytes)
      → (o >>= λ key. trie_get e.lib key a >>= λ x. some (ltb 0 (length x.0)))
        ≡ found (o >>= λ key. trie_get e.lib key a >>= λ x. some (stored_value e.lib e.fields x, a))
  keyed-found a none = refl
  keyed-found a (some key) = stored-found a (trie_get e.lib key a)

  -- `Has` of an account is what the trie has at a storage key.
  abbrev reads : Bytes → Account e.lib → Option Bool
  reads k a =
      to_storage_key e.lib k >>= λ key. trie_get e.lib key a >>= λ x. some (ltb 0 (length x.0))

  has-storage : (k : Bytes) (a : Account e.lib) → IsStorage k → Account.has e.lib k a ≡ reads k a
  unfolding Account.has
  has-storage k a (root, nonce, balance, code) = rw (Account.has, root, nonce, balance, code) refl

  -- A storage key of an account, in one account.
  pub has-get_account :
      (k : Bytes) (dbs : Databases e.lib) (a : Account e.lib)
      → IsStorage k
      → Account.has e.lib k a ≡ found (Account.get e.lib e.fields k dbs a)
  unfolding Account.get
  has-get_account k dbs a (root, nonce, balance, code) =
      has-storage k a (root, nonce, balance, code)
      ∙ keyed-found a (to_storage_key e.lib k)
      ∙ (rw (Account.get, balance, nonce, code) refl)

  -- Two accounts whose tries read alike.
  pub has-alike :
      (k : Bytes) (a b : Account e.lib) (t u : e.lib.Trie)
      → IsStorage k
      → a.storage_trie ≡ some t
      → b.storage_trie ≡ some u
      → ((j : Bytes) → e.lib.get t j ≡ e.lib.get u j)
      → Account.has e.lib k a ≡ Account.has e.lib k b
  unfolding trie_get
  has-alike k a b t u storage is_t is_u alike =
      let same : (key : Bytes) → trie_get e.lib key a ≡ trie_get e.lib key b = λ key.
        ap (λ o. elim o [ none ↦ none | some t ↦ some (e.lib.get t key) ]) is_t
        ∙ ap some (alike key)
        ∙ sym (ap (λ o. elim o [ none ↦ none | some t ↦ some (e.lib.get t key) ]) is_u) in
      has-storage k a storage
      ∙ bind-same (to_storage_key e.lib k)
          (λ key. trie_get e.lib key a >>= λ x. some (ltb 0 (length x.0)))
          (λ key. trie_get e.lib key b >>= λ x. some (ltb 0 (length x.0)))
          (λ key. ap (λ o. o >>= λ x. some (ltb 0 (length x.0))) (same key))
      ∙ sym (has-storage k b storage)
