-- ===== src/EthStorage/Account/Fields.antt =====
-- The steps of an account's update that take its own fields out of the batch.
use state_engine.Prelude.{
  ℕ, ◌≡◌, ◌⊎◌, inl, inr, refl, ap, subst, ◌∙◌, Bool, true, false, Option, none, some, Bytes,
  has_suffix, ◌>>=◌,
}
use state_engine.Libs.Search.{SearchLib, SearchLaws, Member}
use state_engine.Libs.EthLib.{EthLib}
use state_engine.Paths.Constants.{path_nonce, path_balance, path_code}
use state_engine.EthStorage.Backend.{Databases, EthShardTrieDb, shard_from_key, put_shard}
use state_engine.EthStorage.Account.{FieldLib, Account, is_account_root}
use state_engine.EthStorage.Account.Update.{
  Batch, value_at, remove_pair, take_root, take_nonce, take_balance, put_code, take_code,
}
use state_engine.EthStorage.Account.Batches.{Entry, entries, IsAligned, Taken, stage, untouched}

abbrev pub is_nonce : Bytes → Bool
is_nonce k = has_suffix k path_nonce

abbrev pub is_balance : Bytes → Bool
is_balance k = has_suffix k path_balance

abbrev pub is_code : Bytes → Bool
is_code k = has_suffix k path_code

-- The entries that a test selects have a value, and it can be read.
abbrev pub AllReadable : {V A : Type 0} → (Bytes → Bool) → (V → Option A) → Batch V → Type 0
AllReadable {V} {A} p read b =
    (e : Entry V)
    → Member e (entries b)
    → p e.0 ≡ true
    → (v : V) × (x : A) × (e.1 ≡ some v) × (read v ≡ some x)

-- A field after the update: that of an entry that the test selects, or the old one where there is no
-- such entry.
abbrev pub FieldOf : {V A : Type 0} → (Bytes → Bool) → (V → Option A) → Batch V → A → A → Type 0
FieldOf {V} {A} p read b old new =
    ((new ≡ old) × ((e : Entry V) → Member e (entries b) → p e.0 ≡ false))
    ⊎ ((k : Bytes) × (v : V) × Member (k, some v) (entries b) × (p k ≡ true) × (read v ≡ some new))

module _ (l : EthLib) (s : SearchLib) (sl : SearchLaws s) {V : Type 0} (f : FieldLib V) where
  pub take_root_lem : (b : Batch V) → IsAligned b → Taken is_account_root b (take_root l s f b)
  unfolding take_root
  take_root_lem b h = elim (stage s sl is_account_root b h) [
    | inl (missing, fails) ↦ rw (take_root, missing) (untouched s sl is_account_root b h)
    | inr (pos, k, v, at, key, val, passes, member, taken) ↦
        rw (take_root, at) (taken (remove_pair l s f pos b) refl refl)
  ]

  pub take_nonce_lem :
      (a : Account l) (b : Batch V)
      → IsAligned b
      → AllReadable is_nonce f.as_uint64 b
      → (n : ℕ) × (c : Batch V) × (take_nonce l s f a b
          ≡ some (record a { state = record a.state { nonce = n } }, c))
        × Taken is_nonce b c
        × FieldOf is_nonce f.as_uint64 b a.state.nonce n
  unfolding take_nonce value_at remove_pair
  take_nonce_lem a b h readable = elim (stage s sl is_nonce b h) [
    | inl (missing, fails) ↦ (
      a.state.nonce,
      b,
      rw (take_nonce, missing) refl,
      untouched s sl is_nonce b h,
      inl (refl, fails),
    )
    | inr (pos, k, v, at, key, val, passes, member, taken) ↦
        let (x, n, is_v, reads) = readable (k, v) member passes in
        (
          n,
          remove_pair l s f pos b,
          rw (take_nonce, at, value_at, val, is_v, reads) refl,
          taken (remove_pair l s f pos b) refl refl,
          inr (k, x, subst (λ w. Member (k, w) (entries b)) is_v member, passes, reads),
        )
  ]

  pub take_balance_lem :
      (a : Account l) (b : Batch V)
      → IsAligned b
      → AllReadable is_balance f.as_u256 b
      → (n : ℕ) × (c : Batch V) × (take_balance l s f a b
          ≡ some (record a { state = record a.state { balance = n } }, c))
        × Taken is_balance b c
        × FieldOf is_balance f.as_u256 b a.state.balance n
  unfolding take_balance value_at remove_pair
  take_balance_lem a b h readable = elim (stage s sl is_balance b h) [
    | inl (missing, fails) ↦ (
      a.state.balance,
      b,
      rw (take_balance, missing) refl,
      untouched s sl is_balance b h,
      inl (refl, fails),
    )
    | inr (pos, k, v, at, key, val, passes, member, taken) ↦
        let (x, n, is_v, reads) = readable (k, v) member passes in
        (
          n,
          remove_pair l s f pos b,
          rw (take_balance, at, value_at, val, is_v, reads) refl,
          taken (remove_pair l s f pos b) refl refl,
          inr (k, x, subst (λ w. Member (k, w) (entries b)) is_v member, passes, reads),
        )
  ]

  -- The code of the account and its hash: those of an entry, or the old ones.
  abbrev pub CodeOf : Batch V → Account l → Option Bytes → Bytes → Type 0
  CodeOf b a code code_hash =
      ((code ≡ a.code)
        × (code_hash ≡ a.state.code_hash)
        × ((e : Entry V) → Member e (entries b) → is_code e.0 ≡ false))
      ⊎ ((k : Bytes) × (v : V) × (raw : Bytes) × Member (k, some v) (entries b)
          × (is_code k ≡ true)
          × (f.as_bytes v ≡ some raw)
          × (code ≡ some raw)
          × (code_hash ≡ l.keccak raw))

  abbrev pub AllSharded : Batch V → EthShardTrieDb → Type 0
  AllSharded b backend =
      (e : Entry V) → Member e (entries b) → (shard : ℕ) × (shard_from_key e.0 backend ≡ some shard)

  pub take_code_lem :
      (a : Account l) (b : Batch V) (dbs : Databases l) (backend : EthShardTrieDb)
      → IsAligned b
      → AllReadable is_code f.as_bytes b
      → a.backend ≡ some backend
      → AllSharded b backend
      → (err : Option ℕ) × (code : Option Bytes) × (code_hash : Bytes) × (c : Batch V)
        × (after : Databases l) × (take_code l s f a b dbs
            ≡ some (
              err,
              record a { code = code; state = record a.state { code_hash = code_hash } },
              c,
              after,
            ))
        × Taken is_code b c
        × CodeOf b a code code_hash
  unfolding take_code value_at
  take_code_lem a b dbs backend h readable has_backend sharded = elim (stage s sl is_code b h) [
    | inl (missing, fails) ↦ (
      none,
      a.code,
      a.state.code_hash,
      b,
      dbs,
      rw (take_code, missing) refl,
      untouched s sl is_code b h,
      inl (refl, refl, fails),
    )
    | inr (pos, k, v, at, key, val, passes, member, taken) ↦
        let (x, raw, is_v, reads) = readable (k, v) member passes in
        let (shard, is_shard) = sharded (k, v) member in
        let opened : take_code l s f a b dbs ≡ (a.backend >>= put_code l s f raw pos a b dbs) =
          rw (take_code, at, value_at, val, is_v, reads) refl in
        let (e, after) = put_shard l shard (l.keccak raw) raw dbs in
        let put : put_code l s f raw pos a b dbs backend
            ≡ some (
              e,
              record a { code = some raw; state = record a.state { code_hash = l.keccak raw } },
              remove_pair l s f pos b,
              after,
            ) =
          rw (put_code, key, is_shard) refl in
        (
          e,
          some raw,
          l.keccak raw,
          remove_pair l s f pos b,
          after,
          opened ∙ ap (λ o. o >>= put_code l s f raw pos a b dbs) has_backend ∙ put,
          taken (remove_pair l s f pos b) refl refl,
          inr (
            k,
            x,
            raw,
            subst (λ w. Member (k, w) (entries b)) is_v member,
            passes,
            reads,
            refl,
            refl,
          ),
        )
  ]
