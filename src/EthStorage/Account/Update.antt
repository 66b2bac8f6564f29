-- ===== src/EthStorage/Account/Update.antt =====
-- `UpdateAccountStorageTrie` and `ApplyChanges` of storage/ethstorage/eth_account.go. A nil value,
-- which is a deletion, is `none`; a run that panics is `none` as well.
use state_engine.Prelude.{
  ℕ, ◌+◌, Bool, true, false, Option, none, some, List, [], ◌∷◌, Bytes, length, ltb, get_elem?, ◌==◌,
  has_suffix, if◌then◌else◌, ◌>>=◌,
}
use state_engine.Libs.Search.{SearchLib}
use state_engine.Libs.EthLib.{EthLib, first_error}
use state_engine.Libs.Cells.{CellLib, Ref, Heap}
use state_engine.Paths.Constants.{path_nonce, path_balance, path_code}
use state_engine.EthStorage.Backend.{
  StorageError, library, Databases, EthShardTrieDb, shard_from_key, put_shard,
}
use state_engine.EthStorage.Account.{FieldLib, Account, is_account_root, to_storage_key}

-- The key starts as the first has, in the order of `string(v0) < string(v1)`.
unfoldable pub bytes_lt : Bytes → Bytes → Bool
bytes_lt s [] = false
bytes_lt [] (d ∷ t) = true
bytes_lt (c ∷ s) (d ∷ t) =
    let later = bytes_lt s t in if ltb c d then true else if c == d then later else false

-- The two slices that the function shortens.
pub record Batch (V : Type 0) : Type 0 where
  pub keys : List Bytes
  pub vals : List (Option V)

-- `typedVals[pos].Value()`: an index out of range and a nil value are panics.
unfoldable pub value_at : {V : Type 0} → ℕ → Batch V → Option V
value_at pos b = get_elem? b.vals pos >>= λ v. v

module _ {V : Type 0} (encode : Bytes → V → Bytes) where
  -- Each value is encoded with the key at its index; a nil value is empty.
  unfoldable pub encode_vals : List Bytes → List (Option V) → Option (List Bytes)
  encode_vals ks [] = some []
  encode_vals [] (none ∷ vs) = let rest = encode_vals [] vs in rest >>= λ es. some ([] ∷ es)
  encode_vals [] (some v ∷ vs) = none
  encode_vals (k ∷ ks) (none ∷ vs) = let rest = encode_vals ks vs in rest >>= λ es. some ([] ∷ es)
  encode_vals (k ∷ ks) (some v ∷ vs) =
      let rest = encode_vals ks vs in rest >>= λ es. some (encode k v ∷ es)

module _ (l : EthLib) where
  -- `this.ToStorageKey(keys[i])` for every key
  unfoldable pub encode_keys : List Bytes → Option (List Bytes)
  unfolding to_storage_key
  encode_keys [] = some []
  encode_keys (k ∷ ks) =
      let rest = encode_keys ks in to_storage_key l k >>= λ e. rest >>= λ es. some (e ∷ es)

  -- `Root` follows the trie only where no update failed.
  unfoldable pub settled : Option ℕ → l.Trie → Account l → Option StorageError × Account l
  settled (some e) t a = (some (library e), record a { storage_trie = some t })
  settled none t a =
      (none, record a { storage_trie = some t; state = record a.state { root = l.hash t } })

  -- The update with the sorted entries.
  unfoldable pub put_sorted :
      List Bytes × List Bytes → Account l → l.Trie → Option StorageError × Account l
  unfolding settled first_error
  put_sorted sorted a t =
      let (errs, after) = l.parallel_update sorted.0 sorted.1 t in
      settled (first_error errs) after a

module _ (l : EthLib) (s : SearchLib) {V : Type 0} (f : FieldLib V) where
  unfoldable pub remove_pair : ℕ → Batch V → Batch V
  remove_pair pos b = record { keys = s.remove_at pos b.keys; vals = s.remove_at pos b.vals }

  -- The first entry that passes a test: its position, if there is one.
  abbrev pub place : (Bytes → Bool) → Batch V → Option ℕ
  place test b = s.find_first_if test b.keys

  unfoldable pub take_root : Batch V → Batch V
  unfolding remove_pair
  take_root b = elim (place is_account_root b) [ none ↦ b | some pos ↦ remove_pair pos b ]

  unfoldable pub take_nonce : Account l → Batch V → Option (Account l × Batch V)
  unfolding remove_pair value_at has_suffix
  take_nonce a b = elim (place (λ k. has_suffix k path_nonce) b) [
    | none ↦ some (a, b)
    | some pos ↦ value_at pos b >>= λ v. f.as_uint64 v >>= λ n.
        some (record a { state = record a.state { nonce = n } }, remove_pair pos b)
  ]

  unfoldable pub take_balance : Account l → Batch V → Option (Account l × Batch V)
  unfolding remove_pair value_at has_suffix
  take_balance a b = elim (place (λ k. has_suffix k path_balance) b) [
    | none ↦ some (a, b)
    | some pos ↦ value_at pos b >>= λ v. f.as_u256 v >>= λ n.
        some (record a { state = record a.state { balance = n } }, remove_pair pos b)
  ]

  -- The code is written to the disk at once. `some` of an error ends the update.
  unfoldable pub put_code :
      Bytes
      → ℕ
      → Account l
      → Batch V
      → Databases l
      → EthShardTrieDb
      → Option (Option ℕ × Account l × Batch V × Databases l)
  unfolding remove_pair shard_from_key put_shard
  put_code code pos a b dbs backend = get_elem? b.keys pos >>= λ key.
      shard_from_key key backend >>= λ shard.
      (let hash = l.keccak code in
        let (e, dbs) = put_shard l shard hash code dbs in
        some (
          e,
          record a { code = some code; state = record a.state { code_hash = hash } },
          remove_pair pos b,
          dbs,
        ))

  unfoldable pub take_code :
      Account l → Batch V → Databases l → Option (Option ℕ × Account l × Batch V × Databases l)
  unfolding put_code value_at has_suffix
  take_code a b dbs = elim (place (λ k. has_suffix k path_code) b) [
    | none ↦ some (none, a, b, dbs)
    | some pos ↦
        value_at pos b >>= λ v. f.as_bytes v >>= λ code. a.backend >>= put_code code pos a b dbs
  ]

  module _ (encode : Bytes → V → Bytes) where
    -- The encoded entries, sorted and written to the storage trie.
    unfoldable pub write_trie : Account l → Batch V → Option (Option StorageError × Account l)
    unfolding encode_keys encode_vals put_sorted bytes_lt
    write_trie a b = encode_keys l b.keys >>= λ ks. encode_vals encode b.keys b.vals >>= λ vs.
        a.storage_trie >>= λ t. some (put_sorted l (s.sort_by_1st bytes_lt ks vs) a t)

    unfoldable pub after_code :
        Option ℕ × Account l × Batch V × Databases l
        → Option (Option StorageError × Account l × Databases l)
    unfolding write_trie
    after_code (some e, a, b, dbs) = some (some (library e), a, dbs)
    after_code (none, a, b, dbs) =
        write_trie (record a { trie_dirty = ltb 0 (length b.keys) }) b >>= λ done.
        some (done.0, done.1, dbs)

    unfoldable pub update_account_storage_trie :
        Account l → Batch V → Databases l → Option (Option StorageError × Account l × Databases l)
    unfolding take_root take_nonce take_balance take_code after_code
    update_account_storage_trie a b dbs = take_nonce a (take_root b) >>= λ nonced.
        take_balance nonced.0 nonced.1 >>= λ balanced.
        take_code balanced.0 balanced.1 dbs >>= after_code

    module _ (c : CellLib V) (getter : List Ref → Bytes × Option V) (h : Heap c) where
      -- `keys[i] = *vals[i].GetPath()`: the path of the i-th transition of the i-th group.
      unfoldable pub keys_from : ℕ → List (List Ref) → Option (List Bytes)
      keys_from i [] = some []
      keys_from i (group ∷ groups) =
          let rest = keys_from (i + 1) groups in
          get_elem? group i >>= λ r.
          c.get_path (h r) >>= λ path. rest >>= λ paths. some (path ∷ paths)

      abbrev values_from : List (List Ref) → List (Option V)
      values_from [] = []
      values_from (group ∷ groups) = (getter group).1 ∷ values_from groups

      -- The slices that the source returns as well are those that the update has shortened.
      unfoldable pub apply_changes :
          Account l
          → List (List Ref)
          → Databases l
          → Option (Option StorageError × Account l × Databases l)
      unfolding keys_from update_account_storage_trie
      apply_changes a transitions dbs = keys_from 0 transitions >>= λ keys.
          update_account_storage_trie a (record { keys = keys; vals = values_from transitions }) dbs
          >>= λ done. some (done.0, record done.1 { error = done.0 }, done.2)
