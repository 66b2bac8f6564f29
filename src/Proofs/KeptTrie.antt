-- ===== src/Proofs/KeptTrie.antt =====
-- A lookup of an account leaves the world trie as it is.
use state_engine.Prelude.{◌≡◌, refl, Option, none, some, List, [], ◌∷◌, Bytes, ◌>>=◌, map_get, ℕ}
use state_engine.Libs.EthLib.{Result, StateAccount, ok, err}
use state_engine.EthStorage.Backend.{StorageError}
use state_engine.EthStorage.World.{
  EthEnv, World, Ref, get_account, looked_up, decoded_account, from_trie, loaded_from,
  loaded_account,
}

module _ {V : Type 0} (e : EthEnv V) where
  -- A lookup that ends leaves the world trie as it is.
  abbrev pub KeepsTrie : World e → Option (Option Ref × Option StorageError × World e) → Type 0
  KeepsTrie w none = Unit
  KeepsTrie w (some found) = found.2.world_state_trie ≡ w.world_state_trie

  loaded_from-KeepsTrie :
      (address : Bytes) (state : StateAccount) (t : e.lib.Trie) (w : World e) (shards : List ℕ)
      → KeepsTrie w (loaded_from e address state t w shards)
  loaded_from-KeepsTrie address state t w [] = tt
  loaded_from-KeepsTrie address state t w (shard ∷ shards) = unfold loaded_account in refl

  from_trie-KeepsTrie :
      (address : Bytes) (state : StateAccount) (opened : Result e.lib.Trie) (w : World e)
      → KeepsTrie w (from_trie e address state opened w)
  unfolding from_trie
  from_trie-KeepsTrie address state (err x) w = refl
  from_trie-KeepsTrie address state (ok t) w =
      loaded_from-KeepsTrie address state t w w.trie_db.disk_shards

  decoded_account-KeepsTrie :
      (address : Bytes) (decoded : Result StateAccount) (w : World e)
      → KeepsTrie w (decoded_account e address decoded w)
  unfolding decoded_account
  decoded_account-KeepsTrie address (err x) w = refl
  decoded_account-KeepsTrie address (ok state) w =
      from_trie-KeepsTrie address state (e.lib.new state.root w.dbs.nodes) w

  looked_up-KeepsTrie :
      (address : Bytes) (read : Bytes × Option ℕ) (w : World e)
      → KeepsTrie w (looked_up e address read w)
  unfolding looked_up
  looked_up-KeepsTrie address ([], none) w = refl
  looked_up-KeepsTrie address ([], some x) w = refl
  looked_up-KeepsTrie address (c ∷ buffer, some x) w = refl
  looked_up-KeepsTrie address (c ∷ buffer, none) w =
      decoded_account-KeepsTrie address (e.lib.decode_account (c ∷ buffer)) w

  pub get_account-KeepsTrie :
      (address : Bytes) (w : World e) → KeepsTrie w (get_account e address w)
  unfolding get_account
  get_account-KeepsTrie address w = found (map_get address w.account_cache) w.world_state_trie
    where
      found :
          (cached : Option Ref) (trie : Option e.lib.Trie)
          → KeepsTrie w (elim cached [
            | some r ↦ some (some r, none, w)
            | none ↦ trie >>= λ t. looked_up e address (e.lib.get t (e.lib.keccak address)) w
          ])
      found (some r) trie = refl
      found none none = tt
      found none (some t) = looked_up-KeepsTrie address (e.lib.get t (e.lib.keccak address)) w
