-- ===== src/Tests/Blocks.antt =====
-- The theorems on whole blocks, with stores that are functions and an index that is its groups.
use state_engine.Prelude.{
  ℕ, zero, suc, subst, ◌≡◌, ◌≢◌, refl, true, false, none, some, List, [], ◌∷◌, ◌++◌, Bytes, codes,
  bytes_eq, ◌==◌, if◌then◌else◌, arith,
}
use state_engine.Libs.SliceLib.{plain_slices, plain_slices-laws}
use state_engine.Libs.Cells.{plain_cells, plain_cells-laws, Heap}
use state_engine.Libs.Stores.{plain_store, plain_store-laws, plain_cache, plain_cache-laws}
use state_engine.LiveStorage
use state_engine.LiveStorage.{LiveStorageWriter, new_live_storage_writer, select, importable}
use state_engine.LiveStorage.Writes.{is_set, is_deleted}
use state_engine.LiveStorage.Pipeline.{entries, taken}
use state_engine.LiveStorage.Block.{
  Generation, run_block, run_chain, IsIdle, chain_replay, run_chain-replay, run_block-reaches,
}
use state_engine.LiveStorage.Only.{encoded}
use state_engine.LiveCache.{LiveCacheWriter, new_live_cache_writer}
use state_engine.LiveCache.Agree.{Agrees}
use state_engine.LiveCache.Twins.{Setting, Twin, cache_env, store_env, run_cache, stored}
use state_engine.LiveCache.Coherent.{run_cache-Agrees}
use state_engine.Committer.{IndexLib, Env, StateCommitter, finalize_groups, finalize}
use state_engine.Delta.Merge.{holds}
use state_engine.Committer.Merged.{held, AreDisjoint, AllMerged, finalize_groups-AllMerged}
use state_engine.Committer.Stored.{group_at, live_env, finalize-stored}

abbrev k : Bytes
k = codes "k"

abbrev j : Bytes
j = codes "j"

-- Transition 0 deletes `j`, 1 sets it, and the others set `k`.
abbrev heap : Heap (plain_cells ℕ)
heap r = record {
  path = if r == 0 then some j else if r == 1 then some j else some k;
  content = if r == 0 then none else some r;
  tx = r;
  bound = false;
  skip = false;
}

abbrev index : (K H : Type 0) → IndexLib K H
index K H = record {
  Index = List (K × List ℕ);
  new = [];
  import = λ key start add rs h ix. some (ix, h);
  groups = λ ix. ix;
}

abbrev env : Env ℕ
env = record {
  delta = record {
    cells = plain_cells ℕ;
    slices = plain_slices;
    apply_delta = λ r rs h. (none, h);
  };
  preload = λ path r h. h;
  paths = index Bytes (Heap (plain_cells ℕ));
  txs = index ℕ (Heap (plain_cells ℕ));
  lib = record {
    Writer = ℕ;
    import = λ rs h w. (w, h);
    precommit = λ sync h w. some w;
    commit = λ block_num h w. some block_num;
    is_sync = λ w. true;
    is_eth_storage = λ w. false;
    is_execution_cache = λ w. false;
  };
}

abbrev live : LiveStorage.Env ℕ ℕ
live = live_env env (λ key v. (key, v, none)) (λ r h. (true, h)) (plain_store ℕ)

abbrev idle : LiveStorageWriter live
idle = new_live_storage_writer live (λ x. none)

abbrev batch : List ℕ → Generation live.cells
batch rs = record { trans = rs; imported = heap; finalized = heap }

-- The first block sets both keys, the second one deletes one of them.
abbrev blocks : List (List (Generation live.cells))
blocks = (batch (1 ∷ []) ∷ batch (2 ∷ 3 ∷ []) ∷ []) ∷ (batch (0 ∷ []) ∷ []) ∷ []

run_chain-replay_example :
    (w' : LiveStorageWriter live) × (run_chain live blocks idle ≡ some w')
    × IsIdle live w'
    × ((x : Bytes) → live.store.get w'.store x ≡ chain_replay live x blocks none)
unfolding is_set is_deleted entries taken select importable
run_chain-replay_example =
    run_chain-replay live plain_slices-laws (plain_store-laws ℕ) blocks idle (refl, refl)
      (λ x. ground arith, (λ x. ground arith, tt))

run_block-reaches_example :
    (w' : LiveStorageWriter live) × (run_block live
        ((batch (2 ∷ []) ∷ []) ++ batch (0 ∷ 1 ∷ 3 ∷ []) ∷ batch (0 ∷ []) ∷ [])
        idle
      ≡ some w')
    × (live.store.get w'.store j ≡ some 1)
unfolding is_set entries taken select importable bytes_eq
run_block-reaches_example =
    run_block-reaches live plain_slices-laws (plain_store-laws ℕ) (batch (2 ∷ []) ∷ [])
      (batch (0 ∷ []) ∷ []) (batch (0 ∷ 1 ∷ 3 ∷ [])) idle (0 ∷ []) (3 ∷ []) 1 j 1 (refl, refl) refl
      refl refl refl

abbrev groups : List (Bytes × List ℕ)
groups = (j, 0 ∷ 1 ∷ []) ∷ (k, 3 ∷ 2 ∷ []) ∷ []

apart : (q : ℕ) → holds q (0 ∷ 1 ∷ []) ≡ true → held q ((k, 3 ∷ 2 ∷ []) ∷ []) ≡ false
apart zero h = refl
apart (suc zero) h = refl
apart (suc (suc q)) h = ground arith

groups-AreDisjoint : AreDisjoint groups
groups-AreDisjoint = ((refl, (refl, tt)), apart, ((refl, (refl, tt)), (λ q h. refl), tt))

path-eq : {x y : Bytes} → some x ≡ some y → x ≡ y
path-eq h = cc

indexed :
    (q : ℕ) (x : Bytes)
    → holds q (0 ∷ 1 ∷ 2 ∷ 3 ∷ []) ≡ true
    → (heap q).path ≡ some x
    → holds q (group_at x groups) ≡ true
unfolding bytes_eq
indexed zero x h path = subst (λ y. holds 0 (group_at y groups) ≡ true) (path-eq path) refl
indexed (suc zero) x h path = subst (λ y. holds 1 (group_at y groups) ≡ true) (path-eq path) refl
indexed (suc (suc zero)) x h path =
    subst (λ y. holds 2 (group_at y groups) ≡ true) (path-eq path) refl
indexed (suc (suc (suc zero))) x h path =
    subst (λ y. holds 3 (group_at y groups) ≡ true) (path-eq path) refl
indexed (suc (suc (suc (suc q)))) x h path = ground arith

finalize_groups-AllMerged_example :
    (h' : Heap (plain_cells ℕ)) × (finalize_groups env groups heap ≡ some h')
    × AllMerged env heap h' groups
finalize_groups-AllMerged_example =
    finalize_groups-AllMerged env (plain_cells-laws ℕ) plain_slices-laws (λ r rs h q. refl)
      (λ r rs h. refl) groups heap groups-AreDisjoint

abbrev committer : StateCommitter env
committer = record {
  writers = [];
  sync_writers = [];
  async_writers = [];
  writer_at = λ q. 0;
  by_path = groups;
  by_tx_id = (0, 0 ∷ []) ∷ (1, 1 ∷ []) ∷ (2, 2 ∷ []) ∷ (3, 3 ∷ []) ∷ [];
}

finalize-stored_example :
    (h' : Heap (plain_cells ℕ)) × (w' : LiveStorageWriter live) × (finalize env
        (1 ∷ 2 ∷ 3 ∷ [])
        heap
        committer
      ≡ some (record committer { by_path = []; by_tx_id = [] }, h'))
    × (run_block live
          (record { trans = 0 ∷ 1 ∷ 2 ∷ 3 ∷ []; imported = heap; finalized = h' } ∷ [])
          idle
        ≡ some w')
    × ((r : ℕ) (x : Bytes)
        → holds r (taken live (0 ∷ 1 ∷ 2 ∷ 3 ∷ []) heap) ≡ true
        → (h' r).path ≡ some x
        → live.store.get w'.store x ≡ encoded live x (h' r).content)
    × ((x : Bytes)
        → ((r : ℕ) → holds r (taken live (0 ∷ 1 ∷ 2 ∷ 3 ∷ []) heap) ≡ true → (h' r).path ≢ some x)
        → live.store.get w'.store x ≡ none)
unfolding taken select importable bytes_eq
finalize-stored_example =
    finalize-stored env (λ key v. (key, v, none)) (λ r h. (true, h)) (plain_store ℕ)
      (plain_cells-laws ℕ) plain_slices-laws (plain_store-laws ℕ) (λ r rs h q. refl)
      (λ r rs h. refl) (1 ∷ 2 ∷ 3 ∷ []) committer (0 ∷ 1 ∷ 2 ∷ 3 ∷ []) heap heap idle
      groups-AreDisjoint indexed (refl, refl)

abbrev setting : Setting ℕ ℕ
setting = record {
  slices = plain_slices;
  cells = plain_cells ℕ;
  convert = λ key v. (key, v, none);
  filter = λ r h. (true, h);
  store = plain_store ℕ;
  cache = plain_cache ℕ;
}

abbrev cached_only : LiveCacheWriter (cache_env setting)
cached_only = new_live_cache_writer (cache_env setting) (λ x. none)

abbrev stored_only : LiveStorageWriter (store_env setting)
stored_only = new_live_storage_writer (store_env setting) (λ x. some 7)

abbrev twin : List ℕ → Twin setting.cells
twin rs = record { trans = rs; cached_at = heap; stored_at = heap; finalized = heap }

run_cache-Agrees_example :
    (cw' : LiveCacheWriter (cache_env setting)) × (sw' : LiveStorageWriter (store_env setting))
    × (run_cache setting heap (twin (1 ∷ []) ∷ twin (0 ∷ 3 ∷ []) ∷ []) cached_only ≡ some cw')
    × (run_block
          (store_env setting)
          (stored setting (twin (1 ∷ []) ∷ twin (0 ∷ 3 ∷ []) ∷ []))
          stored_only
        ≡ some sw')
    × ((x : Bytes)
        → Agrees setting.convert x (setting.cache.get cw'.cache x) (setting.store.get sw'.store x))
unfolding taken select importable
run_cache-Agrees_example =
    run_cache-Agrees setting plain_slices-laws (plain_store-laws ℕ) (plain_cache-laws ℕ) heap
      (twin (1 ∷ []) ∷ twin (0 ∷ 3 ∷ []) ∷ []) cached_only stored_only refl refl (refl, refl)
      (refl, (refl, tt), (refl, (refl, (refl, tt)), tt)) (λ x. tt)
