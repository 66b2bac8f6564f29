-- ===== src/Tests/Accounts.antt =====
-- The theorems on the committer and on the built-in paths of an account, at small examples.
use state_engine.Prelude.{
  ℕ, ◌≡◌, refl, Bool, false, not, ◌==◌, none, some, List, [], ◌∷◌, Bytes, codes, if◌then◌else◌,
}
use state_engine.Libs.SliceLib.{plain_slices, plain_slices-laws}
use state_engine.Libs.Cells.{plain_cells, plain_cells-laws, Heap}
use state_engine.Committer.{
  IndexLib, Env, StateCommitter, new_state_committer, whitelist, debug_commit,
}
use state_engine.Committer.Whitelist.{excluded, get_path-whitelist}
use state_engine.Committer.Dispatch.{AreCommitted, debug_commit-once}

abbrev index : (K H : Type 0) → IndexLib K H
index K H = record {
  Index = List (K × List ℕ);
  new = [];
  import = λ key start add rs h ix. some (ix, h);
  groups = λ ix. ix;
}

-- A writer is its kind and the number of the block that it last committed.
abbrev env : Env ℕ
env = record {
  delta = record {
    cells = plain_cells ℕ;
    slices = plain_slices;
    apply_delta = λ r rs h. (none, h);
  };
  preload = λ path r h. h;
  paths = index Bytes (Heap (plain_cells ℕ));
  txs = index ℕ (Heap (plain_cells ℕ));
  lib = record {
    Writer = Bool × ℕ;
    import = λ rs h w. (w, h);
    precommit = λ sync h w. some w;
    commit = λ block_num h w. some (w.0, block_num);
    is_sync = λ w. w.0;
    is_eth_storage = λ w. false;
    is_execution_cache = λ w. false;
  };
}

abbrev heap : Heap env.delta.cells
heap r = record { path = some (codes "k"); content = some r; tx = r; bound = false; skip = false }

abbrev by_tx : List (ℕ × List ℕ)
by_tx = (3, 0 ∷ 1 ∷ []) ∷ (4, 2 ∷ []) ∷ []

get_path-whitelist_example : env.delta.cells.get_path (whitelist env (4 ∷ []) by_tx heap 1) ≡ (
    if excluded env (plain_cells-laws ℕ) (4 ∷ []) by_tx 1
    then none
    else env.delta.cells.get_path (heap 1))
get_path-whitelist_example = get_path-whitelist env (plain_cells-laws ℕ) 4 [] by_tx heap 1

-- Writers 0 and 2 are synchronous, and 2 has committed before.
abbrev writers : ℕ → Bool × ℕ
writers q = (not (q == 1), if q == 2 then 1 else 0)

abbrev committer : StateCommitter env
committer = new_state_committer env (0 ∷ 1 ∷ 2 ∷ []) writers

debug_commit-once_example :
    (s' : ℕ → Bool × ℕ) × (debug_commit env 9 heap committer
      ≡ some (record committer { writer_at = s' }))
    × AreCommitted env (env.lib.commit 9 heap) (0 ∷ 1 ∷ 2 ∷ []) writers s'
debug_commit-once_example =
    debug_commit-once env plain_slices-laws (0 ∷ 1 ∷ 2 ∷ []) writers 9 heap committer
      (refl, (refl, (refl, tt))) refl refl (λ q h. (((writers q).0, 9), refl))
