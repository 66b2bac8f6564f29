-- ===== src/Committer/Stored.antt =====
-- The committer and the writer of the live storage together, on a block of one generation: what the
-- store reads at the end.
use state_engine.Prelude.{
  ◌≡◌, refl, sym, ap, ◌∙◌, ◌≢◌, ℕ, Bool, true, false, Option, none, some, List, [], ◌∷◌, append-nil,
  Bytes, bytes_eq, is_none, if◌then◌else◌, Bool-cases, inl, inr,
}
use state_engine.Libs.SliceLib.{SliceLaws}
use state_engine.Libs.Cells.{CellLaws, Ref, Filter}
use state_engine.Libs.Stores.{Store, StoreLaws}
use state_engine.Delta.Merge.{holds, KeepsPaths}
use state_engine.LiveStorage
use state_engine.LiveStorage.{LiveStorageWriter}
use state_engine.LiveStorage.Pipeline.{entries, taken}
use state_engine.LiveStorage.Writes.{settle}
use state_engine.LiveStorage.Block.{run_block, IsIdle, run_block-settle}
use state_engine.LiveStorage.Only.{encoded, settle-only, settle-no_one}
use state_engine.Committer.{Env, StateCommitter, whitelist, finalize_groups, finalize}
use state_engine.Committer.Whitelist.{excluded, get_path-whitelist}
use state_engine.Committer.Group.{Cells, path_at, NeverFails, AtMostOne}
use state_engine.Committer.Merged.{AreDisjoint, AllMerged, merge_all}

-- The transitions that the index has at a path.
abbrev pub group_at : Bytes → List (Bytes × List Ref) → List Ref
group_at k [] = []
group_at k ((path, rs) ∷ groups) = if bytes_eq path k then rs else group_at k groups

was_at :
    (a b : Option Bytes) (g : Bool) (k : Bytes)
    → a ≡ (if g then none else b)
    → a ≡ some k
    → b ≡ some k
was_at a b true k p h = cc
was_at a b false k p h = sym p ∙ h

module _ {V W : Type 0} (e : Env V) (convert : Bytes → V → Bytes × W × Option ℕ)
    (filter : Filter e.delta.cells) (store : Store W) where
  -- The writer of the live storage, on the cells of the committer.
  abbrev pub live_env : LiveStorage.Env V W
  live_env = record {
    slices = e.delta.slices;
    cells = e.delta.cells;
    forward_convert = convert;
    filter = filter;
    store = store;
  }

  -- Every transition in play stands in the group of its path.
  abbrev pub IsIndexed : List (Bytes × List Ref) → Cells e → List Ref → Type 0
  IsIndexed groups h rs =
      (q : Ref) (k : Bytes)
      → holds q rs ≡ true
      → path_at e h q ≡ some k
      → holds q (group_at k groups) ≡ true

  AtMostOne-group_at :
      (groups : List (Bytes × List Ref)) (h h' : Cells e) (k : Bytes)
      → AllMerged e h h' groups
      → AtMostOne e h' (group_at k groups)
  AtMostOne-group_at [] h h' k m = λ q r hq hr lq lr. cc
  AtMostOne-group_at ((path, rs) ∷ groups) h h' k (one, left, m) =
      elim (Bool-cases (bytes_eq path k)) [
        | inl here ↦ rw here one
        | inr away ↦ rw away (AtMostOne-group_at groups h h' k m)
      ]

  module _ (cl : CellLaws e.delta.cells) (sl : SliceLaws e.delta.slices) (st : StoreLaws store)
      (keeps : KeepsPaths e.delta cl) (never : NeverFails e) where
    before_whitelist :
        (txs : List ℕ) (known : List (ℕ × List Ref)) (h : Cells e) (q : Ref) (k : Bytes)
        → path_at e (whitelist e txs known h) q ≡ some k
        → path_at e h q ≡ some k
    before_whitelist [] known h q k here = unfold whitelist in here
    before_whitelist (t ∷ txs) known h q k here =
        was_at (path_at e (whitelist e (t ∷ txs) known h) q) (path_at e h q)
          (excluded e cl (t ∷ txs) known q) k (get_path-whitelist e cl t txs known h q) here

    merged-settle :
        (groups : List (Bytes × List Ref)) (trans : List Ref) (imported h : Cells e)
        (w : LiveStorageWriter live_env)
        → AreDisjoint groups
        → IsIndexed groups h (taken live_env trans imported)
        → IsIdle live_env w
        → (h' : Cells e) × (w' : LiveStorageWriter live_env) × (finalize_groups e groups h
            ≡ some h')
          × (run_block live_env
                (record { trans = trans; imported = imported; finalized = h' } ∷ [])
                w
              ≡ some w')
          × ((r : Ref) (k : Bytes)
              → holds r (taken live_env trans imported) ≡ true
              → path_at e h' r ≡ some k
              → store.get w'.store k ≡ encoded live_env k (e.delta.cells.value (h' r)))
          × ((k : Bytes)
              → ((r : Ref)
                  → holds r (taken live_env trans imported) ≡ true
                  → path_at e h' r ≢ some k)
              → store.get w'.store k ≡ store.get w.store k)
    merged-settle groups trans imported h w d indexed idle =
        let (h', merged, all, out) = merge_all e cl sl keeps never groups h d in
        let rs = taken live_env trans imported in
        let (w', done, _, reads) =
          run_block-settle live_env sl st
            (record { trans = trans; imported = imported; finalized = h' } ∷ []) w idle in
        let reads' = λ (k : Bytes).
          reads k
          ∙ ap (λ ws. settle k ws (store.get w.store k)) (append-nil (entries live_env h' rs)) in
        let before = λ (q : Ref) (k : Bytes) (here : path_at e h' q ≡ some k).
          was_at (path_at e h' q) (path_at e h q) (out.gone q) k (out.path q) here in
        (
          h',
          w',
          merged,
          done,
          λ r k hr here.
              reads' k
              ∙ settle-only live_env h' k r here rs (store.get w.store k)
                  (λ q hq atq.
                    AtMostOne-group_at groups h h' k all q r (indexed q k hq (before q k atq))
                      (indexed r k hr (before r k here)) (ap is_none atq) (ap is_none here))
                  hr,
          λ k nobody. reads' k ∙ settle-no_one live_env h' k rs (store.get w.store k) nobody,
        )

    -- A block of one generation whose transitions stand in the groups of the index: `Finalize` of the
    -- committer and the writer end without a panic. Then the store has, at the path of every
    -- transition that the import took and that is still in play after `Finalize`, what that
    -- transition says; at a path where none is in play, it has what it had. Conditions are that
    -- `ApplyDelta` changes no path and reports no error.
    pub finalize-stored :
        (txs : List ℕ) (c : StateCommitter e) (trans : List Ref) (imported h : Cells e)
        (w : LiveStorageWriter live_env)
        → AreDisjoint (e.paths.groups c.by_path)
        → IsIndexed (e.paths.groups c.by_path) h (taken live_env trans imported)
        → IsIdle live_env w
        → (h' : Cells e) × (w' : LiveStorageWriter live_env) × (finalize e txs h c
            ≡ some (record c { by_path = e.paths.new; by_tx_id = e.txs.new }, h'))
          × (run_block live_env
                (record { trans = trans; imported = imported; finalized = h' } ∷ [])
                w
              ≡ some w')
          × ((r : Ref) (k : Bytes)
              → holds r (taken live_env trans imported) ≡ true
              → path_at e h' r ≡ some k
              → store.get w'.store k ≡ encoded live_env k (e.delta.cells.value (h' r)))
          × ((k : Bytes)
              → ((r : Ref)
                  → holds r (taken live_env trans imported) ≡ true
                  → path_at e h' r ≢ some k)
              → store.get w'.store k ≡ store.get w.store k)
    unfolding finalize
    finalize-stored txs c trans imported h w d indexed idle =
        let known = e.txs.groups c.by_tx_id in
        let (h', w', merged, done, live, rest) =
          merged-settle (e.paths.groups c.by_path) trans imported (whitelist e txs known h) w d
            (λ q k hq here. indexed q k hq (before_whitelist txs known h q k here)) idle in
        (h', w', rw merged refl, done, live, rest)
