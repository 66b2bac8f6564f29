-- ===== src/LiveStorage/Block.antt =====
-- Whole blocks of the live storage writer: several generations, then `Commit`, and chains of blocks.
use state_engine.Prelude.{
  ◌≡◌, refl, sym, ap, ◌∙◌, false, ◌&&◌, Option, none, some, List, [], ◌∷◌, ◌++◌, append-nil,
  append_assoc, Bytes, bytes_eq_refl, if◌then◌else◌, ◌>>=◌,
}
use state_engine.Libs.SliceLib.{SliceLaws}
use state_engine.Libs.Cells.{CellLib, Ref, Heap}
use state_engine.Libs.Stores.{StoreLaws}
use state_engine.LiveStorage.{LiveStorageWriter, Env, new_live_stg_indexer, commit}
use state_engine.LiveStorage.Writes.{
  replay, settle, last_set, is_set, is_deleted, settle-replay, last_set-append, last_set_unset,
}
use state_engine.LiveStorage.Commit.{AllAligned, pending, commit-settle}
use state_engine.LiveStorage.Pipeline.{
  entries, entries-append, entries_set, taken, generation, generation-pending,
}

-- The transitions of a generation, and the heaps at their import and at `Precommit`.
pub record Generation {V : Type 0} (c : CellLib V) : Type 0 where
  pub trans : List Ref
  pub imported : Heap c
  pub finalized : Heap c

module _ {V W : Type 0} (e : Env V W) where
  -- The writes of a generation, and those of the generations of a block in their order.
  abbrev pub batch_writes : Generation e.cells → List (Bytes × Option W)
  batch_writes b = entries e b.finalized (taken e b.trans b.imported)

  abbrev pub block_writes : List (Generation e.cells) → List (Bytes × Option W)
  block_writes [] = []
  block_writes (b ∷ bs) = batch_writes b ++ block_writes bs

  -- Every generation goes through `Import` and `Precommit`; then the block is committed.
  abbrev pub run_block :
      List (Generation e.cells) → LiveStorageWriter e → Option (LiveStorageWriter e)
  run_block [] w = commit e w >>= λ done. some done.0
  run_block (b ∷ bs) w = generation e b.trans b.imported b.finalized w >>= run_block bs

  abbrev pub run_chain :
      List (List (Generation e.cells)) → LiveStorageWriter e → Option (LiveStorageWriter e)
  run_chain [] w = some w
  run_chain (bs ∷ rest) w = run_block bs w >>= run_chain rest

  -- Nothing waits in the writer, as after its creation and after every commit.
  abbrev pub IsIdle : LiveStorageWriter e → Type 0
  IsIdle w = (w.indexer ≡ new_live_stg_indexer) × (w.buffer ≡ [])

  -- No key is both set and deleted.
  abbrev pub IsPure : List (Bytes × Option W) → Type 0
  IsPure ws = (k : Bytes) → (is_set k ws && is_deleted k ws) ≡ false

  abbrev pub AllPure : List (List (Generation e.cells)) → Type 0
  AllPure [] = Unit
  AllPure (bs ∷ rest) = IsPure (block_writes bs) × AllPure rest

  -- What is at a key when the writes of the blocks are made one after the other.
  abbrev pub chain_replay : Bytes → List (List (Generation e.cells)) → Option W → Option W
  chain_replay k [] old = old
  chain_replay k (bs ∷ rest) old = chain_replay k rest (replay k (block_writes bs) old)

module _ {V W : Type 0} (e : Env V W) (sl : SliceLaws e.slices) (st : StoreLaws e.store) where
  block_from :
      (bs : List (Generation e.cells)) (w : LiveStorageWriter e)
      → AllAligned w.buffer
      → w.indexer ≡ new_live_stg_indexer
      → (w' : LiveStorageWriter e) × (run_block e bs w ≡ some w')
        × IsIdle e w'
        × ((k : Bytes)
            → e.store.get w'.store k
              ≡ settle k (pending w.buffer ++ block_writes e bs) (e.store.get w.store k))
  block_from [] w a idle =
      let (w', errs, done, empty, same, reads) = commit-settle e sl st w a in
      (
        w',
        rw done refl,
        (same ∙ idle, empty),
        λ k.
            reads k
            ∙ ap (λ ws. settle k ws (e.store.get w.store k)) (sym (append-nil (pending w.buffer))),
      )
  block_from (b ∷ bs) w a idle =
      let (v, done, writes, aligned, fresh, same) =
        generation-pending e sl b.trans b.imported b.finalized w a in
      let (w', rest, quiet, reads) = block_from bs v aligned fresh in
      let waiting : entries e b.finalized (w.indexer.import_buffer ++ taken e b.trans b.imported)
          ≡ batch_writes e b =
        ap (λ ix. entries e b.finalized (ix.import_buffer ++ taken e b.trans b.imported)) idle in
      let all : pending v.buffer ++ block_writes e bs
          ≡ pending w.buffer ++ (batch_writes e b ++ block_writes e bs) =
        ap (λ ws. ws ++ block_writes e bs) (writes ∙ ap (λ ws. pending w.buffer ++ ws) waiting)
        ∙ append_assoc (pending w.buffer) (batch_writes e b) (block_writes e bs) in
      (
        w',
        rw done rest,
        quiet,
        λ k.
            reads k
            ∙ ap (λ ws. settle k ws (e.store.get v.store k)) all
            ∙ ap
                (λ s.
                  settle k (pending w.buffer ++ (batch_writes e b ++ block_writes e bs))
                    (e.store.get s k))
                same,
      )

  -- A block of an idle writer never panics, leaves the writer idle, and leaves at every key what the
  -- writes of its generations settle to.
  pub run_block-settle :
      (bs : List (Generation e.cells)) (w : LiveStorageWriter e)
      → IsIdle e w
      → (w' : LiveStorageWriter e) × (run_block e bs w ≡ some w')
        × IsIdle e w'
        × ((k : Bytes)
            → e.store.get w'.store k ≡ settle k (block_writes e bs) (e.store.get w.store k))
  run_block-settle bs w (idle, empty) =
      let (w', done, quiet, reads) = block_from bs w (rw empty tt) idle in
      (
        w',
        done,
        quiet,
        λ k.
            reads k
            ∙ ap (λ ixs. settle k (pending ixs ++ block_writes e bs) (e.store.get w.store k)) empty,
      )

  -- A chain of blocks, none of which both sets and deletes a key, never panics, and leaves the store
  -- as if the writes of all generations of all blocks had been made one after the other.
  pub run_chain-replay :
      (blocks : List (List (Generation e.cells))) (w : LiveStorageWriter e)
      → IsIdle e w
      → AllPure e blocks
      → (w' : LiveStorageWriter e) × (run_chain e blocks w ≡ some w')
        × IsIdle e w'
        × ((k : Bytes) → e.store.get w'.store k ≡ chain_replay e k blocks (e.store.get w.store k))
  run_chain-replay [] w idle pure = (w, refl, idle, λ k. refl)
  run_chain-replay (bs ∷ blocks) w idle (p, pure) =
      let (v, done, quiet, reads) = run_block-settle bs w idle in
      let (w', rest, still, later) = run_chain-replay blocks v quiet pure in
      (
        w',
        rw done rest,
        still,
        λ k.
            later k
            ∙ ap (chain_replay e k blocks)
                (reads k ∙ settle-replay k (block_writes e bs) (e.store.get w.store k) (p k)),
      )

  settle_last :
      (k : Bytes) (v : W) (us ws : List (Bytes × Option W)) (old : Option W)
      → is_set k ws ≡ false
      → settle k (us ++ (k, some v) ∷ ws) old ≡ some v
  unfolding settle
  settle_last k v us ws old unset =
      let start = if is_deleted k (us ++ (k, some v) ∷ ws) then none else old in
      last_set-append k us ((k, some v) ∷ ws) start
      ∙ (unfold last_set in rw (bytes_eq_refl k) (last_set_unset k ws (some v) unset))

  block_writes-append :
      (before after : List (Generation e.cells))
      → block_writes e (before ++ after) ≡ block_writes e before ++ block_writes e after
  block_writes-append [] after = refl
  block_writes-append (b ∷ before) after =
      ap (λ ws. batch_writes e b ++ ws) (block_writes-append before after)
      ∙ sym (append_assoc (batch_writes e b) (block_writes e before) (block_writes e after))

  -- The writes of a block, round that of one transition.
  around :
      (before after : List (Generation e.cells)) (b : Generation e.cells) (rs qs : List Ref)
      (r : Ref) (k : Bytes) (v : V)
      → taken e b.trans b.imported ≡ rs ++ r ∷ qs
      → e.cells.get_path (b.finalized r) ≡ some k
      → e.cells.value (b.finalized r) ≡ some v
      → block_writes e (before ++ b ∷ after)
        ≡ (block_writes e before ++ entries e b.finalized rs)
          ++ (k, some (e.forward_convert k v).1)
            ∷ (entries e b.finalized qs ++ block_writes e after)
  around before after b rs qs r k v took path value =
      let mine : batch_writes e b
          ≡ entries e b.finalized rs
            ++ (k, some (e.forward_convert k v).1) ∷ entries e b.finalized qs =
        ap (entries e b.finalized) took
        ∙ entries-append e b.finalized rs (r ∷ qs)
        ∙ ap (λ ws. entries e b.finalized rs ++ ws)
            (entries_set e b.finalized r qs k v path value) in
      block_writes-append before (b ∷ after)
      ∙ ap (λ ws. block_writes e before ++ (ws ++ block_writes e after)) mine
      ∙ simp append_assoc

  -- A transition that sets a key, that the import took and that has not been withdrawn reaches the
  -- store with the commit of its block, whatever the block deletes, unless a later one sets the key.
  pub run_block-reaches :
      (before after : List (Generation e.cells)) (b : Generation e.cells) (w : LiveStorageWriter e)
      (rs qs : List Ref) (r : Ref) (k : Bytes) (v : V)
      → IsIdle e w
      → taken e b.trans b.imported ≡ rs ++ r ∷ qs
      → e.cells.get_path (b.finalized r) ≡ some k
      → e.cells.value (b.finalized r) ≡ some v
      → is_set k (entries e b.finalized qs ++ block_writes e after) ≡ false
      → (w' : LiveStorageWriter e) × (run_block e (before ++ b ∷ after) w ≡ some w')
        × (e.store.get w'.store k ≡ some (e.forward_convert k v).1)
  run_block-reaches before after b w rs qs r k v idle took path value unset =
      let (w', done, _, reads) = run_block-settle (before ++ b ∷ after) w idle in
      let x = (e.forward_convert k v).1 in
      let us = block_writes e before ++ entries e b.finalized rs in
      let ws = entries e b.finalized qs ++ block_writes e after in
      let last = settle_last k x us ws (e.store.get w.store k) unset in
      (
        w',
        done,
        reads k
            ∙ ap (λ l. settle k l (e.store.get w.store k))
                (around before after b rs qs r k v took path value)
            ∙ last,
      )
