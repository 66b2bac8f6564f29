-- ===== src/LiveStorage/Commit.antt =====
-- `LiveStorageWriter.Commit`: what the store holds afterwards.
use state_engine.Prelude.{
  ℕ, ◌≡◌, refl, ap, ◌∙◌, true, false, not, ◌&&◌, Option, none, some, List, [], ◌∷◌, ◌++◌, map,
  Bytes, length, is_none, keep, if◌then◌else◌, arith,
}
use state_engine.Libs.SliceLib.{SliceLaws, zip, firsts, seconds, concat_map}
use state_engine.Libs.Stores.{StoreLaws}
use state_engine.LiveStorage.{
  LiveStgIndexer, Env, LiveStorageWriter, all_some, join_errors, merge, write_batches, commit,
}
use state_engine.LiveStorage.Writes.{
  replay, settle, is_set, is_deleted, last_set, keep_sets-some, contains-deleted, settle-replay,
  settle-set_deleted,
}

-- An indexer has a value for each of its keys.
abbrev pub IsAligned : {V W : Type 0} → LiveStgIndexer V W → Type 0
IsAligned ix = length ix.key_buffer ≡ length ix.encoded_buffer

abbrev pub AllAligned : {V W : Type 0} → List (LiveStgIndexer V W) → Type 0
AllAligned [] = Unit
AllAligned (ix ∷ ixs) = IsAligned ix × AllAligned ixs

-- The writes that the finalized indexers hold, in the order of the generations.
abbrev pub pending : {V W : Type 0} → List (LiveStgIndexer V W) → List (Bytes × Option W)
pending [] = []
pending (ix ∷ ixs) = zip ix.key_buffer ix.encoded_buffer ++ pending ixs

zip-append :
    {A B : Type 0} (xs : List A) (ys : List B) (us : List A) (ws : List B)
    → length xs ≡ length ys
    → zip (xs ++ us) (ys ++ ws) ≡ zip xs ys ++ zip us ws
zip-append [] [] us ws h = refl
zip-append [] (y ∷ ys) us ws h = absurd (omega arith)
zip-append (x ∷ xs) [] us ws h = absurd (omega arith)
zip-append (x ∷ xs) (y ∷ ys) us ws h = ap (◌∷◌ (x, y)) (zip-append xs ys us ws (omega arith))

-- The merged buffers are the pending writes.
zip-merge :
    {V W : Type 0} (ixs : List (LiveStgIndexer V W))
    → AllAligned ixs
    → zip (concat_map (λ ix. ix.key_buffer) ixs) (concat_map (λ ix. ix.encoded_buffer) ixs)
      ≡ pending ixs
zip-merge [] h = refl
zip-merge (ix ∷ ixs) (h, hs) =
    zip-append ix.key_buffer ix.encoded_buffer (concat_map (λ x. x.key_buffer) ixs)
      (concat_map (λ x. x.encoded_buffer) ixs) h
    ∙ ap (λ ws. zip ix.key_buffer ix.encoded_buffer ++ ws) (zip-merge ixs hs)

map_id : {A : Type 0} (xs : List A) → map (λ x. x) xs ≡ xs
map_id [] = refl
map_id (x ∷ xs) = ap (◌∷◌ x) (map_id xs)

module _ {V W : Type 0} (e : Env V W) (sl : SliceLaws e.slices) (st : StoreLaws e.store) where
  -- The two halves into which the merged writes are split.
  split-pending :
      (ixs : List (LiveStgIndexer V W))
      → AllAligned ixs
      → e.slices.move_both_if is_none (merge e ixs).key_buffer (merge e ixs).encoded_buffer ≡ (
        (
          firsts (keep (λ x. is_none x.1) (pending ixs)),
          seconds (keep (λ x. is_none x.1) (pending ixs)),
        ),
        (
          firsts (keep (λ x. not (is_none x.1)) (pending ixs)),
          seconds (keep (λ x. not (is_none x.1)) (pending ixs)),
        ),
      )
  unfolding merge
  split-pending ixs h = rw (
    sl.concate_do_lem (λ ix. ix.key_buffer) ixs,
    sl.concate_do_lem (λ ix. ix.encoded_buffer) ixs,
    sl.move_both_if_lem,
    zip-merge ixs h,
  )

  commit-split :
      (w : LiveStorageWriter e) {dk lk : List Bytes} {dv lv : List (Option W)} {vs : List W}
      → e.slices.move_both_if is_none
          (merge e w.buffer).key_buffer
          (merge e w.buffer).encoded_buffer
        ≡ ((dk, dv), (lk, lv))
      → all_some lv ≡ some vs
      → commit e w
        ≡ some (
          record w {
            buffer = [];
            store = (e.store.set_batch lk vs (e.store.delete_batch dk w.store)).1;
          },
          join_errors (e.store.set_batch lk vs (e.store.delete_batch dk w.store)).0,
        )
  commit-split w {dk} {lk} {dv} {lv} split whole =
      let deref = sl.transform_lem (λ v. v) lv ∙ map_id lv in
      unfold commit in
      (ap (λ halves. write_batches e halves w) split ∙ rw (write_batches, deref, whole) refl)

  -- `Commit` never panics, empties the buffer, and leaves at every key what the pending writes of
  -- the block settle to: all deletions first, then the sets in the order of the generations.
  pub commit-settle :
      (w : LiveStorageWriter e)
      → AllAligned w.buffer
      → (w' : LiveStorageWriter e) × (errs : List ℕ) × (commit e w ≡ some (w', errs))
        × (w'.buffer ≡ [])
        × (w'.indexer ≡ w.indexer)
        × ((k : Bytes)
            → e.store.get w'.store k ≡ settle k (pending w.buffer) (e.store.get w.store k))
  unfolding settle
  commit-settle w h =
      let ws = pending w.buffer in
      let (vs, ev, same) = keep_sets-some ws in
      let dk = firsts (keep (λ x. is_none x.1) ws) in
      let lk = firsts (keep (λ x. not (is_none x.1)) ws) in
      let pruned = e.store.delete_batch dk w.store in
      (
        record w { buffer = []; store = (e.store.set_batch lk vs pruned).1 },
        join_errors (e.store.set_batch lk vs pruned).0,
        commit-split w (split-pending w.buffer h) ev,
        refl,
        refl,
        λ k.
            st.get-set_batch lk vs pruned k
            ∙ same k (e.store.get pruned k)
            ∙ ap (last_set k ws) (
                st.get-delete_batch dk w.store k
                ∙ ap (λ b. if b then none else e.store.get w.store k) (contains-deleted k ws)),
      )

  -- What is read at `k` after a commit; `none` if the commit panics.
  abbrev pub read_result : Bytes → Option (LiveStorageWriter e × List ℕ) → Option (Option W)
  read_result k none = none
  read_result k (some r) = some (e.store.get r.0.store k)

  abbrev pub get_after_commit : LiveStorageWriter e → Bytes → Option (Option W)
  get_after_commit w k = read_result k (commit e w)

  get_after_commit-settle :
      (w : LiveStorageWriter e) (k : Bytes)
      → AllAligned w.buffer
      → get_after_commit w k ≡ some (settle k (pending w.buffer) (e.store.get w.store k))
  get_after_commit-settle w k h =
      let (w', errs, done, _, _, reads) = commit-settle w h in
      ap (read_result k) done ∙ ap some (reads k)

  -- The refinement: a key that the block does not both set and delete reads, after the commit, as
  -- if the writes of the generations had been made one after the other.
  commit-replay :
      (w : LiveStorageWriter e) (k : Bytes)
      → AllAligned w.buffer
      → (is_set k (pending w.buffer) && is_deleted k (pending w.buffer)) ≡ false
      → get_after_commit w k ≡ some (replay k (pending w.buffer) (e.store.get w.store k))
  commit-replay w k h once =
      get_after_commit-settle w k h
      ∙ ap some (settle-replay k (pending w.buffer) (e.store.get w.store k) once)

  -- A key that the block sets and that its last write deletes is in the store after the commit,
  -- where the writes made in their order would have removed it.
  pub commit-set_deleted :
      (w : LiveStorageWriter e) (k : Bytes) (us : List (Bytes × Option W))
      → AllAligned w.buffer
      → pending w.buffer ≡ us ++ (k, none) ∷ []
      → is_set k us ≡ true
      → (v : W) × (get_after_commit w k ≡ some (some v))
        × (replay k (pending w.buffer) (e.store.get w.store k) ≡ none)
  commit-set_deleted w k us h last set_before =
      let (v, kept, gone) = settle-set_deleted k us (e.store.get w.store k) set_before in
      (v, get_after_commit-settle w k h ∙ ap some (rw last kept), rw last gone)
