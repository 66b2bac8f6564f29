-- ===== src/LiveStorage/Pipeline.antt =====
-- A generation of the live storage writer, from `Import` over the two phases of `Precommit`.
use state_engine.Prelude.{
  suc, ◌≡◌, refl, sym, ap, ◌∙◌, Bool, true, false, not, Option, none, some, List, [], ◌∷◌, ◌++◌,
  map, append-nil, append_assoc, Bytes, length, keep, if◌then◌else◌, Option-cases, inl, inr,
}
use state_engine.Libs.SliceLib.{SliceLaws, zip}
use state_engine.Libs.Cells.{Ref, Heap, withdrawn}
use state_engine.LiveStorage.{
  LiveStgIndexer, new_live_stg_indexer, Env, LiveStorageWriter, all_some, select, encode_values,
  importable, import, reset, finalize, precommit,
}
use state_engine.LiveStorage.Commit.{IsAligned, AllAligned, pending}

-- A function that appends to its argument does so after a step.
append-step :
    {H : Type 0} (run : List Ref → List Ref × H) (out : List Ref) (r : Ref) (pass : Bool)
    → ((o : List Ref) → run o ≡ (o ++ (run []).0, (run []).1))
    → run (if pass then out ++ r ∷ [] else out)
      ≡ (out ++ (run (if pass then r ∷ [] else [])).0, (run (if pass then r ∷ [] else [])).1)
append-step {H} run out r true ih =
    let regroup : ◌≡◌ {A = List Ref × H} ((out ++ r ∷ []) ++ (run []).0, (run []).1)
        (out ++ r ∷ (run []).0, (run []).1) =
      ap (λ o. (o, (run []).1)) (append_assoc out (r ∷ []) (run []).0) in
    ih (out ++ r ∷ []) ∙ regroup ∙ ap (λ (p : List Ref × H). (out ++ p.0, p.1)) (sym (ih (r ∷ [])))
append-step run out r false ih = ih out

pub select-append :
    {H : Type 0} (test : Ref → H → Bool × H) (rs : List Ref) (h : H) (out : List Ref)
    → select test rs h out ≡ (out ++ (select test rs h []).0, (select test rs h []).1)
unfolding select
select-append test [] h out = ap (λ o. (o, h)) (sym (append-nil out))
select-append test (r ∷ rs) h out =
    append-step (select test rs (test r h).1) out r (test r h).0
      (select-append test rs (test r h).1)

pending-append :
    {V W : Type 0} (ixs : List (LiveStgIndexer V W)) (ix : LiveStgIndexer V W)
    → pending (ixs ++ ix ∷ []) ≡ pending ixs ++ zip ix.key_buffer ix.encoded_buffer
pending-append [] ix = append-nil (zip ix.key_buffer ix.encoded_buffer)
pending-append (x ∷ ixs) ix =
    ap (λ ws. zip x.key_buffer x.encoded_buffer ++ ws) (pending-append ixs ix)
    ∙ sym (
        append_assoc (zip x.key_buffer x.encoded_buffer) (pending ixs)
          (zip ix.key_buffer ix.encoded_buffer))

AllAligned-append :
    {V W : Type 0} (ixs : List (LiveStgIndexer V W)) (ix : LiveStgIndexer V W)
    → AllAligned ixs
    → IsAligned ix
    → AllAligned (ixs ++ ix ∷ [])
AllAligned-append [] ix h a = (a, tt)
AllAligned-append (x ∷ ixs) ix (b, h) a = (b, AllAligned-append ixs ix h a)

module _ {V W : Type 0} (e : Env V W) where
  -- The write that a transition stands for, none if it has been withdrawn.
  unfoldable pub write_of : Option Bytes → Option V → List (Bytes × Option W)
  write_of none v = []
  write_of (some k) none = (k, none) ∷ []
  write_of (some k) (some v) = (k, some (e.forward_convert k v).1) ∷ []

  -- The writes that transitions stand for.
  unfoldable pub entries : Heap e.cells → List Ref → List (Bytes × Option W)
  unfolding write_of
  entries h [] = []
  entries h (r ∷ rs) = write_of (e.cells.get_path (h r)) (e.cells.value (h r)) ++ entries h rs

  pub entries-append :
      (h : Heap e.cells) (rs qs : List Ref) → entries h (rs ++ qs) ≡ entries h rs ++ entries h qs
  unfolding entries
  entries-append h [] qs = refl
  entries-append h (r ∷ rs) qs =
      let own = write_of (e.cells.get_path (h r)) (e.cells.value (h r)) in
      ap (λ ws. own ++ ws) (entries-append h rs qs)
      ∙ sym (append_assoc own (entries h rs) (entries h qs))

  pub entries_set :
      (h : Heap e.cells) (r : Ref) (rs : List Ref) (k : Bytes) (v : V)
      → e.cells.get_path (h r) ≡ some k
      → e.cells.value (h r) ≡ some v
      → entries h (r ∷ rs) ≡ (k, some (e.forward_convert k v).1) ∷ entries h rs
  unfolding entries write_of
  entries_set h r rs k v path value = rw (path, value, write_of) refl

  -- The transitions of a batch that the import takes, by the filter and their paths at that time.
  unfoldable pub taken : List Ref → Heap e.cells → List Ref
  unfolding select importable
  taken trans h = (select (importable e) trans h []).0

  -- What `Finalize` computes from the transitions that it keeps.
  IsEncoded : Heap e.cells → List Ref → List (Bytes × Option W) → Type 0
  IsEncoded h kept ws =
      (keys : List Bytes) × (all_some (map (λ r. e.cells.get_path (h r)) kept) ≡ some keys)
      × (zip keys (encode_values e.forward_convert keys (map (λ r. e.cells.value (h r)) kept)) ≡ ws)
      × (length keys
          ≡ length (encode_values e.forward_convert keys (map (λ r. e.cells.value (h r)) kept)))

  IsEncoded-cons :
      (h : Heap e.cells) (r : Ref) (kept : List Ref) (ws : List (Bytes × Option W)) (k : Bytes)
      (o : Option V)
      → e.cells.get_path (h r) ≡ some k
      → e.cells.value (h r) ≡ o
      → IsEncoded h kept ws
      → IsEncoded h (r ∷ kept) (write_of (some k) o ++ ws)
  unfolding IsEncoded all_some encode_values write_of
  IsEncoded-cons h r kept ws k none p q (keys, all, pairs, size) =
      (k ∷ keys, rw (p, all_some, all) refl, rw q (ap (◌∷◌ (k, none)) pairs), rw q (ap suc size))
  IsEncoded-cons h r kept ws k (some v) p q (keys, all, pairs, size) = (
    k ∷ keys,
    rw (p, all_some, all) refl,
    rw q (ap (◌∷◌ (k, some (e.forward_convert k v).1)) pairs),
    rw q (ap suc size),
  )

  kept-IsEncoded :
      (h : Heap e.cells) (rs : List Ref)
      → IsEncoded h (keep (λ r. not (withdrawn e.cells h r)) rs) (entries h rs)
  unfolding entries all_some encode_values
  kept-IsEncoded h [] = unfold IsEncoded in ([], refl, refl, refl)
  kept-IsEncoded h (r ∷ rs) = elim (Option-cases (e.cells.get_path (h r))) [
    | inl gone ↦ rw (gone, write_of) (kept-IsEncoded h rs)
    | inr (k, there) ↦ rw there (
        IsEncoded-cons h r (keep (λ q. not (withdrawn e.cells h q)) rs) (entries h rs) k
          (e.cells.value (h r)) there refl (kept-IsEncoded h rs))
  ]

  -- `Finalize` keeps exactly the transitions that have not been withdrawn; it never panics.
  finalize-entries :
      SliceLaws e.slices
      → (h : Heap e.cells) (ix : LiveStgIndexer V W)
      → (ix' : LiveStgIndexer V W) × (finalize e h ix ≡ some ix')
        × (zip ix'.key_buffer ix'.encoded_buffer ≡ entries h ix.buffer)
        × IsAligned ix'
  unfolding finalize IsEncoded
  finalize-entries sl h ix =
      let kept = e.slices.remove_if (withdrawn e.cells h) ix.buffer in
      let path_of = λ (r : Ref). e.cells.get_path (h r) in
      let value_of = λ (r : Ref). e.cells.value (h r) in
      let (keys, all, pairs, size) =
        rw (← sl.remove_if_lem (withdrawn e.cells h) ix.buffer) at (kept-IsEncoded h ix.buffer) in
      let found = rw (← sl.transform_lem path_of kept) at all in
      (
        record ix {
          buffer = kept;
          key_buffer = keys;
          value_buffer = e.slices.transform value_of kept;
          encoded_buffer = encode_values e.forward_convert keys (e.slices.transform value_of kept);
        },
        rw (finalize, found) refl,
        rw (sl.transform_lem value_of kept) pairs,
        rw (sl.transform_lem value_of kept) size,
      )

  -- The asynchronous phase of `Precommit` adds the writes of the indexer's buffer to the pending
  -- ones and starts a new indexer, also where transitions were still waiting in its import buffer.
  pub precommit-pending :
      SliceLaws e.slices
      → (h : Heap e.cells) (w : LiveStorageWriter e) → AllAligned w.buffer
      → (w' : LiveStorageWriter e) × (precommit e false h w ≡ some w')
        × (pending w'.buffer ≡ pending w.buffer ++ entries h w.indexer.buffer)
        × AllAligned w'.buffer
        × (w'.indexer ≡ new_live_stg_indexer)
        × (w'.store ≡ w.store)
  unfolding precommit
  precommit-pending sl h w a =
      let (ix, done, pairs, aligned) = finalize-entries sl h w.indexer in
      (
        record w { indexer = new_live_stg_indexer; buffer = w.buffer ++ ix ∷ [] },
        rw (precommit, done) refl,
        pending-append w.buffer ix ∙ ap (λ ws. pending w.buffer ++ ws) pairs,
        AllAligned-append w.buffer ix a aligned,
        refl,
        refl,
      )

  -- Import, then both phases of `Precommit` at the heaps that they find.
  abbrev pub generation :
      List Ref → Heap e.cells → Heap e.cells → LiveStorageWriter e → Option (LiveStorageWriter e)
  generation trans h h' w =
      let imported = record w { indexer = (import e trans h w.indexer).0 } in
      elim (precommit e true h' imported) [
        | none ↦ none
        | some synced ↦ precommit e false h' synced
      ]

  -- A generation adds to the pending writes those of the transitions that were waiting and of the
  -- imported ones that the filter took, without those that have been withdrawn since.
  pub generation-pending :
      SliceLaws e.slices
      → (trans : List Ref) (h h' : Heap e.cells) (w : LiveStorageWriter e) → AllAligned w.buffer
      → (w' : LiveStorageWriter e) × (generation trans h h' w ≡ some w')
        × (pending w'.buffer
            ≡ pending w.buffer ++ entries h' (w.indexer.import_buffer ++ taken trans h))
        × AllAligned w'.buffer
        × (w'.indexer ≡ new_live_stg_indexer)
        × (w'.store ≡ w.store)
  unfolding precommit reset import taken
  generation-pending sl trans h h' w a =
      let imported = select-append (importable e) trans h w.indexer.import_buffer in
      let synced = record w {
        indexer = record w.indexer {
          buffer = (select (importable e) trans h w.indexer.import_buffer).0;
          import_buffer = [];
        };
      } in
      let (w', done, writes, aligned, fresh, same) = precommit-pending sl h' synced a in
      (
        w',
        done,
        writes ∙ ap (λ (p : List Ref × Heap e.cells). pending w.buffer ++ entries h' p.0) imported,
        aligned,
        fresh,
        same,
      )

  -- Transitions that are imported between the two phases of `Precommit` are lost: the asynchronous
  -- phase leaves the same pending writes and the same fresh indexer as without them.
  pub precommit-import :
      SliceLaws e.slices
      → (trans : List Ref) (h h' : Heap e.cells) (w : LiveStorageWriter e) → AllAligned w.buffer
      → (late : LiveStorageWriter e) × (plain : LiveStorageWriter e) × (precommit e false h'
            (record w { indexer = (import e trans h w.indexer).0 })
          ≡ some late)
        × (precommit e false h' w ≡ some plain)
        × (pending late.buffer ≡ pending plain.buffer)
        × (late.indexer ≡ plain.indexer)
  unfolding import
  precommit-import sl trans h h' w a =
      let (late, d, p, _, i, _) =
        precommit-pending sl h' (record w { indexer = (import e trans h w.indexer).0 }) a in
      let (plain, d', p', _, i', _) = precommit-pending sl h' w a in
      (late, plain, d, d', p ∙ sym p', i ∙ sym i')
