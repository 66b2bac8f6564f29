-- ===== src/LiveCache/Commit.antt =====
-- `LiveCacheWriter.Commit`: what the cache holds afterwards.
use state_engine.Prelude.{
  ◌≡◌, ◌⊎◌, inl, inr, refl, ap, ◌∙◌, false, not, Option, none, some, List, [], ◌∷◌, map, Bytes,
  is_none, keep, if◌then◌else◌,
}
use state_engine.Libs.SliceLib.{SliceLaws, zip, firsts, concat_map}
use state_engine.Libs.Cells.{Ref, Heap, withdrawn}
use state_engine.Libs.Stores.{CacheLaws}
use state_engine.LiveStorage.{all_some}
use state_engine.LiveStorage.Writes.{settle, last_set, keep_sets-some, contains-deleted}
use state_engine.LiveCache.{Env, LiveCacheWriter, write_batches, commit_cells, commit}

module _ {V : Type 0} (e : Env V) where
  -- The transitions of the block, in the order of the generations.
  abbrev pub block : LiveCacheWriter e → List Ref
  block w = concat_map (λ ix. ix.buffer) w.buffer

  abbrev pub AllLive : Heap e.cells → List Ref → Type 0
  AllLive h [] = Unit
  AllLive h (r ∷ rs) = (withdrawn e.cells h r ≡ false) × AllLive h rs

  -- The writes that they stand for.
  abbrev pub path_or_empty : Option Bytes → Bytes
  path_or_empty none = []
  path_or_empty (some k) = k

  abbrev pub writes : Heap e.cells → List Ref → List (Bytes × Option V)
  writes h = map (λ r. (path_or_empty (e.cells.get_path (h r)), e.cells.value (h r)))

  abbrev pub paths : Heap e.cells → List Ref → List Bytes
  paths h = map (λ r. path_or_empty (e.cells.get_path (h r)))

  path-some : (o : Option Bytes) → is_none o ≡ false → o ≡ some (path_or_empty o)
  path-some none h = cc
  path-some (some k) h = refl

  pub all_some-paths :
      (h : Heap e.cells) (rs : List Ref)
      → AllLive h rs
      → all_some (map (λ r. e.cells.get_path (h r)) rs) ≡ some (paths h rs)
  unfolding all_some
  all_some-paths h [] live = refl
  all_some-paths h (r ∷ rs) (here, live) =
      ap (λ o. all_some (o ∷ map (λ q. e.cells.get_path (h q)) rs))
        (path-some (e.cells.get_path (h r)) here)
      ∙ rw (all_some, all_some-paths h rs live) refl

  zip-writes :
      (h : Heap e.cells) (rs : List Ref)
      → zip (paths h rs) (map (λ r. e.cells.value (h r)) rs) ≡ writes h rs
  zip-writes h [] = refl
  zip-writes h (r ∷ rs) =
      ap (◌∷◌ (path_or_empty (e.cells.get_path (h r)), e.cells.value (h r))) (zip-writes h rs)

  module _ (sl : SliceLaws e.slices) (cl : CacheLaws e.cache) where
    commit-split :
        (h : Heap e.cells) (w : LiveCacheWriter e) {dk lk : List Bytes} {dv lv : List (Option V)}
        {vs : List V}
        → AllLive h (block w)
        → e.slices.move_both_if is_none
            (paths h (block w))
            (map (λ r. e.cells.value (h r)) (block w))
          ≡ ((dk, dv), (lk, lv))
        → all_some lv ≡ some vs
        → commit e h w
          ≡ some (record w {
            buffer = [];
            cache = e.cache.evict (e.cache.set_batch lk vs (e.cache.delete_batch dk w.cache));
          })
    commit-split h w live split whole =
        unfold commit in
        (ap (λ cells. commit_cells e h cells w) (sl.concate_do_lem (λ ix. ix.buffer) w.buffer)
          ∙ rw (commit_cells, all_some-paths h (block w) live)
              (ap (λ halves. write_batches e halves w) split ∙ rw (write_batches, whole) refl))

    -- If none of the block's transitions has been withdrawn, `Commit` does not panic and empties
    -- the buffer, and at every key the cache has what the block's writes settle to, deletions
    -- first, or nothing, where the entry was evicted. The conditions on the library are that
    -- the slices and the cache keep their laws.
    pub cache_commit-settle :
        (h : Heap e.cells) (w : LiveCacheWriter e)
        → AllLive h (block w)
        → (w' : LiveCacheWriter e) × (commit e h w ≡ some w')
          × (w'.buffer ≡ [])
          × ((k : Bytes)
              → (e.cache.get w'.cache k ≡ settle k (writes h (block w)) (e.cache.get w.cache k))
                ⊎ (e.cache.get w'.cache k ≡ none))
    unfolding settle
    cache_commit-settle h w live =
        let ws = writes h (block w) in
        let (vs, ev, same) = keep_sets-some ws in
        let dk = firsts (keep (λ x. is_none x.1) ws) in
        let lk = firsts (keep (λ x. not (is_none x.1)) ws) in
        let pruned = e.cache.delete_batch dk w.cache in
        let full = e.cache.set_batch lk vs pruned in
        let split = rw (zip-writes h (block w)) at (
          sl.move_both_if_lem is_none (paths h (block w))
            (map (λ r. e.cells.value (h r)) (block w))) in
        let reads : (k : Bytes) → e.cache.get full k ≡ settle k ws (e.cache.get w.cache k) = λ k.
          cl.get-set_batch lk vs pruned k
          ∙ same k (e.cache.get pruned k)
          ∙ ap (last_set k ws) (
              cl.get-delete_batch dk w.cache k
              ∙ ap (λ b. if b then none else e.cache.get w.cache k) (contains-deleted k ws)) in
        (
          record w { buffer = []; cache = e.cache.evict full },
          commit-split h w live split ev,
          refl,
          λ k. elim (cl.get-evict full k) [ inl held ↦ inl (held ∙ reads k) | inr gone ↦ inr gone ],
        )
