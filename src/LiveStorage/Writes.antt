-- ===== src/LiveStorage/Writes.antt =====
-- What a sequence of sets and deletions leaves at a key: applied one after the other, and applied
-- as the writers of the execution storage do it, all the deletions first.
use state_engine.Prelude.{
  ◌≡◌, inl, inr, refl, ap, ◌∙◌, Bool, true, false, not, ◌||◌, ◌&&◌, Option, none, some, List, [],
  ◌∷◌, ◌++◌, Bool-cases, Bytes, bytes_eq, bytes_eq_refl, is_none, is_some, keep, if◌then◌else◌,
  arith,
}
use state_engine.Libs.SliceLib.{zip, firsts, seconds}
use state_engine.Libs.Stores.{contains, last_write}
use state_engine.LiveStorage.{all_some}

module _ {W : Type 0} where
  -- One write after the other; `none` deletes.
  unfoldable pub replay : Bytes → List (Bytes × Option W) → Option W → Option W
  replay k [] old = old
  replay k ((j, o) ∷ ws) old = replay k ws (if bytes_eq j k then o else old)

  -- The sets only.
  unfoldable pub last_set : Bytes → List (Bytes × Option W) → Option W → Option W
  last_set k [] old = old
  last_set k ((j, none) ∷ ws) old = last_set k ws old
  last_set k ((j, some v) ∷ ws) old = last_set k ws (if bytes_eq j k then some v else old)

  unfoldable pub is_deleted : Bytes → List (Bytes × Option W) → Bool
  is_deleted k [] = false
  is_deleted k ((j, o) ∷ ws) = (is_none o && bytes_eq j k) || is_deleted k ws

  unfoldable pub is_set : Bytes → List (Bytes × Option W) → Bool
  is_set k [] = false
  is_set k ((j, o) ∷ ws) = (is_some o && bytes_eq j k) || is_set k ws

  -- All the deletions, and then all the sets in their order.
  unfoldable pub settle : Bytes → List (Bytes × Option W) → Option W → Option W
  unfolding last_set is_deleted
  settle k ws old = last_set k ws (if is_deleted k ws then none else old)

  pub keep_sets-some :
      (ws : List (Bytes × Option W))
      → (vs : List W) × (all_some (seconds (keep (λ x. not (is_none x.1)) ws)) ≡ some vs)
        × ((k : Bytes) (old : Option W)
            → last_write k (zip (firsts (keep (λ x. not (is_none x.1)) ws)) vs) old
              ≡ last_set k ws old)
  unfolding all_some last_write last_set
  keep_sets-some [] = ([], refl, λ k old. refl)
  keep_sets-some ((j, none) ∷ ws) = keep_sets-some ws
  keep_sets-some ((j, some v) ∷ ws) =
      let (vs, e, same) = keep_sets-some ws in
      (v ∷ vs, rw e, λ k old. same k (if bytes_eq j k then some v else old))

  pub contains-deleted :
      (k : Bytes) (ws : List (Bytes × Option W))
      → contains k (firsts (keep (λ x. is_none x.1) ws)) ≡ is_deleted k ws
  unfolding contains is_deleted
  contains-deleted k [] = refl
  contains-deleted k ((j, none) ∷ ws) = ap (λ b. bytes_eq j k || b) (contains-deleted k ws)
  contains-deleted k ((j, some v) ∷ ws) = contains-deleted k ws

  pub last_set_unset :
      (k : Bytes) (ws : List (Bytes × Option W)) (old : Option W)
      → is_set k ws ≡ false
      → last_set k ws old ≡ old
  unfolding last_set is_set
  last_set_unset k [] old h = refl
  last_set_unset k ((j, none) ∷ ws) old h = last_set_unset k ws old h
  last_set_unset k ((j, some v) ∷ ws) old h = ground (arith, last_set_unset k ws old)

  replay-last_set :
      (k : Bytes) (ws : List (Bytes × Option W)) (old : Option W)
      → is_deleted k ws ≡ false
      → replay k ws old ≡ last_set k ws old
  unfolding replay last_set is_deleted
  replay-last_set k [] old h = refl
  replay-last_set k ((j, none) ∷ ws) old h = ground (arith, replay-last_set k ws old)
  replay-last_set k ((j, some v) ∷ ws) old h =
      replay-last_set k ws (if bytes_eq j k then some v else old) h

  replay_unset :
      (k : Bytes) (ws : List (Bytes × Option W)) (old : Option W)
      → is_set k ws ≡ false
      → replay k ws old ≡ (if is_deleted k ws then none else old)
  unfolding replay is_set is_deleted
  replay_unset k [] old h = refl
  replay_unset k ((j, none) ∷ ws) old h =
      ground (arith, replay_unset k ws old, replay_unset k ws none)
  replay_unset k ((j, some v) ∷ ws) old h = ground (arith, replay_unset k ws old)

  -- A key that is not both set and deleted ends as if the writes had been made in their order.
  pub settle-replay :
      (k : Bytes) (ws : List (Bytes × Option W)) (old : Option W)
      → (is_set k ws && is_deleted k ws) ≡ false
      → settle k ws old ≡ replay k ws old
  unfolding settle
  settle-replay k ws old h = ground (
    arith,
    last_set_unset k ws none,
    last_set_unset k ws old,
    replay-last_set k ws old,
    replay_unset k ws old,
  )

  pub last_set-append :
      (k : Bytes) (us ws : List (Bytes × Option W)) (old : Option W)
      → last_set k (us ++ ws) old ≡ last_set k ws (last_set k us old)
  unfolding last_set
  last_set-append k [] ws old = refl
  last_set-append k ((j, none) ∷ us) ws old = last_set-append k us ws old
  last_set-append k ((j, some v) ∷ us) ws old =
      last_set-append k us ws (if bytes_eq j k then some v else old)

  last_set-some :
      (k : Bytes) (ws : List (Bytes × Option W)) (old other : Option W)
      → is_set k ws ≡ true
      → (v : W) × (last_set k ws old ≡ some v) × (last_set k ws other ≡ some v)
  unfolding last_set is_set
  last_set-some k [] old other h = cc
  last_set-some k ((j, none) ∷ ws) old other h = last_set-some k ws old other h
  last_set-some k ((j, some v) ∷ ws) old other h = elim (Bool-cases (is_set k ws)) [
    | inl later ↦
        last_set-some k ws (if bytes_eq j k then some v else old)
          (if bytes_eq j k then some v else other) later
    | inr unset ↦
        let here : bytes_eq j k ≡ true = ground arith in
        rw here (v, last_set_unset k ws (some v) unset, last_set_unset k ws (some v) unset)
  ]

  replay-append :
      (k : Bytes) (us ws : List (Bytes × Option W)) (old : Option W)
      → replay k (us ++ ws) old ≡ replay k ws (replay k us old)
  unfolding replay
  replay-append k [] ws old = refl
  replay-append k ((j, o) ∷ us) ws old = replay-append k us ws (if bytes_eq j k then o else old)

  -- A key that is set and then deleted keeps its value, where in their order the writes delete it.
  pub settle-set_deleted :
      (k : Bytes) (us : List (Bytes × Option W)) (old : Option W)
      → is_set k us ≡ true
      → (v : W) × (settle k (us ++ (k, none) ∷ []) old ≡ some v)
        × (replay k (us ++ (k, none) ∷ []) old ≡ none)
  unfolding settle
  settle-set_deleted k us old h =
      let start = if is_deleted k (us ++ (k, none) ∷ []) then none else old in
      let (v, e, _) = last_set-some k us start start h in
      (
        v,
        last_set-append k us ((k, none) ∷ []) start ∙ (unfold last_set in e),
        replay-append k us ((k, none) ∷ []) old ∙ (unfold replay in rw (bytes_eq_refl k)),
      )
