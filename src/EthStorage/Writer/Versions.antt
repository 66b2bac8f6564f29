-- ===== src/EthStorage/Writer/Versions.antt =====
-- The block number under which the writer of the Ethereum storage keeps the root of a block.
use state_engine.Prelude.{
  ℕ, ◌-◌, ◌^◌, negsuc, ◌≡◌, inl, inr, refl, ap, subst, ◌∙◌, Option, none, some, List, [], ◌∷◌, ◌++◌,
  map, ◌>>=◌,
}
use state_engine.Libs.Search.{Member}
use state_engine.EthStorage.World.{Ref}
use state_engine.EthStorage.World.Persist.{persist_to_eth_store}
use state_engine.EthStorage.Writer.{
  Env, Eth, EthIndexer, EthStorageWriter, new_eth_indexer, new_eth_storage_writer, block_number,
  merge, import, import_index, write_accounts, precommit, commit, or_no_accounts, finalize,
}

module _ {V : Type 0} (e : Env V) where
  abbrev pub AllUnversioned : List (EthIndexer e) → Type 0
  AllUnversioned [] = Unit
  AllUnversioned (ix ∷ ixs) = (ix.version ≡ negsuc 0) × AllUnversioned ixs

  -- Every generation has the version -1.
  abbrev pub IsUnversioned : EthStorageWriter e → Type 0
  IsUnversioned w = (w.indexer.version ≡ negsuc 0) × AllUnversioned w.buffer

  AllUnversioned-append :
      (ixs : List (EthIndexer e)) (ix : EthIndexer e)
      → AllUnversioned ixs
      → ix.version ≡ negsuc 0
      → AllUnversioned (ixs ++ ix ∷ [])
  AllUnversioned-append [] ix h v = (v, tt)
  AllUnversioned-append (x ∷ ixs) ix (u, h) v = (u, AllUnversioned-append ixs ix h v)

  AllUnversioned-Member :
      (ixs : List (EthIndexer e)) (ix : EthIndexer e)
      → AllUnversioned ixs
      → Member ix ixs
      → ix.version ≡ negsuc 0
  AllUnversioned-Member [] ix h m = absurd m
  AllUnversioned-Member (x ∷ ixs) ix (u, h) (inl eq) = ap EthIndexer.version eq ∙ u
  AllUnversioned-Member (x ∷ ixs) ix (u, h) (inr m) = AllUnversioned-Member ixs ix h m

  -- What the writer is told to do, and a run of it; a panic ends the run.
  pub data Action : Type 0 where
    imports : List Ref → Action
    precommits : Action
    commits : ℕ → Action

  unfoldable pub act : Action → EthStorageWriter e → Eth e → Option (EthStorageWriter e × Eth e)
  unfolding import precommit commit
  act (imports trans) w h =
      import e trans w.indexer h >>= λ done. some (record w { indexer = done.0 }, done.1)
  act precommits w h = precommit e w h
  act (commits version) w h = commit e version w h

  unfoldable pub run :
      List Action → EthStorageWriter e × Eth e → Option (EthStorageWriter e × Eth e)
  unfolding act
  run [] s = some s
  run (a ∷ actions) s = act a s.0 s.1 >>= run actions

  -- The result, where there is one, has a property.
  unfoldable All : {A : Type 0} → (A → Type 0) → Option A → Type 0
  All P none = Unit
  All P (some x) = P x

  All-bind :
      {A B : Type 0} (P : A → Type 0) (Q : B → Type 0) (o : Option A) (f : A → Option B)
      → All P o
      → ((x : A) → P x → All Q (f x))
      → All Q (o >>= f)
  unfolding All
  All-bind P Q none f h step = tt
  All-bind P Q (some x) f h step = step x h

  All-any : {A : Type 0} (o : Option A) → All (λ x. Unit) o
  unfolding All
  All-any none = tt
  All-any (some x) = tt

  All-some : {A : Type 0} (P : A → Type 0) (o : Option A) (x : A) → All P o → o ≡ some x → P x
  unfolding All
  All-some P o x h eq = subst (All P) eq h

  abbrev Kept : EthStorageWriter e × Eth e → Type 0
  Kept s = IsUnversioned s.0

  -- A run whose last step keeps the versions keeps them.
  bind-Kept :
      {A : Type 0} (o : Option A) (f : A → Option (EthStorageWriter e × Eth e))
      → ((x : A) → All Kept (f x))
      → All Kept (o >>= f)
  bind-Kept o f step = All-bind (λ x. Unit) Kept o f (All-any o) (λ x u. step x)

  import-version :
      (trans : List Ref) (ix : EthIndexer e) (h : Eth e)
      → ix.version ≡ negsuc 0
      → All (λ (d : EthIndexer e × Eth e). d.0.version ≡ negsuc 0) (import e trans ix h)
  unfolding import All
  import-version trans ix h v =
      All-bind (λ x. Unit) (λ (d : EthIndexer e × Eth e). d.0.version ≡ negsuc 0)
        (import_index e trans ix.index h) (λ done. some (record ix { index = done.0 }, done.1))
        (All-any (import_index e trans ix.index h)) (λ x u. v)

  act-unversioned :
      (a : Action) (w : EthStorageWriter e) (h : Eth e) → IsUnversioned w → All Kept (act a w h)
  unfolding act precommit commit finalize new_eth_indexer All
  act-unversioned (imports trans) w h (v, vs) =
      All-bind (λ (d : EthIndexer e × Eth e). d.0.version ≡ negsuc 0) Kept
        (import e trans w.indexer h) (λ done. some (record w { indexer = done.0 }, done.1))
        (import-version trans w.indexer h v) (λ d p. (p, vs))
  act-unversioned precommits w h (v, vs) =
      let ix = finalize e h.heap w.indexer in
      let accounts = e.index.values ix.index in
      let after = record ix { dirty_accounts = some (map (λ p. p.first) accounts) } in
      bind-Kept (write_accounts e accounts h)
        (λ world. some (
          record { indexer = new_eth_indexer e (negsuc 0); buffer = w.buffer ++ after ∷ [] },
          record h { world = world },
        ))
        (λ world. (refl, AllUnversioned-append w.buffer after vs v))
  act-unversioned (commits version) w h (v, vs) =
      let merged = merge e w.buffer in
      let dirty = map (λ r. some r) (or_no_accounts e merged.dirty_accounts) in
      bind-Kept (persist_to_eth_store e.eth (block_number merged.version) dirty h.world)
        (λ world. some (record w { buffer = [] }, record h { world = world })) (λ world. (v, tt))

  new-IsUnversioned : IsUnversioned (new_eth_storage_writer e (negsuc 0))
  unfolding new_eth_storage_writer new_eth_indexer
  new-IsUnversioned = (refl, tt)

  run-unversioned :
      (actions : List Action) (s : EthStorageWriter e × Eth e)
      → IsUnversioned s.0
      → All Kept (run actions s)
  unfolding run All
  run-unversioned [] s v = v
  run-unversioned (a ∷ actions) s v =
      All-bind Kept Kept (act a s.0 s.1) (run actions) (act-unversioned a s.0 s.1 v)
        (λ x kept. run-unversioned actions x kept)

  -- `slice.MaxIf` returns one of the elements.
  abbrev pub MaxLaw : Type 0
  MaxLaw =
      (x : EthIndexer e) (xs : List (EthIndexer e))
      → Member (e.max_if (λ ix. ix.version) x xs) (x ∷ xs)

  -- The block number of a commit: 0 where nothing is buffered.
  abbrev pub unversioned_block : List (EthIndexer e) → ℕ
  unversioned_block [] = 0
  unversioned_block (ix ∷ ixs) = 2 ^ 64 - 1

  merge-block :
      (law : MaxLaw) (ixs : List (EthIndexer e))
      → AllUnversioned ixs
      → block_number (merge e ixs).version ≡ unversioned_block ixs
  unfolding merge new_eth_indexer
  merge-block law [] h = refl
  merge-block law (ix ∷ ixs) h = ap block_number (AllUnversioned-Member (ix ∷ ixs) _ h (law ix ixs))

  -- A commit that gives the block's root the number that the buffer says.
  abbrev pub commit_at : ℕ → EthStorageWriter e → Eth e → Option (EthStorageWriter e × Eth e)
  commit_at block w h =
      let dirty = map (λ r. some r) (or_no_accounts e (merge e w.buffer).dirty_accounts) in
      persist_to_eth_store e.eth block dirty h.world >>= λ world.
      some (record w { buffer = [] }, record h { world = world })

  -- Whatever a writer that starts with the version -1 is told to do, a commit that follows keeps the
  -- root of the world trie under the block number 2 ^ 64 - 1, and under 0 where no generation is
  -- buffered, whichever version it is given.
  pub commit-unversioned :
      (law : MaxLaw) (actions : List Action) (h : Eth e) (w : EthStorageWriter e) (g : Eth e)
      (version : ℕ)
      → run actions (new_eth_storage_writer e (negsuc 0), h) ≡ some (w, g)
      → commit e version w g ≡ commit_at (unversioned_block w.buffer) w g
  unfolding commit
  commit-unversioned law actions h w g version done =
      let kept =
        All-some Kept (run actions (new_eth_storage_writer e (negsuc 0), h)) (w, g)
          (run-unversioned actions (new_eth_storage_writer e (negsuc 0), h) new-IsUnversioned)
          done in
      ap (λ block. commit_at block w g) (merge-block law w.buffer kept.1)
