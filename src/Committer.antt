-- ===== src/Committer.antt =====
-- state/committer/committer.go and indexer.go: the transitions of a generation are indexed by their
-- paths and by their transactions, those of transactions that are not on the whitelist are withdrawn,
-- those of one path are merged, and the writers are told. `none` as a result is a panic. The loops
-- that the source runs in parallel run here in the order of the lists.
pub mod Whitelist
pub mod Dispatch
pub mod Group
pub mod Merged
pub mod Stored
use state_engine.Prelude.{
  ℕ, Bool, true, false, not, ◌||◌, ◌==◌, Option, none, some, List, [], ◌∷◌, ◌++◌, Bytes, is_none,
  if◌then◌else◌, ◌>>=◌,
}
use state_engine.Libs.Cells.{Ref, Heap, withdrawn}
use state_engine.Delta
use state_engine.Delta.{withdraw_all}

-- `indexer.UnorderedIndexer` of the common library, by its groups. `import` is given the key of an
-- element, with false for one that is left out and `none` for a panic; what starts a group; and what
-- adds to one.
pub record IndexLib (K H : Type 0) : Type 1 where
  pub Index : Type 0
  pub new : Index
  pub import :
      (Ref → H → Option (K × Bool))
      → (K → Ref → H → List Ref × H)
      → (K → Ref → List Ref → List Ref)
      → List Ref
      → H
      → Index
      → Option (Index × H)
  pub groups : Index → List (K × List Ref)

-- A writer as the committer knows it.
pub record WriterLib (H : Type 0) : Type 1 where
  pub Writer : Type 0
  pub import : List Ref → H → Writer → Writer × H
  pub precommit : Bool → H → Writer → Option Writer
  pub commit : ℕ → H → Writer → Option Writer
  pub is_sync : Writer → Bool
  pub is_eth_storage : Writer → Bool
  pub is_execution_cache : Writer → Bool

pub record Env (V : Type 0) : Type 1 where
  pub delta : Delta.Env V
  -- `Preload` of a value that is not nil, on the store.
  pub preload : Bytes → Ref → Heap delta.cells → Heap delta.cells
  pub paths : IndexLib Bytes (Heap delta.cells)
  pub txs : IndexLib ℕ (Heap delta.cells)
  pub lib : WriterLib (Heap delta.cells)

module _ {V : Type 0} (e : Env V) where
  abbrev Cells : Type 0
  Cells = Heap e.delta.cells

  -- A writer is a pointer, which stands in several of the lists.
  pub record StateCommitter : Type 0 where
    pub writers : List ℕ
    pub sync_writers : List ℕ
    pub async_writers : List ℕ
    pub writer_at : ℕ → e.lib.Writer
    pub by_path : e.paths.Index
    pub by_tx_id : e.txs.Index

  -- `MoveIf` takes the synchronous writers out of the slice, whose array `committer.writers` shares;
  -- the asynchronous ones are what it leaves of the slice.
  abbrev pub new_state_committer : List ℕ → (ℕ → e.lib.Writer) → StateCommitter
  new_state_committer writers writer_at =
      let is_sync = λ (w : ℕ). e.lib.is_sync (writer_at w) in
      let split = e.delta.slices.move_if is_sync writers in
      record {
        writers = e.delta.slices.array_after_move is_sync writers;
        sync_writers = split.0;
        async_writers = split.1;
        writer_at = writer_at;
        by_path = e.paths.new;
        by_tx_id = e.txs.new;
      }

  -- A method has changed the writer behind the pointer.
  abbrev pub put_writer : ℕ → e.lib.Writer → (ℕ → e.lib.Writer) → ℕ → e.lib.Writer
  put_writer r w writer_at q = if q == r then w else writer_at q

  -- The callbacks of `PathIndexer`.
  unfoldable pub path_key : Ref → Cells → Option (Bytes × Bool)
  path_key r h = e.delta.cells.get_path (h r) >>= λ path. some (path, true)

  unfoldable pub path_group : Bytes → Ref → Cells → List Ref × Cells
  path_group path r h =
      if is_none (e.delta.cells.value (h r)) then (r ∷ [], h) else (r ∷ [], e.preload path r h)

  -- Those of `TxIndexer`; the key of a transition that is left out is not read.
  unfoldable pub tx_key : Ref → Cells → Option (ℕ × Bool)
  tx_key r h =
      if not (e.delta.cells.if_skip_conflict_check (h r))
      then some (e.delta.cells.get_tx (h r), true)
      else some (4294967295, false)

  unfoldable pub tx_group : ℕ → Ref → Cells → List Ref × Cells
  tx_group tx r h = (r ∷ [], h)

  -- The loop over the writers of `Import`.
  unfoldable pub import_all :
      List Ref → List ℕ → (ℕ → e.lib.Writer) → Cells → (ℕ → e.lib.Writer) × Cells
  import_all transitions [] writer_at h = (writer_at, h)
  import_all transitions (w ∷ ws) writer_at h =
      let done = e.lib.import transitions h (writer_at w) in
      import_all transitions ws (put_writer w done.0 writer_at) done.1

  unfoldable pub import : List Ref → Cells → StateCommitter → Option (StateCommitter × Cells)
  unfolding path_key path_group tx_key tx_group import_all
  import transitions h c =
      e.paths.import path_key path_group (λ path r group. group ++ r ∷ []) transitions h c.by_path
      >>= λ found.
          e.txs.import tx_key tx_group (λ tx r group. group ++ r ∷ []) transitions found.1
            c.by_tx_id
          >>= λ known.
              let done = import_all transitions c.writers c.writer_at known.1 in
              some (record c { writer_at = done.0; by_path = found.0; by_tx_id = known.0 }, done.1)

  unfoldable pub listed : ℕ → List ℕ → Bool
  listed tx [] = false
  listed tx (t ∷ ts) = (t == tx) || listed tx ts

  -- The loop over the transactions.
  unfoldable pub withdraw_others : List ℕ → List (ℕ × List Ref) → Cells → Cells
  unfolding listed withdraw_all
  withdraw_others txs [] h = h
  withdraw_others txs ((tx, rs) ∷ groups) h =
      withdraw_others txs groups (if listed tx txs then h else withdraw_all e.delta rs h)

  -- An empty list keeps all transitions.
  unfoldable pub whitelist : List ℕ → List (ℕ × List Ref) → Cells → Cells
  unfolding withdraw_others
  whitelist [] groups h = h
  whitelist (t ∷ txs) groups h = withdraw_others (t ∷ txs) groups h

  -- The transitions of one path, without those that are withdrawn.
  unfoldable pub finalize_group : List Ref → Cells → Option Cells
  unfolding Delta.finalize
  finalize_group [] h = some h
  finalize_group (r ∷ rs) h = Delta.finalize e.delta (r ∷ rs) h >>= λ done. some done.1

  unfoldable pub finalize_groups : List (Bytes × List Ref) → Cells → Option Cells
  unfolding finalize_group
  finalize_groups [] h = some h
  finalize_groups ((path, rs) ∷ groups) h =
      finalize_group (e.delta.slices.remove_if (withdrawn e.delta.cells h) rs) h >>= λ h'.
      finalize_groups groups h'

  unfoldable pub finalize : List ℕ → Cells → StateCommitter → Option (StateCommitter × Cells)
  unfolding whitelist finalize_groups
  finalize txs h c =
      finalize_groups (e.paths.groups c.by_path) (whitelist txs (e.txs.groups c.by_tx_id) h)
      >>= λ h'. some (record c { by_path = e.paths.new; by_tx_id = e.txs.new }, h')

  -- A method of every writer of a list.
  unfoldable pub each_writer :
      (e.lib.Writer → Option e.lib.Writer) → List ℕ → (ℕ → e.lib.Writer) → Option (ℕ → e.lib.Writer)
  each_writer run [] writer_at = some writer_at
  each_writer run (w ∷ ws) writer_at =
      run (writer_at w) >>= λ w'. each_writer run ws (put_writer w w' writer_at)

  unfoldable pub sync_precommit : Cells → StateCommitter → Option StateCommitter
  unfolding each_writer
  sync_precommit h c =
      each_writer (λ w. if e.lib.is_eth_storage w then some w else e.lib.precommit true h w)
        c.writers c.writer_at
      >>= λ writer_at. some (record c { writer_at = writer_at })

  unfoldable pub async_precommit : Cells → StateCommitter → Option StateCommitter
  unfolding each_writer
  async_precommit h c =
      each_writer (λ w. if e.lib.is_execution_cache w then some w else e.lib.precommit false h w)
        c.writers c.writer_at
      >>= λ writer_at. some (record c { writer_at = writer_at })

  unfoldable pub debug_precommit : List ℕ → Cells → StateCommitter → Option (StateCommitter × Cells)
  unfolding finalize sync_precommit async_precommit
  debug_precommit txs h c = finalize txs h c >>= λ done. sync_precommit done.1 done.0 >>= λ synced.
      async_precommit done.1 synced >>= λ both. some (both, done.1)

  unfoldable pub sync_commit : ℕ → Cells → StateCommitter → Option StateCommitter
  unfolding each_writer
  sync_commit block_num h c =
      each_writer (e.lib.commit block_num h) c.sync_writers c.writer_at >>= λ writer_at.
      some (record c { writer_at = writer_at })

  unfoldable pub async_commit : ℕ → Cells → StateCommitter → Option StateCommitter
  unfolding each_writer
  async_commit block_num h c =
      each_writer (e.lib.commit block_num h) c.async_writers c.writer_at >>= λ writer_at.
      some (record c { writer_at = writer_at })

  unfoldable pub debug_commit : ℕ → Cells → StateCommitter → Option StateCommitter
  unfolding sync_commit async_commit
  debug_commit block_num h c =
      sync_commit block_num h c >>= λ synced. async_commit block_num h synced
