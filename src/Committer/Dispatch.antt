-- ===== src/Committer/Dispatch.antt =====
-- `SyncCommit` followed by `AsyncCommit`.
use state_engine.Prelude.{
  ℕ, ◌≡◌, refl, sym, ap, ◌∙◌, Bool, true, false, not, ◌==◌, Option, none, some, List, [], ◌∷◌, keep,
  ◌>>=◌, Bool-cases, inl, inr, arith, false≢true, subst,
}
use state_engine.Libs.SliceLib.{SliceLaws}
use state_engine.Libs.Cells.{Heap}
use state_engine.Delta.Merge.{holds}
use state_engine.Delta.Distinct.{
  IsDistinct, holds-keep, unheld-keep, holds_of_keep, not-true, keep-IsDistinct,
}
use state_engine.Committer.{
  Env, StateCommitter, new_state_committer, put_writer, each_writer, sync_commit, async_commit,
  debug_commit,
}

-- What a test turns down is not kept.
front_lacks :
    (test : ℕ → Bool) (q : ℕ) (ws : List ℕ) → test q ≡ false → holds q (keep test ws) ≡ false
front_lacks test q ws off = elim (Bool-cases (holds q (keep test ws))) [
  | inr out ↦ out
  | inl inside ↦ absurd (false≢true (sym off ∙ (holds_of_keep test q ws inside).1))
]

module _ {V : Type 0} (e : Env V) where
  abbrev pub Writers : Type 0
  Writers = ℕ → e.lib.Writer

  -- Every writer of the list can be committed.
  abbrev pub AllCommit : (e.lib.Writer → Option e.lib.Writer) → List ℕ → Writers → Type 0
  AllCommit run ws s = (q : ℕ) → holds q ws ≡ true → (w : e.lib.Writer) × (run (s q) ≡ some w)

  -- The writers of the list have been committed once, and the others not at all.
  abbrev pub AreCommitted :
      (e.lib.Writer → Option e.lib.Writer) → List ℕ → Writers → Writers → Type 0
  AreCommitted run ws s s' =
      ((q : ℕ) → holds q ws ≡ true → run (s q) ≡ some (s' q))
      × ((q : ℕ) → holds q ws ≡ false → s' q ≡ s q)

  held_first : (q : ℕ) (ws : List ℕ) → holds q (q ∷ ws) ≡ true
  held_first q ws = ground arith

  put_writer-other :
      (r q : ℕ) (w : e.lib.Writer) (s : Writers) → (q == r) ≡ false → put_writer e r w s q ≡ s q
  put_writer-other r q w s other = rw other refl

  -- A pointer of the rest is another one than the first.
  apart : (r q : ℕ) (ws : List ℕ) → holds r ws ≡ false → holds q ws ≡ true → (q == r) ≡ false
  apart r q ws out here = elim (Bool-cases (q == r)) [
    | inr ne ↦ ne
    | inl eq ↦
        let same : q ≡ r = ground (arith, eq) in
        absurd (false≢true (sym out ∙ ap (λ x. holds x ws) (sym same) ∙ here))
  ]

  each_writer-once :
      (run : e.lib.Writer → Option e.lib.Writer) (ws : List ℕ) (s : Writers)
      → IsDistinct ws
      → AllCommit run ws s
      → (s' : Writers) × (each_writer e run ws s ≡ some s') × AreCommitted run ws s s'
  unfolding each_writer
  each_writer-once run [] s d all = (s, refl, (λ q h. absurd (false≢true h), λ q h. refl))
  each_writer-once run (r ∷ ws) s (out, d) all =
      let (w, first) = all r (held_first r ws) in
      let s1 : Writers = put_writer e r w s in
      let same = λ (q : ℕ) (h : holds q ws ≡ true). put_writer-other r q w s (apart r q ws out h) in
      let (s', rest, (mine, others)) =
        each_writer-once run ws s1 d
          (λ q h. let (v, ends) = all q (ground (arith, h)) in (v, ap run (same q h) ∙ ends)) in
      (
        s',
        ap (λ o. o >>= λ w'. each_writer e run ws (put_writer e r w' s)) first ∙ rest,
        (
          λ q h. elim (Bool-cases (holds q ws)) [
            | inl later ↦ ap run (sym (same q later)) ∙ mine q later
            | inr no_more ↦
                let eq : q ≡ r = ground (arith, h, no_more) in
                subst (λ x. run (s x) ≡ some (s' x)) (sym eq)
                  (first ∙ ap some (sym (others r out ∙ ground arith)))
          ],
          λ q h. others q (ground (arith, h)) ∙ put_writer-other r q w s (ground (arith, h)),
        ),
      )

  -- Two rounds, over the pointers that pass a test and over the others.
  each_writer-split :
      (run : e.lib.Writer → Option e.lib.Writer) (test : ℕ → Bool) (ws : List ℕ) (s : Writers)
      → IsDistinct ws
      → AllCommit run ws s
      → (s' : Writers) × ((each_writer e run (keep test ws) s
            >>= each_writer e run (keep (λ r. not (test r)) ws))
          ≡ some s')
        × AreCommitted run ws s s'
  each_writer-split run test ws s d all =
      let front = keep test ws in
      let back = keep (λ r. not (test r)) ws in
      let (s1, one, (mine, others)) =
        each_writer-once run front s (keep-IsDistinct test ws d)
          (λ q h. all q (holds_of_keep test q ws h).0) in
      let untouched = λ (q : ℕ) (h : holds q back ≡ true).
        let (inside, off) = holds_of_keep (λ r. not (test r)) q ws h in
        others q (front_lacks test q ws (not-true (test q) off)) in
      let (s2, two, (mine2, others2)) =
        each_writer-once run back s1 (keep-IsDistinct (λ r. not (test r)) ws d) (λ q h.
          let (v, ends) = all q (holds_of_keep (λ r. not (test r)) q ws h).0 in
          (v, ap run (untouched q h) ∙ ends)) in
      (
        s2,
        ap (λ o. o >>= each_writer e run back) one ∙ two,
        (
          λ q h. elim (Bool-cases (test q)) [
            | inl on ↦
                mine q (holds-keep test q ws on ∙ h)
                ∙ ap some (sym (others2 q (front_lacks (λ r. not (test r)) q ws (ap not on))))
            | inr off ↦
                let inside = holds-keep (λ r. not (test r)) q ws (ap not off) ∙ h in
                ap run (sym (untouched q inside)) ∙ mine2 q inside
          ],
          λ q h.
              others2 q (unheld-keep (λ r. not (test r)) q ws h)
              ∙ others q (unheld-keep test q ws h),
        ),
      )

  bind-record :
      (c : StateCommitter e) (run : e.lib.Writer → Option e.lib.Writer) (o : Option Writers)
      → ((o >>= λ s. some (record c { writer_at = s })) >>= λ d.
          each_writer e run d.async_writers d.writer_at >>= λ s. some (record d { writer_at = s }))
        ≡ ((o >>= each_writer e run c.async_writers) >>= λ s. some (record c { writer_at = s }))
  bind-record c run none = refl
  bind-record c run (some s) = refl

  -- On the lists of writers that `NewStateCommitter` has made of distinct writers, whatever has
  -- become of the writers themselves since: if each of them can be committed, `SyncCommit` and then
  -- `AsyncCommit` end without a panic, every writer has been committed exactly once, and no other
  -- writer has changed. The slices keep their laws.
  pub debug_commit-once :
      (sl : SliceLaws e.delta.slices) (ws : List ℕ) (s : Writers) (block_num : ℕ)
      (h : Heap e.delta.cells) (c : StateCommitter e)
      → IsDistinct ws
      → c.sync_writers ≡ (new_state_committer e ws s).sync_writers
      → c.async_writers ≡ (new_state_committer e ws s).async_writers
      → AllCommit (e.lib.commit block_num h) ws c.writer_at
      → (s' : Writers) × (debug_commit e block_num h c ≡ some (record c { writer_at = s' }))
        × AreCommitted (e.lib.commit block_num h) ws c.writer_at s'
  unfolding debug_commit sync_commit async_commit
  debug_commit-once sl ws s block_num h c d sync async all =
      let run = e.lib.commit block_num h in
      let is_sync = λ (w : ℕ). e.lib.is_sync (s w) in
      let split = sl.move_if_lem is_sync ws in
      let (s', done, committed) = each_writer-split run is_sync ws c.writer_at d all in
      (
        s',
        bind-record c run (each_writer e run c.sync_writers c.writer_at)
            ∙ ap
                (λ l.
                  (each_writer e run l c.writer_at >>= each_writer e run c.async_writers) >>= λ s.
                  some (record c { writer_at = s }))
                (sync ∙ ap (λ p. p.0) split)
            ∙ ap
                (λ l.
                  (each_writer e run (keep is_sync ws) c.writer_at >>= each_writer e run l) >>= λ s.
                  some (record c { writer_at = s }))
                (async ∙ ap (λ p. p.1) split)
            ∙ ap (λ o. o >>= λ s. some (record c { writer_at = s })) done,
        committed,
      )
