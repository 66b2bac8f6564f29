-- ===== src/ExecStore/Sizes.antt =====
-- `Write`: the missing parent, and the difference of sizes that it returns.
use state_engine.Prelude.{
  ℕ, ◌≡◌, refl, ap, ◌∙◌, Bool, true, false, ◌||◌, ◌==◌, Option, none, some, Bytes, bytes_eq,
  if◌then◌else◌, ◌>>=◌, pos, sub_ℕ, arith,
}
use state_engine.Paths.Constants.{system}
use state_engine.Platform.{is_immediate_child_of_sys_path, is_container_path}
use state_engine.ExecStore.{ExecLib, Exec, Error, parent_missing}
use state_engine.ExecStore.Read.{has_path, size_of}
use state_engine.ExecStore.Write.{is_special, write_cell, is_invalid, write}
use state_engine.ExecStore.Lookups.{CellLaws, view, IsKeyed, ViewsBut, ViewsBut-two}
use state_engine.ExecStore.Reads.{parent_of_path, listed, diff_size-readable}
use state_engine.ExecStore.Writes.{IsPlainWrite, write_cell-done}

sub_ℕ_self : (n : ℕ) → sub_ℕ n n ≡ pos 0
sub_ℕ_self n = ground arith

module _ (l : ExecLib) (laws : CellLaws l) where
  -- A write of `tx`, not the system, whose parent does not exist: if the parent's metadata is of a
  -- path, or missing, `Write` returns the error that names the two paths, and the size of the value
  -- less that of the one in view, or the whole size where the path is not listed. All paths but this
  -- one and its parent keep their views.
  pub write-parent_missing :
      (tx : ℕ) (path : Bytes) (value : Option l.Value) (s : Exec l) (b : Bool)
      → IsKeyed l s
      → bytes_eq (parent_of_path path) path ≡ false
      → listed l path s ≡ some b
      → is_invalid l value ≡ false
      → (has_path l (parent_of_path path) s || (tx == system)) ≡ false
      → (s' : Exec l) × (write l tx path value s
          ≡ some (
            s',
            (
              sub_ℕ (size_of l value) (size_of l (if b then view l path value s else none)),
              some (parent_missing (parent_of_path path) path),
            ),
          ))
        × ViewsBut l (λ k. bytes_eq (parent_of_path path) k || bytes_eq path k) s s'
  unfolding write write_cell
  write-parent_missing tx path value s b keyed apart there valid orphan =
      let (s', done, _, same, _) = diff_size-readable l laws tx path value s b keyed apart there in
      let err : Option Error = some (parent_missing (parent_of_path path) path) in
      (
        s',
        rw (write, valid) (rw (write_cell, orphan) refl)
            ∙ ap (λ x. x >>= λ diff. some (diff.0, (diff.1, err))) done,
        ViewsBut-two l (parent_of_path path) path s s' same,
      )

  -- A write of an immediate child of a system path that is no expression, where the parent is no
  -- container and exists (or `tx` is the system), on cells that take every value: `Write` has no
  -- error, the path has the value as its view, and the difference of sizes returned is 0, whatever
  -- the path held before.
  pub write-size_zero :
      (tx : ℕ) (path : Bytes) (value : Option l.Value) (s : Exec l)
      → IsKeyed l s
      → IsPlainWrite l tx path
      → bytes_eq (parent_of_path path) path ≡ false
      → is_special path ≡ false
      → is_container_path s.platform (parent_of_path path) ≡ false
      → is_immediate_child_of_sys_path s.platform path ≡ true
      → is_invalid l value ≡ false
      → (has_path l (parent_of_path path) s || (tx == system)) ≡ true
      → (s' : Exec l) × (write l tx path value s ≡ some (s', (pos 0, none)))
        × (view l path value s' ≡ value)
  unfolding write listed
  write-size_zero tx path value s keyed plain apart named flat child valid there =
      let (s1, c, done, platform, seen, _, keyed1) =
        write_cell-done l laws tx path value s keyed plain apart named flat there in
      let found : listed l path s1 ≡ some true =
        rw (listed, ap (λ p. is_immediate_child_of_sys_path p path) platform ∙ child) refl in
      let (s2, diff, stays, _, _) =
        diff_size-readable l laws tx path value s1 true keyed1 apart found in
      (
        s2,
        rw (write, valid, done) refl
            ∙ ap (λ x. x >>= λ d. some (d.0, (d.1, none))) diff
            ∙ ap (λ v. some (s2, (sub_ℕ (size_of l value) (size_of l v), none))) (seen value)
            ∙ ap (λ n. some (s2, (n, none))) (sub_ℕ_self (size_of l value)),
        stays ∙ seen value,
      )
