-- ===== src/ExecStore/Reads.antt =====
-- `ReadCell` and what is built on it: a path reads its view if its parent's metadata lists it.
use state_engine.Prelude.{
  ℕ, ◌≡◌, refl, sym, ap, ◌∙◌, Bool, true, false, Option, none, some, Bytes, bytes_eq, ◌||◌, drop,
  length, Bool-cases, inl, inr, if◌then◌else◌, ◌>>=◌, sub_ℕ,
}
use state_engine.Paths.Parent.{get_parent_path}
use state_engine.Platform.{is_immediate_child_of_sys_path}
use state_engine.ExecStore.{ExecLib, Exec, Found}
use state_engine.ExecStore.Read.{
  resolve_cell_for_read, exists_in_meta, ask_parent, exists_in_parent, missing, read_cell, size_of,
  diff_size,
}
use state_engine.ExecStore.Lookups.{CellLaws, view, IsKeyed, ViewsBut, ViewsBut-two}
use state_engine.ExecStore.Resolve.{Agrees, Agrees-refl, resolve_cell_for_read-Agrees}

abbrev pub parent_of_path : Bytes → Bytes
parent_of_path path = (get_parent_path path).0

module _ (l : ExecLib) where
  -- Whether the parent's metadata lists the path; `none` where the metadata is not of a path.
  unfoldable pub listed : Bytes → Exec l → Option Bool
  unfolding exists_in_meta
  listed path s =
      if is_immediate_child_of_sys_path s.platform path
      then some true
      else exists_in_meta l (view l (parent_of_path path) (some l.new_path) s)
          (drop (length (parent_of_path path)) path)

  module _ (laws : CellLaws l) where
    exists_in_parent-listed :
        (tx : ℕ) (path : Bytes) (add : Bool) (s : Exec l) (b : Bool)
        → IsKeyed l s
        → listed path s ≡ some b
        → (s' : Exec l) × (exists_in_parent l tx path add s ≡ some (s', b))
          × Agrees l laws (parent_of_path path) (some l.new_path) s s'
    unfolding exists_in_parent ask_parent listed
    exists_in_parent-listed tx path add s b keyed h =
        let parent = parent_of_path path in
        let child = drop (length parent) path in
        let meta = view l parent (some l.new_path) s in
        let choose : Bool → Option Bool =
          λ x. if x then some true else exists_in_meta l meta child in
        let test : Bool → Option (Exec l × Bool) =
          λ x. if x then some (s, true) else ask_parent l tx parent path add s in
        elim (Bool-cases (is_immediate_child_of_sys_path s.platform path)) [
          | inl e ↦
              let known : some true ≡ some b = sym (ap choose e) ∙ h in
              (
                s,
                ap test e ∙ ap (λ o. o >>= λ ok. some (s, ok)) known,
                Agrees-refl l laws parent (some l.new_path) s keyed,
              )
          | inr e ↦
              let known : exists_in_meta l meta child ≡ some b = sym (ap choose e) ∙ h in
              let (s', f, done, val, same) =
                resolve_cell_for_read-Agrees l laws tx parent (some l.new_path) add s keyed in
              (
                s',
                ap test e
                    ∙ ap
                        (λ r. r >>= λ got.
                          exists_in_meta l got.1.value child >>= λ ok. some (got.0, ok))
                        done
                    ∙ ap (λ v. exists_in_meta l v child >>= λ ok. some (s', ok)) val
                    ∙ ap (λ o. o >>= λ ok. some (s', ok)) known,
                same,
              )
        ]

    -- A path that is not listed.
    read_cell-unlisted :
        (tx : ℕ) (path : Bytes) (hint : Option l.Value) (add : Bool) (s : Exec l)
        → IsKeyed l s
        → listed path s ≡ some false
        → (s' : Exec l) × (read_cell l tx path hint add s ≡ some (s', missing l tx path))
          × Agrees l laws (parent_of_path path) (some l.new_path) s s'
    unfolding read_cell
    read_cell-unlisted tx path hint add s keyed h =
        let (s', done, same) = exists_in_parent-listed tx path add s false keyed h in
        (
          s',
          ap
              (λ r. r >>= λ got.
                if got.1
                then resolve_cell_for_read l tx path hint add got.0
                else some (got.0, missing l tx path))
              done,
          same,
        )

    read_cell-listed :
        (tx : ℕ) (path : Bytes) (hint : Option l.Value) (add : Bool) (s : Exec l)
        → IsKeyed l s
        → bytes_eq (parent_of_path path) path ≡ false
        → listed path s ≡ some true
        → (s' : Exec l) × (f : Found l) × (read_cell l tx path hint add s ≡ some (s', f))
          × (f.value ≡ view l path hint s)
          × (view l path hint s' ≡ view l path hint s)
          × ((k : Bytes) (h : Option l.Value)
              → bytes_eq (parent_of_path path) k ≡ false
              → bytes_eq path k ≡ false
              → view l k h s' ≡ view l k h s)
          × IsKeyed l s'
    unfolding read_cell
    read_cell-listed tx path hint add s keyed apart h =
        let (s1, done, (_, _, same, keyed1)) = exists_in_parent-listed tx path add s true keyed h in
        let (s2, f, found, val, (_, same1, same2, keyed2)) =
          resolve_cell_for_read-Agrees l laws tx path hint add s1 keyed1 in
        (
          s2,
          f,
          ap
                (λ r. r >>= λ got.
                  if got.1
                  then resolve_cell_for_read l tx path hint add got.0
                  else some (got.0, missing l tx path))
                done
              ∙ found,
          val ∙ same path hint apart,
          same1 path ∙ same path hint apart,
          λ k x ne ne2. same2 k x ne2 ∙ same k x ne,
          keyed2,
        )

    pub read_cell-found :
        (tx : ℕ) (path : Bytes) (hint : Option l.Value) (add : Bool) (s : Exec l) (b : Bool)
        → IsKeyed l s
        → bytes_eq (parent_of_path path) path ≡ false
        → listed path s ≡ some b
        → (s' : Exec l) × (f : Found l) × (read_cell l tx path hint add s ≡ some (s', f))
          × (f.value ≡ (if b then view l path hint s else none))
          × (view l path hint s' ≡ view l path hint s)
          × ((k : Bytes) (h : Option l.Value)
              → bytes_eq (parent_of_path path) k ≡ false
              → bytes_eq path k ≡ false
              → view l k h s' ≡ view l k h s)
          × IsKeyed l s'
    read_cell-found tx path hint add s true keyed apart h =
        read_cell-listed tx path hint add s keyed apart h
    read_cell-found tx path hint add s false keyed apart h =
        let (s', done, (_, _, same, keyed')) = read_cell-unlisted tx path hint add s keyed h in
        (s', missing l tx path, done, refl, same path hint apart, λ k x ne _. same k x ne, keyed')

    -- `ReadCell` of a path other than its own parent, on a store whose local cells stand under their
    -- own paths and where the parent's metadata is of a path: it does not panic, it finds the view of
    -- the path if the metadata lists it (or the path is an immediate child of a system path), and
    -- nothing if not. The path keeps its view under the hint of the read, and the paths other than
    -- this one and its parent keep theirs under every hint.
    pub read_cell-readable :
        (tx : ℕ) (path : Bytes) (hint : Option l.Value) (add : Bool) (s : Exec l) (b : Bool)
        → IsKeyed l s
        → bytes_eq (parent_of_path path) path ≡ false
        → listed path s ≡ some b
        → (s' : Exec l) × (f : Found l) × (read_cell l tx path hint add s ≡ some (s', f))
          × (f.value ≡ (if b then view l path hint s else none))
          × (view l path hint s' ≡ view l path hint s)
          × ViewsBut l (λ k. bytes_eq (parent_of_path path) k || bytes_eq path k) s s'
          × IsKeyed l s'
    read_cell-readable tx path hint add s b keyed apart h =
        let (s', f, done, val, stays, same, keyed') =
          read_cell-found tx path hint add s b keyed apart h in
        (s', f, done, val, stays, ViewsBut-two l (parent_of_path path) path s s' same, keyed')

    -- `DiffSize`, where `ReadCell` does not panic: the size of the new value less that of the
    -- value that is read.
    pub diff_size-readable :
        (tx : ℕ) (path : Bytes) (new_val : Option l.Value) (s : Exec l) (b : Bool)
        → IsKeyed l s
        → bytes_eq (parent_of_path path) path ≡ false
        → listed path s ≡ some b
        → (s' : Exec l) × (diff_size l tx path new_val s
            ≡ some (
              s',
              sub_ℕ (size_of l new_val) (size_of l (if b then view l path new_val s else none)),
            ))
          × (view l path new_val s' ≡ view l path new_val s)
          × ((k : Bytes) (h : Option l.Value)
              → bytes_eq (parent_of_path path) k ≡ false
              → bytes_eq path k ≡ false
              → view l k h s' ≡ view l k h s)
          × IsKeyed l s'
    unfolding diff_size
    diff_size-readable tx path new_val s b keyed apart h =
        let (s', f, done, val, stays, same, keyed') =
          read_cell-found tx path new_val false s b keyed apart h in
        (
          s',
          ap (λ r. r >>= λ got. some (got.0, sub_ℕ (size_of l new_val) (size_of l got.1.value)))
                done
              ∙ ap (λ v. some (s', sub_ℕ (size_of l new_val) (size_of l v))) val,
          stays,
          same,
          keyed',
        )
