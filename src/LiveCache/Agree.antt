-- ===== src/LiveCache/Agree.antt =====
-- Writes of a block to the cache, and the same ones, encoded, to the storage.
use state_engine.Prelude.{
  ◌≡◌, inl, inr, refl, ap, Bool, true, false, Option, none, some, List, [], ◌∷◌, map, Bytes,
  bytes_eq, bytes_eq_iff, ℕ, if◌then◌else◌, Bool-cases, arith,
}
use state_engine.LiveStorage.Writes.{settle, last_set, is_deleted}

module _ {V W : Type 0} (convert : Bytes → V → Bytes × W × Option ℕ) where
  abbrev pub encode_write : Bytes × Option V → Bytes × Option W
  encode_write (k, none) = (k, none)
  encode_write (k, some v) = (k, some (convert k v).1)

  -- What the storage has at a key agrees with what the cache has there, if it has something.
  abbrev pub Agrees : Bytes → Option V → Option W → Type 0
  Agrees k none stored = Unit
  Agrees k (some v) stored = stored ≡ some (convert k v).1

  set-Agrees :
      (k j : Bytes) (v : V) (old : Option V) (stored : Option W)
      → Agrees k old stored
      → Agrees k
          (if bytes_eq j k then some v else old)
          (if bytes_eq j k then some (convert j v).1 else stored)
  set-Agrees k j v old stored a = elim (Bool-cases (bytes_eq j k)) [
    | inl same ↦ rw same (ap (λ i. some (convert i v).1) ((bytes_eq_iff j k).0 same))
    | inr other ↦ rw other a
  ]

  last_set-Agrees :
      (k : Bytes) (ws : List (Bytes × Option V)) (old : Option V) (stored : Option W)
      → Agrees k old stored
      → Agrees k (last_set k ws old) (last_set k (map encode_write ws) stored)
  unfolding last_set
  last_set-Agrees k [] old stored a = a
  last_set-Agrees k ((j, none) ∷ ws) old stored a = last_set-Agrees k ws old stored a
  last_set-Agrees k ((j, some v) ∷ ws) old stored a =
      last_set-Agrees k ws (if bytes_eq j k then some v else old)
        (if bytes_eq j k then some (convert j v).1 else stored) (set-Agrees k j v old stored a)

  is_deleted-map :
      (k : Bytes) (ws : List (Bytes × Option V))
      → is_deleted k (map encode_write ws) ≡ is_deleted k ws
  unfolding is_deleted
  is_deleted-map k [] = refl
  is_deleted-map k ((j, none) ∷ ws) = ground (arith, is_deleted-map k ws)
  is_deleted-map k ((j, some v) ∷ ws) = ground (arith, is_deleted-map k ws)

  deleted-Agrees :
      (k : Bytes) (b : Bool) (old : Option V) (stored : Option W)
      → Agrees k old stored
      → Agrees k (if b then none else old) (if b then none else stored)
  deleted-Agrees k true old stored a = tt
  deleted-Agrees k false old stored a = a

  -- The same writes, encoded for the storage, keep the agreement.
  pub settle-Agrees :
      (k : Bytes) (ws : List (Bytes × Option V)) (old : Option V) (stored : Option W)
      → Agrees k old stored
      → Agrees k (settle k ws old) (settle k (map encode_write ws) stored)
  unfolding settle
  settle-Agrees k ws old stored a =
      last_set-Agrees k ws (if is_deleted k ws then none else old)
        (if is_deleted k (map encode_write ws) then none else stored)
        (rw (is_deleted-map k ws) (deleted-Agrees k (is_deleted k ws) old stored a))
