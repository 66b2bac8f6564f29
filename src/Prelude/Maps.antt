-- ===== src/Prelude/Maps.antt =====
-- Go maps with string keys, as association lists.
use mathlib.Core.Path.{◌≡◌, refl}
use mathlib.Core.Option.{Option, none, some}
use mathlib.Core.List.{List, [], ◌∷◌}
use native.Mathlib.Omega.{arith}
use state_engine.Prelude.Tests.{if◌then◌else◌}
use state_engine.Prelude.Strings.{Bytes, bytes_eq, bytes_eq_iff, bytes_eq_refl}

module _ {ℓ} {A : Type ℓ} where
  -- `m[k]`
  unfoldable pub map_get : Bytes → List (Bytes × A) → Option A
  map_get k [] = none
  map_get k ((j, v) ∷ m) = if bytes_eq j k then some v else map_get k m

  -- `m[k] = v`
  unfoldable pub map_put : Bytes → A → List (Bytes × A) → List (Bytes × A)
  map_put k v [] = (k, v) ∷ []
  map_put k v ((j, w) ∷ m) = if bytes_eq j k then (k, v) ∷ m else (j, w) ∷ map_put k v m

  pub map_get-put :
      (k j : Bytes) (v : A) (m : List (Bytes × A))
      → map_get j (map_put k v m) ≡ (if bytes_eq k j then some v else map_get j m)
  unfolding map_get map_put
  map_get-put k j v [] = refl
  map_get-put k j v ((i, w) ∷ m) =
      ground (arith, bytes_eq_iff k j, bytes_eq_iff i k, bytes_eq_iff i j, map_get-put k j v m)

  pub map_get-put_self :
      (k : Bytes) (v : A) (m : List (Bytes × A)) → map_get k (map_put k v m) ≡ some v
  map_get-put_self k v m = ground (arith, map_get-put k k v m, bytes_eq_refl k)
