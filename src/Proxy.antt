-- ===== src/Proxy.antt =====
-- storage/proxy/state_proxy.go: the filters of the transitions, the writers in their order and the
-- codecs of the two execution stores. A run that panics is `none` or `panics`.
use state_engine.Prelude.{
  Bool, true, not, ◌&&◌, Option, none, some, List, [], ◌∷◌, ◌++◌, Bytes, ◌==◌, if◌then◌else◌, ◌>>=◌,
}
use state_engine.Libs.Cells.{CellLib, Ref, Heap}
use state_engine.Paths.Persist.{should_persist_to_eth}
use state_engine.Platform.{Platform, is_sys_path}
use state_engine.Codec.{Decoded, decoded, failed, panics}
use state_engine.Codec.Arco.{CrdtLib, arco_encode, arco_decode}

-- The writers of a proxy.
pub data WriterKind : Type 0 where
  live_cache : WriterKind
  eth_storage : WriterKind
  live_storage : WriterKind

unfoldable pub sync_writers : List WriterKind
sync_writers = live_cache ∷ []

unfoldable pub async_writers : List WriterKind
async_writers = eth_storage ∷ live_storage ∷ []

unfoldable pub get_writers : List WriterKind
unfolding sync_writers async_writers
get_writers = sync_writers ++ async_writers

-- The paths among the values. `reset` resets the path that a cell holds.
pub record PathLib {V : Type 0} (c : CellLib V) : Type 0 where
  pub is_path : V → Bool
  pub is_block_bound : V → Bool
  pub reset : c.Cell → c.Cell

module _ {V : Type 0} (c : CellLib V) (p : PathLib c) where
  abbrev update_cell : Ref → Heap c → Heap c
  update_cell r h q = if q == r then p.reset (h q) else h q

  -- The path is read where the value is a path of the block only.
  unfoldable pub reset_transient : Platform → Ref → Heap c → Option (Heap c)
  unfolding is_sys_path
  reset_transient platform r h =
      let reset =
        (c.get_path (h r) >>= λ path.
        some (if is_sys_path platform path then update_cell r h else h)) in
      elim (c.value (h r)) [
        | none ↦ some h
        | some v ↦ if p.is_path v && p.is_block_bound v then reset else some h
      ]

  unfoldable pub non_transient_only : Platform → Ref → Heap c → Option (Bool × Heap c)
  unfolding reset_transient
  non_transient_only platform r h =
      reset_transient platform r h >>= λ h. some (not (c.is_block_bound (h r)), h)

  unfoldable pub eth_only : Ref → Heap c → Option Bool
  unfolding should_persist_to_eth
  eth_only r h = c.get_path (h r) >>= λ path. some (should_persist_to_eth path)

  unfoldable pub all : Ref → Heap c → Bool
  all r h = true

module _ {V : Type 0} (c : CrdtLib V) where
  -- The codec of the live cache. Nothing is decoded as nil.
  unfoldable pub live_cache_encode : Bytes → Option V → Bytes × Bytes
  unfolding arco_encode
  live_cache_encode key v = (key, arco_encode c v)

  abbrev with_key : Bytes → Decoded (Option V) → Decoded (Bytes × Option V)
  with_key key (decoded v) = decoded (key, v)
  with_key key failed = failed
  with_key key panics = panics

  unfoldable pub live_cache_decode : Bytes → Bytes → Decoded (Bytes × Option V)
  unfolding arco_decode
  live_cache_decode key buffer = with_key key (arco_decode c 0 buffer)

  -- The codec of the live storage: nil stays nil, and nothing cannot be decoded.
  unfoldable pub live_storage_encode : Bytes → Option V → Bytes × Option Bytes
  unfolding arco_encode
  live_storage_encode key none = (key, none)
  live_storage_encode key (some v) = (key, some (arco_encode c (some v)))

  abbrev with_value : Bytes → Decoded (Option V) → Decoded (Bytes × V)
  with_value key (decoded none) = failed
  with_value key (decoded (some v)) = decoded (key, v)
  with_value key failed = failed
  with_value key panics = panics

  unfoldable pub live_storage_decode : Bytes → Bytes → Decoded (Bytes × V)
  unfolding arco_decode
  live_storage_decode key buffer = with_value key (arco_decode c 0 buffer)
