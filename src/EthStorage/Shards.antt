-- ===== src/EthStorage/Shards.antt =====
-- The shard of a key: the index into the 16 databases is in range.
use state_engine.Prelude.{
  ℕ, suc, zero, ◌/◌, ◌<◌, ◌≡◌, refl, some, List, [], ◌∷◌, Bytes, length, get_elem?, arith,
}
use state_engine.EthStorage.Backend.{EthShardTrieDb, shard_from_key}

get_elem?-some :
    {A : Type 0} (xs : List A) (i : ℕ) → i < length xs → (x : A) × (get_elem? xs i ≡ some x)
get_elem?-some [] i h = absurd (omega arith)
get_elem?-some (x ∷ xs) zero h = (x, refl)
get_elem?-some (x ∷ xs) (suc i) h = get_elem?-some xs i (omega arith)

-- The first character of a key, if it has one, is a byte.
abbrev pub StartsWithByte : Bytes → Type 0
StartsWithByte [] = Unit
StartsWithByte (c ∷ key) = c < 256

-- `ShardFromKey` of a database with a handle for each of the 16 shards never panics, whatever the
-- bytes of the key are, also on the empty key.
pub shard_from_key-some :
    (key : Bytes) (b : EthShardTrieDb)
    → length b.disk_shards ≡ 16
    → StartsWithByte key
    → (handle : ℕ) × (shard_from_key key b ≡ some handle)
unfolding shard_from_key
shard_from_key-some [] b full h = get_elem?-some b.disk_shards 0 (omega arith)
shard_from_key-some (c ∷ key) b full h = get_elem?-some b.disk_shards (c / 16) (omega arith)
