-- ===== src/Tests/Paths.antt =====
-- The theorems on paths, the platform and the builder, at concrete paths.
use mathlib.Core.Option
use state_engine.Prelude.{
  ◌*◌, ◌≡◌, refl, true, false, [], ◌∷◌, ◌++◌, arith, length, take, get_elem?, bytes_eq, Bytes,
  codes, contains_byte, has_suffix,
}
use state_engine.Paths.Constants.{eth_account_prefix, path_eth_native}
use state_engine.Paths.Parent.{get_parent_path, IsCut, get_parent_path-IsCut}
use state_engine.Paths.Segment.{wrap, segments, get_segment_at, get_segment_at-segments}
use state_engine.Paths.Persist.{
  sample_account, is_account_field, storage_path, should_persist_to_eth,
  should_persist_to_eth-storage,
}
use state_engine.Platform.{TypeIds}
use state_engine.Builder.{Encoders, PathBuilder, derive_uid_from_path}
use state_engine.Builder.Laws.{derive_uid_from_path-x}

abbrev slot_path : Bytes
slot_path = codes "/a/bc"

get_parent_path-IsCut_example : IsCut slot_path (get_parent_path slot_path)
unfolding bytes_eq
get_parent_path-IsCut_example = get_parent_path-IsCut slot_path (λ e. cc) refl

get_segment_at-segments_example :
    get_segment_at slot_path 1 true false
    ≡ Option.map (wrap true false) (get_elem? (segments slot_path) 1)
get_segment_at-segments_example = get_segment_at-segments slot_path 1 true false

abbrev sample_address : Bytes
sample_address = codes "0x41eff1c3adfca1ccacced2198241747863dbf800"

abbrev nested : Bytes
nested = sample_account ++ codes "/storage/container/c"

abbrev ids : TypeIds
ids = record { path = 1; bytes = 2; uint64 = 3; uint256 = 4 }

abbrev digits : Bytes
digits = codes "41eff1c3adfca1ccacced2198241747863dbf800/storage/container/"

-- Encoders that keep the lengths: every byte is written as two zeros.
abbrev zeros : Bytes → Bytes
zeros [] = []
zeros (c ∷ s) = 48 ∷ 48 ∷ zeros s

length-zeros : (s : Bytes) → length (zeros s) ≡ 2 * length s
length-zeros [] = refl
length-zeros (c ∷ s) = omega (arith, length-zeros s)

abbrev encoders : Encoders
encoders = record { uint64_from_bytes = λ s. length s; hex_encode = λ s. 48 ∷ 120 ∷ zeros s }

abbrev builder : PathBuilder
builder = record {
  sender = [];
  address = take 20 sample_account;
  selector = codes "abcd";
  platform = 1;
}

derive_uid_from_path-x_example :
    derive_uid_from_path encoders builder (eth_account_prefix ++ (codes "0x" ++ digits))
    ≡ (builder, 0)
derive_uid_from_path-x_example = derive_uid_from_path-x encoders builder digits (omega arith)

should_persist_to_eth-storage_example :
    should_persist_to_eth (
      storage_path
        (codes "0x41eff1c3adfca1ccacced2198241747863dbf800")
        (codes "native")
        (codes "0x01"))
    ≡ bytes_eq (codes "native" ++ codes "/") path_eth_native
unfolding contains_byte is_account_field has_suffix bytes_eq
should_persist_to_eth-storage_example =
    should_persist_to_eth-storage (codes "0x41eff1c3adfca1ccacced2198241747863dbf800")
      (codes "native") (codes "0x01") refl refl (λ e. cc) refl refl refl
