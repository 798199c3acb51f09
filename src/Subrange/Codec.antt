-- ===== src/Subrange/Codec.antt =====
-- SubRange::Decode and SubRange::DecodeForCompaction against their encoders.
use bl_nova_lsm.Common.{ℕ, ◌≡◌, some, List, [], ◌∷◌, ◌++◌, append_assoc, length, All}
use bl_nova_lsm.Coding.{Bytes, IsU32, encode_fixed32}
use bl_nova_lsm.Coding.Fixed.{decode_fixed32_word}
use bl_nova_lsm.Coding.Lists.{encode_all, decode_all, decode_all-encode_all}
use bl_nova_lsm.Range.{Range, encode_range, decode_range}
use bl_nova_lsm.Range.Codec
use bl_nova_lsm.Range.Codec.{decode_range-encode_range}
use bl_nova_lsm.Subrange.{
  SubRange, new_subrange, encode_subrange, decode_subrange, hull, encode_for_compaction,
  decode_for_compaction,
}

pub record IsEncodable (sr : SubRange) : Type 0 where
  pub num_duplicates_fits : IsU32 sr.num_duplicates
  pub count_fits : IsU32 (length sr.tiny_ranges)
  pub ranges_fit : All Codec.IsEncodable sr.tiny_ranges

-- What the message carries of a subrange. The compaction threads and the flag are not sent.
abbrev pub sent : ℕ → SubRange → SubRange
sent subrange_id sr = record new_subrange {
  tiny_ranges = sr.tiny_ranges;
  num_duplicates = sr.num_duplicates;
  decoded_subrange_id = subrange_id;
}

ranges_back :
    (rs : List Range) (rest : Bytes)
    → All Codec.IsEncodable rs
    → decode_all decode_range (length rs) (encode_all encode_range rs ++ rest) ≡ some (rs, rest)
ranges_back rs rest h =
    decode_all-encode_all encode_range decode_range Codec.IsEncodable decode_range-encode_range rs
      rest h

-- The ranges, the number of duplicates and the identifier are read back, and nothing behind them.
pub decode_subrange-encode_subrange :
    (id : ℕ) (sr : SubRange) (rest : Bytes)
    → IsU32 id
    → IsEncodable sr
    → decode_subrange (encode_subrange id sr ++ rest) ≡ some (sent id sr, rest)
unfolding decode_subrange encode_subrange
decode_subrange-encode_subrange id sr rest hid w = simp (
  append_assoc,
  decode_fixed32_word id _ hid,
  decode_fixed32_word sr.num_duplicates _ w.num_duplicates_fits,
  decode_fixed32_word (length sr.tiny_ranges) _ w.count_fits,
  ranges_back sr.tiny_ranges rest w.ranges_fit,
)

-- A compaction request carries one range from the first lower to the last upper bound.
pub decode_for_compaction-encode_for_compaction :
    (id : ℕ) (sr : SubRange) (r : Range) (rest : Bytes)
    → IsU32 id
    → IsU32 sr.num_duplicates
    → hull sr ≡ some r
    → Codec.IsEncodable r
    → (bytes : Bytes) × (encode_for_compaction id sr ≡ some bytes)
      × (decode_for_compaction (bytes ++ rest)
          ≡ some (sent id (record sr { tiny_ranges = r ∷ [] }), rest))
unfolding encode_for_compaction decode_for_compaction
decode_for_compaction-encode_for_compaction id sr r rest hid hn e w = (
  encode_fixed32 id ++ (encode_fixed32 sr.num_duplicates ++ encode_range r),
  rw e,
  simp (
    append_assoc,
    decode_fixed32_word id _ hid,
    decode_fixed32_word sr.num_duplicates _ hn,
    decode_range-encode_range r rest w,
  ),
)
