-- ===== src/Subranges/Codec.antt =====
-- SubRanges::Decode against SubRanges::Encode.
use bl_nova_lsm.Common.{
  ℕ, ◌+◌, ◌^◌, ◌≤◌, ◌≡◌, refl, some, [], ◌∷◌, ◌++◌, append_assoc, length, All, arith,
}
use bl_nova_lsm.Coding.{Bytes, IsU32}
use bl_nova_lsm.Coding.Fixed.{decode_fixed32_word}
use bl_nova_lsm.Coding.Lists.{decode_all}
use bl_nova_lsm.Subrange.{decode_subrange}
use bl_nova_lsm.Subrange.Codec.{sent, decode_subrange-encode_subrange}
use bl_nova_lsm.Subrange.Codec
use bl_nova_lsm.Subranges.{SubRanges, encode_from, encode_subranges, decode_subranges}

-- What the message carries of the subranges, from position `i` on.
abbrev pub sent_from : ℕ → SubRanges → SubRanges
sent_from i [] = []
sent_from i (sr ∷ srs) = sent i sr ∷ sent_from (i + 1) srs

subranges_back :
    (i : ℕ) (srs : SubRanges) (rest : Bytes)
    → i + length srs ≤ 2 ^ 32
    → All Codec.IsEncodable srs
    → decode_all decode_subrange (length srs) (encode_from i srs ++ rest)
      ≡ some (sent_from i srs, rest)
unfolding encode_from decode_all
subranges_back i [] rest h w = refl
subranges_back i (sr ∷ srs) rest h w = rw (
  append_assoc,
  decode_subrange-encode_subrange i sr (encode_from (i + 1) srs ++ rest) (omega arith) w.0,
  subranges_back (i + 1) srs rest (omega arith) w.1,
)

-- All subranges are read back in order, each with its position as its identifier; the compaction
-- threads and flags are not carried.
pub decode_subranges-encode_subranges :
    (srs : SubRanges) (rest : Bytes)
    → IsU32 (length srs)
    → All Codec.IsEncodable srs
    → decode_subranges (encode_subranges srs ++ rest) ≡ some (sent_from 0 srs, rest)
unfolding decode_subranges encode_subranges
decode_subranges-encode_subranges srs rest h w = rw (
  append_assoc,
  decode_fixed32_word (length srs) (encode_from 0 srs ++ rest) h,
  subranges_back 0 srs rest (omega arith) w,
)
