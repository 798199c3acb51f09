-- ===== src/Range/Codec.antt =====
-- Range::Decode against Range::Encode.
use bl_nova_lsm.Common.{◌≡◌, some, [], ◌++◌, append_assoc, length}
use bl_nova_lsm.Coding.{Bytes, IsU32}
use bl_nova_lsm.Coding.Fixed.{decode_str-encode_str, decode_bool-encode_bool, decode_fixed32_word}
use bl_nova_lsm.Range.{Range, encode_range, decode_range}

-- The lengths and the count of a range fit the 32 bits that its message form gives them.
pub record IsEncodable (r : Range) : Type 0 where
  pub lower_fits : IsU32 (length r.lower)
  pub upper_fits : IsU32 (length r.upper)
  pub num_duplicates_fits : IsU32 r.num_duplicates

-- A range whose sizes fit is read back, and what follows it is left.
pub decode_range-encode_range :
    (r : Range) (rest : Bytes)
    → IsEncodable r
    → decode_range (encode_range r ++ rest) ≡ some (r, rest)
unfolding decode_range encode_range
decode_range-encode_range r rest w = simp (
  append_assoc,
  decode_str-encode_str [] r.lower _ w.lower_fits,
  decode_str-encode_str [] r.upper _ w.upper_fits,
  decode_bool-encode_bool,
  decode_fixed32_word r.num_duplicates rest w.num_duplicates_fits,
)
