-- ===== src/Coding/Examples.antt =====
-- Runs of the coders, and their theorems at concrete inputs.
use bl_nova_lsm.Common.{◌≡◌, refl, [], ◌∷◌, none}
use bl_nova_lsm.Coding.{encode_fixed32, decode_fixed32, join32, decode_slice}
use bl_nova_lsm.Coding.Varint.{encode_varint32, get_varint32}

fixed_300 : encode_fixed32 300 ≡ 44 ∷ 1 ∷ 0 ∷ 0 ∷ []
unfolding encode_fixed32
fixed_300 = refl

fixed_short : decode_fixed32 (1 ∷ 2 ∷ 3 ∷ []) ≡ none
unfolding decode_fixed32
fixed_short = refl

slice_short : decode_slice (2 ∷ 0 ∷ 0 ∷ 0 ∷ 7 ∷ []) ≡ none
unfolding decode_slice decode_fixed32 join32
slice_short = refl

varint_300 : encode_varint32 300 ≡ 172 ∷ 2 ∷ []
unfolding encode_varint32
varint_300 = refl

varint_cut : get_varint32 (172 ∷ []) ≡ none
unfolding get_varint32
varint_cut = refl
