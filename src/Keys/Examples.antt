-- ===== src/Keys/Examples.antt =====
-- Keys as text at concrete inputs.
use bl_nova_lsm.Common.{◌≡◌, refl, [], ◌∷◌}
use bl_nova_lsm.Keys.{str_to_int, int_to_str}

text_of_42 : int_to_str 42 ≡ b'4' ∷ b'2' ∷ b'!' ∷ []
unfolding int_to_str
text_of_42 = refl

stops_at_letter : str_to_int (b'4' ∷ b'x' ∷ b'2' ∷ []) ≡ 4
unfolding str_to_int
stops_at_letter = refl
