-- ===== src/LookupIndex/Examples.antt =====
-- An index of four slots.
use bl_nova_lsm.Common.{◌≡◌, refl, ◌&&◌, some, [], ◌∷◌, ◌==◌, if◌then◌else◌, ◌>>=◌}
use bl_nova_lsm.LookupIndex.{LookupIndex, slot, lookup, cas}
use bl_nova_lsm.LookupIndex.Slots.{lookup-cas}

abbrev four_slots : LookupIndex
four_slots = 7 ∷ 8 ∷ 9 ∷ 0 ∷ []

finds_nine : lookup 6 four_slots ≡ some 9
unfolding lookup
finds_nine = refl

lookup-cas_example : (cas 6 9 12 four_slots >>= λ index. lookup 10 index) ≡ (
    if (9 == 9) && (slot four_slots 6 == slot four_slots 10) then some 12 else lookup 10 four_slots)
lookup-cas_example = lookup-cas four_slots 6 10 9 9 12 finds_nine
