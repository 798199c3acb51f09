-- ===== src/Overlaps/Examples.antt =====
-- A file of level 0 and the two files of the next level, of which it overlaps none.
use bl_nova_lsm.Common.{◌≡◌, some, [], ◌∷◌}
use bl_nova_lsm.Keys.{ycsb_key_comparator}
use bl_nova_lsm.Overlaps.{Collected, compute_overlapping_for_range}
use bl_nova_lsm.Overlaps.Round.{IsCollected}
use bl_nova_lsm.Overlaps.Closed.{compute_overlapping_for_range-IsCollected}
use bl_nova_lsm.Levels.Sample.{low_file, high_file, low_file-HasKeys, high_file-HasKeys}

compute_overlapping_for_range-IsCollected_example :
    (c : Collected) × (compute_overlapping_for_range ycsb_key_comparator 4
        (low_file ∷ high_file ∷ [])
        (low_file ∷ [])
      ≡ some c)
    × IsCollected ycsb_key_comparator 4 (low_file ∷ high_file ∷ []) (low_file ∷ []) c
compute_overlapping_for_range-IsCollected_example =
    compute_overlapping_for_range-IsCollected ycsb_key_comparator 4 low_file (high_file ∷ [])
      (low_file ∷ []) (low_file-HasKeys, (high_file-HasKeys, tt)) (low_file-HasKeys, tt)
