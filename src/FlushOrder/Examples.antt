-- ===== src/FlushOrder/Examples.antt =====
-- Four partitions, of which the second still has a memtable of generation 1.
use bl_nova_lsm.Common.{◌+◌, ◌≡◌, refl, true, false, some, List, [], ◌∷◌, ◌++◌, ◌>>=◌, arith}
use bl_nova_lsm.FlushOrder.{
  ImpactedDranges, FlushOrder, Partitions, older_pending, is_safe_to_flush, update_impacted_dranges,
  concerns,
}
use bl_nova_lsm.FlushOrder.Safe.{Flushed, is_safe_to_flush-Flushed}
use bl_nova_lsm.FlushOrder.Update.{
  Keeps, update_impacted_dranges-Keeps, update_impacted_dranges-forgets,
}

abbrev partitions : Partitions
partitions = (2 ∷ []) ∷ (1 ∷ 2 ∷ []) ∷ (3 ∷ []) ∷ (3 ∷ []) ∷ []

abbrev low_dranges : ImpactedDranges
low_dranges = record { lower_drange_index = 0; upper_drange_index = 1; generation_id = 2 }

abbrev high_dranges : ImpactedDranges
high_dranges = record { lower_drange_index = 2; upper_drange_index = 3; generation_id = 3 }

abbrev high_order : FlushOrder
high_order = record { latest_generation_id = 3; impacted_dranges = some (high_dranges ∷ []) }

high_order_safe : is_safe_to_flush true partitions high_order 3 4 ≡ some true
unfolding is_safe_to_flush
high_order_safe = refl

is_safe_to_flush-Flushed_example : Flushed partitions high_dranges
is_safe_to_flush-Flushed_example =
    is_safe_to_flush-Flushed partitions high_order 3 4 (high_dranges ∷ []) 0 high_dranges refl
      high_order_safe refl
      record { above = omega arith; below = omega arith; not_older = omega arith }

abbrev low_order : FlushOrder
low_order = record { latest_generation_id = 2; impacted_dranges = some (low_dranges ∷ []) }

low_pending : older_pending partitions low_dranges ≡ some true
unfolding older_pending
low_pending = refl

high_elsewhere : concerns 0 2 high_dranges ≡ false
unfolding concerns
high_elsewhere = refl

update_impacted_dranges-forgets_example :
    (is_safe_to_flush true partitions low_order 0 2 ≡ some false)
    × ((update_impacted_dranges true partitions high_dranges low_order >>= λ order.
          is_safe_to_flush true partitions order 0 2)
        ≡ some true)
update_impacted_dranges-forgets_example =
    update_impacted_dranges-forgets partitions low_dranges high_dranges 2 0 2 low_pending
      record { above = omega arith; below = omega arith; not_older = omega arith } high_elsewhere

abbrev both_order : FlushOrder
both_order = record {
  latest_generation_id = 4;
  impacted_dranges = some (high_dranges ∷ low_dranges ∷ []);
}

both_updated : update_impacted_dranges true partitions low_dranges high_order ≡ some both_order
unfolding update_impacted_dranges
both_updated = refl

update_impacted_dranges-Keeps_example :
    (ds : List ImpactedDranges) × (both_order.impacted_dranges ≡ some (ds ++ (low_dranges ∷ [])))
    × Keeps partitions (high_dranges ∷ []) ds
    × (4 ≡ high_order.latest_generation_id + 1)
update_impacted_dranges-Keeps_example =
    update_impacted_dranges-Keeps partitions low_dranges high_order both_order both_updated
