-- ===== src/VersionRefs/Examples.antt =====
-- A version that one reader asks for before the compaction is set.
use bl_nova_lsm.Common.{◌≤◌, ◌<◌, ◌≡◌, refl, Bool, true, false, some, ◌==◌, arith}
use bl_nova_lsm.VersionRefs.{
  AtomicVersion, new_atomic_version, set_version, set_compaction, ref_version, unref_version,
  unref_count,
}
use bl_nova_lsm.VersionRefs.Exclusive.{
  Shared, Reach, here, next, asks, releases, start, set_compaction-excludes, unref_version-succeeds,
}

start_set : set_version 0 new_atomic_version ≡ some start.table
unfolding set_version
start_set = refl

abbrev asked_state : Shared
asked_state = record { table = record new_atomic_version { version = some 2 }; held = 2 }

asked_state-Reach : Reach start asked_state
unfolding ref_version
asked_state-Reach = next here (asks refl)

abbrev compacting : AtomicVersion
compacting = record asked_state.table { is_compacting = true }

compaction_set : set_compaction asked_state.table ≡ some (false, compacting)
unfolding set_compaction
compaction_set = refl

abbrev left_state : Shared
left_state = record { table = record compacting { version = some 1 }; held = 1 }

left_state-Reach : Reach (record { table = compacting; held = 2 }) left_state
unfolding unref_version unref_count
left_state-Reach =
    next here (releases (record compacting { version = some 1 }) (omega arith) refl refl)

set_compaction-excludes_example : (false ≡ (2 == 1)) × (1 ≤ 2)
set_compaction-excludes_example =
    set_compaction-excludes asked_state left_state false compacting asked_state-Reach compaction_set
      left_state-Reach

unref_version-succeeds_example :
    (false ≡ (2 == 0))
    × (0 < 2
        → ((a : AtomicVersion) × (unref_version asked_state.table ≡ some a))
          × ((r : Bool × AtomicVersion) × (set_compaction asked_state.table ≡ some r)))
unref_version-succeeds_example = unref_version-succeeds asked_state asked_state-Reach
