-- ===== src/FlushOrder/Update.antt =====
-- What UpdateImpactedDranges keeps of the collection.
use bl_nova_lsm.Common.{
  ℕ, ◌+◌, ◌≡◌, refl, ap, sym, Bool, true, false, some, List, [], ◌∷◌, ◌++◌, if◌then◌else◌, ◌>>=◌,
  bind-some,
}
use mathlib.Core.Path.{subst}
use mathlib.Core.Option.{some-injective}
use bl_nova_lsm.FlushOrder.{
  ImpactedDranges, FlushOrder, Partitions, older_pending, concerns, safe_with, is_safe_to_flush,
  kept, old_collection, update_impacted_dranges,
}
use bl_nova_lsm.FlushOrder.Safe.{
  Concerned, Concerned-true, Flushed, older_pending-Flushed, older_pending-not-Flushed,
}

-- What is kept of a collection: in their order, exactly the dranges without a memtable of an older
-- generation in any of their partitions.
pub data Keeps (partitions : Partitions)
    : List ImpactedDranges → List ImpactedDranges → Type 0 where
  nothing : Keeps partitions [] []
  stays :
      {d : ImpactedDranges} {old ds : List ImpactedDranges}
      → Flushed partitions d
      → Keeps partitions old ds
      → Keeps partitions (d ∷ old) (d ∷ ds)
  goes :
      {d : ImpactedDranges} {old ds : List ImpactedDranges}
      → ¬ Flushed partitions d
      → Keeps partitions old ds
      → Keeps partitions (d ∷ old) ds

kept-Keeps :
    (partitions : Partitions) (old ds : List ImpactedDranges)
    → kept partitions old ≡ some ds
    → Keeps partitions old ds
unfolding kept
kept-Keeps partitions [] ds h = subst (Keeps partitions []) (some-injective _ _ h) nothing
kept-Keeps partitions (d ∷ old) ds h =
    let (pending, at, h1) = bind-some (older_pending partitions d) _ _ h in
    let (rest, r, h2) = bind-some (kept partitions old) _ _ h1 in
    subst (Keeps partitions (d ∷ old)) (some-injective _ _ h2)
      (tested pending rest at (kept-Keeps partitions old rest r))
  where
    tested :
        (pending : Bool) (rest : List ImpactedDranges)
        → older_pending partitions d ≡ some pending
        → Keeps partitions old rest
        → Keeps partitions (d ∷ old) (if pending then rest else d ∷ rest)
    tested true rest at k = goes (older_pending-not-Flushed partitions d at) k
    tested false rest at k = stays (older_pending-Flushed partitions d at) k

-- The collection after an update ends with the new dranges; before them it has, in their order,
-- exactly the dranges of the old collection without a memtable of an older generation left in any of
-- their partitions. The generation counter is one higher.
pub update_impacted_dranges-Keeps :
    (partitions : Partitions) (d : ImpactedDranges) (order order' : FlushOrder)
    → update_impacted_dranges true partitions d order ≡ some order'
    → (ds : List ImpactedDranges) × (order'.impacted_dranges ≡ some (ds ++ (d ∷ [])))
      × Keeps partitions (old_collection order.impacted_dranges) ds
      × (order'.latest_generation_id ≡ order.latest_generation_id + 1)
unfolding update_impacted_dranges
update_impacted_dranges-Keeps partitions d order order' h =
    let (ds, k, h1) = bind-some (kept partitions (old_collection order.impacted_dranges)) _ _ h in
    let same = some-injective _ _ h1 in
    (
      ds,
      sym (ap FlushOrder.impacted_dranges same),
      kept-Keeps partitions (old_collection order.impacted_dranges) ds k,
      sym (ap FlushOrder.latest_generation_id same),
    )

-- When the one range of dranges in the collection holds a memtable back, since older ones are not
-- flushed, an update with a range that does not concern the memtable makes its flush safe, though
-- the older memtables are still there.
pub update_impacted_dranges-forgets :
    (partitions : Partitions) (x y : ImpactedDranges) (generations drange_idx generation_id : ℕ)
    → older_pending partitions x ≡ some true
    → Concerned drange_idx generation_id x
    → concerns drange_idx generation_id y ≡ false
    → (is_safe_to_flush true partitions
          (record { latest_generation_id = generations; impacted_dranges = some (x ∷ []) })
          drange_idx
          generation_id
        ≡ some false)
      × ((update_impacted_dranges true partitions y
              (record { latest_generation_id = generations; impacted_dranges = some (x ∷ []) })
            >>= λ order. is_safe_to_flush true partitions order drange_idx generation_id)
          ≡ some true)
unfolding is_safe_to_flush safe_with update_impacted_dranges kept
update_impacted_dranges-forgets partitions x y generations dr gen pending w other =
    (rw (Concerned-true dr gen x w, pending) refl, rw (pending, other) refl)
