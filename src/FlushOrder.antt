-- ===== src/FlushOrder.antt =====
-- db/flush_order.h and db/flush_order.cpp: which memtables wait for the older ones of the dranges
-- that a reorganisation impacted. A memtable partition is the list of the keys of its map
-- generation_num_memtables_; `none` is an index behind the vector of partitions.
pub mod Safe
pub mod Update
mod Examples
use bl_nova_lsm.Common.{
  ℕ, zero, suc, ◌+◌, ◌-◌, Bool, true, false, not, ◌&&◌, Option, none, some, List, [], ◌∷◌, ◌++◌,
  ltb, leb, if◌then◌else◌, ◌>>=◌, get_elem?,
}

pub record ImpactedDranges : Type 0 where
  pub lower_drange_index : ℕ
  pub upper_drange_index : ℕ
  pub generation_id : ℕ

-- The collection is a null pointer at first.
pub record FlushOrder : Type 0 where
  pub latest_generation_id : ℕ
  pub impacted_dranges : Option (List ImpactedDranges)

abbrev pub Partitions : Type 0
Partitions = List (List ℕ)

-- FlushOrder::FlushOrder, where INIT_GEN_ID is 1.
abbrev pub new_flush_order : FlushOrder
new_flush_order = record { latest_generation_id = 1; impacted_dranges = none }

-- The loop over the generations of a partition.
unfoldable pub has_older : ℕ → List ℕ → Bool
has_older generation_id [] = false
has_older generation_id (g ∷ gs) =
    let later = has_older generation_id gs in if ltb g generation_id then true else later

-- The loop over the partitions from `idx` on, `n` of them.
unfoldable pub any_older : Partitions → ℕ → ℕ → ℕ → Option Bool
unfolding has_older
any_older partitions generation_id zero idx = some false
any_older partitions generation_id (suc n) idx =
    let later = any_older partitions generation_id n (idx + 1) in
    do
      generations ← get_elem? partitions idx
      (if has_older generation_id generations then some true else later)

-- The loop `for (idx = lower; idx <= upper; idx++)`.
unfoldable pub older_pending : Partitions → ImpactedDranges → Option Bool
unfolding any_older
older_pending partitions d =
    any_older partitions d.generation_id (d.upper_drange_index + 1 - d.lower_drange_index)
      d.lower_drange_index

-- The memtable is in the dranges and not older than their generation.
unfoldable pub concerns : ℕ → ℕ → ImpactedDranges → Bool
concerns drange_idx generation_id d =
    leb d.lower_drange_index drange_idx
    && (leb drange_idx d.upper_drange_index && leb d.generation_id generation_id)

-- The loop over the impacted dranges in IsSafeToFlush.
unfoldable pub safe_with : Partitions → ℕ → ℕ → List ImpactedDranges → Option Bool
unfolding concerns older_pending
safe_with partitions drange_idx generation_id [] = some true
safe_with partitions drange_idx generation_id (d ∷ ds) =
    let later = safe_with partitions drange_idx generation_id ds in
    if concerns drange_idx generation_id d
    then (do pending ← older_pending partitions d; (if pending then some false else later))
    else later

-- FlushOrder::IsSafeToFlush; `use_ordered_flush` is of the configuration.
unfoldable pub is_safe_to_flush : Bool → Partitions → FlushOrder → ℕ → ℕ → Option Bool
unfolding safe_with
is_safe_to_flush use_ordered_flush partitions order drange_idx generation_id =
    if use_ordered_flush
    then elim order.impacted_dranges [
      | none ↦ some true
      | some ds ↦ safe_with partitions drange_idx generation_id ds
    ]
    else some true

-- The loop over the old collection in UpdateImpactedDranges.
unfoldable pub kept : Partitions → List ImpactedDranges → Option (List ImpactedDranges)
unfolding older_pending
kept partitions [] = some []
kept partitions (d ∷ ds) = do
  pending ← older_pending partitions d
  rest ← kept partitions ds
  some (if pending then rest else d ∷ rest)

abbrev pub old_collection : Option (List ImpactedDranges) → List ImpactedDranges
old_collection none = []
old_collection (some ds) = ds

-- FlushOrder::UpdateImpactedDranges
unfoldable pub update_impacted_dranges :
    Bool → Partitions → ImpactedDranges → FlushOrder → Option FlushOrder
unfolding kept
update_impacted_dranges use_ordered_flush partitions d order =
    if use_ordered_flush
    then (do
      old ← kept partitions (old_collection order.impacted_dranges)
      some record {
        latest_generation_id = order.latest_generation_id + 1;
        impacted_dranges = some (old ++ (d ∷ []));
      })
    else some order
