-- ===== src/FlushOrder/Safe.antt =====
-- What the answer of IsSafeToFlush says of the memtables that are left.
use bl_nova_lsm.Common.{
  ℕ, zero, suc, ◌+◌, ◌-◌, ◌≤◌, ◌<◌, ◌≡◌, refl, sym, Bool, true, false, Option, none, some, List, [],
  ◌∷◌, ltb, leb, if◌then◌else◌, ◌>>=◌, get_elem?, arith, Bool-cases, inl, inr, All, ◌⊎◌, bind-some,
  if-some,
}
use mathlib.Core.Path.{subst, ◌∙◌}
use mathlib.Core.Option.{some-injective}
use bl_nova_lsm.FlushOrder.{
  ImpactedDranges, FlushOrder, Partitions, has_older, any_older, older_pending, concerns, safe_with,
  is_safe_to_flush,
}

-- Nothing older than `generation_id` is left in the partition.
abbrev pub PartitionFlushed : Partitions → ℕ → ℕ → Type 0
PartitionFlushed partitions generation_id idx =
    (generations : List ℕ) × (get_elem? partitions idx ≡ some generations)
    × All (λ g. generation_id ≤ g) generations

-- Nothing older than the generation of the dranges is left in their partitions.
abbrev pub Flushed : Partitions → ImpactedDranges → Type 0
Flushed partitions d =
    (idx : ℕ)
    → d.lower_drange_index ≤ idx
    → idx ≤ d.upper_drange_index
    → PartitionFlushed partitions d.generation_id idx

none_older : (id : ℕ) (gs : List ℕ) → has_older id gs ≡ false → All (λ g. id ≤ g) gs
unfolding has_older
none_older id [] = λ h. tt
none_older id (g ∷ gs) = elim (Bool-cases (ltb g id)) [
  | inl older ↦ rw older (λ h. absurd (cc))
  | inr newer ↦ rw newer (λ h. (ground arith, none_older id gs h))
]

any_older-Flushed :
    (partitions : Partitions) (id n low : ℕ)
    → any_older partitions id n low ≡ some false
    → (idx : ℕ) → low ≤ idx
    → idx < low + n
    → PartitionFlushed partitions id idx
unfolding any_older
any_older-Flushed partitions id zero low h idx l r = absurd (omega arith)
any_older-Flushed partitions id (suc n) low h idx l r =
    let (gs, e, newer, later) =
      first (get_elem? partitions low) (any_older partitions id n (low + 1)) h in
    elim (Bool-cases (ltb low idx)) [
      | inl further ↦
          any_older-Flushed partitions id n (low + 1) later idx (ground arith) (omega arith)
      | inr same ↦
          let at : low ≡ idx = ground arith in
          subst (PartitionFlushed partitions id) at (gs, e, none_older id gs newer)
    ]
  where
    first :
        (o : Option (List ℕ)) (later : Option Bool)
        → ◌>>=◌ {B = Bool} o (λ gs. if has_older id gs then some true else later) ≡ some false
        → (gs : List ℕ) × (o ≡ some gs) × (has_older id gs ≡ false) × (later ≡ some false)
    first none later = λ h. absurd (cc)
    first (some gs) later = elim (Bool-cases (has_older id gs)) [
      | inl older ↦ rw older (λ h. absurd (cc))
      | inr newer ↦ rw newer (λ h. (gs, refl, newer, h))
    ]

pub older_pending-Flushed :
    (partitions : Partitions) (d : ImpactedDranges)
    → older_pending partitions d ≡ some false
    → Flushed partitions d
unfolding older_pending
older_pending-Flushed partitions d h idx l r =
    any_older-Flushed partitions d.generation_id (d.upper_drange_index + 1 - d.lower_drange_index)
      d.lower_drange_index h idx l (omega arith)

has_older-not : (id : ℕ) (gs : List ℕ) → has_older id gs ≡ true → ¬ All (λ g. id ≤ g) gs
unfolding has_older
has_older-not id [] h = absurd (cc)
has_older-not id (g ∷ gs) h = elim (older_or_later (ltb g id) (has_older id gs) h) [
  | inl older ↦ λ a. omega (arith, a.0, older_lt older)
  | inr later ↦ λ a. has_older-not id gs later a.1
]
  where
    older_lt : ltb g id ≡ true → g < id
    older_lt e = ground arith

    older_or_later :
        (c : Bool) (later : Bool) → (if c then true else later) ≡ true → (c ≡ true) ⊎ (later ≡ true)
    older_or_later true later e = inl refl
    older_or_later false later e = inr e

any_older-not :
    (partitions : Partitions) (id n low : ℕ)
    → any_older partitions id n low ≡ some true
    → (idx : ℕ) × (low ≤ idx) × (idx < low + n) × ¬ PartitionFlushed partitions id idx
unfolding any_older
any_older-not partitions id zero low h = absurd (cc)
any_older-not partitions id (suc n) low h =
    let (gs, e, h1) = bind-some (get_elem? partitions low) _ _ h in
    elim (if-some (has_older id gs) _ _ _ h1) [
      | inl (older, h2) ↦ (
        low,
        omega arith,
        omega arith,
        λ (gs', e', newer).
            has_older-not id gs older
              (subst (All (λ g. id ≤ g)) (some-injective gs' gs (sym e' ∙ e)) newer),
      )
      | inr (newer, h2) ↦
          let (idx, l, r, found) = any_older-not partitions id n (low + 1) h2 in
          (idx, omega (arith, l), omega (arith, r), found)
    ]

pub older_pending-not-Flushed :
    (partitions : Partitions) (d : ImpactedDranges)
    → older_pending partitions d ≡ some true
    → ¬ Flushed partitions d
unfolding older_pending
older_pending-not-Flushed partitions d h flushed =
    let (idx, l, r, found) =
      any_older-not partitions d.generation_id (d.upper_drange_index + 1 - d.lower_drange_index)
        d.lower_drange_index h in
    found (flushed idx l (omega (arith, l, r)))

-- The dranges of `d` hold back a memtable of `drange_idx` and `generation_id`.
pub record Concerned (drange_idx generation_id : ℕ) (d : ImpactedDranges) : Type 0 where
  pub above : d.lower_drange_index ≤ drange_idx
  pub below : drange_idx ≤ d.upper_drange_index
  pub not_older : d.generation_id ≤ generation_id

pub Concerned-true :
    (drange_idx generation_id : ℕ) (d : ImpactedDranges)
    → Concerned drange_idx generation_id d
    → concerns drange_idx generation_id d ≡ true
unfolding concerns
Concerned-true drange_idx generation_id d w =
    let a : leb d.lower_drange_index drange_idx ≡ true = ground (arith, w.above) in
    let b : leb drange_idx d.upper_drange_index ≡ true = ground (arith, w.below) in
    let c : leb d.generation_id generation_id ≡ true = ground (arith, w.not_older) in
    rw (a, b, c) refl

not_pending :
    (o later : Option Bool)
    → ◌>>=◌ {B = Bool} o (λ p. if p then some false else later) ≡ some true
    → (o ≡ some false) × (later ≡ some true)
not_pending none later h = absurd (cc)
not_pending (some true) later h = absurd (cc)
not_pending (some false) later h = (refl, h)

safe_head :
    (concerned : Bool) (o later : Option Bool)
    → (if concerned then ◌>>=◌ {B = Bool} o (λ p. if p then some false else later) else later)
      ≡ some true
    → ((concerned ≡ true) → o ≡ some false) × (later ≡ some true)
safe_head true o later h = let (a, b) = not_pending o later h in ((λ t. a), b)
safe_head false o later h = ((λ t. absurd (cc)), h)

safe_with-Flushed :
    (partitions : Partitions) (drange_idx generation_id : ℕ) (ds : List ImpactedDranges)
    → safe_with partitions drange_idx generation_id ds ≡ some true
    → (i : ℕ) (d : ImpactedDranges) → get_elem? ds i ≡ some d
    → Concerned drange_idx generation_id d
    → Flushed partitions d
unfolding safe_with
safe_with-Flushed partitions dr gen [] h i d e w = absurd (cc)
safe_with-Flushed partitions dr gen (x ∷ ds) h zero d e w =
    let same : x ≡ d = some-injective _ _ e in
    let (mine, later) = safe_head (concerns dr gen x) (older_pending partitions x) _ h in
    older_pending-Flushed partitions d (
      subst (λ y. older_pending partitions y ≡ some false) same
        (mine (subst (λ y. concerns dr gen y ≡ true) (sym same) (Concerned-true dr gen d w))))
safe_with-Flushed partitions dr gen (x ∷ ds) h (suc i) d e w =
    let (mine, later) = safe_head (concerns dr gen x) (older_pending partitions x) _ h in
    safe_with-Flushed partitions dr gen ds later i d e w

-- When a flush of a memtable of a drange and a generation is answered to be safe, then for every
-- impacted range of dranges in the collection that has the drange and is not newer than the
-- generation, each partition of the range exists and has no memtable of a generation older than the
-- range's.
pub is_safe_to_flush-Flushed :
    (partitions : Partitions) (order : FlushOrder) (drange_idx generation_id : ℕ)
    (ds : List ImpactedDranges) (i : ℕ) (d : ImpactedDranges)
    → order.impacted_dranges ≡ some ds
    → is_safe_to_flush true partitions order drange_idx generation_id ≡ some true
    → get_elem? ds i ≡ some d
    → Concerned drange_idx generation_id d
    → Flushed partitions d
unfolding is_safe_to_flush
is_safe_to_flush-Flushed partitions order dr gen ds i d e =
    rw e λ h. safe_with-Flushed partitions dr gen ds h i d
