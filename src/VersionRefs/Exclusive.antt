-- ===== src/VersionRefs/Exclusive.antt =====
-- Who holds references to a version before and after SetCompaction.
use bl_nova_lsm.Common.{
  ℕ, ◌+◌, ◌-◌, ◌≤◌, ◌<◌, ◌≡◌, refl, sym, ap, Bool, true, false, not, ◌||◌, some, leb, ◌==◌, arith,
  Bool-cases, inl, inr, bind-some, guard-some,
}
use mathlib.Core.Path.{subst, ◌∙◌}
use mathlib.Core.Option.{some-injective}
use bl_nova_lsm.VersionRefs.{
  AtomicVersion, new_atomic_version, set_compaction, ref_version, unref_version, unref_count,
}

-- The object, and how many references are held: the one that SetVersion takes and those that Ref
-- granted, without those that were given back.
pub record Shared : Type 0 where
  pub table : AtomicVersion
  pub held : ℕ

abbrev pub granted : Bool × AtomicVersion → ℕ → Shared
granted (true, a) held = record { table = a; held = held + 1 }
granted (false, a) held = record { table = a; held = held }

pub data Step (s t : Shared) : Type 0 where
  asks : t ≡ granted (ref_version s.table) s.held → Step s t
  releases :
      (a : AtomicVersion)
      → 0 < s.held
      → unref_version s.table ≡ some a
      → t ≡ record { table = a; held = s.held - 1 }
      → Step s t
  compacts :
      (alone : Bool) (a : AtomicVersion)
      → set_compaction s.table ≡ some (alone, a)
      → t ≡ record s { table = a }
      → Step s t

pub data Reach (s : Shared) : Shared → Type 0 where
  here : Reach s s
  next : {t u : Shared} → Reach s t → Step t u → Reach s u

-- A version that was set, with the reference that this takes.
abbrev pub start : Shared
start = record { table = record new_atomic_version { version = some 1 }; held = 1 }

pub record IsHeld (s : Shared) : Type 0 where
  pub counted : s.table.version ≡ some s.held
  pub marked : s.table.deleted ≡ (s.held == 0)

asks-IsHeld : (s : Shared) → IsHeld s → IsHeld (granted (ref_version s.table) s.held)
unfolding ref_version
asks-IsHeld s w = rw (w.counted) (elim (Bool-cases (s.table.deleted || s.table.is_compacting)) [
  | inl closed ↦ rw closed record { counted = refl; marked = w.marked }
  | inr open_ ↦ rw open_ record { counted = refl; marked = ground (arith, w.marked) }
])

unref_held :
    (s : Shared)
    → IsHeld s
    → 0 < s.held
    → unref_version s.table
      ≡ some record s.table {
        version = some (s.held - 1);
        deleted = s.table.deleted || s.held - 1 == 0;
      }
unfolding unref_version unref_count
unref_held s w h =
    let present : s.table.deleted ≡ false = ground (arith, w.marked) in
    let enough : leb 1 s.held ≡ true = ground arith in rw (w.counted, present, enough) refl

compact_held :
    (s : Shared)
    → IsHeld s
    → 0 < s.held
    → set_compaction s.table ≡ some (s.held == 1, record s.table { is_compacting = true })
unfolding set_compaction
compact_held s w h =
    let present : s.table.deleted ≡ false = ground (arith, w.marked) in
    let enough : leb 1 s.held ≡ true = ground arith in rw (w.counted, present, enough) refl

held_of :
    (s : Shared) (alone : Bool) (a : AtomicVersion)
    → IsHeld s
    → set_compaction s.table ≡ some (alone, a)
    → 0 < s.held
unfolding set_compaction
held_of s alone a w e =
    let (refs, at, e1) = bind-some s.table.version _ _ e in
    let (present, e2) = guard-some (not s.table.deleted) _ _ e1 in ground (arith, w.marked)

-- What SetCompaction gives and leaves.
compacted :
    (s : Shared) (alone : Bool) (a : AtomicVersion)
    → IsHeld s
    → set_compaction s.table ≡ some (alone, a)
    → ((s.held == 1) ≡ alone) × (record s.table { is_compacting = true } ≡ a)
compacted s alone a w e =
    let same = some-injective _ _ (sym (compact_held s w (held_of s alone a w e)) ∙ e) in
    (ap (λ p. p.0) same, ap (λ p. p.1) same)

compacts-IsHeld :
    (s : Shared) → IsHeld s → IsHeld (record s { table = record s.table { is_compacting = true } })
compacts-IsHeld s w = record { counted = w.counted; marked = w.marked }

releases-IsHeld :
    (s : Shared)
    → 0 < s.held
    → IsHeld s
    → IsHeld record {
      table = record s.table {
        version = some (s.held - 1);
        deleted = s.table.deleted || s.held - 1 == 0;
      };
      held = s.held - 1;
    }
releases-IsHeld s h w = record { counted = refl; marked = ground (arith, w.marked) }

-- The steps of an object whose references are counted, with what each of them leaves.
Step-left :
    {s t : Shared}
    → IsHeld s
    → Step s t
    → (P : Shared → Type 0) → P (granted (ref_version s.table) s.held)
    → (0 < s.held
        → P record {
          table = record s.table {
            version = some (s.held - 1);
            deleted = s.table.deleted || s.held - 1 == 0;
          };
          held = s.held - 1;
        })
    → P (record s { table = record s.table { is_compacting = true } })
    → P t
Step-left w (asks e) P asked released compacted_ = subst P (sym e) asked
Step-left {s} w (releases a h e f) P asked released compacted_ =
    let same = some-injective _ _ (sym (unref_held s w h) ∙ e) in
    subst P (ap (λ a. record { table = a; held = s.held - 1 }) same ∙ sym f) (released h)
Step-left {s} w (compacts alone a e f) P asked released compacted_ =
    subst P (ap (λ a. record s { table = a }) (compacted s alone a w e).1 ∙ sym f) compacted_

Step-IsHeld : {s t : Shared} → IsHeld s → Step s t → IsHeld t
Step-IsHeld {s} w st =
    Step-left w st IsHeld (asks-IsHeld s w) (λ h. releases-IsHeld s h w) (compacts-IsHeld s w)

Reach-IsHeld : {s t : Shared} → IsHeld s → Reach s t → IsHeld t
Reach-IsHeld w here = w
Reach-IsHeld w (next r st) = Step-IsHeld (Reach-IsHeld w r) st

start-IsHeld : IsHeld start
start-IsHeld = record { counted = refl; marked = refl }

-- The compaction is on, and no more references are held than when it was set.
record IsClosed (bound : ℕ) (s : Shared) : Type 0 where
  closed : s.table.is_compacting ≡ true
  bounded : s.held ≤ bound

asks-IsClosed :
    (bound : ℕ) (s : Shared)
    → IsHeld s
    → IsClosed bound s
    → IsClosed bound (granted (ref_version s.table) s.held)
unfolding ref_version
asks-IsClosed bound s w c =
    let shut : (s.table.deleted || s.table.is_compacting) ≡ true = ground (arith, c.closed) in
    rw (w.counted, shut) record { closed = c.closed; bounded = c.bounded }

Reach-IsClosed :
    (bound : ℕ) {s t : Shared} → IsHeld s → IsClosed bound s → Reach s t → IsClosed bound t
Reach-IsClosed bound w c here = c
Reach-IsClosed bound w c (next {u} r st) =
    let before = Reach-IsClosed bound w c r in
    let held = Reach-IsHeld w r in
    Step-left held st (IsClosed bound) (asks-IsClosed bound _ held before)
      (λ h. record { closed = before.closed; bounded = omega (arith, before.bounded) })
      record { closed = refl; bounded = before.bounded }

-- After any steps on a version that was set, SetCompaction tells whether a single reference is held,
-- and from then on no steps raise the number of references: a compaction that is told that it is alone
-- stays alone.
pub set_compaction-excludes :
    (s t : Shared) (alone : Bool) (a : AtomicVersion)
    → Reach start s
    → set_compaction s.table ≡ some (alone, a)
    → Reach (record s { table = a }) t
    → (alone ≡ (s.held == 1)) × (t.held ≤ s.held)
set_compaction-excludes s t alone a r e q =
    let w = Reach-IsHeld start-IsHeld r in
    let (told, left) = compacted s alone a w e in
    let q' = subst (λ a. Reach (record s { table = a }) t) (sym left) q in
    let c =
      Reach-IsClosed s.held (compacts-IsHeld s w) record { closed = refl; bounded = omega arith }
        q' in
    (sym told, c.bounded)

-- After any steps on a version that was set, it is marked as deleted exactly when no reference is held;
-- while one is held, no assertion of Unref or SetCompaction fails.
pub unref_version-succeeds :
    (s : Shared)
    → Reach start s
    → (s.table.deleted ≡ (s.held == 0))
      × (0 < s.held
          → ((a : AtomicVersion) × (unref_version s.table ≡ some a))
            × ((r : Bool × AtomicVersion) × (set_compaction s.table ≡ some r)))
unref_version-succeeds s r =
    let w = Reach-IsHeld start-IsHeld r in
    (w.marked, λ h. ((_, unref_held s w h), (_, compact_held s w h)))
