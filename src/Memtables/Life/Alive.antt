-- ===== src/Memtables/Life/Alive.antt =====
-- What the steps on an AtomicMemTable keep.
use bl_nova_lsm.Common.{
  ltb, ◌||◌, ℕ, ◌+◌, ◌-◌, ◌≤◌, ◌≡◌, refl, sym, ap, Bool, true, false, not, ◌==◌, Option, none, some,
  List, leb, if◌then◌else◌, arith, Bool-cases, inl, inr, bind-some, guard-some,
}
use mathlib.Core.Path.{subst}
use mathlib.Core.Option.{some-injective}
use bl_nova_lsm.Memtables.{
  MemTable, AtomicMemTable, set_memtable, make_immutable, set_flushed, ref_memtable, unref_memtable,
  update_l0_files, is_present, is_empty, unless_unused, count, ref_table, unref_table,
}
use bl_nova_lsm.Memtables.Life.{
  Shared, granted, Step, sets, fills, closes, flushes, asks, releases, moves, Reach, here, next,
  start, Counted, IsAlive,
}

absent_unheld :
    (m : Option MemTable) (f : Bool) (h : ℕ) → is_present m ≡ false → Counted m f h → h ≡ 0
absent_unheld none f h e c = c.0
absent_unheld (some m) f h e c = absurd (cc)

sets-IsAlive :
    (s : Shared) (g i : ℕ)
    → is_present s.table.memtable ≡ false
    → IsAlive s
    → IsAlive (record s { table = set_memtable g (record { memtable_id = i; refs = 0 }) s.table })
unfolding set_memtable ref_table
sets-IsAlive s g i e w =
    let z : s.held ≡ 0 = absent_unheld s.table.memtable s.table.is_flushed s.held e w.counted in
    record {
      counted = omega (arith, z);
      flushed_immutable = λ f. absurd (cc);
      unflushed_empty = λ f. refl;
    }

closes-IsAlive :
    (s : Shared) → IsAlive s → IsAlive (record s { table = record s.table { is_immutable = true } })
closes-IsAlive s w = record {
  counted = w.counted;
  flushed_immutable = λ f. refl;
  unflushed_empty = w.unflushed_empty;
}

fills-IsAlive :
    (s : Shared) (write_buffer_size : ℕ) (a : AtomicMemTable)
    → make_immutable write_buffer_size s.table ≡ some a
    → IsAlive s
    → IsAlive (record s { table = a })
unfolding make_immutable
fills-IsAlive s write_buffer_size a e w =
    let (there, e1) = guard-some (is_present s.table.memtable) _ _ e in
    let (unflushed, e2) = guard-some (not s.table.is_flushed) _ _ e1 in
    subst (λ x. IsAlive (record s { table = x })) (some-injective _ _ e2)
      (marked (ltb write_buffer_size s.table.memtable_size || s.table.is_immutable))
  where
    marked :
        (full : Bool)
        → IsAlive
            (record s { table = if full then record s.table { is_immutable = true } else s.table })
    marked true = closes-IsAlive s w
    marked false = record {
      counted = w.counted;
      flushed_immutable = w.flushed_immutable;
      unflushed_empty = w.unflushed_empty;
    }

flushed_count :
    (m left : MemTable) (h : ℕ)
    → m.refs ≡ h + 1
    → left.refs ≡ m.refs - 1
    → Counted (unless_unused left) true h
flushed_count m left h e l = elim (Bool-cases (left.refs == 0)) [
  | inl z ↦ rw z (ground arith)
  | inr p ↦ rw p (ground arith)
]

unref_table-some :
    (n : ℕ) (m left : MemTable)
    → unref_table n m ≡ some left
    → (n ≤ m.refs) × (left.refs ≡ m.refs - n)
unfolding unref_table
unref_table-some n m left e =
    let (enough, e1) = guard-some (leb n m.refs) _ _ e in
    (ground arith, sym (ap (λ (x : MemTable). x.refs) (some-injective _ _ e1)))

flushes-IsAlive :
    (s : Shared) (l0s : List ℕ) (v : ℕ) (a : AtomicMemTable)
    → set_flushed l0s v s.table ≡ some a
    → IsAlive s
    → IsAlive (record s { table = a })
unfolding set_flushed
flushes-IsAlive s l0s v a e w =
    let (unflushed, e1) = guard-some (not s.table.is_flushed) _ _ e in
    let (empty, e2) = guard-some (is_empty s.table.l0_file_numbers) _ _ e1 in
    let (immutable, e3) = guard-some s.table.is_immutable _ _ e2 in
    let (mem, at, e4) = bind-some s.table.memtable _ _ e3 in
    let (left, released, e5) = bind-some (unref_table 1 mem) _ _ e4 in
    let pending : s.table.is_flushed ≡ false = not-true s.table.is_flushed unflushed in
    let mine : mem.refs ≡ s.held + 1 =
      subst (λ f. Counted (some mem) f s.held) pending
        (subst (λ m. Counted m s.table.is_flushed s.held) at w.counted) in
    let (enough, less) = unref_table-some 1 mem left released in
    subst (λ x. IsAlive (record s { table = x })) (some-injective _ _ e5)
      record {
        counted = flushed_count mem left s.held mine less;
        flushed_immutable = λ f. immutable;
        unflushed_empty = λ f. absurd (cc);
      }
  where
    not-true : (b : Bool) → not b ≡ true → b ≡ false
    not-true true h = absurd (cc)
    not-true false h = refl

asked :
    (m : Option MemTable) (f : Bool) (held : ℕ)
    → Counted m f held
    → Counted (count m) f (if is_present m then held + 1 else held)
unfolding ref_table
asked none f held c = c
asked (some m) true held c = (ap (λ n. n + 1) c.0, omega arith)
asked (some m) false held c = ap (λ n. n + 1) c

granted_if :
    (b : Bool) (a : AtomicMemTable) (held : ℕ)
    → granted (b, a) held ≡ record { table = a; held = if b then held + 1 else held }
granted_if true a held = refl
granted_if false a held = refl

asks-IsAlive : (s : Shared) → IsAlive s → IsAlive (granted (ref_memtable s.table) s.held)
unfolding ref_memtable
asks-IsAlive s w = subst IsAlive (sym (granted_if (is_present s.table.memtable) _ s.held)) record {
  counted = asked s.table.memtable s.table.is_flushed s.held w.counted;
  flushed_immutable = w.flushed_immutable;
  unflushed_empty = w.unflushed_empty;
}

released_count :
    (m left : MemTable) (f : Bool) (n held : ℕ)
    → n ≤ held
    → Counted (some m) f held
    → left.refs ≡ m.refs - n
    → Counted (unless_unused left) f (held - n)
released_count m left f n held l c e = elim (Bool-cases (left.refs == 0)) [
  | inl z ↦ rw z (gone f z c)
  | inr p ↦ rw p (kept f p c)
]
  where
    gone :
        (f : Bool) → (left.refs == 0) ≡ true → Counted (some m) f held → (held - n ≡ 0) × (f ≡ true)
    gone true z c = (ground (arith, c.0), refl)
    gone false z c = absurd (ground arith)

    kept :
        (f : Bool)
        → (left.refs == 0) ≡ false
        → Counted (some m) f held
        → Counted (some left) f (held - n)
    kept true p c = ground (arith, c.0)
    kept false p c = ground arith

releases-IsAlive :
    (s : Shared) (n : ℕ) (a : AtomicMemTable)
    → n ≤ s.held
    → unref_memtable n s.table ≡ some a
    → IsAlive s
    → IsAlive (record { table = a; held = s.held - n })
unfolding unref_memtable
releases-IsAlive s n a l e w =
    let (mem, at, e1) = bind-some s.table.memtable _ _ e in
    let (left, released, e2) = bind-some (unref_table n mem) _ _ e1 in
    let (enough, less) = unref_table-some n mem left released in
    subst (λ x. IsAlive (record { table = x; held = s.held - n })) (some-injective _ _ e2)
      record {
        counted =
            released_count mem left s.table.is_flushed n s.held l
              (subst (λ m. Counted m s.table.is_flushed s.held) at w.counted) less;
        flushed_immutable = w.flushed_immutable;
        unflushed_empty = w.unflushed_empty;
      }

moves-IsAlive :
    (s : Shared) (v : ℕ) (add remove : List ℕ) (a : AtomicMemTable)
    → update_l0_files v add remove s.table ≡ some a
    → IsAlive s
    → IsAlive (record s { table = a })
unfolding update_l0_files
moves-IsAlive s v add remove a e w =
    let (immutable, e1) = guard-some s.table.is_immutable _ _ e in
    let (flushed, e2) = guard-some s.table.is_flushed _ _ e1 in
    subst (λ x. IsAlive (record s { table = x })) (some-injective _ _ e2)
      record {
        counted = w.counted;
        flushed_immutable = w.flushed_immutable;
        unflushed_empty = λ f. absurd (cc);
      }

Step-IsAlive : (s t : Shared) → Step s t → IsAlive s → IsAlive t
Step-IsAlive s t (sets g i e k) w = subst IsAlive (sym k) (sets-IsAlive s g i e w)
Step-IsAlive s t (fills wbs a e k) w = subst IsAlive (sym k) (fills-IsAlive s wbs a e w)
Step-IsAlive s t (closes k) w = subst IsAlive (sym k) (closes-IsAlive s w)
Step-IsAlive s t (flushes l0s v a e k) w = subst IsAlive (sym k) (flushes-IsAlive s l0s v a e w)
Step-IsAlive s t (asks k) w = subst IsAlive (sym k) (asks-IsAlive s w)
Step-IsAlive s t (releases n a l e k) w = subst IsAlive (sym k) (releases-IsAlive s n a l e w)
Step-IsAlive s t (moves v add remove a e k) w =
    subst IsAlive (sym k) (moves-IsAlive s v add remove a e w)

pub Reach-IsAlive : {s t : Shared} → IsAlive s → Reach s t → IsAlive t
Reach-IsAlive h here = h
Reach-IsAlive h (next {t} {u} r st) = Step-IsAlive t u st (Reach-IsAlive h r)

pub start-IsAlive : (g i : ℕ) → IsAlive (start g i)
unfolding set_memtable ref_table
start-IsAlive g i = record {
  counted = refl;
  flushed_immutable = λ f. absurd (cc);
  unflushed_empty = λ f. refl;
}
