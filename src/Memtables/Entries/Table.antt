-- ===== src/Memtables/Entries/Table.antt =====
-- A table that MemTable::Add filled: its entries in order.
use Prim.Native.Nat.{Ordering}
use bl_nova_lsm.Common.{
  ◌≡◌, refl, Bool, true, false, Option, some, List, [], ◌∷◌, map, if◌then◌else◌, ◌>>=◌, All,
  Bool-cases, inl, inr, arith,
}
use bl_nova_lsm.Common.Ordered.{Ordered}
use bl_nova_lsm.Coding.{Bytes}
use bl_nova_lsm.Keys.{Comparator}
use bl_nova_lsm.InternalKey.Seen.{
  Seen, seen_order, Before, Before-trans, Before-upto, Before-Cause, Cause, smaller, newer,
}
use bl_nova_lsm.Keys.Order.{upto_refl}
use bl_nova_lsm.Levels.{is_lt}
use bl_nova_lsm.Memtables.Entries.{insert_entry, add_entry}
use bl_nova_lsm.Memtables.Entries.Encoded.{
  Entry, IsEntry, encoded, seen_entry, compare_entries-seen,
}

-- The calls of Add, one after the other.
unfoldable pub add_all : Comparator → List Entry → List Bytes → Option (List Bytes)
add_all cmp [] table = some table
add_all cmp (e ∷ es) table = do
  table' ← add_entry cmp e.key.sequence e.key.type e.key.user_key e.value table
  add_all cmp es table'

module _ (cmp : Comparator) where
  -- `e` in front of the first entry that is not before it.
  unfoldable pub insert_sorted : Entry → List Entry → List Entry
  insert_sorted e [] = e ∷ []
  insert_sorted e (x ∷ xs) =
      let later = insert_sorted e xs in
      if is_lt (seen_order cmp (seen_entry x) (seen_entry e)) then x ∷ later else e ∷ x ∷ xs

  insert_entry-encoded :
      (e : Entry) (xs : List Entry)
      → IsEntry e
      → All IsEntry xs
      → insert_entry cmp (encoded e) (map encoded xs) ≡ some (map encoded (insert_sorted e xs))
  unfolding insert_entry insert_sorted
  insert_entry-encoded e [] w ws = refl
  insert_entry-encoded e (x ∷ xs) w ws =
      rw (compare_entries-seen cmp x e ws.0 w, insert_entry-encoded e xs w ws.1)
        (pick (is_lt (seen_order cmp (seen_entry x) (seen_entry e))))
    where
      pick :
          (b : Bool)
          → (if b
              then some (encoded x ∷ map encoded (insert_sorted e xs))
              else some (encoded e ∷ encoded x ∷ map encoded xs))
            ≡ some (map encoded (if b then x ∷ insert_sorted e xs else e ∷ x ∷ xs))
      pick true = refl
      pick false = refl

  -- No entry is before one in front of it.
  abbrev pub Upto : Entry → Entry → Type 0
  Upto a b = ¬ Before cmp (seen_entry b) (seen_entry a)

  pub All-insert_sorted :
      (P : Entry → Type 0) (e : Entry) (xs : List Entry)
      → P e
      → All P xs
      → All P (insert_sorted e xs)
  unfolding insert_sorted
  All-insert_sorted P e [] p ps = (p, tt)
  All-insert_sorted P e (x ∷ xs) p ps =
      elim (Bool-cases (is_lt (seen_order cmp (seen_entry x) (seen_entry e)))) [
        | inl less ↦ rw less (ps.0, All-insert_sorted P e xs p ps.1)
        | inr not_less ↦ rw not_less (p, (ps.0, ps.1))
      ]

  -- What holds for all entries of the table holds for the new one and the old ones.
  pub insert_sorted-All :
      (P : Entry → Type 0) (e : Entry) (xs : List Entry)
      → All P (insert_sorted e xs)
      → P e × All P xs
  unfolding insert_sorted
  insert_sorted-All P e [] = λ h. (h.0, tt)
  insert_sorted-All P e (x ∷ xs) =
      elim (Bool-cases (is_lt (seen_order cmp (seen_entry x) (seen_entry e)))) [
        | inl less ↦ rw less (λ h. let (p, ps) = insert_sorted-All P e xs h.1 in (p, (h.0, ps)))
        | inr not_less ↦ rw not_less (λ h. (h.0, (h.1.0, h.1.1)))
      ]

  lt_of : (o : Ordering) → is_lt o ≡ true → o ≡ Ordering.lt
  lt_of Ordering.lt e = refl
  lt_of Ordering.eq e = absurd (cc)
  lt_of Ordering.gt e = absurd (cc)

  not_lt_of : (o : Ordering) → is_lt o ≡ false → ¬ (o ≡ Ordering.lt)
  not_lt_of o e h = absurd (cc)

  Before-antisym : (a b : Seen) → Before cmp a b → ¬ Before cmp b a
  Before-antisym a b p q = irrefl (Before-trans cmp a b a p q)
    where
      irrefl : ¬ Before cmp a a
      irrefl h = from (Before-Cause cmp a a h)
        where
          from : Cause cmp a a → ⊥
          from (smaller e) = upto_refl cmp a.user e
          from (newer e l) = omega arith

  Upto-all : (e x : Entry) (xs : List Entry) → Upto e x → All (Upto x) xs → All (Upto e) xs
  Upto-all e x [] u h = tt
  Upto-all e x (y ∷ ys) u h = (
    (λ p. h.0 (Before-upto cmp (seen_entry y) (seen_entry e) (seen_entry x) p u)),
    Upto-all e x ys u h.1,
  )

  insert_sorted-Ordered :
      (e : Entry) (xs : List Entry) → Ordered Upto xs → Ordered Upto (insert_sorted e xs)
  unfolding insert_sorted
  insert_sorted-Ordered e [] o = (tt, tt)
  insert_sorted-Ordered e (x ∷ xs) o =
      elim (Bool-cases (is_lt (seen_order cmp (seen_entry x) (seen_entry e)))) [
        | inl less ↦ rw less (
          All-insert_sorted (Upto x) e xs
              (Before-antisym (seen_entry x) (seen_entry e) (lt_of _ less)) o.0,
          insert_sorted-Ordered e xs o.1,
        )
        | inr not_less ↦
            rw not_less ((not_lt_of _ not_less, Upto-all e x xs (not_lt_of _ not_less) o.0), o)
      ]

  -- The entries after the calls of Add.
  unfoldable pub sorted_all : List Entry → List Entry → List Entry
  sorted_all [] xs = xs
  sorted_all (e ∷ es) xs = sorted_all es (insert_sorted e xs)

  pub add_all-sorted_all :
      (es xs : List Entry)
      → All IsEntry es
      → All IsEntry xs
      → add_all cmp es (map encoded xs) ≡ some (map encoded (sorted_all es xs))
  unfolding add_all sorted_all add_entry
  add_all-sorted_all [] xs h k = refl
  add_all-sorted_all (e ∷ es) xs h k =
      rw (insert_entry-encoded e xs h.0 k)
        (add_all-sorted_all es (insert_sorted e xs) h.1 (All-insert_sorted IsEntry e xs h.0 k))

  pub sorted_all-Ordered : (es xs : List Entry) → Ordered Upto xs → Ordered Upto (sorted_all es xs)
  unfolding sorted_all
  sorted_all-Ordered [] xs o = o
  sorted_all-Ordered (e ∷ es) xs o =
      sorted_all-Ordered es (insert_sorted e xs) (insert_sorted-Ordered e xs o)

  pub All-sorted_all :
      (P : Entry → Type 0) (es xs : List Entry) → All P es → All P xs → All P (sorted_all es xs)
  unfolding sorted_all
  All-sorted_all P [] xs h k = k
  All-sorted_all P (e ∷ es) xs h k =
      All-sorted_all P es (insert_sorted e xs) h.1 (All-insert_sorted P e xs h.0 k)

  pub sorted_all-All :
      (P : Entry → Type 0) (es xs : List Entry) → All P (sorted_all es xs) → All P es × All P xs
  unfolding sorted_all
  sorted_all-All P [] xs h = (tt, h)
  sorted_all-All P (e ∷ es) xs h =
      let (a, b) = sorted_all-All P es (insert_sorted e xs) h in
      let (p, ps) = insert_sorted-All P e xs b in ((p, a), ps)
