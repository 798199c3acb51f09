-- ===== src/Memtables/Entries/Newest.antt =====
-- What MemTable::Get finds and reads in a table in order.
use Prim.Native.Nat.{Ordering}
use bl_nova_lsm.Common.{
  ℕ, ◌+◌, ◌≤◌, ◌≡◌, refl, true, false, Option, none, some, List, [], ◌∷◌, map, length, All,
  Bool-cases, inl, inr, arith,
}
use bl_nova_lsm.Common.Ordered.{Ordered}
use bl_nova_lsm.Coding.{Bytes, IsU32}
use bl_nova_lsm.Keys.{Comparator}
use bl_nova_lsm.Keys.Order.{upto_refl, upto_trans, eq_of_upto, not_lt_of_eq}
use bl_nova_lsm.InternalKey.{new_lookup_key, memtable_key}
use bl_nova_lsm.InternalKey.Packed.{IsSequence}
use bl_nova_lsm.InternalKey.Seen.{
  seen_order, Before, Cause, smaller, newer, Before-Cause, upto_of_not_Before,
}
use bl_nova_lsm.Levels.{is_lt, is_eq}
use bl_nova_lsm.Memtables.Entries.{Lookup, not_found, seek, read_entry, if_valid}
use bl_nova_lsm.Memtables.Entries.Encoded.{
  Entry, IsEntry, encoded, seen_entry, compare_entries-sought, read_entry-encoded,
}
use bl_nova_lsm.Memtables.Entries.Visible.{
  Among, Visible, Answers, finds, finds_none, target, Visible-not-Before, sees, newer_first,
}
use bl_nova_lsm.Memtables.Entries.Table.{Upto}

module _ (cmp : Comparator) (user : Bytes) (s : ℕ) (in_sequence : IsSequence s) where
  Upto-refl : (x : Entry) → Upto cmp x x
  Upto-refl x p = from (Before-Cause cmp (seen_entry x) (seen_entry x) p)
    where
      from : Cause cmp (seen_entry x) (seen_entry x) → ⊥
      from (smaller e) = upto_refl cmp x.key.user_key e
      from (newer e l) = omega arith

  -- Where the lookup key is found in the table.
  pub data Sought (xs : List Entry) (o : Option Bytes) : Type 0 where
    at :
        (x : Entry)
        → o ≡ some (encoded x)
        → Among x xs
        → IsEntry x
        → ¬ Before cmp (seen_entry x) (target cmp user s)
        → All (λ a. Visible cmp user s a → Upto cmp x a) xs
        → Sought xs o
    past : o ≡ none → All (λ a. ¬ Visible cmp user s a) xs → Sought xs o

  weaken_all :
      (x : Entry) (xs : List Entry)
      → All (Upto cmp x) xs
      → All (λ a. Visible cmp user s a → Upto cmp x a) xs
  weaken_all x [] h = tt
  weaken_all x (y ∷ ys) h = ((λ v. h.0), weaken_all x ys h.1)

  module _ (fits : IsU32 (length user + 8)) where
    pub seek-Sought :
        (xs : List Entry)
        → All IsEntry xs
        → Ordered (Upto cmp) xs
        → (o : Option Bytes) × (seek cmp (memtable_key (new_lookup_key user s)) (map encoded xs)
            ≡ some o)
          × Sought xs o
    unfolding seek
    seek-Sought [] w o = (none, refl, past refl tt)
    seek-Sought (x ∷ xs) w o =
        rw (compare_entries-sought cmp x user s w.0 fits in_sequence)
          (elim (Bool-cases (is_lt (seen_order cmp (seen_entry x) (target cmp user s)))) [
            | inl less ↦
                let (r, e, k) = seek-Sought xs w.1 o.1 in
                rw (less, e) (r, refl, skip r (lt_of _ less) k)
            | inr stop ↦ rw stop (
              some (encoded x),
              refl,
              at x refl (inl refl) w.0 (not_lt_of _ stop) ((λ v. Upto-refl x), weaken_all x xs o.0),
            )
          ])
      where
        lt_of : (o : Ordering) → is_lt o ≡ true → o ≡ Ordering.lt
        lt_of Ordering.lt e = refl
        lt_of Ordering.eq e = absurd (cc)
        lt_of Ordering.gt e = absurd (cc)

        not_lt_of : (o : Ordering) → is_lt o ≡ false → ¬ (o ≡ Ordering.lt)
        not_lt_of o e h = absurd (cc)

        skip :
            (r : Option Bytes)
            → Before cmp (seen_entry x) (target cmp user s)
            → Sought xs r
            → Sought (x ∷ xs) r
        skip r b (at y e i wy n h) =
            at y e (inr i) wy n
              ((λ v. absurd (Visible-not-Before cmp user s in_sequence x w.0 v b)), h)
        skip r b (past e h) = past e ((λ v. Visible-not-Before cmp user s in_sequence x w.0 v b), h)

    key_of_first :
        (x a : Entry)
        → ¬ Before cmp (seen_entry x) (target cmp user s)
        → Upto cmp x a
        → Visible cmp user s a
        → cmp.order x.key.user_key user ≡ Ordering.eq
    key_of_first x a n u v =
        eq_of_upto cmp x.key.user_key user
          (upto_trans cmp x.key.user_key a.key.user_key user
            (upto_of_not_Before cmp (seen_entry a) (seen_entry x) u)
            (not_lt_of_eq cmp a.key.user_key user v.of_key))
          (upto_of_not_Before cmp (seen_entry x) (target cmp user s) n)

    is_eq_of : (o : Ordering) → is_eq o ≡ true → o ≡ Ordering.eq
    is_eq_of Ordering.lt e = absurd (cc)
    is_eq_of Ordering.eq e = refl
    is_eq_of Ordering.gt e = absurd (cc)

    none-Visible :
        (x : Entry) (xs : List Entry)
        → ¬ Before cmp (seen_entry x) (target cmp user s)
        → is_eq (cmp.order x.key.user_key user) ≡ false
        → All (λ a. Visible cmp user s a → Upto cmp x a) xs
        → All (λ a. ¬ Visible cmp user s a) xs
    none-Visible x [] n e h = tt
    none-Visible x (a ∷ as') n e h =
        ((λ v. absurd (let k = key_of_first x a n (h.0 v) v in cc)), none-Visible x as' n e h.1)

    all_older :
        (x : Entry) (xs : List Entry)
        → IsEntry x
        → Visible cmp user s x
        → All IsEntry xs
        → All (λ a. Visible cmp user s a → Upto cmp x a) xs
        → All (λ a. Visible cmp user s a → a.key.sequence ≤ x.key.sequence) xs
    all_older x [] w v ws h = tt
    all_older x (a ∷ as') w v ws h = (
      (λ va. newer_first cmp user s in_sequence x a w ws.0 v va (h.0 va)),
      all_older x as' w v ws.1 h.1,
    )

    pub read_Sought :
        (xs : List Entry) (o : Option Bytes)
        → All IsEntry xs
        → Sought xs o
        → (r : Lookup) × (if_valid o (read_entry cmp user) ≡ some r) × Answers cmp user s xs r
    read_Sought xs o ws (past e h) = rw e (not_found, refl, finds_none refl h)
    read_Sought xs o ws (at x e i w n h) =
        rw (e, read_entry-encoded cmp user x w)
          (elim (Bool-cases (is_eq (cmp.order x.key.user_key user))) [
            | inl same ↦
                let v = sees cmp user s in_sequence x w (is_eq_of _ same) n in
                rw same (_, refl, finds x i v refl (all_older x xs w v ws h))
            | inr other ↦ rw other (_, refl, finds_none refl (none-Visible x xs n other h))
          ])
