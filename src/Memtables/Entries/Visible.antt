-- ===== src/Memtables/Entries/Visible.antt =====
-- The versions of a user key that a snapshot sees.
use Prim.Native.Nat.{Ordering}
use bl_nova_lsm.Common.{
  ℕ, ◌+◌, ◌*◌, ◌≤◌, ◌<◌, ◌≡◌, ◌⊎◌, refl, ap, List, [], ◌∷◌, ltb, All, Bool-cases, inl, inr, arith,
}
use mathlib.Core.Path.{◌∙◌}
use bl_nova_lsm.Coding.{Bytes}
use bl_nova_lsm.Keys.{Comparator, flip}
use bl_nova_lsm.InternalKey.{type_number, value_type_for_seek}
use bl_nova_lsm.InternalKey.Packed.{IsSequence, packed, type_number-le}
use bl_nova_lsm.InternalKey.Seen.{
  Seen, seen_of, Before, Cause, smaller, newer, Before-Cause, Cause-Before,
}
use bl_nova_lsm.Memtables.Entries.{Lookup, not_found}
use bl_nova_lsm.Memtables.Entries.Encoded.{Entry, IsEntry, seen_entry, sought, typed}
use bl_nova_lsm.Memtables.Entries.Table.{Upto}

-- The entry is one of the list.
abbrev pub Among : Entry → List Entry → Type 0
Among e [] = ⊥
Among e (x ∷ xs) = (x ≡ e) ⊎ Among e xs

pub Among-self :
    (es fs : List Entry) → ((e : Entry) → Among e es → Among e fs) → All (λ e. Among e fs) es
Among-self [] fs h = tt
Among-self (e ∷ es) fs h = (h e (inl refl), Among-self es fs (λ x i. h x (inr i)))

module _ (cmp : Comparator) (user : Bytes) (s : ℕ) where
  -- A version of the user key that the snapshot sees.
  pub record Visible (e : Entry) : Type 0 where
    pub of_key : cmp.order e.key.user_key user ≡ Ordering.eq
    pub not_newer : e.key.sequence ≤ s

  -- The answer of a Get: the version of the greatest sequence number among the visible ones, or that
  -- there is none.
  pub data Answers (es : List Entry) (r : Lookup) : Type 0 where
    finds :
        (e : Entry)
        → Among e es
        → Visible e
        → r ≡ typed e.key.type e.value
        → All (λ a. Visible a → a.key.sequence ≤ e.key.sequence) es
        → Answers es r
    finds_none : r ≡ not_found → All (λ a. ¬ Visible a) es → Answers es r

  abbrev pub target : Seen
  target = seen_of (sought user s)

  module _ (in_sequence : IsSequence s) where
    number :
        (e : Entry)
        → IsEntry e
        → (seen_entry e).number ≡ type_number e.key.type + e.key.sequence * 256
    number e w = packed e.key.sequence e.key.type w.in_sequence

    target_number : target.number ≡ 1 + s * 256
    target_number = packed s value_type_for_seek in_sequence

    pub Visible-not-Before :
        (e : Entry) → IsEntry e → Visible e → ¬ Before cmp (seen_entry e) target
    Visible-not-Before e w v p = from (Before-Cause cmp (seen_entry e) target p)
      where
        from : Cause cmp (seen_entry e) target → ⊥
        from (smaller h) = absurd (let k = v.of_key in cc)
        from (newer h l) =
            omega (arith, number e w, target_number, type_number-le e.key.type, v.not_newer, l)

    pub sees :
        (e : Entry)
        → IsEntry e
        → cmp.order e.key.user_key user ≡ Ordering.eq
        → ¬ Before cmp (seen_entry e) target
        → Visible e
    sees e w k n = record {
      of_key = k;
      not_newer = elim (Bool-cases (ltb s e.key.sequence)) [
        | inr le ↦ ground arith
        | inl gt ↦
            let l : s < e.key.sequence = ground arith in
            absurd (
              n (
                Cause-Before cmp (seen_entry e) target
                  (newer k (omega (arith, number e w, target_number, l)))))
      ];
    }

    -- Of two versions of the key, the one in front is the newer.
    pub newer_first :
        (x a : Entry)
        → IsEntry x
        → IsEntry a
        → Visible x
        → Visible a
        → Upto cmp x a
        → a.key.sequence ≤ x.key.sequence
    newer_first x a wx wa vx va u = elim (Bool-cases (ltb x.key.sequence a.key.sequence)) [
      | inr le ↦ ground arith
      | inl gt ↦
          let l : x.key.sequence < a.key.sequence = ground arith in
          absurd (
            u (
              Cause-Before cmp (seen_entry a) (seen_entry x) (
                newer (same_key va vx)
                  (omega (arith, number x wx, number a wa, type_number-le x.key.type, l)))))
    ]
      where
        same_key : Visible a → Visible x → cmp.order a.key.user_key x.key.user_key ≡ Ordering.eq
        same_key va vx =
            cmp.eq_left a.key.user_key user x.key.user_key va.of_key
            ∙ (cmp.order_flip x.key.user_key user ∙ ap flip vx.of_key)
