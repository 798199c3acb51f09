-- ===== src/Levels/Overlap.antt =====
-- The two ways in which SomeFileOverlapsRange answers.
use Prim.Native.Nat.{Ordering}
use bl_nova_lsm.Common.{
  ℕ, ◌+◌, ◌*◌, ◌^◌, ◌≤◌, ◌<◌, ◌≡◌, refl, sym, ap, true, false, Option, none, some, List, [], length,
  All, arith, Bool-cases, inl, inr,
}
use mathlib.Core.Path.{◌∙◌}
use bl_nova_lsm.Common.Ordered.{All-get}
use bl_nova_lsm.Coding.{Bytes}
use bl_nova_lsm.Keys.{Comparator, flip}
use bl_nova_lsm.InternalKey.{ParsedInternalKey, value_type_for_seek, append_internal_key}
use bl_nova_lsm.InternalKey.Packed.{packed}
use bl_nova_lsm.InternalKey.Seen.{
  seen_of, append_internal_key-Shows, Before, Cause, smaller, newer, Before-Cause, Cause-Before,
}
use bl_nova_lsm.Files.{FileMetaData}
use bl_nova_lsm.Levels.{
  is_gt, after_file, max_sequence_number, first_index, some_file_overlaps_range,
}
use bl_nova_lsm.Levels.Sorted.{seen, IsLevel, HasKeys, keys_at}
use bl_nova_lsm.Levels.Cut.{Cut, overlaps_any-at_index, before_tested, before_stays}
use bl_nova_lsm.Levels.Find.{find_file-Parts}

-- The greatest number of a key is that of the greatest sequence number and the greatest type.
abbrev pub IsNumbered : FileMetaData → Type 0
IsNumbered f = (seen f.largest).number ≤ 1 + max_sequence_number * 256

module _ (cmp : Comparator) (files : List FileMetaData) (w : IsLevel cmp files)
    (numbered : All IsNumbered files) where
  abbrev small_key : Bytes → ParsedInternalKey
  small_key k = record { user_key = k; sequence = max_sequence_number; type = value_type_for_seek }

  gt_of : (o : Ordering) → is_gt o ≡ false → ¬ (o ≡ Ordering.gt)
  gt_of o e h = absurd (cc)

  gt_flip : (a b : Bytes) → cmp.order a b ≡ Ordering.lt → cmp.order b a ≡ Ordering.gt
  gt_flip a b e = cmp.order_flip a b ∙ ap flip e

  lt_flip : (a b : Bytes) → cmp.order a b ≡ Ordering.gt → cmp.order b a ≡ Ordering.lt
  lt_flip a b e = cmp.order_flip a b ∙ ap flip e

  small_number : (k : Bytes) → (seen_of (small_key k)).number ≡ 1 + max_sequence_number * 256
  small_number k = packed max_sequence_number value_type_for_seek (omega arith)

  after_if :
      (k : Bytes) (f : FileMetaData)
      → HasKeys f
      → IsNumbered f
      → Before cmp (seen f.largest) (seen_of (small_key k))
      → after_file cmp (some k) f ≡ some true
  unfolding after_file
  after_if k f h n p =
      rw (h.1.user_at) (from (Before-Cause cmp (seen f.largest) (seen_of (small_key k)) p))
    where
      from :
          Cause cmp (seen f.largest) (seen_of (small_key k))
          → some (is_gt (cmp.order k (seen f.largest).user)) ≡ some true
      from (smaller e) = rw (gt_flip (seen f.largest).user k e) refl
      from (newer e l) = absurd (omega (arith, small_number k, n))

  not_after_if :
      (k : Bytes) (f : FileMetaData)
      → HasKeys f
      → ¬ Before cmp (seen f.largest) (seen_of (small_key k))
      → after_file cmp (some k) f ≡ some false
  unfolding after_file
  not_after_if k f h n =
      rw (h.1.user_at) (elim (Bool-cases (is_gt (cmp.order k (seen f.largest).user))) [
        | inr e ↦ ap some e
        | inl e ↦ absurd (
            n (
              Cause-Before cmp (seen f.largest) (seen_of (small_key k))
                (smaller (lt_flip k (seen f.largest).user (is_gt_of _ e)))))
      ])
    where
      is_gt_of : (o : Ordering) → is_gt o ≡ true → o ≡ Ordering.gt
      is_gt_of Ordering.lt e = absurd (cc)
      is_gt_of Ordering.eq e = absurd (cc)
      is_gt_of Ordering.gt e = refl

  Cut-at :
      length files < 2 ^ 31
      → (smallest largest : Option Bytes)
      → (r : ℕ) × (first_index cmp files smallest ≡ some r) × Cut cmp smallest largest files r
  unfolding first_index after_file
  Cut-at small none largest = (
    0,
    refl,
    record {
      ends_before = λ i f l e. absurd (omega arith);
      reaches = λ i f l e. refl;
      tested = before_tested cmp files w largest;
      stays = before_stays cmp files w largest;
    },
  )
  Cut-at small (some k) largest =
      let target = seen_of (small_key k) in
      let (r, e, parts) =
        find_file-Parts cmp files target w small (append_internal_key [] (small_key k))
          (append_internal_key-Shows (small_key k) (omega arith)) in
      (
        r,
        e,
        record {
          ends_before = λ i f l at.
              after_if k f (keys_at cmp files w i f at) (All-get IsNumbered files i f numbered at)
                (parts.before i f l at);
          reaches =
              λ i f l at. not_after_if k f (keys_at cmp files w i f at) (parts.not_before i f l at);
          tested = before_tested cmp files w largest;
          stays = before_stays cmp files w largest;
        },
      )

  -- On a level in order of fewer than 2^31 files, whose keys have numbers of known types, the binary
  -- search of SomeFileOverlapsRange gives the answer of the check against all files, for every range,
  -- bounded or not.
  pub some_file_overlaps_range-same :
      length files < 2 ^ 31
      → (smallest largest : Option Bytes)
      → some_file_overlaps_range cmp true files smallest largest
        ≡ some_file_overlaps_range cmp false files smallest largest
  unfolding some_file_overlaps_range
  some_file_overlaps_range-same small smallest largest =
      let (r, e, cut) = Cut-at small smallest largest in
      rw e (sym (overlaps_any-at_index cmp smallest largest files r cut))
