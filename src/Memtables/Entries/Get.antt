-- ===== src/Memtables/Entries/Get.antt =====
-- MemTable::Get against the versions that MemTable::Add added.
use bl_nova_lsm.Common.{ℕ, ◌+◌, ◌≡◌, some, List, [], ◌∷◌, map, length, All, inl, inr}
use mathlib.Core.Path.{subst}
use bl_nova_lsm.Coding.{Bytes, IsU32}
use bl_nova_lsm.Keys.{Comparator}
use bl_nova_lsm.InternalKey.{new_lookup_key}
use bl_nova_lsm.InternalKey.Packed.{IsSequence, lookup_user_key_lem}
use bl_nova_lsm.Memtables.Entries.{Lookup, get_entry}
use bl_nova_lsm.Memtables.Entries.Encoded.{Entry, IsEntry, encoded}
use bl_nova_lsm.Memtables.Entries.Table.{
  add_all, sorted_all, add_all-sorted_all, sorted_all-Ordered, All-sorted_all, sorted_all-All,
}
use bl_nova_lsm.Memtables.Entries.Visible.{Among, Among-self, Answers, finds, finds_none}
use bl_nova_lsm.Memtables.Entries.Newest.{seek-Sought, read_Sought}

All-Among : (P : Entry → Type 0) (xs : List Entry) (x : Entry) → All P xs → Among x xs → P x
All-Among P [] x h i = absurd i
All-Among P (y ∷ ys) x h (inl e) = subst P e h.0
All-Among P (y ∷ ys) x h (inr i) = All-Among P ys x h.1 i

-- The table has exactly the entries that were added.
of_added :
    (cmp : Comparator) (user : Bytes) (s : ℕ) (es : List Entry) (r : Lookup)
    → Answers cmp user s (sorted_all cmp es []) r
    → Answers cmp user s es r
of_added cmp user s es r (finds e i v k h) =
    finds e
      (All-Among (λ x. Among x es) (sorted_all cmp es []) e
        (All-sorted_all cmp (λ x. Among x es) es [] (Among-self es es (λ x j. j)) tt) i)
      v k (sorted_all-All cmp _ es [] h).0
of_added cmp user s es r (finds_none e h) = finds_none e (sorted_all-All cmp _ es [] h).0

-- After any calls of Add with keys and values that fit their lengths and sequence numbers up to the
-- greatest, a Get of a user key at a snapshot ends and gives the value or the deletion of the version
-- of the greatest sequence number among those of the key that are not newer than the snapshot, and
-- reports that there is none exactly when no such version was added.
pub get_entry-newest :
    (cmp : Comparator) (es : List Entry) (user : Bytes) (s : ℕ)
    → All IsEntry es
    → IsU32 (length user + 8)
    → IsSequence s
    → (table : List Bytes) × (add_all cmp es [] ≡ some table)
      × ((r : Lookup) × (get_entry cmp (new_lookup_key user s) table ≡ some r)
          × Answers cmp user s es r)
unfolding get_entry
get_entry-newest cmp es user s w fits in_sequence =
    let xs = sorted_all cmp es [] in
    let ws = All-sorted_all cmp IsEntry es [] w tt in
    let (o, e, sought) =
      seek-Sought cmp user s in_sequence fits xs ws (sorted_all-Ordered cmp es [] tt) in
    let (r, k, a) = read_Sought cmp user s in_sequence fits xs o ws sought in
    (
      map encoded xs,
      add_all-sorted_all cmp es [] w tt,
      (r, rw (e, lookup_user_key_lem user s) k, of_added cmp user s es r a),
    )
