-- ===== src/Memtables/Entries/Encoded.antt =====
-- The entries of a memtable, as KeyComparator and MemTable::Get read them.
use bl_nova_lsm.Common.{
  ℕ, ◌+◌, ◌-◌, ◌*◌, ◌%◌, ◌≡◌, refl, sym, ap, Bool, true, false, some, [], ◌++◌, leb, if◌then◌else◌,
  length, append_assoc, append-nil, arith, length-append, take-length-append, drop-length-append,
}
use mathlib.Core.Path.{◌∙◌}
use bl_nova_lsm.Coding.{Bytes, IsU32, encode_fixed64}
use bl_nova_lsm.Coding.Fixed.{decode_fixed64_word, length-encode_fixed64}
use bl_nova_lsm.Coding.Varint.{
  encode_varint32, put_length_prefixed_slice, get_length_prefixed_slice,
}
use bl_nova_lsm.Coding.Varint.RoundTrip.{
  get_varint32-encode_varint32, get_length_prefixed_slice-put,
}
use bl_nova_lsm.Keys.{Comparator}
use bl_nova_lsm.InternalKey.{
  ValueType, type_deletion, type_value, type_number, value_type_for_seek, ParsedInternalKey,
  pack_sequence_and_type, append_internal_key, new_lookup_key, memtable_key,
}
use bl_nova_lsm.InternalKey.Packed.{
  IsSequence, packed, packed-IsU64, new_lookup_key_lem, internal_key_lem,
}
use bl_nova_lsm.InternalKey.Seen.{
  Seen, seen_of, append_internal_key-Shows, seen_order, compare_internal-Shows,
}
use bl_nova_lsm.Levels.{is_eq}
use bl_nova_lsm.Memtables.Entries.{
  encode_entry, compare_entries, Lookup, found_value, found_deletion, not_found, read_typed,
  read_entry,
}

-- The arguments of a MemTable::Add.
pub record Entry : Type 0 where
  pub key : ParsedInternalKey
  pub value : Bytes

pub record IsEntry (e : Entry) : Type 0 where
  pub in_sequence : IsSequence e.key.sequence
  pub key_fits : IsU32 (length e.key.user_key + 8)
  pub value_fits : IsU32 (length e.value)

abbrev pub encoded : Entry → Bytes
encoded e = encode_entry e.key.sequence e.key.type e.key.user_key e.value

abbrev tag_of : Entry → ℕ
tag_of e = pack_sequence_and_type e.key.sequence e.key.type

abbrev whole : Entry → Bytes
whole e = e.key.user_key ++ encode_fixed64 (tag_of e)

abbrev value_part : Entry → Bytes
value_part e = encode_varint32 (length e.value) ++ e.value

length-whole : (e : Entry) → length (whole e) ≡ length e.key.user_key + 8
length-whole e = omega (
  arith,
  length-append e.key.user_key (encode_fixed64 (tag_of e)),
  length-encode_fixed64 (tag_of e),
)

encoded_parts : (e : Entry) → encoded e ≡ put_length_prefixed_slice [] (whole e) ++ value_part e
unfolding encode_entry put_length_prefixed_slice
encoded_parts e = rw (length-whole e) (simp (append_assoc))

slice_of :
    (e : Entry) → IsEntry e → get_length_prefixed_slice (encoded e) ≡ some (whole e, value_part e)
slice_of e w =
    ap get_length_prefixed_slice (encoded_parts e)
    ∙ get_length_prefixed_slice-put (whole e) (value_part e)
        (omega (arith, length-whole e, w.key_fits))

-- What the order of the entries looks at.
abbrev pub seen_entry : Entry → Seen
seen_entry e = seen_of e.key

-- The key that a lookup of a user key and a snapshot seeks.
abbrev pub sought : Bytes → ℕ → ParsedInternalKey
sought user s = record { user_key = user; sequence = s; type = value_type_for_seek }

whole-append : (e : Entry) → whole e ≡ append_internal_key [] e.key
unfolding append_internal_key
whole-append e = refl

pub compare_entries-seen :
    (cmp : Comparator) (a b : Entry)
    → IsEntry a
    → IsEntry b
    → compare_entries cmp (encoded a) (encoded b)
      ≡ some (seen_order cmp (seen_entry a) (seen_entry b))
unfolding compare_entries
compare_entries-seen cmp a b wa wb =
    rw (slice_of a wa, slice_of b wb, whole-append a, whole-append b)
      (compare_internal-Shows cmp (append_internal_key [] a.key) (append_internal_key [] b.key)
        (seen_entry a) (seen_entry b) (append_internal_key-Shows a.key wa.in_sequence)
        (append_internal_key-Shows b.key wb.in_sequence))

sought_slice :
    (user : Bytes) (s : ℕ)
    → IsU32 (length user + 8)
    → IsSequence s
    → get_length_prefixed_slice (memtable_key (new_lookup_key user s))
      ≡ some (append_internal_key [] (sought user s), [])
unfolding append_internal_key
sought_slice user s h k =
    (new_lookup_key_lem user s h k).0 ∙ ap (λ x. some (x, [])) (internal_key_lem user s)

pub compare_entries-sought :
    (cmp : Comparator) (a : Entry) (user : Bytes) (s : ℕ)
    → IsEntry a
    → IsU32 (length user + 8)
    → IsSequence s
    → compare_entries cmp (encoded a) (memtable_key (new_lookup_key user s))
      ≡ some (seen_order cmp (seen_entry a) (seen_of (sought user s)))
unfolding compare_entries
compare_entries-sought cmp a user s wa h k =
    rw (slice_of a wa, sought_slice user s h k, whole-append a)
      (compare_internal-Shows cmp (append_internal_key [] a.key)
        (append_internal_key [] (sought user s)) (seen_entry a) (seen_of (sought user s))
        (append_internal_key-Shows a.key wa.in_sequence)
        (append_internal_key-Shows (sought user s) k))

-- What a Get that finds the entry returns, if it is of the user key.
abbrev pub typed : ValueType → Bytes → Lookup
typed type_value value = found_value value
typed type_deletion value = found_deletion

value_slice :
    (e : Entry) → IsEntry e → get_length_prefixed_slice (value_part e) ≡ some (e.value, [])
unfolding put_length_prefixed_slice
value_slice e w =
    ap get_length_prefixed_slice (sym (append-nil (value_part e)))
    ∙ get_length_prefixed_slice-put e.value [] w.value_fits

read_typed-typed :
    (e : Entry) (t : ValueType)
    → IsEntry e
    → read_typed (type_number t + e.key.sequence * 256) (value_part e) ≡ some (typed t e.value)
unfolding read_typed
read_typed-typed e type_value w =
    let is_one : (1 + e.key.sequence * 256) % 256 ≡ 1 = omega arith in
    rw (is_one, value_slice e w) refl
read_typed-typed e type_deletion w =
    let is_zero : (0 + e.key.sequence * 256) % 256 ≡ 0 = omega arith in rw is_zero refl

pub read_entry-encoded :
    (cmp : Comparator) (user : Bytes) (e : Entry)
    → IsEntry e
    → read_entry cmp user (encoded e)
      ≡ some (if is_eq (cmp.order e.key.user_key user) then typed e.key.type e.value else not_found)
unfolding read_entry encode_entry
read_entry-encoded cmp user e w =
    let n : ℕ = length e.key.user_key in
    let enough : leb 8 (n + 8) ≡ true = ground arith in
    let size : n + 8 - 8 ≡ n = omega arith in
    rw
      (
        get_varint32-encode_varint32 (n + 8) _ w.key_fits,
        enough,
        size,
        drop-length-append e.key.user_key _,
        take-length-append e.key.user_key _,
        decode_fixed64_word (tag_of e) (value_part e)
            (packed-IsU64 e.key.sequence e.key.type w.in_sequence),
        packed e.key.sequence e.key.type w.in_sequence,
        read_typed-typed e e.key.type w,
      )
      (pick (is_eq (cmp.order e.key.user_key user)))
  where
    pick :
        (b : Bool)
        → (if b then some (typed e.key.type e.value) else some not_found)
          ≡ some (if b then typed e.key.type e.value else not_found)
    pick true = refl
    pick false = refl
