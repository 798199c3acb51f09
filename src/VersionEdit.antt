-- ===== src/VersionEdit.antt =====
-- db/version_edit.h and db/version_edit.cc: the record of a change to the LSM-tree that is written
-- to the manifest, and its reading. The number of levels of the configuration is a parameter.
pub mod Shrinks
pub mod Rounds
pub mod RoundTrip
pub mod Comparator
mod Examples
use bl_nova_lsm.Common.{
  ℕ, zero, suc, ◌+◌, Bool, true, false, Option, none, some, List, [], ◌∷◌, ◌++◌, ltb, ◌==◌,
  if◌then◌else◌, ◌>>=◌, ◌>>◌, guard, length,
}
use bl_nova_lsm.Coding.{
  Bytes, encode_fixed32, decode_fixed32, encode_fixed64, decode_fixed64, encode_str,
}
use bl_nova_lsm.Coding.Lists.{encode_all}
use bl_nova_lsm.Files.{
  FileMetaData, FileReplicaMetaData, StocBlockHandle, new_file, encode_file, decode_file,
}
use bl_nova_lsm.Range.{Range}
use bl_nova_lsm.Subrange.{SubRange, new_subrange, encode_subrange, decode_subrange}
use bl_nova_lsm.Subranges.{encode_from}

pub record VersionEdit : Type 0 where
  pub comparator : Bytes
  pub next_file_number : ℕ
  pub last_sequence : ℕ
  pub has_comparator : Bool
  pub has_prev_log_number : Bool
  pub has_next_file_number : Bool
  pub has_last_sequence : Bool
  pub update_replica_locations : Bool
  pub compact_pointers : List (ℕ × Bytes)
  pub deleted_files : List (ℕ × ℕ)
  pub new_files : List (ℕ × FileMetaData)
  pub new_subranges : List SubRange

-- VersionEdit::Clear, which leaves update_replica_locations_ as it is.
unfoldable pub clear : VersionEdit → VersionEdit
clear e = record {
  comparator = [];
  next_file_number = 0;
  last_sequence = 0;
  has_comparator = false;
  has_prev_log_number = false;
  has_next_file_number = false;
  has_last_sequence = false;
  update_replica_locations = e.update_replica_locations;
  compact_pointers = [];
  deleted_files = [];
  new_files = [];
  new_subranges = [];
}

unfoldable pub set_comparator_name : Bytes → VersionEdit → VersionEdit
set_comparator_name name e = record e { has_comparator = true; comparator = name }

unfoldable pub set_next_file : ℕ → VersionEdit → VersionEdit
set_next_file num e = record e { has_next_file_number = true; next_file_number = num }

unfoldable pub set_last_sequence : ℕ → VersionEdit → VersionEdit
set_last_sequence seq e = record e { has_last_sequence = true; last_sequence = seq }

unfoldable pub set_compact_pointer : ℕ → Bytes → VersionEdit → VersionEdit
set_compact_pointer level key e = record e {
  compact_pointers = e.compact_pointers ++ ((level, key) ∷ []);
}

unfoldable pub update_subrange : ℕ → List Range → ℕ → VersionEdit → VersionEdit
update_subrange id ranges duplicates e = record e {
  new_subranges =
      e.new_subranges
      ++ (record new_subrange {
        tiny_ranges = ranges;
        num_duplicates = duplicates;
        decoded_subrange_id = id;
      }
          ∷ []);
}

-- VersionEdit::AddFile; the caller's fields are those of `f`, whose level is set here.
unfoldable pub add_file : ℕ → FileMetaData → VersionEdit → VersionEdit
add_file level f e = record e {
  new_files = e.new_files ++ ((level, record f { level = level }) ∷ []);
}

unfoldable pub delete_file : ℕ → ℕ → VersionEdit → VersionEdit
delete_file level file e = record e { deleted_files = e.deleted_files ++ ((level, file) ∷ []) }

-- enum Tag
abbrev pub tag_comparator : ℕ
tag_comparator = 1

abbrev pub tag_next_file_number : ℕ
tag_next_file_number = 3

abbrev pub tag_last_sequence : ℕ
tag_last_sequence = 4

abbrev pub tag_deleted_file : ℕ
tag_deleted_file = 6

abbrev pub tag_new_file : ℕ
tag_new_file = 7

abbrev pub tag_update_subrange : ℕ
tag_update_subrange = 8

abbrev pub tag_end_edit : ℕ
tag_end_edit = 10

unfoldable pub encode_deleted_file : ℕ × ℕ → Bytes
encode_deleted_file (level, fnumber) =
    tag_deleted_file ∷ (encode_fixed32 level ++ encode_fixed64 fnumber)

unfoldable pub encode_new_file : ℕ × FileMetaData → Bytes
encode_new_file (level, f) = tag_new_file ∷ (encode_fixed32 level ++ encode_file f)

-- The loop over new_subranges_, which numbers them by their position.
unfoldable pub encode_new_subranges : ℕ → List SubRange → Bytes
encode_new_subranges i [] = []
encode_new_subranges i (sr ∷ srs) =
    tag_update_subrange ∷ (encode_subrange i sr ++ encode_new_subranges (i + 1) srs)

-- VersionEdit::EncodeTo
unfoldable pub encode_edit : VersionEdit → Bytes
encode_edit e =
    (if e.has_comparator then tag_comparator ∷ encode_str e.comparator else [])
    ++ ((if e.has_next_file_number
          then tag_next_file_number ∷ encode_fixed64 e.next_file_number
          else [])
        ++ ((if e.has_last_sequence then tag_last_sequence ∷ encode_fixed64 e.last_sequence else [])
            ++ (encode_all encode_deleted_file e.deleted_files
                ++ (encode_all encode_new_file e.new_files
                    ++ (encode_new_subranges 0 e.new_subranges ++ (tag_end_edit ∷ []))))))

-- What the message of a Corruption status names.
pub data Reason : Type 0 where
  bad_next_file_number bad_last_sequence bad_deleted_file bad_new_file unknown_tag : Reason

-- One round of the loop of DecodeFrom: the edit, the file `f` that the rounds share, and the input.
-- SubRange::Decode does not return false: it aborts.
pub data Round : Type 0 where
  next : VersionEdit → FileMetaData → Bytes → Round
  bad : Reason → Round
  abort : Round

abbrev or_bad : Option Round → Reason → Round
or_bad none r = bad r
or_bad (some n) r = n

abbrev or_abort : Option Round → Round
or_abort none = abort
or_abort (some n) = n

-- GetLevel, where `levels` is the number of levels in the configuration.
unfoldable pub get_level : ℕ → Bytes → Option (ℕ × Bytes)
get_level levels input = do (v, rest) ← decode_fixed32 input; guard (ltb v levels); some (v, rest)

unfoldable pub read_next_file_number : VersionEdit → FileMetaData → Bytes → Option Round
unfolding set_next_file
read_next_file_number e f input = do
  (n, rest) ← decode_fixed64 input
  some (next (set_next_file n e) f rest)

unfoldable pub read_last_sequence : VersionEdit → FileMetaData → Bytes → Option Round
unfolding set_last_sequence
read_last_sequence e f input = do
  (n, rest) ← decode_fixed64 input
  some (next (set_last_sequence n e) f rest)

unfoldable pub read_deleted_file : ℕ → VersionEdit → FileMetaData → Bytes → Option Round
unfolding delete_file get_level
read_deleted_file levels e f input = do
  (level, input1) ← get_level levels input
  (number, rest) ← decode_fixed64 input1
  some (next (delete_file level number e) f rest)

-- The file is decoded into the shared object, pushed back, and only its replicas are cleared.
unfoldable pub read_new_file : ℕ → VersionEdit → FileMetaData → Bytes → Option Round
unfolding get_level
read_new_file levels e f input = do
  (level, input1) ← get_level levels input
  (g, rest) ← decode_file f input1
  some (
      next (record e { new_files = e.new_files ++ ((level, g) ∷ []) })
        (record g { block_replica_handles = [] }) rest)

unfoldable pub read_subrange : VersionEdit → FileMetaData → Bytes → Option Round
read_subrange e f input = do
  (sr, rest) ← decode_subrange input
  some (next (record e { new_subranges = e.new_subranges ++ (sr ∷ []) }) f rest)

-- The switch of DecodeFrom. The tag of the comparator is passed over, and nothing else of it.
unfoldable pub read_tag : ℕ → VersionEdit → FileMetaData → ℕ → Bytes → Round
unfolding read_next_file_number read_last_sequence read_deleted_file read_new_file read_subrange
read_tag levels e f tag input =
    if tag == tag_comparator
    then next e f input
    else if tag == tag_next_file_number
    then or_bad (read_next_file_number e f input) bad_next_file_number
    else if tag == tag_last_sequence
    then or_bad (read_last_sequence e f input) bad_last_sequence
    else if tag == tag_deleted_file
    then or_bad (read_deleted_file levels e f input) bad_deleted_file
    else if tag == tag_new_file
    then or_bad (read_new_file levels e f input) bad_new_file
    else if tag == tag_update_subrange
    then or_abort (read_subrange e f input)
    else bad unknown_tag

-- Status::OK with the edit and what is left of the input, a Corruption, the abort of an assertion;
-- `out_of_fuel` is no outcome of the source.
pub data Outcome : Type 0 where
  ok : VersionEdit → Bytes → Outcome
  corruption : Reason → Outcome
  aborted : Outcome
  out_of_fuel : Outcome

unfoldable pub decode_loop : ℕ → ℕ → VersionEdit → FileMetaData → Bytes → Outcome
unfolding read_tag
decode_loop levels zero e f input = out_of_fuel
decode_loop levels (suc fuel) e f [] = ok e []
decode_loop levels (suc fuel) e f (tag ∷ rest) =
    if tag == tag_end_edit then ok e rest else elim (read_tag levels e f tag rest) [
      | next e' f' rest' ↦ decode_loop levels fuel e' f' rest'
      | bad r ↦ corruption r
      | abort ↦ aborted
    ]

-- VersionEdit::DecodeFrom on the edit `e`. Each round takes a byte at least.
unfoldable pub decode_edit : ℕ → VersionEdit → Bytes → Outcome
unfolding decode_loop clear
decode_edit levels e src = decode_loop levels (length src + 1) (clear e) new_file src
