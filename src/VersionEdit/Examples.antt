-- ===== src/VersionEdit/Examples.antt =====
-- An edit with two new files, a deleted file and a subrange, and an edit with a comparator.
use bl_nova_lsm.Common.{ℕ, ◌^◌, ◌<◌, ◌≡◌, ◌≢◌, refl, true, false, [], ◌∷◌, ◌++◌, arith}
use bl_nova_lsm.Files.{FileMetaData, new_file}
use bl_nova_lsm.Files.RoundTrip.{FileFits}
use bl_nova_lsm.Subrange.{new_subrange}
use bl_nova_lsm.VersionEdit.{
  VersionEdit, encode_edit, decode_edit, ok, out_of_fuel, corruption, unknown_tag,
}
use bl_nova_lsm.VersionEdit.Shrinks.{decode_edit_ends}
use bl_nova_lsm.VersionEdit.Rounds.{EditFits}
use bl_nova_lsm.VersionEdit.RoundTrip.{received, decode_edit-encode_edit}
use bl_nova_lsm.VersionEdit.Comparator.{NoTag, decode_edit-encode_edit_comparator}

abbrev empty_edit : VersionEdit
empty_edit = record {
  comparator = [];
  next_file_number = 0;
  last_sequence = 0;
  has_comparator = false;
  has_prev_log_number = false;
  has_next_file_number = false;
  has_last_sequence = false;
  update_replica_locations = false;
  compact_pointers = [];
  deleted_files = [];
  new_files = [];
  new_subranges = [];
}

abbrev file_of : ℕ → ℕ → FileMetaData
file_of n id = record new_file {
  number = n;
  memtable_ids = id ∷ [];
  smallest = b'1' ∷ [];
  largest = b'9' ∷ [];
}

abbrev an_edit : VersionEdit
an_edit = record empty_edit {
  has_next_file_number = true;
  next_file_number = 12;
  deleted_files = (0, 3) ∷ [];
  new_files = (0, file_of 10 5) ∷ (1, file_of 11 6) ∷ [];
  new_subranges = new_subrange ∷ [];
}

file_of-FileFits : (n id : ℕ) → n < 2 ^ 64 → id < 2 ^ 32 → FileFits (file_of n id)
file_of-FileFits n id hn hi = record {
  number_fits = hn;
  file_size_fits = omega arith;
  converted_fits = omega arith;
  timestamp_fits = omega arith;
  level_fits = omega arith;
  smallest_fits = omega arith;
  smallest_there = λ e. cc;
  largest_fits = omega arith;
  largest_there = λ e. cc;
  id_count_fits = omega arith;
  ids_fit = (hi, tt);
  replica_count_fits = omega arith;
  replicas_fit = tt;
  parity_fits = record {
    server_id_fits = omega arith;
    stoc_file_id_fits = omega arith;
    offset_fits = omega arith;
    size_fits = omega arith;
  };
}

an_edit-EditFits : EditFits 6 an_edit
an_edit-EditFits = record {
  next_file_fits = omega arith;
  last_sequence_fits = omega arith;
  deleted_fit = ((omega arith, omega arith, omega arith), tt);
  files_fit = (
    (omega arith, omega arith, file_of-FileFits 10 5 (omega arith) (omega arith)),
    ((omega arith, omega arith, file_of-FileFits 11 6 (omega arith) (omega arith)), tt),
  );
  subrange_count_fits = omega arith;
  subranges_fit =
      (record { num_duplicates_fits = omega arith; count_fits = omega arith; ranges_fit = tt }, tt);
}

decode_edit-encode_edit_example :
    decode_edit 6 empty_edit (encode_edit an_edit ++ (b'x' ∷ []))
    ≡ ok (received empty_edit an_edit) (b'x' ∷ [])
decode_edit-encode_edit_example =
    decode_edit-encode_edit 6 empty_edit an_edit (b'x' ∷ []) an_edit-EditFits refl

decode_edit_ends_example : decode_edit 6 empty_edit (7 ∷ 0 ∷ []) ≢ out_of_fuel
decode_edit_ends_example = decode_edit_ends 6 empty_edit (7 ∷ 0 ∷ [])

abbrev with_comparator : VersionEdit
with_comparator = record empty_edit { has_comparator = true; comparator = b'b' ∷ b'y' ∷ [] }

two-NoTag : NoTag 2
two-NoTag = record {
  not_comparator = refl;
  not_next_file_number = refl;
  not_last_sequence = refl;
  not_deleted_file = refl;
  not_new_file = refl;
  not_update_subrange = refl;
  not_end_edit = refl;
}

decode_edit-encode_edit_comparator_example :
    decode_edit 6 empty_edit (encode_edit with_comparator) ≡ corruption unknown_tag
decode_edit-encode_edit_comparator_example =
    decode_edit-encode_edit_comparator 6 empty_edit with_comparator refl two-NoTag
