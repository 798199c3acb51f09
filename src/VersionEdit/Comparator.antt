-- ===== src/VersionEdit/Comparator.antt =====
-- The tag of the comparator: EncodeTo writes the name behind it, DecodeFrom passes over the tag
-- alone.
use bl_nova_lsm.Common.{ℕ, zero, suc, ◌<◌, arith, ◌≡◌, refl, true, false, ◌∷◌, length, ◌==◌}
use bl_nova_lsm.Coding.{Bytes, byte_at, encode_fixed32, encode_str}
use bl_nova_lsm.Files.{FileMetaData, new_file}
use bl_nova_lsm.VersionEdit.{
  VersionEdit, clear, tag_comparator, tag_next_file_number, tag_last_sequence, tag_deleted_file,
  tag_new_file, tag_update_subrange, tag_end_edit, encode_edit, unknown_tag, read_tag, corruption,
  decode_loop, decode_edit,
}

-- No case of the switch and not the end of the edit.
pub record NoTag (n : ℕ) : Type 0 where
  pub not_comparator : (n == tag_comparator) ≡ false
  pub not_next_file_number : (n == tag_next_file_number) ≡ false
  pub not_last_sequence : (n == tag_last_sequence) ≡ false
  pub not_deleted_file : (n == tag_deleted_file) ≡ false
  pub not_new_file : (n == tag_new_file) ≡ false
  pub not_update_subrange : (n == tag_update_subrange) ≡ false
  pub not_end_edit : (n == tag_end_edit) ≡ false

name_taken_for_tag :
    (levels fuel : ℕ) (e : VersionEdit) (f : FileMetaData) (b : ℕ) (rest : Bytes)
    → 1 < fuel
    → NoTag b
    → decode_loop levels fuel e f (tag_comparator ∷ b ∷ rest) ≡ corruption unknown_tag
unfolding decode_loop read_tag
name_taken_for_tag levels zero e f b rest h w = absurd (omega arith)
name_taken_for_tag levels (suc zero) e f b rest h w = absurd (omega arith)
name_taken_for_tag levels (suc (suc fuel)) e f b rest h w =
    rw
      (
        w.not_end_edit, w.not_comparator, w.not_next_file_number, w.not_last_sequence,
        w.not_deleted_file, w.not_new_file, w.not_update_subrange,
      )
      refl

-- An edit with a comparator whose name has a length whose low byte is no tag is written, and is
-- refused as corrupt when it is read back.
pub decode_edit-encode_edit_comparator :
    (levels : ℕ) (e0 e : VersionEdit)
    → e.has_comparator ≡ true
    → NoTag (byte_at (length e.comparator) 0)
    → decode_edit levels e0 (encode_edit e) ≡ corruption unknown_tag
unfolding decode_edit encode_edit encode_str encode_fixed32
decode_edit-encode_edit_comparator levels e0 e has w = rw has (
    name_taken_for_tag levels _ (clear e0) new_file (byte_at (length e.comparator) 0) _
      (omega arith) w)
