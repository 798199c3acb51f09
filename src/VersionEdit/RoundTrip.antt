-- ===== src/VersionEdit/RoundTrip.antt =====
-- What DecodeFrom makes of the bytes that EncodeTo wrote.
use mathlib.Core.Path.{subst}
use bl_nova_lsm.Common.{
  ℕ, zero, suc, ◌+◌, ◌<◌, ◌≡◌, refl, ◌∙◌, true, false, Bool, List, [], ◌∷◌, ◌++◌, append_assoc,
  length, if◌then◌else◌, arith,
}
use bl_nova_lsm.Coding.{Bytes, IsU64, encode_fixed64}
use bl_nova_lsm.Coding.Fixed.{decode_fixed64_word}
use bl_nova_lsm.Coding.Lists.{encode_all}
use bl_nova_lsm.Files.{FileMetaData, new_file}
use bl_nova_lsm.Subrange.{SubRange}
use bl_nova_lsm.Subranges.Codec.{sent_from}
use bl_nova_lsm.VersionEdit.{
  VersionEdit, next, clear, set_next_file, set_last_sequence, tag_end_edit, tag_next_file_number,
  tag_last_sequence, encode_deleted_file, encode_new_file, encode_new_subranges, encode_edit,
  read_next_file_number, read_last_sequence, read_tag, ok, decode_loop, decode_edit,
}
use bl_nova_lsm.VersionEdit.Rounds.{
  leaked, EditFits, Reads, then-Reads, read_one, Reads-deleted, Reads-files, Reads-subranges,
  last_of, emptied,
}

abbrev next_file_entry : VersionEdit → Bytes
next_file_entry e =
    if e.has_next_file_number then tag_next_file_number ∷ encode_fixed64 e.next_file_number else []

abbrev last_sequence_entry : VersionEdit → Bytes
last_sequence_entry e =
    if e.has_last_sequence then tag_last_sequence ∷ encode_fixed64 e.last_sequence else []

-- The edit that is read back: the comparator, the compact pointers and the previous log number are
-- not written, and update_replica_locations stays as it was.
abbrev pub received : VersionEdit → VersionEdit → VersionEdit
received e0 e = record (clear e0) {
  next_file_number = if e.has_next_file_number then e.next_file_number else 0;
  last_sequence = if e.has_last_sequence then e.last_sequence else 0;
  has_next_file_number = e.has_next_file_number;
  has_last_sequence = e.has_last_sequence;
  deleted_files = e.deleted_files;
  new_files = leaked [] e.new_files;
  new_subranges = sent_from 0 e.new_subranges;
}

module _ (levels : ℕ) where
  next_file_round :
      (e : VersionEdit) (f : FileMetaData) (n : ℕ) (rest : Bytes)
      → IsU64 n
      → read_tag levels e f tag_next_file_number (encode_fixed64 n ++ rest)
        ≡ next (set_next_file n e) f rest
  unfolding read_tag read_next_file_number
  next_file_round e f n rest h = rw (decode_fixed64_word n rest h)

  last_sequence_round :
      (e : VersionEdit) (f : FileMetaData) (n : ℕ) (rest : Bytes)
      → IsU64 n
      → read_tag levels e f tag_last_sequence (encode_fixed64 n ++ rest)
        ≡ next (set_last_sequence n e) f rest
  unfolding read_tag read_last_sequence
  last_sequence_round e f n rest h = rw (decode_fixed64_word n rest h)

  Reads-next_file :
      (b : Bool) (e : VersionEdit) (f : FileMetaData) (n : ℕ) (rest : Bytes)
      → IsU64 n
      → Reads levels e f
          ((if b then tag_next_file_number ∷ encode_fixed64 n else []) ++ rest)
          (if b then set_next_file n e else e)
          f
          rest
  Reads-next_file true e f n rest h =
      read_one levels e f tag_next_file_number (encode_fixed64 n) (set_next_file n e) f rest refl
        (next_file_round e f n rest h)
  Reads-next_file false e f n rest h = λ fuel l. (fuel, l, refl)

  Reads-last_sequence :
      (b : Bool) (e : VersionEdit) (f : FileMetaData) (n : ℕ) (rest : Bytes)
      → IsU64 n
      → Reads levels e f
          ((if b then tag_last_sequence ∷ encode_fixed64 n else []) ++ rest)
          (if b then set_last_sequence n e else e)
          f
          rest
  Reads-last_sequence true e f n rest h =
      read_one levels e f tag_last_sequence (encode_fixed64 n) (set_last_sequence n e) f rest refl
        (last_sequence_round e f n rest h)
  Reads-last_sequence false e f n rest h = λ fuel l. (fuel, l, refl)

regroup :
    (a b c d s rest : Bytes)
    → (a ++ (b ++ (c ++ (d ++ (s ++ (tag_end_edit ∷ [])))))) ++ rest
      ≡ a ++ (b ++ (c ++ (d ++ (s ++ (tag_end_edit ∷ rest)))))
regroup a b c d s rest = simp append_assoc

abbrev with_flags : VersionEdit → Bool → ℕ → Bool → ℕ → VersionEdit
with_flags e0 bn n bl s =
    let e1 = if bn then set_next_file n (clear e0) else clear e0 in
    if bl then set_last_sequence s e1 else e1

collected :
    (e0 : VersionEdit) (bn : Bool) (n : ℕ) (bl : Bool) (s : ℕ) (ds : List (ℕ × ℕ))
    (fs : List (ℕ × FileMetaData)) (srs : List SubRange)
    → record (with_flags e0 bn n bl s) {
      deleted_files = (with_flags e0 bn n bl s).deleted_files ++ ds;
      new_files = (with_flags e0 bn n bl s).new_files ++ fs;
      new_subranges = (with_flags e0 bn n bl s).new_subranges ++ srs;
    }
      ≡ record (clear e0) {
        next_file_number = if bn then n else 0;
        last_sequence = if bl then s else 0;
        has_next_file_number = bn;
        has_last_sequence = bl;
        deleted_files = ds;
        new_files = fs;
        new_subranges = srs;
      }
unfolding set_next_file set_last_sequence clear
collected e0 true n true s ds fs srs = refl
collected e0 true n false s ds fs srs = refl
collected e0 false n true s ds fs srs = refl
collected e0 false n false s ds fs srs = refl

ends :
    (levels fuel : ℕ) (e : VersionEdit) (f : FileMetaData) (rest : Bytes)
    → length (tag_end_edit ∷ rest) < fuel
    → decode_loop levels fuel e f (tag_end_edit ∷ rest) ≡ ok e rest
unfolding decode_loop
ends levels zero e f rest h = absurd (omega arith)
ends levels (suc fuel) e f rest h = refl

finished :
    (levels : ℕ) (e : VersionEdit) (f : FileMetaData) (input : Bytes) (e' : VersionEdit)
    (f' : FileMetaData) (rest : Bytes)
    → Reads levels e f input e' f' (tag_end_edit ∷ rest)
    → decode_loop levels (length input + 1) e f input ≡ ok e' rest
finished levels e f input e' f' rest r =
    let (fuel, h, eq) = r (length input + 1) (omega arith) in eq ∙ ends levels fuel e' f' rest h

module _ (levels : ℕ) (e0 e : VersionEdit) (rest : Bytes) (w : EditFits levels e) where
  Reads-all :
      Reads levels
        (clear e0)
        new_file
        (next_file_entry e
          ++ (last_sequence_entry e
              ++ (encode_all encode_deleted_file e.deleted_files
                  ++ (encode_all encode_new_file e.new_files
                      ++ (encode_new_subranges 0 e.new_subranges ++ (tag_end_edit ∷ rest))))))
        (received e0 e)
        (emptied (last_of new_file e.new_files))
        (tag_end_edit ∷ rest)
  Reads-all =
      let at_end = tag_end_edit ∷ rest in
      let in5 = encode_new_subranges 0 e.new_subranges ++ at_end in
      let in4 = encode_all encode_new_file e.new_files ++ in5 in
      let in3 = encode_all encode_deleted_file e.deleted_files ++ in4 in
      let in2 = last_sequence_entry e ++ in3 in
      let in1 = next_file_entry e ++ in2 in
      let last = emptied (last_of new_file e.new_files) in
      let e1 =
        if e.has_next_file_number then set_next_file e.next_file_number (clear e0) else clear e0 in
      let e2 =
        with_flags e0 e.has_next_file_number e.next_file_number e.has_last_sequence
          e.last_sequence in
      let e3 = record e2 { deleted_files = e2.deleted_files ++ e.deleted_files } in
      let e4 = record e3 { new_files = e3.new_files ++ leaked [] e.new_files } in
      let e5 = record e4 { new_subranges = e4.new_subranges ++ sent_from 0 e.new_subranges } in
      subst (λ x. Reads levels (clear e0) new_file in1 x last at_end)
        (collected e0 e.has_next_file_number e.next_file_number e.has_last_sequence e.last_sequence
          e.deleted_files (leaked [] e.new_files) (sent_from 0 e.new_subranges))
        (then-Reads levels (clear e0) new_file in1 e1 new_file in2 e5 last at_end
          (Reads-next_file levels e.has_next_file_number (clear e0) new_file e.next_file_number in2
            w.next_file_fits)
          (then-Reads levels e1 new_file in2 e2 new_file in3 e5 last at_end
            (Reads-last_sequence levels e.has_last_sequence e1 new_file e.last_sequence in3
              w.last_sequence_fits)
            (then-Reads levels e2 new_file in3 e3 new_file in4 e5 last at_end
              (Reads-deleted levels e.deleted_files e2 new_file in4 w.deleted_fit)
              (then-Reads levels e3 new_file in4 e4 last in5 e5 last at_end
                (Reads-files levels e.new_files e3 new_file in5 w.files_fit)
                (Reads-subranges levels e.new_subranges 0 e4 last at_end
                  (omega (arith, w.subrange_count_fits)) w.subranges_fit)))))

-- DecodeFrom reads an edit without comparator, whose levels are configured, whose other parts fit
-- their widths and whose files have keys that are not empty, back from what EncodeTo wrote, whatever the edit held before, and leaves the bytes
-- behind the end tag. Deleted files come back as they were, subranges
-- numbered by position, and a new file with the memtable ids of all new files before it added.
pub decode_edit-encode_edit :
    (levels : ℕ) (e0 e : VersionEdit) (rest : Bytes)
    → EditFits levels e
    → e.has_comparator ≡ false
    → decode_edit levels e0 (encode_edit e ++ rest) ≡ ok (received e0 e) rest
unfolding decode_edit encode_edit
decode_edit-encode_edit levels e0 e rest w bare = rw bare (
    rw
      (regroup (next_file_entry e) (last_sequence_entry e)
        (encode_all encode_deleted_file e.deleted_files) (encode_all encode_new_file e.new_files)
        (encode_new_subranges 0 e.new_subranges) rest)
      (finished levels (clear e0) new_file _ (received e0 e)
        (emptied (last_of new_file e.new_files)) rest (Reads-all levels e0 e rest w)))
