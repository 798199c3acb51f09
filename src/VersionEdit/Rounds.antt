-- ===== src/VersionEdit/Rounds.antt =====
-- The rounds of DecodeFrom on the entries that EncodeTo wrote.
use bl_nova_lsm.Common.{
  ℕ, zero, suc, ◌+◌, ◌^◌, ◌≤◌, ◌<◌, ◌≡◌, refl, sym, ◌∙◌, true, false, some, List, [], ◌∷◌, ◌++◌,
  append_assoc, append-nil, length, All, ltb, ◌==◌, arith, length-append,
}
use mathlib.Core.Path.{subst}
use bl_nova_lsm.Common.Sets.{insert_all}
use bl_nova_lsm.Coding.{Bytes, IsU32, IsU64, encode_fixed32, encode_fixed64}
use bl_nova_lsm.Coding.Fixed.{decode_fixed32_word, decode_fixed64_word}
use bl_nova_lsm.Coding.Lists.{encode_all}
use bl_nova_lsm.Files.{FileMetaData, encode_file}
use bl_nova_lsm.Files.RoundTrip.{FileFits, decode_file-encode_file_into}
use bl_nova_lsm.Subrange.{SubRange, encode_subrange}
use bl_nova_lsm.Subrange.Codec.{sent, decode_subrange-encode_subrange}
use bl_nova_lsm.Subrange.Codec
use bl_nova_lsm.Subranges.Codec.{sent_from}
use bl_nova_lsm.VersionEdit.{
  VersionEdit, next, delete_file, tag_end_edit, tag_deleted_file, tag_new_file, tag_update_subrange,
  encode_deleted_file, encode_new_file, encode_new_subranges, get_level, read_deleted_file,
  read_new_file, read_subrange, read_tag, decode_loop,
}

-- The files as DecodeFrom returns them: the shared object keeps the memtable ids of the files
-- before, `ids` at first.
abbrev pub leaked : List ℕ → List (ℕ × FileMetaData) → List (ℕ × FileMetaData)
leaked ids [] = []
leaked ids ((level, f) ∷ fs) =
    (level, record f { memtable_ids = insert_all ids f.memtable_ids })
    ∷ leaked (insert_all ids f.memtable_ids) fs

abbrev pub with_ids : List ℕ → FileMetaData → FileMetaData
with_ids ids f = record f { memtable_ids = insert_all ids f.memtable_ids }

-- The shared object behind a round.
abbrev pub emptied : FileMetaData → FileMetaData
emptied f = record f { block_replica_handles = [] }

abbrev pub last_of : FileMetaData → List (ℕ × FileMetaData) → FileMetaData
last_of f [] = f
last_of f ((level, g) ∷ gs) = last_of (with_ids f.memtable_ids g) gs

-- What is written fits the widths, and the levels are those of the configuration.
pub record EditFits (levels : ℕ) (e : VersionEdit) : Type 0 where
  pub next_file_fits : IsU64 e.next_file_number
  pub last_sequence_fits : IsU64 e.last_sequence
  pub deleted_fit : All (λ (d : ℕ × ℕ). IsU32 d.0 × (d.0 < levels) × IsU64 d.1) e.deleted_files
  pub files_fit :
      All (λ (d : ℕ × FileMetaData). IsU32 d.0 × (d.0 < levels) × FileFits d.1) e.new_files
  pub subrange_count_fits : length e.new_subranges ≤ 2 ^ 32
  pub subranges_fit : All Codec.IsEncodable e.new_subranges

module _ (levels : ℕ) where
  -- The loop comes from one state to another, whatever fuel it has that is enough.
  abbrev pub Reads :
      VersionEdit → FileMetaData → Bytes → VersionEdit → FileMetaData → Bytes → Type 0
  Reads e f input e' f' rest =
      (fuel : ℕ)
      → length input < fuel
      → (fuel' : ℕ) × (length rest < fuel')
        × (decode_loop levels fuel e f input ≡ decode_loop levels fuel' e' f' rest)

  pub then-Reads :
      (e : VersionEdit) (f : FileMetaData) (input : Bytes) (e1 : VersionEdit) (f1 : FileMetaData)
      (input1 : Bytes) (e2 : VersionEdit) (f2 : FileMetaData) (rest : Bytes)
      → Reads e f input e1 f1 input1
      → Reads e1 f1 input1 e2 f2 rest
      → Reads e f input e2 f2 rest
  then-Reads e f input e1 f1 input1 e2 f2 rest p q fuel h =
      let (fuel1, h1, eq1) = p fuel h in let (fuel2, h2, eq2) = q fuel1 h1 in (fuel2, h2, eq1 ∙ eq2)

  pub read_one :
      (e : VersionEdit) (f : FileMetaData) (tag : ℕ) (written : Bytes) (e' : VersionEdit)
      (f' : FileMetaData) (rest : Bytes)
      → (tag == tag_end_edit) ≡ false
      → read_tag levels e f tag (written ++ rest) ≡ next e' f' rest
      → Reads e f (tag ∷ (written ++ rest)) e' f' rest
  unfolding decode_loop
  read_one e f tag written e' f' rest more r zero h = absurd (omega arith)
  read_one e f tag written e' f' rest more r (suc fuel) h =
      (fuel, omega (arith, length-append written rest), rw more (rw (r, decode_loop)))

  level_back :
      (level : ℕ) (rest : Bytes)
      → IsU32 level
      → level < levels
      → get_level levels (encode_fixed32 level ++ rest) ≡ some (level, rest)
  unfolding get_level
  level_back level rest h l =
      let within : ltb level levels ≡ true = ground arith in
      rw (decode_fixed32_word level rest h, within)

  deleted_round :
      (e : VersionEdit) (f : FileMetaData) (level number : ℕ) (rest : Bytes)
      → IsU32 level × (level < levels) × IsU64 number
      → read_tag levels e f tag_deleted_file
          ((encode_fixed32 level ++ encode_fixed64 number) ++ rest)
        ≡ next (delete_file level number e) f rest
  unfolding read_tag read_deleted_file
  deleted_round e f level number rest (hl, ll, hn) =
      rw (append_assoc, level_back level _ hl ll, decode_fixed64_word number rest hn)

  pub Reads-deleted :
      (ds : List (ℕ × ℕ)) (e : VersionEdit) (f : FileMetaData) (rest : Bytes)
      → All (λ (d : ℕ × ℕ). IsU32 d.0 × (d.0 < levels) × IsU64 d.1) ds
      → Reads e f
          (encode_all encode_deleted_file ds ++ rest)
          (record e { deleted_files = e.deleted_files ++ ds })
          f
          rest
  unfolding encode_all encode_deleted_file delete_file
  Reads-deleted [] e f rest w = rw append-nil (λ fuel h. (fuel, h, refl))
  Reads-deleted ((level, number) ∷ ds) e f rest (h, w) =
      let written = encode_fixed32 level ++ encode_fixed64 number in
      let others = encode_all encode_deleted_file ds ++ rest in
      let deleted = delete_file level number e in
      subst
        (λ i.
          Reads e f i (record e { deleted_files = e.deleted_files ++ ((level, number) ∷ ds) }) f
            rest)
        (sym (append_assoc (tag_deleted_file ∷ written) (encode_all encode_deleted_file ds) rest))
        (subst
          (λ all.
            Reads e f (tag_deleted_file ∷ (written ++ others)) (record e { deleted_files = all }) f
              rest)
          (append_assoc e.deleted_files ((level, number) ∷ []) ds)
          (then-Reads e f (tag_deleted_file ∷ (written ++ others)) deleted f others
            (record e { deleted_files = (e.deleted_files ++ ((level, number) ∷ [])) ++ ds }) f rest
            (read_one e f tag_deleted_file written deleted f others refl
              (deleted_round e f level number others h))
            (Reads-deleted ds deleted f rest w)))

  file_round :
      (e : VersionEdit) (f : FileMetaData) (level : ℕ) (g : FileMetaData) (rest : Bytes)
      → IsU32 level × (level < levels) × FileFits g
      → read_tag levels e (emptied f) tag_new_file ((encode_fixed32 level ++ encode_file g) ++ rest)
        ≡ next
            (record e { new_files = e.new_files ++ ((level, with_ids f.memtable_ids g) ∷ []) })
            (emptied (with_ids f.memtable_ids g))
            rest
  unfolding read_tag read_new_file
  file_round e f level g rest (hl, ll, w) =
      rw (append_assoc, level_back level _ hl ll, decode_file-encode_file_into (emptied f) g rest w)

  pub Reads-files :
      (gs : List (ℕ × FileMetaData)) (e : VersionEdit) (f : FileMetaData) (rest : Bytes)
      → All (λ (d : ℕ × FileMetaData). IsU32 d.0 × (d.0 < levels) × FileFits d.1) gs
      → Reads e
          (emptied f)
          (encode_all encode_new_file gs ++ rest)
          (record e { new_files = e.new_files ++ leaked f.memtable_ids gs })
          (emptied (last_of f gs))
          rest
  unfolding encode_all encode_new_file
  Reads-files [] e f rest w = rw append-nil (λ fuel h. (fuel, h, refl))
  Reads-files ((level, g) ∷ gs) e f rest (h, w) =
      let written = encode_fixed32 level ++ encode_file g in
      let others = encode_all encode_new_file gs ++ rest in
      let read = with_ids f.memtable_ids g in
      let added = record e { new_files = e.new_files ++ ((level, read) ∷ []) } in
      let final = emptied (last_of read gs) in
      let tail = leaked read.memtable_ids gs in
      subst
        (λ i.
          Reads e (emptied f) i (record e { new_files = e.new_files ++ ((level, read) ∷ tail) })
            final rest)
        (sym (append_assoc (tag_new_file ∷ written) (encode_all encode_new_file gs) rest))
        (subst
          (λ all.
            Reads e (emptied f) (tag_new_file ∷ (written ++ others)) (record e { new_files = all })
              final rest)
          (append_assoc e.new_files ((level, read) ∷ []) tail)
          (then-Reads e (emptied f) (tag_new_file ∷ (written ++ others)) added (emptied read) others
            (record e { new_files = (e.new_files ++ ((level, read) ∷ [])) ++ tail }) final rest
            (read_one e (emptied f) tag_new_file written added (emptied read) others refl
              (file_round e f level g others h))
            (Reads-files gs added read rest w)))

  subrange_round :
      (e : VersionEdit) (f : FileMetaData) (i : ℕ) (sr : SubRange) (rest : Bytes)
      → IsU32 i
      → Codec.IsEncodable sr
      → read_tag levels e f tag_update_subrange (encode_subrange i sr ++ rest)
        ≡ next (record e { new_subranges = e.new_subranges ++ (sent i sr ∷ []) }) f rest
  unfolding read_tag read_subrange
  subrange_round e f i sr rest h w = rw (decode_subrange-encode_subrange i sr rest h w)

  pub Reads-subranges :
      (srs : List SubRange) (i : ℕ) (e : VersionEdit) (f : FileMetaData) (rest : Bytes)
      → i + length srs ≤ 2 ^ 32
      → All Codec.IsEncodable srs
      → Reads e f
          (encode_new_subranges i srs ++ rest)
          (record e { new_subranges = e.new_subranges ++ sent_from i srs })
          f
          rest
  unfolding encode_new_subranges
  Reads-subranges [] i e f rest b w = rw append-nil (λ fuel h. (fuel, h, refl))
  Reads-subranges (sr ∷ srs) i e f rest b (h, w) =
      let written = encode_subrange i sr in
      let others = encode_new_subranges (i + 1) srs ++ rest in
      let added = record e { new_subranges = e.new_subranges ++ (sent i sr ∷ []) } in
      let tail = sent_from (i + 1) srs in
      subst
        (λ x.
          Reads e f x (record e { new_subranges = e.new_subranges ++ (sent i sr ∷ tail) }) f rest)
        (sym (append_assoc (tag_update_subrange ∷ written) (encode_new_subranges (i + 1) srs) rest))
        (subst
          (λ all.
            Reads e f (tag_update_subrange ∷ (written ++ others)) (record e { new_subranges = all })
              f rest)
          (append_assoc e.new_subranges (sent i sr ∷ []) tail)
          (then-Reads e f (tag_update_subrange ∷ (written ++ others)) added f others
            (record e { new_subranges = (e.new_subranges ++ (sent i sr ∷ [])) ++ tail }) f rest
            (read_one e f tag_update_subrange written added f others refl
              (subrange_round e f i sr others (omega arith) h))
            (Reads-subranges srs (i + 1) added f rest (omega arith) w)))
