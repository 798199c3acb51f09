-- ===== src/CompactionRequest/RoundTrip.antt =====
-- DecodeRequest against EncodeRequest.
use bl_nova_lsm.Common.{ℕ, ◌+◌, ◌≡◌, refl, some, List, [], ◌∷◌, ◌++◌, append_assoc, length, All}
use bl_nova_lsm.Common.Sets.{IsAscending}
use bl_nova_lsm.Coding.{Bytes, IsU32, IsU64, encode_fixed32}
use bl_nova_lsm.Coding.Fixed.{decode_fixed32_word, decode_fixed64_word, decode_str-encode_str}
use bl_nova_lsm.Coding.Lists.{encode_all, decode_all, decode_all-encode_all}
use bl_nova_lsm.Range.{Range}
use bl_nova_lsm.Range.Codec.{IsEncodable}
use bl_nova_lsm.Subrange.{SubRange, hull, decode_for_compaction}
use bl_nova_lsm.Subrange.Codec.{sent, decode_for_compaction-encode_for_compaction}
use bl_nova_lsm.Files.{FileMetaData, new_file, encode_file, decode_file}
use bl_nova_lsm.Files.RoundTrip.{FileFits, decode_file-encode_file}
use bl_nova_lsm.CompactionRequest.{
  CompactionRequest, encode_files, decode_files, write_request, encode_subranges_for_compaction,
  encode_request, decode_request,
}

-- A file that is read back as it was: its memtable ids are a set.
abbrev pub IsFile : FileMetaData → Type 0
IsFile f = FileFits f × IsAscending f.memtable_ids

files_back :
    (fs : List FileMetaData) (rest : Bytes)
    → IsU32 (length fs)
    → All IsFile fs
    → decode_files (encode_fixed32 (length fs) ++ (encode_all encode_file fs ++ rest))
      ≡ some (fs, rest)
unfolding decode_files
files_back fs rest h w =
    rw
      (
        decode_fixed32_word (length fs) (encode_all encode_file fs ++ rest) h,
        decode_all-encode_all encode_file (decode_file new_file) IsFile
            (λ f r v. decode_file-encode_file f r v.0 v.1) fs rest w,
      )
      refl

-- The subranges as the StoC gets them: each with its position and one range, from the lower bound
-- of its first range to the upper bound of its last.
pub data Received : ℕ → List SubRange → List SubRange → Type 0 where
  none_received : (i : ℕ) → Received i [] []
  one_received :
      (i : ℕ) (sr : SubRange) (r : Range) (srs got : List SubRange)
      → IsU32 i
      → IsU32 sr.num_duplicates
      → hull sr ≡ some r
      → IsEncodable r
      → Received (i + 1) srs got
      → Received i (sr ∷ srs) (sent i (record sr { tiny_ranges = r ∷ [] }) ∷ got)

subranges_back :
    (i : ℕ) (srs got : List SubRange) (rest : Bytes)
    → Received i srs got
    → (bytes : Bytes) × (encode_subranges_for_compaction i srs ≡ some bytes)
      × (decode_all decode_for_compaction (length srs) (bytes ++ rest) ≡ some (got, rest))
unfolding encode_subranges_for_compaction decode_all
subranges_back i srs got rest (none_received j) = ([], refl, refl)
subranges_back i srs got rest (one_received j sr r srs' got' hi hn e w more) =
    let (others, e2, d2) = subranges_back (i + 1) srs' got' rest more in
    let (bytes, e1, d1) =
      decode_for_compaction-encode_for_compaction i sr r (others ++ rest) hi hn e w in
    (bytes ++ others, rw (e1, e2) refl, rw (append_assoc, d1, d2) refl)

pub record RequestFits (r : CompactionRequest) : Type 0 where
  pub dbname_fits : IsU32 (length r.dbname)
  pub snapshot_fits : IsU64 r.smallest_snapshot
  pub source_fits : IsU32 r.source_level
  pub target_fits : IsU32 r.target_level
  pub inputs0_fit : IsU32 (length r.inputs0) × All IsFile r.inputs0
  pub inputs1_fit : IsU32 (length r.inputs1) × All IsFile r.inputs1
  pub guides_fit : IsU32 (length r.guides) × All IsFile r.guides
  pub subranges_fit : IsU32 (length r.subranges)

-- A request whose parts fit their widths, whose files have keys that are not empty and whose subranges
-- have ranges is encoded, and the StoC
-- decodes it to the same request, with its subranges as they are sent to a compaction; what follows
-- the message is left.
pub decode_request-encode_request :
    (r : CompactionRequest) (got : List SubRange) (rest : Bytes)
    → RequestFits r
    → Received 0 r.subranges got
    → (bytes : Bytes) × (encode_request r ≡ some bytes)
      × (decode_request (bytes ++ rest) ≡ some (record r { subranges = got }, rest))
unfolding encode_request decode_request write_request encode_files
decode_request-encode_request r got rest w received =
    let (bytes, e, d) = subranges_back 0 r.subranges got rest received in
    (
      write_request r bytes,
      rw e refl,
      simp (
        append_assoc,
        decode_str-encode_str [] r.dbname _ w.dbname_fits,
        decode_fixed64_word r.smallest_snapshot _ w.snapshot_fits,
        decode_fixed32_word r.source_level _ w.source_fits,
        decode_fixed32_word r.target_level _ w.target_fits,
        files_back r.inputs0 _ w.inputs0_fit.0 w.inputs0_fit.1,
        files_back r.inputs1 _ w.inputs1_fit.0 w.inputs1_fit.1,
        files_back r.guides _ w.guides_fit.0 w.guides_fit.1,
        decode_fixed32_word (length r.subranges) _ w.subranges_fit,
        d,
      ),
    )
