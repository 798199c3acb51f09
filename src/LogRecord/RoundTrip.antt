-- ===== src/LogRecord/RoundTrip.antt =====
-- DecodeLogRecord and LogRecordSize against EncodeLogRecord.
use bl_nova_lsm.Common.{
  ℕ, ◌+◌, ◌^◌, ◌<◌, ◌≡◌, ◌≢◌, true, false, none, some, [], ◌∷◌, ◌++◌, append_assoc, ◌==◌, length,
  arith, length-append,
}
use bl_nova_lsm.Coding.{Bytes, IsU32, IsU64, encode_fixed32, encode_fixed64, encode_str}
use bl_nova_lsm.Coding.Fixed.{
  decode_fixed32_word, decode_fixed64_word, decode_slice-encode_str, length-encode_fixed32,
  length-encode_fixed64, length-encode_str,
}
use bl_nova_lsm.LogRecord.{
  LogRecord, log_record_size, encode_log_record, pass_one, decode_log_record,
}

-- The record is shorter than 4 GB, and its sequence number fits its width.
pub record RecordFits (r : LogRecord) : Type 0 where
  pub sequence_fits : IsU64 r.sequence_number
  pub size_fits : length r.key + length r.value + 21 < 2 ^ 32

-- The bytes of a record with `c` for its last byte.
abbrev pub ending_with : ℕ → LogRecord → Bytes
ending_with c r =
    encode_fixed32 (log_record_size r)
    ++ (encode_str r.key ++ (encode_str r.value ++ (encode_fixed64 r.sequence_number ++ (c ∷ []))))

size_word : (r : LogRecord) → IsU32 (log_record_size r)
unfolding log_record_size
size_word r = omega arith

-- A record shorter than 4 GB is read back, and what follows it is left.
pub decode_log_record-encode_log_record :
    (r : LogRecord) (rest : Bytes)
    → RecordFits r
    → decode_log_record (encode_log_record r ++ rest) ≡ some (r, rest)
unfolding decode_log_record encode_log_record pass_one
decode_log_record-encode_log_record r rest w =
    let same : (log_record_size r == log_record_size r) ≡ true = ground arith in
    simp (
      append_assoc,
      decode_fixed32_word (log_record_size r) _ (size_word r),
      decode_slice-encode_str r.key _ (omega (arith, w.size_fits)),
      decode_slice-encode_str r.value _ (omega (arith, w.size_fits)),
      decode_fixed64_word r.sequence_number _ w.sequence_fits,
      same,
    )

-- A record shorter than 4 GB whose last byte is not 1, as in memory where its end has not arrived,
-- is refused.
pub decode_log_record_incomplete :
    (r : LogRecord) (c : ℕ) (rest : Bytes)
    → RecordFits r
    → c ≢ 1
    → decode_log_record (ending_with c r ++ rest) ≡ none
unfolding decode_log_record pass_one
decode_log_record_incomplete r c rest w other =
    let not_one : (c == 1) ≡ false = ground arith in
    simp (
      append_assoc,
      decode_fixed32_word (log_record_size r) _ (size_word r),
      decode_slice-encode_str r.key _ (omega (arith, w.size_fits)),
      decode_slice-encode_str r.value _ (omega (arith, w.size_fits)),
      decode_fixed64_word r.sequence_number _ w.sequence_fits,
      not_one,
    )

-- LogRecordSize is the number of bytes that EncodeLogRecord writes of a record shorter than 4 GB.
pub length-encode_log_record :
    (r : LogRecord) → RecordFits r → length (encode_log_record r) ≡ log_record_size r
unfolding encode_log_record log_record_size
length-encode_log_record r w = omega (
  arith,
  w.size_fits,
  length-append (encode_fixed32 (log_record_size r))
      (encode_str r.key ++ (encode_str r.value ++ (encode_fixed64 r.sequence_number ++ (1 ∷ [])))),
  length-append (encode_str r.key)
      (encode_str r.value ++ (encode_fixed64 r.sequence_number ++ (1 ∷ []))),
  length-append (encode_str r.value) (encode_fixed64 r.sequence_number ++ (1 ∷ [])),
  length-append (encode_fixed64 r.sequence_number) (1 ∷ []),
  length-encode_fixed32 (log_record_size r),
  length-encode_str r.key,
  length-encode_str r.value,
  length-encode_fixed64 r.sequence_number,
)
