-- ===== src/LogRecord.antt =====
-- The log records of common/nova_common.h, which a client writes into the memory of the LogCs and
-- which recovery reads there: the last byte tells that the record is complete.
pub mod RoundTrip
mod Examples
use bl_nova_lsm.Common.{
  ℕ, zero, suc, ◌+◌, ◌%◌, ◌^◌, Bool, Option, none, some, List, [], ◌∷◌, ◌++◌, ◌==◌, ◌>>=◌, ◌>>◌,
  guard, length,
}
use bl_nova_lsm.Coding.{
  Bytes, encode_fixed32, decode_fixed32, encode_fixed64, decode_fixed64, encode_str, decode_slice,
}

-- LevelDBLogRecord
pub record LogRecord : Type 0 where
  pub sequence_number : ℕ
  pub key : Bytes
  pub value : Bytes

-- LogRecordSize
unfoldable pub log_record_size : LogRecord → ℕ
log_record_size r = (4 + 4 + length r.key + 4 + length r.value + 8 + 1) % 2 ^ 32

-- LogRecordsSize
unfoldable pub log_records_size : List LogRecord → ℕ
unfolding log_record_size
log_records_size [] = 0
log_records_size (r ∷ rs) = (log_record_size r + log_records_size rs) % 2 ^ 32

-- EncodeLogRecord; EncodeSlice writes what EncodeStr does.
unfoldable pub encode_log_record : LogRecord → Bytes
unfolding log_record_size
encode_log_record r =
    encode_fixed32 (log_record_size r)
    ++ (encode_str r.key ++ (encode_str r.value ++ (encode_fixed64 r.sequence_number ++ (1 ∷ []))))

-- `(*buf)[0] != 1` and the step over the byte; the index is out of range on an empty slice.
unfoldable pub pass_one : Bytes → Option Bytes
pass_one [] = none
pass_one (c ∷ rest) = do guard (c == 1); some rest

-- DecodeLogRecord
unfoldable pub decode_log_record : Bytes → Option (LogRecord × Bytes)
unfolding pass_one log_record_size
decode_log_record buf = do
  (record_size, buf1) ← decode_fixed32 buf
  (key, buf2) ← decode_slice buf1
  (value, buf3) ← decode_slice buf2
  (sequence_number, buf4) ← decode_fixed64 buf3
  rest ← pass_one buf4
  guard (
      record_size
      == log_record_size (record { sequence_number = sequence_number; key = key; value = value }))
  some (record { sequence_number = sequence_number; key = key; value = value }, rest)
