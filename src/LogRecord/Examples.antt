-- ===== src/LogRecord/Examples.antt =====
-- A log record of a short key and value.
use bl_nova_lsm.Common.{◌≡◌, some, [], ◌∷◌, ◌++◌, arith}
use bl_nova_lsm.LogRecord.{LogRecord, encode_log_record, decode_log_record}
use bl_nova_lsm.LogRecord.RoundTrip.{RecordFits, decode_log_record-encode_log_record}

abbrev a_record : LogRecord
a_record = record { sequence_number = 77; key = b'1' ∷ b'2' ∷ []; value = b'v' ∷ [] }

a_record-RecordFits : RecordFits a_record
a_record-RecordFits = record { sequence_fits = omega arith; size_fits = omega arith }

decode_log_record-encode_log_record_example :
    decode_log_record (encode_log_record a_record ++ (9 ∷ [])) ≡ some (a_record, 9 ∷ [])
decode_log_record-encode_log_record_example =
    decode_log_record-encode_log_record a_record (9 ∷ []) a_record-RecordFits
