-- ===== src/InternalKey/Examples.antt =====
-- Two versions of a user key under the integer comparator.
use bl_nova_lsm.Common.{◌≡◌, some, [], ◌∷◌, arith}
use bl_nova_lsm.Coding.{Bytes}
use bl_nova_lsm.Keys.{ycsb_key_comparator}
use bl_nova_lsm.InternalKey.{
  type_deletion, type_value, ParsedInternalKey, append_internal_key, compare_internal,
}
use bl_nova_lsm.InternalKey.Compare.{key_order, compare_internal-key_order}

abbrev seven : Bytes
seven = b'7' ∷ []

abbrev old_version : ParsedInternalKey
old_version = record { user_key = seven; sequence = 300; type = type_value }

abbrev new_version : ParsedInternalKey
new_version = record { user_key = seven; sequence = 301; type = type_deletion }

compare_internal-key_order_example :
    compare_internal ycsb_key_comparator
      (append_internal_key [] new_version)
      (append_internal_key [] old_version)
    ≡ some (key_order ycsb_key_comparator new_version old_version)
compare_internal-key_order_example =
    compare_internal-key_order ycsb_key_comparator new_version old_version (omega arith)
      (omega arith)
