-- ===== src/Files/Examples.antt =====
-- A file with two memtables and one replica, and a replication request.
use bl_nova_lsm.Common.{[], ◌∷◌, arith}
use bl_nova_lsm.Files.{FileMetaData, new_handle, new_file}
use bl_nova_lsm.Files.Handles.{HandleFits}
use bl_nova_lsm.Files.RoundTrip.{FileFits}

abbrev a_file : FileMetaData
a_file = record new_file {
  number = 4;
  memtable_ids = 2 ∷ 5 ∷ [];
  smallest = b'1' ∷ [];
  largest = b'9' ∷ [];
  block_replica_handles =
      record { meta_block_handle = new_handle; data_block_group_handles = new_handle ∷ [] } ∷ [];
}

new_handle-HandleFits : HandleFits new_handle
new_handle-HandleFits = record {
  server_id_fits = omega arith;
  stoc_file_id_fits = omega arith;
  offset_fits = omega arith;
  size_fits = omega arith;
}

a_file-FileFits : FileFits a_file
a_file-FileFits = record {
  number_fits = omega arith;
  file_size_fits = omega arith;
  converted_fits = omega arith;
  timestamp_fits = omega arith;
  level_fits = omega arith;
  smallest_fits = omega arith;
  smallest_there = λ e. cc;
  largest_fits = omega arith;
  largest_there = λ e. cc;
  id_count_fits = omega arith;
  ids_fit = (omega arith, (omega arith, tt));
  replica_count_fits = omega arith;
  replicas_fit = (
    record {
      meta_fits = new_handle-HandleFits;
      count_fits = omega arith;
      blocks_fit = (new_handle-HandleFits, tt);
    },
    tt,
  );
  parity_fits = new_handle-HandleFits;
}
