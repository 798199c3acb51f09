-- ===== src/CompactionRequest/Examples.antt =====
-- A request with an input file and a subrange of two tiny ranges.
use bl_nova_lsm.Common.{ℕ, ◌≡◌, refl, true, false, some, List, [], ◌∷◌, ◌++◌, arith}
use bl_nova_lsm.Coding.{Bytes}
use bl_nova_lsm.Range.{Range}
use bl_nova_lsm.Subrange.{SubRange, new_subrange, hull}
use bl_nova_lsm.Subrange.Codec.{sent}
use bl_nova_lsm.Files.{FileMetaData, new_file}
use bl_nova_lsm.CompactionRequest.{CompactionRequest, encode_request, decode_request}
use bl_nova_lsm.CompactionRequest.RoundTrip.{
  IsFile, Received, none_received, one_received, RequestFits, decode_request-encode_request,
}

abbrev tiny : ℕ → ℕ → Range
tiny low up = record {
  lower = low ∷ [];
  upper = up ∷ [];
  lower_inclusive = true;
  upper_inclusive = false;
  num_duplicates = 0;
}

abbrev two_ranges : SubRange
two_ranges = record new_subrange { tiny_ranges = tiny b'1' b'3' ∷ tiny b'3' b'7' ∷ [] }

abbrev an_input : FileMetaData
an_input = record new_file {
  number = 4;
  memtable_ids = 2 ∷ [];
  smallest = b'1' ∷ [];
  largest = b'6' ∷ [];
}

an_input-IsFile : IsFile an_input
an_input-IsFile = (
  record {
    number_fits = omega arith;
    file_size_fits = omega arith;
    converted_fits = omega arith;
    timestamp_fits = omega arith;
    level_fits = omega arith;
    smallest_fits = omega arith;
    smallest_there = λ e. cc;
    largest_fits = omega arith;
    largest_there = λ e. cc;
    id_count_fits = omega arith;
    ids_fit = (omega arith, tt);
    replica_count_fits = omega arith;
    replicas_fit = tt;
    parity_fits = record {
      server_id_fits = omega arith;
      stoc_file_id_fits = omega arith;
      offset_fits = omega arith;
      size_fits = omega arith;
    };
  },
  (tt, tt),
)

abbrev a_request : CompactionRequest
a_request = record {
  dbname = b'd' ∷ b'b' ∷ [];
  smallest_snapshot = 9;
  source_level = 0;
  target_level = 1;
  inputs0 = an_input ∷ [];
  inputs1 = [];
  guides = [];
  subranges = two_ranges ∷ [];
}

a_request-RequestFits : RequestFits a_request
a_request-RequestFits = record {
  dbname_fits = omega arith;
  snapshot_fits = omega arith;
  source_fits = omega arith;
  target_fits = omega arith;
  inputs0_fit = (omega arith, (an_input-IsFile, tt));
  inputs1_fit = (omega arith, tt);
  guides_fit = (omega arith, tt);
  subranges_fit = omega arith;
}

two_ranges-hull : hull two_ranges ≡ some (tiny b'1' b'7')
unfolding hull
two_ranges-hull = refl

abbrev arrived : List SubRange
arrived = sent 0 (record two_ranges { tiny_ranges = tiny b'1' b'7' ∷ [] }) ∷ []

arrived-Received : Received 0 (two_ranges ∷ []) arrived
arrived-Received =
    one_received 0 two_ranges (tiny b'1' b'7') [] [] (omega arith) (omega arith) two_ranges-hull
      record {
        lower_fits = omega arith;
        upper_fits = omega arith;
        num_duplicates_fits = omega arith;
      }
      (none_received 1)

decode_request-encode_request_example :
    (bytes : Bytes) × (encode_request a_request ≡ some bytes)
    × (decode_request (bytes ++ []) ≡ some (record a_request { subranges = arrived }, []))
decode_request-encode_request_example =
    decode_request-encode_request a_request arrived [] a_request-RequestFits arrived-Received
