-- ===== src/Lib.antt =====
-- Nova-LSM, an LSM-tree key-value store whose components share storage over RDMA: LTCs process the
-- requests on ranges of keys, LogCs replicate log records, StoCs store blocks of SSTables.
--
-- An LTC divides its range into subranges, each with its memtables; a put looks its subrange up by
-- binary search. A full memtable becomes immutable, waits until the flush order lets it go, and is
-- flushed: its SSTable is scattered over the StoC files of StoCs, and the change of the tree, with the
-- metadata of the table and the subranges, is a version edit in the manifest. The builder applies the
-- edit to a version, whose levels a read searches by file; recovery reads the edits back. All messages
-- use one binary encoding.
--
-- Common               lists, options, tests and bits over the native numbers, sorted sets
-- Coding               util/coding.h and util/coding.cc: the binary encoding
-- Keys                 common/nova_common.h, common/nova_common.cpp (str_to_int, int_to_str) and
--                      ltc/db_helper.h (YCSBKeyComparator)
-- Search               the binary search that include/leveldb/subrange.h and db/subrange.cpp share
-- Range                Range of include/leveldb/subrange.h and db/subrange.cpp
-- Subrange, Subranges  SubRange and SubRanges of the same files
-- Files                StoCBlockHandle, FileMetaData, ReplicationPair of include/leveldb/db_types.h,
--                      db/dbformat.cc and stoc/persistent_stoc_file.cpp
-- VersionEdit          db/version_edit.h and db/version_edit.cc: the manifest records
-- InternalKey          internal and lookup keys of db/dbformat.h and db/dbformat.cc
-- LogRecord            EncodeLogRecord and DecodeLogRecord of common/nova_common.h
-- CompactionRequest    CompactionRequest of include/leveldb/stoc_client.h and db/dbformat.cc
-- MemManager           common/nova_mem_manager.h and .cpp: the slab allocator of registered memory
-- FlushOrder           db/flush_order.h and db/flush_order.cpp
-- RangeIndex           db/range_index.h and db/range_index.cpp: what a scan of a range reads
-- Admission            novalsm/rdma_admission_ctrl.h and novalsm/rdma_admission_ctrl.cpp
-- LookupIndex          db/lookup_index.h and db/lookup_index.cpp
-- Memtables            db/memtable.h, db/memtable.cc, db/skiplist.h: AtomicMemTable (Life, Release,
--                      Message), MemTablePartition (Partition), the entries of a memtable (Entries)
-- Levels               FindFile and SomeFileOverlapsRange of db/version_set.cc
-- Overlaps             Version::ComputeOverlappingFilesForRange of db/version_set.cc
-- Builder              VersionSet::Builder of db/version_set.cc: edits applied to a version
-- VersionGet           Version::Get on level 0 and Version::ForEachOverlapping of db/version_set.cc
-- StocFile             stoc/persistent_stoc_file.h and .cpp: StoCPersistentFile
-- CompactionInputs     GetOverlappingInputs, GetRange, RemoveOverlapTablesWithRange and
--                      AssertNonOverlappingSet of Version in db/version_set.cc
-- VersionRefs          AtomicVersion of db/version_set.h and db/version_set.cc
--
-- An operation is a function of its source's name in lower case; its state is a record, which the
-- operations that change it return. A byte is a number below 256, a string or slice a list of bytes. A
-- decoder takes the input and returns the value and the rest of the input. An assertion that fails and
-- an index out of range are `none`, as is the result false of a decoder; where a function both
-- returns and aborts, the outer `none` is the abort.
--
-- Fuel: the binary search has one round more than its vector is long, the loop over a varint as
-- many rounds as the shift allows, the loop over an edit one round more than its input has bytes, the
-- collection of overlapping files one round more than there are files, each round but the last taking
-- a file.
--
-- Not modelled: threads and locks (an operation under a lock is one step), logging, debug strings,
-- floating-point statistics, the RDMA driver and the file system; the table cache and the parser of
-- file names are parameters, a skip list is the order of its lowest level, and a StoC file on disk is
-- the list of the places in its buffer that its bytes come from. The comparator of a database is a
-- record of an order with its laws, as its documentation demands.
pub mod Common
pub mod Coding
pub mod Keys
pub mod Search
pub mod Range
pub mod Subrange
pub mod Subranges
pub mod Files
pub mod VersionEdit
pub mod MemManager
pub mod Memtables
pub mod Levels
pub mod Overlaps
pub mod Builder
pub mod VersionGet
pub mod StocFile
pub mod FlushOrder
pub mod InternalKey
pub mod LogRecord
pub mod CompactionRequest
pub mod RangeIndex
pub mod Admission
pub mod LookupIndex
pub mod VersionRefs
pub mod CompactionInputs
