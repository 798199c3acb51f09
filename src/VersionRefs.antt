-- ===== src/VersionRefs.antt =====
-- AtomicVersion (db/version_set.h, db/version_set.cc): a version among its readers and the compaction
-- thread. A method that takes the object's lock is one step; `none` is a failed assertion. Of a Version,
-- the count of references.
pub mod Exclusive
mod Examples
use bl_nova_lsm.Common.{
  ℕ, ◌+◌, ◌-◌, Bool, true, false, not, ◌&&◌, ◌||◌, Option, none, some, leb, ◌==◌, if◌then◌else◌,
  ◌>>=◌, ◌>>◌, guard,
}

pub record AtomicVersion : Type 0 where
  pub version : Option ℕ
  pub deleted : Bool
  pub is_compacting : Bool

abbrev pub new_atomic_version : AtomicVersion
new_atomic_version = record { version = none; deleted = false; is_compacting = false }

abbrev pub is_null : Option ℕ → Bool
is_null none = true
is_null (some refs) = false

-- AtomicVersion::SetVersion, with a version of so many references.
unfoldable pub set_version : ℕ → AtomicVersion → Option AtomicVersion
set_version refs a = do guard (is_null a.version); some record a { version = some (refs + 1) }

-- AtomicVersion::SetCompaction
unfoldable pub set_compaction : AtomicVersion → Option (Bool × AtomicVersion)
set_compaction a = do
  refs ← a.version
  guard (not a.deleted)
  guard (leb 1 refs)
  some (refs == 1, record a { is_compacting = true })

abbrev pub ref_count : Bool → Option ℕ → AtomicVersion → Bool × AtomicVersion
ref_count closed none a = (false, a)
ref_count closed (some refs) a =
    if closed then (false, a) else (true, record a { version = some (refs + 1) })

-- AtomicVersion::Ref; false is the null pointer.
unfoldable pub ref_version : AtomicVersion → Bool × AtomicVersion
ref_version a = ref_count (a.deleted || a.is_compacting) a.version a

-- Version::Unref, with its assertion.
unfoldable pub unref_count : ℕ → Option ℕ
unref_count refs = do guard (leb 1 refs); some (refs - 1)

abbrev pub unref_open : Bool → Option ℕ → AtomicVersion → Option AtomicVersion
unref_open deleted none a = some a
unref_open deleted (some refs) a =
    let released = (do
      left ← unref_count refs
      some record a { version = some left; deleted = a.deleted || left == 0 }) in
    if deleted then some a else released

-- AtomicVersion::Unref
unfoldable pub unref_version : AtomicVersion → Option AtomicVersion
unfolding unref_count
unref_version a = unref_open a.deleted a.version a
