-- ===== src/Levels/Sorted.antt =====
-- The files of a level above 0, in order and apart.
use bl_nova_lsm.Common.{ℕ, ◌<◌, ◌≡◌, Option, none, some, List, [], get_elem?, All}
use bl_nova_lsm.Common.Ordered.{Ordered, All-get, Ordered-get}
use bl_nova_lsm.Coding.{Bytes}
use bl_nova_lsm.Keys.{Comparator}
use bl_nova_lsm.InternalKey.{number_of, extract_user_key}
use bl_nova_lsm.InternalKey.Seen.{Seen, Shows, Before, Before-upto}
use bl_nova_lsm.Files.{FileMetaData}

abbrev or_empty : Option Bytes → Bytes
or_empty none = []
or_empty (some u) = u

abbrev or_zero : Option ℕ → ℕ
or_zero none = 0
or_zero (some n) = n

-- What Compare sees of a key that has its number.
abbrev pub seen : Bytes → Seen
seen key = record { user = or_empty (extract_user_key key); number = or_zero (number_of key) }

abbrev pub IsKey : Bytes → Type 0
IsKey key = Shows key (seen key)

abbrev pub HasKeys : FileMetaData → Type 0
HasKeys f = IsKey f.smallest × IsKey f.largest

module _ (cmp : Comparator) where
  -- Each file has its keys in order, and is before all the files that follow.
  pub record IsLevel (files : List FileMetaData) : Type 0 where
    pub keys : All HasKeys files
    pub ranges : All (λ f. ¬ Before cmp (seen f.largest) (seen f.smallest)) files
    pub apart : Ordered (λ f g. Before cmp (seen f.largest) (seen g.smallest)) files

  module _ (files : List FileMetaData) (w : IsLevel files) where
    pub keys_at : (i : ℕ) (f : FileMetaData) → get_elem? files i ≡ some f → HasKeys f
    keys_at i f e = All-get HasKeys files i f w.keys e

    pub largest-Before :
        (i j : ℕ) (f g : FileMetaData)
        → i < j
        → get_elem? files i ≡ some f
        → get_elem? files j ≡ some g
        → Before cmp (seen f.largest) (seen g.largest)
    largest-Before i j f g l ef eg =
        Before-upto cmp (seen f.largest) (seen g.smallest) (seen g.largest)
          (Ordered-get (λ f g. Before cmp (seen f.largest) (seen g.smallest)) files i j f g w.apart
            l ef eg)
          (All-get (λ f. ¬ Before cmp (seen f.largest) (seen f.smallest)) files j g w.ranges eg)
