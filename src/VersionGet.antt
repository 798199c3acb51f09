-- ===== src/VersionGet.antt =====
-- Version::Get and Version::ForEachOverlapping (db/version_set.cc): reading a key from level 0 and from
-- the levels above. The table cache is a parameter: what it hands to SaveValue when it is asked for an
-- internal key in a file. `none` is a failed assertion.
pub mod Outcomes
pub mod Level0
pub mod Candidate
mod Examples
use Prim.Native.Nat.{Ordering}
use mathlib.Core.List.{reverse}
use bl_nova_lsm.Common.{
  ℕ, zero, suc, ◌+◌, Bool, true, false, not, ◌&&◌, Option, none, some, List, [], ◌∷◌, ◌++◌, ltb,
  leb, ◌==◌, if◌then◌else◌, ◌>>=◌, ◌>>◌, guard, length, get_elem?,
}
use bl_nova_lsm.Coding.{Bytes}
use bl_nova_lsm.Keys.{Comparator}
use bl_nova_lsm.InternalKey.{
  ValueType, type_deletion, type_value, ParsedInternalKey, extract_user_key, parse_internal_key,
}
use bl_nova_lsm.Files.{FileMetaData}
use bl_nova_lsm.Levels.{is_lt, is_gt, is_eq, find_file}

-- enum SaverState
pub data SaverState : Type 0 where
  not_found found deleted corrupt : SaverState

-- The state of a Saver, and what its pointers lead to.
pub record Saver : Type 0 where
  pub state : SaverState
  pub seq : ℕ
  pub value : Bytes

abbrev pub save_typed : ParsedInternalKey → ValueType → Bytes → Saver → Saver
save_typed key type_deletion v s = record s { state = deleted }
save_typed key type_value v s = record { state = found; seq = key.sequence; value = v }

abbrev pub save_parsed : Comparator → Bytes → Option ParsedInternalKey → Bytes → Saver → Saver
save_parsed ucmp user_key none v s = record s { state = corrupt }
save_parsed ucmp user_key (some key) v s =
    if is_eq (ucmp.order key.user_key user_key) then save_typed key key.type v s else s

-- SaveValue, when the Saver asks for `user_key`.
unfoldable pub save_value : Comparator → Bytes → Bytes → Bytes → Saver → Saver
save_value ucmp user_key ikey v s = save_parsed ucmp user_key (parse_internal_key ikey) v s

-- What Get of the table cache hands over, if anything.
abbrev pub TableGet : Type 0
TableGet = FileMetaData → Bytes → Option (Bytes × Bytes)

abbrev pub saved : Comparator → Bytes → Option (Bytes × Bytes) → Saver → Saver
saved ucmp user_key none s = s
saved ucmp user_key (some (ikey, v)) s = save_value ucmp user_key ikey v s

-- What the search of level 0 has: `found`, `*seq` and `*val`.
pub record Best : Type 0 where
  pub is_found : Bool
  pub seq : ℕ
  pub value : Bytes

unfoldable pub find_number : List FileMetaData → ℕ → Option FileMetaData
find_number [] fn = none
find_number (f ∷ fs) fn = let later = find_number fs fn in if f.number == fn then some f else later

abbrev pub take_saved : SaverState → ℕ → Bytes → Best → Best
take_saved found seq value b = record {
  is_found = true;
  seq = if ltb b.seq seq then seq else b.seq;
  value = value;
}
take_saved not_found seq value b = b
take_saved deleted seq value b = b
take_saved corrupt seq value b = b

-- A file is searched: the value is assigned through the Saver's pointer, the sequence number to tmp_seq.
unfoldable pub search_file : Comparator → TableGet → Bytes → Bytes → FileMetaData → Best → Best
unfolding save_value
search_file ucmp table_get user_key internal_key f b =
    let s =
      saved ucmp user_key (table_get f internal_key)
        record { state = not_found; seq = 0; value = b.value } in
    take_saved s.state s.seq s.value b

-- The files that a Get may return an error for, and what it found.
pub data GetResult : Type 0 where
  io_error : GetResult
  best : Best → GetResult

-- `return Status::IOError(…)` when the version does not have the file.
abbrev pub unless_missing :
    Option FileMetaData → (FileMetaData → Option GetResult) → Option GetResult
unless_missing none search = some io_error
unless_missing (some f) search = search f

-- The loop of Version::Get over level-0 files, with the files in the order in which it takes them.
unfoldable pub search_files :
    Comparator → TableGet → List FileMetaData → Bytes → Bytes → List ℕ → Best → Option GetResult
unfolding find_number search_file
search_files ucmp table_get fn_files user_key internal_key [] b = some (best b)
search_files ucmp table_get fn_files user_key internal_key (fn ∷ fns) b =
    let skipped = search_files ucmp table_get fn_files user_key internal_key fns b in
    unless_missing (find_number fn_files fn) (λ f.
      let searched =
        search_files ucmp table_get fn_files user_key internal_key fns
          (search_file ucmp table_get user_key internal_key f b) in
      do
        s ← extract_user_key f.smallest
        l ← extract_user_key f.largest
        (if is_gt (ucmp.order s user_key)
            then skipped
            else if is_lt (ucmp.order l user_key)
            then skipped
            else searched))

-- Version::Get on level-0 files: from the last number to the first.
unfoldable pub get_level0 :
    Comparator
    → TableGet
    → List FileMetaData
    → Bytes
    → Bytes
    → List ℕ
    → ℕ
    → Bytes
    → Option GetResult
unfolding search_files
get_level0 ucmp table_get fn_files user_key internal_key fns seq val =
    search_files ucmp table_get fn_files user_key internal_key (reverse fns)
      record { is_found = false; seq = seq; value = val }

-- The file of a level above 0 that ForEachOverlapping takes, if any.
unfoldable pub level_candidate :
    Comparator → Bytes → Bytes → List FileMetaData → Option (Option FileMetaData)
level_candidate cmp user_key internal_key files = if length files == 0 then some none else (do
  index ← find_file cmp files internal_key
  (if ltb index (length files)
      then (do
        f ← get_elem? files index
        s ← extract_user_key f.smallest
        (if is_lt (cmp.order user_key s) then some none else some (some f)))
      else some none))

-- The files of level 0 whose range has the key.
unfoldable pub level0_candidates :
    Comparator → Bytes → List FileMetaData → Option (List FileMetaData)
level0_candidates cmp user_key [] = some []
level0_candidates cmp user_key (f ∷ fs) = do
  s ← extract_user_key f.smallest
  l ← extract_user_key f.largest
  rest ← level0_candidates cmp user_key fs
  (if not (is_lt (cmp.order user_key s)) && not (is_gt (cmp.order user_key l))
      then some (f ∷ rest)
      else some rest)

-- `func` on a state that it changes; false ends the search.
abbrev pub Func {ℓ} : Type ℓ → Type ℓ
Func S = ℕ → FileMetaData → S → S × Bool

module _ {ℓ} {S : Type ℓ} where
  -- The loop over `tmp`: without ordered flush, `func` is not called.
  unfoldable pub visit_level0 : Func S → Bool → List FileMetaData → S → S × Bool
  visit_level0 func use_ordered_flush [] s = (s, true)
  visit_level0 func use_ordered_flush (f ∷ fs) s =
      let (s', more) = func 0 f s in
      let later = visit_level0 func use_ordered_flush fs s' in
      let skipped = visit_level0 func use_ordered_flush fs s in
      if use_ordered_flush then (if more then later else (s', false)) else skipped

  -- The loop over the levels from `level` on.
  unfoldable pub visit_levels :
      Func S → Comparator → Bool → Bytes → Bytes → ℕ → List (List FileMetaData) → S → Option S
  unfolding level_candidate
  visit_levels func cmp use_ordered_flush user_key internal_key level [] s = some s
  visit_levels func cmp use_ordered_flush user_key internal_key level (files ∷ levels) s =
      let without =
        visit_levels func cmp use_ordered_flush user_key internal_key (level + 1) levels s in
      do
        c ← level_candidate cmp user_key internal_key files
        elim c [
          | none ↦ without
          | some f ↦
              let (s', more) = func level f s in
              let later =
                visit_levels func cmp use_ordered_flush user_key internal_key (level + 1) levels
                  s' in
              if use_ordered_flush then (if more then later else some s') else later
        ]

  -- Version::ForEachOverlapping, where the scope is all levels or those above 0.
  unfoldable pub for_each_overlapping :
      Func S → Comparator → Bool → Bool → Bytes → Bytes → List (List FileMetaData) → S → Option S
  unfolding level0_candidates visit_level0 visit_levels
  for_each_overlapping func cmp use_ordered_flush all_levels user_key internal_key [] s = none
  for_each_overlapping func cmp use_ordered_flush all_levels user_key internal_key (l0 ∷ levels) s =
      if all_levels
      then (do
        tmp ← level0_candidates cmp user_key l0
        (let (s', more) = visit_level0 func use_ordered_flush tmp s in
            let later = visit_levels func cmp use_ordered_flush user_key internal_key 1 levels s' in
            if more then later else some s'))
      else visit_levels func cmp use_ordered_flush user_key internal_key 1 levels s
