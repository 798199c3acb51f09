-- ===== src/VersionGet/Outcomes.antt =====
-- What a level-0 file has for a key, and what Version::Get makes of one file.
use bl_nova_lsm.Common.{
  ℕ, ◌≡◌, refl, true, false, Option, none, some, List, [], ◌∷◌, ◌++◌, ltb, if◌then◌else◌, ◌>>=◌,
  Option-cases, Bool-cases, inl, inr,
}
use bl_nova_lsm.Coding.{Bytes}
use bl_nova_lsm.Keys.{Comparator}
use bl_nova_lsm.InternalKey.{
  type_value, type_deletion, ParsedInternalKey, extract_user_key, parse_internal_key,
}
use bl_nova_lsm.Files.{FileMetaData}
use bl_nova_lsm.Levels.{is_lt, is_gt, is_eq}
use bl_nova_lsm.VersionGet.{
  TableGet, Best, GetResult, io_error, best, find_number, search_file, search_files, save_value,
  saved, take_saved, not_found,
}

module _ (cmp : Comparator) (table_get : TableGet) (fn_files : List FileMetaData)
    (user_key internal_key : Bytes) where
  -- The file has the number and a range with the key, and holds a value for it.
  pub record Has (fn : ℕ) (f : FileMetaData) (s l : Bytes) (ikey : Bytes) (key : ParsedInternalKey)
      (v : Bytes) : Type 0 where
    pub numbered : find_number fn_files fn ≡ some f
    pub smallest_at : extract_user_key f.smallest ≡ some s
    pub largest_at : extract_user_key f.largest ≡ some l
    pub above : is_gt (cmp.order s user_key) ≡ false
    pub below : is_lt (cmp.order l user_key) ≡ false
    pub entry : table_get f internal_key ≡ some (ikey, v)
    pub parsed : parse_internal_key ikey ≡ some key
    pub of_key : is_eq (cmp.order key.user_key user_key) ≡ true
    pub of_value : key.type ≡ type_value

  abbrev pub go_on : GetResult → List ℕ → Option GetResult
  go_on io_error fns = some io_error
  go_on (best b) fns = search_files cmp table_get fn_files user_key internal_key fns b

  pub search_files-append :
      (xs ys : List ℕ) (b : Best)
      → search_files cmp table_get fn_files user_key internal_key (xs ++ ys) b
        ≡ (search_files cmp table_get fn_files user_key internal_key xs b >>= λ r. go_on r ys)
  unfolding search_files
  search_files-append [] ys b = refl
  search_files-append (fn ∷ fns) ys b = elim (Option-cases (find_number fn_files fn)) [
    | inl missing ↦ rw missing refl
    | inr (f, at) ↦ rw at (
        bounded (extract_user_key f.smallest) (extract_user_key f.largest) _ _ _ _
          (search_files-append fns ys b)
          (search_files-append fns ys (search_file cmp table_get user_key internal_key f b)))
  ]
    where
      bounded :
          (s l : Option Bytes) (skipped searched skipped' searched' : Option GetResult)
          → skipped' ≡ (skipped >>= λ r. go_on r ys)
          → searched' ≡ (searched >>= λ r. go_on r ys)
          → (s >>= λ s. l >>= λ l.
              if is_gt (cmp.order s user_key)
              then skipped'
              else if is_lt (cmp.order l user_key)
              then skipped'
              else searched')
            ≡ ((s >>= λ s. l >>= λ l.
                  if is_gt (cmp.order s user_key)
                  then skipped
                  else if is_lt (cmp.order l user_key)
                  then skipped
                  else searched)
                >>= λ r. go_on r ys)
      bounded none l a b c d p q = refl
      bounded (some s) none a b c d p q = refl
      bounded (some s) (some l) a b c d p q = elim (Bool-cases (is_gt (cmp.order s user_key))) [
        | inl past ↦ rw past p
        | inr near ↦ rw near (elim (Bool-cases (is_lt (cmp.order l user_key))) [
          | inl before ↦ rw before p
          | inr within ↦ rw within q
        ])
      ]

  search_files-last :
      (fn : ℕ) (f : FileMetaData) (s l ikey : Bytes) (key : ParsedInternalKey) (v : Bytes)
      (b : Best)
      → Has fn f s l ikey key v
      → search_files cmp table_get fn_files user_key internal_key (fn ∷ []) b
        ≡ some (
            best record {
              is_found = true;
              seq = if ltb b.seq key.sequence then key.sequence else b.seq;
              value = v;
            })
  unfolding search_files search_file save_value
  search_files-last fn f s l ikey key v b h =
      rw
        (
          h.numbered, h.smallest_at, h.largest_at, h.above, h.below, h.entry, h.parsed, h.of_key,
          h.of_value,
        )
        refl

  -- Why a file has no value for the key: its range ends before or starts behind the key, or the table
  -- has no entry, one that does not parse, one of another key, or a deletion.
  pub data Misses : Option (Bytes × Bytes) → Type 0 where
    no_entry : Misses none
    unreadable : {ikey v : Bytes} → parse_internal_key ikey ≡ none → Misses (some (ikey, v))
    of_other :
        {ikey v : Bytes} (key : ParsedInternalKey)
        → parse_internal_key ikey ≡ some key
        → is_eq (cmp.order key.user_key user_key) ≡ false
        → Misses (some (ikey, v))
    is_deletion :
        {ikey v : Bytes} (key : ParsedInternalKey)
        → parse_internal_key ikey ≡ some key
        → is_eq (cmp.order key.user_key user_key) ≡ true
        → key.type ≡ type_deletion
        → Misses (some (ikey, v))

  pub data Place (f : FileMetaData) (s l : Bytes) : Type 0 where
    behind : is_gt (cmp.order s user_key) ≡ true → Place f s l
    ahead : is_gt (cmp.order s user_key) ≡ false → is_lt (cmp.order l user_key) ≡ true → Place f s l
    within :
        is_gt (cmp.order s user_key) ≡ false
        → is_lt (cmp.order l user_key) ≡ false
        → Misses (table_get f internal_key)
        → Place f s l

  pub record Lacks (fn : ℕ) (f : FileMetaData) (s l : Bytes) : Type 0 where
    pub numbered : find_number fn_files fn ≡ some f
    pub smallest_at : extract_user_key f.smallest ≡ some s
    pub largest_at : extract_user_key f.largest ≡ some l
    pub place : Place f s l

  -- What the file of the number has for the key: the sequence number and the value, or no value.
  pub data Outcome (fn : ℕ) : Option (ℕ × Bytes) → Type 0 where
    holds :
        (f : FileMetaData) (s l ikey : Bytes) (key : ParsedInternalKey) (v : Bytes)
        → Has fn f s l ikey key v
        → Outcome fn (some (key.sequence, v))
    lacks : (f : FileMetaData) (s l : Bytes) → Lacks fn f s l → Outcome fn none

  pub data Outcomes : List ℕ → List (Option (ℕ × Bytes)) → Type 0 where
    done : Outcomes [] []
    and_then :
        {fn : ℕ} {fns : List ℕ} {o : Option (ℕ × Bytes)} {os : List (Option (ℕ × Bytes))}
        → Outcome fn o
        → Outcomes fns os
        → Outcomes (fn ∷ fns) (o ∷ os)

  -- What is found when a file has `o`, after the others gave `b`.
  abbrev pub after : Option (ℕ × Bytes) → Best → Best
  after none b = b
  after (some (seq, v)) b = record {
    is_found = true;
    seq = if ltb b.seq seq then seq else b.seq;
    value = v;
  }

  search-Misses :
      (f : FileMetaData) (b : Best)
      → Misses (table_get f internal_key)
      → search_file cmp table_get user_key internal_key f b ≡ b
  unfolding search_file save_value
  search-Misses f b m = missed (table_get f internal_key) m
    where
      missed :
          (o : Option (Bytes × Bytes))
          → Misses o
          → take_saved
              (saved cmp user_key o record { state = not_found; seq = 0; value = b.value }).state
              (saved cmp user_key o record { state = not_found; seq = 0; value = b.value }).seq
              (saved cmp user_key o record { state = not_found; seq = 0; value = b.value }).value
              b
            ≡ b
      missed none no_entry = refl
      missed (some (ikey, v)) (unreadable e) = rw e refl
      missed (some (ikey, v)) (of_other key e other) = rw (e, other) refl
      missed (some (ikey, v)) (is_deletion key e same deleted_) = rw (e, same, deleted_) refl

  pub search_files-one :
      (fn : ℕ) (o : Option (ℕ × Bytes)) (b : Best)
      → Outcome fn o
      → search_files cmp table_get fn_files user_key internal_key (fn ∷ []) b
        ≡ some (best (after o b))
  unfolding search_files
  search_files-one fn _ b (holds f s l ikey key v h) = search_files-last fn f s l ikey key v b h
  search_files-one fn _ b (lacks f s l w) =
      rw (w.numbered, w.smallest_at, w.largest_at) (placed w.place)
    where
      placed :
          Place f s l
          → (if is_gt (cmp.order s user_key)
              then some (best b)
              else if is_lt (cmp.order l user_key)
              then some (best b)
              else some (best (search_file cmp table_get user_key internal_key f b)))
            ≡ some (best b)
      placed (behind e) = rw e refl
      placed (ahead e e') = rw (e, e') refl
      placed (within e e' m) = rw (e, e', search-Misses f b m) refl
