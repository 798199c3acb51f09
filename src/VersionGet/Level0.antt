-- ===== src/VersionGet/Level0.antt =====
-- What Version::Get takes of the level-0 files that have a key.
use mathlib.Core.List.{reverse, reverse-cons}
use bl_nova_lsm.Common.{
  ℕ, ◌≡◌, refl, ap, Bool, true, false, Option, none, some, List, [], ◌∷◌, ltb, if◌then◌else◌, ◌>>=◌,
}
use mathlib.Core.Path.{◌∙◌}
use bl_nova_lsm.Coding.{Bytes}
use bl_nova_lsm.Keys.{Comparator}
use bl_nova_lsm.Files.{FileMetaData}
use bl_nova_lsm.VersionGet.{TableGet, Best, best, search_files, get_level0}
use bl_nova_lsm.VersionGet.Outcomes.{
  Outcome, Outcomes, done, and_then, after, go_on, search_files-append, search_files-one,
}

module _ (cmp : Comparator) (table_get : TableGet) (fn_files : List FileMetaData)
    (user_key internal_key : Bytes) where
  -- The value of the first file that has one, or the value from before.
  abbrev pub first_value : List (Option (ℕ × Bytes)) → Bytes → Bytes
  first_value [] val = val
  first_value (none ∷ os) val = first_value os val
  first_value (some (seq, v) ∷ os) val = v

  abbrev pub holds_any : List (Option (ℕ × Bytes)) → Bool
  holds_any [] = false
  holds_any (none ∷ os) = holds_any os
  holds_any (some (seq, v) ∷ os) = true

  -- The greatest of the sequence numbers, and of the one from before.
  abbrev pub greatest_sequence : List (Option (ℕ × Bytes)) → ℕ → ℕ
  greatest_sequence [] seq = seq
  greatest_sequence (none ∷ os) seq = greatest_sequence os seq
  greatest_sequence (some (q, v) ∷ os) seq =
      let behind_it = greatest_sequence os seq in if ltb behind_it q then q else behind_it

  abbrev found_of : List (Option (ℕ × Bytes)) → ℕ → Bytes → Best
  found_of os seq val = record {
    is_found = holds_any os;
    seq = greatest_sequence os seq;
    value = first_value os val;
  }

  after-found_of :
      (o : Option (ℕ × Bytes)) (os : List (Option (ℕ × Bytes))) (seq : ℕ) (val : Bytes)
      → after cmp table_get fn_files user_key internal_key o (found_of os seq val)
        ≡ found_of (o ∷ os) seq val
  after-found_of none os seq val = refl
  after-found_of (some (q, v)) os seq val = refl

  get_level0-after :
      (fn : ℕ) (fns : List ℕ) (o : Option (ℕ × Bytes)) (seq : ℕ) (val : Bytes) (b : Best)
      → Outcome cmp table_get fn_files user_key internal_key fn o
      → get_level0 cmp table_get fn_files user_key internal_key fns seq val ≡ some (best b)
      → get_level0 cmp table_get fn_files user_key internal_key (fn ∷ fns) seq val
        ≡ some (best (after cmp table_get fn_files user_key internal_key o b))
  unfolding get_level0
  get_level0-after fn fns o seq val b h e =
      ap
        (λ xs.
          search_files cmp table_get fn_files user_key internal_key xs
            record { is_found = false; seq = seq; value = val })
        (reverse-cons fn fns)
      ∙ (search_files-append cmp table_get fn_files user_key internal_key (reverse fns) (fn ∷ []) _
          ∙ (ap (λ o. o >>= λ r. go_on cmp table_get fn_files user_key internal_key r (fn ∷ [])) e
              ∙ search_files-one cmp table_get fn_files user_key internal_key fn o b h))

  -- Of level-0 files that are all in the version, each with a value for the key or without one, a
  -- deletion counting as none, Version::Get takes the value of the first in the list that has one,
  -- whether or not it is the newest, and with it the greatest sequence number of all that have one and
  -- of the caller's; it finds something exactly when one of them has a value.
  pub get_level0-first :
      (fns : List ℕ) (os : List (Option (ℕ × Bytes))) (seq : ℕ) (val : Bytes)
      → Outcomes cmp table_get fn_files user_key internal_key fns os
      → get_level0 cmp table_get fn_files user_key internal_key fns seq val
        ≡ some (
            best record {
              is_found = holds_any os;
              seq = greatest_sequence os seq;
              value = first_value os val;
            })
  unfolding get_level0 search_files
  get_level0-first _ _ seq val done = refl
  get_level0-first _ _ seq val (and_then {fn} {fns} {o} {os} h hs) =
      get_level0-after fn fns o seq val _ h (get_level0-first fns os seq val hs)
      ∙ ap (λ b. some (best b)) (after-found_of o os seq val)
