-- ===== src/CompactionInputs/Chosen.antt =====
-- GetOverlappingInputs and RemoveOverlapTablesWithRange against the files that overlap a range.
use bl_nova_lsm.Common.{
  ℕ, zero, suc, ◌+◌, ◌≤◌, ◌≡◌, refl, sym, ap, Bool, true, false, not, some, List, [], ◌∷◌, ◌++◌,
  append_assoc, append-nil, ◌==◌, if◌then◌else◌, length, take, All, arith, Bool-cases, inl, inr,
}
use mathlib.Core.Path.{◌∙◌}
use bl_nova_lsm.Common.Sets.{contains}
use bl_nova_lsm.Keys.{Comparator}
use bl_nova_lsm.Files.{FileMetaData}
use bl_nova_lsm.Levels.{is_lt, is_gt}
use bl_nova_lsm.Levels.Sorted.{HasKeys}
use bl_nova_lsm.Overlaps.{Bounds}
use bl_nova_lsm.Overlaps.Widened.{keys_of, bounds_of-keys_of, count}
use bl_nova_lsm.CompactionInputs.{
  is_chosen, choose_files, get_overlapping_inputs, remove_overlap_tables,
}

-- The elements that pass the test.
abbrev pub keep {ℓ} : {A : Type ℓ} → (A → Bool) → List A → List A
keep p [] = []
keep p (x ∷ xs) = let rest = keep p xs in if p x then x ∷ rest else rest

module _ (cmp : Comparator) (range : Bounds) (skip_files : List ℕ) (contained : Bool) where
  -- The file is in question and overlaps the range, or lies strictly within it where that is asked.
  abbrev pub is_wanted : FileMetaData → Bool
  is_wanted f =
      if contains skip_files f.number then false else is_chosen cmp contained range (keys_of f)

  choose_files-take :
      (limit k n : ℕ) (fs outputs : List FileMetaData)
      → limit ≡ n + suc k
      → All HasKeys fs
      → choose_files cmp range limit skip_files contained fs n outputs
        ≡ some (outputs ++ take (suc k) (keep is_wanted fs))
  unfolding choose_files
  choose_files-take limit k n [] outputs e h = ap some (sym (append-nil outputs))
  choose_files-take limit k n (f ∷ fs) outputs e h =
      elim (Bool-cases (contains skip_files f.number)) [
        | inl skipped ↦ rw skipped (choose_files-take limit k n fs outputs e h.1)
        | inr in_question ↦
            rw (in_question, bounds_of-keys_of f h.0)
              (elim (Bool-cases (is_chosen cmp contained range (keys_of f))) [
                | inl chosen ↦ rw chosen (
                    taken k e (λ k' e'.
                      choose_files-take limit k' (n + 1) fs (outputs ++ (f ∷ [])) e' h.1
                      ∙ ap some
                          (append_assoc outputs (f ∷ []) (take (suc k') (keep is_wanted fs)))))
                | inr other ↦ rw other (choose_files-take limit k n fs outputs e h.1)
              ])
      ]
    where
      taken :
          (k : ℕ)
          → limit ≡ n + suc k
          → ((k' : ℕ)
              → limit ≡ n + 1 + suc k'
              → choose_files cmp range limit skip_files contained fs (n + 1) (outputs ++ (f ∷ []))
                ≡ some (outputs ++ (f ∷ take (suc k') (keep is_wanted fs))))
          → (if n + 1 == limit
              then some (outputs ++ (f ∷ []))
              else choose_files cmp range limit skip_files contained fs
                  (n + 1)
                  (outputs ++ (f ∷ [])))
            ≡ some (outputs ++ (f ∷ take k (keep is_wanted fs)))
      taken zero e back = let full : (n + 1 == limit) ≡ true = ground arith in rw full refl
      taken (suc k') e back =
          let room : (n + 1 == limit) ≡ false = ground arith in rw room (back k' (omega (arith, e)))

  pub get_overlapping_inputs-take :
      (inputs outputs : List FileMetaData) (limit : ℕ)
      → All HasKeys inputs
      → get_overlapping_inputs cmp inputs range outputs limit skip_files contained
        ≡ some (outputs ++ take limit (keep is_wanted inputs))
  unfolding get_overlapping_inputs
  get_overlapping_inputs-take inputs outputs zero h = ap some (sym (append-nil outputs))
  get_overlapping_inputs-take inputs outputs (suc k) h =
      let limited : (suc k == 0) ≡ false = ground arith in
      rw limited (choose_files-take (suc k) k 0 inputs outputs (omega arith) h)

module _ (cmp : Comparator) (range : Bounds) where
  -- The file overlaps the range.
  abbrev pub is_overlapping : FileMetaData → Bool
  is_overlapping f = is_chosen cmp false range (keys_of f)

  remove_overlap_tables-keep :
      (fs : List FileMetaData)
      → All HasKeys fs
      → remove_overlap_tables cmp fs range ≡ some (keep (λ f. not (is_overlapping f)) fs)
  unfolding remove_overlap_tables
  remove_overlap_tables-keep [] h = refl
  remove_overlap_tables-keep (f ∷ fs) h =
      rw (bounds_of-keys_of f h.0, remove_overlap_tables-keep fs h.1)
        (decided _ (is_lt (cmp.order (keys_of f).upper range.lower))
          (is_gt (cmp.order (keys_of f).lower range.upper)))
    where
      decided :
          (rest : List FileMetaData) (before after : Bool)
          → (if before then some (f ∷ rest) else if after then some (f ∷ rest) else some rest)
            ≡ some (
                if not (if before then false else if after then false else true)
                then f ∷ rest
                else rest)
      decided rest true after = refl
      decided rest false true = refl
      decided rest false false = refl

  count-keep-not :
      (p q : FileMetaData → Bool) (fs : List FileMetaData)
      → count p fs ≡ count p (keep q fs) + count p (keep (λ f. not (q f)) fs)
  count-keep-not p q [] = refl
  count-keep-not p q (f ∷ fs) = ground (arith, count-keep-not p q fs)

  -- On files that have their keys, what RemoveOverlapTablesWithRange leaves and what
  -- GetOverlappingInputs chooses for the same range, with no limit and nothing to skip, are the files of
  -- the inputs, each as often as it was there; no file that is left overlaps the range.
  pub remove_overlap_tables-complements :
      (inputs : List FileMetaData) (limit : ℕ)
      → All HasKeys inputs
      → length inputs ≤ limit
      → (chosen left : List FileMetaData) × (get_overlapping_inputs cmp inputs range [] limit []
            false
          ≡ some chosen)
        × (remove_overlap_tables cmp inputs range ≡ some left)
        × All (λ f. is_overlapping f ≡ false) left
        × ((p : FileMetaData → Bool) → count p inputs ≡ count p chosen + count p left)
  unfolding contains
  remove_overlap_tables-complements inputs limit h l = (
    keep is_overlapping inputs,
    keep (λ f. not (is_overlapping f)) inputs,
    get_overlapping_inputs-take cmp range [] false inputs [] limit h
        ∙ ap some (take_all limit inputs l),
    remove_overlap_tables-keep inputs h,
    none_left inputs,
    λ p. count-keep-not p is_overlapping inputs,
  )
    where
      take_all :
          (limit : ℕ) (fs : List FileMetaData)
          → length fs ≤ limit
          → take limit (keep is_overlapping fs) ≡ keep is_overlapping fs
      take_all zero [] l = refl
      take_all (suc n) [] l = refl
      take_all zero (f ∷ fs) l = absurd (omega arith)
      take_all (suc n) (f ∷ fs) l = elim (Bool-cases (is_overlapping f)) [
        | inl e ↦ rw e (ap (λ xs. f ∷ xs) (take_all n fs (omega arith)))
        | inr e ↦ rw e (take_all (suc n) fs (omega arith))
      ]

      none_left :
          (fs : List FileMetaData)
          → All (λ f. is_overlapping f ≡ false) (keep (λ f. not (is_overlapping f)) fs)
      none_left [] = tt
      none_left (f ∷ fs) = elim (Bool-cases (is_overlapping f)) [
        | inl e ↦ rw e (none_left fs)
        | inr e ↦ rw e (e, none_left fs)
      ]
