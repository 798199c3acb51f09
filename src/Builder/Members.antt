-- ===== src/Builder/Members.antt =====
-- Which files a level of the next version has.
use bl_nova_lsm.Common.{
  ℕ, zero, suc, ◌+◌, ◌≡◌, refl, sym, ap, Bool, true, false, not, ◌&&◌, ◌||◌, some, List, [], ◌∷◌,
  ◌++◌, ltb, ◌==◌, if◌then◌else◌, ◌>>=◌, get_elem?, arith, Bool-cases, inl, inr, bind-some,
  guard-some,
}
use mathlib.Core.Path.{subst, ◌∙◌}
use mathlib.Core.Option.{some-injective}
use bl_nova_lsm.Common.Sets.{contains}
use bl_nova_lsm.Keys.{Comparator}
use bl_nova_lsm.Files.{FileMetaData}
use bl_nova_lsm.Builder.{
  by_smallest_key, LevelState, Builder, Saving, has_number, last_before, maybe_add_file, add_files,
  split_base, merge_files, replacement, replace_all, save_level, save_levels, save_to,
}

-- What MaybeAddFile does when no assertion fails.
pub data Adds (icmp : Comparator) (level : ℕ) (deleted : List ℕ) (f : FileMetaData) (v v' : Saving)
    : Type 0 where
  leaves : contains deleted f.number ≡ true → v ≡ v' → Adds icmp level deleted f v v'
  appends :
      contains deleted f.number ≡ false
      → (if ltb 0 level then last_before icmp v.level_files f else some true) ≡ some true
      → v'.level_files ≡ v.level_files ++ (f ∷ [])
      → Adds icmp level deleted f v v'

pub maybe_add_file-Adds :
    (icmp : Comparator) (level : ℕ) (deleted : List ℕ) (f : FileMetaData) (v v' : Saving)
    → maybe_add_file icmp level deleted f v ≡ some v'
    → Adds icmp level deleted f v v'
unfolding maybe_add_file
maybe_add_file-Adds icmp level deleted f v v' = elim (Bool-cases (contains deleted f.number)) [
  | inl gone ↦ rw gone (λ e. leaves gone (some-injective _ _ e))
  | inr there ↦ rw there (λ e.
      let (ok, at, e1) =
        bind-some (if ltb 0 level then last_before icmp v.level_files f else some true) _ _ e in
      let (passed, e2) = guard-some ok _ _ e1 in
      let (new, e3) = guard-some (not (has_number v.fn_files f.number)) _ _ e2 in
      appends there (at ∙ ap some passed)
        (sym (ap (λ (x : Saving). x.level_files) (some-injective _ _ e3))))
]

pub has_number-append :
    (xs ys : List FileMetaData) (n : ℕ)
    → has_number (xs ++ ys) n ≡ (has_number xs n || has_number ys n)
unfolding has_number
has_number-append [] ys n = refl
has_number-append (x ∷ xs) ys n = ground (arith, has_number-append xs ys n)

module _ (icmp : Comparator) (level : ℕ) (deleted : List ℕ) where
  -- A file number that is in the files before, or is added and not deleted.
  abbrev Members : (ℕ → Bool) → Saving → Saving → Type 0
  Members has v v' =
      (n : ℕ)
      → has_number v'.level_files n
        ≡ (has_number v.level_files n || (not (contains deleted n) && has n))

  one_member :
      (f : FileMetaData) (v v' : Saving)
      → Adds icmp level deleted f v v'
      → Members (λ n. f.number == n) v v'
  unfolding has_number
  one_member f v v' (leaves gone same) n =
      sym (ap (λ (x : Saving). has_number x.level_files n) same) ∙ absorb
    where
      absorb :
          has_number v.level_files n
          ≡ (has_number v.level_files n || (not (contains deleted n) && f.number == n))
      absorb = elim (Bool-cases (f.number == n)) [
        | inl same_number ↦
            let e : f.number ≡ n = ground arith in
            let g : contains deleted n ≡ true = subst (λ x. contains deleted x ≡ true) e gone in
            ground (arith, g)
        | inr other ↦ ground (arith, other)
      ]
  one_member f v v' (appends there ok files) n =
      ap (λ fs. has_number fs n) files ∙ (has_number-append v.level_files (f ∷ []) n ∙ last)
    where
      last :
          (has_number v.level_files n || has_number (f ∷ []) n)
          ≡ (has_number v.level_files n || (not (contains deleted n) && f.number == n))
      last = ground (arith, there)

  add_files-Members :
      (fs : List FileMetaData) (v v' : Saving)
      → add_files icmp level deleted fs v ≡ some v'
      → Members (has_number fs) v v'
  unfolding add_files has_number
  add_files-Members [] v v' e n =
      ap (λ (x : Saving). has_number x.level_files n) (sym (some-injective _ _ e)) ∙ ground arith
  add_files-Members (f ∷ fs) v v' e n =
      let (v1, at, e1) = bind-some (maybe_add_file icmp level deleted f v) _ _ e in
      let one = one_member f v v1 (maybe_add_file-Adds icmp level deleted f v v1 at) n in
      let rest = add_files-Members fs v1 v' e1 n in ground (arith, one, rest)

  pub split_base-parts :
      (f : FileMetaData) (base l r : List FileMetaData)
      → split_base icmp f base ≡ some (l, r)
      → base ≡ l ++ r
  unfolding split_base
  split_base-parts f [] l r e = let same = some-injective _ _ e in ap (λ p. p.0 ++ p.1) same
  split_base-parts f (g ∷ base) l r e =
      let (less, at, e1) = bind-some (by_smallest_key icmp f g) _ _ e in
      from (λ a b. split_base-parts f base a b) less e1
    where
      from :
          ((a b : List FileMetaData) → split_base icmp f base ≡ some (a, b) → base ≡ a ++ b)
          → (less : Bool)
          → (if less
              then some ([], g ∷ base)
              else ◌>>=◌ {B = List FileMetaData × List FileMetaData}
                  (split_base icmp f base)
                  (λ (a, b). some (g ∷ a, b)))
            ≡ some (l, r)
          → g ∷ base ≡ l ++ r
      from back true h = ap (λ p. p.0 ++ p.1) (some-injective _ _ h)
      from back false h =
          let (p, at, h1) = bind-some (split_base icmp f base) _ _ h in
          let rest = back p.0 p.1 at in
          ap (◌∷◌ g) rest ∙ ap (λ p. p.0 ++ p.1) (some-injective _ _ h1)

  pub merge_files-Members :
      (added base : List FileMetaData) (v v' : Saving)
      → merge_files icmp level deleted added base v ≡ some v'
      → Members (λ n. has_number added n || has_number base n) v v'
  unfolding merge_files has_number
  merge_files-Members [] base v v' e n = add_files-Members base v v' e n
  merge_files-Members (f ∷ added) base v v' e n =
      let (p, at, e1) = bind-some (split_base icmp f base) _ _ e in
      let (v1, at1, e2) = bind-some (add_files icmp level deleted p.0 v) _ _ e1 in
      let (v2, at2, e3) = bind-some (maybe_add_file icmp level deleted f v1) _ _ e2 in
      let smaller = add_files-Members p.0 v v1 at1 n in
      let one = one_member f v1 v2 (maybe_add_file-Adds icmp level deleted f v1 v2 at2) n in
      let rest = merge_files-Members added p.1 v2 v' e3 n in
      let parts =
        ap (λ b. has_number b n) (split_base-parts f base p.0 p.1 at)
        ∙ has_number-append p.0 p.1 n in
      ground (arith, smaller, one, rest, parts)

has_number-replacement :
    (m : List FileMetaData) (f : FileMetaData) → (replacement m f).number ≡ f.number
unfolding replacement
has_number-replacement [] f = refl
has_number-replacement (g ∷ gs) f = ground (arith, has_number-replacement gs f)

has_number-replace_all :
    (m base : List FileMetaData) (n : ℕ) → has_number (replace_all m base) n ≡ has_number base n
unfolding replace_all has_number
has_number-replace_all m [] n = refl
has_number-replace_all m (f ∷ base) n =
    ground (arith, has_number-replacement m f, has_number-replace_all m base n)

-- The numbers that a level gets: what is added, unless only replicas move, and what was there, without
-- what is deleted.
abbrev pub next_numbers : Bool → LevelState → List FileMetaData → ℕ → Bool
next_numbers update l base n =
    not (contains l.deleted_files n)
    && ((not update && has_number l.added_files n) || has_number base n)

save_level-numbers :
    (icmp : Comparator) (b : Builder) (level : ℕ) (l : LevelState) (base fns : List FileMetaData)
    (bytes : ℕ) (v : Saving) (n : ℕ)
    → save_level icmp b level l base record { level_files = []; fn_files = fns; l0_bytes = bytes }
      ≡ some v
    → has_number v.level_files n ≡ next_numbers b.update_replica_locations l base n
unfolding save_level has_number
save_level-numbers icmp b level l base fns bytes v n =
    elim (Bool-cases b.update_replica_locations) [
      | inl moves ↦ rw moves (λ e.
          add_files-Members icmp level l.deleted_files (replace_all b.added_files_map base) _ v e n
          ∙ ap (λ x. not (contains l.deleted_files n) && x)
              (has_number-replace_all b.added_files_map base n))
      | inr changes ↦
          rw changes
            (λ e. merge_files-Members icmp level l.deleted_files l.added_files base _ v e n)
    ]

save_levels-numbers :
    (icmp : Comparator) (b : Builder) (level : ℕ) (ls : List LevelState)
    (bases : List (List FileMetaData)) (fns : List FileMetaData) (bytes : ℕ)
    (saved : List (List FileMetaData) × ℕ)
    → save_levels icmp b level ls bases fns bytes ≡ some saved
    → (i : ℕ) (l : LevelState) (base : List FileMetaData) → get_elem? ls i ≡ some l
    → get_elem? bases i ≡ some base
    → (fs : List FileMetaData) × (get_elem? saved.0 i ≡ some fs)
      × ((n : ℕ) → has_number fs n ≡ next_numbers b.update_replica_locations l base n)
unfolding save_levels
save_levels-numbers icmp b level [] bases fns bytes saved e i l base el eb = absurd (cc)
save_levels-numbers icmp b level (x ∷ ls) [] fns bytes saved e i l base el eb = absurd (cc)
save_levels-numbers icmp b level (x ∷ ls) (y ∷ bases) fns bytes saved e i l base el eb =
    let (v, at, e1) = bind-some (save_level icmp b level x y _) _ _ e in
    let (rest, at1, e2) =
      bind-some (save_levels icmp b (level + 1) ls bases v.fn_files v.l0_bytes) _ _ e1 in
    let files : v.level_files ∷ rest.0 ≡ saved.0 = ap (λ p. p.0) (some-injective _ _ e2) in
    level_of v rest at files i el eb
      (λ j. save_levels-numbers icmp b (level + 1) ls bases v.fn_files v.l0_bytes rest at1 j l base)
  where
    level_of :
        (v : Saving) (rest : List (List FileMetaData) × ℕ)
        → save_level icmp b level x y record { level_files = []; fn_files = fns; l0_bytes = bytes }
          ≡ some v
        → v.level_files ∷ rest.0 ≡ saved.0
        → (i : ℕ) → get_elem? (x ∷ ls) i ≡ some l
        → get_elem? (y ∷ bases) i ≡ some base
        → ((j : ℕ)
            → get_elem? ls j ≡ some l
            → get_elem? bases j ≡ some base
            → (fs : List FileMetaData) × (get_elem? rest.0 j ≡ some fs)
              × ((n : ℕ) → has_number fs n ≡ next_numbers b.update_replica_locations l base n))
        → (fs : List FileMetaData) × (get_elem? saved.0 i ≡ some fs)
          × ((n : ℕ) → has_number fs n ≡ next_numbers b.update_replica_locations l base n)
    level_of v rest at files zero el eb back = (
      v.level_files,
      ap (λ s. get_elem? s 0) (sym files),
      λ n.
          save_level-numbers icmp b level x y fns bytes v n at
          ∙ (ap (λ a. next_numbers b.update_replica_locations a y n) (some-injective x l el)
              ∙ ap (λ c. next_numbers b.update_replica_locations l c n) (some-injective y base eb)),
    )
    level_of v rest at files (suc i) el eb back =
        let (fs, e, h) = back i el eb in (fs, ap (λ s. get_elem? s (suc i)) (sym files) ∙ e, h)

-- When SaveTo ends, a level of the new version has the file numbers that were in the base version or
-- are added by the edits (a move of replicas adds none), without those that are deleted.
pub save_to-numbers :
    (icmp : Comparator) (b : Builder) (base_files : List (List FileMetaData))
    (saved : List (List FileMetaData) × ℕ)
    → save_to icmp b base_files ≡ some saved
    → (level : ℕ) (l : LevelState) (base : List FileMetaData) → get_elem? b.levels level ≡ some l
    → get_elem? base_files level ≡ some base
    → (fs : List FileMetaData) × (get_elem? saved.0 level ≡ some fs)
      × ((n : ℕ) → has_number fs n ≡ next_numbers b.update_replica_locations l base n)
unfolding save_to
save_to-numbers icmp b base_files saved e =
    save_levels-numbers icmp b 0 b.levels base_files [] 0 saved e
