-- ===== src/Builder/Saved.antt =====
-- The levels of the version that SaveTo fills, as FindFile searches them.
use bl_nova_lsm.Common.{
  ℕ, zero, suc, ◌+◌, ◌<◌, ◌^◌, ◌≡◌, ap, some, List, [], ◌∷◌, ◌==◌, arith, Bool-cases, inl, inr,
  bind-some, All, get_elem?, length,
}
use mathlib.Core.Path.{subst, ◌∙◌}
use mathlib.Core.Option.{some-injective}
use bl_nova_lsm.Coding.{Bytes}
use bl_nova_lsm.Keys.{Comparator}
use bl_nova_lsm.InternalKey.Seen.{Seen, Shows}
use bl_nova_lsm.Files.{FileMetaData}
use bl_nova_lsm.Levels.{find_file}
use bl_nova_lsm.Levels.Sorted.{IsLevel}
use bl_nova_lsm.Levels.Find.{Parts, find_file-Parts}
use bl_nova_lsm.Builder.{
  LevelState, Builder, Saving, replacement, replace_all, save_level, save_levels, save_to,
}
use bl_nova_lsm.Builder.InOrder.{IsFile, add_files-IsLevel, merge_files-IsLevel}

module _ (cmp : Comparator) where
  replacement-IsFile :
      (m : List FileMetaData) (f : FileMetaData)
      → All (IsFile cmp) m
      → IsFile cmp f
      → IsFile cmp (replacement m f)
  unfolding replacement
  replacement-IsFile [] f h k = k
  replacement-IsFile (g ∷ gs) f h k = elim (Bool-cases (g.number == f.number)) [
    | inl same ↦ rw same h.0
    | inr other ↦ rw other (replacement-IsFile gs f h.1 k)
  ]

  replace_all-IsFile :
      (m base : List FileMetaData)
      → All (IsFile cmp) m
      → All (IsFile cmp) base
      → All (IsFile cmp) (replace_all m base)
  unfolding replace_all
  replace_all-IsFile m [] h k = tt
  replace_all-IsFile m (f ∷ base) h k =
      (replacement-IsFile m f h k.0, replace_all-IsFile m base h k.1)

  -- All files of the base version and of the edits have their keys in order.
  pub record AllFiles (b : Builder) (ls : List LevelState) (bases : List (List FileMetaData))
      : Type 0 where
    pub base_files : All (All (IsFile cmp)) bases
    pub new_files : All (λ (l : LevelState). All (IsFile cmp) l.added_files) ls
    pub mapped_files : All (IsFile cmp) b.added_files_map

  empty_level : IsLevel cmp []
  empty_level = record { keys = tt; ranges = tt; apart = tt }

  save_level-IsLevel :
      (b : Builder) (level : ℕ) (l : LevelState) (base fns : List FileMetaData) (bytes : ℕ)
      (v : Saving)
      → 0 < level
      → All (IsFile cmp) b.added_files_map
      → All (IsFile cmp) l.added_files
      → All (IsFile cmp) base
      → save_level cmp b level l base record { level_files = []; fn_files = fns; l0_bytes = bytes }
        ≡ some v
      → IsLevel cmp v.level_files
  unfolding save_level
  save_level-IsLevel b level l base fns bytes v above m a k =
      elim (Bool-cases b.update_replica_locations) [
        | inl moves ↦ rw moves (λ e.
            add_files-IsLevel cmp level l.deleted_files above (replace_all b.added_files_map base) _
              v e (replace_all-IsFile b.added_files_map base m k) empty_level)
        | inr changes ↦ rw changes (λ e.
            merge_files-IsLevel cmp level l.deleted_files above l.added_files base _ v e a k
              empty_level)
      ]

  save_levels-IsLevel :
      (b : Builder) (level : ℕ) (ls : List LevelState) (bases : List (List FileMetaData))
      (fns : List FileMetaData) (bytes : ℕ) (saved : List (List FileMetaData) × ℕ)
      → AllFiles b ls bases
      → save_levels cmp b level ls bases fns bytes ≡ some saved
      → (i : ℕ) (fs : List FileMetaData) → 0 < level + i
      → get_elem? saved.0 i ≡ some fs
      → IsLevel cmp fs
  unfolding save_levels
  save_levels-IsLevel b level [] bases fns bytes saved w e i fs a g =
      absurd (no_files saved.0 (ap (λ p. p.0) (some-injective _ _ e)) g)
    where
      no_files : (files : List (List FileMetaData)) → [] ≡ files → get_elem? files i ≡ some fs → ⊥
      no_files [] e h = absurd (cc)
      no_files (x ∷ xs) e h = absurd (cc)
  save_levels-IsLevel b level (l ∷ ls) [] fns bytes saved w e i fs a g = absurd (cc)
  save_levels-IsLevel b level (l ∷ ls) (base ∷ bases) fns bytes saved w e i fs a g =
      let (v, at, e1) = bind-some (save_level cmp b level l base _) _ _ e in
      let (rest, at1, e2) =
        bind-some (save_levels cmp b (level + 1) ls bases v.fn_files v.l0_bytes) _ _ e1 in
      let files : v.level_files ∷ rest.0 ≡ saved.0 = ap (λ p. p.0) (some-injective _ _ e2) in
      let later : AllFiles b ls bases = record {
        base_files = w.base_files.1;
        new_files = w.new_files.1;
        mapped_files = w.mapped_files;
      } in
      level_of v rest i a
        (λ h.
          save_level-IsLevel b level l base fns bytes v h w.mapped_files w.new_files.0
            w.base_files.0 at)
        (λ j h.
          save_levels-IsLevel b (level + 1) ls bases v.fn_files v.l0_bytes rest later at1 j fs h)
        (ap (λ s. get_elem? s i) files ∙ g)
    where
      level_of :
          (v : Saving) (rest : List (List FileMetaData) × ℕ) (i : ℕ)
          → 0 < level + i
          → (0 < level → IsLevel cmp v.level_files)
          → ((j : ℕ) → 0 < level + 1 + j → get_elem? rest.0 j ≡ some fs → IsLevel cmp fs)
          → get_elem? (v.level_files ∷ rest.0) i ≡ some fs
          → IsLevel cmp fs
      level_of v rest zero a here back g =
          subst (IsLevel cmp) (some-injective v.level_files fs g) (here (omega arith))
      level_of v rest (suc i) a here back g = back i (omega arith) g

  -- When every file of the base version and of the edits has keys of at least eight bytes and a largest
  -- key that is not before its smallest, and SaveTo ends, each level above 0 of the new version is in
  -- order: its files are apart and ascend. FindFile on such a level of fewer than 2^31 files ends, and gives the first file whose
  -- largest key is not before the key, or the number of files.
  pub save_to-find_file :
      (b : Builder) (base_files : List (List FileMetaData)) (saved : List (List FileMetaData) × ℕ)
      → AllFiles b b.levels base_files
      → save_to cmp b base_files ≡ some saved
      → (level : ℕ) (files : List FileMetaData) → 0 < level
      → get_elem? saved.0 level ≡ some files
      → length files < 2 ^ 31
      → (key : Bytes) (target : Seen) → Shows key target
      → IsLevel cmp files
        × ((r : ℕ) × (find_file cmp files key ≡ some r) × Parts cmp files target r)
  unfolding save_to
  save_to-find_file b base_files saved w e level files above at small key target shown =
      let level_in_order =
        save_levels-IsLevel b 0 b.levels base_files [] 0 saved w e level files (omega arith) at in
      (level_in_order, find_file-Parts cmp files target level_in_order small key shown)
