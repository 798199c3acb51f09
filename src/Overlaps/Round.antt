-- ===== src/Overlaps/Round.antt =====
-- A round of ComputeOverlappingFilesForRange, and the three ways in which it ends.
use bl_nova_lsm.Common.{ℕ, ◌+◌, ◌≤◌, ◌<◌, ◌≡◌, sym, Bool, List, length, All, arith}
use mathlib.Core.Path.{subst, ◌∙◌}
use bl_nova_lsm.Keys.{Comparator}
use bl_nova_lsm.Files.{FileMetaData}
use bl_nova_lsm.Levels.Sorted.{HasKeys}
use bl_nova_lsm.Overlaps.{overlap_no_new_tables, Scan, Collected}
use bl_nova_lsm.Overlaps.Widened.{count, AllInside, AllInside-mono}
use bl_nova_lsm.Overlaps.Scanned.{AllApart, ScanAfter, IsOpen}

module _ (cmp : Comparator) (max_num : ℕ) where
  -- The files that were collected and those that were left, from two vectors of files.
  pub record IsCollected (l0 l1 : List FileMetaData) (c : Collected) : Type 0 where
    pub inside0 : AllInside cmp c.bounds c.inputs0
    pub inside1 : AllInside cmp c.bounds c.inputs1
    -- Unless too many files were collected, no file that is left reaches into the bounds, and no
    -- file is lost or comes twice.
    pub closed0 : length c.inputs0 + length c.inputs1 ≤ max_num → AllApart cmp c.bounds c.l0inputs
    pub closed1 : length c.inputs0 + length c.inputs1 ≤ max_num → AllApart cmp c.bounds c.l1inputs
    pub kept0 :
        length c.inputs0 + length c.inputs1 ≤ max_num
        → (p : FileMetaData → Bool) → count p c.l0inputs + count p c.inputs0 ≡ count p l0
    pub kept1 :
        length c.inputs0 + length c.inputs1 ≤ max_num
        → (p : FileMetaData → Bool) → count p c.l1inputs + count p c.inputs1 ≡ count p l1

  -- At the start of a round.
  pub record Ready (l0 l1 : List FileMetaData) (c : Collected) : Type 0 where
    pub keys0 : All HasKeys c.l0inputs
    pub keys1 : All HasKeys c.l1inputs
    pub within0 : AllInside cmp c.bounds c.inputs0
    pub within1 : AllInside cmp c.bounds c.inputs1
    pub whole0 : (p : FileMetaData → Bool) → count p c.l0inputs + count p c.inputs0 ≡ count p l0
    pub whole1 : (p : FileMetaData → Bool) → count p c.l1inputs + count p c.inputs1 ≡ count p l1

  -- The two scans of a round.
  pub record Round (c : Collected) (s0 s1 : Scan) : Type 0 where
    pub after0 :
        ScanAfter cmp max_num c.bounds c.l0inputs overlap_no_new_tables c.inputs0 c.bounds s0
    pub after1 :
        ScanAfter cmp max_num s0.new_bounds c.l1inputs overlap_no_new_tables c.inputs1 s0.new_bounds
          s1

  abbrev pub next : Scan → Scan → Collected
  next s0 s1 = record {
    l0inputs = s0.files;
    l1inputs = s1.files;
    inputs0 = s0.inputs;
    inputs1 = s1.inputs;
    bounds = s1.new_bounds;
  }

  module _ (l0 l1 : List FileMetaData) (c : Collected) (w : Ready l0 l1 c) (s0 s1 : Scan)
      (d : Round c s0 s1) where
    first_inside : AllInside cmp s1.new_bounds s0.inputs
    first_inside =
        AllInside-mono cmp s0.new_bounds s1.new_bounds s0.inputs d.after1.widened
          (d.after0.inside w.within0)

    second_inside : AllInside cmp s1.new_bounds s1.inputs
    second_inside =
        d.after1.inside
          (AllInside-mono cmp c.bounds s0.new_bounds c.inputs1 d.after0.widened w.within1)

    first_whole :
        IsOpen s0.result
        → (p : FileMetaData → Bool) → count p s0.files + count p s0.inputs ≡ count p l0
    first_whole o p = d.after0.kept o p ∙ w.whole0 p

    second_whole :
        IsOpen s1.result
        → (p : FileMetaData → Bool) → count p s1.files + count p s1.inputs ≡ count p l1
    second_whole o p = d.after1.kept o p ∙ w.whole1 p

    pub next-Ready : IsOpen s0.result → IsOpen s1.result → Ready l0 l1 (next s0 s1)
    next-Ready o0 o1 = record {
      keys0 = d.after0.files_keys;
      keys1 = d.after1.files_keys;
      within0 = first_inside;
      within1 = second_inside;
      whole0 = first_whole o0;
      whole1 = second_whole o1;
    }

    -- The loop ends because too many files were collected.
    pub too_many : max_num < length s0.inputs + length s1.inputs → IsCollected l0 l1 (next s0 s1)
    too_many l = record {
      inside0 = first_inside;
      inside1 = second_inside;
      closed0 = λ h. absurd (omega arith);
      closed1 = λ h. absurd (omega arith);
      kept0 = λ h. absurd (omega arith);
      kept1 = λ h. absurd (omega arith);
    }

    -- The loop ends because no file was found.
    pub nothing_new :
        s0.result ≡ overlap_no_new_tables
        → s1.result ≡ overlap_no_new_tables
        → IsCollected l0 l1 (next s0 s1)
    nothing_new e0 e1 =
        let o0 : IsOpen s0.result = λ h. absurd (cc) in
        let o1 : IsOpen s1.result = λ h. absurd (cc) in
        let (z0, f0, i0, b0) = d.after0.untouched e0 in
        let (z1, f1, i1, b1) = d.after1.untouched e1 in
        record {
          inside0 = first_inside;
          inside1 = second_inside;
          closed0 = λ h. subst (λ b. AllApart cmp b s0.files) (sym (b1 ∙ b0)) (d.after0.apart o0);
          closed1 = λ h. subst (λ b. AllApart cmp b s1.files) (sym b1) (d.after1.apart o1);
          kept0 = λ h. first_whole o0;
          kept1 = λ h. second_whole o1;
        }
