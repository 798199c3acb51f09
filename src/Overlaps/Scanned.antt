-- ===== src/Overlaps/Scanned.antt =====
-- What ComputeOverlappingFilesInRange leaves of the files, the inputs and the bounds.
use bl_nova_lsm.Common.{
  ℕ, suc, ◌+◌, ◌≤◌, ◌<◌, ◌≡◌, ◌≢◌, ◌⊎◌, refl, ap, Bool, true, Option, some, List, [], ◌∷◌, ◌++◌,
  ltb, length, All, arith, Bool-cases, inl, inr,
}
use bl_nova_lsm.Keys.{Comparator}
use bl_nova_lsm.Files.{FileMetaData}
use bl_nova_lsm.Levels.Sorted.{HasKeys}
use bl_nova_lsm.Overlaps.{
  Bounds, is_apart, widen, OverlappingFileResult, overlap_found_new_tables, overlap_exceed_max,
  overlap_no_new_tables, Scan, scan_files,
}
use bl_nova_lsm.Overlaps.Widened.{
  keys_of, bounds_of-keys_of, count, count-append, Inside, Inside-trans, Inside-refl, widen-Inside,
  AllInside, AllInside-mono, AllInside-end,
}

abbrev pub AllApart : Comparator → Bounds → List FileMetaData → Type 0
AllApart cmp r = All (λ f. is_apart cmp r (keys_of f) ≡ true)

-- Nothing was found: all is as it was.
abbrev pub Untouched :
    List FileMetaData → OverlappingFileResult → List FileMetaData → Bounds → Scan → Type 0
Untouched files r inputs nb s =
    (r ≡ overlap_no_new_tables) × (s.files ≡ files) × (s.inputs ≡ inputs) × (s.new_bounds ≡ nb)

-- The loop from some files, result, inputs and bounds to what it leaves.
pub record ScanAfter (cmp : Comparator) (max_num : ℕ) (range : Bounds) (files : List FileMetaData)
    (r : OverlappingFileResult) (inputs : List FileMetaData) (nb : Bounds) (s : Scan) : Type 0 where
  pub widened : Inside cmp nb s.new_bounds
  pub inside : AllInside cmp nb inputs → AllInside cmp s.new_bounds s.inputs
  pub files_keys : All HasKeys s.files
  pub exceeded : s.result ≡ overlap_exceed_max → max_num < length s.inputs
  pub apart : s.result ≢ overlap_exceed_max → AllApart cmp range s.files
  pub kept :
      s.result ≢ overlap_exceed_max
      → (p : FileMetaData → Bool)
      → count p s.files + count p s.inputs ≡ count p files + count p inputs
  pub untouched : s.result ≡ overlap_no_new_tables → Untouched files r inputs nb s
  pub no_longer : length s.files ≤ length files
  pub found :
      s.result ≡ overlap_found_new_tables
      → (r ≡ overlap_found_new_tables) ⊎ (length s.files < length files)

-- A result that the loop goes on with.
abbrev pub IsOpen : OverlappingFileResult → Type 0
IsOpen r = r ≢ overlap_exceed_max

module _ (cmp : Comparator) (max_num : ℕ) (range : Bounds) where
  abbrev Scans :
      List FileMetaData → OverlappingFileResult → List FileMetaData → Bounds → Option Scan → Type 0
  Scans files r inputs nb o =
      (s : Scan) × (o ≡ some s) × ScanAfter cmp max_num range files r inputs nb s

  skip :
      (f : FileMetaData) (fs : List FileMetaData) (r : OverlappingFileResult)
      (inputs : List FileMetaData) (nb : Bounds) (s : Scan)
      → HasKeys f
      → is_apart cmp range (keys_of f) ≡ true
      → ScanAfter cmp max_num range fs r inputs nb s
      → ScanAfter cmp max_num range (f ∷ fs) r inputs nb (record s { files = f ∷ s.files })
  skip f fs r inputs nb s h a w = record {
    widened = w.widened;
    inside = w.inside;
    files_keys = (h, w.files_keys);
    exceeded = w.exceeded;
    apart = λ e. (a, w.apart e);
    kept = λ e p. omega (arith, w.kept e p);
    untouched = λ e.
        let (same, files, ins, bounds) = w.untouched e in (same, ap (◌∷◌ f) files, ins, bounds);
    no_longer = omega (arith, w.no_longer);
    found = λ e. shorter (w.found e);
  }
    where
      shorter :
          (r ≡ overlap_found_new_tables) ⊎ (length s.files < length fs)
          → (r ≡ overlap_found_new_tables) ⊎ (suc (length s.files) < suc (length fs))
      shorter (inl e) = inl e
      shorter (inr l) = inr (omega arith)

  exceed :
      (f : FileMetaData) (fs : List FileMetaData) (r : OverlappingFileResult)
      (inputs : List FileMetaData) (nb : Bounds)
      → All HasKeys (f ∷ fs)
      → max_num < length (inputs ++ (f ∷ []))
      → ScanAfter cmp max_num range (f ∷ fs) r inputs nb record {
        result = overlap_exceed_max;
        files = f ∷ fs;
        inputs = inputs ++ (f ∷ []);
        new_bounds = widen cmp (keys_of f) nb;
      }
  exceed f fs r inputs nb h l =
      let (new, old) = widen-Inside cmp (keys_of f) nb in
      record {
        widened = old;
        inside = λ a.
            AllInside-end cmp (widen cmp (keys_of f) nb) inputs f
              (AllInside-mono cmp nb (widen cmp (keys_of f) nb) inputs old a) new;
        files_keys = h;
        exceeded = λ e. l;
        apart = λ e. absurd (e refl);
        kept = λ e p. absurd (e refl);
        untouched = λ e. absurd (cc);
        no_longer = omega arith;
        found = λ e. absurd (cc);
      }

  add :
      (f : FileMetaData) (fs : List FileMetaData) (r : OverlappingFileResult)
      (inputs : List FileMetaData) (nb : Bounds) (s : Scan)
      → ScanAfter cmp max_num range fs overlap_found_new_tables
          (inputs ++ (f ∷ []))
          (widen cmp (keys_of f) nb)
          s
      → ScanAfter cmp max_num range (f ∷ fs) r inputs nb s
  add f fs r inputs nb s w =
      let (new, old) = widen-Inside cmp (keys_of f) nb in
      record {
        widened = Inside-trans cmp nb (widen cmp (keys_of f) nb) s.new_bounds old w.widened;
        inside = λ a. w.inside (
            AllInside-end cmp (widen cmp (keys_of f) nb) inputs f
              (AllInside-mono cmp nb (widen cmp (keys_of f) nb) inputs old a) new);
        files_keys = w.files_keys;
        exceeded = w.exceeded;
        apart = w.apart;
        kept = λ e p. omega (arith, w.kept e p, count-append p inputs (f ∷ []));
        untouched = λ e. absurd (let same = (w.untouched e).0 in cc);
        no_longer = omega (arith, w.no_longer);
        found = λ e. inr (omega (arith, w.no_longer));
      }

  pub scan_files-after :
      (files : List FileMetaData) (r : OverlappingFileResult) (inputs : List FileMetaData)
      (nb : Bounds)
      → IsOpen r
      → All HasKeys files
      → Scans files r inputs nb (scan_files cmp max_num range files r inputs nb)
  unfolding scan_files
  scan_files-after [] r inputs nb o h = (
    record { result = r; files = []; inputs = inputs; new_bounds = nb },
    refl,
    record {
      widened = Inside-refl cmp nb;
      inside = λ a. a;
      files_keys = tt;
      exceeded = λ e. absurd (o e);
      apart = λ e. tt;
      kept = λ e p. refl;
      untouched = λ e. (e, refl, refl, refl);
      no_longer = omega arith;
      found = λ e. inl e;
    },
  )
  scan_files-after (f ∷ fs) r inputs nb o h =
      rw (bounds_of-keys_of f h.0) (elim (Bool-cases (is_apart cmp range (keys_of f))) [
        | inl far ↦
            let (s, e, w) = scan_files-after fs r inputs nb o h.1 in
            rw (far, e) (record s { files = f ∷ s.files }, refl, skip f fs r inputs nb s h.0 far w)
        | inr near ↦ rw near (elim (Bool-cases (ltb max_num (length (inputs ++ (f ∷ []))))) [
          | inl full ↦ rw full (_, refl, exceed f fs r inputs nb h (ground arith))
          | inr room ↦
              let (s, e, w) =
                scan_files-after fs overlap_found_new_tables (inputs ++ (f ∷ []))
                  (widen cmp (keys_of f) nb) (λ k. absurd (cc)) h.1 in
              rw room (s, e, add f fs r inputs nb s w)
        ])
      ])
