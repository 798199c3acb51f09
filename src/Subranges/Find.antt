-- ===== src/Subranges/Find.antt =====
-- SubRanges::BinarySearch on subranges in order.
use bl_nova_lsm.Common.{
  ℕ, zero, suc, ◌≡◌, refl, sym, ap, ◌∙◌, Option, none, some, List, [], ◌∷◌, arith, length,
  get_elem?,
}
use bl_nova_lsm.Common.Ordered.{Ordered}
use bl_nova_lsm.Coding.{Bytes}
use bl_nova_lsm.Keys.{Comparator}
use bl_nova_lsm.Search.{search}
use bl_nova_lsm.Range.{Range, range_side, range_probe, binary_search}
use bl_nova_lsm.Range.Order.{Precedes, Holds, Finds, binary_search-Finds}
use bl_nova_lsm.Subrange.{SubRange, hull, smaller_than_lower, greater_than_upper}
use bl_nova_lsm.Subranges.{SubRanges, subrange_side, subrange_probe, search_subranges}
use mathlib.Core.Path.{fun_ext, subst}
use mathlib.Core.Option.{some-injective}

-- Each subrange with the range from its first lower to its last upper bound; none is empty.
abbrev pub Hulls : SubRanges → List Range → Type 0
Hulls [] [] = Unit {0}
Hulls [] (h ∷ hs) = ⊥
Hulls (sr ∷ srs) [] = ⊥
Hulls (sr ∷ srs) (h ∷ hs) = (hull sr ≡ some h) × Hulls srs hs

length-Hulls : (srs : SubRanges) (hs : List Range) → Hulls srs hs → length srs ≡ length hs
length-Hulls [] [] w = refl
length-Hulls [] (h ∷ hs) w = absurd w
length-Hulls (sr ∷ srs) [] w = absurd w
length-Hulls (sr ∷ srs) (h ∷ hs) w = ap suc (length-Hulls srs hs w.1)

pub hull_at :
    (srs : SubRanges) (hs : List Range) (i : ℕ) (sr : SubRange)
    → Hulls srs hs
    → get_elem? srs i ≡ some sr
    → (h : Range) × (get_elem? hs i ≡ some h) × (hull sr ≡ some h)
hull_at [] hs i sr w e = cc
hull_at (x ∷ srs) [] i sr w e = absurd w
hull_at (x ∷ srs) (h ∷ hs) zero sr w e = (h, refl, ap hull (sym (some-injective x sr e)) ∙ w.0)
hull_at (x ∷ srs) (h ∷ hs) (suc i) sr w e = hull_at srs hs i sr w.1 e

subrange_at :
    (srs : SubRanges) (hs : List Range) (i : ℕ) (h : Range)
    → Hulls srs hs
    → get_elem? hs i ≡ some h
    → (sr : SubRange) × (get_elem? srs i ≡ some sr) × (hull sr ≡ some h)
subrange_at srs [] i h w e = cc
subrange_at [] (x ∷ hs) i h w e = absurd w
subrange_at (sr ∷ srs) (x ∷ hs) zero h w e = (sr, refl, w.0 ∙ e)
subrange_at (sr ∷ srs) (x ∷ hs) (suc i) h w e = subrange_at srs hs i h w.1 e

module _ (cmp : Comparator) where
  -- The subranges follow one another in the order of the keys, duplicates side by side.
  pub record InOrder (srs : SubRanges) : Type 0 where
    pub hulls : List Range
    pub hull_of_each : Hulls srs hulls
    pub ordered : Ordered (Precedes cmp) hulls

  -- The outcome of a search over subranges: no fault, and a subrange whose bounds hold the key, if
  -- there is one.
  abbrev pub FindsSubrange : SubRanges → Bytes → Option (Option ℕ) → Type 0
  FindsSubrange srs key none = ⊥
  FindsSubrange srs key (some none) =
      (i : ℕ) (sr : SubRange) (h : Range)
      → get_elem? srs i ≡ some sr
      → hull sr ≡ some h
      → Holds cmp h key
      → ⊥
  FindsSubrange srs key (some (some m)) =
      (sr : SubRange) × (h : Range) × (get_elem? srs m ≡ some sr)
      × (hull sr ≡ some h)
      × Holds cmp h key

  side_hull :
      (key : Bytes) (sr : SubRange) (h : Range)
      → hull sr ≡ some h
      → subrange_side cmp key sr ≡ some (range_side cmp key h)
  unfolding hull subrange_side smaller_than_lower greater_than_upper range_side
  side_hull key sr h e = ground arith

  probe_hull :
      (srs : SubRanges) (hs : List Range) (key : Bytes) (m : ℕ)
      → Hulls srs hs
      → subrange_probe cmp srs key m ≡ range_probe cmp hs key m
  unfolding subrange_probe range_probe
  probe_hull [] [] key m w = refl
  probe_hull [] (h ∷ hs) key m w = absurd w
  probe_hull (sr ∷ srs) [] key m w = absurd w
  probe_hull (sr ∷ srs) (h ∷ hs) key zero w = side_hull key sr h w.0
  probe_hull (sr ∷ srs) (h ∷ hs) key (suc m) w = probe_hull srs hs key m w.1

  search-Hulls :
      (srs : SubRanges) (hs : List Range) (key : Bytes)
      → Hulls srs hs
      → search_subranges cmp srs key ≡ binary_search cmp hs key
  unfolding search_subranges binary_search
  search-Hulls srs hs key w =
      ap (λ p. search p (length srs)) (fun_ext (λ m. probe_hull srs hs key m w))
      ∙ ap (search (range_probe cmp hs key)) (length-Hulls srs hs w)

  Finds-Hulls :
      (srs : SubRanges) (hs : List Range) (key : Bytes) (o : Option (Option ℕ))
      → Hulls srs hs
      → Finds cmp hs key o
      → FindsSubrange srs key o
  Finds-Hulls srs hs key none w f = f
  Finds-Hulls srs hs key (some none) w f = λ i sr h e eh holds.
      let (g, eg, es) = hull_at srs hs i sr w e in
      f i g eg (subst (λ r. Holds cmp r key) (some-injective h g (sym eh ∙ es)) holds)
  Finds-Hulls srs hs key (some (some m)) w (h, e, holds) =
      let (sr, es, eh) = subrange_at srs hs m h w e in (sr, h, es, eh, holds)

  -- On subranges in order BinarySearch ends without a fault; it names a subrange whose bounds hold
  -- the key, and if it names none then no subrange's do.
  pub search_subranges-Finds :
      (srs : SubRanges) (key : Bytes)
      → InOrder srs
      → FindsSubrange srs key (search_subranges cmp srs key)
  search_subranges-Finds srs key w =
      rw (search-Hulls srs w.hulls key w.hull_of_each) (
        Finds-Hulls srs w.hulls key _ w.hull_of_each
          (binary_search-Finds cmp w.hulls key w.ordered))
