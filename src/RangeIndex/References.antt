-- ===== src/RangeIndex/References.antt =====
-- The references of a version of the range index, over sequences of Ref and UnRef.
use bl_nova_lsm.Common.{◌≡◌, refl, sym, false, some, ◌==◌, leb, ltb, arith, Bool-cases, inl, inr}
use mathlib.Core.Path.{subst, ◌∙◌}
use mathlib.Core.Option.{some-injective}
use bl_nova_lsm.RangeIndex.{Refs, ref, unref}

-- AppendNewVersion gives a new version one reference.
abbrev pub new_version : Refs
new_version = record { refs = 1; is_deleted = false }

pub data Uses : Refs → Type 0 where
  created : Uses new_version
  asked : (r : Refs) → Uses r → Uses (ref r).1
  released : (r r' : Refs) → Uses r → unref r ≡ some r' → Uses r'

ref_keeps : (r : Refs) → r.is_deleted ≡ (r.refs == 0) → (ref r).1.is_deleted ≡ ((ref r).1.refs == 0)
unfolding ref
ref_keeps r h = elim (Bool-cases r.is_deleted) [
  | inl deleted ↦ rw deleted (sym deleted ∙ h)
  | inr live ↦ rw live (ground arith)
]

unref_keeps :
    (r r' : Refs)
    → r.is_deleted ≡ (r.refs == 0)
    → unref r ≡ some r'
    → r'.is_deleted ≡ (r'.refs == 0)
unfolding unref
unref_keeps r r' h = elim (Bool-cases (leb 1 r.refs)) [
  | inr none_left ↦ rw none_left (λ e. absurd (cc))
  | inl some_left ↦ rw some_left (λ e.
      let live : r.is_deleted ≡ false = ground arith in
      subst (λ (x : Refs). x.is_deleted ≡ (x.refs == 0)) (some-injective _ _ e)
        (ground (arith, live)))
]

marks : (r : Refs) → Uses r → r.is_deleted ≡ (r.refs == 0)
marks r created = refl
marks r (asked s u) = ref_keeps s (marks s u)
marks r (released s t u e) = unref_keeps s t (marks s u) e

granted : (r : Refs) → r.is_deleted ≡ (r.refs == 0) → (ref r).0 ≡ ltb 0 r.refs
unfolding ref
granted r h = elim (Bool-cases r.is_deleted) [
  | inl deleted ↦ rw deleted (ground arith)
  | inr live ↦ rw live (ground arith)
]

-- After any sequence of Ref and UnRef on a version that began with one reference, the version is
-- marked as deleted exactly when it has no reference, and a Ref is granted exactly when it has one.
pub deleted_iff_unused :
    (r : Refs) → Uses r → (r.is_deleted ≡ (r.refs == 0)) × ((ref r).0 ≡ ltb 0 r.refs)
deleted_iff_unused r u = (marks r u, granted r (marks r u))
