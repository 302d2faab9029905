-- ===== src/Version/Order.antt =====
-- The order of versions.
use korea_public_data_be.Base.{
  ℕ, ◌≡◌, ◌↔◌, Bool, true, false, not, ◌&&◌, Option, none, some, arith, if◌then◌else◌,
}
use korea_public_data_be.Version.Defs.{
  ApiVersion, Comparison, less, same, greater, compare, gt, Bound, second_part, third_part,
  version_requirement,
}

-- The comparison turned round.
abbrev pub flip : Comparison → Comparison
flip less = greater
flip same = same
flip greater = less

-- Comparing the other way round turns the result round, and two versions compare as the same
-- exactly if their three numbers are equal: label, dates and flags do not count.
pub compare_antisymmetric :
    (a b : ApiVersion)
    → (compare b a ≡ flip (compare a b))
      × ((compare a b ≡ same) ↔ ((a.major ≡ b.major) × (a.minor ≡ b.minor) × (a.patch ≡ b.patch)))
unfolding compare
compare_antisymmetric a b = (ground arith, (λ h. ground arith, λ h. ground arith))

-- What is not greater than a version that is not greater than a third is not greater than it.
pub compare_transitive : (a b c : ApiVersion) → gt a b ≡ false → gt b c ≡ false → gt a c ≡ false
unfolding gt compare
compare_transitive a b c h k = ground arith

-- The version with the numbers of a bound, `default` for those that it leaves out.
abbrev pub bound_version : ℕ → Bound → ApiVersion
bound_version default b = record {
  major = b.first;
  minor = second_part default b.rest;
  patch = third_part default b.rest;
  label = none;
  release_date = none;
  deprecation_date = none;
  sunset_date = none;
  is_stable = true;
  is_deprecated = false;
  is_experimental = false;
}

abbrev pub within : Bound → Option Bound → ApiVersion → Bool
within lo none v = not (gt (bound_version 0 lo) v)
within lo (some hi) v = not (gt (bound_version 0 lo) v) && not (gt v (bound_version 999 hi))

-- The hand-written range test of require_version lets a version through exactly if it lies between
-- the bounds in the order of versions, where a lower bound leaves out zeros and an upper bound 999s.
pub version_requirement-within :
    (lo : Bound) (hi : Option Bound) (v : ApiVersion)
    → version_requirement lo hi v ≡ (if within lo hi v then some v else none)
unfolding version_requirement gt compare
version_requirement-within lo none v = ground arith
version_requirement-within lo (some hi) v = ground arith
