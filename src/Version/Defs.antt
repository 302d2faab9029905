-- ===== src/Version/Defs.antt =====
-- ApiVersion of app/shared/versioning.py, and the version ranges of require_version.
-- Dates are day numbers; `str` is Python's `str` of a number.
use korea_public_data_be.Base.{
  ℕ, ◌-◌, Bool, true, false, not, ◌&&◌, ◌||◌, Option, none, some, String, List, [], ◌∷◌, ltb, leb,
  eqb, ◌==◌, string_eq, format, if◌then◌else◌,
}

pub record ApiVersion : Type 0 where
  pub major : ℕ
  pub minor : ℕ
  pub patch : ℕ
  pub label : Option String
  pub release_date : Option ℕ
  pub deprecation_date : Option ℕ
  pub sunset_date : Option ℕ
  pub is_stable : Bool
  pub is_deprecated : Bool
  pub is_experimental : Bool

-- `v and values.get(…) and v <= values[…]`: the second date is there and not after the first.
not_after : Option ℕ → Option ℕ → Bool
not_after (some earlier) (some later) = leb later earlier
not_after _ _ = false

-- The two validators of the dates: does the model accept the record?
unfoldable pub dates_valid : ApiVersion → Bool
unfolding not_after
dates_valid v =
    not (not_after v.release_date v.deprecation_date)
    && not (not_after v.deprecation_date v.sunset_date)

-- The three results of ApiVersion.compare: -1, 0 and 1.
pub data Comparison : Type 0 where
  less same greater : Comparison

-- Python's comparison of two tuples of three numbers.
unfoldable pub compare : ApiVersion → ApiVersion → Comparison
compare a b =
    if ltb a.major b.major
    then less
    else if ltb b.major a.major
    then greater
    else if ltb a.minor b.minor
    then less
    else if ltb b.minor a.minor
    then greater
    else if ltb a.patch b.patch
    then less
    else if ltb b.patch a.patch
    then greater
    else same

-- `self > other`
unfoldable pub gt : ApiVersion → ApiVersion → Bool
gt a b = elim (compare a b) [ greater ↦ true | _ ↦ false ]

past : ℕ → Option ℕ → Bool
past today none = false
past today (some day) = leb day today

-- Has the version's sunset date come?
unfoldable pub is_sunset : ℕ → ApiVersion → Bool
unfolding past
is_sunset today v = past today v.sunset_date

unfoldable pub is_current : ℕ → ApiVersion → Bool
is_current today v = if is_sunset today v then false else not v.is_deprecated

unfoldable pub days_until_sunset : ℕ → ApiVersion → Option ℕ
days_until_sunset today v = elim v.sunset_date [ none ↦ none | some day ↦ some (day - today) ]

-- A bound of `require_version`, after `lstrip('v').split('.')` and `int`: its first number, and
-- those behind it.
pub record Bound : Type 0 where
  pub first : ℕ
  pub rest : List ℕ

-- `int(parts[1]) if len(parts) > 1 else default`
abbrev pub second_part : ℕ → List ℕ → ℕ
second_part default [] = default
second_part default (m ∷ _) = m

abbrev pub third_part : ℕ → List ℕ → ℕ
third_part default [] = default
third_part default (_ ∷ []) = default
third_part default (_ ∷ p ∷ _) = p

-- The first test of `version_requirement`: the version lies below the bound.
unfoldable pub below_min : Bound → ApiVersion → Bool
below_min b v =
    ltb v.major b.first
    || (eqb v.major b.first && ltb v.minor (second_part 0 b.rest)
        || eqb v.major b.first
          && (eqb v.minor (second_part 0 b.rest) && ltb v.patch (third_part 0 b.rest)))

-- The second test: it lies above the bound, whose missing parts are 999.
unfoldable pub above_max : Bound → ApiVersion → Bool
above_max b v =
    ltb b.first v.major
    || (eqb v.major b.first && ltb (second_part 999 b.rest) v.minor
        || eqb v.major b.first
          && (eqb v.minor (second_part 999 b.rest) && ltb (third_part 999 b.rest) v.patch))

exceeds : Option Bound → ApiVersion → Bool
exceeds none v = false
exceeds (some b) v = above_max b v

-- require_version: `none` is the HTTP error 400.
unfoldable pub version_requirement : Bound → Option Bound → ApiVersion → Option ApiVersion
unfolding exceeds below_min above_max
version_requirement lo hi v = if below_min lo v then none else if exceeds hi v then none else some v

-- An empty label is none.
label_part : Option String → List String
label_part none = []
label_part (some l) = if l == "" then [] else "-" ∷ l ∷ []

module _ (str : ℕ → String) where
  unfoldable pub version_string : ApiVersion → String
  unfolding label_part
  version_string v =
      format (str v.major ∷ "." ∷ str v.minor ∷ "." ∷ str v.patch ∷ label_part v.label)

  unfoldable pub short_version : ApiVersion → String
  short_version v =
      if eqb v.minor 0 && eqb v.patch 0
      then format ("v" ∷ str v.major ∷ [])
      else if eqb v.patch 0
      then format ("v" ∷ str v.major ∷ "." ∷ str v.minor ∷ [])
      else format ("v" ∷ str v.major ∷ "." ∷ str v.minor ∷ "." ∷ str v.patch ∷ [])
