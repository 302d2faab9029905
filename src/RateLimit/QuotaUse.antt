-- ===== src/RateLimit/QuotaUse.antt =====
-- A client's use of a quota within one period.
use korea_public_data_be.Base.{
  ℕ, suc, ◌+◌, ◌-◌, ◌*◌, ◌/◌, ◌≤◌, ◌<◌, ◌≡◌, refl, Bool, true, false, none, String, List, [], ◌∷◌,
  arith, leb, leb→le, eqb, min, length, string_eq, Bool-cases, inl, inr,
}
use korea_public_data_be.Dict
use korea_public_data_be.RateLimit.Config.{second, RateLimitResult, Result, ok, err}
use korea_public_data_be.RateLimit.Storage.{Storage}
use korea_public_data_be.RateLimit.Quota.{Quota, quota_key, check_configured}
use korea_public_data_be.RateLimit.Counters.{Holds, unused, get_count-Holds, increment-Holds}

-- Was the request let through?
abbrev pub is_allowed : Result RateLimitResult → Bool
is_allowed (ok r) = r.allowed
is_allowed (err e) = false

abbrev pub count_if : Bool → ℕ → ℕ
count_if true n = suc n
count_if false n = n

module _ (str : ℕ → String) (name client : String) (q : Quota) where
  -- Checks of the quota by one client, one after the other: how many are allowed.
  unfoldable pub allowed_checks : Storage → List (ℕ → ℕ) → ℕ
  allowed_checks s [] = 0
  allowed_checks s (clock ∷ r) =
      let (res, s') = check_configured str name q client clock s in
      count_if (is_allowed res) (allowed_checks s' r)

  -- The three readings of the clock in a check fall into the period with this index.
  abbrev pub InPeriod : ℕ → (ℕ → ℕ) → Type 0
  InPeriod index clock =
      (clock 0 / (q.period_seconds * second) ≡ index)
      × (clock 1 / (q.period_seconds * second) ≡ index)
      × (clock 2 / (q.period_seconds * second) ≡ index)

  abbrev pub AllInPeriod : ℕ → List (ℕ → ℕ) → Type 0
  AllInPeriod index [] = Unit
  AllInPeriod index (clock ∷ r) = InPeriod index clock × AllInPeriod index r

  -- The counter of the period with this index.
  abbrev pub counter_key : ℕ → String
  counter_key index = quota_key str name client (index * q.period_seconds)

  abbrev Uses : Storage → ℕ → ℕ → Type 0
  Uses s index u =
      Holds s (counter_key index) (index * (q.period_seconds * second) + q.period_seconds * second)
        u

  below_end :
      (index t : ℕ)
      → 0 < q.period_seconds
      → t / (q.period_seconds * second) ≡ index
      → (index * (q.period_seconds * second) ≤ t)
        × (t ≤ index * (q.period_seconds * second) + q.period_seconds * second)
  below_end index t p h = grind arith

  step_allowed :
      {s : Storage} (index u : ℕ) (clock : ℕ → ℕ)
      → 0 < q.period_seconds
      → InPeriod index clock
      → Uses s index u
      → u < q.limit
      → let (res, s') = check_configured str name q client clock s in
        (is_allowed res ≡ true) × Uses s' index (u + 1)
  unfolding check_configured
  step_allowed index u clock p inp h lt =
      let open_period : eqb q.period_seconds 0 ≡ false = ground arith in
      let room : leb q.limit u ≡ false = ground arith in
      rw
        (
          inp.0,
          get_count-Holds (clock 1) h (below_end index (clock 1) p inp.1).1,
          open_period,
          room,
        )
        (
          refl,
          increment-Holds (clock 2) q.period_seconds h (below_end index (clock 2) p inp.2).1
              (omega (arith, (below_end index (clock 2) p inp.2).0)),
        )

  step_refused :
      {s : Storage} (index u : ℕ) (clock : ℕ → ℕ)
      → 0 < q.period_seconds
      → InPeriod index clock
      → Uses s index u
      → q.limit ≤ u
      → let (res, s') = check_configured str name q client clock s in
        (is_allowed res ≡ false) × Uses s' index u
  unfolding check_configured
  step_refused index u clock p inp h le =
      let open_period : eqb q.period_seconds 0 ≡ false = ground arith in
      let full : leb q.limit u ≡ true = ground arith in
      rw
        (
          inp.0,
          get_count-Holds (clock 1) h (below_end index (clock 1) p inp.1).1,
          open_period,
          full,
        )
        (refl, h)

  allowed-Uses :
      (s : Storage) (index u : ℕ) (clocks : List (ℕ → ℕ))
      → 0 < q.period_seconds
      → AllInPeriod index clocks
      → Uses s index u
      → allowed_checks s clocks ≡ min (length clocks) (q.limit - u)
  unfolding allowed_checks
  allowed-Uses s index u [] p all h = omega arith
  allowed-Uses s index u (clock ∷ r) p all h = elim (Bool-cases (leb q.limit u)) [
    | inl full ↦
        let (refused, still) = step_refused index u clock p all.0 h (leb→le q.limit u full) in
        rw refused (
          omega (
            arith,
            allowed-Uses (check_configured str name q client clock s).1 index u r p all.1 still,
            leb→le q.limit u full,
          ))
    | inr room ↦
        let lt : u < q.limit = ground arith in
        let (granted, more) = step_allowed index u clock p all.0 h lt in
        rw granted (
          omega (
            arith,
            allowed-Uses (check_configured str name q client clock s).1 index (u + 1) r p all.1
                more,
          ))
  ]

  -- Of the checks that one client makes of a quota within one period, from a storage that has no
  -- count for it yet, the first `limit` are allowed and the others refused: the number allowed is
  -- the smaller of the number made and the limit. The period has a positive length.
  pub allowed_in_period :
      (s : Storage) (index : ℕ) (clocks : List (ℕ → ℕ))
      → 0 < q.period_seconds
      → AllInPeriod index clocks
      → Dict.get s.counts (counter_key index) ≡ none
      → allowed_checks s clocks ≡ min (length clocks) q.limit
  allowed_in_period s index clocks p all fresh =
      omega (arith, allowed-Uses s index 0 clocks p all (unused fresh refl))
