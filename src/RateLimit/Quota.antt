-- ===== src/RateLimit/Quota.antt =====
-- QuotaManager of app/core/api_integration/rate_limiting.py.
use korea_public_data_be.Base.{
  ℕ, ◌+◌, ◌-◌, ◌*◌, ◌/◌, true, false, Option, none, some, String, List, [], ◌∷◌, leb, eqb,
  string_eq, format, if◌then◌else◌,
}
use korea_public_data_be.Dict
use korea_public_data_be.Dict.{Dict}
use korea_public_data_be.RateLimit.Config.{
  second, RateLimitResult, zero_division, validation_error, Result, ok, err,
}
use korea_public_data_be.RateLimit.Storage.{Storage, get_count, increment}

-- An entry of `_quotas`.
pub record Quota : Type 0 where
  pub limit : ℕ
  pub period_seconds : ℕ
  pub client_patterns : List String

patterns_or_all : Option (List String) → List String
patterns_or_all none = "*" ∷ []
patterns_or_all (some []) = "*" ∷ []
patterns_or_all (some (p ∷ ps)) = p ∷ ps

unfoldable pub add_quota :
    Dict String Quota → String → ℕ → ℕ → Option (List String) → Dict String Quota
unfolding patterns_or_all
add_quota quotas name limit period patterns =
    Dict.put quotas name (record {
      limit = limit;
      period_seconds = period;
      client_patterns = patterns_or_all patterns;
    })

-- What the result type makes of `float('inf')` in its two `int` fields: a number, or a refusal.
abbrev pub unlimited : Option ℕ → ℕ → Result RateLimitResult
unlimited none reset_time = err validation_error
unlimited (some n) reset_time = ok (record {
  allowed = true;
  limit = n;
  remaining = n;
  reset_time = reset_time;
  retry_after = none;
  headers = [];
})

module _ (str : ℕ → String) where
  -- The second at which the period of an instant begins.
  abbrev pub period_start : Quota → ℕ → ℕ
  period_start q now = now / (q.period_seconds * second) * q.period_seconds

  -- The key under which a client's use of a quota is counted in a period.
  unfoldable pub quota_key : String → String → ℕ → String
  quota_key name client start = format ("quota:" ∷ name ∷ ":" ∷ client ∷ ":" ∷ str start ∷ [])

  -- The end of the period of an instant.
  abbrev pub period_end : Quota → ℕ → ℕ
  period_end q now = (period_start q now + q.period_seconds) * second

  decide_quota : String → Quota → String → (ℕ → ℕ) → ℕ → Storage → Result RateLimitResult × Storage
  decide_quota name q client clock usage s =
      let (_, s') =
        increment s (clock 2) (quota_key name client (period_start q (clock 0))) q.period_seconds in
      if leb q.limit usage
      then (
        ok (record {
          allowed = false;
          limit = q.limit;
          remaining = 0;
          reset_time = period_end q (clock 0);
          retry_after = some ((period_end q (clock 0) - clock 2) / second);
          headers = [];
        }),
        s,
      )
      else (
        ok (record {
          allowed = true;
          limit = q.limit;
          remaining = q.limit - usage - 1;
          reset_time = period_end q (clock 0);
          retry_after = none;
          headers = [];
        }),
        s',
      )

  -- A configured quota. A period of no length divides by zero before the storage is read.
  unfoldable pub check_configured :
      String → Quota → String → (ℕ → ℕ) → Storage → Result RateLimitResult × Storage
  unfolding decide_quota
  check_configured name q client clock s =
      let (usage, s') = get_count s (clock 1) (quota_key name client (period_start q (clock 0))) in
      if eqb q.period_seconds 0
      then (err zero_division, s)
      else decide_quota name q client clock usage s'

  check_found :
      Option ℕ
      → String
      → Option Quota
      → String
      → (ℕ → ℕ)
      → Storage
      → Result RateLimitResult × Storage
  check_found inf name none client clock s = (unlimited inf (clock 0 + 86400 * second), s)
  check_found inf name (some q) client clock s = check_configured name q client clock s

  -- QuotaManager.check_quota; `inf` is what the result type makes of `float('inf')`.
  unfoldable pub check_quota :
      Option ℕ
      → Dict String Quota
      → String
      → String
      → (ℕ → ℕ)
      → Storage
      → Result RateLimitResult × Storage
  unfolding check_found check_configured
  check_quota inf quotas client name clock s =
      check_found inf name (Dict.get quotas name) client clock s
