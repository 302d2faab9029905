-- ===== src/Alerts/Priority.antt =====
-- The priority of a notification in app/domains/alerts/frequency_manager.py, and the category that stops one.
use korea_public_data_be.Base.{
  ℕ, ◌+◌, ◌*◌, ◌/◌, ◌≤◌, ◌<◌, min, Bool, true, false, Option, some, String, string_eq, ◌≡◌, sym, ap,
  ◌∙◌, arith, if◌then◌else◌,
}
use korea_public_data_be.Dict
use korea_public_data_be.Dict.{Dict, get_or_absent}
use korea_public_data_be.Alerts.Defs.{
  Preferences, or_default, Zones, NotificationData, type_priority, has_keyword, by_score,
  calculate_notification_priority, check_quiet_hours, check_daily_limit, should_send_notification,
}

type_priority_bounds : (n : NotificationData) → (4 ≤ type_priority n) × (type_priority n ≤ 10)
unfolding type_priority
type_priority_bounds n = (ground arith, ground arith)

by_score_halves :
    (k score : ℕ) → 4 ≤ k * 2 → k * 2 ≤ 10 → score < 900 → by_score score (k * 2) / 2 ≡ k
unfolding by_score
by_score_halves k score lo hi h = ground (arith, lo, hi, h)

by_score_bounds :
    (score k : ℕ) → 4 ≤ k → k ≤ 10 → (2 ≤ by_score score k / 2) × (by_score score k / 2 ≤ 5)
unfolding by_score
by_score_bounds score k lo hi = (ground (arith, lo, hi), ground (arith, lo, hi))

-- The priority of a type, raised by a keyword, in halves
abbrev keyed : (String → String → Bool) → Option Preferences → NotificationData → ℕ
keyed contains preferences n =
    if has_keyword contains n.content (or_default preferences).priority_keywords
    then min 10 (type_priority n + 2)
    else type_priority n

keyed_whole :
    (contains : String → String → Bool) (preferences : Option Preferences) (n : NotificationData)
    → (k : ℕ) × (keyed contains preferences n ≡ k * 2) × (2 ≤ k) × (k ≤ 5)
unfolding type_priority
keyed_whole contains preferences n =
    (keyed contains preferences n / 2, ground arith, ground arith, ground arith)

-- A priority is at least 2 and at most 5, and a score below 0.9 leaves it as it is without a score:
-- the half point for scores from 0.7 on is cut off.
pub calculate_notification_priority_bounds :
    (contains : String → String → Bool) (preferences : Option Preferences) (n : NotificationData)
    → let p = calculate_notification_priority contains preferences in
      (2 ≤ p n) × (p n ≤ 5) × (n.match_score < 900 → p n ≡ p (record n { match_score = 0 }))
unfolding calculate_notification_priority
calculate_notification_priority_bounds contains preferences n =
    let (k, e, lo, hi) = keyed_whole contains preferences n in
    let first = keyed contains preferences n in
    let bounds =
      by_score_bounds n.match_score first (omega (arith, e, lo)) (omega (arith, e, hi)) in
    let whole = λ (score : ℕ) (h : score < 900).
      ap (λ x. by_score score x / 2) e
      ∙ by_score_halves k score (omega (arith, lo)) (omega (arith, hi)) h in
    (bounds.0, bounds.1, λ h. whole n.match_score h ∙ sym (whole 0 (omega arith)))

-- While the preferences have no category "new_announcement", which is how the matching of new
-- announcements calls it, switching categories on or off never changes whether one is sent.
pub should_send_notification_category :
    (zones : Zones) (p : Preferences) (other : Dict String Bool) (now sent duplicates : ℕ)
    → Dict.has p.categories "new_announcement" ≡ false
    → Dict.has other "new_announcement" ≡ false
    → should_send_notification zones (some p) "new_announcement" now sent duplicates
      ≡ should_send_notification zones
          (some (record p { categories = other }))
          "new_announcement"
          now
          sent
          duplicates
unfolding should_send_notification check_quiet_hours check_daily_limit
should_send_notification_category zones p other now sent duplicates h o =
    rw (get_or_absent p.categories "new_announcement" true h, should_send_notification)
      (rw (get_or_absent other "new_announcement" true o))
