-- ===== src/Alerts/Tests.antt =====
-- Notifications by the rules of app/domains/alerts; the theorems applied.
use korea_public_data_be.Base.{
  ◌≤◌, ℕ, ◌+◌, ◌*◌, true, Option, none, some, [], ◌∷◌, ◌≡◌, refl, ltb, arith, count, nat_eq,
  if◌then◌else◌, string_eq, ap, subst,
}
use korea_public_data_be.Alerts.Defs.{
  Preferences, default_preferences, hour, day, hour_of, at_hour, is_quiet, Zones, check_quiet_hours,
  next_send, in_zone, get_optimal_send_time, NotificationData, get_deadline_reminder_schedule,
}
use korea_public_data_be.Alerts.QuietHours.{
  HasHours, IsSteady, IsFirstLoud, get_optimal_send_time-IsFirstLoud,
}
use korea_public_data_be.Alerts.Reminders.{
  IsAscending, falls_on, get_deadline_reminder_schedule-IsAscending,
}

-- Nine hours ahead of UTC, with a day more
abbrev seoul : Zones
seoul z = some (λ t. day + 9 * hour)

abbrev night : Preferences
night = record default_preferences { quiet_hours_enabled = true }

-- At 15 o'clock UTC it is midnight in Seoul, and 22 o'clock UTC is 7 o'clock there.
midnight : get_optimal_send_time seoul (some night) (15 * hour) ≡ 22 * hour
unfolding get_optimal_send_time in_zone is_quiet hour_of next_send at_hour
midnight = refl

-- One hour ahead of UTC, and two from the ninetieth day on
abbrev berlin : Zones
berlin z = some (λ t. if ltb t (90 * day) then day + hour else day + 2 * hour)

morning : get_optimal_send_time berlin (some night) (22 * hour) ≡ 30 * hour
unfolding get_optimal_send_time in_zone is_quiet hour_of next_send at_hour
morning = refl

-- Two hours ahead of UTC, and one from 2 o'clock of the second day on: what is found has the old offset, and
-- is 6 o'clock by the new one.
abbrev autumn : Zones
autumn z = some (λ t. if ltb t (26 * hour) then day + 2 * hour else day + hour)

too_early :
    check_quiet_hours autumn (some night) (get_optimal_send_time autumn (some night) (22 * hour))
    ≡ true
unfolding get_optimal_send_time in_zone is_quiet hour_of next_send at_hour check_quiet_hours
too_early = refl

berlin-IsSteady :
    (p : Preferences) (ahead : ℕ → ℕ)
    → ◌≡◌ {A = Option Preferences} (some night) (some p)
    → berlin p.quiet_hours_timezone ≡ some ahead
    → IsSteady ahead (22 * hour) (get_optimal_send_time berlin (some night) (22 * hour))
berlin-IsSteady p ahead _ e =
    subst (λ f. IsSteady f (22 * hour) (get_optimal_send_time berlin (some night) (22 * hour)))
      (ap (λ o. elim o [ none ↦ (λ t. 0) | some f ↦ f ]) e)
      (λ t lo hi. ground (arith, subst (λ x. t ≤ x) morning hi))

night-HasHours : (p : Preferences) → ◌≡◌ {A = Option Preferences} (some night) (some p) → HasHours p
night-HasHours p e =
    subst HasHours (ap (λ o. elim o [ none ↦ night | some q ↦ q ]) e) (omega arith, omega arith)

get_optimal_send_time-IsFirstLoud_example :
    IsFirstLoud
      (check_quiet_hours berlin (some night))
      (22 * hour)
      (get_optimal_send_time berlin (some night) (22 * hour))
get_optimal_send_time-IsFirstLoud_example =
    get_optimal_send_time-IsFirstLoud berlin (some night) (22 * hour) night-HasHours berlin-IsSteady

abbrev reminder : NotificationData
reminder = record {
  type_of = "deadline_reminder";
  days_left = 3;
  content = "support";
  match_score = 800;
}

get_deadline_reminder_schedule-IsAscending_example :
    let schedule = get_deadline_reminder_schedule none (2 * day) (7 * day) in
    IsAscending schedule
    × ((t : ℕ)
        → count t schedule ≡ (if ltb (2 * day) t then falls_on t (7 * day) (7 ∷ 3 ∷ 1 ∷ []) else 0))
get_deadline_reminder_schedule-IsAscending_example =
    get_deadline_reminder_schedule-IsAscending none (2 * day) (7 * day)
