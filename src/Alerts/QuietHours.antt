-- ===== src/Alerts/QuietHours.antt =====
-- The time that app/domains/alerts/frequency_manager.py finds for a notification, against the quiet hours.
use korea_public_data_be.Base.{
  ℕ, ◌+◌, ◌-◌, ◌≤◌, ◌<◌, Bool, true, false, Option, none, some, inl, inr, leb, ◌≡◌, refl, sym,
  subst, ap, ◌∙◌, arith, Bool-cases, Option-cases,
}
use korea_public_data_be.Alerts.Defs.{
  Preferences, hour_of, at_hour, is_quiet, Zones, check_quiet_hours, next_send, in_zone,
  get_optimal_send_time,
}

-- The hours are hours of a day, as the model's bounds say.
abbrev pub HasHours : Preferences → Type 0
HasHours p = (p.quiet_hours_start ≤ 23) × (p.quiet_hours_end ≤ 23)

-- From a quiet local time on it stays quiet until the time that is found, which is not quiet.
next_send-after :
    (zones : Zones) (p : Preferences) (t : ℕ)
    → HasHours p
    → is_quiet p (hour_of t) ≡ true
    → t < next_send zones p t
unfolding next_send at_hour hour_of is_quiet
next_send-after zones p t h q = ground (arith, h.0, h.1, q)

next_send-loud :
    (zones : Zones) (p : Preferences) (t : ℕ)
    → HasHours p
    → is_quiet p (hour_of t) ≡ true
    → is_quiet p (hour_of (next_send zones p t)) ≡ false
unfolding next_send at_hour hour_of is_quiet
next_send-loud zones p t h q = ground (arith, h.0, h.1, q)

next_send-quiet :
    (zones : Zones) (p : Preferences) (t u : ℕ)
    → HasHours p
    → is_quiet p (hour_of t) ≡ true
    → t ≤ u
    → u < next_send zones p t
    → is_quiet p (hour_of u) ≡ true
unfolding next_send at_hour hour_of is_quiet
next_send-quiet zones p t u h q lo hi = ground (arith, h.0, h.1, q, lo, hi)

-- The offset of the zone does not change from the one instant to the other.
abbrev pub IsSteady : (ℕ → ℕ) → ℕ → ℕ → Type 0
IsSteady ahead base s = (t : ℕ) → base ≤ t → t ≤ s → ahead t ≡ ahead base

-- Not before the time that was asked for, not quiet, and the first such time.
abbrev pub IsFirstLoud : (ℕ → Bool) → ℕ → ℕ → Type 0
IsFirstLoud quiet base s =
    (base ≤ s) × (quiet s ≡ false) × ((t : ℕ) → base ≤ t → t < s → quiet t ≡ true)

stays : (quiet : ℕ → Bool) (base : ℕ) → quiet base ≡ false → IsFirstLoud quiet base base
stays quiet base h = (omega arith, h, λ t lo hi. absurd (omega (arith, lo, hi)))

IsFirstLoud-same :
    (q q' : ℕ → Bool) (base s : ℕ)
    → ((t : ℕ) → q t ≡ q' t)
    → IsFirstLoud q' base s
    → IsFirstLoud q base s
IsFirstLoud-same q q' base s same (after, loud, quiet) =
    (after, same s ∙ loud, λ t lo hi. same t ∙ quiet t lo hi)

in_zone-IsFirstLoud :
    (zones : Zones) (p : Preferences) (base : ℕ) (ahead : ℕ → ℕ)
    → HasHours p
    → IsSteady ahead base (in_zone zones p base ahead)
    → IsFirstLoud (λ t. is_quiet p (hour_of (t + ahead t))) base (in_zone zones p base ahead)
unfolding in_zone
in_zone-IsFirstLoud zones p base ahead h steady =
    let quiet = λ (t : ℕ). is_quiet p (hour_of (t + ahead t)) in
    elim (Bool-cases (is_quiet p (hour_of (base + ahead base)))) [
      | inr loud ↦ rw loud (stays quiet base loud)
      | inl q ↦
          let s = next_send zones p (base + ahead base) in
          let later = next_send-after zones p (base + ahead base) h q in
          let valid : leb p.quiet_hours_end 23 ≡ true = ground (arith, h.1) in
          let sent : in_zone zones p base ahead ≡ s - ahead base =
            rw (q, in_zone) (rw valid refl) in
          let steady_so = λ (t : ℕ) (lo : base ≤ t) (hi : t ≤ s - ahead base).
            steady t lo (subst (λ x. t ≤ x) (sym sent) hi) in
          let there : (s - ahead base) + ahead (s - ahead base) ≡ s =
            omega (arith, later, steady_so (s - ahead base) (omega (arith, later)) (omega arith)) in
          rw q (
            rw valid (
              omega (arith, later),
              ap (λ t. is_quiet p (hour_of t)) there
                  ∙ next_send-loud zones p (base + ahead base) h q,
              λ t lo hi.
                  ap (λ x. is_quiet p (hour_of (t + x))) (steady_so t lo (omega (arith, hi)))
                  ∙ next_send-quiet zones p (base + ahead base) (t + ahead base) h q
                      (omega (arith, lo)) (omega (arith, hi, later)),
            ))
    ]

-- Where the preferences have hours of a day, and the offset of their zone does not change from the time
-- asked for to the time found, get_optimal_send_time gives the first time, from the one asked for on, at
-- which the check for quiet hours lets notifications through.
pub get_optimal_send_time-IsFirstLoud :
    (zones : Zones) (preferences : Option Preferences) (base : ℕ)
    → ((p : Preferences) → preferences ≡ some p → HasHours p)
    → ((p : Preferences) (ahead : ℕ → ℕ)
        → preferences ≡ some p
        → zones p.quiet_hours_timezone ≡ some ahead
        → IsSteady ahead base (get_optimal_send_time zones preferences base))
    → IsFirstLoud
        (check_quiet_hours zones preferences)
        base
        (get_optimal_send_time zones preferences base)
unfolding get_optimal_send_time check_quiet_hours
get_optimal_send_time-IsFirstLoud zones none base h steady = stays (λ t. false) base refl
get_optimal_send_time-IsFirstLoud zones (some p) base h steady =
    elim (Bool-cases p.quiet_hours_enabled) [
      | inr off ↦ rw off (stays (λ t. false) base refl)
      | inl on ↦ elim (Option-cases (zones p.quiet_hours_timezone)) [
        | inl unknown ↦ rw on (rw unknown (stays (λ t. false) base refl))
        | inr (ahead, known) ↦
            let found : get_optimal_send_time zones (some p) base ≡ in_zone zones p base ahead =
              rw (on, get_optimal_send_time) (rw known) in
            subst (IsFirstLoud (check_quiet_hours zones (some p)) base) (sym found) (
              IsFirstLoud-same (check_quiet_hours zones (some p))
                (λ t. is_quiet p (hour_of (t + ahead t))) base (in_zone zones p base ahead)
                (λ t. rw (on, check_quiet_hours) (rw known))
                (in_zone-IsFirstLoud zones p base ahead (h p refl)
                  (subst (IsSteady ahead base) found (steady p ahead refl known))))
      ]
    ]
