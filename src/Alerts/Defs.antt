-- ===== src/Alerts/Defs.antt =====
-- NotificationFrequencyManager of app/domains/alerts/frequency_manager.py, with the checks of
-- AlertsRepository in app/domains/alerts/repository.py. Instants are whole microseconds, a score is in
-- thousandths and a priority in halves.
use korea_public_data_be.Base.{
  ℕ, ◌+◌, ◌-◌, ◌*◌, ◌/◌, ◌%◌, min, Bool, true, false, not, ◌&&◌, ◌||◌, ◌⊎◌, inl, inr, Option, none,
  some, String, List, [], ◌∷◌, ltb, leb, ◌==◌, string_eq, if◌then◌else◌, format,
}
use korea_public_data_be.Dict
use korea_public_data_be.Dict.{Dict}

-- The fields of NotificationPreference that are read here. `categories` has its Boolean fields.
pub record Preferences : Type 0 where
  pub categories : Dict String Bool
  pub max_daily_notifications : ℕ
  pub deadline_reminder_days : List ℕ
  pub digest_frequency : String
  pub quiet_hours_enabled : Bool
  pub quiet_hours_start : ℕ
  pub quiet_hours_end : ℕ
  pub quiet_hours_timezone : String
  pub priority_keywords : List String

-- get_default_preferences: the defaults of NotificationPreference
abbrev pub default_preferences : Preferences
default_preferences = record {
  categories =
      ("new_announcements", true)
      ∷ ("deadline_reminders", true)
      ∷ ("digest_notifications", true)
      ∷ ("system_notifications", true)
      ∷ ("marketing_notifications", false)
      ∷ [];
  max_daily_notifications = 10;
  deadline_reminder_days = 7 ∷ 3 ∷ 1 ∷ [];
  digest_frequency = "daily";
  quiet_hours_enabled = false;
  quiet_hours_start = 22;
  quiet_hours_end = 7;
  quiet_hours_timezone = "Asia/Seoul";
  priority_keywords = [];
}

abbrev pub hour : ℕ
hour = 3600000000

abbrev pub day : ℕ
day = 86400000000

-- The hour of the day of a local time
unfoldable pub hour_of : ℕ → ℕ
hour_of t = t % 86400000000 / 3600000000

-- local_time.replace(hour=h, minute=0, second=0, microsecond=0)
unfoldable pub at_hour : ℕ → ℕ → ℕ
at_hour t h = t - t % 86400000000 + h * 3600000000

unfoldable pub is_quiet : Preferences → ℕ → Bool
is_quiet p h =
    if ltb p.quiet_hours_end p.quiet_hours_start
    then leb p.quiet_hours_start h || ltb h p.quiet_hours_end
    else leb p.quiet_hours_start h && ltb h p.quiet_hours_end

-- The user's own preferences, or the defaults
abbrev pub or_default : Option Preferences → Preferences
or_default none = default_preferences
or_default (some p) = p

-- How far local time is ahead of UTC at an instant, counted from a day behind, so that it is not
-- negative; none for a zone that pytz does not know.
abbrev pub Zones : Type 0
Zones = String → Option (ℕ → ℕ)

module _ (zones : Zones) where
  -- AlertsRepository.check_quiet_hours at an instant; an exception is answered with False.
  unfoldable pub check_quiet_hours : Option Preferences → ℕ → Bool
  unfolding is_quiet hour_of
  check_quiet_hours none now = false
  check_quiet_hours (some p) now =
      if p.quiet_hours_enabled
      then elim (zones p.quiet_hours_timezone) [
        | none ↦ false
        | some ahead ↦ is_quiet p (hour_of (now + ahead now))
      ]
      else false

  -- The end of the quiet hours after a local time in them
  unfoldable pub next_send : Preferences → ℕ → ℕ
  unfolding at_hour hour_of
  next_send p t =
      if ltb p.quiet_hours_end p.quiet_hours_start && leb p.quiet_hours_start (hour_of t)
      then at_hour t p.quiet_hours_end + day
      else at_hour t p.quiet_hours_end

  -- An hour that `replace` does not take raises, and the answer is the time that was asked for.
  unfoldable pub in_zone : Preferences → ℕ → (ℕ → ℕ) → ℕ
  unfolding is_quiet hour_of next_send
  in_zone p base ahead =
      let t = base + ahead base in
      if is_quiet p (hour_of t) && leb p.quiet_hours_end 23
      then next_send p t - ahead base
      else base

  unfoldable pub get_optimal_send_time : Option Preferences → ℕ → ℕ
  unfolding in_zone
  get_optimal_send_time preferences base =
      let p = or_default preferences in
      if p.quiet_hours_enabled
      then elim (zones p.quiet_hours_timezone) [ none ↦ base | some ahead ↦ in_zone p base ahead ]
      else base

  -- AlertsRepository.check_daily_limit
  unfoldable pub check_daily_limit : Option Preferences → ℕ → Bool
  check_daily_limit none sent = ltb sent 10
  check_daily_limit (some p) sent = ltb sent p.max_daily_notifications

  -- With what is in the database: the notifications sent today, and those of the last day for the
  -- content. A reason is on the left, permission on the right.
  unfoldable pub should_send_notification :
      Option Preferences → String → ℕ → ℕ → ℕ → String ⊎ String
  unfolding check_quiet_hours check_daily_limit
  should_send_notification preferences category now sent duplicates =
      if not (Dict.get_or (or_default preferences).categories category true)
      then inl (format ("Category " ∷ category ∷ " disabled" ∷ []))
      else if check_quiet_hours preferences now
      then inl "Quiet hours active"
      else if not (check_daily_limit preferences sent)
      then inl "Daily limit reached"
      else if ltb 0 duplicates
      then inl "Duplicate notification"
      else inr "Allowed"

-- The digest: its frequency and, for those that need one, its day
unfoldable pub get_digest_schedule : Option Preferences → Option (String × Option ℕ)
get_digest_schedule preferences =
    let f = (or_default preferences).digest_frequency in
    if f == "off"
    then none
    else if f == "daily"
    then some (f, none)
    else if f == "weekly"
    then some (f, some 0)
    else if f == "monthly"
    then some (f, some 1)
    else none

-- The reminders that are still to come
unfoldable pub upcoming : ℕ → ℕ → List ℕ → List ℕ
upcoming now deadline [] = []
upcoming now deadline (d ∷ ds) =
    let rest = upcoming now deadline ds in
    if ltb (now + d * 86400000000) deadline then (deadline - d * 86400000000) ∷ rest else rest

-- sorted
unfoldable pub insert : ℕ → List ℕ → List ℕ
insert x [] = x ∷ []
insert x (y ∷ ys) = if leb x y then x ∷ y ∷ ys else y ∷ insert x ys

unfoldable pub sort : List ℕ → List ℕ
unfolding insert
sort [] = []
sort (x ∷ xs) = insert x (sort xs)

unfoldable pub get_deadline_reminder_schedule : Option Preferences → ℕ → ℕ → List ℕ
unfolding upcoming sort
get_deadline_reminder_schedule preferences now deadline =
    sort (upcoming now deadline (or_default preferences).deadline_reminder_days)

pub record NotificationData : Type 0 where
  pub type_of : String
  pub days_left : ℕ
  pub content : String
  pub match_score : ℕ

-- The priorities below are in halves: 6 is 3.
unfoldable pub type_priority : NotificationData → ℕ
type_priority n =
    if n.type_of == "deadline_reminder"
    then (if leb n.days_left 1 then 10 else if leb n.days_left 3 then 8 else 6)
    else if n.type_of == "system_notification"
    then 8
    else if n.type_of == "marketing_notification"
    then 4
    else 6

-- `contains` is Python's `in` on the texts in lower case.
unfoldable pub has_keyword : (String → String → Bool) → String → List String → Bool
has_keyword contains content [] = false
has_keyword contains content (k ∷ ks) =
    if contains k content then true else has_keyword contains content ks

unfoldable pub by_score : ℕ → ℕ → ℕ
by_score score priority =
    if leb 900 score
    then min 10 (priority + 2)
    else if leb 700 score
    then min 10 (priority + 1)
    else priority

unfoldable pub calculate_notification_priority :
    (String → String → Bool) → Option Preferences → NotificationData → ℕ
unfolding type_priority has_keyword by_score
calculate_notification_priority contains preferences n =
    let first = type_priority n in
    let keyed =
      if has_keyword contains n.content (or_default preferences).priority_keywords
      then min 10 (first + 2)
      else first in
    by_score n.match_score keyed / 2
