-- ===== src/Schedule.antt =====
-- When schedules fire: api/internal/scheduler/analysis.go and summary.go, and
-- api/internal/model/schedule.go. The time zones and the clock notation are parameters, and so are
-- the readings of the clock and the answers of the queue and the store.
pub mod Spacing
use taillight.Base.{
  ℕ, ◌+◌, ◌*◌, ◌/◌, Bool, true, false, not, ◌&&◌, ◌||◌, if◌then◌else◌, ltb, leb, ◌==◌, ℤ, pos,
  sub_ℕ, eq_ℤ, Text, codes, text_eq, List, [], ◌∷◌, ◌++◌, Option, none, some,
}

abbrev pub hour_nanos : ℕ
hour_nanos = 3600 * 1000000000

-- SchedulePeriod
unfoldable pub schedule_period : Text → ℕ
unfolding text_eq
schedule_period frequency =
    if text_eq frequency (codes "weekly")
    then 7 * 24 * hour_nanos
    else if text_eq frequency (codes "monthly")
    then 30 * 24 * hour_nanos
    else 24 * hour_nanos

abbrev pub max_schedule_day_of_month : ℕ
max_schedule_day_of_month = 28

-- Five minutes.
abbrev pub analysis_firing_window : ℕ
analysis_firing_window = 5 * 60 * 1000000000

-- A time in a zone, with time.Date for its day at an hour and a minute.
pub record Local : Type 0 where
  pub weekday : ℕ
  pub day : ℕ
  pub hour : ℕ
  pub minute : ℕ
  pub date_at : ℕ → ℕ → ℕ

-- time.LoadLocation and In, and time.Parse of "15:04".
pub record Calendar : Type 0 where
  pub in_zone : Text → ℕ → Option Local
  pub parse_clock : Text → Option (ℕ × ℕ)

pub record AnalysisSchedule : Type 0 where
  pub id : ℕ
  pub name : Text
  pub enabled : Bool
  pub feed : Text
  pub frequency : Text
  pub day_of_week : Option ℤ
  pub day_of_month : Option ℤ
  pub time_of_day : Text
  pub timezone : Text
  pub notify_channel_ids : List ℕ
  pub last_run_at : Option ℕ

abbrev pub day_is : Option ℤ → ℕ → Bool
day_is none day = false
day_is (some wanted) day = eq_ℤ (pos day) wanted

-- The switch on the frequency.
unfoldable pub due_day : Text → Option ℤ → Option ℤ → Local → Bool
unfolding text_eq
due_day frequency day_of_week day_of_month l =
    if text_eq frequency (codes "weekly")
    then day_is day_of_week l.weekday
    else if text_eq frequency (codes "monthly")
    then day_is day_of_month l.day
    else true

-- The last run is at least half a period ago.
unfoldable pub rested : Text → Option ℕ → ℕ → Bool
rested frequency none now = true
rested frequency (some last) now = leb (last + schedule_period frequency / 2) now

-- The request of a firing; the period starts at the integer `period_start`.
pub record ReportRequest : Type 0 where
  pub feed : Text
  pub prompt_mode : Text
  pub period_start : ℤ
  pub period_end : ℕ
  pub notify_channel_ids : List ℕ

unfoldable pub analysis_mode_for_frequency : Text → Text
unfolding text_eq
analysis_mode_for_frequency frequency =
    if text_eq frequency (codes "weekly") || text_eq frequency (codes "monthly")
    then codes "weekly"
    else codes "daily"

module _ (cal : Calendar) where
  -- The scheduled time on the day of `now`.
  unfoldable pub scheduled_time : Text → Text → ℕ → Option ℕ
  scheduled_time timezone time_of_day now = elim (cal.in_zone timezone now) [
    | none ↦ none
    | some l ↦ elim (cal.parse_clock time_of_day) [
      | none ↦ none
      | some clock ↦ some (l.date_at clock.0 clock.1)
    ]
  ]

  -- isDue of the analysis scheduler.
  unfoldable pub analysis_is_due : AnalysisSchedule → ℕ → Bool
  unfolding due_day
  analysis_is_due s now = elim (cal.in_zone s.timezone now) [
    | none ↦ false
    | some l ↦ elim (cal.parse_clock s.time_of_day) [
      | none ↦ false
      | some clock ↦
          let scheduled = l.date_at clock.0 clock.1 in
          not (ltb now scheduled)
          && leb now (scheduled + analysis_firing_window)
          && due_day s.frequency s.day_of_week s.day_of_month l
          && rested s.frequency s.last_run_at now
    ]
  ]

  -- isDue of the summary scheduler, on the same fields.
  unfoldable pub summary_is_due : AnalysisSchedule → ℕ → Bool
  unfolding due_day
  summary_is_due s now = elim (cal.in_zone s.timezone now) [
    | none ↦ false
    | some l ↦ elim (cal.parse_clock s.time_of_day) [
      | none ↦ false
      | some clock ↦
          l.hour == clock.0
          && l.minute == clock.1
          && due_day s.frequency s.day_of_week s.day_of_month l
          && rested s.frequency s.last_run_at now
    ]
  ]

  -- scheduledPeriodEnd, truncated to the minute.
  unfoldable pub scheduled_period_end : AnalysisSchedule → ℕ → Option ℕ
  unfolding scheduled_time
  scheduled_period_end s now = elim (scheduled_time s.timezone s.time_of_day now) [
    | none ↦ none
    | some t ↦ some (t / 60000000000 * 60000000000)
  ]

  unfoldable pub scheduled_report : AnalysisSchedule → ℕ → Option ReportRequest
  unfolding scheduled_period_end analysis_mode_for_frequency schedule_period
  scheduled_report s now = elim (scheduled_period_end s now) [
    | none ↦ none
    | some period_end ↦ some (record {
      feed = s.feed;
      prompt_mode = analysis_mode_for_frequency s.frequency;
      period_start = sub_ℕ period_end (schedule_period s.frequency);
      period_end = period_end;
      notify_channel_ids = s.notify_channel_ids;
    })
  ]

-- What one tick meets for a schedule: the clock at the check, at the report and after the enqueue,
-- and whether the queue takes the report and the store records the run.
pub record TickInput : Type 0 where
  pub checked : ℕ
  pub planned : ℕ
  pub finished : ℕ
  pub enqueued : Bool
  pub recorded : Bool

module _ (cal : Calendar) where
  -- runSchedule: the schedule as the store has it afterwards, and the report if it is enqueued.
  unfoldable pub run_schedule :
      TickInput → AnalysisSchedule → AnalysisSchedule × Option ReportRequest
  run_schedule t s = elim (scheduled_report cal s t.planned) [
    | none ↦ (s, none)
    | some request ↦
        if not t.enqueued
        then (s, none)
        else if t.recorded
        then (record s { last_run_at = some t.finished }, some request)
        else (s, some request)
  ]

  -- The body of the loop of tick.
  unfoldable pub tick_schedule :
      TickInput → AnalysisSchedule → AnalysisSchedule × Option ReportRequest
  unfolding run_schedule
  tick_schedule t s =
      if not s.enabled
      then (s, none)
      else if not (analysis_is_due cal s t.checked)
      then (s, none)
      else run_schedule t s
