-- ===== src/Schedule/Spacing.antt =====
-- The firings of a schedule over its ticks (api/internal/scheduler/analysis.go).
use taillight.Base.{
  ℕ, ◌+◌, ◌/◌, ◌≤◌, ◌≡◌, refl, sym, Bool, true, false, not, if◌then◌else◌, Text, List, [], ◌∷◌,
  Option, none, some, All, subst, arith, Option-cases, inl, inr,
}
use taillight.Schedule.{
  AnalysisSchedule, Calendar, ReportRequest, TickInput, tick_schedule, run_schedule,
  analysis_is_due, scheduled_report, scheduled_time, schedule_period, rested,
  analysis_firing_window,
}

abbrev pub fired_or : Option ReportRequest → TickInput → List TickInput → List TickInput
fired_or none t later = later
fired_or (some r) t later = t ∷ later

-- The ticks at which a report was enqueued.
abbrev pub firings : Calendar → List TickInput → AnalysisSchedule → List TickInput
firings cal [] s = []
firings cal (t ∷ ticks) s =
    let out = tick_schedule cal t s in fired_or out.1 t (firings cal ticks out.0)

-- Each is checked at least `half` after the one before has finished, the first after `last`.
abbrev pub Spaced : ℕ → Option ℕ → List TickInput → Type 0
Spaced half last [] = Unit
Spaced half none (t ∷ ticks) = Spaced half (some t.finished) ticks
Spaced half (some last) (t ∷ ticks) =
    (last + half ≤ t.checked) × Spaced half (some t.finished) ticks

-- Within the window after the scheduled time of its day.
abbrev pub OnTime : Calendar → AnalysisSchedule → TickInput → Type 0
OnTime cal s t =
    (at : ℕ) × (scheduled_time cal s.timezone s.time_of_day t.checked ≡ some at)
    × (at ≤ t.checked)
    × (t.checked ≤ at + analysis_firing_window)

-- What a due schedule has.
IsReady : Calendar → AnalysisSchedule → TickInput → Type 0
IsReady cal s t = OnTime cal s t × (rested s.frequency s.last_run_at t.checked ≡ true)

due-IsReady :
    (cal : Calendar) (s : AnalysisSchedule) (t : TickInput)
    → analysis_is_due cal s t.checked ≡ true
    → IsReady cal s t
unfolding analysis_is_due scheduled_time IsReady
due-IsReady cal s t due = elim (Option-cases (cal.in_zone s.timezone t.checked)) [
  | inl no_zone ↦ ground arith
  | inr (l, zone) ↦ elim (Option-cases (cal.parse_clock s.time_of_day)) [
    | inl no_clock ↦ ground arith
    | inr (clock, parsed) ↦ (
      (
        l.date_at clock.0 clock.1,
        rw (zone, parsed, scheduled_time) refl,
        ground arith,
        ground arith,
      ),
      ground arith,
    )
  ]
]

-- A tick fires a due schedule or leaves it as it was.
Ticked : Calendar → AnalysisSchedule → TickInput → AnalysisSchedule × Option ReportRequest → Type 0
Ticked cal s t (s1, none) = s1 ≡ s
Ticked cal s t (s1, some r) = (s1 ≡ record s { last_run_at = some t.finished }) × IsReady cal s t

if-Ticked :
    (cal : Calendar) (s : AnalysisSchedule) (t : TickInput) (b : Bool)
    (x y : AnalysisSchedule × Option ReportRequest)
    → (b ≡ true → Ticked cal s t x)
    → (b ≡ false → Ticked cal s t y)
    → Ticked cal s t (if b then x else y)
if-Ticked cal s t true x y f g = f refl
if-Ticked cal s t false x y f g = g refl

run_schedule-Ticked :
    (cal : Calendar) (s : AnalysisSchedule) (t : TickInput)
    → t.recorded ≡ true
    → IsReady cal s t
    → Ticked cal s t (run_schedule cal t s)
unfolding run_schedule Ticked
run_schedule-Ticked cal s t kept ready = elim (Option-cases (scheduled_report cal s t.planned)) [
  | inl no_report ↦ rw (no_report, run_schedule) refl
  | inr (request, planned) ↦
      let fired : AnalysisSchedule × Option ReportRequest =
        (record s { last_run_at = some t.finished }, some request) in
      rw (planned, run_schedule)
        (if-Ticked cal s t (not t.enqueued) (s, none)
          (if t.recorded then fired else (s, some request)) (λ e. refl)
          (λ e.
            if-Ticked cal s t t.recorded fired (s, some request) (λ e. (refl, ready)) (λ lost. cc)))
]

tick_schedule-Ticked :
    (cal : Calendar) (s : AnalysisSchedule) (t : TickInput)
    → t.recorded ≡ true
    → Ticked cal s t (tick_schedule cal t s)
unfolding tick_schedule
tick_schedule-Ticked cal s t kept =
    if-Ticked cal s t (not s.enabled) (s, none)
      (if not (analysis_is_due cal s t.checked) then (s, none) else run_schedule cal t s)
      (λ e. unfold Ticked in refl)
      (λ e.
        if-Ticked cal s t (not (analysis_is_due cal s t.checked)) (s, none) (run_schedule cal t s)
          (λ e. unfold Ticked in refl)
          (λ due. run_schedule-Ticked cal s t kept (due-IsReady cal s t (ground arith))))

Spaced-cons :
    (frequency : Text) (last : Option ℕ) (t : TickInput) (ticks : List TickInput)
    → rested frequency last t.checked ≡ true
    → Spaced (schedule_period frequency / 2) (some t.finished) ticks
    → Spaced (schedule_period frequency / 2) last (t ∷ ticks)
unfolding rested
Spaced-cons frequency none t ticks ok rest = rest
Spaced-cons frequency (some last) t ticks ok rest = (ground arith, rest)

-- The firings from a tick with this outcome on.
abbrev firings_by :
    Calendar → TickInput → List TickInput → AnalysisSchedule × Option ReportRequest → List TickInput
firings_by cal t ticks out = fired_or out.1 t (firings cal ticks out.0)

abbrev FiresWell : Calendar → AnalysisSchedule → List TickInput → Type 0
FiresWell cal s ticks =
    Spaced (schedule_period s.frequency / 2) s.last_run_at ticks × All (OnTime cal s) ticks

firings_by-FiresWell :
    (cal : Calendar) (s : AnalysisSchedule) (t : TickInput) (ticks : List TickInput)
    (out : AnalysisSchedule × Option ReportRequest)
    → Ticked cal s t out
    → ((s1 : AnalysisSchedule) → FiresWell cal s1 (firings cal ticks s1))
    → FiresWell cal s (firings_by cal t ticks out)
unfolding Ticked IsReady
firings_by-FiresWell cal s t ticks (s1, none) same ih =
    subst (λ x. FiresWell cal s (firings cal ticks x)) (sym same) (ih s)
firings_by-FiresWell cal s t ticks (s1, some r) (kept, (on_time, ok)) ih =
    let s2 : AnalysisSchedule = record s { last_run_at = some t.finished } in
    let (spaced, others) = ih s2 in
    subst (λ x. FiresWell cal s (t ∷ firings cal ticks x)) (sym kept)
      (Spaced-cons s.frequency s.last_run_at t (firings cal ticks s2) ok spaced, (on_time, others))

-- Let the store record every run that it is told of. Then, over any ticks, each firing of an analysis
-- schedule is checked at least half a period after the one before it finished, the first after the
-- stored last run, and no later than five minutes after the scheduled time of its day, nor before it.
pub firings-Spaced :
    (cal : Calendar) (ticks : List TickInput) (s : AnalysisSchedule)
    → All (λ t. t.recorded ≡ true) ticks
    → Spaced (schedule_period s.frequency / 2) s.last_run_at (firings cal ticks s)
      × All (OnTime cal s) (firings cal ticks s)
firings-Spaced cal [] s kept = (tt, tt)
firings-Spaced cal (t ∷ ticks) s (here, kept) =
    firings_by-FiresWell cal s t ticks (tick_schedule cal t s) (tick_schedule-Ticked cal s t here)
      (λ s1. firings-Spaced cal ticks s1 kept)
