-- ===== src/Tests/Listeners.antt =====
-- Runs of the listener, the cursors and the schedules.
use taillight.Base.{
  ◌↔◌, All, Bool, List, [], arith, codes, false, inr, ltb, map, none, pos, refl, select, some,
  text_eq, true, ℕ, if◌then◌else◌, ◌*◌, ◌+◌, ◌++◌, ◌/◌, ◌∷◌, ◌≡◌,
}
use taillight.Model.Cursor.{Cursor, encode, decode_cursor, decode_cursor-encode}
use taillight.Base.ParseInt.{parse_int}
use taillight.Model.Unicode.{ascii}
use taillight.Model.Filter.{SrvlogFilter}
use taillight.Model.Query.{
  Query, Parsers, parse_str, parse_ip, parse_bounded_int, parse_rfc3339, result,
  parse_srvlog_filter,
}
use taillight.Model.Query.Meaning.{Means, parse_srvlog_filter_accepts}
use taillight.Listener.{
  Listener, Database, Attempt, connected, reconnect, reconnect_from, next_backoff,
  fill_gap_for_channel, last_seen_id_for_channel,
}
use taillight.Listener.Backoff.{IsWait, reconnect_ends}
use taillight.Schedule.{
  AnalysisSchedule, Calendar, TickInput, schedule_period, tick_schedule, run_schedule,
  analysis_is_due, due_day, rested, scheduled_report, scheduled_period_end, scheduled_time,
  analysis_mode_for_frequency,
}
use taillight.Schedule.Spacing.{firings, Spaced, OnTime, firings-Spaced}
use taillight.Listener.Gap.{page, notification_of, fill_gap_catches_up}

abbrev page_two : Cursor
page_two = record { received_at = pos 1700000000123456789; id = pos 42 }

decode_cursor-encode_example : decode_cursor (encode page_two) ≡ some page_two
decode_cursor-encode_example = decode_cursor-encode page_two (omega arith) (omega arith)

abbrev failed : ℕ → Attempt
failed random = record { cancelled = false; connects = false; random = random }

abbrev rounds : List Attempt
rounds =
    failed 0
    ∷ failed 7
    ∷ failed 900000000
    ∷ failed 0
    ∷ failed 0
    ∷ failed 14999999999
    ∷ record { cancelled = false; connects = true; random = 0 }
    ∷ []

reconnect_ends_example : All IsWait (reconnect rounds).0 × ((reconnect rounds).1 ≡ connected)
reconnect_ends_example = reconnect_ends rounds

-- The last wait is longer than reconnect_max_backoff.
long_wait :
    (reconnect rounds).0
    ≡ 1000000000 ∷ 2000000000 ∷ 4000000007 ∷ 8900000014 ∷ 17800000028 ∷ 30000000000 ∷ 44999999999
      ∷ []
unfolding reconnect reconnect_from next_backoff
long_wait = refl

abbrev table : List ℕ
table = 3 ∷ 5 ∷ 8 ∷ 9 ∷ []

abbrev seen_five : Listener
seen_five = record {
  channels = codes "netlog_ingest" ∷ [];
  last_seen_srvlog_id = pos 0;
  last_seen_netlog_id = pos 5;
  sent = [];
  parse_errors = 0;
  truncated = 0;
}

abbrev store : Database
store = record {
  rows_above =
      λ t i. some (page 5 (if text_eq t (codes "netlog_events") then table else 1 ∷ 2 ∷ 6 ∷ []));
  rows_err = λ t. false;
}

fill_gap_catches_up_example :
    let l1 = fill_gap_for_channel store (codes "netlog_ingest") seen_five in
    (l1.sent ≡ [] ++ map (notification_of (codes "netlog_ingest")) (8 ∷ 9 ∷ []))
    × (l1.truncated ≡ 0)
    × ((last : ℕ) × (last_seen_id_for_channel (codes "netlog_ingest") l1 ≡ pos last)
        × (select (ltb last) table ≡ []))
unfolding last_seen_id_for_channel text_eq
fill_gap_catches_up_example =
    fill_gap_catches_up store (codes "netlog_ingest") table 4 seen_five (inr (refl, refl)) refl
      (omega arith, (omega arith, (omega arith, (omega arith, tt)))) (omega arith)

-- Days of 24 hours from the epoch, with a clock that is always 06:00.
abbrev utc : Calendar
utc = record {
  in_zone = λ zone now. some (record {
    weekday = 4;
    day = 1;
    hour = 6;
    minute = 0;
    date_at = λ h m. now / 86400000000000 * 86400000000000 + (h * 60 + m) * 60000000000;
  });
  parse_clock = λ s. some (6, 0);
}

abbrev nightly : AnalysisSchedule
nightly = record {
  id = 1;
  name = codes "nightly";
  enabled = true;
  feed = codes "srvlog";
  frequency = codes "daily";
  day_of_week = none;
  day_of_month = none;
  time_of_day = codes "06:00";
  timezone = codes "UTC";
  notify_channel_ids = [];
  last_run_at = none;
}

-- A tick at so many seconds after 06:00 of a day.
abbrev tick_at : ℕ → ℕ → Bool → TickInput
tick_at day seconds enqueued =
    let now = day * 86400000000000 + 21600000000000 + seconds * 1000000000 in
    record {
      checked = now;
      planned = now;
      finished = now + 1;
      enqueued = enqueued;
      recorded = true;
    }

abbrev two_days : List TickInput
two_days = tick_at 9 30 false ∷ tick_at 9 90 true ∷ tick_at 9 150 true ∷ tick_at 10 20 true ∷ []

firings-Spaced_example :
    Spaced (schedule_period nightly.frequency / 2) none (firings utc two_days nightly)
    × All (OnTime utc nightly) (firings utc two_days nightly)
firings-Spaced_example = firings-Spaced utc two_days nightly (refl, (refl, (refl, (refl, tt))))

-- The first tick's enqueue fails, the second fires, the third is too early, the fourth is a day later.
two_fired : firings utc two_days nightly ≡ tick_at 9 90 true ∷ tick_at 10 20 true ∷ []
unfolding tick_schedule run_schedule analysis_is_due due_day rested schedule_period scheduled_report
    scheduled_period_end scheduled_time analysis_mode_for_frequency text_eq
two_fired = refl

abbrev severe_query : Query
severe_query key =
    if text_eq key (codes "hostname")
    then codes "sw-oslo-*"
    else if text_eq key (codes "severity_max")
    then codes "3"
    else if text_eq key (codes "search")
    then codes "Link"
    else []

abbrev no_parsers : Parsers
no_parsers = record { parse_addr = λ s. none; parse_time = λ s. none }

abbrev severe : SrvlogFilter
severe = record {
  hostname = codes "sw-oslo-*";
  fromhost_ip = [];
  programname = [];
  severity = none;
  severity_max = some (pos 3);
  facility = none;
  syslog_tag = [];
  msg_id = [];
  search = codes "Link";
  start = none;
  stop = none;
  search_lower = codes "link";
}

parse_srvlog_filter_accepts_example :
    (parse_srvlog_filter ascii no_parsers severe_query ≡ inr severe)
    ↔ Means no_parsers ascii severe_query severe
parse_srvlog_filter_accepts_example =
    parse_srvlog_filter_accepts ascii no_parsers severe_query severe

severe_accepted : parse_srvlog_filter ascii no_parsers severe_query ≡ inr severe
unfolding parse_srvlog_filter parse_str parse_ip parse_bounded_int parse_rfc3339 result parse_int
    text_eq ascii
severe_accepted = refl
