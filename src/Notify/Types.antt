-- ===== src/Notify/Types.antt =====
-- The types of api/internal/notification/notifier.go: channels, rules, payloads, send results and
-- log rows. A time.Duration is an integer of nanoseconds.
use taillight.Base.{ℕ, ℤ, pos, Bool, false, Text, codes, Option, none, List, []}
use taillight.Model.Event.{SrvlogEvent, NetlogEvent, AppLogEvent}

-- EventKind is a string type.
abbrev pub event_kind_srvlog : Text
event_kind_srvlog = codes "srvlog"

abbrev pub event_kind_netlog : Text
event_kind_netlog = codes "netlog"

abbrev pub event_kind_applog : Text
event_kind_applog = codes "applog"

abbrev pub event_kind_analysis : Text
event_kind_analysis = codes "analysis_report"

abbrev pub channel_type_slack : Text
channel_type_slack = codes "slack"

abbrev pub channel_type_webhook : Text
channel_type_webhook = codes "webhook"

abbrev pub channel_type_email : Text
channel_type_email = codes "email"

abbrev pub channel_type_ntfy : Text
channel_type_ntfy = codes "ntfy"

pub record Channel : Type 0 where
  pub id : ℕ
  pub name : Text
  pub channel_type : Text
  pub config : Text
  pub enabled : Bool
  pub created_at : ℕ
  pub updated_at : ℕ

pub record Rule : Type 0 where
  pub id : ℕ
  pub name : Text
  pub enabled : Bool
  pub event_kind : Text
  pub hostname : Text
  pub programname : Text
  pub severity : Option ℤ
  pub severity_max : Option ℤ
  pub facility : Option ℤ
  pub syslog_tag : Text
  pub msg_id : Text
  pub service : Text
  pub component : Text
  pub host : Text
  pub level : Text
  pub search : Text
  pub channel_ids : List ℕ
  pub group_by : Text
  pub silence_ms : ℤ
  pub silence_max_ms : ℤ
  pub coalesce_ms : ℤ
  pub created_at : ℕ
  pub updated_at : ℕ

-- A report is known here by its id and its slug.
pub record AnalysisReport : Type 0 where
  pub id : ℕ
  pub slug : Text

-- A summary is known here by its schedule's name.
pub record SummaryReport : Type 0 where
  pub schedule_name : Text

pub record Payload : Type 0 where
  pub kind : Text
  pub rule_name : Text
  pub timestamp : ℕ
  pub event_count : ℕ
  pub srvlog_event : Option SrvlogEvent
  pub netlog_event : Option NetlogEvent
  pub applog_event : Option AppLogEvent
  pub is_digest : Bool
  pub group_key : Text
  pub window : ℤ
  pub summary_report : Option SummaryReport
  pub analysis_report : Option AnalysisReport

-- The zero value `Payload{}`.
abbrev pub empty_payload : Payload
empty_payload = record {
  kind = [];
  rule_name = [];
  timestamp = 0;
  event_count = 0;
  srvlog_event = none;
  netlog_event = none;
  applog_event = none;
  is_digest = false;
  group_key = [];
  window = pos 0;
  summary_report = none;
  analysis_report = none;
}

-- An error is its text.
pub record SendResult : Type 0 where
  pub success : Bool
  pub status_code : ℤ
  pub error : Option Text
  pub duration : ℤ

pub record LogEntry : Type 0 where
  pub rule_id : ℕ
  pub channel_id : ℕ
  pub event_kind : Text
  pub event_id : ℕ
  pub status : Text
  pub reason : Option Text
  pub event_count : ℕ
  pub status_code : Option ℤ
  pub duration_ms : ℤ
  pub payload : Text

pub record Config : Type 0 where
  pub enabled : Bool
  pub rule_refresh_interval : ℤ
  pub dispatch_workers : ℕ
  pub dispatch_buffer : ℕ
  pub send_timeout : ℤ
  pub default_silence : ℤ
  pub default_silence_max : ℤ
  pub default_coalesce : ℤ
