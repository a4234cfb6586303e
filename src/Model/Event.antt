-- ===== src/Model/Event.antt =====
-- The events of the feeds: api/internal/model/srvlog.go, netlog.go and applog.go. The structs of
-- the srvlog and the netlog feed have the same fields. A time is a number of nanoseconds, an id
-- of a stored row is a number, and an int is an integer.
use taillight.Base.{ℕ, ℤ, Bool, true, leb, if◌then◌else◌, Text, Option, [], length}

pub record SrvlogEvent : Type 0 where
  pub id : ℕ
  pub received_at : ℕ
  pub reported_at : ℕ
  pub hostname : Text
  pub fromhost_ip : Text
  pub programname : Text
  pub msg_id : Text
  pub severity : ℤ
  pub severity_label : Text
  pub facility : ℤ
  pub facility_label : Text
  pub syslog_tag : Text
  pub structured_data : Option Text
  pub message : Text
  pub raw_message : Option Text
  pub muted_by : Option ℕ

abbrev pub NetlogEvent : Type 0
NetlogEvent = SrvlogEvent

pub record AppLogEvent : Type 0 where
  pub id : ℕ
  pub received_at : ℕ
  pub timestamp : ℕ
  pub level : Text
  pub service : Text
  pub component : Text
  pub host : Text
  pub msg : Text
  pub source : Text
  pub attrs : Text
  pub attrs_truncated : Bool
  pub source_ip : Option Text
  pub api_key_id : Option Text

-- Attrs over `max_bytes` are taken off the copy.
unfoldable pub with_attrs_preview : ℕ → AppLogEvent → AppLogEvent
with_attrs_preview max_bytes e =
    if leb (length e.attrs) max_bytes then e else record e { attrs = []; attrs_truncated = true }
