-- ===== src/Tests/Data.antt =====
-- Sample events, filters, rules and payloads.
use taillight.Base.{true, pos, codes, [], ◌∷◌, none, some}
use taillight.Model.Event.{SrvlogEvent}
use taillight.Model.Filter.{SrvlogFilter, empty_filter}
use taillight.Notify.Types.{
  Channel, Rule, empty_payload, Config, event_kind_srvlog, channel_type_slack,
}
use taillight.Notify.Suppressor.Accounting.{Match}

abbrev pub link_down : SrvlogEvent
link_down = record {
  id = 41;
  received_at = 900;
  reported_at = 880;
  hostname = codes "sw-oslo-1";
  fromhost_ip = codes "10.0.0.7";
  programname = codes "rpd";
  msg_id = [];
  severity = pos 3;
  severity_label = codes "err";
  facility = pos 3;
  facility_label = codes "daemon";
  syslog_tag = codes "rpd[12]";
  structured_data = none;
  message = codes "link down";
  raw_message = none;
  muted_by = none;
}

abbrev pub oslo_filter : SrvlogFilter
oslo_filter = record empty_filter { hostname = codes "sw-oslo-*" }

abbrev pub link_match : Match
link_match = record {
  rule_id = 3;
  group_key = codes "sw-oslo-1";
  silence = pos 60;
  silence_max = pos 150;
  coalesce = pos 0;
  payload = record empty_payload { event_count = 1 };
}

abbrev pub calm_match : Match
calm_match = record link_match { group_key = codes "sw-oslo-2"; coalesce = pos 5 }

abbrev pub slack_channel : Channel
slack_channel = record {
  id = 9;
  name = codes "noc";
  channel_type = channel_type_slack;
  config = [];
  enabled = true;
  created_at = 0;
  updated_at = 0;
}

abbrev pub oslo_rule : Rule
oslo_rule = record {
  id = 3;
  name = codes "oslo";
  enabled = true;
  event_kind = event_kind_srvlog;
  hostname = codes "sw-oslo-*";
  programname = [];
  severity = none;
  severity_max = some (pos 4);
  facility = none;
  syslog_tag = [];
  msg_id = [];
  service = [];
  component = [];
  host = [];
  level = [];
  search = [];
  channel_ids = 9 ∷ [];
  group_by = [];
  silence_ms = pos 0;
  silence_max_ms = pos 0;
  coalesce_ms = pos 0;
  created_at = 0;
  updated_at = 0;
}

abbrev pub small_config : Config
small_config = record {
  enabled = true;
  rule_refresh_interval = pos 30;
  dispatch_workers = 2;
  dispatch_buffer = 1;
  send_timeout = pos 10;
  default_silence = pos 300;
  default_silence_max = pos 900;
  default_coalesce = pos 0;
}
