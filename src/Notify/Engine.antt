-- ===== src/Notify/Engine.antt =====
-- The notification engine: api/internal/notification/engine.go up to the dispatch
-- channel. Its goroutines are the operations here, one at a time.
pub mod Fanout
use taillight.Base.{
  ℕ, suc, ◌+◌, ◌*◌, ◌-◌, ◌/◌, Bool, true, false, not, ◌&&◌, ◌||◌, if◌then◌else◌, ltb, leb, ◌==◌, ℤ,
  pos, negsuc, pos_part, neg_part, wrap64, ltb_ℤ, leb_ℤ, eq_ℤ, sub_ℕ, Text, codes, text_eq,
  is_empty, List, [], ◌∷◌, ◌++◌, Option, none, some, map, any, length,
}
use taillight.Base.Assoc.{Assoc, lookup, insert, nat_eq, text_eq_keys}
use taillight.Model.Event.{SrvlogEvent, NetlogEvent, AppLogEvent}
use taillight.Model.Unicode.{Unicode}
use taillight.Notify.Types.{
  Channel, Rule, Payload, empty_payload, SendResult, LogEntry, Config, event_kind_srvlog,
  event_kind_netlog, event_kind_applog, channel_type_slack, channel_type_webhook,
  channel_type_email, channel_type_ntfy,
}
use taillight.Notify.Suppressor.{Suppressor, Flush, record_match}
use taillight.Notify.Rule.{
  matches_srvlog, matches_netlog, matches_applog, group_key_from_srvlog, group_key_from_netlog,
  group_key_from_applog,
}

pub record DispatchJob : Type 0 where
  pub rule : Rule
  pub channels : List Channel
  pub payload : Payload

-- The cache, the suppressor, and the dispatch channel with its capacity; `queue_full` counts the
-- notifications that found it full.
pub record Engine : Type 0 where
  pub channels : List Channel
  pub rules : List Rule
  pub suppressor : Suppressor
  pub dispatch_queue : List DispatchJob
  pub queue_full : ℕ
  pub cfg : Config

-- A count of milliseconds as a time.Duration, an int64 of nanoseconds.
unfoldable pub milliseconds : ℤ → ℤ
milliseconds (pos n) = wrap64 (pos (n * 1000000))
milliseconds (negsuc n) = wrap64 (negsuc (suc n * 1000000 - 1))

abbrev pub or_else : ℤ → ℤ → ℤ
or_else d default = if leb_ℤ d (pos 0) then default else d

-- silence, silenceMax and coalesce
unfoldable pub windows_for : Config → Rule → ℤ × ℤ × ℤ
windows_for cfg r = (
  or_else (milliseconds r.silence_ms) cfg.default_silence,
  or_else (milliseconds r.silence_max_ms) cfg.default_silence_max,
  or_else (milliseconds r.coalesce_ms) cfg.default_coalesce,
)

-- The channels of the cache whose id is listed, in the cache's order.
unfoldable pub resolve_channels : List ℕ → List Channel → List Channel
resolve_channels ids [] = []
resolve_channels ids (ch ∷ channels) =
    let rest = resolve_channels ids channels in
    if any (λ id. id == ch.id) ids then ch ∷ rest else rest

-- The zero value `Rule{}`.
abbrev pub empty_rule : Rule
empty_rule = record {
  id = 0;
  name = [];
  enabled = false;
  event_kind = [];
  hostname = [];
  programname = [];
  severity = none;
  severity_max = none;
  facility = none;
  syslog_tag = [];
  msg_id = [];
  service = [];
  component = [];
  host = [];
  level = [];
  search = [];
  channel_ids = [];
  group_by = [];
  silence_ms = pos 0;
  silence_max_ms = pos 0;
  coalesce_ms = pos 0;
  created_at = 0;
  updated_at = 0;
}

abbrev pub find_rule : ℕ → List Rule → Rule
find_rule rule_id [] = empty_rule
find_rule rule_id (r ∷ rules) = if r.id == rule_id then r else find_rule rule_id rules

-- A non-blocking send on the dispatch channel.
unfoldable pub enqueue : DispatchJob → Engine → Engine
enqueue job e =
    if ltb (length e.dispatch_queue) e.cfg.dispatch_buffer
    then record e { dispatch_queue = e.dispatch_queue ++ job ∷ [] }
    else record e { queue_full = e.queue_full + 1 }

unfoldable pub on_flush : Flush → Engine → Engine
unfolding enqueue
on_flush f e =
    let rule = find_rule f.rule_id e.rules in
    let channels = resolve_channels rule.channel_ids e.channels in
    if length channels == 0
    then e
    else enqueue (record { rule = rule; channels = channels; payload = f.payload }) e

abbrev pub flush_with : Option Flush → Engine → Engine
flush_with none e = e
flush_with (some f) e = on_flush f e

-- A match of a rule is recorded with the suppressor, whose alert, if any, is flushed.
unfoldable pub record_with : Rule → Text → Payload → Engine → Engine
record_with r group_key payload e =
    let (silence, silence_max, coalesce) = windows_for e.cfg r in
    let (s, flush) =
      record_match r.id group_key silence silence_max coalesce payload e.suppressor in
    flush_with flush (record e { suppressor = s })

-- handleEvent, over the event's type and what the three entries pass.
module _ {E : Type 0} (kind : Text) (matches : Rule → E → Bool) (group_key : Rule → E → Text)
    (timestamp : ℕ) (attach : Payload → E → Payload) where
  abbrev pub payload_of : Rule → E → Payload
  payload_of r event =
      attach
        (record empty_payload {
          kind = kind;
          rule_name = r.name;
          timestamp = timestamp;
          event_count = 1;
        })
        event

  unfoldable pub walk_rules : List Rule → E → Engine → Engine
  walk_rules [] event e = e
  walk_rules (r ∷ rules) event e =
      if not r.enabled || not (text_eq r.event_kind kind)
      then walk_rules rules event e
      else if not (matches r event)
      then walk_rules rules event e
      else walk_rules rules event (record_with r (group_key r event) (payload_of r event) e)

  -- The rules are read once, before the walk.
  unfoldable pub handle_event : E → Engine → Engine
  handle_event event e = walk_rules e.rules event e

module _ (u : Unicode) where
  unfoldable pub handle_srvlog_event : SrvlogEvent → Engine → Engine
  handle_srvlog_event event =
      handle_event event_kind_srvlog (matches_srvlog u) (group_key_from_srvlog u) event.received_at
        (λ p ev. record p { srvlog_event = some ev }) event

  unfoldable pub handle_netlog_event : NetlogEvent → Engine → Engine
  handle_netlog_event event =
      handle_event event_kind_netlog (matches_netlog u) (group_key_from_netlog u) event.received_at
        (λ p ev. record p { netlog_event = some ev }) event

  unfoldable pub handle_applog_event : AppLogEvent → Engine → Engine
  handle_applog_event event =
      handle_event event_kind_applog (matches_applog u) (group_key_from_applog u) event.timestamp
        (λ p ev. record p { applog_event = some ev }) event

-- What ListNotificationRules and ListNotificationChannels answered; `none` is an error.
unfoldable pub refresh_cache : Option (List Rule) → Option (List Channel) → Engine → Engine × Bool
refresh_cache none channels e = (e, true)
refresh_cache (some rules) none e = (e, true)
refresh_cache (some rules) (some channels) e =
    (record e { rules = rules; channels = channels }, false)
