-- ===== src/Tests/Engine.antt =====
-- Runs of the notification engine and of a delivery.
use taillight.Base.{
  ℕ, suc, ◌≤◌, ◌≡◌, ◌↔◌, ◌⊎◌, refl, true, false, pos, codes, [], ◌∷◌, none, some, length, arith,
}
use taillight.Base.Assoc.{nat_eq}
use taillight.Model.Event.{SrvlogEvent}
use taillight.Model.Unicode.{ascii}
use taillight.Notify.Types.{
  Payload, empty_payload, event_kind_srvlog, event_kind_netlog, event_kind_applog,
}
use taillight.Notify.Suppressor.{new}
use taillight.Notify.Suppressor.Invariant.{new-IsConsistent}
use taillight.Notify.Rule.{matches_srvlog, group_key_from_srvlog, validate_rule}
use taillight.Notify.Rule.Accepted.{IsSyslogRule, IsAppLogRule, validate_rule_accepts}
use taillight.Notify.Engine.{Engine, handle_event}
use taillight.Notify.Engine.Fanout.{
  IsSound, handle_event-IsSound, matching, record_all, handle_event-matching,
}
use taillight.Notify.Delivery.{Outside, send_with_retry, attempts, retry_schedule}
use taillight.Notify.Delivery.Retry.{
  rows, waits, AllFailedButLast, IsPrefix, send_with_retry_audits, send_with_retry_persists,
}
use taillight.Tests.Data.{link_down, slack_channel, oslo_rule, small_config}

abbrev quiet_engine : Engine
quiet_engine = record {
  channels = slack_channel ∷ [];
  rules = oslo_rule ∷ [];
  suppressor = new;
  dispatch_queue = [];
  queue_full = 0;
  cfg = small_config;
}

quiet_engine-IsSound : IsSound quiet_engine
quiet_engine-IsSound = record {
  consistent = new-IsConsistent;
  bounded = omega arith;
  deliverable = tt;
}

abbrev attach_srvlog : Payload → SrvlogEvent → Payload
attach_srvlog p e = record p { srvlog_event = some e }

handle_event-IsSound_example : IsSound (
    handle_event event_kind_srvlog
      (matches_srvlog ascii)
      (group_key_from_srvlog ascii)
      900
      attach_srvlog
      link_down
      quiet_engine)
handle_event-IsSound_example =
    handle_event-IsSound event_kind_srvlog (matches_srvlog ascii) (group_key_from_srvlog ascii) 900
      attach_srvlog link_down quiet_engine quiet_engine-IsSound

handle_event-matching_example :
    handle_event event_kind_srvlog
      (matches_srvlog ascii)
      (group_key_from_srvlog ascii)
      900
      attach_srvlog
      link_down
      quiet_engine
    ≡ record_all event_kind_srvlog
        (matches_srvlog ascii)
        (group_key_from_srvlog ascii)
        900
        attach_srvlog
        (matching event_kind_srvlog
          (matches_srvlog ascii)
          (group_key_from_srvlog ascii)
          900
          attach_srvlog
          (oslo_rule ∷ [])
          link_down)
        link_down
        quiet_engine
handle_event-matching_example =
    handle_event-matching event_kind_srvlog (matches_srvlog ascii) (group_key_from_srvlog ascii) 900
      attach_srvlog link_down quiet_engine

validate_rule_accepts_example : (validate_rule oslo_rule ≡ none) ↔ (
    (¬ (oslo_rule.name ≡ []))
    × ((((oslo_rule.event_kind ≡ event_kind_srvlog) ⊎ (oslo_rule.event_kind ≡ event_kind_netlog))
          × IsSyslogRule oslo_rule)
        ⊎ ((oslo_rule.event_kind ≡ event_kind_applog) × IsAppLogRule oslo_rule)))
validate_rule_accepts_example = validate_rule_accepts oslo_rule

-- A backend that always fails, behind a breaker that counts and never opens.
abbrev down : Outside ℕ
down = record {
  marshal = λ p. [];
  quote = λ t. t;
  has_backend = λ t. true;
  send = λ n ch p. record {
    success = false;
    status_code = pos 503;
    error = some (codes "down");
    duration = pos 1000000;
  };
  execute = λ b r err. (suc b, r, err);
  is_open = λ b. false;
  cancelled = λ n. false;
  cancelled_wait = λ n. false;
}

send_with_retry_audits_example :
    let acts = (send_with_retry down oslo_rule slack_channel empty_payload true 0).1 in
    (length (rows acts) ≤ 5)
    × ((down.cancelled 1 ≡ true) ⊎ (1 ≤ length (rows acts)))
    × AllFailedButLast (rows acts)
    × IsPrefix (waits acts) retry_schedule
    × (length (waits acts) ≤ length (rows acts))
send_with_retry_audits_example =
    send_with_retry_audits down oslo_rule slack_channel empty_payload true 0

send_with_retry_persists_example :
    length (rows (send_with_retry down oslo_rule slack_channel empty_payload true 0).1) ≡ 5
unfolding send_with_retry attempts
send_with_retry_persists_example =
    send_with_retry_persists down oslo_rule slack_channel empty_payload true 0 (λ n. refl)
      (λ n. refl) refl
