-- ===== src/Tests/Mutes.antt =====
-- Runs of the mute rules and of the dispatch of a stored row.
use taillight.Base.{
  ℕ, ◌+◌, ◌<◌, ◌≤◌, ◌≤ℤ◌, ◌≡◌, ◌≢◌, ◌↔◌, ◌⊎◌, ◌&&◌, true, if◌then◌else◌, any, pos, codes, text_eq,
  List, [], ◌∷◌, none, some,
}
use taillight.Model.Unicode.{ascii}
use taillight.Model.Filter.{srvlog_matches}
use taillight.Mute.{
  Rule, MuteSet, snapshot, replace, active, match_event, exclusions, srvlog_filter, feed_srvlog,
  feed_netlog,
}
use taillight.Mute.Lowest.{lowest_id, is_some, match_event-lowest, exclusions-match}
use taillight.Mute.Validate.{
  expires_at, max_duration, expires_at_bounded, validate, validate_accepts, host_set, IsBlank,
  AllStorable, fields_of,
}
use taillight.Bridge.{Notification, EventFetcher, Sinks, dispatch, channel_srvlog, channel_netlog}
use taillight.Bridge.Marking.{
  muter_at, at, srvlog_rule, netlog_rule, notified_srvlog, notified_netlog, broadcast_srvlog_of,
  broadcast_netlog_of, unmuted, marked, dispatch_notifies, dispatch_broadcasts,
}
use taillight.Tests.Data.{link_down}

abbrev mute_oslo : Rule
mute_oslo = record {
  id = 8;
  feed = feed_srvlog;
  hostname = codes "sw-oslo-*";
  programname = [];
  search = [];
  reason = codes "maintenance";
  created_by = codes "noc";
  created_at = 100;
  expires_at = 2000;
}

abbrev rpd_rule : Rule
rpd_rule = record mute_oslo { id = 5; hostname = []; programname = codes "rpd" }

abbrev two_rules : List Rule
two_rules = mute_oslo ∷ rpd_rule ∷ []

abbrev no_rules : MuteSet
no_rules = record { rules = [] }

match_event-lowest_example :
    match_event srvlog_filter
      (srvlog_matches ascii)
      (snapshot (replace two_rules no_rules) 1000)
      feed_srvlog
      link_down
    ≡ lowest_id
        (λ r.
          active (snapshot (replace two_rules no_rules) 1000) feed_srvlog r
          && srvlog_matches ascii (srvlog_filter r) link_down)
        two_rules
match_event-lowest_example =
    match_event-lowest srvlog_filter (srvlog_matches ascii) two_rules no_rules 1000 feed_srvlog
      link_down

exclusions-match_example :
    any
      (λ f. srvlog_matches ascii f link_down)
      (exclusions srvlog_filter (snapshot (replace two_rules no_rules) 1000) feed_srvlog)
    ≡ is_some (
        match_event srvlog_filter
          (srvlog_matches ascii)
          (snapshot (replace two_rules no_rules) 1000)
          feed_srvlog
          link_down)
exclusions-match_example =
    exclusions-match srvlog_filter (srvlog_matches ascii)
      (snapshot (replace two_rules no_rules) 1000) feed_srvlog link_down

expires_at_bounded_example :
    ((expires_at 500 (pos 60000) ≢ none) ↔ ((pos 0 ≤ℤ pos 60000) × (pos 60000 ≤ℤ pos 604800000)))
    × ((expires_at 500 (pos 60000) ≡ none)
        ⊎ ((t : ℕ) × (expires_at 500 (pos 60000) ≡ some t) × (500 < t) × (t ≤ 500 + max_duration)))
expires_at_bounded_example = expires_at_bounded 500 (pos 60000)

validate_accepts_example : (validate ascii mute_oslo ≡ none) ↔ (
    ((mute_oslo.feed ≡ feed_netlog) ⊎ (mute_oslo.feed ≡ feed_srvlog))
    × ((host_set ascii mute_oslo ≡ true)
        ⊎ (¬ IsBlank ascii mute_oslo.programname)
        ⊎ (¬ IsBlank ascii mute_oslo.search))
    × AllStorable (fields_of mute_oslo)
    × (¬ IsBlank ascii mute_oslo.reason))
validate_accepts_example = validate_accepts ascii mute_oslo

abbrev row_41 : Notification
row_41 = record { channel = channel_srvlog; id = 41 }

abbrev one_row : EventFetcher
one_row = record { get_srvlog = λ id. some link_down; get_netlog = λ id. none }

abbrev all_sinks : Sinks
all_sinks = record {
  broadcast_srvlog = true;
  notify_srvlog = true;
  broadcast_netlog = true;
  notify_netlog = true;
}

dispatch_notifies_example :
    let effects =
      dispatch row_41 one_row
        (some (muter_at ascii (at ascii two_rules no_rules 1000)))
        all_sinks in
    (notified_srvlog effects ≡ (
      if text_eq row_41.channel channel_srvlog && true && true
      then unmuted (srvlog_rule ascii two_rules no_rules 1000) (some link_down)
      else []))
    × (notified_netlog effects ≡ (
        if text_eq row_41.channel channel_netlog && true && true
        then unmuted (netlog_rule ascii two_rules no_rules 1000) none
        else []))
dispatch_notifies_example = dispatch_notifies ascii two_rules no_rules 1000 row_41 one_row all_sinks

dispatch_broadcasts_example :
    let effects =
      dispatch row_41 one_row
        (some (muter_at ascii (at ascii two_rules no_rules 1000)))
        all_sinks in
    (broadcast_srvlog_of effects ≡ (
      if text_eq row_41.channel channel_srvlog && true
      then marked (srvlog_rule ascii two_rules no_rules 1000) (some link_down)
      else []))
    × (broadcast_netlog_of effects ≡ (
        if text_eq row_41.channel channel_netlog && true
        then marked (netlog_rule ascii two_rules no_rules 1000) none
        else []))
dispatch_broadcasts_example =
    dispatch_broadcasts ascii two_rules no_rules 1000 row_41 one_row all_sinks
