-- ===== src/Notify/Rule.antt =====
-- Notification rules: which events they match and how events are grouped
-- (api/internal/notification/rule.go, and Rule.Validate of notifier.go).
pub mod Accepted
use taillight.Base.{
  ℕ, suc, ◌+◌, ◌*◌, ◌-◌, Bool, true, false, not, ◌&&◌, ◌||◌, if◌then◌else◌, ltb, leb, ◌==◌, ℤ, pos,
  negsuc, wrap64, ltb_ℤ, Text, codes, text_eq, is_empty, List, [], ◌∷◌, ◌++◌, Option, none, some,
  map,
}
use taillight.Base.Assoc.{lookup, text_eq_keys}
use taillight.Model.Event.{SrvlogEvent, NetlogEvent, AppLogEvent}
use taillight.Model.Unicode.{Unicode}
use taillight.Model.Filter.{
  SrvlogFilter, NetlogFilter, empty_filter, srvlog_matches, netlog_matches,
}
use taillight.Model.Level.{AppLogFilter, applog_matches, valid_applog_levels}
use taillight.Notify.Types.{Rule, event_kind_srvlog, event_kind_netlog, event_kind_applog}

unfoldable pub srvlog_filter : Rule → SrvlogFilter
srvlog_filter r = record empty_filter {
  hostname = r.hostname;
  programname = r.programname;
  severity = r.severity;
  severity_max = r.severity_max;
  facility = r.facility;
  syslog_tag = r.syslog_tag;
  msg_id = r.msg_id;
  search = r.search;
}

unfoldable pub netlog_filter : Rule → NetlogFilter
netlog_filter r = record empty_filter {
  hostname = r.hostname;
  programname = r.programname;
  severity = r.severity;
  severity_max = r.severity_max;
  facility = r.facility;
  syslog_tag = r.syslog_tag;
  msg_id = r.msg_id;
  search = r.search;
}

unfoldable pub applog_filter : Rule → AppLogFilter
applog_filter r = record {
  service = r.service;
  component = r.component;
  host = r.host;
  level = r.level;
  level_exact = [];
  search = r.search;
  start = none;
  stop = none;
  level_min_rank = none;
  search_lower = [];
}

-- strings.Split at a byte: the first part and the others.
abbrev pub split_at : ℕ → Text → Text × List Text
split_at sep [] = ([], [])
split_at sep (x ∷ s) =
    let (part, parts) = split_at sep s in if x == sep then ([], part ∷ parts) else (x ∷ part, parts)

-- strings.Join with "|".
abbrev pub join_bar : List Text → Text
join_bar [] = []
join_bar (p ∷ []) = p
join_bar (p ∷ q ∷ parts) = p ++ b'|' ∷ join_bar (q ∷ parts)

abbrev pub or_default : Text → List Text → List Text
or_default name [] = name ∷ []
or_default name (f ∷ fields) = f ∷ fields

-- The fields of a group that are not blank.
abbrev pub keep_set : List Text → List Text
keep_set [] = []
keep_set (f ∷ fields) = if is_empty f then keep_set fields else f ∷ keep_set fields

abbrev pub srvlog_part : SrvlogEvent → Text → Text
srvlog_part e f =
    if text_eq f (codes "hostname")
    then e.hostname
    else if text_eq f (codes "programname")
    then e.programname
    else if text_eq f (codes "syslogtag")
    then e.syslog_tag
    else if text_eq f (codes "severity")
    then e.severity_label
    else e.hostname

abbrev pub applog_part : AppLogEvent → Text → Text
applog_part e f =
    if text_eq f (codes "host")
    then e.host
    else if text_eq f (codes "service")
    then e.service
    else if text_eq f (codes "component")
    then e.component
    else if text_eq f (codes "level")
    then e.level
    else e.host

module _ (u : Unicode) where
  open u use {trim_space}

  unfoldable pub matches_srvlog : Rule → SrvlogEvent → Bool
  matches_srvlog r e = srvlog_matches u (srvlog_filter r) e

  unfoldable pub matches_netlog : Rule → NetlogEvent → Bool
  matches_netlog r e = netlog_matches u (netlog_filter r) e

  unfoldable pub matches_applog : Rule → AppLogEvent → Bool
  matches_applog r e = applog_matches u (applog_filter r) e

  unfoldable pub group_by_fields : Rule → Text → List Text
  group_by_fields r default_field =
      let gb = trim_space r.group_by in
      if is_empty gb
      then default_field ∷ []
      else let (part, parts) = split_at b',' gb in
        or_default default_field (keep_set (map trim_space (part ∷ parts)))

  unfoldable pub group_key_from_srvlog : Rule → SrvlogEvent → Text
  group_key_from_srvlog r e = join_bar (map (srvlog_part e) (group_by_fields r (codes "hostname")))

  unfoldable pub group_key_from_netlog : Rule → NetlogEvent → Text
  group_key_from_netlog r e = join_bar (map (srvlog_part e) (group_by_fields r (codes "hostname")))

  unfoldable pub group_key_from_applog : Rule → AppLogEvent → Text
  group_key_from_applog r e = join_bar (map (applog_part e) (group_by_fields r (codes "host")))

pub data RuleError : Type 0 where
  err_no_name err_applog_fields err_severity err_severity_max err_facility err_syslog_fields
        err_level err_no_kind err_kind :
      RuleError

abbrev pub out_of_range : Option ℤ → ℕ → Bool
out_of_range none top = false
out_of_range (some v) top = ltb_ℤ v (pos 0) || ltb_ℤ (pos top) v

abbrev pub is_set : Option ℤ → Bool
is_set none = false
is_set (some v) = true

abbrev pub check_syslog : Rule → Option RuleError
check_syslog r =
    if not (is_empty r.service)
      || not (is_empty r.component)
      || not (is_empty r.host)
      || not (is_empty r.level)
    then some err_applog_fields
    else if out_of_range r.severity 7
    then some err_severity
    else if out_of_range r.severity_max 7
    then some err_severity_max
    else if out_of_range r.facility 23
    then some err_facility
    else none

abbrev pub known_level : Text → Bool
known_level level = elim (lookup level valid_applog_levels) [ some rank ↦ true | none ↦ false ]

abbrev pub check_applog : Rule → Option RuleError
check_applog r =
    if not (is_empty r.hostname)
      || not (is_empty r.programname)
      || is_set r.severity
      || is_set r.severity_max
      || is_set r.facility
      || not (is_empty r.syslog_tag)
      || not (is_empty r.msg_id)
    then some err_syslog_fields
    else if not (is_empty r.level) && not (known_level r.level)
    then some err_level
    else none

-- Rule.Validate; `none` is no error.
unfoldable pub validate_rule : Rule → Option RuleError
validate_rule r =
    if is_empty r.name
    then some err_no_name
    else if text_eq r.event_kind event_kind_srvlog || text_eq r.event_kind event_kind_netlog
    then check_syslog r
    else if text_eq r.event_kind event_kind_applog
    then check_applog r
    else if is_empty r.event_kind
    then some err_no_kind
    else some err_kind
