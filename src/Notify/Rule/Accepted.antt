-- ===== src/Notify/Rule/Accepted.antt =====
-- Which rules Rule.Validate of api/internal/notification/notifier.go accepts.
use taillight.Base.{
  ℕ, ◌≡◌, refl, true, false, ℤ, pos, ◌≤ℤ◌, Text, text_eq_iff, is_empty, [], ◌∷◌, Option, none, some,
  arith, ◌⊎◌, ◌↔◌,
}
use taillight.Base.Assoc.{text_eq_keys}
use taillight.Notify.Types.{Rule, event_kind_srvlog, event_kind_netlog, event_kind_applog}
use taillight.Notify.Rule.{
  out_of_range, is_set, check_syslog, check_applog, known_level, validate_rule,
}

-- Unset, or from 0 to a top value.
abbrev pub Within : ℕ → Option ℤ → Type 0
Within top none = Unit {0}
Within top (some v) = (pos 0 ≤ℤ v) × (v ≤ℤ pos top)

out_of_range-Within : (o : Option ℤ) (top : ℕ) → (out_of_range o top ≡ false) ↔ Within top o
out_of_range-Within none top = (λ h. tt, λ h. refl)
out_of_range-Within (some v) top = (λ h. ground arith, λ h. ground arith)

-- The fields of a syslog rule: none of the application feed, and numbers within the columns' checks.
abbrev pub IsSyslogRule : Rule → Type 0
IsSyslogRule r =
    (r.service ≡ [])
    × (r.component ≡ [])
    × (r.host ≡ [])
    × (r.level ≡ [])
    × Within 7 r.severity
    × Within 7 r.severity_max
    × Within 23 r.facility

-- The fields of an application rule: none of the syslog feeds, and a canonical level if any.
abbrev pub IsAppLogRule : Rule → Type 0
IsAppLogRule r =
    (r.hostname ≡ [])
    × (r.programname ≡ [])
    × (r.severity ≡ none)
    × (r.severity_max ≡ none)
    × (r.facility ≡ none)
    × (r.syslog_tag ≡ [])
    × (r.msg_id ≡ [])
    × ((r.level ≡ []) ⊎ (known_level r.level ≡ true))

is_empty_iff : (t : Text) → (is_empty t ≡ true) ↔ (t ≡ [])
is_empty_iff [] = (λ h. refl, λ h. refl)
is_empty_iff (c ∷ t) = (λ h. cc, λ h. cc)

is_set_iff : (o : Option ℤ) → (is_set o ≡ false) ↔ (o ≡ none)
is_set_iff none = (λ h. refl, λ h. refl)
is_set_iff (some v) = (λ h. cc, λ h. cc)

check_syslog_accepts : (r : Rule) → (check_syslog r ≡ none) ↔ IsSyslogRule r
check_syslog_accepts r = (
  λ h. ground (
    arith,
    is_empty_iff r.service,
    is_empty_iff r.component,
    is_empty_iff r.host,
    is_empty_iff r.level,
    out_of_range-Within r.severity 7,
    out_of_range-Within r.severity_max 7,
    out_of_range-Within r.facility 23,
  ),
  λ h. ground (
    arith,
    is_empty_iff r.service,
    is_empty_iff r.component,
    is_empty_iff r.host,
    is_empty_iff r.level,
    out_of_range-Within r.severity 7,
    out_of_range-Within r.severity_max 7,
    out_of_range-Within r.facility 23,
  ),
)

check_applog_accepts : (r : Rule) → (check_applog r ≡ none) ↔ IsAppLogRule r
check_applog_accepts r = (
  λ h. ground (
    arith,
    is_empty_iff r.hostname,
    is_empty_iff r.programname,
    is_empty_iff r.syslog_tag,
    is_empty_iff r.msg_id,
    is_empty_iff r.level,
    is_set_iff r.severity,
    is_set_iff r.severity_max,
    is_set_iff r.facility,
  ),
  λ h. ground (
    arith,
    is_empty_iff r.hostname,
    is_empty_iff r.programname,
    is_empty_iff r.syslog_tag,
    is_empty_iff r.msg_id,
    is_empty_iff r.level,
    is_set_iff r.severity,
    is_set_iff r.severity_max,
    is_set_iff r.facility,
  ),
)

-- A rule is accepted exactly if it has a name and either is a srvlog or netlog rule with no field of
-- the application feed, severities from 0 to 7 and a facility from 0 to 23, or is an applog rule
-- with no field of the syslog feeds and no level or a canonical one.
pub validate_rule_accepts :
    (r : Rule)
    → (validate_rule r ≡ none) ↔ (
        (¬ (r.name ≡ []))
        × ((((r.event_kind ≡ event_kind_srvlog) ⊎ (r.event_kind ≡ event_kind_netlog))
              × IsSyslogRule r)
            ⊎ ((r.event_kind ≡ event_kind_applog) × IsAppLogRule r)))
unfolding validate_rule
validate_rule_accepts r = (
  λ h. ground (
    arith,
    is_empty_iff r.name,
    text_eq_iff r.event_kind event_kind_srvlog,
    text_eq_iff r.event_kind event_kind_netlog,
    text_eq_iff r.event_kind event_kind_applog,
    check_syslog_accepts r,
    check_applog_accepts r,
  ),
  λ h. ground (
    arith,
    is_empty_iff r.name,
    text_eq_iff r.event_kind event_kind_srvlog,
    text_eq_iff r.event_kind event_kind_netlog,
    text_eq_iff r.event_kind event_kind_applog,
    check_syslog_accepts r,
    check_applog_accepts r,
  ),
)
