-- ===== src/Model/Query.antt =====
-- Query parameters: api/internal/model/filterparse.go, and the parsers of srvlog.go, netlog.go and
-- applog.go. A query is a function from keys to values, the empty text if the key is absent; the
-- address and time parsers are parameters. A failed parse carries the messages that the error joins.
pub mod Parsed
pub mod Meaning
use taillight.Base.{
  ℕ, suc, ◌+◌, Bool, true, false, not, ◌&&◌, ◌||◌, if◌then◌else◌, ltb, leb, ◌==◌, ℤ, pos, negsuc,
  ltb_ℤ, Text, codes, text_eq, is_empty, List, [], ◌∷◌, ◌++◌, Option, none, some, length, ◌⊎◌, inl,
  inr, get_elem?, pos_part,
}
use taillight.Base.Assoc.{Assoc, lookup, text_eq_keys}
use taillight.Base.Decimal.{decimal}
use taillight.Base.ParseInt.{parse_int, decimal_int}
use taillight.Model.Unicode.{Unicode}
use taillight.Model.Filter.{SrvlogFilter, NetlogFilter}
use taillight.Model.Level.{AppLogFilter, normalize_level, applog_level_rank}

abbrev pub max_filter_string_len : ℕ
max_filter_string_len = 500

-- netip.ParseAddr with the printed form, and time.Parse for RFC 3339.
pub record Parsers : Type 0 where
  pub parse_addr : Text → Option Text
  pub parse_time : Text → Option ℕ

abbrev pub Query : Type 0
Query = Text → Text

-- The value of a parameter, and the messages it adds.
abbrev pub Parsed : Type 0 → Type 0
Parsed A = A × List Text

unfoldable pub parse_str : Query → Text → Parsed Text
parse_str q key =
    if ltb max_filter_string_len (length (q key))
    then ([], (key ++ codes ": exceeds max length " ++ decimal max_filter_string_len) ∷ [])
    else (q key, [])

abbrev pub int_message : Text → ℕ → ℕ → Text
int_message key min max =
    key ++ codes ": must be an integer " ++ decimal min ++ codes "-" ++ decimal max

unfoldable pub parse_bounded_int : Query → Text → ℕ → ℕ → Parsed (Option ℤ)
unfolding parse_int
parse_bounded_int q key min max =
    if is_empty (q key) then (none, []) else elim (parse_int (q key)) [
      | none ↦ (none, int_message key min max ∷ [])
      | some n ↦
          if ltb_ℤ n (pos min) || ltb_ℤ (pos max) n
          then (none, int_message key min max ∷ [])
          else (some n, [])
    ]

module _ (parsers : Parsers) where
  unfoldable pub parse_ip : Query → Text → Parsed Text
  parse_ip q key = if is_empty (q key) then ([], []) else elim (parsers.parse_addr (q key)) [
    | none ↦ ([], (key ++ codes ": must be a valid IP address") ∷ [])
    | some addr ↦ (addr, [])
  ]

  unfoldable pub parse_rfc3339 : Query → Text → Parsed (Option ℕ)
  parse_rfc3339 q key = if is_empty (q key) then (none, []) else elim (parsers.parse_time (q key)) [
    | none ↦ (none, (key ++ codes ": must be RFC3339 format") ∷ [])
    | some t ↦ (some t, [])
  ]

-- p.err(): the messages, if there are any.
unfoldable pub result : {A : Type 0} → Parsed A → List Text ⊎ A
result (value, []) = inr value
result (value, err ∷ errs) = inl (err ∷ errs)

module _ (u : Unicode) (parsers : Parsers) where
  unfoldable pub parse_srvlog_filter : Query → List Text ⊎ SrvlogFilter
  unfolding parse_str parse_ip parse_bounded_int parse_rfc3339 result
  parse_srvlog_filter q =
      let (hostname, e1) = parse_str q (codes "hostname") in
      let (programname, e2) = parse_str q (codes "programname") in
      let (syslog_tag, e3) = parse_str q (codes "syslogtag") in
      let (msg_id, e4) = parse_str q (codes "msgid") in
      let (search, e5) = parse_str q (codes "search") in
      let (fromhost_ip, e6) = parse_ip parsers q (codes "fromhost_ip") in
      let (severity, e7) = parse_bounded_int q (codes "severity") 0 7 in
      let (severity_max, e8) = parse_bounded_int q (codes "severity_max") 0 7 in
      let (facility, e9) = parse_bounded_int q (codes "facility") 0 23 in
      let (start, e10) = parse_rfc3339 parsers q (codes "from") in
      let (stop, e11) = parse_rfc3339 parsers q (codes "to") in
      let f : SrvlogFilter = record {
        hostname = hostname;
        fromhost_ip = fromhost_ip;
        programname = programname;
        severity = severity;
        severity_max = severity_max;
        facility = facility;
        syslog_tag = syslog_tag;
        msg_id = msg_id;
        search = search;
        start = start;
        stop = stop;
        search_lower = u.lower search;
      } in
      result (f, e1 ++ e2 ++ e3 ++ e4 ++ e5 ++ e6 ++ e7 ++ e8 ++ e9 ++ e10 ++ e11)

  -- The two feeds have the same parameters.
  unfoldable pub parse_netlog_filter : Query → List Text ⊎ NetlogFilter
  unfolding parse_srvlog_filter
  parse_netlog_filter q = parse_srvlog_filter q

  -- A level by its name, an alias too; a name that is not known adds the message.
  unfoldable pub parse_level : Text → Text → Parsed Text
  unfolding normalize_level
  parse_level key v = if is_empty v then ([], []) else elim (normalize_level u v) [
    | none ↦ ([], (key ++ codes ": must be one of DEBUG, INFO, WARN, ERROR, FATAL") ∷ [])
    | some level ↦ (level, [])
  ]

  unfoldable pub parse_applog_filter : Query → List Text ⊎ AppLogFilter
  unfolding parse_str parse_level parse_rfc3339 result applog_level_rank
  parse_applog_filter q =
      let (service, e1) = parse_str q (codes "service") in
      let (component, e2) = parse_str q (codes "component") in
      let (host, e3) = parse_str q (codes "host") in
      let (search, e4) = parse_str q (codes "search") in
      let (level, e5) = parse_level (codes "level") (q (codes "level")) in
      let (level_exact, e6) = parse_level (codes "level_exact") (q (codes "level_exact")) in
      let (start, e7) = parse_rfc3339 parsers q (codes "from") in
      let (stop, e8) = parse_rfc3339 parsers q (codes "to") in
      let f : AppLogFilter = record {
        service = service;
        component = component;
        host = host;
        level = level;
        level_exact = level_exact;
        search = search;
        start = start;
        stop = stop;
        level_min_rank = if is_empty level then none else some (applog_level_rank u level);
        search_lower = u.lower search;
      } in
      result (f, e1 ++ e2 ++ e3 ++ e4 ++ e5 ++ e6 ++ e7 ++ e8)

unfoldable pub parse_limit : Text → ℕ → ℕ → ℕ
unfolding parse_int
parse_limit v default_limit max_limit = if is_empty v then default_limit else elim (parse_int v) [
  | none ↦ default_limit
  | some n ↦
      if ltb_ℤ n (pos 1)
      then default_limit
      else if ltb_ℤ (pos max_limit) n
      then max_limit
      else pos_part n
]

-- strconv.ParseBool
abbrev pub bool_names : Assoc Text Bool
bool_names =
    (codes "1", true)
    ∷ (codes "t", true)
    ∷ (codes "T", true)
    ∷ (codes "true", true)
    ∷ (codes "TRUE", true)
    ∷ (codes "True", true)
    ∷ (codes "0", false)
    ∷ (codes "f", false)
    ∷ (codes "F", false)
    ∷ (codes "false", false)
    ∷ (codes "FALSE", false)
    ∷ (codes "False", false)
    ∷ []

-- `none` is the error.
unfoldable pub parse_hide_muted : Text → Option Bool
unfolding lookup
parse_hide_muted v = if is_empty v then some false else lookup v bool_names

-- A label of a table, or "unknown(code)".
unfoldable pub label_of : List Text → ℤ → Text
label_of labels (negsuc n) = codes "unknown(" ++ decimal_int (negsuc n) ++ codes ")"
label_of labels (pos n) = elim (get_elem? labels n) [
  | none ↦ codes "unknown(" ++ decimal_int (pos n) ++ codes ")"
  | some label ↦ label
]

abbrev pub severity_labels : List Text
severity_labels =
    codes "emerg"
    ∷ codes "alert"
    ∷ codes "crit"
    ∷ codes "err"
    ∷ codes "warning"
    ∷ codes "notice"
    ∷ codes "info"
    ∷ codes "debug"
    ∷ []

abbrev pub facility_labels : List Text
facility_labels =
    codes "kern"
    ∷ codes "user"
    ∷ codes "mail"
    ∷ codes "daemon"
    ∷ codes "auth"
    ∷ codes "syslog"
    ∷ codes "lpr"
    ∷ codes "news"
    ∷ codes "uucp"
    ∷ codes "cron"
    ∷ codes "authpriv"
    ∷ codes "ftp"
    ∷ codes "ntp"
    ∷ codes "security"
    ∷ codes "console"
    ∷ codes "clock"
    ∷ codes "local0"
    ∷ codes "local1"
    ∷ codes "local2"
    ∷ codes "local3"
    ∷ codes "local4"
    ∷ codes "local5"
    ∷ codes "local6"
    ∷ codes "local7"
    ∷ []

unfoldable pub severity_label : ℤ → Text
unfolding label_of decimal_int
severity_label code = label_of severity_labels code

unfoldable pub facility_label : ℤ → Text
unfolding label_of decimal_int
facility_label code = label_of facility_labels code
