-- ===== src/Model/Query/Meaning.antt =====
-- What the queries of the srvlog feed mean (api/internal/model/filterparse.go, and the parser of
-- srvlog.go).
use taillight.Base.{
  ℕ, ◌≤◌, ◌≡◌, ◌↔◌, refl, ap, sym, subst, true, false, ℤ, pos, ◌≤ℤ◌, Text, codes, is_empty, List,
  [], ◌∷◌, Option, none, some, length, ◌⊎◌, inr, arith, both_empty,
}
use taillight.Base.ParseInt.{parse_int}
use taillight.Model.Unicode.{Unicode}
use taillight.Model.Filter.{SrvlogFilter}
use taillight.Model.Query.{
  Query, Parsers, Parsed, parse_str, parse_ip, parse_bounded_int, parse_rfc3339, result,
  parse_srvlog_filter,
}
use taillight.Model.Query.Parsed.{result-inr}

-- No number without a value, or the number that the value writes, of 0 to `max`.
abbrev pub IsNumber : Text → ℕ → Option ℤ → Type 0
IsNumber v max none = is_empty v ≡ true
IsNumber v max (some n) =
    (is_empty v ≡ false) × (parse_int v ≡ some n) × (pos 0 ≤ℤ n) × (n ≤ℤ pos max)

module _ (parsers : Parsers) where
  abbrev pub IsAddress : Text → Text → Type 0
  IsAddress v addr =
      ((is_empty v ≡ true) × (addr ≡ []))
      ⊎ ((is_empty v ≡ false) × (parsers.parse_addr v ≡ some addr))

  abbrev pub IsTime : Text → Option ℕ → Type 0
  IsTime v none = is_empty v ≡ true
  IsTime v (some t) = (is_empty v ≡ false) × (parsers.parse_time v ≡ some t)

  -- A filter that says what a query says.
  pub record Means (u : Unicode) (q : Query) (f : SrvlogFilter) : Type 0 where
    pub hostname_same : (f.hostname ≡ q (codes "hostname")) × (length f.hostname ≤ 500)
    pub programname_same : (f.programname ≡ q (codes "programname")) × (length f.programname ≤ 500)
    pub syslog_tag_same : (f.syslog_tag ≡ q (codes "syslogtag")) × (length f.syslog_tag ≤ 500)
    pub msg_id_same : (f.msg_id ≡ q (codes "msgid")) × (length f.msg_id ≤ 500)
    pub search_same : (f.search ≡ q (codes "search")) × (length f.search ≤ 500)
    pub search_lowered : f.search_lower ≡ u.lower f.search
    pub fromhost_ip_read : IsAddress (q (codes "fromhost_ip")) f.fromhost_ip
    pub severity_read : IsNumber (q (codes "severity")) 7 f.severity
    pub severity_max_read : IsNumber (q (codes "severity_max")) 7 f.severity_max
    pub facility_read : IsNumber (q (codes "facility")) 23 f.facility
    pub start_read : IsTime (q (codes "from")) f.start
    pub stop_read : IsTime (q (codes "to")) f.stop

parse_str_iff :
    (q : Query) (key v : Text) → (parse_str q key ≡ (v, [])) ↔ ((v ≡ q key) × (length v ≤ 500))
unfolding parse_str
parse_str_iff q key v = ground arith

parse_bounded_int_iff :
    (q : Query) (key : Text) (max : ℕ) (v : Option ℤ)
    → (parse_bounded_int q key 0 max ≡ (v, [])) ↔ IsNumber (q key) max v
unfolding parse_bounded_int
parse_bounded_int_iff q key max none = ground arith
parse_bounded_int_iff q key max (some n) = ground arith

module _ (parsers : Parsers) where
  parse_ip_iff :
      (q : Query) (key v : Text) → (parse_ip parsers q key ≡ (v, [])) ↔ IsAddress parsers (q key) v
  unfolding parse_ip
  parse_ip_iff q key v = ground arith

  parse_rfc3339_iff :
      (q : Query) (key : Text) (v : Option ℕ)
      → (parse_rfc3339 parsers q key ≡ (v, [])) ↔ IsTime parsers (q key) v
  unfolding parse_rfc3339
  parse_rfc3339_iff q key none = ground arith
  parse_rfc3339_iff q key (some t) = ground arith

no_messages : {A : Type 0} (p : Parsed A) → p.1 ≡ [] → p ≡ (p.0, [])
no_messages p none_there = ap (λ errs. (p.0, errs)) none_there

result-none :
    {A : Type 0} (value : A) (errs : List Text) (f : A) → result (value, errs) ≡ inr f → errs ≡ []
unfolding result
result-none value [] f h = refl
result-none value (e ∷ errs) f h = ground arith

module _ (u : Unicode) (parsers : Parsers) (q : Query) where
  accepted-Means :
      (f : SrvlogFilter) → parse_srvlog_filter u parsers q ≡ inr f → Means parsers u q f
  unfolding parse_srvlog_filter
  accepted-Means f h =
      let (h10, stop) = both_empty (result-none _ _ f h) in
      let (h9, start) = both_empty h10 in
      let (h8, facility) = both_empty h9 in
      let (h7, severity_max) = both_empty h8 in
      let (h6, severity) = both_empty h7 in
      let (h5, ip) = both_empty h6 in
      let (h4, search) = both_empty h5 in
      let (h3, msg_id) = both_empty h4 in
      let (h2, tag) = both_empty h3 in
      let (hostname, program) = both_empty h2 in
      subst (Means parsers u q) (result-inr _ _ f h) (record {
        hostname_same = (parse_str_iff q (codes "hostname") _).0 (no_messages _ hostname);
        programname_same = (parse_str_iff q (codes "programname") _).0 (no_messages _ program);
        syslog_tag_same = (parse_str_iff q (codes "syslogtag") _).0 (no_messages _ tag);
        msg_id_same = (parse_str_iff q (codes "msgid") _).0 (no_messages _ msg_id);
        search_same = (parse_str_iff q (codes "search") _).0 (no_messages _ search);
        search_lowered = refl;
        fromhost_ip_read = (parse_ip_iff parsers q (codes "fromhost_ip") _).0 (no_messages _ ip);
        severity_read = (parse_bounded_int_iff q (codes "severity") 7 _).0 (no_messages _ severity);
        severity_max_read =
            (parse_bounded_int_iff q (codes "severity_max") 7 _).0 (no_messages _ severity_max);
        facility_read =
            (parse_bounded_int_iff q (codes "facility") 23 _).0 (no_messages _ facility);
        start_read = (parse_rfc3339_iff parsers q (codes "from") _).0 (no_messages _ start);
        stop_read = (parse_rfc3339_iff parsers q (codes "to") _).0 (no_messages _ stop);
      })

  Means-accepted :
      (f : SrvlogFilter) → Means parsers u q f → parse_srvlog_filter u parsers q ≡ inr f
  unfolding parse_srvlog_filter result
  Means-accepted f m =
      rw
        (
          (parse_str_iff q (codes "hostname") f.hostname).1 m.hostname_same,
          (parse_str_iff q (codes "programname") f.programname).1 m.programname_same,
          (parse_str_iff q (codes "syslogtag") f.syslog_tag).1 m.syslog_tag_same,
          (parse_str_iff q (codes "msgid") f.msg_id).1 m.msg_id_same,
          (parse_str_iff q (codes "search") f.search).1 m.search_same,
          (parse_ip_iff parsers q (codes "fromhost_ip") f.fromhost_ip).1 m.fromhost_ip_read,
          (parse_bounded_int_iff q (codes "severity") 7 f.severity).1 m.severity_read,
          (parse_bounded_int_iff q (codes "severity_max") 7 f.severity_max).1 m.severity_max_read,
          (parse_bounded_int_iff q (codes "facility") 23 f.facility).1 m.facility_read,
          (parse_rfc3339_iff parsers q (codes "from") f.start).1 m.start_read,
          (parse_rfc3339_iff parsers q (codes "to") f.stop).1 m.stop_read,
        )
        (ap (λ (lowered : Text). inr (record f { search_lower = lowered })) (sym m.search_lowered))

  -- A query of the srvlog feed is accepted with a filter exactly if the filter says
  -- what the query says: the texts as they are, each of at most 500 bytes, a severity and a severity
  -- limit of 0 to 7 and a facility of 0 to 23 in decimal, an address and times that parse, each of
  -- these where a value is given, and the search text lowered.
  pub parse_srvlog_filter_accepts :
      (f : SrvlogFilter) → (parse_srvlog_filter u parsers q ≡ inr f) ↔ Means parsers u q f
  parse_srvlog_filter_accepts f = (accepted-Means f, Means-accepted f)
