-- ===== src/Model/Query/Parsed.antt =====
-- What the parsers of the feeds accept (api/internal/model/filterparse.go).
use taillight.Base.{
  ℕ, ◌≤◌, ◌≡◌, ℤ, pos, ◌≤ℤ◌, Text, codes, List, [], ◌∷◌, Option, none, some, length, inr, subst,
  arith,
}
use taillight.Model.Unicode.{Unicode}
use taillight.Model.Filter.{SrvlogFilter}
use taillight.Model.Query.{
  Query, Parsers, parse_str, parse_bounded_int, result, parse_srvlog_filter, parse_limit,
}

parse_str_le : (q : Query) (key : Text) → length (parse_str q key).0 ≤ 500
unfolding parse_str
parse_str_le q key = ground arith

abbrev pub Within : ℕ → Option ℤ → Type 0
Within max none = Unit
Within max (some n) = (pos 0 ≤ℤ n) × (n ≤ℤ pos max)

parse_bounded_int-Within :
    (q : Query) (key : Text) (max : ℕ) → Within max (parse_bounded_int q key 0 max).0
unfolding parse_bounded_int
parse_bounded_int-Within q key max = ground arith

parse_limit_bounds :
    (v : Text) (default_limit max_limit : ℕ)
    → 1 ≤ default_limit
    → default_limit ≤ max_limit
    → (1 ≤ parse_limit v default_limit max_limit)
      × (parse_limit v default_limit max_limit ≤ max_limit)
unfolding parse_limit
parse_limit_bounds v default_limit max_limit one most = ground arith

-- The bounds of the parameters of the srvlog and the netlog feed.
pub record IsBoundedFilter (f : SrvlogFilter) : Type 0 where
  pub severity_in : Within 7 f.severity
  pub severity_max_in : Within 7 f.severity_max
  pub facility_in : Within 23 f.facility
  pub hostname_le : length f.hostname ≤ 500
  pub programname_le : length f.programname ≤ 500
  pub syslog_tag_le : length f.syslog_tag ≤ 500
  pub msg_id_le : length f.msg_id ≤ 500
  pub search_le : length f.search ≤ 500

pub result-inr :
    {A : Type 0} (value : A) (errs : List Text) (f : A) → result (value, errs) ≡ inr f → value ≡ f
unfolding result
result-inr value [] f h = ground arith
result-inr value (e ∷ errs) f h = ground arith

-- A query that the srvlog and the netlog feed accept has a severity and a severity limit of 0 to 7, a
-- facility of 0 to 23, where they are given, and texts of at most 500 bytes.
pub parse_srvlog_filter-IsBoundedFilter :
    (u : Unicode) (parsers : Parsers) (q : Query) (f : SrvlogFilter)
    → parse_srvlog_filter u parsers q ≡ inr f
    → IsBoundedFilter f
unfolding parse_srvlog_filter
parse_srvlog_filter-IsBoundedFilter u parsers q f h =
    subst IsBoundedFilter (result-inr _ _ f h) (record {
      severity_in = parse_bounded_int-Within q (codes "severity") 7;
      severity_max_in = parse_bounded_int-Within q (codes "severity_max") 7;
      facility_in = parse_bounded_int-Within q (codes "facility") 23;
      hostname_le = parse_str_le q (codes "hostname");
      programname_le = parse_str_le q (codes "programname");
      syslog_tag_le = parse_str_le q (codes "syslogtag");
      msg_id_le = parse_str_le q (codes "msgid");
      search_le = parse_str_le q (codes "search");
    })
