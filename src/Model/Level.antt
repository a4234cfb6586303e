-- ===== src/Model/Level.antt =====
-- The levels of the application feed, and its filter: api/internal/model/applog.go.
use taillight.Base.{
  ℕ, Bool, true, false, not, ◌&&◌, ◌||◌, if◌then◌else◌, ltb, ◌==◌, ℤ, pos, negsuc, ltb_ℤ, leb_ℤ,
  Text, codes, is_empty, List, [], ◌∷◌, Option, none, some,
}
use taillight.Base.Assoc.{Assoc, lookup, text_eq_keys}
use taillight.Model.Event.{AppLogEvent}
use taillight.Model.Unicode.{Unicode}
use taillight.Model.Filter.{match_field, contains_fold, search_needle, text_is}

abbrev pub valid_applog_levels : Assoc Text ℤ
valid_applog_levels =
    (codes "DEBUG", pos 0)
    ∷ (codes "INFO", pos 1)
    ∷ (codes "WARN", pos 2)
    ∷ (codes "ERROR", pos 3)
    ∷ (codes "FATAL", pos 4)
    ∷ []

abbrev pub level_aliases : Assoc Text Text
level_aliases =
    (codes "TRACE", codes "DEBUG")
    ∷ (codes "D", codes "DEBUG")
    ∷ (codes "NOTICE", codes "INFO")
    ∷ (codes "I", codes "INFO")
    ∷ (codes "WARNING", codes "WARN")
    ∷ (codes "W", codes "WARN")
    ∷ (codes "ERR", codes "ERROR")
    ∷ (codes "E", codes "ERROR")
    ∷ (codes "CRITICAL", codes "FATAL")
    ∷ (codes "CRIT", codes "FATAL")
    ∷ (codes "EMERG", codes "FATAL")
    ∷ (codes "ALERT", codes "FATAL")
    ∷ (codes "SEVERE", codes "FATAL")
    ∷ (codes "PANIC", codes "FATAL")
    ∷ []

-- The order of Go's strings.
abbrev pub text_le : Text → Text → Bool
text_le [] t = true
text_le (x ∷ s) [] = false
text_le (x ∷ s) (y ∷ t) = ltb x y || x == y && text_le s t

-- slices.Sort of the keys of the map of aliases.
abbrev pub insert_name : Text → List Text → List Text
insert_name name [] = name ∷ []
insert_name name (n ∷ names) =
    let rest = insert_name name names in if text_le name n then name ∷ n ∷ names else n ∷ rest

abbrev pub sorted_names : Assoc Text Text → List Text
sorted_names [] = []
sorted_names ((name, canonical) ∷ aliases) = insert_name name (sorted_names aliases)

unfoldable pub applog_level_alias_names : List Text
applog_level_alias_names = sorted_names level_aliases

-- The names whose rank is at least `min_rank`; the table is in the order of the ranks.
unfoldable pub names_at_least : ℤ → Assoc Text ℤ → List Text
names_at_least min_rank [] = []
names_at_least min_rank ((name, rank) ∷ levels) =
    let rest = names_at_least min_rank levels in if leb_ℤ min_rank rank then name ∷ rest else rest

pub record AppLogFilter : Type 0 where
  pub service : Text
  pub component : Text
  pub host : Text
  pub level : Text
  pub level_exact : Text
  pub search : Text
  pub start : Option ℕ  -- From
  pub stop : Option ℕ  -- To
  pub level_min_rank : Option ℤ
  pub search_lower : Text

module _ (u : Unicode) where
  open u use {lower, upper, equal_fold}

  unfoldable pub normalize_level : Text → Option Text
  unfolding lookup
  normalize_level level =
      let name = upper level in
      elim (lookup name valid_applog_levels) [
        | some rank ↦ some name
        | none ↦ lookup name level_aliases
      ]

  unfoldable pub applog_level_rank : Text → ℤ
  unfolding lookup
  applog_level_rank level = elim (lookup (upper level) valid_applog_levels) [
    | some rank ↦ rank
    | none ↦ negsuc 0
  ]

  unfoldable pub applog_levels_at_least : Text → List Text
  unfolding names_at_least
  applog_levels_at_least floor =
      let min_rank = applog_level_rank floor in
      if ltb_ℤ min_rank (pos 0) then [] else names_at_least min_rank valid_applog_levels

  -- The level predicate of Matches: an unknown level of the filter matches nothing.
  unfoldable pub level_passes : AppLogFilter → Text → Bool
  level_passes f level =
      let min_rank : ℤ = elim f.level_min_rank [ some r ↦ r | none ↦ applog_level_rank f.level ] in
      is_empty f.level
      || not (ltb_ℤ min_rank (pos 0)) && not (ltb_ℤ (applog_level_rank level) min_rank)

  -- AppLogFilter.Matches
  unfoldable pub applog_matches : AppLogFilter → AppLogEvent → Bool
  applog_matches f e =
      text_is e.service f.service
      && text_is e.component f.component
      && (is_empty f.host || match_field u e.host f.host)
      && (is_empty f.level_exact || equal_fold e.level f.level_exact)
      && level_passes f e.level
      && (is_empty f.search
          || contains_fold u e.msg (search_needle u f.search f.search_lower)
          || contains_fold u e.attrs (search_needle u f.search f.search_lower))
