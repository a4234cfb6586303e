-- ===== src/Model/Filter.antt =====
-- The filters of the feeds: api/internal/model/srvlog.go, netlog.go and applog.go. A filter is
-- tested against every event for every SSE client, and by the notification and mute rules.
pub mod Parts
pub mod Glob
pub mod Wildcard
use Prim.Native.Nat.{bit_and}
use taillight.Base.{
  ℕ, suc, ◌+◌, Bool, true, false, not, ◌&&◌, ◌||◌, if◌then◌else◌, ltb, leb, ◌==◌, ℤ, pos, negsuc,
  ltb_ℤ, eq_ℤ, Text, codes, text_eq, is_empty, contains_byte, List, [], ◌∷◌, Option, none, some,
  length, drop, take,
}
use taillight.Model.Event.{SrvlogEvent, NetlogEvent, AppLogEvent}
use taillight.Model.Unicode.{Unicode}

pub record SrvlogFilter : Type 0 where
  pub hostname : Text
  pub fromhost_ip : Text
  pub programname : Text
  pub severity : Option ℤ
  pub severity_max : Option ℤ
  pub facility : Option ℤ
  pub syslog_tag : Text
  pub msg_id : Text
  pub search : Text
  pub start : Option ℕ  -- From
  pub stop : Option ℕ  -- To
  pub search_lower : Text

abbrev pub NetlogFilter : Type 0
NetlogFilter = SrvlogFilter

-- The filter with no field set.
abbrev pub empty_filter : SrvlogFilter
empty_filter = record {
  hostname = [];
  fromhost_ip = [];
  programname = [];
  severity = none;
  severity_max = none;
  facility = none;
  syslog_tag = [];
  msg_id = [];
  search = [];
  start = none;
  stop = none;
  search_lower = [];
}

-- strings.HasPrefix
unfoldable pub has_prefix : Text → Text → Bool
has_prefix s [] = true
has_prefix [] (y ∷ p) = false
has_prefix (x ∷ s) (y ∷ p) = x == y && has_prefix s p

-- strings.Index
unfoldable pub index : Text → Text → Option ℕ
index [] sub = if is_empty sub then some 0 else none
index (x ∷ s) sub =
    let rest = index s sub in
    if has_prefix (x ∷ s) sub then some 0 else elim rest [ none ↦ none | some i ↦ some (suc i) ]

-- strings.HasSuffix
unfoldable pub has_suffix : Text → Text → Bool
has_suffix [] p = is_empty p
has_suffix (x ∷ s) p = text_eq (x ∷ s) p || has_suffix s p

-- strings.Split at '*': the first part and the others.
unfoldable pub split_star : Text → Text × List Text
split_star [] = ([], [])
split_star (x ∷ s) =
    let (part, parts) = split_star s in if x == b'*' then ([], part ∷ parts) else (x ∷ part, parts)

abbrev pub last_part : Text → List Text → Text
last_part part [] = part
last_part part (p ∷ parts) = last_part p parts

-- The loop over the parts; `rest` is `lower[pos:]`, and `first` is `i == 0`.
unfoldable pub match_parts : Bool → List Text → Text → Bool
match_parts first [] rest = true
match_parts first (part ∷ parts) rest =
    let skip = match_parts false parts rest in
    if is_empty part then skip else elim (index rest part) [
      | none ↦ false
      | some idx ↦
          let next = match_parts false parts (drop (idx + length part) rest) in
          if first && not (idx == 0) then false else next
    ]

unfoldable pub match_lower : Text → Text → Bool
match_lower lower pattern =
    let (part, parts) = split_star pattern in
    let last = last_part part parts in
    match_parts true (part ∷ parts) lower && (is_empty last || has_suffix lower last)

-- A byte that continues a rune: `b & 0xC0 == 0x80`.
abbrev is_continuation : ℕ → Bool
is_continuation b = bit_and b 0xC0 == 0x80

abbrev pub int_is : ℤ → Option ℤ → Bool
int_is v none = true
int_is v (some w) = eq_ℤ v w

abbrev pub int_at_most : ℤ → Option ℤ → Bool
int_at_most v none = true
int_at_most v (some w) = not (ltb_ℤ w v)

abbrev pub text_is : Text → Text → Bool
text_is v wanted = is_empty wanted || text_eq v wanted

module _ (u : Unicode) where
  open u use {lower, upper, equal_fold, to_lower, decode_rune, runes}

  unfoldable pub match_wildcard : Text → Text → Bool
  match_wildcard value pattern =
      if text_eq pattern (codes "*")
      then true
      else if not (contains_byte b'*' pattern)
      then equal_fold value pattern
      else match_lower (lower value) (lower pattern)

  unfoldable pub match_field : Text → Text → Bool
  match_field value pattern =
      if contains_byte b'*' pattern then match_wildcard value pattern else text_eq value pattern

  -- The rune at the head of a text, and its width.
  abbrev head_rune : ℕ → Text → ℕ × ℕ
  head_rune b s = if ltb b 0x80 then (b, 1) else decode_rune (take 4 (b ∷ s))

  unfoldable pub has_prefix_fold : Text → List ℕ → Bool
  has_prefix_fold s [] = true
  has_prefix_fold [] (pr ∷ prefix) = false
  has_prefix_fold (b ∷ s) (pr ∷ prefix) =
      let (sr, size) = head_rune b s in
      let rest = has_prefix_fold (drop size (b ∷ s)) prefix in
      if to_lower sr == pr then rest else false

  contains_fold_from : Text → Text → Bool
  unfolding has_prefix_fold
  contains_fold_from [] substr_lower = false
  contains_fold_from (b ∷ s) substr_lower =
      let rest = contains_fold_from s substr_lower in
      if is_continuation b then rest else has_prefix_fold (b ∷ s) (runes substr_lower) || rest

  unfoldable pub contains_fold : Text → Text → Bool
  unfolding contains_fold_from
  contains_fold s substr_lower = is_empty substr_lower || contains_fold_from s substr_lower

  unfoldable pub search_needle : Text → Text → Text
  search_needle search search_lower = if is_empty search_lower then lower search else search_lower

  -- SrvlogFilter.Matches
  unfoldable pub srvlog_matches : SrvlogFilter → SrvlogEvent → Bool
  srvlog_matches f e =
      (is_empty f.hostname || match_field e.hostname f.hostname)
      && text_is e.fromhost_ip f.fromhost_ip
      && text_is e.programname f.programname
      && int_is e.severity f.severity
      && int_at_most e.severity f.severity_max
      && int_is e.facility f.facility
      && text_is e.syslog_tag f.syslog_tag
      && text_is e.msg_id f.msg_id
      && (is_empty f.search || contains_fold e.message (search_needle f.search f.search_lower))

  -- NetlogFilter.Matches, the same code over the same fields.
  unfoldable pub netlog_matches : NetlogFilter → NetlogEvent → Bool
  netlog_matches f e =
      (is_empty f.hostname || match_field e.hostname f.hostname)
      && text_is e.fromhost_ip f.fromhost_ip
      && text_is e.programname f.programname
      && int_is e.severity f.severity
      && int_at_most e.severity f.severity_max
      && int_is e.facility f.facility
      && text_is e.syslog_tag f.syslog_tag
      && text_is e.msg_id f.msg_id
      && (is_empty f.search || contains_fold e.message (search_needle f.search f.search_lower))
