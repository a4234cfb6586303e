-- ===== src/Mute.antt =====
-- api/internal/mute: rules that mark and hide events for a time, and the rule set in memory.
pub mod Validate
pub mod Lowest
use taillight.Base.{
  ℕ, suc, ◌+◌, Bool, true, false, not, ◌&&◌, ◌||◌, if◌then◌else◌, ltb, leb, ◌==◌, ℤ, Text, codes,
  text_eq, List, [], ◌∷◌, Option, none, some,
}
use taillight.Model.Event.{SrvlogEvent, NetlogEvent}
use taillight.Model.Unicode.{Unicode}
use taillight.Model.Filter.{
  SrvlogFilter, NetlogFilter, empty_filter, srvlog_matches, netlog_matches,
}

-- Feed is a string type.
abbrev pub feed_netlog : Text
feed_netlog = codes "netlog"

abbrev pub feed_srvlog : Text
feed_srvlog = codes "srvlog"

pub record Rule : Type 0 where
  pub id : ℕ
  pub feed : Text
  pub hostname : Text
  pub programname : Text
  pub search : Text
  pub reason : Text
  pub created_by : Text
  pub created_at : ℕ
  pub expires_at : ℕ

unfoldable pub netlog_filter : Rule → NetlogFilter
netlog_filter r = record empty_filter {
  hostname = r.hostname;
  programname = r.programname;
  search = r.search;
}

unfoldable pub srvlog_filter : Rule → SrvlogFilter
srvlog_filter r = record empty_filter {
  hostname = r.hostname;
  programname = r.programname;
  search = r.search;
}

-- The rules in memory; the store and the clock are arguments of `reload`.
pub record MuteSet : Type 0 where
  pub rules : List Rule

insert_by_id : Rule → List Rule → List Rule
insert_by_id r [] = r ∷ []
insert_by_id r (x ∷ xs) = if leb r.id x.id then r ∷ x ∷ xs else x ∷ insert_by_id r xs

-- slices.SortFunc by id.
unfoldable pub sort_by_id : List Rule → List Rule
unfolding insert_by_id
sort_by_id [] = []
sort_by_id (r ∷ rs) = insert_by_id r (sort_by_id rs)

unfoldable pub replace : List Rule → MuteSet → MuteSet
replace rules s = record s { rules = sort_by_id rules }

-- What the store answers for the rules that are active after a time; `none` is an error.
abbrev pub Store : Type 0
Store = ℕ → Option (List Rule)

-- The second result tells that the reload failed.
unfoldable pub reload : Store → ℕ → MuteSet → MuteSet × Bool
unfolding replace
reload list_mute_rules now s = elim (list_mute_rules now) [
  | none ↦ (s, true)
  | some rules ↦ (replace rules s, false)
]

pub record Snapshot : Type 0 where
  pub rules : List Rule
  pub now : ℕ

-- Active: the snapshot.
abbrev pub snapshot : MuteSet → ℕ → Snapshot
snapshot s now = record { rules = s.rules; now = now }

unfoldable pub active : Snapshot → Text → Rule → Bool
active s feed r = text_eq r.feed feed && ltb s.now r.expires_at

-- The generic `match` and `exclusions`, over the event, the filter and its `Matches`.
module _ {E F : Type 0} (to_filter : Rule → F) (matches : F → E → Bool) where
  match_in : (Rule → Bool) → E → List Rule → Option ℕ
  match_in is_active e [] = none
  match_in is_active e (r ∷ rs) =
      let rest = match_in is_active e rs in
      if is_active r && matches (to_filter r) e then some r.id else rest

  unfoldable pub match_event : Snapshot → Text → E → Option ℕ
  unfolding match_in
  match_event s feed e = match_in (active s feed) e s.rules

exclusions_in : {F : Type 0} → (Rule → F) → (Rule → Bool) → List Rule → List F
exclusions_in to_filter is_active [] = []
exclusions_in to_filter is_active (r ∷ rs) =
    let rest = exclusions_in to_filter is_active rs in
    if is_active r then to_filter r ∷ rest else rest

unfoldable pub exclusions : {F : Type 0} → (Rule → F) → Snapshot → Text → List F
unfolding exclusions_in
exclusions to_filter s feed = exclusions_in to_filter (active s feed) s.rules

unfoldable pub match_netlog : Unicode → Snapshot → NetlogEvent → Option ℕ
match_netlog u s e = match_event netlog_filter (netlog_matches u) s feed_netlog e

unfoldable pub match_srvlog : Unicode → Snapshot → SrvlogEvent → Option ℕ
match_srvlog u s e = match_event srvlog_filter (srvlog_matches u) s feed_srvlog e

unfoldable pub netlog_exclusions : Snapshot → List NetlogFilter
netlog_exclusions s = exclusions netlog_filter s feed_netlog

unfoldable pub srvlog_exclusions : Snapshot → List SrvlogFilter
srvlog_exclusions s = exclusions srvlog_filter s feed_srvlog
