-- ===== src/Bridge.antt =====
-- One NOTIFY of a stored row: fetch, mark, broadcast, notify (api/internal/ingestbridge/bridge.go).
-- The sinks' calls are the effects of a dispatch, in their order. The worker pool and the metrics
-- stay at the caller, in the code as here.
pub mod Marking
use taillight.Base.{
  ℕ, Bool, true, false, ◌&&◌, if◌then◌else◌, Text, codes, text_eq, List, [], ◌∷◌, Option, none,
  some,
}
use taillight.Model.Event.{SrvlogEvent, NetlogEvent}

abbrev pub channel_srvlog : Text
channel_srvlog = codes "srvlog_ingest"

abbrev pub channel_netlog : Text
channel_netlog = codes "netlog_ingest"

pub record Notification : Type 0 where
  pub channel : Text
  pub id : ℕ

-- The rows that the store holds; `none` is a failed fetch.
pub record EventFetcher : Type 0 where
  pub get_srvlog : ℕ → Option SrvlogEvent
  pub get_netlog : ℕ → Option NetlogEvent

pub record Muter : Type 0 where
  pub match_srvlog : SrvlogEvent → Option ℕ
  pub match_netlog : NetlogEvent → Option ℕ

-- Which of the sinks are not nil.
pub record Sinks : Type 0 where
  pub broadcast_srvlog : Bool
  pub notify_srvlog : Bool
  pub broadcast_netlog : Bool
  pub notify_netlog : Bool

-- A call of a sink.
pub data Effect : Type 0 where
  broadcast_srvlog_call notify_srvlog_call : SrvlogEvent → Effect
  broadcast_netlog_call notify_netlog_call : NetlogEvent → Effect

unfoldable pub mark_srvlog : Option Muter → SrvlogEvent → SrvlogEvent
mark_srvlog none e = e
mark_srvlog (some m) e = record e { muted_by = m.match_srvlog e }

unfoldable pub mark_netlog : Option Muter → NetlogEvent → NetlogEvent
mark_netlog none e = e
mark_netlog (some m) e = record e { muted_by = m.match_netlog e }

-- What follows a fetched row of a feed.
unfoldable pub fan_out :
    Bool → (SrvlogEvent → Effect) → (SrvlogEvent → Effect) → SrvlogEvent → List Effect
fan_out has_notify broadcast notify e =
    broadcast e
    ∷ (elim e.muted_by [ none ↦ if has_notify then notify e ∷ [] else [] | some rule ↦ [] ])

unfoldable pub dispatch : Notification → EventFetcher → Option Muter → Sinks → List Effect
unfolding mark_srvlog mark_netlog fan_out
dispatch n f m s =
    if text_eq n.channel channel_srvlog
    then if s.broadcast_srvlog
      then elim (f.get_srvlog n.id) [
        | none ↦ []
        | some e ↦
            fan_out s.notify_srvlog broadcast_srvlog_call notify_srvlog_call (mark_srvlog m e)
      ]
      else []
    else if text_eq n.channel channel_netlog
    then if s.broadcast_netlog
      then elim (f.get_netlog n.id) [
        | none ↦ []
        | some e ↦
            fan_out s.notify_netlog broadcast_netlog_call notify_netlog_call (mark_netlog m e)
      ]
      else []
    else []
