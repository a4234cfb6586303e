-- ===== src/Tests/Streams.antt =====
-- Runs of an SSE connection.
use taillight.Base.{◌≤◌, ◌≡◌, refl, true, codes, List, [], ◌∷◌, ◌++◌, none, some, map, arith}
use taillight.Model.Event.{SrvlogEvent}
use taillight.Stream.{
  Turn, live, channel_closed, heartbeat_tick, context_done, Streamer, run_stream,
}
use taillight.Stream.Resume.{ids, live_ids, backfilled, run_stream-ids}
use taillight.Stream.Order.{occurs, run_stream_once}
use taillight.Tests.Data.{link_down}

-- Rows 41 and 42 are in the store, and 42 to 44 are live.
abbrev healthy : Streamer SrvlogEvent
healthy = record {
  label = codes "srvlog";
  event_id = λ e. e.id;
  must_json = λ e. some e.message;
  since = λ n limit. some (link_down ∷ record link_down { id = 42 } ∷ []);
  recent = λ limit. none;
  accepts = λ n. true;
}

abbrev some_turns : List Turn
some_turns =
    live (record { id = 42; payload = codes "up" })
    ∷ heartbeat_tick
    ∷ live (record { id = 43; payload = codes "up" })
    ∷ live (record { id = 44; payload = codes "up" })
    ∷ context_done
    ∷ []

-- Messages out of order, and 42 and 44 twice.
abbrev late_turns : List Turn
late_turns =
    live (record { id = 44; payload = codes "up" })
    ∷ live (record { id = 42; payload = codes "up" })
    ∷ live (record { id = 43; payload = codes "up" })
    ∷ live (record { id = 44; payload = codes "up" })
    ∷ live (record { id = 42; payload = codes "up" })
    ∷ channel_closed
    ∷ []

run_stream-ids_example :
    ids (run_stream healthy 40 some_turns).frames
    ≡ map (λ (e : SrvlogEvent). e.id) (backfilled healthy 40).0
      ++ live_ids (backfilled healthy 40).1 some_turns
run_stream-ids_example = run_stream-ids healthy (λ n. refl) (λ e. (e.message, refl)) 40 some_turns

abbrev stored_rows : List SrvlogEvent
stored_rows = link_down ∷ record link_down { id = 42 } ∷ []

-- 42 comes twice, from the store and live.
run_stream_once_example :
    (occurs 42 (map (λ (e : SrvlogEvent). e.id) stored_rows) ≤ 1)
    × (occurs 42 (ids (run_stream healthy 40 late_turns).frames) ≡ 1)
run_stream_once_example =
    run_stream_once healthy (λ n. refl) (λ e. (e.message, refl)) 40 stored_rows late_turns 42
      (omega arith) refl (omega arith, (omega arith, tt))
