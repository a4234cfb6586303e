-- ===== src/Stream.antt =====
-- api/internal/handler/sse_stream.go: one SSE connection. The subscription before it and the
-- deferred unsubscription after it are steps of Broker; `run` begins when the first has succeeded.
-- An id above 0 is a client's last event id, and 0 stands for a missing, invalid or negative one.
pub mod Resume
pub mod Order
use taillight.Base.{
  ℕ, suc, ◌+◌, Bool, true, false, if◌then◌else◌, leb, ltb, Text, List, [], ◌∷◌, ◌++◌, Option, none,
  some, reverse,
}
use taillight.Broker.{Message}

abbrev pub sse_backfill_limit : ℕ
sse_backfill_limit = 100

-- What the sink has written.
pub data Frame : Type 0 where
  event_frame : ℕ → Text → Text → Frame
  heartbeat_frame : Frame

-- `calls` counts the calls that may fail: writes, and settings of the write deadline.
pub record Sink : Type 0 where
  pub frames : List Frame
  pub calls : ℕ
  pub flushes : ℕ

-- What the select of the loop finds ready.
pub data Turn : Type 0 where
  live : Message → Turn
  channel_closed heartbeat_tick context_done : Turn

-- What the streamer calls, over the type of events: the queries with the client's filter, whose
-- `none` is an error, the event's id, mustJSON, and whether a call of the sink succeeds.
pub record Streamer (E : Type 0) : Type 0 where
  pub label : Text
  pub event_id : E → ℕ
  pub must_json : E → Option Text
  pub since : ℕ → ℕ → Option (List E)
  pub recent : ℕ → Option (List E)
  pub accepts : ℕ → Bool

abbrev pub new_sink : Sink
new_sink = record { frames = []; calls = 0; flushes = 0 }

abbrev pub flush : Sink → Sink
flush s = record s { flushes = s.flushes + 1 }

module _ {E : Type 0} (st : Streamer E) where
  open st use {label, event_id, must_json, since, recent, accepts}

  -- The first result tells whether the write succeeded.
  unfoldable pub write_frame : Frame → Sink → Bool × Sink
  write_frame f s =
      if accepts s.calls
      then (true, record s { frames = s.frames ++ f ∷ []; calls = suc s.calls })
      else (false, record s { calls = suc s.calls })

  unfoldable pub set_write_deadline : Sink → Bool × Sink
  set_write_deadline s = (accepts s.calls, record s { calls = suc s.calls })

  -- Events that do not marshal are skipped; a failed write ends the loop.
  unfoldable pub write_events : List E → Sink → Bool × Sink
  unfolding write_frame
  write_events [] s = (true, s)
  write_events (e ∷ es) s = elim (must_json e) [
    | none ↦ write_events es s
    | some data_bytes ↦
        let (ok, s1) = write_frame (event_frame (event_id e) label data_bytes) s in
        let rest = write_events es s1 in if ok then rest else (false, s1)
  ]

  abbrev pub last_id : ℕ → List E → ℕ
  last_id n [] = n
  last_id n (e ∷ es) = last_id (event_id e) es

  abbrev pub flush_some : List E → Sink → Sink
  flush_some [] s = s
  flush_some (e ∷ es) s = flush s

  abbrev pub first_id_or : ℕ → List E → ℕ
  first_id_or n [] = n
  first_id_or n (e ∷ es) = event_id e

  -- The highest id sent, and the sink. `recent` is newest first.
  unfoldable pub backfill : ℕ → Sink → ℕ × Sink
  unfolding write_events
  backfill last_event_id s =
      if ltb 0 last_event_id
      then elim (since last_event_id sse_backfill_limit) [
        | none ↦ (last_event_id, s)
        | some events ↦
            let (ok, s1) = write_events events s in
            if ok then (last_id last_event_id events, flush_some events s1) else (last_event_id, s1)
      ]
      else elim (recent sse_backfill_limit) [
        | none ↦ (0, s)
        | some events ↦
            let (ok, s1) = write_events (reverse events) s in
            if ok then (first_id_or 0 events, flush_some events s1) else (0, s1)
      ]

  -- A deadline, a write and a flush; the first result tells to go on.
  unfoldable pub emit : Frame → Sink → Bool × Sink
  unfolding write_frame set_write_deadline
  emit f s =
      let (armed, s1) = set_write_deadline s in
      let (ok, s2) = write_frame f s1 in
      if armed then if ok then (true, flush s2) else (false, s2) else (false, s1)

  -- The loop, over what its select finds; it waits when nothing more is there.
  unfoldable pub stream : ℕ → List Turn → Sink → Sink
  unfolding emit
  stream last_backfilled [] s = s
  stream last_backfilled (live msg ∷ turns) s =
      let (ok, s1) = emit (event_frame msg.id label msg.payload) s in
      let skipped = stream last_backfilled turns s in
      let sent = stream last_backfilled turns s1 in
      if leb msg.id last_backfilled then skipped else if ok then sent else s1
  stream last_backfilled (channel_closed ∷ turns) s = s
  stream last_backfilled (heartbeat_tick ∷ turns) s =
      let (ok, s1) = emit heartbeat_frame s in
      let rest = stream last_backfilled turns s1 in if ok then rest else s1
  stream last_backfilled (context_done ∷ turns) s = s

  unfoldable pub run_stream : ℕ → List Turn → Sink
  unfolding backfill stream
  run_stream last_event_id turns =
      let (last_backfilled, s) = backfill last_event_id (flush new_sink) in
      stream last_backfilled turns s
