-- ===== src/Stream/Resume.antt =====
-- The ids that a connection writes (api/internal/handler/sse_stream.go).
use taillight.Base.{
  ℕ, suc, ◌+◌, ◌≡◌, refl, ap, sym, ◌∙◌, true, if◌then◌else◌, leb, ltb, Text, List, [], ◌∷◌, ◌++◌,
  Option, none, some, reverse, map, append_assoc, append-nil, Bool-cases, Option-cases, inl, inr,
}
use mathlib.Core.Path.{ap₂}
use taillight.Stream.{
  Frame, event_frame, heartbeat_frame, Sink, Turn, live, channel_closed, heartbeat_tick,
  context_done, Streamer, flush, write_frame, set_write_deadline, write_events, last_id,
  first_id_or, flush_some, backfill, emit, stream, run_stream, new_sink, sse_backfill_limit,
}

-- The ids of the events among the frames.
abbrev pub ids : List Frame → List ℕ
ids [] = []
ids (event_frame i label data_bytes ∷ fs) = i ∷ ids fs
ids (heartbeat_frame ∷ fs) = ids fs

ids-append : (fs gs : List Frame) → ids (fs ++ gs) ≡ ids fs ++ ids gs
ids-append [] gs = refl
ids-append (event_frame i label data_bytes ∷ fs) gs = ap (◌∷◌ i) (ids-append fs gs)
ids-append (heartbeat_frame ∷ fs) gs = ids-append fs gs

-- The ids of the messages that come before the stream ends, above a bound.
abbrev pub live_ids : ℕ → List Turn → List ℕ
live_ids n [] = []
live_ids n (live msg ∷ turns) = if leb msg.id n then live_ids n turns else msg.id ∷ live_ids n turns
live_ids n (channel_closed ∷ turns) = []
live_ids n (heartbeat_tick ∷ turns) = live_ids n turns
live_ids n (context_done ∷ turns) = []

module _ {E : Type 0} (st : Streamer E) where
  -- The events that a backfill sends, oldest first, and the id that the live events start above.
  abbrev pub resumed : ℕ → Option (List E) → List E × ℕ
  resumed n none = ([], n)
  resumed n (some events) = (events, last_id st n events)

  abbrev pub latest : Option (List E) → List E × ℕ
  latest none = ([], 0)
  latest (some events) = (reverse events, first_id_or st 0 events)

  abbrev pub backfilled : ℕ → List E × ℕ
  backfilled n =
      if ltb 0 n
      then resumed n (st.since n sse_backfill_limit)
      else latest (st.recent sse_backfill_limit)

module _ {E : Type 0} (st : Streamer E) (sound : (n : ℕ) → st.accepts n ≡ true)
    (encodes : (e : E) → (t : Text) × (st.must_json e ≡ some t)) where
  write_frame_sound :
      (f : Frame) (s : Sink)
      → write_frame st f s ≡ (true, record s { frames = s.frames ++ f ∷ []; calls = suc s.calls })
  unfolding write_frame
  write_frame_sound f s = rw (sound s.calls) refl

  write_events-ids :
      (es : List E) (s : Sink)
      → ((write_events st es s).0 ≡ true)
        × (ids (write_events st es s).1.frames ≡ ids s.frames ++ map st.event_id es)
  unfolding write_events
  write_events-ids [] s = (refl, sym (append-nil (ids s.frames)))
  write_events-ids (e ∷ es) s =
      let (t, encoded) = encodes e in
      let f = event_frame (st.event_id e) st.label t in
      let (ok, rest) =
        write_events-ids es (record s { frames = s.frames ++ f ∷ []; calls = suc s.calls }) in
      rw (encoded, write_frame_sound f s, write_events)
        (
          ok,
          rest
              ∙ ap (λ k. k ++ map st.event_id es) (ids-append s.frames (f ∷ []))
              ∙ append_assoc (ids s.frames) (st.event_id e ∷ []) (map st.event_id es),
        )

  -- The sink after a deadline, a write and a flush.
  abbrev emitted : Frame → Sink → Sink
  emitted f s = record {
    frames = s.frames ++ f ∷ [];
    calls = suc (suc s.calls);
    flushes = s.flushes + 1;
  }

  emit_sound : (f : Frame) (s : Sink) → emit st f s ≡ (true, emitted f s)
  unfolding emit set_write_deadline write_frame
  emit_sound f s = rw (sound s.calls, sound (suc s.calls)) refl

  stream-ids :
      (n : ℕ) (turns : List Turn) (s : Sink)
      → ids (stream st n turns s).frames ≡ ids s.frames ++ live_ids n turns
  unfolding stream
  stream-ids n [] s = sym (append-nil (ids s.frames))
  stream-ids n (live msg ∷ turns) s = elim (Bool-cases (leb msg.id n)) [
    | inl sent ↦ rw sent (stream-ids n turns s)
    | inr fresh ↦
        let f = event_frame msg.id st.label msg.payload in
        rw (fresh, emit_sound f s)
          (stream-ids n turns (emitted f s)
            ∙ ap (λ k. k ++ live_ids n turns) (ids-append s.frames (f ∷ []))
            ∙ append_assoc (ids s.frames) (msg.id ∷ []) (live_ids n turns))
  ]
  stream-ids n (channel_closed ∷ turns) s = sym (append-nil (ids s.frames))
  stream-ids n (heartbeat_tick ∷ turns) s = rw (emit_sound heartbeat_frame s) (
      stream-ids n turns (emitted heartbeat_frame s)
      ∙ ap (λ k. k ++ live_ids n turns)
          (ids-append s.frames (heartbeat_frame ∷ []) ∙ append-nil (ids s.frames)))
  stream-ids n (context_done ∷ turns) s = sym (append-nil (ids s.frames))

  flush_some-frames : (es : List E) (s : Sink) → (flush_some st es s).frames ≡ s.frames
  flush_some-frames [] s = refl
  flush_some-frames (e ∷ es) s = refl

  -- A backfill from the rows of a query, with the id to go on from if every write succeeds.
  rows-ids :
      (es shown : List E) (n m : ℕ) (s : Sink)
      → let (ok, s1) = write_events st shown s in
        let after : ℕ × Sink = if ok then (m, flush_some st es s1) else (n, s1) in
        (after.0 ≡ m) × (ids after.1.frames ≡ ids s.frames ++ map st.event_id shown)
  rows-ids es shown n m s =
      let (ok, wrote) = write_events-ids shown s in
      rw ok (refl, ap ids (flush_some-frames es (write_events st shown s).1) ∙ wrote)

  backfill-ids :
      (n : ℕ) (s : Sink)
      → let (k, s1) = backfill st n s in
        (k ≡ (backfilled st n).1)
        × (ids s1.frames ≡ ids s.frames ++ map st.event_id (backfilled st n).0)
  unfolding backfill
  backfill-ids n s = elim (Bool-cases (ltb 0 n)) [
    | inl named ↦ (elim (Option-cases (st.since n sse_backfill_limit)) [
      | inl failed ↦ rw (named, failed) (refl, sym (append-nil (ids s.frames)))
      | inr (events, found) ↦ rw (named, found) (rows-ids events events n (last_id st n events) s)
    ])
    | inr fresh ↦ (elim (Option-cases (st.recent sse_backfill_limit)) [
      | inl failed ↦ rw (fresh, failed) (refl, sym (append-nil (ids s.frames)))
      | inr (events, found) ↦
          rw (fresh, found) (rows-ids events (reverse events) 0 (first_id_or st 0 events) s)
    ])
  ]

  -- Over a connection whose writes all succeed, with events that all marshal, a client gets
  -- exactly the ids of the backfilled rows, oldest first, and then those of the live messages above
  -- the last of them, in their order, until the channel is closed or the request ends: the rows
  -- after its last event id if it names one, the recent rows if not, and none if the query fails.
  pub run_stream-ids :
      (last_event_id : ℕ) (turns : List Turn)
      → ids (run_stream st last_event_id turns).frames
        ≡ map st.event_id (backfilled st last_event_id).0
          ++ live_ids (backfilled st last_event_id).1 turns
  unfolding run_stream
  run_stream-ids n turns =
      let start = backfill st n (flush new_sink) in
      let (bound, sent) = backfill-ids n (flush new_sink) in
      stream-ids start.0 turns start.1 ∙ ap₂ (λ a k. a ++ live_ids k turns) sent bound
