-- ===== src/Stream/Order.antt =====
-- What a connection that names its last event id gets where the backfill meets the live events
-- (api/internal/handler/sse_stream.go).
use taillight.Base.{
  ℕ, ◌+◌, ◌≤◌, ◌<◌, ◌==◌, ◌≡◌, ap, ◌∙◌, true, if◌then◌else◌, leb, Text, List, [], ◌∷◌, ◌++◌, some,
  map, arith, refl,
}
use taillight.Stream.{
  Turn, live, channel_closed, heartbeat_tick, context_done, Streamer, last_id, run_stream,
  sse_backfill_limit,
}
use taillight.Stream.Resume.{ids, live_ids, backfilled, run_stream-ids}

-- Each number is above the one before it, and the first above a bound.
abbrev pub Ascending : ℕ → List ℕ → Type 0
Ascending n [] = Unit {0}
Ascending n (x ∷ xs) = (n < x) × Ascending x xs

-- The ids of the messages that come before the stream ends.
abbrev pub message_ids : List Turn → List ℕ
message_ids [] = []
message_ids (live msg ∷ turns) = msg.id ∷ message_ids turns
message_ids (channel_closed ∷ turns) = []
message_ids (heartbeat_tick ∷ turns) = message_ids turns
message_ids (context_done ∷ turns) = []

-- How often a number occurs.
abbrev pub occurs : ℕ → List ℕ → ℕ
occurs i [] = 0
occurs i (x ∷ xs) = (if x == i then 1 else 0) + occurs i xs

occurs-append : (i : ℕ) (xs ys : List ℕ) → occurs i (xs ++ ys) ≡ occurs i xs + occurs i ys
occurs-append i [] ys = omega arith
occurs-append i (x ∷ xs) ys = omega (arith, occurs-append i xs ys)

occurs-live_ids :
    (i n : ℕ) (turns : List Turn)
    → occurs i (live_ids n turns) ≡ (if leb i n then 0 else occurs i (message_ids turns))
occurs-live_ids i n [] = ground arith
occurs-live_ids i n (live msg ∷ turns) = ground (arith, occurs-live_ids i n turns)
occurs-live_ids i n (channel_closed ∷ turns) = ground arith
occurs-live_ids i n (heartbeat_tick ∷ turns) = occurs-live_ids i n turns
occurs-live_ids i n (context_done ∷ turns) = ground arith

occurs-below : (i n : ℕ) (xs : List ℕ) → Ascending n xs → i ≤ n → occurs i xs ≡ 0
occurs-below i n [] up low = refl
occurs-below i n (x ∷ xs) (here, up) low = ground (arith, occurs-below i x xs up)

occurs_once : (i n : ℕ) (xs : List ℕ) → Ascending n xs → occurs i xs ≤ 1
occurs_once i n [] up = omega arith
occurs_once i n (x ∷ xs) (here, up) = ground (arith, occurs-below i x xs up, occurs_once i x xs up)

module _ {E : Type 0} (st : Streamer E) where
  last_id_le : (n : ℕ) (es : List E) → Ascending n (map st.event_id es) → n ≤ last_id st n es
  last_id_le n [] up = omega arith
  last_id_le n (e ∷ es) (here, up) = omega (arith, last_id_le (st.event_id e) es up)

  occurs-above :
      (i n : ℕ) (es : List E)
      → Ascending n (map st.event_id es)
      → last_id st n es < i
      → occurs i (map st.event_id es) ≡ 0
  occurs-above i n [] up high = refl
  occurs-above i n (e ∷ es) (here, up) high =
      ground (arith, occurs-above i (st.event_id e) es up high, last_id_le (st.event_id e) es up)

  -- A client names a last event id, and the store has answered with later rows in ascending order.
  -- Over a connection whose writes all succeed, with events that all marshal, the client gets every
  -- id up to that of the last row once if a row has it and never if not, however many live messages
  -- repeat it, and every later id exactly as often as the broker delivers it before the
  -- connection ends. Nothing is assumed of the order of the live messages or of their repeats.
  pub run_stream_once :
      (sound : (n : ℕ) → st.accepts n ≡ true)
      (encodes : (e : E) → (t : Text) × (st.must_json e ≡ some t)) (last_event_id : ℕ)
      (rows : List E) (turns : List Turn) (i : ℕ)
      → 0 < last_event_id
      → st.since last_event_id sse_backfill_limit ≡ some rows
      → Ascending last_event_id (map st.event_id rows)
      → (occurs i (map st.event_id rows) ≤ 1)
        × (occurs i (ids (run_stream st last_event_id turns).frames) ≡ (
            if leb i (last_id st last_event_id rows)
            then occurs i (map st.event_id rows)
            else occurs i (message_ids turns)))
  run_stream_once sound encodes n rows turns i named found later =
      let last = last_id st n rows in
      let shown : backfilled st n ≡ (rows, last) = rw found (ground arith) in
      let written =
        run_stream-ids st sound encodes n turns
        ∙ ap (λ p. map st.event_id p.0 ++ live_ids p.1 turns) shown in
      (
        occurs_once i n (map st.event_id rows) later,
        ap (occurs i) written
            ∙ occurs-append i (map st.event_id rows) (live_ids last turns)
            ∙ ground (arith, occurs-live_ids i last turns, occurs-above i n rows later),
      )
