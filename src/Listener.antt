-- ===== src/Listener.antt =====
-- The connection that listens for the ids of new rows: api/internal/postgres/listener.go. The
-- driver is a parameter: what WaitForNotification, Connect and the query answer are given, and a
-- send on the notification channel blocks until it is read or the context ends.
pub mod Backoff
pub mod Gap
use taillight.Base.{
  ℕ, zero, suc, ◌+◌, ◌-◌, ◌*◌, ◌/◌, ◌%◌, Bool, true, false, not, ◌&&◌, ◌||◌, if◌then◌else◌, ltb,
  leb, ◌==◌, ℤ, pos, eq_ℤ, Text, codes, text_eq, List, [], ◌∷◌, ◌++◌, Option, none, some, length,
}
use taillight.Base.Assoc.{Assoc, lookup, text_eq_keys}
use taillight.Base.ParseInt.{parse_int}

-- One second.
abbrev pub reconnect_initial_backoff : ℕ
reconnect_initial_backoff = 1000000000

abbrev pub reconnect_max_backoff : ℕ
reconnect_max_backoff = 30 * 1000000000

abbrev pub gap_fill_limit : ℕ
gap_fill_limit = 10000

abbrev pub channel_table : Assoc Text Text
channel_table =
    (codes "srvlog_ingest", codes "srvlog_events")
    ∷ (codes "netlog_ingest", codes "netlog_events")
    ∷ []

pub record RowNotification : Type 0 where
  pub channel : Text
  pub id : ℤ

-- `sent` is what the listener has sent on the notification channel, oldest first.
pub record Listener : Type 0 where
  pub channels : List Text
  pub last_seen_srvlog_id : ℤ
  pub last_seen_netlog_id : ℤ
  pub sent : List RowNotification
  pub parse_errors : ℕ
  pub truncated : ℕ

unfoldable pub store_last_seen_id : Text → ℤ → Listener → Listener
store_last_seen_id channel id l =
    if text_eq channel (codes "srvlog_ingest")
    then record l { last_seen_srvlog_id = id }
    else if text_eq channel (codes "netlog_ingest")
    then record l { last_seen_netlog_id = id }
    else l

unfoldable pub last_seen_id_for_channel : Text → Listener → ℤ
last_seen_id_for_channel channel l =
    if text_eq channel (codes "srvlog_ingest")
    then l.last_seen_srvlog_id
    else if text_eq channel (codes "netlog_ingest")
    then l.last_seen_netlog_id
    else pos 0

-- The send of an id, and what it records.
unfoldable pub forward : Text → ℤ → Listener → Listener
unfolding store_last_seen_id
forward channel id l =
    store_last_seen_id channel id
      (record l { sent = l.sent ++ record { channel = channel; id = id } ∷ [] })

-- A notification that WaitForNotification returns, with its payload, and whether the context ends
-- before its send.
pub record Arrival : Type 0 where
  pub channel : Text
  pub payload : Text
  pub cancelled : Bool

-- recv, up to the error that ends it.
unfoldable pub recv : List Arrival → Listener → Listener
unfolding forward parse_int
recv [] l = l
recv (a ∷ arrivals) l = elim (parse_int a.payload) [
  | none ↦ recv arrivals (record l { parse_errors = l.parse_errors + 1 })
  | some id ↦ let rest = recv arrivals (forward a.channel id l) in if a.cancelled then l else rest
]

-- A row of the gap query: its id, or `none` if the scan fails, and whether the context ends before
-- its send.
pub record Row : Type 0 where
  pub id : Option ℤ
  pub cancelled : Bool

-- The loop over the rows: how many were sent, and whether the loop ran to its end.
unfoldable pub fill_rows : Text → List Row → Listener → ℕ × Bool × Listener
unfolding forward
fill_rows channel [] l = (0, true, l)
fill_rows channel (row ∷ rows) l = elim row.id [
  | none ↦ (0, false, l)
  | some id ↦
      let (count, complete, l1) = fill_rows channel rows (forward channel id l) in
      if row.cancelled then (0, false, l) else (suc count, complete, l1)
]

-- The database: the rows of a table above an id, in order and at most gap_fill_limit many, or an
-- error; and whether the rows end with an error.
pub record Database : Type 0 where
  pub rows_above : Text → ℤ → Option (List Row)
  pub rows_err : Text → Bool

module _ (db : Database) where
  -- The fill from the last seen id, which is 0 if there is none.
  unfoldable pub fill_from : Text → ℤ → Listener → Listener
  unfolding fill_rows lookup
  fill_from channel last_id l =
      if eq_ℤ last_id (pos 0) then l else elim (lookup channel channel_table) [
        | none ↦ l
        | some table ↦ elim (db.rows_above table last_id) [
          | none ↦ l
          | some rows ↦
              let (count, complete, l1) = fill_rows channel rows l in
              if complete && not (db.rows_err table) && count == gap_fill_limit
              then record l1 { truncated = l1.truncated + 1 }
              else l1
        ]
      ]

  unfoldable pub fill_gap_for_channel : Text → Listener → Listener
  fill_gap_for_channel channel l = fill_from channel (last_seen_id_for_channel channel l) l

  fill_channels : List Text → Listener → Listener
  unfolding fill_gap_for_channel
  fill_channels [] l = l
  fill_channels (channel ∷ channels) l = fill_channels channels (fill_gap_for_channel channel l)

  unfoldable pub fill_gap : Listener → Listener
  unfolding fill_channels
  fill_gap l = fill_channels l.channels l

-- One round of reconnect after its wait: whether the context has ended, whether the connection is
-- made, and the number that rand.Int64N draws, before it is brought below its bound.
pub record Attempt : Type 0 where
  pub cancelled : Bool
  pub connects : Bool
  pub random : ℕ

-- rand.Int64N panics at 0: `none`.
abbrev pub int64_n : ℕ → ℕ → Option ℕ
int64_n random zero = none
int64_n random (suc n) = some (random % suc n)

abbrev pub with_jitter : ℕ → ℕ → Option ℕ
with_jitter random backoff = elim (int64_n random (backoff / 2)) [
  | none ↦ none
  | some jitter ↦ some (backoff + jitter)
]

unfoldable pub next_backoff : ℕ → ℕ → Option ℕ
next_backoff random backoff =
    with_jitter random
      (if ltb reconnect_max_backoff (backoff * 2) then reconnect_max_backoff else backoff * 2)

pub data Reconnected : Type 0 where
  connected gave_up pending panicked : Reconnected

-- The waits of the rounds, and how they end; `pending` when the rounds that are given are over.
unfoldable pub reconnect_from : ℕ → List Attempt → List ℕ × Reconnected
unfolding next_backoff
reconnect_from backoff [] = ([], pending)
reconnect_from backoff (a ∷ attempts) =
    if a.cancelled
    then ([], gave_up)
    else if a.connects
    then (backoff ∷ [], connected)
    else elim (next_backoff a.random backoff) [
      | none ↦ (backoff ∷ [], panicked)
      | some next ↦ let (waits, end) = reconnect_from next attempts in (backoff ∷ waits, end)
    ]

unfoldable pub reconnect : List Attempt → List ℕ × Reconnected
unfolding reconnect_from
reconnect attempts = reconnect_from reconnect_initial_backoff attempts

-- The life of the listening goroutine: what a connection receives until it is lost, whether the
-- context has ended then, the rounds of the reconnect, and the database at the gap fill.
pub record Session : Type 0 where
  pub arrivals : List Arrival
  pub cancelled : Bool
  pub attempts : List Attempt
  pub database : Database

abbrev pub is_connected : Reconnected → Bool
is_connected connected = true
is_connected gave_up = false
is_connected pending = false
is_connected panicked = false

unfoldable pub listen : List Session → Listener → Listener
unfolding recv reconnect fill_gap
listen [] l = l
listen (s ∷ sessions) l =
    let l1 = recv s.arrivals l in
    let rest = listen sessions (fill_gap s.database l1) in
    if s.cancelled then l1 else if is_connected (reconnect s.attempts).1 then rest else l1
