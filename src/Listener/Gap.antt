-- ===== src/Listener/Gap.antt =====
-- The recovery of the rows that were missed (api/internal/postgres/listener.go).
use taillight.Base.{
  ℕ, zero, suc, ◌≤◌, ◌<◌, ◌≡◌, refl, ap, sym, ◌∙◌, true, false, ltb, ℤ, pos, Text, codes, text_eq,
  List, [], ◌∷◌, ◌++◌, append-nil, append_assoc, map, some, length, select, take, arith, Bool-cases,
  inl, inr, ◌⊎◌, subst,
}
use taillight.Base.Assoc.{lookup, text_eq_keys}
use taillight.Listener.{
  Listener, RowNotification, Row, Database, store_last_seen_id, last_seen_id_for_channel, forward,
  fill_rows, fill_from, fill_gap_for_channel, channel_table, gap_fill_limit,
}

-- Ids that grow from above `n`.
abbrev pub Ascending : ℕ → List ℕ → Type 0
Ascending n [] = Unit
Ascending n (i ∷ ids) = (n < i) × Ascending i ids

abbrev pub last_or : ℕ → List ℕ → ℕ
last_or n [] = n
last_or n (i ∷ ids) = last_or i ids

select_all : (n m : ℕ) (ids : List ℕ) → n ≤ m → Ascending m ids → select (ltb n) ids ≡ ids
select_all n m [] h up = refl
select_all n m (i ∷ ids) h (here, up) = ground (arith, select_all n i ids)

none_above_last :
    (n : ℕ) (ids : List ℕ)
    → Ascending n ids
    → (n ≤ last_or n ids) × (select (ltb (last_or n ids)) ids ≡ [])
none_above_last n [] up = (omega arith, refl)
none_above_last n (i ∷ ids) (here, up) = ground (arith, none_above_last i ids up)

last_or_le : (n m : ℕ) (ids : List ℕ) → Ascending m ids → n ≤ last_or n (select (ltb n) ids)
last_or_le n m [] up = omega arith
last_or_le n m (i ∷ ids) up = elim (Bool-cases (ltb n i)) [
  | inl above ↦
      let up2 : Ascending n (i ∷ ids) = ground arith in
      rw (select_all n n (i ∷ ids) (omega arith) up2) (none_above_last n (i ∷ ids) up2).0
  | inr below ↦ rw below (last_or_le n i ids up.1)
]

-- Above the last of the ids above `n` there is none.
caught_up :
    (n m : ℕ) (ids : List ℕ)
    → Ascending m ids
    → select (ltb (last_or n (select (ltb n) ids))) ids ≡ []
caught_up n m [] up = refl
caught_up n m (i ∷ ids) up = elim (Bool-cases (ltb n i)) [
  | inl above ↦
      let up2 : Ascending n (i ∷ ids) = ground arith in
      let all = select_all n n (i ∷ ids) (omega arith) up2 in
      subst (λ s. select (ltb (last_or n s)) (i ∷ ids) ≡ []) (sym all)
        (none_above_last n (i ∷ ids) up2).1
  | inr below ↦
      let later : select (ltb n) (i ∷ ids) ≡ select (ltb n) ids = rw below refl in
      let most = last_or_le n i ids up.1 in
      subst (λ s. select (ltb (last_or n s)) (i ∷ ids) ≡ []) (sym later)
        (ground (arith, caught_up n i ids up.1))
]

-- A feed, by its channel.
abbrev pub IsFeed : Text → Type 0
IsFeed channel = (channel ≡ codes "srvlog_ingest") ⊎ (channel ≡ codes "netlog_ingest")

last_seen-store :
    (channel : Text) (id : ℤ) (l : Listener)
    → IsFeed channel
    → last_seen_id_for_channel channel (store_last_seen_id channel id l) ≡ id
unfolding last_seen_id_for_channel store_last_seen_id text_eq
last_seen-store channel id l (inl e) = rw e refl
last_seen-store channel id l (inr e) = rw e refl

abbrev pub row_of : ℕ → Row
row_of i = record { id = some (pos i); cancelled = false }

abbrev pub notification_of : Text → ℕ → RowNotification
notification_of channel i = record { channel = channel; id = pos i }

-- Every id is forwarded, in order.
forward_all : Text → List ℕ → Listener → Listener
unfolding forward
forward_all channel [] l = l
forward_all channel (i ∷ ids) l = forward_all channel ids (forward channel (pos i) l)

fill_rows-all :
    (channel : Text) (ids : List ℕ) (l : Listener)
    → fill_rows channel (map row_of ids) l ≡ (length ids, true, forward_all channel ids l)
unfolding fill_rows forward_all
fill_rows-all channel [] l = refl
fill_rows-all channel (i ∷ ids) l = rw (fill_rows-all channel ids (forward channel (pos i) l)) refl

forward-sent :
    (channel : Text) (id : ℤ) (l : Listener)
    → ((forward channel id l).sent ≡ l.sent ++ record { channel = channel; id = id } ∷ [])
      × ((forward channel id l).truncated ≡ l.truncated)
unfolding forward store_last_seen_id
forward-sent channel id l = ground arith

last_seen-forward :
    (channel : Text) (id : ℤ) (l : Listener)
    → IsFeed channel
    → last_seen_id_for_channel channel (forward channel id l) ≡ id
unfolding forward
last_seen-forward channel id l feed =
    last_seen-store channel id
      (record l { sent = l.sent ++ record { channel = channel; id = id } ∷ [] }) feed

forward_all-sent :
    (channel : Text) (n : ℕ) (ids : List ℕ) (l : Listener)
    → IsFeed channel
    → last_seen_id_for_channel channel l ≡ pos n
    → ((forward_all channel ids l).sent ≡ l.sent ++ map (notification_of channel) ids)
      × ((forward_all channel ids l).truncated ≡ l.truncated)
      × (last_seen_id_for_channel channel (forward_all channel ids l) ≡ pos (last_or n ids))
unfolding forward_all
forward_all-sent channel n [] l feed seen = (sym (append-nil l.sent), refl, seen)
forward_all-sent channel n (i ∷ ids) l feed seen =
    let (sent, same) = forward-sent channel (pos i) l in
    let (more, kept, last) =
      forward_all-sent channel i ids (forward channel (pos i) l) feed
        (last_seen-forward channel (pos i) l feed) in
    (
      more
          ∙ ap (λ t. t ++ map (notification_of channel) ids) sent
          ∙ append_assoc l.sent (notification_of channel i ∷ [])
              (map (notification_of channel) ids),
      kept ∙ same,
      last,
    )

take_all : (n : ℕ) (ids : List ℕ) → length ids ≤ n → take n ids ≡ ids
take_all zero [] h = refl
take_all zero (i ∷ ids) h = ground arith
take_all (suc n) [] h = refl
take_all (suc n) (i ∷ ids) h = ap (◌∷◌ i) (take_all n ids (omega (arith, h)))

fill_from-all :
    (db : Database) (channel table : Text) (n : ℕ) (ids : List ℕ) (l : Listener)
    → lookup channel channel_table ≡ some table
    → db.rows_above table (pos (suc n)) ≡ some (map row_of ids)
    → length ids < gap_fill_limit
    → fill_from db channel (pos (suc n)) l ≡ forward_all channel ids l
unfolding fill_from
fill_from-all db channel table n ids l found given few =
    rw (found, given, fill_rows-all channel ids l, fill_from) (ground arith)

-- The rows that the query gives.
abbrev pub page : ℕ → List ℕ → List Row
page n table = map row_of (take gap_fill_limit (select (ltb n) table))

-- What the table of a channel's feed holds: srvlog_events for srvlog_ingest, netlog_events for
-- netlog_ingest. The query gives the rows above an id.
abbrev pub Serves : Database → Text → ℕ → List ℕ → Type 0
Serves db channel n table =
    ((channel ≡ codes "srvlog_ingest")
      × (db.rows_above (codes "srvlog_events") (pos n) ≡ some (page n table)))
    ⊎ ((channel ≡ codes "netlog_ingest")
        × (db.rows_above (codes "netlog_events") (pos n) ≡ some (page n table)))

Serves-found :
    (db : Database) (channel : Text) (n : ℕ) (table : List ℕ)
    → Serves db channel n table
    → IsFeed channel
      × ((name : Text) × (lookup channel channel_table ≡ some name)
          × (db.rows_above name (pos n) ≡ some (page n table)))
unfolding lookup text_eq
Serves-found db channel n table (inl (e, rows)) = (inl e, (codes "srvlog_events", rw e refl, rows))
Serves-found db channel n table (inr (e, rows)) = (inr e, (codes "netlog_events", rw e refl, rows))

-- For the channel of a feed and an id that was seen, let the query on that feed's table give its rows
-- above that id in order, at most 10000 of them. If there are fewer, no error occurs and the context
-- does not end, then the gap fill sends exactly these ids in order, no row of the table is above the
-- last seen id afterwards, and the truncation is not counted.
pub fill_gap_catches_up :
    (db : Database) (channel : Text) (table : List ℕ) (n : ℕ) (l : Listener)
    → Serves db channel (suc n) table
    → last_seen_id_for_channel channel l ≡ pos (suc n)
    → Ascending 0 table
    → length (select (ltb (suc n)) table) < gap_fill_limit
    → let l1 = fill_gap_for_channel db channel l in
      (l1.sent ≡ l.sent ++ map (notification_of channel) (select (ltb (suc n)) table))
      × (l1.truncated ≡ l.truncated)
      × ((last : ℕ) × (last_seen_id_for_channel channel l1 ≡ pos last)
          × (select (ltb last) table ≡ []))
unfolding fill_gap_for_channel
fill_gap_catches_up db channel table n l serves seen up few =
    let missed = select (ltb (suc n)) table in
    let (feed, (name, found, rows)) = Serves-found db channel (suc n) table serves in
    let given : db.rows_above name (pos (suc n)) ≡ some (map row_of missed) =
      rows ∙ ap (λ ids. some (map row_of ids)) (take_all gap_fill_limit missed (omega arith)) in
    let whole =
      ap (λ i. fill_from db channel i l) seen
      ∙ fill_from-all db channel name n missed l found given few in
    let (sent, kept, last) = forward_all-sent channel (suc n) missed l feed seen in
    (
      ap (λ k. k.sent) whole ∙ sent,
      ap (λ k. k.truncated) whole ∙ kept,
      (
        last_or (suc n) missed,
        ap (last_seen_id_for_channel channel) whole ∙ last,
        caught_up (suc n) 0 table up,
      ),
    )
