-- ===== src/Shipper/Queue/Books.antt =====
-- The account of the entries that a shipper was given (pkg/logshipper/handler.go).
use taillight.Base.{
  ℕ, suc, ◌+◌, ◌≡◌, refl, ap, ◌∙◌, Bool, true, Text, List, [], ◌∷◌, length, length-append, arith,
  Option-cases, inl, inr,
}
use taillight.Shipper.Entry.{LogEntry}
use taillight.Shipper.Queue.{
  Line, Shipper, send, flush_retry, flush_batch, flush, append_raw, make_room, add_raw, add,
  abandon, last_flush, drain_rounds, drain, push, receive_entry,
}

-- What has left the shipper: refused at the channel, failed, or delivered.
abbrev pub settled : Shipper → ℕ
settled s = s.dropped + s.send_failed + s.delivered

-- What the loop holds beside the channel.
abbrev pub held : Shipper → ℕ
held s = length s.batch + length s.retry

-- Every entry that the shipper was given and has not lost sight of.
abbrev pub entries_of : Shipper → ℕ
entries_of s = length s.ch + held s + settled s

module _ (c : Line) where
  flush_retry-entries :
      (s : Shipper)
      → (entries_of (flush_retry c s).1 ≡ entries_of s)
        × ((flush_retry c s).1.retry ≡ [])
        × ((flush_retry c s).1.ch ≡ s.ch)
  unfolding flush_retry send
  flush_retry-entries s = ground arith

  flush_batch-entries :
      (failing : Bool) (s : Shipper)
      → s.retry ≡ []
      → (entries_of (flush_batch c failing s) ≡ entries_of s)
        × ((flush_batch c failing s).batch ≡ [])
        × ((flush_batch c failing s).ch ≡ s.ch)
  unfolding flush_batch send
  flush_batch-entries failing s empty = ground arith

  -- A flush keeps the account, empties the batch and leaves the channel.
  pub flush-entries :
      (s : Shipper)
      → (entries_of (flush c s) ≡ entries_of s) × ((flush c s).batch ≡ []) × ((flush c s).ch ≡ s.ch)
  unfolding flush
  flush-entries s =
      let (kept, empty, same) = flush_retry-entries s in
      let (kept2, done, same2) =
        flush_batch-entries (flush_retry c s).0 (flush_retry c s).1 empty in
      (kept2 ∙ kept, done, same2 ∙ same)

  append_raw-entries :
      (raw : Text) (s : Shipper)
      → (entries_of (append_raw c raw s) ≡ entries_of s + 1) × ((append_raw c raw s).ch ≡ s.ch)
  unfolding append_raw
  append_raw-entries raw s = (omega (arith, length-append s.batch (raw ∷ [])), refl)

  make_room-entries :
      (raw : Text) (s : Shipper)
      → (entries_of (make_room c raw s) ≡ entries_of s) × ((make_room c raw s).ch ≡ s.ch)
  unfolding make_room
  make_room-entries raw s = ground (arith, flush-entries s)

  add_raw-entries :
      (raw : Text) (s : Shipper)
      → (entries_of (add_raw c raw s) ≡ entries_of s + 1) × ((add_raw c raw s).ch ≡ s.ch)
  unfolding add_raw
  add_raw-entries raw s =
      let s1 = append_raw c raw (make_room c raw s) in
      ground (
        arith,
        make_room-entries raw s,
        append_raw-entries raw (make_room c raw s),
        flush-entries s1,
      )

  -- An entry that the loop has received is in the account once.
  pub add-entries :
      (entry : LogEntry) (s : Shipper)
      → (entries_of (add c entry s) ≡ entries_of s + 1) × ((add c entry s).ch ≡ s.ch)
  unfolding add
  add-entries entry s = elim (Option-cases (c.marshal entry)) [
    | inl lost ↦ rw (lost, add) (omega arith, refl)
    | inr (raw, found) ↦ rw (found, add) (ground (arith, add_raw-entries raw s))
  ]

  pub push-entries :
      (entry : LogEntry) (s : Shipper) → entries_of (push c entry s) ≡ entries_of s + 1
  unfolding push
  push-entries entry s = ground (arith, length-append s.ch (entry ∷ []))

  receive_from :
      (entries : List LogEntry) (s : Shipper)
      → s.ch ≡ entries
      → entries_of (receive_entry c s) ≡ entries_of s
  unfolding receive_entry
  receive_from [] s e = rw (e, receive_entry) (omega (arith, ap length e))
  receive_from (entry ∷ entries) s e =
      rw (e, receive_entry)
        (omega (arith, add-entries entry (record s { ch = entries }), ap length e))

  pub receive-entries : (s : Shipper) → entries_of (receive_entry c s) ≡ entries_of s
  receive-entries s = receive_from s.ch s refl

  -- A drain whose context ends, or that comes to its last flush, has settled every entry.
  drain_rounds-settled :
      (expired : ℕ → Bool) (n : ℕ) (entries : List LogEntry) (s : Shipper)
      → s.ch ≡ entries
      → settled (drain_rounds c expired n entries s) ≡ entries_of s
  unfolding drain_rounds abandon last_flush
  drain_rounds-settled expired n [] s e = ground (arith, flush-entries s, ap length e)
  drain_rounds-settled expired n (entry ∷ entries) s e =
      let s1 = add c entry (record s { ch = entries }) in
      let (counted, left) = add-entries entry (record s { ch = entries }) in
      ground (arith, drain_rounds-settled expired (suc n) entries s1 left, counted, ap length e)

  -- After Shutdown's drain every entry that the shipper was given has been delivered or is counted
  -- as dropped or failed, wherever the context of Shutdown ends it.
  pub drain-settled :
      (expired : ℕ → Bool) (s : Shipper) → settled (drain c expired s) ≡ entries_of s
  unfolding drain
  drain-settled expired s = drain_rounds-settled expired 0 s.ch (record s { draining = true }) refl
