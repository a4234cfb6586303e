-- ===== src/Shipper/Queue/Origin.antt =====
-- Where the entries of a request come from (pkg/logshipper/handler.go).
use taillight.Base.{
  ℕ, suc, ◌+◌, ◌≡◌, refl, Bool, true, ◌&&◌, ltb, leb, Text, List, [], ◌∷◌, some, length, All,
  All-append, arith, Bool-cases, Option-cases, inl, inr, subst,
}
use taillight.Shipper.Entry.{LogEntry}
use taillight.Shipper.Queue.Books.{add-entries}
use taillight.Shipper.Queue.{
  Line, Shipper, send, has_some, flush_retry, flush_batch, flush, append_raw, make_room, add_raw,
  add, abandon, last_flush, drain_rounds, drain, push, receive_entry,
}

module _ (c : Line) (P : LogEntry → Type 0) where
  -- The encoding of an entry that satisfies P.
  abbrev pub IsFrom : Text → Type 0
  IsFrom raw = (entry : LogEntry) × P entry × (c.marshal entry ≡ some raw)

  -- Every entry in the channel satisfies P, and so does that of every encoded one.
  pub record IsGenuine (s : Shipper) : Type 0 where
    pub queued : All P s.ch
    pub batched : All IsFrom s.batch
    pub kept : All IsFrom s.retry
    pub sent : All (All IsFrom) s.requests

  flush_retry-IsGenuine : (s : Shipper) → IsGenuine s → IsGenuine (flush_retry c s).1
  unfolding flush_retry send
  flush_retry-IsGenuine s g = ground arith

  flush_batch-IsGenuine :
      (failing : Bool) (s : Shipper) → IsGenuine s → IsGenuine (flush_batch c failing s)
  unfolding flush_batch send
  flush_batch-IsGenuine failing s g = ground arith

  pub flush-IsGenuine : (s : Shipper) → IsGenuine s → IsGenuine (flush c s)
  unfolding flush
  flush-IsGenuine s g =
      flush_batch-IsGenuine (flush_retry c s).0 (flush_retry c s).1 (flush_retry-IsGenuine s g)

  append_raw-IsGenuine :
      (raw : Text) (s : Shipper) → IsFrom raw → IsGenuine s → IsGenuine (append_raw c raw s)
  unfolding append_raw
  append_raw-IsGenuine raw s from g = record {
    queued = g.queued;
    batched = All-append IsFrom s.batch (raw ∷ []) g.batched (from, tt);
    kept = g.kept;
    sent = g.sent;
  }

  make_room-IsGenuine : (raw : Text) (s : Shipper) → IsGenuine s → IsGenuine (make_room c raw s)
  unfolding make_room
  make_room-IsGenuine raw s g =
      elim (Bool-cases
        (has_some s.batch && ltb c.max_request_bytes (s.batch_bytes + 1 + length raw))) [
          | inl full ↦ rw (full, make_room) (flush-IsGenuine s g)
          | inr space ↦ rw (space, make_room) g
        ]

  add_raw-IsGenuine :
      (raw : Text) (s : Shipper) → IsFrom raw → IsGenuine s → IsGenuine (add_raw c raw s)
  unfolding add_raw
  add_raw-IsGenuine raw s from g =
      let s1 = append_raw c raw (make_room c raw s) in
      let grown = append_raw-IsGenuine raw (make_room c raw s) from (make_room-IsGenuine raw s g) in
      elim (Bool-cases (leb c.batch_size (length s1.batch))) [
        | inl full ↦ rw (full, add_raw) (flush-IsGenuine s1 grown)
        | inr more ↦ rw (more, add_raw) grown
      ]

  add-IsGenuine :
      (entry : LogEntry) (s : Shipper) → P entry → IsGenuine s → IsGenuine (add c entry s)
  unfolding add
  add-IsGenuine entry s p g = elim (Option-cases (c.marshal entry)) [
    | inl lost ↦
        rw (lost, add)
          (record { queued = g.queued; batched = g.batched; kept = g.kept; sent = g.sent })
    | inr (raw, found) ↦ elim (Bool-cases (ltb c.max_request_bytes (11 + length raw))) [
      | inl big ↦
          rw (found, big, add)
            (record { queued = g.queued; batched = g.batched; kept = g.kept; sent = g.sent })
      | inr small ↦ rw (found, small, add) (add_raw-IsGenuine raw s (entry, p, found) g)
    ]
  ]

  pub push-IsGenuine :
      (entry : LogEntry) (s : Shipper) → P entry → IsGenuine s → IsGenuine (push c entry s)
  unfolding push
  push-IsGenuine entry s p g = elim (Bool-cases (ltb (length s.ch) c.buffer_size)) [
    | inl room ↦
        rw (room, push)
          (record {
            queued = All-append P s.ch (entry ∷ []) g.queued (p, tt);
            batched = g.batched;
            kept = g.kept;
            sent = g.sent;
          })
    | inr full ↦
        rw (full, push)
          (record { queued = g.queued; batched = g.batched; kept = g.kept; sent = g.sent })
  ]

  taken-IsGenuine :
      (entry : LogEntry) (entries : List LogEntry) (s : Shipper)
      → s.ch ≡ entry ∷ entries
      → IsGenuine s
      → P entry × IsGenuine (record s { ch = entries })
  taken-IsGenuine entry entries s e g =
      let (first, others) = subst (All P) e g.queued in
      (first, record { queued = others; batched = g.batched; kept = g.kept; sent = g.sent })

  receive_from :
      (entries : List LogEntry) (s : Shipper)
      → s.ch ≡ entries
      → IsGenuine s
      → IsGenuine (receive_entry c s)
  unfolding receive_entry
  receive_from [] s e g = rw (e, receive_entry) g
  receive_from (entry ∷ entries) s e g =
      let (first, left) = taken-IsGenuine entry entries s e g in
      rw (e, receive_entry) (add-IsGenuine entry (record s { ch = entries }) first left)

  pub receive-IsGenuine : (s : Shipper) → IsGenuine s → IsGenuine (receive_entry c s)
  receive-IsGenuine s g = receive_from s.ch s refl g

  last_flush-IsGenuine : (s : Shipper) → IsGenuine s → IsGenuine (last_flush c s)
  unfolding last_flush
  last_flush-IsGenuine s g = ground (arith, flush-IsGenuine s g)

  drain_rounds-IsGenuine :
      (expired : ℕ → Bool) (n : ℕ) (entries : List LogEntry) (s : Shipper)
      → s.ch ≡ entries
      → IsGenuine s
      → IsGenuine (drain_rounds c expired n entries s)
  unfolding drain_rounds abandon
  drain_rounds-IsGenuine expired n [] s e g = ground (arith, last_flush-IsGenuine s g)
  drain_rounds-IsGenuine expired n (entry ∷ entries) s e g =
      let s1 : Shipper = record s { ch = entries } in
      let (first, left) = taken-IsGenuine entry entries s e g in
      let added = add-IsGenuine entry s1 first left in
      ground (
        arith,
        drain_rounds-IsGenuine expired (suc n) entries (add c entry s1) (add-entries c entry s1).1
            added,
      )

  pub drain-IsGenuine :
      (expired : ℕ → Bool) (s : Shipper) → IsGenuine s → IsGenuine (drain c expired s)
  unfolding drain
  drain-IsGenuine expired s g =
      let s1 : Shipper = record s { draining = true } in
      let g1 : IsGenuine s1 = record {
        queued = g.queued;
        batched = g.batched;
        kept = g.kept;
        sent = g.sent;
      } in
      drain_rounds-IsGenuine expired 0 s.ch s1 refl g1
