-- ===== src/Shipper/Queue/Requests.antt =====
-- The sizes of the requests of a shipper (pkg/logshipper/handler.go).
use taillight.Base.{
  ℕ, suc, ◌+◌, ◌≤◌, ◌<◌, ◌≡◌, refl, Bool, true, ◌&&◌, if◌then◌else◌, ltb, leb, Text, List, [], ◌∷◌,
  ◌++◌, length, length-append, All, arith, Bool-cases, Option-cases, inl, inr,
}
use taillight.Shipper.Queue.Books.{flush-entries}
use taillight.Shipper.Entry.{LogEntry}
use taillight.Shipper.Queue.{
  Line, Shipper, send, has_some, flush_retry, flush_batch, flush, append_raw, make_room, add_raw,
  add, abandon, last_flush, drain_rounds, drain, push, receive_entry, joined, request_body,
  request_prefix, request_suffix,
}

pub request_body-length :
    (entries : List Text) → length (request_body entries) ≡ 11 + length (joined entries)
unfolding request_body
request_body-length entries = omega (
  arith,
  length-append request_prefix (joined entries ++ request_suffix),
  length-append (joined entries) request_suffix,
)

joined-append :
    (entries : List Text) (raw : Text)
    → length (joined (entries ++ raw ∷ []))
      ≡ length (joined entries) + (if has_some entries then 1 else 0) + length raw
joined-append [] raw = omega arith
joined-append (r ∷ []) raw = omega (arith, length-append r (b',' ∷ raw))
joined-append (r ∷ q ∷ rs) raw = omega (
  arith,
  length-append r (b',' ∷ joined ((q ∷ rs) ++ raw ∷ [])),
  length-append r (b',' ∷ joined (q ∷ rs)),
  joined-append (q ∷ rs) raw,
)

module _ (c : Line) where
  -- Within the limits on the entries and the bytes of one request.
  abbrev pub Fits : List Text → Type 0
  Fits entries =
      (length entries ≤ c.batch_size) × (length (request_body entries) ≤ c.max_request_bytes)

  -- The running size of the batch is that of its body, the batch and the retry fit a request, and
  -- so did every request that was sent, none of them without an entry.
  pub record IsBounded (s : Shipper) : Type 0 where
    pub sized : s.batch_bytes ≡ length (request_body s.batch)
    pub batch_fits : Fits s.batch
    pub retry_fits : Fits s.retry
    pub sent_fit : All (λ r. (1 ≤ length r) × Fits r) s.requests

  module _ (room : 11 ≤ c.max_request_bytes) where
    nothing-Fits : Fits []
    nothing-Fits = (omega arith, omega (arith, request_body-length []))

    flush_retry-IsBounded : (s : Shipper) → IsBounded s → IsBounded (flush_retry c s).1
    unfolding flush_retry send
    flush_retry-IsBounded s b = ground (arith, nothing-Fits)

    flush_batch-IsBounded :
        (failing : Bool) (s : Shipper) → IsBounded s → IsBounded (flush_batch c failing s)
    unfolding flush_batch send
    flush_batch-IsBounded failing s b = ground (arith, nothing-Fits, request_body-length [])

    flush-IsBounded : (s : Shipper) → IsBounded s → IsBounded (flush c s)
    unfolding flush
    flush-IsBounded s b =
        flush_batch-IsBounded (flush_retry c s).0 (flush_retry c s).1 (flush_retry-IsBounded s b)

    -- After a flush the batch is empty, so any entry that fits a request alone can join it.
    append_raw-IsBounded :
        (raw : Text) (s : Shipper)
        → IsBounded s
        → length s.batch + 1 ≤ c.batch_size
        → length (joined s.batch) + (if has_some s.batch then 1 else 0) + length raw + 11
          ≤ c.max_request_bytes
        → IsBounded (append_raw c raw s)
    unfolding append_raw
    append_raw-IsBounded raw s b one space = record {
      sized = ground (
        arith,
        b.sized,
        request_body-length s.batch,
        request_body-length (s.batch ++ raw ∷ []),
        joined-append s.batch raw,
      );
      batch_fits = (
        omega (arith, length-append s.batch (raw ∷ [])),
        omega (arith, request_body-length (s.batch ++ raw ∷ []), joined-append s.batch raw),
      );
      retry_fits = b.retry_fits;
      sent_fit = b.sent_fit;
    }

    make_room-IsBounded : (raw : Text) (s : Shipper) → IsBounded s → IsBounded (make_room c raw s)
    unfolding make_room
    make_room-IsBounded raw s b =
        elim (Bool-cases
          (has_some s.batch && ltb c.max_request_bytes (s.batch_bytes + 1 + length raw))) [
            | inl full ↦ rw (full, make_room) (flush-IsBounded s b)
            | inr space ↦ rw (space, make_room) b
          ]

    make_room_space :
        (raw : Text) (s : Shipper)
        → IsBounded s
        → length s.batch < c.batch_size
        → 11 + length raw ≤ c.max_request_bytes
        → let s1 = make_room c raw s in
          (length s1.batch + 1 ≤ c.batch_size)
          × (length (joined s1.batch) + (if has_some s1.batch then 1 else 0) + length raw + 11
              ≤ c.max_request_bytes)
    unfolding make_room
    make_room_space raw s b below small =
        ground (arith, flush-entries c s, request_body-length s.batch, b.sized)

    -- Between two entries the batch has room for one more.
    abbrev pub IsOpen : Shipper → Type 0
    IsOpen s = IsBounded s × (length s.batch < c.batch_size)

    flush-IsOpen : (s : Shipper) → IsBounded s → 0 < c.batch_size → IsOpen (flush c s)
    flush-IsOpen s b some_room = (flush-IsBounded s b, ground (arith, flush-entries c s))

    add_raw-IsOpen :
        (raw : Text) (s : Shipper)
        → IsOpen s
        → 11 + length raw ≤ c.max_request_bytes
        → IsOpen (add_raw c raw s)
    unfolding add_raw
    add_raw-IsOpen raw s (b, below) small =
        let s1 = make_room c raw s in
        let (one, space) = make_room_space raw s b below small in
        let grown = append_raw-IsBounded raw s1 (make_room-IsBounded raw s b) one space in
        elim (Bool-cases (leb c.batch_size (length (append_raw c raw s1).batch))) [
          | inl full ↦ rw (full, add_raw) (flush-IsOpen (append_raw c raw s1) grown (omega arith))
          | inr more ↦ rw (more, add_raw) (grown, ground arith)
        ]

    add-IsOpen : (entry : LogEntry) (s : Shipper) → IsOpen s → IsOpen (add c entry s)
    unfolding add
    add-IsOpen entry s o = elim (Option-cases (c.marshal entry)) [
      | inl lost ↦
          rw (lost, add)
            (
              record {
                sized = o.0.sized;
                batch_fits = o.0.batch_fits;
                retry_fits = o.0.retry_fits;
                sent_fit = o.0.sent_fit;
              },
              o.1,
            )
      | inr (raw, found) ↦ elim (Bool-cases (ltb c.max_request_bytes (11 + length raw))) [
        | inl big ↦
            rw (found, big, add)
              (
                record {
                  sized = o.0.sized;
                  batch_fits = o.0.batch_fits;
                  retry_fits = o.0.retry_fits;
                  sent_fit = o.0.sent_fit;
                },
                o.1,
              )
        | inr small ↦ rw (found, small, add) (add_raw-IsOpen raw s o (ground arith))
      ]
    ]

    pub push-IsOpen : (entry : LogEntry) (s : Shipper) → IsOpen s → IsOpen (push c entry s)
    unfolding push
    push-IsOpen entry s o = ground arith

    receive_from :
        (entries : List LogEntry) (s : Shipper)
        → s.ch ≡ entries
        → IsOpen s
        → IsOpen (receive_entry c s)
    unfolding receive_entry
    receive_from [] s e o = rw (e, receive_entry) o
    receive_from (entry ∷ entries) s e o =
        rw (e, receive_entry) (add-IsOpen entry (record s { ch = entries }) (ground arith))

    pub receive-IsOpen : (s : Shipper) → IsOpen s → IsOpen (receive_entry c s)
    receive-IsOpen s o = receive_from s.ch s refl o

    pub tick-IsOpen : (s : Shipper) → IsOpen s → IsOpen (flush c s)
    tick-IsOpen s o = flush-IsOpen s o.0 (omega arith)

    last_flush-IsOpen : (s : Shipper) → IsOpen s → IsOpen (last_flush c s)
    unfolding last_flush
    last_flush-IsOpen s o = ground (arith, tick-IsOpen s o)

    drain_rounds-IsOpen :
        (expired : ℕ → Bool) (n : ℕ) (entries : List LogEntry) (s : Shipper)
        → IsOpen s
        → IsOpen (drain_rounds c expired n entries s)
    unfolding drain_rounds abandon
    drain_rounds-IsOpen expired n [] s o = ground (arith, last_flush-IsOpen s o)
    drain_rounds-IsOpen expired n (entry ∷ entries) s o =
        let s1 : Shipper = record s { ch = entries } in
        let o1 : IsOpen s1 = ground arith in
        ground (
          arith,
          drain_rounds-IsOpen expired (suc n) entries (add c entry s1) (add-IsOpen entry s1 o1),
        )

    pub drain-IsOpen : (expired : ℕ → Bool) (s : Shipper) → IsOpen s → IsOpen (drain c expired s)
    unfolding drain
    drain-IsOpen expired s o =
        let s1 : Shipper = record s { draining = true } in
        let o1 : IsOpen s1 = ground arith in drain_rounds-IsOpen expired 0 s.ch s1 o1
