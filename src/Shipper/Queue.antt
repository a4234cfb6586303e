-- ===== src/Shipper/Queue.antt =====
-- The buffer, the batches, the one retry and the drain: loop and send of
-- pkg/logshipper/handler.go. The encoder and the server's answers are parameters; the log of
-- requests is what the server was sent, newest first.
pub mod Books
pub mod Requests
pub mod Origin
use taillight.Base.{
  ℕ, suc, ◌+◌, ◌-◌, Bool, true, false, not, ◌&&◌, ◌||◌, if◌then◌else◌, ltb, leb, ◌==◌, Text, codes,
  List, [], ◌∷◌, ◌++◌, Option, none, some, length,
}
use taillight.Shipper.Entry.{LogEntry}

abbrev pub request_prefix : Text
request_prefix = codes "{\"logs\":["

abbrev pub request_suffix : Text
request_suffix = codes "]}"

abbrev pub empty_request_bytes : ℕ
empty_request_bytes = 11

-- The entries of a body, with a comma between two.
abbrev pub joined : List Text → Text
joined [] = []
joined (r ∷ []) = r
joined (r ∷ q ∷ rs) = r ++ b',' ∷ joined (q ∷ rs)

-- The body that send posts.
unfoldable pub request_body : List Text → Text
request_body entries = request_prefix ++ joined entries ++ request_suffix

pub data SendError : Type 0 where
  transport_error : SendError
  status_error : ℕ → SendError

-- The result of a post, by the status of the answer; `none` stands for no answer. Only 2xx is a
-- delivery.
abbrev pub send_error : Option ℕ → Option SendError
send_error none = some transport_error
send_error (some code) = if ltb code 200 || leb 300 code then some (status_error code) else none

unfoldable pub retryable : SendError → Bool
retryable transport_error = true
retryable (status_error code) =
    code == 401 || code == 408 || code == 429 || ltb code 400 || leb 500 code

-- json.Marshal of an entry, the answer to each request by its number, and the limits.
pub record Line : Type 0 where
  pub marshal : LogEntry → Option Text
  pub answers : ℕ → Option ℕ
  pub batch_size : ℕ
  pub buffer_size : ℕ
  pub max_request_bytes : ℕ

pub record Shipper : Type 0 where
  pub ch : List LogEntry
  pub batch : List Text
  pub batch_bytes : ℕ
  pub retry : List Text
  pub draining : Bool
  pub dropped : ℕ
  pub send_failed : ℕ
  pub requests : List (List Text)
  pub delivered : ℕ  -- entries in the requests that were answered with 2xx

unfoldable pub new_shipper : Shipper
new_shipper = record {
  ch = [];
  batch = [];
  batch_bytes = empty_request_bytes;
  retry = [];
  draining = false;
  dropped = 0;
  send_failed = 0;
  requests = [];
  delivered = 0;
}

abbrev pub has_some : {A : Type 0} → List A → Bool
has_some [] = false
has_some (x ∷ xs) = true

module _ (c : Line) where
  open c use {marshal, answers, batch_size, buffer_size, max_request_bytes}

  unfoldable pub send : List Text → Shipper → Option SendError × Shipper
  send entries s =
      let err = send_error (answers (length s.requests)) in
      (
        err,
        record s {
          requests = entries ∷ s.requests;
          delivered = s.delivered + (elim err [ none ↦ length entries | some e ↦ 0 ]);
        },
      )

  -- The resend of the previous batch, and whether the endpoint seems to fail.
  unfoldable pub flush_retry : Shipper → Bool × Shipper
  unfolding send
  flush_retry s =
      let (err, s1) = send s.retry s in
      if not (has_some s.retry) then (false, s) else elim err [
        | none ↦ (false, record s1 { retry = [] })
        | some e ↦
            (retryable e, record s1 { retry = []; send_failed = s.send_failed + length s.retry })
      ]

  -- `batch` is emptied.
  abbrev pub clear : Shipper → Shipper
  clear s = record s { batch = []; batch_bytes = empty_request_bytes }

  unfoldable pub flush_batch : Bool → Shipper → Shipper
  unfolding send
  flush_batch endpoint_failing s =
      if not (has_some s.batch)
      then s
      else if endpoint_failing && not s.draining
      then clear (record s { retry = s.batch })
      else let (err, s1) = send s.batch s in
        elim err [
          | none ↦ clear s1
          | some e ↦
              if retryable e
              then clear (record s1 { retry = s.batch })
              else clear (record s1 { send_failed = s.send_failed + length s.batch })
        ]

  unfoldable pub flush : Shipper → Shipper
  unfolding flush_retry flush_batch
  flush s = let (endpoint_failing, s1) = flush_retry s in flush_batch endpoint_failing s1

  unfoldable pub append_raw : Text → Shipper → Shipper
  append_raw raw s = record s {
    batch = s.batch ++ raw ∷ [];
    batch_bytes = (if has_some s.batch then s.batch_bytes + 1 else s.batch_bytes) + length raw;
  }

  -- Room for an entry: a flush if it would take the request past the limit.
  unfoldable pub make_room : Text → Shipper → Shipper
  unfolding flush
  make_room raw s =
      if has_some s.batch && ltb max_request_bytes (s.batch_bytes + 1 + length raw)
      then flush s
      else s

  unfoldable pub add_raw : Text → Shipper → Shipper
  unfolding make_room append_raw flush
  add_raw raw s =
      let s1 = append_raw raw (make_room raw s) in
      if leb batch_size (length s1.batch) then flush s1 else s1

  unfoldable pub add : LogEntry → Shipper → Shipper
  unfolding add_raw
  add entry s = elim (marshal entry) [
    | none ↦ record s { send_failed = s.send_failed + 1 }
    | some raw ↦
        if ltb max_request_bytes (empty_request_bytes + length raw)
        then record s { send_failed = s.send_failed + 1 }
        else add_raw raw s
  ]

  -- The end of a drain whose context has expired: what was not sent is counted.
  unfoldable pub abandon : Shipper → Shipper
  abandon s = record s {
    send_failed = s.send_failed + (length s.batch + length s.retry + length s.ch);
  }

  unfoldable pub last_flush : Shipper → Shipper
  unfolding flush
  last_flush s = let s1 = flush s in record s1 { send_failed = s1.send_failed + length s1.retry }

  -- The loop of drain over what is left in the channel; `expired` tells, at each round, whether the
  -- context of Shutdown has ended.
  unfoldable pub drain_rounds : (ℕ → Bool) → ℕ → List LogEntry → Shipper → Shipper
  unfolding abandon last_flush add
  drain_rounds expired n [] s = if expired n then abandon s else last_flush s
  drain_rounds expired n (entry ∷ entries) s =
      let rest = drain_rounds expired (suc n) entries (add entry (record s { ch = entries })) in
      if expired n then abandon s else rest

  unfoldable pub drain : (ℕ → Bool) → Shipper → Shipper
  unfolding drain_rounds
  drain expired s = drain_rounds expired 0 s.ch (record s { draining = true })

  -- The non-blocking send on the channel in Handle.
  unfoldable pub push : LogEntry → Shipper → Shipper
  push entry s =
      if ltb (length s.ch) buffer_size
      then record s { ch = s.ch ++ entry ∷ [] }
      else record s { dropped = s.dropped + 1 }

  -- The loop receives an entry, if there is one.
  unfoldable pub receive_entry : Shipper → Shipper
  unfolding add
  receive_entry s = elim s.ch [ [] ↦ s | entry ∷ entries ↦ add entry (record s { ch = entries }) ]
