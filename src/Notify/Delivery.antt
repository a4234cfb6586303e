-- ===== src/Notify/Delivery.antt =====
-- Delivery of a notification to one channel: the sending half of
-- api/internal/notification/engine.go, and ratelimit.go. The backends, the circuit breakers
-- (sony/gobreaker), the token buckets (x/time/rate), the JSON marshaller and the context are
-- parameters.
pub mod Retry
pub mod Evict
use taillight.Base.{
  ℕ, suc, ◌+◌, ◌*◌, ◌-◌, ◌/◌, Bool, true, false, not, ◌&&◌, if◌then◌else◌, ltb, leb, ◌==◌, ℤ, pos,
  pos_part, neg_part, eq_ℤ, sub_ℕ, Text, codes, List, [], ◌∷◌, ◌++◌, Option, none, some, length,
}
use taillight.Base.Assoc.{Assoc, lookup, insert, nat_eq}
use taillight.Notify.Types.{Channel, Rule, Payload, SendResult, LogEntry}

-- In nanoseconds: 5 s, 30 s, 2 min and 10 min.
abbrev pub retry_schedule : List ℕ
retry_schedule = 5000000000 ∷ 30000000000 ∷ 120000000000 ∷ 600000000000 ∷ []

-- An hour, in nanoseconds.
abbrev pub limiter_ttl : ℕ
limiter_ttl = 3600 * 1000000000

pub record LimiterEntry (L : Type 0) : Type 0 where
  pub limiter : L
  pub last_used : ℕ

pub record BreakerEntry (B : Type 0) : Type 0 where
  pub cb : B
  pub last_used : ℕ

-- evictOlderThan of the limiters and evictStaleBreakersAsOf of the breakers: `now.Sub` of a later
-- time is negative, which no ttl is below.
unfoldable pub evict_older_than : {V : Type 0} → (V → ℕ) → ℕ → ℕ → Assoc ℕ V → Assoc ℕ V
evict_older_than last_used now ttl [] = []
evict_older_than last_used now ttl ((id, entry) ∷ m) =
    let rest = evict_older_than last_used now ttl m in
    if ltb ttl (now - last_used entry) then rest else (id, entry) ∷ rest

-- The entry of a channel, made if it is missing, with the time of its use.
unfoldable pub limiter_for :
    {L : Type 0} → L → ℕ → ℕ → Assoc ℕ (LimiterEntry L) → L × Assoc ℕ (LimiterEntry L)
limiter_for fresh now channel_id m = elim (lookup channel_id m) [
  | some entry ↦ (entry.limiter, insert channel_id (record entry { last_used = now }) m)
  | none ↦ (fresh, insert channel_id (record { limiter = fresh; last_used = now }) m)
]

unfoldable pub get_or_create_breaker :
    {B : Type 0} → B → ℕ → ℕ → Assoc ℕ (BreakerEntry B) → B × Assoc ℕ (BreakerEntry B)
get_or_create_breaker fresh now channel_id m = elim (lookup channel_id m) [
  | some entry ↦ (entry.cb, insert channel_id (record entry { last_used = now }) m)
  | none ↦ (fresh, insert channel_id (record { cb = fresh; last_used = now }) m)
]

pub data AttemptStatus : Type 0 where
  attempt_success attempt_failed attempt_suppressed : AttemptStatus

abbrev pub optional_int : ℤ → Option ℤ
optional_int v = if eq_ℤ v (pos 0) then none else some v

-- Duration.Milliseconds, which rounds towards zero.
abbrev pub to_milliseconds : ℤ → ℤ
to_milliseconds d = sub_ℕ (pos_part d / 1000000) (neg_part d / 1000000)

-- The id of the payload's event, the feeds first; 0 if it carries none.
abbrev pub event_id_of : Payload → ℕ
event_id_of p = elim p.srvlog_event [
  | some e ↦ e.id
  | none ↦ elim p.netlog_event [
    | some e ↦ e.id
    | none ↦ elim p.applog_event [
      | some e ↦ e.id
      | none ↦ elim p.analysis_report [ some r ↦ r.id | none ↦ 0 ]
    ]
  ]
]

abbrev pub no_result : SendResult
no_result = record { success = false; status_code = pos 0; error = none; duration = pos 0 }

-- What the engine calls when it delivers. Attempts are numbered from 1.
pub record Outside (B : Type 0) : Type 0 where
  -- json.Marshal of a payload; nil on an error
  pub marshal : Payload → Text
  -- strconv.Quote
  pub quote : Text → Text
  -- the backend registered for the channel's type, and what its Send gives at an attempt
  pub has_backend : Text → Bool
  pub send : ℕ → Channel → Payload → SendResult
  -- CircuitBreaker.Execute around a call with its result and error; `none` is no error
  pub execute : B → SendResult → Option Text → B × SendResult × Option Text
  pub is_open : B → Bool
  -- ctx.Err() before an attempt, and whether the context ends the wait after it
  pub cancelled : ℕ → Bool
  pub cancelled_wait : ℕ → Bool

-- An effect of a delivery: a row of notification_log, or a wait.
pub data Action : Type 0 where
  log_row : LogEntry → Action
  wait_for : ℕ → Action

module _ {B : Type 0} (o : Outside B) (rule : Rule) (ch : Channel) (payload : Payload) where
  open o use {marshal, quote, has_backend, send, execute, is_open, cancelled, cancelled_wait}

  -- recordLog; a failed insert is only logged.
  unfoldable pub row : Text → Option Text → SendResult → LogEntry
  row status reason result = record {
    rule_id = rule.id;
    channel_id = ch.id;
    event_kind = payload.kind;
    event_id = event_id_of payload;
    status = status;
    reason = reason;
    event_count = payload.event_count;
    status_code = optional_int result.status_code;
    duration_ms = to_milliseconds result.duration;
    payload = marshal payload;
  }

  -- attemptSend through the channel's breaker: the error of a failed send is the function's.
  unfoldable pub attempt_send : ℕ → B → B × AttemptStatus × SendResult
  attempt_send attempt cb =
      if not (has_backend ch.channel_type)
      then (
        cb,
        attempt_failed,
        record no_result { error = some (codes "no backend for type " ++ quote ch.channel_type) },
      )
      else let r = send attempt ch payload in
        let (cb2, result, err) = execute cb r (if r.success then none else r.error) in
        elim err [
          | none ↦ (cb2, attempt_success, result)
          | some e ↦
              if is_open cb2
              then (
                cb2,
                attempt_suppressed,
                record result {
                  success = false;
                  error = some (codes "circuit breaker open: " ++ e);
                },
              )
              else (cb2, attempt_failed, record result { error = some e })
        ]

  abbrev pub reason_of : SendResult → Text
  reason_of result = elim result.error [ none ↦ [] | some e ↦ e ]

  -- The row of an attempt; only a failure goes on, with a wait or its row alone.
  unfoldable pub finish : AttemptStatus → SendResult → List Action → List Action
  unfolding row
  finish attempt_success result rest = log_row (row (codes "sent") none result) ∷ []
  finish attempt_suppressed result rest =
      log_row (row (codes "suppressed") result.error result) ∷ []
  finish attempt_failed result rest =
      log_row (row (codes "failed") (some (reason_of result)) result) ∷ rest

  abbrev pub has_failed : AttemptStatus → Bool
  has_failed attempt_success = false
  has_failed attempt_failed = true
  has_failed attempt_suppressed = false

  -- The loop of sendWithRetry from an attempt, with the delays that are left: one for each
  -- further attempt.
  unfoldable pub attempts : ℕ → List ℕ → B → B × List Action
  unfolding finish attempt_send
  attempts attempt [] cb =
      if cancelled attempt
      then (cb, [])
      else let (cb2, status, result) = attempt_send attempt cb in (cb2, finish status result [])
  attempts attempt (delay ∷ delays) cb =
      if cancelled attempt
      then (cb, [])
      else let (cb2, status, result) = attempt_send attempt cb in
        let (cb3, rest) = attempts (suc attempt) delays cb2 in
        if cancelled_wait attempt
        then (cb2, finish status result (wait_for delay ∷ []))
        else (if has_failed status then cb3 else cb2, finish status result (wait_for delay ∷ rest))

  -- sendWithRetry, after what the channel's rate limiter said.
  unfoldable pub send_with_retry : Bool → B → B × List Action
  send_with_retry allowed cb =
      if not allowed
      then (cb, log_row (row (codes "suppressed") (some (codes "rate limited")) no_result) ∷ [])
      else attempts 1 retry_schedule cb
