-- ===== src/Notify/Suppressor.antt =====
-- api/internal/notification/suppressor.go: the first match of a fingerprint fires at once, repeats
-- within the silence window collapse into a digest.
--
-- A method runs under the mutex, so it is one step. The callback `onFlush`, called after the
-- mutex is released, is the second result. A fingerprint holds the timer that `time.AfterFunc`
-- armed last, with what its function will call; `fire` is the runtime calling it.
mod Branches
pub mod Invariant
pub mod Accounting
pub mod Lifecycle
pub mod Alerts
pub mod Stopping
use taillight.Base.{
  ℕ, suc, ◌+◌, ◌-◌, ◌*◌, Bool, true, false, ◌&&◌, ◌||◌, if◌then◌else◌, ltb, leb, ◌==◌, ℤ, pos, ◌+ℤ◌,
  ltb_ℤ, wrap64, Text, List, [], ◌∷◌, ◌++◌, Option, none, some, length, take,
}
use taillight.Base.Assoc.{Assoc, lookup, insert, delete, total, weigh, text_eq_keys, nat_eq}
use taillight.Base.Decimal.{decimal}
use taillight.Model.Event.{AppLogEvent, with_attrs_preview}
use taillight.Notify.Types.{Payload, empty_payload}

abbrev pub max_fingerprints_per_rule : ℕ
max_fingerprints_per_rule = 10000

abbrev pub max_fingerprints_global : ℕ
max_fingerprints_global = 5 * max_fingerprints_per_rule

abbrev pub max_retained_msg_bytes : ℕ
max_retained_msg_bytes = 4096

pub data Phase : Type 0 where
  phase_coalesce phase_silence : Phase

-- What a timer's function calls.
pub data Callback : Type 0 where
  calls_flush_initial calls_flush_silence : Callback

pub record Timer : Type 0 where
  pub delay : ℤ
  pub callback : Callback
  pub rule_id : ℕ
  pub group_key : Text
  pub key : Text

pub record Fingerprint : Type 0 where
  pub phase : Phase
  pub first : Payload
  pub last : Payload
  pub count : ℕ
  pub current_silence : ℤ
  pub base_silence : ℤ
  pub max_silence : ℤ
  pub coalesce : ℤ
  pub timer : Timer

-- `dropped` is the metric of refused fingerprints.
pub record Suppressor : Type 0 where
  pub fingerprints : Assoc Text Fingerprint
  pub rule_fingerprint_count : Assoc ℕ ℕ
  pub stopped : Bool
  pub dropped : ℕ

-- A call of `onFlush`.
pub record Flush : Type 0 where
  pub rule_id : ℕ
  pub group_key : Text
  pub payload : Payload

unfoldable pub new : Suppressor
new = record { fingerprints = []; rule_fingerprint_count = []; stopped = false; dropped = 0 }

-- fmt.Sprintf("%d:%s", ruleID, groupKey)
unfoldable pub fingerprint_key : ℕ → Text → Text
fingerprint_key rule_id group_key = decimal rule_id ++ b':' ∷ group_key

trim_msg : AppLogEvent → AppLogEvent
trim_msg e =
    if ltb max_retained_msg_bytes (length e.msg)
    then record e { msg = take max_retained_msg_bytes e.msg }
    else e

unfoldable pub trim_for_digest : Payload → Payload
unfolding trim_msg with_attrs_preview
trim_for_digest payload = elim payload.applog_event [
  | none ↦ payload
  | some ev ↦
      if length ev.attrs == 0 && leb (length ev.msg) max_retained_msg_bytes
      then payload
      else record payload { applog_event = some (trim_msg (with_attrs_preview 0 ev)) }
]

-- A map's count: a missing key reads as 0.
abbrev pub count_of : ℕ → Assoc ℕ ℕ → ℕ
count_of r m = weigh (λ n. n) (lookup r m)

abbrev pub alert_of : Payload → ℕ → Text → Payload
alert_of payload event_count group_key = record payload {
  event_count = event_count;
  group_key = group_key;
  is_digest = false;
}

-- The fingerprint of a first match, in its coalesce window or already in its silence window.
abbrev pub first_fingerprint : ℕ → Text → ℤ → ℤ → ℤ → Payload → Fingerprint
first_fingerprint rule_id group_key silence silence_max coalesce payload =
    let coalescing = ltb_ℤ (pos 0) coalesce in
    record {
      phase = if coalescing then phase_coalesce else phase_silence;
      first = if coalescing then payload else empty_payload;
      last = trim_for_digest payload;
      count = if coalescing then 1 else 0;
      current_silence = silence;
      base_silence = silence;
      max_silence = silence_max;
      coalesce = coalesce;
      timer = record {
        delay = if coalescing then coalesce else silence;
        callback = if coalescing then calls_flush_initial else calls_flush_silence;
        rule_id = rule_id;
        group_key = group_key;
        key = fingerprint_key rule_id group_key;
      };
    }

-- `fp.count++` and the newest event.
abbrev pub accumulate : Payload → Fingerprint → Fingerprint
accumulate payload fp = record fp { count = fp.count + 1; last = trim_for_digest payload }

abbrev pub at_capacity : ℕ → Suppressor → Bool
at_capacity rule_id s =
    leb max_fingerprints_per_rule (count_of rule_id s.rule_fingerprint_count)
    || leb max_fingerprints_global (total (λ fp. 1) s.fingerprints)

-- The part of Record for a key that is not tracked yet.
pub record_new : ℕ → Text → ℤ → ℤ → ℤ → Payload → Suppressor → Suppressor × Option Flush
record_new rule_id group_key silence silence_max coalesce payload s =
    if at_capacity rule_id s then (record s { dropped = s.dropped + 1 }, none) else (
      record s {
        fingerprints =
            insert (fingerprint_key rule_id group_key)
              (first_fingerprint rule_id group_key silence silence_max coalesce payload)
              s.fingerprints;
        rule_fingerprint_count =
            insert rule_id (count_of rule_id s.rule_fingerprint_count + 1) s.rule_fingerprint_count;
      },
      if ltb_ℤ (pos 0) coalesce
          then none
          else some (record {
            rule_id = rule_id;
            group_key = group_key;
            payload = alert_of payload 1 group_key;
          }),
    )

-- Record
unfoldable pub record_match :
    ℕ → Text → ℤ → ℤ → ℤ → Payload → Suppressor → Suppressor × Option Flush
unfolding record_new
record_match rule_id group_key silence silence_max coalesce payload s =
    let key = fingerprint_key rule_id group_key in
    if s.stopped then (s, none) else elim (lookup key s.fingerprints) [
      | some fp ↦
          (record s { fingerprints = insert key (accumulate payload fp) s.fingerprints }, none)
      | none ↦ record_new rule_id group_key silence silence_max coalesce payload s
    ]

-- The fingerprint after its first alert: the silence window is open.
abbrev pub silenced : ℕ → Text → Text → Fingerprint → Fingerprint
silenced rule_id group_key key fp = record fp {
  first = empty_payload;
  phase = phase_silence;
  count = 0;
  timer = record {
    delay = fp.current_silence;
    callback = calls_flush_silence;
    rule_id = rule_id;
    group_key = group_key;
    key = key;
  };
}

unfoldable pub flush_initial : ℕ → Text → Text → Suppressor → Suppressor × Option Flush
flush_initial rule_id group_key key s =
    if s.stopped then (s, none) else elim (lookup key s.fingerprints) [
      | none ↦ (s, none)
      | some fp ↦ (
        record s { fingerprints = insert key (silenced rule_id group_key key fp) s.fingerprints },
        some (record {
          rule_id = rule_id;
          group_key = group_key;
          payload = alert_of fp.first fp.count group_key;
        }),
      )
    ]

-- The next silence window: longer by the base, at most the maximum if there is one.
unfoldable pub next_silence : Fingerprint → ℤ
next_silence fp =
    let next = wrap64 (fp.current_silence +ℤ fp.base_silence) in
    if ltb_ℤ (pos 0) fp.max_silence && ltb_ℤ fp.max_silence next then fp.max_silence else next

-- The fingerprint after a digest: a longer silence window is open.
abbrev pub renewed : ℕ → Text → Text → Fingerprint → Fingerprint
renewed rule_id group_key key fp = record fp {
  current_silence = next_silence fp;
  count = 0;
  timer = record {
    delay = next_silence fp;
    callback = calls_flush_silence;
    rule_id = rule_id;
    group_key = group_key;
    key = key;
  };
}

-- A quiet window closes the fingerprint.
pub close_fingerprint : ℕ → Text → Suppressor → Suppressor
close_fingerprint rule_id key s = record s {
  fingerprints = delete key s.fingerprints;
  rule_fingerprint_count =
      let n = count_of rule_id s.rule_fingerprint_count in
      if ltb 0 n then insert rule_id (n - 1) s.rule_fingerprint_count else s.rule_fingerprint_count;
}

unfoldable pub flush_silence : ℕ → Text → Text → Suppressor → Suppressor × Option Flush
unfolding close_fingerprint
flush_silence rule_id group_key key s =
    if s.stopped then (s, none) else elim (lookup key s.fingerprints) [
      | none ↦ (s, none)
      | some fp ↦ if fp.count == 0 then (close_fingerprint rule_id key s, none) else (
        record s { fingerprints = insert key (renewed rule_id group_key key fp) s.fingerprints },
        some (record {
          rule_id = rule_id;
          group_key = group_key;
          payload = record (fp.last) {
            event_count = fp.count;
            group_key = group_key;
            is_digest = true;
            window = fp.current_silence;
          };
        }),
      )
    ]

-- Stop clears both maps.
unfoldable pub stop : Suppressor → Suppressor
stop s = record s { stopped = true; fingerprints = []; rule_fingerprint_count = [] }

-- The runtime runs an expired timer's function.
unfoldable pub fire : Timer → Suppressor → Suppressor × Option Flush
fire t s = elim t.callback [
  | calls_flush_initial ↦ flush_initial t.rule_id t.group_key t.key s
  | calls_flush_silence ↦ flush_silence t.rule_id t.group_key t.key s
]
