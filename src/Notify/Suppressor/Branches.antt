-- ===== src/Notify/Suppressor/Branches.antt =====
-- The branches of the methods of api/internal/notification/suppressor.go as equations.
use taillight.Base.{ℕ, ◌≡◌, true, false, ◌==◌, ℤ, Text, none, some, arith}
use taillight.Base.Assoc.{lookup, insert, text_eq_keys}
use taillight.Notify.Types.{Payload}
use taillight.Notify.Suppressor.{
  Suppressor, Fingerprint, fingerprint_key, accumulate, record_new, record_match, silenced, renewed,
  alert_of, flush_initial, flush_silence, close_fingerprint, fire, Timer, calls_flush_initial,
  calls_flush_silence,
}

module _ (rule_id : ℕ) (group_key : Text) (silence silence_max coalesce : ℤ) (payload : Payload)
    (s : Suppressor) where
  pub record_match_stopped :
      s.stopped ≡ true
      → record_match rule_id group_key silence silence_max coalesce payload s ≡ (s, none)
  unfolding record_match
  record_match_stopped off = ground arith

  pub record_match_new :
      s.stopped ≡ false
      → lookup (fingerprint_key rule_id group_key) s.fingerprints ≡ none
      → record_match rule_id group_key silence silence_max coalesce payload s
        ≡ record_new rule_id group_key silence silence_max coalesce payload s
  unfolding record_match
  record_match_new on fresh = ground arith

  -- A match of a tracked fingerprint is counted, and nothing is sent.
  pub record_match_tracked :
      (fp : Fingerprint)
      → s.stopped ≡ false
      → lookup (fingerprint_key rule_id group_key) s.fingerprints ≡ some fp
      → record_match rule_id group_key silence silence_max coalesce payload s ≡ (
        record s {
          fingerprints =
              insert (fingerprint_key rule_id group_key) (accumulate payload fp) s.fingerprints;
        },
        none,
      )
  unfolding record_match
  record_match_tracked fp on found = ground arith

module _ (rule_id : ℕ) (group_key key : Text) (s : Suppressor) where
  pub flush_initial_stopped : s.stopped ≡ true → flush_initial rule_id group_key key s ≡ (s, none)
  unfolding flush_initial
  flush_initial_stopped off = ground arith

  pub flush_initial_found :
      (fp : Fingerprint)
      → s.stopped ≡ false
      → lookup key s.fingerprints ≡ some fp
      → flush_initial rule_id group_key key s ≡ (
        record s { fingerprints = insert key (silenced rule_id group_key key fp) s.fingerprints },
        some (record {
          rule_id = rule_id;
          group_key = group_key;
          payload = alert_of fp.first fp.count group_key;
        }),
      )
  unfolding flush_initial
  flush_initial_found fp on found = ground arith

  pub flush_silence_stopped : s.stopped ≡ true → flush_silence rule_id group_key key s ≡ (s, none)
  unfolding flush_silence
  flush_silence_stopped off = ground arith

  pub flush_silence_quiet :
      (fp : Fingerprint)
      → s.stopped ≡ false
      → lookup key s.fingerprints ≡ some fp
      → (fp.count == 0) ≡ true
      → flush_silence rule_id group_key key s ≡ (close_fingerprint rule_id key s, none)
  unfolding flush_silence
  flush_silence_quiet fp on found quiet = ground arith

  pub flush_silence_loud :
      (fp : Fingerprint)
      → s.stopped ≡ false
      → lookup key s.fingerprints ≡ some fp
      → (fp.count == 0) ≡ false
      → flush_silence rule_id group_key key s ≡ (
        record s { fingerprints = insert key (renewed rule_id group_key key fp) s.fingerprints },
        some (record {
          rule_id = rule_id;
          group_key = group_key;
          payload = record (fp.last) {
            event_count = fp.count;
            group_key = group_key;
            is_digest = true;
            window = fp.current_silence;
          };
        }),
      )
  unfolding flush_silence
  flush_silence_loud fp on found loud = ground arith

pub fire_initial :
    (t : Timer) (s : Suppressor)
    → t.callback ≡ calls_flush_initial
    → fire t s ≡ flush_initial t.rule_id t.group_key t.key s
unfolding fire
fire_initial t s e = ground arith

pub fire_silence :
    (t : Timer) (s : Suppressor)
    → t.callback ≡ calls_flush_silence
    → fire t s ≡ flush_silence t.rule_id t.group_key t.key s
unfolding fire
fire_silence t s e = ground arith
