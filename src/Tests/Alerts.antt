-- ===== src/Tests/Alerts.antt =====
-- Runs of the suppressor.
use taillight.Base.{
  ℕ, ◌+◌, ◌*◌, ◌≤◌, ◌≡◌, refl, true, false, min, pos, Text, codes, text_eq, List, [], ◌∷◌, none,
  some, arith,
}
use taillight.Base.Assoc.{lookup, insert, total, text_eq_keys, nat_eq}
use taillight.Base.Decimal.{decimal}
use taillight.Notify.Suppressor.{
  Suppressor, Fingerprint, Flush, Timer, calls_flush_silence, new, fingerprint_key, record_match,
  fire, stop, first_fingerprint,
}
use taillight.Notify.Suppressor.Invariant.{
  IsConsistent, new-IsConsistent, record_match-IsConsistent, fire-IsConsistent, stop-IsConsistent,
}
use taillight.Notify.Suppressor.Accounting.{Act, matched, expired, act, run, Settles, run-Settles}
use taillight.Notify.Suppressor.Stopping.{recorded, called_back, stopping, calls, calls_end_at_stop}
use taillight.Notify.Suppressor.Lifecycle.{IsSilenced, busy_windows, busy_windows_grow}
use taillight.Notify.Suppressor.Alerts.{
  quiet_then_alert, burst, alerts_for, is_fresh, burst_sends_once,
}
use taillight.Tests.Data.{link_match, calm_match}

abbrev link_key : Text
link_key = codes "3:sw-oslo-1"

abbrev a_day : List Act
a_day =
    matched link_match
    ∷ matched calm_match
    ∷ matched link_match
    ∷ expired link_key
    ∷ expired (codes "3:sw-oslo-2")
    ∷ expired link_key
    ∷ []

run-Settles_example : Settles a_day new
run-Settles_example = run-Settles a_day new new-IsConsistent (unfold new in refl)

abbrev open_window : Timer
open_window = record {
  delay = pos 60;
  callback = calls_flush_silence;
  rule_id = 3;
  group_key = codes "sw-oslo-1";
  key = link_key;
}

-- Two matches and a Stop while the window's function waits for the mutex.
calls_end_at_stop_example :
    let (s1, sent) = calls (recorded link_match ∷ recorded link_match ∷ []) new in
    let (s2, all_sent) =
      calls
        (recorded link_match
          ∷ recorded link_match
          ∷ stopping
          ∷ called_back open_window
          ∷ recorded calm_match
          ∷ [])
        new in
    (all_sent ≡ sent)
    × (s2.stopped ≡ true)
    × (s2.fingerprints ≡ [])
    × (s2.rule_fingerprint_count ≡ [])
    × (s2.dropped ≡ s1.dropped)
calls_end_at_stop_example =
    calls_end_at_stop (recorded link_match ∷ recorded link_match ∷ [])
      (called_back open_window ∷ recorded calm_match ∷ []) new

-- The suppressor after one match: its alert is out and its silence window open.
abbrev alerted : Suppressor
alerted = (record_match 3 (codes "sw-oslo-1") (pos 60) (pos 150) (pos 0) link_match.payload new).0

alerted-IsConsistent : IsConsistent alerted
alerted-IsConsistent =
    record_match-IsConsistent 3 (codes "sw-oslo-1") (pos 60) (pos 150) (pos 0) link_match.payload
      new new-IsConsistent

record_match-IsConsistent_example :
    IsConsistent
      (record_match 3 (codes "sw-oslo-1") (pos 60) (pos 150) (pos 0) link_match.payload new).0
record_match-IsConsistent_example =
    record_match-IsConsistent 3 (codes "sw-oslo-1") (pos 60) (pos 150) (pos 0) link_match.payload
      new new-IsConsistent

abbrev link_fingerprint : Fingerprint
link_fingerprint =
    first_fingerprint 3 (codes "sw-oslo-1") (pos 60) (pos 150) (pos 0) link_match.payload

alerted-tracked :
    lookup (fingerprint_key 3 (codes "sw-oslo-1")) alerted.fingerprints ≡ some link_fingerprint
unfolding record_match fingerprint_key lookup insert text_eq decimal total new
alerted-tracked = refl

fire-IsConsistent_example : IsConsistent (fire link_fingerprint.timer alerted).0
fire-IsConsistent_example =
    fire-IsConsistent link_fingerprint (fingerprint_key 3 (codes "sw-oslo-1")) alerted
      alerted-IsConsistent alerted-tracked

stop-IsConsistent_example : IsConsistent (stop alerted)
stop-IsConsistent_example = stop-IsConsistent alerted

alerted_silent : IsSilenced 3 (codes "sw-oslo-1") 60 150 60 alerted
unfolding record_match fingerprint_key lookup insert text_eq decimal total new
alerted_silent = record {
  running = refl;
  fp = link_fingerprint;
  tracked = alerted-tracked;
  current = refl;
  base = refl;
  maximum = refl;
  waits = refl;
  aimed = refl;
}

busy_windows_grow_example :
    IsSilenced 3
      (codes "sw-oslo-1")
      60
      150
      (min (60 + 4 * 60) 150)
      (run (busy_windows link_match 4) alerted).0
busy_windows_grow_example =
    busy_windows_grow link_match 60 150 (omega arith) (omega arith) (omega arith) 4 60 alerted
      alerted_silent (omega arith)

quiet_then_alert_example :
    let (s1, sent) = act (expired (fingerprint_key 3 (codes "sw-oslo-1"))) alerted in
    (sent ≡ none)
    × (lookup (fingerprint_key 3 (codes "sw-oslo-1")) s1.fingerprints ≡ none)
    × ((f : Flush) × ((act (matched link_match) s1).1 ≡ some f)
        × (f.payload.event_count ≡ 1)
        × (f.payload.is_digest ≡ false))
unfolding record_match alerted_silent
quiet_then_alert_example =
    quiet_then_alert link_match 60 150 60 alerted alerted_silent alerted-IsConsistent refl refl

burst_sends_once_example :
    alerts_for link_key (run (burst (link_match ∷ link_match ∷ calm_match ∷ [])) new).1
    ≤ is_fresh link_key new
burst_sends_once_example =
    burst_sends_once link_key (link_match ∷ link_match ∷ calm_match ∷ []) new (unfold new in refl)

abbrev link_rule_id : ℕ
link_rule_id = 3
