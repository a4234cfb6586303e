-- ===== src/Notify/Suppressor/Alerts.antt =====
-- When the suppressor alerts at once (api/internal/notification/suppressor.go).
use taillight.Base.{
  ℕ, ◌+◌, ◌-◌, ◌≤◌, ◌≡◌, refl, subst, true, false, if◌then◌else◌, ◌==◌, pos, ltb_ℤ, Text, text_eq,
  text_eq_iff, List, [], ◌∷◌, Option, none, some, arith, Option-cases, inl, inr,
}
use taillight.Base.Assoc.{
  lookup, text_eq_keys, nat_eq, lookup-insert, lookup-insert_self, lookup-delete_self, total-delete,
}
use taillight.Notify.Suppressor.{
  Suppressor, Fingerprint, Flush, fingerprint_key, first_fingerprint, accumulate, at_capacity,
  record_new, close_fingerprint, count_of,
}
use taillight.Notify.Suppressor.Branches.{
  record_match_new, record_match_tracked, flush_silence_quiet, fire_silence,
}
use taillight.Notify.Suppressor.Invariant.{
  IsConsistent, of_rule, found-IsArmed, fingerprint_key-injective,
}
use taillight.Notify.Suppressor.Accounting.{Match, Act, matched, expired, act, run, prepend}
use taillight.Notify.Suppressor.Lifecycle.{IsSilenced}

-- Below the caps a new fingerprint without a coalesce window is announced at once.
record_new_alert :
    (x : Match) (s : Suppressor)
    → at_capacity x.rule_id s ≡ false
    → ltb_ℤ (pos 0) x.coalesce ≡ false
    → (f : Flush) × ((record_new x.rule_id x.group_key x.silence x.silence_max x.coalesce x.payload
          s).1
        ≡ some f)
      × (f.payload.event_count ≡ 1)
      × (f.payload.is_digest ≡ false)
unfolding record_new
record_new_alert x s space at_once = (
  record {
    rule_id = x.rule_id;
    group_key = x.group_key;
    payload = record (x.payload) { event_count = 1; group_key = x.group_key; is_digest = false };
  },
  ground arith,
  refl,
  refl,
)

close_fingerprint_space :
    (fp : Fingerprint) (key : Text) (s : Suppressor)
    → IsConsistent s
    → lookup key s.fingerprints ≡ some fp
    → at_capacity fp.timer.rule_id (close_fingerprint fp.timer.rule_id key s) ≡ false
unfolding close_fingerprint
close_fingerprint_space fp key s c found =
    let r = fp.timer.rule_id in
    let n = count_of r s.rule_fingerprint_count in
    ground (
      arith,
      total-delete (λ fp. 1) key s.fingerprints,
      total-delete (of_rule r) key s.fingerprints,
      lookup-insert_self r (n - 1) s.rule_fingerprint_count,
      c.counted r,
      c.capped r,
      c.at_most,
    )

expired_quiet :
    (x : Match) (b m c : ℕ) (s : Suppressor) (h : IsSilenced x.rule_id x.group_key b m c s)
    → (h.fp.count == 0) ≡ true
    → act (expired (fingerprint_key x.rule_id x.group_key)) s
      ≡ (close_fingerprint h.fp.timer.rule_id (fingerprint_key x.rule_id x.group_key) s, none)
unfolding act
expired_quiet x b m c s h quiet =
    let t = h.fp.timer in
    let key = fingerprint_key x.rule_id x.group_key in
    let eq = flush_silence_quiet t.rule_id t.group_key key s h.fp h.running h.tracked quiet in
    rw (h.tracked, act) (rw (fire_silence t s h.waits, h.aimed, eq) refl)

-- In a consistent suppressor a silence window without a match sends nothing and closes the
-- fingerprint; the next match of the same rule and group, without a coalesce window, is then
-- sent at once, as an alert of one event. The closed fingerprint has made room for it, so no
-- cap refuses it.
pub quiet_then_alert :
    (x : Match) (b m c : ℕ) (s : Suppressor) (h : IsSilenced x.rule_id x.group_key b m c s)
    → IsConsistent s
    → (h.fp.count == 0) ≡ true
    → ltb_ℤ (pos 0) x.coalesce ≡ false
    → let (s1, sent) = act (expired (fingerprint_key x.rule_id x.group_key)) s in
      (sent ≡ none)
      × (lookup (fingerprint_key x.rule_id x.group_key) s1.fingerprints ≡ none)
      × ((f : Flush) × ((act (matched x) s1).1 ≡ some f)
          × (f.payload.event_count ≡ 1)
          × (f.payload.is_digest ≡ false))
quiet_then_alert x b m c s h k quiet at_once =
    let key = fingerprint_key x.rule_id x.group_key in
    let r = h.fp.timer.rule_id in
    let s1 = close_fingerprint r key s in
    let closed : lookup key s1.fingerprints ≡ none =
      unfold close_fingerprint in lookup-delete_self key s.fingerprints k.distinct in
    let running : s1.stopped ≡ false = unfold close_fingerprint in h.running in
    let same : r ≡ x.rule_id =
      (fingerprint_key-injective r x.rule_id h.fp.timer.group_key x.group_key
        (found-IsArmed key h.fp s k h.tracked).named).0 in
    let space = close_fingerprint_space h.fp key s k h.tracked in
    let (f, sends, one, alert) =
      record_new_alert x s1 (subst (λ i. at_capacity i s1 ≡ false) same space) at_once in
    rw (expired_quiet x b m c s h quiet) (
      refl,
      closed,
      (
        f,
        unfold act in
            rw
              (record_match_new x.rule_id x.group_key x.silence x.silence_max x.coalesce x.payload
                s1 running closed)
              sends,
        one,
        alert,
      ),
    )

-- A burst of matches, with no timer expiring between them.
abbrev pub burst : List Match → List Act
burst [] = []
burst (x ∷ xs) = matched x ∷ burst xs

abbrev pub alert_for : Text → Option Flush → ℕ
alert_for key none = 0
alert_for key (some f) = if text_eq (fingerprint_key f.rule_id f.group_key) key then 1 else 0

abbrev pub alerts_for : Text → List Flush → ℕ
alerts_for key [] = 0
alerts_for key (f ∷ fs) = alert_for key (some f) + alerts_for key fs

-- 1 if no fingerprint of the key is tracked.
abbrev pub is_fresh : Text → Suppressor → ℕ
is_fresh key s = elim (lookup key s.fingerprints) [ none ↦ 1 | some fp ↦ 0 ]

record_new_once :
    (key : Text) (x : Match) (s : Suppressor)
    → s.stopped ≡ false
    → lookup (fingerprint_key x.rule_id x.group_key) s.fingerprints ≡ none
    → let (s', out) =
        record_new x.rule_id x.group_key x.silence x.silence_max x.coalesce x.payload s in
      (s'.stopped ≡ false) × (alert_for key out + is_fresh key s' ≤ is_fresh key s)
unfolding record_new
record_new_once key x s on fresh =
    let k = fingerprint_key x.rule_id x.group_key in
    let fp = first_fingerprint x.rule_id x.group_key x.silence x.silence_max x.coalesce x.payload in
    ground (arith, lookup-insert k key fp s.fingerprints, text_eq_iff k key)

matched_once :
    (key : Text) (x : Match) (s : Suppressor)
    → s.stopped ≡ false
    → let (s', out) = act (matched x) s in
      (s'.stopped ≡ false) × (alert_for key out + is_fresh key s' ≤ is_fresh key s)
unfolding act
matched_once key x s on =
    let k = fingerprint_key x.rule_id x.group_key in
    elim (Option-cases (lookup k s.fingerprints)) [
      | inl fresh ↦
          rw
            (record_match_new x.rule_id x.group_key x.silence x.silence_max x.coalesce x.payload s
              on fresh)
            (record_new_once key x s on fresh)
      | inr (fp, found) ↦
          rw
            (record_match_tracked x.rule_id x.group_key x.silence x.silence_max x.coalesce x.payload
              s fp on found)
            (
              on,
              ground (
                arith,
                lookup-insert k key (accumulate x.payload fp) s.fingerprints,
                text_eq_iff k key,
              ),
            )
    ]

alerts_for-prepend :
    (key : Text) (o : Option Flush) (fs : List Flush)
    → alerts_for key (prepend o fs) ≡ alert_for key o + alerts_for key fs
alerts_for-prepend key none fs = omega arith
alerts_for-prepend key (some f) fs = refl

-- While a suppressor is not stopped, a burst of matches with no timer expiring between them
-- sends at most one alert for each fingerprint, and none for one that is tracked already.
pub burst_sends_once :
    (key : Text) (xs : List Match) (s : Suppressor)
    → s.stopped ≡ false
    → alerts_for key (run (burst xs) s).1 ≤ is_fresh key s
unfolding run
burst_sends_once key [] s on = omega arith
burst_sends_once key (x ∷ xs) s on =
    let (on', step) = matched_once key x s on in
    omega (
      arith,
      step,
      burst_sends_once key xs (act (matched x) s).0 on',
      alerts_for-prepend key (act (matched x) s).1 (run (burst xs) (act (matched x) s).0).1,
    )
