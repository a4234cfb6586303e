-- ===== src/Notify/Suppressor/Accounting.antt =====
-- Histories of the suppressor, and the account of the matches in them
-- (api/internal/notification/suppressor.go).
use taillight.Base.{
  ℕ, suc, ◌+◌, ◌≡◌, refl, false, ◌==◌, ℤ, Text, List, [], ◌∷◌, Option, none, some, arith,
  Bool-cases, Option-cases, inl, inr,
}
use taillight.Base.Assoc.{lookup, total, text_eq_keys, nat_eq, total-insert, total-delete}
use taillight.Notify.Types.{Payload}
use taillight.Notify.Suppressor.{
  Suppressor, Fingerprint, Flush, fingerprint_key, first_fingerprint, accumulate, record_new,
  record_match, silenced, renewed, close_fingerprint, fire,
}
use taillight.Notify.Suppressor.Branches.{
  record_match_new, record_match_tracked, flush_initial_found, flush_silence_quiet,
  flush_silence_loud, fire_initial, fire_silence,
}
use taillight.Notify.Suppressor.Invariant.{
  IsConsistent, found-IsArmed, record_match-IsConsistent, fire-IsConsistent,
}

pub record Match : Type 0 where
  pub rule_id : ℕ
  pub group_key : Text
  pub silence : ℤ
  pub silence_max : ℤ
  pub coalesce : ℤ
  pub payload : Payload

-- A match arrives, or the timer of a key expires.
pub data Act : Type 0 where
  matched : Match → Act
  expired : Text → Act

unfoldable pub act : Act → Suppressor → Suppressor × Option Flush
act (matched m) s =
    record_match m.rule_id m.group_key m.silence m.silence_max m.coalesce m.payload s
act (expired key) s = elim (lookup key s.fingerprints) [
  | none ↦ (s, none)
  | some fp ↦ fire fp.timer s
]

abbrev pub prepend : Option Flush → List Flush → List Flush
prepend none fs = fs
prepend (some f) fs = f ∷ fs

-- A history and what it sends, oldest first.
unfoldable pub run : List Act → Suppressor → Suppressor × List Flush
unfolding act
run [] s = (s, [])
run (a ∷ as') s = let (s1, out) = act a s in let (s2, outs) = run as' s1 in (s2, prepend out outs)

-- Matches that wait in an open window.
abbrev pub pending : Suppressor → ℕ
pending s = total (λ fp. fp.count) s.fingerprints

abbrev pub events_of : Option Flush → ℕ
events_of none = 0
events_of (some f) = f.payload.event_count

abbrev pub sent_events : List Flush → ℕ
sent_events [] = 0
sent_events (f ∷ fs) = f.payload.event_count + sent_events fs

abbrev pub matches_in : List Act → ℕ
matches_in [] = 0
matches_in (matched m ∷ as') = suc (matches_in as')
matches_in (expired k ∷ as') = matches_in as'

-- What one call does to the books: `n` new matches.
abbrev Balanced : ℕ → Suppressor → Suppressor × Option Flush → Type 0
Balanced n s r =
    (r.0.stopped ≡ false) × (pending r.0 + events_of r.1 + r.0.dropped ≡ pending s + s.dropped + n)

record_new-Balanced :
    (m : Match) (s : Suppressor)
    → s.stopped ≡ false
    → lookup (fingerprint_key m.rule_id m.group_key) s.fingerprints ≡ none
    → Balanced 1 s (record_new m.rule_id m.group_key m.silence m.silence_max m.coalesce m.payload s)
unfolding record_new
record_new-Balanced m s on fresh = ground (
  arith,
  total-insert (λ fp. fp.count) (fingerprint_key m.rule_id m.group_key)
      (first_fingerprint m.rule_id m.group_key m.silence m.silence_max m.coalesce m.payload)
      s.fingerprints,
)

matched-Balanced :
    (m : Match) (s : Suppressor) → s.stopped ≡ false → Balanced 1 s (act (matched m) s)
unfolding act
matched-Balanced m s on =
    let key = fingerprint_key m.rule_id m.group_key in
    elim (Option-cases (lookup key s.fingerprints)) [
      | inl fresh ↦
          rw
            (record_match_new m.rule_id m.group_key m.silence m.silence_max m.coalesce m.payload s
              on fresh)
            (record_new-Balanced m s on fresh)
      | inr (fp, found) ↦
          rw
            (record_match_tracked m.rule_id m.group_key m.silence m.silence_max m.coalesce m.payload
              s fp on found)
            (
              on,
              ground (
                arith,
                total-insert (λ fp. fp.count) key (accumulate m.payload fp) s.fingerprints,
              ),
            )
    ]

fire-Balanced :
    (fp : Fingerprint) (key : Text) (s : Suppressor)
    → IsConsistent s
    → s.stopped ≡ false
    → lookup key s.fingerprints ≡ some fp
    → Balanced 0 s (fire fp.timer s)
fire-Balanced fp key s c on found =
    let a = found-IsArmed key fp s c found in
    let r = fp.timer.rule_id in
    let g = fp.timer.group_key in
    let w = λ (x : Fingerprint). x.count in
    elim a.phased [
      | inl (waiting, initial) ↦
          rw (fire_initial fp.timer s initial, a.aimed, flush_initial_found r g key s fp on found)
            (on, ground (arith, total-insert w key (silenced r g key fp) s.fingerprints))
      | inr (silent, digest) ↦ elim (Bool-cases (fp.count == 0)) [
        | inl quiet ↦
            rw
              (
                fire_silence fp.timer s digest,
                a.aimed,
                flush_silence_quiet r g key s fp on found quiet,
              )
              (unfold close_fingerprint in (on, ground (arith, total-delete w key s.fingerprints)))
        | inr loud ↦
            rw
              (
                fire_silence fp.timer s digest,
                a.aimed,
                flush_silence_loud r g key s fp on found loud,
              )
              (on, ground (arith, total-insert w key (renewed r g key fp) s.fingerprints))
      ]
    ]

act-Balanced :
    (a : Act) (s : Suppressor)
    → IsConsistent s
    → s.stopped ≡ false
    → IsConsistent (act a s).0 × Balanced (matches_in (a ∷ [])) s (act a s)
unfolding act
act-Balanced (matched m) s c on = (
  record_match-IsConsistent m.rule_id m.group_key m.silence m.silence_max m.coalesce m.payload s c,
  unfold act in matched-Balanced m s on,
)
act-Balanced (expired key) s c on = elim (Option-cases (lookup key s.fingerprints)) [
  | inl gone ↦ rw (gone, act) (c, (on, omega arith))
  | inr (fp, found) ↦
      rw (found, act) (fire-IsConsistent fp key s c found, fire-Balanced fp key s c on found)
]

sent-prepend :
    (o : Option Flush) (fs : List Flush) → sent_events (prepend o fs) ≡ events_of o + sent_events fs
sent-prepend none fs = omega arith
sent-prepend (some f) fs = refl

matches_in-cons : (a : Act) (r : List Act) → matches_in (a ∷ r) ≡ matches_in (a ∷ []) + matches_in r
matches_in-cons (matched m) r = omega arith
matches_in-cons (expired k) r = omega arith

-- How a history ends: the suppressor is consistent, and every match was sent in an alert or a
-- digest, waits in an open window, or was refused at the capacity.
abbrev pub Settles : List Act → Suppressor → Type 0
Settles acts s =
    let (s', flushes) = run acts s in
    IsConsistent s'
    × (pending s' + sent_events flushes + s'.dropped ≡ pending s + s.dropped + matches_in acts)

-- Over any history of matches and expired timers, from a consistent suppressor that is not
-- stopped, every match is accounted for exactly once: the events that the alerts and digests
-- announce, those that wait in open windows and those refused at the capacity add up to the
-- matches and what waited or was refused before. The suppressor is consistent at the end.
pub run-Settles :
    (acts : List Act) (s : Suppressor) → IsConsistent s → s.stopped ≡ false → Settles acts s
unfolding run
run-Settles [] s c on = (c, omega arith)
run-Settles (a ∷ as') s c on =
    let (c1, (on1, books)) = act-Balanced a s c on in
    let (c', rest) = run-Settles as' (act a s).0 c1 on1 in
    (
      c',
      omega (
        arith,
        rest,
        books,
        sent-prepend (act a s).1 (run as' (act a s).0).1,
        matches_in-cons a as',
      ),
    )
