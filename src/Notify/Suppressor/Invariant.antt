-- ===== src/Notify/Suppressor/Invariant.antt =====
-- The invariant of the suppressor of api/internal/notification/suppressor.go: keys, counts per
-- rule, caps and phases.
use taillight.Base.{
  ℕ, ◌+◌, ◌-◌, ◌≤◌, ◌≡◌, refl, if◌then◌else◌, ◌==◌, ℤ, Text, none, some, arith, Bool-cases,
  Option-cases, inl, inr, ◌⊎◌,
}
use taillight.Base.Assoc.{
  lookup, insert, total, text_eq_keys, nat_eq, Distinct, lookup-insert, insert-Distinct,
  delete-Distinct, total-insert, total-delete, Every, insert-Every, delete-Every, lookup-Every,
}
use taillight.Base.Decimal.{decimal_colon-injective}
use taillight.Notify.Types.{Payload}
use taillight.Notify.Suppressor.{
  Suppressor, Fingerprint, phase_coalesce, phase_silence, calls_flush_initial, calls_flush_silence,
  new, fingerprint_key, count_of, first_fingerprint, accumulate, at_capacity, record_new,
  record_match, silenced, renewed, flush_initial, flush_silence, close_fingerprint, stop, fire,
}
use taillight.Notify.Suppressor.Branches.{
  record_match_stopped, record_match_new, record_match_tracked, flush_initial_stopped,
  flush_initial_found, flush_silence_stopped, flush_silence_quiet, flush_silence_loud, fire_initial,
  fire_silence,
}

-- The keys of two different pairs of a rule and a group differ, whatever the group keys hold.
pub fingerprint_key-injective :
    (r r' : ℕ) (g g' : Text) → fingerprint_key r g ≡ fingerprint_key r' g' → (r ≡ r') × (g ≡ g')
unfolding fingerprint_key
fingerprint_key-injective r r' g g' = decimal_colon-injective r r' g g'

-- 1 if the fingerprint belongs to the rule.
abbrev pub of_rule : ℕ → Fingerprint → ℕ
of_rule r fp = if fp.timer.rule_id == r then 1 else 0

-- The timer of an entry acts on this entry, and in the way that its phase wants.
pub record IsArmed (key : Text) (fp : Fingerprint) : Type 0 where
  pub aimed : fp.timer.key ≡ key
  pub named : fingerprint_key fp.timer.rule_id fp.timer.group_key ≡ key
  pub phased :
      ((fp.phase ≡ phase_coalesce) × (fp.timer.callback ≡ calls_flush_initial))
      ⊎ ((fp.phase ≡ phase_silence) × (fp.timer.callback ≡ calls_flush_silence))

pub record IsConsistent (s : Suppressor) : Type 0 where
  pub distinct : Distinct s.fingerprints
  pub armed : Every IsArmed s.fingerprints
  pub counted : (r : ℕ) → count_of r s.rule_fingerprint_count ≡ total (of_rule r) s.fingerprints
  pub capped : (r : ℕ) → total (of_rule r) s.fingerprints ≤ 10000
  pub at_most : total (λ fp. 1) s.fingerprints ≤ 50000

pub new-IsConsistent : IsConsistent new
unfolding new
new-IsConsistent = record {
  distinct = tt;
  armed = tt;
  counted = λ r. unfold total lookup in refl;
  capped = λ r. unfold total in omega arith;
  at_most = unfold total in omega arith;
}

-- Rewriting an entry with the same rule in its timer changes no count.
pub rewrite-IsConsistent :
    (key : Text) (fp fp' : Fingerprint) (s : Suppressor)
    → IsConsistent s
    → lookup key s.fingerprints ≡ some fp
    → fp'.timer.rule_id ≡ fp.timer.rule_id
    → IsArmed key fp'
    → IsConsistent (record s { fingerprints = insert key fp' s.fingerprints })
rewrite-IsConsistent key fp fp' s c found same armed = record {
  distinct = insert-Distinct key fp' s.fingerprints c.distinct;
  armed = insert-Every IsArmed key fp' s.fingerprints armed c.armed;
  counted = λ r. ground (arith, total-insert (of_rule r) key fp' s.fingerprints, c.counted r);
  capped = λ r. ground (arith, total-insert (of_rule r) key fp' s.fingerprints, c.capped r);
  at_most = ground (arith, total-insert (λ fp. 1) key fp' s.fingerprints, c.at_most);
}

pub found-IsArmed :
    (key : Text) (fp : Fingerprint) (s : Suppressor)
    → IsConsistent s
    → lookup key s.fingerprints ≡ some fp
    → IsArmed key fp
found-IsArmed key fp s c found = lookup-Every IsArmed key fp s.fingerprints c.armed found

record_new-IsConsistent :
    (rule_id : ℕ) (group_key : Text) (silence silence_max coalesce : ℤ) (payload : Payload)
    (s : Suppressor)
    → IsConsistent s
    → lookup (fingerprint_key rule_id group_key) s.fingerprints ≡ none
    → IsConsistent (record_new rule_id group_key silence silence_max coalesce payload s).0
unfolding record_new
record_new-IsConsistent rule_id group_key silence silence_max coalesce payload s c fresh =
    let key = fingerprint_key rule_id group_key in
    let fp = first_fingerprint rule_id group_key silence silence_max coalesce payload in
    let counts = s.rule_fingerprint_count in
    elim (Bool-cases (at_capacity rule_id s)) [
      | inl full ↦ rw full (record {
        distinct = c.distinct;
        armed = c.armed;
        counted = c.counted;
        capped = c.capped;
        at_most = c.at_most;
      })
      | inr space ↦ rw space (record {
        distinct = insert-Distinct key fp s.fingerprints c.distinct;
        armed =
            insert-Every IsArmed key fp s.fingerprints
              (record { aimed = refl; named = refl; phased = ground arith }) c.armed;
        counted = λ r. ground (
          arith,
          total-insert (of_rule r) key fp s.fingerprints,
          lookup-insert rule_id r (count_of rule_id counts + 1) counts,
          c.counted r,
        );
        capped = λ r.
            ground (arith, total-insert (of_rule r) key fp s.fingerprints, c.counted r, c.capped r);
        at_most = ground (arith, total-insert (λ fp. 1) key fp s.fingerprints);
      })
    ]

accumulate-IsArmed :
    (key : Text) (fp : Fingerprint) (payload : Payload)
    → IsArmed key fp
    → IsArmed key (accumulate payload fp)
accumulate-IsArmed key fp payload a = record { aimed = a.aimed; named = a.named; phased = a.phased }

-- A match recorded with a consistent suppressor, whether its fingerprint is tracked, admitted
-- or refused, leaves the suppressor consistent: the counts of each rule are right, the caps
-- hold, and every fingerprint has a timer that acts on it and fits its phase.
pub record_match-IsConsistent :
    (rule_id : ℕ) (group_key : Text) (silence silence_max coalesce : ℤ) (payload : Payload)
    (s : Suppressor)
    → IsConsistent s
    → IsConsistent (record_match rule_id group_key silence silence_max coalesce payload s).0
record_match-IsConsistent rule_id group_key silence silence_max coalesce payload s c =
    let key = fingerprint_key rule_id group_key in
    elim (Bool-cases s.stopped) [
      | inl off ↦
          rw (record_match_stopped rule_id group_key silence silence_max coalesce payload s off) c
      | inr on ↦ elim (Option-cases (lookup key s.fingerprints)) [
        | inl fresh ↦
            rw (record_match_new rule_id group_key silence silence_max coalesce payload s on fresh)
              (record_new-IsConsistent rule_id group_key silence silence_max coalesce payload s c
                fresh)
        | inr (fp, found) ↦
            rw
              (record_match_tracked rule_id group_key silence silence_max coalesce payload s fp on
                found)
              (rewrite-IsConsistent key fp (accumulate payload fp) s c found refl
                (accumulate-IsArmed key fp payload (found-IsArmed key fp s c found)))
      ]
    ]

flush_initial-IsConsistent :
    (fp : Fingerprint) (key : Text) (s : Suppressor)
    → IsConsistent s
    → lookup key s.fingerprints ≡ some fp
    → IsConsistent (flush_initial fp.timer.rule_id fp.timer.group_key key s).0
flush_initial-IsConsistent fp key s c found =
    let r = fp.timer.rule_id in
    let g = fp.timer.group_key in
    let armed : IsArmed key (silenced r g key fp) = record {
      aimed = refl;
      named = (found-IsArmed key fp s c found).named;
      phased = inr (refl, refl);
    } in
    elim (Bool-cases s.stopped) [
      | inl off ↦ rw (flush_initial_stopped r g key s off) c
      | inr on ↦
          rw (flush_initial_found r g key s fp on found)
            (rewrite-IsConsistent key fp (silenced r g key fp) s c found refl armed)
    ]

close_fingerprint-IsConsistent :
    (fp : Fingerprint) (key : Text) (s : Suppressor)
    → IsConsistent s
    → lookup key s.fingerprints ≡ some fp
    → IsConsistent (close_fingerprint fp.timer.rule_id key s)
unfolding close_fingerprint
close_fingerprint-IsConsistent fp key s c found =
    let rule_id = fp.timer.rule_id in
    let counts = s.rule_fingerprint_count in
    record {
      distinct = delete-Distinct key s.fingerprints c.distinct;
      armed = delete-Every IsArmed key s.fingerprints c.armed;
      counted = λ r. ground (
        arith,
        total-delete (of_rule r) key s.fingerprints,
        lookup-insert rule_id r (count_of rule_id counts - 1) counts,
        c.counted r,
      );
      capped = λ r. omega (arith, total-delete (of_rule r) key s.fingerprints, c.capped r);
      at_most = omega (arith, total-delete (λ fp. 1) key s.fingerprints, c.at_most);
    }

flush_silence-IsConsistent :
    (fp : Fingerprint) (key : Text) (s : Suppressor)
    → IsConsistent s
    → lookup key s.fingerprints ≡ some fp
    → fp.phase ≡ phase_silence
    → IsConsistent (flush_silence fp.timer.rule_id fp.timer.group_key key s).0
flush_silence-IsConsistent fp key s c found silent =
    let r = fp.timer.rule_id in
    let g = fp.timer.group_key in
    let armed : IsArmed key (renewed r g key fp) = record {
      aimed = refl;
      named = (found-IsArmed key fp s c found).named;
      phased = inr (silent, refl);
    } in
    elim (Bool-cases s.stopped) [
      | inl off ↦ rw (flush_silence_stopped r g key s off) c
      | inr on ↦ elim (Bool-cases (fp.count == 0)) [
        | inl quiet ↦
            rw (flush_silence_quiet r g key s fp on found quiet)
              (close_fingerprint-IsConsistent fp key s c found)
        | inr loud ↦
            rw (flush_silence_loud r g key s fp on found loud)
              (rewrite-IsConsistent key fp (renewed r g key fp) s c found refl armed)
      ]
    ]

-- The expiry of the timer of a tracked fingerprint leaves a consistent suppressor consistent.
pub fire-IsConsistent :
    (fp : Fingerprint) (key : Text) (s : Suppressor)
    → IsConsistent s
    → lookup key s.fingerprints ≡ some fp
    → IsConsistent (fire fp.timer s).0
fire-IsConsistent fp key s c found =
    let armed = found-IsArmed key fp s c found in
    elim armed.phased [
      | inl (waiting, initial) ↦
          rw (fire_initial fp.timer s initial, armed.aimed)
            (flush_initial-IsConsistent fp key s c found)
      | inr (silent, digest) ↦
          rw (fire_silence fp.timer s digest, armed.aimed)
            (flush_silence-IsConsistent fp key s c found silent)
    ]

pub stop-IsConsistent : (s : Suppressor) → IsConsistent (stop s)
unfolding stop
stop-IsConsistent s = record {
  distinct = tt;
  armed = tt;
  counted = λ r. unfold total lookup in refl;
  capped = λ r. unfold total in omega arith;
  at_most = unfold total in omega arith;
}
