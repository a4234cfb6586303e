-- ===== src/Notify/Suppressor/Lifecycle.antt =====
-- The silence windows of one fingerprint (api/internal/notification/suppressor.go).
use taillight.Base.{
  subst, ℕ, zero, suc, ◌+◌, ◌*◌, ◌^◌, ◌≤◌, ◌<◌, min, ◌≡◌, refl, true, false, ◌==◌, pos, ◌+ℤ◌,
  wrap64_id, Text, List, [], ◌∷◌, some, arith,
}
use taillight.Base.Assoc.{lookup, text_eq_keys, nat_eq, lookup-insert_self}
use taillight.Notify.Suppressor.{
  Suppressor, Fingerprint, Flush, fingerprint_key, accumulate, renewed, fire, next_silence,
  calls_flush_silence,
}
use taillight.Notify.Suppressor.Branches.{record_match_tracked, flush_silence_loud, fire_silence}
use taillight.Notify.Suppressor.Accounting.{Match, Act, matched, expired, act, run}

add-pos : (a b : ℕ) → pos a +ℤ pos b ≡ pos (a + b)
unfolding ◌+ℤ◌
add-pos a b = ground arith

next_silence_capped :
    (fp : Fingerprint) (c b m : ℕ)
    → fp.current_silence ≡ pos c
    → fp.base_silence ≡ pos b
    → fp.max_silence ≡ pos m
    → 0 < m
    → b ≤ m
    → c ≤ m
    → m < 2 ^ 62
    → next_silence fp ≡ pos (min (c + b) m)
unfolding next_silence
next_silence_capped fp c b m ec eb em pos_m hb hc range =
    rw (ec, eb, em, add-pos c b, wrap64_id (pos (c + b)) (omega arith)) (ground arith)

-- A fingerprint in its silence window of length `c`, growing by `b` up to `m`.
pub record IsSilenced (rule_id : ℕ) (group_key : Text) (b m c : ℕ) (s : Suppressor) : Type 0 where
  pub running : s.stopped ≡ false
  pub fp : Fingerprint
  pub tracked : lookup (fingerprint_key rule_id group_key) s.fingerprints ≡ some fp
  pub current : fp.current_silence ≡ pos c
  pub base : fp.base_silence ≡ pos b
  pub maximum : fp.max_silence ≡ pos m
  pub waits : fp.timer.callback ≡ calls_flush_silence
  pub aimed : fp.timer.key ≡ fingerprint_key rule_id group_key

-- `n` silence windows in a row, each with one more match.
abbrev pub busy_windows : Match → ℕ → List Act
busy_windows x zero = []
busy_windows x (suc n) =
    matched x ∷ expired (fingerprint_key x.rule_id x.group_key) ∷ busy_windows x n

module _ (x : Match) (b m : ℕ) (pos_m : 0 < m) (hb : b ≤ m) (range : m < 2 ^ 62) where
  abbrev pub Silent : ℕ → Suppressor → Type 0
  Silent c s = IsSilenced x.rule_id x.group_key b m c s

  matched-Silent :
      (c : ℕ) (s : Suppressor) (h : Silent c s)
      → (h' : Silent c (act (matched x) s).0) × (h'.fp.count ≡ h.fp.count + 1)
  unfolding act
  matched-Silent c s h =
      let key = fingerprint_key x.rule_id x.group_key in
      let eq =
        record_match_tracked x.rule_id x.group_key x.silence x.silence_max x.coalesce x.payload s
          h.fp h.running h.tracked in
      rw eq (
        record {
          running = h.running;
          fp = accumulate x.payload h.fp;
          tracked = lookup-insert_self key (accumulate x.payload h.fp) s.fingerprints;
          current = h.current;
          base = h.base;
          maximum = h.maximum;
          waits = h.waits;
          aimed = h.aimed;
        },
        refl,
      )

  -- The digest of a window with matches tells the window's length, and opens the next window.
  expired-Silent :
      (c : ℕ) (s : Suppressor) (h : Silent c s)
      → c ≤ m
      → (h.fp.count == 0) ≡ false
      → Silent (min (c + b) m) (fire h.fp.timer s).0
        × ((f : Flush) × ((fire h.fp.timer s).1 ≡ some f)
            × (f.payload.event_count ≡ h.fp.count)
            × (f.payload.window ≡ pos c)
            × (f.payload.is_digest ≡ true))
  expired-Silent c s h hc loud =
      let key = fingerprint_key x.rule_id x.group_key in
      let t = h.fp.timer in
      let eq = flush_silence_loud t.rule_id t.group_key key s h.fp h.running h.tracked loud in
      rw (fire_silence t s h.waits, h.aimed, eq)
        (
          record {
            running = h.running;
            fp = renewed t.rule_id t.group_key key h.fp;
            tracked =
                lookup-insert_self key (renewed t.rule_id t.group_key key h.fp) s.fingerprints;
            current = next_silence_capped h.fp c b m h.current h.base h.maximum pos_m hb hc range;
            base = h.base;
            maximum = h.maximum;
            waits = refl;
            aimed = refl;
          },
          (
            record {
              rule_id = t.rule_id;
              group_key = t.group_key;
              payload = record (h.fp.last) {
                event_count = h.fp.count;
                group_key = t.group_key;
                is_digest = true;
                window = h.fp.current_silence;
              };
            },
            refl,
            refl,
            h.current,
            refl,
          ),
        )

  cycle-Silent :
      (c : ℕ) (s : Suppressor)
      → Silent c s
      → c ≤ m
      → Silent
          (min (c + b) m)
          (act (expired (fingerprint_key x.rule_id x.group_key)) (act (matched x) s).0).0
  unfolding act
  cycle-Silent c s h hc =
      let (h', counts) = matched-Silent c s h in
      rw (h'.tracked, act) (expired-Silent c (act (matched x) s).0 h' hc (ground (arith, counts))).0

  -- From a fingerprint in a silence window no longer than the maximum, with a base no longer
  -- than the maximum and a positive maximum below 2 ^ 62 nanoseconds: after any number of
  -- windows with one match each, the silence has grown by the base for each window, up to the
  -- maximum.
  pub busy_windows_grow :
      (n c : ℕ) (s : Suppressor)
      → Silent c s
      → c ≤ m
      → Silent (min (c + n * b) m) (run (busy_windows x n) s).0
  unfolding run
  busy_windows_grow zero c s h hc = subst (λ k. Silent k s) (omega arith) h
  busy_windows_grow (suc n) c s h hc =
      subst (λ k. Silent k (run (busy_windows x (suc n)) s).0) (grind arith)
        (busy_windows_grow n (min (c + b) m) _ (cycle-Silent c s h hc) (omega arith))
