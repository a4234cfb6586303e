-- ===== src/Notify/Suppressor/Stopping.antt =====
-- Histories with a Stop, in which a timer's function may run late, after it has waited for the mutex
-- (api/internal/notification/suppressor.go).
use taillight.Base.{◌≡◌, refl, ap, true, List, [], ◌∷◌, ◌++◌, Option, none, arith}
use taillight.Notify.Suppressor.{
  Suppressor, Timer, Flush, flush_initial, flush_silence, record_match, fire, stop,
}
use taillight.Notify.Suppressor.Branches.{record_match_stopped}
use taillight.Notify.Suppressor.Accounting.{Match, prepend}

-- Record is called, the function of some timer runs, whether or not it is still in the map, or Stop
-- is called.
pub data Call : Type 0 where
  recorded : Match → Call
  called_back : Timer → Call
  stopping : Call

unfoldable pub call : Call → Suppressor → Suppressor × Option Flush
call (recorded m) s =
    record_match m.rule_id m.group_key m.silence m.silence_max m.coalesce m.payload s
call (called_back t) s = fire t s
call stopping s = (stop s, none)

-- What a sequence of calls sends, oldest first.
unfoldable pub calls : List Call → Suppressor → Suppressor × List Flush
unfolding call
calls [] s = (s, [])
calls (c ∷ cs) s =
    let (s1, out) = call c s in let (s2, outs) = calls cs s1 in (s2, prepend out outs)

fire_stopped : (t : Timer) (s : Suppressor) → s.stopped ≡ true → fire t s ≡ (s, none)
unfolding fire flush_initial flush_silence
fire_stopped t s off = ground arith

-- A stopped suppressor stays as it is.
calls_stopped : (cs : List Call) (s : Suppressor) → calls cs (stop s) ≡ (stop s, [])
unfolding calls call stop
calls_stopped [] s = refl
calls_stopped (recorded m ∷ cs) s =
    rw
      (
        record_match_stopped m.rule_id m.group_key m.silence m.silence_max m.coalesce m.payload
            (stop s) refl,
        calls_stopped cs s,
      )
      refl
calls_stopped (called_back t ∷ cs) s = rw (fire_stopped t (stop s) refl, calls_stopped cs s) refl
calls_stopped (stopping ∷ cs) s = rw (calls_stopped cs s) refl

-- Whatever is called before and after a Stop, in any order and with the functions of any timers, also
-- those that ran out before the Stop and wait for the mutex: what is sent is what the calls before
-- the Stop send, the maps are empty at the end, and no refused match is counted after it.
pub calls_end_at_stop :
    (before after : List Call) (s : Suppressor)
    → let (s1, sent) = calls before s in
      let (s2, all_sent) = calls (before ++ stopping ∷ after) s in
      (all_sent ≡ sent)
      × (s2.stopped ≡ true)
      × (s2.fingerprints ≡ [])
      × (s2.rule_fingerprint_count ≡ [])
      × (s2.dropped ≡ s1.dropped)
unfolding calls call
calls_end_at_stop [] after s =
    rw (calls_stopped after s) (unfold stop in (refl, refl, refl, refl, refl))
calls_end_at_stop (c ∷ cs) after s =
    let (same, off, empty, uncounted, kept) = calls_end_at_stop cs after (call c s).0 in
    (ap (prepend (call c s).1) same, off, empty, uncounted, kept)
