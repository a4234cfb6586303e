-- ===== src/Shipper/Handler/Shutdown.antt =====
-- Handle against Shutdown over any interleaving (pkg/logshipper/handler.go).
use taillight.Base.{ℕ, suc, ◌+◌, ◌≡◌, true, false, if◌then◌else◌, List, [], ◌∷◌, arith, ◌⊎◌}
use taillight.Shipper.Entry.{EntrySettings, make_entry}
use taillight.Shipper.Queue.{Line, new_shipper}
use taillight.Shipper.Queue.Books.{
  settled, entries_of, flush-entries, push-entries, receive-entries, drain-settled,
}
use taillight.Shipper.Handler.{
  Handler, Event, begin_handle, check_closing, begin_shutdown, barrier_lock, barrier_close,
  loop_receive, loop_tick, push_record, loop_drain, new_handler, count_drop, on_begin_handle,
  on_check_closing, on_push_record, on_barrier_close, step,
}

abbrev pub run_events : Line → EntrySettings → List Event → Handler → Handler
run_events c settings [] h = h
run_events c settings (e ∷ es) h = run_events c settings es (step c settings e h)

-- The calls of Handle in a history.
abbrev pub calls_in : List Event → ℕ
calls_in [] = 0
calls_in (begin_handle ∷ es) = suc (calls_in es)
calls_in (check_closing ∷ es) = calls_in es
calls_in (begin_shutdown ∷ es) = calls_in es
calls_in (barrier_lock ∷ es) = calls_in es
calls_in (barrier_close ∷ es) = calls_in es
calls_in (loop_receive ∷ es) = calls_in es
calls_in (loop_tick ∷ es) = calls_in es
calls_in (push_record now r ∷ es) = calls_in es
calls_in (loop_drain expired ∷ es) = calls_in es

-- The calls that are in flight, and the entries that are held or settled: only the settled ones
-- once the loop has ended.
abbrev pub accounted : Handler → ℕ
accounted h = h.unchecked + h.ready + (if h.ended then settled h.shipper else entries_of h.shipper)

-- No call can push once the loop may drain.
pub record IsGuarded (h : Handler) : Type 0 where
  pub quiet : (h.done ≡ false) ⊎ ((h.ready ≡ 0) × (h.closing ≡ true))
  pub announced : (h.waiting ≡ false) ⊎ (h.closing ≡ true)
  pub ordered : (h.ended ≡ false) ⊎ (h.done ≡ true)

abbrev Steps : Line → EntrySettings → Event → Handler → Type 0
Steps c settings e h =
    IsGuarded (step c settings e h)
    × (accounted (step c settings e h) ≡ accounted h + calls_in (e ∷ []))

calls_in_cons : (e : Event) (es : List Event) → calls_in (e ∷ es) ≡ calls_in (e ∷ []) + calls_in es
calls_in_cons begin_handle es = omega arith
calls_in_cons check_closing es = omega arith
calls_in_cons begin_shutdown es = omega arith
calls_in_cons barrier_lock es = omega arith
calls_in_cons barrier_close es = omega arith
calls_in_cons loop_receive es = omega arith
calls_in_cons loop_tick es = omega arith
calls_in_cons (push_record now r) es = omega arith
calls_in_cons (loop_drain expired) es = omega arith

module _ (c : Line) (settings : EntrySettings) where
  step-Steps : (e : Event) (h : Handler) → IsGuarded h → Steps c settings e h
  unfolding step on_begin_handle on_check_closing on_push_record on_barrier_close count_drop
  step-Steps begin_handle h g = ground arith
  step-Steps check_closing h g = ground arith
  step-Steps begin_shutdown h g = ground arith
  step-Steps barrier_lock h g = ground arith
  step-Steps barrier_close h g = ground arith
  step-Steps loop_receive h g = ground (arith, receive-entries c h.shipper)
  step-Steps loop_tick h g = ground (arith, flush-entries c h.shipper)
  step-Steps (push_record now r) h g =
      ground (arith, push-entries c (make_entry settings now r).0 h.shipper)
  step-Steps (loop_drain expired) h g = ground (arith, drain-settled c expired h.shipper)

  run-Steps :
      (es : List Event) (h : Handler)
      → IsGuarded h
      → IsGuarded (run_events c settings es h)
        × (accounted (run_events c settings es h) ≡ accounted h + calls_in es)
  run-Steps [] h g = ground arith
  run-Steps (e ∷ es) h g =
      let (g1, one) = step-Steps e h g in
      let (g2, rest) = run-Steps es (step c settings e h) g1 in
      (g2, omega (arith, calls_in_cons e es))

  -- Whatever the interleaving of the calls of Handle, the loop and Shutdown from a new handler on,
  -- the calls of Handle are those in flight, plus the entries held in the channel, the batch and
  -- the retry, plus those counted as dropped or failed, plus those delivered; and once the loop has
  -- ended the entries that were held are counted or delivered, so that none is lost without a count.
  pub run-accounted :
      (es : List Event) → accounted (run_events c settings es new_handler) ≡ calls_in es
  unfolding new_handler new_shipper
  run-accounted es = omega (arith, (run-Steps es new_handler (ground arith)).1)
