-- ===== src/Shipper/Handler/Sources.antt =====
-- The records behind the requests of a run (pkg/logshipper/handler.go).
use taillight.Base.{List, [], ◌∷◌, All, arith}
use taillight.Shipper.Entry.{EntrySettings, LogEntry, make_entry}
use taillight.Shipper.Queue.{Line, Shipper, new_shipper}
use taillight.Shipper.Queue.Origin.{
  IsFrom, IsGenuine, flush-IsGenuine, push-IsGenuine, receive-IsGenuine, drain-IsGenuine,
}
use taillight.Shipper.Handler.{
  Handler, Event, begin_handle, check_closing, begin_shutdown, barrier_lock, barrier_close,
  loop_receive, loop_tick, push_record, loop_drain, new_handler, count_drop, on_begin_handle,
  on_check_closing, on_push_record, on_barrier_close, step,
}
use taillight.Shipper.Handler.Shutdown.{run_events}

-- P holds of the entry that the event makes, if it makes one.
abbrev pub MakesOnly : (LogEntry → Type 0) → EntrySettings → Event → Type 0
MakesOnly P settings (push_record now r) = P (make_entry settings now r).0
MakesOnly P settings begin_handle = Unit
MakesOnly P settings check_closing = Unit
MakesOnly P settings begin_shutdown = Unit
MakesOnly P settings barrier_lock = Unit
MakesOnly P settings barrier_close = Unit
MakesOnly P settings loop_receive = Unit
MakesOnly P settings loop_tick = Unit
MakesOnly P settings (loop_drain expired) = Unit

module _ (c : Line) (P : LogEntry → Type 0) (settings : EntrySettings) where
  count_drop-IsGenuine : (s : Shipper) → IsGenuine c P s → IsGenuine c P (count_drop s)
  unfolding count_drop
  count_drop-IsGenuine s g = record {
    queued = g.queued;
    batched = g.batched;
    kept = g.kept;
    sent = g.sent;
  }

  step-IsGenuine :
      (e : Event) (h : Handler)
      → MakesOnly P settings e
      → IsGenuine c P h.shipper
      → IsGenuine c P (step c settings e h).shipper
  unfolding step on_begin_handle on_check_closing on_push_record on_barrier_close
  step-IsGenuine begin_handle h p g = ground (arith, count_drop-IsGenuine h.shipper g)
  step-IsGenuine check_closing h p g = ground (arith, count_drop-IsGenuine h.shipper g)
  step-IsGenuine begin_shutdown h p g = g
  step-IsGenuine barrier_lock h p g = ground arith
  step-IsGenuine barrier_close h p g = ground arith
  step-IsGenuine loop_receive h p g = ground (arith, receive-IsGenuine c P h.shipper g)
  step-IsGenuine loop_tick h p g = ground (arith, flush-IsGenuine c P h.shipper g)
  step-IsGenuine (push_record now r) h p g =
      ground (arith, push-IsGenuine c P (make_entry settings now r).0 h.shipper p g)
  step-IsGenuine (loop_drain expired) h p g =
      ground (arith, drain-IsGenuine c P expired h.shipper g)

  run-IsGenuine :
      (es : List Event) (h : Handler)
      → All (MakesOnly P settings) es
      → IsGenuine c P h.shipper
      → IsGenuine c P (run_events c settings es h).shipper
  run-IsGenuine [] h p g = g
  run-IsGenuine (e ∷ es) h (first, others) g =
      run-IsGenuine es (step c settings e h) others (step-IsGenuine e h first g)

  -- The entries of the requests of a run are the entries that its records made.
  pub run_sent :
      (es : List Event)
      → All (MakesOnly P settings) es
      → All (All (IsFrom c P)) (run_events c settings es new_handler).shipper.requests
  unfolding new_handler new_shipper
  run_sent es p =
      (run-IsGenuine es new_handler p
        (record { queued = tt; batched = tt; kept = tt; sent = tt })).sent
