-- ===== src/Shipper/Handler/Sizes.antt =====
-- The requests of a whole run (pkg/logshipper/handler.go).
use taillight.Base.{◌≤◌, ◌<◌, List, [], ◌∷◌, length, All, arith}
use taillight.Shipper.Entry.{EntrySettings, make_entry}
use taillight.Shipper.Queue.{Line, Shipper, new_shipper}
use taillight.Shipper.Queue.Requests.{
  Fits, IsOpen, push-IsOpen, receive-IsOpen, tick-IsOpen, drain-IsOpen, request_body-length,
}
use taillight.Shipper.Handler.{
  Handler, Event, begin_handle, check_closing, begin_shutdown, barrier_lock, barrier_close,
  loop_receive, loop_tick, push_record, loop_drain, new_handler, count_drop, on_begin_handle,
  on_check_closing, on_push_record, on_barrier_close, step,
}
use taillight.Shipper.Handler.Shutdown.{run_events}

module _ (c : Line) (settings : EntrySettings) (room : 11 ≤ c.max_request_bytes) where
  drop-IsOpen : (s : Shipper) → IsOpen c room s → IsOpen c room (count_drop s)
  unfolding count_drop
  drop-IsOpen s o = ground arith

  step-IsOpen :
      (e : Event) (h : Handler)
      → IsOpen c room h.shipper
      → IsOpen c room (step c settings e h).shipper
  unfolding step on_begin_handle on_check_closing on_push_record on_barrier_close
  step-IsOpen begin_handle h o = ground (arith, drop-IsOpen h.shipper o)
  step-IsOpen check_closing h o = ground (arith, drop-IsOpen h.shipper o)
  step-IsOpen begin_shutdown h o = o
  step-IsOpen barrier_lock h o = ground arith
  step-IsOpen barrier_close h o = ground arith
  step-IsOpen loop_receive h o = ground (arith, receive-IsOpen c room h.shipper o)
  step-IsOpen loop_tick h o = ground (arith, tick-IsOpen c room h.shipper o)
  step-IsOpen (push_record now r) h o =
      ground (arith, push-IsOpen c room (make_entry settings now r).0 h.shipper o)
  step-IsOpen (loop_drain expired) h o = ground (arith, drain-IsOpen c room expired h.shipper o)

  run-IsOpen :
      (es : List Event) (h : Handler)
      → IsOpen c room h.shipper
      → IsOpen c room (run_events c settings es h).shipper
  run-IsOpen [] h o = o
  run-IsOpen (e ∷ es) h o = run-IsOpen es (step c settings e h) (step-IsOpen e h o)

  -- With a batch size above 0 and a request limit of at least the 11 bytes of an empty request,
  -- every request that the handler posts in a run from a new handler on has an entry at least, at
  -- most batch-size many of them, and a body within the limit on its bytes.
  pub run-Fits :
      (es : List Event)
      → 0 < c.batch_size
      → All (λ r. (1 ≤ length r) × Fits c r) (run_events c settings es new_handler).shipper.requests
  unfolding new_handler new_shipper
  run-Fits es some_room =
      (run-IsOpen es new_handler (ground (arith, request_body-length []))).0.sent_fit
