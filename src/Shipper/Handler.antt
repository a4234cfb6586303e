-- ===== src/Shipper/Handler.antt =====
-- Handle, Shutdown and the loop as goroutines: pkg/logshipper/handler.go. Each event is one of
-- their steps between two points at which another goroutine can run; an event that is not possible
-- in a state leaves it as it is.
pub mod Shutdown
pub mod Sizes
pub mod Sources
use taillight.Base.{
  ℕ, suc, ◌+◌, ◌-◌, Bool, true, false, not, ◌&&◌, ◌||◌, if◌then◌else◌, ltb, ◌==◌, Text, Option,
  pos_part,
}
use taillight.Shipper.Settings.{Config, System, request_byte_limit}
use taillight.Shipper.Entry.{EntrySettings, LogRecord, LogEntry, make_entry}
use taillight.Shipper.Queue.{Line, Shipper, push, flush, receive_entry, drain, new_shipper}

-- `unchecked` calls of Handle hold the read lock and have not read `closing` yet, and `ready` ones
-- have found it unset and will push. `waiting` is set while Shutdown's barrier waits for the
-- write lock, `done` when the channel of that name is closed, and `ended` when the loop is.
pub record Handler : Type 0 where
  pub shipper : Shipper
  pub unchecked : ℕ
  pub ready : ℕ
  pub closing : Bool
  pub waiting : Bool
  pub done : Bool
  pub ended : Bool
  pub encode_failed : ℕ

pub data Event : Type 0 where
  begin_handle check_closing begin_shutdown barrier_lock barrier_close loop_receive loop_tick :
      Event
  push_record : ℕ → LogRecord → Event
  loop_drain : (ℕ → Bool) → Event

-- The parts of the configuration that an entry and the loop take; json.Marshal's answers and the
-- server's are given.
abbrev pub entry_settings : System → (Text → Option Text) → Config → EntrySettings
entry_settings sys marshal_error cfg = record {
  service = cfg.service;
  component = cfg.component;
  host = cfg.host;
  add_source = cfg.add_source;
  to_valid_utf8 = sys.to_valid_utf8;
  marshal_error = marshal_error;
}

abbrev pub line_of : (LogEntry → Option Text) → (ℕ → Option ℕ) → Config → Line
line_of marshal answers cfg = record {
  marshal = marshal;
  answers = answers;
  batch_size = pos_part cfg.batch_size;
  buffer_size = pos_part cfg.buffer_size;
  max_request_bytes = request_byte_limit;
}

unfoldable pub new_handler : Handler
unfolding new_shipper
new_handler = record {
  shipper = new_shipper;
  unchecked = 0;
  ready = 0;
  closing = false;
  waiting = false;
  done = false;
  ended = false;
  encode_failed = 0;
}

unfoldable pub count_drop : Shipper → Shipper
count_drop s = record s { dropped = s.dropped + 1 }

module _ (c : Line) (settings : EntrySettings) where
  -- TryRLock, which fails while the barrier waits.
  unfoldable pub on_begin_handle : Handler → Handler
  unfolding count_drop
  on_begin_handle h =
      if h.waiting
      then record h { shipper = count_drop h.shipper }
      else record h { unchecked = h.unchecked + 1 }

  unfoldable pub on_check_closing : Handler → Handler
  unfolding count_drop
  on_check_closing h =
      if h.unchecked == 0
      then h
      else if h.closing
      then record h { unchecked = h.unchecked - 1; shipper = count_drop h.shipper }
      else record h { unchecked = h.unchecked - 1; ready = h.ready + 1 }

  -- The rest of Handle, up to the release of the read lock.
  unfoldable pub on_push_record : ℕ → LogRecord → Handler → Handler
  on_push_record now r h =
      let (entry, failures) = make_entry settings now r in
      if h.ready == 0 then h else record h {
        ready = h.ready - 1;
        shipper = push c entry h.shipper;
        encode_failed = h.encode_failed + failures;
      }

  unfoldable pub on_barrier_close : Handler → Handler
  on_barrier_close h =
      if h.waiting && h.unchecked + h.ready == 0
      then record h { waiting = false; done = true }
      else h

  unfoldable pub step : Event → Handler → Handler
  unfolding on_begin_handle on_check_closing on_push_record on_barrier_close
  step begin_handle h = on_begin_handle h
  step check_closing h = on_check_closing h
  step (push_record now r) h = on_push_record now r h
  step begin_shutdown h = record h { closing = true }
  step barrier_lock h = if h.closing && not h.done then record h { waiting = true } else h
  step barrier_close h = on_barrier_close h
  step loop_receive h = if h.ended then h else record h { shipper = receive_entry c h.shipper }
  step loop_tick h = if h.ended then h else record h { shipper = flush c h.shipper }
  step (loop_drain expired) h =
      if h.done && not h.ended
      then record h { shipper = drain c expired h.shipper; ended = true }
      else h
