-- ===== src/Tests/Shippers.antt =====
-- Runs of the log shipper and of the ingest endpoint.
use taillight.Base.{
  ℕ, suc, zero, ◌+◌, ◌-◌, ◌≡◌, refl, ap, sym, ◌∙◌, Bool, true, false, ◌&&◌, if◌then◌else◌, ◌==◌,
  pos, Text, codes, text_eq, text_eq_iff, is_empty, List, [], ◌∷◌, ◌++◌, map, Option, none, some,
  length, All, ◌⊎◌, inl, inr, arith, Bool-cases,
}
use taillight.Base.Utf8.{is_valid_utf8, utf8_from}
use taillight.Base.Assoc.{lookup}
use taillight.Model.Unicode.{ascii}
use taillight.Model.Level.{normalize_level, valid_applog_levels}
use taillight.Shipper.Settings.{
  Config, System, set_defaults, default_limits, names_error, endpoint_error, with_host,
  resolve_host,
}
use taillight.Shipper.Entry.{
  LogEntry, LogRecord, no_attrs, make_entry, attrs_of, level_string, truncate_msg, cut_message,
}
use taillight.Model.Filter.{has_prefix}
use taillight.Shipper.Queue.{
  new_shipper, push, receive_entry, drain, drain_rounds, last_flush, add, add_raw, make_room,
  append_raw, flush, flush_retry, flush_batch, send, Line, joined, request_body, request_prefix,
  request_suffix,
}
use taillight.Shipper.Handler.{
  Event, begin_handle, check_closing, begin_shutdown, barrier_lock, barrier_close, loop_receive,
  loop_tick, push_record, loop_drain, new_handler, entry_settings, line_of, step, on_begin_handle,
  on_check_closing, on_push_record, on_barrier_close, count_drop,
}
use taillight.Shipper.Handler.Shutdown.{run_events, accounted, run-accounted}
use taillight.Ingest.{
  AppLogIngestEntry, IngestDeps, ingest, ingest_logs, store_batch, batch_errors, entry_errors,
  timestamp_errors, required_errors, level_errors, replace_nul_escapes, accepted,
}
use taillight.Ingest.Accepted.{ingest_accepted, Stored}
use taillight.Ingest.Escapes.{replace_nul_escapes_cleans, has_nul_escape}
use taillight.Ingest.Wire.{as_ingested, Encodes, Travels}
use taillight.Ingest.Shipped.{Reaches, run-Reaches}

-- A repair that keeps nothing of a text that is not valid UTF-8.
abbrev repair : Text → Text
repair s = if is_valid_utf8 s then s else codes "?"

repair-valid : (s : Text) → is_valid_utf8 (repair s) ≡ true
repair-valid s = elim (Bool-cases (is_valid_utf8 s)) [
  | inl valid ↦ rw valid valid
  | inr broken ↦ rw broken (unfold utf8_from in refl)
]

repair-is_empty : (s : Text) → is_empty s ≡ false → is_empty (repair s) ≡ false
repair-is_empty s h = elim (Bool-cases (is_valid_utf8 s)) [
  | inl valid ↦ rw valid h
  | inr broken ↦ rw broken refl
]

abbrev here : System
here = record {
  to_valid_utf8 = repair;
  parse_url = λ s. some (codes "https", codes "logs.example.net");
  hostname = some (codes "web1");
}

abbrev given : Config
given = record {
  endpoint = codes "https://logs.example.net/api/v1/applog/ingest";
  service = codes "api";
  component = [];
  host = [];
  add_source = false;
  min_level = pos 0;
  batch_size = pos 5000;
  flush_period = pos 0;
  buffer_size = pos 0;
  send_timeout = pos 0;
  max_attr_bytes = pos 0;
}

abbrev used : Config
used = record given {
  host = codes "web1";
  batch_size = pos 1000;
  flush_period = pos 1000000000;
  buffer_size = pos 1024;
  send_timeout = pos 30000000000;
}

given-used : set_defaults here given ≡ inr used
unfolding set_defaults default_limits names_error endpoint_error with_host resolve_host text_eq
    utf8_from
given-used = refl

abbrev started : LogRecord
started = record {
  time = none;
  level = pos 4;
  message = codes "started";
  source = none;
  attrs = no_attrs;
}

abbrev no_text : Text → Option Text
no_text err = none

abbrev one_record : List Event
one_record =
    begin_handle
    ∷ check_closing
    ∷ begin_handle
    ∷ push_record 7 started
    ∷ loop_receive
    ∷ begin_shutdown
    ∷ check_closing
    ∷ barrier_lock
    ∷ begin_handle
    ∷ barrier_close
    ∷ loop_drain (λ n. false)
    ∷ []

abbrev ok_line : Line
ok_line = line_of (λ e. some (codes "{}")) (λ n. some 202) used

run-accounted_example :
    accounted (run_events ok_line (entry_settings here no_text used) one_record new_handler) ≡ 3
run-accounted_example = run-accounted ok_line (entry_settings here no_text used) one_record

abbrev started_entry : LogEntry
started_entry = record {
  timestamp = 7;
  level = codes "WARN";
  msg = codes "started";
  service = codes "api";
  component = [];
  host = codes "web1";
  source = [];
  attrs = [];
}

-- A marshaller of one entry only, and a decoder of the requests that it makes.
same_entry : LogEntry → Bool
unfolding text_eq
same_entry e =
    e.timestamp == 7
    && text_eq e.level (codes "WARN")
    && text_eq e.msg (codes "started")
    && text_eq e.service (codes "api")
    && text_eq e.component []
    && text_eq e.host (codes "web1")
    && text_eq e.source []
    && text_eq e.attrs []

marshal_one : LogEntry → Option Text
unfolding same_entry
marshal_one e = if same_entry e then some (codes "{}") else none

braces : Text → ℕ
braces [] = 0
braces (b ∷ s) = (if b == b'}' then 1 else 0) + braces s

copies : ℕ → List AppLogIngestEntry
copies zero = []
copies (suc n) = as_ingested started_entry ∷ copies n

upper_names : All (λ p. ascii.upper p.0 ≡ p.0) valid_applog_levels
unfolding ascii
upper_names = (refl, (refl, (refl, (refl, (refl, tt)))))

abbrev one_deps : IngestDeps
one_deps = record {
  unmarshal = λ body. some (copies (braces body - 1));
  insert_log_batch = λ events. some events;
  client_gone = false;
  source_ip = none;
  api_key_id = none;
  has_engine = true;
}

same_entry-started : (e : LogEntry) → same_entry e ≡ true → e ≡ started_entry
unfolding same_entry
same_entry-started e h = ground (
  arith,
  (text_eq_iff e.level (codes "WARN")).0,
  (text_eq_iff e.msg (codes "started")).0,
  (text_eq_iff e.service (codes "api")).0,
  (text_eq_iff e.component []).0,
  (text_eq_iff e.host (codes "web1")).0,
  (text_eq_iff e.source []).0,
  (text_eq_iff e.attrs []).0,
)

marshal_one-some :
    (e : LogEntry) (raw : Text)
    → marshal_one e ≡ some raw
    → (e ≡ started_entry) × (raw ≡ codes "{}")
unfolding marshal_one
marshal_one-some e raw h = elim (Bool-cases (same_entry e)) [
  | inl same ↦ (same_entry-started e same, ground arith)
  | inr other ↦ ground arith
]

braces-append : (s t : Text) → braces (s ++ t) ≡ braces s + braces t
unfolding braces
braces-append [] t = omega arith
braces-append (b ∷ s) t = omega (arith, braces-append s t)

braces-prefix : braces request_prefix ≡ 0
unfolding braces
braces-prefix = refl

braces-suffix : braces request_suffix ≡ 1
unfolding braces
braces-suffix = refl

-- The requests of this marshaller: as many braces as entries, which are all the same.
joined-copies :
    (entries : List LogEntry) (raws : List Text)
    → Encodes marshal_one entries raws
    → (braces (joined raws) ≡ length entries) × (map as_ingested entries ≡ copies (length entries))
unfolding copies braces
joined-copies [] [] h = (refl, refl)
joined-copies [] (raw ∷ raws) h = elim h [ ]
joined-copies (e ∷ entries) [] h = elim h [ ]
joined-copies (e ∷ []) (raw ∷ []) (first, others) =
    let (same, form) = marshal_one-some e raw first in rw (same, form) (refl, refl)
joined-copies (e ∷ []) (raw ∷ next ∷ raws) (first, others) = elim others [ ]
joined-copies (e ∷ d ∷ entries) (raw ∷ []) (first, others) = elim others [ ]
joined-copies (e ∷ d ∷ entries) (raw ∷ next ∷ raws) (first, others) =
    let (same, form) = marshal_one-some e raw first in
    let (count, rest) = joined-copies (d ∷ entries) (next ∷ raws) others in
    rw (same, form) (omega (arith, count), ap (◌∷◌ (as_ingested started_entry)) rest)

abbrev AnyText : Text → Type 0
AnyText s = Unit

one_deps-decodes :
    (entries : List LogEntry) (raws : List Text)
    → All (Travels AnyText) entries
    → Encodes marshal_one entries raws
    → one_deps.unmarshal (request_body raws) ≡ some (map as_ingested entries)
unfolding request_body
one_deps-decodes entries raws whole h =
    let (count, rest) = joined-copies entries raws h in
    let whole : braces (request_prefix ++ joined raws ++ request_suffix) - 1 ≡ length entries =
      omega (
        arith,
        braces-append (request_prefix ++ joined raws) request_suffix,
        braces-append request_prefix (joined raws),
        braces-prefix,
        braces-suffix,
        count,
      ) in
    ap some (ap copies whole ∙ sym rest)

abbrev two_records : List Event
two_records =
    begin_handle
    ∷ begin_handle
    ∷ check_closing
    ∷ check_closing
    ∷ push_record 7 started
    ∷ loop_receive
    ∷ loop_tick
    ∷ push_record 7 started
    ∷ begin_shutdown
    ∷ barrier_lock
    ∷ barrier_close
    ∷ loop_drain (λ n. false)
    ∷ []

run-Reaches_example :
    All
      (Reaches ascii upper_names here repair-is_empty repair-valid no_text AnyText
        (λ err size. (tt, tt, tt))
        one_deps
        marshal_one
        one_deps-decodes)
      (run_events
        (line_of marshal_one (λ n. some 202) used)
        (entry_settings here no_text used)
        two_records
        new_handler).shipper.requests
run-Reaches_example =
    run-Reaches ascii upper_names here repair-is_empty repair-valid no_text AnyText
      (λ err size. (tt, tt, tt)) one_deps marshal_one one_deps-decodes (λ n. some 202) given used
      two_records given-used
      (tt, (tt, (tt, (tt, (tt, (tt, (tt, (tt, (tt, (tt, (tt, (tt, tt))))))))))))

-- Both records are sent.
two_sent :
    (run_events
      (line_of marshal_one (λ n. some 202) used)
      (entry_settings here no_text used)
      two_records
      new_handler).shipper.requests
    ≡ (codes "{}" ∷ []) ∷ (codes "{}" ∷ []) ∷ []
unfolding step on_begin_handle on_check_closing on_push_record on_barrier_close count_drop
    new_handler new_shipper push receive_entry drain drain_rounds last_flush add add_raw make_room
    append_raw flush flush_retry flush_batch send make_entry truncate_msg cut_message attrs_of
    level_string marshal_one same_entry text_eq utf8_from
two_sent = refl

replace_nul_escapes_cleans_example :
    (length (replace_nul_escapes (codes "{\"k\":\"\\u0000\"}")) ≡ 14)
    × (has_nul_escape false (replace_nul_escapes (codes "{\"k\":\"\\u0000\"}")) ≡ false)
    × ((true ≡ true)
        ⊎ (replace_nul_escapes (codes "{\"k\":\"\\u0000\"}") ≡ codes "{\"k\":\"\\u0000\"}"))
unfolding has_prefix
replace_nul_escapes_cleans_example = replace_nul_escapes_cleans (codes "{\"k\":\"\\u0000\"}")

one_stored : (ingest ascii one_deps (codes "}}")).response ≡ accepted 1
unfolding ingest ingest_logs batch_errors entry_errors timestamp_errors required_errors level_errors
    normalize_level lookup text_eq ascii store_batch copies braces
one_stored = refl

ingest_accepted_example : Stored ascii one_deps (codes "}}") 1
ingest_accepted_example = ingest_accepted ascii one_deps (codes "}}") 1 one_stored
