-- ===== src/Ingest.antt =====
-- POST /api/v1/applog/ingest: api/internal/handler/applog_ingest.go. The JSON decoder, the store,
-- the level tables of Unicode and the address parser are parameters.
pub mod Escapes
pub mod Accepted
pub mod Wire
pub mod Made
pub mod Shipped
use taillight.Base.{
  ℕ, suc, ◌+◌, ◌*◌, Bool, true, false, not, ◌&&◌, ◌||◌, if◌then◌else◌, ltb, leb, ◌==◌, Text, codes,
  is_empty, List, [], ◌∷◌, ◌++◌, map, Option, none, some, length, drop,
}
use taillight.Base.Decimal.{decimal}
use taillight.Model.Event.{AppLogEvent, with_attrs_preview}
use taillight.Model.Unicode.{Unicode}
use taillight.Model.Level.{normalize_level, applog_level_alias_names}
use taillight.Model.Filter.{has_prefix}

abbrev pub applog_max_batch_size : ℕ
applog_max_batch_size = 1000

abbrev pub applog_max_body_size : ℕ
applog_max_body_size = 5 * 1024 * 1024

abbrev pub applog_max_service_len : ℕ
applog_max_service_len = 128

abbrev pub applog_max_component_len : ℕ
applog_max_component_len = 128

abbrev pub applog_max_host_len : ℕ
applog_max_host_len = 256

abbrev pub applog_max_source_len : ℕ
applog_max_source_len = 256

abbrev pub applog_max_msg_len : ℕ
applog_max_msg_len = 64 * 1024

abbrev pub applog_max_attrs_len : ℕ
applog_max_attrs_len = 64 * 1024

abbrev pub attrs_preview_limit : ℕ
attrs_preview_limit = 1024

-- strings.Join with ", ".
abbrev pub join_names : List Text → Text
join_names [] = []
join_names (name ∷ []) = name
join_names (name ∷ next ∷ names) = name ++ codes ", " ++ join_names (next ∷ names)

unfoldable pub invalid_level_message : Text
invalid_level_message =
    codes "level must be DEBUG, INFO, WARN, ERROR, or FATAL (also accepts "
    ++ join_names applog_level_alias_names
    ++ codes ")"

-- A zero timestamp is `none`.
pub record AppLogIngestEntry : Type 0 where
  pub timestamp : Option ℕ
  pub level : Text
  pub msg : Text
  pub service : Text
  pub component : Text
  pub host : Text
  pub source : Text
  pub attrs : Text

-- At most one message of a field.
abbrev pub error_if : Bool → Text → List Text
error_if failed message = if failed then message ∷ [] else []

unfoldable pub timestamp_errors : Text → Option ℕ → List Text
timestamp_errors idx none = (idx ++ codes "timestamp is required") ∷ []
timestamp_errors idx (some t) = []

-- A field that is required, with its limit.
unfoldable pub required_errors : Text → Text → ℕ → Text → List Text
required_errors missing too_long limit value =
    if is_empty value then missing ∷ [] else error_if (ltb limit (length value)) too_long

module _ (u : Unicode) where
  unfoldable pub level_errors : Text → Text → List Text
  unfolding invalid_level_message
  level_errors idx level =
      if is_empty level
      then (idx ++ codes "level is required") ∷ []
      else elim (normalize_level u level) [
        | none ↦ (idx ++ invalid_level_message) ∷ []
        | some canonical ↦ []
      ]

  unfoldable pub entry_errors : Text → AppLogIngestEntry → List Text
  entry_errors idx e =
      timestamp_errors idx e.timestamp
      ++ level_errors idx e.level
      ++ required_errors (idx ++ codes "msg is required") (idx ++ codes "msg exceeds 64KB limit")
          applog_max_msg_len e.msg
      ++ required_errors (idx ++ codes "service is required")
          (idx ++ codes "service exceeds 128 char limit") applog_max_service_len e.service
      ++ error_if (ltb applog_max_component_len (length e.component))
          (idx ++ codes "component exceeds 128 char limit")
      ++ required_errors (idx ++ codes "host is required")
          (idx ++ codes "host exceeds 256 char limit") applog_max_host_len e.host
      ++ error_if (ltb applog_max_source_len (length e.source))
          (idx ++ codes "source exceeds 256 char limit")
      ++ error_if (ltb applog_max_attrs_len (length e.attrs))
          (idx ++ codes "attrs exceeds 64KB limit")

  -- The loop over the logs from index `i` on.
  unfoldable pub batch_errors : ℕ → List AppLogIngestEntry → List Text
  unfolding entry_errors
  batch_errors i [] = []
  batch_errors i (e ∷ logs) =
      entry_errors (codes "logs[" ++ decimal i ++ codes "]: ") e ++ batch_errors (suc i) logs

  -- The level that validation stores in the request; a level that is not known stays.
  unfoldable pub canonical_level : Text → Text
  canonical_level level =
      if is_empty level
      then level
      else elim (normalize_level u level) [ none ↦ level | some canonical ↦ canonical ]

-- strings.ReplaceAll of NUL by U+FFFD.
unfoldable pub replace_nul : Text → Text
replace_nul [] = []
replace_nul (b ∷ s) = if b == 0 then 0xef ∷ 0xbf ∷ 0xbd ∷ replace_nul s else b ∷ replace_nul s

-- The scan of replaceNULEscapes; `escaped` tells that the byte follows a backslash. The digits of
-- an escape are no backslashes, so the rest of the scan is that of the bytes after them.
unfoldable pub scan_escapes : Bool → Text → Text
unfolding has_prefix
scan_escapes escaped [] = []
scan_escapes escaped (b ∷ raw) =
    let starts = not escaped && b == b'\\' in
    let rest = scan_escapes starts raw in
    if starts && has_prefix raw (codes "u0000") then codes "\\ufffd" ++ drop 5 rest else b ∷ rest

unfoldable pub replace_nul_escapes : Text → Text
unfolding scan_escapes
replace_nul_escapes raw = scan_escapes false raw

-- net.SplitHostPort, which gives the host of an address with a port, and netip.ParseAddr with the
-- printed form of the address.
unfoldable pub resolve_source_ip : (Text → Option Text) → (Text → Option Text) → Text → Option Text
resolve_source_ip split_host_port parse_addr client_ip =
    if is_empty client_ip
    then none
    else parse_addr (elim (split_host_port client_ip) [ some host ↦ host | none ↦ client_ip ])

pub data IngestError : Type 0 where
  body_too_large invalid_json empty_batch batch_too_large insert_failed : IngestError
  validation_failed : List Text → IngestError

-- `no_answer`: the client has gone, and nothing is written.
pub data IngestResponse : Type 0 where
  refused : IngestError → IngestResponse
  no_answer : IngestResponse
  accepted : ℕ → IngestResponse

unfoldable pub status_code : IngestError → ℕ
status_code body_too_large = 413
status_code insert_failed = 500
status_code invalid_json = 400
status_code empty_batch = 400
status_code batch_too_large = 400
status_code (validation_failed errs) = 400

pub data IngestEffect : Type 0 where
  broadcast handle_event : AppLogEvent → IngestEffect

-- The effects are in order; the counters tell by how much each metric grows.
pub record IngestOutcome : Type 0 where
  pub response : IngestResponse
  pub effects : List IngestEffect
  pub ingest_errors : ℕ
  pub batches : ℕ
  pub ingested : ℕ

-- json.Unmarshal of a body; InsertLogBatch, which fills in the id and the time of receipt, or
-- fails; whether the client has gone; the client's address and the key of the request; and whether
-- there is an engine.
pub record IngestDeps : Type 0 where
  pub unmarshal : Text → Option (List AppLogIngestEntry)
  pub insert_log_batch : List AppLogEvent → Option (List AppLogEvent)
  pub client_gone : Bool
  pub source_ip : Option Text
  pub api_key_id : Option Text
  pub has_engine : Bool

abbrev pub refusal : IngestError → IngestOutcome
refusal err = record {
  response = refused err;
  effects = [];
  ingest_errors = 1;
  batches = 0;
  ingested = 0;
}

abbrev pub timestamp_or_zero : Option ℕ → ℕ
timestamp_or_zero none = 0
timestamp_or_zero (some t) = t

module _ (u : Unicode) (deps : IngestDeps) where
  open deps use {unmarshal, insert_log_batch, client_gone, source_ip, api_key_id, has_engine}

  unfoldable pub to_event : AppLogIngestEntry → AppLogEvent
  unfolding canonical_level replace_nul replace_nul_escapes
  to_event e = record {
    id = 0;
    received_at = 0;
    timestamp = timestamp_or_zero e.timestamp;
    level = canonical_level u e.level;
    service = replace_nul e.service;
    component = replace_nul e.component;
    host = replace_nul e.host;
    msg = replace_nul e.msg;
    source = replace_nul e.source;
    attrs = replace_nul_escapes e.attrs;
    attrs_truncated = false;
    source_ip = source_ip;
    api_key_id = api_key_id;
  }

  -- SSE clients get the preview, the engine the full event.
  unfoldable pub publish : List AppLogEvent → List IngestEffect
  unfolding with_attrs_preview
  publish [] = []
  publish (e ∷ es) =
      let rest = publish es in
      let handled = if has_engine then handle_event e ∷ rest else rest in
      broadcast (with_attrs_preview attrs_preview_limit e) ∷ handled

  -- The part of Ingest after the checks.
  unfoldable pub store_batch : List AppLogIngestEntry → IngestOutcome
  unfolding to_event publish
  store_batch logs = elim (insert_log_batch (map to_event logs)) [
    | none ↦
        if client_gone
        then record {
          response = no_answer;
          effects = [];
          ingest_errors = 0;
          batches = 0;
          ingested = 0;
        }
        else refusal insert_failed
    | some inserted ↦ record {
      response = accepted (length inserted);
      effects = publish inserted;
      ingest_errors = 0;
      batches = 1;
      ingested = length inserted;
    }
  ]

  unfoldable pub ingest_logs : List AppLogIngestEntry → IngestOutcome
  unfolding batch_errors store_batch
  ingest_logs logs =
      let errs = batch_errors u 0 logs in
      if length logs == 0
      then refusal empty_batch
      else if ltb applog_max_batch_size (length logs)
      then refusal batch_too_large
      else if ltb 0 (length errs)
      then refusal (validation_failed errs)
      else store_batch logs

  unfoldable pub ingest : Text → IngestOutcome
  unfolding ingest_logs
  ingest body =
      if ltb applog_max_body_size (length body)
      then refusal body_too_large
      else elim (unmarshal body) [ none ↦ refusal invalid_json | some logs ↦ ingest_logs logs ]
