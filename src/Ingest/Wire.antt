-- ===== src/Ingest/Wire.antt =====
-- The entries of the log shipper as the ingest endpoint decodes them: pkg/logshipper/handler.go against
-- api/internal/handler/applog_ingest.go. The JSON encoder and decoder between them are parameters.
use taillight.Base.{
  suc, ◌≤◌, ◌<◌, ◌≡◌, refl, ap, true, Text, List, [], ◌∷◌, map, Option, some, length, All,
}
use taillight.Base.Assoc.{text_eq_keys}
use taillight.Base.Utf8.{is_valid_utf8}
use taillight.Ingest.{AppLogIngestEntry}
use taillight.Shipper.Entry.{
  LogEntry, Encoded, no_attrs, encode_error, encoded, encode_error_payload,
}
use taillight.Shipper.Queue.{Line}
use taillight.Shipper.Queue.Origin.{IsFrom}
use taillight.Shipper.Handler.{
  Event, push_record, begin_handle, check_closing, begin_shutdown, barrier_lock, barrier_close,
  loop_receive, loop_tick, loop_drain,
}

-- An entry as the server decodes it; the two structs have the same JSON names.
abbrev pub as_ingested : LogEntry → AppLogIngestEntry
as_ingested e = record {
  timestamp = some e.timestamp;
  level = e.level;
  msg = e.msg;
  service = e.service;
  component = e.component;
  host = e.host;
  source = e.source;
  attrs = e.attrs;
}

-- An entry that the encoder and the decoder do not change: its texts are valid UTF-8, which JSON
-- takes as it is, and its attributes are raw JSON that the encoder copies as it is (`verbatim`).
pub record Travels (verbatim : Text → Type 0) (e : LogEntry) : Type 0 where
  pub level_valid : is_valid_utf8 e.level ≡ true
  pub msg_valid : is_valid_utf8 e.msg ≡ true
  pub service_valid : is_valid_utf8 e.service ≡ true
  pub component_valid : is_valid_utf8 e.component ≡ true
  pub host_valid : is_valid_utf8 e.host ≡ true
  pub source_valid : is_valid_utf8 e.source ≡ true
  pub attrs_verbatim : verbatim e.attrs

-- The attributes encode to fewer than 2^63 bytes of JSON that the encoder copies, or fail with an
-- error whose stub is within the limit on attributes.
abbrev pub AttrsFit : (Text → Type 0) → (Text → Option Text) → Encoded → Type 0
AttrsFit verbatim marshal_error no_attrs = Unit
AttrsFit verbatim marshal_error (encode_error err) =
    length (encode_error_payload marshal_error err) ≤ 65536
AttrsFit verbatim marshal_error (encoded raw) = (length raw < 9223372036854775808) × verbatim raw

-- Each text is what the encoder makes of the entry at its place.
abbrev pub Encodes : (LogEntry → Option Text) → List LogEntry → List Text → Type 0
Encodes marshal [] [] = Unit
Encodes marshal [] (raw ∷ raws) = ⊥
Encodes marshal (e ∷ entries) [] = ⊥
Encodes marshal (e ∷ entries) (raw ∷ raws) = (marshal e ≡ some raw) × Encodes marshal entries raws

abbrev pub RecordFits : (Text → Type 0) → (Text → Option Text) → Event → Type 0
RecordFits verbatim marshal_error (push_record now r) = AttrsFit verbatim marshal_error r.attrs
RecordFits verbatim marshal_error begin_handle = Unit
RecordFits verbatim marshal_error check_closing = Unit
RecordFits verbatim marshal_error begin_shutdown = Unit
RecordFits verbatim marshal_error barrier_lock = Unit
RecordFits verbatim marshal_error barrier_close = Unit
RecordFits verbatim marshal_error loop_receive = Unit
RecordFits verbatim marshal_error loop_tick = Unit
RecordFits verbatim marshal_error (loop_drain expired) = Unit

-- The entries of a list of encoded ones.
pub decoded_entries :
    (c : Line) (P : LogEntry → Type 0) (raws : List Text)
    → All (IsFrom c P) raws
    → (entries : List LogEntry) × All P entries
      × Encodes c.marshal entries raws
      × (length entries ≡ length raws)
decoded_entries c P [] from = ([], tt, tt, refl)
decoded_entries c P (raw ∷ raws) ((e, p, found), others) =
    let (entries, ps, encodes, same) = decoded_entries c P raws others in
    (e ∷ entries, (p, ps), (found, encodes), ap suc same)

pub length-map : (entries : List LogEntry) → length (map as_ingested entries) ≡ length entries
length-map [] = refl
length-map (e ∷ entries) = ap suc (length-map entries)

pub All-as_ingested :
    (P : AppLogIngestEntry → Type 0) (entries : List LogEntry)
    → All (λ e. P (as_ingested e)) entries
    → All P (map as_ingested entries)
All-as_ingested P [] h = tt
All-as_ingested P (e ∷ entries) (first, others) = (first, All-as_ingested P entries others)
