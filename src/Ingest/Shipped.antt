-- ===== src/Ingest/Shipped.antt =====
-- The batches of the log shipper at the ingest endpoint: pkg/logshipper/handler.go against
-- api/internal/handler/applog_ingest.go. The JSON encoder and decoder between them are parameters.
use taillight.Base.{
  ℕ, suc, ◌≤◌, ◌≡◌, refl, ap, false, pos_part, Text, is_empty, List, [], ◌∷◌, map, Option, some,
  length, All, All-map, arith, inr, subst, true, codes, ◌++◌,
}
use taillight.Base.Assoc.{text_eq_keys}
use taillight.Model.Unicode.{Unicode}
use taillight.Model.Level.{valid_applog_levels}
use taillight.Ingest.{IngestDeps, ingest, store_batch}
use taillight.Ingest.Accepted.{IsAcceptable, ingest_stores}
use taillight.Shipper.Settings.{Config, System, set_defaults}
use taillight.Shipper.Settings.Limits.{
  IsUsable, IsRepaired, set_defaults-IsUsable, set_defaults-IsRepaired,
}
use taillight.Shipper.Entry.{LogEntry, encode_error_payload}
use taillight.Base.Utf8.{is_valid_utf8}
use taillight.Base.Decimal.{decimal}
use taillight.Shipper.Queue.{Line, request_body}
use taillight.Shipper.Queue.Origin.{IsFrom}
use taillight.Shipper.Queue.Requests.{Fits}
use taillight.Shipper.Handler.{Event, entry_settings, line_of, new_handler}
use taillight.Shipper.Handler.Shutdown.{run_events}
use taillight.Shipper.Handler.Sizes.{run-Fits}
use taillight.Shipper.Handler.Sources.{MakesOnly, run_sent}
use taillight.Ingest.Wire.{
  as_ingested, Travels, Encodes, RecordFits, decoded_entries, length-map, All-as_ingested,
}
use taillight.Ingest.Made.{IsSound, makes_one}

module _ (u : Unicode) (upper_fixed : All (λ p. u.upper p.0 ≡ p.0) valid_applog_levels)
    (sys : System) (kept : (s : Text) → is_empty s ≡ false → is_empty (sys.to_valid_utf8 s) ≡ false)
    (repairs : (s : Text) → is_valid_utf8 (sys.to_valid_utf8 s) ≡ true)
    (marshal_error : Text → Option Text) (verbatim : Text → Type 0)
    (stubs : (err : Text) (size : ℕ)
      → verbatim []
        × verbatim (encode_error_payload marshal_error err)
        × verbatim (codes "{\"_attrs_dropped_bytes\":" ++ decimal size ++ codes "}"))
    (deps : IngestDeps) (marshal : LogEntry → Option Text)
    (decodes : (entries : List LogEntry) (raws : List Text)
      → All (Travels verbatim) entries
      → Encodes marshal entries raws
      → deps.unmarshal (request_body raws) ≡ some (map as_ingested entries)) where
  abbrev Sound : LogEntry → Type 0
  Sound e = IsSound u upper_fixed sys kept repairs marshal_error verbatim stubs e

  Sound-all :
      (entries : List LogEntry)
      → All Sound entries
      → All (λ e. IsAcceptable u (as_ingested e)) entries × All (Travels verbatim) entries
  Sound-all [] ok = (tt, tt)
  Sound-all (e ∷ entries) ((first, whole), others) =
      let (fine, same) = Sound-all entries others in ((first, fine), (whole, same))

  -- The answer to a request is what the store makes of its logs.
  abbrev pub Reaches : List Text → Type 0
  Reaches raws =
      (entries : List LogEntry) × Encodes marshal entries raws
      × (ingest u deps (request_body raws) ≡ store_batch u deps (map as_ingested entries))

  request-Reaches :
      (c : Line) (raws : List Text)
      → c.marshal ≡ marshal
      → All (IsFrom c Sound) raws
      → (1 ≤ length raws) × (length raws ≤ 1000) × (length (request_body raws) ≤ 4194304)
      → Reaches raws
  request-Reaches c raws same from (some_entries, few, small) =
      let (entries, ok, encodes, count) = decoded_entries c Sound raws from in
      let (fine, whole) = Sound-all entries ok in
      let here = subst (λ f. Encodes f entries raws) same encodes in
      (
        entries,
        here,
        ingest_stores u deps (request_body raws) (map as_ingested entries) (
          omega arith,
          decodes entries raws whole here,
          omega (arith, length-map entries),
          omega (arith, length-map entries),
          All-as_ingested (IsAcceptable u) entries fine,
        ),
      )

  requests-Reaches :
      (c : Line) (requests : List (List Text))
      → c.marshal ≡ marshal
      → c.batch_size ≤ 1000
      → c.max_request_bytes ≡ 4194304
      → All (All (IsFrom c Sound)) requests
      → All (λ r. (1 ≤ length r) × Fits c r) requests
      → All Reaches requests
  requests-Reaches c [] same few limit from fits = tt
  requests-Reaches c (raws ∷ requests) same few limit (first, others)
        ((some_entries, (count, bytes)), fits) =
      (
        request-Reaches c raws same first (some_entries, omega arith, omega arith),
        requests-Reaches c requests same few limit others fits,
      )

  makes_only :
      (cfg : Config) (es : List Event)
      → IsUsable cfg
      → IsRepaired sys cfg
      → All (RecordFits verbatim marshal_error) es
      → All (MakesOnly Sound (entry_settings sys marshal_error cfg)) es
  makes_only cfg es usable repaired fits =
      All-map
        (makes_one u upper_fixed sys kept repairs marshal_error verbatim stubs cfg usable repaired)
        es fits

  -- Of a handler that New accepts the configuration of, every request of every run from the
  -- start is within the checks of the ingest endpoint: its logs go to the store as one batch,
  -- each as the shipper made it, and none is refused. Assumed of the libraries: ToValidUTF8 gives
  -- valid UTF-8, and some bytes for a text that has some; ToUpper keeps the five level names; and
  -- the server decodes a request to the entries that the shipper encoded, if their texts are valid
  -- UTF-8 and their attributes are raw JSON that the encoder copies as it is, as the stubs and no
  -- attributes are. Assumed of the records: their attributes encode to fewer than 2^63 bytes of such
  -- JSON, or fail with an error whose stub has at most 64 KB.
  pub run-Reaches :
      (answers : ℕ → Option ℕ) (given cfg : Config) (es : List Event)
      → set_defaults sys given ≡ inr cfg
      → All (RecordFits verbatim marshal_error) es
      → All Reaches
          (run_events
            (line_of marshal answers cfg)
            (entry_settings sys marshal_error cfg)
            es
            new_handler).shipper.requests
  run-Reaches answers given cfg es accepted fits =
      let c = line_of marshal answers cfg in
      let settings = entry_settings sys marshal_error cfg in
      let usable = set_defaults-IsUsable sys kept given cfg accepted in
      let repaired = set_defaults-IsRepaired sys given cfg accepted in
      let (n, size, few) = usable.batch in
      let batch : c.batch_size ≡ suc n = ap pos_part size in
      requests-Reaches c (run_events c settings es new_handler).shipper.requests refl (omega arith)
        refl (run_sent c Sound settings es (makes_only cfg es usable repaired fits))
        (run-Fits c settings (omega arith) es (omega arith))
