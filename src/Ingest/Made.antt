-- ===== src/Ingest/Made.antt =====
-- What the log shipper makes of a record, against the checks of the ingest endpoint:
-- pkg/logshipper/handler.go and api/internal/handler/applog_ingest.go.
use taillight.Base.{
  ℕ, ◌≤◌, ◌<◌, ◌≡◌, refl, ap, Bool, true, false, if◌then◌else◌, ltb, ℤ, pos, Text, codes, text_eq,
  is_empty, [], ◌∷◌, Option, none, some, length, length-append, All, arith, Bool-cases, inl, inr,
  ◌⊎◌, ◌++◌,
}
use taillight.Base.Assoc.{lookup, text_eq_keys}
use taillight.Base.Utf8.{is_valid_utf8, utf8_from}
use taillight.Base.Decimal.{decimal, length-decimal}
use taillight.Model.Unicode.{Unicode}
use taillight.Model.Level.{normalize_level, valid_applog_levels}
use taillight.Ingest.Accepted.{IsAcceptable}
use taillight.Shipper.Settings.{Config, System}
use taillight.Shipper.Settings.Limits.{IsUsable, IsRepaired}
use taillight.Shipper.Entry.{
  LogEntry, LogRecord, Encoded, no_attrs, encode_error, encoded, EntrySettings, make_entry,
  attrs_of, encode_error_payload, attrs_dropped_payload, level_string, shorten_source, truncate_msg,
  empty_msg_placeholder,
}
use taillight.Shipper.Entry.Limits.{truncate_msg_le, truncate_msg_kept, shorten_source_le}
use taillight.Shipper.Entry.Repaired.{truncate_msg-valid, shorten_source-valid, level_string-valid}
use taillight.Shipper.Handler.{
  Event, push_record, begin_handle, check_closing, begin_shutdown, barrier_lock, barrier_close,
  loop_receive, loop_tick, loop_drain, entry_settings,
}
use taillight.Shipper.Handler.Sources.{MakesOnly}
use taillight.Ingest.Wire.{as_ingested, Travels, AttrsFit, RecordFits}

length-attrs_dropped_payload :
    (settings : EntrySettings) (size : ℕ)
    → size < 10000000000000000000
    → length (attrs_dropped_payload settings size) ≤ 65536
length-attrs_dropped_payload settings size h =
    omega (arith, length-append (decimal size) (codes "}"), length-decimal 18 size h)

pub attrs_of_le :
    (verbatim : Text → Type 0) (settings : EntrySettings) (attrs : Encoded)
    → AttrsFit verbatim settings.marshal_error attrs
    → length (attrs_of settings attrs).0 ≤ 65536
unfolding attrs_of
attrs_of_le verbatim settings no_attrs fits = omega arith
attrs_of_le verbatim settings (encode_error err) fits = fits
attrs_of_le verbatim settings (encoded raw) fits = elim (Bool-cases (ltb 65536 (length raw))) [
  | inl big ↦
      rw (big, attrs_of)
        (length-attrs_dropped_payload settings (length raw) (omega (arith, fits.0)))
  | inr small ↦ rw (small, attrs_of) (ground arith)
]

pub attrs_of_verbatim :
    (verbatim : Text → Type 0) (settings : EntrySettings)
    (stubs : (err : Text) (size : ℕ)
      → verbatim []
        × verbatim (encode_error_payload settings.marshal_error err)
        × verbatim (attrs_dropped_payload settings size))
    (attrs : Encoded)
    → AttrsFit verbatim settings.marshal_error attrs
    → verbatim (attrs_of settings attrs).0
unfolding attrs_of
attrs_of_verbatim verbatim settings stubs no_attrs fits = (stubs [] 0).0
attrs_of_verbatim verbatim settings stubs (encode_error err) fits = (stubs err 0).1
attrs_of_verbatim verbatim settings stubs (encoded raw) fits =
    elim (Bool-cases (ltb 65536 (length raw))) [
      | inl big ↦ rw (big, attrs_of) (stubs [] (length raw)).2
      | inr small ↦ rw (small, attrs_of) fits.1
    ]

-- The five levels of the shipper.
level_string-cases :
    (l : ℤ)
    → (level_string l ≡ codes "FATAL")
      ⊎ ((level_string l ≡ codes "ERROR")
          ⊎ ((level_string l ≡ codes "WARN")
              ⊎ ((level_string l ≡ codes "INFO") ⊎ (level_string l ≡ codes "DEBUG"))))
unfolding level_string
level_string-cases l = ground arith

module _ (u : Unicode) (upper_fixed : All (λ p. u.upper p.0 ≡ p.0) valid_applog_levels) where
  abbrev Known : Text → Type 0
  Known level = (is_empty level ≡ false) × ((name : Text) × (normalize_level u level ≡ some name))

  -- A name of the table that upper-casing keeps.
  canonical-Known :
      (name : Text) (rank : ℤ)
      → u.upper name ≡ name
      → is_empty name ≡ false
      → lookup name valid_applog_levels ≡ some rank
      → Known name
  unfolding normalize_level
  canonical-Known name rank same some_bytes found =
      (some_bytes, (name, rw (same, found, normalize_level) (ap some same)))

  level_string-Known : (l : ℤ) → Known (level_string l)
  unfolding lookup text_eq
  level_string-Known l =
      let (debug, (info, (warn, (error, (fatal, rest))))) = upper_fixed in
      elim (level_string-cases l) [
        | inl e ↦ rw e (canonical-Known (codes "FATAL") (pos 4) fatal refl refl)
        | inr (inl e) ↦ rw e (canonical-Known (codes "ERROR") (pos 3) error refl refl)
        | inr (inr (inl e)) ↦ rw e (canonical-Known (codes "WARN") (pos 2) warn refl refl)
        | inr (inr (inr (inl e))) ↦ rw e (canonical-Known (codes "INFO") (pos 1) info refl refl)
        | inr (inr (inr (inr e))) ↦ rw e (canonical-Known (codes "DEBUG") (pos 0) debug refl refl)
      ]

  module _ (sys : System)
      (kept : (s : Text) → is_empty s ≡ false → is_empty (sys.to_valid_utf8 s) ≡ false)
      (repairs : (s : Text) → is_valid_utf8 (sys.to_valid_utf8 s) ≡ true)
      (marshal_error : Text → Option Text) (verbatim : Text → Type 0)
      (stubs : (err : Text) (size : ℕ)
        → verbatim []
          × verbatim (encode_error_payload marshal_error err)
          × verbatim (codes "{\"_attrs_dropped_bytes\":" ++ decimal size ++ codes "}")) where
    -- What the ingest endpoint takes, and takes as it was made.
    abbrev pub IsSound : LogEntry → Type 0
    IsSound e = IsAcceptable u (as_ingested e) × Travels verbatim e

    source_le :
        (settings : EntrySettings) (add_source : Bool) (source : Option Text)
        → length (
            if add_source
            then elim source [ none ↦ [] | some frame ↦ shorten_source settings frame ]
            else [])
          ≤ 256
    source_le settings false source = omega arith
    source_le settings true none = omega arith
    source_le settings true (some frame) = shorten_source_le settings frame

    msg_kept :
        (settings : EntrySettings) (message : Text)
        → ((s : Text) → is_empty s ≡ false → is_empty (settings.to_valid_utf8 s) ≡ false)
        → is_empty
            (truncate_msg settings (if is_empty message then empty_msg_placeholder else message))
          ≡ false
    msg_kept settings [] same =
        truncate_msg_kept settings empty_msg_placeholder (same empty_msg_placeholder refl)
    msg_kept settings (b ∷ message) same =
        truncate_msg_kept settings (b ∷ message) (same (b ∷ message) refl)

    made-IsAcceptable :
        (cfg : Config) (now : ℕ) (r : LogRecord)
        → IsUsable cfg
        → AttrsFit verbatim marshal_error r.attrs
        → IsAcceptable u (as_ingested (make_entry (entry_settings sys marshal_error cfg) now r).0)
    unfolding make_entry
    made-IsAcceptable cfg now r usable fits =
        let settings = entry_settings sys marshal_error cfg in
        record {
          timed = (_, refl);
          known = level_string-Known r.level;
          msg_fits = (
            msg_kept settings r.message kept,
            truncate_msg_le settings
                (if is_empty r.message then empty_msg_placeholder else r.message),
          );
          service_fits = usable.service_fits;
          component_fits = usable.component_fits;
          host_fits = usable.host_fits;
          source_fits = source_le settings cfg.add_source r.source;
          attrs_fit = attrs_of_le verbatim settings r.attrs fits;
        }

    source_valid :
        (settings : EntrySettings) (add_source : Bool) (source : Option Text)
        → ((s : Text) → is_valid_utf8 (settings.to_valid_utf8 s) ≡ true)
        → is_valid_utf8 (
            if add_source
            then elim source [ none ↦ [] | some frame ↦ shorten_source settings frame ]
            else [])
          ≡ true
    unfolding utf8_from
    source_valid settings false source same = refl
    source_valid settings true none same = refl
    source_valid settings true (some frame) same = shorten_source-valid settings same frame

    made-Travels :
        (cfg : Config) (now : ℕ) (r : LogRecord)
        → IsRepaired sys cfg
        → AttrsFit verbatim marshal_error r.attrs
        → Travels verbatim (make_entry (entry_settings sys marshal_error cfg) now r).0
    unfolding make_entry
    made-Travels cfg now r repaired fits =
        let settings = entry_settings sys marshal_error cfg in
        let (s, service) = repaired.service_from in
        let (c, component) = repaired.component_from in
        let (h, host) = repaired.host_from in
        record {
          level_valid = level_string-valid r.level;
          msg_valid =
              truncate_msg-valid settings repairs
                (if is_empty r.message then empty_msg_placeholder else r.message);
          service_valid = rw service (repairs s);
          component_valid = rw component (repairs c);
          host_valid = rw host (repairs h);
          source_valid = source_valid settings cfg.add_source r.source repairs;
          attrs_verbatim = attrs_of_verbatim verbatim settings stubs r.attrs fits;
        }

    pub makes_one :
        (cfg : Config)
        → IsUsable cfg
        → IsRepaired sys cfg
        → (e : Event) → RecordFits verbatim marshal_error e
        → MakesOnly IsSound (entry_settings sys marshal_error cfg) e
    makes_one cfg usable repaired (push_record now r) fits =
        (made-IsAcceptable cfg now r usable fits, made-Travels cfg now r repaired fits)
    makes_one cfg usable repaired begin_handle fits = tt
    makes_one cfg usable repaired check_closing fits = tt
    makes_one cfg usable repaired begin_shutdown fits = tt
    makes_one cfg usable repaired barrier_lock fits = tt
    makes_one cfg usable repaired barrier_close fits = tt
    makes_one cfg usable repaired loop_receive fits = tt
    makes_one cfg usable repaired loop_tick fits = tt
    makes_one cfg usable repaired (loop_drain expired) fits = tt
