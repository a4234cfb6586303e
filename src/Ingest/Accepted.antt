-- ===== src/Ingest/Accepted.antt =====
-- Which batches Ingest takes (api/internal/handler/applog_ingest.go).
use taillight.Base.{
  both_empty, ℕ, suc, ◌≤◌, ◌≡◌, ◌↔◌, refl, ap, sym, ◌∙◌, false, ltb, Text, codes, is_empty, List,
  [], ◌∷◌, ◌++◌, map, Option, none, some, length, All, arith, Bool-cases, Option-cases, inl, inr,
  if◌then◌else◌,
}
use taillight.Base.Decimal.{decimal}
use taillight.Model.Event.{AppLogEvent, with_attrs_preview}
use taillight.Model.Unicode.{Unicode}
use taillight.Model.Level.{normalize_level}
use taillight.Ingest.{
  AppLogIngestEntry, IngestDeps, accepted, error_if, timestamp_errors, required_errors,
  level_errors, entry_errors, batch_errors, to_event, publish, store_batch, ingest_logs, ingest,
  applog_max_body_size, attrs_preview_limit, IngestEffect, broadcast, handle_event,
}

-- The limits of the API on an entry.
pub record IsAcceptable (u : Unicode) (e : AppLogIngestEntry) : Type 0 where
  pub timed : (t : ℕ) × (e.timestamp ≡ some t)
  pub known : (is_empty e.level ≡ false) × ((l : Text) × (normalize_level u e.level ≡ some l))
  pub msg_fits : (is_empty e.msg ≡ false) × (length e.msg ≤ 65536)
  pub service_fits : (is_empty e.service ≡ false) × (length e.service ≤ 128)
  pub component_fits : length e.component ≤ 128
  pub host_fits : (is_empty e.host ≡ false) × (length e.host ≤ 256)
  pub source_fits : length e.source ≤ 256
  pub attrs_fit : length e.attrs ≤ 65536

required_errors_iff :
    (missing too_long : Text) (limit : ℕ) (value : Text)
    → (required_errors missing too_long limit value ≡ [])
      ↔ ((is_empty value ≡ false) × (length value ≤ limit))
unfolding required_errors
required_errors_iff missing too_long limit value = ground arith

error_if_iff :
    (message value : Text) (limit : ℕ)
    → (error_if (ltb limit (length value)) message ≡ []) ↔ (length value ≤ limit)
error_if_iff message value limit = ground arith

timestamp_errors_iff :
    (idx : Text) (t : Option ℕ) → (timestamp_errors idx t ≡ []) ↔ ((n : ℕ) × (t ≡ some n))
unfolding timestamp_errors
timestamp_errors_iff idx none = (λ e. cc, λ (n, e). cc)
timestamp_errors_iff idx (some n) = (λ e. (n, refl), λ e. refl)

level_errors_iff :
    (u : Unicode) (idx level : Text)
    → (level_errors u idx level ≡ [])
      ↔ ((is_empty level ≡ false) × ((l : Text) × (normalize_level u level ≡ some l)))
unfolding level_errors
level_errors_iff u idx level = ground arith

entry_errors_none :
    (u : Unicode) (idx : Text) (e : AppLogIngestEntry)
    → IsAcceptable u e
    → entry_errors u idx e ≡ []
unfolding entry_errors
entry_errors_none u idx e ok =
    rw
      (
        (timestamp_errors_iff idx e.timestamp).1 ok.timed,
        (level_errors_iff u idx e.level).1 ok.known,
        (required_errors_iff (idx ++ codes "msg is required")
              (idx ++ codes "msg exceeds 64KB limit") 65536 e.msg).1
            ok.msg_fits,
        (required_errors_iff (idx ++ codes "service is required")
              (idx ++ codes "service exceeds 128 char limit") 128 e.service).1
            ok.service_fits,
        (error_if_iff (idx ++ codes "component exceeds 128 char limit") e.component 128).1
            ok.component_fits,
        (required_errors_iff (idx ++ codes "host is required")
              (idx ++ codes "host exceeds 256 char limit") 256 e.host).1
            ok.host_fits,
        (error_if_iff (idx ++ codes "source exceeds 256 char limit") e.source 256).1 ok.source_fits,
        (error_if_iff (idx ++ codes "attrs exceeds 64KB limit") e.attrs 65536).1 ok.attrs_fit,
      )
      refl

-- The messages of an entry but those on its attributes.
abbrev before_attrs : Unicode → Text → AppLogIngestEntry → List Text
before_attrs u idx e =
    timestamp_errors idx e.timestamp
    ++ level_errors u idx e.level
    ++ required_errors (idx ++ codes "msg is required") (idx ++ codes "msg exceeds 64KB limit")
        65536 e.msg
    ++ required_errors (idx ++ codes "service is required")
        (idx ++ codes "service exceeds 128 char limit") 128 e.service
    ++ error_if (ltb 128 (length e.component)) (idx ++ codes "component exceeds 128 char limit")
    ++ required_errors (idx ++ codes "host is required")
        (idx ++ codes "host exceeds 256 char limit") 256 e.host
    ++ error_if (ltb 256 (length e.source)) (idx ++ codes "source exceeds 256 char limit")

entry_errors-IsAcceptable :
    (u : Unicode) (idx : Text) (e : AppLogIngestEntry)
    → entry_errors u idx e ≡ []
    → IsAcceptable u e
unfolding entry_errors
entry_errors-IsAcceptable u idx e h =
    let (h1, attrs) =
      both_empty {xs = before_attrs u idx e}
        {ys = error_if (ltb 65536 (length e.attrs)) (idx ++ codes "attrs exceeds 64KB limit")} h in
    let (h2, source) = both_empty h1 in
    let (h3, host) = both_empty h2 in
    let (h4, component) = both_empty h3 in
    let (h5, service) = both_empty h4 in
    let (h6, msg) = both_empty h5 in
    let (time, level) = both_empty h6 in
    record {
      timed = (timestamp_errors_iff idx e.timestamp).0 time;
      known = (level_errors_iff u idx e.level).0 level;
      msg_fits =
          (required_errors_iff (idx ++ codes "msg is required")
              (idx ++ codes "msg exceeds 64KB limit") 65536 e.msg).0
            msg;
      service_fits =
          (required_errors_iff (idx ++ codes "service is required")
              (idx ++ codes "service exceeds 128 char limit") 128 e.service).0
            service;
      component_fits =
          (error_if_iff (idx ++ codes "component exceeds 128 char limit") e.component 128).0
            component;
      host_fits =
          (required_errors_iff (idx ++ codes "host is required")
              (idx ++ codes "host exceeds 256 char limit") 256 e.host).0
            host;
      source_fits =
          (error_if_iff (idx ++ codes "source exceeds 256 char limit") e.source 256).0 source;
      attrs_fit = (error_if_iff (idx ++ codes "attrs exceeds 64KB limit") e.attrs 65536).0 attrs;
    }

module _ (u : Unicode) where
  -- No message exactly when every log keeps the limits.
  batch_errors_none :
      (i : ℕ) (logs : List AppLogIngestEntry)
      → All (IsAcceptable u) logs
      → batch_errors u i logs ≡ []
  unfolding batch_errors
  batch_errors_none i [] ok = refl
  batch_errors_none i (e ∷ logs) (first, others) =
      rw
        (
          entry_errors_none u (codes "logs[" ++ decimal i ++ codes "]: ") e first,
          batch_errors_none (suc i) logs others,
        )
        refl

  batch_errors-IsAcceptable :
      (i : ℕ) (logs : List AppLogIngestEntry)
      → batch_errors u i logs ≡ []
      → All (IsAcceptable u) logs
  unfolding batch_errors
  batch_errors-IsAcceptable i [] h = tt
  batch_errors-IsAcceptable i (e ∷ logs) h =
      let (first, others) = both_empty h in
      (
        entry_errors-IsAcceptable u (codes "logs[" ++ decimal i ++ codes "]: ") e first,
        batch_errors-IsAcceptable (suc i) logs others,
      )

  module _ (deps : IngestDeps) where
    -- The logs of a body that passes every check.
    abbrev pub Accepts : Text → List AppLogIngestEntry → Type 0
    Accepts body logs =
        (length body ≤ 5242880)
        × (deps.unmarshal body ≡ some logs)
        × (1 ≤ length logs)
        × (length logs ≤ 1000)
        × All (IsAcceptable u) logs

    -- A body of at most 5 MB that decodes to 1 to 1000 logs, each within the limits of the API, is
    -- not refused: the whole batch goes to the store.
    pub ingest_stores :
        (body : Text) (logs : List AppLogIngestEntry)
        → Accepts body logs
        → ingest u deps body ≡ store_batch u deps logs
    unfolding ingest ingest_logs
    ingest_stores body logs (size, decoded, some_logs, few, ok) =
        rw (decoded, batch_errors_none 0 logs ok) (ground arith)

    -- What the SSE clients get of an event, and what the notification engine gets.
    abbrev pub streamed : List IngestEffect → List AppLogEvent
    streamed [] = []
    streamed (broadcast e ∷ effects) = e ∷ streamed effects
    streamed (handle_event e ∷ effects) = streamed effects

    abbrev pub notified : List IngestEffect → List AppLogEvent
    notified [] = []
    notified (broadcast e ∷ effects) = notified effects
    notified (handle_event e ∷ effects) = e ∷ notified effects

    publish-streamed :
        (es : List AppLogEvent)
        → streamed (publish u deps es) ≡ map (with_attrs_preview attrs_preview_limit) es
    unfolding publish
    publish-streamed [] = refl
    publish-streamed (e ∷ es) = ground (arith, publish-streamed es)

    publish-notified :
        (es : List AppLogEvent)
        → notified (publish u deps es) ≡ (if deps.has_engine then es else [])
    unfolding publish
    publish-notified [] = ground arith
    publish-notified (e ∷ es) = ground (arith, publish-notified es)

    abbrev pub Stored : Text → ℕ → Type 0
    Stored body n =
        (logs : List AppLogIngestEntry) × (inserted : List AppLogEvent) × Accepts body logs
        × (deps.insert_log_batch (map (to_event u deps) logs) ≡ some inserted)
        × (n ≡ length inserted)
        × (streamed (ingest u deps body).effects
            ≡ map (with_attrs_preview attrs_preview_limit) inserted)
        × (notified (ingest u deps body).effects ≡ (if deps.has_engine then inserted else []))

    store_batch_accepted :
        (logs : List AppLogIngestEntry) (n : ℕ)
        → (store_batch u deps logs).response ≡ accepted n
        → (inserted : List AppLogEvent) × (deps.insert_log_batch (map (to_event u deps) logs)
            ≡ some inserted)
          × (n ≡ length inserted)
          × ((store_batch u deps logs).effects ≡ publish u deps inserted)
    unfolding store_batch
    store_batch_accepted logs n h =
        elim (Option-cases (deps.insert_log_batch (map (to_event u deps) logs))) [
          | inl failed ↦ ground arith
          | inr (inserted, stored) ↦ (inserted, stored, ground arith, rw (stored, store_batch) refl)
        ]

    ingest_logs_accepted :
        (logs : List AppLogIngestEntry) (n : ℕ)
        → (ingest_logs u deps logs).response ≡ accepted n
        → (1 ≤ length logs)
          × (length logs ≤ 1000)
          × (batch_errors u 0 logs ≡ [])
          × (ingest_logs u deps logs ≡ store_batch u deps logs)
    unfolding ingest_logs
    ingest_logs_accepted logs n h = ground arith

    -- An answer 202 means that the body has at most 5 MB and decodes to 1 to 1000 logs that are
    -- each within the limits of the API, and that the store took all of them in one batch. Of the
    -- events that it returned, as many as the answer tells, each was broadcast once, with a preview
    -- of its attributes, and, where there is a notification engine, handed to it once as a whole,
    -- both in their order.
    pub ingest_accepted :
        (body : Text) (n : ℕ) → (ingest u deps body).response ≡ accepted n → Stored body n
    unfolding ingest
    ingest_accepted body n h = elim (Option-cases (deps.unmarshal body)) [
      | inl failed ↦ ground arith
      | inr (logs, decoded) ↦ elim (Bool-cases (ltb applog_max_body_size (length body))) [
        | inl long ↦ ground arith
        | inr fits ↦
            let same : ingest u deps body ≡ ingest_logs u deps logs =
              rw (fits, decoded, ingest) refl in
            let (some_logs, few, none_wrong, stored) =
              ingest_logs_accepted logs n (sym (ap (λ o. o.response) same) ∙ h) in
            let whole = same ∙ stored in
            let (inserted, kept, count, published) =
              store_batch_accepted logs n (sym (ap (λ o. o.response) whole) ∙ h) in
            (
              logs,
              inserted,
              (ground arith, decoded, some_logs, few, batch_errors-IsAcceptable 0 logs none_wrong),
              kept,
              count,
              ap (λ o. streamed o.effects) whole
                  ∙ ap streamed published
                  ∙ publish-streamed inserted,
              ap (λ o. notified o.effects) whole
                  ∙ ap notified published
                  ∙ publish-notified inserted,
            )
      ]
    ]
