-- ===== src/Notify/Secrets/Restored.antt =====
-- Masking and its inverse (api/internal/notification/secrets.go).
use taillight.Base.{
  ◌≡◌, refl, ap, sym, ◌∙◌, Bool, true, false, ◌||◌, if◌then◌else◌, Text, text_eq, text_eq_iff,
  is_empty, List, [], ◌∷◌, Option, none, some, arith, Bool-cases, Option-cases, inl, inr, ◌⊎◌,
  subst,
}
use mathlib.Core.Option
use taillight.Base.Assoc.{Assoc, Every, lookup-Every, lookup, insert, lookup-insert, text_eq_keys}
use taillight.Notify.Types.{Channel}
use taillight.Notify.Secrets.{
  Json, JsonValue, secret_keys, mask_json_value, is_empty_json, restore_json_value, redact_keys,
  restore_keys, redacted, with_secrets_from, no_keys,
}
use taillight.Notify.Secrets.Values.{
  IsObject, text_eq_refl, hide, hide_found, restore_json_value-hide, hide_twice,
}

abbrev pub mem : Text → List Text → Bool
mem j [] = false
mem j (k ∷ keys) = text_eq k j || mem j keys

-- One round of the loop of Redacted.
pub redact_step :
    (k j : Text) (raw : JsonValue) (cfg : Assoc Text JsonValue)
    → lookup k cfg ≡ some raw
    → lookup j (if is_empty_json raw then cfg else insert k (mask_json_value raw) cfg)
      ≡ (if text_eq k j then some (hide raw) else lookup j cfg)
redact_step k j raw cfg found = elim (Bool-cases (is_empty_json raw)) [
  | inl empty ↦ rw empty (elim (Bool-cases (text_eq k j)) [
    | inl same ↦ rw (same, ← (text_eq_iff k j).0 same, found) refl
    | inr other ↦ rw other refl
  ])
  | inr full ↦ rw (full, lookup-insert k j (mask_json_value raw) cfg) refl
]

-- As it was, or masked.
abbrev Hidden : Option JsonValue → Option JsonValue → Type 0
Hidden before now = (now ≡ before) ⊎ (now ≡ hide_found before)

hide-Hidden :
    (before : Option JsonValue) (raw : JsonValue)
    → Hidden before (some raw)
    → some (hide raw) ≡ hide_found before
hide-Hidden none raw (inl e) = cc
hide-Hidden none raw (inr e) = cc
hide-Hidden (some v) raw (inl e) = ap hide_found e
hide-Hidden (some v) raw (inr e) = ap hide_found e ∙ ap some (hide_twice v)

redact_step-Hidden :
    (k j : Text) (raw : JsonValue) (before : Option JsonValue) (cfg : Assoc Text JsonValue)
    → lookup k cfg ≡ some raw
    → Hidden before (lookup j cfg)
    → Hidden before (if text_eq k j then some (hide raw) else lookup j cfg)
redact_step-Hidden k j raw before cfg found h = elim (Bool-cases (text_eq k j)) [
  | inl same ↦
      let here : lookup j cfg ≡ some raw = rw (← (text_eq_iff k j).0 same) found in
      rw same (inr (hide-Hidden before raw (subst (Hidden before) here h)))
  | inr other ↦ rw other h
]

-- A key that is not in the list is not touched.
keys_or_same :
    (k j : Text) (raw : JsonValue) (cfg : Assoc Text JsonValue) (later : Bool)
    (now : Option JsonValue)
    → (later ≡ true) ⊎ (now ≡ (if text_eq k j then some (hide raw) else lookup j cfg))
    → ((text_eq k j || later) ≡ true) ⊎ (now ≡ lookup j cfg)
keys_or_same k j raw cfg later now h = elim (Bool-cases (text_eq k j)) [
  | inl same ↦ inl (rw same refl)
  | inr other ↦ elim h [ inl m ↦ inl (rw (other, m) refl) | inr e ↦ inr (e ∙ rw other refl) ]
]

redact_keys-Hidden :
    (keys : List Text) (j : Text) (before : Option JsonValue) (cfg : Assoc Text JsonValue)
    → Hidden before (lookup j cfg)
    → Hidden before (lookup j (redact_keys keys cfg))
      × ((mem j keys ≡ true) ⊎ (lookup j (redact_keys keys cfg) ≡ lookup j cfg))
unfolding redact_keys
redact_keys-Hidden [] j before cfg h = (h, inr refl)
redact_keys-Hidden (k ∷ keys) j before cfg h = elim (Option-cases (lookup k cfg)) [
  | inl absent ↦ rw (absent, redact_keys) (ground (arith, redact_keys-Hidden keys j before cfg h))
  | inr (raw, found) ↦
      let cfg1 = if is_empty_json raw then cfg else insert k (mask_json_value raw) cfg in
      let step = redact_step k j raw cfg found in
      let h1 = subst (Hidden before) (sym step) (redact_step-Hidden k j raw before cfg found h) in
      let (h2, rest) = redact_keys-Hidden keys j before cfg1 h1 in
      rw (found, redact_keys)
        (
          h2,
          keys_or_same k j raw cfg (mem j keys) (lookup j (redact_keys keys cfg1))
              (elim rest [ inl m ↦ inl m | inr e ↦ inr (e ∙ step) ]),
        )
]

abbrev FoundObject : Option JsonValue → Type 0
FoundObject none = Unit
FoundObject (some v) = IsObject v

-- Still to restore, or as it was.
abbrev Pending : Bool → Option JsonValue → Option JsonValue → Type 0
Pending later before now = (now ≡ before) ⊎ ((later ≡ true) × (now ≡ hide_found before))

restored_here :
    (before : Option JsonValue) (raw : JsonValue)
    → FoundObject before
    → Hidden before (some raw)
    → some (restore_json_value raw before) ≡ before
restored_here none raw o (inl e) = cc
restored_here none raw o (inr e) = cc
restored_here (some v) raw o (inl e) =
    subst (λ r. Option.map (λ x. restore_json_value x (some v)) r ≡ some v) (sym e)
      (ap some (restore_json_value-hide v o).1)
restored_here (some v) raw o (inr e) =
    subst (λ r. Option.map (λ x. restore_json_value x (some v)) r ≡ some v) (sym e)
      (ap some (restore_json_value-hide v o).0)

Pending-Hidden :
    (later : Bool) (before now : Option JsonValue) → Pending later before now → Hidden before now
Pending-Hidden later before now (inl e) = inl e
Pending-Hidden later before now (inr (m, e)) = inr e

restore_step :
    (k j : Text) (later : Bool) (raw : JsonValue) (old cfg : Assoc Text JsonValue)
    → FoundObject (lookup j old)
    → lookup k cfg ≡ some raw
    → Pending (text_eq k j || later) (lookup j old) (lookup j cfg)
    → Pending later (lookup j old) (lookup j (insert k (restore_json_value raw (lookup k old)) cfg))
restore_step k j later raw old cfg o found p = elim (Bool-cases (text_eq k j)) [
  | inl same ↦
      let key = (text_eq_iff k j).0 same in
      let h =
        subst (Hidden (lookup j old)) (ap (λ i. lookup i cfg) (sym key) ∙ found)
          (Pending-Hidden (text_eq k j || later) (lookup j old) (lookup j cfg) p) in
      rw (lookup-insert k j (restore_json_value raw (lookup k old)) cfg, same)
        (inl (
          ap (λ i. some (restore_json_value raw (lookup i old))) key
          ∙ restored_here (lookup j old) raw o h))
  | inr other ↦
      rw (lookup-insert k j (restore_json_value raw (lookup k old)) cfg, other) (rw other at p)
]

none_before : (before : Option JsonValue) → Hidden before none → none ≡ before
none_before none h = refl
none_before (some v) (inl e) = cc
none_before (some v) (inr e) = cc

absent_step :
    (k j : Text) (later : Bool) (old cfg : Assoc Text JsonValue)
    → lookup k cfg ≡ none
    → Pending (text_eq k j || later) (lookup j old) (lookup j cfg)
    → Pending later (lookup j old) (lookup j cfg)
absent_step k j later old cfg absent p = elim (Bool-cases (text_eq k j)) [
  | inl same ↦
      let here : lookup j cfg ≡ none =
        ap (λ i. lookup i cfg) (sym ((text_eq_iff k j).0 same)) ∙ absent in
      let h =
        subst (Hidden (lookup j old)) here
          (Pending-Hidden (text_eq k j || later) (lookup j old) (lookup j cfg) p) in
      inl (here ∙ none_before (lookup j old) h)
  | inr other ↦ rw other at p
]

restore_keys-lookup :
    (keys : List Text) (j : Text) (old cfg : Assoc Text JsonValue)
    → FoundObject (lookup j old)
    → Pending (mem j keys) (lookup j old) (lookup j cfg)
    → lookup j (restore_keys keys old cfg) ≡ lookup j old
unfolding restore_keys
restore_keys-lookup [] j old cfg o (inl e) = e
restore_keys-lookup [] j old cfg o (inr (m, e)) = cc
restore_keys-lookup (k ∷ keys) j old cfg o p = elim (Option-cases (lookup k cfg)) [
  | inl absent ↦
      rw (absent, restore_keys)
        (restore_keys-lookup keys j old cfg o (absent_step k j (mem j keys) old cfg absent p))
  | inr (raw, found) ↦
      rw (found, restore_keys)
        (restore_keys-lookup keys j old (insert k (restore_json_value raw (lookup k old)) cfg) o
          (restore_step k j (mem j keys) raw old cfg o found p))
]

keys_restored :
    (keys : List Text) (j : Text) (cfg : Assoc Text JsonValue)
    → FoundObject (lookup j cfg)
    → lookup j (restore_keys keys cfg (redact_keys keys cfg)) ≡ lookup j cfg
keys_restored keys j cfg o =
    let (hidden, touched) = redact_keys-Hidden keys j (lookup j cfg) cfg (inl refl) in
    restore_keys-lookup keys j cfg (redact_keys keys cfg) o (elim touched [
      | inr same ↦ inl same
      | inl here ↦ elim hidden [ inl same ↦ inl same | inr masked ↦ inr (here, masked) ]
    ])

module _ (json : Json) (ch : Channel) where
  redacted_plain :
      no_keys (secret_keys ch.channel_type) || is_empty ch.config ≡ true → redacted json ch ≡ ch
  unfolding redacted
  redacted_plain plain = rw (plain, redacted) refl

  pub redacted_full :
      (cfg : Assoc Text JsonValue)
      → no_keys (secret_keys ch.channel_type) || is_empty ch.config ≡ false
      → json.unmarshal ch.config ≡ some cfg
      → redacted json ch
        ≡ record ch { config = json.marshal (redact_keys (secret_keys ch.channel_type) cfg) }
  unfolding redacted
  redacted_full cfg full parsed = rw (full, parsed, redacted) refl

  with_secrets_plain :
      no_keys (secret_keys ch.channel_type) || is_empty ch.config ≡ true
      → with_secrets_from json ch ch ≡ ch
  unfolding with_secrets_from
  with_secrets_plain plain = ground arith

  with_secrets_full :
      (shown : Text) (old cfg : Assoc Text JsonValue)
      → no_keys (secret_keys ch.channel_type) || is_empty ch.config ≡ false
      → is_empty shown ≡ false
      → json.unmarshal shown ≡ some cfg
      → json.unmarshal ch.config ≡ some old
      → with_secrets_from json (record ch { config = shown }) ch
        ≡ record ch { config = json.marshal (restore_keys (secret_keys ch.channel_type) old cfg) }
  unfolding with_secrets_from
  with_secrets_full shown old cfg full some_text parsed stored =
      let keyed : no_keys (secret_keys ch.channel_type) ≡ false = ground arith in
      rw (keyed, text_eq_refl ch.channel_type, some_text, parsed, stored, with_secrets_from) refl

Every-FoundObject :
    (j : Text) (cfg : Assoc Text JsonValue)
    → Every (λ k v. IsObject v) cfg
    → FoundObject (lookup j cfg)
Every-FoundObject j cfg objects = elim (Option-cases (lookup j cfg)) [
  | inl absent ↦ rw absent tt
  | inr (v, found) ↦ rw found (lookup-Every (λ k v. IsObject v) j v cfg objects found)
]

module _ (json : Json)
    (decodes : (m : Assoc Text JsonValue) → json.unmarshal (json.marshal m) ≡ some m)
    (some_text : (m : Assoc Text JsonValue) → is_empty (json.marshal m) ≡ false) where
  -- Let the JSON of a map decode to the map and not be empty. A channel whose configuration decodes,
  -- with no key twice in an object, and that comes back as it was shown, with its secrets masked, is
  -- stored with a configuration that has the same value at every key.
  pub redacted_restores :
      (ch : Channel) (cfg : Assoc Text JsonValue)
      → json.unmarshal ch.config ≡ some cfg
      → Every (λ k v. IsObject v) cfg
      → (merged : Assoc Text JsonValue) × (json.unmarshal
            (with_secrets_from json (redacted json ch) ch).config
          ≡ some merged)
        × ((j : Text) → lookup j merged ≡ lookup j cfg)
  redacted_restores ch cfg parsed objects =
      elim (Bool-cases (no_keys (secret_keys ch.channel_type) || is_empty ch.config)) [
        | inl plain ↦
            let shown = redacted_plain json ch plain in
            let stored =
              ap (λ c. with_secrets_from json c ch) shown ∙ with_secrets_plain json ch plain in
            (cfg, ap (λ c. json.unmarshal c.config) stored ∙ parsed, λ j. refl)
        | inr full ↦
            let keys = secret_keys ch.channel_type in
            let hidden = redact_keys keys cfg in
            let shown = redacted_full json ch cfg full parsed in
            let stored =
              ap (λ c. with_secrets_from json c ch) shown
              ∙ with_secrets_full json ch (json.marshal hidden) cfg hidden full (some_text hidden)
                  (decodes hidden) parsed in
            (
              restore_keys keys cfg hidden,
              ap (λ c. json.unmarshal c.config) stored ∙ decodes (restore_keys keys cfg hidden),
              λ j. keys_restored keys j cfg (Every-FoundObject j cfg objects),
            )
      ]
