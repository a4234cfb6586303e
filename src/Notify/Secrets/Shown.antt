-- ===== src/Notify/Secrets/Shown.antt =====
-- What a client sees of the secrets (api/internal/notification/secrets.go).
use taillight.Base.{
  ◌≡◌, refl, ap, sym, ◌∙◌, true, false, ◌||◌, if◌then◌else◌, Text, codes, text_eq, text_eq_iff,
  is_empty, List, [], ◌∷◌, Option, none, some, Bool-cases, Option-cases, inl, inr, ◌⊎◌,
}
use taillight.Base.Assoc.{Assoc, lookup, insert, map_values, text_eq_keys}
use taillight.Notify.Types.{Channel}
use taillight.Notify.Secrets.{
  Json, JsonValue, Member, json_null, json_string, json_other, json_object, member_string,
  masked_member, redacted_secret, secret_keys, mask_json_value, is_empty_json, redact_keys,
  redacted, no_keys,
}
use taillight.Notify.Secrets.Values.{hide, hide_found, hide_twice}
use taillight.Notify.Secrets.Restored.{mem, redact_step, redacted_full}

abbrev pub AllMasked : Assoc Text Member → Type 0
AllMasked [] = Unit
AllMasked ((k, v) ∷ m) = (v ≡ member_string redacted_secret) × AllMasked m

-- Nothing of a secret: no value, an empty one, the placeholder, or an object of placeholders.
abbrev pub Concealed : Option JsonValue → Type 0
Concealed none = Unit
Concealed (some json_null) = Unit
Concealed (some (json_string s)) = (s ≡ []) ⊎ (s ≡ redacted_secret)
Concealed (some (json_other s)) = s ≡ codes "[]"
Concealed (some (json_object m)) = AllMasked m

masked-AllMasked : (m : Assoc Text Member) → AllMasked (map_values masked_member m)
unfolding map_values
masked-AllMasked [] = tt
masked-AllMasked ((k, v) ∷ m) = (refl, masked-AllMasked m)

hide_found-Concealed : (o : Option JsonValue) → Concealed (hide_found o)
unfolding mask_json_value
hide_found-Concealed none = tt
hide_found-Concealed (some json_null) = tt
hide_found-Concealed (some (json_string [])) = inl refl
hide_found-Concealed (some (json_string (c ∷ s))) = inr refl
hide_found-Concealed (some (json_other s)) = elim (Bool-cases (text_eq s (codes "[]"))) [
  | inl empty ↦ rw empty ((text_eq_iff s (codes "[]")).0 empty)
  | inr other ↦ rw other (inr refl)
]
hide_found-Concealed (some (json_object [])) = tt
hide_found-Concealed (some (json_object ((k, v) ∷ m))) = masked-AllMasked ((k, v) ∷ m)

hide_found_twice : (o : Option JsonValue) → hide_found (hide_found o) ≡ hide_found o
hide_found_twice none = refl
hide_found_twice (some v) = ap some (hide_twice v)

-- A value that is hidden stays so.
hide_kept :
    (k j : Text) (raw : JsonValue) (o : Option JsonValue) (cfg : Assoc Text JsonValue)
    → lookup k cfg ≡ some raw
    → lookup j cfg ≡ hide_found o
    → (if text_eq k j then some (hide raw) else lookup j cfg) ≡ hide_found o
hide_kept k j raw o cfg found h = elim (Bool-cases (text_eq k j)) [
  | inl same ↦
      let here : some raw ≡ hide_found o =
        sym found ∙ ap (λ i. lookup i cfg) ((text_eq_iff k j).0 same) ∙ h in
      rw same (ap hide_found here ∙ hide_found_twice o)
  | inr other ↦ rw other h
]

redact_keys_kept :
    (keys : List Text) (j : Text) (o : Option JsonValue) (cfg : Assoc Text JsonValue)
    → lookup j cfg ≡ hide_found o
    → lookup j (redact_keys keys cfg) ≡ hide_found o
unfolding redact_keys
redact_keys_kept [] j o cfg h = h
redact_keys_kept (k ∷ keys) j o cfg h = elim (Option-cases (lookup k cfg)) [
  | inl absent ↦ rw (absent, redact_keys) (redact_keys_kept keys j o cfg h)
  | inr (raw, found) ↦
      let cfg1 = if is_empty_json raw then cfg else insert k (mask_json_value raw) cfg in
      rw (found, redact_keys)
        (redact_keys_kept keys j o cfg1
          (redact_step k j raw cfg found ∙ hide_kept k j raw o cfg found h))
]

redact_keys-mem :
    (keys : List Text) (j : Text) (cfg : Assoc Text JsonValue)
    → mem j keys ≡ true
    → lookup j (redact_keys keys cfg) ≡ hide_found (lookup j cfg)
unfolding redact_keys
redact_keys-mem [] j cfg h = cc
redact_keys-mem (k ∷ keys) j cfg h = elim (Option-cases (lookup k cfg)) [
  | inl absent ↦ elim (Bool-cases (text_eq k j)) [
    | inl same ↦
        let here : lookup j cfg ≡ none =
          ap (λ i. lookup i cfg) (sym ((text_eq_iff k j).0 same)) ∙ absent in
        rw (absent, here, redact_keys) (redact_keys_kept keys j none cfg here)
    | inr other ↦ rw (absent, redact_keys) (redact_keys-mem keys j cfg (rw other at h))
  ]
  | inr (raw, found) ↦
      let cfg1 = if is_empty_json raw then cfg else insert k (mask_json_value raw) cfg in
      let step = redact_step k j raw cfg found in
      elim (Bool-cases (text_eq k j)) [
        | inl same ↦
            let here : lookup j cfg ≡ some raw =
              ap (λ i. lookup i cfg) (sym ((text_eq_iff k j).0 same)) ∙ found in
            let now : lookup j cfg1 ≡ hide_found (some raw) = step ∙ rw same refl in
            rw (found, redact_keys)
              (redact_keys_kept keys j (some raw) cfg1 now ∙ ap hide_found (sym here))
        | inr other ↦
            let now : lookup j cfg1 ≡ lookup j cfg = step ∙ rw other refl in
            rw (found, redact_keys)
              (redact_keys-mem keys j cfg1 (rw other at h) ∙ ap hide_found now)
      ]
]

mem-no_keys : (j : Text) (keys : List Text) → mem j keys ≡ true → no_keys keys ≡ false
mem-no_keys j [] h = cc
mem-no_keys j (k ∷ keys) h = refl

-- Let the JSON of a map decode to the map. A channel whose configuration is not empty and decodes is
-- shown with a configuration in which the value at every secret key of its type is absent, null, empty,
-- the placeholder, or an object all whose members are the placeholder.
pub redacted_conceals :
    (json : Json)
    → ((m : Assoc Text JsonValue) → json.unmarshal (json.marshal m) ≡ some m)
    → (ch : Channel) (cfg : Assoc Text JsonValue) (key : Text) → is_empty ch.config ≡ false
    → json.unmarshal ch.config ≡ some cfg
    → mem key (secret_keys ch.channel_type) ≡ true
    → (shown : Assoc Text JsonValue) × (json.unmarshal (redacted json ch).config ≡ some shown)
      × Concealed (lookup key shown)
redacted_conceals json decodes ch cfg key some_text parsed secret =
    let keys = secret_keys ch.channel_type in
    let full : no_keys keys || is_empty ch.config ≡ false =
      rw (mem-no_keys key keys secret, some_text) refl in
    (
      redact_keys keys cfg,
      ap (λ c. json.unmarshal c.config) (redacted_full json ch cfg full parsed)
          ∙ decodes (redact_keys keys cfg),
      rw (redact_keys-mem keys key cfg secret) (hide_found-Concealed (lookup key cfg)),
    )
