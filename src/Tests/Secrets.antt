-- ===== src/Tests/Secrets.antt =====
-- Runs of the masking of secrets, with a codec for the configurations.
use taillight.Base.{
  ℕ, suc, zero, ◌≡◌, refl, ap, true, false, if◌then◌else◌, ◌==◌, Text, codes, text_eq, is_empty,
  List, [], ◌∷◌, ◌++◌, Option, none, some, length, take, drop,
}
use taillight.Base.Assoc.{Assoc, lookup, insert, map_values, text_eq_keys}
use taillight.Notify.Types.{Channel, channel_type_webhook}
use taillight.Notify.Secrets.{
  Json, JsonValue, Member, json_null, json_string, json_other, json_object, member_string,
  member_other, redacted, with_secrets_from, redact_keys, mask_json_value, secret_keys,
}
use taillight.Notify.Secrets.Shown.{Concealed, redacted_conceals}
use taillight.Notify.Secrets.Restored.{redacted_restores}

-- A value at the front of a text, and what follows it.
record Codec (A : Type 0) : Type 0 where
  enc : A → Text → Text
  dec : Text → Option (A × Text)
  law : (a : A) (rest : Text) → dec (enc a rest) ≡ some (a, rest)

take_front : (t rest : Text) → take (length t) (t ++ rest) ≡ t
take_front [] rest = refl
take_front (b ∷ t) rest = ap (◌∷◌ b) (take_front t rest)

drop_front : (t rest : Text) → drop (length t) (t ++ rest) ≡ rest
drop_front [] rest = refl
drop_front (b ∷ t) rest = drop_front t rest

dec_text : Text → Option (Text × Text)
dec_text [] = none
dec_text (n ∷ s) = some (take n s, drop n s)

text_codec : Codec Text
unfolding dec_text
text_codec = record {
  enc = λ t rest. length t ∷ (t ++ rest);
  dec = dec_text;
  law = λ t rest. rw (take_front t rest, drop_front t rest) refl;
}

module _ {A B : Type 0} (f : Codec A) (g : Codec B) where
  dec_pair : Text → Option ((A × B) × Text)
  dec_pair s = elim (f.dec s) [
    | none ↦ none
    | some p ↦ elim (g.dec p.1) [ none ↦ none | some q ↦ some ((p.0, q.0), q.1) ]
  ]

  pair_codec : Codec (A × B)
  unfolding dec_pair
  pair_codec = record {
    enc = λ p rest. f.enc p.0 (g.enc p.1 rest);
    dec = dec_pair;
    law = λ p rest. rw (f.law p.0 (g.enc p.1 rest), g.law p.1 rest, dec_pair) refl;
  }

module _ {A : Type 0} (f : Codec A) where
  enc_items : List A → Text → Text
  enc_items [] rest = rest
  enc_items (a ∷ items) rest = f.enc a (enc_items items rest)

  dec_items : ℕ → Text → Option (List A × Text)
  dec_items zero s = some ([], s)
  dec_items (suc n) s = elim (f.dec s) [
    | none ↦ none
    | some p ↦ elim (dec_items n p.1) [ none ↦ none | some q ↦ some (p.0 ∷ q.0, q.1) ]
  ]

  dec_counted : Text → Option (List A × Text)
  unfolding dec_items
  dec_counted [] = none
  dec_counted (n ∷ s) = dec_items n s

  items_law :
      (items : List A) (rest : Text)
      → dec_items (length items) (enc_items items rest) ≡ some (items, rest)
  unfolding enc_items dec_items
  items_law [] rest = refl
  items_law (a ∷ items) rest = rw (f.law a (enc_items items rest), items_law items rest) refl

  list_codec : Codec (List A)
  unfolding dec_counted
  list_codec = record {
    enc = λ items rest. length items ∷ enc_items items rest;
    dec = dec_counted;
    law = items_law;
  }

enc_member : Member → Text → Text
enc_member (member_string s) rest = 0 ∷ text_codec.enc s rest
enc_member (member_other s) rest = 1 ∷ text_codec.enc s rest

dec_tagged : ℕ → Option (Text × Text) → Option (Member × Text)
dec_tagged tag none = none
dec_tagged tag (some p) = some (if tag == 0 then member_string p.0 else member_other p.0, p.1)

dec_member : Text → Option (Member × Text)
unfolding dec_tagged
dec_member [] = none
dec_member (tag ∷ s) = dec_tagged tag (text_codec.dec s)

member_law : (v : Member) (rest : Text) → dec_member (enc_member v rest) ≡ some (v, rest)
unfolding enc_member dec_member
member_law (member_string s) rest = ap (dec_tagged 0) (text_codec.law s rest)
member_law (member_other s) rest = ap (dec_tagged 1) (text_codec.law s rest)

member_codec : Codec Member
member_codec = record { enc = enc_member; dec = dec_member; law = member_law }

object_codec : Codec (Assoc Text Member)
unfolding list_codec pair_codec
object_codec = list_codec (pair_codec text_codec member_codec)

enc_value : JsonValue → Text → Text
enc_value json_null rest = 0 ∷ rest
enc_value (json_string s) rest = 1 ∷ text_codec.enc s rest
enc_value (json_other s) rest = 2 ∷ text_codec.enc s rest
enc_value (json_object m) rest = 3 ∷ object_codec.enc m rest

dec_object : Option (Assoc Text Member × Text) → Option (JsonValue × Text)
dec_object none = none
dec_object (some p) = some (json_object p.0, p.1)

dec_other : ℕ → Option (Text × Text) → Option (JsonValue × Text)
dec_other tag none = none
dec_other tag (some p) = some (if tag == 1 then json_string p.0 else json_other p.0, p.1)

dec_value : Text → Option (JsonValue × Text)
unfolding dec_object dec_other
dec_value [] = none
dec_value (tag ∷ s) =
    if tag == 0
    then some (json_null, s)
    else if tag == 3
    then dec_object (object_codec.dec s)
    else dec_other tag (text_codec.dec s)

value_law : (v : JsonValue) (rest : Text) → dec_value (enc_value v rest) ≡ some (v, rest)
unfolding enc_value dec_value
value_law json_null rest = refl
value_law (json_string s) rest = ap (dec_other 1) (text_codec.law s rest)
value_law (json_other s) rest = ap (dec_other 2) (text_codec.law s rest)
value_law (json_object m) rest = ap dec_object (object_codec.law m rest)

value_codec : Codec JsonValue
value_codec = record { enc = enc_value; dec = dec_value; law = value_law }

config_codec : Codec (Assoc Text JsonValue)
unfolding list_codec
config_codec = list_codec (pair_codec text_codec value_codec)

abbrev first_of : Option (Assoc Text JsonValue × Text) → Option (Assoc Text JsonValue)
first_of none = none
first_of (some p) = some p.0

abbrev plain_json : Json
plain_json = record {
  unmarshal = λ s. first_of (config_codec.dec s);
  marshal = λ m. config_codec.enc m [];
}

plain_json-decodes :
    (m : Assoc Text JsonValue) → plain_json.unmarshal (plain_json.marshal m) ≡ some m
plain_json-decodes m = ap first_of (config_codec.law m [])

plain_json-some_text : (m : Assoc Text JsonValue) → is_empty (plain_json.marshal m) ≡ false
unfolding config_codec
plain_json-some_text m = refl

abbrev hook_config : Assoc Text JsonValue
hook_config =
    (codes "url", json_string (codes "https://hooks.example.net/t0k3n"))
    ∷ (codes "method", json_string (codes "POST"))
    ∷ (
      codes "headers",
      json_object ((codes "Authorization", member_string (codes "Bearer x")) ∷ []),
    )
    ∷ []

abbrev hook : Channel
hook = record {
  id = 3;
  name = codes "ops";
  channel_type = channel_type_webhook;
  config = plain_json.marshal hook_config;
  enabled = true;
  created_at = 0;
  updated_at = 0;
}

-- What a client sees of it.
shown_config :
    redact_keys (secret_keys channel_type_webhook) hook_config
    ≡ (codes "url", json_string (codes "********"))
      ∷ (codes "method", json_string (codes "POST"))
      ∷ (
        codes "headers",
        json_object ((codes "Authorization", member_string (codes "********")) ∷ []),
      )
      ∷ []
unfolding redact_keys secret_keys text_eq lookup insert mask_json_value map_values
shown_config = refl

redacted_restores_example :
    (merged : Assoc Text JsonValue) × (plain_json.unmarshal
        (with_secrets_from plain_json (redacted plain_json hook) hook).config
      ≡ some merged)
    × ((j : Text) → lookup j merged ≡ lookup j hook_config)
unfolding lookup
redacted_restores_example =
    redacted_restores plain_json plain_json-decodes plain_json-some_text hook hook_config
      (plain_json-decodes hook_config) (tt, (tt, ((refl, tt), tt)))

redacted_conceals_example :
    (shown : Assoc Text JsonValue) × (plain_json.unmarshal (redacted plain_json hook).config
      ≡ some shown)
    × Concealed (lookup (codes "headers") shown)
unfolding secret_keys text_eq config_codec
redacted_conceals_example =
    redacted_conceals plain_json plain_json-decodes hook hook_config (codes "headers") refl
      (plain_json-decodes hook_config) refl
