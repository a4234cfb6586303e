-- ===== src/Notify/Secrets.antt =====
-- The masking of a channel's secrets: api/internal/notification/secrets.go. json.Unmarshal of a
-- configuration and json.Marshal are parameters; a value is what the code tells apart, an object with
-- the values of its members.
pub mod Values
pub mod Restored
pub mod Shown
use taillight.Base.{
  ℕ, Bool, true, false, not, ◌&&◌, ◌||◌, if◌then◌else◌, Text, codes, text_eq, is_empty, List, [],
  ◌∷◌, Option, none, some,
}
use taillight.Base.Assoc.{Assoc, lookup, insert, map_values, text_eq_keys}
use taillight.Notify.Types.{Channel, channel_type_slack, channel_type_webhook, channel_type_ntfy}

abbrev pub redacted_secret : Text
redacted_secret = codes "********"

-- A string, or the text of another value.
pub data Member : Type 0 where
  member_string member_other : Text → Member

pub data JsonValue : Type 0 where
  json_null : JsonValue
  json_string json_other : Text → JsonValue
  json_object : Assoc Text Member → JsonValue

pub record Json : Type 0 where
  pub unmarshal : Text → Option (Assoc Text JsonValue)
  pub marshal : Assoc Text JsonValue → Text

unfoldable pub secret_keys : Text → List Text
unfolding text_eq
secret_keys channel_type =
    if text_eq channel_type channel_type_slack
    then codes "webhook_url" ∷ []
    else if text_eq channel_type channel_type_webhook
    then codes "url" ∷ codes "headers" ∷ []
    else if text_eq channel_type channel_type_ntfy
    then codes "token" ∷ []
    else []

abbrev pub member_masked : Member → Bool
member_masked (member_string s) = text_eq s redacted_secret
member_masked (member_other s) = false

abbrev pub is_masked : JsonValue → Bool
is_masked (json_string s) = text_eq s redacted_secret
is_masked json_null = false
is_masked (json_other s) = false
is_masked (json_object m) = false

abbrev pub no_members : Assoc Text Member → Bool
no_members [] = true
no_members (m ∷ ms) = false

-- An empty array is the text "[]".
abbrev pub is_empty_json : JsonValue → Bool
is_empty_json json_null = true
is_empty_json (json_string s) = is_empty s
is_empty_json (json_other s) = text_eq s (codes "[]")
is_empty_json (json_object m) = no_members m

abbrev pub masked_member : Member → Member
masked_member v = member_string redacted_secret

unfoldable pub mask_json_value : JsonValue → JsonValue
unfolding map_values
mask_json_value json_null = json_string redacted_secret
mask_json_value (json_string s) = json_string redacted_secret
mask_json_value (json_other s) = json_string redacted_secret
mask_json_value (json_object m) = json_object (map_values masked_member m)

abbrev pub restored_member : Member → Option Member → Member
restored_member v none = v
restored_member v (some old) = if member_masked v then old else v

-- The members of the first object, those that are masked from the second if it has them.
unfoldable pub restore_members : Assoc Text Member → Assoc Text Member → Assoc Text Member
unfolding lookup
restore_members [] old = []
restore_members ((k, v) ∷ m) old = (k, restored_member v (lookup k old)) ∷ restore_members m old

-- An object against what is stored: only an object has members to take.
unfoldable pub restore_object : Assoc Text Member → Option JsonValue → JsonValue
unfolding restore_members
restore_object m none = json_object m
restore_object m (some json_null) = json_object m
restore_object m (some (json_string s)) = json_object m
restore_object m (some (json_other s)) = json_object m
restore_object m (some (json_object old)) = json_object (restore_members m old)

unfoldable pub restore_json_value : JsonValue → Option JsonValue → JsonValue
unfolding restore_object
restore_json_value json_null stored = json_null
restore_json_value (json_other s) stored = json_other s
restore_json_value (json_string s) stored =
    let found : JsonValue = elim stored [ none ↦ json_string s | some v ↦ v ] in
    if text_eq s redacted_secret then found else json_string s
restore_json_value (json_object m) stored = restore_object m stored

-- The loop of Redacted.
unfoldable pub redact_keys : List Text → Assoc Text JsonValue → Assoc Text JsonValue
unfolding mask_json_value lookup insert
redact_keys [] cfg = cfg
redact_keys (k ∷ keys) cfg = elim (lookup k cfg) [
  | none ↦ redact_keys keys cfg
  | some raw ↦
      redact_keys keys (if is_empty_json raw then cfg else insert k (mask_json_value raw) cfg)
]

-- The loop of WithSecretsFrom.
unfoldable pub restore_keys :
    List Text → Assoc Text JsonValue → Assoc Text JsonValue → Assoc Text JsonValue
unfolding restore_json_value lookup insert
restore_keys [] old cfg = cfg
restore_keys (k ∷ keys) old cfg = elim (lookup k cfg) [
  | none ↦ restore_keys keys old cfg
  | some raw ↦ restore_keys keys old (insert k (restore_json_value raw (lookup k old)) cfg)
]

abbrev pub any_member_masked : Assoc Text Member → Bool
any_member_masked [] = false
any_member_masked ((k, v) ∷ m) = member_masked v || any_member_masked m

abbrev pub value_redacted : Option JsonValue → Bool
value_redacted none = false
value_redacted (some json_null) = false
value_redacted (some (json_other s)) = false
value_redacted (some (json_string s)) = text_eq s redacted_secret
value_redacted (some (json_object m)) = any_member_masked m

unfoldable pub any_redacted : List Text → Assoc Text JsonValue → Bool
unfolding lookup
any_redacted [] cfg = false
any_redacted (k ∷ keys) cfg = value_redacted (lookup k cfg) || any_redacted keys cfg

abbrev pub no_keys : List Text → Bool
no_keys [] = true
no_keys (k ∷ keys) = false

module _ (json : Json) where
  open json use {unmarshal, marshal}

  unfoldable pub redacted : Channel → Channel
  redacted ch =
      let keys = secret_keys ch.channel_type in
      if no_keys keys || is_empty ch.config then ch else elim (unmarshal ch.config) [
        | none ↦ record ch { config = codes "{}" }
        | some cfg ↦ record ch { config = marshal (redact_keys keys cfg) }
      ]

  unfoldable pub with_secrets_from : Channel → Channel → Channel
  with_secrets_from ch stored =
      let keys = secret_keys ch.channel_type in
      if no_keys keys || not (text_eq ch.channel_type stored.channel_type) || is_empty ch.config
      then ch
      else elim (unmarshal ch.config) [
        | none ↦ ch
        | some cfg ↦ elim (unmarshal stored.config) [
          | none ↦ ch
          | some old ↦ record ch { config = marshal (restore_keys keys old cfg) }
        ]
      ]

  unfoldable pub has_redacted_secret : Channel → Bool
  has_redacted_secret ch = elim (unmarshal ch.config) [
    | none ↦ false
    | some cfg ↦ any_redacted (secret_keys ch.channel_type) cfg
  ]
