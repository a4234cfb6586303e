-- ===== src/Shipper/Settings.antt =====
-- The configuration of a handler, with its defaults and its checks: Config, setDefaults and
-- Enabled of pkg/logshipper/handler.go. The UTF-8 repair, the URL parser and the system's hostname
-- are parameters.
pub mod Limits
use taillight.Base.{
  ℕ, suc, ◌+◌, ◌-◌, ◌*◌, ◌≤◌, ◌<◌, ◌≡◌, refl, Bool, true, false, not, ◌&&◌, ◌||◌, if◌then◌else◌,
  ltb, leb, ◌==◌, ℤ, pos, negsuc, leb_ℤ, ltb_ℤ, Text, codes, text_eq, is_empty, Option, none, some,
  length, ◌⊎◌, inl, inr,
}

abbrev pub default_batch_size : ℕ
default_batch_size = 100

abbrev pub max_batch_entries : ℕ
max_batch_entries = 1000

-- One second.
abbrev pub default_flush_period : ℕ
default_flush_period = 1000000000

abbrev pub default_buffer_size : ℕ
default_buffer_size = 1024

abbrev pub default_send_timeout : ℕ
default_send_timeout = 30 * 1000000000

abbrev pub max_service_bytes : ℕ
max_service_bytes = 128

abbrev pub max_component_bytes : ℕ
max_component_bytes = 128

abbrev pub max_host_bytes : ℕ
max_host_bytes = 256

abbrev pub request_byte_limit : ℕ
request_byte_limit = 4 * 1024 * 1024

-- The key, the HTTP client and the redaction callback are left out.
pub record Config : Type 0 where
  pub endpoint : Text
  pub service : Text
  pub component : Text
  pub host : Text
  pub add_source : Bool
  pub min_level : ℤ
  pub batch_size : ℤ
  pub flush_period : ℤ
  pub buffer_size : ℤ
  pub send_timeout : ℤ
  pub max_attr_bytes : ℤ

pub data ConfigError : Type 0 where
  no_service service_too_long component_too_long bad_endpoint bad_scheme no_endpoint_host :
      ConfigError
  hostname_failed hostname_empty host_too_long : ConfigError

-- strings.ToValidUTF8 with U+FFFD, url.Parse with the scheme and the host that it finds, and
-- os.Hostname.
pub record System : Type 0 where
  pub to_valid_utf8 : Text → Text
  pub parse_url : Text → Option (Text × Text)
  pub hostname : Option Text

abbrev pub positive_or : ℕ → ℤ → ℤ
positive_or default v = if leb_ℤ v (pos 0) then pos default else v

-- The limits on the sizes and the times.
unfoldable pub default_limits : Config → Config
default_limits c =
    let size = positive_or default_batch_size c.batch_size in
    record c {
      batch_size = if ltb_ℤ (pos max_batch_entries) size then pos max_batch_entries else size;
      flush_period = positive_or default_flush_period c.flush_period;
      buffer_size = positive_or default_buffer_size c.buffer_size;
      send_timeout = positive_or default_send_timeout c.send_timeout;
    }

-- The checks of the service and the component.
unfoldable pub names_error : Config → Option ConfigError
names_error c =
    if is_empty c.service
    then some no_service
    else if ltb max_service_bytes (length c.service)
    then some service_too_long
    else if ltb max_component_bytes (length c.component)
    then some component_too_long
    else none

module _ (sys : System) where
  open sys use {to_valid_utf8, parse_url, hostname}

  unfoldable pub endpoint_error : Text → Option ConfigError
  endpoint_error endpoint = elim (parse_url endpoint) [
    | none ↦ some bad_endpoint
    | some u ↦
        if not (text_eq u.0 (codes "http")) && not (text_eq u.0 (codes "https"))
        then some bad_scheme
        else if is_empty u.1
        then some no_endpoint_host
        else none
  ]

  -- The host of the configuration, or else the system's.
  unfoldable pub resolve_host : Text → ConfigError ⊎ Text
  resolve_host host = if not (is_empty host) then inr host else elim hostname [
    | none ↦ inl hostname_failed
    | some name ↦ if is_empty name then inl hostname_empty else inr name
  ]

  unfoldable pub with_host : Config → ConfigError ⊎ Config
  unfolding resolve_host
  with_host c = elim (resolve_host c.host) [
    | inl e ↦ inl e
    | inr host ↦
        let valid = to_valid_utf8 host in
        if ltb max_host_bytes (length valid)
        then inl host_too_long
        else inr (record c { host = valid })
  ]

  -- setDefaults, up to the HTTP client.
  unfoldable pub set_defaults : Config → ConfigError ⊎ Config
  unfolding default_limits names_error endpoint_error with_host
  set_defaults given =
      let c : Config = record (default_limits given) {
        service = to_valid_utf8 given.service;
        component = to_valid_utf8 given.component;
      } in
      elim (names_error c) [
        | some e ↦ inl e
        | none ↦ elim (endpoint_error c.endpoint) [ some e ↦ inl e | none ↦ with_host c ]
      ]

abbrev pub enabled : Config → ℤ → Bool
enabled c level = leb_ℤ c.min_level level
