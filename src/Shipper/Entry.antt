-- ===== src/Shipper/Entry.antt =====
-- What Handle makes of a log record: pkg/logshipper/handler.go. Go's UTF-8 repair, the encoder of
-- the attributes and the clock are parameters.
pub mod Limits
pub mod Repaired
use taillight.Base.{
  ℕ, zero, suc, ◌+◌, ◌-◌, ◌*◌, Bool, true, false, not, ◌&&◌, if◌then◌else◌, ltb, leb, ◌==◌, ℤ, pos,
  negsuc, leb_ℤ, Text, codes, is_empty, List, [], ◌∷◌, ◌++◌, Option, none, some, length, take, drop,
  reverse,
}
use taillight.Base.Decimal.{decimal}
use taillight.Base.Utf8.{rune_start, byte_at}

abbrev pub max_msg_bytes : ℕ
max_msg_bytes = 64 * 1024

abbrev pub max_attrs_bytes : ℕ
max_attrs_bytes = 64 * 1024

abbrev pub max_source_bytes : ℕ
max_source_bytes = 256

-- "…" in UTF-8.
abbrev pub source_cut_prefix : Text
source_cut_prefix = 0xe2 ∷ 0x80 ∷ 0xa6 ∷ []

abbrev pub truncation_suffix : Text
truncation_suffix = source_cut_prefix ++ codes "[truncated]"

abbrev pub empty_msg_placeholder : Text
empty_msg_placeholder = codes "(empty)"

unfoldable pub level_string : ℤ → Text
level_string l =
    if leb_ℤ (pos 12) l
    then codes "FATAL"
    else if leb_ℤ (pos 8) l
    then codes "ERROR"
    else if leb_ℤ (pos 4) l
    then codes "WARN"
    else if leb_ℤ (pos 0) l
    then codes "INFO"
    else codes "DEBUG"

-- `for cut > 0 && !utf8.RuneStart(msg[cut]) { cut-- }`
unfoldable pub back_to_rune : Text → ℕ → ℕ
back_to_rune msg zero = zero
back_to_rune msg (suc cut) =
    let back = back_to_rune msg cut in if rune_start (byte_at (suc cut) msg) then suc cut else back

-- A message that is cut, at `cut` or before it.
unfoldable pub cut_message : ℕ → Text → Text
unfolding back_to_rune
cut_message cut msg = take (back_to_rune msg cut) msg ++ truncation_suffix

-- `for cut < len(source) && !utf8.RuneStart(source[cut]) { cut++ }`, on what follows the cut.
unfoldable pub skip_to_rune : Text → Text
skip_to_rune [] = []
skip_to_rune (b ∷ rest) = if rune_start b then b ∷ rest else skip_to_rune rest

pub record LogEntry : Type 0 where
  pub timestamp : ℕ
  pub level : Text
  pub msg : Text
  pub service : Text
  pub component : Text
  pub host : Text
  pub source : Text
  pub attrs : Text

-- An slog.Record: a zero time is `none`, the source is the frame of its program counter if there is
-- one, and the attributes are what json.Marshal makes of them: nothing to encode, an error with
-- its text, or the bytes.
pub data Encoded : Type 0 where
  no_attrs : Encoded
  encode_error encoded : Text → Encoded

pub record LogRecord : Type 0 where
  pub time : Option ℕ
  pub level : ℤ
  pub message : Text
  pub source : Option Text
  pub attrs : Encoded

-- The part of the configuration that an entry takes, with strings.ToValidUTF8 with U+FFFD and
-- json.Marshal of the object for an error's text.
pub record EntrySettings : Type 0 where
  pub service : Text
  pub component : Text
  pub host : Text
  pub add_source : Bool
  pub to_valid_utf8 : Text → Text
  pub marshal_error : Text → Option Text

-- The stub for an error, of what json.Marshal makes of its text in an object.
unfoldable pub encode_error_payload : (Text → Option Text) → Text → Text
encode_error_payload marshal_error err = elim (marshal_error err) [
  | none ↦ codes "{\"_encode_error\":\"unrepresentable\"}"
  | some payload ↦ payload
]

module _ (c : EntrySettings) where
  open c use {service, component, host, add_source, to_valid_utf8, marshal_error}

  unfoldable pub truncate_msg : Text → Text
  truncate_msg msg =
      let valid = to_valid_utf8 msg in
      if leb (length valid) max_msg_bytes
      then valid
      else cut_message (max_msg_bytes - length truncation_suffix) valid

  unfoldable pub shorten_source : Text → Text
  unfolding skip_to_rune
  shorten_source source =
      let valid = to_valid_utf8 source in
      if leb (length valid) max_source_bytes
      then valid
      else source_cut_prefix
        ++ skip_to_rune (drop (length valid - (max_source_bytes - length source_cut_prefix)) valid)

  abbrev pub attrs_dropped_payload : ℕ → Text
  attrs_dropped_payload size = codes "{\"_attrs_dropped_bytes\":" ++ decimal size ++ codes "}"

  -- The encoded attributes, and how many encode failures they count.
  unfoldable pub attrs_of : Encoded → Text × ℕ
  attrs_of no_attrs = ([], 0)
  attrs_of (encode_error err) = (encode_error_payload marshal_error err, 1)
  attrs_of (encoded raw) =
      if ltb max_attrs_bytes (length raw) then (attrs_dropped_payload (length raw), 1) else (raw, 0)

  -- The entry of a record, and the encode failures.
  unfoldable pub make_entry : ℕ → LogRecord → LogEntry × ℕ
  unfolding truncate_msg shorten_source attrs_of level_string
  make_entry now r =
      let (raw, failures) = attrs_of r.attrs in
      (
        record {
          timestamp = elim r.time [ none ↦ now | some t ↦ t ];
          level = level_string r.level;
          msg = truncate_msg (if is_empty r.message then empty_msg_placeholder else r.message);
          service = service;
          component = component;
          host = host;
          source =
              if add_source
              then elim r.source [ none ↦ [] | some frame ↦ shorten_source frame ]
              else [];
          attrs = raw;
        },
        failures,
      )
