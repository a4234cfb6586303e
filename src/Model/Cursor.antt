-- ===== src/Model/Cursor.antt =====
-- The cursor of keyset pagination: api/internal/model/srvlog.go. A time is its UnixNano.
use taillight.Base.{
  ℕ, zero, suc, ◌+◌, ◌/◌, ◌%◌, ◌<◌, ◌≡◌, refl, false, if◌then◌else◌, ◌==◌, ℤ, pos, negsuc,
  InRange64, Text, is_empty, [], ◌∷◌, ◌++◌, Option, none, some, All, All-append, All-map, arith,
}
use taillight.Base.Decimal.{decimal, digits_fuel}
use taillight.Base.ParseInt.{decimal_int, parse_int, parse_int-decimal_int}
use taillight.Base.Base64.{encode_base64, decode_base64, decode_base64-encode_base64}

pub record Cursor : Type 0 where
  pub received_at : ℤ
  pub id : ℤ

-- strings.SplitN at a comma, into two parts; `none` if there is no comma.
unfoldable pub cut_comma : Text → Option (Text × Text)
cut_comma [] = none
cut_comma (c ∷ s) =
    let rest = cut_comma s in
    if c == b',' then some ([], s) else elim rest [ none ↦ none | some (a, b) ↦ some (c ∷ a, b) ]

unfoldable pub encode : Cursor → Text
encode c = encode_base64 (decimal_int c.received_at ++ b',' ∷ decimal_int c.id)

abbrev cursor_of : Option ℤ → Option ℤ → Option Cursor
cursor_of (some nanos) (some id) = some (record { received_at = nanos; id = id })
cursor_of none id = none
cursor_of (some nanos) none = none

-- Any error is `none`.
unfoldable pub decode_cursor : Text → Option Cursor
decode_cursor s = elim (decode_base64 s) [
  | none ↦ none
  | some raw ↦ elim (cut_comma raw) [
    | none ↦ none
    | some parts ↦ cursor_of (parse_int parts.0) (parse_int parts.1)
  ]
]

-- The value of the query parameter.
unfoldable pub parse_cursor : Text → Option Cursor
unfolding decode_cursor
parse_cursor v = if is_empty v then none else decode_cursor v

-- A byte of a decimal.
abbrev IsDecimalByte : ℕ → Type 0
IsDecimalByte b = (b < 256) × ((b == b',') ≡ false)

digits_fuel-IsDecimalByte : (f n : ℕ) → All IsDecimalByte (digits_fuel f n)
unfolding digits_fuel
digits_fuel-IsDecimalByte zero n = tt
digits_fuel-IsDecimalByte (suc f) n = ground (
  arith,
  digits_fuel-IsDecimalByte f (n / 10),
  All-append IsDecimalByte (digits_fuel f (n / 10)) ((48 + n % 10) ∷ []),
)

decimal_int-IsDecimalByte : (z : ℤ) → All IsDecimalByte (decimal_int z)
unfolding decimal_int decimal
decimal_int-IsDecimalByte (pos n) = digits_fuel-IsDecimalByte (suc n) n
decimal_int-IsDecimalByte (negsuc n) =
    ((omega arith, refl), digits_fuel-IsDecimalByte (suc (suc n)) (suc n))

cut_comma-append : (a b : Text) → All IsDecimalByte a → cut_comma (a ++ b',' ∷ b) ≡ some (a, b)
unfolding cut_comma
cut_comma-append [] b h = refl
cut_comma-append (c ∷ a) b (here, rest) = rw (here.1, cut_comma-append a b rest) refl

abbrev IsByte : ℕ → Type 0
IsByte b = b < 256

-- A cursor whose two numbers are in the range of an int64 is what its encoding decodes to.
pub decode_cursor-encode :
    (c : Cursor) → InRange64 c.received_at → InRange64 c.id → decode_cursor (encode c) ≡ some c
unfolding decode_cursor encode
decode_cursor-encode c time id =
    let raw = decimal_int c.received_at ++ b',' ∷ decimal_int c.id in
    let time_bytes =
      All-map (λ b h. h.0) (decimal_int c.received_at) (decimal_int-IsDecimalByte c.received_at) in
    let id_bytes = All-map (λ b h. h.0) (decimal_int c.id) (decimal_int-IsDecimalByte c.id) in
    let bytes =
      All-append IsByte (decimal_int c.received_at) (b',' ∷ decimal_int c.id) time_bytes
        (omega arith, id_bytes) in
    rw
      (
        decode_base64-encode_base64 raw bytes,
        cut_comma-append (decimal_int c.received_at) (decimal_int c.id)
            (decimal_int-IsDecimalByte c.received_at),
        parse_int-decimal_int c.received_at time,
        parse_int-decimal_int c.id id,
        decode_cursor,
        encode,
      )
      refl
