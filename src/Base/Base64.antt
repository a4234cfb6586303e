-- ===== src/Base/Base64.antt =====
-- encoding/base64: URLEncoding, with its padding.
use taillight.Base.{
  ℕ, ◌+◌, ◌-◌, ◌*◌, ◌/◌, ◌%◌, ◌<◌, ◌≡◌, refl, ap, ◌∙◌, false, not, ◌&&◌, ◌||◌, if◌then◌else◌, ltb,
  leb, ◌==◌, Text, is_empty, [], ◌∷◌, Option, none, some, All, arith,
}

-- The alphabet: A-Z, a-z, 0-9, '-' and '_'.
unfoldable pub digit64 : ℕ → ℕ
digit64 i =
    if ltb i 26
    then 65 + i
    else if ltb i 52
    then 71 + i
    else if ltb i 62
    then i - 4
    else if i == 62
    then b'-'
    else b'_'

unfoldable pub value64 : ℕ → Option ℕ
value64 c =
    if leb 65 c && leb c 90
    then some (c - 65)
    else if leb 97 c && leb c 122
    then some (c - 71)
    else if leb 48 c && leb c 57
    then some (c + 4)
    else if c == b'-'
    then some 62
    else if c == b'_'
    then some 63
    else none

unfoldable pub encode_base64 : Text → Text
unfolding digit64
encode_base64 [] = []
encode_base64 (a ∷ []) = digit64 (a / 4) ∷ digit64 (a % 4 * 16) ∷ b'=' ∷ b'=' ∷ []
encode_base64 (a ∷ b ∷ []) =
    digit64 (a / 4) ∷ digit64 (a % 4 * 16 + b / 16) ∷ digit64 (b % 16 * 4) ∷ b'=' ∷ []
encode_base64 (a ∷ b ∷ c ∷ s) =
    digit64 (a / 4)
    ∷ digit64 (a % 4 * 16 + b / 16)
    ∷ digit64 (b % 16 * 4 + c / 64)
    ∷ digit64 (c % 64)
    ∷ encode_base64 s

-- The bytes of two, three or four digits.
abbrev pub one_byte : Option ℕ → Option ℕ → Option Text
one_byte (some w) (some x) = some ((w * 4 + x / 16) ∷ [])
one_byte none x = none
one_byte (some w) none = none

abbrev pub two_bytes : Option ℕ → Option ℕ → Option ℕ → Option Text
two_bytes (some w) (some x) (some y) = some ((w * 4 + x / 16) ∷ (x % 16 * 16 + y / 4) ∷ [])
two_bytes none x y = none
two_bytes (some w) none y = none
two_bytes (some w) (some x) none = none

abbrev pub three_bytes : Option ℕ → Option ℕ → Option ℕ → Option ℕ → Option Text → Option Text
three_bytes (some w) (some x) (some y) (some z) (some rest) =
    some ((w * 4 + x / 16) ∷ (x % 16 * 16 + y / 4) ∷ (y % 4 * 64 + z) ∷ rest)
three_bytes none x y z rest = none
three_bytes (some w) none y z rest = none
three_bytes (some w) (some x) none z rest = none
three_bytes (some w) (some x) (some y) none rest = none
three_bytes (some w) (some x) (some y) (some z) none = none

-- The digits without line ends, in groups of four; padding ends the text.
unfoldable pub decode_groups : Text → Option Text
unfolding value64
decode_groups [] = some []
decode_groups (w ∷ []) = none
decode_groups (w ∷ x ∷ []) = none
decode_groups (w ∷ x ∷ y ∷ []) = none
decode_groups (w ∷ x ∷ y ∷ z ∷ s) =
    let rest = decode_groups s in
    if z == b'='
    then if not (is_empty s)
      then none
      else if y == b'='
      then one_byte (value64 w) (value64 x)
      else two_bytes (value64 w) (value64 x) (value64 y)
    else three_bytes (value64 w) (value64 x) (value64 y) (value64 z) rest

unfoldable pub without_line_ends : Text → Text
without_line_ends [] = []
without_line_ends (c ∷ s) =
    let rest = without_line_ends s in if c == 10 || c == 13 then rest else c ∷ rest

unfoldable pub decode_base64 : Text → Option Text
unfolding decode_groups without_line_ends
decode_base64 s = decode_groups (without_line_ends s)

value64-digit64 :
    (i : ℕ)
    → i < 64
    → (value64 (digit64 i) ≡ some i)
      × ((digit64 i == b'=') ≡ false)
      × (((digit64 i == 10) || (digit64 i == 13)) ≡ false)
unfolding value64 digit64
value64-digit64 i h = ground arith

abbrev pub IsBytes : Text → Type 0
IsBytes s = All (λ b. b < 256) s

abbrev IsPlain : ℕ → Type 0
IsPlain c = ((c == 10) || (c == 13)) ≡ false

without_line_ends_same : (s : Text) → All IsPlain s → without_line_ends s ≡ s
unfolding without_line_ends
without_line_ends_same [] h = refl
without_line_ends_same (c ∷ s) (plain, rest) = ground (arith, without_line_ends_same s rest)

digit64-IsPlain : (i : ℕ) → i < 64 → IsPlain (digit64 i)
digit64-IsPlain i h = (value64-digit64 i h).2

decode-digits :
    (w x y z : ℕ) (s : Text)
    → w < 64
    → x < 64
    → y < 64
    → z < 64
    → decode_groups (digit64 w ∷ digit64 x ∷ digit64 y ∷ digit64 z ∷ s)
      ≡ three_bytes (some w) (some x) (some y) (some z) (decode_groups s)
unfolding decode_groups
decode-digits w x y z s hw hx hy hz =
    let (vw, pw, lw) = value64-digit64 w hw in
    let (vx, px, lx) = value64-digit64 x hx in
    let (vy, py, ly) = value64-digit64 y hy in
    let (vz, pz, lz) = value64-digit64 z hz in rw (pz, vw, vx, vy, vz) refl

encode-IsPlain : (s : Text) → IsBytes s → All IsPlain (encode_base64 s)
unfolding encode_base64
encode-IsPlain [] h = tt
encode-IsPlain (a ∷ []) (ha, rest) = (
  digit64-IsPlain (a / 4) (omega arith),
  (digit64-IsPlain (a % 4 * 16) (omega arith), (refl, (refl, tt))),
)
encode-IsPlain (a ∷ b ∷ []) (ha, (hb, rest)) = (
  digit64-IsPlain (a / 4) (omega arith),
  (
    digit64-IsPlain (a % 4 * 16 + b / 16) (omega arith),
    (digit64-IsPlain (b % 16 * 4) (omega arith), (refl, tt)),
  ),
)
encode-IsPlain (a ∷ b ∷ c ∷ s) (ha, (hb, (hc, rest))) = (
  digit64-IsPlain (a / 4) (omega arith),
  (
    digit64-IsPlain (a % 4 * 16 + b / 16) (omega arith),
    (
      digit64-IsPlain (b % 16 * 4 + c / 64) (omega arith),
      (digit64-IsPlain (c % 64) (omega arith), encode-IsPlain s rest),
    ),
  ),
)

-- A number of 8 bits from its digits.
first_byte : (a x : ℕ) → a < 256 → x < 16 → a / 4 * 4 + (a % 4 * 16 + x) / 16 ≡ a
first_byte a x ha hx = omega arith

second_byte :
    (a b x : ℕ) → b < 256 → x < 4 → (a % 4 * 16 + b / 16) % 16 * 16 + (b % 16 * 4 + x) / 4 ≡ b
second_byte a b x hb hx = omega arith

third_byte : (b c : ℕ) → c < 256 → (b % 16 * 4 + c / 64) % 4 * 64 + c % 64 ≡ c
third_byte b c hc = omega arith

decode-one :
    (w x : ℕ)
    → w < 64
    → x < 64
    → decode_groups (digit64 w ∷ digit64 x ∷ b'=' ∷ b'=' ∷ []) ≡ one_byte (some w) (some x)
unfolding decode_groups
decode-one w x hw hx = rw ((value64-digit64 w hw).0, (value64-digit64 x hx).0) refl

decode-two :
    (w x y : ℕ)
    → w < 64
    → x < 64
    → y < 64
    → decode_groups (digit64 w ∷ digit64 x ∷ digit64 y ∷ b'=' ∷ [])
      ≡ two_bytes (some w) (some x) (some y)
unfolding decode_groups
decode-two w x y hw hx hy =
    rw
      (
        (value64-digit64 y hy).1,
        (value64-digit64 w hw).0,
        (value64-digit64 x hx).0,
        (value64-digit64 y hy).0,
      )
      refl

groups-encode : (s : Text) → IsBytes s → decode_groups (encode_base64 s) ≡ some s
unfolding encode_base64
groups-encode [] h = unfold decode_groups in refl
groups-encode (a ∷ []) (ha, rest) =
    decode-one (a / 4) (a % 4 * 16) (omega arith) (omega arith)
    ∙ ap (λ t. some (t ∷ [])) (omega arith)
groups-encode (a ∷ b ∷ []) (ha, (hb, rest)) =
    decode-two (a / 4) (a % 4 * 16 + b / 16) (b % 16 * 4) (omega arith) (omega arith) (omega arith)
    ∙ rw (first_byte a (b / 16) ha (omega arith)) (ap (λ t. some (a ∷ t ∷ [])) (omega arith))
groups-encode (a ∷ b ∷ c ∷ s) (ha, (hb, (hc, rest))) =
    decode-digits (a / 4) (a % 4 * 16 + b / 16) (b % 16 * 4 + c / 64) (c % 64) (encode_base64 s)
      (omega arith) (omega arith) (omega arith) (omega arith)
    ∙ rw
        (
          groups-encode s rest,
          first_byte a (b / 16) ha (omega arith),
          second_byte a b (c / 64) hb (omega arith),
          third_byte b c hc,
        )
        refl

pub decode_base64-encode_base64 : (s : Text) → IsBytes s → decode_base64 (encode_base64 s) ≡ some s
unfolding decode_base64
decode_base64-encode_base64 s h =
    ap decode_groups (without_line_ends_same (encode_base64 s) (encode-IsPlain s h))
    ∙ groups-encode s h
