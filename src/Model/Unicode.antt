-- ===== src/Model/Unicode.antt =====
-- What the code takes from Go's unicode tables and UTF-8 decoder, as a parameter.
use taillight.Base.{
  ℕ, ◌+◌, ◌-◌, Bool, leb, ◌==◌, ◌&&◌, ◌||◌, reverse, if◌then◌else◌, Text, text_eq, List, [], ◌∷◌,
  map,
}

pub record Unicode : Type 0 where
  -- strings.ToLower, strings.ToUpper and strings.EqualFold
  pub lower : Text → Text
  pub upper : Text → Text
  pub equal_fold : Text → Text → Bool
  -- unicode.ToLower
  pub to_lower : ℕ → ℕ
  -- utf8.DecodeRune: the rune and its width
  pub decode_rune : Text → ℕ × ℕ
  -- the runes that `range` gives over a string
  pub runes : Text → List ℕ
  -- strings.TrimSpace
  pub trim_space : Text → Text

ascii_lower : ℕ → ℕ
ascii_lower c = if leb b'A' c && leb c b'Z' then c + 32 else c

ascii_upper : ℕ → ℕ
ascii_upper c = if leb b'a' c && leb c b'z' then c - 32 else c

is_space : ℕ → Bool
is_space c = c == 32 || leb 9 c && leb c 13

trim_left : Text → Text
trim_left [] = []
trim_left (c ∷ s) = if is_space c then trim_left s else c ∷ s

trim_right : Text → Text
trim_right s = reverse (trim_left (reverse s))

-- The tables on ASCII text: every byte is a rune of width 1.
unfoldable pub ascii : Unicode
unfolding ascii_lower ascii_upper trim_left trim_right is_space
ascii = record {
  lower = map ascii_lower;
  upper = map ascii_upper;
  equal_fold = λ a b. text_eq (map ascii_lower a) (map ascii_lower b);
  to_lower = ascii_lower;
  decode_rune = λ s. elim s [ [] ↦ (0, 0) | b ∷ r ↦ (b, 1) ];
  runes = λ s. s;
  trim_space = λ s. trim_right (trim_left s);
}
