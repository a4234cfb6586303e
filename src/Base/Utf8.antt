-- ===== src/Base/Utf8.antt =====
-- Valid UTF-8, as unicode/utf8 decides it, and where a valid text can be cut.
use Prim.Native.Nat.{ℕ, bit_and}
use taillight.Base.{
  zero, suc, ◌≤◌, ◌<◌, ◌≡◌, refl, Bool, true, false, ◌&&◌, ◌==◌, if◌then◌else◌, ltb, leb, not, Text,
  [], ◌∷◌, ◌++◌, length, take, drop, Option, none, some, Option-cases, Bool-cases, inl, inr, arith,
}

-- What may follow a first byte: how many bytes, and the range of the first of them.
abbrev pub lead : ℕ → Option (ℕ × ℕ × ℕ)
lead b =
    if ltb b 0x80
    then some (0, 0x80, 0xBF)
    else if ltb b 0xC2
    then none
    else if ltb b 0xE0
    then some (1, 0x80, 0xBF)
    else if b == 0xE0
    then some (2, 0xA0, 0xBF)
    else if b == 0xED
    then some (2, 0x80, 0x9F)
    else if ltb b 0xF0
    then some (2, 0x80, 0xBF)
    else if b == 0xF0
    then some (3, 0x90, 0xBF)
    else if ltb b 0xF4
    then some (3, 0x80, 0xBF)
    else if b == 0xF4
    then some (3, 0x80, 0x8F)
    else none

-- A text after a first byte, with what is to follow.
unfoldable pub utf8_from : ℕ → ℕ → ℕ → Text → Bool
utf8_from zero lo hi [] = true
utf8_from zero lo hi (b ∷ s) = elim (lead b) [ none ↦ false | some (k, l, h) ↦ utf8_from k l h s ]
utf8_from (suc k) lo hi [] = false
utf8_from (suc k) lo hi (b ∷ s) = leb lo b && leb b hi && utf8_from k 0x80 0xBF s

abbrev pub is_valid_utf8 : Text → Bool
is_valid_utf8 s = utf8_from 0 0x80 0xBF s

abbrev pub Continues : ℕ → ℕ → Type 0
Continues lo hi = (0x80 ≤ lo) × (hi ≤ 0xBF)

pub lead-Continues : (b k lo hi : ℕ) → lead b ≡ some (k, lo, hi) → Continues lo hi
lead-Continues b k lo hi h = ground arith

pub utf8_lead :
    (lo hi b : ℕ) (s : Text)
    → utf8_from 0 lo hi (b ∷ s) ≡ true
    → (k : ℕ) × (l : ℕ) × (h : ℕ) × (lead b ≡ some (k, l, h)) × (utf8_from k l h s ≡ true)
unfolding utf8_from
utf8_lead lo hi b s valid = elim (Option-cases (lead b)) [
  | inl bad ↦ cc (rw (bad, utf8_from) at valid)
  | inr ((k, l, h), good) ↦ (k, l, h, good, rw (good, utf8_from) at valid)
]

pub utf8_follow :
    (k lo hi b : ℕ) (s : Text)
    → utf8_from (suc k) lo hi (b ∷ s) ≡ true
    → (leb lo b ≡ true) × (leb b hi ≡ true) × (utf8_from k 0x80 0xBF s ≡ true)
unfolding utf8_from
utf8_follow k lo hi b s valid = ground arith

all_below : (ℕ → Bool) → ℕ → Bool
all_below test zero = true
all_below test (suc n) = test n && all_below test n

all_below_lem : (test : ℕ → Bool) (n i : ℕ) → all_below test n ≡ true → i < n → test i ≡ true
unfolding all_below
all_below_lem test zero i h below = ground arith
all_below_lem test (suc n) i h below = elim (Bool-cases (i == n)) [
  | inl last ↦ ground arith
  | inr before ↦ all_below_lem test n i (ground arith) (ground arith)
]

continuation_checked :
    all_below (λ b. if leb 0x80 b then bit_and b 0xC0 == 0x80 else true) 0xC0 ≡ true
unfolding all_below
continuation_checked = refl

-- utf8.RuneStart is false of the bytes that continue a rune.
pub continuation :
    (lo hi b : ℕ)
    → Continues lo hi
    → leb lo b ≡ true
    → leb b hi ≡ true
    → (bit_and b 0xC0 == 0x80) ≡ true
continuation lo hi b (low, high) above below =
    let checked =
      all_below_lem (λ b. if leb 0x80 b then bit_and b 0xC0 == 0x80 else true) 0xC0 b
        continuation_checked (ground arith) in
    let big : leb 0x80 b ≡ true = ground arith in rw big at checked

abbrev pub rune_start : ℕ → Bool
rune_start b = not (bit_and b 0xC0 == 0x80)

abbrev pub byte_at : ℕ → Text → ℕ
byte_at i s = elim (drop i s) [ [] ↦ 0 | b ∷ rest ↦ b ]

-- A valid text can be cut before a first byte.
cut_valid :
    (j k lo hi : ℕ) (s : Text)
    → Continues lo hi
    → utf8_from k lo hi s ≡ true
    → j < length s
    → rune_start (byte_at j s) ≡ true
    → utf8_from k lo hi (take j s) ≡ true
unfolding utf8_from
cut_valid j k lo hi [] within valid inside start = ground arith
cut_valid zero zero lo hi (b ∷ s) within valid inside start = refl
cut_valid zero (suc k) lo hi (b ∷ s) within valid inside start =
    ground (arith, continuation lo hi b within)
cut_valid (suc j) zero lo hi (b ∷ s) within valid inside start =
    let (k, l, h, good, rest) = utf8_lead lo hi b s valid in
    rw (good, utf8_from)
      (cut_valid j k l h s (lead-Continues b k l h good) rest (omega (arith, inside)) start)
cut_valid (suc j) (suc k) lo hi (b ∷ s) within valid inside start = ground (
  arith,
  cut_valid j k 0x80 0xBF s (omega arith, omega arith) (ground arith) (omega (arith, inside)) start,
)

pub take-valid :
    (j : ℕ) (s : Text)
    → is_valid_utf8 s ≡ true
    → j < length s
    → rune_start (byte_at j s) ≡ true
    → is_valid_utf8 (take j s) ≡ true
take-valid j s = cut_valid j 0 0x80 0xBF s (omega arith, omega arith)

pub after_rune : (lo hi : ℕ) (t : Text) → is_valid_utf8 t ≡ true → utf8_from 0 lo hi t ≡ true
unfolding utf8_from
after_rune lo hi [] valid = refl
after_rune lo hi (b ∷ t) valid = valid

from-append :
    (k lo hi : ℕ) (s t : Text)
    → utf8_from k lo hi s ≡ true
    → is_valid_utf8 t ≡ true
    → utf8_from k lo hi (s ++ t) ≡ true
unfolding utf8_from
from-append zero lo hi [] t first second = after_rune lo hi t second
from-append (suc k) lo hi [] t first second = cc
from-append zero lo hi (b ∷ s) t first second =
    let (k, l, h, good, rest) = utf8_lead lo hi b s first in
    rw (good, utf8_from) (from-append k l h s t rest second)
from-append (suc k) lo hi (b ∷ s) t first second =
    let (low, high, rest) = utf8_follow k lo hi b s first in
    rw (low, high, utf8_from) (from-append k 0x80 0xBF s t rest second)

pub append-valid :
    (s t : Text) → is_valid_utf8 s ≡ true → is_valid_utf8 t ≡ true → is_valid_utf8 (s ++ t) ≡ true
append-valid s t = from-append 0 0x80 0xBF s t

-- A text that continues a valid one.
abbrev pub IsTail : Text → Type 0
IsTail s = (k : ℕ) × (lo : ℕ) × (hi : ℕ) × Continues lo hi × (utf8_from k lo hi s ≡ true)

from-IsTail :
    (n k lo hi : ℕ) (s : Text)
    → Continues lo hi
    → utf8_from k lo hi s ≡ true
    → n ≤ length s
    → IsTail (drop n s)
unfolding utf8_from
from-IsTail zero k lo hi s within valid inside = (k, lo, hi, within, valid)
from-IsTail (suc n) k lo hi [] within valid inside = ground arith
from-IsTail (suc n) zero lo hi (b ∷ s) within valid inside =
    let (k, l, h, good, rest) = utf8_lead lo hi b s valid in
    from-IsTail n k l h s (lead-Continues b k l h good) rest (omega (arith, inside))
from-IsTail (suc n) (suc k) lo hi (b ∷ s) within valid inside =
    from-IsTail n k 0x80 0xBF s (omega arith, omega arith) (ground arith) (omega (arith, inside))

pub drop-IsTail : (n : ℕ) (s : Text) → is_valid_utf8 s ≡ true → n ≤ length s → IsTail (drop n s)
drop-IsTail n s = from-IsTail n 0 0x80 0xBF s (omega arith, omega arith)
