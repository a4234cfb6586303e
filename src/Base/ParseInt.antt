-- ===== src/Base/ParseInt.antt =====
-- strconv: the decimal notation of an int64, and ParseInt in base 10 with 64 bits, which Atoi is on
-- a 64-bit machine.
use taillight.Base.{
  ℕ, zero, suc, ◌+◌, ◌-◌, ◌*◌, ◌/◌, ◌%◌, ◌<◌, ◌^◌, ◌≡◌, refl, ap, ◌∙◌, Bool, true, false, ◌&&◌,
  if◌then◌else◌, ltb, leb, ◌==◌, ℤ, pos, negsuc, InRange64, Text, is_empty, [], ◌∷◌, ◌++◌, Option,
  none, some, arith, Bool-cases, inl, inr,
}
use taillight.Base.Decimal.{decimal, digits_fuel}

abbrev pub is_digit : ℕ → Bool
is_digit d = leb 48 d && leb d 57

unfoldable pub digits_value : ℕ → Text → Option ℕ
digits_value acc [] = some acc
digits_value acc (d ∷ ds) =
    let rest = digits_value (acc * 10 + (d - 48)) ds in if is_digit d then rest else none

-- A sequence of digits, which is not empty.
unfoldable pub parse_nat : Text → Option ℕ
unfolding digits_value
parse_nat s = if is_empty s then none else digits_value 0 s

-- An integer of the range of an int64.
unfoldable pub in_range64 : Bool → ℕ → Option ℤ
in_range64 negative n =
    if negative
    then if ltb (2 ^ 63) n then none else if n == 0 then some (pos 0) else some (negsuc (n - 1))
    else if ltb n (2 ^ 63)
    then some (pos n)
    else none

abbrev signed : Bool → Text → Option ℤ
signed negative s = elim (parse_nat s) [ none ↦ none | some n ↦ in_range64 negative n ]

unfoldable pub parse_int : Text → Option ℤ
unfolding in_range64 parse_nat
parse_int [] = none
parse_int (c ∷ s) =
    if c == b'-' then signed true s else if c == b'+' then signed false s else signed false (c ∷ s)

-- "%d"
unfoldable pub decimal_int : ℤ → Text
unfolding decimal
decimal_int (pos n) = decimal n
decimal_int (negsuc n) = b'-' ∷ decimal (suc n)

digits_value-append :
    (acc : ℕ) (ds : Text) (d n : ℕ)
    → digits_value acc ds ≡ some n
    → is_digit d ≡ true
    → digits_value acc (ds ++ d ∷ []) ≡ some (n * 10 + (d - 48))
unfolding digits_value
digits_value-append acc [] d n h digit = ground arith
digits_value-append acc (x ∷ ds) d n h digit =
    ground (arith, digits_value-append (acc * 10 + (x - 48)) ds d n)

-- A decimal is not empty and begins with a digit.
abbrev pub BeginsWithDigit : Text → Type 0
BeginsWithDigit s = (d : ℕ) × (ds : Text) × (s ≡ d ∷ ds) × (is_digit d ≡ true)

digits_value-digits_fuel :
    (f n : ℕ)
    → n < f
    → (digits_value 0 (digits_fuel f n) ≡ some n) × BeginsWithDigit (digits_fuel f n)
unfolding digits_fuel
digits_value-digits_fuel zero n h = elim h [ ]
digits_value-digits_fuel (suc f) n h = elim (Bool-cases (ltb n 10)) [
  | inl small ↦ rw small (unfold digits_value in ground arith, (48 + n, [], refl, ground arith))
  | inr big ↦
      let (value, (d, ds, form, digit)) = digits_value-digits_fuel f (n / 10) (ground arith) in
      let grown =
        digits_value-append 0 (digits_fuel f (n / 10)) (48 + n % 10) (n / 10) value
          (ground arith) in
      rw big (
        grown ∙ ap some (omega arith),
        (d, ds ++ (48 + n % 10) ∷ [], ap (λ t. t ++ (48 + n % 10) ∷ []) form, digit),
      )
]

pub parse_nat-decimal : (n : ℕ) → (parse_nat (decimal n) ≡ some n) × BeginsWithDigit (decimal n)
unfolding decimal parse_nat
parse_nat-decimal n =
    let (value, (d, ds, form, digit)) = digits_value-digits_fuel (suc n) n (omega arith) in
    (rw (ap is_empty form) value, (d, ds, form, digit))

signed-decimal : (n : ℕ) (negative : Bool) → signed negative (decimal n) ≡ in_range64 negative n
signed-decimal n negative = rw ((parse_nat-decimal n).0, signed) refl

parse_int-digits : (s : Text) → BeginsWithDigit s → parse_int s ≡ signed false s
unfolding parse_int
parse_int-digits s (d, ds, form, digit) = rw form (ground arith)

pub parse_int-decimal_int : (z : ℤ) → InRange64 z → parse_int (decimal_int z) ≡ some z
unfolding parse_int decimal_int
parse_int-decimal_int (pos n) h =
    parse_int-digits (decimal n) (parse_nat-decimal n).1
    ∙ signed-decimal n false
    ∙ (unfold in_range64 in ground arith)
parse_int-decimal_int (negsuc n) h =
    signed-decimal (suc n) true ∙ (unfold in_range64 in ground arith)
