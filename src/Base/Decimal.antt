-- ===== src/Base/Decimal.antt =====
-- strconv's decimal notation of a non-negative integer.
use taillight.Base.{
  ℕ, zero, suc, ◌+◌, ◌-◌, ◌*◌, ◌/◌, ◌%◌, ◌^◌, ◌≤◌, ◌<◌, length, length-append, ◌≡◌, refl, false,
  ◌||◌, [], ◌∷◌, ◌++◌, Text, contains_byte, ltb, ◌==◌, if◌then◌else◌, arith, Bool-cases, inl, inr,
  ap, sym, ◌∙◌,
}

unfoldable pub digits_fuel : ℕ → ℕ → Text
digits_fuel zero n = []
digits_fuel (suc f) n =
    let rest = digits_fuel f (n / 10) in
    if ltb n 10 then (48 + n) ∷ [] else rest ++ (48 + n % 10) ∷ []

-- The fuel `n + 1` is enough, since a division by ten makes a positive number smaller.
unfoldable pub decimal : ℕ → Text
unfolding digits_fuel
decimal n = digits_fuel (suc n) n

value_from : ℕ → Text → ℕ
value_from acc [] = acc
value_from acc (d ∷ ds) = value_from (acc * 10 + (d - 48)) ds

value_from-append :
    (acc : ℕ) (ds : Text) (d : ℕ)
    → value_from acc (ds ++ d ∷ []) ≡ value_from acc ds * 10 + (d - 48)
unfolding value_from
value_from-append acc [] d = refl
value_from-append acc (x ∷ ds) d = value_from-append (acc * 10 + (x - 48)) ds d

value-digits_fuel : (f n : ℕ) → n < f → value_from 0 (digits_fuel f n) ≡ n
unfolding digits_fuel
value-digits_fuel zero n h = elim h [ ]
value-digits_fuel (suc f) n h = elim (Bool-cases (ltb n 10)) [
  | inl small ↦ rw small (unfold value_from in omega arith)
  | inr big ↦
      rw (big, value_from-append 0 (digits_fuel f (n / 10)) (48 + n % 10))
        (ground (arith, value-digits_fuel f (n / 10)))
]

contains_byte-append :
    (b : ℕ) (xs ys : Text) → contains_byte b (xs ++ ys) ≡ (contains_byte b xs || contains_byte b ys)
unfolding contains_byte
contains_byte-append b [] ys = refl
contains_byte-append b (x ∷ xs) ys = ground (arith, contains_byte-append b xs ys)

-- A decimal has digits only.
digits_fuel-no_colon : (f n : ℕ) → contains_byte 58 (digits_fuel f n) ≡ false
unfolding digits_fuel contains_byte
digits_fuel-no_colon zero n = refl
digits_fuel-no_colon (suc f) n = ground (
  arith,
  digits_fuel-no_colon f (n / 10),
  contains_byte-append 58 (digits_fuel f (n / 10)) ((48 + n % 10) ∷ []),
)

before_colon : Text → Text
before_colon [] = []
before_colon (x ∷ xs) = if x == 58 then [] else x ∷ before_colon xs

after_colon : Text → Text
after_colon [] = []
after_colon (x ∷ xs) = if x == 58 then xs else after_colon xs

before_colon-append :
    (xs ys : Text) → contains_byte 58 xs ≡ false → before_colon (xs ++ 58 ∷ ys) ≡ xs
unfolding before_colon contains_byte
before_colon-append [] ys h = refl
before_colon-append (x ∷ xs) ys h = ground (arith, before_colon-append xs ys)

after_colon-append : (xs ys : Text) → contains_byte 58 xs ≡ false → after_colon (xs ++ 58 ∷ ys) ≡ ys
unfolding after_colon contains_byte
after_colon-append [] ys h = refl
after_colon-append (x ∷ xs) ys h = ground (arith, after_colon-append xs ys)

-- A decimal, a colon and any text determine the number and the text.
pub decimal_colon-injective :
    (m n : ℕ) (xs ys : Text) → decimal m ++ 58 ∷ xs ≡ decimal n ++ 58 ∷ ys → (m ≡ n) × (xs ≡ ys)
unfolding decimal
decimal_colon-injective m n xs ys e =
    let pm = before_colon-append (decimal m) xs (digits_fuel-no_colon (suc m) m) in
    let pn = before_colon-append (decimal n) ys (digits_fuel-no_colon (suc n) n) in
    let qm = after_colon-append (decimal m) xs (digits_fuel-no_colon (suc m) m) in
    let qn = after_colon-append (decimal n) ys (digits_fuel-no_colon (suc n) n) in
    (
      sym (value-digits_fuel (suc m) m (omega arith))
          ∙ ap (value_from 0) (sym pm ∙ ap before_colon e ∙ pn)
          ∙ value-digits_fuel (suc n) n (omega arith),
      sym qm ∙ ap after_colon e ∙ qn,
    )

-- A number below 10^(k + 1) has k + 1 digits at most.
length-digits_fuel : (k f n : ℕ) → n < 10 ^ suc k → length (digits_fuel f n) ≤ suc k
unfolding digits_fuel
length-digits_fuel k zero n h = omega arith
length-digits_fuel zero (suc f) n h = ground arith
length-digits_fuel (suc k) (suc f) n h =
    let rest = digits_fuel f (n / 10) in
    ground (arith, length-append rest ((48 + n % 10) ∷ []), length-digits_fuel k f (n / 10))

pub length-decimal : (k n : ℕ) → n < 10 ^ suc k → length (decimal n) ≤ suc k
unfolding decimal
length-decimal k n h = length-digits_fuel k (suc n) n h
