-- ===== src/Model/Filter/Parts.antt =====
-- The searches of the wildcard matcher of api/internal/model/srvlog.go: strings.Index,
-- strings.HasSuffix and the loop over the parts.
use mathlib.Core.Option
use native.Mathlib.Nat.{zero-add, suc-add}
use taillight.Base.{
  ℕ, zero, suc, ◌+◌, ◌≤◌, ◌≡◌, refl, ap, true, false, Text, text_eq, text_eq_iff, [], ◌∷◌, ◌++◌,
  some, length, length-append, drop, take, arith, Bool-cases, Option-cases, inl, inr, ◌↔◌,
  append_assoc,
}
use taillight.Model.Filter.{has_prefix, index, has_suffix}

pub drop-length : (xs ys : Text) → drop (length xs) (xs ++ ys) ≡ ys
drop-length [] ys = refl
drop-length (x ∷ xs) ys = drop-length xs ys

has_prefix-append : (p w : Text) → has_prefix (p ++ w) p ≡ true
unfolding has_prefix
has_prefix-append [] w = refl
has_prefix-append (x ∷ p) w = ground (arith, has_prefix-append p w)

has_prefix-drop : (s p : Text) → has_prefix s p ≡ true → s ≡ p ++ drop (length p) s
unfolding has_prefix
has_prefix-drop s [] h = refl
has_prefix-drop [] (y ∷ p) h = cc
has_prefix-drop (x ∷ s) (y ∷ p) h = ground (arith, has_prefix-drop s p)

-- What is dropped within the first list leaves the second.
drop_within : (n : ℕ) (xs ys : Text) → n ≤ length xs → (t : Text) × (drop n (xs ++ ys) ≡ t ++ ys)
drop_within zero xs ys h = (xs, refl)
drop_within (suc n) [] ys h = absurd (omega arith)
drop_within (suc n) (x ∷ xs) ys h = drop_within n xs ys (omega arith)

pub drop-zero_add : (n : ℕ) (s : Text) → drop (zero + n) s ≡ drop n s
drop-zero_add n s = rw zero-add

drop-suc_add : (i n x : ℕ) (s : Text) → drop (suc i + n) (x ∷ s) ≡ drop (i + n) s
drop-suc_add i n x s = rw suc-add

index_step :
    (x : ℕ) (s p : Text)
    → has_prefix (x ∷ s) p ≡ false
    → index (x ∷ s) p ≡ Option.map suc (index s p)
unfolding index
index_step x s p h = ground arith

-- A place that strings.Index finds is an occurrence.
pub index_sound :
    (s p : Text) (i : ℕ) → index s p ≡ some i → s ≡ take i s ++ (p ++ drop (i + length p) s)
unfolding index
index_sound [] [] i h = ground arith
index_sound [] (y ∷ p) i h = cc
index_sound (x ∷ s) p i h = elim (Bool-cases (has_prefix (x ∷ s) p)) [
  | inl here ↦
      let e : i ≡ 0 = ground arith in
      rw (e, drop-zero_add (length p) (x ∷ s)) (has_prefix-drop (x ∷ s) p here)
  | inr later ↦ elim (Option-cases (index s p)) [
    | inl nowhere ↦ absurd (ground arith)
    | inr (j, found) ↦
        let e : i ≡ suc j = ground arith in
        rw (e, drop-suc_add j (length p) x s) (ap (◌∷◌ x) (index_sound s p j found))
  ]
]

-- It finds a place, not to the right of any occurrence.
pub index-leftmost : (u p w : Text) → (i : ℕ) × (index (u ++ (p ++ w)) p ≡ some i) × (i ≤ length u)
unfolding index
index-leftmost [] [] [] = (0, refl, omega arith)
index-leftmost [] [] (x ∷ w) = (0, unfold has_prefix in refl, omega arith)
index-leftmost [] (y ∷ p) w = (0, ground (arith, has_prefix-append (y ∷ p) w), omega arith)
index-leftmost (x ∷ u) p w = elim (Bool-cases (has_prefix (x ∷ (u ++ (p ++ w))) p)) [
  | inl here ↦ (0, ground arith, omega arith)
  | inr later ↦ let (i, found, le) = index-leftmost u p w in (suc i, ground arith, omega arith)
]

-- The rest after the leftmost place ends in the rest after any occurrence.
pub drop-index :
    (u p w : Text) (i : ℕ)
    → i ≤ length u
    → (t : Text) × (drop (i + length p) (u ++ (p ++ w)) ≡ t ++ w)
drop-index u p w i h =
    let (t, e) = drop_within (i + length p) (u ++ p) w (omega (arith, length-append u p)) in
    (t, rw (← append_assoc u p w) e)

abbrev pub Ends : Text → Text → Type 0
Ends w p = (t : Text) × (w ≡ t ++ p)

has_suffix→Ends : (s p : Text) → has_suffix s p ≡ true → Ends s p
unfolding has_suffix
has_suffix→Ends [] [] h = ([], refl)
has_suffix→Ends [] (y ∷ p) h = cc
has_suffix→Ends (x ∷ s) p h = elim (Bool-cases (text_eq (x ∷ s) p)) [
  | inl whole ↦ ([], (text_eq_iff (x ∷ s) p).0 whole)
  | inr shorter ↦ let (t, e) = has_suffix→Ends s p (ground arith) in (x ∷ t, ap (◌∷◌ x) e)
]

has_suffix-append : (t p : Text) → has_suffix (t ++ p) p ≡ true
unfolding has_suffix
has_suffix-append [] [] = refl
has_suffix-append [] (y ∷ p) = ground (arith, (text_eq_iff (y ∷ p) (y ∷ p)).1 refl)
has_suffix-append (x ∷ t) p = ground (arith, has_suffix-append t p)

pub has_suffix-Ends : (s p : Text) → (has_suffix s p ≡ true) ↔ Ends s p
has_suffix-Ends s p = (has_suffix→Ends s p, λ (t, e). rw e (has_suffix-append t p))

pub Ends-shorter : (a w t p : Text) → a ++ w ≡ t ++ p → length p ≤ length w → Ends w p
Ends-shorter [] w t p e h = (t, e)
Ends-shorter (x ∷ a) w [] p e h = absurd (omega (arith, ap length e, length-append a w))
Ends-shorter (x ∷ a) w (y ∷ t) p e h = Ends-shorter a w t p (ground arith) h
