-- ===== src/Model/Filter/Glob.antt =====
-- What a wildcard pattern means, and what its split at the stars means
-- (matchWildcard of api/internal/model/srvlog.go).
use taillight.Base.{
  ℕ, ◌≡◌, refl, ap, sym, subst, ◌∙◌, true, false, ◌==◌, Text, contains_byte, List, [], ◌∷◌, ◌++◌,
  arith, Bool-cases, inl, inr, ◌↔◌,
}
use taillight.Model.Filter.{split_star}

-- A star stands for any text, and any other byte for itself.
pub data Glob : Text → Text → Type 0 where
  end : Glob [] []
  byte : {p v : Text} (c : ℕ) → (c == b'*') ≡ false → Glob p v → Glob (c ∷ p) (c ∷ v)
  skip : {p v : Text} (c : ℕ) → (c == b'*') ≡ true → Glob p v → Glob (c ∷ p) v
  eat : {p v : Text} (c x : ℕ) → (c == b'*') ≡ true → Glob (c ∷ p) v → Glob (c ∷ p) (x ∷ v)

-- The parts stand in the text in order, each behind any text, and the last at its end.
abbrev pub Tail : List Text → Text → Type 0
Tail [] w = w ≡ []
Tail (p ∷ ps) w = (u : Text) × (w' : Text) × (w ≡ u ++ (p ++ w')) × Tail ps w'

-- The text begins with the first part, and the others follow.
abbrev pub Whole : Text → List Text → Text → Type 0
Whole part parts v = (w : Text) × (v ≡ part ++ w) × Tail parts w

split_star_byte :
    (c : ℕ) (p : Text)
    → (c == b'*') ≡ false
    → split_star (c ∷ p) ≡ (c ∷ (split_star p).0, (split_star p).1)
unfolding split_star
split_star_byte c p h = ground arith

split_star_at :
    (c : ℕ) (p : Text)
    → (c == b'*') ≡ true
    → split_star (c ∷ p) ≡ ([], (split_star p).0 ∷ (split_star p).1)
unfolding split_star
split_star_at c p h = ground arith

abbrev Splits : Text → Text → Type 0
Splits p v = Whole (split_star p).0 (split_star p).1 v

Glob→Splits : {p v : Text} → Glob p v → Splits p v
unfolding split_star
Glob→Splits end = ([], refl, refl)
Glob→Splits (byte {p = p} c h g) =
    let (w, e, t) = Glob→Splits g in rw (split_star_byte c p h) (w, ap (◌∷◌ c) e, t)
Glob→Splits (skip {p = p} {v = v} c h g) =
    let (w, e, t) = Glob→Splits g in rw (split_star_at c p h) (v, refl, ([], w, e, t))
Glob→Splits (eat {p = p} {v = v} c x h g) =
    let (w0, e0, t0) = rw (split_star_at c p h) at (Glob→Splits g) in
    let (u, w, e, t) = t0 in
    rw (split_star_at c p h) (x ∷ v, refl, (x ∷ u, w, ap (◌∷◌ x) (e0 ∙ e), t))

-- A star before a pattern lets any text stand before what the pattern stands for.
Glob-star : (c : ℕ) (p u v : Text) → (c == b'*') ≡ true → Glob p v → Glob (c ∷ p) (u ++ v)
Glob-star c p [] v h g = skip c h g
Glob-star c p (x ∷ u) v h g = eat c x h (Glob-star c p u v h g)

Splits→Glob : (p v : Text) → Splits p v → Glob p v
unfolding split_star
Splits→Glob [] v (w, e, t) = subst (Glob []) (sym (e ∙ t)) end
Splits→Glob (c ∷ p) v s = elim (Bool-cases (c == b'*')) [
  | inr plain ↦
      let (w, e, t) = rw (split_star_byte c p plain) at s in
      subst (Glob (c ∷ p)) (sym e)
        (byte c plain (Splits→Glob p ((split_star p).0 ++ w) (w, refl, t)))
  | inl star ↦
      let (w0, e0, t0) = rw (split_star_at c p star) at s in
      let (u, w, e, t) = t0 in
      subst (Glob (c ∷ p)) (sym (e0 ∙ e)) (
        Glob-star c p u ((split_star p).0 ++ w) star
          (Splits→Glob p ((split_star p).0 ++ w) (w, refl, t)))
]

-- A pattern and its parts mean the same.
pub Glob-Splits : (p v : Text) → Glob p v ↔ Whole (split_star p).0 (split_star p).1 v
Glob-Splits p v = (λ g. Glob→Splits g, Splits→Glob p v)

pub star_parts :
    (p : Text)
    → contains_byte b'*' p ≡ true
    → (q : Text) × (qs : List Text) × ((split_star p).1 ≡ q ∷ qs)
unfolding contains_byte
star_parts [] h = absurd (cc)
star_parts (c ∷ p) h = elim (Bool-cases (c == b'*')) [
  | inl star ↦ ((split_star p).0, (split_star p).1, rw (split_star_at c p star) refl)
  | inr plain ↦
      let (q, qs, e) = star_parts p (ground arith) in (q, qs, rw (split_star_byte c p plain) e)
]
