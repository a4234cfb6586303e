-- ===== src/Model/Filter/Wildcard.antt =====
-- The wildcard matcher of api/internal/model/srvlog.go and what patterns mean.
use taillight.Base.{
  ℕ, zero, suc, ◌+◌, ◌≤◌, ◌≡◌, refl, ap, sym, subst, ◌∙◌, Bool, true, false, not, ◌&&◌, ◌||◌,
  if◌then◌else◌, ◌==◌, Text, codes, text_eq, text_eq_iff, is_empty, contains_byte, List, [], ◌∷◌,
  ◌++◌, none, some, length, length-append, drop, take, arith, Bool-cases, Option-cases, inl, inr,
  ◌↔◌, append-nil, append_assoc,
}
use taillight.Model.Unicode.{Unicode}
use taillight.Model.Filter.{
  index, has_suffix, split_star, last_part, match_parts, match_lower, match_wildcard, match_field,
}
use taillight.Model.Filter.Parts.{
  Ends, has_suffix-Ends, Ends-shorter, index_sound, index-leftmost, drop-index, drop-length,
  drop-zero_add,
}
use taillight.Model.Filter.Glob.{Glob, skip, eat, end, Tail, Glob-Splits, star_parts}

-- The parts stand in the text in order, with any text after the last.
abbrev Loose : List Text → Text → Type 0
Loose [] w = Unit {0}
Loose (p ∷ ps) w = (u : Text) × (w' : Text) × (w ≡ u ++ (p ++ w')) × Loose ps w'

Loose-append : (ps : List Text) (t w : Text) → Loose ps w → Loose ps (t ++ w)
Loose-append [] t w h = tt
Loose-append (p ∷ ps) t w (u, w', e, h) =
    (t ++ u, w', ap (◌++◌ t) e ∙ sym (append_assoc t u (p ++ w')), h)

match_parts_skip :
    (p w : Text) (ps : List Text) (first : Bool)
    → is_empty p ≡ true
    → match_parts first (p ∷ ps) w ≡ match_parts false ps w
unfolding match_parts
match_parts_skip p w ps first h = ground arith

match_parts_found :
    (p w : Text) (ps : List Text) (i : ℕ)
    → is_empty p ≡ false
    → index w p ≡ some i
    → match_parts false (p ∷ ps) w ≡ match_parts false ps (drop (i + length p) w)
unfolding match_parts
match_parts_found p w ps i h found = rw (h, found, match_parts) refl

match_parts_lost :
    (p w : Text) (ps : List Text) (first : Bool)
    → is_empty p ≡ false
    → index w p ≡ none
    → match_parts first (p ∷ ps) w ≡ false
unfolding match_parts
match_parts_lost p w ps first h lost = rw (h, lost, match_parts) refl

-- The greedy loop finds the parts in order whenever they stand in order.
match_parts-Loose : (ps : List Text) (w : Text) → match_parts false ps w ≡ true → Loose ps w
unfolding match_parts
match_parts-Loose [] w h = tt
match_parts-Loose ([] ∷ ps) w h = ([], w, refl, match_parts-Loose ps w h)
match_parts-Loose ((y ∷ p) ∷ ps) w h = elim (Option-cases (index w (y ∷ p))) [
  | inl lost ↦ cc (match_parts_lost (y ∷ p) w ps false refl lost)
  | inr (i, found) ↦
      let rest = drop (i + length (y ∷ p)) w in
      (
        take i w,
        rest,
        index_sound w (y ∷ p) i found,
        match_parts-Loose ps rest (sym (match_parts_found (y ∷ p) w ps i refl found) ∙ h),
      )
]

Loose-match_parts : (ps : List Text) (w : Text) → Loose ps w → match_parts false ps w ≡ true
unfolding match_parts
Loose-match_parts [] w h = refl
Loose-match_parts ([] ∷ ps) w (u, w', e, h) =
    Loose-match_parts ps w (subst (Loose ps) (sym e) (Loose-append ps u w' h))
Loose-match_parts ((y ∷ p) ∷ ps) w (u, w', e, h) =
    let (i, found, le) = index-leftmost u (y ∷ p) w' in
    let (t, rest) = drop-index u (y ∷ p) w' i le in
    subst (λ k. match_parts false ((y ∷ p) ∷ ps) k ≡ true) (sym e)
      (match_parts_found (y ∷ p) (u ++ ((y ∷ p) ++ w')) ps i refl found
        ∙ rw rest (Loose-match_parts ps (t ++ w') (Loose-append ps t w' h)))

Ends-append : (t w p : Text) → Ends w p → Ends (t ++ w) p
Ends-append t w p (s, e) = (t ++ s, ap (◌++◌ t) e ∙ sym (append_assoc t s p))

last-fits :
    (p : Text) (ps : List Text) (w : Text) → Loose (p ∷ ps) w → length (last_part p ps) ≤ length w
last-fits p [] w (u, w', e, h) =
    omega (arith, ap length e, length-append u (p ++ w'), length-append p w')
last-fits p (q ∷ qs) w (u, w', e, h) =
    omega (arith, ap length e, length-append u (p ++ w'), length-append p w', last-fits q qs w' h)

-- The parts stand in order with the last at the end, exactly if they stand in order and the text
-- ends in the last.
Tail-Loose :
    (p : Text) (ps : List Text) (w : Text)
    → Tail (p ∷ ps) w
    → Loose (p ∷ ps) w × Ends w (last_part p ps)
Tail-Loose p [] w (u, w', e, t) =
    ((u, w', e, tt), (u, e ∙ ap (λ k. u ++ (p ++ k)) t ∙ ap (◌++◌ u) (append-nil p)))
Tail-Loose p (q ∷ qs) w (u, w', e, t) =
    let (loose, s) = Tail-Loose q qs w' t in
    (
      (u, w', e, loose),
      subst (λ k. Ends k (last_part q qs)) (sym e)
          (Ends-append u (p ++ w') (last_part q qs) (Ends-append p w' (last_part q qs) s)),
    )

Loose-Tail :
    (p : Text) (ps : List Text) (w : Text)
    → Loose (p ∷ ps) w
    → Ends w (last_part p ps)
    → Tail (p ∷ ps) w
Loose-Tail p [] w h (t, e) = (t, [], e ∙ ap (◌++◌ t) (sym (append-nil p)), refl)
Loose-Tail p (q ∷ qs) w (u, w', e, h) (t, s) = (
  u,
  w',
  e,
  Loose-Tail q qs w' h (
      Ends-shorter (u ++ p) w' t (last_part q qs) (append_assoc u p w' ∙ sym e ∙ s)
        (last-fits q qs w' h)),
)

match_parts_first :
    (p w : Text) (ps : List Text) (i : ℕ)
    → is_empty p ≡ false
    → index w p ≡ some i
    → match_parts true (p ∷ ps) w
      ≡ (if not (i == 0) then false else match_parts false ps (drop (i + length p) w))
unfolding match_parts
match_parts_first p w ps i h found = rw (h, found, match_parts) refl

-- The first part is found at the start.
match_parts-first :
    (p v : Text) (ps : List Text)
    → match_parts true (p ∷ ps) v ≡ true
    → (w : Text) × (v ≡ p ++ w) × (match_parts false ps w ≡ true)
match_parts-first [] v ps h = (v, refl, sym (match_parts_skip [] v ps true refl) ∙ h)
match_parts-first (y ∷ p) v ps h = elim (Option-cases (index v (y ∷ p))) [
  | inl lost ↦ cc (match_parts_lost (y ∷ p) v ps true refl lost)
  | inr (zero, found) ↦ (
    drop (zero + length (y ∷ p)) v,
    index_sound v (y ∷ p) zero found,
    sym (match_parts_first (y ∷ p) v ps zero refl found) ∙ h,
  )
  | inr (suc i, found) ↦ absurd (ground (arith, match_parts_first (y ∷ p) v ps (suc i) refl found))
]

first-match_parts :
    (p w : Text) (ps : List Text)
    → match_parts false ps w ≡ true
    → match_parts true (p ∷ ps) (p ++ w) ≡ true
first-match_parts [] w ps h = match_parts_skip [] w ps true refl ∙ h
first-match_parts (y ∷ p) w ps h =
    let (i, found, le) = index-leftmost [] (y ∷ p) w in
    let e : i ≡ 0 = omega arith in
    let rest : drop (0 + length (y ∷ p)) (y ∷ (p ++ w)) ≡ w =
      drop-zero_add (length (y ∷ p)) (y ∷ (p ++ w)) ∙ drop-length (y ∷ p) w in
    match_parts_first (y ∷ p) (y ∷ (p ++ w)) ps 0 refl
      (subst (λ k. index (y ∷ (p ++ w)) (y ∷ p) ≡ some k) e found)
    ∙ rw rest h

match_lower_split :
    (v p q : Text) (qs : List Text)
    → (split_star p).1 ≡ q ∷ qs
    → match_lower v p ≡ (
        match_parts true ((split_star p).0 ∷ q ∷ qs) v
        && (is_empty (last_part q qs) || has_suffix v (last_part q qs)))
unfolding match_lower
match_lower_split v p q qs e = rw e refl

Ends-test : (v l : Text) → Ends v l → (is_empty l || has_suffix v l) ≡ true
Ends-test v [] h = refl
Ends-test v (y ∷ l) h = (has_suffix-Ends v (y ∷ l)).1 h

test-Ends : (v l : Text) → (is_empty l || has_suffix v l) ≡ true → Ends v l
test-Ends v [] h = (v, sym (append-nil v))
test-Ends v (y ∷ l) h = (has_suffix-Ends v (y ∷ l)).0 h

and_both : (a b : Bool) → (a && b) ≡ true → (a ≡ true) × (b ≡ true)
and_both a b h = ground arith

-- For a pattern with a star, the matcher accepts exactly the texts that the pattern means,
-- where a star stands for any text and any other byte for itself.
pub match_lower-Glob :
    (v p : Text) → contains_byte b'*' p ≡ true → (match_lower v p ≡ true) ↔ Glob p v
match_lower-Glob v p starred =
    let (q, qs, e) = star_parts p starred in
    let part = (split_star p).0 in
    let l = last_part q qs in
    (
      λ h.
          let (found, ends) = and_both _ _ (sym (match_lower_split v p q qs e) ∙ h) in
          let (w, ev, rest) = match_parts-first part v (q ∷ qs) found in
          let loose = match_parts-Loose (q ∷ qs) w rest in
          let (t, et) = test-Ends v l ends in
          let s = Ends-shorter part w t l (sym ev ∙ et) (last-fits q qs w loose) in
          (Glob-Splits p v).1 (w, ev, rw e (Loose-Tail q qs w loose s)),
      λ g.
          let (w, ev, tail) = (Glob-Splits p v).0 g in
          let (loose, s) = Tail-Loose q qs w (rw e at tail) in
          let found = first-match_parts part w (q ∷ qs) (Loose-match_parts (q ∷ qs) w loose) in
          match_lower_split v p q qs e
          ∙ subst
              (λ k. (match_parts true (part ∷ q ∷ qs) k && (is_empty l || has_suffix k l)) ≡ true)
              (sym ev) (rw (found, Ends-test (part ++ w) l (Ends-append part w l s)) refl),
    )

star-any : (v : Text) → Glob (codes "*") v
star-any [] = skip b'*' refl end
star-any (x ∷ v) = eat b'*' x refl (star-any v)

module _ (u : Unicode) where
  open u use {lower}

  -- A pattern with a star, matched against a field: a value passes exactly if its lowered form is
  -- one that the lowered pattern means.
  pub match_field-Glob :
      (value pattern : Text)
      → contains_byte b'*' pattern ≡ true
      → contains_byte b'*' (lower pattern) ≡ true
      → lower (codes "*") ≡ codes "*"
      → (match_field u value pattern ≡ true) ↔ Glob (lower pattern) (lower value)
  unfolding match_field match_wildcard
  match_field-Glob value pattern starred lowered star =
      elim (Bool-cases (text_eq pattern (codes "*"))) [
        | inl any ↦
            let e = (text_eq_iff pattern (codes "*")).0 any in
            (
              λ h.
                  subst (λ k. Glob (lower k) (lower value)) (sym e)
                    (subst (λ k. Glob k (lower value)) (sym star) (star-any (lower value))),
              λ g. rw (starred, any) refl,
            )
        | inr other ↦
            let both = match_lower-Glob (lower value) (lower pattern) lowered in
            let step : match_field u value pattern ≡ match_lower (lower value) (lower pattern) =
              rw (starred, other) refl in
            (λ h. both.0 (sym step ∙ h), λ g. step ∙ both.1 g)
      ]
