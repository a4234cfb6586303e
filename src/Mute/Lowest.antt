-- ===== src/Mute/Lowest.antt =====
-- Marking and exclusion by the rule set of api/internal/mute/set.go, against the lowest id.
use taillight.Base.{
  ℕ, ◌≤◌, min, ◌≡◌, refl, ap, ◌∙◌, Bool, true, false, ◌&&◌, if◌then◌else◌, leb, Text, List, [], ◌∷◌,
  Option, none, some, any, arith, Bool-cases, inl, inr,
}
use taillight.Mute.{
  Rule, MuteSet, Snapshot, snapshot, insert_by_id, sort_by_id, replace, active, match_in,
  match_event, exclusions_in, exclusions,
}

abbrev pub is_some : {A : Type 0} → Option A → Bool
is_some none = false
is_some (some a) = true

-- The smaller of an id and a perhaps missing one.
abbrev pub min_option : ℕ → Option ℕ → Option ℕ
min_option i none = some i
min_option i (some j) = some (min i j)

-- The lowest id among the rules that pass a test, in no order.
unfoldable pub lowest_id : (Rule → Bool) → List Rule → Option ℕ
lowest_id passes [] = none
lowest_id passes (r ∷ rs) =
    let rest = lowest_id passes rs in if passes r then min_option r.id rest else rest

-- The ids do not fall along the list, which begins at `n` or above.
abbrev Rising : ℕ → List Rule → Type 0
Rising n [] = Unit {0}
Rising n (r ∷ rs) = (n ≤ r.id) × Rising r.id rs

Rising-mono : (m n : ℕ) (rs : List Rule) → m ≤ n → Rising n rs → Rising m rs
Rising-mono m n [] h s = tt
Rising-mono m n (r ∷ rs) h s = (omega arith, s.1)

insert_by_id-Rising :
    (n : ℕ) (r : Rule) (rs : List Rule) → n ≤ r.id → Rising n rs → Rising n (insert_by_id r rs)
unfolding insert_by_id
insert_by_id-Rising n r [] h s = (h, tt)
insert_by_id-Rising n r (x ∷ xs) h s = ground (arith, insert_by_id-Rising x.id r xs)

sort_by_id-Rising : (rs : List Rule) → Rising 0 (sort_by_id rs)
unfolding sort_by_id
sort_by_id-Rising [] = tt
sort_by_id-Rising (r ∷ rs) =
    insert_by_id-Rising 0 r (sort_by_id rs) (omega arith) (sort_by_id-Rising rs)

-- The first rule of a list that passes a test.
abbrev first_id : (Rule → Bool) → List Rule → Option ℕ
first_id passes [] = none
first_id passes (r ∷ rs) = if passes r then some r.id else first_id passes rs

first_id-min :
    (passes : Rule → Bool) (n : ℕ) (rs : List Rule)
    → Rising n rs
    → min_option n (first_id passes rs) ≡ some n
first_id-min passes n [] s = refl
first_id-min passes n (r ∷ rs) s =
    ground (arith, first_id-min passes n rs (Rising-mono n r.id rs s.0 s.1))

first_id-insert :
    (passes : Rule → Bool) (r : Rule) (n : ℕ) (rs : List Rule)
    → Rising n rs
    → first_id passes (insert_by_id r rs)
      ≡ (if passes r then min_option r.id (first_id passes rs) else first_id passes rs)
unfolding insert_by_id
first_id-insert passes r n [] s = refl
first_id-insert passes r n (x ∷ xs) s = elim (Bool-cases (leb r.id x.id)) [
  | inl before ↦ rw (before, first_id-min passes r.id (x ∷ xs) (ground arith, s.1)) (ground arith)
  | inr after ↦ rw after (ground (arith, first_id-insert passes r x.id xs s.1))
]

first_id-sort :
    (passes : Rule → Bool) (rs : List Rule) → first_id passes (sort_by_id rs) ≡ lowest_id passes rs
unfolding sort_by_id lowest_id
first_id-sort passes [] = refl
first_id-sort passes (r ∷ rs) =
    first_id-insert passes r 0 (sort_by_id rs) (sort_by_id-Rising rs)
    ∙ ap (λ o. if passes r then min_option r.id o else o) (first_id-sort passes rs)

module _ {E F : Type 0} (to_filter : Rule → F) (matches : F → E → Bool) where
  match_in-first :
      (is_active : Rule → Bool) (e : E) (rs : List Rule)
      → match_in to_filter matches is_active e rs
        ≡ first_id (λ r. is_active r && matches (to_filter r) e) rs
  unfolding match_in
  match_in-first is_active e [] = refl
  match_in-first is_active e (r ∷ rs) =
      ap (λ o. if is_active r && matches (to_filter r) e then some r.id else o)
        (match_in-first is_active e rs)

  -- After the store's rules are swapped in, an event is marked with the lowest id among all rules
  -- of the feed that have not expired and whose filter matches it, in whatever order the store
  -- listed them, and is not marked if there is none.
  pub match_event-lowest :
      (rules : List Rule) (s : MuteSet) (now : ℕ) (feed : Text) (e : E)
      → let at = snapshot (replace rules s) now in
        match_event to_filter matches at feed e
        ≡ lowest_id (λ r. active at feed r && matches (to_filter r) e) rules
  unfolding match_event replace active
  match_event-lowest rules s now feed e =
      match_in-first _ e (sort_by_id rules) ∙ first_id-sort _ rules

  exclusions_in-match :
      (is_active : Rule → Bool) (e : E) (rs : List Rule)
      → any (λ f. matches f e) (exclusions_in to_filter is_active rs)
        ≡ is_some (match_in to_filter matches is_active e rs)
  unfolding match_in exclusions_in
  exclusions_in-match is_active e [] = refl
  exclusions_in-match is_active e (r ∷ rs) = ground (arith, exclusions_in-match is_active e rs)

  -- Marking and exclusion agree: an event is marked by a snapshot exactly if one of the filters
  -- that the snapshot excludes matches it.
  pub exclusions-match :
      (at : Snapshot) (feed : Text) (e : E)
      → any (λ f. matches f e) (exclusions to_filter at feed)
        ≡ is_some (match_event to_filter matches at feed e)
  unfolding match_event exclusions
  exclusions-match at feed e = exclusions_in-match (active at feed) e at.rules
