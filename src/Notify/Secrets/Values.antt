-- ===== src/Notify/Secrets/Values.antt =====
-- Masking one value, and its inverse (api/internal/notification/secrets.go).
use taillight.Base.{
  ◌≡◌, refl, ap, ◌∙◌, true, if◌then◌else◌, Text, codes, text_eq, text_eq_iff, [], ◌∷◌, Option, none,
  some, arith, Bool-cases, inl, inr, ◌⊎◌,
}
use taillight.Base.Assoc.{Assoc, Distinct, lookup, map_values, text_eq_keys}
use taillight.Notify.Secrets.{
  JsonValue, Member, json_null, json_string, json_other, json_object, member_masked,
  mask_json_value, masked_member, is_empty_json, restored_member, restore_members, restore_object,
  restore_json_value,
}

-- A JSON object has no key twice.
abbrev pub IsObject : JsonValue → Type 0
IsObject json_null = Unit
IsObject (json_string s) = Unit
IsObject (json_other s) = Unit
IsObject (json_object m) = Distinct m

-- The same members, some of them masked.
abbrev Alike : Assoc Text Member → Assoc Text Member → Type 0
Alike [] [] = Unit
Alike [] ((k, v) ∷ m) = ⊥
Alike ((j, w) ∷ n) [] = ⊥
Alike ((j, w) ∷ n) ((k, v) ∷ m) = (j ≡ k) × ((member_masked w ≡ true) ⊎ (w ≡ v)) × Alike n m

map_values-Alike : (m : Assoc Text Member) → Alike (map_values masked_member m) m
unfolding map_values text_eq
map_values-Alike [] = tt
map_values-Alike ((k, v) ∷ m) = (refl, inl refl, map_values-Alike m)

self-Alike : (m : Assoc Text Member) → Alike m m
self-Alike [] = tt
self-Alike ((k, v) ∷ m) = (refl, inr refl, self-Alike m)

pub text_eq_refl : (k : Text) → text_eq k k ≡ true
text_eq_refl k = (text_eq_iff k k).1 refl

restore_members-Alike :
    (old n m : Assoc Text Member)
    → Alike n m
    → Distinct m
    → ((k : Text) (v : Member) → lookup k m ≡ some v → lookup k old ≡ some v)
    → restore_members n old ≡ m
unfolding restore_members lookup
restore_members-Alike old [] [] like d same = refl
restore_members-Alike old [] ((k, v) ∷ m) like d same = elim like [ ]
restore_members-Alike old ((j, w) ∷ n) [] like d same = elim like [ ]
restore_members-Alike old ((j, w) ∷ n) ((k, v) ∷ m) (key, masked, like) (fresh, d) same =
    let others : (i : Text) (x : Member) → lookup i m ≡ some x → lookup i old ≡ some x =
      λ i x found. same i x (ground (arith, text_eq_iff k i)) in
    let here : lookup k old ≡ some v = same k v (rw (text_eq_refl k) refl) in
    let found : restored_member w (lookup j old) ≡ v =
      ap (λ i. restored_member w (lookup i old)) key ∙ ap (restored_member w) here ∙ ground arith in
    rw (found, key, restore_members-Alike old n m like d others) refl

abbrev pub hide : JsonValue → JsonValue
hide v = if is_empty_json v then v else mask_json_value v

pub restore_json_value-hide :
    (v : JsonValue)
    → IsObject v
    → (restore_json_value (hide v) (some v) ≡ v) × (restore_json_value v (some v) ≡ v)
unfolding restore_json_value mask_json_value restore_object text_eq
restore_json_value-hide json_null o = (refl, refl)
restore_json_value-hide (json_string []) o = (refl, refl)
restore_json_value-hide (json_string (c ∷ s)) o = (refl, ground arith)
restore_json_value-hide (json_other s) o = ground arith
restore_json_value-hide (json_object []) o =
    (unfold restore_members in refl, unfold restore_members in refl)
restore_json_value-hide (json_object ((k, v) ∷ m)) o =
    let members = (k, v) ∷ m in
    (
      ap json_object (
          restore_members-Alike members (map_values masked_member members) members
            (map_values-Alike members) o (λ i x e. e)),
      ap json_object
          (restore_members-Alike members members members (self-Alike members) o (λ i x e. e)),
    )

abbrev pub hide_found : Option JsonValue → Option JsonValue
hide_found none = none
hide_found (some v) = some (hide v)

map_values_twice :
    (m : Assoc Text Member)
    → map_values masked_member (map_values masked_member m) ≡ map_values masked_member m
unfolding map_values
map_values_twice [] = refl
map_values_twice ((k, v) ∷ m) = ap (◌∷◌ (k, masked_member v)) (map_values_twice m)

pub hide_twice : (v : JsonValue) → hide (hide v) ≡ hide v
unfolding mask_json_value
hide_twice json_null = refl
hide_twice (json_string []) = refl
hide_twice (json_string (c ∷ s)) = refl
hide_twice (json_other s) = elim (Bool-cases (text_eq s (codes "[]"))) [
  | inl empty ↦ rw (empty, empty) refl
  | inr other ↦ rw other refl
]
hide_twice (json_object []) = refl
hide_twice (json_object ((k, v) ∷ m)) =
    unfold map_values in ap json_object (map_values_twice ((k, v) ∷ m))
