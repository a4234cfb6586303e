-- ===== src/Base/Assoc.antt =====
-- Go maps as association lists with an equality on the keys. `insert` writes in place or appends,
-- `delete` drops the first entry of the key; with distinct keys that is the map's behaviour.
use taillight.Base.Tests.{if◌then◌else◌, Bool-cases, ==_iff, ◌==◌ as nat_beq}
use taillight.Base.Bytes.{text_eq, text_eq_iff}
use Prim.Native.Nat.{ℕ, ◌+◌, ◌<◌}
use mathlib.Core.Path.{◌≡◌, refl, subst}
use mathlib.Core.Logic.{◌↔◌, inl, inr}
use mathlib.Core.Bool.{Bool, true, false}
use mathlib.Core.List.{List, [], ◌∷◌}
use mathlib.Core.Option
use mathlib.Core.Option.{Option, none, some}
use native.Mathlib.Omega.{arith}

pub record Eq {ℓ} (A : Type ℓ) : Type ℓ where
  pub beq : A → A → Bool
  pub beq_iff : (a b : A) → (beq a b ≡ true) ↔ (a ≡ b)

instance abbrev pub nat_eq : Eq ℕ
nat_eq = record { beq = nat_beq; beq_iff = ==_iff }

instance abbrev pub text_eq_keys : Eq (List ℕ)
text_eq_keys = record { beq = text_eq; beq_iff = text_eq_iff }

abbrev pub Assoc {ℓ κ} : Type ℓ → Type κ → Type (ℓ ⊔ κ)
Assoc K V = List (K × V)

-- The weight of what a lookup found.
abbrev pub weigh {κ} : {V : Type κ} → (V → ℕ) → Option V → ℕ
weigh w none = 0
weigh w (some v) = w v

-- The sum of a weight over all entries: with weight 1 it is the number of keys.
unfoldable pub total {ℓ κ} : {K : Type ℓ} {V : Type κ} → (V → ℕ) → Assoc K V → ℕ
total w [] = 0
total w ((k, v) ∷ m) = w v + total w m

module _ {ℓ κ} {K : Type ℓ} {V : Type κ} ⦃e : Eq K⦄ where
  unfoldable pub lookup : K → Assoc K V → Option V
  lookup k [] = none
  lookup k ((j, v) ∷ m) = if e.beq j k then some v else lookup k m

  unfoldable pub insert : K → V → Assoc K V → Assoc K V
  insert k v [] = (k, v) ∷ []
  insert k v ((j, w) ∷ m) = if e.beq j k then (k, v) ∷ m else (j, w) ∷ insert k v m

  unfoldable pub delete : K → Assoc K V → Assoc K V
  delete k [] = []
  delete k ((j, w) ∷ m) = if e.beq j k then m else (j, w) ∷ delete k m

  -- No key stands twice.
  abbrev pub Distinct : Assoc K V → Type κ
  Distinct [] = Unit
  Distinct ((k, v) ∷ m) = (lookup k m ≡ none) × Distinct m

  pub lookup-insert :
      (k j : K) (v : V) (m : Assoc K V)
      → lookup j (insert k v m) ≡ (if e.beq k j then some v else lookup j m)
  unfolding lookup insert
  lookup-insert k j v [] = refl
  lookup-insert k j v ((i, w) ∷ m) =
      ground (arith, e.beq_iff k j, e.beq_iff i k, e.beq_iff i j, lookup-insert k j v m)

  pub lookup-insert_self : (k : K) (v : V) (m : Assoc K V) → lookup k (insert k v m) ≡ some v
  lookup-insert_self k v m = rw (lookup-insert k k v m, (e.beq_iff k k).1 refl) refl

  pub lookup-delete_ne :
      (k j : K) (m : Assoc K V) → e.beq k j ≡ false → lookup j (delete k m) ≡ lookup j m
  unfolding lookup delete
  lookup-delete_ne k j [] h = refl
  lookup-delete_ne k j ((i, w) ∷ m) h =
      ground (arith, e.beq_iff k j, e.beq_iff i k, e.beq_iff i j, lookup-delete_ne k j m h)

  pub lookup-delete_self : (k : K) (m : Assoc K V) → Distinct m → lookup k (delete k m) ≡ none
  unfolding lookup delete
  lookup-delete_self k [] d = refl
  lookup-delete_self k ((i, w) ∷ m) d = ground (arith, e.beq_iff i k, lookup-delete_self k m d.1)

  pub insert-Distinct : (k : K) (v : V) (m : Assoc K V) → Distinct m → Distinct (insert k v m)
  unfolding insert lookup
  insert-Distinct k v [] d = ground arith
  insert-Distinct k v ((i, w) ∷ m) d =
      ground (arith, e.beq_iff i k, e.beq_iff k i, lookup-insert k i v m, insert-Distinct k v m d.1)

  lookup-delete-none : (k j : K) (m : Assoc K V) → lookup j m ≡ none → lookup j (delete k m) ≡ none
  unfolding lookup delete
  lookup-delete-none k j [] h = refl
  lookup-delete-none k j ((i, w) ∷ m) h =
      ground (arith, e.beq_iff i k, e.beq_iff i j, lookup-delete-none k j m)

  pub delete-Distinct : (k : K) (m : Assoc K V) → Distinct m → Distinct (delete k m)
  unfolding delete
  delete-Distinct k [] d = d
  delete-Distinct k ((i, w) ∷ m) d =
      ground (arith, e.beq_iff i k, lookup-delete-none k i m d.0, delete-Distinct k m d.1)

  -- A write adds the new weight and takes the old one away.
  pub total-insert :
      (w : V → ℕ) (k : K) (v : V) (m : Assoc K V)
      → total w (insert k v m) + weigh w (lookup k m) ≡ total w m + w v
  unfolding total lookup insert
  total-insert w k v [] = omega arith
  total-insert w k v ((i, x) ∷ m) = ground (arith, total-insert w k v m)

  pub total-delete :
      (w : V → ℕ) (k : K) (m : Assoc K V) → total w (delete k m) + weigh w (lookup k m) ≡ total w m
  unfolding total lookup delete
  total-delete w k [] = omega arith
  total-delete w k ((i, x) ∷ m) = ground (arith, total-delete w k m)

-- A predicate on every entry.
abbrev pub Every {ℓ κ ι} : {K : Type ℓ} {V : Type κ} → (K → V → Type ι) → Assoc K V → Type ι
Every P [] = Unit
Every P ((k, v) ∷ m) = P k v × Every P m

module _ {ℓ κ ι} {K : Type ℓ} {V : Type κ} ⦃e : Eq K⦄ (P : K → V → Type ι) where
  pub insert-Every : (k : K) (v : V) (m : Assoc K V) → P k v → Every P m → Every P (insert k v m)
  unfolding insert
  insert-Every k v [] p h = (p, tt)
  insert-Every k v ((i, w) ∷ m) p h = elim (Bool-cases (e.beq i k)) [
    | inl q ↦ rw q (p, h.1)
    | inr q ↦ rw q (h.0, insert-Every k v m p h.1)
  ]

  pub delete-Every : (k : K) (m : Assoc K V) → Every P m → Every P (delete k m)
  unfolding delete
  delete-Every k [] h = tt
  delete-Every k ((i, w) ∷ m) h = elim (Bool-cases (e.beq i k)) [
    | inl q ↦ rw q h.1
    | inr q ↦ rw q (h.0, delete-Every k m h.1)
  ]

  pub lookup-Every : (k : K) (v : V) (m : Assoc K V) → Every P m → lookup k m ≡ some v → P k v
  unfolding lookup
  lookup-Every k v [] h q = cc
  lookup-Every k v ((i, w) ∷ m) h q = elim (Bool-cases (e.beq i k)) [
    | inl hit ↦ subst (P k) (ground arith) (subst (λ x. P x w) ((e.beq_iff i k).0 hit) h.0)
    | inr miss ↦ lookup-Every k v m h.1 (rw miss at q)
  ]

-- What every entry has, a derived property of every entry.
pub Every-map {ℓ κ ι μ} :
    {K : Type ℓ} {V : Type κ} {P : K → V → Type ι} {Q : K → V → Type μ}
    (f : (k : K) (v : V) → P k v → Q k v) (m : Assoc K V)
    → Every P m
    → Every Q m
Every-map f [] h = tt
Every-map f ((k, v) ∷ m) h = (f k v h.0, Every-map f m h.1)

-- Keys below a bound: the bound itself is a fresh key.
pub lookup_fresh {κ} :
    {V : Type κ} (n : ℕ) (m : Assoc ℕ V) → Every (λ k _. k < n) m → lookup n m ≡ none
unfolding lookup
lookup_fresh n [] h = refl
lookup_fresh n ((k, v) ∷ m) h = ground (arith, lookup_fresh n m)

-- The same keys with new values.
unfoldable pub map_values {ℓ κ ι} :
    {K : Type ℓ} {V : Type κ} {W : Type ι} → (V → W) → Assoc K V → Assoc K W
map_values f [] = []
map_values f ((k, v) ∷ m) = (k, f v) ∷ map_values f m

module _ {ℓ κ ι} {K : Type ℓ} {V : Type κ} {W : Type ι} (f : V → W) where
  pub total-map_values :
      (w : W → ℕ) (m : Assoc K V) → total w (map_values f m) ≡ total (λ v. w (f v)) m
  unfolding total map_values
  total-map_values w [] = refl
  total-map_values w ((k, v) ∷ m) = omega (arith, total-map_values w m)

  pub map_values-Every {μ ν} :
      {P : K → V → Type μ} (Q : K → W → Type ν) (g : (k : K) (v : V) → P k v → Q k (f v))
      (m : Assoc K V)
      → Every P m
      → Every Q (map_values f m)
  unfolding map_values
  map_values-Every Q g [] h = tt
  map_values-Every Q g ((k, v) ∷ m) h = (g k v h.0, map_values-Every Q g m h.1)

module _ {ℓ κ ι} {K : Type ℓ} {V : Type κ} {W : Type ι} ⦃e : Eq K⦄ (f : V → W) where
  pub lookup-map_values :
      (k : K) (m : Assoc K V) → lookup k (map_values f m) ≡ Option.map f (lookup k m)
  unfolding lookup map_values
  lookup-map_values k [] = refl
  lookup-map_values k ((j, v) ∷ m) = elim (Bool-cases (e.beq j k)) [
    | inl q ↦ rw q refl
    | inr q ↦ rw q (lookup-map_values k m)
  ]

  pub map_values-Distinct : (m : Assoc K V) → Distinct m → Distinct (map_values f m)
  unfolding map_values
  map_values-Distinct [] d = tt
  map_values-Distinct ((k, v) ∷ m) d =
      (rw (lookup-map_values k m, d.0) refl, map_values-Distinct m d.1)
