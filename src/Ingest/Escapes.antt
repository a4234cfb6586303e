-- ===== src/Ingest/Escapes.antt =====
-- The NUL escapes of attributes (api/internal/handler/applog_ingest.go).
use taillight.Base.{
  ℕ, ◌≡◌, refl, sym, Bool, true, false, not, ◌&&◌, ◌||◌, ◌==◌, Text, codes, [], ◌∷◌, ◌++◌, length,
  drop, contains_byte, subst, arith, Bool-cases, inl, inr, ◌⊎◌,
}
use taillight.Model.Filter.{has_prefix}
use taillight.Ingest.{scan_escapes, replace_nul_escapes}

-- A backslash that no backslash escapes, before the code of NUL.
abbrev pub has_nul_escape : Bool → Text → Bool
has_nul_escape escaped [] = false
has_nul_escape escaped (b ∷ raw) =
    let starts = not escaped && b == b'\\' in
    let later = has_nul_escape starts raw in (starts && has_prefix raw (codes "u0000")) || later

has_prefix-append : (s p : Text) → has_prefix s p ≡ true → s ≡ p ++ drop (length p) s
unfolding has_prefix
has_prefix-append s [] h = refl
has_prefix-append [] (x ∷ p) h = cc
has_prefix-append (y ∷ s) (x ∷ p) h = ground (arith, has_prefix-append s p)

-- A scan begins as the text does, at a byte that is no backslash.
scan-head :
    (b : ℕ) (s : Text)
    → (b == b'\\') ≡ false
    → scan_escapes false (b ∷ s) ≡ b ∷ scan_escapes false s
unfolding scan_escapes
scan-head b s plain = rw plain refl

scan-slash : (s : Text) → (t : Text) × (scan_escapes false (b'\\' ∷ s) ≡ b'\\' ∷ t)
unfolding scan_escapes
scan-slash s = elim (Bool-cases (has_prefix s (codes "u0000"))) [
  | inl live ↦ (codes "ufffd" ++ drop 5 (scan_escapes true s), rw live refl)
  | inr other ↦ (scan_escapes true s, rw other refl)
]

-- The scan keeps a prefix without a backslash.
has_prefix-scan :
    (s p : Text)
    → contains_byte b'\\' p ≡ false
    → has_prefix (scan_escapes false s) p ≡ has_prefix s p
unfolding has_prefix scan_escapes contains_byte
has_prefix-scan s [] h = refl
has_prefix-scan [] (x ∷ p) h = refl
has_prefix-scan (b ∷ s) (x ∷ p) h = elim (Bool-cases (b == b'\\')) [
  | inl slash ↦
      let same : b ≡ b'\\' = ground arith in
      let (t, scanned) = scan-slash s in rw (same, scanned) (ground arith)
  | inr plain ↦ rw (scan-head b s plain) (ground (arith, has_prefix-scan s p))
]

-- The scan has the length of the text and no live escape of NUL.
abbrev Clean : Bool → Text → Type 0
Clean escaped s =
    (length (scan_escapes escaped s) ≡ length s)
    × (has_nul_escape escaped (scan_escapes escaped s) ≡ false)

replaced-Clean : (s ys : Text) → s ≡ codes "u0000" ++ ys → Clean true s → Clean false (b'\\' ∷ s)
unfolding scan_escapes has_prefix
replaced-Clean s ys e h =
    subst (λ t. Clean true t → Clean false (b'\\' ∷ t)) (sym e)
      (λ (size, clean). (omega (arith, size), clean)) h

kept-Clean :
    (s : Text) → has_prefix s (codes "u0000") ≡ false → Clean true s → Clean false (b'\\' ∷ s)
unfolding scan_escapes has_prefix contains_byte
kept-Clean [] other h = (refl, refl)
kept-Clean (b ∷ s) other (size, clean) =
    rw (other, scan_escapes)
      (omega (arith, size), ground (arith, has_prefix-scan s (codes "0000") refl))

scan-Clean : (escaped : Bool) (s : Text) → Clean escaped s
unfolding scan_escapes
scan-Clean escaped [] = (refl, refl)
scan-Clean true (b ∷ s) = ground (arith, scan-Clean false s)
scan-Clean false (b ∷ s) = elim (Bool-cases (b == b'\\')) [
  | inl slash ↦
      let same : b ≡ b'\\' = ground arith in
      elim (Bool-cases (has_prefix s (codes "u0000"))) [
        | inl live ↦ rw same (
            replaced-Clean s (drop 5 s) (has_prefix-append s (codes "u0000") live)
              (scan-Clean true s))
        | inr other ↦ rw same (kept-Clean s other (scan-Clean true s))
      ]
  | inr plain ↦ rw (scan-head b s plain) (ground (arith, scan-Clean false s))
]

scan_same :
    (escaped : Bool) (s : Text) → has_nul_escape escaped s ≡ false → scan_escapes escaped s ≡ s
unfolding scan_escapes
scan_same escaped [] h = refl
scan_same escaped (b ∷ s) h = ground (arith, scan_same (not escaped && b == b'\\') s)

-- The attributes that are stored have the length of those that were sent and no NUL escape but behind
-- an escaped backslash, and they are those that were sent if these had none.
pub replace_nul_escapes_cleans :
    (raw : Text)
    → (length (replace_nul_escapes raw) ≡ length raw)
      × (has_nul_escape false (replace_nul_escapes raw) ≡ false)
      × ((has_nul_escape false raw ≡ true) ⊎ (replace_nul_escapes raw ≡ raw))
unfolding replace_nul_escapes
replace_nul_escapes_cleans raw =
    let (size, clean) = scan-Clean false raw in
    (
      size,
      clean,
      elim (Bool-cases (has_nul_escape false raw)) [
        | inl live ↦ inl live
        | inr absent ↦ inr (scan_same false raw absent)
      ],
    )
