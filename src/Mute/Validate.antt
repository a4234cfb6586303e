-- ===== src/Mute/Validate.antt =====
-- Which mute rules and durations are accepted: api/internal/mute/rule.go.
use taillight.Base.{
  ℕ, ◌+◌, ◌*◌, ◌≤◌, ◌<◌, ◌≡◌, refl, Bool, true, false, not, ◌&&◌, ◌||◌, if◌then◌else◌, ltb, ◌==◌, ℤ,
  pos, pos_part, ltb_ℤ, eq_ℤ, ◌≤ℤ◌, Text, codes, text_eq, text_eq_iff, is_empty, contains_byte,
  List, [], ◌∷◌, Option, none, some, length, All, arith, ◌⊎◌, ◌↔◌, ◌≢◌, reverse, inl, inr,
  Option-cases,
}
use taillight.Model.Unicode.{Unicode}
use taillight.Mute.{Rule, feed_netlog, feed_srvlog}

-- In nanoseconds.
abbrev pub default_duration : ℕ
default_duration = 24 * 3600 * 1000000000

abbrev pub max_duration : ℕ
max_duration = 7 * 24 * 3600 * 1000000000

abbrev pub max_field_len : ℕ
max_field_len = 500

-- ExpiresAt; `none` is the error. The duration is an int64 of milliseconds.
unfoldable pub expires_at : ℕ → ℤ → Option ℕ
expires_at now duration_ms =
    if eq_ℤ duration_ms (pos 0)
    then some (now + default_duration)
    else if ltb_ℤ duration_ms (pos 0) || ltb_ℤ (pos 604800000) duration_ms
    then none
    else some (now + pos_part duration_ms * 1000000)

expires_at_accepts :
    (now : ℕ) (duration_ms : ℤ)
    → expires_at now duration_ms ≢ none
    → (pos 0 ≤ℤ duration_ms) × (duration_ms ≤ℤ pos 604800000)
unfolding expires_at
expires_at_accepts now duration_ms h = (ground arith, ground arith)

expires_at_refuses :
    (now : ℕ) (duration_ms : ℤ)
    → (pos 0 ≤ℤ duration_ms) × (duration_ms ≤ℤ pos 604800000)
    → expires_at now duration_ms ≢ none
unfolding expires_at
expires_at_refuses now duration_ms h eq = ground arith

expires_at_bounds :
    (now : ℕ) (duration_ms : ℤ) (t : ℕ)
    → expires_at now duration_ms ≡ some t
    → (now < t) × (t ≤ now + max_duration)
unfolding expires_at
expires_at_bounds now duration_ms t h = ground arith

-- Exactly the durations from 0 to seven days, in milliseconds, are accepted, and an accepted one
-- gives an expiry after now and at most seven days from it.
pub expires_at_bounded :
    (now : ℕ) (duration_ms : ℤ)
    → ((expires_at now duration_ms ≢ none)
        ↔ ((pos 0 ≤ℤ duration_ms) × (duration_ms ≤ℤ pos 604800000)))
      × ((expires_at now duration_ms ≡ none)
          ⊎ ((t : ℕ) × (expires_at now duration_ms ≡ some t)
              × (now < t)
              × (t ≤ now + max_duration)))
expires_at_bounded now duration_ms = (
  (expires_at_accepts now duration_ms, expires_at_refuses now duration_ms),
  elim (Option-cases (expires_at now duration_ms)) [
    | inl refused ↦ inl refused
    | inr (t, found) ↦
        let (later, soon) = expires_at_bounds now duration_ms t found in inr (t, found, later, soon)
  ],
)

pub data ValidationError : Type 0 where
  err_feed err_no_match_field err_no_reason : ValidationError
  err_too_long err_nul : Text → ValidationError

-- strings.Trim with the cutset "*".
unfoldable pub trim_stars_left : Text → Text
trim_stars_left [] = []
trim_stars_left (c ∷ s) = if c == b'*' then trim_stars_left s else c ∷ s

abbrev pub trim_stars : Text → Text
trim_stars s = reverse (trim_stars_left (reverse (trim_stars_left s)))

-- The loop over the named fields.
check_fields : List (Text × Text) → Option ValidationError
check_fields [] = none
check_fields ((name, value) ∷ fields) =
    let rest = check_fields fields in
    if ltb max_field_len (length value)
    then some (err_too_long name)
    else if contains_byte 0 value
    then some (err_nul name)
    else rest

-- At most 500 bytes and no NUL byte.
abbrev pub IsStorable : Text → Type 0
IsStorable value = (length value ≤ 500) × (contains_byte 0 value ≡ false)

abbrev pub AllStorable : List (Text × Text) → Type 0
AllStorable fields = All (λ f. IsStorable f.1) fields

check_fields_accepts :
    (fields : List (Text × Text)) → (check_fields fields ≡ none) → AllStorable fields
unfolding check_fields
check_fields_accepts [] h = tt
check_fields_accepts ((name, value) ∷ fields) h = ground (arith, check_fields_accepts fields)

check_fields_passes :
    (fields : List (Text × Text)) → AllStorable fields → check_fields fields ≡ none
unfolding check_fields
check_fields_passes [] h = refl
check_fields_passes ((name, value) ∷ fields) h = ground (arith, check_fields_passes fields)

abbrev pub fields_of : Rule → List (Text × Text)
fields_of r =
    (codes "hostname", r.hostname)
    ∷ (codes "programname", r.programname)
    ∷ (codes "search", r.search)
    ∷ (codes "reason", r.reason)
    ∷ []

module _ (u : Unicode) where
  open u use {trim_space}

  abbrev pub host_set : Rule → Bool
  host_set r = not (is_empty (trim_stars (trim_space r.hostname)))

  -- `none` is no error.
  unfoldable pub validate : Rule → Option ValidationError
  unfolding check_fields
  validate r =
      if not (text_eq r.feed feed_netlog || text_eq r.feed feed_srvlog)
      then some err_feed
      else if not (host_set r)
          && is_empty (trim_space r.programname)
          && is_empty (trim_space r.search)
      then some err_no_match_field
      else elim (check_fields (fields_of r)) [
        | some err ↦ some err
        | none ↦ if is_empty (trim_space r.reason) then some err_no_reason else none
      ]

  abbrev pub IsBlank : Text → Type 0
  IsBlank s = is_empty (trim_space s) ≡ true

  -- A mute rule passes exactly if its feed is one of the two, it has a match field that is
  -- not blank (a hostname of stars alone does not count), every text is at most 500 bytes
  -- without a NUL byte, and it gives a reason that is not blank.
  pub validate_accepts :
      (r : Rule)
      → (validate r ≡ none) ↔ (
          ((r.feed ≡ feed_netlog) ⊎ (r.feed ≡ feed_srvlog))
          × ((host_set r ≡ true) ⊎ (¬ IsBlank r.programname) ⊎ (¬ IsBlank r.search))
          × AllStorable (fields_of r)
          × (¬ IsBlank r.reason))
  unfolding validate
  validate_accepts r = (
    λ h. ground (
      arith,
      text_eq_iff r.feed feed_netlog,
      text_eq_iff r.feed feed_srvlog,
      check_fields_accepts (fields_of r),
    ),
    λ h. ground (
      arith,
      text_eq_iff r.feed feed_netlog,
      text_eq_iff r.feed feed_srvlog,
      check_fields_passes (fields_of r),
    ),
  )
