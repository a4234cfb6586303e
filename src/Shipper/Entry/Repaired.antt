-- ===== src/Shipper/Entry/Repaired.antt =====
-- The texts of an entry are valid UTF-8 (pkg/logshipper/handler.go).
use taillight.Base.{
  ℕ, zero, suc, ◌-◌, ◌<◌, ◌≡◌, refl, true, leb, ℤ, Text, [], ◌∷◌, length, take, drop, arith,
  Bool-cases, inl, inr, ◌⊎◌,
}
use taillight.Base.Utf8.{
  utf8_from, is_valid_utf8, rune_start, byte_at, IsTail, take-valid, append-valid, drop-IsTail,
  continuation, utf8_follow, utf8_lead, lead-Continues,
}
use taillight.Shipper.Entry.{
  EntrySettings, back_to_rune, cut_message, skip_to_rune, truncate_msg, shorten_source,
  level_string, truncation_suffix, source_cut_prefix, max_msg_bytes, max_source_bytes,
}
use taillight.Shipper.Entry.Limits.{back_to_rune_le}

back_to_rune-start :
    (msg : Text) (cut : ℕ)
    → (back_to_rune msg cut ≡ 0) ⊎ (rune_start (byte_at (back_to_rune msg cut) msg) ≡ true)
unfolding back_to_rune
back_to_rune-start msg zero = inl refl
back_to_rune-start msg (suc cut) = elim (Bool-cases (rune_start (byte_at (suc cut) msg))) [
  | inl start ↦ rw (start, back_to_rune) (inr start)
  | inr inner ↦ rw (inner, back_to_rune) (back_to_rune-start msg cut)
]

suffix-valid : is_valid_utf8 truncation_suffix ≡ true
unfolding utf8_from
suffix-valid = refl

prefix-valid : is_valid_utf8 source_cut_prefix ≡ true
unfolding utf8_from
prefix-valid = refl

pub level_string-valid : (l : ℤ) → is_valid_utf8 (level_string l) ≡ true
unfolding level_string utf8_from
level_string-valid l = ground arith

cut_message-valid :
    (cut : ℕ) (msg : Text)
    → is_valid_utf8 msg ≡ true
    → cut < length msg
    → is_valid_utf8 (cut_message cut msg) ≡ true
unfolding cut_message
cut_message-valid cut msg valid inside =
    append-valid (take (back_to_rune msg cut) msg) truncation_suffix
      (elim (back_to_rune-start msg cut) [
        | inl none_left ↦ rw none_left (unfold utf8_from in refl)
        | inr start ↦
            take-valid (back_to_rune msg cut) msg valid (omega (arith, back_to_rune_le msg cut))
              start
      ])
      suffix-valid

skip_to_rune-valid : (s : Text) → IsTail s → is_valid_utf8 (skip_to_rune s) ≡ true
unfolding skip_to_rune utf8_from
skip_to_rune-valid [] tail = refl
skip_to_rune-valid (b ∷ s) (zero, lo, hi, within, valid) = elim (Bool-cases (rune_start b)) [
  | inl start ↦ rw (start, skip_to_rune) valid
  | inr inner ↦
      let (k, l, h, good, rest) = utf8_lead lo hi b s valid in
      rw (inner, skip_to_rune) (skip_to_rune-valid s (k, l, h, lead-Continues b k l h good, rest))
]
skip_to_rune-valid (b ∷ s) (suc k, lo, hi, within, valid) =
    let (low, high, rest) = utf8_follow k lo hi b s valid in
    rw (continuation lo hi b within low high, skip_to_rune)
      (skip_to_rune-valid s (k, 0x80, 0xBF, (omega arith, omega arith), rest))

module _ (c : EntrySettings) (repairs : (s : Text) → is_valid_utf8 (c.to_valid_utf8 s) ≡ true) where
  pub truncate_msg-valid : (msg : Text) → is_valid_utf8 (truncate_msg c msg) ≡ true
  unfolding truncate_msg
  truncate_msg-valid msg = elim (Bool-cases (leb (length (c.to_valid_utf8 msg)) max_msg_bytes)) [
    | inl short ↦ rw (short, truncate_msg) (repairs msg)
    | inr long ↦
        rw (long, truncate_msg)
          (cut_message-valid 65522 (c.to_valid_utf8 msg) (repairs msg) (ground arith))
  ]

  pub shorten_source-valid : (source : Text) → is_valid_utf8 (shorten_source c source) ≡ true
  unfolding shorten_source
  shorten_source-valid source =
      let valid = c.to_valid_utf8 source in
      let cut = length valid - (max_source_bytes - length source_cut_prefix) in
      elim (Bool-cases (leb (length valid) max_source_bytes)) [
        | inl short ↦ rw (short, shorten_source) (repairs source)
        | inr long ↦
            rw (long, shorten_source)
              (append-valid source_cut_prefix (skip_to_rune (drop cut valid)) prefix-valid (
                skip_to_rune-valid (drop cut valid)
                  (drop-IsTail cut valid (repairs source) (omega arith))))
      ]
