-- ===== src/Shipper/Entry/Limits.antt =====
-- The sizes of an entry (pkg/logshipper/handler.go).
use taillight.Base.{
  ℕ, zero, suc, ◌+◌, ◌-◌, ◌≤◌, ◌≡◌, refl, false, leb, Text, is_empty, [], ◌∷◌, ◌++◌, length,
  length-append, length-take, take, drop, arith, Bool-cases, inl, inr,
}
use taillight.Shipper.Entry.{
  EntrySettings, back_to_rune, cut_message, skip_to_rune, truncate_msg, shorten_source,
  truncation_suffix, source_cut_prefix, max_msg_bytes, max_source_bytes,
}

pub back_to_rune_le : (msg : Text) (cut : ℕ) → back_to_rune msg cut ≤ cut
unfolding back_to_rune
back_to_rune_le msg zero = omega arith
back_to_rune_le msg (suc cut) = ground (arith, back_to_rune_le msg cut)

skip_to_rune_le : (s : Text) → length (skip_to_rune s) ≤ length s
unfolding skip_to_rune
skip_to_rune_le [] = omega arith
skip_to_rune_le (b ∷ rest) = ground (arith, skip_to_rune_le rest)

length-drop : (n : ℕ) (s : Text) → length (drop n s) ≡ length s - n
length-drop zero s = omega arith
length-drop (suc n) [] = omega arith
length-drop (suc n) (b ∷ s) = omega (arith, length-drop n s)

is_empty-append : (s : Text) → is_empty (s ++ truncation_suffix) ≡ false
is_empty-append [] = refl
is_empty-append (b ∷ s) = refl

length-cut_message : (cut : ℕ) (msg : Text) → length (cut_message cut msg) ≤ cut + 14
unfolding cut_message
length-cut_message cut msg = omega (
  arith,
  length-append (take (back_to_rune msg cut) msg) truncation_suffix,
  length-take (back_to_rune msg cut) msg,
  back_to_rune_le msg cut,
)

cut_message-is_empty : (cut : ℕ) (msg : Text) → is_empty (cut_message cut msg) ≡ false
unfolding cut_message
cut_message-is_empty cut msg = is_empty-append (take (back_to_rune msg cut) msg)

module _ (c : EntrySettings) where
  pub truncate_msg_le : (msg : Text) → length (truncate_msg c msg) ≤ max_msg_bytes
  unfolding truncate_msg
  truncate_msg_le msg = elim (Bool-cases (leb (length (c.to_valid_utf8 msg)) max_msg_bytes)) [
    | inl short ↦ rw (short, truncate_msg) (ground arith)
    | inr long ↦
        rw (long, truncate_msg) (omega (arith, length-cut_message 65522 (c.to_valid_utf8 msg)))
  ]

  pub shorten_source_le : (source : Text) → length (shorten_source c source) ≤ max_source_bytes
  unfolding shorten_source
  shorten_source_le source =
      let valid = c.to_valid_utf8 source in
      let cut = length valid - (max_source_bytes - length source_cut_prefix) in
      elim (Bool-cases (leb (length valid) max_source_bytes)) [
        | inl short ↦ rw (short, shorten_source) (ground arith)
        | inr long ↦
            rw (long, shorten_source)
              (omega (arith, skip_to_rune_le (drop cut valid), length-drop cut valid))
      ]

  pub truncate_msg_kept :
      (msg : Text) → is_empty (c.to_valid_utf8 msg) ≡ false → is_empty (truncate_msg c msg) ≡ false
  unfolding truncate_msg
  truncate_msg_kept msg some_bytes =
      elim (Bool-cases (leb (length (c.to_valid_utf8 msg)) max_msg_bytes)) [
        | inl short ↦ rw (short, truncate_msg) some_bytes
        | inr long ↦ rw (long, truncate_msg) (cut_message-is_empty 65522 (c.to_valid_utf8 msg))
      ]
