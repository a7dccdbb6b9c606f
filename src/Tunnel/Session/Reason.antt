-- ===== src/Tunnel/Session/Reason.antt =====
-- The text of a close reason.
use beamd.Prelude.{
  ℕ, zero, suc, ◌≤◌, ◌≡◌, refl, true, Bytes, [], ◌∷◌, arith, leb, leb→le, length, take, Bool-cases,
  inl, inr, length-take-le, if_split, if◌then◌else◌,
}
use beamd.Tunnel.Session.{Utf8, trim, sanitize_reason}

-- The text is valid, and it has at most `n` bytes.
abbrev pub Fits : Utf8 → ℕ → Bytes → Type 0
Fits utf8 n t = (utf8.valid_string t ≡ true) × (length t ≤ n)

le→leb : (a b : ℕ) → a ≤ b → leb a b ≡ true
le→leb a b h = ground arith

module _ (utf8 : Utf8) (empty_valid : utf8.valid_string [] ≡ true) where
  empty-Fits : (t : Bytes) → length t ≤ 0 → Fits utf8 0 t
  empty-Fits [] h = (empty_valid, h)
  empty-Fits (b ∷ t) h = ground (arith)

  trim-Fits : (n : ℕ) (t : Bytes) → length t ≤ n → Fits utf8 n (trim utf8 n t)
  unfolding trim
  trim-Fits zero t fits = empty-Fits t fits
  trim-Fits (suc n) t fits = elim (Bool-cases (utf8.valid_string t)) [
    | inl ok ↦ ground (arith)
    | inr bad ↦ ground (arith, trim-Fits n (take n t) (length-take-le n t))
  ]

  kept :
      (t : Bytes)
      → utf8.valid_string t ≡ true
      → leb (length t) 256 ≡ true
      → sanitize_reason utf8 t ≡ t
  unfolding sanitize_reason
  kept t valid short = rw valid (rw short refl)

  -- Where the empty text and what comes out of []rune are valid, a sanitized reason is valid UTF-8 of
  -- at most 256 bytes, and a reason that already was one is kept as it is.
  pub sanitize_reason-Fits :
      ((t : Bytes) → utf8.valid_string (utf8.through_runes t) ≡ true)
      → (reason : Bytes)
      → Fits utf8 256 (sanitize_reason utf8 reason)
        × (Fits utf8 256 reason → sanitize_reason utf8 reason ≡ reason)
  unfolding sanitize_reason
  sanitize_reason-Fits repairs reason = (
    if_split (Fits utf8 256) (leb (length text) 256)
        (λ short. (text_valid, leb→le (length text) 256 short))
        (λ long. trim-Fits 256 (take 256 text) (length-take-le 256 text)),
    λ ok. kept reason (ok.0) (le→leb (length reason) 256 (ok.1)),
  )
    where
      text : Bytes
      text = if utf8.valid_string reason then reason else utf8.through_runes reason

      text_valid : utf8.valid_string text ≡ true
      text_valid =
          if_split (λ (t : Bytes). utf8.valid_string t ≡ true) (utf8.valid_string reason) (λ h. h)
            (λ h. repairs reason)
