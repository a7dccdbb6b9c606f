-- ===== src/Naming/Derive/Valid.antt =====
-- Sanitized and derived labels pass the validator of tunnel names.
use beamd.Prelude.{
  ℕ, ◌+◌, ◌-◌, ◌≤◌, ◌<◌, ◌∙◌, sym, not, suc, ◌≡◌, refl, ap, ◌≢◌, ◌⊎◌, inl, inr, Bool, true, ◌&&◌,
  ◌||◌, List, [], ◌∷◌, ◌++◌, map, Option, none, some, arith, Bytes, is_empty, leb, leb→le, ltb,
  ltb→lt, lt→ltb, ◌/◌, ◌%◌, ◌^◌, ◌==◌, nat_eq, list_eq, if◌then◌else◌, length, take, length-append,
  length-take-le, all, All, All-append, ends_with, Bool-cases,
}
use native.Mathlib.Nat.{pow-suc}
use beamd.Prelude.Int.{pos}
use beamd.Naming.{digits_from, label_from_port, is_alnum, is_label_byte, validate_label}
use beamd.Naming.RoundTrip.{IsLabelByte, All-map-imp, slug_byte}
use beamd.Naming.Derive.{
  collapse, trim_left, trim_right, clean_rune, truncate_label, sanitize, checked, ok, DeriveError,
  combined_label, worktree_label, derive_label,
}

-- A hex digit in lower case.
abbrev pub is_hex : ℕ → Bool
is_hex c = (leb b'0' c && leb c b'9') || (leb b'a' c && leb c b'f')

-- What hex.EncodeToString of a SHA-256 sum is.
pub record IsHexDigest (hex_digest : Bytes → Bytes) : Type 0 where
  pub hex : (s : Bytes) → All (λ c. is_hex c ≡ true) (hex_digest s)
  pub full : (s : Bytes) → length (hex_digest s) ≡ 64

clean_rune_label : (r : ℕ) → IsLabelByte (clean_rune r)
unfolding clean_rune
clean_rune_label r = ground arith

map_clean : (s : List ℕ) → All IsLabelByte (map clean_rune s)
map_clean [] = tt
map_clean (r ∷ s) = (clean_rune_label r, map_clean s)

All-collapse : (s : Bytes) → All IsLabelByte s → All IsLabelByte (collapse s)
unfolding collapse
All-collapse [] h = tt
All-collapse (c ∷ []) h = h
All-collapse (c ∷ d ∷ s) h = ground (arith, All-collapse (d ∷ s) h.1)

All-trim_left : (s : Bytes) → All IsLabelByte s → All IsLabelByte (trim_left s)
unfolding trim_left
All-trim_left [] h = tt
All-trim_left (c ∷ s) h = ground (arith, All-trim_left s h.1)

All-trim_right : (s : Bytes) → All IsLabelByte s → All IsLabelByte (trim_right s)
unfolding trim_right
All-trim_right [] h = tt
All-trim_right (c ∷ s) h = ground (arith, All-trim_right s h.1)

All-take : (n : ℕ) (s : Bytes) → All IsLabelByte s → All IsLabelByte (take n s)
All-take ℕ.zero s h = tt
All-take (suc n) [] h = tt
All-take (suc n) (c ∷ s) h = (h.0, All-take n s h.1)

length-trim_right-le : (s : Bytes) → length (trim_right s) ≤ length s
unfolding trim_right
length-trim_right-le [] = omega arith
length-trim_right-le (c ∷ s) = ground (arith, length-trim_right-le s)

-- Nothing, or a text that begins with a letter or a digit.
abbrev Opens : Bytes → Type 0
Opens [] = Unit
Opens (c ∷ s) = is_alnum c ≡ true

-- Nothing, or a text that ends with a letter or a digit.
abbrev Closes : Bytes → Type 0
Closes [] = Unit
Closes (c ∷ s) = ends_with is_alnum (c ∷ s) ≡ true

Opens-trim_left : (s : Bytes) → All IsLabelByte s → Opens (trim_left s)
unfolding trim_left
Opens-trim_left [] h = tt
Opens-trim_left (c ∷ s) h = elim (Bool-cases (c == b'-')) [
  | inl e ↦ rw e (Opens-trim_left s h.1)
  | inr e ↦ rw e (ground arith)
]

-- With a letter or a digit in front, trimming on the right leaves it there.
Opens-trim_right : (s : Bytes) → Opens s → Opens (trim_right s)
unfolding trim_right
Opens-trim_right [] h = tt
Opens-trim_right (c ∷ s) h = ground arith

Closes-cons :
    (c : ℕ) (r : Bytes)
    → IsLabelByte c
    → Closes r
    → Closes (if c == b'-' && is_empty r then [] else c ∷ r)
Closes-cons c [] l h = ground arith
Closes-cons c (d ∷ r) l h = ground arith

Closes-trim_right : (s : Bytes) → All IsLabelByte s → Closes (trim_right s)
unfolding trim_right
Closes-trim_right [] h = tt
Closes-trim_right (c ∷ s) h = Closes-cons c (trim_right s) h.0 (Closes-trim_right s h.1)

all_complete : (s : Bytes) → All IsLabelByte s → all is_label_byte s ≡ true
all_complete [] h = refl
all_complete (c ∷ s) h = rw h.0 (all_complete s h.1)

valid_of :
    (s : Bytes)
    → s ≢ []
    → length s ≤ 63
    → Opens s
    → Closes s
    → All IsLabelByte s
    → validate_label s ≡ none
unfolding validate_label
valid_of [] n b o k h = absurd (n refl)
valid_of (c ∷ []) n b o k h = ground arith
valid_of (c ∷ d ∷ s) n b o k h = ground (arith, all_complete (d ∷ s) h.1)

Opens-append : (p s : Bytes) → Opens p → p ≢ [] → Opens (p ++ s)
Opens-append [] s h n = absurd (n refl)
Opens-append (c ∷ p) s h n = h

Closes-append : (p : Bytes) (c : ℕ) (s : Bytes) → Closes (c ∷ s) → Closes (p ++ c ∷ s)
Closes-append [] c s h = h
Closes-append (d ∷ []) c s h = h
Closes-append (d ∷ d' ∷ p) c s h = Closes-append (d' ∷ p) c s h

-- Six hex digits after a hyphen.
Closes-hex : (s : Bytes) → All (λ c. is_hex c ≡ true) s → 6 ≤ length s → Closes (b'-' ∷ take 6 s)
Closes-hex [] h l = absurd (omega arith)
Closes-hex (a ∷ []) h l = absurd (omega arith)
Closes-hex (a ∷ b ∷ []) h l = absurd (omega arith)
Closes-hex (a ∷ b ∷ c ∷ []) h l = absurd (omega arith)
Closes-hex (a ∷ b ∷ c ∷ d ∷ []) h l = absurd (omega arith)
Closes-hex (a ∷ b ∷ c ∷ d ∷ e ∷ []) h l = absurd (omega arith)
Closes-hex (a ∷ b ∷ c ∷ d ∷ e ∷ f ∷ s) (ha, (hb, (hc, (hd, (he, (hf, t)))))) l = ground arith

All-hex : (s : Bytes) → All (λ c. is_hex c ≡ true) s → All IsLabelByte s
All-hex [] h = tt
All-hex (c ∷ s) h = (ground arith, All-hex s h.1)

-- A long text that begins with a letter or a digit keeps it when it is cut and trimmed.
kept : (n : ℕ) (s : Bytes) → Opens s → s ≢ [] → trim_right (take (suc n) s) ≢ []
unfolding trim_right
kept n [] o ne = absurd (ne refl)
kept n (c ∷ s) o ne = ground arith

length-take_of_le : (n : ℕ) (s : Bytes) → n ≤ length s → length (take n s) ≡ n
length-take_of_le ℕ.zero s h = refl
length-take_of_le (suc n) [] h = absurd (omega arith)
length-take_of_le (suc n) (c ∷ s) h = ap suc (length-take_of_le n s (omega arith))

-- None of the bytes is a letter or a digit.
abbrev pub no_alnum : Bytes → Bool
no_alnum [] = true
no_alnum (c ∷ s) = not (is_alnum c) && no_alnum s

no_alnum-clean : (s : List ℕ) → no_alnum (map clean_rune s) ≡ no_alnum s
unfolding clean_rune
no_alnum-clean [] = refl
no_alnum-clean (c ∷ s) = ground (arith, no_alnum-clean s)

no_alnum-collapse : (s : Bytes) → no_alnum (collapse s) ≡ no_alnum s
unfolding collapse
no_alnum-collapse [] = refl
no_alnum-collapse (c ∷ []) = refl
no_alnum-collapse (c ∷ d ∷ s) = ground (arith, no_alnum-collapse (d ∷ s))

no_alnum-trim_left : (s : Bytes) → no_alnum (trim_left s) ≡ no_alnum s
unfolding trim_left
no_alnum-trim_left [] = refl
no_alnum-trim_left (c ∷ s) = ground (arith, no_alnum-trim_left s)

no_alnum-cons :
    (c : ℕ) (r : Bytes)
    → no_alnum (if c == b'-' && is_empty r then [] else c ∷ r) ≡ (not (is_alnum c) && no_alnum r)
no_alnum-cons c [] = ground arith
no_alnum-cons c (d ∷ r) = ground arith

no_alnum-trim_right : (s : Bytes) → no_alnum (trim_right s) ≡ no_alnum s
unfolding trim_right
no_alnum-trim_right [] = refl
no_alnum-trim_right (c ∷ s) =
    no_alnum-cons c (trim_right s)
    ∙ ap (λ (b : Bool). not (is_alnum c) && b) (no_alnum-trim_right s)

module _ (lower_rune : ℕ → ℕ) (hex_digest : Bytes → Bytes) (hd : IsHexDigest hex_digest) where
  suffix_length : (s : Bytes) → length (b'-' ∷ take 6 (hex_digest s)) ≡ 7
  suffix_length s = ap suc (length-take_of_le 6 (hex_digest s) (omega (arith, hd.full s)))

  long_valid :
      (s : Bytes)
      → Opens s
      → s ≢ []
      → All IsLabelByte s
      → validate_label (trim_right (take 56 s) ++ b'-' ∷ take 6 (hex_digest s)) ≡ none
  long_valid s o ne h =
      let stem = trim_right (take 56 s) in
      let stays : stem ≢ [] = kept 55 s o ne in
      valid_of (stem ++ b'-' ∷ take 6 (hex_digest s)) (stays_long stem stays)
        (omega (
          arith,
          length-append stem (b'-' ∷ take 6 (hex_digest s)),
          suffix_length s,
          length-trim_right-le (take 56 s),
          length-take-le 56 s,
        ))
        (Opens-append stem (b'-' ∷ take 6 (hex_digest s))
          (Opens-trim_right (take 56 s) (opens_take s o)) stays)
        (Closes-append stem b'-' (take 6 (hex_digest s))
          (Closes-hex (hex_digest s) (hd.hex s) (omega (arith, hd.full s))))
        (All-append IsLabelByte stem (b'-' ∷ take 6 (hex_digest s))
          (All-trim_right (take 56 s) (All-take 56 s h))
          (refl, All-take 6 (hex_digest s) (All-hex (hex_digest s) (hd.hex s))))
    where
      stays_long : (p : Bytes) → p ≢ [] → (p ++ b'-' ∷ take 6 (hex_digest s)) ≢ []
      stays_long [] n e = cc
      stays_long (c ∷ p) n e = cc

      opens_take : (t : Bytes) → Opens t → Opens (take 56 t)
      opens_take [] k = tt
      opens_take (c ∷ t) k = k

  truncate_valid :
      (s : Bytes)
      → Opens s
      → Closes s
      → All IsLabelByte s
      → (truncate_label lower_rune hex_digest s ≡ [])
        ⊎ (validate_label (truncate_label lower_rune hex_digest s) ≡ none)
  unfolding truncate_label
  truncate_valid [] o k h = inl refl
  truncate_valid (c ∷ s) o k h = elim (Bool-cases (leb (length (c ∷ s)) 63)) [
    | inl short ↦ rw short (inr (valid_of (c ∷ s) (λ e. cc) (leb→le _ _ short) o k h))
    | inr long ↦ rw (long, suffix_length (c ∷ s)) (inr (long_valid (c ∷ s) o (λ e. cc) h))
  ]

  truncate_empty : (s : Bytes) → truncate_label lower_rune hex_digest s ≡ [] → s ≡ []
  unfolding truncate_label
  truncate_empty s e = elim (Bool-cases (leb (length s) 63)) [
    | inl short ↦ rw short at e
    | inr long ↦ absurd (
        never (trim_right (take (63 - length (b'-' ∷ take 6 (hex_digest s))) s))
          (take 6 (hex_digest s)) (rw long at e))
  ]
    where
      never : (p t : Bytes) → (p ++ b'-' ∷ t) ≢ []
      never [] t e = cc
      never (c ∷ p) t e = cc

  pub sanitize-valid :
      (s : List ℕ)
      → (sanitize lower_rune hex_digest s ≡ [])
        ⊎ (validate_label (sanitize lower_rune hex_digest s) ≡ none)
  unfolding sanitize
  sanitize-valid s =
      let cleaned = collapse (map clean_rune (map lower_rune s)) in
      let plain = All-collapse _ (map_clean (map lower_rune s)) in
      let opened = All-trim_left cleaned plain in
      truncate_valid (trim_right (trim_left cleaned))
        (Opens-trim_right _ (Opens-trim_left cleaned plain)) (Closes-trim_right _ opened)
        (All-trim_right _ opened)

  -- Whatever the text, if the digest of a text is 64 hex digits: its sanitized form is empty or a valid
  -- tunnel name, and it is empty only if no rune of the text in lower case is a letter or a digit.
  pub sanitize-IsLabel :
      (s : List ℕ)
      → ((sanitize lower_rune hex_digest s ≡ [])
          ⊎ (validate_label (sanitize lower_rune hex_digest s) ≡ none))
        × (sanitize lower_rune hex_digest s ≡ [] → no_alnum (map lower_rune s) ≡ true)
  sanitize-IsLabel s = (sanitize-valid s, only)
    where
      only : sanitize lower_rune hex_digest s ≡ [] → no_alnum (map lower_rune s) ≡ true
      only e =
          unfold sanitize in
          let cleaned = map clean_rune (map lower_rune s) in
          sym (no_alnum-clean (map lower_rune s))
          ∙ sym (no_alnum-collapse cleaned)
          ∙ sym (no_alnum-trim_left (collapse cleaned))
          ∙ sym (no_alnum-trim_right (trim_left (collapse cleaned)))
          ∙ ap no_alnum (truncate_empty (trim_right (trim_left (collapse cleaned))) e)

  checked-valid :
      (e : DeriveError) (label r : Bytes) → checked e label ≡ ok r → validate_label r ≡ none
  unfolding checked
  checked-valid e label r h = ground arith

abbrev IsDigits : Bytes → Type 0
IsDigits s = All (λ c. is_alnum c ≡ true) s

abbrev Prints : ℕ → Bytes → Bytes → Type 0
Prints k acc s = IsDigits s × (length s ≤ suc k + length acc) × (s ≢ [])

Prints-one : (k n : ℕ) (acc : Bytes) → n < 10 → IsDigits acc → Prints k acc ((b'0' + n) ∷ acc)
Prints-one k n acc b a = ((ground arith, a), omega arith, λ e. cc)

-- With fuel above n, a number below 10 ^ (k + 1) prints in at most k + 1 digits.
digits_lem :
    (k fuel n : ℕ) (acc : Bytes)
    → n < fuel
    → n < 10 ^ suc k
    → IsDigits acc
    → Prints k acc (digits_from fuel n acc)
unfolding digits_from
digits_lem k ℕ.zero n acc h b a = absurd (omega arith)
digits_lem ℕ.zero (suc fuel) n acc h b a =
    rw (lt→ltb n 10 (omega arith)) (Prints-one 0 n acc (omega arith) a)
digits_lem (suc k) (suc fuel) n acc h b a = elim (Bool-cases (ltb n 10)) [
  | inl small ↦ rw small (Prints-one (suc k) n acc (ltb→lt n 10 small) a)
  | inr large ↦
      let (d, l, ne) =
        digits_lem k fuel (n / 10) ((b'0' + n % 10) ∷ acc) (ground arith)
          (omega (arith, pow-suc 10 (suc k))) (ground arith, a) in
      rw large (d, omega arith, ne)
]

digits_valid : (s : Bytes) → IsDigits s → s ≢ [] → length s ≤ 63 → validate_label s ≡ none
digits_valid s d ne l = valid_of s ne l (opens s d) (closes s d) (All-map-imp slug_byte s d)
  where
    opens : (t : Bytes) → IsDigits t → Opens t
    opens [] k = tt
    opens (c ∷ t) k = k.0

    closes : (t : Bytes) → IsDigits t → Closes t
    closes [] k = tt
    closes (c ∷ []) k = k.0
    closes (c ∷ e ∷ t) k = closes (e ∷ t) k.1

-- The default name of every port up to 65535 is a valid tunnel name.
pub label_from_port-valid :
    (port : ℕ) → port ≤ 65535 → validate_label (label_from_port (pos port)) ≡ none
unfolding label_from_port
label_from_port-valid port h =
    let (d, l, ne) = digits_lem 4 (suc port) port [] (omega arith) (omega arith) tt in
    digits_valid (digits_from (suc port) port []) d ne (omega arith)

module _ (lower_rune : ℕ → ℕ) (hex_digest : Bytes → Bytes) (hd : IsHexDigest hex_digest)
    (git : List Bytes → Option Bytes) (base_name abs_clean : Bytes → Bytes) where
  combined-valid :
      (top r : Bytes)
      → combined_label lower_rune hex_digest git base_name abs_clean top ≡ some r
      → validate_label r ≡ none
  unfolding combined_label
  combined-valid top r h = ground arith

  worktree-valid :
      (r : Bytes)
      → worktree_label lower_rune hex_digest git base_name abs_clean ≡ ok r
      → validate_label r ≡ none
  unfolding worktree_label
  worktree-valid r h = ground arith

  -- Every label derived from a `--from` source is a valid tunnel name, where the port is one that
  -- a listener can have and the digest of a text is 64 hex digits.
  pub derive_label-valid :
      (source : Bytes) (port : ℕ) (dir r : Bytes)
      → port ≤ 65535
      → derive_label lower_rune hex_digest git base_name abs_clean source (pos port) dir ≡ ok r
      → validate_label r ≡ none
  unfolding derive_label
  derive_label-valid source port dir r b h =
      ground (arith, label_from_port-valid port, worktree-valid r)
