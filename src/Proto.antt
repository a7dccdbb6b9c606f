-- ===== src/Proto.antt =====
-- internal/proto/proto.go: how a control line is read, with a cap on its length.
use beamd.Prelude.{
  ℕ, ◌≤◌, ◌≡◌, sym, ap, subst, ◌∙◌, Bool, true, false, List, [], ◌∷◌, ◌++◌, append_assoc, arith,
  Bytes, ltb, length-append, if◌then◌else◌, length,
}

-- What ReadSlice gives: a fragment that ends the line, one that fills the buffer, or one before an
-- error.
pub data Slice : Type 0 where
  ended : Bytes → Slice
  buffer_full : Bytes → Slice
  broken : Bytes → Slice

pub data Line : Type 0 where
  line : Bytes → Line
  line_too_long : Line
  read_error : Line

abbrev pub fragment : Slice → Bytes
fragment (ended s) = s
fragment (buffer_full s) = s
fragment (broken s) = s

-- The loop of readLineCapped, with what it has read. A reader whose slices run out has failed.
unfoldable pub read_line_capped : ℕ → Bytes → List Slice → Line
read_line_capped max so_far [] = read_error
read_line_capped max so_far (s ∷ slices) =
    let next = so_far ++ fragment s in
    let more = read_line_capped max next slices in
    if ltb max (length next)
    then line_too_long
    else elim s [ ended f ↦ line next | buffer_full f ↦ more | broken f ↦ read_error ]

-- The fragments of a line, up to the one that ends it.
abbrev pub joined : List Slice → Bytes
joined [] = []
joined (ended f ∷ slices) = f
joined (broken f ∷ slices) = f
joined (buffer_full f ∷ slices) = f ++ joined slices

-- A line that is returned is at most as long as the cap, and is all that was read up to its end.
pub read_line_capped-line :
    (max : ℕ) (so_far : Bytes) (slices : List Slice) (l : Bytes)
    → read_line_capped max so_far slices ≡ line l
    → (length l ≤ max) × (l ≡ so_far ++ joined slices)
unfolding read_line_capped
read_line_capped-line max so_far [] l h = absurd (ground (arith, h))
read_line_capped-line max so_far (ended f ∷ slices) l h =
    let same : so_far ++ f ≡ l = ground (arith, h) in
    let short : length (so_far ++ f) ≤ max = ground (arith, h) in
    (subst (λ (x : Bytes). length x ≤ max) same short, sym same)
read_line_capped-line max so_far (broken f ∷ slices) l h = absurd (ground (arith, h))
read_line_capped-line max so_far (buffer_full f ∷ slices) l h =
    let more : read_line_capped max (so_far ++ f) slices ≡ line l = ground (arith, h) in
    let (short, whole) = read_line_capped-line max (so_far ++ f) slices l more in
    (short, whole ∙ append_assoc so_far f (joined slices))

-- The fragments contain the end of the line.
abbrev pub ends : List Slice → Bool
ends [] = false
ends (ended f ∷ slices) = true
ends (broken f ∷ slices) = false
ends (buffer_full f ∷ slices) = ends slices

-- A line that ends and is no longer than the cap is returned whole, however it is split by the buffer.
pub read_line_capped-returns :
    (max : ℕ) (so_far : Bytes) (slices : List Slice)
    → ends slices ≡ true
    → length (so_far ++ joined slices) ≤ max
    → read_line_capped max so_far slices ≡ line (so_far ++ joined slices)
unfolding read_line_capped
read_line_capped-returns max so_far [] e h = absurd (ground (arith, e))
read_line_capped-returns max so_far (ended f ∷ slices) e h = ground (arith, h)
read_line_capped-returns max so_far (broken f ∷ slices) e h = absurd (ground (arith, e))
read_line_capped-returns max so_far (buffer_full f ∷ slices) e h =
    let whole : (so_far ++ f) ++ joined slices ≡ so_far ++ (f ++ joined slices) =
      append_assoc so_far f (joined slices) in
    let fits : length ((so_far ++ f) ++ joined slices) ≤ max =
      subst (λ (x : Bytes). length x ≤ max) (sym whole) h in
    let rest = read_line_capped-returns max (so_far ++ f) slices e fits in
    let short : length (so_far ++ f) ≤ max =
      omega (arith, fits, length-append (so_far ++ f) (joined slices)) in
    ground (arith, rest, short) ∙ ap line whole
