-- ===== src/Reqlog/Shipper/Batches.antt =====
-- What a batch takes of a file, and what it leaves.
use beamd.Prelude.{
  ℕ, zero, suc, ◌+◌, ◌≤◌, ◌≡◌, ◌∙◌, refl, sym, ap, subst, Bool, not, ◌&&◌, List, [], ◌∷◌, ◌++◌,
  Bytes, is_empty, arith, ◌==◌, nat_eq, length, filter_by, Bool-cases, inl, inr,
}
use beamd.Reqlog.Shipper.{newline, seek, prepend, complete_lines, slots_after, read_lines}

-- The lines that must be shipped.
abbrev pub events_of : (Bytes → Bool) → List Bytes → List Bytes
events_of valid ls = filter_by (λ l. not (is_empty l) && valid l) ls

-- The lines that a batch leaves.
abbrev pub lines_left : ℕ → List Bytes → List Bytes
lines_left slots [] = []
lines_left zero (l ∷ ls) = l ∷ ls
lines_left (suc slots) (l ∷ ls) = lines_left (slots_after l slots) ls

pub events_of-read_lines :
    (valid : Bytes → Bool) (slots : ℕ) (ls : List Bytes)
    → events_of valid ls
      ≡ filter_by valid (read_lines slots ls).0 ++ events_of valid (lines_left slots ls)
unfolding read_lines
events_of-read_lines valid slots [] = refl
events_of-read_lines valid zero (l ∷ ls) = refl
events_of-read_lines valid (suc slots) ([] ∷ ls) = events_of-read_lines valid (suc slots) ls
events_of-read_lines valid (suc slots) ((b ∷ l) ∷ ls) =
    ground (arith, events_of-read_lines valid slots ls)

seeks : (m n k : ℕ) (c : Bytes) → k ≡ m + n → seek k c ≡ seek n (seek m c)
unfolding seek
seeks zero n k c e = ap (λ (i : ℕ). seek i c) (omega (arith, e))
seeks (suc m) zero zero [] e = refl
seeks (suc m) zero (suc k) [] e = refl
seeks (suc m) (suc n) zero [] e = refl
seeks (suc m) (suc n) (suc k) [] e = refl
seeks (suc m) n zero (b ∷ c) e = absurd (omega (arith, e))
seeks (suc m) n (suc k) (b ∷ c) e = seeks m n k c (omega (arith, e))

pub seek-add : (m n : ℕ) (c : Bytes) → seek (m + n) c ≡ seek n (seek m c)
seek-add m n c = seeks m n (m + n) c refl

prepended :
    (b : ℕ) (l : Bytes) (ls rest : List Bytes)
    → prepend b rest ≡ l ∷ ls
    → (k : Bytes) × (rest ≡ k ∷ ls) × (l ≡ b ∷ k)
prepended b l ls [] h = ground (arith, h)
prepended b l ls (k ∷ rest) h = (k, ground (arith, h), ground (arith, h))

-- Behind the first line are the others, and it lies within the file.
pub after_line :
    (c : Bytes) (l : Bytes) (ls : List Bytes)
    → complete_lines c ≡ l ∷ ls
    → (complete_lines (seek (suc (length l)) c) ≡ ls) × (suc (length l) ≤ length c)
unfolding complete_lines seek
after_line [] l ls h = ground (arith, h)
after_line (b ∷ c) l ls h = elim (Bool-cases (b == newline)) [
  | inl e ↦ blank l (rw e at h)
  | inr e ↦
      let own = prepended b l ls (complete_lines c) (rw e at h) in
      let ih = after_line c own.0 ls own.1 in subst Behind (sym own.2) (ih.0, omega (arith, ih.1))
]
  where
    Behind : Bytes → Type 0
    Behind k = (complete_lines (seek (length k) c) ≡ ls) × (suc (length k) ≤ suc (length c))

    blank : (k : Bytes) → [] ∷ complete_lines c ≡ k ∷ ls → Behind k
    blank [] e = (ground (arith, e), omega arith)
    blank (a ∷ k) e = ground (arith, e)

pub seek-length : (n : ℕ) (c : Bytes) → n ≤ length c → length (seek n c) + n ≡ length c
unfolding seek
seek-length zero c h = omega arith
seek-length (suc n) [] h = omega (arith, h)
seek-length (suc n) (b ∷ c) h = omega (arith, seek-length n c (omega (arith, h)))

-- The offset behind a batch is where the lines begin that it leaves.
pub complete_lines-seek :
    (slots : ℕ) (c : Bytes) (ls : List Bytes)
    → complete_lines c ≡ ls
    → (complete_lines (seek (read_lines slots ls).1 c) ≡ lines_left slots ls)
      × ((read_lines slots ls).1 ≤ length c)
unfolding read_lines
complete_lines-seek slots c [] h = (unfold seek in h, omega arith)
complete_lines-seek zero c (l ∷ ls) h = (unfold seek in h, omega arith)
complete_lines-seek (suc slots) c (l ∷ ls) h =
    let first = after_line c l ls h in
    let rest = seek (suc (length l)) c in
    let ih = complete_lines-seek (slots_after l slots) rest ls first.0 in
    (
      ap complete_lines (seek-add (suc (length l)) (read_lines (slots_after l slots) ls).1 c)
          ∙ ih.0,
      omega (arith, ih.1, first.1, seek-length (suc (length l)) c first.1),
    )

-- Only a batch with no line consumes nothing.
pub read_lines-zero : (slots : ℕ) (ls : List Bytes) → (read_lines (suc slots) ls).1 ≡ 0 → ls ≡ []
unfolding read_lines
read_lines-zero slots [] h = refl
read_lines-zero slots (l ∷ ls) h = absurd (omega (arith, h))
