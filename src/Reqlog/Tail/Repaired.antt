-- ===== src/Reqlog/Tail/Repaired.antt =====
-- The repair of the log keeps every complete line.
use beamd.Prelude.{
  ℕ, zero, suc, ◌+◌, ◌-◌, ◌≤◌, ◌≡◌, ◌∙◌, refl, sym, ap, Bool, true, List, [], ◌∷◌, ◌++◌, Option,
  none, some, Bytes, arith, ◌==◌, nat_eq, nat_beq_iff, if◌then◌else◌, if_split, length, take,
  Bool-cases, inl, inr,
}
use beamd.Reqlog.Shipper.{newline, seek, prepend, complete_lines}
use beamd.Reqlog.Shipper.Batches.{seek-add, seek-length}
use beamd.Reqlog.Tail.{one_more, last_break, cut_at, scan_back, ends_line, repair_tail}

abbrev pub or_zero : Option ℕ → ℕ
or_zero none = 0
or_zero (some n) = n

take-seek : (n : ℕ) (c : Bytes) → take n c ++ seek n c ≡ c
unfolding seek
take-seek zero c = refl
take-seek (suc n) [] = refl
take-seek (suc n) (b ∷ c) = ap (λ (x : Bytes). b ∷ x) (take-seek n c)

length-take : (n : ℕ) (c : Bytes) → n ≤ length c → length (take n c) ≡ n
length-take zero c h = refl
length-take (suc n) [] h = omega (arith, h)
length-take (suc n) (b ∷ c) h = omega (arith, length-take n c (omega (arith, h)))

take_all : (c : Bytes) → take (length c) c ≡ c
take_all [] = refl
take_all (b ∷ c) = ap (λ (x : Bytes). b ∷ x) (take_all c)

last_break-front : (x y : Bytes) → last_break y ≡ none → last_break (x ++ y) ≡ last_break x
unfolding last_break
last_break-front [] y h = h
last_break-front (b ∷ x) y h = ap (one_more (b == newline)) (last_break-front x y h)

last_break-back :
    (x y : Bytes) (n : ℕ) → last_break y ≡ some n → last_break (x ++ y) ≡ some (length x + n)
unfolding last_break
last_break-back [] y n h = h ∙ ap some (omega arith)
last_break-back (b ∷ x) y n h =
    ap (one_more (b == newline)) (last_break-back x y n h) ∙ ap some (omega arith)

-- The bytes between two offsets, and those behind the second.
chunk-seek :
    (start end : ℕ) (c : Bytes)
    → start ≤ end
    → take (end - start) (seek start c) ++ seek end c ≡ seek start c
chunk-seek start end c h =
    ap (λ (y : Bytes). take (end - start) (seek start c) ++ y)
      (ap (λ (n : ℕ). seek n c) (omega (arith, h)) ∙ seek-add start (end - start) c)
    ∙ take-seek (end - start) (seek start c)

nothing_cut :
    (c : Bytes) (end : ℕ) → end ≡ 0 → last_break (seek end c) ≡ none → 0 ≡ or_zero (last_break c)
unfolding seek
nothing_cut c zero e clear = sym (ap or_zero clear)
nothing_cut c (suc end) e clear = absurd (omega (arith, e))

-- The last newline lies in the chunk, or before it.
cut_chunk :
    (start end : ℕ) (c : Bytes) (further : ℕ) (o : Option ℕ)
    → start ≤ end
    → end ≤ length c
    → last_break (seek end c) ≡ none
    → (last_break (seek start c) ≡ none → further ≡ or_zero (last_break c))
    → last_break (take (end - start) (seek start c)) ≡ o
    → cut_at start o further ≡ or_zero (last_break c)
cut_chunk start end c further none before within clear rest h = rest (
    ap last_break (sym (chunk-seek start end c before))
    ∙ last_break-front (take (end - start) (seek start c)) (seek end c) clear
    ∙ h)
cut_chunk start end c further (some n) before within clear rest h =
    let here : last_break (seek start c) ≡ some n =
      ap last_break (sym (chunk-seek start end c before))
      ∙ last_break-front (take (end - start) (seek start c)) (seek end c) clear
      ∙ h in
    sym (
      ap or_zero (
        ap last_break (sym (take-seek start c))
        ∙ last_break-back (take start c) (seek start c) n here)
      ∙ omega (arith, length-take start c (omega (arith, before, within))))

scan_back_lem :
    (chunk fuel : ℕ) (c : Bytes) (end : ℕ)
    → 1 ≤ chunk
    → end ≤ fuel
    → end ≤ length c
    → last_break (seek end c) ≡ none
    → scan_back chunk fuel c end ≡ or_zero (last_break c)
unfolding scan_back
scan_back_lem chunk zero c end some_ enough within clear =
    nothing_cut c end (omega (arith, enough)) clear
scan_back_lem chunk (suc fuel) c end some_ enough within clear =
    let start = end - chunk in
    if_split (λ (n : ℕ). n ≡ or_zero (last_break c)) (end == 0)
      (λ e. nothing_cut c end ((nat_beq_iff end 0).0 e) clear)
      (λ e.
        cut_chunk start end c (scan_back chunk fuel c start)
          (last_break (take (end - start) (seek start c))) (omega arith) within clear
          (scan_back_lem chunk fuel c start some_ (omega (arith, enough, some_))
            (omega (arith, within)))
          refl)

-- A byte in front of a rest: the cases of the last newline of the rest.
take_front :
    (b : ℕ) (c : Bytes) (o : Option ℕ)
    → complete_lines (take (or_zero o) c) ≡ complete_lines c
    → complete_lines (take (or_zero (one_more (b == newline) o)) (b ∷ c)) ≡ complete_lines (b ∷ c)
unfolding complete_lines
take_front b c (some n) ih =
    ap (λ (l : List Bytes). if b == newline then [] ∷ l else prepend b l) ih
take_front b c none ih = elim (Bool-cases (b == newline)) [
  | inl e ↦ ground (arith, e, ap (λ (l : List Bytes). [] ∷ l) ih)
  | inr e ↦ ground (arith, e, ap (prepend b) ih)
]

-- The complete lines are those up to the last newline.
complete_lines-take :
    (c : Bytes) → complete_lines (take (or_zero (last_break c)) c) ≡ complete_lines c
unfolding last_break
complete_lines-take [] = refl
complete_lines-take (b ∷ c) = take_front b c (last_break c) (complete_lines-take c)

one_byte : (c : Bytes) → length c ≡ 1 → ends_line c ≡ true → last_break c ≡ some 1
unfolding last_break
one_byte [] h e = ground (arith, h)
one_byte (b ∷ []) h e = ap (λ (t : Bool). one_more t none) e
one_byte (b ∷ a ∷ c) h e = absurd (omega (arith, h))

-- A file that ends with a newline is kept.
ends_whole :
    (c : Bytes)
    → 1 ≤ length c
    → ends_line (seek (length c - 1) c) ≡ true
    → last_break c ≡ some (length c)
ends_whole c h e =
    ap last_break (sym (take-seek (length c - 1) c))
    ∙ last_break-back (take (length c - 1) c) (seek (length c - 1) c) 1 (
        one_byte (seek (length c - 1) c)
          (omega (arith, h, seek-length (length c - 1) c (omega arith))) e)
    ∙ ap some (omega (arith, h, length-take (length c - 1) c (omega arith)))

nothing_behind : (c : Bytes) → last_break (seek (length c) c) ≡ none
unfolding seek last_break
nothing_behind [] = refl
nothing_behind (b ∷ c) = nothing_behind c

no_bytes : (d : Bytes) → length d ≡ 0 → d ≡ take (or_zero (last_break d)) d
unfolding last_break
no_bytes [] h = refl
no_bytes (b ∷ d) h = absurd (omega (arith, h))

-- With chunks of at least one byte, whatever the file holds: the repair leaves it up to its last newline,
-- nothing where it has none, and its complete lines are those that it had.
pub repair_tail-IsRepaired :
    (chunk : ℕ) (c : Bytes)
    → 1 ≤ chunk
    → ((repair_tail chunk c).0 ≡ take (or_zero (last_break c)) c)
      × (complete_lines (repair_tail chunk c).0 ≡ complete_lines c)
repair_tail-IsRepaired chunk c some_ = (kept, ap complete_lines kept ∙ complete_lines-take c)
  where
    kept : (repair_tail chunk c).0 ≡ take (or_zero (last_break c)) c
    kept =
        unfold repair_tail in
        if_split (λ (r : Bytes × Bool). r.0 ≡ take (or_zero (last_break c)) c) (length c == 0)
          (λ e. no_bytes c ((nat_beq_iff (length c) 0).0 e))
          (λ e.
            if_split (λ (r : Bytes × Bool). r.0 ≡ take (or_zero (last_break c)) c)
              (ends_line (seek (length c - 1) c))
              (λ whole.
                sym (take_all c)
                ∙ ap (λ (n : ℕ). take n c)
                    (sym (ap or_zero (ends_whole c (ground (arith, e)) whole))))
              (λ torn.
                ap (λ (n : ℕ). take n c)
                  (scan_back_lem chunk (length c) c (length c) some_ (omega arith) (omega arith)
                    (nothing_behind c))))
