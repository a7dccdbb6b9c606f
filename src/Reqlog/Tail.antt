-- ===== src/Reqlog/Tail.antt =====
-- internal/reqlog/file.go: repairTail, which cuts a torn line off the end of the log. Errors of the disk
-- are left out.
pub mod Repaired
use beamd.Prelude.{
  ℕ, zero, suc, ◌+◌, ◌-◌, Bool, true, false, List, [], ◌∷◌, Option, none, some, Bytes, ◌==◌, nat_eq,
  if◌then◌else◌, length, take,
}
use beamd.Reqlog.Shipper.{newline, seek}

abbrev pub one_more : Bool → Option ℕ → Option ℕ
one_more ends none = if ends then some 1 else none
one_more ends (some n) = some (suc n)

-- LastIndexByte for a newline, as the number of bytes up to it and with it.
unfoldable pub last_break : Bytes → Option ℕ
last_break [] = none
last_break (b ∷ c) = one_more (b == newline) (last_break c)

abbrev pub cut_at : ℕ → Option ℕ → ℕ → ℕ
cut_at start none further = further
cut_at start (some n) further = start + n

-- The scan backwards in chunks: where the file is cut. The fuel bounds the chunks.
unfoldable pub scan_back : ℕ → ℕ → Bytes → ℕ → ℕ
scan_back chunk zero c end = 0
scan_back chunk (suc fuel) c end =
    let start = end - chunk in
    let further = scan_back chunk fuel c start in
    if end == 0 then 0 else cut_at start (last_break (take (end - start) (seek start c))) further

abbrev pub ends_line : Bytes → Bool
ends_line [] = false
ends_line (b ∷ c) = b == newline

-- What the file holds afterwards, and whether anything was removed; `chunk` is 64 KiB.
unfoldable pub repair_tail : ℕ → Bytes → Bytes × Bool
unfolding scan_back
repair_tail chunk c =
    if length c == 0
    then (c, false)
    else if ends_line (seek (length c - 1) c)
    then (c, false)
    else (take (scan_back chunk (length c) c (length c)) c, true)
