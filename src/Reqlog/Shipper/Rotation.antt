-- ===== src/Reqlog/Shipper/Rotation.antt =====
-- A rotated file is removed only when it has been shipped.
use beamd.Prelude.{
  ℕ, suc, ◌≤◌, ◌≡◌, ◌∙◌, refl, sym, ap, subst, Bool, true, false, not, ◌&&◌, List, [], ◌∷◌, ◌++◌,
  append_assoc, append-nil, Option, none, some, Bytes, arith, ◌==◌, nat_eq, if◌then◌else◌, if_cases,
  if_split, length, filter_by, nat_beq_iff,
}
use beamd.Reqlog.Shipper.{
  read_batch, Batch, not_exist, past_eof, wrong_file, failed, batch, Cursor, Shipping, Turn,
  save_cursor, Next, finished, again, no_lines, take_batch, on_batch, turn, drain_file, Drained,
  drain_log, after_rotated, drain_rotated, drain,
}
use beamd.Reqlog.Shipper.Lossless.{events_from, Stays, drain_file-ships}

-- What has been accepted stays, and more may follow.
abbrev pub Extends : List Bytes → Shipping → Type 0
Extends before s = (more : List Bytes) × (s.accepted ≡ before ++ more)

further :
    (before : List Bytes) (s s' : Shipping)
    → Extends before s
    → Extends s.accepted s'
    → Extends before s'
further before s s' h k =
    (h.0 ++ k.0, k.1 ∙ ap (λ (x : List Bytes). x ++ k.0) h.1 ∙ append_assoc before h.0 k.0)

module _ (valid : Bytes → Bool) (slots : ℕ) where
  same_accepted : (s s' : Shipping) → s'.accepted ≡ s.accepted → Extends s.accepted s'
  same_accepted s s' e = ([], e ∙ sym (append-nil s.accepted))

  take_batch-Extends :
      (t : Turn) (ls : List Bytes) (consumed : ℕ) (s : Shipping)
      → Extends s.accepted (take_batch valid slots t ls consumed s).1
  unfolding take_batch save_cursor
  take_batch-Extends t ls consumed s =
      if_cases (λ (r : Next × Shipping). Extends s.accepted r.1) (consumed == 0)
        (same_accepted s s refl)
        (if_cases (λ (r : Next × Shipping). Extends s.accepted r.1)
          (not (no_lines (filter_by valid ls)) && not t.accepts) (same_accepted s s refl)
          (filter_by valid ls, refl))

  on_batch-Extends :
      (t : Turn) (b : Batch) (s : Shipping) → Extends s.accepted (on_batch valid slots t b s).1
  unfolding on_batch save_cursor
  on_batch-Extends t not_exist s = same_accepted s s refl
  on_batch-Extends t past_eof s = ([], sym (append-nil s.accepted))
  on_batch-Extends t wrong_file s = same_accepted s s refl
  on_batch-Extends t failed s = same_accepted s s refl
  on_batch-Extends t (batch ls consumed) s = take_batch-Extends t ls consumed s

  drain_file-Extends :
      (ts : List Turn) (s : Shipping) → Extends s.accepted (drain_file valid slots ts s).1
  unfolding drain_file
  drain_file-Extends [] s = same_accepted s s refl
  drain_file-Extends (t ∷ ts) s =
      gone (turn valid slots t s)
        (unfold turn in
          on_batch-Extends t (read_batch t.seen s.cursor.inode s.cursor.offset slots) s)
        (drain_file-Extends ts)
    where
      gone :
          (r : Next × Shipping)
          → Extends s.accepted r.1
          → ((s' : Shipping) → Extends s'.accepted (drain_file valid slots ts s').1)
          → Extends s.accepted
              (elim r.0 as (λ (n : Next). Option Bool × Shipping) [
                | finished b ↦ (some b, r.1)
                | again ↦ drain_file valid slots ts r.1
              ]).1
      gone (finished b, s') h rest = h
      gone (again, s') h rest = further s.accepted s' (drain_file valid slots ts s').1 h (rest s')

  drain_log-Extends :
      (ino : ℕ) (writes : Bool) (ts : List Turn) (s : Shipping)
      → Extends s.accepted (drain_log valid slots ino writes ts s)
  drain_log-Extends ino writes ts s =
      unfold save_cursor in
      drain_file-Extends ts (save_cursor writes (record { inode = ino; offset = 0 }) s)

  -- A removal comes only after the loop over the rotated file has answered that it is drained.
  after_rotated-removed :
      (ino : ℕ) (writes : Bool) (ts : List Turn) (kept : Cursor → Cursor)
      (r : Option Bool × Shipping)
      → (after_rotated valid slots ino writes ts kept r).removed ≡ true
      → (r.0 ≡ some true)
        × Extends r.1.accepted (after_rotated valid slots ino writes ts kept r).shipping
  unfolding after_rotated
  after_rotated-removed ino writes ts kept (some true, s) gone =
      (refl, drain_log-Extends ino writes ts s)
  after_rotated-removed ino writes ts kept (some false, s) gone = ground (arith, gone)
  after_rotated-removed ino writes ts kept (none, s) gone = ground (arith, gone)

-- Where the rotated file is read from.
abbrev pub start : ℕ → Cursor → ℕ
start old c = if not (c.inode == 0) && old == c.inode then c.offset else 0

module _ (valid : Bytes → Bool) (slots old : ℕ) (c : Bytes) (ino : ℕ) (writes : Bool)
    (old_turns turns : List Turn) (stays : Stays valid slots old c old_turns) where
  removed_after :
      (kept : Cursor → Cursor) (s : Shipping)
      → s.cursor.inode ≡ old
      → s.cursor.offset ≤ length c
      → let d =
          after_rotated valid
            (suc slots)
            ino
            writes
            turns
            kept
            (drain_file valid (suc slots) old_turns s) in
        d.removed ≡ true
        → Extends (s.accepted ++ events_from valid slots old c s.cursor.offset) d.shipping
  removed_after kept s own within gone =
      let r = drain_file valid (suc slots) old_turns s in
      let h = after_rotated-removed valid (suc slots) ino writes turns kept r gone in
      subst
        (λ (x : List Bytes).
          Extends x (after_rotated valid (suc slots) ino writes turns kept r).shipping)
        ((drain_file-ships valid slots old c old_turns s stays own within).1 h.0) h.1

  by_generation :
      (s : Shipping) (same : Bool)
      → (same ≡ true → s.cursor.inode ≡ old)
      → (if same then s.cursor.offset else 0) ≤ length c
      → let d =
          if same
          then after_rotated valid
              (suc slots)
              ino
              writes
              turns
              (λ k. k)
              (drain_file valid (suc slots) old_turns s)
          else after_rotated valid
              (suc slots)
              ino
              writes
              turns
              (λ k. s.cursor)
              (drain_file valid
                (suc slots)
                old_turns
                (record s { cursor = record { inode = old; offset = 0 } })) in
        d.removed ≡ true
        → Extends
            (s.accepted ++ events_from valid slots old c (if same then s.cursor.offset else 0))
            d.shipping
  by_generation s true own within gone = removed_after (λ k. k) s (own refl) within gone
  by_generation s false own within gone =
      removed_after (λ k. s.cursor) (record s { cursor = record { inode = old; offset = 0 } }) refl
        within gone

-- In one drain, where nobody writes to the rotated file, and the cursor, if it is of that file, is
-- within it: the file is removed only after all its valid lines behind the cursor, or
-- all of its valid lines if the cursor is of another file, have been accepted.
pub drain-removes :
    (valid : Bytes → Bool) (slots old : ℕ) (c : Bytes) (log : Option ℕ) (writes : Bool)
    (old_turns turns : List Turn) (s : Shipping)
    → Stays valid slots old c old_turns
    → start old s.cursor ≤ length c
    → (drain valid (suc slots) log (some old) writes old_turns turns s).removed ≡ true
    → Extends
        (s.accepted ++ events_from valid slots old c (start old s.cursor))
        (drain valid (suc slots) log (some old) writes old_turns turns s).shipping
unfolding drain
drain-removes valid slots old c none writes old_turns turns s stays within gone =
    ground (arith, gone)
drain-removes valid slots old c (some ino) writes old_turns turns s stays within gone =
    if_split
      (λ (d : Drained).
        d.removed ≡ true
        → Extends (s.accepted ++ events_from valid slots old c (start old s.cursor)) d.shipping)
      (s.cursor.inode == ino && not (s.cursor.inode == 0)) (λ same g. ground (arith, g))
      (λ other g.
        by_generation valid slots old c ino writes old_turns turns stays s
          (not (s.cursor.inode == 0) && old == s.cursor.inode)
          (λ e. ground (arith, e, nat_beq_iff old s.cursor.inode)) within
          (unfold drain_rotated in g))
      gone
