-- ===== src/Reqlog/Shipper/Lossless.antt =====
-- A file that is drained has been shipped.
use beamd.Prelude.{
  ℕ, suc, ◌+◌, ◌≤◌, ◌<◌, ◌≡◌, ◌≢◌, ◌∙◌, refl, sym, ap, subst, Bool, true, not, ◌&&◌, List, [], ◌∷◌,
  ◌++◌, append_assoc, append-nil, Option, none, some, Bytes, arith, ltb, ◌==◌, nat_eq, if_split,
  length, filter_by, All, nat_beq_iff,
}
use beamd.Reqlog.Shipper.{
  seek, complete_lines, read_lines, Seen, contents, read_batch, Batch, Shipping, Turn, save_cursor,
  Next, finished, again, no_lines, take_batch, on_batch, turn, drain_file,
}
use beamd.Reqlog.Shipper.Batches.{
  events_of, lines_left, events_of-read_lines, seek-add, seek-length, complete_lines-seek,
  read_lines-zero,
}

module _ (valid : Bytes → Bool) (slots : ℕ) (ino : ℕ) (c : Bytes) where
  -- The events of the file from an offset on.
  abbrev pub events_from : ℕ → List Bytes
  events_from offset = events_of valid (complete_lines (seek offset c))

  -- The cursor is at the file, and what has been accepted with what is left is all that there was.
  abbrev pub Accounts : List Bytes → Shipping → Type 0
  Accounts all s =
      (s.accepted ++ events_from s.cursor.offset ≡ all)
      × (s.cursor.inode ≡ ino)
      × (s.cursor.offset ≤ length c)

  -- After a turn: the account stands, a file that is finished has no event left, and a turn that goes on
  -- has moved the cursor.
  abbrev Turned : List Bytes → ℕ → Next × Shipping → Type 0
  Turned all offset r =
      Accounts all r.1
      × (r.0 ≡ finished true → events_from r.1.cursor.offset ≡ [])
      × (r.0 ≡ again → offset < r.1.cursor.offset)

  left_behind :
      (offset : ℕ) (ls : List Bytes)
      → complete_lines (seek offset c) ≡ ls
      → events_from (offset + (read_lines (suc slots) ls).1)
        ≡ events_of valid (lines_left (suc slots) ls)
  left_behind offset ls at =
      ap (λ (f : Bytes). events_of valid (complete_lines f))
        (seek-add offset (read_lines (suc slots) ls).1 c)
      ∙ ap (events_of valid) (complete_lines-seek (suc slots) (seek offset c) ls at).0

  take_batch-Turned :
      (t : Turn) (s : Shipping) (all : List Bytes) (ls : List Bytes)
      → complete_lines (seek s.cursor.offset c) ≡ ls
      → Accounts all s
      → Turned all s.cursor.offset (
          take_batch valid
            (suc slots)
            t
            (read_lines (suc slots) ls).0
            (read_lines (suc slots) ls).1
            s)
  unfolding take_batch save_cursor
  take_batch-Turned t s all ls at h =
      let got = (read_lines (suc slots) ls).0 in
      let consumed = (read_lines (suc slots) ls).1 in
      let sent = filter_by valid got in
      if_split (Turned all s.cursor.offset) (consumed == 0)
        (λ none_left. (
          h,
          λ e.
              ap (events_of valid)
                (at ∙ read_lines-zero slots ls ((nat_beq_iff consumed 0).0 none_left)),
          λ e. ground (arith, e),
        ))
        (λ some_.
          if_split (Turned all s.cursor.offset) (not (no_lines sent) && not t.accepts)
            (λ refused. (h, λ e. ground (arith, e), λ e. ground (arith, e)))
            (λ taken. (
              (
                append_assoc s.accepted sent (events_from (s.cursor.offset + consumed))
                    ∙ ap (λ (x : List Bytes). s.accepted ++ x)
                        (ap (λ (x : List Bytes). sent ++ x) (left_behind s.cursor.offset ls at)
                          ∙ sym (events_of-read_lines valid (suc slots) ls)
                          ∙ sym (ap (events_of valid) at))
                    ∙ h.0,
                h.1,
                omega (
                  arith,
                  (complete_lines-seek (suc slots) (seek s.cursor.offset c) ls at).1,
                  seek-length s.cursor.offset c h.2,
                ),
              ),
              λ e. ground (arith, e),
              λ e. ground (arith, some_),
            )))

  on_batch-Turned :
      (t : Turn) (s : Shipping) (all : List Bytes) (seen : Seen)
      → seen ≡ contents ino c
      → Accounts all s
      → Turned all s.cursor.offset (
          on_batch valid
            (suc slots)
            t
            (read_batch seen s.cursor.inode s.cursor.offset (suc slots))
            s)
  on_batch-Turned t s all seen at h =
      subst
        (λ (v : Seen). Turned all s.cursor.offset (
          on_batch valid (suc slots) t (read_batch v s.cursor.inode s.cursor.offset (suc slots)) s))
        (sym at)
        (unfold read_batch in
          if_split (λ (b : Batch). Turned all s.cursor.offset (on_batch valid (suc slots) t b s))
            (not (s.cursor.inode == 0) && not (ino == s.cursor.inode))
            (λ other. absurd (ground (arith, other, h.1, nat_beq_iff ino s.cursor.inode)))
            (λ own.
              if_split
                (λ (b : Batch). Turned all s.cursor.offset (on_batch valid (suc slots) t b s))
                (ltb (length c) s.cursor.offset) (λ past. absurd (ground (arith, past, h.2)))
                (λ within.
                  unfold on_batch in
                  take_batch-Turned t s all (complete_lines (seek s.cursor.offset c)) refl h)))

  -- The turns that a loop is given see this file.
  abbrev pub Stays : List Turn → Type 0
  Stays = All (λ t. t.seen ≡ contents ino c)

  -- Where the loop stands: it has ended with an answer, or the turns have run out.
  abbrev pub Ended : List Bytes → Option Bool × Shipping → Type 0
  Ended all r = Accounts all r.1 × (r.0 ≡ some true → events_from r.1.cursor.offset ≡ [])

  abbrev loop_on : List Turn → Next × Shipping → Option Bool × Shipping
  loop_on ts r = elim r.0 [
    | finished b ↦ (some b, r.1)
    | again ↦ drain_file valid (suc slots) ts r.1
  ]

  loop_on-Ended :
      (ts : List Turn) (all : List Bytes) (offset : ℕ) (r : Next × Shipping)
      → Turned all offset r
      → ((s : Shipping) → Accounts all s → Ended all (drain_file valid (suc slots) ts s))
      → Ended all (loop_on ts r)
  loop_on-Ended ts all offset (finished b, s) h rest = (h.0, λ e. h.1 (ground (arith, e)))
  loop_on-Ended ts all offset (again, s) h rest = rest s h.0

  drain_file-Ended :
      (ts : List Turn) (s : Shipping) (all : List Bytes)
      → Stays ts
      → Accounts all s
      → Ended all (drain_file valid (suc slots) ts s)
  unfolding drain_file
  drain_file-Ended [] s all stays h = (h, λ e. ground (arith, e))
  drain_file-Ended (t ∷ ts) s all stays h =
      loop_on-Ended ts all s.cursor.offset (turn valid (suc slots) t s)
        (unfold turn in on_batch-Turned t s all t.seen stays.0 h)
        (λ s' h'. drain_file-Ended ts s' all stays.1 h')

  -- For a file that nobody writes to, whatever the control plane answers: what the loop has got accepted,
  -- followed by what is behind the cursor, is what was to be shipped; and where the file counts as
  -- drained, exactly the valid lines behind the first cursor have been accepted, in order, each once.
  pub drain_file-ships :
      (ts : List Turn) (s : Shipping)
      → Stays ts
      → s.cursor.inode ≡ ino
      → s.cursor.offset ≤ length c
      → let r = drain_file valid (suc slots) ts s in
        (r.1.accepted ++ events_from r.1.cursor.offset ≡ s.accepted ++ events_from s.cursor.offset)
        × (r.0 ≡ some true → r.1.accepted ≡ s.accepted ++ events_from s.cursor.offset)
  drain_file-ships ts s stays own within =
      let h =
        drain_file-Ended ts s (s.accepted ++ events_from s.cursor.offset) stays
          (refl, own, within) in
      (
        h.0.0,
        λ e.
            sym (append-nil (drain_file valid (suc slots) ts s).1.accepted)
            ∙ ap (λ (x : List Bytes). (drain_file valid (suc slots) ts s).1.accepted ++ x)
                (sym (h.1 e))
            ∙ h.0.0,
      )

  loop_on-ends :
      (ts : List Turn) (all : List Bytes) (offset : ℕ) (r : Next × Shipping)
      → Turned all offset r
      → ((s : Shipping)
          → Accounts all s
          → offset < s.cursor.offset
          → (drain_file valid (suc slots) ts s).0 ≢ none)
      → (loop_on ts r).0 ≢ none
  loop_on-ends ts all offset (finished b, s) h rest = λ e. ground (arith, e)
  loop_on-ends ts all offset (again, s) h rest = rest s h.0 (h.2 refl)

  ends :
      (ts : List Turn) (s : Shipping) (all : List Bytes)
      → Stays ts
      → Accounts all s
      → length c < length ts + s.cursor.offset
      → (drain_file valid (suc slots) ts s).0 ≢ none
  unfolding drain_file
  ends [] s all stays h enough = absurd (omega (arith, enough, h.2))
  ends (t ∷ ts) s all stays h enough =
      loop_on-ends ts all s.cursor.offset (turn valid (suc slots) t s)
        (unfold turn in on_batch-Turned t s all t.seen stays.0 h)
        (λ s' h' moved. ends ts s' all stays.1 h' (omega (arith, enough, moved)))

  -- The loop over a file that nobody writes to ends: one turn more than there are bytes behind the cursor
  -- is enough.
  pub drain_file-ends :
      (ts : List Turn) (s : Shipping)
      → Stays ts
      → s.cursor.inode ≡ ino
      → s.cursor.offset ≤ length c
      → length c < length ts + s.cursor.offset
      → (drain_file valid (suc slots) ts s).0 ≢ none
  drain_file-ends ts s stays own within enough =
      ends ts s (s.accepted ++ events_from s.cursor.offset) stays (refl, own, within) enough
