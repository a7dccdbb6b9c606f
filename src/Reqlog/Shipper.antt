-- ===== src/Reqlog/Shipper.antt =====
-- internal/reqlog/shipper.go: the cursor, readBatch, drainFile and drain.
-- A read is made in one step, and an offset is never negative. Which lines are valid JSON is a parameter.
pub mod Batches
pub mod Lossless
pub mod Rotation
use beamd.Prelude.{
  ℕ, zero, suc, ◌+◌, Bool, true, false, not, ◌&&◌, List, [], ◌∷◌, ◌++◌, Option, none, some, Bytes,
  codes, is_empty, ltb, ◌==◌, nat_eq, if◌then◌else◌, length, filter_by,
}

abbrev pub newline : ℕ
newline = 10

-- The file after so many bytes.
unfoldable pub seek : ℕ → Bytes → Bytes
seek zero c = c
seek (suc n) [] = []
seek (suc n) (b ∷ c) = seek n c

abbrev pub prepend : ℕ → List Bytes → List Bytes
prepend b [] = []
prepend b (l ∷ ls) = (b ∷ l) ∷ ls

-- What successive calls of ReadBytes give, each without its newline; a rest with no newline gives none.
unfoldable pub complete_lines : Bytes → List Bytes
complete_lines [] = []
complete_lines (b ∷ c) =
    if b == newline then [] ∷ complete_lines c else prepend b (complete_lines c)

-- The loop of readBatch: the lines that are not empty, and the bytes that are consumed.
abbrev pub keep_line : Bytes → List Bytes → List Bytes
keep_line l ls = if is_empty l then ls else l ∷ ls

abbrev pub slots_after : Bytes → ℕ → ℕ
slots_after l slots = if is_empty l then suc slots else slots

unfoldable pub read_lines : ℕ → List Bytes → List Bytes × ℕ
read_lines slots [] = ([], 0)
read_lines zero (l ∷ ls) = ([], 0)
read_lines (suc slots) (l ∷ ls) =
    let rest = read_lines (slots_after l slots) ls in (keep_line l rest.0, suc (length l) + rest.1)

-- What is at a path: nothing, a file that cannot be read, or a file with its inode.
pub data Seen : Type 0 where
  missing unreadable : Seen
  contents : ℕ → Bytes → Seen

pub data Batch : Type 0 where
  not_exist past_eof wrong_file failed : Batch
  batch : List Bytes → ℕ → Batch

abbrev pub of_read : List Bytes × ℕ → Batch
of_read r = batch r.0 r.1

unfoldable pub read_batch : Seen → ℕ → ℕ → ℕ → Batch
read_batch missing want offset max = not_exist
read_batch unreadable want offset max = failed
read_batch (contents ino c) want offset max =
    if not (want == 0) && not (ino == want)
    then wrong_file
    else if ltb (length c) offset
    then past_eof
    else of_read (read_lines max (complete_lines (seek offset c)))

pub record Cursor : Type 0 where
  pub inode : ℕ
  pub offset : ℕ

-- The cursor, the one in the file of the cursor, and the lines that the control plane has accepted.
pub record Shipping : Type 0 where
  pub cursor : Cursor
  pub saved : Cursor
  pub accepted : List Bytes

-- What one turn of the loop meets: the file, whether the control plane takes the batch, and whether the
-- cursor can be written.
pub record Turn : Type 0 where
  pub seen : Seen
  pub accepts : Bool
  pub writes : Bool

unfoldable pub save_cursor : Bool → Cursor → Shipping → Shipping
save_cursor writes c s = record s { cursor = c; saved = if writes then c else s.saved }

pub data Next : Type 0 where
  finished : Bool → Next
  again : Next

abbrev no_lines : List Bytes → Bool
no_lines [] = true
no_lines (l ∷ ls) = false

-- What drain leaves, and whether it has removed the rotated file.
pub record Drained : Type 0 where
  pub shipping : Shipping
  pub removed : Bool

module _ (valid : Bytes → Bool) (batch_size : ℕ) where
  -- A batch that is accepted moves the cursor; one with no valid line needs no request.
  unfoldable pub take_batch : Turn → List Bytes → ℕ → Shipping → Next × Shipping
  unfolding save_cursor
  take_batch t ls consumed s =
      let sent = filter_by valid ls in
      if consumed == 0
      then (finished true, s)
      else if not (no_lines sent) && not t.accepts
      then (finished false, s)
      else (
        again,
        save_cursor t.writes (record s.cursor { offset = s.cursor.offset + consumed })
            (record s { accepted = s.accepted ++ sent }),
      )

  unfoldable pub on_batch : Turn → Batch → Shipping → Next × Shipping
  unfolding save_cursor take_batch
  on_batch t not_exist s = (finished true, s)
  on_batch t past_eof s = (again, save_cursor t.writes (record s.cursor { offset = 0 }) s)
  on_batch t wrong_file s = (finished false, s)
  on_batch t failed s = (finished false, s)
  on_batch t (batch ls consumed) s = take_batch t ls consumed s

  -- One turn of the loop of drainFile.
  unfoldable pub turn : Turn → Shipping → Next × Shipping
  unfolding on_batch read_batch
  turn t s = on_batch t (read_batch t.seen s.cursor.inode s.cursor.offset batch_size) s

  -- drainFile over these turns; where they run out first, the loop has not ended.
  unfoldable pub drain_file : List Turn → Shipping → Option Bool × Shipping
  unfolding turn
  drain_file [] s = (none, s)
  drain_file (t ∷ ts) s =
      let after = turn t s in
      elim after.0 [ finished b ↦ (some b, after.1) | again ↦ drain_file ts after.1 ]

  abbrev pub drain_log : ℕ → Bool → List Turn → Shipping → Shipping
  drain_log ino writes turns s =
      (drain_file turns (save_cursor writes (record { inode = ino; offset = 0 }) s)).1

  -- After the loop over the rotated file: it is removed where it is finished, and then the log is drained
  -- from its start. `kept` is what the cursor is where the rotated file is not finished.
  unfoldable pub after_rotated :
      ℕ → Bool → List Turn → (Cursor → Cursor) → Option Bool × Shipping → Drained
  after_rotated ino writes turns kept (some true, s) = record {
    shipping = drain_log ino writes turns s;
    removed = true;
  }
  after_rotated ino writes turns kept (some false, s) = record {
    shipping = record s { cursor = kept s.cursor };
    removed = false;
  }
  after_rotated ino writes turns kept (none, s) = record {
    shipping = record s { cursor = kept s.cursor };
    removed = false;
  }

  -- The rotated file is of the generation that the cursor tracks, or it is shipped from its start.
  unfoldable pub drain_rotated : ℕ → Bool → List Turn → List Turn → Shipping → Option ℕ → Drained
  unfolding after_rotated
  drain_rotated ino writes old_turns turns s none = record {
    shipping = drain_log ino writes turns s;
    removed = false;
  }
  drain_rotated ino writes old_turns turns s (some old) =
      if not (s.cursor.inode == 0) && old == s.cursor.inode
      then after_rotated ino writes turns (λ c. c) (drain_file old_turns s)
      else after_rotated ino writes turns (λ c. s.cursor)
          (drain_file old_turns (record s { cursor = record { inode = old; offset = 0 } }))

  -- drain, with the inodes of the log and of the rotated file, and the turns of their loops.
  unfoldable pub drain : Option ℕ → Option ℕ → Bool → List Turn → List Turn → Shipping → Drained
  unfolding drain_rotated
  drain none rotated writes old_turns turns s = record { shipping = s; removed = false }
  drain (some ino) rotated writes old_turns turns s =
      if s.cursor.inode == ino && not (s.cursor.inode == 0)
      then record { shipping = (drain_file turns s).1; removed = false }
      else drain_rotated ino writes old_turns turns s rotated
