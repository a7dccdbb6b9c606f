-- ===== src/Reqlog/Sink.antt =====
-- internal/reqlog/file.go: the sink of request events, with its queue, its buffered writer and its count of
-- dropped events. Events are counted, not kept. What the disk answers is an argument of each operation.
pub mod Accounted
use beamd.Prelude.{
  ℕ, zero, suc, ◌+◌, Bool, true, false, not, ◌&&◌, Option, none, some, ltb, leb, if◌then◌else◌,
}

-- Events in the channel, in the writer's buffer since its last flush, and dropped. The last five fields
-- are no part of the program: they count the events recorded, those that a flush has brought to the log,
-- those of the rotated file, those of rotated files that a rotation has replaced, and those of rotated
-- files that the shipper has removed.
pub record Sink : Type 0 where
  pub queued : ℕ
  pub dropped : ℕ
  pub pending : ℕ
  pub is_open : Bool
  pub size : ℕ
  pub dirty : Bool
  pub rotate_blocked : Bool
  pub write_failed : Bool
  pub recorded : ℕ
  pub in_log : ℕ
  pub in_rotated : ℕ
  pub rolled_over : ℕ
  pub shipped : ℕ

-- FileSinkConfig
pub record SinkConfig : Type 0 where
  pub max_bytes : ℕ
  pub buffer : ℕ
  pub tailed : Bool

-- What an open meets: whether a torn line was cut off, and the size of the file if it opens.
pub record Opening : Type 0 where
  pub repaired : Bool
  pub opened : Option ℕ

-- Record
unfoldable pub record_event : SinkConfig → Sink → Sink
record_event cfg s =
    if ltb s.queued cfg.buffer
    then record s { queued = suc s.queued; recorded = suc s.recorded }
    else record s { dropped = suc s.dropped; recorded = suc s.recorded }

abbrev pub with_file : Option ℕ → Sink → Sink
with_file none s = record s { is_open = false; size = 0 }
with_file (some n) s = record s { is_open = true; size = n }

-- open, with openOrErr
unfoldable pub open_file : Opening → Sink → Sink
open_file o s = with_file o.opened (if o.repaired then record s { dropped = suc s.dropped } else s)

unfoldable pub reopen : Opening → Sink → Sink
unfolding open_file
reopen o s =
    open_file o (record s {
      dropped = s.dropped + s.pending;
      pending = 0;
      dirty = false;
      write_failed = false;
    })

-- The flush of a writer that loses its buffer where it fails.
abbrev pub flush_buffer : Bool → Sink → Sink
flush_buffer ok s = if ok then record s { in_log = s.in_log + s.pending } else s

-- The rename of the log, which replaces a rotated file that is still there.
abbrev pub rename_log : Bool → Sink → Sink
rename_log ok s =
    if ok
    then record s { rolled_over = s.rolled_over + s.in_rotated; in_rotated = s.in_log; in_log = 0 }
    else s

-- rotate, and what writeOne does after it: it forgets what was pending, whether the flush succeeded or not.
unfoldable pub rotate : Bool → Bool → Opening → Sink → Sink
unfolding open_file
rotate flushes renames o s =
    open_file o (rename_log renames (record (flush_buffer flushes s) { pending = 0 }))

-- The shipper removes the rotated file once it has shipped it.
abbrev pub remove_rotated : Sink → Sink
remove_rotated s = record s { shipped = s.shipped + s.in_rotated; in_rotated = 0 }

-- What the write of one event meets: the length of its line, if it can be encoded; the bytes that are
-- written, and whether all were; whether a rotated file exists; and what a rotation meets.
pub record Writing : Type 0 where
  pub line : Option ℕ
  pub bytes : ℕ
  pub complete : Bool
  pub rotated_exists : Bool
  pub flushes : Bool
  pub renames : Bool
  pub opening : Opening

unfoldable pub maybe_rotate : SinkConfig → Writing → Sink → Sink
unfolding rotate
maybe_rotate cfg w s =
    if not (leb cfg.max_bytes s.size)
    then s
    else if cfg.tailed && w.rotated_exists
    then record s { rotate_blocked = true }
    else rotate w.flushes w.renames w.opening (record s { rotate_blocked = false })

unfoldable pub write_line : SinkConfig → Writing → Option ℕ → Sink → Sink
unfolding maybe_rotate
write_line cfg w none s = record s { dropped = suc s.dropped }
write_line cfg w (some n) s =
    if not w.complete
    then record s {
      size = s.size + w.bytes;
      dirty = true;
      dropped = suc s.dropped;
      write_failed = true;
    }
    else maybe_rotate cfg w (record s { size = s.size + n; dirty = true; pending = suc s.pending })

unfoldable pub write_one : SinkConfig → Writing → Sink → Sink
unfolding write_line
write_one cfg w s =
    if not s.is_open then record s { dropped = suc s.dropped } else write_line cfg w w.line s

-- The writer takes an event from the channel, if there is one.
abbrev pub take_event : SinkConfig → Writing → ℕ → Sink → Sink
take_event cfg w zero s = s
take_event cfg w (suc n) s = write_one cfg w (record s { queued = n })

unfoldable pub flush_tick : Bool → Opening → Sink → Sink
unfolding reopen open_file
flush_tick flushes o s =
    if s.write_failed
    then reopen o s
    else if not s.is_open
    then open_file o s
    else if not s.dirty
    then s
    else if flushes
    then record s { in_log = s.in_log + s.pending; pending = 0; dirty = false }
    else reopen o s
