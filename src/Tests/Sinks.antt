-- ===== src/Tests/Sinks.antt =====
-- Runs of the sink of request events, and an instance of its theorem.
use beamd.Prelude.{◌≡◌, refl, Bool, true, false, List, [], ◌∷◌, none, some, arith}
use beamd.Prelude.{Bytes, codes, ◌++◌, take, nat_eq}
use beamd.Reqlog.Shipper.{newline, seek, complete_lines}
use beamd.Reqlog.Tail.{last_break, repair_tail, scan_back}
use beamd.Reqlog.Tail.Repaired.{or_zero, repair_tail-IsRepaired}
use beamd.Reqlog.Sink.{
  Sink, SinkConfig, Writing, record_event, open_file, rotate, maybe_rotate, write_line, write_one,
}
use beamd.Reqlog.Sink.Accounted.{
  accounted, IsAccounted, Happens, records, takes, ticks, run, run-IsAccounted,
}

abbrev small : SinkConfig
small = record { max_bytes = 100; buffer = 1; tailed = true }

abbrev empty : Sink
empty = record {
  queued = 0;
  dropped = 0;
  pending = 0;
  is_open = true;
  size = 0;
  dirty = false;
  rotate_blocked = false;
  write_failed = false;
  recorded = 0;
  in_log = 0;
  in_rotated = 0;
  rolled_over = 0;
  shipped = 0;
}

-- A line that makes the file full, and the rotation after it.
abbrev filling : Bool → Writing
filling flushes = record {
  line = some 120;
  bytes = 120;
  complete = true;
  rotated_exists = false;
  flushes = flushes;
  renames = true;
  opening = record { repaired = false; opened = some 0 };
}

-- Of two events in a row the channel has room for one.
abbrev busy : List Happens
busy =
    records
    ∷ records
    ∷ takes (filling true)
    ∷ records
    ∷ ticks false (record { repaired = false; opened = none })
    ∷ []

run-IsAccounted_example : IsAccounted small (run small busy empty)
unfolding record_event
run-IsAccounted_example =
    run-IsAccounted small busy empty (tt, (tt, ((refl, λ e. refl), (tt, (tt, tt)))))
      (omega arith, λ e. refl)

-- The flush of a rotation fails: the event is neither in the file nor counted as dropped.
abbrev lost : Sink
lost = run small (records ∷ takes (filling false) ∷ []) empty

silent_loss : (lost.recorded ≡ 1) × (accounted lost ≡ 0)
unfolding record_event write_one write_line maybe_rotate rotate open_file
silent_loss = (refl, refl)

abbrev torn : Bytes
torn = codes "{1}" ++ newline ∷ codes "{22222"

-- The newline is in the second chunk from the end.
repair_run : repair_tail 4 torn ≡ (codes "{1}" ++ newline ∷ [], true)
unfolding repair_tail scan_back last_break seek
repair_run = refl

repair_tail-IsRepaired_example :
    ((repair_tail 4 torn).0 ≡ take (or_zero (last_break torn)) torn)
    × (complete_lines (repair_tail 4 torn).0 ≡ complete_lines torn)
repair_tail-IsRepaired_example = repair_tail-IsRepaired 4 torn (omega arith)
