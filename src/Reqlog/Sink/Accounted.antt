-- ===== src/Reqlog/Sink/Accounted.antt =====
-- No event is lost silently, except by the flush of a rotation.
use beamd.Prelude.{
  ℕ, zero, suc, ◌+◌, ◌≤◌, ◌≡◌, refl, sym, subst, Bool, true, false, not, ◌&&◌, List, [], ◌∷◌,
  Option, none, some, arith, ltb, leb, if◌then◌else◌, if_cases, if_split,
}
use beamd.Reqlog.Sink.{
  Sink, SinkConfig, Opening, Writing, record_event, with_file, open_file, reopen, rename_log,
  rotate, remove_rotated, maybe_rotate, write_line, write_one, take_event, flush_tick,
}

-- Where the events are that were recorded, or what has become of them.
abbrev pub accounted : Sink → ℕ
accounted s = s.queued + s.pending + s.in_log + s.in_rotated + s.rolled_over + s.shipped + s.dropped

module _ (cfg : SinkConfig) where
  -- Each event recorded is in one of these places, and where a shipper tails the log no rotation has
  -- replaced events that were not shipped.
  abbrev pub IsAccounted : Sink → Type 0
  IsAccounted s = (s.recorded ≤ accounted s) × (cfg.tailed ≡ true → s.rolled_over ≡ 0)

  open_file-IsAccounted : (o : Opening) (s : Sink) → IsAccounted s → IsAccounted (open_file o s)
  unfolding open_file
  open_file-IsAccounted o s h =
      file o.opened (if o.repaired then record s { dropped = suc s.dropped } else s)
        (if_cases IsAccounted o.repaired (omega (arith, h.0), h.1) h)
    where
      file : (size : Option ℕ) (s' : Sink) → IsAccounted s' → IsAccounted (with_file size s')
      file none s' k = k
      file (some n) s' k = k

  reopen-IsAccounted : (o : Opening) (s : Sink) → IsAccounted s → IsAccounted (reopen o s)
  unfolding reopen
  reopen-IsAccounted o s h =
      open_file-IsAccounted o
        (record s {
          dropped = s.dropped + s.pending;
          pending = 0;
          dirty = false;
          write_failed = false;
        })
        (omega (arith, h.0), h.1)

  rename-IsAccounted :
      (ok : Bool) (s : Sink)
      → (cfg.tailed ≡ true → s.in_rotated ≡ 0)
      → IsAccounted s
      → IsAccounted (rename_log ok s)
  rename-IsAccounted ok s gone h =
      if_cases IsAccounted ok (omega (arith, h.0), λ tails. omega (arith, h.1 tails, gone tails)) h

  -- After a flush that succeeds the buffer may be forgotten.
  rotate-IsAccounted :
      (renames : Bool) (o : Opening) (s : Sink)
      → (cfg.tailed ≡ true → s.in_rotated ≡ 0)
      → IsAccounted s
      → IsAccounted (rotate true renames o s)
  unfolding rotate
  rotate-IsAccounted renames o s gone h =
      let flushed : Sink = record s { in_log = s.in_log + s.pending; pending = 0 } in
      open_file-IsAccounted o (rename_log renames flushed)
        (rename-IsAccounted renames flushed gone (omega (arith, h.0), h.1))

  -- The flush of a rotation succeeds, and a rotated file that is not there has no event left.
  abbrev pub Truthful : Writing → Sink → Type 0
  Truthful w s = (w.flushes ≡ true) × (w.rotated_exists ≡ false → s.in_rotated ≡ 0)

  maybe_rotate-IsAccounted :
      (w : Writing) (s : Sink) → Truthful w s → IsAccounted s → IsAccounted (maybe_rotate cfg w s)
  unfolding maybe_rotate
  maybe_rotate-IsAccounted w s t h = if_cases IsAccounted (not (leb cfg.max_bytes s.size)) h (
      if_split IsAccounted (cfg.tailed && w.rotated_exists) (λ blocked. h)
        (λ free.
          subst
            (λ (ok : Bool).
              IsAccounted (rotate ok w.renames w.opening (record s { rotate_blocked = false })))
            (sym t.0)
            (rotate-IsAccounted w.renames w.opening (record s { rotate_blocked = false })
              (λ tails. t.1 (ground (arith, free, tails))) h)))

  -- A line is written for an event that is in none of the counts.
  write_one-IsAccounted :
      (w : Writing) (s : Sink)
      → Truthful w s
      → s.recorded ≤ suc (accounted s)
      → (cfg.tailed ≡ true → s.rolled_over ≡ 0)
      → IsAccounted (write_one cfg w s)
  unfolding write_one write_line
  write_one-IsAccounted w s t h none_rolled =
      if_cases IsAccounted (not s.is_open) (omega (arith, h), none_rolled) (written w.line)
    where
      written : (line : Option ℕ) → IsAccounted (write_line cfg w line s)
      written none = (omega (arith, h), none_rolled)
      written (some n) =
          if_cases IsAccounted (not w.complete) (omega (arith, h), none_rolled)
            (maybe_rotate-IsAccounted w
              (record s { size = s.size + n; dirty = true; pending = suc s.pending }) t
              (omega (arith, h), none_rolled))

  take_event-IsAccounted :
      (w : Writing) (s : Sink) (n : ℕ)
      → s.queued ≡ n
      → Truthful w s
      → IsAccounted s
      → IsAccounted (take_event cfg w n s)
  take_event-IsAccounted w s zero at t h = h
  take_event-IsAccounted w s (suc n) at t h =
      write_one-IsAccounted w (record s { queued = n }) t (omega (arith, at, h.0)) h.1

  flush_tick-IsAccounted :
      (ok : Bool) (o : Opening) (s : Sink) → IsAccounted s → IsAccounted (flush_tick ok o s)
  unfolding flush_tick
  flush_tick-IsAccounted ok o s h = if_cases IsAccounted s.write_failed (reopen-IsAccounted o s h) (
      if_cases IsAccounted (not s.is_open) (open_file-IsAccounted o s h) (
        if_cases IsAccounted (not s.dirty) h
          (if_cases IsAccounted ok (omega (arith, h.0), h.1) (reopen-IsAccounted o s h))))

-- What happens to a sink: an event is recorded, the writer takes one, its ticker fires, or the shipper
-- removes the rotated file.
pub data Happens : Type 0 where
  records removes : Happens
  takes : Writing → Happens
  ticks : Bool → Opening → Happens

abbrev pub happen : SinkConfig → Happens → Sink → Sink
happen cfg records s = record_event cfg s
happen cfg removes s = remove_rotated s
happen cfg (takes w) s = take_event cfg w s.queued s
happen cfg (ticks ok o) s = flush_tick ok o s

abbrev pub run : SinkConfig → List Happens → Sink → Sink
run cfg [] s = s
run cfg (x ∷ xs) s = run cfg xs (happen cfg x s)

abbrev pub Sound : SinkConfig → Happens → Sink → Type 0
Sound cfg records s = Unit
Sound cfg removes s = Unit
Sound cfg (takes w) s = Truthful cfg w s
Sound cfg (ticks ok o) s = Unit

abbrev pub AllSound : SinkConfig → List Happens → Sink → Type 0
AllSound cfg [] s = Unit
AllSound cfg (x ∷ xs) s = Sound cfg x s × AllSound cfg xs (happen cfg x s)

happen-IsAccounted :
    (cfg : SinkConfig) (x : Happens) (s : Sink)
    → Sound cfg x s
    → IsAccounted cfg s
    → IsAccounted cfg (happen cfg x s)
unfolding record_event
happen-IsAccounted cfg records s ok h =
    if_cases (IsAccounted cfg) (ltb s.queued cfg.buffer) (omega (arith, h.0), h.1)
      (omega (arith, h.0), h.1)
happen-IsAccounted cfg removes s ok h = (omega (arith, h.0), h.1)
happen-IsAccounted cfg (takes w) s ok h = take_event-IsAccounted cfg w s s.queued refl ok h
happen-IsAccounted cfg (ticks flushes o) s ok h = flush_tick-IsAccounted cfg flushes o s h

-- Whatever the disk answers, as long as the flush of each rotation succeeds and a rotated file that is
-- found missing has no event left, and in whatever order events are recorded, taken and flushed and
-- rotated files are removed: each event recorded is in the channel, the buffer, the log or the rotated
-- file, or was in a rotated file that was removed or replaced, or counts as dropped; and where a shipper
-- tails the log, no rotation replaces a rotated file with events in it.
pub run-IsAccounted :
    (cfg : SinkConfig) (xs : List Happens) (s : Sink)
    → AllSound cfg xs s
    → IsAccounted cfg s
    → IsAccounted cfg (run cfg xs s)
run-IsAccounted cfg [] s ok h = h
run-IsAccounted cfg (x ∷ xs) s ok h =
    run-IsAccounted cfg xs (happen cfg x s) ok.1 (happen-IsAccounted cfg x s ok.0 h)
