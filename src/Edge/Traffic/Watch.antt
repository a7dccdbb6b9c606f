-- ===== src/Edge/Traffic/Watch.antt =====
-- One report and one release for each connection.
use beamd.Prelude.{
  ℕ, ◌+◌, ◌≡◌, ◌≢◌, ◌∙◌, refl, sym, ap, Bool, true, ◌&&◌, ◌||◌, ◌==◌, nat_eq, List, [], ◌∷◌, arith,
  ltb, length, if_cases, if_split, if◌then◌else◌,
}
use beamd.Edge.Traffic.{plus64}
use beamd.Edge.Traffic.Lease.{
  Watcher, selecting, closing, draining, over, LeasedConn, new_leased_conn, finalize, abort,
  IoError, no_error, end_of_file, other_error, counting_read, counting_write, read, write, close,
  Choice, by_context, by_normal_close, by_stream, watch_closing, watch_selecting, watch_from, watch,
  Event, reads, writes, closes, cancels, stream_ends, watches, step, run,
}

abbrev pub at_end : Watcher → ℕ
at_end selecting = 0
at_end closing = 0
at_end draining = 0
at_end over = 1

-- The report was made where the once was taken, and the lease is back where the watcher is over.
pub record IsPaired (c : LeasedConn) : Type 0 where
  pub one_report : length c.reports ≡ (if c.once then 1 else 0)
  pub one_release : c.released ≡ at_end c.watcher
  pub after_stream : (c.released == 0 || (c.stream_done && c.once)) ≡ true

finalize-IsPaired : (c : LeasedConn) → IsPaired c → IsPaired (finalize c)
unfolding finalize
finalize-IsPaired c p =
    if_split IsPaired c.once (λ done. p)
      λ first. record {
        one_report = ground (arith, p.one_report);
        one_release = p.one_release;
        after_stream = ground (arith, p.after_stream);
      }

-- What the reads, the writes and the aborts change is not part of it.
with_counts :
    (c : LeasedConn) (i o a n : ℕ) (canceled closed : Bool)
    → IsPaired c
    → IsPaired (record c {
      in_ = i;
      out = o;
      activity = a;
      aborts = n;
      canceled = canceled;
      normal_close = closed;
    })
with_counts c i o a n canceled closed p = record {
  one_report = p.one_report;
  one_release = p.one_release;
  after_stream = p.after_stream;
}

abort-IsPaired : (c : LeasedConn) → IsPaired c → IsPaired (abort c)
unfolding abort
abort-IsPaired c p = with_counts c c.in_ c.out c.activity (c.aborts + 1) c.canceled c.normal_close p

counting_read-IsPaired : (c : LeasedConn) (n : ℕ) → IsPaired c → IsPaired (counting_read c n)
unfolding counting_read
counting_read-IsPaired c n p =
    if_cases IsPaired (ltb 0 n)
      (with_counts c c.in_ (plus64 c.out n) (c.activity + 1) c.aborts c.canceled c.normal_close p) p

counting_write-IsPaired : (c : LeasedConn) (n : ℕ) → IsPaired c → IsPaired (counting_write c n)
unfolding counting_write
counting_write-IsPaired c n p =
    if_cases IsPaired (ltb 0 n)
      (with_counts c (plus64 c.in_ n) c.out (c.activity + 1) c.aborts c.canceled c.normal_close p) p

read-IsPaired : (c : LeasedConn) (n : ℕ) (e : IoError) → IsPaired c → IsPaired (read c n e)
unfolding read
read-IsPaired c n no_error p = counting_read-IsPaired c n p
read-IsPaired c n end_of_file p = counting_read-IsPaired c n p
read-IsPaired c n other_error p = abort-IsPaired (counting_read c n) (counting_read-IsPaired c n p)

write-IsPaired : (c : LeasedConn) (n : ℕ) (e : IoError) → IsPaired c → IsPaired (write c n e)
unfolding write
write-IsPaired c n no_error p = counting_write-IsPaired c n p
write-IsPaired c n end_of_file p =
    abort-IsPaired (counting_write c n) (counting_write-IsPaired c n p)
write-IsPaired c n other_error p =
    abort-IsPaired (counting_write c n) (counting_write-IsPaired c n p)

close-IsPaired : (c : LeasedConn) (fails : Bool) → IsPaired c → IsPaired (close c fails)
unfolding close
close-IsPaired c fails p =
    let told = if c.canceled then abort c else record c { normal_close = true } in
    let h : IsPaired told =
      if_cases IsPaired c.canceled (abort-IsPaired c p)
        (with_counts c c.in_ c.out c.activity c.aborts c.canceled true p) in
    let done = finalize-IsPaired told h in
    if_cases IsPaired fails (abort-IsPaired (finalize told) done) done

-- The watcher goes from one place to another before its end.
moves :
    (c : LeasedConn) (w : Watcher)
    → at_end c.watcher ≡ 0
    → at_end w ≡ 0
    → IsPaired c
    → IsPaired (record c { watcher = w })
moves c w from to p = record {
  one_report = p.one_report;
  one_release = p.one_release ∙ from ∙ sym to;
  after_stream = p.after_stream;
}

abort_watcher : (c : LeasedConn) → (abort c).watcher ≡ c.watcher
unfolding abort
abort_watcher c = refl

selecting-IsPaired :
    (c : LeasedConn) (choice : Choice)
    → at_end c.watcher ≡ 0
    → IsPaired c
    → IsPaired (watch_selecting c choice)
unfolding watch_selecting
selecting-IsPaired c by_context at p =
    if_cases IsPaired c.canceled
      (moves (abort c) draining (ap at_end (abort_watcher c) ∙ at) refl (abort-IsPaired c p)) p
selecting-IsPaired c by_normal_close at p =
    if_cases IsPaired c.normal_close (moves c closing at refl p) p
selecting-IsPaired c by_stream at p = if_cases IsPaired c.stream_done (moves c draining at refl p) p

closing-IsPaired :
    (c : LeasedConn) (choice : Choice)
    → at_end c.watcher ≡ 0
    → IsPaired c
    → IsPaired (watch_closing c choice)
unfolding watch_closing
closing-IsPaired c by_context at p =
    if_cases IsPaired c.canceled
      (moves (abort c) draining (ap at_end (abort_watcher c) ∙ at) refl (abort-IsPaired c p)) p
closing-IsPaired c by_normal_close at p = p
closing-IsPaired c by_stream at p = if_cases IsPaired c.stream_done (moves c draining at refl p) p

finalized :
    (c : LeasedConn)
    → ((finalize c).once ≡ true)
      × ((finalize c).stream_done ≡ c.stream_done)
      × ((finalize c).released ≡ c.released)
unfolding finalize
finalized c =
    if_split
      (λ (d : LeasedConn).
        (d.once ≡ true) × (d.stream_done ≡ c.stream_done) × (d.released ≡ c.released))
      c.once (λ done. (done, refl, refl)) (λ first. (refl, refl, refl))

watch_from-IsPaired :
    (c : LeasedConn) (w : Watcher) (choice : Choice)
    → c.watcher ≡ w
    → IsPaired c
    → IsPaired (watch_from w c choice)
unfolding watch_from
watch_from-IsPaired c selecting choice at p = selecting-IsPaired c choice (ap at_end at) p
watch_from-IsPaired c closing choice at p = closing-IsPaired c choice (ap at_end at) p
watch_from-IsPaired c draining choice at p =
    let f = finalized c in
    if_split IsPaired c.stream_done
      (λ done. record {
        one_report = (finalize-IsPaired c p).one_report;
        one_release = ap (λ (n : ℕ). n + 1) (p.one_release ∙ ap at_end at);
        after_stream = ground (arith, f.0, f.1, done);
      })
      (λ waits. p)
watch_from-IsPaired c over choice at p = p

step-IsPaired : (e : Event) (c : LeasedConn) → IsPaired c → IsPaired (step e c)
unfolding step watch
step-IsPaired (reads n e) c p = read-IsPaired c n e p
step-IsPaired (writes n e) c p = write-IsPaired c n e p
step-IsPaired (closes fails) c p = close-IsPaired c fails p
step-IsPaired cancels c p = with_counts c c.in_ c.out c.activity c.aborts true c.normal_close p
step-IsPaired stream_ends c p = record {
  one_report = p.one_report;
  one_release = p.one_release;
  after_stream = ground (arith, p.after_stream);
}
step-IsPaired (watches choice) c p = watch_from-IsPaired c c.watcher choice refl p

pub run-IsPaired : (es : List Event) (c : LeasedConn) → IsPaired c → IsPaired (run es c)
unfolding run
run-IsPaired [] c p = p
run-IsPaired (e ∷ es) c p = run-IsPaired es (step e c) (step-IsPaired e c p)

pub new-IsPaired : (canceled : Bool) → IsPaired (new_leased_conn canceled)
unfolding new_leased_conn
new-IsPaired canceled = record { one_report = refl; one_release = refl; after_stream = refl }

released_lem :
    (c : LeasedConn)
    → IsPaired c
    → c.released ≢ 0
    → (c.released ≡ 1) × (c.stream_done ≡ true) × (length c.reports ≡ 1)
released_lem c p back = released_at c c.watcher p.one_release p back
  where
    released_at :
        (d : LeasedConn) (w : Watcher)
        → d.released ≡ at_end w
        → IsPaired d
        → d.released ≢ 0
        → (d.released ≡ 1) × (d.stream_done ≡ true) × (length d.reports ≡ 1)
    released_at d over e q n =
        (e, ground (arith, q.after_stream, n), ground (arith, q.after_stream, q.one_report, n))
    released_at d selecting e q n = ground (arith, e, n)
    released_at d closing e q n = ground (arith, e, n)
    released_at d draining e q n = ground (arith, e, n)

-- Whatever the reads, the writes, the closes, the visitor's context, the stream and the watcher do, in
-- whatever order: a connection that has given its lease back has done so once, only when both directions
-- of its stream were over, and has reported its bytes exactly once.
pub run-released :
    (canceled : Bool) (es : List Event)
    → (run es (new_leased_conn canceled)).released ≢ 0
    → ((run es (new_leased_conn canceled)).released ≡ 1)
      × ((run es (new_leased_conn canceled)).stream_done ≡ true)
      × (length (run es (new_leased_conn canceled)).reports ≡ 1)
run-released canceled es back =
    released_lem (run es (new_leased_conn canceled))
      (run-IsPaired es (new_leased_conn canceled) (new-IsPaired canceled)) back
