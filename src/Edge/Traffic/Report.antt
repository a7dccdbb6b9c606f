-- ===== src/Edge/Traffic/Report.antt =====
-- The lease comes back once the stream is over, and what a closed connection reports.
use beamd.Prelude.{
  ℕ, ◌+◌, ◌%◌, ◌≡◌, refl, sym, ap, subst, Bool, true, false, List, [], ◌∷◌, arith, ltb, if_cases,
  if_split, if◌then◌else◌,
}
use beamd.Edge.Traffic.{word}
use beamd.Edge.Traffic.Lease.{
  Watcher, selecting, closing, draining, over, LeasedConn, new_leased_conn, finalize, abort,
  IoError, no_error, end_of_file, other_error, counting_read, counting_write, read, write, close,
  Choice, by_stream, watch_closing, watch_selecting, watch_from, watch, Event, watches, step, run,
}
use beamd.Edge.Traffic.Watch.{at_end, run-IsPaired, new-IsPaired}

watch_at :
    (c : LeasedConn) (w : Watcher) (x : Choice) → c.watcher ≡ w → watch c x ≡ watch_from w c x
unfolding watch
watch_at c w x at = ap (λ (v : Watcher). watch_from v c x) at

-- The lease is back after one more step.
abbrev OneMore : LeasedConn → Type 0
OneMore d = (watch d by_stream).released ≡ 1

draining-OneMore :
    (c : LeasedConn) → c.watcher ≡ draining → c.stream_done ≡ true → c.released ≡ 0 → OneMore c
draining-OneMore c at done fresh =
    subst (λ (d : LeasedConn). d.released ≡ 1) (sym (watch_at c draining by_stream at))
      (unfold watch_from in
        if_split (λ (d : LeasedConn). d.released ≡ 1) c.stream_done
          (λ t. ap (λ (n : ℕ). n + 1) fresh) (λ f. ground arith))

over-OneMore : (c : LeasedConn) → c.watcher ≡ over → c.released ≡ 1 → OneMore c
over-OneMore c at back =
    subst (λ (d : LeasedConn). d.released ≡ 1) (sym (watch_at c over by_stream at))
      (unfold watch_from in back)

after_one :
    (c : LeasedConn) (w : Watcher)
    → c.stream_done ≡ true
    → c.watcher ≡ w
    → c.released ≡ at_end w
    → OneMore (watch_from w c by_stream)
unfolding watch_from watch_selecting watch_closing
after_one c selecting done at fresh =
    if_split OneMore c.stream_done
      (λ t. draining-OneMore (record c { watcher = draining }) refl done fresh) (λ f. ground arith)
after_one c closing done at fresh =
    if_split OneMore c.stream_done
      (λ t. draining-OneMore (record c { watcher = draining }) refl done fresh) (λ f. ground arith)
after_one c draining done at fresh =
    if_split OneMore c.stream_done
      (λ t.
        over-OneMore (record (finalize c) { released = c.released + 1; watcher = over }) refl
          (ap (λ (n : ℕ). n + 1) fresh))
      (λ f. ground arith)
after_one c over done at back = over-OneMore c at back

-- Liveness: after any events of a connection, once its stream is over, two more steps of the watcher
-- that take the stream's Done channel give the lease back, exactly once.
pub run-returns :
    (canceled : Bool) (es : List Event)
    → (run es (new_leased_conn canceled)).stream_done ≡ true
    → (run
        (watches by_stream ∷ watches by_stream ∷ [])
        (run es (new_leased_conn canceled))).released
      ≡ 1
run-returns canceled es done =
    let c = run es (new_leased_conn canceled) in
    let p = run-IsPaired es (new_leased_conn canceled) (new-IsPaired canceled) in
    unfold run step in
    subst OneMore (sym (watch_at c c.watcher by_stream refl))
      (after_one c c.watcher done refl p.one_release)

-- What a connection carries: reads of the response and writes of the request.
pub data Io : Type 0 where
  reading : ℕ → IoError → Io
  writing : ℕ → IoError → Io

abbrev pub carry : List Io → LeasedConn → LeasedConn
carry [] c = c
carry (reading n e ∷ ios) c = carry ios (read c n e)
carry (writing n e ∷ ios) c = carry ios (write c n e)

abbrev pub sent : List Io → ℕ
sent [] = 0
sent (reading n e ∷ ios) = sent ios
sent (writing n e ∷ ios) = n + sent ios

abbrev pub received : List Io → ℕ
received [] = 0
received (reading n e ∷ ios) = n + received ios
received (writing n e ∷ ios) = received ios

-- The counts of a connection that has not reported yet.
abbrev Counts : ℕ → ℕ → LeasedConn → Type 0
Counts i o c = (c.in_ ≡ i % word) × (c.out ≡ o % word) × (c.once ≡ false) × (c.reports ≡ [])

counting_read-Counts :
    (c : LeasedConn) (i o n : ℕ) → Counts i o c → Counts i (n + o) (counting_read c n)
unfolding counting_read
counting_read-Counts c i o n h =
    if_split (Counts i (n + o)) (ltb 0 n) (λ some_. (h.0, omega (arith, h.1), h.2, h.3))
      (λ nothing. (h.0, ground (arith, h.1, nothing), h.2, h.3))

counting_write-Counts :
    (c : LeasedConn) (i o n : ℕ) → Counts i o c → Counts (n + i) o (counting_write c n)
unfolding counting_write
counting_write-Counts c i o n h =
    if_split (Counts (n + i) o) (ltb 0 n) (λ some_. (omega (arith, h.0), h.1, h.2, h.3))
      (λ nothing. (ground (arith, h.0, nothing), h.1, h.2, h.3))

read-Counts :
    (c : LeasedConn) (i o n : ℕ) (e : IoError) → Counts i o c → Counts i (n + o) (read c n e)
unfolding read abort
read-Counts c i o n no_error h = counting_read-Counts c i o n h
read-Counts c i o n end_of_file h = counting_read-Counts c i o n h
read-Counts c i o n other_error h = counting_read-Counts c i o n h

write-Counts :
    (c : LeasedConn) (i o n : ℕ) (e : IoError) → Counts i o c → Counts (n + i) o (write c n e)
unfolding write abort
write-Counts c i o n no_error h = counting_write-Counts c i o n h
write-Counts c i o n end_of_file h = counting_write-Counts c i o n h
write-Counts c i o n other_error h = counting_write-Counts c i o n h

carry-Counts :
    (ios : List Io) (c : LeasedConn) (i o : ℕ)
    → Counts i o c
    → Counts (sent ios + i) (received ios + o) (carry ios c)
carry-Counts [] c i o h = (omega (arith, h.0), omega (arith, h.1), h.2, h.3)
carry-Counts (reading n e ∷ ios) c i o h =
    let k = carry-Counts ios (read c n e) i (n + o) (read-Counts c i o n e h) in
    (k.0, omega (arith, k.1), k.2, k.3)
carry-Counts (writing n e ∷ ios) c i o h =
    let k = carry-Counts ios (write c n e) (n + i) o (write-Counts c i o n e h) in
    (omega (arith, k.0), k.1, k.2, k.3)

finalize-Counts :
    (c : LeasedConn) (i o : ℕ) → Counts i o c → (finalize c).reports ≡ (i % word, o % word) ∷ []
unfolding finalize
finalize-Counts c i o h =
    if_split (λ (d : LeasedConn). d.reports ≡ (i % word, o % word) ∷ []) c.once
      (λ done. ground (arith, done, h.2)) (λ first. λ j. (h.0 j, h.1 j) ∷ h.3 j)

-- A connection that is closed after any reads and writes, failing ones included, reports all the bytes
-- that it wrote and read, as an int64 counts them, whether or not its context is over.
pub close-carry :
    (canceled fails : Bool) (ios : List Io)
    → (close (carry ios (new_leased_conn canceled)) fails).reports
      ≡ (sent ios % word, received ios % word) ∷ []
unfolding close abort
close-carry canceled fails ios =
    let c = carry ios (new_leased_conn canceled) in
    let k =
      carry-Counts ios (new_leased_conn canceled) 0 0
        (unfold new_leased_conn in (refl, refl, refl, refl)) in
    let told = if c.canceled then abort c else record c { normal_close = true } in
    let all : Counts (sent ios) (received ios) c =
      (omega (arith, k.0), omega (arith, k.1), k.2, k.3) in
    let h : Counts (sent ios) (received ios) told =
      if_cases (Counts (sent ios) (received ios)) c.canceled all all in
    let r = finalize-Counts told (sent ios) (received ios) h in
    if_cases (λ (d : LeasedConn). d.reports ≡ (sent ios % word, received ios % word) ∷ []) fails r r
