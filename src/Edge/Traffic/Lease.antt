-- ===== src/Edge/Traffic/Lease.antt =====
-- traffic.go, countingConn and leasedConn: the connection of one request, and the watcher that gives its
-- admission lease back.
use beamd.Prelude.{ℕ, ◌+◌, Bool, true, false, List, [], ◌∷◌, ltb, if◌then◌else◌}
use beamd.Edge.Traffic.{plus64}

-- Where the goroutine of watch is: at its first select, at the one after a normal close, at the receive
-- from the stream's Done channel, or at its end.
pub data Watcher : Type 0 where
  selecting : Watcher
  closing : Watcher
  draining : Watcher
  over : Watcher

-- leasedConn with its countingConn. `stream_done` says whether the stream's Done channel is closed,
-- `aborts` counts the calls of Abort, `reports` are the calls of onClose, `released` counts those of onDone.
pub record LeasedConn : Type 0 where
  pub canceled : Bool
  pub normal_close : Bool
  pub stream_done : Bool
  pub aborts : ℕ
  pub in_ : ℕ
  pub out : ℕ
  pub activity : ℕ
  pub once : Bool
  pub reports : List (ℕ × ℕ)
  pub released : ℕ
  pub watcher : Watcher

-- newLeasedConn, whose context may be over already.
unfoldable pub new_leased_conn : Bool → LeasedConn
new_leased_conn canceled = record {
  canceled = canceled;
  normal_close = false;
  stream_done = false;
  aborts = 0;
  in_ = 0;
  out = 0;
  activity = 0;
  once = false;
  reports = [];
  released = 0;
  watcher = selecting;
}

unfoldable pub finalize : LeasedConn → LeasedConn
finalize c = if c.once then c else record c { once = true; reports = (c.in_, c.out) ∷ c.reports }

unfoldable pub abort : LeasedConn → LeasedConn
abort c = record c { aborts = c.aborts + 1 }

pub data IoError : Type 0 where
  no_error end_of_file other_error : IoError

-- countingConn.Read, of `n` bytes.
unfoldable pub counting_read : LeasedConn → ℕ → LeasedConn
counting_read c n =
    if ltb 0 n then record c { out = plus64 c.out n; activity = c.activity + 1 } else c

unfoldable pub counting_write : LeasedConn → ℕ → LeasedConn
counting_write c n =
    if ltb 0 n then record c { in_ = plus64 c.in_ n; activity = c.activity + 1 } else c

-- leasedConn.Read
unfoldable pub read : LeasedConn → ℕ → IoError → LeasedConn
unfolding counting_read abort
read c n no_error = counting_read c n
read c n end_of_file = counting_read c n
read c n other_error = abort (counting_read c n)

-- leasedConn.Write
unfoldable pub write : LeasedConn → ℕ → IoError → LeasedConn
unfolding counting_write abort
write c n no_error = counting_write c n
write c n end_of_file = abort (counting_write c n)
write c n other_error = abort (counting_write c n)

-- leasedConn.Close; `fails` says whether the stream's own Close returns an error.
unfoldable pub close : LeasedConn → Bool → LeasedConn
unfolding abort finalize
close c fails =
    let told = if c.canceled then abort c else record c { normal_close = true } in
    if fails then abort (finalize told) else finalize told

-- The case of a select that is taken.
pub data Choice : Type 0 where
  by_context by_normal_close by_stream : Choice

-- The select after a normal close.
unfoldable pub watch_closing : LeasedConn → Choice → LeasedConn
unfolding abort
watch_closing c by_context = if c.canceled then record (abort c) { watcher = draining } else c
watch_closing c by_normal_close = c
watch_closing c by_stream = if c.stream_done then record c { watcher = draining } else c

-- The first select.
unfoldable pub watch_selecting : LeasedConn → Choice → LeasedConn
unfolding abort
watch_selecting c by_context = if c.canceled then record (abort c) { watcher = draining } else c
watch_selecting c by_normal_close = if c.normal_close then record c { watcher = closing } else c
watch_selecting c by_stream = if c.stream_done then record c { watcher = draining } else c

-- One step of watch; a case that is not ready is not taken.
unfoldable pub watch_from : Watcher → LeasedConn → Choice → LeasedConn
unfolding watch_selecting watch_closing finalize
watch_from selecting c choice = watch_selecting c choice
watch_from closing c choice = watch_closing c choice
watch_from draining c choice =
    if c.stream_done then record (finalize c) { released = c.released + 1; watcher = over } else c
watch_from over c choice = c

unfoldable pub watch : LeasedConn → Choice → LeasedConn
unfolding watch_from
watch c choice = watch_from c.watcher c choice

pub data Event : Type 0 where
  reads : ℕ → IoError → Event
  writes : ℕ → IoError → Event
  closes : Bool → Event
  cancels : Event
  stream_ends : Event
  watches : Choice → Event

unfoldable pub step : Event → LeasedConn → LeasedConn
unfolding read write close watch
step (reads n e) c = read c n e
step (writes n e) c = write c n e
step (closes fails) c = close c fails
step cancels c = record c { canceled = true }
step stream_ends c = record c { stream_done = true }
step (watches choice) c = watch c choice

unfoldable pub run : List Event → LeasedConn → LeasedConn
unfolding step
run [] c = c
run (e ∷ es) c = run es (step e c)
