-- ===== src/Tunnel/Yamux.antt =====
-- internal/tunnel/yamux.go: the streams of a yamux session, and the gate that its openers pass. A
-- critical section is one step; the Read of drainReceive is a later read of the stream.
pub mod Run
pub mod Gate
pub mod Openers
pub mod Streams
pub mod Lifetime
use beamd.Prelude.{
  ℕ, ◌+◌, ◌-◌, Bool, true, false, not, ◌&&◌, ◌||◌, List, [], ◌∷◌, Option, none, some, codes, ltb,
  ◌==◌, nat_eq, if◌then◌else◌, lookup, insert,
}
use beamd.Client.{CloseInfo, ErrorCode, close_normal}
use beamd.Tunnel.Session.{
  Utf8, Session, Finisher, idle, ending, gone, new_session_state, claim, register, child_done,
  begin_finish, finish_next, is_closed,
}

-- yamuxStream; `timer` says whether closeTimer is armed.
pub record YamuxStream : Type 0 where
  pub local_closed : Bool
  pub remote_done : Bool
  pub completed : Bool
  pub timer : Bool
  pub holds_open_slot : Bool

-- YamuxSession. The gate holds `slots` tokens of `limit`; `opening` calls of OpenStream have passed it
-- and have no stream yet; `panicked` says whether releaseOpenSlot found the gate empty.
pub record YamuxSession : Type 0 where
  pub state : Session
  pub raw_closed : Bool
  pub streams : List (ℕ × YamuxStream)
  pub slots : ℕ
  pub limit : ℕ
  pub opening : ℕ
  pub panicked : Bool

unfoldable pub release_open_slot : YamuxSession → YamuxSession
release_open_slot w =
    if w.slots == 0 then record w { panicked = true } else record w { slots = w.slots - 1 }

unfoldable pub new_yamux_stream : Bool → YamuxStream
new_yamux_stream holds = record {
  local_closed = false;
  remote_done = false;
  completed = false;
  timer = false;
  holds_open_slot = holds;
}

-- complete, the first time: the timer is stopped, and the slot of an opener is given back.
unfoldable pub end_stream : YamuxSession → ℕ → YamuxStream → YamuxSession
unfolding release_open_slot
end_stream w id y =
    let closed = record w {
      streams = insert id (record y { completed = true; timer = false }) w.streams;
    } in
    if y.holds_open_slot then release_open_slot closed else closed

-- complete, up to childDone; doneOnce lets it do nothing the second time.
unfoldable pub complete_stream : YamuxSession → ℕ → YamuxStream → YamuxSession
unfolding end_stream
complete_stream w id y = if y.completed then w else end_stream w id y

-- complete
unfoldable pub complete : YamuxSession → ℕ → YamuxStream → YamuxSession
unfolding end_stream child_done
complete w id y =
    if y.completed then w else record (end_stream w id y) { state = child_done w.state id }

-- What is done to a stream; nothing where there is none.
unfoldable pub at_stream :
    YamuxSession → Option YamuxStream → (YamuxStream → YamuxSession) → YamuxSession
at_stream w none act = w
at_stream w (some y) act = act y

-- The flags that markLocalClosed leaves.
unfoldable pub locally_closed : YamuxStream → YamuxStream
locally_closed y =
    if y.local_closed
    then y
    else record y { local_closed = true; timer = y.timer || (not y.completed && not y.remote_done) }

-- The stream is written back, and it is completed where both directions are over.
unfoldable pub put_back : YamuxSession → ℕ → YamuxStream → YamuxSession
unfolding complete
put_back w id y =
    let kept = record w { streams = insert id y w.streams } in
    if y.local_closed && y.remote_done then complete kept id y else kept

unfoldable pub mark_local_closed : YamuxSession → ℕ → YamuxStream → YamuxSession
unfolding locally_closed put_back
mark_local_closed w id y = put_back w id (locally_closed y)

unfoldable pub mark_remote_done : YamuxSession → ℕ → YamuxStream → YamuxSession
unfolding put_back
mark_remote_done w id y = put_back w id (record y { remote_done = true })

-- Read: an end of the stream or a reset ends the direction.
pub data ReadError : Type 0 where
  no_error eof connection_reset session_shutdown other_read_error : ReadError

unfoldable pub read : YamuxSession → ℕ → YamuxStream → ReadError → YamuxSession
unfolding mark_remote_done
read w id y eof = mark_remote_done w id y
read w id y connection_reset = mark_remote_done w id y
read w id y no_error = w
read w id y session_shutdown = w
read w id y other_read_error = w

-- The call of closeTimer.
unfoldable pub timer_fires : YamuxSession → ℕ → YamuxStream → YamuxSession
unfolding complete
timer_fires w id y = if y.timer then complete w id y else w

pub data OpenError : Type 0 where
  context_over session_closed open_failed : OpenError

-- OpenStream up to the gate. `expired` says whether the context is over; where the gate is full, the
-- call waits until the context or the session ends.
unfoldable pub open_begins : YamuxSession → Bool → OpenError → YamuxSession × Option OpenError
open_begins w expired waited =
    if expired
    then (w, some context_over)
    else if is_closed w.state || w.raw_closed
    then (w, some session_closed)
    else if ltb w.slots w.limit
    then (record w { slots = w.slots + 1; opening = w.opening + 1 }, none)
    else (w, some waited)

-- registerYamuxStream: a stream of a terminal session is aborted and completed.
unfoldable pub register_yamux_stream : YamuxSession → ℕ → Bool → YamuxSession × Option OpenError
unfolding register new_yamux_stream mark_local_closed at_stream complete
register_yamux_stream w id holds =
    let fresh = new_yamux_stream holds in
    let put = record w { state = (register w.state id).0; streams = insert id fresh w.streams } in
    if (register w.state id).1
    then (put, none)
    else let aborted = mark_local_closed put id fresh in
      (at_stream aborted (lookup id aborted.streams) (complete aborted id), some session_closed)

-- How an OpenStream of the raw session comes out.
pub data OpenEnd : Type 0 where
  raw_stream : ℕ → OpenEnd
  raw_failed : OpenEnd
  expires : CloseInfo → OpenEnd
  session_over : OpenEnd

-- The slot of an opener that gets no stream.
unfoldable pub give_up : YamuxSession → YamuxSession
unfolding release_open_slot
give_up w = record (release_open_slot w) { opening = w.opening - 1 }

-- OpenStream after the gate, for a call that has passed it: what follows the answer of the raw session or
-- the end of the context is one step.
unfoldable pub open_ends : Utf8 → YamuxSession → OpenEnd → YamuxSession × Option OpenError
unfolding register_yamux_stream give_up claim begin_finish
open_ends utf8 w (raw_stream id) =
    register_yamux_stream (record w { opening = w.opening - 1 }) id true
open_ends utf8 w raw_failed = (give_up w, some open_failed)
open_ends utf8 w session_over = (give_up w, some session_closed)
open_ends utf8 w (expires info) =
    let closed = give_up (record w { state = (claim utf8 w.state info).0; raw_closed = true }) in
    (record closed { state = begin_finish utf8 closed.state info }, some context_over)

-- CloseWithError: the claim, the close of the raw session and the beginning of finish in one step.
unfoldable pub close_with_error : Utf8 → YamuxSession → CloseInfo → YamuxSession
unfolding claim begin_finish
close_with_error utf8 w info = record w {
  raw_closed = true;
  state = begin_finish utf8 (claim utf8 w.state info).0 info;
}

-- What watch reports once the raw session is closed.
abbrev pub shutdown_info : CloseInfo
shutdown_info = record {
  code = close_normal;
  code_valid = false;
  remote = false;
  reason = codes "other";
}

unfoldable pub watch : Utf8 → YamuxSession → YamuxSession
unfolding begin_finish
watch utf8 w =
    if w.raw_closed then record w { state = begin_finish utf8 w.state shutdown_info } else w

-- What an error of the connection claims; `at_end` says whether it is io.EOF.
abbrev pub conn_info : Bool → CloseInfo
conn_info at_end = record {
  code = close_normal;
  code_valid = false;
  remote = at_end;
  reason = if at_end then codes "normal" else codes "network";
}

unfoldable pub observe_conn_error : Utf8 → YamuxSession → Bool → YamuxSession
unfolding claim is_closed
observe_conn_error utf8 w at_end =
    if is_closed w.state then w else record w { state = (claim utf8 w.state (conn_info at_end)).0 }
