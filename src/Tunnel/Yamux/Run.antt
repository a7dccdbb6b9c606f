-- ===== src/Tunnel/Yamux/Run.antt =====
-- What the goroutines of a yamux session do, one critical section at a time.
use beamd.Prelude.{
  ℕ, Bool, true, false, List, [], ◌∷◌, ◌==◌, nat_eq, if◌then◌else◌, lookup, is_none,
}
use beamd.Client.{CloseInfo}
use beamd.Tunnel.Session.{Utf8, Finisher, idle, ending, gone, new_session_state, finish_next}
use beamd.Tunnel.Yamux.{
  YamuxSession, ReadError, OpenError, OpenEnd, raw_stream, raw_failed, expires, session_over,
  complete_stream, at_stream, mark_local_closed, read, timer_fires, open_begins,
  register_yamux_stream, open_ends, close_with_error, watch, observe_conn_error, shutdown_info,
}

-- newYamuxSession; `limit` is yamuxStreamLimit.
unfoldable pub new_yamux_session : ℕ → YamuxSession
unfolding new_session_state
new_yamux_session limit = record {
  state = new_session_state (record shutdown_info { reason = [] });
  raw_closed = false;
  streams = [];
  slots = 0;
  limit = limit;
  opening = 0;
  panicked = false;
}

-- parentTerminated of the child that finish is at; its childDone is the session's part of the step.
unfoldable pub parent_terminated : YamuxSession → Finisher → YamuxSession
unfolding at_stream complete_stream
parent_terminated w idle = w
parent_terminated w (ending []) = w
parent_terminated w (ending (c ∷ cs)) = at_stream w (lookup c w.streams) (complete_stream w c)
parent_terminated w gone = w

pub data Event : Type 0 where
  opens : Bool → OpenError → Event
  open_returns : OpenEnd → Event
  accepts : ℕ → Event
  closes_stream : ℕ → Event
  reads : ℕ → ReadError → Event
  timer_runs : ℕ → Event
  closes_session : CloseInfo → Event
  watches : Event
  conn_fails : Bool → Event
  finish_goes_on : Event

-- A stream of the raw session is new.
abbrev pub is_new : YamuxSession → OpenEnd → Bool
is_new w (raw_stream id) = is_none (lookup id w.streams)
is_new w raw_failed = true
is_new w (expires info) = true
is_new w session_over = true

unfoldable pub step : Utf8 → Event → YamuxSession → YamuxSession
unfolding open_begins open_ends register_yamux_stream mark_local_closed read timer_fires
    close_with_error watch observe_conn_error parent_terminated finish_next at_stream
step utf8 (opens expired waited) w = (open_begins w expired waited).0
step utf8 (open_returns end) w =
    if w.opening == 0 then w else if is_new w end then (open_ends utf8 w end).0 else w
step utf8 (accepts id) w =
    if is_none (lookup id w.streams) then (register_yamux_stream w id false).0 else w
step utf8 (closes_stream id) w = at_stream w (lookup id w.streams) (mark_local_closed w id)
step utf8 (reads id e) w = at_stream w (lookup id w.streams) (λ y. read w id y e)
step utf8 (timer_runs id) w = at_stream w (lookup id w.streams) (timer_fires w id)
step utf8 (closes_session info) w = close_with_error utf8 w info
step utf8 watches w = watch utf8 w
step utf8 (conn_fails at_end) w = observe_conn_error utf8 w at_end
step utf8 finish_goes_on w = record (parent_terminated w w.state.finisher) {
  state = finish_next w.state;
}

unfoldable pub run : Utf8 → List Event → YamuxSession → YamuxSession
unfolding step
run utf8 [] w = w
run utf8 (e ∷ es) w = run utf8 es (step utf8 e w)
