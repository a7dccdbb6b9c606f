-- ===== src/Tunnel/Yamux/Lifetime.antt =====
-- No yamux stream is left open for ever, and the session's own state follows session.go.
use beamd.Prelude.{
  ℕ, ◌-◌, ◌≡◌, ◌∙◌, sym, ap, subst, Bool, true, false, not, ◌||◌, List, [], ◌∷◌, Option, none, some,
  arith, ◌==◌, nat_eq, if_cases, if_split, lookup, insert, is_none, ltb,
}
use beamd.Tunnel.Session.{Utf8, Finisher, idle, ending, gone, claim, is_closed}
use beamd.Tunnel.Yamux.{
  YamuxStream, YamuxSession, OpenError, OpenEnd, raw_stream, raw_failed, expires, session_over,
  release_open_slot, end_stream, complete_stream, complete, at_stream, mark_local_closed, read,
  timer_fires, open_begins, give_up, open_ends, close_with_error, watch, observe_conn_error,
}
use beamd.Tunnel.Yamux.Run.{
  new_yamux_session, parent_terminated, Event, opens, open_returns, accepts, closes_stream, reads,
  timer_runs, closes_session, watches, conn_fails, finish_goes_on, is_new, step, run,
}
use beamd.Tunnel.Yamux.Gate.{lookup_put}
use beamd.Tunnel.Yamux.Streams.{
  AllSettled, settled, at_stream-AllSettled, close-Keeps, read-Keeps, timer-Keeps,
  complete_stream-Keeps, register-AllSettled,
}

-- The streams of what a call returns.
abbrev Fine : YamuxSession × Option OpenError → Type 0
Fine o = AllSettled o.0.streams

begins-Fine :
    (w : YamuxSession) (expired : Bool) (waited : OpenError)
    → AllSettled w.streams
    → Fine (open_begins w expired waited)
unfolding open_begins
begins-Fine w expired waited all = if_cases Fine expired all (
    if_cases Fine (is_closed w.state || w.raw_closed) all
      (if_cases Fine (ltb w.slots w.limit) all all))

give_up-AllSettled : (w : YamuxSession) → AllSettled w.streams → AllSettled (give_up w).streams
unfolding give_up release_open_slot
give_up-AllSettled w all =
    if_cases (λ (v : YamuxSession). AllSettled v.streams) (w.slots == 0) all all

ends-Fine :
    (utf8 : Utf8) (w : YamuxSession) (end : OpenEnd)
    → AllSettled w.streams
    → Fine (open_ends utf8 w end)
unfolding open_ends
ends-Fine utf8 w (raw_stream id) all =
    register-AllSettled (record w { opening = w.opening - 1 }) id true all
ends-Fine utf8 w raw_failed all = give_up-AllSettled w all
ends-Fine utf8 w session_over all = give_up-AllSettled w all
ends-Fine utf8 w (expires info) all =
    give_up-AllSettled (record w { state = (claim utf8 w.state info).0; raw_closed = true }) all

parent-AllSettled :
    (w : YamuxSession) (f : Finisher)
    → AllSettled w.streams
    → AllSettled (parent_terminated w f).streams
unfolding parent_terminated
parent-AllSettled w idle all = all
parent-AllSettled w (ending []) all = all
parent-AllSettled w (ending (c ∷ cs)) all =
    at_stream-AllSettled w c (complete_stream w c) (complete_stream-Keeps w c all) all
parent-AllSettled w gone all = all

step-AllSettled :
    (utf8 : Utf8) (e : Event) (w : YamuxSession)
    → AllSettled w.streams
    → AllSettled (step utf8 e w).streams
unfolding step
step-AllSettled utf8 (opens expired waited) w all = begins-Fine w expired waited all
step-AllSettled utf8 (open_returns end) w all =
    if_cases (λ (v : YamuxSession). AllSettled v.streams) (w.opening == 0) all
      (if_cases (λ (v : YamuxSession). AllSettled v.streams) (is_new w end)
        (ends-Fine utf8 w end all) all)
step-AllSettled utf8 (accepts id) w all =
    if_cases (λ (v : YamuxSession). AllSettled v.streams) (is_none (lookup id w.streams))
      (register-AllSettled w id false all) all
step-AllSettled utf8 (closes_stream id) w all =
    at_stream-AllSettled w id (mark_local_closed w id) (close-Keeps w id all) all
step-AllSettled utf8 (reads id e) w all =
    at_stream-AllSettled w id (λ y. read w id y e) (read-Keeps w id e all) all
step-AllSettled utf8 (timer_runs id) w all =
    at_stream-AllSettled w id (timer_fires w id) (timer-Keeps w id all) all
step-AllSettled utf8 (closes_session info) w all = unfold close_with_error in all
step-AllSettled utf8 watches w all =
    unfold watch in if_cases (λ (v : YamuxSession). AllSettled v.streams) w.raw_closed all all
step-AllSettled utf8 (conn_fails at_end) w all =
    unfold observe_conn_error in
    if_cases (λ (v : YamuxSession). AllSettled v.streams) (is_closed w.state) all all
step-AllSettled utf8 finish_goes_on w all = parent-AllSettled w w.state.finisher all

run-AllSettled :
    (utf8 : Utf8) (es : List Event) (w : YamuxSession)
    → AllSettled w.streams
    → AllSettled (run utf8 es w).streams
unfolding run
run-AllSettled utf8 [] w all = all
run-AllSettled utf8 (e ∷ es) w all =
    run-AllSettled utf8 es (step utf8 e w) (step-AllSettled utf8 e w all)

new-AllSettled : (limit : ℕ) → AllSettled (new_yamux_session limit).streams
unfolding new_yamux_session lookup
new-AllSettled limit id y h = ground arith

abbrev pub is_completed : Option YamuxStream → Bool
is_completed none = false
is_completed (some y) = y.completed

end_stream-completed :
    (w : YamuxSession) (id : ℕ) (y : YamuxStream)
    → is_completed (lookup id (end_stream w id y).streams) ≡ true
unfolding end_stream release_open_slot
end_stream-completed w id y =
    let over = record y { completed = true; timer = false } in
    let h : is_completed (lookup id (insert id over w.streams)) ≡ true =
      ap is_completed (lookup_put id over w.streams) in
    if_cases (λ (v : YamuxSession). is_completed (lookup id v.streams) ≡ true) y.holds_open_slot
      (if_cases (λ (v : YamuxSession). is_completed (lookup id v.streams) ≡ true) (w.slots == 0) h
        h)
      h

timer_fires-completed :
    (w : YamuxSession) (id : ℕ) (y : YamuxStream)
    → lookup id w.streams ≡ some y
    → (y.completed || y.timer) ≡ true
    → is_completed (lookup id (timer_fires w id y).streams) ≡ true
unfolding timer_fires complete
timer_fires-completed w id y there h =
    if_split (λ (v : YamuxSession). is_completed (lookup id v.streams) ≡ true) y.timer
      (λ armed.
        if_split (λ (v : YamuxSession). is_completed (lookup id v.streams) ≡ true) y.completed
          (λ over. ap is_completed there ∙ over) (λ live. end_stream-completed w id y))
      λ idle_. ap is_completed there ∙ ground (arith, h, idle_)

over_or_armed :
    (y : YamuxStream) → settled y ≡ true → y.local_closed ≡ true → (y.completed || y.timer) ≡ true
over_or_armed y h closed = ground (arith, h, closed)

-- Liveness of a stream: after any events of a session, a stream that is closed on this side and whose
-- peer never ends its own is not stuck. Either it is completed already, or its timer is armed and
-- completes it when it runs; and one that the peer has ended too is completed already.
pub run-completes :
    (utf8 : Utf8) (limit : ℕ) (es : List Event) (id : ℕ) (y : YamuxStream)
    → lookup id (run utf8 es (new_yamux_session limit)).streams ≡ some y
    → y.local_closed ≡ true
    → (is_completed
          (lookup id (step utf8 (timer_runs id) (run utf8 es (new_yamux_session limit))).streams)
        ≡ true)
      × ((not y.remote_done || y.completed) ≡ true)
unfolding step
run-completes utf8 limit es id y there closed =
    let w = run utf8 es (new_yamux_session limit) in
    let h = run-AllSettled utf8 es (new_yamux_session limit) (new-AllSettled limit) id y there in
    (
      subst
          (λ (o : Option YamuxStream).
            is_completed (lookup id (at_stream w o (timer_fires w id)).streams) ≡ true)
          (sym there)
          (unfold at_stream in timer_fires-completed w id y there (over_or_armed y h closed)),
      ground (arith, h, closed),
    )
