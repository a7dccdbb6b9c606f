-- ===== src/Tunnel/Yamux/Openers.antt =====
-- The gate over the whole life of a yamux session.
use beamd.Prelude.{
  ℕ, ◌+◌, ◌-◌, ◌≤◌, ◌≡◌, ◌≢◌, refl, Bool, true, false, List, [], ◌∷◌, Option, none, arith, ◌==◌,
  nat_eq, if◌then◌else◌, if_cases, if_split, lookup, insert, is_none,
}
use beamd.Tunnel.Session.{
  Utf8, Finisher, idle, ending, gone, claim, register, begin_finish, finish_next, is_closed,
}
use beamd.Tunnel.Yamux.{
  YamuxStream, YamuxSession, OpenError, OpenEnd, raw_stream, raw_failed, expires, session_over,
  release_open_slot, new_yamux_stream, complete_stream, complete, mark_local_closed, read,
  timer_fires, register_yamux_stream, give_up, open_ends, close_with_error, watch,
  observe_conn_error, conn_info, shutdown_info,
}
use beamd.Tunnel.Yamux.Run.{
  new_yamux_session, parent_terminated, Event, opens, open_returns, accepts, closes_stream, reads,
  timer_runs, closes_session, watches, conn_fails, finish_goes_on, is_new, step, run,
}
use beamd.Tunnel.Yamux.Gate.{
  IsGated, holders, holders-insert, with_state, complete_stream-IsGated, complete-IsGated,
  lookup_put, at_stream-IsGated, mark_local_closed-IsGated, read-IsGated, timer_fires-IsGated,
  open_begins-IsGated,
}

abbrev one_if : Bool → ℕ
one_if b = if b then 1 else 0

-- A session with a slot whose opener is about to have its stream.
record Arriving (w : YamuxSession) (holds : Bool) : Type 0 where
  counted : w.slots ≡ w.opening + holders w.streams + one_if holds
  fits : w.slots ≤ w.limit
  calm : w.panicked ≡ false

fresh_holders :
    (id : ℕ) (holds : Bool) (m : List (ℕ × YamuxStream))
    → lookup id m ≡ none
    → holders (insert id (new_yamux_stream holds) m) ≡ holders m + one_if holds
unfolding new_yamux_stream
fresh_holders id holds m h = ground (arith, holders-insert id (new_yamux_stream holds) m, h)

register-IsGated :
    (w : YamuxSession) (id : ℕ) (holds : Bool)
    → lookup id w.streams ≡ none
    → Arriving w holds
    → IsGated (register_yamux_stream w id holds).0
unfolding register_yamux_stream
register-IsGated w id holds new a =
    let fresh = new_yamux_stream holds in
    let put = record w { state = (register w.state id).0; streams = insert id fresh w.streams } in
    let g : IsGated put = record {
      counted = omega (arith, a.counted, fresh_holders id holds w.streams new);
      fits = a.fits;
      calm = a.calm;
    } in
    let aborted = mark_local_closed put id fresh in
    let h = mark_local_closed-IsGated put id g fresh (lookup_put id fresh w.streams) in
    if_cases (λ (o : YamuxSession × Option OpenError). IsGated o.0) (register w.state id).1 g
      (at_stream-IsGated aborted id (complete aborted id)
        (λ y there. complete-IsGated aborted id y there h) h)

give_up-IsGated : (w : YamuxSession) → w.opening ≢ 0 → IsGated w → IsGated (give_up w)
unfolding give_up release_open_slot
give_up-IsGated w one g =
    if_split (λ (v : YamuxSession). IsGated (record v { opening = w.opening - 1 })) (w.slots == 0)
      (λ none_left. ground (arith, g.counted, one))
      λ some_left. record {
        counted = omega (arith, g.counted, one);
        fits = omega (arith, g.fits);
        calm = g.calm;
      }

open_ends-IsGated :
    (utf8 : Utf8) (w : YamuxSession) (end : OpenEnd)
    → w.opening ≢ 0
    → is_new w end ≡ true
    → IsGated w
    → IsGated (open_ends utf8 w end).0
unfolding open_ends
open_ends-IsGated utf8 w (raw_stream id) one new g =
    register-IsGated (record w { opening = w.opening - 1 }) id true (ground (arith, new))
      (record { counted = omega (arith, g.counted, one); fits = g.fits; calm = g.calm })
open_ends-IsGated utf8 w raw_failed one new g = give_up-IsGated w one g
open_ends-IsGated utf8 w session_over one new g = give_up-IsGated w one g
open_ends-IsGated utf8 w (expires info) one new g =
    let claimed = record w { state = (claim utf8 w.state info).0; raw_closed = true } in
    let closed = give_up claimed in
    with_state closed (begin_finish utf8 closed.state info) closed.raw_closed
      (give_up-IsGated claimed one (with_state w (claim utf8 w.state info).0 true g))

parent_terminated-IsGated :
    (w : YamuxSession) (f : Finisher) → IsGated w → IsGated (parent_terminated w f)
unfolding parent_terminated
parent_terminated-IsGated w idle g = g
parent_terminated-IsGated w (ending []) g = g
parent_terminated-IsGated w (ending (c ∷ cs)) g =
    at_stream-IsGated w c (complete_stream w c) (λ y there. complete_stream-IsGated w c y there g) g
parent_terminated-IsGated w gone g = g

zero_false : (n : ℕ) → (n == 0) ≡ false → n ≢ 0
zero_false n h = ground arith

step-IsGated : (utf8 : Utf8) (e : Event) (w : YamuxSession) → IsGated w → IsGated (step utf8 e w)
unfolding step
step-IsGated utf8 (opens expired waited) w g = open_begins-IsGated w expired waited g
step-IsGated utf8 (open_returns end) w g =
    if_split IsGated (w.opening == 0) (λ nobody. g)
      λ one.
        if_split IsGated (is_new w end)
          (λ new. open_ends-IsGated utf8 w end (zero_false w.opening one) new g) (λ old. g)
step-IsGated utf8 (accepts id) w g =
    if_split IsGated (is_none (lookup id w.streams))
      (λ new.
        register-IsGated w id false (ground (arith, new))
          (record { counted = omega (arith, g.counted); fits = g.fits; calm = g.calm }))
      (λ old. g)
step-IsGated utf8 (closes_stream id) w g =
    at_stream-IsGated w id (mark_local_closed w id) (mark_local_closed-IsGated w id g) g
step-IsGated utf8 (reads id e) w g =
    at_stream-IsGated w id (λ y. read w id y e) (read-IsGated w id e g) g
step-IsGated utf8 (timer_runs id) w g =
    at_stream-IsGated w id (timer_fires w id) (timer_fires-IsGated w id g) g
step-IsGated utf8 (closes_session info) w g =
    unfold close_with_error in
    with_state w (begin_finish utf8 (claim utf8 w.state info).0 info) true g
step-IsGated utf8 watches w g =
    unfold watch in
    if_cases IsGated w.raw_closed
      (with_state w (begin_finish utf8 w.state shutdown_info) w.raw_closed g) g
step-IsGated utf8 (conn_fails at_end) w g =
    unfold observe_conn_error in
    if_cases IsGated (is_closed w.state) g
      (with_state w (claim utf8 w.state (conn_info at_end)).0 w.raw_closed g)
step-IsGated utf8 finish_goes_on w g =
    let done = parent_terminated w w.state.finisher in
    with_state done (finish_next w.state) done.raw_closed
      (parent_terminated-IsGated w w.state.finisher g)

run-IsGated :
    (utf8 : Utf8) (es : List Event) (w : YamuxSession) → IsGated w → IsGated (run utf8 es w)
unfolding run
run-IsGated utf8 [] w g = g
run-IsGated utf8 (e ∷ es) w g = run-IsGated utf8 es (step utf8 e w) (step-IsGated utf8 e w g)

-- Whatever the openers, the streams, the peer and the timers do, in whatever order, from a new session:
-- no release of an open slot finds the gate empty, the slots that are taken are those of the calls of
-- OpenStream that have passed the gate and of the opened streams that are not completed, and they are at
-- most the limit.
pub run-gated :
    (utf8 : Utf8) (limit : ℕ) (es : List Event)
    → let w = run utf8 es (new_yamux_session limit) in
      (w.panicked ≡ false) × (w.slots ≡ w.opening + holders w.streams) × (w.slots ≤ w.limit)
run-gated utf8 limit es =
    let g = run-IsGated utf8 es (new_yamux_session limit) (fresh limit) in
    (g.calm, g.counted, g.fits)
  where
    fresh : (n : ℕ) → IsGated (new_yamux_session n)
    fresh n = unfold new_yamux_session in record { counted = refl; fits = omega arith; calm = refl }
