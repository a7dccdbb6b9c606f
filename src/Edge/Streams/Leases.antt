-- ===== src/Edge/Streams/Leases.antt =====
-- Every slot that is taken belongs to a request that will give it back.
use beamd.Prelude.{
  ℕ, zero, suc, ◌≤◌, ◌≡◌, ◌∙◌, refl, inl, inr, Bool, not, List, [], ◌∷◌, none, some, arith, Bytes,
  nat_eq, list_eq, if◌then◌else◌, if_cases, lookup, ap, Option-cases,
}
use beamd.Prelude.Int.{pos}
use beamd.Edge.Streams.{
  Pointer, Streams, session_closed, capacity, stale_route, open_stream, write_prefix, canceled,
  Phase, captured, wants_global, wants_session, session_full, wants_active, leased, current,
  opening, writing, streaming, releasing, gave_session, gave_slots, leaving, Weather,
  stop_stream_admission, written, advance, StreamRequest, World, open_route_stream, move,
  still_current,
}
use beamd.Edge.Streams.Holdings.{
  count, on_global, on_slot, on_gauge, on_watcher, Shares, Moves, at, same_holding, reserve-Moves,
  take_global-Moves, take_session-Moves, give_global-Moves, give_session-Moves, add_active-Moves,
  drop_active-Moves, release_watcher-Moves,
}

module _ (ahead rs : List StreamRequest) (s : Streams) (host : Bytes) (p : Pointer) where
  advance-Moves :
      (w : Weather) (phase : Phase)
      → Shares ahead (at ahead rs s host p phase ∷ rs) s
      → Moves ahead rs (at ahead rs s host p phase) (advance w host p s phase)
  unfolding advance written
  advance-Moves w captured h = reserve-Moves ahead rs s host p h
  advance-Moves w wants_global h = take_global-Moves ahead rs s host p h
  advance-Moves w wants_session h = take_session-Moves ahead rs s host p h
  advance-Moves w session_full h =
      give_global-Moves ahead rs s host p session_full (leaving (some capacity)) refl refl h
  advance-Moves w wants_active h = add_active-Moves ahead rs s host p h
  advance-Moves w leased h =
      if_cases (λ (b : Phase). Shares ahead (at ahead rs s host p b ∷ rs) s)
        (still_current s host p) (same_holding ahead rs s host p leased current refl h)
        (same_holding ahead rs s host p leased (releasing (some stale_route)) refl h)
  advance-Moves w current h =
      if_cases (λ (b : Phase). Shares ahead (at ahead rs s host p b ∷ rs) s)
        (s.closed p.route.session)
        (same_holding ahead rs s host p current (releasing (some session_closed)) refl h)
        (same_holding ahead rs s host p current opening refl h)
  advance-Moves w opening h =
      if_cases (λ (b : Phase). Shares ahead (at ahead rs s host p b ∷ rs) s) w.opens
        (same_holding ahead rs s host p opening writing refl h)
        (same_holding ahead rs s host p opening (releasing (some open_stream)) refl h)
  advance-Moves w writing h =
      if_cases (λ (b : Phase). Shares ahead (at ahead rs s host p b ∷ rs) s) (not w.writes)
        (same_holding ahead rs s host p writing
          (streaming (some (if w.canceled then canceled else write_prefix))) refl h)
        (if_cases (λ (b : Phase). Shares ahead (at ahead rs s host p b ∷ rs) s) w.canceled
          (same_holding ahead rs s host p writing (streaming (some canceled)) refl h)
          (same_holding ahead rs s host p writing (streaming none) refl h))
  advance-Moves w (streaming why) h =
      same_holding ahead rs s host p (streaming why) (releasing why) refl h
  advance-Moves w (releasing why) h = give_session-Moves ahead rs s host p why h
  advance-Moves w (gave_session why) h =
      give_global-Moves ahead rs s host p (gave_session why) (gave_slots why) refl refl h
  advance-Moves w (gave_slots why) h = drop_active-Moves ahead rs s host p why h
  advance-Moves w (leaving why) h = release_watcher-Moves ahead rs s host p why h

-- The first request of one list joins the other.
pass :
    (ahead rs : List StreamRequest) (r : StreamRequest) (s : Streams)
    → Shares ahead (r ∷ rs) s
    → Shares (r ∷ ahead) rs s
pass ahead rs r s h = record {
  global = omega (arith, h.global);
  per_session = λ t. omega (arith, h.per_session t);
  gauge = λ t. h.gauge t ∙ ap pos (omega arith);
  watched = λ t. omega (arith, h.watched t);
  fits = h.fits;
  session_fits = h.session_fits;
}

back :
    (ahead rs : List StreamRequest) (r : StreamRequest) (s : Streams)
    → Shares (r ∷ ahead) rs s
    → Shares ahead (r ∷ rs) s
back ahead rs r s h = record {
  global = omega (arith, h.global);
  per_session = λ t. omega (arith, h.per_session t);
  gauge = λ t. h.gauge t ∙ ap pos (omega arith);
  watched = λ t. omega (arith, h.watched t);
  fits = h.fits;
  session_fits = h.session_fits;
}

move-Shares :
    (n : ℕ) (w : Weather) (ahead rs : List StreamRequest) (s : Streams)
    → Shares ahead rs s
    → Shares ahead (move n w s rs).requests (move n w s rs).streams
unfolding move
move-Shares n w ahead [] s h = h
move-Shares zero w ahead (r ∷ rs) s h = advance-Moves ahead rs s r.host r.pointer w r.phase h
move-Shares (suc n) w ahead (r ∷ rs) s h =
    back ahead (move n w s rs).requests r (move n w s rs).streams
      (move-Shares n w (r ∷ ahead) rs s (pass ahead rs r s h))

-- What can happen: a request arrives, one of those under way takes a step, a session stops its
-- admission, and the routes and the transports change.
pub data Event : Type 0 where
  arrives : Bytes → Event
  moves : ℕ → Weather → Event
  stops : ℕ → Event
  changes : List (Bytes × Pointer) → (ℕ → Bool) → Event

abbrev pub happen : Event → World → World
happen (arrives host) v = open_route_stream host v
happen (moves n w) v = move n w v.streams v.requests
happen (stops sess) v = record v { streams = stop_stream_admission v.streams sess }
happen (changes routes closed) v = record v {
  streams = record v.streams { routes = routes; closed = closed };
}

abbrev pub run : List Event → World → World
run [] v = v
run (e ∷ es) v = run es (happen e v)

-- Every slot, every place in a gauge and every watcher is held by exactly one request, and each channel
-- is within its capacity.
pub record IsHeld (v : World) : Type 0 where
  pub global : v.streams.global_slots ≡ count on_global v.requests
  pub per_session : (t : ℕ) → v.streams.session_slots t ≡ count (on_slot t) v.requests
  pub gauge : (t : ℕ) → v.streams.active t ≡ pos (count (on_gauge t) v.requests)
  pub watched : (t : ℕ) → v.streams.watchers t ≡ count (on_watcher t) v.requests
  pub fits : v.streams.global_slots ≤ v.streams.global_cap
  pub session_fits : (t : ℕ) → v.streams.session_slots t ≤ v.streams.session_cap t

to_Shares : (v : World) → IsHeld v → Shares [] v.requests v.streams
to_Shares v a = record {
  global = omega (arith, a.global);
  per_session = λ t. omega (arith, a.per_session t);
  gauge = λ t. a.gauge t ∙ ap pos (omega arith);
  watched = λ t. omega (arith, a.watched t);
  fits = a.fits;
  session_fits = a.session_fits;
}

from_Shares : (v : World) → Shares [] v.requests v.streams → IsHeld v
from_Shares v a = record {
  global = omega (arith, a.global);
  per_session = λ t. omega (arith, a.per_session t);
  gauge = λ t. a.gauge t ∙ ap pos (omega arith);
  watched = λ t. omega (arith, a.watched t);
  fits = a.fits;
  session_fits = a.session_fits;
}

-- A request that has only captured its route holds nothing.
arrival-IsHeld :
    (host : Bytes) (p : Pointer) (v : World)
    → IsHeld v
    → IsHeld
        (record v { requests = record { host = host; pointer = p; phase = captured } ∷ v.requests })
arrival-IsHeld host p v a = record {
  global = omega (arith, a.global);
  per_session = λ t. ground (arith, a.per_session t);
  gauge = λ t. a.gauge t ∙ ap pos (ground arith);
  watched = λ t. ground (arith, a.watched t);
  fits = a.fits;
  session_fits = a.session_fits;
}

happen-IsHeld : (e : Event) (v : World) → IsHeld v → IsHeld (happen e v)
unfolding open_route_stream stop_stream_admission
happen-IsHeld (arrives host) v a = elim (Option-cases (lookup host v.streams.routes)) [
  | inl e ↦ rw (e, open_route_stream) a
  | inr (p, e) ↦ rw (e, open_route_stream) (arrival-IsHeld host p v a)
]
happen-IsHeld (moves n w) v a =
    from_Shares (move n w v.streams v.requests)
      (move-Shares n w [] v.requests v.streams (to_Shares v a))
happen-IsHeld (stops sess) v a = record {
  global = a.global;
  per_session = a.per_session;
  gauge = a.gauge;
  watched = a.watched;
  fits = a.fits;
  session_fits = a.session_fits;
}
happen-IsHeld (changes routes closed) v a = record {
  global = a.global;
  per_session = a.per_session;
  gauge = a.gauge;
  watched = a.watched;
  fits = a.fits;
  session_fits = a.session_fits;
}

-- From an accounted state, such as one with no request and nothing taken, after any arrivals and steps
-- of requests in any order, with sessions that stop their admission and routes and transports that
-- change in between: the slots, the gauge of each session and its watchers count exactly the requests
-- that hold them, in whatever phase of the opening, the stream or the release each one is, and no
-- channel holds more than its capacity. Once no request is left, nothing is taken.
pub run-IsHeld : (es : List Event) (v : World) → IsHeld v → IsHeld (run es v)
run-IsHeld [] v a = a
run-IsHeld (e ∷ es) v a = run-IsHeld es (happen e v) (happen-IsHeld e v a)
