-- ===== src/Edge/Streams.antt =====
-- internal/edge/edge.go: the streams that visitors' requests open to an agent, and the slots that
-- bound them: leases, stream watchers and openRouteStream.
pub mod Holdings
pub mod Leases
use beamd.Prelude.{
  ℕ, zero, suc, ◌+◌, ◌-◌, Bool, true, false, not, ◌&&◌, List, [], ◌∷◌, Option, none, some, Bytes,
  ltb, ◌==◌, nat_eq, list_eq, if◌then◌else◌, lookup,
}
use beamd.Prelude.Int.{ℤ, pos, negsuc, ◌+ℤ◌, ◌-ℤ◌}
use beamd.Edge.Registry.{Route, store}

-- A *Route: where it is, and what it points to.
pub record Pointer : Type 0 where
  pub address : ℕ
  pub route : Route

-- A buffered channel of slots is the number of those taken and its capacity.
pub record Streams : Type 0 where
  pub routes : List (Bytes × Pointer)
  pub closed : ℕ → Bool
  pub global_slots : ℕ
  pub global_cap : ℕ
  pub session_slots : ℕ → ℕ
  pub session_cap : ℕ → ℕ
  pub active : ℕ → ℤ
  pub closing : ℕ → Bool
  pub watchers : ℕ → ℕ

-- The two sends of acquireStreamLease; none is the default case of its select.
unfoldable pub take_global_slot : Streams → Option Streams
take_global_slot s =
    if ltb s.global_slots s.global_cap
    then some (record s { global_slots = s.global_slots + 1 })
    else none

unfoldable pub take_session_slot : Streams → ℕ → Option Streams
take_session_slot s sess =
    if ltb (s.session_slots sess) (s.session_cap sess)
    then some (record s { session_slots = store s.session_slots sess (s.session_slots sess + 1) })
    else none

-- A receive from each of the channels, in release or after a session channel that is full.
unfoldable pub give_global_slot : Streams → Streams
give_global_slot s = record s { global_slots = s.global_slots - 1 }

unfoldable pub give_session_slot : Streams → ℕ → Streams
give_session_slot s sess = record s {
  session_slots = store s.session_slots sess (s.session_slots sess - 1);
}

-- The gauge of the session's streams.
unfoldable pub add_active : Streams → ℕ → Streams
add_active s sess = record s { active = store s.active sess (s.active sess +ℤ pos 1) }

unfoldable pub drop_active : Streams → ℕ → Streams
drop_active s sess = record s { active = store s.active sess (s.active sess -ℤ pos 1) }

-- reserveStreamWatcher; none is false.
unfoldable pub reserve_stream_watcher : Streams → ℕ → Option Streams
reserve_stream_watcher s sess =
    if s.closing sess
    then none
    else some (record s { watchers = store s.watchers sess (s.watchers sess + 1) })

unfoldable pub release_stream_watcher : Streams → ℕ → Streams
release_stream_watcher s sess = record s { watchers = store s.watchers sess (s.watchers sess - 1) }

unfoldable pub stop_stream_admission : Streams → ℕ → Streams
stop_stream_admission s sess = record s { closing = store s.closing sess true }

pub data StreamError : Type 0 where
  session_closed capacity stale_route open_stream write_prefix canceled : StreamError

-- Where a request is between two of its steps: it runs openRouteStreamForRoute and, once it has its
-- stream, the callback that ends the stream. The later ones keep why the stream is given back, which is
-- none for a connection that is over.
pub data Phase : Type 0 where
  captured wants_global wants_session session_full wants_active leased current opening writing :
      Phase
  streaming releasing gave_session gave_slots leaving : Option StreamError → Phase

-- What the transport and the visitor do: whether OpenStream and the write of the name succeed, and
-- whether the visitor's context is canceled by then.
pub record Weather : Type 0 where
  pub opens : Bool
  pub writes : Bool
  pub canceled : Bool

-- The route that the host has is the one that was captured.
unfoldable pub still_current : Streams → Bytes → Pointer → Bool
still_current s host p = elim (lookup host s.routes) [
  | none ↦ false
  | some c ↦
      c.address == p.address && c.route.session == p.route.session && c.route.name == p.route.name
]

-- Where a step that asks for a slot goes: on with it, or elsewhere without.
abbrev pub granted : Streams → Option Streams → Phase → Option Phase → Streams × Option Phase
granted s none next refused = (s, refused)
granted s (some s') next refused = (s', some next)

-- After the write of the name: a failure aborts the stream, whose callback still runs.
unfoldable pub written : Weather → Phase
written w =
    if not w.writes
    then streaming (some (if w.canceled then canceled else write_prefix))
    else if w.canceled
    then streaming (some canceled)
    else streaming none

-- One step of a request: a critical section, an operation on one channel, or a call that may block.
-- What it holds is given back in the order of the deferred calls and of the callback.
unfoldable pub advance : Weather → Bytes → Pointer → Streams → Phase → Streams × Option Phase
unfolding take_global_slot take_session_slot give_global_slot give_session_slot add_active
    drop_active reserve_stream_watcher release_stream_watcher still_current written
advance w host p s captured = granted s (reserve_stream_watcher s p.route.session) wants_global none
advance w host p s wants_global =
    granted s (take_global_slot s) wants_session (some (leaving (some capacity)))
advance w host p s wants_session =
    granted s (take_session_slot s p.route.session) wants_active (some session_full)
advance w host p s session_full = (give_global_slot s, some (leaving (some capacity)))
advance w host p s wants_active = (add_active s p.route.session, some leased)
advance w host p s leased =
    (s, some (if still_current s host p then current else releasing (some stale_route)))
advance w host p s current =
    (s, some (if s.closed p.route.session then releasing (some session_closed) else opening))
advance w host p s opening = (s, some (if w.opens then writing else releasing (some open_stream)))
advance w host p s writing = (s, some (written w))
advance w host p s (streaming why) = (s, some (releasing why))
advance w host p s (releasing why) = (give_session_slot s p.route.session, some (gave_session why))
advance w host p s (gave_session why) = (give_global_slot s, some (gave_slots why))
advance w host p s (gave_slots why) = (drop_active s p.route.session, some (leaving why))
advance w host p s (leaving why) = (release_stream_watcher s p.route.session, none)

-- A request, with the host that it is for and the route that it captured.
pub record StreamRequest : Type 0 where
  pub host : Bytes
  pub pointer : Pointer
  pub phase : Phase

-- The requests under way, with the state that they share.
pub record World : Type 0 where
  pub streams : Streams
  pub requests : List StreamRequest

-- openRouteStream: a request captures the route of its host, if there is one.
unfoldable pub open_route_stream : Bytes → World → World
open_route_stream host v = elim (lookup host v.streams.routes) [
  | none ↦ v
  | some p ↦ record v {
    requests = record { host = host; pointer = p; phase = captured } ∷ v.requests;
  }
]

abbrev pub moved_to : StreamRequest → Option Phase → List StreamRequest → List StreamRequest
moved_to r none rs = rs
moved_to r (some phase) rs = record r { phase = phase } ∷ rs

abbrev pub front : StreamRequest → World → World
front r v = record v { requests = r ∷ v.requests }

-- One of the requests takes its next step.
unfoldable pub move : ℕ → Weather → Streams → List StreamRequest → World
unfolding advance
move n w s [] = record { streams = s; requests = [] }
move zero w s (r ∷ rs) =
    let out = advance w r.host r.pointer s r.phase in
    record { streams = out.0; requests = moved_to r out.1 rs }
move (suc n) w s (r ∷ rs) = front r (move n w s rs)

-- effectiveSessionStreamCapacity; an agent that advertises none is a legacy one, of 64 streams.
unfoldable pub effective_session_stream_capacity : ℕ → ℤ → ℕ
effective_session_stream_capacity configured advertised =
    let asked : ℕ = elim advertised [ negsuc n ↦ 64 | pos n ↦ if n == 0 then 64 else n ] in
    if ltb asked configured then asked else configured
