-- ===== src/Tests/Ingress.antt =====
-- internal/edge: slots, handshakes, control messages and requests.
use beamd.Prelude.{
  List, ◌≡◌, refl, true, false, [], ◌∷◌, Option, none, arith, Bytes, codes, lookup, list_beq,
  list_eq, nat_eq, strip_prefix, equal_fold, split, erase, insert,
}
use beamd.Prelude.Int.{pos}
use beamd.Edge.Streams.{
  Pointer, Streams, Weather, World, open_route_stream, move, advance, written, still_current,
  take_global_slot, take_session_slot, add_active, reserve_stream_watcher,
}
use beamd.Edge.Streams.Leases.{Event, arrives, moves, run, IsHeld, run-IsHeld}
use beamd.Edge.Framing.{strip_framing_headers}
use beamd.Edge.Requests.{Request, Config, Proxied, Ingress, metrics_dump, handler}
use beamd.Edge.Requests.Answers.{IsDump, handler-metrics_dump}

abbrev app : Bytes
app = codes "app"

abbrev host : Bytes
host = codes "app-acme.beam.dev"

-- Two streams fit, one of them in each session.
abbrev idle : Streams
idle = record {
  routes = (host, record { address = 7; route = record { session = 1; name = app } }) ∷ [];
  closed = λ t. false;
  global_slots = 0;
  global_cap = 2;
  session_slots = λ t. 0;
  session_cap = λ t. 1;
  active = λ t. pos 0;
  closing = λ t. false;
  watchers = λ t. 0;
}

abbrev captured : Pointer
captured = record { address = 7; route = record { session = 1; name = app } }

abbrev fair : Weather
fair = record { opens = true; writes = true; canceled = false }

abbrev idle_world : World
idle_world = record { streams = idle; requests = [] }

idle-IsHeld : IsHeld idle_world
idle-IsHeld = record {
  global = refl;
  per_session = λ t. refl;
  gauge = λ t. refl;
  watched = λ t. refl;
  fits = omega arith;
  session_fits = λ t. omega arith;
}

-- Two requests for the host, of which the first one to arrive goes on until its stream is open; the other
-- one is still where it waits for the slot of the session.
abbrev two_requests : List Event
two_requests =
    arrives host
    ∷ moves 0 fair
    ∷ moves 0 fair
    ∷ moves 0 fair
    ∷ moves 0 fair
    ∷ moves 0 fair
    ∷ arrives host
    ∷ moves 0 fair
    ∷ moves 0 fair
    ∷ moves 1 fair
    ∷ moves 1 fair
    ∷ moves 1 fair
    ∷ []

one_streams :
    ((run two_requests idle_world).streams.global_slots ≡ 2)
    × ((run two_requests idle_world).streams.session_slots 1 ≡ 1)
unfolding open_route_stream move advance written still_current take_global_slot take_session_slot
    add_active reserve_stream_watcher lookup list_beq
one_streams = (refl, refl)

run-IsHeld_example : IsHeld (run two_requests idle_world)
run-IsHeld_example = run-IsHeld two_requests idle_world idle-IsHeld

abbrev cfg : Config
cfg = record {
  base_domain = codes "beam.dev";
  metrics_token = codes "t0ken";
  max_request_body_bytes = 0;
}

abbrev ask : Request
ask = record {
  path = codes "/metrics";
  host = codes "beam.dev";
  authorization = codes "Bearer t0ken";
  content_length = pos 0;
}

abbrev no_port : Bytes → Option Bytes
no_port hostport = none

abbrev calm : Ingress
calm = record { shutting_down = false; active_proxies = 0 }

abbrev plain : Proxied
plain = record { status = 200; hijacked = false }

dumped : (handler no_port cfg [] calm ask plain).1 ≡ metrics_dump
unfolding handler list_beq strip_prefix equal_fold
dumped = refl

handler-metrics_dump_example : IsDump no_port cfg [] ask
handler-metrics_dump_example = handler-metrics_dump no_port cfg [] calm ask plain dumped

abbrev no_spaces : Bytes → Bytes
no_spaces s = s

-- A page that forbids frames, with two policies.
abbrev page : List (Bytes × List Bytes)
page =
    (codes "X-Frame-Options", codes "DENY" ∷ [])
    ∷ (
      codes "Content-Security-Policy",
      codes "frame-ancestors 'none'" ∷ codes "script-src 'self'" ∷ [],
    )
    ∷ (codes "Server", codes "app" ∷ [])
    ∷ []

-- The second policy, which has nothing to do with frames, is lost with the first.
policies_lost :
    lookup (codes "Content-Security-Policy") (strip_framing_headers no_spaces page) ≡ none
unfolding strip_framing_headers lookup erase insert list_beq split equal_fold
policies_lost = refl
