-- ===== src/Tests/Handshakes.antt =====
-- internal/edge: handshakes, one at a time and step by step.
use beamd.Prelude.{
  List, ◌≡◌, ◌<◌, ◌≤◌, refl, true, false, [], ◌∷◌, Option, none, some, arith, codes, contains,
  nat_eq,
}
use beamd.Edge.Admission.{
  Admission, FirstMessage, hello, opened, rejected, bad_token, handle_tunnel_session,
}
use beamd.Edge.Admission.Slots.{handle_tunnel_session-opened}
use beamd.Edge.Admission.Steps.{
  Lobby, Agent, move, advance, advance_phase, greeted, take_auth_slot, take_preauth_slot,
  enter_lobby, move_inside, give_preauth_slot,
}
use beamd.Edge.Admission.Runs.{Event, arrives, moves, run, IsCounted, run-IsCounted, sessions}

-- Transport 3 is in the lobby of an edge of one session.
abbrev lobby : Admission
lobby = record {
  preauth = 3 ∷ [];
  preauth_slots = 1;
  preauth_cap = 4;
  auth_slots = 0;
  auth_cap = 1;
  sessions = [];
  shutting_down = false;
}

abbrev good_hello : Option FirstMessage
good_hello = some (hello 1 (some (codes "acme")))

abbrev bad_hello : Option FirstMessage
bad_hello = some (hello 1 none)

admitted : (handle_tunnel_session lobby 3 good_hello true false).1 ≡ opened (codes "acme")
unfolding handle_tunnel_session contains
admitted = refl

denied : (handle_tunnel_session lobby 3 bad_hello true false).1 ≡ rejected bad_token
unfolding handle_tunnel_session
denied = refl

handle_tunnel_session-opened_example :
    (good_hello ≡ some (hello 1 (some (codes "acme"))))
    × (lobby.shutting_down ≡ false)
    × (lobby.auth_slots < lobby.auth_cap)
    × (contains 3 lobby.preauth ≡ true)
handle_tunnel_session-opened_example =
    handle_tunnel_session-opened lobby 3 good_hello true false (codes "acme") admitted

abbrev polite : Agent
polite = record { first = good_hello; writes = true }

abbrev quiet : Lobby
quiet = record {
  gates = record {
    preauth_slots = 0;
    preauth_cap = 4;
    auth_slots = 0;
    auth_cap = 1;
    shutting_down = false;
  };
  transports = [];
}

quiet-IsCounted : IsCounted quiet
quiet-IsCounted = record {
  preauth = refl;
  auth = refl;
  preauth_fits = omega arith;
  auth_fits = omega arith;
  placed = tt;
}

-- One transport becomes a session, and another one waits in the lobby.
abbrev two_transports : List Event
two_transports =
    arrives
    ∷ moves 0 polite
    ∷ moves 0 polite
    ∷ moves 0 polite
    ∷ moves 0 polite
    ∷ moves 0 polite
    ∷ moves 0 polite
    ∷ moves 0 polite
    ∷ arrives
    ∷ moves 0 polite
    ∷ moves 0 polite
    ∷ []

one_session :
    (sessions (run two_transports quiet).transports ≡ 1)
    × ((run two_transports quiet).gates.preauth_slots ≡ 1)
unfolding move advance advance_phase greeted take_auth_slot take_preauth_slot enter_lobby
    move_inside give_preauth_slot
one_session = (refl, refl)

run-IsCounted_example :
    IsCounted (run two_transports quiet)
    × (sessions (run two_transports quiet).transports ≤ (run two_transports quiet).gates.auth_cap)
run-IsCounted_example = run-IsCounted two_transports quiet quiet-IsCounted
