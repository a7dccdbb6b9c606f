-- ===== src/Tests/Routing.antt =====
-- internal/edge: the route table through sessions that register, disconnect and are reclaimed.
use beamd.Prelude.{
  ◌≡◌, ◌≤◌, refl, false, [], ◌∷◌, none, some, arith, Bytes, codes, lookup, Unique, keep_unless,
  ◌==◌, nat_eq, list_eq, if◌then◌else◌, contains, add, remove, delete_where, insert, erase,
  list_beq,
}
use beamd.Prelude.Int.{pos, ◌+ℤ◌, ◌-ℤ◌}
use beamd.Naming.{hyphen, hostname}
use beamd.Edge.Registry.{
  Session, Route, Edge, register, open_session, close_transport, drop_session, live_tunnels, error,
  name_taken, over_limit, Reply,
}
use beamd.Edge.Registry.Routes.{register_keeps_live}
use beamd.Edge.Registry.Invariant.{Owned, Reach, here, next, opens, registers}
use beamd.Edge.Registry.Cap.{Reach-capped}
use beamd.Edge.Registry.Invariant.{Reach-Owned, lookup-drop_session}

abbrev acme : Bytes
acme = codes "acme"

abbrev app : Bytes
app = codes "app"

abbrev api : Bytes
api = codes "api"

abbrev blank : Session
blank = record { slug = []; closed = false; names = []; hosts = [] }

-- An edge with no session, and a cap of two tunnels.
abbrev start : Edge
start = record {
  base_domain = codes "beam.dev";
  shape = hyphen;
  max_tunnels_per_token = 2;
  heap = λ s. blank;
  sessions = [];
  routes = [];
  proxies = [];
  active_tunnels = pos 0;
  active_sessions = pos 0;
}

-- Session 1 opens and registers `app`; session 2 of the same slug opens.
abbrev opened : Edge
opened = open_session start 1 acme

abbrev serving : Edge
serving = (register opened 1 app none).0

abbrev joined : Edge
joined = open_session serving 2 acme

abbrev host : Bytes
host = codes "app-acme.beam.dev"

abbrev route : Route
route = record { session = 1; name = app }

serving_run : lookup host joined.routes ≡ some route
unfolding open_session register lookup insert erase contains add remove delete_where list_beq
    hostname ◌+ℤ◌ ◌-ℤ◌
serving_run = refl

steps : Reach start joined
unfolding contains add open_session register lookup list_beq
steps = next (next (next here (opens 1 acme refl)) (registers 1 app none refl)) (opens 2 acme refl)

joined-Unique : Unique joined.routes
unfolding open_session register lookup insert erase contains add remove delete_where list_beq
    hostname ◌+ℤ◌ ◌-ℤ◌
joined-Unique = (refl, tt)

register_keeps_live_example : lookup host (register joined 2 app none).0.routes ≡ some route
unfolding open_session register lookup insert erase contains add remove delete_where list_beq
    hostname ◌+ℤ◌ ◌-ℤ◌
register_keeps_live_example =
    register_keeps_live joined 2 app none host route joined-Unique serving_run
      (λ e. omega (arith, e)) refl

Reach-Owned_example : Owned joined host route
Reach-Owned_example = Reach-Owned start joined host route refl steps serving_run

Reach-capped_example : live_tunnels joined.heap acme joined.sessions ≤ 2
unfolding open_session register lookup insert erase contains add remove delete_where list_beq
    hostname ◌+ℤ◌ ◌-ℤ◌
Reach-capped_example = Reach-capped start joined acme refl steps (omega arith)

lookup-drop_session_example :
    lookup host (drop_session joined 1).routes
    ≡ keep_unless (λ r. r.session == 1) (lookup host joined.routes)
lookup-drop_session_example = lookup-drop_session joined 1 host joined-Unique

-- A live session's host is refused; once its transport is closed, the host is reclaimed.
refused_run : (register joined 2 app none).1 ≡ error (name_taken host)
unfolding open_session register lookup insert erase contains add remove delete_where list_beq
    hostname ◌+ℤ◌ ◌-ℤ◌
refused_run = refl

abbrev reclaimed : Edge
reclaimed = (register (close_transport joined 1) 2 app none).0

reclaimed_run :
    (lookup host reclaimed.routes ≡ some (record { session = 2; name = app }))
    × (reclaimed.active_tunnels ≡ pos 1)
unfolding open_session register close_transport lookup insert erase contains add remove delete_where
    list_beq hostname ◌+ℤ◌ ◌-ℤ◌
reclaimed_run = (refl, refl)

-- A registration over the limit reclaims the dead session's tunnel and does not count it out: no
-- route is left, and the gauge still counts one tunnel.
abbrev full : Edge
full = record joined {
  max_tunnels_per_token = 1;
  heap = λ s. if s == 2 then record (joined.heap 2) { names = api ∷ [] } else joined.heap s;
}

abbrev drifted : Edge × Reply
drifted = register (close_transport full 1) 2 app none

drift_run :
    (drifted.1 ≡ error (over_limit 1))
    × (drifted.0.routes ≡ [])
    × (drifted.0.active_tunnels ≡ pos 1)
unfolding open_session register close_transport lookup insert erase contains add remove delete_where
    list_beq hostname ◌+ℤ◌ ◌-ℤ◌
drift_run = (refl, refl, refl)
