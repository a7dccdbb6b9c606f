-- ===== src/Edge/Registry.antt =====
-- internal/edge/edge.go: the route table, and the operations that change it: register, unregister,
-- dropSession and the promotion of a session. Pointers to sessions are numbers into a heap.
pub mod Routes
pub mod Invariant
pub mod Outcomes
pub mod Cap
use beamd.Prelude.{
  equal_fold, ℕ, zero, suc, ◌+◌, ◌≡◌, Bool, true, false, not, ◌&&◌, ◌||◌, List, [], ◌∷◌, ◌++◌,
  Option, none, some, Bytes, codes, is_empty, leb, ltb, Eq, ◌==◌, nat_eq, list_eq, if◌then◌else◌,
  length, filter_by, contains, add, remove, lookup, insert, erase, delete_where, get_or_else,
}
use beamd.Prelude.Int.{ℤ, pos, ◌+ℤ◌, ◌-ℤ◌}
use beamd.Naming.{Shape, hyphen, subdomain, flat, hostname}
use beamd.Edge.Hosts.{ScopeHostnames, hosts_for_tunnel}

-- What the registry reads and writes of a Session; `closed` is its transport's IsClosed().
pub record Session : Type 0 where
  pub slug : Bytes
  pub closed : Bool
  pub names : List Bytes
  pub hosts : List (Bytes × List Bytes)

pub record Route : Type 0 where
  pub session : ℕ
  pub name : Bytes

pub record Edge : Type 0 where
  pub base_domain : Bytes
  pub shape : Shape
  pub max_tunnels_per_token : ℕ
  pub heap : ℕ → Session
  pub sessions : List ℕ
  pub routes : List (Bytes × Route)
  pub proxies : List Bytes
  pub active_tunnels : ℤ
  pub active_sessions : ℤ

pub data RegisterError : Type 0 where
  name_too_long : RegisterError
  name_taken : Bytes → RegisterError
  over_limit : ℕ → RegisterError

pub data Reply : Type 0 where
  url : Bytes → Reply
  error : RegisterError → Reply

abbrev pub store {ℓ} : {A : Type ℓ} → (ℕ → A) → ℕ → A → ℕ → A
store h s v t = if s == t then v else h t

-- The keys of the map `displaced`: a session and the name of its tunnel.
abbrev pub Tunnel : Type 0
Tunnel = ℕ × Bytes

abbrev pub is_of : Tunnel → Route → Bool
is_of t r = r.session == t.0 && r.name == t.1

abbrev pub same_tunnel : Tunnel → Tunnel → Bool
same_tunnel t u = t.0 == u.0 && t.1 == u.1

unfoldable pub note : Tunnel → List Tunnel → List Tunnel
note t [] = t ∷ []
note t (u ∷ us) = if same_tunnel t u then u ∷ us else u ∷ note t us

pub data Scan : Type 0 where
  taken : Bytes → Scan
  free : List Tunnel → Scan

-- The conflict check: the first host that a live other session holds, or the dead tunnels met.
unfoldable pub scan : Edge → ℕ → List Bytes → List Tunnel → Scan
unfolding note
scan e sess [] displaced = free displaced
scan e sess (h ∷ hs) displaced =
    let pass = scan e sess hs displaced in
    elim (lookup h e.routes) [
      | none ↦ pass
      | some r ↦
          let dead = scan e sess hs (note (r.session, r.name) displaced) in
          if r.session == sess then pass else if (e.heap r.session).closed then dead else taken h
    ]

abbrev pub matches : (Route → Bool) → Option Route → Bool
matches p none = false
matches p (some r) = p r

-- Delete the routes that pass the test, and the proxies of their hosts.
unfoldable pub delete_routes : (Route → Bool) → Edge → Edge
delete_routes p e = record e {
  routes = delete_where p e.routes;
  proxies = filter_by (λ h. not (matches p (lookup h e.routes))) e.proxies;
}

abbrev pub forget : Bytes → Session → Session
forget name s = record s { names = remove name s.names; hosts = erase name s.hosts }

-- Reclaim one dead tunnel: all its routes, and its entry in its session.
unfoldable pub evict : Edge → Tunnel → Edge
unfolding delete_routes
evict e t =
    let e' = delete_routes (is_of t) e in
    record e' { heap = store e'.heap t.0 (forget t.1 (e'.heap t.0)) }

unfoldable pub evict_all : Edge → List Tunnel → Edge
unfolding evict
evict_all e [] = e
evict_all e (t ∷ ts) = evict_all (evict e t) ts

-- The tunnels of the sessions with one slug.
unfoldable pub live_tunnels : (ℕ → Session) → Bytes → List ℕ → ℕ
live_tunnels heap slug [] = 0
live_tunnels heap slug (s ∷ ss) =
    (if (heap s).slug == slug then length (heap s).names else 0) + live_tunnels heap slug ss

unfoldable pub set_routes : Route → List Bytes → List (Bytes × Route) → List (Bytes × Route)
set_routes r [] routes = routes
set_routes r (h ∷ hs) routes = set_routes r hs (insert h r routes)

-- The end of register: take the hosts, and count the tunnel less the ones that it displaced.
unfoldable pub take_hosts : Edge → ℕ → Bytes → List Bytes → ℕ → Edge
unfolding set_routes
take_hosts e sess name hosts displaced =
    let s = e.heap sess in
    record e {
      routes = set_routes (record { session = sess; name = name }) hosts e.routes;
      heap =
          store e.heap sess
            (record s { names = add name s.names; hosts = insert name hosts s.hosts });
      active_tunnels = e.active_tunnels +ℤ (pos 1 -ℤ pos displaced);
    }

abbrev pub https : Bytes → Bytes
https host = codes "https://" ++ host

-- register from the reclaiming on: the cap is checked after the dead tunnels are gone.
unfoldable pub reclaim_and_take : Edge → ℕ → Bytes → List Bytes → Bytes → List Tunnel → Edge × Reply
unfolding evict_all live_tunnels take_hosts
reclaim_and_take e sess name hosts primary displaced =
    let e' = evict_all e displaced in
    if ltb 0 e'.max_tunnels_per_token
      && leb e'.max_tunnels_per_token (live_tunnels e'.heap (e'.heap sess).slug e'.sessions)
    then (e', error (over_limit e'.max_tunnels_per_token))
    else (take_hosts e' sess name hosts (length displaced), url (https primary))

-- register under the edge's lock.
unfoldable pub register_locked : Edge → ℕ → Bytes → List Bytes → Bytes → Edge × Reply
unfolding scan reclaim_and_take
register_locked e sess name hosts primary =
    if contains name (e.heap sess).names
    then (e, url (https primary))
    else elim (scan e sess hosts []) [
      | taken h ↦ (e, error (name_taken h))
      | free displaced ↦ reclaim_and_take e sess name hosts primary displaced
    ]

abbrev pub is_hyphen : Shape → Bool
is_hyphen hyphen = true
is_hyphen _ = false

-- The name and the slug do not fit one DNS label.
unfoldable pub too_long : Edge → ℕ → Bytes → Bool
too_long e sess name =
    let slug = (e.heap sess).slug in
    not (is_empty slug) && is_hyphen e.shape && ltb 63 (length name + 1 + length slug)

-- `reply` is what the hostnames client answers for the session's slug.
unfoldable pub register : Edge → ℕ → Bytes → Option ScopeHostnames → Edge × Reply
unfolding too_long register_locked hosts_for_tunnel
register e sess name reply =
    if too_long e sess name
    then (e, error name_too_long)
    else let found = hosts_for_tunnel name (e.heap sess).slug e.base_domain e.shape reply in
      register_locked e sess name found.0 found.1

abbrev pub without_host : Bytes → Edge → Edge
without_host h e = record e { routes = erase h e.routes; proxies = remove h e.proxies }

-- The loop of unregister over the hosts; the flag says whether a route was removed.
unfoldable pub remove_hosts : Edge → ℕ → List Bytes → Bool → Edge × Bool
remove_hosts e sess [] removed = (e, removed)
remove_hosts e sess (h ∷ hs) removed =
    let skip = remove_hosts e sess hs removed in
    let gone = remove_hosts (without_host h e) sess hs true in
    elim (lookup h e.routes) [ none ↦ skip | some r ↦ if r.session == sess then gone else skip ]

-- The hosts that unregister visits: those recorded for the name, else the default host.
unfoldable pub hosts_of : Edge → ℕ → Bytes → List Bytes
hosts_of e sess name =
    let s = e.heap sess in
    let default = hostname name s.slug e.base_domain e.shape ∷ [] in
    elim (lookup name s.hosts) [
      | none ↦ default
      | some hs ↦ elim hs [ [] ↦ default | h ∷ r ↦ h ∷ r ]
    ]

-- unregister; its three critical sections are one step.
unfoldable pub unregister : Edge → ℕ → Bytes → Edge
unfolding remove_hosts hosts_of
unregister e sess name =
    let (e', removed) = remove_hosts e sess (hosts_of e sess name) false in
    record e' {
      active_tunnels = if removed then e'.active_tunnels -ℤ pos 1 else e'.active_tunnels;
      heap = store e'.heap sess (forget name (e'.heap sess));
    }

-- The distinct names of the routes of one session.
unfoldable pub route_names : ℕ → List (Bytes × Route) → List Bytes
route_names sess [] = []
route_names sess ((h, r) ∷ m) =
    if r.session == sess then add r.name (route_names sess m) else route_names sess m

-- dropSession up to the close of the transport.
unfoldable pub drop_session : Edge → ℕ → Edge
unfolding route_names delete_routes
drop_session e sess =
    let e' = delete_routes (λ r. r.session == sess) e in
    record e' {
      sessions = remove sess e.sessions;
      active_sessions =
          if contains sess e.sessions then e.active_sessions -ℤ pos 1 else e.active_sessions;
      active_tunnels = e.active_tunnels -ℤ pos (length (route_names sess e.routes));
      heap = store e.heap sess (record (e.heap sess) { closed = true });
    }

-- promoteAuthenticated: a new session, with no tunnel yet, enters the set.
unfoldable pub open_session : Edge → ℕ → Bytes → Edge
open_session e sess slug = record e {
  sessions = add sess e.sessions;
  heap = store e.heap sess (record { slug = slug; closed = false; names = []; hosts = [] });
  active_sessions = e.active_sessions +ℤ pos 1;
}

-- The transport of a session closes: its peer, the heartbeat watch or the edge closed it.
unfoldable pub close_transport : Edge → ℕ → Edge
close_transport e sess = record e {
  heap = store e.heap sess (record (e.heap sess) { closed = true });
}

-- The apex, or a host with a route.
unfoldable pub host_known_for_cert : Edge → Bytes → Bool
host_known_for_cert e name =
    if equal_fold name e.base_domain
    then true
    else elim (lookup name e.routes) [ none ↦ false | some r ↦ true ]
