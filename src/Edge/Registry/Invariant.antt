-- ===== src/Edge/Registry/Invariant.antt =====
-- Every route belongs to an open session that knows the tunnel and the host, whatever happens.
use mathlib.Core.Path.{subst, subst₂}
use beamd.Prelude.{
  ℕ, ◌≡◌, refl, sym, ap, ◌∙◌, inl, inr, Bool, true, false, ◌&&◌, List, [], ◌∷◌, Option, some, arith,
  Bytes, ◌==◌, nat_eq, list_eq, eq_iff, if◌then◌else◌, length, contains, contains-add,
  contains-remove, lookup, keep_unless, lookup-insert, lookup-erase, lookup-delete_where, Unique,
  erase-Unique, delete_where-Unique, get_or_else, All, Bool-cases, Option-cases, if_cases,
}
use beamd.Edge.Hosts.{ScopeHostnames}
use beamd.Edge.Registry.{
  Session, Route, Edge, Tunnel, is_of, evict, evict_all, store, forget, take_hosts,
  reclaim_and_take, register, unregister, remove_hosts, hosts_of, drop_session, open_session,
  close_transport, without_host, Reply,
}
use beamd.Edge.Registry.Routes.{
  lookup-set_routes, set_routes-Unique, IsDead, scan-IsDead, lookup-evict, evict-Unique,
  IsDead-evict, register_cases,
}

-- The hosts that the route's session recorded for the route's tunnel.
abbrev pub recorded : (ℕ → Session) → Route → List Bytes
recorded heap r = get_or_else (lookup r.name (heap r.session).hosts) []

pub record OwnedIn (heap : ℕ → Session) (sessions : List ℕ) (h : Bytes) (r : Route) : Type 0 where
  pub member : contains r.session sessions ≡ true
  pub named : contains r.name (heap r.session).names ≡ true
  pub listed : contains h (recorded heap r) ≡ true

abbrev pub Owned : Edge → Bytes → Route → Type 0
Owned e h r = OwnedIn e.heap e.sessions h r

pub record Inv (e : Edge) : Type 0 where
  pub unique : Unique e.routes
  pub owned : (h : Bytes) (r : Route) → lookup h e.routes ≡ some r → Owned e h r

evict-Inv : (e : Edge) (t : Tunnel) → Inv e → Inv (evict e t)
unfolding evict
evict-Inv e t v = record {
  unique = evict-Unique e t v.unique;
  owned = λ h r l.
      let before : lookup h e.routes ≡ some r = ground (arith, lookup-evict e t h v.unique, l) in
      let other : is_of t r ≡ false = ground (arith, lookup-evict e t h v.unique, l) in
      let o = v.owned h r before in
      ground (
        arith,
        o.member,
        o.named,
        o.listed,
        eq_iff t.0 r.session,
        eq_iff r.session t.0,
        eq_iff t.1 r.name,
        eq_iff r.name t.1,
        contains-remove t.1 r.name (e.heap t.0).names,
        lookup-erase t.1 r.name (e.heap t.0).hosts,
      );
}

pub evict_all-Inv : (e : Edge) (ts : List Tunnel) → Inv e → Inv (evict_all e ts)
unfolding evict_all
evict_all-Inv e [] v = v
evict_all-Inv e (t ∷ ts) v = evict_all-Inv (evict e t) ts (evict-Inv e t v)

-- Reclaiming from other sessions leaves this one alone.
pub evict_all-heap :
    (e : Edge) (sess : ℕ) (ts : List Tunnel)
    → All (IsDead e sess) ts
    → (evict_all e ts).heap sess ≡ e.heap sess
unfolding evict_all evict
evict_all-heap e sess [] a = refl
evict_all-heap e sess (t ∷ ts) a =
    evict_all-heap (evict e t) sess ts (IsDead-evict e t sess ts a.1)
    ∙ ground (arith, eq_iff t.0 sess, a.0.1)

pub evict_all-sessions : (e : Edge) (ts : List Tunnel) → (evict_all e ts).sessions ≡ e.sessions
unfolding evict_all evict
evict_all-sessions e [] = refl
evict_all-sessions e (t ∷ ts) = evict_all-sessions (evict e t) ts

take_hosts-Inv :
    (e : Edge) (sess : ℕ) (name : Bytes) (hosts : List Bytes) (n : ℕ)
    → contains sess e.sessions ≡ true
    → contains name (e.heap sess).names ≡ false
    → Inv e
    → Inv (take_hosts e sess name hosts n)
unfolding take_hosts
take_hosts-Inv e sess name hosts n m fresh v = record {
  unique = set_routes-Unique _ hosts e.routes v.unique;
  owned = λ h r l. elim (Bool-cases (contains h hosts)) [
    | inl mine ↦ ground (
      arith,
      lookup-set_routes (record { session = sess; name = name }) h hosts e.routes,
      l,
      eq_iff sess sess,
      eq_iff name name,
      contains-add name name (e.heap sess).names,
      lookup-insert name name hosts (e.heap sess).hosts,
    )
    | inr other ↦
        let before : lookup h e.routes ≡ some r =
          ground (
            arith,
            lookup-set_routes (record { session = sess; name = name }) h hosts e.routes,
            l,
          ) in
        let o = v.owned h r before in
        ground (
          arith,
          o.member,
          o.named,
          o.listed,
          eq_iff sess r.session,
          eq_iff name r.name,
          contains-add name r.name (e.heap sess).names,
          lookup-insert name r.name hosts (e.heap sess).hosts,
        )
  ];
}

pub register-Inv :
    (e : Edge) (sess : ℕ) (name : Bytes) (reply : Option ScopeHostnames)
    → contains sess e.sessions ≡ true
    → Inv e
    → Inv (register e sess name reply).0
unfolding reclaim_and_take
register-Inv e sess name reply m v =
    register_cases (λ q. Inv q.0) e sess name reply (λ _. v) (λ _. v) (λ _ _. v)
      λ ts p fresh.
        let dead = scan-IsDead e sess _ [] ts tt p in
        let v' = evict_all-Inv e ts v in
        if_cases (λ (q : Edge × Reply). Inv q.0) _ v'
          (take_hosts-Inv (evict_all e ts) sess name _ (length ts)
            (ap (contains sess) (evict_all-sessions e ts) ∙ m)
            (ap (λ (s : Session). contains name s.names) (evict_all-heap e sess ts dead) ∙ fresh)
            v')

-- The loop of unregister takes the listed hosts of the session away, and nothing else.
pub lookup-remove_hosts :
    (e : Edge) (sess : ℕ) (hs : List Bytes) (b : Bool) (h : Bytes)
    → lookup h (remove_hosts e sess hs b).0.routes ≡ (
        if contains h hs
        then keep_unless (λ r. r.session == sess) (lookup h e.routes)
        else lookup h e.routes)
unfolding remove_hosts contains
lookup-remove_hosts e sess [] b h = refl
lookup-remove_hosts e sess (x ∷ hs) b h = elim (Option-cases (lookup x e.routes)) [
  | inl miss ↦ ground (arith, eq_iff x h, lookup-remove_hosts e sess hs b h)
  | inr (r, hit) ↦ ground (
    arith,
    eq_iff x h,
    lookup-erase x h e.routes,
    lookup-remove_hosts e sess hs b h,
    lookup-remove_hosts (without_host x e) sess hs true h,
  )
]

remove_hosts-Unique :
    (e : Edge) (sess : ℕ) (hs : List Bytes) (b : Bool)
    → Unique e.routes
    → Unique (remove_hosts e sess hs b).0.routes
unfolding remove_hosts
remove_hosts-Unique e sess [] b u = u
remove_hosts-Unique e sess (x ∷ hs) b u = elim (Option-cases (lookup x e.routes)) [
  | inl miss ↦ rw (miss, remove_hosts) (remove_hosts-Unique e sess hs b u)
  | inr (r, hit) ↦
      rw (hit, remove_hosts)
        (if_cases (λ (q : Edge × Bool). Unique q.0.routes) (r.session == sess)
          (remove_hosts-Unique (without_host x e) sess hs true (erase-Unique x e.routes u))
          (remove_hosts-Unique e sess hs b u))
]

-- ... and leaves the sessions as they are.
abbrev pub SameSessions : Edge → Edge → Type 0
SameSessions e e' =
    (e'.heap ≡ e.heap)
    × (e'.sessions ≡ e.sessions)
    × (e'.max_tunnels_per_token ≡ e.max_tunnels_per_token)

pub remove_hosts-sessions :
    (e : Edge) (sess : ℕ) (hs : List Bytes) (b : Bool) → SameSessions e (remove_hosts e sess hs b).0
unfolding remove_hosts
remove_hosts-sessions e sess [] b = (refl, refl, refl)
remove_hosts-sessions e sess (x ∷ hs) b = elim (Option-cases (lookup x e.routes)) [
  | inl miss ↦ rw (miss, remove_hosts) (remove_hosts-sessions e sess hs b)
  | inr (r, hit) ↦
      rw (hit, remove_hosts)
        (if_cases (λ (q : Edge × Bool). SameSessions e q.0) (r.session == sess)
          (remove_hosts-sessions (without_host x e) sess hs true)
          (remove_hosts-sessions e sess hs b))
]

-- The hosts visited for a tunnel include those recorded for it.
contains-hosts_of :
    (e : Edge) (r : Route) (h : Bytes)
    → contains h (recorded e.heap r) ≡ true
    → contains h (hosts_of e r.session r.name) ≡ true
unfolding hosts_of contains
contains-hosts_of e r h c = ground arith

-- A route that unregister leaves is of another session or of another tunnel.
pub kept_elsewhere :
    (e : Edge) (sess : ℕ) (name : Bytes) (b : Bool) (h : Bytes) (r : Route)
    → Inv e
    → lookup h (remove_hosts e sess (hosts_of e sess name) b).0.routes ≡ some r
    → Owned e h r × ((r.session == sess && r.name == name) ≡ false)
kept_elsewhere e sess name b h r v l =
    let found = lookup-remove_hosts e sess (hosts_of e sess name) b h in
    let before : lookup h e.routes ≡ some r = ground (arith, found, l) in
    let o = v.owned h r before in
    let seen = contains-hosts_of e r h o.listed in
    (o, ground (arith, found, l, seen, eq_iff r.session sess, eq_iff r.name name))

-- Forgetting one tunnel of one session keeps what is owned by the others.
forget-Owned :
    (e : Edge) (sess : ℕ) (name : Bytes) (h : Bytes) (r : Route)
    → (r.session == sess && r.name == name) ≡ false
    → Owned e h r
    → Owned (record e { heap = store e.heap sess (forget name (e.heap sess)) }) h r
forget-Owned e sess name h r other o = ground (
  arith,
  o.member,
  o.named,
  o.listed,
  eq_iff sess r.session,
  eq_iff r.session sess,
  eq_iff name r.name,
  eq_iff r.name name,
  contains-remove name r.name (e.heap sess).names,
  lookup-erase name r.name (e.heap sess).hosts,
)

pub unregister-Inv : (e : Edge) (sess : ℕ) (name : Bytes) → Inv e → Inv (unregister e sess name)
unfolding unregister
unregister-Inv e sess name v =
    let hs = hosts_of e sess name in
    let same = remove_hosts-sessions e sess hs false in
    record {
      unique = remove_hosts-Unique e sess hs false v.unique;
      owned = λ h r l.
          let (o, other) = kept_elsewhere e sess name false h r v l in
          subst₂
            (λ (hp : ℕ → Session) (ss : List ℕ).
              OwnedIn (store hp sess (forget name (hp sess))) ss h r)
            (sym same.0) (sym same.1) (forget-Owned e sess name h r other o);
    }

-- What dropSession leaves at a host: the routes of the other sessions.
pub lookup-drop_session :
    (e : Edge) (sess : ℕ) (h : Bytes)
    → Unique e.routes
    → lookup h (drop_session e sess).routes
      ≡ keep_unless (λ r. r.session == sess) (lookup h e.routes)
unfolding drop_session
lookup-drop_session e sess h u = lookup-delete_where (λ r. r.session == sess) h e.routes u

drop_session-Inv : (e : Edge) (sess : ℕ) → Inv e → Inv (drop_session e sess)
unfolding drop_session
drop_session-Inv e sess v = record {
  unique = delete_where-Unique _ e.routes v.unique;
  owned = λ h r l.
      let found = lookup-drop_session e sess h v.unique in
      let before : lookup h e.routes ≡ some r = ground (arith, found, l) in
      let other : (r.session == sess) ≡ false = ground (arith, found, l) in
      let o = v.owned h r before in
      ground (
        arith,
        o.member,
        o.named,
        o.listed,
        other,
        eq_iff r.session sess,
        eq_iff sess r.session,
        contains-remove sess r.session e.sessions,
      );
}

close_transport-Inv : (e : Edge) (sess : ℕ) → Inv e → Inv (close_transport e sess)
unfolding close_transport
close_transport-Inv e sess v = record {
  unique = v.unique;
  owned = λ h r l.
      let o = v.owned h r l in ground (arith, o.member, o.named, o.listed, eq_iff sess r.session);
}

open_session-Inv :
    (e : Edge) (sess : ℕ) (slug : Bytes)
    → contains sess e.sessions ≡ false
    → Inv e
    → Inv (open_session e sess slug)
unfolding open_session
open_session-Inv e sess slug fresh v = record {
  unique = v.unique;
  owned = λ h r l.
      let o = v.owned h r l in
      ground (
        arith,
        o.member,
        o.named,
        o.listed,
        eq_iff sess r.session,
        contains-add sess r.session e.sessions,
      );
}

-- What can happen to the registry, one locked section at a time: a session that was not open yet
-- opens, an open one registers, one unregisters, its transport closes, or it is dropped.
pub data Step (e : Edge) : Edge → Type 0 where
  opens :
      (sess : ℕ) (slug : Bytes)
      → contains sess e.sessions ≡ false
      → Step e (open_session e sess slug)
  registers :
      (sess : ℕ) (name : Bytes) (reply : Option ScopeHostnames)
      → contains sess e.sessions ≡ true
      → Step e (register e sess name reply).0
  unregisters : (sess : ℕ) (name : Bytes) → Step e (unregister e sess name)
  closes : (sess : ℕ) → Step e (close_transport e sess)
  drops : (sess : ℕ) → Step e (drop_session e sess)

pub data Reach (e : Edge) : Edge → Type 0 where
  here : Reach e e
  next : {a b : Edge} → Reach e a → Step a b → Reach e b

-- Each step keeps the invariant.
pub Step-Inv : {a b : Edge} → Inv a → Step a b → Inv b
Step-Inv {a} v (opens sess slug fresh) = open_session-Inv a sess slug fresh v
Step-Inv {a} v (registers sess name reply m) = register-Inv a sess name reply m v
Step-Inv {a} v (unregisters sess name) = unregister-Inv a sess name v
Step-Inv {a} v (closes sess) = close_transport-Inv a sess v
Step-Inv {a} v (drops sess) = drop_session-Inv a sess v

pub Reach-Inv : {a b : Edge} → Inv a → Reach a b → Inv b
Reach-Inv v here = v
Reach-Inv v (next r s) = Step-Inv (Reach-Inv v r) s

empty-Inv : (e : Edge) → e.routes ≡ [] → Inv e
unfolding lookup
empty-Inv e none_yet = record {
  unique = subst Unique (sym none_yet) tt;
  owned = λ h r l. absurd (nothing h r (ap (lookup h) (sym none_yet) ∙ l));
}
  where
    nothing : (h : Bytes) (r : Route) → lookup h [] ≡ some r → ⊥
    nothing h r p = cc

-- From an edge with no route, after any sequence of steps, every host in the route table leads to a
-- session that is open, that holds the route's tunnel, and that recorded the host for it.
pub Reach-Owned :
    (start e : Edge) (h : Bytes) (r : Route)
    → start.routes ≡ []
    → Reach start e
    → lookup h e.routes ≡ some r
    → Owned e h r
Reach-Owned start e h r none_yet steps l = (Reach-Inv (empty-Inv start none_yet) steps).owned h r l
