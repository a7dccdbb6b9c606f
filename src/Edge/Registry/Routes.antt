-- ===== src/Edge/Registry/Routes.antt =====
-- What register, unregister and dropSession do to the route table.
use beamd.Prelude.{
  ℕ, ◌≡◌, refl, ◌∙◌, ◌≢◌, ◌⊎◌, inl, inr, true, false, List, [], ◌∷◌, Option, some, arith, Bytes,
  ◌==◌, nat_eq, list_eq, eq_iff, if◌then◌else◌, contains, lookup, insert, keep_unless,
  lookup-insert, lookup-delete_where, Unique, insert-Unique, delete_where-Unique, All, Bool-cases,
  Option-cases,
}
use beamd.Edge.Hosts.{ScopeHostnames, hosts_for_tunnel}
use beamd.Edge.Registry.{
  Route, Edge, Tunnel, is_of, note, Scan, taken, free, scan, evict, evict_all, set_routes,
  take_hosts, reclaim_and_take, register_locked, register, Reply, url, error, too_long,
  name_too_long, name_taken, https,
}

-- Every listed host leads to the route, every other host where it led before.
pub lookup-set_routes :
    (r : Route) (h : Bytes) (hs : List Bytes) (m : List (Bytes × Route))
    → lookup h (set_routes r hs m) ≡ (if contains h hs then some r else lookup h m)
unfolding set_routes contains
lookup-set_routes r h [] m = refl
lookup-set_routes r h (x ∷ hs) m =
    ground (arith, lookup-set_routes r h hs (insert x r m), lookup-insert x h r m)

pub set_routes-Unique :
    (r : Route) (hs : List Bytes) (m : List (Bytes × Route)) → Unique m → Unique (set_routes r hs m)
unfolding set_routes
set_routes-Unique r [] m u = u
set_routes-Unique r (x ∷ hs) m u = set_routes-Unique r hs (insert x r m) (insert-Unique x r m u)

-- A dead session, other than the one that registers.
abbrev pub IsDead : Edge → ℕ → Tunnel → Type 0
IsDead e sess t = ((e.heap t.0).closed ≡ true) × (t.0 ≢ sess)

note-All :
    (P : Tunnel → Type 0) (t : Tunnel) (ts : List Tunnel) → P t → All P ts → All P (note t ts)
unfolding note
note-All P t [] p h = (p, tt)
note-All P t (u ∷ us) p h = ground (arith, note-All P t us p)

-- The scan notes tunnels of dead other sessions only.
pub scan-IsDead :
    (e : Edge) (sess : ℕ) (hs : List Bytes) (ds ts : List Tunnel)
    → All (IsDead e sess) ds
    → scan e sess hs ds ≡ free ts
    → All (IsDead e sess) ts
unfolding scan
scan-IsDead e sess [] ds ts a h = ground arith
scan-IsDead e sess (x ∷ hs) ds ts a h = elim (Option-cases (lookup x e.routes)) [
  | inl miss ↦ scan-IsDead e sess hs ds ts a (rw (miss, scan) at h)
  | inr (r, hit) ↦ elim (Bool-cases (r.session == sess)) [
    | inl own ↦ scan-IsDead e sess hs ds ts a (ground arith)
    | inr other ↦ elim (Bool-cases (e.heap r.session).closed) [
      | inl dead ↦
          scan-IsDead e sess hs (note (r.session, r.name) ds) ts
            (note-All (IsDead e sess) (r.session, r.name) ds
              (dead, ground (arith, eq_iff r.session sess)) a)
            (ground arith)
      | inr live ↦ absurd (ground arith)
    ]
  ]
]

-- Past the scan no listed host is held by a live other session.
pub scan_free :
    (e : Edge) (sess : ℕ) (hs : List Bytes) (ds ts : List Tunnel) (h : Bytes) (r : Route)
    → scan e sess hs ds ≡ free ts
    → contains h hs ≡ true
    → lookup h e.routes ≡ some r
    → (r.session ≡ sess) ⊎ ((e.heap r.session).closed ≡ true)
unfolding scan contains
scan_free e sess [] ds ts h r p c l = ground arith
scan_free e sess (x ∷ hs) ds ts h r p c l = elim (Option-cases (lookup x e.routes)) [
  | inl miss ↦ ground (arith, eq_iff x h, scan_free e sess hs ds ts h r)
  | inr (q, hit) ↦
      let also = note (q.session, q.name) ds in
      ground (
        arith,
        eq_iff x h,
        eq_iff q.session sess,
        scan_free e sess hs ds ts h r,
        scan_free e sess hs also ts h r,
      )
]

-- Reclaiming leaves every session's slug and transport, and the routes of other tunnels.
pub evict-closed : (e : Edge) (t : Tunnel) (s : ℕ) → ((evict e t).heap s).closed ≡ (e.heap s).closed
unfolding evict
evict-closed e t s = ground (arith, eq_iff t.0 s)

pub lookup-evict :
    (e : Edge) (t : Tunnel) (h : Bytes)
    → Unique e.routes
    → lookup h (evict e t).routes ≡ keep_unless (is_of t) (lookup h e.routes)
unfolding evict
lookup-evict e t h u = lookup-delete_where (is_of t) h e.routes u

pub evict-Unique : (e : Edge) (t : Tunnel) → Unique e.routes → Unique (evict e t).routes
unfolding evict
evict-Unique e t u = delete_where-Unique (is_of t) e.routes u

pub IsDead-evict :
    (e : Edge) (t : Tunnel) (sess : ℕ) (ts : List Tunnel)
    → All (IsDead e sess) ts
    → All (IsDead (evict e t) sess) ts
IsDead-evict e t sess [] a = tt
IsDead-evict e t sess (u ∷ us) a =
    ((evict-closed e t u.0 ∙ a.0.0, a.0.1), IsDead-evict e t sess us a.1)

evict_all-keeps :
    (e : Edge) (sess : ℕ) (ts : List Tunnel) (h : Bytes) (r : Route)
    → All (IsDead e sess) ts
    → Unique e.routes
    → lookup h e.routes ≡ some r
    → (e.heap r.session).closed ≡ false
    → lookup h (evict_all e ts).routes ≡ some r
unfolding evict_all
evict_all-keeps e sess [] h r a u l c = l
evict_all-keeps e sess (t ∷ ts) h r a u l c =
    evict_all-keeps (evict e t) sess ts h r (IsDead-evict e t sess ts a.1) (evict-Unique e t u)
      (ground (arith, lookup-evict e t h u, eq_iff r.session t.0)) (evict-closed e t r.session ∙ c)

pub evict_all-Unique :
    (e : Edge) (ts : List Tunnel) → Unique e.routes → Unique (evict_all e ts).routes
unfolding evict_all
evict_all-Unique e [] u = u
evict_all-Unique e (t ∷ ts) u = evict_all-Unique (evict e t) ts (evict-Unique e t u)

reclaim-keeps :
    (e : Edge) (sess : ℕ) (name : Bytes) (hosts : List Bytes) (primary : Bytes) (ts : List Tunnel)
    (h : Bytes) (r : Route)
    → scan e sess hosts [] ≡ free ts
    → Unique e.routes
    → lookup h e.routes ≡ some r
    → r.session ≢ sess
    → (e.heap r.session).closed ≡ false
    → lookup h (reclaim_and_take e sess name hosts primary ts).0.routes ≡ some r
unfolding reclaim_and_take take_hosts
reclaim-keeps e sess name hosts primary ts h r p u l ne c =
    let kept = evict_all-keeps e sess ts h r (scan-IsDead e sess hosts [] ts tt p) u l c in
    ground (
      arith,
      kept,
      lookup-set_routes (record { session = sess; name = name }) h hosts (evict_all e ts).routes,
      scan_free e sess hosts [] ts h r p,
    )

Scan-cases : (s : Scan) → ((h : Bytes) × (s ≡ taken h)) ⊎ ((ts : List Tunnel) × (s ≡ free ts))
Scan-cases (taken h) = inl (h, refl)
Scan-cases (free ts) = inr (ts, refl)

-- The outcomes of register, each with what the code found on the way.
pub register_cases {ℓ} :
    (P : Edge × Reply → Type ℓ) (e : Edge) (sess : ℕ) (name : Bytes) (reply : Option ScopeHostnames)
    → let found = hosts_for_tunnel name (e.heap sess).slug e.base_domain e.shape reply in
      (too_long e sess name ≡ true → P (e, error name_too_long))
      → (contains name (e.heap sess).names ≡ true → P (e, url (https found.1)))
      → ((h : Bytes) → scan e sess found.0 [] ≡ taken h → P (e, error (name_taken h)))
      → ((ts : List Tunnel)
          → scan e sess found.0 [] ≡ free ts
          → contains name (e.heap sess).names ≡ false
          → P (reclaim_and_take e sess name found.0 found.1 ts))
      → P (register e sess name reply)
unfolding register register_locked
register_cases P e sess name reply long again conflict go =
    let found = hosts_for_tunnel name (e.heap sess).slug e.base_domain e.shape reply in
    elim (Bool-cases (too_long e sess name)) [
      | inl a ↦ rw (a, register) (long a)
      | inr b ↦ elim (Bool-cases (contains name (e.heap sess).names)) [
        | inl c ↦ rw (b, c, register) (again c)
        | inr d ↦ elim (Scan-cases (scan e sess found.0 [])) [
          | inl (h, k) ↦ rw (b, d, k, register) (conflict h k)
          | inr (ts, k) ↦ rw (b, d, k, register) (go ts k d)
        ]
      ]
    ]

-- Whatever a session registers, and whatever the outcome, a host that a live other session holds
-- still leads to that session's route afterwards, if the route table has one entry for a host.
pub register_keeps_live :
    (e : Edge) (sess : ℕ) (name : Bytes) (reply : Option ScopeHostnames) (h : Bytes) (r : Route)
    → Unique e.routes
    → lookup h e.routes ≡ some r
    → r.session ≢ sess
    → (e.heap r.session).closed ≡ false
    → lookup h (register e sess name reply).0.routes ≡ some r
register_keeps_live e sess name reply h r u l ne c =
    register_cases (λ q. lookup h q.0.routes ≡ some r) e sess name reply (λ _. l) (λ _. l)
      (λ _ _. l) λ ts p _. reclaim-keeps e sess name _ _ ts h r p u l ne c
