-- ===== src/Edge/Registry/Outcomes.antt =====
-- The replies of register, and what each says of the registry afterwards.
use beamd.Prelude.{
  ℕ, ◌+◌, ◌≤◌, ◌<◌, ◌≡◌, ◌≢◌, ◌⊎◌, Bool, true, false, ◌&&◌, List, Option, some, Bytes, leb, ltb,
  nat_eq, list_eq, length, contains, lookup,
}
use beamd.Edge.Hosts.{ScopeHostnames, hosts_for_tunnel}
use beamd.Edge.Registry.{
  Route, Edge, live_tunnels, Reply, url, error, name_too_long, name_taken, over_limit, https,
}

-- The hosts and the primary host that register looks up.
abbrev pub hosts_found : Edge → ℕ → Bytes → Option ScopeHostnames → List Bytes × Bytes
hosts_found e sess name reply = hosts_for_tunnel name (e.heap sess).slug e.base_domain e.shape reply

-- A live other session holds the host.
abbrev pub HeldByOther : Edge → ℕ → Bytes → Type 0
HeldByOther e sess h =
    (r : Route) × (lookup h e.routes ≡ some r)
    × (r.session ≢ sess)
    × ((e.heap r.session).closed ≡ false)

-- What a reply says of the edge before and after.
abbrev pub Says : Edge → ℕ → Bytes → Option ScopeHostnames → Edge × Reply → Type 0
Says e sess name reply (e', url u) =
    (u ≡ https (hosts_found e sess name reply).1)
    × (contains name (e'.heap sess).names ≡ true)
    × ((e' ≡ e)
        ⊎ ((h : Bytes)
            → contains h (hosts_found e sess name reply).0 ≡ true
            → lookup h e'.routes ≡ some (record { session = sess; name = name })))
Says e sess name reply (e', error name_too_long) =
    (e' ≡ e) × (63 < length name + 1 + length (e.heap sess).slug)
Says e sess name reply (e', error (name_taken h)) = (e' ≡ e) × HeldByOther e sess h
Says e sess name reply (e', error (over_limit max)) =
    (max ≡ e'.max_tunnels_per_token) × (max ≤ live_tunnels e'.heap (e'.heap sess).slug e'.sessions)

-- The cap has been reached.
abbrev pub is_full : Edge → ℕ → Bool
is_full e sess =
    ltb 0 e.max_tunnels_per_token
    && leb e.max_tunnels_per_token (live_tunnels e.heap (e.heap sess).slug e.sessions)
