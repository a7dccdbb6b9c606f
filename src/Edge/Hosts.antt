-- ===== src/Edge/Hosts.antt =====
-- internal/edge/hostnames.go: the hostnames that a tunnel answers on.
use beamd.Prelude.{
  ℕ, ◌-◌, Bool, true, false, not, ◌||◌, List, [], ◌∷◌, ◌++◌, map, Option, none, some, Bytes,
  is_empty, ltb, nat_eq, list_eq, if◌then◌else◌, contains, lookup, insert,
}
use beamd.Naming.{Shape, hostname}

pub record ScopeDomain : Type 0 where
  pub domain : Bytes
  pub primary : Bool

pub record ScopeHostnames : Type 0 where
  pub primary_slug : Bytes
  pub slugs : List Bytes
  pub domains : List ScopeDomain

pub record Entry : Type 0 where
  pub val : ScopeHostnames
  pub at : ℕ

-- The closure `add`: append a host that is not empty and not seen.
unfoldable pub add_host : List Bytes → Bytes → List Bytes
add_host hosts h = if is_empty h || contains h hosts then hosts else hosts ++ h ∷ []

unfoldable pub add_hosts : List Bytes → List Bytes → List Bytes
unfolding add_host
add_hosts hosts [] = hosts
add_hosts hosts (h ∷ hs) = add_hosts (add_host hosts h) hs

unfoldable pub primary_domain : Bytes → List ScopeDomain → Bytes
primary_domain found [] = found
primary_domain found (d ∷ ds) = primary_domain (if d.primary then d.domain else found) ds

abbrev pub is_nil : List Bytes → Bool
is_nil [] = true
is_nil (h ∷ hs) = false

-- The default-shape hosts of the bound slugs, or the default host alone.
unfoldable pub slug_hosts : Bytes → Bytes → Shape → Bytes → List Bytes → List Bytes
unfolding add_hosts
slug_hosts name base shape default_host slugs =
    let hosts = add_hosts [] (map (λ s. hostname name s base shape) slugs) in
    if is_nil hosts then add_host hosts default_host else hosts

unfoldable pub primary_host : Bytes → Bytes → Bytes → Shape → ScopeHostnames → Bytes
unfolding primary_domain
primary_host name slug base shape sh =
    let domain = primary_domain [] sh.domains in
    if not (is_empty domain)
    then name ++ b'.' ∷ domain
    else hostname name (if is_empty sh.primary_slug then slug else sh.primary_slug) base shape

-- `reply` is what the hostnames client gives: none without a client, or when its fetch fails.
unfoldable pub hosts_for_tunnel :
    Bytes → Bytes → Bytes → Shape → Option ScopeHostnames → List Bytes × Bytes
unfolding slug_hosts primary_host add_hosts
hosts_for_tunnel name slug base shape none =
    (hostname name slug base shape ∷ [], hostname name slug base shape)
hosts_for_tunnel name slug base shape (some sh) =
    let default_host = hostname name slug base shape in
    let hosts =
      add_hosts (slug_hosts name base shape default_host sh.slugs)
        (map (λ (d : ScopeDomain). name ++ b'.' ∷ d.domain) sh.domains) in
    let primary = primary_host name slug base shape sh in
    (hosts, if is_empty primary then default_host else primary)

-- hostnamesClient: the cached answer while it is fresh, else a fetch, which is kept if it succeeds.
-- `fetched` is the answer of the control plane, and `stored` the time after the fetch.
unfoldable pub get :
    ℕ
    → List (Bytes × Entry)
    → Bytes
    → ℕ
    → Option ScopeHostnames
    → ℕ
    → List (Bytes × Entry) × Option ScopeHostnames
get ttl cache slug now fetched stored =
    let miss : List (Bytes × Entry) × Option ScopeHostnames = elim fetched [
      | none ↦ (cache, none)
      | some val ↦ (insert slug (record { val = val; at = stored }) cache, some val)
    ] in
    elim (lookup slug cache) [
      | none ↦ miss
      | some e ↦ if ltb (now - e.at) ttl then (cache, some e.val) else miss
    ]
