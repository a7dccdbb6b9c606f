-- ===== src/Edge/Requests/Answers.antt =====
-- What a visitor is answered, and what is left behind.
use beamd.Prelude.{
  ℕ, ◌+◌, ◌-◌, ◌≡◌, refl, ap, subst, ◌∙◌, ◌≢◌, ◌⊎◌, inl, inr, true, ◌&&◌, List, [], ◌∷◌, ◌++◌,
  Option, some, arith, Bytes, codes, is_empty, ◌==◌, nat_eq, list_eq, eq_iff, strip_prefix, lookup,
  Option-cases, if_cases, if_split,
}
use beamd.Edge.Registry.{Route}
use beamd.Edge.Requests.{
  Request, Config, Proxied, Recorded, Served, metrics_dump, recorded, Ingress, bearer_token_ok,
  handle_metrics, begin_proxy, finish_proxy, record_request, declared_body_too_large, proxy_request,
  proxy_with, bare, is_base_host, route_request, handler,
}

strip_prefix_whole : (s p r : Bytes) → strip_prefix s p ≡ some r → s ≡ p ++ r
unfolding strip_prefix
strip_prefix_whole s [] r h = ground arith
strip_prefix_whole [] (q ∷ p) r h = ground arith
strip_prefix_whole (c ∷ s) (q ∷ p) r h = ground (arith, strip_prefix_whole s p r, eq_iff c q)

bearer_token_ok_sound :
    (header want : Bytes) → bearer_token_ok header want ≡ true → header ≡ codes "Bearer " ++ want
unfolding bearer_token_ok
bearer_token_ok_sound header want h = elim (Option-cases (strip_prefix header (codes "Bearer "))) [
  | inl miss ↦ absurd (ground arith)
  | inr (got, hit) ↦
      let same : got ≡ want = ground (arith, eq_iff got want) in
      strip_prefix_whole header (codes "Bearer ") got hit
      ∙ ap (λ (x : Bytes). codes "Bearer " ++ x) same
]

-- The two ends of a proxied request, which both record it: the count of active proxies is as before,
-- or it is one more for a hijacked connection.
proxy_cases {ℓ} :
    (P : Ingress × Served → Type ℓ) (i : Ingress) (p : Proxied)
    → ((q : Recorded) → P (i, recorded q))
    → ((q : Recorded)
        → p.hijacked ≡ true
        → P (record i { active_proxies = i.active_proxies + 1 }, recorded q))
    → P (proxy_request i p)
unfolding proxy_request proxy_with begin_proxy finish_proxy record_request
proxy_cases P i p back stays =
    let given_back : i ≡ record i { active_proxies = i.active_proxies + 1 - 1 } =
      ap (λ (n : ℕ). record i { active_proxies = n }) (omega arith) in
    if_cases (λ o. P (proxy_with i p o)) i.shutting_down (back _)
      (if_split P p.hijacked (λ h. stays _ h)
        (λ _. subst (λ (j : Ingress). P (j, record_request true p)) given_back (back _)))

module _ (split_host_port : Bytes → Option Bytes) (cfg : Config)
    (routes : List (Bytes × Route)) where
  route_cases {ℓ} :
      (P : Ingress × Served → Type ℓ) (i : Ingress) (r : Request) (p : Proxied)
      → ((q : Recorded) → P (i, recorded q))
      → ((q : Recorded)
          → p.hijacked ≡ true
          → P (record i { active_proxies = i.active_proxies + 1 }, recorded q))
      → P (route_request split_host_port cfg routes i r p)
  unfolding route_request record_request
  route_cases P i r p back stays =
      elim (Option-cases (lookup (bare split_host_port r.host) routes)) [
        | inl miss ↦ rw (miss, route_request) (back _)
        | inr (route, hit) ↦
            rw (hit, route_request)
              (if_cases P (declared_body_too_large cfg r) (back _) (proxy_cases P i p back stays))
      ]

  -- A request for the metrics that bears the token of the configuration.
  abbrev pub IsDump : Request → Type 0
  IsDump r =
      (r.path ≡ codes "/metrics")
      × (is_base_host split_host_port cfg r.host ≡ true)
      × (cfg.metrics_token ≢ [])
      × (r.authorization ≡ codes "Bearer " ++ cfg.metrics_token)

  dumps :
      (r : Request)
      → (r.path == codes "/metrics" && is_base_host split_host_port cfg r.host) ≡ true
      → handle_metrics cfg r ≡ metrics_dump
      → IsDump r
  unfolding handle_metrics
  dumps r at h =
      let bears : bearer_token_ok r.authorization cfg.metrics_token ≡ true = ground (arith, h) in
      let path : (r.path == codes "/metrics") ≡ true = ground (arith, at) in
      let base : is_base_host split_host_port cfg r.host ≡ true = ground (arith, at) in
      (
        (eq_iff r.path (codes "/metrics")).0 path,
        base,
        (λ e. ground (arith, h, ap is_empty e)),
        bearer_token_ok_sound r.authorization cfg.metrics_token bears,
      )

  -- The metrics are dumped only at /metrics of the base domain, only if a token is configured, and
  -- only for a request that bears that token.
  pub handler-metrics_dump :
      (i : Ingress) (r : Request) (p : Proxied)
      → (handler split_host_port cfg routes i r p).1 ≡ metrics_dump
      → IsDump r
  unfolding handler handle_metrics
  handler-metrics_dump i r p =
      let P : Ingress × Served → Type 0 = λ o. o.1 ≡ metrics_dump → IsDump r in
      if_split P (r.path == codes "/healthz") (λ _ h. cc)
        λ _.
          if_split P (r.path == codes "/metrics" && is_base_host split_host_port cfg r.host)
            (dumps r)
            λ _.
              if_split P (r.path == codes "/.well-known/beam-auth") (λ _ h. cc)
                λ _. route_cases P i r p (λ q h. cc) (λ q hijacked h. cc)

  -- Every request leaves the count of active proxies as it was, unless it hijacked its connection
  -- and the count is one more.
  pub handler-active_proxies :
      (i : Ingress) (r : Request) (p : Proxied)
      → ((handler split_host_port cfg routes i r p).0 ≡ i)
        ⊎ ((p.hijacked ≡ true)
            × ((handler split_host_port cfg routes i r p).0
                ≡ record i { active_proxies = i.active_proxies + 1 }))
  unfolding handler
  handler-active_proxies i r p =
      let P : Ingress × Served → Type 0 = λ o.
        (o.0 ≡ i)
        ⊎ ((p.hijacked ≡ true) × (o.0 ≡ record i { active_proxies = i.active_proxies + 1 })) in
      if_cases P (r.path == codes "/healthz") (inl refl) (
        if_cases P (r.path == codes "/metrics" && is_base_host split_host_port cfg r.host)
          (inl refl)
          (if_cases P (r.path == codes "/.well-known/beam-auth") (inl refl)
            (route_cases P i r p (λ q. inl refl) λ q hijacked. inr (hijacked, refl))))
