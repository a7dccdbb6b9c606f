-- ===== src/Edge/Requests.antt =====
-- internal/edge/edge.go: a visitor's request: handler, handleMetrics, and the proxy's ErrorHandler.
pub mod Answers
use beamd.Prelude.{
  ℕ, ◌+◌, ◌-◌, Bool, true, false, not, ◌&&◌, List, Option, none, some, is_none, get_or_else, Bytes,
  codes, is_empty, leb, ltb, ◌==◌, nat_eq, list_eq, if◌then◌else◌, strip_prefix, equal_fold, lookup,
}
use beamd.Prelude.Int.{ℤ, pos, negsuc}
use beamd.Edge.Registry.{Route}

-- The Authorization header is empty if there is none.
pub record Request : Type 0 where
  pub path : Bytes
  pub host : Bytes
  pub authorization : Bytes
  pub content_length : ℤ

pub record Config : Type 0 where
  pub base_domain : Bytes
  pub metrics_token : Bytes
  pub max_request_body_bytes : ℕ

pub data Outcome : Type 0 where
  ok no_route size_limit backend_error : Outcome

-- What the ReverseProxy does: the status that it writes, 0 if none, and whether it hijacked the
-- connection, which is then still open.
pub record Proxied : Type 0 where
  pub status : ℕ
  pub hijacked : Bool

-- An answer of the edge's own pages, or the record of a request: its status, its outcome, whether the
-- event is emitted by the handler, and whether it has the time of the first byte.
pub record Recorded : Type 0 where
  pub status : ℕ
  pub outcome : Outcome
  pub emitted : Bool
  pub has_first_byte : Bool

pub data Served : Type 0 where
  health discovery metrics_dump : Served
  metrics_refused : ℕ → Served
  recorded : Recorded → Served

-- What handler changes: the count of active proxies. `shutting_down` is the edge's flag.
pub record Ingress : Type 0 where
  pub shutting_down : Bool
  pub active_proxies : ℕ

unfoldable pub bearer_token_ok : Bytes → Bytes → Bool
bearer_token_ok header want = elim (strip_prefix header (codes "Bearer ")) [
  | none ↦ false
  | some got ↦ got == want
]

unfoldable pub handle_metrics : Config → Request → Served
unfolding bearer_token_ok
handle_metrics cfg r =
    if is_empty cfg.metrics_token
    then metrics_refused 404
    else if not (bearer_token_ok r.authorization cfg.metrics_token)
    then metrics_refused 401
    else metrics_dump

-- beginProxy; none is false.
unfoldable pub begin_proxy : Ingress → Option Ingress
begin_proxy i =
    if i.shutting_down then none else some (record i { active_proxies = i.active_proxies + 1 })

-- The proxy is done, once.
unfoldable pub finish_proxy : Ingress → Ingress
finish_proxy i = record i { active_proxies = i.active_proxies - 1 }

unfoldable pub outcome_of : Bool → ℕ → Outcome
outcome_of routed status =
    if not routed
    then no_route
    else if status == 413
    then size_limit
    else if leb 500 status
    then backend_error
    else ok

-- The end of handler: a status that was not written is 200.
unfoldable pub record_request : Bool → Proxied → Served
unfolding outcome_of
record_request routed p =
    let status = if p.status == 0 then 200 else p.status in
    recorded (record {
      status = status;
      outcome = outcome_of routed status;
      emitted = not p.hijacked;
      has_first_byte = not p.hijacked && routed;
    })

-- The body is declared to be larger than the limit, if there is one.
unfoldable pub declared_body_too_large : Config → Request → Bool
declared_body_too_large cfg r =
    ltb 0 cfg.max_request_body_bytes
    && elim r.content_length [ negsuc n ↦ false | pos n ↦ ltb cfg.max_request_body_bytes n ]

abbrev pub wrote : ℕ → Proxied
wrote status = record { status = status; hijacked = false }

-- The answer once the request is an active proxy, if it is; a hijacked connection stays one.
unfoldable pub proxy_with : Ingress → Proxied → Option Ingress → Ingress × Served
unfolding finish_proxy record_request
proxy_with i p none = (i, record_request true (wrote 503))
proxy_with i p (some j) =
    if p.hijacked then (j, record_request true p) else (finish_proxy j, record_request true p)

unfoldable pub proxy_request : Ingress → Proxied → Ingress × Served
unfolding begin_proxy proxy_with
proxy_request i p = proxy_with i p (begin_proxy i)

-- `split_host_port` is the host that net.SplitHostPort gives, none on its error.
module _ (split_host_port : Bytes → Option Bytes) where
  abbrev pub bare : Bytes → Bytes
  bare hostport = get_or_else (split_host_port hostport) hostport

  unfoldable pub is_base_host : Config → Bytes → Bool
  is_base_host cfg hostport = equal_fold (bare hostport) cfg.base_domain

  unfoldable pub route_request :
      Config → List (Bytes × Route) → Ingress → Request → Proxied → Ingress × Served
  unfolding proxy_request declared_body_too_large
  route_request cfg routes i r p = elim (lookup (bare r.host) routes) [
    | none ↦ (i, record_request false (wrote 404))
    | some route ↦
        if declared_body_too_large cfg r
        then (i, record_request true (wrote 413))
        else proxy_request i p
  ]

  unfoldable pub handler :
      Config → List (Bytes × Route) → Ingress → Request → Proxied → Ingress × Served
  unfolding is_base_host handle_metrics route_request
  handler cfg routes i r p =
      if r.path == codes "/healthz"
      then (i, health)
      else if r.path == codes "/metrics" && is_base_host cfg r.host
      then (i, handle_metrics cfg r)
      else if r.path == codes "/.well-known/beam-auth"
      then (i, discovery)
      else route_request cfg routes i r p

-- Why the proxy failed.
pub data ProxyError : Type 0 where
  body_too_large capacity other : ProxyError

-- The proxy's ErrorHandler: the status, none if the visitor is gone, and Retry-After.
unfoldable pub error_handler : Bool → ProxyError → Option (ℕ × Option ℕ)
error_handler canceled e = if canceled then none else elim e [
  | body_too_large ↦ some (413, none)
  | capacity ↦ some (503, some 1)
  | other ↦ some (502, none)
]
