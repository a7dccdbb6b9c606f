-- ===== src/Config/Server/Environment.antt =====
-- applyServerEnvOverrides and LoadServer.
use beamd.Prelude.{Bool, true, false, [], Option, none, some, Bytes, codes, is_empty, if◌then◌else◌}
use beamd.Prelude.Int.{ℤ, pos}
use beamd.Config.Server.{
  Server, ServerError, empty_env, bad_env, NetFacts, validate_configured_part_b_capacities,
  validate,
}

-- The environment, and the results of strconv.ParseBool and strconv.Atoi; none is an error.
pub record Env : Type 0 where
  pub lookup_env : Bytes → Option Bytes
  pub parse_bool : Bytes → Option Bool
  pub atoi : Bytes → Option ℤ

pub data Loaded : Type 0 where
  loaded : Server → Loaded
  unreadable : Loaded
  rejected : ServerError → Loaded

abbrev pub and_then : Loaded → (Server → Loaded) → Loaded
and_then (loaded s) next = next s
and_then unreadable next = unreadable
and_then (rejected e) next = rejected e

module _ (env : Env) where
  -- Getenv: empty where the variable is absent.
  unfoldable pub legacy : Bytes → Bytes → Bytes
  legacy name old = elim (env.lookup_env name) [
    | none ↦ old
    | some v ↦ if is_empty v then old else v
  ]

  unfoldable pub legacy_overrides : Server → Server
  unfolding legacy
  legacy_overrides s = record s {
    base_domain = legacy (codes "BEAMD_BASE_DOMAIN") s.base_domain;
    url_shape = legacy (codes "BEAMD_URL_SHAPE") s.url_shape;
    edge_ipv4 = legacy (codes "BEAMD_EDGE_IPV4") s.edge_ipv4;
    edge_ipv6 = legacy (codes "BEAMD_EDGE_IPV6") s.edge_ipv6;
    listen_https = legacy (codes "BEAMD_LISTEN_HTTPS") s.listen_https;
    acme_email = legacy (codes "BEAMD_ACME_EMAIL") s.acme_email;
    acme_ca = legacy (codes "BEAMD_ACME_CA") s.acme_ca;
    dns_provider = legacy (codes "BEAMD_DNS_PROVIDER") s.dns_provider;
    dns_provider_creds = legacy (codes "BEAMD_DNS_PROVIDER_CREDS") s.dns_provider_creds;
    dns_zone = legacy (codes "BEAMD_DNS_ZONE") s.dns_zone;
    token_store = legacy (codes "BEAMD_TOKEN_STORE") s.token_store;
    data_dir = legacy (codes "BEAMD_DATA_DIR") s.data_dir;
    metrics_token = legacy (codes "BEAMD_METRICS_TOKEN") s.metrics_token;
    preview_embed = elim (env.lookup_env (codes "BEAMD_PREVIEW_EMBED")) [
      | none ↦ s.preview_embed
      | some v ↦
          if is_empty v
          then s.preview_embed
          else elim (env.parse_bool v) [ none ↦ s.preview_embed | some b ↦ b ]
    ];
  }

  -- One of the settings whose variable must not be empty, and must parse.
  unfoldable pub override {ℓ} :
      {A : Type ℓ} → (Bytes → Option A) → Bytes → (A → Server) → Server → Loaded
  override parse name set s = elim (env.lookup_env name) [
    | none ↦ loaded s
    | some v ↦
        if is_empty v
        then rejected (empty_env name)
        else elim (parse v) [ none ↦ rejected (bad_env name) | some a ↦ loaded (set a) ]
  ]

  unfoldable pub apply_server_env_overrides : Server → Loaded
  unfolding legacy_overrides override
  apply_server_env_overrides s =
      and_then
        (override (λ v. some v) (codes "BEAMD_LISTEN_QUIC")
          (λ v. record (legacy_overrides s) { listen_quic = v }) (legacy_overrides s))
        λ s1.
          and_then
            (override env.parse_bool (codes "BEAMD_DISABLE_QUIC")
              (λ b. record s1 { disable_quic = b }) s1)
            λ s2.
              and_then
                (override env.atoi (codes "BEAMD_MAX_STREAMS_PER_SESSION")
                  (λ n. record s2 { max_streams_per_session = n }) s2)
                λ s3.
                  and_then
                    (override env.atoi (codes "BEAMD_MAX_STREAMS_TOTAL")
                      (λ n. record s3 { max_streams_total = n }) s3)
                    λ s4.
                      and_then
                        (override env.atoi (codes "BEAMD_MAX_PRE_AUTH_SESSIONS")
                          (λ n. record s4 { max_pre_auth_sessions = n }) s4)
                        λ s5.
                          override env.atoi (codes "BEAMD_MAX_SESSIONS_TOTAL")
                            (λ n. record s5 { max_sessions_total = n }) s5

-- What Unmarshal starts from.
unfoldable pub default_server : Server
default_server = record {
  base_domain = [];
  url_shape = [];
  edge_ipv4 = [];
  edge_ipv6 = [];
  listen_https = [];
  listen_quic = [];
  disable_quic = true;
  acme_email = [];
  acme_ca = [];
  dns_provider = [];
  dns_provider_creds = [];
  dns_zone = [];
  token_store = [];
  max_tunnels_per_token = pos 0;
  max_streams_per_session = pos 64;
  max_streams_total = pos 128;
  max_pre_auth_sessions = pos 32;
  max_sessions_total = pos 8;
  metrics_token = [];
  data_dir = [];
  max_request_body_bytes = pos 0;
  yamux_stream_window_bytes = pos 0;
  preview_embed = false;
  ip_mode = [];
}

-- LoadServer returns no server with an error.
abbrev pub verdict : Server × Option ServerError → Loaded
verdict (v, some e) = rejected e
verdict (v, none) = loaded v

unfoldable pub checked : NetFacts → Server → Loaded
unfolding validate validate_configured_part_b_capacities
checked net s = elim (validate_configured_part_b_capacities s) [
  | some e ↦ rejected e
  | none ↦ verdict (validate net s)
]

-- `parsed` is the file laid over the defaults by the YAML decoder, none if it cannot be read.
unfoldable pub load_server : Env → NetFacts → (Server → Option Server) → Loaded
unfolding apply_server_env_overrides default_server checked
load_server env net parsed = elim (parsed default_server) [
  | none ↦ unreadable
  | some s ↦ and_then (apply_server_env_overrides env s) (checked net)
]
