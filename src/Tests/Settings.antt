-- ===== src/Tests/Settings.antt =====
-- Runs of the settings of an edge and of a client, and instances of their theorems.
use beamd.Prelude.{
  ◌≡◌, ◌<◌, ◌⊎◌, refl, true, false, [], ◌∷◌, Option, none, some, Bytes, codes, nat_eq, list_eq,
  list_beq, arith, length, ◌==◌, if◌then◌else◌,
}
use beamd.Prelude.Int.{pos}
use beamd.Config.{validate_yamux_window}
use beamd.Config.Server.{
  Server, NetFacts, with_defaults, validate_configured_part_b_capacities, check_exposure,
  check_runtime, finalize_runtime, validate_defaults, missing_setting, validated, validate,
}
use beamd.Config.Server.Environment.{
  Env, loaded, legacy, legacy_overrides, override, apply_server_env_overrides, default_server,
  checked, load_server,
}
use beamd.Config.Server.Runtime.{Bounded, load_server-Bounded}
use beamd.Config.Accounts.{
  Account, Yaml, account_key, load_account, save_account, delete_account, account_exists,
}
use beamd.Config.Accounts.Keys.{load_account-save_account}
use beamd.Config.Project.{Project, Tree, empty_project}
use beamd.Naming.Derive.{derive_label}
use beamd.Naming.Derive.Valid.{IsHexDigest}
use beamd.Cli.Resolve.{open_target}
use beamd.Cli.Resolve.Ladders.{OpensValid, open_target-OpensValid}

-- An environment that sets one of the capacities.
abbrev wide : Env
wide = record {
  lookup_env = λ name. if name == codes "BEAMD_MAX_STREAMS_TOTAL" then some (codes "200") else none;
  parse_bool = λ v. none;
  atoi = λ v. if v == codes "200" then some (pos 200) else none;
}

abbrev tcp_only : NetFacts
tcp_only = record { split_port = λ a. none; is_port = λ p. false; resolves_udp = λ a. false }

-- A file with the required settings only.
abbrev minimal : Server → Option Server
minimal s = some (record s {
  base_domain = codes "beam.example";
  listen_https = codes ":443";
  acme_email = codes "ops@beam.example";
  dns_provider = codes "cloudflare";
  token_store = codes "memory:t=acme";
})

abbrev edge_settings : Server
edge_settings = record {
  base_domain = codes "beam.example";
  url_shape = codes "hyphen";
  edge_ipv4 = [];
  edge_ipv6 = [];
  listen_https = codes ":443";
  listen_quic = codes ":443";
  disable_quic = true;
  acme_email = codes "ops@beam.example";
  acme_ca = [];
  dns_provider = codes "cloudflare";
  dns_provider_creds = [];
  dns_zone = [];
  token_store = codes "memory:t=acme";
  max_tunnels_per_token = pos 25;
  max_streams_per_session = pos 64;
  max_streams_total = pos 200;
  max_pre_auth_sessions = pos 32;
  max_sessions_total = pos 8;
  metrics_token = [];
  data_dir = codes "/var/lib/beamd";
  max_request_body_bytes = pos 33_554_432;
  yamux_stream_window_bytes = pos 4_194_304;
  preview_embed = false;
  ip_mode = [];
}

edge_loads : load_server wide tcp_only minimal ≡ loaded edge_settings
unfolding load_server apply_server_env_overrides legacy_overrides legacy override default_server
    checked validate validated missing_setting validate_defaults finalize_runtime with_defaults
    check_runtime validate_yamux_window check_exposure validate_configured_part_b_capacities
    list_beq
edge_loads = refl

load_server-Bounded_example : Bounded edge_settings
load_server-Bounded_example = load_server-Bounded wide tcp_only minimal edge_settings edge_loads

abbrev acme : Account
acme = record {
  server = codes "edge.example:443";
  token = codes "t0ken";
  transport = [];
  kind = codes "token";
  insecure_skip_verify = false;
  slug = codes "acme";
  scopes = [];
  default_scope = [];
}

abbrev one_account : Yaml
one_account = record { marshal = λ a. codes "server: edge"; unmarshal = λ b. some acme }

load_account-save_account_example :
    (load_account one_account (save_account one_account [] acme) (codes "edge.example_443") ≡ (
      if account_key (codes "edge.example:443") == account_key (codes "edge.example_443")
      then some acme
      else load_account one_account [] (codes "edge.example_443")))
    × (account_exists (delete_account [] (codes "edge.example:443")) (codes "edge.example_443") ≡ (
        if account_key (codes "edge.example:443") == account_key (codes "edge.example_443")
        then false
        else account_exists [] (codes "edge.example_443")))
load_account-save_account_example =
    load_account-save_account one_account [] acme (codes "edge.example_443") refl

-- /a/b with an overlay, under /a with a project file.
abbrev up : Bytes → Bytes
up dir = if dir == codes "/a/b" then codes "/a" else if dir == codes "/a" then codes "/" else dir

abbrev repository : Tree
repository = record {
  parent = up;
  has_base = λ dir. dir == codes "/a";
  has_local = λ dir. dir == codes "/a/b";
  base_file = λ dir. some (record empty_project { server = codes "edge.example:443" });
  local_file = λ dir. some (record empty_project { scope = codes "team" });
}

abbrev Up : Bytes → Type 0
Up dir = (up dir ≡ dir) ⊎ (length (up dir) < length dir)

abbrev digest : Bytes → Bytes
digest text = codes "0123456789abcdef0123456789abcdef0123456789abcdef0123456789abcdef"

digest-IsHexDigest : IsHexDigest digest
digest-IsHexDigest = record { hex = λ s. ground arith; full = λ s. refl }

abbrev services : Project
services = record empty_project { services = (codes "api", pos 3000) ∷ [] }

open_target-OpensValid_example : OpensValid (
    open_target
      (λ port source.
        derive_label (λ r. r) digest (λ args. none) (λ p. p) (λ p. p) source port (codes "/a"))
      (λ a. none)
      (codes "api")
      []
      []
      (some services)
      none)
open_target-OpensValid_example =
    open_target-OpensValid (λ r. r) digest digest-IsHexDigest (λ args. none) (λ p. p) (λ p. p)
      (codes "/a") (λ a. none) (codes "api") [] [] (some services) none
