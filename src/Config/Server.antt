-- ===== src/Config/Server.antt =====
-- internal/config/server.go: the settings of an edge, their defaults and their validation.
pub mod Runtime
pub mod Environment
use beamd.Prelude.{
  ℕ, zero, suc, ◌*◌, Bool, true, false, not, ◌&&◌, ◌||◌, Option, none, some, Bytes, codes, is_empty,
  ltb, leb, ◌==◌, nat_eq, list_eq, if◌then◌else◌,
}
use beamd.Prelude.Int.{ℤ, pos, negsuc}
use beamd.Config.{ConfigError, validate_yamux_window, default_window}

-- Server, less what only the request log and the login page read.
pub record Server : Type 0 where
  pub base_domain : Bytes
  pub url_shape : Bytes
  pub edge_ipv4 : Bytes
  pub edge_ipv6 : Bytes
  pub listen_https : Bytes
  pub listen_quic : Bytes
  pub disable_quic : Bool
  pub acme_email : Bytes
  pub acme_ca : Bytes
  pub dns_provider : Bytes
  pub dns_provider_creds : Bytes
  pub dns_zone : Bytes
  pub token_store : Bytes
  pub max_tunnels_per_token : ℤ
  pub max_streams_per_session : ℤ
  pub max_streams_total : ℤ
  pub max_pre_auth_sessions : ℤ
  pub max_sessions_total : ℤ
  pub metrics_token : Bytes
  pub data_dir : Bytes
  pub max_request_body_bytes : ℤ
  pub yamux_stream_window_bytes : ℤ
  pub preview_embed : Bool
  pub ip_mode : Bytes

pub data ServerError : Type 0 where
  required : Bytes → ServerError
  unsupported_shape : Bytes → ServerError
  unsupported_ip_mode : Bytes → ServerError
  bad_window : ConfigError → ServerError
  streams_per_session_range streams_total_range pre_auth_range sessions_total_range : ServerError
  bad_listen_quic yamux_exposure quic_exposure : ServerError
  zero_capacity : Bytes → ServerError
  empty_env bad_env : Bytes → ServerError

abbrev pub is_zero : ℤ → Bool
is_zero (pos zero) = true
is_zero _ = false

-- The default where the value is zero, or where the text is empty.
abbrev pub or_default : ℤ → ℕ → ℤ
or_default n d = if is_zero n then pos d else n

abbrev pub or_text : Bytes → Bytes → Bytes
or_text s d = if is_empty s then d else s

abbrev pub all_capacities_zero : Server → Bool
all_capacities_zero s =
    is_zero s.max_streams_per_session
    && is_zero s.max_streams_total
    && is_zero s.max_pre_auth_sessions
    && is_zero s.max_sessions_total

-- The defaults of FinalizeRuntime.
unfoldable pub with_defaults : Server → Server
with_defaults s = record s {
  max_request_body_bytes = or_default s.max_request_body_bytes 33_554_432;
  disable_quic = all_capacities_zero s || s.disable_quic;
  max_streams_per_session = or_default s.max_streams_per_session 64;
  max_streams_total = or_default s.max_streams_total 128;
  max_pre_auth_sessions = or_default s.max_pre_auth_sessions 32;
  max_sessions_total = or_default s.max_sessions_total 8;
  listen_quic = or_text s.listen_quic s.listen_https;
  yamux_stream_window_bytes = or_default s.yamux_stream_window_bytes default_window;
}

-- low ≤ n ≤ high.
abbrev pub in_range : ℤ → ℕ → ℕ → Bool
in_range (pos n) low high = leb low n && leb n high
in_range (negsuc n) low high = false

-- A number that was found to be positive.
abbrev pub amount : ℤ → ℕ
amount (pos n) = n
amount (negsuc n) = 0

unfoldable pub validate_configured_part_b_capacities : Server → Option ServerError
validate_configured_part_b_capacities s =
    if is_zero s.max_streams_per_session
    then some (zero_capacity (codes "max_streams_per_session"))
    else if is_zero s.max_streams_total
    then some (zero_capacity (codes "max_streams_total"))
    else if is_zero s.max_pre_auth_sessions
    then some (zero_capacity (codes "max_pre_auth_sessions"))
    else if is_zero s.max_sessions_total
    then some (zero_capacity (codes "max_sessions_total"))
    else none

-- The part of FinalizeRuntime that bounds the exposure of the windows.
unfoldable pub check_exposure : Server → Option ServerError
check_exposure s =
    if ltb 1_073_741_824 (amount s.yamux_stream_window_bytes * amount s.max_streams_total)
    then some yamux_exposure
    else if ltb 536_870_912 (67_108_864 * amount s.max_sessions_total)
    then some quic_exposure
    else none

-- The defaults of Validate.
unfoldable pub validate_defaults : Server → Server
validate_defaults s = record s {
  max_tunnels_per_token =
      if in_range s.max_tunnels_per_token 1 9_223_372_036_854_775_807
      then s.max_tunnels_per_token
      else pos 25;
  data_dir = or_text s.data_dir (codes "/var/lib/beamd");
  max_request_body_bytes = or_default s.max_request_body_bytes 33_554_432;
  url_shape = or_text s.url_shape (codes "hyphen");
}

unfoldable pub missing_setting : Server → Option Bytes
missing_setting s =
    if is_empty s.base_domain
    then some (codes "base_domain")
    else if is_empty s.listen_https
    then some (codes "listen_https")
    else if is_empty s.acme_email
    then some (codes "acme_email")
    else if is_empty s.dns_provider
    then some (codes "dns_provider")
    else if is_empty s.token_store
    then some (codes "token_store")
    else none

abbrev pub is_shape : Bytes → Bool
is_shape t = t == codes "hyphen" || t == codes "subdomain" || t == codes "flat"

abbrev pub is_ip_mode : Bytes → Bool
is_ip_mode t = is_empty t || t == codes "truncate" || t == codes "off"

-- What package net and strconv say of an address: the port that SplitHostPort gives, whether ParseUint
-- reads it, and whether ResolveUDPAddr resolves the address.
pub record NetFacts : Type 0 where
  pub split_port : Bytes → Option Bytes
  pub is_port : Bytes → Bool
  pub resolves_udp : Bytes → Bool

module _ (net : NetFacts) where
  unfoldable pub validate_udp_listen_address : Bytes → Bool
  validate_udp_listen_address addr = elim (net.split_port addr) [
    | none ↦ false
    | some port ↦ not (is_empty port) && net.is_port port && net.resolves_udp addr
  ]

  -- The validation of FinalizeRuntime, once the defaults are in place.
  unfoldable pub check_runtime : Server → Option ServerError
  unfolding validate_udp_listen_address check_exposure
  check_runtime s = elim (validate_yamux_window s.yamux_stream_window_bytes) [
    | some e ↦ some (bad_window e)
    | none ↦
        if not (in_range s.max_streams_per_session 1 128)
        then some streams_per_session_range
        else if not (in_range s.max_streams_total (amount s.max_streams_per_session) 256)
        then some streams_total_range
        else if not (in_range s.max_pre_auth_sessions 1 128)
        then some pre_auth_range
        else if not (in_range s.max_sessions_total 1 8)
        then some sessions_total_range
        else if not s.disable_quic && not (validate_udp_listen_address s.listen_quic)
        then some bad_listen_quic
        else check_exposure s
  ]

  -- FinalizeRuntime; a server whose validation fails is not used.
  unfoldable pub finalize_runtime : Server → Server × Option ServerError
  unfolding with_defaults check_runtime
  finalize_runtime s = (with_defaults s, check_runtime (with_defaults s))

  -- Validate, once it is known whether a required setting is missing.
  unfoldable pub validated : Server → Option Bytes → Server × Option ServerError
  unfolding validate_defaults finalize_runtime
  validated s (some name) = (s, some (required name))
  validated s none =
      let d = validate_defaults s in
      if not (is_shape d.url_shape)
      then (d, some (unsupported_shape d.url_shape))
      else if not (is_ip_mode d.ip_mode)
      then (d, some (unsupported_ip_mode d.ip_mode))
      else finalize_runtime d

  unfoldable pub validate : Server → Server × Option ServerError
  unfolding missing_setting validated
  validate s = validated s (missing_setting s)
