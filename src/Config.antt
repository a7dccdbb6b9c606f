-- ===== src/Config.antt =====
-- internal/config: the settings that are resolved when an edge or an agent starts (transport.go and
-- window.go). The environment variable is an argument, none if it is absent.
pub mod Startup
pub mod Server
pub mod Accounts
pub mod Project
use beamd.Prelude.{
  ℕ, ◌*◌, Bool, true, false, ◌||◌, List, [], Option, none, some, Bytes, codes, is_empty, ltb, ◌==◌,
  nat_eq, list_eq, if◌then◌else◌,
}
use beamd.Prelude.Int.{ℤ, pos, negsuc}

pub data ConfigError : Type 0 where
  present_but_empty : ConfigError
  unsupported_transport : Bytes → ConfigError
  not_an_integer : Bytes → ConfigError
  out_of_range : ℤ → ConfigError
  exposure_too_large : ℕ → ConfigError

pub data Resolved (A : Type 0) : Type 0 where
  resolved : A → Resolved A
  failed : ConfigError → Resolved A

abbrev pub tcp : Bytes
tcp = codes "tcp"

abbrev pub auto : Bytes
auto = codes "auto"

abbrev pub quic : Bytes
quic = codes "quic"

unfoldable pub supported : Bytes → Resolved Bytes
supported t =
    if t == tcp || t == auto || t == quic then resolved t else failed (unsupported_transport t)

unfoldable pub resolve_transport : Option Bytes → Bytes → Resolved Bytes
unfolding supported
resolve_transport (some v) configured = if is_empty v then failed present_but_empty else supported v
resolve_transport none configured = supported (if is_empty configured then tcp else configured)

-- What ResolveClientTransport reads of a client.
pub record Client : Type 0 where
  pub transport : Bytes
  pub kind : Bytes

unfoldable pub resolve_client_transport : Option Bytes → Option Client → Resolved Bytes
unfolding resolve_transport
resolve_client_transport env none = resolve_transport env []
resolve_client_transport env (some c) =
    resolve_transport env
      (if is_empty c.transport then if c.kind == codes "session" then auto else [] else c.transport)

abbrev pub min_window : ℕ
min_window = 262_144

abbrev pub max_window : ℕ
max_window = 16_777_216

abbrev pub default_window : ℕ
default_window = 4_194_304

unfoldable pub validate_yamux_window : ℤ → Option ConfigError
validate_yamux_window (negsuc n) = some (out_of_range (negsuc n))
validate_yamux_window (pos n) =
    if ltb n min_window || ltb max_window n then some (out_of_range (pos n)) else none

-- `parse_int` is strconv.ParseInt in base 10 and 64 bits, none on its error.
unfoldable pub resolve_yamux_window : (Bytes → Option ℤ) → Option Bytes → Resolved ℤ
unfolding validate_yamux_window
resolve_yamux_window parse_int none = resolved (pos default_window)
resolve_yamux_window parse_int (some v) = elim (parse_int v) [
  | none ↦ failed (not_an_integer v)
  | some n ↦ elim (validate_yamux_window n) [ none ↦ resolved n | some e ↦ failed e ]
]

-- The agent accepts 128 streams; 2 GiB is the most that they may expose.
unfoldable pub validate_agent_yamux_window : ℤ → Option ConfigError
unfolding validate_yamux_window
validate_agent_yamux_window (negsuc n) = validate_yamux_window (negsuc n)
validate_agent_yamux_window (pos n) = elim (validate_yamux_window (pos n)) [
  | some e ↦ some e
  | none ↦ if ltb 2_147_483_648 (n * 128) then some (exposure_too_large (n * 128)) else none
]
