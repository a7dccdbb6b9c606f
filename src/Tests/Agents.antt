-- ===== src/Tests/Agents.antt =====
-- internal/client, internal/config and internal/proto at concrete settings, lines and failures.
use beamd.Prelude.{
  ◌≡◌, refl, true, false, List, [], ◌∷◌, Option, none, some, Bytes, codes, list_beq,
}
use beamd.Prelude.Int.{ℤ, pos}
use beamd.Config.{resolved, resolve_transport, resolve_yamux_window}
use beamd.Proto.{Slice, ended, buffer_full, line, read_line_capped}
use beamd.Client.{
  Kind, quic, yamux, CloseInfo, close_auth, eligible_for, fail_candidate, Selector, Attempt,
  connected, failed, connect_once,
}

from_env : resolve_transport (some (codes "auto")) (codes "quic") ≡ resolved (codes "auto")
unfolding resolve_transport list_beq
from_env = refl

abbrev one_mebibyte : Bytes → Option ℤ
one_mebibyte v = some (pos 1_048_576)

window_run : resolve_yamux_window one_mebibyte (some (codes "1048576")) ≡ resolved (pos 1_048_576)
unfolding resolve_yamux_window
window_run = refl

abbrev two_slices : List Slice
two_slices = buffer_full (codes "{\"ty") ∷ ended (codes "pe\"}") ∷ []

line_run : read_line_capped 16 [] two_slices ≡ line (codes "{\"type\"}")
unfolding read_line_capped
line_run = refl

-- The network went away, and the session ended with no application code.
abbrev dropped : CloseInfo
dropped = record { code = close_auth; code_valid = false; remote = false; reason = codes "network" }

stays_eligible : (fail_candidate true dropped (eligible_for (codes "timeout"))).eligible ≡ true
unfolding fail_candidate list_beq
stays_eligible = refl

abbrev agent : Selector
agent = record {
  transport = codes "auto";
  last_successful = none;
  tcp_fallback_at = none;
  fallback_count = 0;
  last_fallback = [];
}

-- QUIC is blocked.
abbrev no_udp : Kind → Attempt
no_udp quic = failed (eligible_for (codes "timeout"))
no_udp yamux = connected

falls_back : (connect_once no_udp true 5 agent true).2 ≡ quic ∷ yamux ∷ []
unfolding connect_once list_beq
falls_back = refl
