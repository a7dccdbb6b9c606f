-- ===== src/Tunnel/Quic.antt =====
-- internal/tunnel/quic.go: how a QUIC connection ends, and how it is dialed and accepted.
pub mod Dialing
pub mod Keys
pub mod Persistence
use beamd.Prelude.{
  ℕ, ◌+◌, Bool, true, false, not, ◌&&◌, ◌||◌, List, [], ◌∷◌, Option, none, some, Bytes, codes, leb,
  ◌==◌, nat_eq, if◌then◌else◌,
}
use beamd.Client.{CloseInfo, ErrorCode, close_normal}

-- What errors.As finds in the cause of a closed connection: an application error with its code, its side
-- and its message, a transport error with its code and its side, and the other kinds.
pub record Cause : Type 0 where
  pub application : Option (ErrorCode × Bool × Bytes)
  pub idle_timeout : Bool
  pub stateless_reset : Bool
  pub transport : Option (ℕ × Bool)
  pub version_negotiation : Bool
  pub net_error : Bool

-- The transport error codes of package quic that the code names.
pub record QuicCodes : Type 0 where
  pub no_viable_path : ℕ
  pub connection_refused : ℕ

abbrev pub unreachable : QuicCodes → ℕ → Bool
unreachable quic code = code == quic.no_viable_path || code == quic.connection_refused

abbrev pub info_of : Bytes → Bool → CloseInfo
info_of reason remote = record {
  code = close_normal;
  code_valid = false;
  remote = remote;
  reason = reason;
}

-- What is left once it is no application error, no idle timeout and no stateless reset.
unfoldable pub other_close_info : QuicCodes → Cause → Option (ℕ × Bool) → CloseInfo
other_close_info quic e (some t) =
    info_of (if unreachable quic t.0 then codes "network" else codes "protocol") t.1
other_close_info quic e none =
    if e.version_negotiation
    then info_of (codes "protocol") false
    else if e.net_error
    then info_of (codes "network") false
    else info_of (codes "other") false

unfoldable pub close_info_of : QuicCodes → Cause → Option (ErrorCode × Bool × Bytes) → CloseInfo
unfolding other_close_info
close_info_of quic e (some a) = record { code = a.0; code_valid = true; remote = a.1; reason = a.2 }
close_info_of quic e none =
    if e.idle_timeout
    then info_of (codes "idle") false
    else if e.stateless_reset
    then info_of (codes "network") false
    else other_close_info quic e e.transport

-- closeInfoFromQUIC; none is a nil error.
unfoldable pub close_info_from_quic : QuicCodes → Option Cause → CloseInfo
unfolding close_info_of
close_info_from_quic quic none = info_of (codes "other") false
close_info_from_quic quic (some e) = close_info_of quic e e.application

pub data DialFailureCategory : Type 0 where
  dial_network dial_timeout dial_handshake dial_terminal : DialFailureCategory

abbrev pub is_network : DialFailureCategory → Bool
is_network dial_network = true
is_network dial_timeout = false
is_network dial_handshake = false
is_network dial_terminal = false

unfoldable pub fallback_eligible : DialFailureCategory → Bool
fallback_eligible dial_terminal = false
fallback_eligible dial_network = true
fallback_eligible dial_timeout = true
fallback_eligible dial_handshake = true

-- What errors.Is and errors.As find in the error of a dial; `net_timeout` is the Timeout of a net.Error.
pub record DialError : Type 0 where
  pub deadline_exceeded : Bool
  pub canceled : Bool
  pub no_resolved_addresses : Bool
  pub certificate : Bool
  pub handshake_timeout : Bool
  pub stateless_reset : Bool
  pub version_negotiation : Bool
  pub transport : Option ℕ
  pub net_timeout : Option Bool

unfoldable pub net_category : Option Bool → DialFailureCategory
net_category none = dial_terminal
net_category (some timeout) = if timeout then dial_timeout else dial_network

unfoldable pub transport_category : QuicCodes → Option Bool → Option ℕ → DialFailureCategory
unfolding net_category
transport_category quic net none = net_category net
transport_category quic net (some code) =
    if unreachable quic code
    then dial_network
    else if leb 256 code && leb code 511
    then dial_terminal
    else dial_handshake

-- classifyDialFailure
unfoldable pub classify_dial_failure : QuicCodes → DialError → DialFailureCategory
unfolding transport_category
classify_dial_failure quic e =
    if e.deadline_exceeded
    then dial_timeout
    else if e.canceled
    then dial_terminal
    else if e.no_resolved_addresses
    then dial_network
    else if e.certificate
    then dial_terminal
    else if e.handshake_timeout
    then dial_timeout
    else if e.stateless_reset
    then dial_network
    else if e.version_negotiation
    then dial_handshake
    else transport_category quic e.net_timeout e.transport

-- One dial of a numeric address: a session, or an error.
pub data Attempt : Type 0 where
  session : Attempt
  failed : DialError → Attempt

pub data Dialed : Type 0 where
  connected : Bytes → Dialed
  gave_up : DialFailureCategory → Dialed

-- The loop of Dial, with the last failure, if there is one.
unfoldable pub dial_from : QuicCodes → (Bytes → Attempt) → List Bytes → DialFailureCategory → Dialed
unfolding classify_dial_failure
dial_from quic dial [] last = gave_up last
dial_from quic dial (a ∷ as') last =
    let rest = dial_from quic dial as' dial_network in
    elim (dial a) [
      | session ↦ connected a
      | failed e ↦ let c = classify_dial_failure quic e in if is_network c then rest else gave_up c
    ]

-- Dial, of the resolved addresses; with none of them the failure is one of the network.
unfoldable pub dial : QuicCodes → (Bytes → Attempt) → List Bytes → Dialed
unfolding dial_from
dial quic attempt addresses = dial_from quic attempt addresses dial_network

-- quicAttempt; `closes` counts the closes of its Done channel, and `observed` the failures reported.
pub record QuicAttempt : Type 0 where
  pub resolved : Bool
  pub accepted : Bool
  pub closes : ℕ
  pub observed : ℕ

unfoldable pub new_quic_attempt : QuicAttempt
new_quic_attempt = record { resolved = false; accepted = false; closes = 0; observed = 0 }

unfoldable pub mark_accepted : QuicAttempt → QuicAttempt × Bool
mark_accepted a =
    if a.resolved
    then (a, a.accepted)
    else (record a { resolved = true; accepted = true; closes = a.closes + 1 }, true)

-- watch, once the context of the connection is over; `reported` says whether observeQUICError lets the
-- cause through.
unfoldable pub watch_attempt : QuicAttempt → Bool → QuicAttempt
watch_attempt a reported = if a.resolved then a else record a {
  resolved = true;
  closes = a.closes + 1;
  observed = if reported then a.observed + 1 else a.observed;
}
