-- ===== src/Edge/Admission/Steps.antt =====
-- internal/edge/edge.go: the steps of acquirePreauth, handleTunnelSession, releasePreauth and dropSession,
-- each one a critical section, an operation on one channel, or a call that may block, so that the steps
-- of many transports can come in any order.
use beamd.Prelude.{
  ℕ, zero, suc, ◌+◌, ◌-◌, Bool, true, false, not, ◌&&◌, List, [], ◌∷◌, Option, none, some, Bytes,
  ltb, ◌==◌, nat_eq, if◌then◌else◌,
}
use beamd.Edge.Admission.{FirstMessage, not_hello, malformed, hello}

-- The two channels of slots, and whether the edge shuts down.
pub record Gates : Type 0 where
  pub preauth_slots : ℕ
  pub preauth_cap : ℕ
  pub auth_slots : ℕ
  pub auth_cap : ℕ
  pub shutting_down : Bool

-- Where a transport is between two of its steps.
pub data Phase : Type 0 where
  arriving has_slot turned_back greeting : Phase
  wants_session writing promoting promoted serving : Bytes → Phase
  dropping_slot draining closing left_lobby : Phase

-- A transport, and whether the maps of the lobby and of the sessions have it.
pub record Transport : Type 0 where
  pub phase : Phase
  pub in_lobby : Bool
  pub in_sessions : Bool

-- What the agent does in a step: its first message, and whether the write of hello_ok succeeds.
pub record Agent : Type 0 where
  pub first : Option FirstMessage
  pub writes : Bool

-- The checks of the first message, for the protocol version 1.
unfoldable pub greeted : Option FirstMessage → Phase
greeted none = closing
greeted (some not_hello) = closing
greeted (some malformed) = closing
greeted (some (hello version none)) = closing
greeted (some (hello version (some slug))) = if version == 1 then wants_session slug else closing

-- The two channels.
unfoldable pub give_preauth_slot : Gates → Gates
give_preauth_slot g = record g { preauth_slots = g.preauth_slots - 1 }

unfoldable pub give_auth_slot : Gates → Gates
give_auth_slot g = record g { auth_slots = g.auth_slots - 1 }

-- The critical section of acquireAuthenticated.
unfoldable pub take_auth_slot : Gates → Bytes → Transport → Gates × Option Transport
take_auth_slot g slug t =
    if not g.shutting_down && ltb g.auth_slots g.auth_cap
    then (record g { auth_slots = g.auth_slots + 1 }, some (record t { phase = writing slug }))
    else (g, some (record t { phase = closing }))

unfoldable pub take_preauth_slot : Gates → Transport → Gates × Option Transport
take_preauth_slot g t =
    if ltb g.preauth_slots g.preauth_cap
    then (record g { preauth_slots = g.preauth_slots + 1 }, some (record t { phase = has_slot }))
    else (g, none)

-- The critical section of acquirePreauth.
unfoldable pub enter_lobby : Bool → Transport → Transport
enter_lobby shutting_down t =
    if shutting_down
    then record t { phase = turned_back }
    else record t { phase = greeting; in_lobby = true }

-- The critical section of promoteAuthenticated.
unfoldable pub move_inside : Bool → Bytes → Transport → Transport
move_inside shutting_down slug t =
    if shutting_down
    then record t { phase = dropping_slot }
    else if not t.in_lobby
    then record t { phase = dropping_slot }
    else record t { phase = promoted slug; in_lobby = false; in_sessions = true }

-- The critical section of releasePreauth; a transport that is not in the lobby is done.
unfoldable pub leave_lobby : Transport → Option Transport
leave_lobby t =
    if t.in_lobby then some (record t { phase = left_lobby; in_lobby = false }) else none

unfoldable pub advance_phase : Agent → Gates → Transport → Phase → Gates × Option Transport
unfolding greeted give_preauth_slot give_auth_slot take_auth_slot take_preauth_slot enter_lobby
    move_inside leave_lobby
advance_phase x g t arriving = take_preauth_slot g t
advance_phase x g t has_slot = (g, some (enter_lobby g.shutting_down t))
advance_phase x g t turned_back = (give_preauth_slot g, none)
advance_phase x g t greeting = (g, some (record t { phase = greeted x.first }))
advance_phase x g t (wants_session slug) = take_auth_slot g slug t
advance_phase x g t (writing slug) =
    (g, some (record t { phase = if x.writes then promoting slug else dropping_slot }))
advance_phase x g t dropping_slot = (give_auth_slot g, some (record t { phase = closing }))
advance_phase x g t (promoting slug) = (g, some (move_inside g.shutting_down slug t))
advance_phase x g t (promoted slug) =
    (give_preauth_slot g, some (record t { phase = serving slug }))
advance_phase x g t (serving slug) = (g, some (record t { phase = draining; in_sessions = false }))
advance_phase x g t draining = (give_auth_slot g, none)
advance_phase x g t closing = (g, leave_lobby t)
advance_phase x g t left_lobby = (give_preauth_slot g, none)

-- The next step of a transport.
unfoldable pub advance : Agent → Gates → Transport → Gates × Option Transport
unfolding advance_phase
advance x g t = advance_phase x g t t.phase

-- The transports under way, with the state that they share.
pub record Lobby : Type 0 where
  pub gates : Gates
  pub transports : List Transport

abbrev pub stays : Option Transport → List Transport → List Transport
stays none ts = ts
stays (some t) ts = t ∷ ts

abbrev pub front : Transport → Lobby → Lobby
front t l = record l { transports = t ∷ l.transports }

-- One of the transports takes its next step.
unfoldable pub move : ℕ → Agent → Gates → List Transport → Lobby
unfolding advance
move n x g [] = record { gates = g; transports = [] }
move zero x g (t ∷ ts) =
    let out = advance x g t in record { gates = out.0; transports = stays out.1 ts }
move (suc n) x g (t ∷ ts) = front t (move n x g ts)
