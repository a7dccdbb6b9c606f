-- ===== src/Edge/Admission.antt =====
-- internal/edge/edge.go: how a transport becomes a session: the slots before and after
-- authentication, and the handshake of handleTunnelSession.
pub mod Slots
pub mod Steps
pub mod Counted
pub mod Runs
pub mod Alone
use beamd.Prelude.{
  ℕ, ◌+◌, ◌-◌, Bool, true, false, not, ◌||◌, List, [], ◌∷◌, Option, none, some, Bytes, ltb, ◌==◌,
  nat_eq, if◌then◌else◌, contains, add, remove,
}

-- Transports and their sessions are numbers; a session has the number of its transport.
pub record Admission : Type 0 where
  pub preauth : List ℕ
  pub preauth_slots : ℕ
  pub preauth_cap : ℕ
  pub auth_slots : ℕ
  pub auth_cap : ℕ
  pub sessions : List ℕ
  pub shutting_down : Bool

-- releasePreauth; it does nothing the second time.
unfoldable pub release_preauth : Admission → ℕ → Admission
release_preauth a t =
    if contains t a.preauth
    then record a { preauth = remove t a.preauth; preauth_slots = a.preauth_slots - 1 }
    else a

-- acquireAuthenticated; none is false.
unfoldable pub acquire_authenticated : Admission → Option Admission
acquire_authenticated a =
    if a.shutting_down
    then none
    else if ltb a.auth_slots a.auth_cap
    then some (record a { auth_slots = a.auth_slots + 1 })
    else none

-- A receive from authSlots.
unfoldable pub release_authenticated : Admission → Admission
release_authenticated a = record a { auth_slots = a.auth_slots - 1 }

-- promoteAuthenticated; none is false.
unfoldable pub promote_authenticated : Admission → ℕ → Option Admission
promote_authenticated a t =
    if a.shutting_down
    then none
    else if not (contains t a.preauth)
    then none
    else some (record a {
      preauth = remove t a.preauth;
      sessions = add t a.sessions;
      preauth_slots = a.preauth_slots - 1;
    })

-- The first message of the agent: none of its kind, one that does not decode, or a hello with its
-- protocol version, and the slug that its token resolves to, if any.
pub data FirstMessage : Type 0 where
  not_hello : FirstMessage
  malformed : FirstMessage
  hello : ℕ → Option Bytes → FirstMessage

pub data HandshakeError : Type 0 where
  no_control_stream bad_hello malformed_hello bad_version bad_token shutdown capacity
        hello_ok_failed :
      HandshakeError

pub data Outcome : Type 0 where
  opened : Bytes → Outcome
  rejected : HandshakeError → Outcome

unfoldable pub finish_promotion : Admission → Bytes → Option Admission → Admission × Outcome
unfolding release_authenticated
finish_promotion a slug none = (release_authenticated a, rejected shutdown)
finish_promotion a slug (some promoted) = (promoted, opened slug)

-- From the write of hello_ok on.
unfoldable pub write_hello_ok : Admission → ℕ → Bytes → Bool → Admission × Outcome
unfolding finish_promotion promote_authenticated
write_hello_ok a t slug writes =
    if writes
    then finish_promotion a slug (promote_authenticated a t)
    else (release_authenticated a, rejected hello_ok_failed)

-- A shutdown may begin before the promotion.
abbrev pub shut : Admission → Bool → Admission
shut a begins = record a { shutting_down = a.shutting_down || begins }

unfoldable pub admit_with :
    Admission → ℕ → Bytes → Bool → Bool → Option Admission → Admission × Outcome
unfolding write_hello_ok
admit_with a t slug writes shuts none =
    if a.shutting_down then (a, rejected shutdown) else (a, rejected capacity)
admit_with a t slug writes shuts (some held) = write_hello_ok (shut held shuts) t slug writes

-- From the resolved token on. `shuts` says whether a shutdown begins before the promotion.
unfoldable pub admit : Admission → ℕ → Bytes → Bool → Bool → Admission × Outcome
unfolding acquire_authenticated admit_with
admit a t slug writes shuts = admit_with a t slug writes shuts (acquire_authenticated a)

-- The handshake up to the session's loop, for the protocol version 1; none is no control stream.
unfoldable pub handshake : Admission → ℕ → Option FirstMessage → Bool → Bool → Admission × Outcome
unfolding admit
handshake a t none writes shuts = (a, rejected no_control_stream)
handshake a t (some not_hello) writes shuts = (a, rejected bad_hello)
handshake a t (some malformed) writes shuts = (a, rejected malformed_hello)
handshake a t (some (hello version slug)) writes shuts =
    if not (version == 1)
    then (a, rejected bad_version)
    else elim slug [ none ↦ (a, rejected bad_token) | some s ↦ admit a t s writes shuts ]

-- The deferred call: a transport that is not authenticated leaves the lobby.
unfoldable pub leave_lobby : ℕ → Admission × Outcome → Admission × Outcome
unfolding release_preauth
leave_lobby t (a, opened slug) = (a, opened slug)
leave_lobby t (a, rejected e) = (release_preauth a t, rejected e)

-- handleTunnelSession up to its loop, with nothing in between but the begin of a shutdown;
-- Edge/Admission/Steps.antt has its steps one by one.
unfoldable pub handle_tunnel_session :
    Admission → ℕ → Option FirstMessage → Bool → Bool → Admission × Outcome
unfolding handshake leave_lobby
handle_tunnel_session a t first writes shuts = leave_lobby t (handshake a t first writes shuts)
