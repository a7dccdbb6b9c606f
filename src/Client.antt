-- ===== src/Client.antt =====
-- internal/client/client.go: how an agent chooses a transport, and when it may try the other one;
-- with CloseReason of internal/tunnel/session.go.
pub mod Fallback
pub mod Registrations
use beamd.Prelude.{
  ℕ, ◌+◌, ◌-◌, Bool, true, false, not, ◌&&◌, ◌||◌, List, [], ◌∷◌, Option, none, some, is_none,
  Bytes, codes, ltb, ◌==◌, nat_eq, list_eq, if◌then◌else◌,
}

pub data Kind : Type 0 where
  quic yamux : Kind

-- candidateError, less the error that it wraps.
pub record CandidateError : Type 0 where
  pub reason : Bytes
  pub eligible : Bool

abbrev pub terminal : CandidateError
terminal = record { reason = []; eligible = false }

abbrev pub eligible_for : Bytes → CandidateError
eligible_for reason = record { reason = reason; eligible = true }

-- The application codes of a close; `unknown_code` is one that this client does not recognize.
pub data ErrorCode : Type 0 where
  close_normal close_shutdown close_protocol close_auth close_capacity close_idle close_superseded
        unknown_code :
      ErrorCode

pub record CloseInfo : Type 0 where
  pub code : ErrorCode
  pub code_valid : Bool
  pub remote : Bool
  pub reason : Bytes

abbrev pub reason_of_code : ErrorCode → Bytes
reason_of_code close_normal = codes "normal"
reason_of_code close_superseded = codes "normal"
reason_of_code close_shutdown = codes "shutdown"
reason_of_code close_protocol = codes "protocol"
reason_of_code close_auth = codes "protocol"
reason_of_code close_idle = codes "idle"
reason_of_code close_capacity = codes "other"
reason_of_code unknown_code = codes "other"

unfoldable pub close_reason : CloseInfo → Bytes
close_reason info =
    if info.code_valid
    then reason_of_code info.code
    else if info.reason == codes "normal"
        || info.reason == codes "shutdown"
        || info.reason == codes "protocol"
        || info.reason == codes "idle"
        || info.reason == codes "network"
        || info.reason == codes "other"
    then info.reason
    else codes "other"

-- none is a nil *candidateError.
unfoldable pub hello_rejection_from_close_info : CloseInfo → Option CandidateError
hello_rejection_from_close_info info =
    if not info.code_valid || not info.remote then none else some terminal

unfoldable pub hello_failure_from_close_info : CloseInfo → Option CandidateError
unfolding hello_rejection_from_close_info close_reason
hello_failure_from_close_info info =
    if info.code_valid
    then hello_rejection_from_close_info info
    else if close_reason info == codes "network"
    then some (eligible_for (codes "network"))
    else if close_reason info == codes "idle"
    then some (eligible_for (codes "timeout"))
    else some terminal

-- What errors.Is and errors.As say of the context's error and of the error.
pub record ErrorFacts : Type 0 where
  pub ctx_deadline : Bool
  pub ctx_canceled : Bool
  pub is_deadline : Bool
  pub is_open_timeout : Bool
  pub is_canceled : Bool
  pub is_closed : Bool
  pub is_net_error : Bool

unfoldable pub classify_availability_failure : ErrorFacts → CandidateError
classify_availability_failure f =
    if f.ctx_deadline || f.is_deadline || f.is_open_timeout
    then eligible_for (codes "timeout")
    else if f.ctx_canceled || f.is_canceled
    then terminal
    else if f.is_closed
    then eligible_for (codes "network")
    else if f.is_net_error
    then eligible_for (codes "network")
    else terminal

-- `dial_failure` is the category and the eligibility of a QUIC dial failure, if the error is one.
unfoldable pub classify_dial_failure : Kind → Option CandidateError → ErrorFacts → CandidateError
unfolding classify_availability_failure
classify_dial_failure quic (some failure) f = failure
classify_dial_failure quic none f = classify_availability_failure f
classify_dial_failure yamux dial_failure f = classify_availability_failure f

-- `cleaned` says that the cleanup joined the end of the session in time, which ended with `info`.
unfoldable pub fail_candidate : Bool → CloseInfo → CandidateError → CandidateError
unfolding hello_failure_from_close_info
fail_candidate cleaned info failure =
    if not cleaned
    then terminal
    else if failure.eligible
    then elim (hello_failure_from_close_info info) [
      | some authoritative ↦ authoritative
      | none ↦ failure
    ]
    else failure

-- What the selection reads and writes of a Client.
pub record Selector : Type 0 where
  pub transport : Bytes
  pub last_successful : Option Kind
  pub tcp_fallback_at : Option ℕ
  pub fallback_count : ℕ
  pub last_fallback : Bytes

abbrev pub quic_reprobe_interval : ℕ
quic_reprobe_interval = 600_000_000_000

abbrev pub recently : Option ℕ → ℕ → Bool
recently none now = false
recently (some at) now = ltb (now - at) quic_reprobe_interval

unfoldable pub candidate_order : Selector → Bool → ℕ → List Kind
candidate_order c first now =
    if c.transport == codes "quic"
    then quic ∷ []
    else if c.transport == codes "tcp"
    then yamux ∷ []
    else if first
    then quic ∷ yamux ∷ []
    else elim c.last_successful [
      | none ↦ quic ∷ yamux ∷ []
      | some quic ↦ quic ∷ yamux ∷ []
      | some yamux ↦ if recently c.tcp_fallback_at now then yamux ∷ quic ∷ [] else quic ∷ yamux ∷ []
    ]

-- What one candidate ends in: a session that says hello_ok, or an error; and whether the caller's
-- context has ended by then.
pub data Attempt : Type 0 where
  connected : Attempt
  failed : CandidateError → Attempt
  canceled : Attempt

pub data Connected : Type 0 where
  installed : Kind → Connected
  not_installed : Connected
  gave_up : CandidateError → Connected
  was_canceled : Connected

-- installSession; `accepts` says that the client is not closed and the slug has not changed.
unfoldable pub install_session : Selector → Kind → Bool → Selector × Connected
install_session c k accepts = if not accepts then (c, not_installed) else (
  record c {
    last_successful = some k;
    tcp_fallback_at = elim k [ quic ↦ none | yamux ↦ c.tcp_fallback_at ];
  },
  installed k,
)

-- The bookkeeping of a fallback from QUIC to TCP.
unfoldable pub note_fallback : Selector → Kind → Kind → ℕ → Bytes → Selector
note_fallback c quic yamux now reason = record c {
  fallback_count = c.fallback_count + 1;
  last_fallback = reason;
  tcp_fallback_at = some now;
}
note_fallback c from to now reason = c

abbrev pub only : Kind → Selector × Connected → Selector × Connected × List Kind
only k (c, result) = (c, result, k ∷ [])

abbrev pub and_before : Kind → Selector × Connected × List Kind → Selector × Connected × List Kind
and_before k (c, result, tried) = (c, result, k ∷ tried)

-- The loop of connectOnce; it also lists the candidates that it tried. `attempt` is what each ends in.
unfoldable pub try_candidates :
    (Kind → Attempt) → Bool → ℕ → Selector → List Kind → Selector × Connected × List Kind
unfolding install_session note_fallback
try_candidates attempt accepts now c [] = (c, gave_up terminal, [])
try_candidates attempt accepts now c (k ∷ []) = elim (attempt k) [
  | connected ↦ only k (install_session c k accepts)
  | failed e ↦ only k (c, gave_up e)
  | canceled ↦ only k (c, was_canceled)
]
try_candidates attempt accepts now c (k ∷ l ∷ ks) = elim (attempt k) [
  | connected ↦ only k (install_session c k accepts)
  | failed e ↦ elim e.eligible [
    | true ↦
        and_before k
          (try_candidates attempt accepts now (note_fallback c k l now e.reason) (l ∷ ks))
    | false ↦ only k (c, gave_up e)
  ]
  | canceled ↦ only k (c, was_canceled)
]

-- `attempt` is how the attempt of a candidate ends, its timeout and its cancelation included.
unfoldable pub connect_once :
    (Kind → Attempt) → Bool → ℕ → Selector → Bool → Selector × Connected × List Kind
unfolding candidate_order try_candidates
connect_once attempt accepts now c first =
    try_candidates attempt accepts now c (candidate_order c first now)
