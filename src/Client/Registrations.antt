-- ===== src/Client/Registrations.antt =====
-- internal/client/client.go: the tunnels that an agent means to have: Register, Unregister, the replies of
-- readControl, and the replay after a reconnect.
pub mod Replies
pub mod Rollback
pub mod Replayed
use beamd.Prelude.{
  ℕ, zero, suc, Bool, true, false, not, ◌&&◌, ◌||◌, List, [], ◌∷◌, Option, none, some, Bytes, codes,
  is_empty, ltb, ◌==◌, nat_eq, list_eq, if◌then◌else◌, lookup, insert, erase, contains, ◌*◌, ◌-◌,
  min,
}
use beamd.Prelude.Int.{ℤ, pos, negsuc}
use beamd.Naming.{label_from_port}

-- A message of the edge, as readControl takes it. It does nothing with one of another type, or with one
-- whose fields do not decode.
pub data ControlMsg : Type 0 where
  registered : Bytes → Bytes → ControlMsg
  error : Bytes → Bytes → Bytes → ControlMsg
  unexpected : ControlMsg

-- controlReply: the URL of the tunnel, or the code and the text of an error.
pub data Reply : Type 0 where
  url : Bytes → Reply
  refused : Bytes → Bytes → Reply

-- pendingRegister, with the replies that readControl sends to its channel, the last one first. The
-- channel has room for one: where the register has taken none, a second send waits in the code, and
-- readControl with it, so that a run of the code has sent a part of these.
pub record Pending : Type 0 where
  pub name : Bytes
  pub replies : List Reply

-- What readControl keeps: the register in flight, and how the session will be closed.
pub record Control : Type 0 where
  pub pending : Option Pending
  pub skip_backoff : Bool
  pub shutdown : Bool
  pub terminal_reason : Bytes

abbrev pub shutdown_reason : Bytes → Bytes
shutdown_reason msg = if is_empty msg then codes "edge shutting down" else msg

-- A reply for the register in flight.
abbrev pub deliver : Control → Pending → Reply → Control
deliver c p r = record c { pending = some (record p { replies = r ∷ p.replies }) }

unfoldable pub on_registered : Control → Option Pending → Bytes → Bytes → Control
on_registered c none name address = c
on_registered c (some p) name address = if p.name == name then deliver c p (url address) else c

-- An error that names another register is dropped; one that names none is for the one in flight.
unfoldable pub on_error : Control → Option Pending → Bytes → Bytes → Bytes → Control
on_error c none code name msg = c
on_error c (some p) code name msg =
    if not (is_empty name) && not (name == p.name) then c else deliver c p (refused code msg)

unfoldable pub note_shutdown : Control → Bytes → Bytes → Control
note_shutdown c code msg =
    if code == codes "shutdown"
    then record c { skip_backoff = true; shutdown = true; terminal_reason = shutdown_reason msg }
    else c

-- One message of the loop of readControl.
unfoldable pub handle_control : Control → ControlMsg → Control
unfolding on_registered on_error note_shutdown
handle_control c (registered name address) = on_registered c c.pending name address
handle_control c (error code name msg) = on_error (note_shutdown c code msg) c.pending code name msg
handle_control c unexpected = c

pub data RegisterResult : Type 0 where
  opened : Bytes → RegisterResult
  rejected : Bytes → Bytes → RegisterResult
  session_unavailable client_closed timed_out send_failed no_active_session : RegisterResult

abbrev pub of_reply : Reply → RegisterResult
of_reply (url address) = opened address
of_reply (refused code msg) = rejected code msg

-- What ends the wait of doRegisterOnSessionUntil; the session may end while a reply is ready. A deadline
-- that is past before the wait is a timeout too.
pub data Wakes : Type 0 where
  by_reply : Reply → Wakes
  by_close by_timeout : Wakes
  by_session_done : Option Reply → Wakes

unfoldable pub wait_result : Wakes → RegisterResult
wait_result (by_reply r) = of_reply r
wait_result by_close = client_closed
wait_result by_timeout = timed_out
wait_result (by_session_done (some r)) = of_reply r
wait_result (by_session_done none) = session_unavailable

-- doRegisterOnSessionUntil: whether the session is there at first, whether the write succeeds, and whether
-- the session is there after a write that fails.
unfoldable pub do_register : Bool → Bool → Bool → Wakes → RegisterResult
unfolding wait_result
do_register there writes still_there wakes =
    if not there
    then session_unavailable
    else if not writes
    then (if still_there then send_failed else session_unavailable)
    else wait_result wakes

-- The tunnels that are meant to be open, by name.
abbrev pub Intended : Type 0
Intended = List (Bytes × ℤ)

-- Register, before its wait: the name, and the intended state with it.
abbrev pub effective_name : Bytes → ℤ → Bytes
effective_name name port = if is_empty name then label_from_port port else name

unfoldable pub intend : Intended → Bytes → ℤ → Intended
intend m name port = insert name port m

abbrev pub same_port : ℤ → ℤ → Bool
same_port (pos m) (pos n) = m == n
same_port (negsuc m) (negsuc n) = m == n
same_port (pos m) (negsuc n) = false
same_port (negsuc m) (pos n) = false

-- What a failed Register puts back where its own port still stands.
unfoldable pub restore_port : Intended → Bytes → Option ℤ → Intended
restore_port m name none = erase name m
restore_port m name (some p) = insert name p m

-- Register, after a failure, with what it found under the name before and what stands there now.
unfoldable pub rolled_back : Intended → Bytes → ℤ → Option ℤ → Option ℤ → Intended
unfolding restore_port
rolled_back m name port previous none = m
rolled_back m name port previous (some current) =
    if same_port current port then restore_port m name previous else m

unfoldable pub roll_back : Intended → Bytes → ℤ → Option ℤ → Intended
unfolding rolled_back
roll_back m name port previous = rolled_back m name port previous (lookup name m)

-- Unregister
unfoldable pub drop_intended : Intended → Bytes → Intended
drop_intended m name = erase name m

-- A name that this pass of the replay leaves out.
abbrev pub skipped : Option (List Bytes) → Bytes → Bool
skipped none name = false
skipped (some names) name = not (contains name names)

abbrev pub still_intended : Option ℤ → ℤ → Bool
still_intended none port = false
still_intended (some current) port = same_port current port

-- replayIntended, for the names of a snapshot: `current` is the intended state when a name's turn comes,
-- and `registers` says whether its register succeeds. It gives the names that failed.
unfoldable pub replay_intended :
    Option (List Bytes) → (Bytes → Option ℤ) → (Bytes → Bool) → Intended → List Bytes
replay_intended only current registers [] = []
replay_intended only current registers ((name, port) ∷ snapshot) =
    let failed = replay_intended only current registers snapshot in
    if skipped only name
    then failed
    else if not (still_intended (current name) port)
    then failed
    else if registers name
    then failed
    else name ∷ failed

-- One pass of replayLoop: the intended state that it copies, the state when each name has its turn, and
-- whether the name's register succeeds.
pub record Round : Type 0 where
  pub snapshot : Intended
  pub current : Bytes → Option ℤ
  pub registers : Bytes → Bool

-- replayLoop over these passes: whether it comes to its end, with no name left.
unfoldable pub replay_loop : Option (List Bytes) → List Round → Bool
unfolding replay_intended
replay_loop only [] = false
replay_loop only (r ∷ rounds) = elim (replay_intended only r.current r.registers r.snapshot) [
  | [] ↦ true
  | name ∷ names ↦ replay_loop (some (name ∷ names)) rounds
]
