-- ===== src/Tunnel/Session.antt =====
-- internal/tunnel/session.go: the first terminal event of a session, and the registry of its streams.
pub mod Termination
pub mod Reason
pub mod Finishing
use beamd.Prelude.{
  ℕ, zero, suc, ◌+◌, Bool, true, false, not, ◌&&◌, List, [], ◌∷◌, Bytes, leb, ◌==◌, nat_eq,
  if◌then◌else◌, length, take, contains, add, remove,
}
use beamd.Client.{CloseInfo}

-- What package utf8 and the conversion through []rune say of a text.
pub record Utf8 : Type 0 where
  pub valid_string : Bytes → Bool
  pub through_runes : Bytes → Bytes

module _ (utf8 : Utf8) where
  -- The loop of sanitizeReason: bytes are cut off the end until the text is valid, `n` bytes at most.
  unfoldable pub trim : ℕ → Bytes → Bytes
  trim zero reason = reason
  trim (suc n) reason = elim (utf8.valid_string reason) [
    | true ↦ reason
    | false ↦ trim n (take n reason)
  ]

  unfoldable pub sanitize_reason : Bytes → Bytes
  unfolding trim
  sanitize_reason reason =
      let text = if utf8.valid_string reason then reason else utf8.through_runes reason in
      if leb (length text) 256 then text else trim 256 (take 256 text)

-- The goroutine that runs finish: it has not begun, it has these children to terminate, or it is over.
pub data Finisher : Type 0 where
  idle : Finisher
  ending : List ℕ → Finisher
  gone : Finisher

-- sessionState, whose streams are numbers, with what its goroutines are about to do. `closes` counts
-- the closes of the session's Done channel; `ended` are the streams whose Done channel is closed, and
-- `leaving` are those of them that childDone still has to unregister. `known` are all streams that were
-- ever registered.
pub record Session : Type 0 where
  pub terminal : Bool
  pub finished : Bool
  pub info : CloseInfo
  pub children : List ℕ
  pub closes : ℕ
  pub finisher : Finisher
  pub ended : List ℕ
  pub leaving : List ℕ
  pub known : List ℕ

-- newSessionState; `blank` is the zero CloseInfo.
unfoldable pub new_session_state : CloseInfo → Session
new_session_state blank = record {
  terminal = false;
  finished = false;
  info = blank;
  children = [];
  closes = 0;
  finisher = idle;
  ended = [];
  leaving = [];
  known = [];
}

abbrev pub sanitized : Utf8 → CloseInfo → CloseInfo
sanitized utf8 info = record info { reason = sanitize_reason utf8 info.reason }

unfoldable pub claim : Utf8 → Session → CloseInfo → Session × Bool
claim utf8 s info =
    if s.terminal
    then (s, false)
    else (record s { terminal = true; info = sanitized utf8 info }, true)

unfoldable pub register : Session → ℕ → Session × Bool
register s stream =
    if s.terminal
    then (s, false)
    else (record s { children = add stream s.children; known = add stream s.known }, true)

unfoldable pub unregister : Session → ℕ → Session
unregister s stream = record s {
  children = remove stream s.children;
  leaving = remove stream s.leaving;
}

-- childDone up to its close, which the stream's own once guards.
unfoldable pub child_closes : Session → ℕ → Session
child_closes s stream =
    if contains stream s.ended
    then s
    else record s { ended = add stream s.ended; leaving = add stream s.leaving }

-- childDone
unfoldable pub child_done : Session → ℕ → Session
unfolding child_closes unregister
child_done s stream = unregister (child_closes s stream) stream

-- finish, as far as it holds the lock.
unfoldable pub begin_finish : Utf8 → Session → CloseInfo → Session
begin_finish utf8 s fallback = if s.finished then s else record s {
  terminal = true;
  info = if s.terminal then s.info else sanitized utf8 fallback;
  finished = true;
  children = [];
  finisher = ending s.children;
}

-- finish after it: it terminates a child, which waits for the child's once, or closes the channel.
unfoldable pub go_on : Session → Finisher → Session
unfolding child_done
go_on s idle = s
go_on s (ending (c ∷ cs)) = record (child_done s c) { finisher = ending cs }
go_on s (ending []) = record s { finisher = gone; closes = s.closes + 1 }
go_on s gone = s

unfoldable pub finish_next : Session → Session
unfolding go_on
finish_next s = go_on s s.finisher

unfoldable pub is_closed : Session → Bool
is_closed s = s.terminal

unfoldable pub close_info : Session → CloseInfo
close_info s = s.info

-- What the goroutines of a session do, one critical section at a time; `child_ends` is a childDone that
-- nothing interrupts.
pub data Event : Type 0 where
  claims : CloseInfo → Event
  registers : ℕ → Event
  child_over : ℕ → Event
  child_leaves : ℕ → Event
  child_ends : ℕ → Event
  finishes : CloseInfo → Event
  finisher_goes_on : Event

unfoldable pub step : Utf8 → Event → Session → Session
unfolding claim register child_closes unregister child_done begin_finish finish_next
step utf8 (claims i) s = (claim utf8 s i).0
step utf8 (registers c) s = (register s c).0
step utf8 (child_over c) s = child_closes s c
step utf8 (child_leaves c) s = if contains c s.leaving then unregister s c else s
step utf8 (child_ends c) s = child_done s c
step utf8 (finishes i) s = begin_finish utf8 s i
step utf8 finisher_goes_on s = finish_next s

unfoldable pub run : Utf8 → List Event → Session → Session
unfolding step
run utf8 [] s = s
run utf8 (e ∷ es) s = run utf8 es (step utf8 e s)
