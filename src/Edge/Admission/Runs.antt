-- ===== src/Edge/Admission/Runs.antt =====
-- Every slot of the lobby and of the sessions has its holder, whatever the order of the steps.
use beamd.Prelude.{ℕ, zero, suc, ◌≤◌, ◌≡◌, refl, Bool, true, false, List, [], ◌∷◌, arith, All}
use beamd.Edge.Admission.Steps.{
  Gates, Phase, arriving, Transport, Agent, advance, Lobby, front, move,
}
use beamd.Edge.Admission.Counted.{
  holds_auth, sessions_have, IsPlaced, bit, count, on_preauth, on_auth, Shares, advance-Moves,
}

pass :
    (ahead ts : List Transport) (t : Transport) (g : Gates)
    → Shares ahead (t ∷ ts) g
    → Shares (t ∷ ahead) ts g
pass ahead ts t g h = record {
  preauth = omega (arith, h.preauth);
  auth = omega (arith, h.auth);
  preauth_fits = h.preauth_fits;
  auth_fits = h.auth_fits;
  ahead_placed = (h.placed.0, h.ahead_placed);
  placed = h.placed.1;
}

back :
    (ahead ts : List Transport) (t : Transport) (g : Gates)
    → Shares (t ∷ ahead) ts g
    → Shares ahead (t ∷ ts) g
back ahead ts t g h = record {
  preauth = omega (arith, h.preauth);
  auth = omega (arith, h.auth);
  preauth_fits = h.preauth_fits;
  auth_fits = h.auth_fits;
  ahead_placed = h.ahead_placed.1;
  placed = (h.ahead_placed.0, h.placed);
}

move-Shares :
    (n : ℕ) (x : Agent) (ahead ts : List Transport) (g : Gates)
    → Shares ahead ts g
    → Shares ahead (move n x g ts).transports (move n x g ts).gates
unfolding move advance
move-Shares n x ahead [] g h = h
move-Shares zero x ahead (t ∷ ts) g h =
    advance-Moves ahead ts g t.in_lobby t.in_sessions x t.phase h
move-Shares (suc n) x ahead (t ∷ ts) g h =
    back ahead (move n x g ts).transports t (move n x g ts).gates
      (move-Shares n x (t ∷ ahead) ts g (pass ahead ts t g h))

-- What can happen: a transport arrives, one of those under way takes a step, or a shutdown begins.
pub data Event : Type 0 where
  arrives shuts_down : Event
  moves : ℕ → Agent → Event

abbrev pub arrival : Transport
arrival = record { phase = arriving; in_lobby = false; in_sessions = false }

abbrev pub happen : Event → Lobby → Lobby
happen arrives l = front arrival l
happen shuts_down l = record l { gates = record l.gates { shutting_down = true } }
happen (moves n x) l = move n x l.gates l.transports

abbrev pub run : List Event → Lobby → Lobby
run [] l = l
run (e ∷ es) l = run es (happen e l)

-- Each channel counts the transports in the phases that hold a slot of it, within its capacity, and each
-- map has the transports in its phases.
pub record IsCounted (l : Lobby) : Type 0 where
  pub preauth : l.gates.preauth_slots ≡ count on_preauth l.transports
  pub auth : l.gates.auth_slots ≡ count on_auth l.transports
  pub preauth_fits : l.gates.preauth_slots ≤ l.gates.preauth_cap
  pub auth_fits : l.gates.auth_slots ≤ l.gates.auth_cap
  pub placed : All IsPlaced l.transports

to_Shares : (l : Lobby) → IsCounted l → Shares [] l.transports l.gates
to_Shares l c = record {
  preauth = omega (arith, c.preauth);
  auth = omega (arith, c.auth);
  preauth_fits = c.preauth_fits;
  auth_fits = c.auth_fits;
  ahead_placed = tt;
  placed = c.placed;
}

from_Shares : (l : Lobby) → Shares [] l.transports l.gates → IsCounted l
from_Shares l h = record {
  preauth = omega (arith, h.preauth);
  auth = omega (arith, h.auth);
  preauth_fits = h.preauth_fits;
  auth_fits = h.auth_fits;
  placed = h.placed;
}

happen-IsCounted : (e : Event) (l : Lobby) → IsCounted l → IsCounted (happen e l)
happen-IsCounted arrives l c = record {
  preauth = omega (arith, c.preauth);
  auth = omega (arith, c.auth);
  preauth_fits = c.preauth_fits;
  auth_fits = c.auth_fits;
  placed = ((refl, refl), c.placed);
}
happen-IsCounted shuts_down l c = record {
  preauth = c.preauth;
  auth = c.auth;
  preauth_fits = c.preauth_fits;
  auth_fits = c.auth_fits;
  placed = c.placed;
}
happen-IsCounted (moves n x) l c =
    from_Shares (move n x l.gates l.transports)
      (move-Shares n x [] l.transports l.gates (to_Shares l c))

after_all : (es : List Event) (l : Lobby) → IsCounted l → IsCounted (run es l)
after_all [] l c = c
after_all (e ∷ es) l c = after_all es (happen e l) (happen-IsCounted e l c)

-- The transports that the map of the sessions has.
abbrev pub sessions : List Transport → ℕ
sessions ts = count (λ t. t.in_sessions) ts

session_holds : (p : Phase) (b : Bool) → b ≡ sessions_have p → bit b ≤ bit (holds_auth p)
session_holds (Phase.promoted slug) b e = ground (arith, e)
session_holds (Phase.serving slug) b e = ground (arith, e)
session_holds Phase.arriving b e = ground (arith, e)
session_holds Phase.has_slot b e = ground (arith, e)
session_holds Phase.turned_back b e = ground (arith, e)
session_holds Phase.greeting b e = ground (arith, e)
session_holds (Phase.wants_session slug) b e = ground (arith, e)
session_holds (Phase.writing slug) b e = ground (arith, e)
session_holds (Phase.promoting slug) b e = ground (arith, e)
session_holds Phase.dropping_slot b e = ground (arith, e)
session_holds Phase.draining b e = ground (arith, e)
session_holds Phase.closing b e = ground (arith, e)
session_holds Phase.left_lobby b e = ground (arith, e)

sessions-le : (ts : List Transport) → All IsPlaced ts → sessions ts ≤ count on_auth ts
sessions-le [] h = omega arith
sessions-le (t ∷ ts) h =
    omega (arith, session_holds t.phase t.in_sessions h.0.1, sessions-le ts h.1)

-- From a counted state, such as one with no transport and no slot taken, after any arrivals and steps of
-- transports in any order, with a shutdown at any moment: each channel counts exactly the transports in
-- the phases that hold a slot of it and is within its capacity, each transport is in the map of the lobby
-- or of the sessions exactly in the phases of that map, and there are no more sessions than the capacity
-- for them.
pub run-IsCounted :
    (es : List Event) (l : Lobby)
    → IsCounted l
    → IsCounted (run es l) × (sessions (run es l).transports ≤ (run es l).gates.auth_cap)
run-IsCounted es l c =
    let k = after_all es l c in
    (k, omega (arith, sessions-le (run es l).transports k.placed, k.auth, k.auth_fits))
