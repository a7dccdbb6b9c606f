-- ===== src/Edge/Admission/Alone.antt =====
-- The handshake in one go is what its steps come to where nothing else happens in between.
use beamd.Prelude.{
  ℕ, zero, suc, ◌+◌, ◌-◌, ◌≡◌, Bool, true, false, Option, none, some, Bytes, ltb, ◌==◌, nat_eq,
}
use beamd.Edge.Admission.{Admission, hello, Outcome, opened, rejected}
use beamd.Edge.Admission.Steps.{Gates, Phase, greeting, serving, Transport, Agent, advance}

abbrev pub gates_of : Admission → Gates
gates_of a = record {
  preauth_slots = a.preauth_slots;
  preauth_cap = a.preauth_cap;
  auth_slots = a.auth_slots;
  auth_cap = a.auth_cap;
  shutting_down = a.shutting_down;
}

abbrev pub in_lobby : Transport
in_lobby = record { phase = greeting; in_lobby = true; in_sessions = false }

abbrev next :
    (Gates × Option Transport → Gates × Option Transport)
    → Agent
    → Gates
    → Transport
    → Phase
    → Gates × Option Transport
next more x g t (serving slug) = (g, some t)
next more x g t p = more (advance x g t)

-- At most so many steps of one transport, up to the loop of its session.
unfoldable pub alone : ℕ → Agent → Gates × Option Transport → Gates × Option Transport
unfolding advance
alone zero x r = r
alone (suc n) x (g, none) = (g, none)
alone (suc n) x (g, some t) = next (alone n x) x g t t.phase

-- How a handshake leaves its transport.
abbrev pub left_as : Outcome → Option Transport
left_as (opened slug) = some (record { phase = serving slug; in_lobby = false; in_sessions = true })
left_as (rejected e) = none

-- The success, on both sides.
abbrev inside : Admission → Bytes → Gates × Option Transport
inside a slug = (
  record {
    preauth_slots = a.preauth_slots - 1;
    preauth_cap = a.preauth_cap;
    auth_slots = a.auth_slots + 1;
    auth_cap = a.auth_cap;
    shutting_down = false;
  },
  left_as (opened slug),
)

module _ (a : Admission) (t version : ℕ) (slug : Bytes) (writes : Bool)
    (same : (version == 1) ≡ true) (up : a.shutting_down ≡ false)
    (room : ltb a.auth_slots a.auth_cap ≡ true) where
  abbrev agent : Agent
  agent = record { first = some (hello version (some slug)); writes = writes }

  abbrev at : Phase → Transport
  at p = record { phase = p; in_lobby = true; in_sessions = false }

  -- The state once the slot of the session is taken.
  abbrev holding : Gates
  holding = record {
    preauth_slots = a.preauth_slots;
    preauth_cap = a.preauth_cap;
    auth_slots = a.auth_slots + 1;
    auth_cap = a.auth_cap;
    shutting_down = false;
  }

  -- The state after the slot is given back.
  abbrev outside : Gates × Option Transport
  outside = (
    record {
      preauth_slots = a.preauth_slots - 1;
      preauth_cap = a.preauth_cap;
      auth_slots = a.auth_slots + 1 - 1;
      auth_cap = a.auth_cap;
      shutting_down = false;
    },
    none,
  )

-- No slot, on both sides.
abbrev refused : Admission → Gates × Option Transport
refused a = (record (gates_of a) { preauth_slots = a.preauth_slots - 1 }, none)
