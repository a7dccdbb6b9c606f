-- ===== src/Edge/Admission/Counted.antt =====
-- What each phase of a transport holds, and that its steps keep the count.
use beamd.Prelude.{
  ℕ, ◌+◌, ◌-◌, ◌≤◌, ◌≡◌, refl, Bool, true, false, not, ◌&&◌, List, [], ◌∷◌, Option, none, some,
  arith, ltb, ltb→lt, ◌==◌, nat_eq, if◌then◌else◌, if_cases, if_split, All,
}
use beamd.Edge.Admission.{FirstMessage, not_hello, malformed, hello}
use beamd.Edge.Admission.Steps.{
  Gates, Phase, arriving, has_slot, turned_back, greeting, wants_session, writing, promoting,
  promoted, serving, dropping_slot, draining, closing, left_lobby, Transport, Agent, greeted,
  give_preauth_slot, give_auth_slot, take_auth_slot, take_preauth_slot, enter_lobby, move_inside,
  leave_lobby, advance_phase, stays,
}

-- The phases in which a transport holds a slot of each channel, and in which each map has it.
abbrev pub holds_preauth : Phase → Bool
holds_preauth arriving = false
holds_preauth (serving slug) = false
holds_preauth draining = false
holds_preauth has_slot = true
holds_preauth turned_back = true
holds_preauth greeting = true
holds_preauth (wants_session slug) = true
holds_preauth (writing slug) = true
holds_preauth (promoting slug) = true
holds_preauth (promoted slug) = true
holds_preauth dropping_slot = true
holds_preauth closing = true
holds_preauth left_lobby = true

abbrev pub holds_auth : Phase → Bool
holds_auth (writing slug) = true
holds_auth (promoting slug) = true
holds_auth (promoted slug) = true
holds_auth (serving slug) = true
holds_auth dropping_slot = true
holds_auth draining = true
holds_auth arriving = false
holds_auth has_slot = false
holds_auth turned_back = false
holds_auth greeting = false
holds_auth (wants_session slug) = false
holds_auth closing = false
holds_auth left_lobby = false

abbrev pub lobby_has : Phase → Bool
lobby_has greeting = true
lobby_has (wants_session slug) = true
lobby_has (writing slug) = true
lobby_has (promoting slug) = true
lobby_has dropping_slot = true
lobby_has closing = true
lobby_has arriving = false
lobby_has has_slot = false
lobby_has turned_back = false
lobby_has (promoted slug) = false
lobby_has (serving slug) = false
lobby_has draining = false
lobby_has left_lobby = false

abbrev pub sessions_have : Phase → Bool
sessions_have (promoted slug) = true
sessions_have (serving slug) = true
sessions_have arriving = false
sessions_have has_slot = false
sessions_have turned_back = false
sessions_have greeting = false
sessions_have (wants_session slug) = false
sessions_have (writing slug) = false
sessions_have (promoting slug) = false
sessions_have dropping_slot = false
sessions_have draining = false
sessions_have closing = false
sessions_have left_lobby = false

abbrev pub IsPlaced : Transport → Type 0
IsPlaced t = (t.in_lobby ≡ lobby_has t.phase) × (t.in_sessions ≡ sessions_have t.phase)

abbrev pub bit : Bool → ℕ
bit b = if b then 1 else 0

abbrev pub count : (Transport → Bool) → List Transport → ℕ
count f [] = 0
count f (t ∷ ts) = bit (f t) + count f ts

abbrev pub on_preauth : Transport → Bool
on_preauth t = holds_preauth t.phase

abbrev pub on_auth : Transport → Bool
on_auth t = holds_auth t.phase

-- The slots that are taken are those that the transports hold, those of two lists.
pub record Shares (ahead ts : List Transport) (g : Gates) : Type 0 where
  pub preauth : g.preauth_slots ≡ count on_preauth ahead + count on_preauth ts
  pub auth : g.auth_slots ≡ count on_auth ahead + count on_auth ts
  pub preauth_fits : g.preauth_slots ≤ g.preauth_cap
  pub auth_fits : g.auth_slots ≤ g.auth_cap
  pub ahead_placed : All IsPlaced ahead
  pub placed : All IsPlaced ts

abbrev pub Moves : List Transport → List Transport → Gates × Option Transport → Type 0
Moves ahead ts out = Shares ahead (stays out.1 ts) out.0

module _ (ahead ts : List Transport) (g g' : Gates) (t : Transport)
    (h : Shares ahead (t ∷ ts) g) where
  -- A transport goes on to another phase, and the channels change as what it holds.
  goes_on :
      (u : Transport)
      → IsPlaced u
      → g'.preauth_slots + bit (on_preauth t) ≡ g.preauth_slots + bit (on_preauth u)
      → g'.auth_slots + bit (on_auth t) ≡ g.auth_slots + bit (on_auth u)
      → g'.preauth_slots ≤ g'.preauth_cap
      → g'.auth_slots ≤ g'.auth_cap
      → Moves ahead ts (g', some u)
  goes_on u placed e f fits auth_fits = record {
    preauth = omega (arith, h.preauth, e);
    auth = omega (arith, h.auth, f);
    preauth_fits = fits;
    auth_fits = auth_fits;
    ahead_placed = h.ahead_placed;
    placed = (placed, h.placed.1);
  }

  -- A transport is done, with nothing left that it holds.
  is_done :
      g'.preauth_slots + bit (on_preauth t) ≡ g.preauth_slots
      → g'.auth_slots + bit (on_auth t) ≡ g.auth_slots
      → g'.preauth_slots ≤ g'.preauth_cap
      → g'.auth_slots ≤ g'.auth_cap
      → Moves ahead ts (g', none)
  is_done e f fits auth_fits = record {
    preauth = omega (arith, h.preauth, e);
    auth = omega (arith, h.auth, f);
    preauth_fits = fits;
    auth_fits = auth_fits;
    ahead_placed = h.ahead_placed;
    placed = h.placed.1;
  }

module _ (ahead ts : List Transport) (g : Gates) (l i : Bool) where
  abbrev pub at : Phase → Transport
  at p = record { phase = p; in_lobby = l; in_sessions = i }

  -- A step that takes and gives no slot.
  stands :
      (p : Phase) (u : Transport)
      → Shares ahead (at p ∷ ts) g
      → IsPlaced u
      → holds_preauth p ≡ holds_preauth u.phase
      → holds_auth p ≡ holds_auth u.phase
      → Moves ahead ts (g, some u)
  stands p u h placed e f =
      goes_on ahead ts g g (at p) h u placed (ground (arith, e)) (ground (arith, f)) h.preauth_fits
        h.auth_fits

  greeted-Moves :
      (first : Option FirstMessage)
      → Shares ahead (at greeting ∷ ts) g
      → Moves ahead ts (g, some (at (greeted first)))
  unfolding greeted
  greeted-Moves none h = stands greeting (at closing) h h.placed.0 refl refl
  greeted-Moves (some not_hello) h = stands greeting (at closing) h h.placed.0 refl refl
  greeted-Moves (some malformed) h = stands greeting (at closing) h h.placed.0 refl refl
  greeted-Moves (some (hello version none)) h = stands greeting (at closing) h h.placed.0 refl refl
  greeted-Moves (some (hello version (some slug))) h =
      if_cases (λ (p : Phase). Moves ahead ts (g, some (at p))) (version == 1)
        (stands greeting (at (wants_session slug)) h h.placed.0 refl refl)
        (stands greeting (at closing) h h.placed.0 refl refl)

  pub advance-Moves :
      (x : Agent) (p : Phase)
      → Shares ahead (at p ∷ ts) g
      → Moves ahead ts (advance_phase x g (at p) p)
  unfolding advance_phase give_preauth_slot give_auth_slot take_auth_slot take_preauth_slot
      enter_lobby move_inside leave_lobby
  advance-Moves x arriving h =
      if_split (Moves ahead ts) (ltb g.preauth_slots g.preauth_cap)
        (λ room.
          goes_on ahead ts g (record g { preauth_slots = g.preauth_slots + 1 }) (at arriving) h
            (at has_slot) h.placed.0 (omega arith) (omega arith) (omega (arith, ltb→lt _ _ room))
            h.auth_fits)
        (λ full.
          is_done ahead ts g g (at arriving) h (omega arith) (omega arith) h.preauth_fits
            h.auth_fits)
  advance-Moves x has_slot h =
      if_cases (λ (u : Transport). Moves ahead ts (g, some u)) g.shutting_down
        (stands has_slot (at turned_back) h h.placed.0 refl refl)
        (stands has_slot (record { phase = greeting; in_lobby = true; in_sessions = i }) h
          (refl, h.placed.0.1) refl refl)
  advance-Moves x turned_back h =
      is_done ahead ts g (record g { preauth_slots = g.preauth_slots - 1 }) (at turned_back) h
        (omega (arith, h.preauth)) (omega arith) (omega (arith, h.preauth_fits)) h.auth_fits
  advance-Moves x greeting h = greeted-Moves x.first h
  advance-Moves x (wants_session slug) h =
      if_split (Moves ahead ts) (not g.shutting_down && ltb g.auth_slots g.auth_cap)
        (λ room.
          goes_on ahead ts g (record g { auth_slots = g.auth_slots + 1 }) (at (wants_session slug))
            h (at (writing slug)) h.placed.0 (omega arith) (omega arith) h.preauth_fits
            (ground (arith, room)))
        (λ full. stands (wants_session slug) (at closing) h h.placed.0 refl refl)
  advance-Moves x (writing slug) h =
      if_cases (λ (p : Phase). Moves ahead ts (g, some (at p))) x.writes
        (stands (writing slug) (at (promoting slug)) h h.placed.0 refl refl)
        (stands (writing slug) (at dropping_slot) h h.placed.0 refl refl)
  advance-Moves x dropping_slot h =
      goes_on ahead ts g (record g { auth_slots = g.auth_slots - 1 }) (at dropping_slot) h
        (at closing) h.placed.0 (omega arith) (omega (arith, h.auth)) h.preauth_fits
        (omega (arith, h.auth_fits))
  advance-Moves x (promoting slug) h =
      if_cases (λ (u : Transport). Moves ahead ts (g, some u)) g.shutting_down
        (stands (promoting slug) (at dropping_slot) h h.placed.0 refl refl)
        (if_cases (λ (u : Transport). Moves ahead ts (g, some u)) (not l)
          (stands (promoting slug) (at dropping_slot) h h.placed.0 refl refl)
          (stands (promoting slug)
            (record { phase = promoted slug; in_lobby = false; in_sessions = true }) h (refl, refl)
            refl refl))
  advance-Moves x (promoted slug) h =
      goes_on ahead ts g (record g { preauth_slots = g.preauth_slots - 1 }) (at (promoted slug)) h
        (at (serving slug)) h.placed.0 (omega (arith, h.preauth)) (omega arith)
        (omega (arith, h.preauth_fits)) h.auth_fits
  advance-Moves x (serving slug) h =
      stands (serving slug) (record { phase = draining; in_lobby = l; in_sessions = false }) h
        (h.placed.0.0, refl) refl refl
  advance-Moves x draining h =
      is_done ahead ts g (record g { auth_slots = g.auth_slots - 1 }) (at draining) h (omega arith)
        (omega (arith, h.auth)) h.preauth_fits (omega (arith, h.auth_fits))
  advance-Moves x closing h =
      if_split (λ (o : Option Transport). Moves ahead ts (g, o)) l
        (λ there.
          stands closing (record { phase = left_lobby; in_lobby = false; in_sessions = i }) h
            (refl, h.placed.0.1) refl refl)
        (λ gone. absurd (ground (arith, gone, h.placed.0.0)))
  advance-Moves x left_lobby h =
      is_done ahead ts g (record g { preauth_slots = g.preauth_slots - 1 }) (at left_lobby) h
        (omega (arith, h.preauth)) (omega arith) (omega (arith, h.preauth_fits)) h.auth_fits
