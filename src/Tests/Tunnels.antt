-- ===== src/Tests/Tunnels.antt =====
-- Runs of the sessions and the streams of internal/tunnel, and instances of their theorems.
use beamd.Prelude.{
  ◌≡◌, refl, true, false, List, [], ◌∷◌, Bytes, codes, ltb, nat_eq, if◌then◌else◌, arith, all, map,
  contains, add, remove,
}
use beamd.Client.{CloseInfo, close_normal, close_protocol}
use beamd.Tunnel.Session.{
  Utf8, new_session_state, claim, register, unregister, child_closes, child_done, begin_finish,
  go_on, finish_next, sanitize_reason, trim, is_closed, Event, claims, registers, child_over,
  child_leaves, finishes, finisher_goes_on, step, run,
}
use beamd.Tunnel.Session.Reason.{Fits, sanitize_reason-Fits}
use beamd.Tunnel.Session.Termination.{after, run-streams_over}
use beamd.Tunnel.Session.Finishing.{Stands, run-Stands, run-finishes, left}

-- Text of ASCII only.
abbrev ascii : Utf8
ascii = record {
  valid_string = all (λ c. ltb c 128);
  through_runes = map (λ c. if ltb c 128 then c else b'?');
}

ascii_repairs : (t : Bytes) → ascii.valid_string (ascii.through_runes t) ≡ true
ascii_repairs [] = refl
ascii_repairs (c ∷ t) = ground (arith, ascii_repairs t)

abbrev broken : CloseInfo
broken = record {
  code = close_protocol;
  code_valid = true;
  remote = true;
  reason = codes "bad frame";
}

abbrev lost : CloseInfo
lost = record { code = close_normal; code_valid = false; remote = false; reason = codes "network" }

sanitize_reason-Fits_example :
    Fits ascii 256 (sanitize_reason ascii (200 ∷ codes "no route"))
    × (Fits ascii 256 (200 ∷ codes "no route")
        → sanitize_reason ascii (200 ∷ codes "no route") ≡ 200 ∷ codes "no route")
sanitize_reason-Fits_example =
    sanitize_reason-Fits ascii refl ascii_repairs (200 ∷ codes "no route")

-- Two streams; the first ends by itself while the session is closed.
abbrev first_half : List Event
first_half = registers 1 ∷ registers 2 ∷ child_over 1 ∷ claims broken ∷ finishes lost ∷ []

abbrev second_half : List Event
second_half =
    finisher_goes_on
    ∷ child_leaves 1
    ∷ claims lost
    ∷ finisher_goes_on
    ∷ registers 3
    ∷ finisher_goes_on
    ∷ []

abbrev whole : List Event
whole =
    registers 1
    ∷ registers 2
    ∷ child_over 1
    ∷ claims broken
    ∷ finishes lost
    ∷ finisher_goes_on
    ∷ child_leaves 1
    ∷ finisher_goes_on
    ∷ finisher_goes_on
    ∷ []

closed_once : (after ascii lost whole).closes ≡ 1
unfolding run step claim register unregister child_closes child_done begin_finish go_on finish_next
    sanitize_reason trim contains add remove new_session_state
closed_once = refl

two_known : contains 2 (after ascii lost whole).known ≡ true
unfolding run step claim register unregister child_closes child_done begin_finish go_on finish_next
    sanitize_reason trim contains add remove new_session_state
two_known = refl

finish_begun : (after ascii lost first_half).finished ≡ true
unfolding run step claim register unregister child_closes child_done begin_finish go_on finish_next
    sanitize_reason trim contains add remove new_session_state
finish_begun = refl

enough_steps : left (after ascii lost first_half).finisher ≡ 3
unfolding run step claim register unregister child_closes child_done begin_finish go_on finish_next
    sanitize_reason trim contains add remove new_session_state
enough_steps = refl

is_terminal : is_closed (after ascii lost first_half) ≡ true
unfolding run step claim register unregister child_closes child_done begin_finish go_on finish_next
    sanitize_reason trim contains add remove new_session_state is_closed
is_terminal = refl

run-streams_over_example :
    ((after ascii lost whole).closes ≡ 1) × (contains 2 (after ascii lost whole).ended ≡ true)
run-streams_over_example =
    run-streams_over ascii lost whole 2 (omega (arith, closed_once)) two_known

run-Stands_example :
    Stands (after ascii lost first_half) (run ascii second_half (after ascii lost first_half))
run-Stands_example = run-Stands ascii second_half (after ascii lost first_half) is_terminal

run-finishes_example : (run ascii second_half (after ascii lost first_half)).closes ≡ 1
run-finishes_example =
    run-finishes ascii lost first_half second_half finish_begun (omega (arith, enough_steps))
