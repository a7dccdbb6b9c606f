-- ===== src/Tests/Registrations.antt =====
-- Runs of the agent's registrations, and instances of their theorems.
use beamd.Prelude.{
  ◌≡◌, refl, Bool, true, false, List, [], ◌∷◌, none, some, codes, ◌==◌, nat_eq, list_eq, list_beq,
  if◌then◌else◌, lookup, insert, contains, Any,
}
use beamd.Prelude.Int.{pos}
use beamd.Client.Registrations.{
  ControlMsg, registered, Control, intend, roll_back, rolled_back, restore_port, replay_intended,
  Round, replay_loop,
}
use beamd.Client.Registrations.Rollback.{intends, drops, changed, roll_back-intend}
use beamd.Client.Registrations.Replies.{after, AllAnswers, after-AllAnswers}
use beamd.Client.Registrations.Replayed.{Wanted, replay_loop-registered}

roll_back-intend_example :
    lookup (codes "web") (
      roll_back
        (changed
          (intend [] (codes "api") (pos 3000))
          (intends (codes "web") (pos 8080) ∷ drops (codes "old") ∷ []))
        (codes "api")
        (pos 3000)
        (lookup (codes "api") []))
    ≡ (if codes "api" == codes "web"
        then lookup (codes "api") []
        else lookup (codes "web") (
            changed
              (intend [] (codes "api") (pos 3000))
              (intends (codes "web") (pos 8080) ∷ drops (codes "old") ∷ [])))
unfolding list_beq
roll_back-intend_example =
    roll_back-intend [] (codes "api") (codes "web") (pos 3000)
      (intends (codes "web") (pos 8080) ∷ drops (codes "old") ∷ []) (refl, (refl, tt))

-- Two registers of one name with two ports, both refused: the first finds nothing under the name, the
-- second finds the port of the first. The first does not roll back, since its port does not stand any
-- more, and the second puts the port of the first back.
ghost_tunnel :
    lookup (codes "api") (
      roll_back
        (roll_back
          (intend (intend [] (codes "api") (pos 3000)) (codes "api") (pos 4000))
          (codes "api")
          (pos 3000)
          none)
        (codes "api")
        (pos 4000)
        (some (pos 3000)))
    ≡ some (pos 3000)
unfolding intend roll_back rolled_back restore_port insert lookup list_beq
ghost_tunnel = refl

abbrev in_flight : Control
in_flight = record {
  pending = some (record { name = codes "api"; replies = [] });
  skip_backoff = false;
  shutdown = false;
  terminal_reason = codes "control stream ended";
}

-- The last message first: the reply, after a late one to another register.
abbrev messages : List ControlMsg
messages =
    registered (codes "api") (codes "https://api")
    ∷ registered (codes "web") (codes "https://web")
    ∷ []

after-AllAnswers_example : AllAnswers (codes "api") messages (after in_flight messages).pending
after-AllAnswers_example = after-AllAnswers in_flight (codes "api") messages refl

-- The name is taken in the first pass, and free in the second.
abbrev pass : Bool → Round
pass works = record {
  snapshot = (codes "api", pos 3000) ∷ (codes "web", pos 8080) ∷ [];
  current = λ name. if name == codes "api" then some (pos 3000) else some (pos 8080);
  registers = λ name. if name == codes "api" then works else true;
}

replay_ends : replay_loop none (pass false ∷ pass true ∷ []) ≡ true
unfolding replay_loop replay_intended contains list_beq
replay_ends = refl

replay_loop-registered_example :
    Any (λ r. r.registers (codes "api") ≡ true) (pass false ∷ pass true ∷ [])
replay_loop-registered_example =
    replay_loop-registered (codes "api") (pos 3000) (pass false ∷ pass true ∷ []) wanted replay_ends
  where
    wanted : Wanted (codes "api") (pos 3000) (pass false ∷ pass true ∷ [])
    wanted = unfold lookup list_beq in ((refl, refl), ((refl, refl), tt))
