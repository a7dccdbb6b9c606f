-- ===== src/Client/Registrations/Replayed.antt =====
-- A replay that comes to its end has registered every tunnel.
use beamd.Prelude.{
  ◌≡◌, inl, inr, refl, ap, Bool, true, false, not, List, [], ◌∷◌, Option, none, some, Bytes, arith,
  ◌==◌, nat_eq, list_eq, eq_iff, if_cases, if_split, lookup, contains, All, Any, Bool-cases,
}
use beamd.Prelude.Int.{ℤ}
use beamd.Client.Registrations.{
  Intended, skipped, still_intended, replay_intended, Round, replay_loop,
}

-- The name fails in a pass in which its register does.
replay_intended-failed :
    (only : Option (List Bytes)) (current : Bytes → Option ℤ) (registers : Bytes → Bool)
    (name : Bytes) (port : ℤ) (m : Intended)
    → lookup name m ≡ some port
    → skipped only name ≡ false
    → still_intended (current name) port ≡ true
    → registers name ≡ false
    → contains name (replay_intended only current registers m) ≡ true
unfolding replay_intended lookup contains
replay_intended-failed only current registers name port [] at due still fails = ground (arith, at)
replay_intended-failed only current registers name port ((n, p) ∷ m) at due still fails =
    let P : List Bytes → Type 0 = λ l. contains name l ≡ true in
    let rest = replay_intended only current registers m in
    elim (Bool-cases (n == name)) [
      | inl e ↦
          let own : n ≡ name = (eq_iff n name).0 e in
          let its : some p ≡ some port = rw e at at in
          if_split P (skipped only n) (λ out. ground (arith, ap (skipped only) own, due, out))
            λ in_.
              if_split P (not (still_intended (current n) p))
                (λ gone. ground (arith, own, its, still, gone))
                λ here.
                  if_split P (registers n) (λ works. ground (arith, ap registers own, fails, works))
                    (λ f. ground (arith, e))
      | inr e ↦
          let its : lookup name m ≡ some port = rw e at at in
          let ih = replay_intended-failed only current registers name port m its due still fails in
          if_cases P (skipped only n) ih (
            if_cases P (not (still_intended (current n) p)) ih
              (if_cases P (registers n) ih (ground (arith, ih))))
    ]

-- In each pass the name is intended with the port, when the pass begins and when its turn comes.
abbrev pub Wanted : Bytes → ℤ → List Round → Type 0
Wanted name port =
    All (λ r. (lookup name r.snapshot ≡ some port) × (still_intended (r.current name) port ≡ true))

listed :
    (names : List Bytes) (name : Bytes)
    → contains name names ≡ true
    → skipped (some names) name ≡ false
listed names name h = ground (arith, h)

loop_from :
    (only : Option (List Bytes)) (name : Bytes) (port : ℤ) (rounds : List Round)
    → Wanted name port rounds
    → skipped only name ≡ false
    → replay_loop only rounds ≡ true
    → Any (λ r. r.registers name ≡ true) rounds
unfolding replay_loop
loop_from only name port [] w due done = ground (arith, done)
loop_from only name port (r ∷ rounds) w due done = elim (Bool-cases (r.registers name)) [
  | inl works ↦ inl works
  | inr fails ↦ inr (
      at (replay_intended only r.current r.registers r.snapshot)
        (replay_intended-failed only r.current r.registers name port r.snapshot w.0.0 due w.0.1
          fails)
        done (λ names. loop_from (some names) name port rounds w.1))
]
  where
    at :
        (failed : List Bytes)
        → contains name failed ≡ true
        → (elim failed [ [] ↦ true | n ∷ ns ↦ replay_loop (some (n ∷ ns)) rounds ]) ≡ true
        → ((names : List Bytes)
            → skipped (some names) name ≡ false
            → replay_loop (some names) rounds ≡ true
            → Any (λ s. s.registers name ≡ true) rounds)
        → Any (λ s. s.registers name ≡ true) rounds
    at [] has end next = unfold contains in ground (arith, has)
    at (n ∷ ns) has end next = next (n ∷ ns) (listed (n ∷ ns) name has) end

-- Where the loop of the replay comes to its end, each name that stayed intended with one port, from its
-- first pass to its last, has been registered in one of its passes.
pub replay_loop-registered :
    (name : Bytes) (port : ℤ) (rounds : List Round)
    → Wanted name port rounds
    → replay_loop none rounds ≡ true
    → Any (λ r. r.registers name ≡ true) rounds
replay_loop-registered name port rounds w done = loop_from none name port rounds w refl done
