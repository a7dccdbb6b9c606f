-- ===== src/Certs/Gate/Outlast.antt =====
-- A cooldown outlasts what happens to the gate meanwhile.
use beamd.Prelude.{
  ℕ, ◌+◌, ◌-◌, ◌≤◌, ◌<◌, ◌≡◌, sym, refl, inl, inr, Bool, true, false, List, [], ◌∷◌, Option, some,
  arith, Bytes, lt→ltb, leb, ◌==◌, nat_eq, list_eq, eq_refl, eq_iff, if_cases, if_split, length,
  lookup, delete_where, lookup-insert, lookup-erase, Option-cases, All, subst,
}
use beamd.Certs.Gate.{
  DecisionGate, cooling_down, make_room, remember, is_cooling, decide, start_cooldown,
  record_failure, record_success,
}
use beamd.Certs.Gate.Cooldown.{IsAuthorized, decide_cooling, recorded}

kept_entry :
    (p : ℕ → Bool) (k : Bytes) (n : ℕ) (m : List (Bytes × ℕ))
    → lookup k m ≡ some n
    → p n ≡ false
    → lookup k (delete_where p m) ≡ some n
unfolding lookup delete_where
kept_entry p k n [] h out = h
kept_entry p k n ((j, v) ∷ m) h out = ground (arith, kept_entry p k n m)

-- What happens to a gate: the answer of an authorizer is kept, which is all that a decision changes, or
-- the outcome of an issuance is recorded.
pub data Event (E : Type 0) : Type 0 where
  answers : Bytes → ℕ → List Bytes → Option E → Event E
  fails : Bytes → ℕ → Event E
  succeeds : Bytes → Event E

module _ {E : Type 0} where
  abbrev pub happen : Event E → DecisionGate E → DecisionGate E
  happen (answers name later order answer) g = remember g name later order answer
  happen (fails name now) g = record_failure g name now
  happen (succeeds name) g = record_success g name

  abbrev pub run : List (Event E) → DecisionGate E → DecisionGate E
  run [] g = g
  run (e ∷ es) g = run es (happen e g)

  -- Failures of any name come within the cooldown, and no issuance of this name succeeds.
  abbrev pub Within : Bytes → ℕ → ℕ → Event E → Type 0
  Within name failed cooldown (answers k later order answer) = Unit
  Within name failed cooldown (fails k now) = (failed ≤ now) × (now < failed + cooldown)
  Within name failed cooldown (succeeds k) = (k == name) ≡ false

  -- The cooldown that began at the time is the one of the name.
  abbrev Runs : Bytes → ℕ → ℕ → DecisionGate E → Type 0
  Runs name failed cooldown g =
      (lookup name g.last_fail ≡ some failed) × (g.fail_cooldown ≡ cooldown)

  cooling_within :
      (g : DecisionGate E) (name : Bytes) (failed cooldown now : ℕ)
      → Runs name failed cooldown g
      → failed ≤ now
      → now < failed + cooldown
      → is_cooling g name now ≡ true
  unfolding is_cooling
  cooling_within g name failed cooldown now r since soon =
      rw (r.0, is_cooling) (lt→ltb (now - failed) g.fail_cooldown (omega (arith, r.1)))

  start-Runs :
      (g : DecisionGate E) (k name : Bytes) (failed cooldown now : ℕ)
      → Runs name failed cooldown g
      → (k == name) ≡ false
      → failed ≤ now
      → now < failed + cooldown
      → Runs name failed cooldown (start_cooldown g k now)
  unfolding start_cooldown
  start-Runs g k name failed cooldown now r other since soon =
      let kept = delete_where (λ (t : ℕ). leb g.fail_cooldown (now - t)) g.last_fail in
      (
        ground (
          arith,
          lookup-insert k name now kept,
          other,
          kept_entry (λ (t : ℕ). leb g.fail_cooldown (now - t)) name failed g.last_fail r.0
              (ground (arith, r.1)),
        ),
        r.1,
      )

  fails-Runs :
      (g : DecisionGate E) (k name : Bytes) (failed cooldown now : ℕ)
      → Runs name failed cooldown g
      → failed ≤ now
      → now < failed + cooldown
      → Runs name failed cooldown (record_failure g k now)
  unfolding record_failure
  fails-Runs g k name failed cooldown now r since soon = elim (Option-cases (lookup k g.verdicts)) [
    | inl miss ↦ rw (miss, record_failure) r
    | inr (v, there) ↦ elim (Option-cases v.err) [
      | inr (e, bad) ↦ rw (there, bad, record_failure) r
      | inl ok ↦
          rw (there, ok, record_failure)
            (if_split (Runs name failed cooldown) (is_cooling g k now) (λ cools. r)
              (λ idle.
                start-Runs g k name failed cooldown now r
                  (ground (
                    arith,
                    eq_iff k name,
                    idle,
                    cooling_within g name failed cooldown now r since soon,
                  ))
                  since soon))
    ]
  ]

  answers-Runs :
      (g : DecisionGate E) (k name : Bytes) (failed cooldown later : ℕ) (order : List Bytes)
      (answer : Option E)
      → Runs name failed cooldown g
      → Runs name failed cooldown (remember g k later order answer)
  unfolding remember make_room
  answers-Runs g k name failed cooldown later order answer r =
      if_cases
        (λ (h : DecisionGate E).
          (lookup name h.last_fail ≡ some failed) × (h.fail_cooldown ≡ cooldown))
        (leb g.max_entries (length g.verdicts)) r r

  happen-Runs :
      (e : Event E) (g : DecisionGate E) (name : Bytes) (failed cooldown : ℕ)
      → Within name failed cooldown e
      → Runs name failed cooldown g
      → Runs name failed cooldown (happen e g)
  happen-Runs (answers k later order answer) g name failed cooldown w r =
      answers-Runs g k name failed cooldown later order answer r
  happen-Runs (fails k now) g name failed cooldown w r =
      fails-Runs g k name failed cooldown now r w.0 w.1
  happen-Runs (succeeds k) g name failed cooldown w r =
      unfold record_success in (ground (arith, lookup-erase k name g.last_fail, w, r.0), r.1)

  run-Runs :
      (es : List (Event E)) (g : DecisionGate E) (name : Bytes) (failed cooldown : ℕ)
      → All (Within name failed cooldown) es
      → Runs name failed cooldown g
      → Runs name failed cooldown (run es g)
  run-Runs [] g name failed cooldown w r = r
  run-Runs (e ∷ es) g name failed cooldown w r =
      run-Runs es (happen e g) name failed cooldown w.1 (happen-Runs e g name failed cooldown w.0 r)

  started-Runs :
      (g : DecisionGate E) (name : Bytes) (failed : ℕ)
      → Runs name failed g.fail_cooldown (start_cooldown g name failed)
  unfolding start_cooldown
  started-Runs g name failed =
      let kept = delete_where (λ (t : ℕ). leb g.fail_cooldown (failed - t)) g.last_fail in
      (ground (arith, lookup-insert name name failed kept, eq_refl name), refl)

  -- After a failed issuance of an authorized name with no cooldown running, whatever answers the
  -- authorizer gives meanwhile for whichever names, whichever issuances fail within the cooldown, and
  -- whichever ones of other names succeed: every decision on the name within the cooldown refuses it,
  -- changes nothing and does not ask the authorizer.
  pub decide-run :
      (g : DecisionGate E) (name : Bytes) (failed now later : ℕ) (es : List (Event E))
      (order : List Bytes) (answer : Option E)
      → IsAuthorized g name
      → is_cooling g name failed ≡ false
      → All (Within name failed g.fail_cooldown) es
      → failed ≤ now
      → now < failed + g.fail_cooldown
      → decide (run es (record_failure g name failed)) name now later order answer
        ≡ (run es (record_failure g name failed), cooling_down, false)
  decide-run g name failed now later es order answer a idle w since soon =
      decide_cooling (run es (record_failure g name failed)) name now later order answer (
        cooling_within (run es (record_failure g name failed)) name failed g.fail_cooldown now
          (run-Runs es (record_failure g name failed) name failed g.fail_cooldown w (
            subst (Runs name failed g.fail_cooldown) (sym (recorded g name failed a idle))
              (started-Runs g name failed)))
          since soon)
