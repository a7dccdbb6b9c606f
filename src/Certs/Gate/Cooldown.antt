-- ===== src/Certs/Gate/Cooldown.antt =====
-- What the gate guarantees: few calls of the authorizer, no certificate order while a failure cools
-- down, and tables that strangers cannot grow.
use beamd.Prelude.{
  ℕ, ◌+◌, ◌-◌, ◌≤◌, ◌<◌, ◌≡◌, refl, ◌∙◌, inl, inr, true, false, List, Option, none, some, arith,
  Bytes, lt→ltb, leb, ◌==◌, nat_eq, list_eq, eq_refl, if◌then◌else◌, length, lookup, insert,
  delete_where, lookup-insert, length-insert-le, Unique, Option-cases, if_cases,
}
use beamd.Cache.Bounds.{Lists, evict_bound}
use beamd.Certs.Gate.{
  GateVerdict, DecisionGate, cooling_down, of_err, make_room, new_verdict, remember, is_cooling,
  decide, start_cooldown, record_failure,
}

module _ {E : Type 0} where
  -- A name is authorized by a cached verdict.
  abbrev pub IsAuthorized : DecisionGate E → Bytes → Type 0
  IsAuthorized g name = (v : GateVerdict E) × (lookup name g.verdicts ≡ some v) × (v.err ≡ none)

  pub decide_cooling :
      (g : DecisionGate E) (name : Bytes) (now later : ℕ) (order : List Bytes) (answer : Option E)
      → is_cooling g name now ≡ true
      → decide g name now later order answer ≡ (g, cooling_down, false)
  unfolding decide
  decide_cooling g name now later order answer c = rw (c, decide) refl

  pub recorded :
      (g : DecisionGate E) (name : Bytes) (failed : ℕ)
      → IsAuthorized g name
      → is_cooling g name failed ≡ false
      → record_failure g name failed ≡ start_cooldown g name failed
  unfolding record_failure
  recorded g name failed (v, there, ok) idle = rw (there, ok, idle, record_failure) refl

  cooling_started :
      (g : DecisionGate E) (name : Bytes) (failed now : ℕ)
      → failed ≤ now
      → now < failed + g.fail_cooldown
      → is_cooling (start_cooldown g name failed) name now ≡ true
  unfolding is_cooling start_cooldown
  cooling_started g name failed now since soon =
      let kept = delete_where (λ (t : ℕ). leb g.fail_cooldown (failed - t)) g.last_fail in
      let found : lookup name (insert name failed kept) ≡ some failed =
        ground (arith, lookup-insert name name failed kept, eq_refl name) in
      rw (found, is_cooling) (lt→ltb (now - failed) g.fail_cooldown (omega arith))

  -- Making room touches the verdicts alone.
  room_cooling :
      (g : DecisionGate E) (name : Bytes) (later now : ℕ) (order : List Bytes)
      → is_cooling (make_room g later order) name now ≡ is_cooling g name now
  unfolding is_cooling make_room
  room_cooling g name later now order =
      if_cases (λ (h : DecisionGate E). is_cooling h name now ≡ is_cooling g name now)
        (leb g.max_entries (length g.verdicts)) refl refl

  remember_cooling :
      (g : DecisionGate E) (name : Bytes) (later now : ℕ) (order : List Bytes) (answer : Option E)
      → is_cooling (remember g name later order answer) name now ≡ is_cooling g name now
  unfolding is_cooling remember
  remember_cooling g name later now order answer = room_cooling g name later now order

  lookup-remember :
      (g : DecisionGate E) (name k : Bytes) (later : ℕ) (order : List Bytes) (answer : Option E)
      → lookup k (remember g name later order answer).verdicts ≡ (
          if name == k
          then some (new_verdict g later answer)
          else lookup k (make_room g later order).verdicts)
  unfolding remember
  lookup-remember g name k later order answer =
      lookup-insert name k (new_verdict g later answer) (make_room g later order).verdicts

  remembered :
      (g : DecisionGate E) (name : Bytes) (later : ℕ) (order : List Bytes) (answer : Option E)
      → lookup name (remember g name later order answer).verdicts
        ≡ some (new_verdict g later answer)
  remembered g name later order answer =
      lookup-remember g name name later order answer ∙ rw (eq_refl name) refl

  room_bound :
      (g : DecisionGate E) (later : ℕ) (order : List Bytes)
      → 0 < g.max_entries
      → Unique g.verdicts
      → Lists (λ (v : GateVerdict E). v.expires) order g.verdicts
      → length (make_room g later order).verdicts < g.max_entries
  unfolding make_room
  room_bound g later order pos u l = ground (
    arith,
    evict_bound (λ (v : GateVerdict E). v.expires) later g.max_entries order g.verdicts u l,
  )

  -- Right after a failed issuance of an authorized name with no cooldown running, a decision within the
  -- cooldown refuses the name, changes nothing and does not ask the authorizer.
  pub decide-record_failure :
      (g : DecisionGate E) (name : Bytes) (failed now later : ℕ) (order : List Bytes)
      (answer : Option E)
      → IsAuthorized g name
      → is_cooling g name failed ≡ false
      → failed ≤ now
      → now < failed + g.fail_cooldown
      → decide (record_failure g name failed) name now later order answer
        ≡ (record_failure g name failed, cooling_down, false)
  decide-record_failure g name failed now later order answer a idle since soon =
      decide_cooling (record_failure g name failed) name now later order answer
        (rw (recorded g name failed a idle) (cooling_started g name failed now since soon))

  -- A failure of a name that no cached verdict authorizes is not recorded.
  pub record_failure_denied :
      (g : DecisionGate E) (name : Bytes) (now : ℕ)
      → ¬ IsAuthorized g name
      → record_failure g name now ≡ g
  unfolding record_failure
  record_failure_denied g name now n = elim (Option-cases (lookup name g.verdicts)) [
    | inl miss ↦ rw (miss, record_failure)
    | inr (v, there) ↦ elim (Option-cases v.err) [
      | inl ok ↦ absurd (n (v, there, ok))
      | inr (e, bad) ↦ rw (there, bad, record_failure)
    ]
  ]

  -- While a verdict is fresh and no cooldown runs, it is repeated: the authorizer is not asked, and
  -- what it would say does not matter.
  pub decide_again :
      (g : DecisionGate E) (name : Bytes) (later again later' : ℕ) (order order' : List Bytes)
      (answer answer' : Option E)
      → is_cooling g name again ≡ false
      → again < (new_verdict g later answer).expires
      → decide (remember g name later order answer) name again later' order' answer'
        ≡ (remember g name later order answer, of_err answer, false)
  unfolding decide
  decide_again g name later again later' order order' answer answer' idle soon =
      let there = remembered g name later order answer in
      rw
        (
          remember_cooling g name later again order answer ∙ idle,
          there,
          lt→ltb again (new_verdict g later answer).expires soon,
          decide,
        )
        refl

  -- The table of verdicts never outgrows its capacity, if that is not zero, the table has one entry for
  -- a name and an eviction ranges over every name.
  pub remember_bound :
      (g : DecisionGate E) (name : Bytes) (later : ℕ) (order : List Bytes) (answer : Option E)
      → 0 < g.max_entries
      → Unique g.verdicts
      → Lists (λ (v : GateVerdict E). v.expires) order g.verdicts
      → length (remember g name later order answer).verdicts ≤ g.max_entries
  unfolding remember
  remember_bound g name later order answer pos u l = omega (
    arith,
    room_bound g later order pos u l,
    length-insert-le name (new_verdict g later answer) (make_room g later order).verdicts,
  )
