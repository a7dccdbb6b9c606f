-- ===== src/Certs/Gate.antt =====
-- internal/certs/decisiongate.go: the gate before on-demand certificates. Times are nanoseconds.
pub mod Cooldown
pub mod Outlast
use beamd.Prelude.{
  ℕ, ◌+◌, ◌-◌, ◌≡◌, Bool, true, false, not, ◌&&◌, ◌||◌, List, [], ◌∷◌, Option, none, some, Bytes,
  ltb, leb, ◌==◌, nat_eq, list_eq, if◌then◌else◌, is_none, length, lookup, insert, erase,
  delete_where,
}
use beamd.Cache.{evict}

-- A cached authorization; `err` is none if the name was authorized. `E` is the authorizer's error.
pub record GateVerdict (E : Type 0) : Type 0 where
  pub err : Option E
  pub expires : ℕ

pub record DecisionGate (E : Type 0) : Type 0 where
  pub pos_ttl : ℕ
  pub neg_ttl : ℕ
  pub fail_cooldown : ℕ
  pub max_entries : ℕ
  pub verdicts : List (Bytes × GateVerdict E)
  pub last_fail : List (Bytes × ℕ)

pub data Decision (E : Type 0) : Type 0 where
  allowed : Decision E
  denied : E → Decision E
  cooling_down : Decision E

module _ {E : Type 0} where
  abbrev pub of_err : Option E → Decision E
  of_err none = allowed
  of_err (some e) = denied e

  -- The default durations, in nanoseconds.
  unfoldable pub new_gate : DecisionGate E
  new_gate = record {
    pos_ttl = 60_000_000_000;
    neg_ttl = 30_000_000_000;
    fail_cooldown = 120_000_000_000;
    max_entries = 4096;
    verdicts = [];
    last_fail = [];
  }

  unfoldable pub evict_locked : DecisionGate E → ℕ → List Bytes → DecisionGate E
  evict_locked g now order = record g {
    verdicts = evict (λ (v : GateVerdict E). v.expires) now g.max_entries order g.verdicts;
  }

  unfoldable pub make_room : DecisionGate E → ℕ → List Bytes → DecisionGate E
  unfolding evict_locked
  make_room g later order =
      if leb g.max_entries (length g.verdicts) then evict_locked g later order else g

  -- An answer that came at time `later`, with its lifetime.
  unfoldable pub new_verdict : DecisionGate E → ℕ → Option E → GateVerdict E
  new_verdict g later err = record {
    err = err;
    expires = later + (if is_none err then g.pos_ttl else g.neg_ttl);
  }

  -- The end of Decide: the authorizer's answer is kept.
  unfoldable pub remember : DecisionGate E → Bytes → ℕ → List Bytes → Option E → DecisionGate E
  unfolding make_room new_verdict
  remember g name later order err =
      let g' = make_room g later order in
      record g' { verdicts = insert name (new_verdict g later err) g'.verdicts }

  -- A cooldown that began at the time, if any, still runs.
  unfoldable pub is_cooling : DecisionGate E → Bytes → ℕ → Bool
  is_cooling g name now = elim (lookup name g.last_fail) [
    | none ↦ false
    | some t ↦ ltb (now - t) g.fail_cooldown
  ]

  -- Decide at time `now`. `answer` is what the authorizer says if it is asked, at time `later`; the
  -- flag says whether it was.
  unfoldable pub decide :
      DecisionGate E → Bytes → ℕ → ℕ → List Bytes → Option E → DecisionGate E × Decision E × Bool
  unfolding remember is_cooling
  decide g name now later order answer =
      let asked : DecisionGate E × Decision E × Bool =
        (remember g name later order answer, of_err answer, true) in
      if is_cooling g name now then (g, cooling_down, false) else elim (lookup name g.verdicts) [
        | none ↦ asked
        | some v ↦ if ltb now v.expires then (g, of_err v.err, false) else asked
      ]

  -- The cooldowns that are over are reclaimed when one starts.
  unfoldable pub start_cooldown : DecisionGate E → Bytes → ℕ → DecisionGate E
  start_cooldown g name now = record g {
    last_fail = insert name now (delete_where (λ t. leb g.fail_cooldown (now - t)) g.last_fail);
  }

  unfoldable pub record_failure : DecisionGate E → Bytes → ℕ → DecisionGate E
  unfolding is_cooling start_cooldown
  record_failure g name now = elim (lookup name g.verdicts) [
    | none ↦ g
    | some v ↦ elim v.err [
      | some e ↦ g
      | none ↦ if is_cooling g name now then g else start_cooldown g name now
    ]
  ]

  unfoldable pub record_success : DecisionGate E → Bytes → DecisionGate E
  record_success g name = record g { last_fail = erase name g.last_fail }
