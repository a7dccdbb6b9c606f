-- ===== src/Tests/Orders.antt =====
-- internal/certs at a gate that knows one name.
use beamd.Prelude.{
  List, ◌==◌, ◌≡◌, refl, false, [], ◌∷◌, none, arith, Bytes, codes, lookup, contains, list_beq,
  list_eq, nat_eq, eq_iff,
}
use beamd.Cache.Bounds.{Lists}
use beamd.Certs.Gate.{GateVerdict, DecisionGate, cooling_down, is_cooling, decide, record_failure}
use beamd.Certs.Gate.Cooldown.{IsAuthorized}
use beamd.Certs.Gate.Outlast.{Event, answers, fails, succeeds, run, decide-run}

abbrev host : Bytes
host = codes "app-acme.beam.dev"

-- The host is authorized until time 100; an authorizer's error is a byte string.
abbrev gate : DecisionGate Bytes
gate = record {
  pos_ttl = 60;
  neg_ttl = 30;
  fail_cooldown = 120;
  max_entries = 4;
  verdicts = (host, record { err = none; expires = 100 }) ∷ [];
  last_fail = [];
}

host-IsAuthorized : IsAuthorized gate host
unfolding lookup list_beq
host-IsAuthorized = (record { err = none; expires = 100 }, refl, refl)

gate_idle : is_cooling gate host 10 ≡ false
unfolding is_cooling lookup
gate_idle = refl

-- A second name, authorized too, fails and succeeds while the first one cools down.
abbrev other : Bytes
other = codes "api-acme.beam.dev"

abbrev meanwhile : List (Event Bytes)
meanwhile = answers other 30 [] none ∷ fails other 31 ∷ fails host 40 ∷ succeeds other ∷ []

other_differs : (other == host) ≡ false
unfolding list_beq
other_differs = refl

decide-run_example :
    decide (run meanwhile (record_failure gate host 10)) host 50 51 [] none
    ≡ (run meanwhile (record_failure gate host 10), cooling_down, false)
decide-run_example =
    decide-run gate host 10 50 51 meanwhile [] none host-IsAuthorized gate_idle
      (tt, (((omega arith), (omega arith)), (((omega arith), (omega arith)), (other_differs, tt))))
      (omega arith) (omega arith)

abbrev stranger : Bytes
stranger = codes "x.example"

not_known : ¬ IsAuthorized gate stranger
unfolding lookup list_beq
not_known (v, there, ok) = cc

gate-Lists : Lists (λ (v : GateVerdict Bytes). v.expires) (host ∷ []) gate.verdicts
unfolding lookup contains
gate-Lists k n = ground (arith, n, eq_iff host k)
