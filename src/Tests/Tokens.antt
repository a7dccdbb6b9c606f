-- ===== src/Tests/Tokens.antt =====
-- internal/auth at concrete tokens and scopes.
use beamd.Prelude.{
  ◌≡◌, refl, ◌⊎◌, List, [], ◌∷◌, none, some, Bytes, codes, lookup, insert, contains, list_beq,
  list_eq, nat_eq, Any,
}
use beamd.Auth.Http.{VerifyTokenResponse, status, verdict, authorize, new_http_store, resolve}
use beamd.Auth.Scopes.{InScopes, authorize-verdict_sound}
use beamd.Auth.Freshness.{Call, Backs, answer, run, logged, run_backed}

abbrev acme : Bytes
acme = codes "acme"

-- A session with two scopes, one of them listed twice.
abbrev body : VerifyTokenResponse
body = record { kind = codes "session"; slug = []; scopes = acme ∷ [] ∷ acme ∷ codes "beta" ∷ [] }

granted : authorize (verdict body) acme ≡ some acme
unfolding authorize verdict contains list_beq
granted = refl

authorize-verdict_sound_example : InScopes body acme × ((acme ≡ []) ⊎ (acme ≡ acme))
authorize-verdict_sound_example = authorize-verdict_sound body acme acme granted

-- A token is verified, and resolved again a second later with the control plane down.
abbrev first_call : Call
first_call = record {
  token = codes "tok";
  requested = [];
  now = 1_000;
  later = 2_000;
  order = [];
  response = status 200 (some body);
}

abbrev second_call : Call
second_call = record {
  token = codes "tok";
  requested = codes "beta";
  now = 1_000_002_000;
  later = 1_000_003_000;
  order = [];
  response = status 500 none;
}

abbrev calls : List Call
calls = first_call ∷ []

second_granted : (answer (run calls).1 second_call).1 ≡ some (codes "beta")
unfolding resolve run new_http_store lookup insert contains list_beq
second_granted = refl

run_backed_example :
    Any
      (Backs (run calls).1 second_call (codes "beta"))
      (logged (run calls).0 (run calls).1 second_call)
run_backed_example = run_backed calls second_call (codes "beta") second_granted
