-- ===== src/Config/Server/Runtime.antt =====
-- What FinalizeRuntime, Validate and LoadServer establish.
use beamd.Prelude.{
  ℕ, ◌*◌, ◌≤◌, false, not, ◌||◌, Option, none, some, Bytes, ◌≡◌, refl, ap, sym, arith, Option-cases,
  inl, inr, subst, if_cases,
}
use beamd.Prelude.Int.{ℤ, pos, negsuc}
use beamd.Config.{default_window}
use beamd.Config.Server.Environment.{
  Loaded, loaded, unreadable, rejected, and_then, verdict, checked, Env, default_server,
  apply_server_env_overrides, load_server,
}
use beamd.Config.Server.{
  validate, validated, is_shape, is_ip_mode, missing_setting, validate_configured_part_b_capacities,
  validate_defaults, Server, ServerError, NetFacts, or_default, or_text, is_zero,
  all_capacities_zero, with_defaults, check_runtime, check_exposure, finalize_runtime, amount,
}

or_default_twice : (n : ℤ) (d : ℕ) → 1 ≤ d → or_default (or_default n d) d ≡ or_default n d
or_default_twice (pos n) d h = ground arith
or_default_twice (negsuc n) d h = refl

or_text_twice : (s d : Bytes) → or_text (or_text s d) d ≡ or_text s d
or_text_twice s d = ground arith

or_default_nonzero : (n : ℤ) (d : ℕ) → 1 ≤ d → is_zero (or_default n d) ≡ false
or_default_nonzero (pos n) d h = ground arith
or_default_nonzero (negsuc n) d h = refl

-- A server with its defaults has no zero capacity left, so QUIC is not disabled a second time.
with_defaults_twice : (s : Server) → with_defaults (with_defaults s) ≡ with_defaults s
unfolding with_defaults
with_defaults_twice s =
    let quic : (all_capacities_zero (with_defaults s) || (with_defaults s).disable_quic)
        ≡ (with_defaults s).disable_quic =
      ground (arith, or_default_nonzero s.max_streams_per_session 64 (omega arith)) in
    λ i. record s {
      max_request_body_bytes = or_default_twice s.max_request_body_bytes 33_554_432 (omega arith) i;
      disable_quic = quic i;
      max_streams_per_session = or_default_twice s.max_streams_per_session 64 (omega arith) i;
      max_streams_total = or_default_twice s.max_streams_total 128 (omega arith) i;
      max_pre_auth_sessions = or_default_twice s.max_pre_auth_sessions 32 (omega arith) i;
      max_sessions_total = or_default_twice s.max_sessions_total 8 (omega arith) i;
      listen_quic = or_text_twice s.listen_quic s.listen_https i;
      yamux_stream_window_bytes =
          or_default_twice s.yamux_stream_window_bytes default_window (omega arith) i;
    }

-- Finalizing a second time changes neither the settings nor the verdict.
pub finalize_runtime_idempotent :
    (net : NetFacts) (s : Server)
    → finalize_runtime net ((finalize_runtime net s).0) ≡ finalize_runtime net s
unfolding finalize_runtime
finalize_runtime_idempotent net s =
    ap (λ (t : Server). (t, check_runtime net t)) (with_defaults_twice s)

-- The numbers that a checked server has.
abbrev pub Bounded : Server → Type 0
Bounded s =
    (1 ≤ amount s.max_streams_per_session)
    × (amount s.max_streams_per_session ≤ 128)
    × (amount s.max_streams_per_session ≤ amount s.max_streams_total)
    × (amount s.max_streams_total ≤ 256)
    × (1 ≤ amount s.max_pre_auth_sessions)
    × (amount s.max_pre_auth_sessions ≤ 128)
    × (1 ≤ amount s.max_sessions_total)
    × (amount s.max_sessions_total ≤ 8)
    × (amount s.yamux_stream_window_bytes * amount s.max_streams_total ≤ 1_073_741_824)

check_runtime-Bounded : (net : NetFacts) (s : Server) → check_runtime net s ≡ none → Bounded s
unfolding check_runtime check_exposure
check_runtime-Bounded net s h = ground arith

-- What holds of a server that comes with no error.
abbrev Sound : Server × Option ServerError → Type 0
Sound (v, some e) = Unit
Sound (v, none) = Bounded v

finalize_runtime-Sound : (net : NetFacts) (s : Server) → Sound (finalize_runtime net s)
unfolding finalize_runtime
finalize_runtime-Sound net s = elim (Option-cases (check_runtime net (with_defaults s))) [
  | inl e ↦
      subst (λ (o : Option ServerError). Sound (with_defaults s, o)) (sym e)
        (check_runtime-Bounded net (with_defaults s) e)
  | inr e ↦ subst (λ (o : Option ServerError). Sound (with_defaults s, o)) (sym (e.1)) tt
]

validate-Sound : (net : NetFacts) (s : Server) → Sound (validate net s)
unfolding validate validated
validate-Sound net s = elim (missing_setting s) as (λ o. Sound (validated net s o)) [
  | some name ↦ tt
  | none ↦
      let d = validate_defaults s in
      if_cases Sound (not (is_shape d.url_shape)) tt
        (if_cases Sound (not (is_ip_mode d.ip_mode)) tt (finalize_runtime-Sound net d))
]

verdict-Bounded :
    (out : Server × Option ServerError) (v : Server)
    → Sound out
    → verdict out ≡ loaded v
    → Bounded v
verdict-Bounded (w, some e) v h p = ground arith
verdict-Bounded (w, none) v h p = ground arith

checked-Bounded : (net : NetFacts) (s v : Server) → checked net s ≡ loaded v → Bounded v
unfolding checked
checked-Bounded net s v h = elim (Option-cases (validate_configured_part_b_capacities s)) [
  | inl e ↦ verdict-Bounded (validate net s) v (validate-Sound net s) (ground arith)
  | inr e ↦ ground arith
]

after : (net : NetFacts) (m : Loaded) (v : Server) → and_then m (checked net) ≡ loaded v → Bounded v
after net (loaded s) v h = checked-Bounded net s v h
after net unreadable v h = ground arith
after net (rejected e) v h = ground arith

-- Where LoadServer succeeds, whatever the file and the environment hold, the four capacities are within
-- the ranges of the code, and the windows of all admitted streams together take at most 1 GiB.
pub load_server-Bounded :
    (env : Env) (net : NetFacts) (parsed : Server → Option Server) (v : Server)
    → load_server env net parsed ≡ loaded v
    → Bounded v
unfolding load_server
load_server-Bounded env net parsed v h = elim (Option-cases (parsed default_server)) [
  | inl e ↦ ground arith
  | inr e ↦ after net (apply_server_env_overrides env (e.0)) v (ground arith)
]
