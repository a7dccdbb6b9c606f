-- ===== src/Config/Startup.antt =====
-- What a resolved setting is, and where it comes from.
use beamd.Prelude.{
  ℕ, ◌≤◌, ◌≡◌, refl, ap, sym, subst, ◌↔◌, ◌⊎◌, inl, inr, true, ◌||◌, [], ◌∷◌, Option, none, some,
  arith, Bytes, ◌==◌, nat_eq, list_eq, eq_iff, Option-cases,
}
use beamd.Prelude.Int.{ℤ, pos, negsuc}
use beamd.Config.{
  resolved, tcp, auto, quic, supported, resolve_transport, min_window, max_window, default_window,
  validate_yamux_window, resolve_yamux_window, validate_agent_yamux_window,
}

abbrev pub IsTransport : Bytes → Type 0
IsTransport t = (t ≡ tcp) ⊎ (t ≡ auto) ⊎ (t ≡ quic)

supported_sound : (s t : Bytes) → supported s ≡ resolved t → (s ≡ t) × IsTransport t
unfolding supported
supported_sound s t h =
    let same : s ≡ t = ground (arith, h) in
    let known : (s == tcp || s == auto || s == quic) ≡ true = ground (arith, h) in
    (same, ground (arith, known, same, eq_iff s tcp, eq_iff s auto, eq_iff s quic))

-- A resolved transport is tcp, auto or quic; it is the value of the environment variable if that is
-- present, else the configured one, and tcp if that is empty.
pub resolve_transport_sound :
    (env : Option Bytes) (configured t : Bytes)
    → resolve_transport env configured ≡ resolved t
    → IsTransport t
      × ((env ≡ some t) ⊎ ((env ≡ none) × ((configured ≡ t) ⊎ ((configured ≡ []) × (t ≡ tcp)))))
unfolding resolve_transport
resolve_transport_sound (some []) configured t h = absurd (ground (arith, h))
resolve_transport_sound (some (c ∷ v)) configured t h =
    let (same, known) = supported_sound (c ∷ v) t h in (known, inl (ap some same))
resolve_transport_sound none [] t h =
    let (same, known) = supported_sound tcp t h in (known, inr (refl, inr (refl, sym same)))
resolve_transport_sound none (c ∷ v) t h =
    let (same, known) = supported_sound (c ∷ v) t h in (known, inr (refl, inl same))

-- A window passes the agent's validation exactly if it is at least 256 KiB and at most 16 MiB: the
-- check of the exposure of all streams refuses nothing that the range lets through.
pub validate_agent_yamux_window_iff :
    (n : ℕ) → (validate_agent_yamux_window (pos n) ≡ none) ↔ ((min_window ≤ n) × (n ≤ max_window))
unfolding validate_agent_yamux_window
validate_agent_yamux_window_iff n = (λ h. ground (arith, h), λ h. ground (arith, h))

in_range : (n : ℤ) → validate_yamux_window n ≡ none → validate_agent_yamux_window n ≡ none
unfolding validate_yamux_window validate_agent_yamux_window
in_range (negsuc n) h = h
in_range (pos n) h = ground (arith, h)

-- Whatever ParseInt does, the window that an agent or an edge starts with is in the range, and so is
-- accepted by the agent's own validation.
pub resolve_yamux_window-valid :
    (parse_int : Bytes → Option ℤ) (env : Option Bytes) (n : ℤ)
    → resolve_yamux_window parse_int env ≡ resolved n
    → validate_agent_yamux_window n ≡ none
unfolding resolve_yamux_window validate_agent_yamux_window validate_yamux_window
resolve_yamux_window-valid parse_int none n h =
    let same : pos default_window ≡ n = ground (arith, h) in
    subst (λ (m : ℤ). validate_agent_yamux_window m ≡ none) same refl
resolve_yamux_window-valid parse_int (some v) n h = elim (Option-cases (parse_int v)) [
  | inl bad ↦ absurd (ground (arith, h, bad))
  | inr (m, parsed) ↦ elim (Option-cases (validate_yamux_window m)) [
    | inr (e, wrong) ↦ absurd (ground (arith, h, parsed, wrong))
    | inl good ↦
        let same : m ≡ n = ground (arith, h, parsed, good) in
        subst (λ (k : ℤ). validate_agent_yamux_window k ≡ none) same (in_range m good)
  ]
]
