-- ===== src/Edge/Admission/Slots.antt =====
-- Who gets in, and what a refusal leaves.
use beamd.Prelude.{
  ℕ, ◌+◌, ◌-◌, ◌<◌, ◌≡◌, refl, inl, inr, Bool, true, false, not, ◌||◌, Option, none, some, arith,
  Bytes, ltb→lt, ◌==◌, nat_eq, eq_iff, if◌then◌else◌, contains, add, remove, contains-remove,
  Bool-cases, ap, subst, ◌∙◌, if_cases, if_split,
}
use beamd.Edge.Admission.{
  Admission, release_preauth, acquire_authenticated, release_authenticated, promote_authenticated,
  FirstMessage, not_hello, malformed, hello, Outcome, opened, rejected, HandshakeError, admit, shut,
  handshake, admit_with, write_hello_ok, finish_promotion, leave_lobby, shutdown, capacity,
  hello_ok_failed, bad_version, bad_token, no_control_stream, bad_hello, malformed_hello,
  handle_tunnel_session,
}

-- The state once the transport is promoted.
abbrev joined : Admission → ℕ → Bool → Admission
joined a t down = record a {
  shutting_down = down;
  preauth = remove t a.preauth;
  preauth_slots = a.preauth_slots - 1;
  auth_slots = a.auth_slots + 1;
  sessions = add t a.sessions;
}

-- The two ends of an admission: nothing is taken, or the transport has moved inside.
admit_cases {ℓ} :
    (P : Admission × Outcome → Type ℓ) (a : Admission) (t : ℕ) (slug : Bytes) (writes shuts : Bool)
    → ((e : HandshakeError) (down : Bool) → P (record a { shutting_down = down }, rejected e))
    → (a.shutting_down ≡ false
        → a.auth_slots < a.auth_cap
        → contains t a.preauth ≡ true
        → (down : Bool) → P (joined a t down, opened slug))
    → P (admit a t slug writes shuts)
unfolding admit acquire_authenticated admit_with write_hello_ok finish_promotion
    promote_authenticated release_authenticated
admit_cases P a t slug writes shuts fails joins =
    let down = a.shutting_down || shuts in
    let held : Admission = shut (record a { auth_slots = a.auth_slots + 1 }) shuts in
    let unheld : record a { shutting_down = down } ≡ release_authenticated held =
      ap (λ (n : ℕ). record a { shutting_down = down; auth_slots = n }) (omega arith) in
    let back : (e : HandshakeError) → P (release_authenticated held, rejected e) =
      λ e. subst (λ (x : Admission). P (x, rejected e)) unheld (fails e down) in
    let over : (e : HandshakeError) → P (a, rejected e) = λ e. fails e a.shutting_down in
    let refuse : P (if a.shutting_down then (a, rejected shutdown) else (a, rejected capacity)) =
      if_cases P a.shutting_down (over shutdown) (over capacity) in
    if_split (λ o. P (admit_with a t slug writes shuts o)) a.shutting_down (λ _. refuse)
      λ up.
        if_split (λ o. P (admit_with a t slug writes shuts o)) _
          (λ room.
            if_split P writes
              (λ _.
                if_split (λ o. P (finish_promotion held slug o)) down (λ _. back shutdown)
                  λ _.
                    if_split (λ o. P (finish_promotion held slug o)) (not (contains t a.preauth))
                      (λ _. back shutdown)
                      λ there. joins up (ltb→lt _ _ room) (ground (arith, there)) down)
              (λ _. back hello_ok_failed))
          (λ _. refuse)

handle_cases {ℓ} :
    (P : Admission × Outcome → Type ℓ) (a : Admission) (t : ℕ) (first : Option FirstMessage)
    (writes shuts : Bool)
    → ((e : HandshakeError) (down : Bool)
        → P (release_preauth (record a { shutting_down = down }) t, rejected e))
    → ((slug : Bytes)
        → first ≡ some (hello 1 (some slug))
        → a.shutting_down ≡ false
        → a.auth_slots < a.auth_cap
        → contains t a.preauth ≡ true
        → (down : Bool) → P (joined a t down, opened slug))
    → P (handle_tunnel_session a t first writes shuts)
unfolding handle_tunnel_session handshake leave_lobby
handle_cases P a t none writes shuts fails joins = fails no_control_stream a.shutting_down
handle_cases P a t (some not_hello) writes shuts fails joins = fails bad_hello a.shutting_down
handle_cases P a t (some malformed) writes shuts fails joins = fails malformed_hello a.shutting_down
handle_cases P a t (some (hello version none)) writes shuts fails joins =
    if_cases (λ o. P (leave_lobby t o)) (not (version == 1)) {x = (a, rejected bad_version)}
      {y = (a, rejected bad_token)} (fails bad_version a.shutting_down)
      (fails bad_token a.shutting_down)
handle_cases P a t (some (hello version (some slug))) writes shuts fails joins =
    if_split (λ o. P (leave_lobby t o)) (not (version == 1))
      (λ _. fails bad_version a.shutting_down)
      λ same.
        admit_cases (λ o. P (leave_lobby t o)) a t slug writes shuts fails
          (joins slug (ap (λ (v : ℕ). some (hello v (some slug))) (ground (arith, same))))

-- A session opens only for a first message that is a hello of the edge's protocol version, and in the
-- slug that its token resolves to; the edge was not shutting down and had a session slot left, and
-- the transport was in the lobby.
pub handle_tunnel_session-opened :
    (a : Admission) (t : ℕ) (first : Option FirstMessage) (writes shuts : Bool) (slug : Bytes)
    → (handle_tunnel_session a t first writes shuts).1 ≡ opened slug
    → (first ≡ some (hello 1 (some slug)))
      × (a.shutting_down ≡ false)
      × (a.auth_slots < a.auth_cap)
      × (contains t a.preauth ≡ true)
handle_tunnel_session-opened a t first writes shuts slug =
    handle_cases
      (λ o.
        o.1 ≡ opened slug
        → (first ≡ some (hello 1 (some slug)))
          × (a.shutting_down ≡ false)
          × (a.auth_slots < a.auth_cap)
          × (contains t a.preauth ≡ true))
      a t first writes shuts (λ e down h. absurd (rejected_opened e slug h))
      λ s what up room there down h.
        let same : s ≡ slug = ground arith in
        (what ∙ ap (λ (x : Bytes). some (hello 1 (some x))) same, up, room, there)
  where
    rejected_opened : (e : HandshakeError) (slug : Bytes) → rejected e ≡ opened slug → ⊥
    rejected_opened e slug h = cc

contains-release : (a : Admission) (t : ℕ) → contains t (release_preauth a t).preauth ≡ false
unfolding release_preauth
contains-release a t = elim (Bool-cases (contains t a.preauth)) [
  | inr gone ↦ rw (gone, release_preauth) gone
  | inl there ↦
      rw (there, release_preauth) (ground (arith, contains-remove t t a.preauth, eq_iff t t))
]

-- A handshake that fails leaves the sessions and their slots as they were, and the transport out of
-- the lobby.
pub handle_tunnel_session-rejected :
    (a : Admission) (t : ℕ) (first : Option FirstMessage) (writes shuts : Bool) (e : HandshakeError)
    → (handle_tunnel_session a t first writes shuts).1 ≡ rejected e
    → ((handle_tunnel_session a t first writes shuts).0.sessions ≡ a.sessions)
      × ((handle_tunnel_session a t first writes shuts).0.auth_slots ≡ a.auth_slots)
      × (contains t (handle_tunnel_session a t first writes shuts).0.preauth ≡ false)
handle_tunnel_session-rejected a t first writes shuts e =
    handle_cases
      (λ o.
        o.1 ≡ rejected e
        → (o.0.sessions ≡ a.sessions)
          × (o.0.auth_slots ≡ a.auth_slots)
          × (contains t o.0.preauth ≡ false))
      a t first writes shuts
      (λ e' down h.
        let (same, slots) = release_keeps (record a { shutting_down = down }) t in
        (same, slots, contains-release (record a { shutting_down = down }) t))
      λ s what up room there down h. absurd (opened_rejected s e h)
  where
    opened_rejected : (slug : Bytes) (e : HandshakeError) → opened slug ≡ rejected e → ⊥
    opened_rejected slug e h = cc

    release_keeps :
        (b : Admission) (t : ℕ)
        → ((release_preauth b t).sessions ≡ b.sessions)
          × ((release_preauth b t).auth_slots ≡ b.auth_slots)
    release_keeps b t =
        unfold release_preauth in
        if_cases (λ (o : Admission). (o.sessions ≡ b.sessions) × (o.auth_slots ≡ b.auth_slots))
          (contains t b.preauth) (refl, refl) (refl, refl)
