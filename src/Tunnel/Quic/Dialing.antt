-- ===== src/Tunnel/Quic/Dialing.antt =====
-- Which address a dial ends with, and that no connection is both accepted and reported as failed.
use beamd.Prelude.{
  ◌≤◌, ◌≡◌, ◌⊎◌, inl, inr, refl, ap, Bool, true, false, not, ◌&&◌, ◌||◌, List, [], ◌∷◌, ◌++◌, Bytes,
  arith, ◌==◌, nat_eq, if◌then◌else◌, if_split, All,
}
use beamd.Tunnel.Quic.{
  QuicCodes, DialFailureCategory, dial_network, is_network, DialError, classify_dial_failure,
  Attempt, session, failed, Dialed, connected, gave_up, dial_from, dial, QuicAttempt,
  new_quic_attempt, mark_accepted, watch_attempt,
}

-- The dial of an address failed with a failure of the network.
abbrev pub Unreachable : QuicCodes → (Bytes → Attempt) → Bytes → Type 0
Unreachable quic attempt a =
    (e : DialError) × (attempt a ≡ failed e) × (classify_dial_failure quic e ≡ dial_network)

-- The addresses before the one that decided, each of them unreachable, and what that one did; or all of
-- them, unreachable.
abbrev pub Decided : QuicCodes → (Bytes → Attempt) → List Bytes → Dialed → Type 0
Decided quic attempt addresses (connected b) =
    (before : List Bytes) × (after : List Bytes) × (addresses ≡ before ++ b ∷ after)
    × All (Unreachable quic attempt) before
    × (attempt b ≡ session)
Decided quic attempt addresses (gave_up c) =
    ((c ≡ dial_network) × All (Unreachable quic attempt) addresses)
    ⊎ ((is_network c ≡ false)
        × ((b : Bytes) × (before : List Bytes) × (after : List Bytes) × (e : DialError) × (addresses
              ≡ before ++ b ∷ after)
            × All (Unreachable quic attempt) before
            × (attempt b ≡ failed e)
            × (classify_dial_failure quic e ≡ c)))

is_network_lem : (c : DialFailureCategory) → is_network c ≡ true → c ≡ dial_network
is_network_lem c h = ground (arith, h)

-- One unreachable address in front.
behind :
    (quic : QuicCodes) (attempt : Bytes → Attempt) (a : Bytes) (rest : List Bytes) (d : Dialed)
    → Unreachable quic attempt a
    → Decided quic attempt rest d
    → Decided quic attempt (a ∷ rest) d
behind quic attempt a rest (connected b) u (before, after, e, all, s) =
    (a ∷ before, after, ap (λ (l : List Bytes). a ∷ l) e, (u, all), s)
behind quic attempt a rest (gave_up c) u (inl (n, all)) = inl (n, (u, all))
behind quic attempt a rest (gave_up c) u (inr (n, (b, before, after, e, split, all, f, k))) =
    inr (n, (b, a ∷ before, after, e, ap (λ (l : List Bytes). a ∷ l) split, (u, all), f, k))

dial_from-Decided :
    (quic : QuicCodes) (attempt : Bytes → Attempt) (addresses : List Bytes)
    → Decided quic attempt addresses (dial_from quic attempt addresses dial_network)
unfolding dial_from
dial_from-Decided quic attempt [] = inl (refl, tt)
dial_from-Decided quic attempt (a ∷ as') = at (attempt a) refl (dial_from-Decided quic attempt as')
  where
    at :
        (o : Attempt)
        → attempt a ≡ o
        → Decided quic attempt as' (dial_from quic attempt as' dial_network)
        → Decided quic attempt (a ∷ as') (elim o [
          | session ↦ connected a
          | failed e ↦
              let c = classify_dial_failure quic e in
              if is_network c then dial_from quic attempt as' dial_network else gave_up c
        ])
    at session e rest = ([], as', refl, tt, e)
    at (failed e) f rest =
        if_split (Decided quic attempt (a ∷ as')) (is_network (classify_dial_failure quic e))
          (λ net.
            behind quic attempt a as' (dial_from quic attempt as' dial_network)
              (e, f, is_network_lem (classify_dial_failure quic e) net) rest)
          (λ stop. inr (stop, (a, [], as', e, refl, tt, f, refl)))

-- A dial takes the addresses in order. It connects to an address only after each before it was found
-- unreachable; it gives up at the first failure of another category, with that category; and where every
-- address is unreachable, or there is none, it reports a failure of the network.
pub dial-Decided :
    (quic : QuicCodes) (attempt : Bytes → Attempt) (addresses : List Bytes)
    → Decided quic attempt addresses (dial quic attempt addresses)
unfolding dial
dial-Decided quic attempt addresses = dial_from-Decided quic attempt addresses

-- What the accept loop and the watcher of a connection do.
pub data Event : Type 0 where
  accepts : Event
  context_ends : Bool → Event

abbrev pub step : Event → QuicAttempt → QuicAttempt
step accepts a = (mark_accepted a).0
step (context_ends reported) a = watch_attempt a reported

abbrev pub run : List Event → QuicAttempt → QuicAttempt
run [] a = a
run (e ∷ es) a = run es (step e a)

-- At most one close, and no failure reported of an accepted connection.
record IsOne (a : QuicAttempt) : Type 0 where
  one_close : a.closes ≡ (if a.resolved then 1 else 0)
  reported_once : a.observed ≤ (if a.accepted then 0 else 1)
  not_before : (a.resolved || (a.observed == 0 && not a.accepted)) ≡ true

step-IsOne : (e : Event) (a : QuicAttempt) → IsOne a → IsOne (step e a)
unfolding mark_accepted watch_attempt
step-IsOne accepts a o = ground (arith, o.one_close, o.reported_once, o.not_before)
step-IsOne (context_ends reported) a o = ground (arith, o.one_close, o.reported_once, o.not_before)

run-IsOne : (es : List Event) (a : QuicAttempt) → IsOne a → IsOne (run es a)
run-IsOne [] a o = o
run-IsOne (e ∷ es) a o = run-IsOne es (step e a) (step-IsOne e a o)

-- Whatever the accept loop and the watcher do, in whatever order: the Done channel of an attempt is closed
-- once at most, its failure is reported once at most, and where mark_accepted says that the connection is
-- accepted, its failure has not been reported.
pub mark_accepted-run :
    (es : List Event)
    → let a = run es new_quic_attempt in
      (a.closes ≤ 1) × (a.observed ≤ 1) × ((not (mark_accepted a).1 || a.observed == 0) ≡ true)
unfolding mark_accepted new_quic_attempt
mark_accepted-run es =
    let a = run es new_quic_attempt in
    let o =
      run-IsOne es new_quic_attempt
        (record { one_close = refl; reported_once = omega arith; not_before = refl }) in
    ground (arith, o.one_close, o.reported_once, o.not_before)
