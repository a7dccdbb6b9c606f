-- ===== src/Tunnel/Session/Finishing.antt =====
-- What stands once a session is terminal, and that finish comes to its end.
use beamd.Prelude.{
  ℕ, ◌+◌, ◌≤◌, ◌≡◌, ◌∙◌, refl, sym, Bool, true, nat_eq, List, [], ◌∷◌, arith, length, contains,
  if_cases, if_split, subst,
}
use beamd.Client.{CloseInfo}
use beamd.Tunnel.Session.{
  Utf8, Session, Finisher, idle, ending, gone, new_session_state, claim, register, unregister,
  child_closes, child_done, begin_finish, go_on, finish_next, Event, claims, registers, child_over,
  child_leaves, child_ends, finishes, finisher_goes_on, step, run, is_closed, close_info,
}
use beamd.Tunnel.Session.Termination.{Staged, run-IsSound, new-IsSound, after}

-- What a terminal session keeps.
abbrev pub Stands : Session → Session → Type 0
Stands s t = (is_closed t ≡ true) × (close_info t ≡ close_info s) × (t.known ≡ s.known)

child_closes-Stands : (s : Session) (c : ℕ) → s.terminal ≡ true → Stands s (child_closes s c)
unfolding child_closes is_closed close_info
child_closes-Stands s c h = if_cases (Stands s) (contains c s.ended) (h, refl, refl) (h, refl, refl)

go_on-Stands : (s : Session) (f : Finisher) → s.terminal ≡ true → Stands s (go_on s f)
unfolding go_on is_closed close_info child_done unregister
go_on-Stands s idle h = (h, refl, refl)
go_on-Stands s gone h = (h, refl, refl)
go_on-Stands s (ending []) h = (h, refl, refl)
go_on-Stands s (ending (c ∷ cs)) h = child_closes-Stands s c h

step-Stands : (utf8 : Utf8) (e : Event) (s : Session) → s.terminal ≡ true → Stands s (step utf8 e s)
unfolding step claim register unregister begin_finish finish_next is_closed close_info
step-Stands utf8 (claims i) s h =
    if_split (λ (o : Session × Bool). Stands s (o.0)) s.terminal (λ t. (h, refl, refl))
      (λ f. ground arith)
step-Stands utf8 (registers c) s h =
    if_split (λ (o : Session × Bool). Stands s (o.0)) s.terminal (λ t. (h, refl, refl))
      (λ f. ground arith)
step-Stands utf8 (child_over c) s h = child_closes-Stands s c h
step-Stands utf8 (child_leaves c) s h =
    if_cases (Stands s) (contains c s.leaving) (h, refl, refl) (h, refl, refl)
step-Stands utf8 (child_ends c) s h = unfold child_done unregister in child_closes-Stands s c h
step-Stands utf8 (finishes i) s h =
    if_cases (Stands s) s.finished (h, refl, refl) (refl, rw h refl, refl)
step-Stands utf8 finisher_goes_on s h = go_on-Stands s s.finisher h

-- Once a session is terminal it stays so: later claims and later calls of finish change nothing of its
-- close info, and no stream is registered any more.
pub run-Stands :
    (utf8 : Utf8) (es : List Event) (s : Session) → is_closed s ≡ true → Stands s (run utf8 es s)
unfolding run is_closed close_info
run-Stands utf8 [] s h = (h, refl, refl)
run-Stands utf8 (e ∷ es) s h =
    let now = step-Stands utf8 e s h in
    let later = run-Stands utf8 es (step utf8 e s) now.0 in
    (later.0, later.1 ∙ now.1, later.2 ∙ now.2)

-- The steps that finish still has to take.
abbrev pub left : Finisher → ℕ
left idle = 0
left (ending cs) = length cs + 1
left gone = 0

abbrev pub taken_steps : List Event → ℕ
taken_steps [] = 0
taken_steps (finisher_goes_on ∷ es) = taken_steps es + 1
taken_steps (claims i ∷ es) = taken_steps es
taken_steps (registers c ∷ es) = taken_steps es
taken_steps (child_over c ∷ es) = taken_steps es
taken_steps (child_leaves c ∷ es) = taken_steps es
taken_steps (child_ends c ∷ es) = taken_steps es
taken_steps (finishes i ∷ es) = taken_steps es

-- The finisher has begun.
abbrev pub Begun : Finisher → Type 0
Begun idle = ⊥
Begun (ending cs) = Unit
Begun gone = Unit

-- One event of another goroutine leaves the finisher alone.
abbrev Same : Session → Session → Type 0
Same s t = (t.finished ≡ s.finished) × (t.finisher ≡ s.finisher)

claim-Same : (utf8 : Utf8) (s : Session) (i : CloseInfo) → Same s ((claim utf8 s i).0)
unfolding claim
claim-Same utf8 s i =
    if_cases (λ (o : Session × Bool). Same s (o.0)) s.terminal (refl, refl) (refl, refl)

register-Same : (s : Session) (c : ℕ) → Same s ((register s c).0)
unfolding register
register-Same s c =
    if_cases (λ (o : Session × Bool). Same s (o.0)) s.terminal (refl, refl) (refl, refl)

child_closes-Same : (s : Session) (c : ℕ) → Same s (child_closes s c)
unfolding child_closes
child_closes-Same s c = if_cases (Same s) (contains c s.ended) (refl, refl) (refl, refl)

leaves-Same : (utf8 : Utf8) (s : Session) (c : ℕ) → Same s (step utf8 (child_leaves c) s)
unfolding step unregister
leaves-Same utf8 s c = if_cases (Same s) (contains c s.leaving) (refl, refl) (refl, refl)

again-Same :
    (utf8 : Utf8) (s : Session) (i : CloseInfo) → s.finished ≡ true → Same s (begin_finish utf8 s i)
unfolding begin_finish
again-Same utf8 s i h = if_split (Same s) s.finished (λ t. (refl, refl)) (λ f. ground arith)

-- The finish of a session has begun, and it has so many steps to take.
abbrev pub Finishing : Session → ℕ → Type 0
Finishing s n = (s.finished ≡ true) × Begun s.finisher × (left s.finisher ≤ n)

Same-Finishing : (s t : Session) (n : ℕ) → Same s t → Finishing s n → Finishing t n
Same-Finishing s t n same w = (
  same.0 ∙ w.0,
  subst Begun (sym same.1) w.1,
  subst (λ (f : Finisher). left f ≤ n) (sym same.1) w.2,
)

-- One step of the finisher is one step less.
go_on-Finishing :
    (s : Session) (f : Finisher) (n : ℕ)
    → s.finisher ≡ f
    → s.finished ≡ true
    → Begun f
    → left f ≤ n + 1
    → Finishing (go_on s f) n
unfolding go_on child_done unregister
go_on-Finishing s idle n at h b l = elim b [ ]
go_on-Finishing s gone n at h b l =
    (h, subst Begun (sym at) tt, subst (λ (f : Finisher). left f ≤ n) (sym at) (omega arith))
go_on-Finishing s (ending []) n at h b l = (h, tt, omega arith)
go_on-Finishing s (ending (c ∷ cs)) n at h b l =
    ((child_closes-Same s c).0 ∙ h, tt, omega (arith, l))

run-Finishing :
    (utf8 : Utf8) (es : List Event) (s : Session)
    → Finishing s (taken_steps es)
    → Finishing (run utf8 es s) 0
unfolding run
run-Finishing utf8 [] s w = w
run-Finishing utf8 (claims i ∷ es) s w = run-Finishing utf8 es (step utf8 (claims i) s) (
    Same-Finishing s (step utf8 (claims i) s) (taken_steps es) (unfold step in claim-Same utf8 s i)
      w)
run-Finishing utf8 (registers c ∷ es) s w = run-Finishing utf8 es (step utf8 (registers c) s) (
    Same-Finishing s (step utf8 (registers c) s) (taken_steps es) (unfold step in register-Same s c)
      w)
run-Finishing utf8 (child_over c ∷ es) s w = run-Finishing utf8 es (step utf8 (child_over c) s) (
    Same-Finishing s (step utf8 (child_over c) s) (taken_steps es)
      (unfold step in child_closes-Same s c) w)
run-Finishing utf8 (child_leaves c ∷ es) s w =
    run-Finishing utf8 es (step utf8 (child_leaves c) s)
      (Same-Finishing s (step utf8 (child_leaves c) s) (taken_steps es) (leaves-Same utf8 s c) w)
run-Finishing utf8 (child_ends c ∷ es) s w = run-Finishing utf8 es (step utf8 (child_ends c) s) (
    Same-Finishing s (step utf8 (child_ends c) s) (taken_steps es)
      (unfold step child_done unregister in child_closes-Same s c) w)
run-Finishing utf8 (finishes i ∷ es) s w = run-Finishing utf8 es (step utf8 (finishes i) s) (
    Same-Finishing s (step utf8 (finishes i) s) (taken_steps es)
      (unfold step in again-Same utf8 s i w.0) w)
run-Finishing utf8 (finisher_goes_on ∷ es) s w =
    run-Finishing utf8 es (step utf8 finisher_goes_on s)
      (unfold step finish_next in go_on-Finishing s s.finisher (taken_steps es) refl w.0 w.1 w.2)

over : (s : Session) (f : Finisher) → Staged f s → Begun f → left f ≤ 0 → s.closes ≡ 1
over s idle h b l = elim b [ ]
over s (ending cs) h b l = omega (arith, l)
over s gone h b l = h.3

begun : (s : Session) (f : Finisher) → Staged f s → s.finished ≡ true → Begun f
begun s idle h d = ground (arith, h)
begun s (ending cs) h d = tt
begun s gone h d = tt

-- Liveness: from any state that a new session reaches in which finish has begun, whatever else happens in
-- between, once finish has taken_steps a step for each stream that it found and one more, the Done channel of
-- the session has been closed, exactly once.
pub run-finishes :
    (utf8 : Utf8) (blank : CloseInfo) (before later : List Event)
    → (after utf8 blank before).finished ≡ true
    → left (after utf8 blank before).finisher ≤ taken_steps later
    → (run utf8 later (after utf8 blank before)).closes ≡ 1
run-finishes utf8 blank before later begins enough =
    let s = after utf8 blank before in
    let w = run-IsSound utf8 before (new_session_state blank) (new-IsSound blank) in
    let t = run utf8 later s in
    let end = run-Finishing utf8 later s (begins, begun s s.finisher w.staged begins, enough) in
    over t t.finisher (run-IsSound utf8 later s w).staged end.1 end.2
