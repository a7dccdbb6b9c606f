-- ===== src/Tunnel/Session/Termination.antt =====
-- The end of a session: the first terminal event stands, and no stream outlives the session.
use beamd.Prelude.{
  ℕ, ◌+◌, ◌≡◌, ◌≢◌, ◌∙◌, refl, Bool, true, false, ◌||◌, List, [], ◌∷◌, arith, contains, add, remove,
  contains-add, contains-remove, eq_iff, nat_eq, if_cases, if_split, ap, subst,
}
use beamd.Client.{CloseInfo}
use beamd.Tunnel.Session.{
  Utf8, Session, Finisher, idle, ending, gone, new_session_state, claim, register, unregister,
  child_closes, child_done, begin_finish, go_on, finish_next, Event, claims, registers, child_over,
  child_leaves, child_ends, finishes, finisher_goes_on, step, run, sanitized,
}

abbrev pub remaining : Finisher → List ℕ
remaining idle = []
remaining (ending cs) = cs
remaining gone = []

-- A stream that was registered is still a child, or the finisher has it, or it is over.
abbrev pub accounted : Session → ℕ → Bool
accounted s c = contains c s.children || contains c (remaining s.finisher) || contains c s.ended

abbrev pub Staged : Finisher → Session → Type 0
Staged idle s = (s.finished ≡ false) × (s.closes ≡ 0)
Staged (ending cs) s =
    (s.finished ≡ true) × (s.terminal ≡ true) × (s.children ≡ []) × (s.closes ≡ 0)
Staged gone s = (s.finished ≡ true) × (s.terminal ≡ true) × (s.children ≡ []) × (s.closes ≡ 1)

pub record IsSound (s : Session) : Type 0 where
  pub staged : Staged s.finisher s
  pub all_accounted : (c : ℕ) → contains c s.known ≡ true → accounted s c ≡ true
  pub leave_after_end : (c : ℕ) → contains c s.leaving ≡ true → contains c s.ended ≡ true

register-IsSound : (s : Session) (c : ℕ) → IsSound s → IsSound ((register s c).0)
unfolding register
register-IsSound s c w =
    if_split (λ (o : Session × Bool). IsSound (o.0)) s.terminal (λ over. w)
      λ live. record {
        staged = live_staged s.finisher w.staged live;
        all_accounted = λ d h.
            ground
              (arith, contains-add c d s.children, contains-add c d s.known, w.all_accounted d);
        leave_after_end = w.leave_after_end;
      }
  where
    live_staged :
        (f : Finisher)
        → Staged f s
        → s.terminal ≡ false
        → Staged f (record s { children = add c s.children; known = add c s.known })
    live_staged idle h live = h
    live_staged (ending cs) h live = ground (arith, h)
    live_staged gone h live = ground (arith, h)

claim-IsSound :
    (utf8 : Utf8) (s : Session) (i : CloseInfo) → IsSound s → IsSound ((claim utf8 s i).0)
unfolding claim
claim-IsSound utf8 s i w =
    if_split (λ (o : Session × Bool). IsSound (o.0)) s.terminal (λ over. w)
      λ live. record {
        staged = claimed s.finisher w.staged;
        all_accounted = w.all_accounted;
        leave_after_end = w.leave_after_end;
      }
  where
    claimed :
        (f : Finisher)
        → Staged f s
        → Staged f (record s { terminal = true; info = sanitized utf8 i })
    claimed idle h = h
    claimed (ending cs) h = (h.0, refl, h.2, h.3)
    claimed gone h = (h.0, refl, h.2, h.3)

child_closes-IsSound : (s : Session) (c : ℕ) → IsSound s → IsSound (child_closes s c)
unfolding child_closes
child_closes-IsSound s c w =
    if_split IsSound (contains c s.ended) (λ over. w)
      λ live. record {
        staged = same s.finisher w.staged;
        all_accounted = λ d h. ground (arith, contains-add c d s.ended, w.all_accounted d);
        leave_after_end = λ d h.
            ground
              (arith, contains-add c d s.ended, contains-add c d s.leaving, w.leave_after_end d);
      }
  where
    same :
        (f : Finisher)
        → Staged f s
        → Staged f (record s { ended = add c s.ended; leaving = add c s.leaving })
    same idle h = h
    same (ending cs) h = h
    same gone h = h

-- A stream leaves the registry once it is over.
unregister-IsSound :
    (s : Session) (c : ℕ) → contains c s.ended ≡ true → IsSound s → IsSound (unregister s c)
unfolding unregister
unregister-IsSound s c over w = record {
  staged = same s.finisher w.staged;
  all_accounted =
      λ d h. ground (arith, contains-remove c d s.children, eq_iff c d, w.all_accounted d);
  leave_after_end = λ d h. ground (arith, contains-remove c d s.leaving, w.leave_after_end d);
}
  where
    same :
        (f : Finisher)
        → Staged f s
        → Staged f (record s { children = remove c s.children; leaving = remove c s.leaving })
    same idle h = h
    same (ending cs) h = (h.0, h.1, unfold remove in ap (remove c) h.2, h.3)
    same gone h = (h.0, h.1, unfold remove in ap (remove c) h.2, h.3)

closes-ended : (s : Session) (c : ℕ) → contains c (child_closes s c).ended ≡ true
unfolding child_closes
closes-ended s c = ground (arith, contains-add c c s.ended, eq_iff c c)

child_done-IsSound : (s : Session) (c : ℕ) → IsSound s → IsSound (child_done s c)
unfolding child_done
child_done-IsSound s c w =
    unregister-IsSound (child_closes s c) c (closes-ended s c) (child_closes-IsSound s c w)

begin_finish-IsSound :
    (utf8 : Utf8) (s : Session) (i : CloseInfo) → IsSound s → IsSound (begin_finish utf8 s i)
unfolding begin_finish
begin_finish-IsSound utf8 s i w =
    if_split IsSound s.finished (λ done. w)
      λ fresh. record {
        staged = (refl, refl, refl, first s.finisher w.staged fresh);
        all_accounted =
            λ c h. ground (arith, w.all_accounted c h, nothing_left s.finisher c w.staged fresh);
        leave_after_end = w.leave_after_end;
      }
  where
    first : (f : Finisher) → Staged f s → s.finished ≡ false → s.closes ≡ 0
    first idle h fresh = h.1
    first (ending cs) h fresh = h.3
    first gone h fresh = ground (arith, h)

    nothing_left :
        (f : Finisher) (c : ℕ) → Staged f s → s.finished ≡ false → contains c (remaining f) ≡ false
    nothing_left idle c h fresh = unfold contains in refl
    nothing_left (ending cs) c h fresh = ground (arith, h)
    nothing_left gone c h fresh = ground (arith, h)

drop_head :
    (t : Session) (c : ℕ) (cs : List ℕ)
    → t.finisher ≡ ending (c ∷ cs)
    → contains c t.ended ≡ true
    → IsSound t
    → IsSound (record t { finisher = ending cs })
drop_head t c cs at over w = record {
  staged = subst (λ (f : Finisher). Staged f t) at w.staged;
  all_accounted = λ d h.
      unfold contains in
      ground (
        arith,
        eq_iff c d,
        subst
            (λ (f : Finisher).
              (contains d t.children || contains d (remaining f) || contains d t.ended) ≡ true)
            at (w.all_accounted d h),
      );
  leave_after_end = w.leave_after_end;
}

publish-IsSound :
    (s : Session)
    → s.finisher ≡ ending []
    → IsSound s
    → IsSound (record s { finisher = gone; closes = s.closes + 1 })
publish-IsSound s at w =
    let h = subst (λ (f : Finisher). Staged f s) at w.staged in
    record {
      staged = (h.0, h.1, h.2, ap (λ (n : ℕ). n + 1) h.3);
      all_accounted = λ d k.
          subst
            (λ (f : Finisher).
              (contains d s.children || contains d (remaining f) || contains d s.ended) ≡ true)
            at (w.all_accounted d k);
      leave_after_end = w.leave_after_end;
    }

pub closes_finisher : (s : Session) (c : ℕ) → (child_closes s c).finisher ≡ s.finisher
unfolding child_closes
closes_finisher s c =
    if_cases (λ (t : Session). t.finisher ≡ s.finisher) (contains c s.ended) refl refl

pub done_finisher : (s : Session) (c : ℕ) → (child_done s c).finisher ≡ s.finisher
unfolding child_done unregister
done_finisher s c = closes_finisher s c

done_ended : (s : Session) (c : ℕ) → contains c (child_done s c).ended ≡ true
unfolding child_done unregister
done_ended s c = closes-ended s c

go_on-IsSound : (s : Session) (f : Finisher) → s.finisher ≡ f → IsSound s → IsSound (go_on s f)
unfolding go_on
go_on-IsSound s idle at w = w
go_on-IsSound s gone at w = w
go_on-IsSound s (ending []) at w = publish-IsSound s at w
go_on-IsSound s (ending (c ∷ cs)) at w =
    drop_head (child_done s c) c cs (done_finisher s c ∙ at) (done_ended s c)
      (child_done-IsSound s c w)

pub step-IsSound : (utf8 : Utf8) (e : Event) (s : Session) → IsSound s → IsSound (step utf8 e s)
unfolding step finish_next
step-IsSound utf8 (claims i) s w = claim-IsSound utf8 s i w
step-IsSound utf8 (registers c) s w = register-IsSound s c w
step-IsSound utf8 (child_over c) s w = child_closes-IsSound s c w
step-IsSound utf8 (child_leaves c) s w =
    if_split IsSound (contains c s.leaving)
      (λ leaves. unregister-IsSound s c (w.leave_after_end c leaves) w) (λ not_yet. w)
step-IsSound utf8 (child_ends c) s w = child_done-IsSound s c w
step-IsSound utf8 (finishes i) s w = begin_finish-IsSound utf8 s i w
step-IsSound utf8 finisher_goes_on s w = go_on-IsSound s s.finisher refl w

pub run-IsSound :
    (utf8 : Utf8) (es : List Event) (s : Session) → IsSound s → IsSound (run utf8 es s)
unfolding run
run-IsSound utf8 [] s w = w
run-IsSound utf8 (e ∷ es) s w = run-IsSound utf8 es (step utf8 e s) (step-IsSound utf8 e s w)

pub new-IsSound : (blank : CloseInfo) → IsSound (new_session_state blank)
unfolding new_session_state contains
new-IsSound blank = record {
  staged = (refl, refl);
  all_accounted = λ c h. ground arith;
  leave_after_end = λ c h. ground arith;
}

-- The state after some events of a new session.
abbrev pub after : Utf8 → CloseInfo → List Event → Session
after utf8 blank es = run utf8 es (new_session_state blank)

published :
    (s : Session) (f : Finisher) (c : ℕ)
    → Staged f s
    → s.closes ≢ 0
    → (contains c s.children || contains c (remaining f) || contains c s.ended) ≡ true
    → (s.closes ≡ 1) × (contains c s.ended ≡ true)
unfolding contains
published s idle c h n k = ground (arith, h, n)
published s (ending cs) c h n k = ground (arith, h, n)
published s gone c h n k =
    (h.3, subst (λ (cs : List ℕ). (contains c cs || false || contains c s.ended) ≡ true) h.2 k)

-- Whatever the goroutines do, in whatever order: once the Done channel of a session is closed, it was
-- closed once, and the Done channel of every stream that the session ever registered is closed too.
pub run-streams_over :
    (utf8 : Utf8) (blank : CloseInfo) (es : List Event) (c : ℕ)
    → (after utf8 blank es).closes ≢ 0
    → contains c (after utf8 blank es).known ≡ true
    → ((after utf8 blank es).closes ≡ 1) × (contains c (after utf8 blank es).ended ≡ true)
run-streams_over utf8 blank es c done known =
    let w = run-IsSound utf8 es (new_session_state blank) (new-IsSound blank) in
    published (after utf8 blank es) (after utf8 blank es).finisher c w.staged done
      (w.all_accounted c known)
