-- ===== src/Edge/Registry/Cap.antt =====
-- No token ever has more tunnels than its cap.
use mathlib.Core.Path.{subst, subst₃}
use beamd.Prelude.{
  ℕ, ◌+◌, ◌≤◌, ◌<◌, ◌≡◌, refl, sym, ap, ◌≢◌, inl, inr, true, false, List, [], ◌∷◌, Option, arith,
  Bytes, ◌==◌, nat_eq, list_eq, eq_iff, eq_refl, length, contains, add, insert, remove,
  contains-remove, Bool-cases,
}
use beamd.Edge.Hosts.{ScopeHostnames}
use beamd.Edge.Registry.{
  Session, Edge, Tunnel, evict, evict_all, forget, store, live_tunnels, take_hosts,
  reclaim_and_take, register, unregister, hosts_of, drop_session, open_session, close_transport,
  Reply,
}
use beamd.Edge.Registry.Routes.{register_cases}
use beamd.Edge.Registry.Invariant.{
  Step, opens, registers, unregisters, closes, drops, Reach, here, next, remove_hosts-sessions,
}
use beamd.Edge.Registry.Outcomes.{is_full}

-- A set of sessions as a list without repetition.
abbrev pub Distinct : List ℕ → Type 0
Distinct [] = Unit
Distinct (s ∷ ss) = (contains s ss ≡ false) × Distinct ss

pub length-remove-le : (n : Bytes) (ns : List Bytes) → length (remove n ns) ≤ length ns
unfolding remove
length-remove-le n [] = omega arith
length-remove-le n (m ∷ ns) = ground (arith, length-remove-le n ns)

length-add-le : (n : Bytes) (ns : List Bytes) → length (add n ns) ≤ length ns + 1
unfolding add
length-add-le n ns = ground arith

contains-remove_absent :
    (s t : ℕ) (ss : List ℕ) → contains t ss ≡ false → contains t (remove s ss) ≡ false
contains-remove_absent s t ss h = ground (arith, contains-remove s t ss)

pub remove-Distinct : (s : ℕ) (ss : List ℕ) → Distinct ss → Distinct (remove s ss)
unfolding remove
remove-Distinct s [] d = tt
remove-Distinct s (t ∷ ss) d =
    ground (arith, remove-Distinct s ss d.1, contains-remove_absent s t ss d.0)

pub add-Distinct : (s : ℕ) (ss : List ℕ) → Distinct ss → Distinct (add s ss)
unfolding add
add-Distinct s ss d = elim (Bool-cases (contains s ss)) [
  | inl old ↦ rw old d
  | inr new ↦ rw new (new, d)
]

module _ (heap : ℕ → Session) (s : ℕ) (v : Session) (slug : Bytes) where
  -- A session outside the set does not count.
  live_absent :
      (ss : List ℕ)
      → contains s ss ≡ false
      → live_tunnels (store heap s v) slug ss ≡ live_tunnels heap slug ss
  unfolding live_tunnels contains
  live_absent [] h = refl
  live_absent (t ∷ ss) h = ground (arith, eq_iff s t, eq_iff t s, live_absent ss)

  live_le :
      (ss : List ℕ)
      → v.slug ≡ (heap s).slug
      → length v.names ≤ length (heap s).names
      → live_tunnels (store heap s v) slug ss ≤ live_tunnels heap slug ss
  unfolding live_tunnels
  live_le [] e l = omega arith
  live_le (t ∷ ss) e l = ground (arith, eq_iff s t, live_le ss e l)

  live_suc :
      (ss : List ℕ)
      → Distinct ss
      → v.slug ≡ (heap s).slug
      → length v.names ≤ length (heap s).names + 1
      → live_tunnels (store heap s v) slug ss ≤ live_tunnels heap slug ss + 1
  unfolding live_tunnels
  live_suc [] d e l = omega arith
  live_suc (t ∷ ss) d e l = ground (arith, eq_iff s t, live_suc ss d.1 e l, live_absent ss)

  live_other :
      (ss : List ℕ)
      → v.slug ≡ (heap s).slug
      → (heap s).slug ≢ slug
      → live_tunnels (store heap s v) slug ss ≡ live_tunnels heap slug ss
  unfolding live_tunnels
  live_other [] e n = refl
  live_other (t ∷ ss) e n =
      ground (arith, eq_iff s t, eq_iff v.slug slug, eq_iff (heap s).slug slug, live_other ss e n)

live_remove :
    (heap : ℕ → Session) (s : ℕ) (slug : Bytes) (ss : List ℕ)
    → live_tunnels heap slug (remove s ss) ≤ live_tunnels heap slug ss
unfolding live_tunnels remove
live_remove heap s slug [] = omega arith
live_remove heap s slug (t ∷ ss) = ground (arith, live_remove heap s slug ss)

-- A session with no tunnel adds none.
live_add :
    (heap : ℕ → Session) (s : ℕ) (slug : Bytes) (ss : List ℕ)
    → contains s ss ≡ false
    → (heap s).names ≡ []
    → live_tunnels heap slug (add s ss) ≡ live_tunnels heap slug ss
unfolding live_tunnels add
live_add heap s slug ss fresh empty = ground (arith, ap length empty)

-- Under a cap, the tunnels of each slug are at most that many; sessions are counted once.
pub record IsCapped (e : Edge) : Type 0 where
  pub distinct : Distinct e.sessions
  pub capped :
      (slug : Bytes)
      → 0 < e.max_tunnels_per_token
      → live_tunnels e.heap slug e.sessions ≤ e.max_tunnels_per_token

evict-IsCapped : (e : Edge) (t : Tunnel) → IsCapped e → IsCapped (evict e t)
unfolding evict
evict-IsCapped e t c = record {
  distinct = c.distinct;
  capped = λ slug m. omega (
    arith,
    c.capped slug m,
    live_le e.heap t.0 (forget t.1 (e.heap t.0)) slug e.sessions refl
        (length-remove-le t.1 (e.heap t.0).names),
  );
}

evict_all-IsCapped : (e : Edge) (ts : List Tunnel) → IsCapped e → IsCapped (evict_all e ts)
unfolding evict_all
evict_all-IsCapped e [] c = c
evict_all-IsCapped e (t ∷ ts) c = evict_all-IsCapped (evict e t) ts (evict-IsCapped e t c)

take_hosts-IsCapped :
    (e : Edge) (sess : ℕ) (name : Bytes) (hosts : List Bytes) (n : ℕ)
    → IsCapped e
    → (0 < e.max_tunnels_per_token
        → live_tunnels e.heap (e.heap sess).slug e.sessions < e.max_tunnels_per_token)
    → IsCapped (take_hosts e sess name hosts n)
unfolding take_hosts
take_hosts-IsCapped e sess name hosts n c room = record {
  distinct = c.distinct;
  capped = λ slug m.
      let s = e.heap sess in
      let v : Session = record s { names = add name s.names; hosts = insert name hosts s.hosts } in
      elim (Bool-cases (s.slug == slug)) [
        | inl same ↦
            let mine : s.slug ≡ slug = (eq_iff s.slug slug).0 same in
            omega (
              arith,
              subst (λ (k : Bytes). live_tunnels e.heap k e.sessions < e.max_tunnels_per_token) mine
                  (room m),
              live_suc e.heap sess v slug e.sessions c.distinct refl (length-add-le name s.names),
            )
        | inr other ↦
            let not_mine : s.slug ≢ slug = ground (arith, eq_iff s.slug slug) in
            omega (arith, c.capped slug m, live_other e.heap sess v slug e.sessions refl not_mine)
      ];
}

reclaim-IsCapped :
    (e : Edge) (sess : ℕ) (name : Bytes) (hosts : List Bytes) (primary : Bytes) (ts : List Tunnel)
    → IsCapped e
    → IsCapped (reclaim_and_take e sess name hosts primary ts).0
unfolding reclaim_and_take
reclaim-IsCapped e sess name hosts primary ts c =
    let e' = evict_all e ts in
    let c' = evict_all-IsCapped e ts c in
    elim (Bool-cases (is_full e' sess)) [
      | inl full ↦ rw (full, reclaim_and_take) c'
      | inr room ↦
          rw (room, reclaim_and_take)
            (take_hosts-IsCapped e' sess name hosts (length ts) c' (λ m. ground arith))
    ]

register-IsCapped :
    (e : Edge) (sess : ℕ) (name : Bytes) (reply : Option ScopeHostnames)
    → IsCapped e
    → IsCapped (register e sess name reply).0
register-IsCapped e sess name reply c =
    register_cases (λ (q : Edge × Reply). IsCapped q.0) e sess name reply (λ _. c) (λ _. c)
      (λ _ _. c) λ ts p fresh. reclaim-IsCapped e sess name _ _ ts c

-- A session that keeps its slug and gains no tunnel.
store-IsCapped :
    (e : Edge) (sess : ℕ) (v : Session)
    → v.slug ≡ (e.heap sess).slug
    → length v.names ≤ length (e.heap sess).names
    → IsCapped e
    → (slug : Bytes) → 0 < e.max_tunnels_per_token
    → live_tunnels (store e.heap sess v) slug e.sessions ≤ e.max_tunnels_per_token
store-IsCapped e sess v same fewer c slug m =
    omega (arith, c.capped slug m, live_le e.heap sess v slug e.sessions same fewer)

unregister-IsCapped :
    (e : Edge) (sess : ℕ) (name : Bytes) → IsCapped e → IsCapped (unregister e sess name)
unfolding unregister
unregister-IsCapped e sess name c =
    let (hp, ss, mx) = remove_hosts-sessions e sess (hosts_of e sess name) false in
    record {
      distinct = subst Distinct (sym ss) c.distinct;
      capped = λ slug m.
          let s = e.heap sess in
          let kept =
            store-IsCapped e sess (forget name s) refl (length-remove-le name s.names) c slug
              (subst (λ (k : ℕ). 0 < k) mx m) in
          subst₃
            (λ (h : ℕ → Session) (l : List ℕ) (k : ℕ).
              live_tunnels (store h sess (forget name (h sess))) slug l ≤ k)
            (sym hp) (sym ss) (sym mx) kept;
    }

close_transport-IsCapped : (e : Edge) (sess : ℕ) → IsCapped e → IsCapped (close_transport e sess)
unfolding close_transport
close_transport-IsCapped e sess c = record {
  distinct = c.distinct;
  capped = store-IsCapped e sess (record (e.heap sess) { closed = true }) refl (omega arith) c;
}

drop_session-IsCapped : (e : Edge) (sess : ℕ) → IsCapped e → IsCapped (drop_session e sess)
unfolding drop_session
drop_session-IsCapped e sess c = record {
  distinct = remove-Distinct sess e.sessions c.distinct;
  capped = λ slug m.
      let v : Session = record (e.heap sess) { closed = true } in
      omega (
        arith,
        store-IsCapped e sess v refl (omega arith) c slug m,
        live_remove (store e.heap sess v) sess slug e.sessions,
      );
}

open_session-IsCapped :
    (e : Edge) (sess : ℕ) (slug : Bytes)
    → contains sess e.sessions ≡ false
    → IsCapped e
    → IsCapped (open_session e sess slug)
unfolding open_session
open_session-IsCapped e sess slug fresh c = record {
  distinct = add-Distinct sess e.sessions c.distinct;
  capped = λ k m.
      let v : Session = record { slug = slug; closed = false; names = []; hosts = [] } in
      omega (
        arith,
        c.capped k m,
        live_absent e.heap sess v k e.sessions fresh,
        live_add (store e.heap sess v) sess k e.sessions fresh (ground (arith, eq_refl sess)),
      );
}

Step-IsCapped : {a b : Edge} → IsCapped a → Step a b → IsCapped b
Step-IsCapped {a} c (opens sess slug fresh) = open_session-IsCapped a sess slug fresh c
Step-IsCapped {a} c (registers sess name reply m) = register-IsCapped a sess name reply c
Step-IsCapped {a} c (unregisters sess name) = unregister-IsCapped a sess name c
Step-IsCapped {a} c (closes sess) = close_transport-IsCapped a sess c
Step-IsCapped {a} c (drops sess) = drop_session-IsCapped a sess c

Reach-IsCapped : {a b : Edge} → IsCapped a → Reach a b → IsCapped b
Reach-IsCapped c here = c
Reach-IsCapped c (next r s) = Step-IsCapped (Reach-IsCapped c r) s

-- From an edge with no session, after any sequence of steps, the open sessions of each slug hold
-- together at most as many tunnels as the cap, if there is one.
pub Reach-capped :
    (start e : Edge) (slug : Bytes)
    → start.sessions ≡ []
    → Reach start e
    → 0 < e.max_tunnels_per_token
    → live_tunnels e.heap slug e.sessions ≤ e.max_tunnels_per_token
unfolding live_tunnels
Reach-capped start e slug none_yet steps m = (Reach-IsCapped empty steps).capped slug m
  where
    empty : IsCapped start
    empty = record {
      distinct = subst Distinct (sym none_yet) tt;
      capped = λ k _.
          subst (λ (l : List ℕ). live_tunnels start.heap k l ≤ start.max_tunnels_per_token)
            (sym none_yet) (omega arith);
    }
