-- ===== src/Edge/Streams/Holdings.antt =====
-- What each phase of a request holds, and how its steps change that.
use beamd.Prelude.{
  ℕ, ◌+◌, ◌≤◌, ◌≡◌, ◌∙◌, refl, Bool, true, false, ◌&&◌, List, [], ◌∷◌, Option, none, some, arith,
  Bytes, ltb, ltb→lt, ◌==◌, nat_eq, list_eq, eq_iff, if◌then◌else◌, if_cases, if_split, ap,
}
use beamd.Prelude.Int.{pos, ◌+ℤ◌, ◌-ℤ◌}
use beamd.Edge.Streams.{
  Pointer, Streams, StreamError, capacity, Phase, captured, wants_global, wants_session,
  session_full, wants_active, leased, current, opening, writing, streaming, releasing, gave_session,
  gave_slots, leaving, take_global_slot, take_session_slot, give_global_slot, give_session_slot,
  add_active, drop_active, reserve_stream_watcher, release_stream_watcher, granted, StreamRequest,
  moved_to,
}

-- What a request holds in each phase: a global slot, a slot of its session, a place in the gauge of the
-- session, and a watcher.
pub record Holding : Type 0 where
  pub global : Bool
  pub slot : Bool
  pub counted : Bool
  pub watcher : Bool

abbrev only_watcher : Holding
only_watcher = record { global = false; slot = false; counted = false; watcher = true }

abbrev with_global : Holding
with_global = record { global = true; slot = false; counted = false; watcher = true }

abbrev everything : Holding
everything = record { global = true; slot = true; counted = true; watcher = true }

abbrev pub holding : Phase → Holding
holding captured = record { global = false; slot = false; counted = false; watcher = false }
holding wants_global = only_watcher
holding wants_session = with_global
holding session_full = with_global
holding wants_active = record { global = true; slot = true; counted = false; watcher = true }
holding leased = everything
holding current = everything
holding opening = everything
holding writing = everything
holding (streaming why) = everything
holding (releasing why) = everything
holding (gave_session why) = record { global = true; slot = false; counted = true; watcher = true }
holding (gave_slots why) = record { global = false; slot = false; counted = true; watcher = true }
holding (leaving why) = only_watcher

abbrev pub count : (StreamRequest → Bool) → List StreamRequest → ℕ
count f [] = 0
count f (r ∷ rs) = (if f r then 1 else 0) + count f rs

abbrev pub is_of : ℕ → StreamRequest → Bool
is_of t r = r.pointer.route.session == t

abbrev pub on_global : StreamRequest → Bool
on_global r = (holding r.phase).global

abbrev pub on_slot : ℕ → StreamRequest → Bool
on_slot t r = is_of t r && (holding r.phase).slot

abbrev pub on_gauge : ℕ → StreamRequest → Bool
on_gauge t r = is_of t r && (holding r.phase).counted

abbrev pub on_watcher : ℕ → StreamRequest → Bool
on_watcher t r = is_of t r && (holding r.phase).watcher

-- What is taken is what the requests hold, those of two lists.
pub record Shares (ahead rs : List StreamRequest) (s : Streams) : Type 0 where
  pub global : s.global_slots ≡ count on_global ahead + count on_global rs
  pub per_session : (t : ℕ) → s.session_slots t ≡ count (on_slot t) ahead + count (on_slot t) rs
  pub gauge : (t : ℕ) → s.active t ≡ pos (count (on_gauge t) ahead + count (on_gauge t) rs)
  pub watched : (t : ℕ) → s.watchers t ≡ count (on_watcher t) ahead + count (on_watcher t) rs
  pub fits : s.global_slots ≤ s.global_cap
  pub session_fits : (t : ℕ) → s.session_slots t ≤ s.session_cap t

pos_suc : (n : ℕ) → pos n +ℤ pos 1 ≡ pos (n + 1)
unfolding ◌+ℤ◌
pos_suc n = ground arith

pos_pred : (n : ℕ) → pos (n + 1) -ℤ pos 1 ≡ pos n
unfolding ◌-ℤ◌
pos_pred n = ground arith

-- A request whose phase changes, with what changes of the state.
abbrev pub Moves :
    List StreamRequest → List StreamRequest → StreamRequest → Streams × Option Phase → Type 0
Moves ahead rs r out = Shares ahead (moved_to r out.1 rs) out.0

module _ (ahead rs : List StreamRequest) (s : Streams) (host : Bytes) (p : Pointer) where
  -- This request, in a phase.
  abbrev pub at : Phase → StreamRequest
  at phase = record { host = host; pointer = p; phase = phase }

  -- A move that takes and gives nothing.
  pub same_holding :
      (a b : Phase)
      → holding a ≡ holding b
      → Shares ahead (at a ∷ rs) s
      → Shares ahead (at b ∷ rs) s
  same_holding a b e h = record {
    global = ground (arith, h.global, ap (λ (x : Holding). x.global) e);
    per_session = λ t. ground (arith, h.per_session t, ap (λ (x : Holding). x.slot) e);
    gauge = λ t. h.gauge t ∙ ap pos (ground (arith, ap (λ (x : Holding). x.counted) e));
    watched = λ t. ground (arith, h.watched t, ap (λ (x : Holding). x.watcher) e);
    fits = h.fits;
    session_fits = h.session_fits;
  }

  pub reserve-Moves :
      Shares ahead (at captured ∷ rs) s
      → Moves ahead rs
          (at captured)
          (granted s (reserve_stream_watcher s p.route.session) wants_global none)
  unfolding reserve_stream_watcher
  reserve-Moves h =
      if_cases (λ o. Moves ahead rs (at captured) (granted s o wants_global none))
        (s.closing p.route.session)
        (record {
          global = ground (arith, h.global);
          per_session = λ t. ground (arith, h.per_session t);
          gauge = λ t. h.gauge t ∙ ap pos (ground arith);
          watched = λ t. ground (arith, h.watched t);
          fits = h.fits;
          session_fits = h.session_fits;
        })
        (record {
          global = ground (arith, h.global);
          per_session = λ t. ground (arith, h.per_session t);
          gauge = λ t. h.gauge t ∙ ap pos (ground arith);
          watched = λ t. ground (arith, h.watched t, eq_iff p.route.session t);
          fits = h.fits;
          session_fits = h.session_fits;
        })

  pub take_global-Moves :
      Shares ahead (at wants_global ∷ rs) s
      → Moves ahead rs
          (at wants_global)
          (granted s (take_global_slot s) wants_session (some (leaving (some capacity))))
  unfolding take_global_slot
  take_global-Moves h =
      if_split
        (λ o.
          Moves ahead rs (at wants_global)
            (granted s o wants_session (some (leaving (some capacity)))))
        (ltb s.global_slots s.global_cap)
        (λ room. record {
          global = omega (arith, h.global);
          per_session = h.per_session;
          gauge = h.gauge;
          watched = h.watched;
          fits = omega (arith, ltb→lt s.global_slots s.global_cap room);
          session_fits = h.session_fits;
        })
        (λ full. same_holding wants_global (leaving (some capacity)) refl h)

  pub take_session-Moves :
      Shares ahead (at wants_session ∷ rs) s
      → Moves ahead rs
          (at wants_session)
          (granted s (take_session_slot s p.route.session) wants_active (some session_full))
  unfolding take_session_slot
  take_session-Moves h =
      if_split
        (λ o. Moves ahead rs (at wants_session) (granted s o wants_active (some session_full)))
        (ltb (s.session_slots p.route.session) (s.session_cap p.route.session))
        (λ room. record {
          global = h.global;
          per_session = λ t. ground (arith, h.per_session t, eq_iff p.route.session t);
          gauge = h.gauge;
          watched = h.watched;
          fits = h.fits;
          session_fits = λ t. ground (arith, h.session_fits t, eq_iff p.route.session t, room);
        })
        (λ full. same_holding wants_session session_full refl h)

  pub give_global-Moves :
      (a b : Phase)
      → (holding a).global ≡ true
      → record (holding a) { global = false } ≡ holding b
      → Shares ahead (at a ∷ rs) s
      → Shares ahead (at b ∷ rs) (give_global_slot s)
  unfolding give_global_slot
  give_global-Moves a b has e h = record {
    global = ground (arith, h.global, has, ap (λ (x : Holding). x.global) e);
    per_session = λ t. ground (arith, h.per_session t, ap (λ (x : Holding). x.slot) e);
    gauge = λ t. h.gauge t ∙ ap pos (ground (arith, ap (λ (x : Holding). x.counted) e));
    watched = λ t. ground (arith, h.watched t, ap (λ (x : Holding). x.watcher) e);
    fits = omega (arith, h.fits);
    session_fits = h.session_fits;
  }

  pub give_session-Moves :
      (why : Option StreamError)
      → Shares ahead (at (releasing why) ∷ rs) s
      → Shares ahead (at (gave_session why) ∷ rs) (give_session_slot s p.route.session)
  unfolding give_session_slot
  give_session-Moves why h = record {
    global = h.global;
    per_session = λ t. ground (arith, h.per_session t, eq_iff p.route.session t);
    gauge = h.gauge;
    watched = h.watched;
    fits = h.fits;
    session_fits = λ t. ground (arith, h.session_fits t, eq_iff p.route.session t);
  }

  pub add_active-Moves :
      Shares ahead (at wants_active ∷ rs) s
      → Shares ahead (at leased ∷ rs) (add_active s p.route.session)
  unfolding add_active
  add_active-Moves h = record {
    global = h.global;
    per_session = h.per_session;
    gauge = λ t. ground (
      arith,
      h.gauge t,
      eq_iff p.route.session t,
      pos_suc (count (on_gauge t) ahead + count (on_gauge t) rs),
    );
    watched = h.watched;
    fits = h.fits;
    session_fits = h.session_fits;
  }

  pub drop_active-Moves :
      (why : Option StreamError)
      → Shares ahead (at (gave_slots why) ∷ rs) s
      → Shares ahead (at (leaving why) ∷ rs) (drop_active s p.route.session)
  unfolding drop_active
  drop_active-Moves why h = record {
    global = h.global;
    per_session = h.per_session;
    gauge = λ t. ground (
      arith,
      h.gauge t,
      eq_iff p.route.session t,
      pos_pred (count (on_gauge t) ahead + count (on_gauge t) rs),
    );
    watched = h.watched;
    fits = h.fits;
    session_fits = h.session_fits;
  }

  pub release_watcher-Moves :
      (why : Option StreamError)
      → Shares ahead (at (leaving why) ∷ rs) s
      → Shares ahead rs (release_stream_watcher s p.route.session)
  unfolding release_stream_watcher
  release_watcher-Moves why h = record {
    global = omega (arith, h.global);
    per_session = λ t. ground (arith, h.per_session t);
    gauge = λ t. h.gauge t ∙ ap pos (ground arith);
    watched = λ t. ground (arith, h.watched t, eq_iff p.route.session t);
    fits = h.fits;
    session_fits = h.session_fits;
  }
