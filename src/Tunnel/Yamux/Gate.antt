-- ===== src/Tunnel/Yamux/Gate.antt =====
-- The gate of a yamux session: each slot has its holder, and no release finds the gate empty.
use beamd.Prelude.{
  ℕ, suc, ◌+◌, ◌-◌, ◌≤◌, ◌≡◌, refl, sym, ap, subst, Bool, true, false, not, ◌&&◌, List, [], ◌∷◌,
  Option, none, some, arith, ◌==◌, nat_eq, eq_iff, if◌then◌else◌, if_cases, if_split, Bool-cases,
  ltb, ltb→lt, ◌||◌, lookup, insert, lookup-insert, Option-cases, inl, inr,
}
use beamd.Tunnel.Session.{Session, is_closed, child_done}
use beamd.Tunnel.Yamux.{
  YamuxStream, YamuxSession, ReadError, no_error, eof, connection_reset, session_shutdown,
  other_read_error, OpenError, release_open_slot, end_stream, complete_stream, complete, at_stream,
  locally_closed, put_back, mark_local_closed, mark_remote_done, read, timer_fires, open_begins,
}

abbrev pub held : YamuxStream → ℕ
held y = if y.holds_open_slot && not y.completed then 1 else 0

abbrev pub held_by : Option YamuxStream → ℕ
held_by none = 0
held_by (some y) = held y

-- The streams that hold a slot.
abbrev pub holders : List (ℕ × YamuxStream) → ℕ
holders [] = 0
holders ((id, y) ∷ m) = held y + holders m

pub holders-insert :
    (id : ℕ) (y : YamuxStream) (m : List (ℕ × YamuxStream))
    → holders (insert id y m) + held_by (lookup id m) ≡ holders m + held y
unfolding insert lookup
holders-insert id y [] = omega arith
holders-insert id y ((j, z) ∷ m) = elim (Bool-cases (j == id)) [
  | inl e ↦ rw e (omega arith)
  | inr e ↦ rw e (omega (arith, holders-insert id y m))
]

pub record IsGated (w : YamuxSession) : Type 0 where
  pub counted : w.slots ≡ w.opening + holders w.streams
  pub fits : w.slots ≤ w.limit
  pub calm : w.panicked ≡ false

-- What a stream that is written back has, where it was there before.
pub insert-IsGated :
    (w : YamuxSession) (id : ℕ) (y z : YamuxStream)
    → lookup id w.streams ≡ some z
    → held y ≡ held z
    → IsGated w
    → IsGated (record w { streams = insert id y w.streams })
insert-IsGated w id y z there same g = record {
  counted = omega (arith, g.counted, holders-insert id y w.streams, ap held_by there, same);
  fits = g.fits;
  calm = g.calm;
}

-- The stream's slot is there to be given back.
release-IsGated :
    (w : YamuxSession) (n : ℕ)
    → w.slots ≡ suc n
    → n ≡ w.opening + holders w.streams
    → n ≤ w.limit
    → w.panicked ≡ false
    → IsGated (release_open_slot w)
unfolding release_open_slot
release-IsGated w n some_left counts fits calm = record {
  counted = ground (arith, some_left, counts);
  fits = ground (arith, some_left, fits);
  calm = ground (arith, some_left, calm);
}

held_lem :
    (y : YamuxStream) → held y ≡ (if y.holds_open_slot then (if y.completed then 0 else 1) else 0)
held_lem y = ground arith

ended_holders :
    (id : ℕ) (y : YamuxStream) (m : List (ℕ × YamuxStream))
    → lookup id m ≡ some y
    → holders (insert id (record y { completed = true; timer = false }) m) + held y ≡ holders m
ended_holders id y m there =
    let over = record y { completed = true; timer = false } in
    let count : holders (insert id over m) + held y ≡ holders m + held over =
      subst
        (λ (o : Option YamuxStream). holders (insert id over m) + held_by o ≡ holders m + held over)
        there (holders-insert id over m) in
    ground (arith, count, held_lem over)

end_stream-IsGated :
    (w : YamuxSession) (id : ℕ) (y : YamuxStream)
    → lookup id w.streams ≡ some y
    → y.completed ≡ false
    → IsGated w
    → IsGated (end_stream w id y)
unfolding end_stream
end_stream-IsGated w id y there live g =
    let closed = record w {
      streams = insert id (record y { completed = true; timer = false }) w.streams;
    } in
    let count = ended_holders id y w.streams there in
    if_split IsGated y.holds_open_slot
      (λ holds.
        let one : held y ≡ 1 = rw (holds, live) refl in
        release-IsGated closed (w.slots - 1) (omega (arith, one, count, g.counted))
          (omega (arith, one, count, g.counted)) (omega (arith, g.fits)) g.calm)
      λ free.
        let zero_held : held y ≡ 0 = rw free refl in
        record {
          counted = omega (arith, zero_held, count, g.counted);
          fits = g.fits;
          calm = g.calm;
        }

-- The gate does not depend on the session's own state.
pub with_state :
    (w : YamuxSession) (s : Session) (closed : Bool)
    → IsGated w
    → IsGated (record w { state = s; raw_closed = closed })
with_state w s closed g = record { counted = g.counted; fits = g.fits; calm = g.calm }

pub complete_stream-IsGated :
    (w : YamuxSession) (id : ℕ) (y : YamuxStream)
    → lookup id w.streams ≡ some y
    → IsGated w
    → IsGated (complete_stream w id y)
unfolding complete_stream
complete_stream-IsGated w id y there g =
    if_split IsGated y.completed (λ over. g) (λ live. end_stream-IsGated w id y there live g)

pub complete-IsGated :
    (w : YamuxSession) (id : ℕ) (y : YamuxStream)
    → lookup id w.streams ≡ some y
    → IsGated w
    → IsGated (complete w id y)
unfolding complete
complete-IsGated w id y there g =
    if_split IsGated y.completed (λ over. g)
      λ live.
        with_state (end_stream w id y) (child_done w.state id) (end_stream w id y).raw_closed
          (end_stream-IsGated w id y there live g)

pub lookup_put :
    (id : ℕ) (y : YamuxStream) (m : List (ℕ × YamuxStream)) → lookup id (insert id y m) ≡ some y
lookup_put id y m = ground (arith, lookup-insert id id y m, eq_iff id id)

put_back-IsGated :
    (w : YamuxSession) (id : ℕ) (y z : YamuxStream)
    → lookup id w.streams ≡ some z
    → held y ≡ held z
    → IsGated w
    → IsGated (put_back w id y)
unfolding put_back
put_back-IsGated w id y z there same g =
    let kept = record w { streams = insert id y w.streams } in
    let h = insert-IsGated w id y z there same g in
    if_cases IsGated (y.local_closed && y.remote_done)
      (complete-IsGated kept id y (lookup_put id y w.streams) h) h

held-locally_closed : (y : YamuxStream) → held (locally_closed y) ≡ held y
unfolding locally_closed
held-locally_closed y = if_cases (λ (z : YamuxStream). held z ≡ held y) y.local_closed refl refl

-- What acts on a stream that is there keeps the gate.
abbrev pub Keeps : YamuxSession → ℕ → (YamuxStream → YamuxSession) → Type 0
Keeps w id act = (y : YamuxStream) → lookup id w.streams ≡ some y → IsGated (act y)

pub at_stream-IsGated :
    (w : YamuxSession) (id : ℕ) (act : YamuxStream → YamuxSession)
    → Keeps w id act
    → IsGated w
    → IsGated (at_stream w (lookup id w.streams) act)
at_stream-IsGated w id act keeps g = elim (Option-cases (lookup id w.streams)) [
  | inl e ↦
      subst (λ (o : Option YamuxStream). IsGated (at_stream w o act)) (sym e)
        (unfold at_stream in g)
  | inr e ↦
      subst (λ (o : Option YamuxStream). IsGated (at_stream w o act)) (sym e.1)
        (unfold at_stream in keeps e.0 e.1)
]

pub mark_local_closed-IsGated :
    (w : YamuxSession) (id : ℕ) → IsGated w → Keeps w id (mark_local_closed w id)
unfolding mark_local_closed
mark_local_closed-IsGated w id g y there =
    put_back-IsGated w id (locally_closed y) y there (held-locally_closed y) g

pub read-IsGated :
    (w : YamuxSession) (id : ℕ) (e : ReadError) → IsGated w → Keeps w id (λ y. read w id y e)
unfolding read mark_remote_done
read-IsGated w id eof g y there =
    put_back-IsGated w id (record y { remote_done = true }) y there refl g
read-IsGated w id connection_reset g y there =
    put_back-IsGated w id (record y { remote_done = true }) y there refl g
read-IsGated w id no_error g y there = g
read-IsGated w id session_shutdown g y there = g
read-IsGated w id other_read_error g y there = g

pub timer_fires-IsGated : (w : YamuxSession) (id : ℕ) → IsGated w → Keeps w id (timer_fires w id)
unfolding timer_fires
timer_fires-IsGated w id g y there = if_cases IsGated y.timer (complete-IsGated w id y there g) g

pub open_begins-IsGated :
    (w : YamuxSession) (expired : Bool) (waited : OpenError)
    → IsGated w
    → IsGated (open_begins w expired waited).0
unfolding open_begins
open_begins-IsGated w expired waited g =
    let P : YamuxSession × Option OpenError → Type 0 = λ o. IsGated o.0 in
    if_cases P expired g (
      if_cases P (is_closed w.state || w.raw_closed) g (
        if_split P (ltb w.slots w.limit)
          (λ room. record {
            counted = omega (arith, g.counted);
            fits = omega (arith, ltb→lt w.slots w.limit room);
            calm = g.calm;
          })
          λ full. g))
