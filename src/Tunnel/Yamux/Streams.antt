-- ===== src/Tunnel/Yamux/Streams.antt =====
-- The life of one yamux stream: it is completed where both directions are over, or by its timer.
use beamd.Prelude.{
  ℕ, ◌≡◌, refl, sym, subst, Bool, true, false, not, ◌&&◌, ◌||◌, List, Option, some, arith, ◌==◌,
  nat_eq, if_cases, if_split, lookup, insert, lookup-insert, Option-cases, Bool-cases, inl, inr,
}
use beamd.Tunnel.Session.{register}
use beamd.Tunnel.Yamux.{
  YamuxStream, YamuxSession, ReadError, no_error, eof, connection_reset, session_shutdown,
  other_read_error, OpenError, release_open_slot, new_yamux_stream, end_stream, complete_stream,
  complete, at_stream, locally_closed, put_back, mark_local_closed, mark_remote_done, read,
  timer_fires, register_yamux_stream,
}
use beamd.Tunnel.Yamux.Gate.{lookup_put}

-- A timer is armed for a stream that is not completed, and for each that waits for its peer.
abbrev pub ready : YamuxStream → Bool
ready y =
    (not y.timer || not y.completed)
    && (not y.local_closed || y.remote_done || y.completed || y.timer)

-- And a stream whose directions are both over is completed.
abbrev pub settled : YamuxStream → Bool
settled y = ready y && (not y.local_closed || not y.remote_done || y.completed)

abbrev pub AllSettled : List (ℕ × YamuxStream) → Type 0
AllSettled m = (id : ℕ) (y : YamuxStream) → lookup id m ≡ some y → settled y ≡ true

-- All but one, that may yet have to be completed.
abbrev AllBut : ℕ → List (ℕ × YamuxStream) → Type 0
AllBut id m =
    (other : ℕ) (y : YamuxStream)
    → (id == other) ≡ false
    → lookup other m ≡ some y
    → settled y ≡ true

insert-AllSettled :
    (id : ℕ) (y : YamuxStream) (m : List (ℕ × YamuxStream))
    → settled y ≡ true
    → AllBut id m
    → AllSettled (insert id y m)
insert-AllSettled id y m h all other z there = elim (Bool-cases (id == other)) [
  | inl same ↦ ground (arith, lookup-insert id other y m, h, same, there)
  | inr differs ↦ all other z differs (ground (arith, lookup-insert id other y m, differs, there))
]

insert-AllBut :
    (id : ℕ) (y : YamuxStream) (m : List (ℕ × YamuxStream))
    → AllSettled m
    → AllBut id (insert id y m)
insert-AllBut id y m all other z differs there =
    all other z (ground (arith, lookup-insert id other y m, differs, there))

end_stream-AllSettled :
    (w : YamuxSession) (id : ℕ) (y : YamuxStream)
    → AllBut id w.streams
    → AllSettled (end_stream w id y).streams
unfolding end_stream release_open_slot
end_stream-AllSettled w id y all =
    let over = record y { completed = true; timer = false } in
    let h = insert-AllSettled id over w.streams (ground arith) all in
    if_cases (λ (v : YamuxSession). AllSettled v.streams) y.holds_open_slot
      (if_cases (λ (v : YamuxSession). AllSettled v.streams) (w.slots == 0) h h) h

complete-AllSettled :
    (w : YamuxSession) (id : ℕ) (y : YamuxStream)
    → (y.completed ≡ true → AllSettled w.streams)
    → AllBut id w.streams
    → AllSettled (complete w id y).streams
unfolding complete
complete-AllSettled w id y done all =
    if_split (λ (v : YamuxSession). AllSettled v.streams) y.completed done
      (λ live. end_stream-AllSettled w id y all)

all_but : (id : ℕ) (m : List (ℕ × YamuxStream)) → AllSettled m → AllBut id m
all_but id m all other y differs there = all other y there

put_back-AllSettled :
    (w : YamuxSession) (id : ℕ) (y : YamuxStream)
    → ready y ≡ true
    → AllSettled w.streams
    → AllSettled (put_back w id y).streams
unfolding put_back
put_back-AllSettled w id y h all =
    let kept = record w { streams = insert id y w.streams } in
    if_split (λ (v : YamuxSession). AllSettled v.streams) (y.local_closed && y.remote_done)
      (λ both.
        complete-AllSettled kept id y
          (λ done.
            insert-AllSettled id y w.streams (ground (arith, h, done)) (all_but id w.streams all))
          (insert-AllBut id y w.streams all))
      λ open_.
        insert-AllSettled id y w.streams (ground (arith, h, open_)) (all_but id w.streams all)

ready-locally_closed : (y : YamuxStream) → settled y ≡ true → ready (locally_closed y) ≡ true
unfolding locally_closed
ready-locally_closed y h = ground (arith, h)

-- What acts on a stream that is there keeps all of them settled.
abbrev pub Keeps : YamuxSession → ℕ → (YamuxStream → YamuxSession) → Type 0
Keeps w id act = (y : YamuxStream) → lookup id w.streams ≡ some y → AllSettled (act y).streams

pub at_stream-AllSettled :
    (w : YamuxSession) (id : ℕ) (act : YamuxStream → YamuxSession)
    → Keeps w id act
    → AllSettled w.streams
    → AllSettled (at_stream w (lookup id w.streams) act).streams
at_stream-AllSettled w id act keeps g = elim (Option-cases (lookup id w.streams)) [
  | inl e ↦
      subst (λ (o : Option YamuxStream). AllSettled (at_stream w o act).streams) (sym e)
        (unfold at_stream in g)
  | inr e ↦
      subst (λ (o : Option YamuxStream). AllSettled (at_stream w o act).streams) (sym e.1)
        (unfold at_stream in keeps e.0 e.1)
]

pub close-Keeps :
    (w : YamuxSession) (id : ℕ) → AllSettled w.streams → Keeps w id (mark_local_closed w id)
unfolding mark_local_closed
close-Keeps w id all y there =
    put_back-AllSettled w id (locally_closed y) (ready-locally_closed y (all id y there)) all

remote-Keeps :
    (w : YamuxSession) (id : ℕ) → AllSettled w.streams → Keeps w id (mark_remote_done w id)
unfolding mark_remote_done
remote-Keeps w id all y there =
    put_back-AllSettled w id (record y { remote_done = true }) (ground (arith, all id y there)) all

pub read-Keeps :
    (w : YamuxSession) (id : ℕ) (e : ReadError)
    → AllSettled w.streams
    → Keeps w id (λ y. read w id y e)
unfolding read
read-Keeps w id eof all y there = remote-Keeps w id all y there
read-Keeps w id connection_reset all y there = remote-Keeps w id all y there
read-Keeps w id no_error all y there = all
read-Keeps w id session_shutdown all y there = all
read-Keeps w id other_read_error all y there = all

pub complete-Keeps : (w : YamuxSession) (id : ℕ) → AllSettled w.streams → Keeps w id (complete w id)
complete-Keeps w id all y there =
    complete-AllSettled w id y (λ done. all) (all_but id w.streams all)

pub timer-Keeps : (w : YamuxSession) (id : ℕ) → AllSettled w.streams → Keeps w id (timer_fires w id)
unfolding timer_fires
timer-Keeps w id all y there =
    if_cases (λ (v : YamuxSession). AllSettled v.streams) y.timer (complete-Keeps w id all y there)
      all

pub complete_stream-Keeps :
    (w : YamuxSession) (id : ℕ) → AllSettled w.streams → Keeps w id (complete_stream w id)
unfolding complete_stream
complete_stream-Keeps w id all y there =
    if_cases (λ (v : YamuxSession). AllSettled v.streams) y.completed all
      (end_stream-AllSettled w id y (all_but id w.streams all))

pub register-AllSettled :
    (w : YamuxSession) (id : ℕ) (holds : Bool)
    → AllSettled w.streams
    → AllSettled (register_yamux_stream w id holds).0.streams
unfolding register_yamux_stream
register-AllSettled w id holds all =
    let fresh = new_yamux_stream holds in
    let put = record w { state = (register w.state id).0; streams = insert id fresh w.streams } in
    let h : AllSettled put.streams =
      insert-AllSettled id fresh w.streams (unfold new_yamux_stream in refl)
        (all_but id w.streams all) in
    let aborted = mark_local_closed put id fresh in
    let k : AllSettled aborted.streams =
      close-Keeps put id h fresh (lookup_put id fresh w.streams) in
    if_cases (λ (o : YamuxSession × Option OpenError). AllSettled o.0.streams)
      (register w.state id).1 h
      (at_stream-AllSettled aborted id (complete aborted id) (complete-Keeps aborted id k) k)
