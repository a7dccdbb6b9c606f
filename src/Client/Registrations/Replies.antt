-- ===== src/Client/Registrations/Replies.antt =====
-- A register gets no reply that names another.
use beamd.Prelude.{
  ◌≡◌, ◌⊎◌, inl, inr, ◌∙◌, codes, Bool-cases, refl, sym, ap, subst, true, false, not, ◌&&◌, List,
  [], ◌∷◌, Option, none, some, Bytes, is_empty, arith, ◌==◌, nat_eq, list_eq, eq_iff, if_cases,
  if_split, All, Any,
}
use beamd.Client.Registrations.{
  ControlMsg, registered, error, unexpected, Reply, url, refused, Pending, Control, on_registered,
  on_error, note_shutdown, handle_control,
}

-- The control state after some messages, the last one first.
abbrev pub after : Control → List ControlMsg → Control
after c [] = c
after c (m ∷ earlier) = handle_control (after c earlier) m

-- The message that a reply to a register of the name comes from.
abbrev pub Answers : Bytes → Reply → ControlMsg → Type 0
Answers name (url address) m = m ≡ registered name address
Answers name (refused code text) m = (n : Bytes) × (m ≡ error code n text) × ((n ≡ []) ⊎ (n ≡ name))

-- Each reply in the channel answers this register.
abbrev pub AllAnswers : Bytes → List ControlMsg → Option Pending → Type 0
AllAnswers name ms none = Unit
AllAnswers name ms (some p) = (p.name ≡ name) × All (λ r. Any (Answers name r) ms) p.replies

older :
    (name : Bytes) (m : ControlMsg) (ms : List ControlMsg) (rs : List Reply)
    → All (λ r. Any (Answers name r) ms) rs
    → All (λ r. Any (Answers name r) (m ∷ ms)) rs
older name m ms [] h = tt
older name m ms (r ∷ rs) h = (inr h.0, older name m ms rs h.1)

weaken :
    (name : Bytes) (m : ControlMsg) (ms : List ControlMsg) (o : Option Pending)
    → AllAnswers name ms o
    → AllAnswers name (m ∷ ms) o
weaken name m ms none h = tt
weaken name m ms (some p) h = (h.0, older name m ms p.replies h.1)

registered-AllAnswers :
    (c : Control) (o : Option Pending) (name n address : Bytes) (ms : List ControlMsg)
    → c.pending ≡ o
    → AllAnswers name ms o
    → AllAnswers name (registered n address ∷ ms) (on_registered c o n address).pending
unfolding on_registered
registered-AllAnswers c none name n address ms at h =
    subst (AllAnswers name (registered n address ∷ ms)) (sym at) tt
registered-AllAnswers c (some p) name n address ms at h =
    if_split (λ (d : Control). AllAnswers name (registered n address ∷ ms) d.pending) (p.name == n)
      (λ same. (
        h.0,
        (
          inl (ap (λ (t : Bytes). registered t address) (sym ((eq_iff p.name n).0 same) ∙ h.0)),
          older name (registered n address) ms p.replies h.1,
        ),
      ))
      (λ other.
        subst (AllAnswers name (registered n address ∷ ms)) (sym at)
          (weaken name (registered n address) ms (some p) h))

blank : (n : Bytes) → is_empty n ≡ true → n ≡ []
blank [] h = refl
blank (b ∷ n) h = ground arith

own_or_none :
    (n name : Bytes) → (not (is_empty n) && not (n == name)) ≡ false → (n ≡ []) ⊎ (n ≡ name)
own_or_none n name h = elim (Bool-cases (is_empty n)) [
  | inl e ↦ inl (blank n e)
  | inr e ↦ inr ((eq_iff n name).0 (ground (arith, h, e)))
]

error-AllAnswers :
    (c : Control) (o : Option Pending) (name code n text : Bytes) (ms : List ControlMsg)
    → c.pending ≡ o
    → AllAnswers name ms o
    → AllAnswers name (error code n text ∷ ms) (on_error c o code n text).pending
unfolding on_error
error-AllAnswers c none name code n text ms at h =
    subst (AllAnswers name (error code n text ∷ ms)) (sym at) tt
error-AllAnswers c (some p) name code n text ms at h =
    if_split (λ (d : Control). AllAnswers name (error code n text ∷ ms) d.pending)
      (not (is_empty n) && not (n == p.name))
      (λ other.
        subst (AllAnswers name (error code n text ∷ ms)) (sym at)
          (weaken name (error code n text) ms (some p) h))
      (λ own. (
        h.0,
        (
          inl (n, refl, subst (λ (t : Bytes). (n ≡ []) ⊎ (n ≡ t)) h.0 (own_or_none n p.name own)),
          older name (error code n text) ms p.replies h.1,
        ),
      ))

shutdown_pending :
    (c : Control) (code text : Bytes) → (note_shutdown c code text).pending ≡ c.pending
unfolding note_shutdown
shutdown_pending c code text =
    if_cases (λ (d : Control). d.pending ≡ c.pending) (code == codes "shutdown") refl refl

handle-AllAnswers :
    (c : Control) (name : Bytes) (m : ControlMsg) (ms : List ControlMsg)
    → AllAnswers name ms c.pending
    → AllAnswers name (m ∷ ms) (handle_control c m).pending
unfolding handle_control
handle-AllAnswers c name (registered n address) ms h =
    registered-AllAnswers c c.pending name n address ms refl h
handle-AllAnswers c name (error code n text) ms h =
    error-AllAnswers (note_shutdown c code text) c.pending name code n text ms
      (shutdown_pending c code text) h
handle-AllAnswers c name unexpected ms h = weaken name unexpected ms c.pending h

-- While one register is in flight, whatever the edge sends: each reply that the register is given is the
-- URL of a message that names it, or an error that names it or none. A late reply that names another
-- register never reaches it.
pub after-AllAnswers :
    (c : Control) (name : Bytes) (ms : List ControlMsg)
    → c.pending ≡ some (record { name = name; replies = [] })
    → AllAnswers name ms (after c ms).pending
after-AllAnswers c name [] fresh = subst (AllAnswers name []) (sym fresh) (refl, tt)
after-AllAnswers c name (m ∷ ms) fresh =
    handle-AllAnswers (after c ms) name m ms (after-AllAnswers c name ms fresh)
