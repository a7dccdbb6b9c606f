-- ===== src/Client/Registrations/Rollback.antt =====
-- A register that fails leaves nothing behind.
use beamd.Prelude.{
  ◌≡◌, ◌∙◌, refl, sym, true, false, List, [], ◌∷◌, Option, none, some, Bytes, arith, ◌==◌, nat_eq,
  list_eq, eq_iff, if◌then◌else◌, lookup, lookup-insert, lookup-erase, All, subst, if_split,
}
use beamd.Prelude.Int.{ℤ, pos, negsuc}
use beamd.Client.Registrations.{
  Intended, intend, roll_back, rolled_back, drop_intended, same_port, restore_port,
}

-- What other calls do to the intended state while a register waits.
pub data Change : Type 0 where
  intends : Bytes → ℤ → Change
  drops : Bytes → Change

abbrev pub name_of : Change → Bytes
name_of (intends name port) = name
name_of (drops name) = name

abbrev pub change : Intended → Change → Intended
change m (intends name port) = intend m name port
change m (drops name) = drop_intended m name

abbrev pub changed : Intended → List Change → Intended
changed m [] = m
changed m (c ∷ cs) = changed (change m c) cs

-- None of the changes is of the name.
abbrev pub Others : Bytes → List Change → Type 0
Others name = All (λ c. (name_of c == name) ≡ false)

change-other :
    (name : Bytes) (m : Intended) (c : Change)
    → (name_of c == name) ≡ false
    → lookup name (change m c) ≡ lookup name m
unfolding intend drop_intended
change-other name m (intends other port) h = ground (arith, lookup-insert other name port m, h)
change-other name m (drops other) h = ground (arith, lookup-erase other name m, h)

changed-other :
    (name : Bytes) (m : Intended) (cs : List Change)
    → Others name cs
    → lookup name (changed m cs) ≡ lookup name m
changed-other name m [] h = refl
changed-other name m (c ∷ cs) h = changed-other name (change m c) cs h.1 ∙ change-other name m c h.0

same_port_refl : (p : ℤ) → same_port p p ≡ true
same_port_refl (pos n) = ground (arith)
same_port_refl (negsuc n) = ground (arith)

restore_port-lookup :
    (m : Intended) (name other : Bytes) (previous : Option ℤ)
    → lookup other (restore_port m name previous)
      ≡ (if name == other then previous else lookup other m)
unfolding restore_port
restore_port-lookup m name other none = lookup-erase name other m
restore_port-lookup m name other (some p) = lookup-insert name other p m

rolled :
    (m : Intended) (name other : Bytes) (port : ℤ) (previous : Option ℤ)
    → lookup name m ≡ some port
    → lookup other (roll_back m name port previous)
      ≡ (if name == other then previous else lookup other m)
unfolding roll_back
rolled m name other port previous at =
    subst
      (λ (o : Option ℤ).
        lookup other (rolled_back m name port previous o)
        ≡ (if name == other then previous else lookup other m))
      (sym at)
      (unfold rolled_back in
        if_split
          (λ (n : Intended). lookup other n ≡ (if name == other then previous else lookup other m))
          (same_port port port) (λ same. restore_port-lookup m name other previous)
          (λ differs. ground (arith, same_port_refl port, differs)))

-- A register that fails, with other registers and unregisters of other names going on while it waits:
-- afterwards its own name is intended as it was before the call, and every other name as those calls
-- have left it.
pub roll_back-intend :
    (m : Intended) (name other : Bytes) (port : ℤ) (cs : List Change)
    → Others name cs
    → lookup other (roll_back (changed (intend m name port) cs) name port (lookup name m))
      ≡ (if name == other then lookup name m else lookup other (changed (intend m name port) cs))
roll_back-intend m name other port cs others =
    rolled (changed (intend m name port) cs) name other port (lookup name m)
      (changed-other name (intend m name port) cs others ∙ own m)
  where
    own : (n : Intended) → lookup name (intend n name port) ≡ some port
    own n = unfold intend in ground (arith, lookup-insert name name port n, eq_iff name name)
