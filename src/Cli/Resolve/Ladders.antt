-- ===== src/Cli/Resolve/Ladders.antt =====
-- The label and the port of a command are always valid, and a dangling current account is passed over.
use beamd.Prelude.{
  ℕ, ◌≤◌, ◌≡◌, refl, true, false, not, List, Option, none, some, Bytes, is_empty, arith, nat_eq,
  list_eq, if_cases, if_split, lookup, ◌||◌, is_none,
}
use beamd.Prelude.Int.{ℤ, pos, negsuc}
use beamd.Naming.{NameError, validate_label, label_from_port}
use beamd.Naming.Derive.{Derived, ok, err, derive_label}
use beamd.Naming.Derive.Valid.{IsHexDigest, derive_label-valid, label_from_port-valid}
use beamd.Config.Accounts.{Account, Directory, account_exists}
use beamd.Config.Project.{Project}
use beamd.Cli.Resolve.{
  Addresses, Flags, Global, normalize_server_addr, select_account, named, literal, service_target,
  rung, resolve_label, effective_label, is_port, Target, target, bad_service_label,
  bad_service_port, bad_port, port_target, resolve_open_target, at_target, open_target, services_of,
}

-- A label that comes out is valid.
abbrev pub Valid : Derived → Type 0
Valid (ok r) = validate_label r ≡ none
Valid (err e) = Unit

named-Valid : (name : Bytes) (o : Option NameError) → validate_label name ≡ o → Valid (named name o)
named-Valid name none e = e
named-Valid name (some bad) e = tt

literal-Valid : (name : Bytes) → Valid (literal name)
unfolding literal
literal-Valid name = named-Valid name (validate_label name) refl

rung-Valid :
    (derive : Bytes → Derived) (name from : Bytes) (below : Derived)
    → ((source : Bytes) → Valid (derive source))
    → Valid below
    → Valid (rung derive name from below)
unfolding rung
rung-Valid derive name from below sound h =
    if_cases Valid (not (is_empty name)) (literal-Valid name)
      (if_cases Valid (not (is_empty from)) (sound from) h)

resolve_label-Valid :
    (derive : Bytes → Derived) (as_flag from_flag : Bytes) (project : Option Project)
    (global : Option Global) (port : ℕ)
    → ((source : Bytes) → Valid (derive source))
    → port ≤ 65535
    → Valid (resolve_label derive as_flag from_flag project global (pos port))
unfolding resolve_label
resolve_label-Valid derive as_flag from_flag project global port sound small =
    rung-Valid derive as_flag from_flag (of_project project) sound (project-Valid project)
  where
    of_global : Option Global → Derived
    of_global g = elim g [
      | none ↦ ok (label_from_port (pos port))
      | some g ↦ rung derive g.default_name g.default_from (ok (label_from_port (pos port)))
    ]

    of_project : Option Project → Derived
    of_project p = elim p [
      | none ↦ of_global global
      | some p ↦ rung derive p.name p.from (of_global global)
    ]

    global-Valid : (g : Option Global) → Valid (of_global g)
    global-Valid none = label_from_port-valid port small
    global-Valid (some g) =
        rung-Valid derive g.default_name g.default_from (ok (label_from_port (pos port))) sound
          (label_from_port-valid port small)

    project-Valid : (p : Option Project) → Valid (of_project p)
    project-Valid none = global-Valid global
    project-Valid (some p) =
        rung-Valid derive p.name p.from (of_global global) sound (global-Valid global)

-- A port that is one, with a label that is empty or valid.
abbrev pub Usable : Target → Type 0
Usable (target n label) =
    (is_port n ≡ true) × ((is_empty label || is_none (validate_label label)) ≡ true)
Usable (bad_service_label e) = Unit
Usable (bad_service_port n) = Unit
Usable bad_port = Unit

service-Usable :
    (arg : Bytes) (port : ℤ) (o : Option NameError)
    → validate_label arg ≡ o
    → Usable (service_target arg port o)
service-Usable arg port (some bad) e = tt
service-Usable arg port none e =
    if_split Usable (is_port port) (λ in_range. (in_range, ground (arith, e))) (λ out. tt)

port-Usable : (o : Option ℤ) → Usable (port_target o)
port-Usable none = tt
port-Usable (some n) = if_split Usable (is_port n) (λ in_range. (in_range, refl)) (λ out. tt)

-- What `beamd open` exposes, whatever its argument: a service of the project or a port.
pub resolve_open_target-Usable :
    (atoi : Bytes → Option ℤ) (arg : Bytes) (project : Option Project)
    → Usable (resolve_open_target atoi arg project)
unfolding resolve_open_target
resolve_open_target-Usable atoi arg project =
    elim (lookup arg (services_of project))
      as (λ o. Usable (elim o [
        | none ↦ port_target (atoi arg)
        | some port ↦ service_target arg port (validate_label arg)
      ])) [
        | none ↦ port-Usable (atoi arg)
        | some port ↦ service-Usable arg port (validate_label arg) refl
      ]

-- A port of 1 to 65535 and a valid label, or no tunnel.
abbrev pub OpensValid : Option (ℤ × Derived) → Type 0
OpensValid none = Unit
OpensValid (some o) = (is_port o.0 ≡ true) × Valid o.1

at_target-OpensValid :
    (derive : ℤ → Bytes → Derived) (as_flag from_flag : Bytes) (project : Option Project)
    (global : Option Global) (t : Target)
    → ((port : ℕ) (source : Bytes) → port ≤ 65535 → Valid (derive (pos port) source))
    → Usable t
    → OpensValid (at_target derive as_flag from_flag project global t)
unfolding at_target
at_target-OpensValid derive as_flag from_flag project global (target (pos n) label) sound u =
    let small : n ≤ 65535 = ground (arith, u.0) in
    (
      u.0,
      resolve_label-Valid (derive (pos n)) (effective_label as_flag from_flag label) from_flag
          project global n (λ source. sound n source small) small,
    )
at_target-OpensValid derive as_flag from_flag project global (target (negsuc n) label) sound u =
    ground (arith, u.0)
at_target-OpensValid derive as_flag from_flag project global (bad_service_label e) sound u = tt
at_target-OpensValid derive as_flag from_flag project global (bad_service_port n) sound u = tt
at_target-OpensValid derive as_flag from_flag project global bad_port sound u = tt

-- Whatever the argument, the flags, the project and the global file: where `beamd open` goes on to open a
-- tunnel, its port is one of 1 to 65535, and its label, given, derived or by default, is a valid tunnel
-- name. The digest of a text is taken to be 64 hex digits.
pub open_target-OpensValid :
    (lower_rune : ℕ → ℕ) (hex_digest : Bytes → Bytes) (hd : IsHexDigest hex_digest)
    (git : List Bytes → Option Bytes) (base_name abs_clean : Bytes → Bytes) (cwd : Bytes)
    (atoi : Bytes → Option ℤ) (arg as_flag from_flag : Bytes) (project : Option Project)
    (global : Option Global)
    → OpensValid (
        open_target
          (λ port source.
            derive_label lower_rune hex_digest git base_name abs_clean source port cwd)
          atoi
          arg
          as_flag
          from_flag
          project
          global)
unfolding open_target
open_target-OpensValid lower_rune hex_digest hd git base_name abs_clean cwd atoi arg as_flag
      from_flag project global =
    at_target-OpensValid
      (λ port source. derive_label lower_rune hex_digest git base_name abs_clean source port cwd)
      as_flag from_flag project global (resolve_open_target atoi arg project)
      (λ port source small.
        derived-Valid
          (derive_label lower_rune hex_digest git base_name abs_clean source (pos port) cwd)
          (λ r.
            derive_label-valid lower_rune hex_digest hd git base_name abs_clean source port cwd r
              small))
      (resolve_open_target-Usable atoi arg project)
  where
    derived-Valid : (d : Derived) → ((r : Bytes) → d ≡ ok r → validate_label r ≡ none) → Valid d
    derived-Valid (ok r) h = h r refl
    derived-Valid (err e) h = tt

-- A saved current account whose file is gone is passed over: the choice is the one of a machine that has
-- no current account.
pub select_account_dangling :
    (net : Addresses) (flags : Flags) (project : Option Project) (g : Global) (saved : Directory)
    (accounts : List Account)
    → account_exists saved (normalize_server_addr net g.current) ≡ false
    → select_account net flags project (some g) saved accounts
      ≡ select_account net flags project none saved accounts
unfolding select_account
select_account_dangling net flags project g saved accounts gone = ground (arith, gone)
