-- ===== src/Cli/Resolve.antt =====
-- cmd/beamd/resolve.go: which server, scope, label and port a command works with.
pub mod Ladders
use beamd.Prelude.{
  ℕ, Bool, true, false, not, ◌&&◌, ◌||◌, List, [], ◌∷◌, ◌++◌, map, Option, none, some, Bytes, codes,
  is_empty, leb, ltb, ◌==◌, nat_eq, list_eq, if◌then◌else◌, lookup, length, strip_prefix,
  trim_suffix, get_or_else,
}
use beamd.Prelude.Int.{ℤ, pos, negsuc}
use beamd.Naming.{NameError, validate_label, label_from_port}
use beamd.Naming.Derive.{DeriveError, Derived, ok, err, derive_label}
use beamd.Config.Accounts.{Account, Credential, client, Directory, account_exists}
use beamd.Config.Project.{Project}

-- What packages strings and net do to an address.
pub record Addresses : Type 0 where
  pub trim_space : Bytes → Bytes
  pub has_port : Bytes → Bool
  pub join_host_port : Bytes → Bytes → Bytes

-- strings.TrimPrefix
abbrev pub trim_prefix : Bytes → Bytes → Bytes
trim_prefix s p = get_or_else (strip_prefix s p) s

-- cmd/beamd/client.go
unfoldable pub normalize_server_addr : Addresses → Bytes → Bytes
normalize_server_addr net addr =
    let a = net.trim_space addr in
    let host =
      trim_suffix (trim_prefix (trim_prefix a (codes "https://")) (codes "http://")) (codes "/") in
    if is_empty a
    then []
    else if net.has_port host
    then host
    else net.join_host_port host (codes "443")

-- clientFlags and BEAMD_SERVER, empty where they are absent.
pub record Flags : Type 0 where
  pub server : Bytes
  pub scope : Bytes
  pub env_server : Bytes

pub record Global : Type 0 where
  pub current : Bytes
  pub default_name : Bytes
  pub default_from : Bytes

pub data Source : Type 0 where
  by_flag by_env by_project by_current by_only nothing ambiguous : Source

-- The end of selectAccount: the only account.
unfoldable pub only_account : Addresses → List Account → Bytes × Source
unfolding normalize_server_addr
only_account net [] = ([], nothing)
only_account net (a ∷ []) = (normalize_server_addr net a.server, by_only)
only_account net (a ∷ b ∷ more) = ([], ambiguous)

abbrev pub project_server : Option Project → Bytes
project_server none = []
project_server (some p) = p.server

abbrev pub current_of : Option Global → Bytes
current_of none = []
current_of (some g) = g.current

unfoldable pub select_account :
    Addresses → Flags → Option Project → Option Global → Directory → List Account → Bytes × Source
unfolding normalize_server_addr only_account
select_account net flags project global saved accounts =
    let current = normalize_server_addr net (current_of global) in
    if not (is_empty flags.server)
    then (normalize_server_addr net flags.server, by_flag)
    else if not (is_empty flags.env_server)
    then (normalize_server_addr net flags.env_server, by_env)
    else if not (is_empty (project_server project))
    then (normalize_server_addr net (project_server project), by_project)
    else if not (is_empty (current_of global)) && account_exists saved current
    then (current, by_current)
    else only_account net accounts

unfoldable pub resolve_scope : Flags → Option Project → Option Account → Bytes
resolve_scope flags project account =
    let of_account : Bytes = elim account [ none ↦ [] | some a ↦ a.default_scope ] in
    let of_project : Bytes = elim project [ none ↦ [] | some p ↦ p.scope ] in
    if not (is_empty flags.scope)
    then flags.scope
    else if not (is_empty of_project)
    then of_project
    else if not (is_empty of_account)
    then of_account
    else []

-- mustAuth; none is an exit.
unfoldable pub must_auth : Option Credential → Option Credential
must_auth none = none
must_auth (some c) = if is_empty c.server || is_empty c.token then none else some c

-- A literal name, once it is validated.
abbrev pub named : Bytes → Option NameError → Derived
named name none = ok name
named name (some e) = err (DeriveError.invalid_label name e)

unfoldable pub literal : Bytes → Derived
literal name = named name (validate_label name)

-- One rung: a literal name beats a source to derive from.
unfoldable pub rung : (Bytes → Derived) → Bytes → Bytes → Derived → Derived
unfolding literal
rung derive name from below =
    if not (is_empty name) then literal name else if not (is_empty from) then derive from else below

-- resolveLabel; `derive` is DeriveLabel for the port and the working directory.
unfoldable pub resolve_label :
    (Bytes → Derived) → Bytes → Bytes → Option Project → Option Global → ℤ → Derived
unfolding rung
resolve_label derive as_flag from_flag project global port =
    let of_global : Derived = elim global [
      | none ↦ ok (label_from_port port)
      | some g ↦ rung derive g.default_name g.default_from (ok (label_from_port port))
    ] in
    let of_project : Derived = elim project [
      | none ↦ of_global
      | some p ↦ rung derive p.name p.from of_global
    ] in
    rung derive as_flag from_flag of_project

-- effectiveLabel
unfoldable pub effective_label : Bytes → Bytes → Bytes → Bytes
effective_label as_flag from_flag service_label =
    if is_empty as_flag && is_empty from_flag && not (is_empty service_label)
    then service_label
    else as_flag

abbrev pub is_port : ℤ → Bool
is_port (pos n) = leb 1 n && leb n 65535
is_port (negsuc n) = false

pub data Target : Type 0 where
  target : ℤ → Bytes → Target
  bad_service_label : NameError → Target
  bad_service_port : ℤ → Target
  bad_port : Target

abbrev pub services_of : Option Project → List (Bytes × ℤ)
services_of none = []
services_of (some p) = p.services

-- An argument that is no service, and what strconv.Atoi makes of it, none on its error.
abbrev pub port_target : Option ℤ → Target
port_target none = bad_port
port_target (some n) = if is_port n then target n [] else bad_port

-- A service of the project, once its name is validated.
abbrev pub service_target : Bytes → ℤ → Option NameError → Target
service_target arg port (some e) = bad_service_label e
service_target arg port none = if is_port port then target port arg else bad_service_port port

unfoldable pub resolve_open_target : (Bytes → Option ℤ) → Bytes → Option Project → Target
resolve_open_target atoi arg project = elim (lookup arg (services_of project)) [
  | none ↦ port_target (atoi arg)
  | some port ↦ service_target arg port (validate_label arg)
]

-- soleService
unfoldable pub sole_service : Option Project → Option (Bytes × ℤ)
sole_service project = elim (services_of project) [
  | [] ↦ none
  | s ∷ more ↦ elim more [ [] ↦ some s | t ∷ rest ↦ none ]
]

pub data OpenArg : Type 0 where
  chosen : Bytes → OpenArg
  usage : OpenArg
  pick_one : OpenArg

-- chooseOpenArg, for the positional arguments.
unfoldable pub choose_open_arg : List Bytes → Option Project → OpenArg
unfolding sole_service
choose_open_arg (arg ∷ []) project = chosen arg
choose_open_arg (arg ∷ other ∷ more) project = usage
choose_open_arg [] project = elim (sole_service project) [
  | some s ↦ chosen s.0
  | none ↦ if ltb 1 (length (services_of project)) then pick_one else usage
]

-- The label of a target; none is an exit.
unfoldable pub at_target :
    (ℤ → Bytes → Derived)
    → Bytes
    → Bytes
    → Option Project
    → Option Global
    → Target
    → Option (ℤ × Derived)
unfolding effective_label resolve_label
at_target derive as_flag from_flag project global (target port service) = some (
  port,
  resolve_label (derive port) (effective_label as_flag from_flag service) from_flag project global
      port,
)
at_target derive as_flag from_flag project global (bad_service_label e) = none
at_target derive as_flag from_flag project global (bad_service_port n) = none
at_target derive as_flag from_flag project global bad_port = none

-- cmd/beamd/client.go, the target and the label of `beamd open`; `derive` is DeriveLabel in the working
-- directory.
unfoldable pub open_target :
    (ℤ → Bytes → Derived)
    → (Bytes → Option ℤ)
    → Bytes
    → Bytes
    → Bytes
    → Option Project
    → Option Global
    → Option (ℤ × Derived)
unfolding at_target resolve_open_target
open_target derive atoi arg as_flag from_flag project global =
    at_target derive as_flag from_flag project global (resolve_open_target atoi arg project)
