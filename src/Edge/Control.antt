-- ===== src/Edge/Control.antt =====
-- internal/edge/edge.go: handleControlMsg, the messages of an open session.
use beamd.Prelude.{
  ℕ, ◌≢◌, inl, inr, arith, List, [], ◌∷◌, ◌==◌, list_eq, eq_iff, lookup, lookup-erase, Unique,
  Bool-cases, false, ◌≡◌, Bool, true, Option, none, some, Bytes, is_empty, if◌then◌else◌, contains,
  nat_eq, Option-cases,
}
use beamd.Prelude.Int.{ℤ}
use beamd.Naming.{NameError, validate_label, label_from_port}
use beamd.Edge.Hosts.{ScopeHostnames}
use beamd.Edge.Registry.{
  Route, remove_hosts, hosts_of, without_host, Edge, RegisterError, Reply, url, error, register,
  unregister,
}
use beamd.Edge.Registry.Routes.{register_keeps_live}
use beamd.Edge.Registry.Invariant.{Inv, register-Inv, unregister-Inv}

-- A message by its type; none is a body that does not decode.
pub data Message : Type 0 where
  register_msg : Option (Bytes × ℤ) → Message
  unregister_msg : Option Bytes → Message
  heartbeat : Message
  unknown : Bytes → Message

-- What the edge sends back; the errors of a register carry its name.
pub data Sent : Type 0 where
  nothing : Sent
  bad_message : Sent
  invalid_name : Bytes → NameError → Sent
  refused : Bytes → RegisterError → Sent
  registered : Bytes → Bytes → Sent
  unknown_msg : Bytes → Sent

abbrev sent_for : Bytes → Reply → Sent
sent_for name (url u) = registered name u
sent_for name (error e) = refused name e

-- A register of a name that is given, or is that of the port.
unfoldable pub handle_register : Edge → ℕ → Bytes → Option ScopeHostnames → Edge × Sent
handle_register e sess name reply = elim (validate_label name) [
  | some bad ↦ (e, invalid_name name bad)
  | none ↦ let (e', answer) = register e sess name reply in (e', sent_for name answer)
]

-- `reply` is what the hostnames client answers, if a name is registered.
unfoldable pub handle_control_msg : Edge → ℕ → Message → Option ScopeHostnames → Edge × Sent
unfolding handle_register
handle_control_msg e sess (register_msg none) reply = (e, bad_message)
handle_control_msg e sess (register_msg (some (name, port))) reply =
    handle_register e sess (if is_empty name then label_from_port port else name) reply
handle_control_msg e sess (unregister_msg none) reply = (e, bad_message)
handle_control_msg e sess (unregister_msg (some name)) reply = (unregister e sess name, nothing)
handle_control_msg e sess heartbeat reply = (e, nothing)
handle_control_msg e sess (unknown typ) reply = (e, unknown_msg typ)

handle_register-Inv :
    (e : Edge) (sess : ℕ) (name : Bytes) (reply : Option ScopeHostnames)
    → contains sess e.sessions ≡ true
    → Inv e
    → Inv (handle_register e sess name reply).0
unfolding handle_register
handle_register-Inv e sess name reply m v = elim (Option-cases (validate_label name)) [
  | inl good ↦ rw (good, handle_register) (register-Inv e sess name reply m v)
  | inr (bad, why) ↦ rw (why, handle_register) v
]

-- Whatever message an open session sends, well-formed or not, the route table stays in order: one
-- entry for a host, and each one leads to an open session that holds the tunnel and recorded the host.
pub handle_control_msg-Inv :
    (e : Edge) (sess : ℕ) (msg : Message) (reply : Option ScopeHostnames)
    → contains sess e.sessions ≡ true
    → Inv e
    → Inv (handle_control_msg e sess msg reply).0
unfolding handle_control_msg
handle_control_msg-Inv e sess (register_msg none) reply m v = v
handle_control_msg-Inv e sess (register_msg (some (name, port))) reply m v =
    handle_register-Inv e sess _ reply m v
handle_control_msg-Inv e sess (unregister_msg none) reply m v = v
handle_control_msg-Inv e sess (unregister_msg (some name)) reply m v = unregister-Inv e sess name v
handle_control_msg-Inv e sess heartbeat reply m v = v
handle_control_msg-Inv e sess (unknown typ) reply m v = v

remove_hosts-keeps :
    (e : Edge) (sess : ℕ) (hs : List Bytes) (removed : Bool) (h : Bytes) (r : Route)
    → lookup h e.routes ≡ some r
    → r.session ≢ sess
    → lookup h (remove_hosts e sess hs removed).0.routes ≡ some r
unfolding remove_hosts
remove_hosts-keeps e sess [] removed h r l ne = l
remove_hosts-keeps e sess (x ∷ hs) removed h r l ne = elim (Option-cases (lookup x e.routes)) [
  | inl miss ↦ rw (miss, remove_hosts) (remove_hosts-keeps e sess hs removed h r l ne)
  | inr (q, hit) ↦ elim (Bool-cases (q.session == sess)) [
    | inr other ↦ rw (hit, other, remove_hosts) (remove_hosts-keeps e sess hs removed h r l ne)
    | inl own ↦
        rw (hit, own, remove_hosts)
          (remove_hosts-keeps (without_host x e) sess hs true h r
            (ground
              (arith, lookup-erase x h e.routes, l, eq_iff x h, hit, ne, eq_iff q.session sess))
            ne)
  ]
]

handle_register-keeps :
    (e : Edge) (sess : ℕ) (name : Bytes) (reply : Option ScopeHostnames) (h : Bytes) (r : Route)
    → Unique e.routes
    → lookup h e.routes ≡ some r
    → r.session ≢ sess
    → (e.heap r.session).closed ≡ false
    → lookup h (handle_register e sess name reply).0.routes ≡ some r
unfolding handle_register
handle_register-keeps e sess name reply h r u l ne live =
    elim (Option-cases (validate_label name)) [
      | inl good ↦
          rw (good, handle_register) (register_keeps_live e sess name reply h r u l ne live)
      | inr (bad, why) ↦ rw (why, handle_register) l
    ]

-- A control message takes a host from no live other session, if the route table has one entry for a
-- host.
pub handle_control_msg-keeps :
    (e : Edge) (sess : ℕ) (msg : Message) (reply : Option ScopeHostnames) (h : Bytes) (r : Route)
    → Unique e.routes
    → lookup h e.routes ≡ some r
    → r.session ≢ sess
    → (e.heap r.session).closed ≡ false
    → lookup h (handle_control_msg e sess msg reply).0.routes ≡ some r
unfolding handle_control_msg unregister
handle_control_msg-keeps e sess (register_msg none) reply h r u l ne live = l
handle_control_msg-keeps e sess (register_msg (some (name, port))) reply h r u l ne live =
    handle_register-keeps e sess _ reply h r u l ne live
handle_control_msg-keeps e sess (unregister_msg none) reply h r u l ne live = l
handle_control_msg-keeps e sess (unregister_msg (some name)) reply h r u l ne live =
    remove_hosts-keeps e sess (hosts_of e sess name) false h r l ne
handle_control_msg-keeps e sess heartbeat reply h r u l ne live = l
handle_control_msg-keeps e sess (unknown typ) reply h r u l ne live = l
