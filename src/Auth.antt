-- ===== src/Auth.antt =====
-- internal/auth: bearer tokens and the slugs that they may act in.
pub mod Http
pub mod Scopes
pub mod Freshness
use beamd.Prelude.{
  ℕ, ◌≡◌, Bool, true, false, not, ◌&&◌, ◌||◌, List, [], ◌∷◌, Option, none, some, Bytes, codes,
  is_empty, ◌==◌, nat_eq, list_eq, if◌then◌else◌, lookup, has_prefix, strip_prefix,
}

-- MemoryStore: the map from tokens to slugs. FileStore is one read from a file.
abbrev pub MemoryStore : Type 0
MemoryStore = List (Bytes × Bytes)

-- Resolve of a single-scope credential; none is ok = false.
unfoldable pub resolve : MemoryStore → Bytes → Bytes → Option Bytes
resolve tokens token requested = elim (lookup token tokens) [
  | none ↦ none
  | some slug ↦ if not (is_empty requested) && not (requested == slug) then none else some slug
]

-- What Open makes of a `token_store:` spec.
pub data Opened : Type 0 where
  file : Bytes → Opened
  memory : Opened
  http : Bytes → Bytes → Opened
  missing_secret : Opened
  unsupported : Bytes → Opened

-- `secret` is the value of BEAMD_AUTH_VERIFY_SECRET, empty if it is not set.
unfoldable pub open_store : Bytes → Bytes → Opened
open_store secret spec = elim (strip_prefix spec (codes "file:")) [
  | some path ↦ file path
  | none ↦
      if spec == codes "memory:"
      then memory
      else if has_prefix spec (codes "http://") || has_prefix spec (codes "https://")
      then if is_empty secret then missing_secret else http spec secret
      else unsupported spec
]
