-- ===== src/Config/Project.antt =====
-- internal/config/project.go: the project file of a directory, and its local overlay.
pub mod Walk
use beamd.Prelude.{
  ℕ, zero, suc, Bool, true, false, not, ◌||◌, List, [], ◌∷◌, ◌++◌, Option, none, some, is_none,
  Bytes, codes, is_empty, ◌==◌, nat_eq, list_eq, if◌then◌else◌, insert, ◌&&◌, length,
}
use beamd.Prelude.Int.{ℤ}

pub record Project : Type 0 where
  pub server : Bytes
  pub scope : Bytes
  pub name : Bytes
  pub from : Bytes
  pub services : List (Bytes × ℤ)
  pub profile : Bytes

abbrev pub empty_project : Project
empty_project = record {
  server = [];
  scope = [];
  name = [];
  from = [];
  services = [];
  profile = [];
}

-- The text on top, unless it is empty.
abbrev pub on_top : Bytes → Bytes → Bytes
on_top t under = if is_empty t then under else t

unfoldable pub merge_services : List (Bytes × ℤ) → List (Bytes × ℤ) → List (Bytes × ℤ)
merge_services [] services = services
merge_services ((name, port) ∷ more) services = merge_services more (insert name port services)

-- What loadProjectFile does with a file that it has read.
unfoldable pub overlay : Project → Project → Project
unfolding merge_services
overlay o p = record {
  server = on_top o.server p.server;
  scope = on_top o.scope p.scope;
  name = on_top o.name p.name;
  from = on_top o.from p.from;
  services = merge_services o.services p.services;
  profile = on_top o.profile p.profile;
}

-- The file system: filepath.Dir, whether a directory has a regular beamd.yaml and a regular
-- beamd.local.yaml, and what these two parse to, none where that fails.
pub record Tree : Type 0 where
  pub parent : Bytes → Bytes
  pub has_base : Bytes → Bool
  pub has_local : Bytes → Bool
  pub base_file : Bytes → Option Project
  pub local_file : Bytes → Option Project

pub data Discovered : Type 0 where
  found : Project → Bytes → Discovered
  absent : Discovered
  unreadable : Discovered
  out_of_fuel : Discovered

-- loadProjectFile into a project, from what a file parses to.
unfoldable pub load_project_file : Option Project → Project → Option Project
unfolding overlay
load_project_file none p = none
load_project_file (some o) p = some (overlay o p)

module _ (tree : Tree) (home : Bytes) where
  -- The base file of the directory, under the nearest overlay, if there is one.
  unfoldable pub from_base : Bytes → Option Bytes → Discovered
  unfolding load_project_file
  from_base dir local = elim (load_project_file (tree.base_file dir) empty_project) [
    | none ↦ unreadable
    | some p ↦ elim local [
      | none ↦ found p dir
      | some at ↦ elim (load_project_file (tree.local_file at) p) [
        | none ↦ unreadable
        | some q ↦ found q dir
      ]
    ]
  ]

  -- The overlay on its own, or nothing.
  unfoldable pub from_overlay : Option Bytes → Discovered
  unfolding load_project_file
  from_overlay none = absent
  from_overlay (some at) = elim (load_project_file (tree.local_file at) empty_project) [
    | none ↦ unreadable
    | some p ↦ found p at
  ]

  -- The nearest overlay, once this directory has been looked at.
  unfoldable pub nearest : Bytes → Option Bytes → Option Bytes
  nearest dir local = if is_none local && tree.has_local dir then some dir else local

  -- The loop of DiscoverProject, on fuel; an empty home is none.
  unfoldable pub discover_from : ℕ → Bytes → Option Bytes → Discovered
  unfolding from_base from_overlay nearest
  discover_from zero dir local = out_of_fuel
  discover_from (suc fuel) dir local =
      let next = nearest dir local in
      let up = discover_from fuel (tree.parent dir) next in
      if tree.has_base dir
      then from_base dir next
      else if tree.parent dir == dir || dir == home
      then from_overlay next
      else up

  -- DiscoverProject, from an absolute clean directory. Each step but the last shortens the directory.
  unfoldable pub discover_project : Bytes → Discovered
  unfolding discover_from
  discover_project dir = discover_from (suc (length dir)) dir none
