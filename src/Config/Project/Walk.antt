-- ===== src/Config/Project/Walk.antt =====
-- The walk up from the working directory ends, and which files it takes.
use beamd.Prelude.{
  ℕ, zero, suc, ◌<◌, ◌≡◌, ◌⊎◌, refl, Bool, ◌||◌, List, [], ◌∷◌, Option, none, some, Bytes, ◌==◌,
  nat_eq, list_eq, if◌then◌else◌, length,
}
use beamd.Config.Project.{Tree, Discovered, from_base, from_overlay}

-- filepath.Dir of an absolute clean path is shorter, but for the root, which it leaves alone.
abbrev pub Climbs : Tree → Type 0
Climbs tree = (dir : Bytes) → (tree.parent dir ≡ dir) ⊎ (length (tree.parent dir) < length dir)

-- The directories that are looked at, and the last is the root or the home directory.
abbrev pub ancestors : Tree → Bytes → ℕ → Bytes → List Bytes
ancestors tree home zero dir = []
ancestors tree home (suc n) dir =
    let rest = ancestors tree home n (tree.parent dir) in
    dir ∷ (if tree.parent dir == dir || dir == home then [] else rest)

-- The first of the directories with a file of the kind, and the directories up to the first one.
abbrev pub first : (Bytes → Bool) → List Bytes → Option Bytes
first p [] = none
first p (d ∷ ds) = if p d then some d else first p ds

abbrev pub up_to : (Bytes → Bool) → List Bytes → List Bytes
up_to p [] = []
up_to p (d ∷ ds) = d ∷ (if p d then [] else up_to p ds)

-- The base file under the overlay that goes with it, or without a base file the other overlay alone.
abbrev pub choose : Tree → Bytes → Option Bytes → Option Bytes → Option Bytes → Discovered
choose tree home (some dir) under alone = from_base tree home dir under
choose tree home none under alone = from_overlay tree home alone

-- What the documentation of DiscoverProject says: the nearest base file, under the nearest overlay between
-- the start and it; without a base file, the nearest overlay alone.
abbrev pub documented : Tree → Bytes → List Bytes → Discovered
documented tree home dirs =
    choose tree home (first tree.has_base dirs) (first tree.has_local (up_to tree.has_base dirs))
      (first tree.has_local dirs)

abbrev or_else : Option Bytes → Option Bytes → Option Bytes
or_else none o = o
or_else (some d) o = some d

-- The same for an overlay that was found before.
abbrev documented_with : Tree → Bytes → Option Bytes → List Bytes → Discovered
documented_with tree home local dirs =
    choose tree home (first tree.has_base dirs)
      (or_else local (first tree.has_local (up_to tree.has_base dirs)))
      (or_else local (first tree.has_local dirs))

module _ (tree : Tree) (home : Bytes) (climbs : Climbs tree) where
  alone : (o : Option Bytes) → from_overlay tree home o ≡ documented_with tree home o []
  alone none = refl
  alone (some at) = refl
