-- ===== src/Naming/Derive.antt =====
-- internal/naming/derive.go: labels derived from a directory, a repository or a branch.
pub mod Valid
use mathlib.Core.List.{reverse}
use beamd.Prelude.{
  ℕ, ◌-◌, ◌≡◌, Bool, true, false, not, ◌&&◌, ◌||◌, List, [], ◌∷◌, ◌++◌, map, Option, none, some,
  is_none, Bytes, codes, is_empty, leb, ◌==◌, nat_eq, list_eq, if◌then◌else◌, length, take,
}
use beamd.Prelude.Int.{ℤ}
use beamd.Naming.{NameError, is_label_byte, validate_label, label_from_port}

-- Runs of hyphens become one.
unfoldable pub collapse : Bytes → Bytes
collapse [] = []
collapse (c ∷ []) = c ∷ []
collapse (c ∷ d ∷ s) =
    let rest = collapse (d ∷ s) in if c == b'-' && d == b'-' then rest else c ∷ rest

unfoldable pub trim_left : Bytes → Bytes
trim_left [] = []
trim_left (c ∷ s) = if c == b'-' then trim_left s else c ∷ s

unfoldable pub trim_right : Bytes → Bytes
trim_right [] = []
trim_right (c ∷ s) = let rest = trim_right s in if c == b'-' && is_empty rest then [] else c ∷ rest

-- The rune that Sanitize writes for one that it reads.
unfoldable pub clean_rune : ℕ → ℕ
clean_rune r = if is_label_byte r then r else b'-'

pub data DeriveError : Type 0 where
  no_label_from_dir not_a_repo no_label_from_repo not_a_repo_branch detached_head : DeriveError
  no_label_from_branch not_a_worktree no_label_from_worktree : DeriveError
  invalid_label : Bytes → NameError → DeriveError
  unknown_source : Bytes → DeriveError

pub data Derived : Type 0 where
  ok : Bytes → Derived
  err : DeriveError → Derived

-- The label of a non-empty sanitized text, once it is validated.
unfoldable pub checked : DeriveError → Bytes → Derived
checked missing label =
    if is_empty label
    then err missing
    else elim (validate_label label) [ none ↦ ok label | some e ↦ err (invalid_label label e) ]

-- `lower_rune` is unicode.ToLower, and `hex_digest` the hex SHA-256 of a text.
module _ (lower_rune : ℕ → ℕ) (hex_digest : Bytes → Bytes) where
  unfoldable pub truncate_label : Bytes → Bytes
  truncate_label s =
      let suffix = b'-' ∷ take 6 (hex_digest s) in
      if leb (length s) 63 then s else trim_right (take (63 - length suffix) s) ++ suffix

  -- `s` is the runes of the text.
  unfoldable pub sanitize : List ℕ → Bytes
  unfolding collapse trim_left trim_right clean_rune truncate_label
  sanitize s =
      truncate_label (trim_right (trim_left (collapse (map clean_rune (map lower_rune s)))))

  -- What git and package filepath answer: the trimmed output of a command, or none on failure.
  module _ (git : List Bytes → Option Bytes) (base_name : Bytes → Bytes)
      (abs_clean : Bytes → Bytes) where
    unfoldable pub in_git_repo : Bool
    in_git_repo = not (is_none (git (codes "rev-parse" ∷ codes "--git-dir" ∷ [])))

    unfoldable pub branch_label : Derived
    branch_label = elim (git (codes "symbolic-ref" ∷ codes "--short" ∷ codes "HEAD" ∷ [])) [
      | none ↦ if not in_git_repo then err not_a_repo_branch else err detached_head
      | some br ↦
          let label = sanitize br in if is_empty label then err no_label_from_branch else ok label
    ]

    -- The checkout is a linked worktree.
    unfoldable pub linked_worktree : Bool
    linked_worktree = elim (git (codes "rev-parse" ∷ codes "--absolute-git-dir" ∷ [])) [
      | none ↦ false
      | some git_dir ↦ elim (git (codes "rev-parse" ∷ codes "--git-common-dir" ∷ [])) [
        | none ↦ false
        | some common_dir ↦ not (abs_clean git_dir == abs_clean common_dir)
      ]
    ]

    -- <branch>-<repo>, if the branch has a name of its own and the label is valid.
    unfoldable pub combined_label : Bytes → Option Bytes
    combined_label top = elim (git (codes "symbolic-ref" ∷ codes "--short" ∷ codes "HEAD" ∷ [])) [
      | none ↦ none
      | some br ↦
          let combined = sanitize (br ++ b'-' ∷ base_name top) in
          if not (is_empty br)
            && not (br == codes "main")
            && not (br == codes "master")
            && not (is_empty combined)
            && is_none (validate_label combined)
          then some combined
          else none
    ]

    unfoldable pub worktree_label : Derived
    unfolding checked linked_worktree combined_label
    worktree_label = elim (git (codes "rev-parse" ∷ codes "--show-toplevel" ∷ [])) [
      | none ↦ err not_a_worktree
      | some top ↦
          let repo = checked no_label_from_worktree (sanitize (base_name top)) in
          if linked_worktree
          then elim (combined_label top) [ some combined ↦ ok combined | none ↦ repo ]
          else repo
    ]

    unfoldable pub derive_label : Bytes → ℤ → Bytes → Derived
    unfolding checked branch_label worktree_label
    derive_label source port dir =
        if source == [] || source == codes "port"
        then ok (label_from_port port)
        else if source == codes "dir"
        then checked no_label_from_dir (sanitize (base_name dir))
        else if source == codes "repo"
        then elim (git (codes "rev-parse" ∷ codes "--show-toplevel" ∷ [])) [
          | none ↦ err not_a_repo
          | some top ↦ checked no_label_from_repo (sanitize (base_name top))
        ]
        else if source == codes "branch"
        then elim branch_label [
          | err e ↦ err e
          | ok label ↦ elim (validate_label label) [
            | none ↦ ok label
            | some e ↦ err (invalid_label label e)
          ]
        ]
        else if source == codes "worktree"
        then worktree_label
        else err (unknown_source source)
