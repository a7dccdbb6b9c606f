-- ===== src/Cache.antt =====
-- The eviction that auth.HTTPStore and certs.decisionGate share: a map whose entries expire.
pub mod Bounds
use beamd.Prelude.{
  ℕ, ◌/◌, Bool, List, [], ◌∷◌, Bytes, ltb, leb, ◌==◌, nat_eq, list_eq, if◌then◌else◌, length, erase,
  delete_where,
}

module _ {V : Type 0} (expires : V → ℕ) where
  -- Delete entries in the order in which the map is ranged over, down to `half`.
  pub evict_down : ℕ → List Bytes → List (Bytes × V) → List (Bytes × V)
  evict_down half [] m = m
  evict_down half (k ∷ ks) m =
      let rest = evict_down half ks (erase k m) in if leb (length m) half then m else rest

  -- evictLocked: the expired entries go first, then arbitrary ones down to half of the capacity.
  -- `order` is the order of the second range.
  unfoldable pub evict : ℕ → ℕ → List Bytes → List (Bytes × V) → List (Bytes × V)
  unfolding evict_down
  evict now max order m = evict_down (max / 2) order (delete_where (λ v. ltb (expires v) now) m)
