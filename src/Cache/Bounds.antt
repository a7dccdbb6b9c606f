-- ===== src/Cache/Bounds.antt =====
-- Eviction makes room, and only ever removes entries.
use beamd.Prelude.{
  ℕ, ◌/◌, ◌≤◌, ◌≡◌, ◌≢◌, inl, inr, true, List, [], ◌∷◌, none, some, arith, Bytes, ltb, leb, leb→le,
  nat_eq, list_eq, eq_iff, eq_refl, length, contains, lookup, erase, delete_where, lookup-erase,
  lookup-delete_where, Unique, erase-Unique, delete_where-Unique, Bool-cases, if_cases, ◌∙◌,
}
use beamd.Cache.{evict_down, evict}

module _ {V : Type 0} (expires : V → ℕ) where
  -- Every key of the map is in the list.
  abbrev pub Lists : List Bytes → List (Bytes × V) → Type 0
  Lists order m = (k : Bytes) → lookup k m ≢ none → contains k order ≡ true

  evict_down_bound :
      (half : ℕ) (order : List Bytes) (m : List (Bytes × V))
      → Lists order m
      → length (evict_down expires half order m) ≤ half
  unfolding evict_down
  evict_down_bound half [] [] l = omega arith
  evict_down_bound half [] ((k, v) ∷ m) l = absurd (nothing (l k (present k)))
    where
      present : (j : Bytes) → lookup j ((j, v) ∷ m) ≢ none
      present j e = unfold lookup in ground (arith, eq_refl j, e)

      nothing : contains k [] ≡ true → ⊥
      nothing h = unfold contains in cc
  evict_down_bound half (k ∷ ks) m l = elim (Bool-cases (leb (length m) half)) [
    | inl small ↦ rw small (leb→le (length m) half small)
    | inr large ↦ rw large (evict_down_bound half ks (erase k m) fewer)
  ]
    where
      fewer : Lists ks (erase k m)
      fewer j n =
          let there : lookup j m ≢ none = ground (arith, lookup-erase k j m, n) in
          unfold contains in ground (arith, l j there, lookup-erase k j m, n, eq_iff k j)

  evict_down_sub :
      (half : ℕ) (order : List Bytes) (m : List (Bytes × V)) (k : Bytes) (v : V)
      → lookup k (evict_down expires half order m) ≡ some v
      → lookup k m ≡ some v
  unfolding evict_down
  evict_down_sub half [] m k v h = h
  evict_down_sub half (j ∷ js) m k v h =
      ground (arith, h, evict_down_sub half js (erase j m) k v, lookup-erase j k m)

  evict_down-Unique :
      (half : ℕ) (order : List Bytes) (m : List (Bytes × V))
      → Unique m
      → Unique (evict_down expires half order m)
  unfolding evict_down
  evict_down-Unique half [] m u = u
  evict_down-Unique half (j ∷ js) m u =
      if_cases Unique (leb (length m) half) u
        (evict_down-Unique half js (erase j m) (erase-Unique j m u))

  -- At most half of the capacity is left, if the second range meets every key.
  pub evict_bound :
      (now max : ℕ) (order : List Bytes) (m : List (Bytes × V))
      → Unique m
      → Lists order m
      → length (evict expires now max order m) ≤ max / 2
  unfolding evict
  evict_bound now max order m u l =
      evict_down_bound (max / 2) order (delete_where (λ v. ltb (expires v) now) m)
        (λ k n. l k (λ e. n (lookup-delete_where _ k m u ∙ rw e)))

  -- What is left was there.
  pub evict_sub :
      (now max : ℕ) (order : List Bytes) (m : List (Bytes × V)) (k : Bytes) (v : V)
      → Unique m
      → lookup k (evict expires now max order m) ≡ some v
      → lookup k m ≡ some v
  unfolding evict
  evict_sub now max order m k v u h =
      let there =
        evict_down_sub (max / 2) order (delete_where (λ w. ltb (expires w) now) m) k v h in
      ground (arith, there, lookup-delete_where (λ w. ltb (expires w) now) k m u)

  pub evict-Unique :
      (now max : ℕ) (order : List Bytes) (m : List (Bytes × V))
      → Unique m
      → Unique (evict expires now max order m)
  unfolding evict
  evict-Unique now max order m u =
      evict_down-Unique (max / 2) order (delete_where (λ v. ltb (expires v) now) m)
        (delete_where-Unique _ m u)
