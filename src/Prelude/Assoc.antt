-- ===== src/Prelude/Assoc.antt =====
-- Go maps as association lists with one entry for each key, and sets as lists.
use Prim.Native.Nat.{◌+◌, ◌≤◌}
use mathlib.Core.Path.{◌≡◌, refl}
use mathlib.Core.Bool.{Bool, false, not, ◌&&◌, ◌||◌}
use mathlib.Core.List.{List, [], ◌∷◌}
use mathlib.Core.Option.{Option, none, some}
use native.Mathlib.Omega.{arith}
use beamd.Prelude.Tests.{if◌then◌else◌}
use beamd.Prelude.Equality.{Eq, ◌==◌, eq_iff}
use beamd.Prelude.Lists.{length}

module _ {ℓ κ} {K : Type ℓ} {V : Type κ} ⦃e : Eq K⦄ where
  unfoldable pub lookup : K → List (K × V) → Option V
  lookup key [] = none
  lookup key (entry ∷ m) = if entry.0 == key then some entry.1 else lookup key m

  unfoldable pub erase : K → List (K × V) → List (K × V)
  erase k [] = []
  erase k ((j, w) ∷ m) = if j == k then erase k m else (j, w) ∷ erase k m

  pub lookup-erase :
      (k j : K) (m : List (K × V)) → lookup j (erase k m) ≡ (if k == j then none else lookup j m)
  unfolding lookup erase
  lookup-erase k j [] = ground arith
  lookup-erase k j ((i, w) ∷ m) =
      ground (arith, eq_iff k j, eq_iff i k, eq_iff i j, lookup-erase k j m)

  -- An assignment to a map: the value of the key is replaced where it stands.
  unfoldable pub insert : K → V → List (K × V) → List (K × V)
  insert key new [] = (key, new) ∷ []
  insert key new ((at, old) ∷ m) =
      if at == key then (key, new) ∷ m else (at, old) ∷ insert key new m

  pub lookup-insert :
      (key other : K) (new : V) (m : List (K × V))
      → lookup other (insert key new m) ≡ (if key == other then some new else lookup other m)
  unfolding insert lookup
  lookup-insert key other new [] = refl
  lookup-insert key other new ((at, old) ∷ m) =
      ground
        (arith, lookup-insert key other new m, eq_iff at other, eq_iff key other, eq_iff at key)

  pub length-insert-le : (k : K) (v : V) (m : List (K × V)) → length (insert k v m) ≤ length m + 1
  unfolding insert
  length-insert-le k v [] = omega arith
  length-insert-le k v ((i, w) ∷ m) = ground (arith, length-insert-le k v m)

module _ {ℓ} {A : Type ℓ} ⦃e : Eq A⦄ where
  unfoldable pub contains : A → List A → Bool
  contains a [] = false
  contains a (x ∷ xs) = x == a || contains a xs

  unfoldable pub add : A → List A → List A
  unfolding contains
  add a xs = if contains a xs then xs else a ∷ xs

  unfoldable pub remove : A → List A → List A
  remove a [] = []
  remove a (x ∷ xs) = if x == a then remove a xs else x ∷ remove a xs

  pub contains-add : (a b : A) (xs : List A) → contains b (add a xs) ≡ (a == b || contains b xs)
  unfolding add contains
  contains-add a b xs = go xs
    where
      same : (zs : List A) → a ≡ b → contains a zs ≡ contains b zs
      same zs p = ground arith

      go : (ys : List A) → contains b (add a ys) ≡ (a == b || contains b ys)
      go ys = ground (arith, eq_iff a b, same ys)

  pub contains-remove :
      (a b : A) (xs : List A) → contains b (remove a xs) ≡ (not (a == b) && contains b xs)
  unfolding remove contains
  contains-remove a b [] = ground arith
  contains-remove a b (x ∷ xs) =
      ground (arith, eq_iff a b, eq_iff x a, eq_iff x b, contains-remove a b xs)

abbrev pub keep_unless {κ} : {V : Type κ} → (V → Bool) → Option V → Option V
keep_unless p none = none
keep_unless p (some v) = if p v then none else some v

module _ {ℓ κ} {K : Type ℓ} {V : Type κ} ⦃e : Eq K⦄ where
  -- `for k, v := range m { if p(v) { delete(m, k) } }`
  unfoldable pub delete_where : (V → Bool) → List (K × V) → List (K × V)
  delete_where p [] = []
  delete_where p ((k, v) ∷ m) = if p v then delete_where p m else (k, v) ∷ delete_where p m

  abbrev pub Unique : List (K × V) → Type κ
  Unique [] = Unit
  Unique ((k, v) ∷ m) = (lookup k m ≡ none) × Unique m

  delete_absent :
      (p : V → Bool) (k : K) (m : List (K × V))
      → lookup k m ≡ none
      → lookup k (delete_where p m) ≡ none
  unfolding lookup delete_where
  delete_absent p k [] h = refl
  delete_absent p k ((j, v) ∷ m) h = ground (arith, delete_absent p k m)

  pub lookup-delete_where :
      (p : V → Bool) (k : K) (m : List (K × V))
      → Unique m
      → lookup k (delete_where p m) ≡ keep_unless p (lookup k m)
  unfolding lookup delete_where
  lookup-delete_where p k [] u = refl
  lookup-delete_where p k ((j, v) ∷ m) u =
      ground (arith, eq_iff j k, lookup-delete_where p k m u.1, delete_absent p j m u.0)

  pub delete_where-Unique : (p : V → Bool) (m : List (K × V)) → Unique m → Unique (delete_where p m)
  unfolding delete_where
  delete_where-Unique p [] u = tt
  delete_where-Unique p ((j, v) ∷ m) u =
      ground (arith, delete_where-Unique p m u.1, delete_absent p j m u.0)

  pub insert-Unique : (k : K) (v : V) (m : List (K × V)) → Unique m → Unique (insert k v m)
  unfolding insert
  insert-Unique k v [] u = (refl_none k, tt)
    where
      refl_none : (j : K) → lookup {V = V} j [] ≡ none
      refl_none j = unfold lookup in refl
  insert-Unique k v ((j, w) ∷ m) u =
      ground (arith, eq_iff j k, eq_iff k j, insert-Unique k v m u.1, lookup-insert k j v m)

  erase_absent : (k j : K) (m : List (K × V)) → lookup j m ≡ none → lookup j (erase k m) ≡ none
  erase_absent k j m h = ground (arith, lookup-erase k j m)

  pub erase-Unique : (k : K) (m : List (K × V)) → Unique m → Unique (erase k m)
  unfolding erase
  erase-Unique k [] u = tt
  erase-Unique k ((j, v) ∷ m) u = ground (arith, erase-Unique k m u.1, erase_absent k j m u.0)
