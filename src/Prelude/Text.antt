-- ===== src/Prelude/Text.antt =====
-- Go strings: sequences of bytes, and the operations of package `strings` on them.
use Prim.Native.Nat.{ℕ, ◌+◌}
use Prim.Native.Char.{code}
use Prim.Native.String.{String}
use mathlib.Core.Path.{◌≡◌, refl}
use mathlib.Core.Bool.{Bool, true, false, ◌&&◌}
use mathlib.Core.List.{List, [], ◌∷◌, ◌++◌, map, reverse, reverse-append, reverse-reverse}
use mathlib.Core.Option
use mathlib.Core.Option.{Option, none, some}
use native.Mathlib.Omega.{arith}
use beamd.Prelude.Tests.{leb, if◌then◌else◌}
use beamd.Prelude.Equality.{◌==◌, nat_eq, list_eq}

abbrev pub Bytes : Type 0
Bytes = List ℕ

-- The bytes of an ASCII literal.
abbrev pub codes : String → Bytes
codes String.[] = []
codes (String.◌∷◌ first text) = code first ∷ codes text

abbrev pub is_empty : Bytes → Bool
is_empty [] = true
is_empty (c ∷ s) = false

pub has_prefix : Bytes → Bytes → Bool
has_prefix s [] = true
has_prefix [] (p ∷ ps) = false
has_prefix (c ∷ s) (p ∷ ps) = c == p && has_prefix s ps

-- What is left of `s` after its prefix, if it has it.
unfoldable pub strip_prefix : Bytes → Bytes → Option Bytes
strip_prefix s [] = some s
strip_prefix [] (p ∷ ps) = none
strip_prefix (c ∷ s) (p ∷ ps) = if c == p then strip_prefix s ps else none

-- strings.ToLower on ASCII.
unfoldable pub lower : ℕ → ℕ
lower c = if leb b'A' c && leb c b'Z' then c + 32 else c

unfoldable pub to_lower : Bytes → Bytes
unfolding lower
to_lower s = map lower s

-- strings.EqualFold on ASCII.
unfoldable pub equal_fold : Bytes → Bytes → Bool
unfolding to_lower
equal_fold a b = to_lower a == to_lower b

-- s[:i] for the first index i of the byte, or all of s.
unfoldable pub before : ℕ → Bytes → Bytes
before b [] = []
before b (c ∷ s) = if c == b then [] else c ∷ before b s

-- strings.Split by one byte: the fields of s, at least one.
unfoldable pub split : ℕ → Bytes → List Bytes
split b s = elim s [ [] ↦ [] ∷ [] | c ∷ (s' → rest) ↦ if c == b then [] ∷ rest else push c rest ]
  where
    push : ℕ → List Bytes → List Bytes
    push c [] = (c ∷ []) ∷ []
    push c (f ∷ fs) = (c ∷ f) ∷ fs

pub strip_prefix-append : (p s : Bytes) → strip_prefix (p ++ s) p ≡ some s
unfolding strip_prefix
strip_prefix-append [] [] = refl
strip_prefix-append [] (c ∷ s) = refl
strip_prefix-append (c ∷ p) s = ground (arith, strip_prefix-append p s)

-- s without its suffix t, if it has it.
unfoldable pub strip_suffix : Bytes → Bytes → Option Bytes
strip_suffix s t = Option.map reverse (strip_prefix (reverse s) (reverse t))

-- s around the last occurrence of the byte: s[:i] and s[i+1:].
unfoldable pub split_last : ℕ → Bytes → Option (Bytes × Bytes)
split_last b [] = none
split_last b (c ∷ s) = elim (split_last b s) [
  | none ↦ if c == b then some ([], s) else none
  | some (p, q) ↦ some (c ∷ p, q)
]

-- The last byte is there and passes the test.
abbrev pub ends_with : (ℕ → Bool) → Bytes → Bool
ends_with p [] = false
ends_with p (c ∷ []) = p c
ends_with p (c ∷ d ∷ s) = ends_with p (d ∷ s)

pub strip_suffix-append : (s t : Bytes) → strip_suffix (s ++ t) t ≡ some s
unfolding strip_suffix
strip_suffix-append s t =
    rw (reverse-append s t, strip_prefix-append (reverse t) (reverse s), reverse-reverse s)

-- strings.TrimSuffix.
unfoldable pub trim_suffix : Bytes → Bytes → Bytes
trim_suffix s t = elim (strip_suffix s t) [ none ↦ s | some r ↦ r ]

pub trim_suffix_absent : (s t : Bytes) → strip_suffix s t ≡ none → trim_suffix s t ≡ s
unfolding trim_suffix
trim_suffix_absent s t h = rw (h, trim_suffix)
