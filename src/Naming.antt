-- ===== src/Naming.antt =====
-- internal/naming/naming.go: tunnel names, org slugs, and the hostnames made of them.
pub mod RoundTrip
pub mod Derive
use beamd.Prelude.{
  ℕ, ◌+◌, ◌/◌, ◌%◌, zero, suc, Bool, true, false, ◌&&◌, ◌||◌, List, [], ◌∷◌, ◌++◌, Option, none,
  some, Bytes, codes, is_empty, leb, ltb, ◌==◌, nat_eq, list_eq, if◌then◌else◌, length, all,
  to_lower, before, split, strip_suffix, trim_suffix, split_last, ends_with,
}
use beamd.Prelude.Int.{ℤ, pos, negsuc}

abbrev pub is_alnum : ℕ → Bool
is_alnum c = (leb b'a' c && leb c b'z') || (leb b'0' c && leb c b'9')

abbrev pub is_label_byte : ℕ → Bool
is_label_byte c = is_alnum c || c == b'-'

-- ^[a-z0-9]([a-z0-9-]{0,61}[a-z0-9])?$
unfoldable pub label_regex : Bytes → Bool
label_regex [] = false
label_regex (c ∷ s) =
    is_alnum c
    && (is_empty s || (leb (length s) 62 && (all is_label_byte s && ends_with is_alnum s)))

-- ^[a-z0-9]{1,63}$
unfoldable pub slug_regex : Bytes → Bool
slug_regex s = leb 1 (length s) && (leb (length s) 63 && all is_alnum s)

-- The errors of the two validators; `none` is Go's nil error.
pub data NameError : Type 0 where
  not_a_label : Bytes → NameError
  not_a_slug : Bytes → NameError

unfoldable pub validate_label : Bytes → Option NameError
unfolding label_regex
validate_label label = if label_regex label then none else some (not_a_label label)

unfoldable pub validate_slug : Bytes → Option NameError
unfolding slug_regex
validate_slug slug = if slug_regex slug then none else some (not_a_slug slug)

pub data Shape : Type 0 where
  hyphen subdomain flat : Shape

unfoldable pub parse_shape : Bytes → Shape
parse_shape s =
    if s == codes "subdomain" then subdomain else if s == codes "flat" then flat else hyphen

unfoldable pub shape_name : Shape → Bytes
shape_name hyphen = codes "hyphen"
shape_name subdomain = codes "subdomain"
shape_name flat = codes "flat"

-- The decimal digits of n, the last one first; a number has at most n + 1 of them.
digits_from : ℕ → ℕ → Bytes → Bytes
digits_from zero n acc = acc
digits_from (suc fuel) n acc =
    let more = digits_from fuel (n / 10) ((b'0' + n % 10) ∷ acc) in
    if ltb n 10 then (b'0' + n) ∷ acc else more

unfoldable pub itoa : ℤ → Bytes
unfolding digits_from
itoa (pos n) = digits_from (suc n) n []
itoa (negsuc n) = b'-' ∷ digits_from (suc (suc n)) (suc n) []

unfoldable pub label_from_port : ℤ → Bytes
unfolding itoa
label_from_port port = itoa port

unfoldable pub hostname : Bytes → Bytes → Bytes → Shape → Bytes
hostname label slug base shape = if is_empty slug then label ++ b'.' ∷ base else elim shape [
  | flat ↦ label ++ b'.' ∷ base
  | hyphen ↦ label ++ b'-' ∷ (slug ++ b'.' ∷ base)
  | subdomain ↦ label ++ b'.' ∷ (slug ++ b'.' ∷ base)
]

-- The last of at least two dot-separated parts.
unfoldable pub last_part : List Bytes → Bytes
last_part [] = []
last_part (p ∷ []) = []
last_part (p ∷ q ∷ []) = q
last_part (p ∷ q ∷ r ∷ ps) = last_part (q ∷ r ∷ ps)

-- The slug in the labels left of the base domain.
unfoldable pub slug_of_labels : Bytes → Shape → Bytes
unfolding last_part
slug_of_labels labels flat = []
slug_of_labels labels subdomain = last_part (split b'.' labels)
slug_of_labels labels hyphen = elim (split_last b'-' labels) [
  | none ↦ []
  | some (name, slug) ↦ if is_empty name || is_empty slug then [] else slug
]

-- The slug in what is left of a host without its base domain, if that is there.
unfoldable pub slug_under_base : Option Bytes → Shape → Bytes
unfolding slug_of_labels
slug_under_base none shape = []
slug_under_base (some labels) shape = if is_empty labels then [] else slug_of_labels labels shape

unfoldable pub slug_from_host : Bytes → Bytes → Shape → Bytes
unfolding slug_under_base
slug_from_host host base shape =
    let h = trim_suffix (before b':' (to_lower host)) (b'.' ∷ []) in
    slug_under_base (strip_suffix h (b'.' ∷ base)) shape
