-- ===== src/Naming/RoundTrip.antt =====
-- Hostnames parse back to the slug they were made from, and tell tenants apart.
use mathlib.Core.List.{reverse-append, append_cancel_right}
use beamd.Prelude.{
  ℕ, ◌≡◌, refl, sym, ap, ◌∙◌, ◌≢◌, Bool, true, false, not, ◌||◌, [], ◌∷◌, ◌++◌, append_assoc,
  Option, none, some, arith, Bytes, is_empty, ◌==◌, nat_eq, list_eq, if◌then◌else◌, all, All,
  All-append, lower, to_lower, before, split, strip_suffix, trim_suffix_absent, strip_suffix-append,
  split_last, ends_with, strip_prefix,
}
use beamd.Naming.{
  Shape, hyphen, subdomain, flat, is_alnum, is_label_byte, validate_label, validate_slug, hostname,
  slug_of_labels, slug_from_host, slug_under_base,
}

-- A byte that ToLower keeps and that does not begin a port.
abbrev pub IsHostByte : ℕ → Type 0
IsHostByte c = (lower c ≡ c) × (c ≢ b':')

abbrev pub IsSlugByte : ℕ → Type 0
IsSlugByte c = is_alnum c ≡ true

abbrev pub IsLabelByte : ℕ → Type 0
IsLabelByte c = is_label_byte c ≡ true

all_sound : (p : ℕ → Bool) (s : Bytes) → all p s ≡ true → All (λ c. p c ≡ true) s
all_sound p [] h = tt
all_sound p (c ∷ s) h = ground (arith, all_sound p s)

pub slug_bytes : (s : Bytes) → validate_slug s ≡ none → All IsSlugByte s × (s ≢ [])
unfolding validate_slug
slug_bytes [] h = ground arith
slug_bytes (c ∷ s) h = ground (arith, all_sound is_alnum (c ∷ s))

pub label_bytes : (s : Bytes) → validate_label s ≡ none → All IsLabelByte s × (s ≢ [])
unfolding validate_label
label_bytes [] h = ground arith
label_bytes (c ∷ []) h = ground arith
label_bytes (c ∷ d ∷ s) h = ground (arith, all_sound is_label_byte (d ∷ s))

host_byte : (c : ℕ) → IsLabelByte c → IsHostByte c
unfolding lower
host_byte c h = ground arith

pub slug_byte : (c : ℕ) → IsSlugByte c → IsLabelByte c
slug_byte c h = ground arith

pub All-map-imp {ℓ κ} :
    {P : ℕ → Type ℓ} {Q : ℕ → Type κ} (f : (c : ℕ) → P c → Q c) (s : Bytes) → All P s → All Q s
All-map-imp f [] h = tt
All-map-imp f (c ∷ s) h = (f c h.0, All-map-imp f s h.1)

to_lower_id : (s : Bytes) → All IsHostByte s → to_lower s ≡ s
unfolding to_lower
to_lower_id [] h = refl
to_lower_id (c ∷ s) h = cc (h.0.0, to_lower_id s h.1)

before_id : (s : Bytes) → All IsHostByte s → before b':' s ≡ s
unfolding before
before_id [] h = refl
before_id (c ∷ s) h = ground (arith, before_id s h.1)

-- A text that does not end with a dot keeps its end.
strip_dot : (s : Bytes) (c : ℕ) → c ≢ b'.' → strip_suffix (s ++ c ∷ []) (b'.' ∷ []) ≡ none
unfolding strip_suffix strip_prefix
strip_dot s c h = rw (reverse-append s (c ∷ [])) (ground arith)

split_last_absent : (b : ℕ) (s : Bytes) → All (λ c. c ≢ b) s → split_last b s ≡ none
unfolding split_last
split_last_absent b [] h = refl
split_last_absent b (c ∷ s) h = ground (arith, split_last_absent b s h.1)

split_last-append :
    (b : ℕ) (p q : Bytes) → All (λ c. c ≢ b) q → split_last b (p ++ b ∷ q) ≡ some (p, q)
unfolding split_last
split_last-append b [] q h = ground (arith, split_last_absent b q h)
split_last-append b (c ∷ p) q h = ground (arith, split_last-append b p q h)

split_absent : (b : ℕ) (s : Bytes) → All (λ c. c ≢ b) s → split b s ≡ s ∷ []
unfolding split
split_absent b [] h = refl
split_absent b (c ∷ s) h = ground (arith, split_absent b s h.1)

split-append :
    (b : ℕ) (p q : Bytes)
    → All (λ c. c ≢ b) p
    → All (λ c. c ≢ b) q
    → split b (p ++ b ∷ q) ≡ p ∷ q ∷ []
unfolding split
split-append b [] q h k = ground (arith, split_absent b q k)
split-append b (c ∷ p) q h k = ground (arith, split-append b p q h.1 k)

-- A base domain in lower case, with no port and no final dot, as the configuration holds it.
pub record IsBase (base : Bytes) : Type 0 where
  pub plain : All IsHostByte base
  pub closed : ends_with (λ c. not (c == b'.')) base ≡ true

last_byte :
    (p : ℕ → Bool) (s : Bytes)
    → ends_with p s ≡ true
    → (s' : Bytes) × (c : ℕ) × (s ≡ s' ++ c ∷ []) × (p c ≡ true)
last_byte p [] h = cc
last_byte p (c ∷ []) h = ([], c, refl, h)
last_byte p (c ∷ d ∷ s) h =
    let (s', e, eq, q) = last_byte p (d ∷ s) h in (c ∷ s', e, ap (◌∷◌ c) eq, q)

dot_plain : IsHostByte b'.'
unfolding lower
dot_plain = ground arith

-- What is left of a plain host once its base domain is found.
slug_from_host-append :
    (labels base : Bytes) (shape : Shape)
    → labels ≢ []
    → All IsHostByte labels
    → IsBase base
    → slug_from_host (labels ++ b'.' ∷ base) base shape ≡ slug_of_labels labels shape
unfolding slug_from_host slug_under_base
slug_from_host-append labels base shape ne plain v =
    let (s', c, e, q) = last_byte _ base v.closed in
    let host_plain = All-append IsHostByte labels (b'.' ∷ base) plain (dot_plain, v.plain) in
    let no_dot : strip_suffix (labels ++ b'.' ∷ base) (b'.' ∷ []) ≡ none =
      rw (e, ← append_assoc labels (b'.' ∷ s') (c ∷ []))
        (strip_dot (labels ++ b'.' ∷ s') c (ground arith)) in
    rw
      (
        to_lower_id _ host_plain,
        before_id _ host_plain,
        trim_suffix_absent _ _ no_dot,
        strip_suffix-append labels (b'.' ∷ base),
      )
      (nonempty labels ne)
  where
    nonempty :
        (l : Bytes)
        → l ≢ []
        → (if is_empty l then [] else slug_of_labels l shape) ≡ slug_of_labels l shape
    nonempty [] n = absurd (n refl)
    nonempty (x ∷ l) n = refl

slug_no : (b : ℕ) → is_alnum b ≡ false → (s : Bytes) → All IsSlugByte s → All (λ c. c ≢ b) s
slug_no b h [] k = tt
slug_no b h (c ∷ s) k = (λ e. cc (ap is_alnum e), slug_no b h s k.1)

label_no_dot : (s : Bytes) → All IsLabelByte s → All (λ c. c ≢ b'.') s
label_no_dot [] k = tt
label_no_dot (c ∷ s) k = (ground arith, label_no_dot s k.1)

module _ (label slug base : Bytes) (l : validate_label label ≡ none) (s : validate_slug slug ≡ none)
    (v : IsBase base) where
  label_plain : All IsHostByte label
  label_plain = All-map-imp host_byte label (label_bytes label l).0

  slug_plain : All IsHostByte slug
  slug_plain = All-map-imp (λ c h. host_byte c (slug_byte c h)) slug (slug_bytes slug s).0

  joined_plain : (c : ℕ) → IsHostByte c → All IsHostByte (label ++ c ∷ slug)
  joined_plain c h = All-append IsHostByte label (c ∷ slug) label_plain (h, slug_plain)

joined_nonempty : (a b : Bytes) (c : ℕ) → (a ++ c ∷ b) ≢ []
joined_nonempty [] b c e = cc
joined_nonempty (x ∷ a) b c e = cc

hostname_joined :
    (label slug base : Bytes) (c : ℕ)
    → label ++ c ∷ (slug ++ b'.' ∷ base) ≡ (label ++ c ∷ slug) ++ b'.' ∷ base
hostname_joined label slug base c = sym (append_assoc label (c ∷ slug) (b'.' ∷ base))

hyphen_plain : IsHostByte b'-'
unfolding lower
hyphen_plain = ground arith

if_nonempty {ℓ} : {A : Type ℓ} (s : Bytes) (x y : A) → s ≢ [] → (if is_empty s then x else y) ≡ y
if_nonempty [] x y n = absurd (n refl)
if_nonempty (c ∷ s) x y n = refl

both_nonempty : (p q : Bytes) → p ≢ [] → q ≢ [] → (if is_empty p || is_empty q then [] else q) ≡ q
both_nonempty [] q n m = absurd (n refl)
both_nonempty (c ∷ p) [] n m = absurd (m refl)
both_nonempty (c ∷ p) (d ∷ q) n m = refl

-- A host rendered for a valid name and a valid slug, under a base domain in lower case with no
-- port and no final dot, parses back: to the slug under the hyphen and the subdomain shape, and to
-- no slug under the flat shape.
pub slug_from_host-hostname :
    (label slug base : Bytes) (shape : Shape)
    → validate_label label ≡ none
    → validate_slug slug ≡ none
    → IsBase base
    → slug_from_host (hostname label slug base shape) base shape
      ≡ elim shape [ flat ↦ [] | _ ↦ slug ]
unfolding hostname slug_of_labels
slug_from_host-hostname label slug base hyphen l s v =
    let ne = (slug_bytes slug s).1 in
    rw
      (
        if_nonempty slug (label ++ b'.' ∷ base) (label ++ b'-' ∷ (slug ++ b'.' ∷ base)) ne,
        hostname_joined label slug base b'-',
      )
      (slug_from_host-append (label ++ b'-' ∷ slug) base hyphen (joined_nonempty label slug b'-')
          (joined_plain label slug base l s v b'-' hyphen_plain) v
        ∙ rw
            (
              split_last-append b'-' label slug (slug_no b'-' refl slug (slug_bytes slug s).0),
              slug_of_labels,
            )
            (both_nonempty label slug (label_bytes label l).1 ne))
slug_from_host-hostname label slug base subdomain l s v =
    let ne = (slug_bytes slug s).1 in
    rw
      (
        if_nonempty slug (label ++ b'.' ∷ base) (label ++ b'.' ∷ (slug ++ b'.' ∷ base)) ne,
        hostname_joined label slug base b'.',
      )
      (slug_from_host-append (label ++ b'.' ∷ slug) base subdomain (joined_nonempty label slug b'.')
          (joined_plain label slug base l s v b'.' dot_plain) v
        ∙ rw
            (split-append b'.' label slug (label_no_dot label (label_bytes label l).0)
              (slug_no b'.' refl slug (slug_bytes slug s).0))
            refl)
slug_from_host-hostname label slug base flat l s v =
    rw (if_nonempty slug (label ++ b'.' ∷ base) (label ++ b'.' ∷ base) (slug_bytes slug s).1) (
      slug_from_host-append label base flat (label_bytes label l).1
        (label_plain label slug base l s v) v)

some_pair :
    (p q p' q' : Bytes)
    → ◌≡◌ {A = Option (Bytes × Bytes)} (some (p, q)) (some (p', q'))
    → (p ≡ p') × (q ≡ q')
some_pair p q p' q' e = ground arith

two_parts : (p q p' q' : Bytes) → p ∷ q ∷ [] ≡ p' ∷ q' ∷ [] → (p ≡ p') × (q ≡ q')
two_parts p q p' q' e = ground arith

hyphen_injective :
    (label slug label' slug' : Bytes)
    → validate_slug slug ≡ none
    → validate_slug slug' ≡ none
    → label ++ b'-' ∷ slug ≡ label' ++ b'-' ∷ slug'
    → (label ≡ label') × (slug ≡ slug')
hyphen_injective label slug label' slug' s s' e =
    let free = λ (t : Bytes) (k : validate_slug t ≡ none). slug_no b'-' refl t (slug_bytes t k).0 in
    some_pair label slug label' slug' (
      sym (split_last-append b'-' label slug (free slug s))
      ∙ ap (split_last b'-') e
      ∙ split_last-append b'-' label' slug' (free slug' s'))

subdomain_injective :
    (label slug label' slug' : Bytes)
    → validate_label label ≡ none
    → validate_label label' ≡ none
    → validate_slug slug ≡ none
    → validate_slug slug' ≡ none
    → label ++ b'.' ∷ slug ≡ label' ++ b'.' ∷ slug'
    → (label ≡ label') × (slug ≡ slug')
subdomain_injective label slug label' slug' l l' s s' e =
    let free = λ (t : Bytes) (k : validate_slug t ≡ none). slug_no b'.' refl t (slug_bytes t k).0 in
    let whole = λ (t : Bytes) (k : validate_label t ≡ none). label_no_dot t (label_bytes t k).0 in
    two_parts label slug label' slug' (
      sym (split-append b'.' label slug (whole label l) (free slug s))
      ∙ ap (split b'.') e
      ∙ split-append b'.' label' slug' (whole label' l') (free slug' s'))

-- Under the hyphen and the subdomain shape, two tunnels with valid names and valid slugs under one
-- base domain have the same host only if both the names and the slugs are equal.
pub hostname-injective :
    (shape : Shape) (label slug label' slug' base : Bytes)
    → shape ≢ flat
    → validate_label label ≡ none
    → validate_label label' ≡ none
    → validate_slug slug ≡ none
    → validate_slug slug' ≡ none
    → hostname label slug base shape ≡ hostname label' slug' base shape
    → (label ≡ label') × (slug ≡ slug')
unfolding hostname
hostname-injective hyphen label slug label' slug' base ne l l' s s' e =
    hyphen_injective label slug label' slug' s s' (
      append_cancel_right _ _ (b'.' ∷ base) (
        sym (hostname_joined label slug base b'-')
        ∙ sym (if_nonempty slug _ _ (slug_bytes slug s).1)
        ∙ e
        ∙ if_nonempty slug' _ _ (slug_bytes slug' s').1
        ∙ hostname_joined label' slug' base b'-'))
hostname-injective subdomain label slug label' slug' base ne l l' s s' e =
    subdomain_injective label slug label' slug' l l' s s' (
      append_cancel_right _ _ (b'.' ∷ base) (
        sym (hostname_joined label slug base b'.')
        ∙ sym (if_nonempty slug _ _ (slug_bytes slug s).1)
        ∙ e
        ∙ if_nonempty slug' _ _ (slug_bytes slug' s').1
        ∙ hostname_joined label' slug' base b'.'))
hostname-injective flat label slug label' slug' base ne l l' s s' e = absurd (ne refl)
