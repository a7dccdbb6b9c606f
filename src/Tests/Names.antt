-- ===== src/Tests/Names.antt =====
-- internal/naming at concrete names, hosts and ports.
use beamd.Prelude.{
  ℕ, ◌≡◌, refl, List, [], map, true, ◌⊎◌, Option, none, arith, Bytes, codes, lower, list_beq,
}
use beamd.Prelude.Int.{pos}
use beamd.Naming.{hyphen, validate_label, validate_slug, hostname, slug_from_host}
use beamd.Naming.RoundTrip.{IsBase, slug_from_host-hostname, hostname-injective}
use beamd.Naming.Derive.{sanitize, derive_label, ok}
use beamd.Naming.Derive.Valid.{IsHexDigest, no_alnum, sanitize-IsLabel}

abbrev base : Bytes
base = codes "beam.dev"

base-IsBase : IsBase base
unfolding lower
base-IsBase = record { plain = ground arith; closed = refl }

app_valid : validate_label (codes "my-app") ≡ none
unfolding validate_label
app_valid = refl

slug_valid : validate_slug (codes "acme") ≡ none
unfolding validate_slug
slug_valid = refl

slug_from_host-hostname_example :
    slug_from_host (hostname (codes "my-app") (codes "acme") base hyphen) base hyphen ≡ codes "acme"
slug_from_host-hostname_example =
    slug_from_host-hostname (codes "my-app") (codes "acme") base hyphen app_valid slug_valid
      base-IsBase

hostname-injective_example : (codes "my-app" ≡ codes "my-app") × (codes "acme" ≡ codes "acme")
hostname-injective_example =
    hostname-injective hyphen (codes "my-app") (codes "acme") (codes "my-app") (codes "acme") base
      (λ e. cc) app_valid app_valid slug_valid slug_valid refl

-- A stand-in for the digest: 64 hex digits, the same for every text.
abbrev digest : Bytes → Bytes
digest s = codes "0123456789abcdef0123456789abcdef0123456789abcdef0123456789abcdef"

digest-IsHexDigest : IsHexDigest digest
digest-IsHexDigest = record { hex = λ s. ground arith; full = λ s. refl }

abbrev ascii_lower : ℕ → ℕ
ascii_lower = lower

sanitize_run : sanitize ascii_lower digest (codes "--My Project!") ≡ codes "my-project"
unfolding sanitize lower
sanitize_run = refl

abbrev no_git : List Bytes → Option Bytes
no_git args = none

abbrev same : Bytes → Bytes
same path = path

derived :
    derive_label ascii_lower digest no_git same same (codes "dir") (pos 8080) (codes "My Project")
    ≡ ok (codes "my-project")
unfolding derive_label sanitize lower list_beq validate_label
derived = refl

sanitize-IsLabel_example :
    ((sanitize ascii_lower digest (codes "--My Project!") ≡ [])
      ⊎ (validate_label (sanitize ascii_lower digest (codes "--My Project!")) ≡ none))
    × (sanitize ascii_lower digest (codes "--My Project!") ≡ []
        → no_alnum (map ascii_lower (codes "--My Project!")) ≡ true)
sanitize-IsLabel_example =
    sanitize-IsLabel ascii_lower digest digest-IsHexDigest (codes "--My Project!")
