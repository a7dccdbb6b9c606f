-- ===== src/Auth/Scopes.antt =====
-- Which scopes a credential is given.
use mathlib.Core.Path.{subst}
use beamd.Prelude.{
  ℕ, ◌≡◌, refl, sym, ap, ◌∙◌, ◌≢◌, ◌↔◌, ◌⊎◌, inl, inr, Bool, true, false, not, ◌&&◌, ◌||◌, List, [],
  ◌∷◌, ◌++◌, some, arith, Bytes, codes, is_empty, ◌==◌, nat_eq, list_eq, eq_iff, eq_refl,
  if◌then◌else◌, contains, lookup, Bool-cases, Option-cases,
}
use beamd.Auth.{MemoryStore, resolve as resolve_memory}
use beamd.Auth.Http.{
  StoreResult, rejected, VerifyTokenResponse, collect_scopes, is_nonempty, verdict, authorize,
}

-- A token of the memory store acts in its own slug, and only if no other scope is asked for.
pub resolve_memory_iff :
    (tokens : MemoryStore) (token requested slug : Bytes)
    → (resolve_memory tokens token requested ≡ some slug)
      ↔ ((lookup token tokens ≡ some slug) × ((requested ≡ []) ⊎ (requested ≡ slug)))
unfolding resolve_memory
resolve_memory_iff tokens token [] slug = ground arith
resolve_memory_iff tokens token (c ∷ r) slug = elim (Option-cases (lookup token tokens)) [
  | inl miss ↦ ground arith
  | inr (own, hit) ↦ ground (arith, eq_iff (c ∷ r) own, eq_iff (c ∷ r) slug)
]

contains-append :
    (x : Bytes) (xs : List Bytes) (y : Bytes)
    → contains x (xs ++ y ∷ []) ≡ (contains x xs || y == x)
unfolding contains
contains-append x [] y = ground arith
contains-append x (z ∷ xs) y = ground (arith, contains-append x xs y)

-- The scopes collected: the non-empty ones that are listed.
contains-collect_scopes :
    (x : Bytes) (seen ss : List Bytes)
    → contains x (collect_scopes seen ss) ≡ (contains x seen || (not (is_empty x) && contains x ss))
unfolding collect_scopes contains
contains-collect_scopes x seen [] = ground arith
contains-collect_scopes x seen (s ∷ ss) = elim (Bool-cases (is_empty s || contains s seen)) [
  | inl skip ↦ rw skip (ground (arith, contains-collect_scopes x seen ss, eq_iff s x, skip))
  | inr fresh ↦ rw fresh (
      ground (
        arith,
        contains-collect_scopes x (seen ++ s ∷ []) ss,
        contains-append x seen s,
        eq_iff s x,
        fresh,
      ))
]

-- The scopes that a verified body names: those of a session, or the one of a key.
abbrev pub is_session_body : VerifyTokenResponse → Bool
is_session_body out = out.kind == codes "session" || is_nonempty out.scopes

abbrev pub InScopes : VerifyTokenResponse → Bytes → Type 0
InScopes out slug =
    (slug ≢ []) × (if is_session_body out then contains slug out.scopes ≡ true else slug ≡ out.slug)

first_scope :
    (ss : List Bytes) (s : Bytes) (r : List Bytes)
    → collect_scopes [] ss ≡ s ∷ r
    → (s ≢ []) × (contains s ss ≡ true)
unfolding contains
first_scope ss s r e =
    let found = sym (contains-collect_scopes s [] ss) ∙ ap (contains s) e in
    let both : (not (is_empty s) && contains s ss) ≡ true = ground (arith, found, eq_refl s) in
    (λ p. ground (arith, both, ap is_empty p), ground (arith, both))

nonempty_of : (s : Bytes) → is_empty s ≡ false → s ≢ []
nonempty_of s h p = ground (arith, ap is_empty p)

-- The result kept for a session with these scopes.
abbrev session_result : List Bytes → StoreResult
session_result list = record {
  is_session = true;
  slug = [];
  scope_set = list;
  scope_list = list;
  ok = is_nonempty list;
}

abbrev Granted : List Bytes → Bytes → Bytes → Type 0
Granted ss requested slug =
    (slug ≢ []) × (contains slug ss ≡ true) × ((requested ≡ []) ⊎ (requested ≡ slug))

session_sound :
    (ss list : List Bytes) (requested slug : Bytes)
    → collect_scopes [] ss ≡ list
    → authorize (session_result list) requested ≡ some slug
    → Granted ss requested slug
unfolding authorize
session_sound ss [] requested slug e h = absurd (ground arith)
session_sound ss (s ∷ r) [] slug e h =
    let same : s ≡ slug = ground arith in
    let (ne, seen) = first_scope ss s r e in subst (Granted ss []) same (ne, seen, inl refl)
session_sound ss (s ∷ r) (c ∷ q) slug e h =
    let same : c ∷ q ≡ slug = ground arith in
    let found : contains (c ∷ q) (s ∷ r) ≡ true = ground arith in
    let kept = sym (contains-collect_scopes (c ∷ q) [] ss) ∙ ap (contains (c ∷ q)) e ∙ found in
    subst (Granted ss (c ∷ q)) same ((λ p. cc), unfold contains in kept, inr refl)

-- The result kept for a key with this slug.
abbrev key_result : Bytes → StoreResult
key_result own =
    if is_empty own
    then rejected
    else record { is_session = false; slug = own; scope_set = []; scope_list = []; ok = true }

key_sound :
    (own requested slug : Bytes)
    → authorize (key_result own) requested ≡ some slug
    → (slug ≢ []) × (slug ≡ own) × ((requested ≡ []) ⊎ (requested ≡ slug))
unfolding authorize
key_sound [] requested slug h = absurd (ground arith)
key_sound (c ∷ own) [] slug h =
    let same : c ∷ own ≡ slug = ground arith in ((λ p. cc (same, p)), sym same, inl refl)
key_sound (c ∷ own) (d ∷ q) slug h =
    let same : c ∷ own ≡ slug = ground arith in
    let asked : d ∷ q ≡ c ∷ own = ground (arith, eq_iff (d ∷ q) (c ∷ own)) in
    ((λ p. cc (same, p)), sym same, inr (asked ∙ same))

key_complete : (c : ℕ) (own : Bytes) → authorize (key_result (c ∷ own)) (c ∷ own) ≡ some (c ∷ own)
unfolding authorize
key_complete c own = ground (arith, eq_refl (c ∷ own))

session_complete :
    (ss list : List Bytes) (c : ℕ) (q : Bytes)
    → collect_scopes [] ss ≡ list
    → contains (c ∷ q) ss ≡ true
    → authorize (session_result list) (c ∷ q) ≡ some (c ∷ q)
unfolding authorize contains
session_complete ss [] c q e h =
    absurd (ground (arith, contains-collect_scopes (c ∷ q) [] ss, ap (contains (c ∷ q)) e))
session_complete ss (s ∷ r) c q e h =
    ground (arith, contains-collect_scopes (c ∷ q) [] ss, ap (contains (c ∷ q)) e)

authorize_session :
    (out : VerifyTokenResponse)
    → is_session_body out ≡ true
    → verdict out ≡ session_result (collect_scopes [] out.scopes)
unfolding verdict
authorize_session out h = rw (h, verdict)

authorize_key :
    (out : VerifyTokenResponse) → is_session_body out ≡ false → verdict out ≡ key_result out.slug
unfolding verdict
authorize_key out h = rw (h, verdict)

-- Whatever is granted on a verified body is one of the scopes that the body names, and the scope
-- asked for, if one was.
pub authorize-verdict_sound :
    (out : VerifyTokenResponse) (requested slug : Bytes)
    → authorize (verdict out) requested ≡ some slug
    → InScopes out slug × ((requested ≡ []) ⊎ (requested ≡ slug))
authorize-verdict_sound out requested slug h = elim (Bool-cases (is_session_body out)) [
  | inl session ↦
      let (ne, seen, asked) =
        session_sound out.scopes _ requested slug refl (rw (authorize_session out session) at h) in
      rw session ((ne, seen), asked)
  | inr key ↦
      let (ne, own, asked) = key_sound out.slug requested slug (rw (authorize_key out key) at h) in
      rw key ((ne, own), asked)
]

-- A scope that is asked for by name is granted exactly if the verified body names it.
pub authorize-verdict_iff :
    (out : VerifyTokenResponse) (c : ℕ) (q : Bytes)
    → (authorize (verdict out) (c ∷ q) ≡ some (c ∷ q)) ↔ InScopes out (c ∷ q)
authorize-verdict_iff out c q = (
  λ h. (authorize-verdict_sound out (c ∷ q) (c ∷ q) h).0,
  λ granted. elim (Bool-cases (is_session_body out)) [
    | inl session ↦
        rw (authorize_session out session)
          (session_complete out.scopes _ c q refl (rw session at granted.1))
    | inr key ↦
        let own : c ∷ q ≡ out.slug = rw key at granted.1 in
        rw (authorize_key out key, ← own) (key_complete c q)
  ],
)
