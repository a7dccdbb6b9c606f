-- ===== src/Auth/Http.antt =====
-- internal/auth/http_store.go: tokens verified by the control plane, with a cache.
use beamd.Prelude.{
  ℕ, ◌+◌, Bool, true, false, not, ◌||◌, List, [], ◌∷◌, ◌++◌, Option, none, some, Bytes, codes,
  is_empty, ltb, leb, ◌==◌, nat_eq, list_eq, if◌then◌else◌, length, contains, lookup, insert,
}
use beamd.Cache.{evict}

-- httpStoreResult; the set and the list of a session hold the same scopes.
pub record StoreResult : Type 0 where
  pub is_session : Bool
  pub slug : Bytes
  pub scope_set : List Bytes
  pub scope_list : List Bytes
  pub ok : Bool

abbrev pub rejected : StoreResult
rejected = record { is_session = false; slug = []; scope_set = []; scope_list = []; ok = false }

pub record CacheEntry : Type 0 where
  pub result : StoreResult
  pub expires : ℕ

pub record HttpStore : Type 0 where
  pub ttl : ℕ
  pub neg_ttl : ℕ
  pub cache : List (Bytes × CacheEntry)

-- verifyTokenResponse, less what the edge does not read.
pub record VerifyTokenResponse : Type 0 where
  pub kind : Bytes
  pub slug : Bytes
  pub scopes : List Bytes

unfoldable pub new_http_store : HttpStore
new_http_store = record { ttl = 60_000_000_000; neg_ttl = 5_000_000_000; cache = [] }

-- What the exchange with the verify endpoint yields: no response, or a status and a body, which is
-- none where it does not decode.
pub data Response : Type 0 where
  failed : Response
  status : ℕ → Option VerifyTokenResponse → Response

abbrev pub cache_max : ℕ
cache_max = 4096

-- The loop of fetch over the scopes: no empty and no repeated one, in order.
unfoldable pub collect_scopes : List Bytes → List Bytes → List Bytes
collect_scopes seen [] = seen
collect_scopes seen (s ∷ ss) =
    collect_scopes (if is_empty s || contains s seen then seen else seen ++ s ∷ []) ss

abbrev pub is_nonempty : List Bytes → Bool
is_nonempty [] = false
is_nonempty (s ∷ ss) = true

-- The verdict on a body that decodes.
unfoldable pub verdict : VerifyTokenResponse → StoreResult
unfolding collect_scopes
verdict out =
    let list = collect_scopes [] out.scopes in
    if out.kind == codes "session" || is_nonempty out.scopes
    then record {
      is_session = true;
      slug = [];
      scope_set = list;
      scope_list = list;
      ok = is_nonempty list;
    }
    else if is_empty out.slug
    then rejected
    else record { is_session = false; slug = out.slug; scope_set = []; scope_list = []; ok = true }

-- fetch; none is an error.
unfoldable pub fetch : Response → Option StoreResult
unfolding verdict
fetch failed = none
fetch (status code body) =
    if code == 401 || code == 404
    then some rejected
    else if code == 200
    then elim body [ none ↦ none | some out ↦ some (verdict out) ]
    else none

-- The cache with room for one more entry.
unfoldable pub make_room : HttpStore → ℕ → List Bytes → List (Bytes × CacheEntry)
make_room s later order =
    if leb cache_max (length s.cache)
    then evict (λ (e : CacheEntry). e.expires) later cache_max order s.cache
    else s.cache

-- The store after a fetched verdict is kept, at time `later`.
unfoldable pub keep : HttpStore → Bytes → ℕ → List Bytes → StoreResult → HttpStore
unfolding make_room
keep s token later order res = record s {
  cache =
      insert token
        (record { result = res; expires = later + (if res.ok then s.ttl else s.neg_ttl) })
        (make_room s later order);
}

-- lookup on a cache miss.
unfoldable pub verify : HttpStore → Bytes → ℕ → List Bytes → Response → HttpStore × StoreResult
unfolding fetch keep
verify s token later order response = elim (fetch response) [
  | none ↦ (s, rejected)
  | some res ↦ (keep s token later order res, res)
]

-- lookup at time `now`; a fetch ends at time `later`, and `order` is the map's in an eviction.
unfoldable pub lookup_token :
    HttpStore → Bytes → ℕ → ℕ → List Bytes → Response → HttpStore × StoreResult
unfolding verify
lookup_token s token now later order response =
    let fresh = verify s token later order response in
    elim (lookup token s.cache) [
      | none ↦ fresh
      | some e ↦ if ltb now e.expires then (s, e.result) else fresh
    ]

-- The scope that a verified credential acts in.
unfoldable pub authorize : StoreResult → Bytes → Option Bytes
authorize res requested =
    if not res.ok
    then none
    else if res.is_session
    then (if is_empty requested
        then elim res.scope_list [ [] ↦ none | s ∷ ss ↦ some s ]
        else if contains requested res.scope_set
        then some requested
        else none)
    else if is_empty requested || requested == res.slug
    then some res.slug
    else none

unfoldable pub resolve :
    HttpStore → Bytes → Bytes → ℕ → ℕ → List Bytes → Response → HttpStore × Option Bytes
unfolding lookup_token authorize
resolve s token requested now later order response =
    let found = lookup_token s token now later order response in
    (found.0, authorize found.1 requested)
