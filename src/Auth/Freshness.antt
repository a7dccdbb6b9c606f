-- ===== src/Auth/Freshness.antt =====
-- How old a verdict can be that the cache of HTTPStore gives, and how large the cache gets.
use beamd.Prelude.{
  ℕ, ◌+◌, ◌≤◌, ◌<◌, ◌≡◌, refl, sym, ap, ◌∙◌, ◌⊎◌, inl, inr, Bool, true, false, List, [], ◌∷◌,
  Option, none, some, arith, Bytes, ltb, ltb→lt, leb, ◌==◌, nat_eq, list_eq, eq_iff, if◌then◌else◌,
  length, lookup, lookup-insert, insert-Unique, length-insert-le, Unique, Bool-cases, Option-cases,
  Any, if_cases,
}
use beamd.Cache.Bounds.{Lists, evict_bound, evict_sub, evict-Unique}
use beamd.Auth.Http.{
  StoreResult, rejected, CacheEntry, HttpStore, Response, cache_max, fetch, make_room, keep, verify,
  lookup_token, authorize, resolve, new_http_store,
}

-- One completed exchange with the verify endpoint: the token, when it ended, and what it gave.
pub record Exchange : Type 0 where
  pub token : Bytes
  pub at : ℕ
  pub result : StoreResult

-- How long a verdict is kept.
abbrev pub lifetime : HttpStore → StoreResult → ℕ
lifetime s res = if res.ok then s.ttl else s.neg_ttl

-- The entry was made by the exchange.
abbrev pub Made : HttpStore → Bytes → CacheEntry → Exchange → Type 0
Made s token e x =
    (x.token ≡ token) × (x.result ≡ e.result) × (e.expires ≡ x.at + lifetime s x.result)

-- Every entry of the cache was made by a logged exchange.
pub record IsBacked (log : List Exchange) (s : HttpStore) : Type 0 where
  pub unique : Unique s.cache
  pub backed :
      (token : Bytes) (e : CacheEntry) → lookup token s.cache ≡ some e → Any (Made s token e) log

make_room_sub :
    (s : HttpStore) (later : ℕ) (order : List Bytes) (k : Bytes) (e : CacheEntry)
    → Unique s.cache
    → lookup k (make_room s later order) ≡ some e
    → lookup k s.cache ≡ some e
unfolding make_room
make_room_sub s later order k e u h =
    ground (arith, h, evict_sub (λ (v : CacheEntry). v.expires) later cache_max order s.cache k e u)

make_room-Unique :
    (s : HttpStore) (later : ℕ) (order : List Bytes)
    → Unique s.cache
    → Unique (make_room s later order)
unfolding make_room
make_room-Unique s later order u =
    if_cases Unique (leb cache_max (length s.cache))
      (evict-Unique _ later cache_max order s.cache u) u

-- There is room for one more entry, if an eviction ranges over every key.
make_room_bound :
    (s : HttpStore) (later : ℕ) (order : List Bytes)
    → Unique s.cache
    → Lists (λ (v : CacheEntry). v.expires) order s.cache
    → length (make_room s later order) < cache_max
unfolding make_room
make_room_bound s later order u l =
    ground (arith, evict_bound (λ (v : CacheEntry). v.expires) later cache_max order s.cache u l)

-- The cache holds at most 4096 tokens after a verdict is kept, if it has one entry for a token and an
-- eviction ranges over every token.
pub keep_bound :
    (s : HttpStore) (token : Bytes) (later : ℕ) (order : List Bytes) (res : StoreResult)
    → Unique s.cache
    → Lists (λ (v : CacheEntry). v.expires) order s.cache
    → length (keep s token later order res).cache ≤ cache_max
unfolding keep
keep_bound s token later order res u l =
    omega
      (arith, make_room_bound s later order u l, length-insert-le token _ (make_room s later order))

keep-IsBacked :
    (log : List Exchange) (s : HttpStore) (token : Bytes) (later : ℕ) (order : List Bytes)
    (res : StoreResult)
    → IsBacked log s
    → IsBacked
        (record { token = token; at = later; result = res } ∷ log)
        (keep s token later order res)
unfolding keep
keep-IsBacked log s token later order res b =
    let made : CacheEntry = record { result = res; expires = later + lifetime s res } in
    let room = make_room s later order in
    record {
      unique = insert-Unique token made room (make_room-Unique s later order b.unique);
      backed = λ k e h. elim (Bool-cases (token == k)) [
        | inl same ↦
            let fresh : made ≡ e = ground (arith, lookup-insert token k made room, h, same) in
            inl (
              (eq_iff token k).0 same,
              ap (λ (c : CacheEntry). c.result) fresh,
              sym (ap (λ (c : CacheEntry). c.expires) fresh),
            )
        | inr other ↦
            let old : lookup k room ≡ some e =
              ground (arith, lookup-insert token k made room, h, other) in
            inr (b.backed k e (make_room_sub s later order k e b.unique old))
      ];
    }

-- The arguments of one call of Resolve, with what happens around it.
pub record Call : Type 0 where
  pub token : Bytes
  pub requested : Bytes
  pub now : ℕ
  pub later : ℕ
  pub order : List Bytes
  pub response : Response

abbrev pub answer : HttpStore → Call → HttpStore × Option Bytes
answer s c = resolve s c.token c.requested c.now c.later c.order c.response

-- A cached verdict that has not expired serves the call.
abbrev pub is_hit : HttpStore → Call → Bool
is_hit s c = elim (lookup c.token s.cache) [ none ↦ false | some e ↦ ltb c.now e.expires ]

-- The log of exchanges after the call.
abbrev pub logged : List Exchange → HttpStore → Call → List Exchange
logged log s c = if is_hit s c then log else elim (fetch c.response) [
  | none ↦ log
  | some res ↦ record { token = c.token; at = c.later; result = res } ∷ log
]

verify-IsBacked :
    (log : List Exchange) (s : HttpStore) (c : Call)
    → is_hit s c ≡ false
    → IsBacked log s
    → IsBacked (logged log s c) (verify s c.token c.later c.order c.response).0
unfolding verify
verify-IsBacked log s c miss b = elim (Option-cases (fetch c.response)) [
  | inl failed ↦ rw (miss, failed, verify) b
  | inr (res, got) ↦ rw (miss, got, verify) (keep-IsBacked log s c.token c.later c.order res b)
]

answer_hit :
    (s : HttpStore) (c : Call)
    → is_hit s c ≡ true
    → (e : CacheEntry) × (lookup c.token s.cache ≡ some e)
      × (c.now < e.expires)
      × (answer s c ≡ (s, authorize e.result c.requested))
unfolding resolve lookup_token
answer_hit s c hit = elim (Option-cases (lookup c.token s.cache)) [
  | inl none_there ↦ absurd (ground arith)
  | inr (e, there) ↦
      let live : ltb c.now e.expires ≡ true = ground arith in
      (e, there, ltb→lt c.now e.expires live, rw (there, live, resolve, lookup_token) refl)
]

answer_miss :
    (s : HttpStore) (c : Call)
    → is_hit s c ≡ false
    → answer s c ≡ (
      (verify s c.token c.later c.order c.response).0,
      authorize (verify s c.token c.later c.order c.response).1 c.requested,
    )
unfolding resolve lookup_token
answer_miss s c miss = elim (Option-cases (lookup c.token s.cache)) [
  | inl none_there ↦ rw (none_there, resolve, lookup_token) refl
  | inr (e, there) ↦
      let dead : ltb c.now e.expires ≡ false = ground arith in
      rw (there, dead, resolve, lookup_token) refl
]

-- The exchange gave a verdict on the call's token that grants the slug, and it is younger than the
-- time that a positive verdict is kept, or was made by the call itself.
abbrev pub Backs : HttpStore → Call → Bytes → Exchange → Type 0
Backs s c slug x =
    (x.token ≡ c.token)
    × (authorize x.result c.requested ≡ some slug)
    × ((c.now < x.at + s.ttl) ⊎ (x.at ≡ c.later))

authorized_ok : (res : StoreResult) (r slug : Bytes) → authorize res r ≡ some slug → res.ok ≡ true
unfolding authorize
authorized_ok res r slug h = ground arith

Any-map {ℓ} :
    {A : Type ℓ} {P Q : A → Type 0} (f : (a : A) → P a → Q a) (l : List A) → Any P l → Any Q l
Any-map f [] h = absurd h
Any-map f (x ∷ l) (inl p) = inl (f x p)
Any-map f (x ∷ l) (inr r) = inr (Any-map f l r)

Backs-of_Made :
    (s : HttpStore) (c : Call) (slug : Bytes) (e : CacheEntry) (x : Exchange)
    → c.now < e.expires
    → authorize e.result c.requested ≡ some slug
    → Made s c.token e x
    → Backs s c slug x
Backs-of_Made s c slug e x live granted (same, res, made) =
    let there : authorize x.result c.requested ≡ some slug = rw res granted in
    (same, there, inl (ground (arith, authorized_ok x.result c.requested slug there)))

verify_failed :
    (s : HttpStore) (token : Bytes) (later : ℕ) (order : List Bytes) (r : Response)
    → fetch r ≡ none
    → (verify s token later order r).1 ≡ rejected
unfolding verify
verify_failed s token later order r f = rw (f, verify)

verify_got :
    (s : HttpStore) (token : Bytes) (later : ℕ) (order : List Bytes) (r : Response)
    (res : StoreResult)
    → fetch r ≡ some res
    → (verify s token later order r).1 ≡ res
unfolding verify
verify_got s token later order r res f = rw (f, verify)

rejected_denies : (r slug : Bytes) → authorize rejected r ≡ some slug → ⊥
unfolding authorize
rejected_denies r slug h = cc

answer_backed :
    (log : List Exchange) (s : HttpStore) (c : Call) (slug : Bytes)
    → IsBacked log s
    → (answer s c).1 ≡ some slug
    → Any (Backs s c slug) (logged log s c)
answer_backed log s c slug b granted = elim (Bool-cases (is_hit s c)) [
  | inl hit ↦
      let (e, there, live, what) = answer_hit s c hit in
      let ok : authorize e.result c.requested ≡ some slug =
        sym (ap (λ (p : HttpStore × Option Bytes). p.1) what) ∙ granted in
      rw hit (Any-map (λ x. Backs-of_Made s c slug e x live ok) log (b.backed c.token e there))
  | inr miss ↦
      let ok : authorize (verify s c.token c.later c.order c.response).1 c.requested ≡ some slug =
        sym (ap (λ (p : HttpStore × Option Bytes). p.1) (answer_miss s c miss)) ∙ granted in
      elim (Option-cases (fetch c.response)) [
        | inl failed ↦ absurd (
            rejected_denies c.requested slug
              (rw (verify_failed s c.token c.later c.order c.response failed) at ok))
        | inr (res, got) ↦
            rw (miss, got)
              (inl (
                refl,
                rw (verify_got s c.token c.later c.order c.response res got) at ok,
                inr refl,
              ))
      ]
]

answer-IsBacked :
    (log : List Exchange) (s : HttpStore) (c : Call)
    → IsBacked log s
    → IsBacked (logged log s c) (answer s c).0
answer-IsBacked log s c b = elim (Bool-cases (is_hit s c)) [
  | inl hit ↦
      let (e, there, live, what) = answer_hit s c hit in
      rw (hit, ap (λ (p : HttpStore × Option Bytes). p.0) what) b
  | inr miss ↦
      rw (ap (λ (p : HttpStore × Option Bytes). p.0) (answer_miss s c miss))
        (verify-IsBacked log s c miss b)
]

-- The log and the store after a sequence of calls on a new store.
unfoldable pub run : List Call → List Exchange × HttpStore
run [] = ([], new_http_store)
run (c ∷ cs) = let (log, s) = run cs in (logged log s c, (answer s c).0)

new-IsBacked : IsBacked [] new_http_store
unfolding new_http_store lookup
new-IsBacked = record { unique = tt; backed = λ token e h. cc }

run-IsBacked : (cs : List Call) → IsBacked (run cs).0 (run cs).1
unfolding run
run-IsBacked [] = new-IsBacked
run-IsBacked (c ∷ cs) = answer-IsBacked (run cs).0 (run cs).1 c (run-IsBacked cs)

-- After any calls on a new store, a slug that a call is given was granted by a verify exchange for
-- the call's own token and requested scope, one that ended less than the store's positive lifetime
-- before the call, or that the call made.
pub run_backed :
    (cs : List Call) (c : Call) (slug : Bytes)
    → (answer (run cs).1 c).1 ≡ some slug
    → Any (Backs (run cs).1 c slug) (logged (run cs).0 (run cs).1 c)
run_backed cs c slug h = answer_backed (run cs).0 (run cs).1 c slug (run-IsBacked cs) h
