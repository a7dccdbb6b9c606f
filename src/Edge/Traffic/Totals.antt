-- ===== src/Edge/Traffic/Totals.antt =====
-- The totals by slug are those of the connections that were recorded.
use beamd.Prelude.{
  ℕ, ◌+◌, ◌%◌, ◌≡◌, refl, ap, true, false, List, [], ◌∷◌, Bytes, is_empty, arith, ◌==◌, nat_eq,
  list_eq, eq_iff, if◌then◌else◌, lookup, insert, lookup-insert, get_or_else, Bool-cases, inl, inr,
  if_split,
}
use beamd.Edge.Traffic.{
  TrafficKey, TrafficCounts, word, plus64, key_eq, Store, zero_counts, record_traffic, roll_up,
  bytes_out_by_slug,
}

-- One call of RecordTraffic.
pub record Delta : Type 0 where
  pub slug : Bytes
  pub name : Bytes
  pub bytes_in : ℕ
  pub bytes_out : ℕ

abbrev pub record_all : List Delta → Store → Store
record_all [] m = m
record_all (d ∷ ds) m = record_all ds (record_traffic m d.slug d.name d.bytes_in d.bytes_out)

-- What was sent for a slug, as a plain sum.
abbrev pub sent : Bytes → List Delta → ℕ
sent s [] = 0
sent s (d ∷ ds) = (if d.slug == s then d.bytes_out else 0) + sent s ds

-- The same of a store.
abbrev stored : Bytes → Store → ℕ
stored s [] = 0
stored s ((k, c) ∷ m) = (if k.slug == s then c.out else 0) + stored s m

abbrev pub total : Bytes → List (Bytes × ℕ) → ℕ
total s out = get_or_else (lookup s out) 0

total-insert :
    (s t : Bytes) (n : ℕ) (out : List (Bytes × ℕ))
    → total s (insert t n out) ≡ (if t == s then n else total s out)
total-insert s t n out = ground (arith, lookup-insert t s n out)

roll_up-total :
    (s : Bytes) (m : Store) (out : List (Bytes × ℕ))
    → total s (roll_up m out) % word ≡ (total s out + stored s m) % word
unfolding roll_up
roll_up-total s [] out = omega arith
roll_up-total s ((k, c) ∷ m) out =
    let n = plus64 (total k.slug out) c.out in
    let ih = roll_up-total s m (insert k.slug n out) in
    let now = total-insert s k.slug n out in
    elim (Bool-cases (k.slug == s)) [
      | inl e ↦
          let same : total k.slug out ≡ total s out =
            ap (λ (t : Bytes). total t out) ((eq_iff k.slug s).0 e) in
          let put : total s (insert k.slug n out) ≡ n = rw e at now in
          rw e (omega (arith, ih, put, same))
      | inr e ↦
          let put : total s (insert k.slug n out) ≡ total s out = rw e at now in
          rw e (omega (arith, ih, put))
    ]

-- The counts under a key, before and after an assignment.
stored-insert :
    (s : Bytes) (k : TrafficKey) (c : TrafficCounts) (m : Store)
    → stored s (insert k c m)
        + (if k.slug == s then (get_or_else (lookup k m) zero_counts).out else 0)
      ≡ stored s m + (if k.slug == s then c.out else 0)
unfolding insert lookup
stored-insert s k c [] = ground arith
stored-insert s k c ((j, b) ∷ m) = elim (Bool-cases (j == k)) [
  | inl e ↦
      let same : j.slug ≡ k.slug = ap (λ (i : TrafficKey). i.slug) ((eq_iff j k).0 e) in
      rw e (omega (arith, ap (λ (t : Bytes). if t == s then b.out else 0) same))
  | inr e ↦ rw e (omega (arith, stored-insert s k c m))
]

differs : (a s : Bytes) → is_empty a ≡ true → is_empty s ≡ false → (a == s) ≡ false
differs a s h k = ground (arith, eq_iff a s)

-- One more connection.
deposit :
    (s : Bytes) (k : TrafficKey) (n o : ℕ) (m : Store)
    → stored s (
          insert k
            (record { in_ = n; out = plus64 (get_or_else (lookup k m) zero_counts).out o })
            m)
        % word
      ≡ (stored s m + (if k.slug == s then o else 0)) % word
deposit s k n o m =
    let new : TrafficCounts = record {
      in_ = n;
      out = plus64 (get_or_else (lookup k m) zero_counts).out o;
    } in
    let change = stored-insert s k new m in
    elim (Bool-cases (k.slug == s)) [
      | inl e ↦ rw e (let c = rw e at change in omega (arith, c))
      | inr e ↦ rw e (let c = rw e at change in omega (arith, c))
    ]

record_traffic-stored :
    (s : Bytes) (d : Delta) (m : Store)
    → is_empty s ≡ false
    → stored s (record_traffic m d.slug d.name d.bytes_in d.bytes_out) % word
      ≡ (stored s m + (if d.slug == s then d.bytes_out else 0)) % word
unfolding record_traffic
record_traffic-stored s d m h =
    let k : TrafficKey = record { slug = d.slug; name = d.name } in
    let c = get_or_else (lookup k m) zero_counts in
    if_split
      (λ (n : Store).
        stored s n % word ≡ (stored s m + (if d.slug == s then d.bytes_out else 0)) % word)
      (is_empty d.slug) (λ empty. rw (differs d.slug s empty h) (omega arith))
      (λ named. deposit s k (plus64 c.in_ d.bytes_in) d.bytes_out m)

record_all-stored :
    (s : Bytes) (ds : List Delta) (m : Store)
    → is_empty s ≡ false
    → stored s (record_all ds m) % word ≡ (stored s m + sent s ds) % word
record_all-stored s [] m h = omega arith
record_all-stored s (d ∷ ds) m h = omega (
  arith,
  record_all-stored s ds (record_traffic m d.slug d.name d.bytes_in d.bytes_out) h,
  record_traffic-stored s d m h,
)

roll_up-small :
    (s : Bytes) (m : Store) (out : List (Bytes × ℕ))
    → total s out % word ≡ total s out
    → total s (roll_up m out) % word ≡ total s (roll_up m out)
unfolding roll_up
roll_up-small s [] out h = h
roll_up-small s ((k, c) ∷ m) out h =
    let n = plus64 (total k.slug out) c.out in
    let now = total-insert s k.slug n out in
    roll_up-small s m (insert k.slug n out) (elim (Bool-cases (k.slug == s)) [
      | inl e ↦ let c = rw e at now in omega (arith, c)
      | inr e ↦ let c = rw e at now in omega (arith, c, h)
    ])

-- What the usage report says of a slug is what the connections of that slug have sent, under whichever
-- names and in whatever order they were recorded, as an int64 counts it.
pub bytes_out_by_slug-record_all :
    (s : Bytes) (ds : List Delta)
    → is_empty s ≡ false
    → total s (bytes_out_by_slug (record_all ds [])) ≡ sent s ds % word
unfolding bytes_out_by_slug
bytes_out_by_slug-record_all s ds h =
    let start : total s [] % word ≡ total s [] = unfold lookup in refl in
    let zero_total : total s [] ≡ 0 = unfold lookup in refl in
    omega (
      arith,
      roll_up-small s (record_all ds []) [] start,
      roll_up-total s (record_all ds []) [],
      record_all-stored s ds [] h,
      zero_total,
    )
