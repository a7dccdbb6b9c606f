-- ===== src/Edge/Traffic.antt =====
-- internal/edge/traffic.go: the bytes of each tunnel, and their file.
pub mod Totals
pub mod File
pub mod Flushed
pub mod Lease
pub mod Watch
pub mod Report
use beamd.Prelude.{
  ℕ, ◌+◌, ◌%◌, ◌≡◌, ◌↔◌, refl, ap, Bool, true, false, ◌&&◌, List, [], ◌∷◌, Option, none, some,
  Bytes, is_empty, arith, ◌==◌, nat_eq, list_eq, Eq, eq_iff, if◌then◌else◌, lookup, insert,
  get_or_else,
}

pub record TrafficKey : Type 0 where
  pub slug : Bytes
  pub name : Bytes

-- An int64, as its 64 bits.
pub record TrafficCounts : Type 0 where
  pub in_ : ℕ
  pub out : ℕ

abbrev pub word : ℕ
word = 18_446_744_073_709_551_616

-- `+=` on an int64.
abbrev pub plus64 : ℕ → ℕ → ℕ
plus64 a b = (a + b) % word

abbrev pub same_key : TrafficKey → TrafficKey → Bool
same_key a b = a.slug == b.slug && a.name == b.name

pub same_key_iff : (a b : TrafficKey) → (same_key a b ≡ true) ↔ (a ≡ b)
same_key_iff a b = ground (arith, eq_iff a.slug b.slug, eq_iff a.name b.name)

instance abbrev pub key_eq : Eq TrafficKey
key_eq = record { same = same_key; same_iff = same_key_iff }

abbrev pub Store : Type 0
Store = List (TrafficKey × TrafficCounts)

abbrev pub zero_counts : TrafficCounts
zero_counts = record { in_ = 0; out = 0 }

-- RecordTraffic
unfoldable pub record_traffic : Store → Bytes → Bytes → ℕ → ℕ → Store
record_traffic m slug name bytes_in bytes_out =
    let k : TrafficKey = record { slug = slug; name = name } in
    let c = get_or_else (lookup k m) zero_counts in
    if is_empty slug
    then m
    else insert k (record { in_ = plus64 c.in_ bytes_in; out = plus64 c.out bytes_out }) m

-- The loop of bytesOutBySlug.
unfoldable pub roll_up : Store → List (Bytes × ℕ) → List (Bytes × ℕ)
roll_up [] out = out
roll_up ((k, c) ∷ m) out =
    roll_up m (insert k.slug (plus64 (get_or_else (lookup k.slug out) 0) c.out) out)

unfoldable pub bytes_out_by_slug : Store → List (Bytes × ℕ)
unfolding roll_up
bytes_out_by_slug m = roll_up m []
