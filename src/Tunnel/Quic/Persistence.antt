-- ===== src/Tunnel/Quic/Persistence.antt =====
-- The key of a server survives a restart.
use beamd.Prelude.{
  ◌≡◌, inl, inr, refl, Bool, true, false, not, some, Bytes, arith, ◌==◌, nat_eq, if_cases, if_split,
  length, Option-cases,
}
use beamd.Tunnel.Quic.Keys.{
  KeyFile, Found, file, not_exist, stat_error, Key, key, bad_key, Weather, owner_only,
  write_quic_key_atomic, read_key, written, load_or_create_quic_key,
}

-- A good key that is read is kept: another call, whose own read succeeds, gives the same key.
abbrev pub Kept : Found × Key → Weather → Type 0
Kept (at, key k) again = load_or_create_quic_key again at ≡ (at, key k)
Kept (at, bad_key e) again = Unit

read-Kept :
    (w again : Weather) (f : KeyFile) → again.reads ≡ true → Kept (file f, read_key w f) again
unfolding read_key load_or_create_quic_key
read-Kept w again f ok =
    let P : Key → Type 0 = λ k. Kept (file f, k) again in
    if_split P (not f.regular) (λ bad. tt)
      λ regular.
        if_split P (not (f.mode == owner_only)) (λ bad. tt)
          λ mode. if_cases P (not w.reads) tt (
            if_split P (not (length f.content == 32)) (λ bad. tt)
              λ full. rw (regular, mode, full, ok) refl)

full_32 : (data_ : Bytes) → length data_ ≡ 32 → (not (length data_ == 32)) ≡ false
full_32 data_ h = ground (arith, h)

fresh-Kept :
    (again : Weather) (data_ : Bytes)
    → length data_ ≡ 32
    → again.reads ≡ true
    → Kept (file (record { regular = true; mode = owner_only; content = data_ }), key data_) again
unfolding load_or_create_quic_key read_key
fresh-Kept again data_ full ok = rw (full_32 data_ full, ok) refl

write-Kept :
    (w again : Weather) (data_ : Bytes)
    → length data_ ≡ 32
    → again.reads ≡ true
    → Kept (written data_ (write_quic_key_atomic w not_exist data_)) again
unfolding write_quic_key_atomic
write-Kept w again data_ full ok =
    let P : Found × Bool → Type 0 = λ o. Kept (written data_ o) again in
    if_cases P (not w.creates) tt (
      if_cases P (not w.chmods) tt (
        if_cases P (not w.writes) tt (
          if_cases P (not w.syncs) tt (
            if_cases P (not w.closes) tt
              (if_cases P (not w.renames) tt (fresh-Kept again data_ full ok))))))

-- Whatever is at the path and whatever the operating system does: where a call gives a key, an earlier
-- one or a new one of 32 random bytes, each later call that can read gives the same key, and leaves the
-- file as it is.
pub load_or_create-Kept :
    (w again : Weather) (found : Found)
    → ((data_ : Bytes) → w.random ≡ some data_ → length data_ ≡ 32)
    → again.reads ≡ true
    → Kept (load_or_create_quic_key w found) again
unfolding load_or_create_quic_key
load_or_create-Kept w again (file f) full ok = read-Kept w again f ok
load_or_create-Kept w again stat_error full ok = tt
load_or_create-Kept w again not_exist full ok = elim (Option-cases w.random) [
  | inl e ↦ rw e tt
  | inr e ↦ rw (e.1) (write-Kept w again e.0 (full e.0 e.1) ok)
]
