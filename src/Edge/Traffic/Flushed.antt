-- ===== src/Edge/Traffic/Flushed.antt =====
-- What a Flush leaves for the next start of the edge.
use beamd.Prelude.{
  ℕ, ◌≡◌, ◌⊎◌, ◌∙◌, refl, sym, ap, inl, inr, Bool, true, false, not, [], ◌∷◌, ◌++◌, map, Option,
  none, some, Bytes, codes, is_empty, arith, ◌==◌, nat_eq, list_eq, eq_iff, if_cases, if_split,
  lookup, insert, erase, lookup-insert, Unique, length, length-append, Bool-cases, insert-Unique,
  append-nil, append_assoc, get_or_else,
}
use beamd.Edge.Traffic.{
  TrafficKey, TrafficCounts, key_eq, Store, record_traffic, zero_counts, plus64,
}
use beamd.Edge.Traffic.File.{
  Json, Disk, load_records, load, record_of, Weather, tmp_path, write_tmp, flush,
}

insert_absent :
    (k : TrafficKey) (c : TrafficCounts) (m : Store)
    → lookup k m ≡ none
    → insert k c m ≡ m ++ ((k, c) ∷ [])
unfolding insert lookup
insert_absent k c [] h = refl
insert_absent k c ((j, b) ∷ m) h = elim (Bool-cases (j == k)) [
  | inl e ↦ let no : some b ≡ none = rw e at h in ground arith
  | inr e ↦
      let rest : lookup k m ≡ none = rw e at h in
      rw e (ap (λ (t : Store). (j, b) ∷ t) (insert_absent k c m rest))
]

-- No key of the first is one of the second.
abbrev Apart : Store → Store → Type 0
Apart [] acc = Unit
Apart ((k, c) ∷ m) acc = (lookup k acc ≡ none) × Apart m acc

disjoint_still :
    (k : TrafficKey) (c : TrafficCounts) (m acc : Store)
    → lookup k m ≡ none
    → Apart m acc
    → Apart m (insert k c acc)
unfolding lookup
disjoint_still k c [] acc h a = tt
disjoint_still k c ((j, b) ∷ m) acc h a = elim (Bool-cases (j == k)) [
  | inl e ↦ let no : some b ≡ none = rw e at h in ground arith
  | inr e ↦
      let rest : lookup k m ≡ none = rw e at h in
      (
        ground (arith, lookup-insert k j c acc, eq_iff j k, eq_iff k j, e, a.0),
        disjoint_still k c m acc rest a.1,
      )
]

load_records_lem :
    (m acc : Store) → Unique m → Apart m acc → load_records (map record_of m) acc ≡ acc ++ m
unfolding load_records
load_records_lem [] acc u a = sym (append-nil acc)
load_records_lem ((k, c) ∷ m) acc u a =
    load_records_lem m (insert k c acc) u.1 (disjoint_still k c m acc u.0 a.1)
    ∙ ap (λ (t : Store). t ++ m) (insert_absent k c acc a.0)
    ∙ append_assoc acc ((k, c) ∷ []) m

disjoint_nil : (m : Store) → Apart m []
unfolding lookup
disjoint_nil [] = tt
disjoint_nil ((k, c) ∷ m) = (refl, disjoint_nil m)

longer : (path : Bytes) → (tmp_path path ≡ path) → ⊥
longer path e = omega (arith, length-append path (codes ".tmp"), ap length e)

tmp_differs : (path : Bytes) → (tmp_path path == path) ≡ false
tmp_differs path = elim (Bool-cases (tmp_path path == path)) [
  | inl e ↦ absurd (longer path ((eq_iff (tmp_path path) path).0 e))
  | inr e ↦ e
]

write_tmp-path :
    (disk : Disk) (path : Bytes) (o : Option Bytes)
    → lookup path (write_tmp disk (tmp_path path) o) ≡ lookup path disk
unfolding write_tmp
write_tmp-path disk path none = refl
write_tmp-path disk path (some b) =
    ground (arith, lookup-insert (tmp_path path) path b disk, tmp_differs path)

-- What is at the path, and what Flush says: an error and the old file, or the new file.
abbrev pub Written : Json → Store → Bytes → Disk → Disk × Bool → Type 0
Written json m path disk out =
    ((out.1 ≡ false) × (lookup path out.0 ≡ lookup path disk))
    ⊎ ((out.1 ≡ true) × (load json out.0 path ≡ m))

fresh_file :
    (json : Json) (m : Store) (path : Bytes) (disk : Disk)
    → json.unmarshal (json.marshal (map record_of m)) ≡ some (map record_of m)
    → Unique m
    → is_empty path ≡ false
    → load json (insert path (json.marshal (map record_of m)) disk) path ≡ m
unfolding load
fresh_file json m path disk reads u named =
    let b = json.marshal (map record_of m) in
    let there : lookup path (insert path b disk) ≡ some b =
      ground (arith, lookup-insert path path b disk, eq_iff path path) in
    rw named (rw there (rw reads (load_records_lem m [] u (disjoint_nil m))))

-- With a path, and for totals that have one entry for each key: if Flush reports an error, the file is
-- the one that was there; if it reports none, the next load gives back exactly these totals.
pub flush-Written :
    (json : Json) (m : Store) (path : Bytes) (disk : Disk) (w : Weather)
    → json.unmarshal (json.marshal (map record_of m)) ≡ some (map record_of m)
    → Unique m
    → is_empty path ≡ false
    → Written json m path disk (flush json m path disk w)
unfolding flush
flush-Written json m path disk w reads u named =
    let b = json.marshal (map record_of m) in
    let P : Disk × Bool → Type 0 = Written json m path disk in
    if_split P (is_empty path) (λ blank. ground (arith, blank, named))
      λ has. if_cases P (not w.mkdir_ok) (inl (refl, refl)) (
        if_cases P (not w.write_ok) (inl (refl, write_tmp-path disk path w.left_over)) (
          if_cases P (not w.rename_ok)
            (inl (refl, unfold write_tmp in write_tmp-path disk path (some b)))
            (inr (
              refl,
              fresh_file json m path (erase (tmp_path path) (insert (tmp_path path) b disk)) reads u
                  named,
            ))))

-- The totals that RecordTraffic makes have one entry for each key.
pub record_traffic-Unique :
    (m : Store) (slug name : Bytes) (i o : ℕ) → Unique m → Unique (record_traffic m slug name i o)
unfolding record_traffic
record_traffic-Unique m slug name i o u =
    let k : TrafficKey = record { slug = slug; name = name } in
    let c = get_or_else (lookup k m) zero_counts in
    if_cases (Unique {K = TrafficKey}) (is_empty slug) u
      (insert-Unique k (record { in_ = plus64 c.in_ i; out = plus64 c.out o }) m u)
