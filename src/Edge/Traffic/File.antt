-- ===== src/Edge/Traffic/File.antt =====
-- traffic.go, load and Flush: the totals on disk.
use beamd.Prelude.{
  ℕ, Bool, true, false, not, List, [], ◌∷◌, ◌++◌, map, Option, none, some, Bytes, codes, is_empty,
  nat_eq, list_eq, if◌then◌else◌, lookup, insert, erase,
}
use beamd.Edge.Traffic.{TrafficKey, TrafficCounts, key_eq, Store}

-- trafficRecord
pub record TrafficRecord : Type 0 where
  pub slug : Bytes
  pub name : Bytes
  pub bytes_in : ℕ
  pub bytes_out : ℕ

-- Package json: Marshal, and Unmarshal with none for its error.
pub record Json : Type 0 where
  pub marshal : List TrafficRecord → Bytes
  pub unmarshal : Bytes → Option (List TrafficRecord)

-- The contents of the files, by path.
abbrev pub Disk : Type 0
Disk = List (Bytes × Bytes)

-- The loop of load.
unfoldable pub load_records : List TrafficRecord → Store → Store
load_records [] m = m
load_records (r ∷ rs) m = load_records rs (
    insert (record { slug = r.slug; name = r.name })
      (record { in_ = r.bytes_in; out = r.bytes_out }) m)

unfoldable pub load : Json → Disk → Bytes → Store
unfolding load_records
load json disk path = if is_empty path then [] else elim (lookup path disk) [
  | none ↦ []
  | some b ↦ elim (json.unmarshal b) [ none ↦ [] | some rs ↦ load_records rs [] ]
]

abbrev pub record_of : TrafficKey × TrafficCounts → TrafficRecord
record_of e = record { slug = e.0.slug; name = e.0.name; bytes_in = e.1.in_; bytes_out = e.1.out }

-- What the file system does: whether MkdirAll, WriteFile and Rename succeed, and what a failed write leaves
-- in the temporary file, if it leaves one.
pub record Weather : Type 0 where
  pub mkdir_ok : Bool
  pub write_ok : Bool
  pub left_over : Option Bytes
  pub rename_ok : Bool

abbrev pub tmp_path : Bytes → Bytes
tmp_path path = path ++ codes ".tmp"

-- A write that fails, or not.
unfoldable pub write_tmp : Disk → Bytes → Option Bytes → Disk
write_tmp disk tmp none = disk
write_tmp disk tmp (some b) = insert tmp b disk

-- Flush; false is an error.
unfoldable pub flush : Json → Store → Bytes → Disk → Weather → Disk × Bool
unfolding write_tmp
flush json m path disk w =
    let b = json.marshal (map record_of m) in
    let tmp = tmp_path path in
    if is_empty path
    then (disk, true)
    else if not w.mkdir_ok
    then (disk, false)
    else if not w.write_ok
    then (write_tmp disk tmp w.left_over, false)
    else if not w.rename_ok
    then (insert tmp b disk, false)
    else (insert path b (erase tmp (insert tmp b disk)), true)
