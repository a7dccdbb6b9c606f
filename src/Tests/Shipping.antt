-- ===== src/Tests/Shipping.antt =====
-- A run of the shipper over a rotated file, and instances of its theorems.
use beamd.Prelude.{
  ℕ, zero, suc, ◌≡◌, ◌≢◌, refl, Bool, true, false, List, [], ◌∷◌, ◌++◌, none, some, Bytes, codes,
  arith, ◌==◌, nat_eq,
}
use beamd.Reqlog.Shipper.{
  newline, contents, Shipping, Turn, drain_file, drain, seek, complete_lines, read_lines,
  read_batch, take_batch, on_batch, turn, save_cursor, after_rotated, drain_rotated,
}
use beamd.Reqlog.Shipper.Lossless.{events_from, drain_file-ships, drain_file-ends}
use beamd.Reqlog.Shipper.Rotation.{Extends, drain-removes}

abbrev one_brace : Bytes → Bool
one_brace [] = false
one_brace (b ∷ l) = b == 123

-- Two events with a torn line and an empty one between them, and a line that has no end yet.
abbrev rotated : Bytes
rotated =
    codes "{1}" ++ newline ∷ codes "torn" ++ newline ∷ newline ∷ codes "{2}" ++ newline ∷ codes "{3"

abbrev at_start : Shipping
at_start = record {
  cursor = record { inode = 7; offset = 0 };
  saved = record { inode = 7; offset = 0 };
  accepted = [];
}

abbrev works : Turn
works = record { seen = contents 7 rotated; accepts = true; writes = true }

abbrev log : Turn
log = record { seen = contents 8 []; accepts = true; writes = true }

abbrev many : ℕ → Turn → List Turn
many zero t = []
many (suc n) t = t ∷ many n t

-- The batches have one line each.
shipped_run :
    (drain_file one_brace 1 (many 5 works) at_start).1.accepted ≡ codes "{1}" ∷ codes "{2}" ∷ []
unfolding drain_file turn read_batch on_batch take_batch save_cursor read_lines complete_lines seek
shipped_run = refl

finished_run : (drain_file one_brace 1 (many 5 works) at_start).0 ≡ some true
unfolding drain_file turn read_batch on_batch take_batch save_cursor read_lines complete_lines seek
finished_run = refl

drain_file-ships_example :
    let r = drain_file one_brace 1 (many 5 works) at_start in
    (r.1.accepted ++ events_from one_brace 0 7 rotated r.1.cursor.offset
      ≡ [] ++ events_from one_brace 0 7 rotated 0)
    × (r.0 ≡ some true → r.1.accepted ≡ [] ++ events_from one_brace 0 7 rotated 0)
drain_file-ships_example =
    drain_file-ships one_brace 0 7 rotated (many 5 works) at_start
      (refl, (refl, (refl, (refl, (refl, tt))))) refl (omega arith)

drain_file-ends_example : (drain_file one_brace 1 (many 20 works) at_start).0 ≢ none
drain_file-ends_example =
    drain_file-ends one_brace 0 7 rotated (many 20 works) at_start
      (
        refl,
        (
          refl,
          (
            refl,
            (
              refl,
              (
                refl,
                (
                  refl,
                  (
                    refl,
                    (
                      refl,
                      (
                        refl,
                        (
                          refl,
                          (
                            refl,
                            (
                              refl,
                              (refl, (refl, (refl, (refl, (refl, (refl, (refl, (refl, tt)))))))),
                            ),
                          ),
                        ),
                      ),
                    ),
                  ),
                ),
              ),
            ),
          ),
        ),
      )
      refl (omega arith) (omega arith)

-- The log has the inode 8 by now, and is empty.
removed_run :
    (drain one_brace 1 (some 8) (some 7) true (many 5 works) (many 1 log) at_start).removed ≡ true
unfolding drain drain_rotated after_rotated drain_file turn read_batch on_batch take_batch
    save_cursor read_lines complete_lines seek
removed_run = refl

drain-removes_example :
    Extends
      ([] ++ events_from one_brace 0 7 rotated 0)
      (drain one_brace 1 (some 8) (some 7) true (many 5 works) (many 1 log) at_start).shipping
drain-removes_example =
    drain-removes one_brace 0 7 rotated (some 8) true (many 5 works) (many 1 log) at_start
      (refl, (refl, (refl, (refl, (refl, tt))))) (omega arith) removed_run
