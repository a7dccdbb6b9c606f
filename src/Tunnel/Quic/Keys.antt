-- ===== src/Tunnel/Quic/Keys.antt =====
-- quic.go, loadOrCreateQUICKey and writeQUICKeyAtomic: the persisted server keys.
use beamd.Prelude.{
  ℕ, Bool, true, false, not, Option, none, some, Bytes, ◌==◌, nat_eq, if◌then◌else◌, length,
}

-- A file: whether it is regular, its permissions, and what is in it.
pub record KeyFile : Type 0 where
  pub regular : Bool
  pub mode : ℕ
  pub content : Bytes

-- What Stat finds at the path of the key.
pub data Found : Type 0 where
  file : KeyFile → Found
  not_exist : Found
  stat_error : Found

pub data KeyError : Type 0 where
  not_regular wrong_mode wrong_length read_error stat_failed random_failed write_failed : KeyError

pub data Key : Type 0 where
  key : Bytes → Key
  bad_key : KeyError → Key

-- What the operating system does in one call: whether the read succeeds, the random bytes, if they come,
-- and whether each step of the atomic write succeeds.
pub record Weather : Type 0 where
  pub reads : Bool
  pub random : Option Bytes
  pub creates : Bool
  pub chmods : Bool
  pub writes : Bool
  pub syncs : Bool
  pub closes : Bool
  pub renames : Bool

-- 0600
abbrev pub owner_only : ℕ
owner_only = 384

-- writeQUICKeyAtomic: what is at the path after it, and whether it returned no error. The temporary file
-- is removed on every return.
unfoldable pub write_quic_key_atomic : Weather → Found → Bytes → Found × Bool
write_quic_key_atomic w before data_ =
    if not w.creates
    then (before, false)
    else if not w.chmods
    then (before, false)
    else if not w.writes
    then (before, false)
    else if not w.syncs
    then (before, false)
    else if not w.closes
    then (before, false)
    else if not w.renames
    then (before, false)
    else (file (record { regular = true; mode = owner_only; content = data_ }), true)

-- The key in a file that is there.
unfoldable pub read_key : Weather → KeyFile → Key
read_key w f =
    if not f.regular
    then bad_key not_regular
    else if not (f.mode == owner_only)
    then bad_key wrong_mode
    else if not w.reads
    then bad_key read_error
    else if not (length f.content == 32)
    then bad_key wrong_length
    else key f.content

-- What the caller gets after a write.
abbrev pub written : Bytes → Found × Bool → Found × Key
written data_ (at, true) = (at, key data_)
written data_ (at, false) = (at, bad_key write_failed)

unfoldable pub load_or_create_quic_key : Weather → Found → Found × Key
unfolding read_key write_quic_key_atomic
load_or_create_quic_key w (file f) = (file f, read_key w f)
load_or_create_quic_key w stat_error = (stat_error, bad_key stat_failed)
load_or_create_quic_key w not_exist = elim w.random [
  | none ↦ (not_exist, bad_key random_failed)
  | some data_ ↦ written data_ (write_quic_key_atomic w not_exist data_)
]
