-- ===== src/Config/Accounts/Keys.antt =====
-- The files of the accounts: where two servers share one, and what a save and a delete do.
use beamd.Prelude.{
  ℕ, ◌≡◌, ◌∙◌, refl, sym, ap, true, false, [], ◌∷◌, ◌++◌, some, Bytes, codes, arith, ◌==◌, nat_eq,
  list_eq, eq_iff, if◌then◌else◌, lookup-insert, lookup-erase, All, if_split, strip_suffix,
  strip_suffix-append, Bool-cases, inl, inr,
}
use beamd.Config.Accounts.{
  Account, is_filename_char, account_key, Yaml, Directory, account_file, account_exists,
  load_account, save_account, delete_account,
}

-- Two servers that differ in a colon and an underscore only have one key, and so one file.
pub account_key-collides :
    (host port : Bytes) → account_key (host ++ b':' ∷ port) ≡ account_key (host ++ b'_' ∷ port)
unfolding account_key
account_key-collides [] port = refl
account_key-collides (c ∷ host) port =
    ap (λ (t : Bytes). (if is_filename_char c then c else b'_') ∷ t)
      (account_key-collides host port)

-- Whatever the server, its key has the characters of a file name only: no separator, no space.
pub account_key-safe : (server : Bytes) → All (λ c. is_filename_char c ≡ true) (account_key server)
unfolding account_key
account_key-safe [] = tt
account_key-safe (c ∷ server) = (safe c, account_key-safe server)
  where
    safe : (c : ℕ) → is_filename_char (if is_filename_char c then c else b'_') ≡ true
    safe c =
        if_split (λ (x : ℕ). is_filename_char x ≡ true) (is_filename_char c) (λ ok. ok)
          (λ other. refl)

from_file : (a b : Bytes) → account_file a ≡ account_file b → account_key a ≡ account_key b
unfolding account_file
from_file a b e = get (account_key a) (account_key b) (
    sym (strip_suffix-append (account_key a) (codes ".yaml"))
    ∙ ap (λ (s : Bytes). strip_suffix s (codes ".yaml")) e
    ∙ strip_suffix-append (account_key b) (codes ".yaml"))
  where
    get : (x y : Bytes) → some x ≡ some y → x ≡ y
    get x y h = ground arith

same_file : (a b : Bytes) → (account_file a == account_file b) ≡ (account_key a == account_key b)
same_file a b = elim (Bool-cases (account_key a == account_key b)) [
  | inl e ↦
      (eq_iff (account_file a) (account_file b)).1
        (to_file ((eq_iff (account_key a) (account_key b)).0 e))
      ∙ sym e
  | inr e ↦ apart e ∙ sym e
]
  where
    to_file : account_key a ≡ account_key b → account_file a ≡ account_file b
    to_file h = unfold account_file in ap (λ (k : Bytes). k ++ codes ".yaml") h

    apart : (account_key a == account_key b) ≡ false → (account_file a == account_file b) ≡ false
    apart h = ground (
      arith,
      eq_iff (account_file a) (account_file b),
      eq_iff (account_key a) (account_key b),
      from_file a b,
    )

-- What a load gives after a save: the account, for its own server and for each that has the same key, and
-- for any other server what it gave before. After a delete no account is found for those servers, and
-- the others are found as before.
pub load_account-save_account :
    (yaml : Yaml) (d : Directory) (a : Account) (other : Bytes)
    → yaml.unmarshal (yaml.marshal a) ≡ some a
    → (load_account yaml (save_account yaml d a) other
        ≡ (if account_key a.server == account_key other then some a else load_account yaml d other))
      × (account_exists (delete_account d a.server) other
          ≡ (if account_key a.server == account_key other then false else account_exists d other))
unfolding load_account save_account delete_account account_exists
load_account-save_account yaml d a other reads =
    let same = same_file a.server other in
    let b = yaml.marshal a in
    (
      ground (arith, same, lookup-insert (account_file a.server) (account_file other) b d, reads),
      ground (arith, same, lookup-erase (account_file a.server) (account_file other) d),
    )
