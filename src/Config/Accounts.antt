-- ===== src/Config/Accounts.antt =====
-- internal/config/accounts.go: the accounts of a machine, one file for each server.
pub mod Keys
use beamd.Prelude.{
  ℕ, Bool, true, false, not, ◌&&◌, ◌||◌, List, [], ◌∷◌, ◌++◌, map, Option, none, some, is_none,
  Bytes, codes, is_empty, leb, ◌==◌, nat_eq, list_eq, if◌then◌else◌, lookup, insert, erase,
}

pub record Account : Type 0 where
  pub server : Bytes
  pub token : Bytes
  pub transport : Bytes
  pub kind : Bytes
  pub insecure_skip_verify : Bool
  pub slug : Bytes
  pub scopes : List (Bytes × Bytes)
  pub default_scope : Bytes

-- config.Client, as far as an account sets it.
pub record Credential : Type 0 where
  pub server : Bytes
  pub token : Bytes
  pub kind : Bytes
  pub transport : Bytes
  pub insecure_skip_verify : Bool

unfoldable pub client : Account → Credential
client a = record {
  server = a.server;
  token = a.token;
  kind = a.kind;
  transport = a.transport;
  insecure_skip_verify = a.insecure_skip_verify;
}

-- [a-zA-Z0-9._-]
abbrev pub is_filename_char : ℕ → Bool
is_filename_char c =
    (leb b'a' c && leb c b'z')
    || (leb b'A' c && leb c b'Z')
    || (leb b'0' c && leb c b'9')
    || c == b'.'
    || c == b'_'
    || c == b'-'

-- `server` is the runes of the address.
unfoldable pub account_key : List ℕ → Bytes
account_key server = map (λ c. if is_filename_char c then c else b'_') server

-- What yaml.v3 does: Marshal, and Unmarshal with none for its error.
pub record Yaml : Type 0 where
  pub marshal : Account → Bytes
  pub unmarshal : Bytes → Option Account

-- The files of ~/.beamd/accounts, by name.
abbrev pub Directory : Type 0
Directory = List (Bytes × Bytes)

-- The base name of AccountPath.
unfoldable pub account_file : Bytes → Bytes
unfolding account_key
account_file server = account_key server ++ codes ".yaml"

unfoldable pub account_exists : Directory → Bytes → Bool
unfolding account_file
account_exists d server = not (is_none (lookup (account_file server) d))

unfoldable pub delete_account : Directory → Bytes → Directory
unfolding account_file
delete_account d server = erase (account_file server) d

module _ (yaml : Yaml) where
  unfoldable pub load_account : Directory → Bytes → Option Account
  unfolding account_file
  load_account d server = elim (lookup (account_file server) d) [
    | none ↦ none
    | some b ↦ yaml.unmarshal b
  ]

  -- SaveAccount, where the file can be written.
  unfoldable pub save_account : Directory → Account → Directory
  unfolding account_file
  save_account d a = insert (account_file a.server) (yaml.marshal a) d

  -- ListAccounts, before its sort.
  unfoldable pub list_accounts : Directory → List Account
  list_accounts [] = []
  list_accounts ((name, b) ∷ d) = elim (yaml.unmarshal b) [
    | none ↦ list_accounts d
    | some a ↦ if is_empty a.server then list_accounts d else a ∷ list_accounts d
  ]
