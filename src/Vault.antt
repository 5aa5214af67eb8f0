-- ===== src/Vault.antt =====
-- internal/cloudsync/data.go: the decrypted content of a vault, and the entries it is made of.
-- A pointer is an `Option`. The maps of `Data` are never nil here; slices and the sources of an
-- entry may be, since reflect.DeepEqual tells nil from empty.
pub mod Observed
pub mod Entries
pub mod Valid
pub mod Merge
pub mod Operations
use sshm.Prelude.{
  ℕ, ℤ, ℤ-discrete, pos, Bool, true, false, List, [], ◌∷◌, Option, none, some, Discrete, ℕ_discrete,
  ◌≡◌, ◌↔◌,
}
use mathlib.Core.Bool.{decide_iff}
unfoldable use mathlib.Core.Bool.{decide}
use sshm.Text.{Text}
use sshm.Map.{Map}
use sshm.Inventory.{Snapshot}
unfoldable use sshm.Inventory.{Snapshot-discrete}
use sshm.Config.{Server}
unfoldable use sshm.Config.{Server-discrete}

pub record Credential : Type 0 where
  pub kind : Text
  pub key : Option (List ℕ)
  pub passphrase : Option (List ℕ)
  pub password : Text
  pub fingerprint : Text

pub record Source : Type 0 where
  pub device : Text
  pub alias : Text
  pub server : Server

pub record Entry : Type 0 where
  pub id : Text
  pub aliases : Option (List Text)
  pub server : Server
  pub credential_ids : Option (List Text)
  pub sources : Option (Map Source)

pub record Conflict : Type 0 where
  pub local : Option Entry
  pub remote : Option Entry

-- internal/cloudsync/activity.go; the times are milliseconds in an int64.
pub record Activity : Type 0 where
  pub hardware : Option Snapshot
  pub sshm_status : Text
  pub sshm_version : Text
  pub sshm_checked_at : ℤ
  pub ssh_checked_at : ℤ
  pub ssh_error : Text
  pub status : Text
  pub platform : Text
  pub last_connected : ℤ
  pub last_seen : ℤ
  pub checked_at : ℤ

pub record Data : Type 0 where
  pub hardware : Map (Option Snapshot)
  pub activity : Map Activity
  pub version : ℤ
  pub entries : Map Entry
  pub credentials : Map Credential
  pub deleted : Map Bool
  pub conflicts : Map Conflict

-- NewData
unfoldable pub new_data : Data
new_data = record {
  hardware = [];
  activity = [];
  version = pos 1;
  entries = [];
  credentials = [];
  deleted = [];
  conflicts = [];
}

-- What Digest is taken of, in this file.
pub data Digested : Type 0 where
  connection : Text → ℤ → Text → Text → Text → Text → Text → Option (List Text) → Digested
  names : Text → Text → Digested
  source : Source → Digested
  credential : Credential → Digested

-- The outside of the model: the tables of package unicode for lower case above ASCII, Digest, the
-- SHA-256 of the JSON of a value in hexadecimal, and the clock, read a day ahead in milliseconds.
pub record Env : Type 0 where
  pub lower : ℕ → ℕ
  pub now_plus_day : ℤ
  pub digest : Digested → Text

unfoldable pub Credential-discrete : Discrete Credential
Credential-discrete = hlevel ℕ_discrete

unfoldable pub Source-discrete : Discrete Source
Source-discrete = hlevel (ℕ_discrete, Server-discrete)

unfoldable pub Entry-discrete : Discrete Entry
Entry-discrete = hlevel (ℕ_discrete, Server-discrete, Source-discrete)

unfoldable pub entry-discrete : Discrete (Option Entry)
entry-discrete = hlevel Entry-discrete

unfoldable pub conflict-discrete : Discrete (Option Conflict)
conflict-discrete = hlevel Entry-discrete

-- reflect.DeepEqual
module _ {ℓ} {A : Type ℓ} (d : Discrete A) where
  unfoldable pub deep_equal : A → A → Bool
  unfolding decide
  deep_equal a b = decide (d a b)

  pub deep_equal_iff : (a b : A) → (deep_equal a b ≡ true) ↔ (a ≡ b)
  unfolding deep_equal
  deep_equal_iff a b = decide_iff (d a b)

abbrev pub same_entry : Option Entry → Option Entry → Bool
same_entry = deep_equal entry-discrete

abbrev pub same_conflict : Option Conflict → Option Conflict → Bool
same_conflict = deep_equal conflict-discrete
