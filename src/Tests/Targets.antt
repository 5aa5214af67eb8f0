-- ===== src/Tests/Targets.antt =====
-- A target behind a jump host, which only a device with the same server may reach.
use sshm.Prelude.{pos, [], ◌∷◌, none, some, ◌≡◌, refl}
use sshm.Text.{codes, text_eq}
use sshm.Map.{get}
use sshm.Result.{ok, err}
use sshm.Config.{Server, Config}
use sshm.Vault.{Data, Entry, new_data}
use sshm.Vault.Entries.{entry_id}
use sshm.Agent.Target.{
  ReadKey, BuildOpts, source_device_required, invalid_credential, target_options, local_alias,
  has_route, take_password, take_key, take_credentials, checked_options, local_servers,
}
use sshm.Agent.Target.Safe.{IsAllowed, target_options-IsAllowed}
use sshm.Tests.Data.{server_at}
use sshm.Tests.Vaults.{env}

computing : Unit {0}
unfolding text_eq get entry_id new_data target_options local_alias has_route take_password take_key
    take_credentials checked_options
computing = tt

abbrev jumped : Server
jumped = record (server_at "web.example") {
  proxy_jump = codes "gate";
  auth = codes "password";
  forwards = some (codes "L:80" ∷ []);
}

abbrev entry : Entry
entry = record {
  id = codes "connection-web.example";
  aliases = none;
  server = jumped;
  credential_ids = some (codes "c1" ∷ []);
  sources = none;
}

abbrev vault : Data
vault = record new_data {
  credentials =
      (
        codes "c1",
        record {
          kind = codes "password";
          key = none;
          passphrase = none;
          password = codes "hunter2";
          fingerprint = [];
        },
      )
      ∷ [];
}

abbrev no_key : ReadKey
no_key key passphrase = none

abbrev here : Config
here = record {
  version = pos 5;
  default = [];
  ui = record { language = []; icons = []; color = [] };
  servers = (codes "web", some (record jumped { key_path = codes "/k" })) ∷ [];
  projects = [];
}

-- Elsewhere the route of the entry is not taken.
elsewhere_test : target_options env no_key vault entry none [] ≡ err source_device_required
unfolding computing
elsewhere_test = refl

-- The entry has no such credential.
other_credential_test :
    target_options env no_key vault entry (some here) (codes "c2") ≡ err invalid_credential
unfolding computing
other_credential_test = refl

abbrev reached : Server
reached = record jumped { key_path = codes "/k"; forwards = none }

abbrev options : BuildOpts
options = record { alias = codes "web"; password = codes "hunter2"; signers = [] }

allowed : target_options env no_key vault entry (some here) (codes "c1") ≡ ok (reached, options)
unfolding computing
allowed = refl

target_options-IsAllowed_example :
    IsAllowed env entry (local_servers (some here)) (codes "c1") reached options
target_options-IsAllowed_example =
    target_options-IsAllowed env no_key vault entry (some here) (codes "c1") reached options allowed
