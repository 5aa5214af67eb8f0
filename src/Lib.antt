-- ===== src/Lib.antt =====
-- Verification of the core of sshm, an SSH connection manager written in Go (internal/).
--
-- The program keeps a document of servers and projects on each device (internal/config). Devices
-- share a vault, an encrypted copy of the inventory, through a cloud service that sees only
-- ciphertext; each device merges its own changes with those of the others (internal/cloudsync).
-- The credentials themselves stay in a local store that the device protects
-- (internal/localstore). Probes and logins leave observations on a server
-- (internal/config/activity.go, internal/inventory), and the review of unused servers reads them
-- (internal/cleanup, internal/commands/cleanup.go). A device polls the service for signed jobs,
-- opens encrypted terminals, and replaces its own binary by signed releases (internal/updater).
--
-- Shared: Prelude (integers, lists, tests), Text (strings and their order), Map (Go maps), Result
-- (values and errors) and Time (package time).
--
--   Inventory        internal/inventory/collect.go: Snapshot, Valid, Newer.
--   Config           internal/config/config.go and remove.go: the document, the references between
--                    its parts, metadata bounds, and the removal of a server.
--   Config/Activity  internal/config/activity.go: what probes and logins write on a server.
--   Cleanup          internal/cleanup/cleanup.go (Review, classify) and the transaction of
--                    internal/commands/cleanup.go (removeCleanupServers).
--   Vault            internal/cloudsync/data.go, merge.go and activity.go: the data of a vault,
--                    Validate, the three-way Merge, RepairCompatibleConflicts, Resolve, Find.
--   LocalStore       internal/localstore: credentials.go (validation, Identity, key files), the
--                    operations of store.go on opened data (LocalStore/Staged), its transactions
--                    on the file with the device lock (LocalStore/File, with readPrivate of
--                    files.go), writePrivate of files.go with its temporary file
--                    (LocalStore/Write), and the exported operations (LocalStore/Store).
--   Config/Document  internal/config/load.go and update.go: decoding with its migration, validation of
--                    projects, the save under a snapshot, and the update transaction.
--   Config/Bindings  internal/config/cloud_bindings.go and ui_preferences.go: files beside the
--                    document.
--   Config/Search    internal/config/search.go: SearchServers.
--   Jobs             internal/cloudsync/jobs.go: ProcessJobs, with the journal (Jobs/Journal).
--   Shell            internal/cloudsync/shell.go: VerifyShell and ShellCipher.
--   Agent            internal/cloudagent/agent.go: the session table of a connection as a state and
--                    its events (step, run); Agent/Target: targetOptions of target.go.
--   Updater          internal/updater/update.go: Compare (Updater/Version), Verify, Asset and
--                    Download (Updater/Release), Replace, and installRelease of
--                    internal/commands/update.go (Updater/Replace).
--   Transfer         internal/mcp/transfer_core.go: the resumable copy of a file to a temporary name
--                    (Transfer, Transfer/Copy, Transfer/Resume) and the job table (Transfer/Jobs).
--
-- How the model represents the program. A string is the list of its code points, so the order of
-- keys is that of UTF-8. A Go map is a list of entries with ascending keys, whose `put` and
-- `remove` keep that order; a Go loop over a map, which has no fixed order, visits the keys in
-- ascending order, and an operation that changes the map it walks is given the list of keys
-- first. A pointer is an Option, and a slice that may be nil is an Option of a list. Instants are
-- integers of nanoseconds from the zero time; the cutoff of the review is computed in int64 as
-- the source does, with its wrap-around. A function that returns an error is a Result; where an
-- error leaves a changed object behind that its caller drops, the Result holds the error alone.
-- The maps of a vault and of opened credentials are never nil. No definition needs fuel: every
-- loop is over a list, or over the turns of a source, which end in its end or an error.
--
-- Outside the model, as parameters: the case folding, SHA-256 and clock of a vault (Vault.Env);
-- the digests, paths, key files and SSH library of a credential (LocalStore.System); the key
-- protection of the device, AES-GCM and JSON (LocalStore.File.Device), and what one call meets,
-- from the file lock to each call of the write (LocalStore.File.Attempt,
-- LocalStore.Write.Writing); the calls of the system that a copy makes, and the turns in which
-- its source gives bytes (Transfer.Outside, Transfer.Reads); the signatures of jobs and what
-- each turn of a poll meets (Jobs.Keys, Jobs.Turn); JSON, TOML, URLs, base64, Ed25519 and
-- AES-GCM where a document, a release or a frame is read (Config.Document.Format,
-- Config.Bindings.Sidecars, Updater.Release.Crypto, Shell.Sealing), private keys where a target
-- is chosen (Agent.Target.ReadKey), and the system calls of a save, a download and a replacement
-- (Config.Document.Writing, Fetch, Moves). The laws that a theorem needs of these are its
-- hypotheses. A store's lock file serialises the transactions, so a transaction is one step, as
-- is an update of the configuration; the marker of the device lock, and the configuration file
-- before its replacement, are looked at twice, as in the source, since they may change
-- meanwhile. The goroutines of the vault agent are events in any order (Agent.Event).
--
-- Not modelled: the terminal interface, the transports (SSH, HTTP, MCP), cryptographic formats,
-- the operating systems' key stores, and the cloud service.
pub mod Prelude
pub mod Text
pub mod Map
pub mod Result
pub mod Time
pub mod Inventory
pub mod Config
pub mod Cleanup
pub mod Vault
pub mod LocalStore
pub mod Transfer
pub mod Jobs
pub mod Shell
pub mod Agent
pub mod Updater
mod Tests
