-- ===== src/Lib.antt =====
-- A model of dogeboxd, the daemon that manages the pups and the system of a Dogebox.
--
-- Clients ask for actions. The run loop (pkg/dogeboxd.go) turns each into a job, records it with the
-- job manager (pkg/jobs.go, over the typed store of pkg/store.go), and either handles it at once or
-- queues it for the system updater, which runs one job at a time and reports it back. A restart leaves
-- records of jobs that nobody runs: three passes of the job manager and a periodic scan settle them.
--
-- Base: shared names, Booleans, lists, maps from texts, and the text functions of Go.
-- Store: TypeStore.Set, Get and Del of pkg/store.go over two parameters, SQLite and encoding/json.
--   `Table` adds the SQL statements of the job manager; `Store.Assoc` is a table that runs.
-- Semver: the functions of golang.org/x/mod/semver, a parameter.
-- Action: the actions, jobs and names of pkg/events.go.
-- Jobs: JobManager of pkg/jobs.go. Record has the data and the changes of one record, Display the names
--   shown, Manager the operations on one job, Sweeps the operations on many; Coherence, Swept, Effects,
--   Restart and Ops have the proofs. Each method is a function of the same name in snake case from a
--   state (table, cache, changes sent) to a state and an outcome. A record in the cache is shared by
--   pointer in the code, so a change of a found record is a change of its cache entry.
-- Queue: syncQueue, the dispatcher, the reports and the run loop of pkg/dogeboxd.go. State has the queue,
--   Dispatch the handling of a job, Orphans the scan, Loop one step for each message or tick.
-- Pups: the adoption of a pup (pkg/pup/actions.go): Address has the addresses and the loop that finds
--   the last one at start (pkg/pup/manager.go), Ports the search for ports, Adopt the whole
--   operation; Health is pkg/pup/health.go with ManifestConfigNeedsValues of pkg/config_fields.go. State
--   has the state of a pup and the functions that update it (pkg/pups.go), Manager the operations on a
--   stored pup and its snapshots (pkg/pup/actions.go and pkg/pup/manager.go), and Buffer the circular
--   buffer of a metric (pkg/pups.go).
-- Pups.Status: the status shown of a pup from its process (pkg/pup/manager.go).
-- Config: the index, the defaults and the coercion of a payload of pkg/config_fields.go, with the types
--   that the stored values have in Typed.
-- Web: the sessions of pkg/web/session.go and the guard of routes.
-- Nix: the patches of the nix configuration (pkg/system/nix/nix-patch.go). Patch has the operations on a
--   patch, over the files and the rebuild as parameters, and Applied what an application leaves.
-- Updater: the system updater (pkg/system/updater.go and ssh.go). A job is a step (Base.Steps): from a state
--   to a value or an error, and the state, which an error does not undo. Host has the state, which is
--   the pup manager and the Dogebox state over a machine `H`, and the record of all that is outside:
--   commands, downloads, keys and files, each of which may fail. Install, Upgrade, Import and Settings
--   have the jobs, Run the switch of the loop, and Cases the actions that it lists. View and Logic
--   have the rules by which a job is taken apart into its calls; Installed, Removed, Upgraded,
--   RolledBack, Undone and Toggled are about how the jobs end, and Answers about the jobs sent back.
-- Upgrades: the releases that are offered and the launch of a system update (pkg/system/upgrades.go), with
--   the commands that were run as part of the state.
-- Sources: the list of sources of pups, its lookups and changes (pkg/sources/source.go).
-- Migrations: the state file, the runner and the version constraints of pkg/system/migrations/core.
--
-- Locks make each operation one step. Times are natural numbers; the database compares the texts of
-- times, so the order of those texts is a parameter `stamp_before`. A failed statement is `none`, a
-- failed call an outcome `err`. All loops are recursion on lists or numbers, or on fuel as said where
-- they are defined. The search for a port has no bound in the code; its fuel is enough when it is at
-- least the number of ports in use and asked for, if all ports from 10000 on within it are available.
--
-- Not modelled: the programs under cmd, the generated code under protocol, the handlers under pkg/web
-- that only decode requests, the templates of the nix files, the polling of systemd, the calls of nix,
-- systemd, git and the network, the update checker of the pups, and the conductor of the services.
-- Channels are lists of what was sent; a change that the real channel drops when it is full is sent here.
pub mod Base
pub mod Store
pub mod Semver
pub mod Action
pub mod Jobs
pub mod Queue
pub mod Pups
pub mod Config
pub mod Web
pub mod Nix
pub mod Updater
pub mod Upgrades
pub mod Sources
pub mod Migrations
