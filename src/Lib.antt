-- ===== src/Lib.antt =====
-- The Minecraft dashboard, src/mcdash: it runs Minecraft servers ("worlds") on Kubernetes.
--
-- The service (src/mcdash/service.py) keeps a record of each world in a ConfigMap: its spec, with
-- the ports and the settings, and the operation that is pending, if any. What users ask records an
-- operation and starts its first step; the reconciler takes the further steps, as the Jobs and
-- pods of the cluster come and go. It talks to the servers by RCON, through a pool of connections.
--
-- Prelude: lists, keys, text and decimals that the other parts share. Text is a list of
--   character codes, of ASCII text.
-- Naming (src/mcdash/naming.py): `sanitize_world_name`, `is_valid_world_name`, `unique_name`. The
--   loop of `unique_name` runs on fuel of one round more than there are names taken; Naming/Search
--   and Naming/Candidates are why that is enough. Regular expressions are written out as scans,
--   with what `$` matches. Naming/Dates and Naming/BackupNames: timestamps, and
--   `parse_backup_name`; a date is its fields in UTC, and that of a file's time is a parameter.
-- Rcon/Pool (src/mcdash/rcon.py): `RconPool` for one world: the `_Slot`, `_drop`, `run` with its
--   retry rules, `evict`, `note_target` and a round of `sweep_idle`. The server is a `Peer`, whose
--   answers depend on all that happened before. A `run` holds the slot's lock, so it is one step;
--   what other threads do meanwhile finds the slot locked.
-- Rcon/Client (src/mcdash/rcon.py): packets, `_recv`, `connect` from the authentication on and
--   `command` of `RconClient`, on a socket that is a parameter. `_read_exact` runs on fuel of the
--   number of bytes wanted, which is enough since a chunk has one at least; the loops over packets
--   on fuel that their caller gives. Rcon/Console: `parse_list`.
-- Detect (src/mcdash/detect.py): `find_world`, and `parse_properties` in Detect/Properties.
-- Jobs (src/mcdash/jobs): Jobs/Seed is jobs/seed.py, on a disk that is a parameter and may fail at
--   every write; Jobs/Snapshot is what jobs/snapshot.py stores of a volume, and below it what a
--   seed makes of that.
-- Store (src/mcdash/store.py): the roster, labels, index and audit log as the values that their
--   files hold, the guard on the archive, and `realpath` and the disk's errors as parameters.
-- Backups (src/mcdash/backups.py): identifiers and paths, the cached detections
--   (Backups/Reads), the scan (Backups/Scan), labels, promotion, deletion and pruning
--   (Backups/Edits), over the files of Store. The loop for the name
--   of a promoted archive runs on fuel of one round more than the directory has archives, and
--   Backups/Ids is why that is enough. `detect_zip` and the clock are parameters.
-- Models (src/mcdash/models.py, k8s.py, config.py): the data that the parts exchange. Whole
--   numbers are natural numbers.
-- Helm (src/mcdash/helmops.py): memory sizes, versions, the names of a world's objects, and what
--   of the settings a version knows.
-- Service (src/mcdash/service.py): Exec has the state, the monad of state and errors, and the
--   `Outside`: the cluster, helm, the backups and the clock, which may answer anything from the
--   history and raise at every call. Records reads, heals and writes the records and installs;
--   Ports allocates; Settings checks; Jobs makes Jobs and shows a world's state; Operations has the
--   requests, Players and Whitelist are `set_whitelist`, with the
--   server that executes its commands as a parameter, Reconcile the steps of `_advance`,
--   `reconcile_world` and `delete`, which ends with its rounds, Requests the sequence of all requests.
--   Kept, Busy, Spared, Turns and the modules below Records, Ports and Settings hold the proofs. A record is a
--   value in place of its JSON; the spec dictionary that an operation changes in place is the
--   field `spec` of the state. `render_values` is represented by what it is given, and by the
--   exception for a bad memory size. Logs, audit details, the password and host of RCON, the
--   threads and the console are not modelled.
-- Tests: the theorems at concrete inputs.
--
-- Not modelled: src/mcdash/completion.py, cli.py and web, `detect_zip`, and
-- the clients of Kubernetes and helm, whose answers are parameters.
pub mod Prelude
pub mod Naming
pub mod Rcon
pub mod Models
pub mod Helm
pub mod Detect
pub mod Jobs
pub mod Store
pub mod Backups
pub mod Service
pub mod Tests
