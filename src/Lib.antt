-- ===== src/Lib.antt =====
-- Colui: the operation locks, the registry's file, the inventory and the cache of definitions, the
-- use cases on profiles, lifecycles and containers, the status that is shown of a project, and the
-- domain types below them.
--
-- The program. Colui manages Docker Compose projects. crates/colui-domain holds its values,
-- crates/colui-app its use cases, which see the world only through traits, and
-- crates/colui-adapters the implementations of those traits: the lock manager, the registry file,
-- the inventory and the container runtime. The shell in src-tauri and the interface in src call the
-- use cases. A use case takes a guard of the lock manager, reads the registry or the inventory,
-- acts through the runtime and drops the guard.
--
-- Domain (crates/colui-domain/src). Domain/AppError is error.rs, Domain/Identity identity.rs,
-- Domain/Profile profile.rs, Domain/Inventory definition.rs and Domain/Runtime runtime.rs, with the
-- names of the source. Text is Rust's strings as bytes. The uuid crate is the record Uuids, an
-- instance argument wherever an id is printed or read. Domain/FilePath is what the program uses of
-- std::path on Unix: equality of paths compares their components.
--
-- Domain/Discovery is discovery.rs: Observations brings the observed groups and the profiles into
-- one form, Candidates groups, classifies and sorts, Digest makes a candidate's id with the SHA-256
-- of the source, its 32-bit operations bit by bit; Encoding is about the text below the digest.
-- Profiles of a name are looked up by a filter of all profiles, where the source has a map from
-- names. Domain/Order is the order by which BTreeMap and sort go, Domain/Trim is str::trim. The
-- padding of SHA-256 adds at most 63 zeros, and the loop over its chunks runs once for each 64
-- bytes.
--
-- Locks (crates/colui-adapters/src/operations.rs). Locks/State is LockState and what hangs on it;
-- Locks/Sections has one function for each stretch of code that holds the mutex of the profiles or
-- of the barrier, and Locks/Handlers composes them into the calls acquire_shared,
-- reserve_lifecycle, acquire_definition, acquire_container, acquire_mutation, acquire_recovery and
-- is_busy. Locks/System lets any number of threads run the sections in any order: an event is one
-- section, and guards that are held say which events are possible. wait_for_definition is the event
-- look, which is a round of its loop, and the event wake, the return of notified; the permit that
-- notify_one stores is the field notify. What the file system answers when the recovery file is
-- opened and locked is an argument. The counters of tokens and of the projection's generation wrap
-- around at 2^64; the counter of shared leases, a usize, is not bounded, and a subtraction from it
-- stops at 0, where the source's would panic or wrap around. The end of a guard is two
-- events where it takes the two mutexes one after the other. The number drawn from next_token and
-- the entry of the lease are one section. That a mutex is poisoned is left out, since the code goes
-- on as if it were not, and so is operation_projection, which only reads.
--
-- App (crates/colui-app/src). App/Profiles is profiles.rs: Mutations are the closures that the use
-- cases give to ProfileStore::mutate, Services the traits with the laws of a store, Operations the
-- use cases. The search for a position and the write or removal at it are one function,
-- replace_first or remove_first. App/Containers is containers.rs without the port bindings, and
-- App/Lifecycle is lifecycle.rs: a use case is run on the answers that its services give, in the
-- order of its questions, and yields its result with the calls that it makes (App/Traced), so every
-- possible answer is covered. The text of container logs is not decoded. App/Status is status.rs:
-- Association normalises the paths of a profile and builds the counting maps, Projection makes the
-- status; the counts are cut to 32 bits as in the source. App/Runtime is ReconnectRuntime and
-- api_read_context of runtime.rs, App/Recovery is recovery.rs.
--
-- Adapters (crates/colui-adapters/src). Adapters/Registry is registry/format.rs; its ProfileStore
-- is the registry as the store of the use cases on profiles, with the ids and the guard of
-- mutations taken as given. Disk is what it
-- uses of std::fs: files by their path, and a list that says which of the next calls fail, and how
-- much a write that fails has written; a call fails with "not found" only if the file is missing.
-- Frames composes such calls. Writes has atomic_write and atomic_backup, Format the file's format
-- with serde_json and sha2 as the record Serde, Lock the configuration and the loop of lock on the
-- answers of the operating system, Store load_bytes, load_canonical and mutate, Artifacts the
-- copies that are kept of a replaced file, Recovery backup and restore, Health what is reported and
-- run_import. The lock is not more than a step that succeeds or fails: that other processes respect
-- it is not part of the model, so no other process writes a file during an operation. UUIDs and
-- times that are drawn are arguments; a profile's equality is the derived one (Domain/Profile/Equality).
-- A restore that cannot decode the registry's file goes on without its revisions, as the source does. Paths are absolute and each file is named in one way. The
-- trait RegistryRecoveryIo is its implementation SystemRegistryRecoveryIo. An entry of a directory
-- that cannot be read is not distinguished from one that is not there.
--
-- Adapters/Inventory is inventory.rs. Normalize is normalize and add_observation, whose BTreeMaps
-- are lists in the order of their keys (Domain/Order). Refresh has complete_refresh, observe and
-- lease_candidate. Coordinator lets any number of callers of refresh_inner run: an event is the
-- section that holds the state's mutex, the end of the worker's task, a marker that is drawn, or a
-- caller that wakes up; the channel of a refresh is found by its start order, and Recorded and
-- Answered follow a result back to the end of its refresh. That a caller's
-- marker was given by the coordinator is a condition of the call. Adapters/Definitions is
-- definitions.rs: Cache is the state with the sections of access, invalidate and invalidate_all,
-- Invalidation what happens between them, Stored what the end of a load leaves, Access the whole call on the answers of the lock manager,
-- the registry and the load. The epochs, counters of 64 bits, are not bounded.
--
-- Not modelled: the use cases of discovery, the scheduler of registrations, the load of a
-- definition through docker compose, the gateway to Docker, the first version's file, the
-- diagnostics, the shell and the interface. The broadcast channels carry copies of what is
-- modelled.
--
-- But for SHA-256's there is no fuel: every loop is recursion on a list, the loop of the registry's
-- lock on the answers that it gets, and the loops of wait_for_definition and refresh_inner are
-- sequences of events.

pub mod Prelude
pub mod Domain
pub mod App
pub mod Locks
pub mod Adapters
