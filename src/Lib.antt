-- ===== src/Lib.antt =====
-- Ratash (the crate `ratash`): a terminal client that manages Clash profiles and supervises a
-- Mihomo core. A Supervisor process owns the schedulers, the telemetry and the configuration
-- transactions; the CLI and the terminal interface talk to it.
--
-- What is modelled, file by file; paths are from the repository's root.
--   Constants            src/constants.rs, the limits and intervals that the parts below use.
--   Scheduler/Refresh    `ProfileRefreshScheduler` of src/scheduler.rs: which profiles are fetched
--                        again and when. State: `entries` and `in_flight` as ascending association
--                        lists for the `BTreeMap`s; `upsert`, `remove`, `take_due`, `complete`,
--                        `next_deadline` are one function each.
--   Scheduler/Probe      `ProbeScheduler` of src/scheduler.rs: the latency probes of the active
--                        nodes. State as in the source; `reset`, `deactivate`, `take_due`,
--                        `complete`, and in View the reads (`node_snapshot`, `probe_status`,
--                        `metrics`, `batches`).
--   Telemetry/Log        `LogBuffer` of src/telemetry.rs: `push` with its eviction, the drops that
--                        are recorded from outside, `tail_after` with its byte bound and its gap.
--   Telemetry/Store      `TelemetryStore` of src/telemetry.rs: what a core generation publishes.
--   Transaction          `ConfigTransactionCoordinator` of src/transaction.rs. Its store, runtime,
--                        validator, health probe, revisions, bundles and locks are the fields of a
--                        record of calls over an abstract world. Types holds the data and the
--                        ports, Recovery the private helpers, Execute `execute_guarded` by its
--                        stages and its callers, Startup `recover_startup` and
--                        `prepare_startup_reapply`. Keeping, Stages, Outcomes, Success, Confirmed
--                        and Reapply are the proofs, in the rules of Common/Attempt.
--   Persistence          `PersistenceStore` of src/persistence.rs. Disk: the files of the store, a
--                        schedule that says which calls of the file system fail, and the helpers
--                        that write through a temporary file. Store: the operations, with the
--                        encoder, the decoder and SHA-256 as the fields of a record. Prune: what is
--                        retained and what is removed; the listings of the directories are
--                        arguments. Port: the store as the port that Transaction takes. The rest
--                        are the proofs.
--   Rule                 src/rule.rs. Types: the rule types and their names. Parse: the parser of
--                        a rule, with its regular-expression and its logical payloads. Set:
--                        `LocalRuleSet` with `add`, `replace`, `remove`, its pages and its document.
--   Profile              src/profile.rs. Snapshot: `ProfileSnapshot::parse` over the values that a
--                        YAML reader returns. Catalog: `ProfileCatalog` with `restore`, `resolve`,
--                        `activate`, `remove`, `refresh_context` and `commit_refresh`.
--   Tui/Inbox            `FairEventInbox` of src/tui/event_inbox.rs: a queue for each source of
--                        events, `push` with its coalescing and its drops, `drain_round`.
-- The store of Persistence is the store of Transaction. The other parts meet in the application
-- layer: the scheduler's tasks are fetched, committed to the catalog and handed back by
-- `complete`, a changed profile becomes a candidate of a transaction, and a committed generation
-- resets the probes and replaces the core of the telemetry.
--
-- Representation. A `ProfileId` is the number of its 128 bits and a `NodeRecordId` that of its
-- digest, so that their order is that of the source; the other digests are numbers too. Durations
-- are milliseconds. A text is its bytes, and in Rule and Profile its code points. A u64 counter that
-- saturates or that is checked does so at 2 ^ 64. A function that returns an error returns it in
-- `Result`; a call of a port or of the file system also returns the new world.
--
-- Fuel. `strip_params` of a regular-expression rule runs on the length of its text: each round
-- takes a comma off, so that the length is enough. No other definition has fuel: the loop of the
-- probes' `take_due` counts down the free workers, and all other loops follow a list or a tree. The
-- histories of the refresh scheduler are bounded by 2 ^ 62 calls, since its counters skip zero when
-- they wrap around.
--
-- Not modelled. `stale_ratio` of the probe metrics is a floating-point number. The mutual exclusion
-- and the release of the coordinator's locks are not shown: a lock is a call that succeeds or
-- reports poison or contention. `request_shutdown` is what the world does between two reads of the
-- flag. An I/O error of a port is never looked into and so carries nothing. `ConnectionRecord`,
-- the lower-casing of a text, what an event of the interface carries, the reader and the writer of
-- YAML and JSON, SHA-256, a subscription URL and the parser of a UUID are parameters. A temporary
-- file has a name that nothing reads, so that it is not a part of the disk, and no more are the
-- directories; all stored files are regular, and a crash is that a call and all after it fail.
-- `get_mut` of the catalog, by which an error or a selection is noted, is left out. The other
-- components are named in PROJECT.json.
pub mod Constants
pub mod Scheduler
pub mod Telemetry
pub mod Common
pub mod Transaction
pub mod Persistence
pub mod Rule
pub mod Profile
pub mod Tui
