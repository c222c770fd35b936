-- ===== src/Lib.antt =====
-- smrt serves Minecraft packs: a curator declares the mods of a pack, a save pulls in what they
-- depend on, a build decides which mods an install must carry and writes a manifest, a gate
-- judges whether the result may be published, and launchers compare manifests. Around that path
-- stand the accounts of its users, the gate on every request, the registry of jobs that builds
-- run in, the room of those who edit a pack, the background harvest and the names that may reach
-- the disk. The modules below model these parts; what is shown of them stands in the list at the
-- end.
--
-- Semver: src/registry/semver.rs, the comparator of `cmp` and the ranges of `in_range`.
--
-- Domain.Side, Domain.Version, Domain.Manifest, Domain.Pack, Domain.Diff: the files of these
-- names under src/domain. Domain.Pack has `duplicate_declaration`, `with_authored_from` and what
-- `edit_rev` hashes; Domain.Diff has `diff_manifests`.
--
-- Registry.Classify: src/registry/classify.rs. The two queries of `classify_artifact` are the
-- record `Db`; an error of the database is an error of the function.
--
-- Build.Required: `derive_required` of src/authoring/build.rs, one definition for each of its
-- closures and loops. The classification map is a function of the filename. Build.Version:
-- `next_auto_version`, `validate_pack_version` and `resolve_auto_version` of the same file,
-- where the listing of the published versions is an argument, and `existing_versions`, over what
-- the manifest directory answers: that it cannot be opened, or its entries one by one, where an
-- entry may be an error or have a name that is no text.
--
-- Gate: `check` of src/authoring/gate.rs, over the fields that it reads of the report of
-- src/authoring/resolve.rs.
--
-- Depfill: `merge_pulled`, `already_present`, `apply_requires` and `prune_orphaned_pulled` of
-- src/authoring/depfill.rs. Depfill.Fill: `merge_wire_deps` with the wire dependencies as an
-- argument, and `fill_dependencies`. Its plan, with the wire dependencies folded in, and the
-- resolution of a target are parameters: the first may fail, the second may find nothing, and
-- neither has a state, so the caches that the passes share are not modelled.
--
-- Accounts: src/accounts/mod.rs. Accounts has the roles and levels, Accounts.Session the users
-- and their sessions, Accounts.Access the access lists, blocks and suspensions, Accounts.Threads
-- the reports and proposals with the deletion of those of a pack, Accounts.Audit the audit
-- trail. The tables of src/accounts/schema.sql are lists of rows, and Table has the statements:
-- a `SELECT` by a key, `INSERT ... ON CONFLICT DO UPDATE`, `UPDATE ... WHERE`, `DELETE`. The
-- clock and the random tokens are arguments. An error of the database is modelled where the gate
-- reads the store, through the interface AccountReads, and where a constraint or the code itself
-- refuses.
--
-- Http: the error replies of src/http/error.rs. Http.Caller: who is calling, by a bearer token
-- or the session cookie, and the guards `require_auth`, `require_debug` and `require_session` of
-- src/http/auth.rs, on the headers as texts. Http.Auth: `authorize`, `may`, `may_uid` and
-- `filter_may` of the same file. Both read the accounts through AccountReads, which
-- Http.Auth.Store fills with the tables of Accounts. Http.Page: src/http/page.rs, and
-- `get_audit_log` of src/http/admin.rs; the base64 library is the record Base64, of which its
-- encoding is assumed to be decoded again.
--
-- Storage: the checks of ids, versions, hashes and relative paths in src/storage.rs, and the
-- paths that are joined of them.
--
-- HarvestSched: src/authoring/harvest_sched.rs. An action is one atomic access of a caller or of
-- the worker, `step` takes it where it can be taken, and a run is any list of actions. The
-- stored wake of the notifier is a flag, and calls that are under way are counted. What the
-- harvest answers is an argument of the action that ends it.
--
-- PackStream: src/authoring/packstream.rs. A room has its editors with a count each and the list
-- of what was sent on its channel.
--
-- Jobs: src/jobs.rs, the registry of jobs, with the id that it mints as an argument.
-- Jobs.Publish: `run_build`, with `make_pack_summary` of src/authoring/build.rs. The services
-- that it calls are the record Services, each of which may fail, and the state is the job's log
-- and result and the list of what was written: to the storage, to the audit trail and, by the
-- check of the loader windows, to the registry. It runs the `check` of Gate on the report.
--
-- Worklist: the loop that `derive_required` and `prune_orphaned_pulled` run, for any edges.
-- Keyed: maps built from lists. Base: the helpers that all modules share.
--
-- Texts are lists of code points, hash maps are functions or lists searched from the end, and
-- hash sets are lists of what was inserted. Log lines are left out, but for those of a job's own
-- log; the Debug quoting of names in error messages is left out too, and the refusals that carry
-- it are constructors instead. Unsigned numbers that are parsed stay below 2^64, and the build
-- counter wraps there.
--
-- The worklist loop runs on fuel: the length of its first queue, and one for each edge out of
-- what the set does not hold. An entry adds its edges once, so that this many rounds empty the
-- queue. The passes of `fill_dependencies` are bounded by the 8 of the source. The walk over the
-- pages of the audit trail is given one page more than there are rows, since no page but the
-- last is empty. All other recursion is structural.
--
-- Timestamps are natural numbers of seconds, and 64-bit ids of users are integers. A hash map of
-- the process is a list with one entry for a key.
--
-- Not modelled: the traversal behind the resolve report, the choice of a version for a
-- dependency, src/authoring/configdiff.rs and the judgement of src/authoring/loaderreq.rs, which
-- compute and are left for later; the other handlers under src/http, src/events.rs, the
-- notifications, comments and uploads of the accounts, and the files and locks of the storage;
-- the harvest and the class file readers, the SQL of the registry, the clients of other services
-- and the web panel, which are input and output, or readers of binary formats, or rest on a
-- database. A slow reader that a channel drops, and the bounded wait of `await_settled`, are
-- left out.
pub mod Base
pub mod Table
pub mod Accounts
pub mod Http
pub mod Storage
pub mod HarvestSched
pub mod PackStream
pub mod Jobs
pub mod Worklist
pub mod Keyed
pub mod Semver
pub mod Domain
pub mod Registry
pub mod Build
pub mod Gate
pub mod Depfill
