-- ===== src/Lib.antt =====
-- The server of LegalGenie (server/src), a case-management program with an agent: what its
-- handlers, its job queue and its agent do to the database, and that this is what they promise.
--
-- The program is a web server over PostgreSQL. A request passes the access checks (access.rs) and
-- runs statements; long work is queued in the table jobs (jobs.rs) and done by workers
-- (job_worker.rs); the agent (agent/) runs tools in a user's name, and leaves those that write to
-- a human's decision. The files:
-- - Sql: the connection. A handler is a function from the tables, and from what the connection
--   does to each statement to come, to a result and the tables after it. So a theorem about every
--   world covers every failing statement; "a connection that works" is a world without faults.
--   Sql/Rules has the invariants that actions keep, Sql/Rows the statements on a list of rows.
-- - Schema: the tables (server/migrations_pg) that Access, Members and Agent share, with the
--   columns that they read or write.
-- - Errors: server/src/errors.rs and server/src/api.rs. Errors/Make has the constructors.
-- - Access: server/src/access.rs. Access/Roles states the rules of the rows alone, to which
--   Access/Laws and Access/Complete compare the checks.
-- - Members: server/src/routes/case_members.rs; Members/Listing is its list_members. Pages has the
--   pages that lists of cases and of members are cut into.
-- - RateLimit: server/src/rate_limit.rs. Times are nanoseconds, as the clock has them, and seconds
--   in the table.
-- - Idempotency: server/src/idempotency.rs, around a rest of the server that is a parameter.
-- - Jobs: server/src/jobs.rs and server/migrations_pg/0017_jobs.sql, one definition a function.
--   The unique index of the table is a test that every statement which writes it must pass.
-- - Worker: server/src/job_worker.rs. A worker's loop is a recursion on the list of its turns,
--   which ends where the shutdown is seen; no fuel is needed elsewhere, since every loop of the
--   modelled code goes over rows.
-- - Json: the JSON values (serde_json) that the operation log compares.
-- - Oplog: server/src/oplog.rs; Oplog/Truncate cuts a text to a number of characters.
-- - Context: server/src/context.rs. Paths: what std::path does with a text, for Upload and Store.
-- - Upload: server/src/file_security.rs. The guess from an extension (mime_guess) and the
--   detection from the first bytes (infer) are parameters.
-- - Store: server/src/store.rs over a disk of files and directories, any operation of which may
--   fail; bytes are written one at a time. Store/Contract has the contract of the trait.
-- - Accounts: server/src/routes/auth.rs. The signer of tokens (jsonwebtoken) and the hasher
--   (argon2) are parameters, and the laws of the signer that a theorem needs are its hypotheses;
--   Accounts/Sample has a signer that meets them. Accounts/Passwords, Login and Sessions are the
--   handlers; Accounts/Histories has the histories of calls.
-- - Cases: server/src/routes/cases.rs, Cases/Listing its list_cases. What the handlers send to
--   the operation log is part of their result.
-- - Agent: server/src/agent. Agent/Tools is tools.rs; Agent/Words, Agent/Intent and Agent/Engine
--   are engine.rs; Agent/Dialogue is a message, in engine.rs and routes.rs; Agent/Sessions,
--   Agent/Approvals and Agent/Trail are routes.rs.
-- Files called Tests run the theorems on small inputs.
--
-- Statements are atomic, and a handler's statements run one after another; what another task does
-- between two of them is modelled only where a theorem says so, as for the claims of two workers
-- and for a history of the queue. Times that the tables keep as texts are numbers, which have the
-- same order. A panic is a result of its own (Failure.panic). Fresh identifiers, clocks and the
-- work of the tools and of the jobs are arguments.
--
-- Not modelled: document parsing, translation, search, exports, the routes of files, persons, the
-- timeline and the logs, the web pages and the scripts; the formatting of a tool's result;
-- metrics and traces.
mod Prelude
pub mod Sql
pub mod Errors
pub mod Schema
pub mod Access
pub mod Members
pub mod RateLimit
pub mod Idempotency
pub mod Jobs
pub mod Worker
pub mod Agent
pub mod Json
pub mod Oplog
pub mod Context
pub mod Upload
pub mod Store
pub mod Accounts
pub mod Cases
pub mod Paths
pub mod Pages
