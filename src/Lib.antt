-- ===== src/Lib.antt =====
-- The PF2e parser service: it claims routed `pf2e.parse` requests at a kernel, turns the source
-- text of each into candidate rules, and submits every candidate to the kernel as a
-- `pf2e.rules.admit` request of its own before it completes the claim.
--
-- The parts, and the files that model them:
--
--   Base       Boolean tests, lists, options, and integers of 64 bits (wrap-around written out).
--   Std        what the source uses of Rust's standard library. A text is the list of its scalar
--              values. Std/Unicode is the interface to the case tables, with its laws on ASCII.
--   Result     `Result`, and the chains that `?` makes.
--   Clock      `unix_time` and `now_seconds`, which read the system clock.
--   Domain     src/domain.rs and the error type of src/error.rs; Domain/Display has the errors'
--              texts, and Domain/Printed reads them back.
--   Parser     src/parser.rs. The identifiers that `Uuid::new_v4` draws are a function from the
--              number of the draw; a confidence is in hundredths. The loop over `[[...]]` runs on
--              one more than the length of the text as fuel: each turn consumes four characters
--              at least.
--   Adapter    src/book_adapter.rs, one child for each of the three converters; the child's child
--              Readback is about parsing what the converter renders, Entries about splitting a
--              page, and Pages about a whole page; Adapter/Pages is how the parser cuts what the
--              converters join. `split_feats_fuel` runs on the number of lines: each turn consumes
--              one at least.
--   Codec      the uuid and base64 crates, as an interface with their documented behaviour.
--   Wire       the responses of src/claims.rs, src/routes.rs, src/routed_request.rs,
--              src/subscriptions.rs and src/instance_lease.rs. serde's decoders are a parameter.
--   Kernel     the interfaces `KernelPort` (src/kernel_client.rs) and `CandidateRepository`
--              (src/domain.rs). What the kernel answers may depend on all calls made before; the
--              `World` holds those calls and the repository's state.
--   Client     `KernelClient` of src/kernel_client.rs over the infernal-client library, the clock
--              and the random draws, which are parameters.
--   Stateful   computations with a state that may fail, and keep their effects when they do.
--   Repository src/postgres_candidate_repository.rs over the tables of migrations/0001_init.sql
--              (Repository/Schema). The `Engine` is PostgreSQL, the pool, and the other users of
--              the tables: which operation fails, also for a value that a column does not take;
--              what becomes of a commit; in which order rows come; and what others have committed
--              by each operation, as at READ COMMITTED. Repository/Laws says what is relied on:
--              the schema's constraints hold, and the tables are written by instances of this
--              service only. Children: the constraints (Consistent), tables that only grow by new
--              runs (Growth), reading rows back (Rows), what one call does (Settled, Stored,
--              Outcome), the next call (Retry), many calls (History), and a database where nothing
--              goes wrong (Quiet, Inserted, Success).
--   Dispatch   src/dispatch.rs: `dispatch`, and the scopes in Dispatch/Scope. Dispatch/Calls has
--              the relation between a dispatch's result and its calls, Dispatch/Came how far one came,
--              and Dispatch/Retried is about two dispatches of one request over Repository.
--   Work       `work_once` of src/lib.rs. Work/Passes is the protocol of a pass as a relation,
--              Work/Protocol compares the code with it, Work/Completion is about when a claim may
--              be completed, Work/Success about the passes that complete one, Work/Published about
--              those over Repository, and Work/Store about the repository's state behind a pass.
--   Startup    `Config::from_env` of src/lib.rs, with the connection of src/database.rs and the
--              construction and enrollment of `KernelClient`. What a start asks of the outside is
--              a list of steps; the answer to each may depend on those before it.
--   Service    the work loop of src/lib.rs, any number of its turns, the renewal of the instance
--              lease, and, in Service/Stored, the loop over Repository.
--   Health     src/health.rs: the heartbeat, the policy of the probes, and the HTTP response.
--   Process    src/main.rs and the accept loop of src/health.rs: the work loop, the listener and one
--              thread for each connection, interleaved in any order as a step relation. A thread's
--              step ends where it reads or writes something outside it. The heartbeat is the list of
--              the values it has held, since a relaxed load may return an older one. Tracked
--              compares the loop among the probes with Service, Truthful is about their answers,
--              and Stored about the tables of Repository.
--   Tests      unit tests of the source, and each theorem at a concrete input.
--
-- Repository calls Parser and implements `CandidateRepository`; Dispatch calls a repository and
-- the kernel's port, both parameters; Work calls Dispatch and the port; Client implements the port.
--
-- Not modelled: what is printed, the sockets of the probes, the tests of the source that need a
-- kernel or a database, the column `created_at`, which nothing reads, and what is inside the errors of
-- the client library and of the file system: such an error is the text that it prints.
pub mod Base
pub mod Clock
pub mod Std
pub mod Result
pub mod Stateful
pub mod Domain
pub mod Wire
pub mod Kernel
pub mod Client
pub mod Codec
pub mod Parser
pub mod Adapter
pub mod Repository
pub mod Dispatch
pub mod Work
pub mod Startup
pub mod Service
pub mod Health
pub mod Process
pub mod Tests
