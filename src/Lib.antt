-- ===== src/Lib.antt =====
-- A model of ReconcileFlow AI (backend/src/reconcileflow) and proofs about it.
--
-- The program matches bank transactions, ERP invoices and settlements of payment gateways. The engine
-- takes the typed records of one run and returns results, each of which names the records it settles.
--
-- Files and code:
-- - Prelude and its children: library names passed on, Boolean tests, Python's texts as lists of code
--   points, integers, counting of identifiers, and the stable sort.
-- - Models: backend/src/reconcileflow/models, the records. Of each record the fields that the engine
--   reads come first and the others stand in a details record, which the record opens.
-- - Reconciliation: backend/src/reconcileflow/reconciliation. Config is config.py, Results is results.py;
--   engine.py is Matching (the module functions and the combination search), Grouping (the dictionaries
--   and sort keys), Progress (the local state of `reconcile` and the closure `add`), Outcomes (the
--   arguments of each call of `add`), Phases (the loop bodies) and Engine (`reconcile`). The rest of the
--   folder holds proofs: Combinations and SoleMatch about the search, Tracking, Steps, LateSteps, Loops,
--   GroupCounts, Partition, Identifiers and Conservation about the bookkeeping, Justified, Evidence,
--   LateEvidence, SoundLoops and Soundness about the results, Unreferenced about missing references.
-- - Jobs: the job queue, BackgroundJobRepository of backend/src/reconcileflow/persistence/repositories.py
--   over the records of persistence/models.py. Records holds the records, Store the tables and their
--   access, Queue and its child Restart the operations but two, Claim `claim_next`, Completion
--   `complete`, Expiry the expired jobs and their deletion. Steps makes one call a step between stores.
--   Validity, Transitions (one job's state machine), Effects (what each operation writes), Table (rows),
--   Recovery, Priority, Evolution, Invariant, Numbering, Fairness and Stranded are proofs.
-- - Worker: backend/src/reconcileflow/worker/service.py over the queue. Service holds `checkpoint`,
--   `run_once` and the ways of ending a job; the processor is a function that the worker takes.
-- - Runs: ReconciliationRunRepository of persistence/repositories.py. Repository holds creation, lookup and
--   transitions, Lifecycle proofs.
-- - Accounts: organizations, users, memberships, refresh tokens and security events. Records is
--   persistence/models.py; Store the repositories of persistence/repositories.py; Tokens auth/tokens.py;
--   Auth and Registration api/routes/auth.py; Membership api/routes/memberships.py; Tenants
--   api/auth_dependencies.py. Steps makes one request a step between tables. Answers, Families (of
--   tokens), Sessions, Ownership, Invariant, Rotation, Protection, Tokens/RoundTrip and
--   Registration/Slugs are proofs.
-- - Files: source files and storage quotas. Workspace is SourceFileRepository and the storage accounting of
--   OrganizationRepository in persistence/repositories.py; Handlers the upload and the deletion of
--   api/routes/files.py and two handlers of api/routes/organizations.py; Finalization
--   `finalize_direct_upload`. Metering, Accounting, Quotas, Uploads and Finalization/Storage are proofs.
--   The object storage of storage/ is a parameter: what its calls answer is an argument.
-- - Maintenance: RetentionCleanup of maintenance/cleanup.py over the Expiry of jobs and the deletion of
--   workers of persistence/repositories.py. Retention holds the definitions, Batches and Cleanup proofs.
-- - Usage: the metering and the events of hosted inference. Records is AIUsageRepository of
--   persistence/repositories.py, Controller ai/usage.py, Limits and Closing proofs; Events is
--   AIInferenceEventRepository with its proof. The start of the month of an instant and the time that the
--   database stamps on a new row are parameters.
--
-- The queue is one store that a step changes; interleavings of workers and requests are sequences of
-- steps, since each call holds its rows locked until its unit of work commits. That a
-- claim skips a row which another transaction has locked is not modelled. The worker claims in one
-- unit of work, runs the processor, and ends the job in another.
--
-- Conventions:
-- - A text is the list of its code points. A date is its proleptic ordinal and a datetime its instant.
-- - A Decimal is an integer of one small unit, the same for all amounts, so sums and comparisons are
--   exact; the 28-digit rounding of Python's context is not modelled. The text of a Decimal and Unicode
--   case folding are functions that the engine record carries.
-- - A set of identifiers is the list of what was put in, asked for membership only. The sum of the
--   engine's group of settlement entries filters by a set that is still empty there; the filter is left
--   out.
-- - A UUID is a number and an instant a number of microseconds. The clock and the identifiers that the
--   database's library draws are arguments; a new identifier is no key of the table.
-- - Loops are recursions on their lists. The combination search recurs on the number of sizes that are
--   left, min(len, maximum) - 1 of them, and decimal digits on fuel of n + 1 rounds, which is enough
--   since every round divides by ten. The loop of registration for a free slug recurs on fuel; as many
--   rounds as there are organizations and one more are enough for slugs that differ. The loops of the
--   cleanup recur on fuel; one round more than there are rows is enough, since a round that goes on has
--   deleted a row.
-- - JWT, SHA-256, the hashing of passwords and Python's lower case are parameters. A handler of the
--   accounts gives the tables that it leaves and its answer: an error inside its unit of work leaves the
--   tables as they were, and one that is raised after the commit does not.
--
-- Of the queue, `list`, `count` and `summarize` are not modelled.
--
-- Not modelled: the free-form extra_data, input and output, and the components that the manifest lists
-- as such.
pub mod Prelude
pub mod Models
pub mod Reconciliation
pub mod Jobs
pub mod Worker
pub mod Runs
pub mod Accounts
pub mod Files
pub mod Maintenance
pub mod Usage
