-- ===== src/Lib.antt =====
-- An incident agent for Kubernetes services: it collects evidence on a service, diagnoses the fault,
-- asks a human to approve a patch, writes the patch once and verifies its effect. Runs of the agent are
-- rows of PostgreSQL tables; workers claim them under leases, journal the one write of a run, and charge
-- its calls to a budget.
--
-- Parts and files:
-- - Prelude: the names and small functions that all files share; Outcome: a value or the exception that
--   the code raises, and the chaining of transactions.
-- - Database: the columns of the tables of backend/app/persistence/migrations.py that the two
--   repositories read and write, with a row's update by its key. The state `Db` holds the clock too.
-- - Lease: LeaseRepository of backend/app/persistence/leases.py. `claim`, `fence`, `heartbeat`,
--   `mark_checkpoint_started`, `finish`, `announce` and `withdraw` are the methods of these names. Under
--   it, Fencing, Selection, Claiming and Finishing are about one method each; Evolution, Follows and
--   Effects are about what every method does to a row.
-- - Operation: OperationRepository of backend/app/persistence/operations.py. `record_outcome` is its
--   method `record`; its children are about one method each, and Evolution about all.
-- - Protocol: a list of calls of both repositories by any workers, in any order, each one transaction
--   that commits or raises; time passes between calls, and while a call waits for its two locks,
--   which raises where one takes more than five seconds.
-- - Budget: RunBudget of backend/app/runtime/budget.py, on the payload that `edit` loads and saves.
-- - Evidence, Report, Diagnosis: the schemas of backend/app/schemas, the rules of
--   backend/app/diagnosis/rules.py and the engine of backend/app/diagnosis/engine.py. A text is the list
--   of the parts of the f-string that writes it.
-- - Schemas, Equality, PlanEquality: the plans, approvals, results and the state of
--   backend/app/agent/schemas.py and state.py, and Python's == on them.
-- - Approval, Authorization: backend/app/agent/approval.py with the node `request_human_approval` of
--   nodes.py, and backend/app/agent/execution_policy.py.
-- - TargetIdentity, Policy: backend/app/agent/target_identity.py and remediation_policy.py, which the
--   authorisation calls again before the write (Authorization/Policed).
-- - Passing: what follows where a chain of tests does not raise.
-- - Target: the snapshots of backend/app/tools/remediation_tools.py and the patches that
--   backend/app/runtime/operations.py builds of them.
-- - Program, Executor: LedgerExecutor of backend/app/runtime/operations.py, as a tree of what it asks of
--   its surroundings. Under it, System runs any number of workers on one database, Guarded, Moves and Once
--   are about what they send.
-- - Recovery: `classify` of backend/app/runtime/recovery.py, on a saved run, a checkpoint of the graph
--   library and the run's operation.
-- - Verification: KubernetesRecoveryVerifier of backend/app/agent/verification.py. `observe` is
--   `_observe`, and Loop has `verify`; attempt n sees the n-th state of the cluster, whatever it is.
--
-- How the parts interact: Operation uses the fence of Lease, as its class extends the lease repository;
-- Lease reads the operation of a run where it finishes the run; Protocol runs both on one database.
-- Executor calls the repositories of Lease and Operation and builds its patch with Target; each of its
-- moves is a step between those of other workers. Authorization calls Approval and is given the policy
-- on plans as a function, which is that of Policy in Authorization/Policed. Policy is given the facts of
-- diagnosis_policy.py and the profile of service_profiles/registry.py as functions.
-- The fence around an edit of the budget is that of Lease; the budget's theorems are about the edits.
--
-- Numbers: the times of the tables are natural numbers of microseconds. The seconds of the budget are
-- Python's numbers, which round: their sum, difference and comparison are a parameter of Budget, and no
-- theorem is about their sums. No subtraction of the code goes below 0 where the model subtracts natural
-- numbers, but for the tokens of the budget, whose file says why. A text or a document that
-- is only stored and compared is a number. A transaction is one step: the rows' locks make it so, and
-- `claim` is given the set of rows that other transactions lock, which SKIP LOCKED passes over.
-- Digests (hashlib), patterns, str.strip, str.lower and the substring test are parameters.
--
-- Fuel: `verify` has fuel, which bounds its attempts. One more than the timeout has units is enough, if
-- the clock moves by a unit at least across a sleep. All other loops are recursions over lists.
--
-- Protocol has the calls of the lease and operation repositories alone. The statements of
-- backend/app/persistence/controls.py and rounds.py on the same tables are not among them: a control may
-- cancel a run that is scheduled for a retry and leave its retry time, and may reject an operation that
-- is prepared.
--
-- Not modelled: the database driver, the HTTP interface, the graph library and the calls of the
-- language model and of the Kubernetes client, which are input and output; the
-- other repositories of backend/app/persistence; the nodes of backend/app/agent/nodes.py but the one of
-- the approval; backend/app/investigation, backend/app/llm and backend/app/rag; the front end and the
-- deployment files.
pub mod Prelude
pub mod Outcome
pub mod Database
pub mod Lease
pub mod Operation
pub mod Protocol
pub mod Budget
pub mod Evidence
pub mod Report
pub mod Diagnosis
pub mod Verification
pub mod Schemas
pub mod Target
pub mod Equality
pub mod PlanEquality
pub mod TargetIdentity
pub mod Policy
pub mod Passing
pub mod Approval
pub mod Authorization
pub mod Program
pub mod Executor
pub mod Recovery
