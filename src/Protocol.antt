-- ===== src/Protocol.antt =====
-- Workers, and the API that approves, as interleavings of transactions on one database: the
-- repositories of backend/app/persistence/leases.py and operations.py. A worker may call with any
-- lease that it ever had.

pub mod Progress
pub mod Ownership
pub mod Journal
pub mod Approvals
pub mod Examples
use k8s_incident_agent.Prelude.{ℕ, ◌+◌, Bool, Option, none, some, List, [], ◌∷◌}
use k8s_incident_agent.Outcome.{Outcome, ok, raised}
use k8s_incident_agent.Database.{Key, RunStatus, Approval, Operation, Db}
use k8s_incident_agent.Lease.{
  Wait, Lease, Finish, announce, withdraw, claim, mark_checkpoint_started, heartbeat, finish,
}
use k8s_incident_agent.Operation.{
  Request, Report, queue_approval, prepare, dispatch, record_outcome,
}

-- One transaction with its arguments; `ticks` lets time pass.
pub data Call : Type 0 where
  ticks : ℕ → Call
  announces : Key → ℕ → Call
  withdraws : Key → Call
  claims : Key → ℕ → ℕ → (Key → Bool) → Call
  marks : Lease → Wait → Call
  heartbeats : Lease → ℕ → Wait → Call
  finishes : Lease → Finish → Wait → Call
  approves : Key → Approval → Call
  prepares : Lease → Request → Wait → Call
  dispatches : Lease → Key → Wait → Call
  records : Lease → Report → Wait → Call

-- A transaction that raises leaves the tables as they were.
abbrev pub after : Db → Outcome Db → Db
after db (ok after_db) = after_db
after db (raised e) = db

abbrev pub after_pair {ℓ} : {A : Type ℓ} → Db → Outcome (A × Db) → Db
after_pair db (ok (a, after_db)) = after_db
after_pair db (raised e) = db

module _ (digest : Key → Key → Key → Key) where
  unfoldable pub step : Db → Call → Db
  step db (ticks n) = record db { now = db.now + n }
  step db (announces owner seconds) = announce db owner seconds
  step db (withdraws owner) = withdraw db owner
  step db (claims owner seconds max_attempts locked) =
      (claim db owner seconds max_attempts locked).1
  step db (marks lease wait) = after db (mark_checkpoint_started db lease wait)
  step db (heartbeats lease seconds wait) = after db (heartbeat db lease seconds wait)
  step db (finishes lease a wait) = after_pair db (finish db lease a wait)
  step db (approves run_id payload) = after db (queue_approval db run_id payload)
  step db (prepares lease q wait) = after_pair db (prepare digest db lease q wait)
  step db (dispatches lease operation_id wait) = after db (dispatch db lease operation_id wait)
  step db (records lease q wait) = after db (record_outcome db lease q wait)

  pub run : Db → List Call → Db
  run db [] = db
  run db (c ∷ cs) = run (step db c) cs
