-- ===== src/Operation.antt =====
-- backend/app/persistence/operations.py: the journal of external writes.
-- `digest` is the hexadecimal SHA-256 of the canonical JSON of (run, plan revision, approval, 0).
pub mod Evolution
pub mod Approving
pub mod Preparing
pub mod Dispatching
pub mod Recording
use k8s_incident_agent.Prelude.{
  ℕ, Bool, true, false, not, ◌&&◌, ◌||◌, Option, none, some, List, [], ◌∷◌, ◌++◌, ◌==◌, String,
  if◌then◌else◌, any, or_else, is_some,
}
use k8s_incident_agent.Outcome.{
  Outcome, ok, raised, ◌>>=◌, ◌>>◌, raise_if, lease_lost, approval_conflict, integrity_error,
  value_error,
}
use k8s_incident_agent.Database.{
  Key, Doc, RunStatus, OperationState, Attribution, Action, Approval, Run, Incident, Operation, Db,
  find_run, find_incident, find_operation, set_run, set_operation,
}
use k8s_incident_agent.Lease.{Wait, Lease, fence}

abbrev pub bool_eq : Bool → Bool → Bool
bool_eq true b = b
bool_eq false b = not b

-- row["approval_payload"] == payload
unfoldable pub same_approval : Approval → Approval → Bool
same_approval p q =
    p.approval_id == q.approval_id
    && bool_eq p.approved q.approved
    && p.approver == q.approver
    && p.comment == q.comment
    && p.binding == q.binding

-- state IN ('prepared','dispatching','outcome_unknown','manual_required')
abbrev pub is_open : OperationState → Bool
is_open OperationState.prepared = true
is_open OperationState.dispatching = true
is_open OperationState.outcome_unknown = true
is_open OperationState.manual_required = true
is_open _ = false

abbrev pub is_prepared : OperationState → Bool
is_prepared OperationState.prepared = true
is_prepared _ = false

abbrev pub is_waiting_approval : RunStatus → Bool
is_waiting_approval RunStatus.waiting_approval = true
is_waiting_approval _ = false

revision_of : Option Run → Option Incident → Outcome (Unit {0})
revision_of (some r) (some i) =
    raise_if (r.stop_requested || not (r.event_revision == i.event_revision)) approval_conflict
revision_of _ _ = raised approval_conflict

incident_of : Db → Option Run → Option Incident
incident_of db none = none
incident_of db (some r) = find_incident r.incident_id db.incidents

unfoldable pub assert_revision : Db → Key → Outcome (Unit {0})
unfolding revision_of incident_of
assert_revision db k = let row = find_run k db.runs in revision_of row (incident_of db row)

abbrev pub has_open : Key → List Operation → Bool
has_open incident os = any (λ o. o.incident_id == incident && is_open o.state) os

-- The UPDATE of `queue_approval`.
unfoldable pub approve_run : Approval → ℕ → Run → Run
approve_run payload now r = record r {
  approval_payload = some payload;
  status = RunStatus.queued;
  attempt_base = r.attempt;
  updated_at = now;
}

queue_row : Db → Approval → Run → Option Approval → Outcome Db
unfolding same_approval approve_run
queue_row db payload row (some saved) =
    if same_approval saved payload then ok db else raised approval_conflict
queue_row db payload row none = do
  raise_if (not (is_waiting_approval row.status)) approval_conflict
  raise_if (has_open row.incident_id db.operations) approval_conflict
  ok (set_run db row.run_id (approve_run payload db.now))

run_or_conflict : Option Run → Outcome Run
run_or_conflict none = raised approval_conflict
run_or_conflict (some r) = ok r

unfoldable pub queue_approval : Db → Key → Approval → Outcome Db
unfolding queue_row run_or_conflict
queue_approval db run_id payload = do
  target ← run_or_conflict (find_run run_id db.runs)
  assert_revision db run_id
  row ← run_or_conflict (find_run run_id db.runs)
  queue_row db payload row row.approval_payload

-- The arguments of `prepare`.
pub record Request : Type 0 where
  pub approval_id : Key
  pub plan_revision : Key
  pub plan : Doc
  pub action : Action
  pub before : Doc
  pub target : Doc
  pub patch : Doc

-- CHECK (action IN ('patch_service_selector','patch_readiness_probe'))
abbrev pub is_executable : Action → Bool
is_executable Action.manual_investigation = false
is_executable _ = true

unfoldable pub new_operation : Key → Lease → Request → ℕ → Operation
new_operation operation_id lease q now = record {
  operation_id = operation_id;
  run_id = lease.run_id;
  incident_id = lease.incident_id;
  approval_id = q.approval_id;
  plan_revision = q.plan_revision;
  plan_snapshot = q.plan;
  approval_snapshot = lease.approval_payload;
  action = q.action;
  state = OperationState.prepared;
  lease_epoch = lease.lease_epoch;
  before_snapshot = q.before;
  target_snapshot = q.target;
  request_patch = q.patch;
  response_snapshot = none;
  observed_snapshot = none;
  result = none;
  attribution = Attribution.not_established;
  error_code = none;
  created_at = now;
  dispatched_at = none;
  responded_at = none;
  reconciled_at = none;
  updated_at = now;
}

-- The row that is there is returned if it is the same operation, and otherwise one is inserted.
-- The table's constraints on `operation_id` and `action` can refuse it.
insert_operation : Db → Key → Lease → Request → Option Operation → Outcome (Operation × Db)
unfolding new_operation
insert_operation db operation_id lease q (some existing) =
    if existing.operation_id == operation_id then ok (existing, db) else raised approval_conflict
insert_operation db operation_id lease q none =
    let row = new_operation operation_id lease q db.now in
    if any (λ o. o.operation_id == operation_id) db.operations || not (is_executable q.action)
    then raised integrity_error
    else ok (row, record db { operations = db.operations ++ row ∷ [] })

-- Another run's operation of the incident that is not settled.
unfoldable pub blocked : Lease → List Operation → Bool
blocked lease os =
    any
      (λ o. o.incident_id == lease.incident_id && not (o.run_id == lease.run_id) && is_open o.state)
      os

unfoldable pub prepare :
    (Key → Key → Key → Key) → Db → Lease → Request → Wait → Outcome (Operation × Db)
unfolding blocked insert_operation
prepare digest db lease q wait = do
  conn ← fence db lease wait
  raise_if (blocked lease conn.operations) approval_conflict
  assert_revision conn lease.run_id
  insert_operation conn (digest lease.run_id q.plan_revision q.approval_id) lease q
      (find_operation lease.run_id conn.operations)

unfoldable pub start_dispatch : ℕ → ℕ → Operation → Operation
start_dispatch epoch now o = record o {
  state = OperationState.dispatching;
  lease_epoch = epoch;
  dispatched_at = some now;
  updated_at = now;
}

dispatch_row : Db → Lease → Key → Option Operation → Outcome Db
unfolding start_dispatch
dispatch_row db lease operation_id none = raised lease_lost
dispatch_row db lease operation_id (some o) =
    if o.operation_id == operation_id && is_prepared o.state
    then ok (set_operation db lease.run_id (start_dispatch lease.lease_epoch db.now))
    else raised lease_lost

unfoldable pub dispatch : Db → Lease → Key → Wait → Outcome Db
unfolding dispatch_row
dispatch db lease operation_id wait = do
  conn ← fence db lease wait
  assert_revision conn lease.run_id
  dispatch_row conn lease operation_id (find_operation lease.run_id conn.operations)

-- The arguments of `record`.
pub record Report : Type 0 where
  pub state : OperationState
  pub response : Option Doc
  pub observed : Option Doc
  pub result : Option Doc
  pub code : Option String
  pub attribution : Attribution

abbrev pub is_outcome : OperationState → Bool
is_outcome OperationState.prepared = false
is_outcome OperationState.dispatching = false
is_outcome _ = true

-- `allowed`: the states from which an outcome may be recorded.
unfoldable pub allowed : OperationState → OperationState → Bool
allowed OperationState.succeeded OperationState.dispatching = true
allowed OperationState.rejected OperationState.prepared = true
allowed OperationState.rejected OperationState.dispatching = true
allowed OperationState.outcome_unknown OperationState.dispatching = true
allowed OperationState.reconciled OperationState.succeeded = true
allowed OperationState.reconciled OperationState.reconciled = true
allowed OperationState.manual_required OperationState.dispatching = true
allowed OperationState.manual_required OperationState.outcome_unknown = true
allowed OperationState.manual_required OperationState.succeeded = true
allowed OperationState.manual_required OperationState.reconciled = true
allowed OperationState.manual_required OperationState.manual_required = true
allowed _ _ = false

abbrev pub is_reconciliation : OperationState → Bool
is_reconciliation OperationState.reconciled = true
is_reconciliation OperationState.manual_required = true
is_reconciliation _ = false

unfoldable pub write_report : Report → ℕ → Operation → Operation
write_report q now o = record o {
  state = q.state;
  error_code = q.code;
  response_snapshot = or_else q.response o.response_snapshot;
  observed_snapshot = or_else q.observed o.observed_snapshot;
  result = or_else q.result o.result;
  attribution = q.attribution;
  updated_at = now;
  responded_at = if is_some q.response then some now else o.responded_at;
  reconciled_at = if is_reconciliation q.state then some now else o.reconciled_at;
}

record_row : Db → Lease → Report → Option Operation → Outcome Db
unfolding allowed write_report
record_row db lease q none = raised (value_error "invalid operation transition")
record_row db lease q (some current) =
    if not (allowed q.state current.state)
    then raised (value_error "invalid operation transition")
    else if is_some q.response && is_some current.response_snapshot
        || is_some q.result && is_some current.result
    then raised (value_error "operation response is immutable")
    else ok (set_operation db lease.run_id (write_report q db.now))

-- `record` of the source.
unfoldable pub record_outcome : Db → Lease → Report → Wait → Outcome Db
unfolding record_row
record_outcome db lease q wait = do
  raise_if (not (is_outcome q.state)) (value_error "invalid operation outcome")
  conn ← fence db lease wait
  record_row conn lease q (find_operation lease.run_id conn.operations)
