-- ===== src/Executor.antt =====
-- LedgerExecutor of backend/app/runtime/operations.py: `execute` and `reconcile` as programs.
pub mod System
pub mod Guarded
pub mod Once
pub mod Moves
mod Examples
use k8s_incident_agent.Prelude.{
  ℕ, Bool, true, false, not, ◌&&◌, ◌||◌, Option, none, some, List, [], ◌∷◌, String, str_eq, ◌==◌,
  if◌then◌else◌, is_some, equals,
}
use k8s_incident_agent.Outcome.{
  Error, Outcome, ok, raised, value_error, outcome_unknown, api_error, lease_lost, other_exception,
  ◌>>=◌,
}
use k8s_incident_agent.Database.{Key, Doc, OperationState, Attribution, Approval, Operation}
use k8s_incident_agent.Schemas.{
  ExecutionStatus, ResourceKind, RemediationParameters, RemediationPlan, Configuration, selector,
  readiness, ResourceSnapshot, ApprovalRecord, ActionExecutionResult,
}
use k8s_incident_agent.Lease.{Lease}
use k8s_incident_agent.Operation.{Request, Report, is_prepared}
use k8s_incident_agent.Target.{
  ApiObject, PatchOp, same_text, same_configuration, read_target, identified, desired_configuration,
  prior_configuration, build_patch,
}
use k8s_incident_agent.Program.{
  WriteAnswer, responded, refused, lost, Program, returns, settles, raises, loads, reads_profile,
  reads_target, prepares, charges, dispatches, sends, records, asks_time, or_raise, refuse_if,
  refuse_with, Authorization, is_refusal, is_answered, is_deployment, still_owned,
}

-- How texts and documents stand in the tables: `key` of a text, and the documents of the values that
-- are stored. `loaded` reads a saved result back, and none is a ValidationError.
pub record Codec : Type 0 where
  pub key : String → Key
  pub plan_doc : RemediationPlan → Doc
  pub snapshot_doc : ResourceSnapshot → Doc
  pub patch_doc : List PatchOp → Doc
  pub result_doc : ActionExecutionResult → Doc
  pub loaded : Doc → Option ActionExecutionResult
  pub loaded_snapshot : Doc → Option ResourceSnapshot
  pub isoformat : ℕ → String

module _ (codec : Codec) where
  open codec use {
    key, plan_doc, snapshot_doc, patch_doc, result_doc, loaded, loaded_snapshot, isoformat,
  }

  -- The saved decision must be an approval of this state, and the one that the authorisation has.
  saved_mismatch : Authorization → Approval → Option String
  saved_mismatch auth saved =
      if not saved.approved || not (saved.binding == auth.binding)
      then some "durable approval binding does not match"
      else if not (saved.approval_id == key auth.approval_id)
      then some "durable approval ID does not match"
      else if not auth.approval_record.approved
          || not (saved.approver == key auth.approval_record.approver)
          || not (saved.comment == key auth.approval_record.comment)
      then some "durable approval record does not match"
      else none

  unfoldable pub approval_error : Authorization → Option Approval → Option String
  unfolding saved_mismatch
  approval_error auth none = some "durable approval binding does not match"
  approval_error auth (some saved) = saved_mismatch auth saved

  -- The document of the approved plan's target: the snapshot with the desired configuration.
  abbrev pub target_of : RemediationPlan → ResourceSnapshot → ResourceSnapshot
  target_of plan before = record before { configuration = desired_configuration plan }

  unfoldable pub request_of : Authorization → ResourceSnapshot → List PatchOp → Request
  request_of auth before patch = record {
    approval_id = key auth.approval_id;
    plan_revision = auth.revision;
    plan = plan_doc auth.plan;
    action = auth.plan.action;
    before = snapshot_doc before;
    target = snapshot_doc (target_of auth.plan before);
    patch = patch_doc patch;
  }

  -- Why a prepared operation may not be dispatched: its target is not exactly the original one.
  unfoldable pub is_off_target : Authorization → Option String → ResourceSnapshot → Operation → Bool
  is_off_target auth live before o =
      not (snapshot_doc before == o.before_snapshot)
      || not (same_text before.uid auth.approved_uid)
      || is_deployment auth.plan.parameters.resource_kind
        && not (same_text (some before.resource_version) live)
      || not (same_configuration before.configuration (prior_configuration auth.plan))

  -- Why a response does not prove that the patch was applied.
  unfoldable pub is_unattributable : Authorization → ResourceSnapshot → ResourceSnapshot → Bool
  is_unattributable auth before after =
      not (same_text after.uid before.uid)
      || not (same_configuration after.configuration (desired_configuration auth.plan))
      || is_deployment auth.plan.parameters.resource_kind && not (is_some after.generation)
      || str_eq after.resource_version ""
      || str_eq after.resource_version before.resource_version

  abbrev pub is_success : ExecutionStatus → Bool
  is_success ExecutionStatus.succeeded = true
  is_success _ = false

  -- The result that `_result` builds.
  unfoldable pub result_of :
      Authorization
      → Operation
      → ExecutionStatus
      → Option ResourceSnapshot
      → Option String
      → Option ResourceSnapshot
      → ℕ
      → ActionExecutionResult
  result_of auth o status after code before now = record {
    execution_id = auth.execution_id;
    approval_id = auth.approval_id;
    action = auth.plan.action;
    status = status;
    namespace = auth.plan.parameters.namespace;
    resource_kind = auth.plan.parameters.resource_kind;
    resource_name = auth.plan.parameters.resource_name;
    started_at = isoformat o.created_at;
    finished_at = isoformat now;
    before_snapshot = before;
    after_snapshot = after;
    applied_patch = if is_success status then some o.request_patch else none;
    message =
        if is_some after
        then "Recorded Kubernetes patch response."
        else "Write rejected before application.";
    error_code = code;
    error_message = none;
  }

  snapshot_or_none : Option ResourceSnapshot → Option Doc
  snapshot_or_none none = none
  snapshot_or_none (some s) = some (snapshot_doc s)

  unfoldable pub result_report :
      ExecutionStatus → Option ResourceSnapshot → Option String → ActionExecutionResult → Report
  unfolding snapshot_or_none
  result_report status after code result = record {
    state = if is_success status then OperationState.succeeded else OperationState.rejected;
    response = snapshot_or_none after;
    observed = none;
    result = some (result_doc result);
    code = code;
    attribution = if is_success status then Attribution.confirmed else Attribution.not_established;
  }

  result_with :
      Authorization
      → Operation
      → ExecutionStatus
      → Option ResourceSnapshot
      → Option String
      → Option ResourceSnapshot
      → Program
  unfolding result_of result_report
  result_with auth o status after code none = raises (value_error "ResourceSnapshot")
  result_with auth o status after code (some before) = asks_time λ now.
      let result = result_of auth o status after code (some before) now in
      records (result_report status after code result) (returns result)

  -- `self._result(auth, operation, status, ...)`
  unfoldable pub finish_result :
      Authorization
      → Operation
      → ExecutionStatus
      → Option ResourceSnapshot
      → Option String
      → Program
  unfolding result_with
  finish_result auth o status after code =
      result_with auth o status after code (loaded_snapshot o.before_snapshot)

  abbrev pub unknown_report : Option Doc → String → Report
  unknown_report response code = record {
    state = OperationState.outcome_unknown;
    response = response;
    observed = none;
    result = none;
    code = some code;
    attribution = Attribution.not_established;
  }

  unfoldable pub unknown : Option Doc → (code message : String) → Program
  unknown response code message =
      records (unknown_report response code) (raises (outcome_unknown message))

  after_snapshot : Authorization → Operation → ResourceSnapshot → Outcome ResourceSnapshot → Program
  unfolding unknown finish_result is_unattributable
  after_snapshot auth o before (raised e) =
      unknown none "INVALID_WRITE_RESPONSE" "patch response cannot be attributed"
  after_snapshot auth o before (ok after) =
      if is_unattributable auth before after
      then unknown (some (snapshot_doc after)) "WRITE_RESPONSE_MISMATCH"
          "patch response cannot be attributed"
      else finish_result auth o ExecutionStatus.succeeded (some after) none

  -- What follows the write, by its answer.
  unfoldable pub after_write : Authorization → Operation → ResourceSnapshot → WriteAnswer → Program
  unfolding after_snapshot unknown finish_result
  after_write auth o before (refused status) =
      if is_refusal status
      then finish_result auth o ExecutionStatus.conflict none (some "KUBERNETES_REJECTED")
      else unknown none "WRITE_OUTCOME_UNKNOWN" "patch response is unknown"
  after_write auth o before lost = unknown none "WRITE_OUTCOME_UNKNOWN" "patch response is unknown"
  after_write auth o before (responded object) =
      after_snapshot auth o before (identified auth.plan.parameters object)

  -- From the dispatch to the write.
  unfoldable pub write : Authorization → Operation → ResourceSnapshot → Program
  unfolding after_write
  write auth o before = charges λ charged. or_raise charged λ unit.
      dispatches o.operation_id (still_owned (sends o.request_patch (after_write auth o before)))

  unfoldable pub prepared : Authorization → Option String → ResourceSnapshot → Operation → Program
  unfolding write is_off_target finish_result
  prepared auth live before o =
      if is_off_target auth live before o
      then finish_result auth o ExecutionStatus.conflict none (some "OPERATION_PRECONDITION_FAILED")
      else write auth o before

  unfoldable pub fresh : Authorization → Program
  unfolding prepared request_of
  fresh auth = reads_profile λ live. or_raise live λ version. reads_target λ answer.
      or_raise answer λ resource. or_raise (read_target auth.plan.parameters resource) λ before.
        or_raise (build_patch auth.plan resource before)
          λ patch. prepares (request_of auth before patch) (prepared auth version before)

  saved_result : Option ActionExecutionResult → Program
  saved_result none = raises (value_error "ActionExecutionResult")
  saved_result (some result) = returns result

  answered : Authorization → OperationState → Option Doc → Program
  unfolding saved_result fresh
  answered auth state (some doc) =
      if is_answered state
      then saved_result (loaded doc)
      else refuse_if (not (is_prepared state))
          (outcome_unknown "operation requires read-only reconciliation") (fresh auth)
  answered auth state none =
      refuse_if (not (is_prepared state))
        (outcome_unknown "operation requires read-only reconciliation") (fresh auth)

  -- By the operation that the run already has.
  unfoldable pub resume : Authorization → Option Operation → Program
  unfolding answered fresh
  resume auth none = fresh auth
  resume auth (some o) =
      refuse_if
        (not (o.approval_id == key auth.approval_id) || not (o.plan_revision == auth.revision))
        (value_error "operation authorization changed") (answered auth o.state o.result)

  authorized : Option Approval → Authorization → Program
  unfolding approval_error resume
  authorized saved auth = refuse_with (approval_error auth saved) (loads (resume auth))

  -- `authorization` is what `validate_execution_authorization` returns or raises for the state.
  unfoldable pub execute : Lease → Outcome Authorization → Program
  unfolding authorized
  execute lease authorization =
      still_owned (or_raise authorization (authorized lease.approval_payload))

  container_of : Configuration → Option String
  container_of (selector labels) = none
  container_of (readiness container path port) = container

  -- The `SimpleNamespace` that `reconcile` reads the target by; it has no other attributes.
  parameters_of : ResourceSnapshot → ResourceSnapshot → RemediationParameters
  unfolding container_of
  parameters_of before target = record {
    namespace = before.namespace;
    resource_kind = before.resource_kind;
    resource_name = before.resource_name;
    container_name = container_of target.configuration;
    current_probe_path = none;
    proposed_probe_path = none;
    current_probe_port = none;
    proposed_probe_port = none;
    current_selector = [];
    proposed_selector = [];
    investigation_steps = [];
  }

  is_confirmed_attribution : Attribution → Bool
  is_confirmed_attribution Attribution.confirmed = true
  is_confirmed_attribution _ = false

  -- What is observed is the response that was recorded and attributed, and the target.
  unfoldable pub is_confirmed :
      Operation → ResourceSnapshot → ResourceSnapshot → ResourceSnapshot → Bool
  unfolding is_confirmed_attribution
  is_confirmed o before target observed =
      is_confirmed_attribution o.attribution
      && equals o.response_snapshot (snapshot_doc observed)
      && same_configuration observed.configuration target.configuration
      && same_text observed.uid before.uid
      && is_some o.result

  unfoldable pub reconciliation : Doc → Bool → Report
  reconciliation observed confirmed = record {
    state = if confirmed then OperationState.reconciled else OperationState.manual_required;
    response = none;
    observed = some observed;
    result = none;
    code = if confirmed then none else some "OPERATION_MANUAL_REQUIRED";
    attribution = if confirmed then Attribution.confirmed else Attribution.not_established;
  }

  abbrev pub unread_report : Report
  unread_report = record {
    state = OperationState.manual_required;
    response = none;
    observed = none;
    result = none;
    code = some "RECONCILIATION_READ_FAILED";
    attribution = Attribution.not_established;
  }

  reconcile_observed :
      Operation → ResourceSnapshot → ResourceSnapshot → Outcome ResourceSnapshot → Program
  unfolding reconciliation is_confirmed
  reconcile_observed o before target (raised e) = records unread_report (settles false)
  reconcile_observed o before target (ok observed) =
      let confirmed = is_confirmed o before target observed in
      records (reconciliation (snapshot_doc observed) confirmed) (settles confirmed)

  reconcile_from : Operation → Option ResourceSnapshot → Option ResourceSnapshot → Program
  unfolding reconcile_observed parameters_of
  reconcile_from o (some before) (some target) = reads_target λ answer.
      reconcile_observed o before target
        (answer >>= λ resource. read_target (parameters_of before target) resource)
  reconcile_from o _ _ = raises other_exception

  -- Nothing here sends a write.
  unfoldable pub reconcile : Operation → Program
  unfolding reconcile_from
  reconcile o =
      reconcile_from o (loaded_snapshot o.before_snapshot) (loaded_snapshot o.target_snapshot)
