-- ===== src/Authorization.antt =====
-- backend/app/agent/execution_policy.py: whether the state authorises the write.
pub mod Checks
pub mod Sound
pub mod Complete
pub mod Approved
pub mod Policed
mod Examples
use k8s_incident_agent.Prelude.{
  Bool, true, false, not, ◌&&◌, ◌||◌, Option, none, some, List, [], ◌∷◌, String, str_eq,
  if◌then◌else◌, says,
}
use k8s_incident_agent.Outcome.{Error, Outcome, ok, raised, ◌>>=◌, ◌>>◌, raise_if, value_error}
use k8s_incident_agent.Schemas.{
  Raw, absent, invalid, parsed, ExecutionStatus, RemediationPlan, ApprovalRequest, ApprovalRecord,
  ActionExecutionResult, State,
}
use k8s_incident_agent.Equality.{same, string_equality, option_equality}
use k8s_incident_agent.PlanEquality.{
  action_equality, kind_equality, plan_equality, request_equality,
}
use k8s_incident_agent.Approval.{
  Digests, is_true, is_manual, load, incident_id_of, build_approval_request,
}

pub record ExecutionAuthorization : Type 0 where
  pub execution_id : String
  pub approval_id : String
  pub incident_id : String
  pub plan : RemediationPlan
  pub approval_request : ApprovalRequest
  pub approval_record : ApprovalRecord
  pub previous_result : Option ActionExecutionResult
  pub already_executed : Bool

unfoldable pub validate_approved_state : State → Outcome (Unit {0})
validate_approved_state state = do
  raise_if (not (says state.phase "approval_approved"))
      (value_error "workflow phase is not approval_approved")
  raise_if (not (is_true state.requires_approval))
      (value_error "write operation does not have an approval requirement")
  raise_if (not (says state.approval_status "approved"))
      (value_error "approval status is not approved")
  raise_if (not (is_true state.approved)) (value_error "write operation was not approved")

-- `_load_previous_result`
load_previous_result : Raw ActionExecutionResult → Outcome (Option ActionExecutionResult)
load_previous_result absent = ok none
load_previous_result (invalid message) = raised (value_error "existing action result is invalid")
load_previous_result (parsed result) = ok (some result)

-- `except InvalidApprovalRequest`
rebuilt : Outcome ApprovalRequest → Outcome ApprovalRequest
rebuilt (ok request) = ok request
rebuilt (raised (value_error message)) =
    raised (value_error "approval request cannot be rebuilt from workflow state")
rebuilt (raised e) = raised e

-- `except InvalidRemediationPlan`; the message of the cause, which follows, is left out.
revalidated : Outcome (Unit {0}) → Outcome (Unit {0})
revalidated (ok unit) = ok unit
revalidated (raised (value_error message)) =
    raised (value_error "remediation plan failed execution-time validation")
revalidated (raised e) = raised e

-- COMPLETED_EXECUTION_STATUSES
abbrev pub was_completed : ExecutionStatus → Bool
was_completed ExecutionStatus.succeeded = true
was_completed ExecutionStatus.already_applied = true
was_completed _ = false

unfoldable pub validate_previous_result :
    ActionExecutionResult → String → ApprovalRequest → RemediationPlan → Outcome Bool
validate_previous_result result execution_id request plan = do
  raise_if (not (same result.execution_id execution_id))
      (value_error "existing action result belongs to another execution")
  raise_if (not (same result.approval_id request.approval_id))
      (value_error "existing action result belongs to another approval")
  raise_if (not (same result.action plan.action))
      (value_error "existing action result belongs to another remediation action")
  raise_if
      (not (same result.namespace plan.parameters.namespace)
        || not (same result.resource_kind plan.parameters.resource_kind)
        || not (same result.resource_name plan.parameters.resource_name))
      (value_error "existing action result belongs to another remediation target")
  raise_if (not (was_completed result.status))
      (value_error "an execution attempt has already been recorded for this approval")
  ok true

-- Whether there is a result, and it is a completed one of this execution.
already : Option ActionExecutionResult → String → ApprovalRequest → RemediationPlan → Outcome Bool
unfolding validate_previous_result
already none execution_id request plan = ok false
already (some result) execution_id request plan =
    validate_previous_result result execution_id request plan

-- The tests before the request is rebuilt.
unfoldable pub check_binding :
    String → RemediationPlan → ApprovalRequest → ApprovalRecord → Outcome (Unit {0})
check_binding incident_id plan request r = do
  raise_if (str_eq incident_id "") (value_error "incident_id is required")
  raise_if (not (same request.incident_id incident_id))
      (value_error "approval request incident_id does not match workflow state")
  raise_if (not (same r.incident_id incident_id))
      (value_error "approval record incident_id does not match workflow state")
  raise_if (not (same request.approval_id r.approval_id)) (value_error "approval IDs do not match")
  raise_if (not r.approved) (value_error "approval record does not approve the write operation")
  raise_if (not (same request.plan plan)) (value_error "remediation plan changed after approval")
  raise_if
      (not (same request.plan_revision r.plan_revision)
        || not (same request.approval_revision r.approval_revision))
      (value_error "approval revisions do not match")
  raise_if (not (same r.action plan.action))
      (value_error "approval record action does not match the remediation plan")

-- `revalidate` is `validate_remediation_plan` of backend/app/agent/remediation_policy.py.
module _ (digests : Digests) (revalidate : RemediationPlan → State → Outcome (Unit {0})) where
  open digests use {
    strip, is_approval_id, approval_id_of, execution_id_of, plan_revision_of, approval_revision_of,
  }

  unfoldable pub build_execution_id : String → Outcome String
  build_execution_id approval_id = do
    raise_if (not (is_approval_id (strip approval_id)))
        (value_error "approval_id has an invalid format")
    ok (execution_id_of (strip approval_id))

  unfoldable pub validate_approval_binding :
      State → RemediationPlan → ApprovalRequest → ApprovalRecord → Outcome (Unit {0})
  unfolding check_binding rebuilt
  validate_approval_binding state plan request r = do
    check_binding (incident_id_of digests state) plan request r
    expected ← rebuilt (build_approval_request digests state)
    raise_if (not (same expected request))
        (value_error "approval request does not match the approved remediation plan")

  unfoldable pub validate_execution_authorization : State → Outcome ExecutionAuthorization
  unfolding validate_approved_state validate_approval_binding revalidated build_execution_id
      load_previous_result already
  validate_execution_authorization state = do
    validate_approved_state state
    plan ← load "remediation plan is required" "remediation plan is invalid" state.remediation_plan
    request ←
        load "approval request is required" "approval request is invalid" state.approval_request
    r ← load "approval record is required" "approval record is invalid" state.approval_record
    raise_if (is_manual plan.action) (value_error "action 'manual_investigation' is not executable")
    validate_approval_binding state plan request r
    revalidated (revalidate plan state)
    execution_id ← build_execution_id request.approval_id
    previous ← load_previous_result state.action_result
    already_executed ← already previous execution_id request plan
    ok (record {
      execution_id = execution_id;
      approval_id = request.approval_id;
      incident_id = request.incident_id;
      plan = plan;
      approval_request = request;
      approval_record = r;
      previous_result = previous;
      already_executed = already_executed;
    })
