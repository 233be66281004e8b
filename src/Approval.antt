-- ===== src/Approval.antt =====
-- backend/app/agent/approval.py: the request for a human's approval, the decision and its record.
pub mod Node
use k8s_incident_agent.Prelude.{
  Bool, true, false, not, ◌||◌, Option, none, some, List, ℕ, String, str_eq, if◌then◌else◌, get_or,
}
use k8s_incident_agent.Outcome.{
  Outcome, ok, raised, ◌>>=◌, ◌>>◌, raise_if, value_error, other_exception,
}
use k8s_incident_agent.Database.{Action}
use k8s_incident_agent.Schemas.{
  Raw, absent, invalid, parsed, RemediationPlan, ApprovalRequest, ApprovalDecision, ApprovalRecord,
  EvidenceItem, ProfileSnapshot, RequestState, DiagnosisState, State,
}
use k8s_incident_agent.Target.{is_given}

-- What the id of an approval is computed of; a key that is left out is `none`. `diagnosis` and
-- `evidence` are left out together.
pub record Fingerprint : Type 0 where
  pub incident_id : String
  pub remediation_plan : RemediationPlan
  pub run_id : Option String
  pub service_profile : Option ProfileSnapshot
  pub request : Option (Option RequestState)
  pub diagnosed : Option (Option DiagnosisState × List EvidenceItem)

-- The library functions that are called: str.strip, the pattern of an approval's id, and SHA-256 of
-- canonical JSON, as the ids and the revisions that are made of it.
pub record Digests : Type 0 where
  pub strip : String → String
  pub is_approval_id : String → Bool
  pub approval_id_of : Fingerprint → String
  pub execution_id_of : String → String
  pub plan_revision_of : RemediationPlan → String
  pub approval_revision_of : Fingerprint → String

-- `state.get(key) is not True`
abbrev pub is_true : Option Bool → Bool
is_true (some true) = true
is_true _ = false

abbrev pub is_manual : Action → Bool
is_manual Action.manual_investigation = true
is_manual _ = false

abbrev pub safe_namespace : String
safe_namespace = "agent-demo"

-- A value that the state must have.
abbrev pub load {ℓ} : {A : Type ℓ} → (missing malformed : String) → Raw A → Outcome A
load missing malformed absent = raised (value_error missing)
load missing malformed (invalid message) = raised (value_error malformed)
load missing malformed (parsed a) = ok a

has_assessment : Option (Option DiagnosisState) → Bool
has_assessment (some (some d)) = d.has_assessment
has_assessment _ = false

-- `state["diagnosis"]`
saved_diagnosis : Option (Option DiagnosisState) → Outcome (Option DiagnosisState)
saved_diagnosis none = raised other_exception
saved_diagnosis (some d) = ok d

diagnosed_part :
    Bool
    → Option (Option DiagnosisState)
    → List EvidenceItem
    → Outcome (Option (Option DiagnosisState × List EvidenceItem))
unfolding saved_diagnosis
diagnosed_part false saved evidence = ok none
diagnosed_part true saved evidence = do
  diagnosis ← saved_diagnosis saved
  ok (some (diagnosis, evidence))

unfoldable pub fingerprint : String → RemediationPlan → State → Outcome Fingerprint
unfolding diagnosed_part has_assessment
fingerprint incident_id plan state = do
  diagnosed ←
      diagnosed_part (is_given plan.target_uid || has_assessment state.diagnosis) state.diagnosis
        state.evidence
  ok (record {
    incident_id = incident_id;
    remediation_plan = plan;
    run_id = if is_given state.run_id then state.run_id else none;
    service_profile = state.service_profile;
    request = if is_given plan.target_uid then some state.request else none;
    diagnosed = diagnosed;
  })

-- The tests of `build_approval_request`.
unfoldable pub check_request : State → RemediationPlan → Outcome (Unit {0})
check_request state plan = do
  raise_if (not (is_true state.requires_approval)) (value_error "state does not require approval")
  raise_if (not plan.requires_approval) (value_error "remediation plan does not require approval")
  raise_if (is_manual plan.action) (value_error "manual investigation must not require approval")
  raise_if (not (str_eq plan.parameters.namespace safe_namespace))
      (value_error "approval target namespace must be agent-demo")

module _ (digests : Digests) where
  open digests use {
    strip, is_approval_id, approval_id_of, execution_id_of, plan_revision_of, approval_revision_of,
  }

  -- str(state.get("incident_id") or "").strip()
  abbrev pub incident_id_of : State → String
  incident_id_of state = strip (get_or state.incident_id "")

  unfoldable pub request_of : String → RemediationPlan → Fingerprint → ApprovalRequest
  request_of incident_id plan f = record {
    approval_id = approval_id_of f;
    incident_id = incident_id;
    plan = plan;
    plan_revision = if is_given plan.target_uid then some (plan_revision_of plan) else none;
    approval_revision = if is_given plan.target_uid then some (approval_revision_of f) else none;
  }

  unfoldable pub build_approval_request : State → Outcome ApprovalRequest
  unfolding check_request fingerprint request_of
  build_approval_request state = do
    raise_if (str_eq (incident_id_of state) "") (value_error "incident_id is required")
    plan ← load "remediation plan is required" "remediation plan is invalid" state.remediation_plan
    check_request state plan
    f ← fingerprint (incident_id_of state) plan state
    ok (request_of (incident_id_of state) plan f)

unfoldable pub validate_approval_decision :
    Raw ApprovalDecision → ApprovalRequest → Outcome ApprovalDecision
validate_approval_decision value request = do
  decision ← load "approval decision is invalid" "approval decision is invalid" value
  raise_if (not (str_eq decision.approval_id request.approval_id))
      (value_error "approval decision does not match the pending approval request")
  ok decision

-- `decided_at` is the time as text.
unfoldable pub create_approval_record :
    ApprovalRequest → ApprovalDecision → (decided_at : String) → ApprovalRecord
create_approval_record request decision decided_at = record {
  approval_id = request.approval_id;
  incident_id = request.incident_id;
  action = request.plan.action;
  approved = decision.approved;
  approver = decision.approver;
  comment = decision.comment;
  decided_at = decided_at;
  plan_revision = request.plan_revision;
  approval_revision = request.approval_revision;
}

unfoldable pub loaded_record : Raw ApprovalRecord → Outcome (Option ApprovalRecord)
loaded_record absent = ok none
loaded_record (invalid message) = raised (value_error "existing approval record is invalid")
loaded_record (parsed r) = ok (some r)

unfoldable pub load_existing_approval_record : State → Outcome (Option ApprovalRecord)
unfolding loaded_record
load_existing_approval_record state = loaded_record state.approval_record
