-- ===== src/Authorization/Checks.antt =====
-- What the single tests of backend/app/agent/execution_policy.py say when they do not raise.
use k8s_incident_agent.Prelude.{
  ◌≡◌, refl, Bool, true, false, not, ◌||◌, Option, none, some, String, str_eq, says, arith,
}
use k8s_incident_agent.Outcome.{ok}
use k8s_incident_agent.Schemas.{
  Raw, absent, invalid, parsed, RemediationPlan, ApprovalRequest, ApprovalRecord, State,
}
use k8s_incident_agent.Equality.{same, string_equality, option_equality}
use k8s_incident_agent.PlanEquality.{
  action_equality, kind_equality, plan_equality, request_equality,
}
use k8s_incident_agent.Approval.{is_true, load}
use k8s_incident_agent.Authorization.{validate_approved_state, check_binding}
use k8s_incident_agent.Passing.{passed, last_passed, says-some, same-eq, neither}

pub is_true-some : (o : Option Bool) → not (is_true o) ≡ false → o ≡ some true
is_true-some none h = cc
is_true-some (some true) h = refl
is_true-some (some false) h = cc

pub load-parsed :
    {A : Type 0} (missing malformed : String) (raw : Raw A) (a : A)
    → load missing malformed raw ≡ ok a
    → raw ≡ parsed a
load-parsed missing malformed absent a h = cc
load-parsed missing malformed (invalid message) a h = cc
load-parsed missing malformed (parsed b) a h = ground arith

-- The state says that the write was approved.
pub record IsApproved (state : State) : Type 0 where
  pub in_phase : state.phase ≡ some "approval_approved"
  pub is_required : state.requires_approval ≡ some true
  pub has_status : state.approval_status ≡ some "approved"
  pub is_approved : state.approved ≡ some true

pub approved_inv :
    (state : State) (u : Unit {0}) → validate_approved_state state ≡ ok u → IsApproved state
unfolding validate_approved_state
approved_inv state u h =
    let (phase, h1) = passed (not (says state.phase "approval_approved")) _ _ h in
    let (requires, h2) = passed (not (is_true state.requires_approval)) _ _ h1 in
    let (status, h3) = passed (not (says state.approval_status "approved")) _ _ h2 in
    record {
      in_phase = says-some state.phase _ phase;
      is_required = is_true-some state.requires_approval requires;
      has_status = says-some state.approval_status _ status;
      is_approved = is_true-some state.approved (last_passed _ _ h3);
    }

-- The record decides the request, which is for the plan.
pub record IsBound (incident_id : String) (plan : RemediationPlan) (request : ApprovalRequest)
    (r : ApprovalRecord) : Type 0 where
  pub same_incident : (request.incident_id ≡ incident_id) × (r.incident_id ≡ incident_id)
  pub same_approval : request.approval_id ≡ r.approval_id
  pub is_granted : r.approved ≡ true
  pub same_plan : request.plan ≡ plan
  pub same_revisions :
      (request.plan_revision ≡ r.plan_revision) × (request.approval_revision ≡ r.approval_revision)
  pub same_action : r.action ≡ plan.action

pub binding_inv :
    (incident_id : String) (plan : RemediationPlan) (request : ApprovalRequest) (r : ApprovalRecord)
    (u : Unit {0})
    → check_binding incident_id plan request r ≡ ok u
    → IsBound incident_id plan request r
unfolding check_binding
binding_inv incident_id plan request r u h =
    let (given, h1) = passed (str_eq incident_id "") _ _ h in
    let (of_request, h2) = passed (not (same request.incident_id incident_id)) _ _ h1 in
    let (of_record, h3) = passed (not (same r.incident_id incident_id)) _ _ h2 in
    let (ids, h4) = passed (not (same request.approval_id r.approval_id)) _ _ h3 in
    let (granted, h5) = passed (not r.approved) _ _ h4 in
    let (plans, h6) = passed (not (same request.plan plan)) _ _ h5 in
    let (revisions, h7) =
      passed
        (not (same request.plan_revision r.plan_revision)
          || not (same request.approval_revision r.approval_revision))
        _ _ h6 in
    let both = neither _ _ revisions in
    record {
      same_incident = (
        same-eq request.incident_id incident_id of_request,
        same-eq r.incident_id incident_id of_record,
      );
      same_approval = same-eq request.approval_id r.approval_id ids;
      is_granted = ground (arith, granted);
      same_plan = same-eq request.plan plan plans;
      same_revisions = (
        same-eq request.plan_revision r.plan_revision both.0,
        same-eq request.approval_revision r.approval_revision both.1,
      );
      same_action = same-eq r.action plan.action (last_passed _ _ h7);
    }
