-- ===== src/Authorization/Examples.antt =====
-- A plan that is asked for, approved and authorised.
use k8s_incident_agent.Prelude.{◌≡◌, refl, true, false, none, some, [], ◌⊎◌}
use k8s_incident_agent.Outcome.{Outcome, ok, raised, value_error}
use k8s_incident_agent.Schemas.{
  Raw, absent, parsed, RemediationPlan, ApprovalRequest, ApprovalDecision, State,
}
use k8s_incident_agent.Target.Examples.{plan}
use k8s_incident_agent.Approval.{
  Digests, load_existing_approval_record, validate_approval_decision, build_approval_request,
  check_request, fingerprint, request_of,
}
use k8s_incident_agent.Approval.Node.{request_human_approval}
use k8s_incident_agent.Authorization.{ExecutionAuthorization, validate_execution_authorization}
use k8s_incident_agent.Authorization.Sound.{IsAuthorized, authorization-IsAuthorized}
use k8s_incident_agent.Authorization.Complete.{approval_needed}
use k8s_incident_agent.Authorization.Approved.{granted_authorization, approval_suffices}
use k8s_incident_agent.TargetIdentity.{bind_target, validate_relationships, find_resource}
use k8s_incident_agent.Policy.{validate_remediation_plan, is_allowed}
use k8s_incident_agent.Policy.Grounded.{IsGrounded, IsGroundedWrite}
use k8s_incident_agent.Policy.Examples.{grounds, grounded_plan, collected}
use k8s_incident_agent.Authorization.Policed.{revalidate_plan, authorized-IsGroundedWrite}

abbrev digests : Digests
digests = record {
  strip = λ s. s;
  is_approval_id = λ s. true;
  approval_id_of = λ f. "apr-0123456789abcdef";
  execution_id_of = λ s. "exec-1";
  plan_revision_of = λ p. "plan-1";
  approval_revision_of = λ f. "revision-1";
}

abbrev revalidate : RemediationPlan → State → Outcome (Unit {0})
revalidate p s = ok tt

abbrev request : ApprovalRequest
request = record {
  approval_id = "apr-0123456789abcdef";
  incident_id = "inc-5";
  plan = plan;
  plan_revision = some "plan-1";
  approval_revision = some "revision-1";
}

abbrev asking : State
asking = record {
  incident_id = some "inc-5";
  run_id = some "run-1";
  request =
      some (record { namespace = some "agent-demo"; service_name = some "api"; document = 3 });
  phase = some "awaiting_approval";
  evidence = [];
  service_profile = none;
  retrieved_runbooks = [];
  diagnosis = some (
      some (record {
        fault_category = none;
        evidence_ids = [];
        runbook_ids = [];
        has_assessment = true;
        document = 8;
      }));
  remediation_plan = parsed plan;
  requires_approval = some true;
  approved = none;
  approval_status = some "pending";
  approval_request = parsed request;
  approval_record = absent;
  action_result = absent;
}

abbrev answer : ApprovalDecision
answer = record {
  approval_id = "apr-0123456789abcdef";
  approved = true;
  approver = "ops";
  comment = "go";
}

request_built : build_approval_request digests asking ≡ ok request
unfolding build_approval_request check_request fingerprint request_of
request_built = refl

abbrev approved_state : State
approved_state = request_human_approval digests asking (parsed answer) "1970"

abbrev authorization : ExecutionAuthorization
authorization = granted_authorization digests asking request answer "1970" plan

approval_suffices_example :
    validate_execution_authorization digests revalidate approved_state ≡ ok authorization
approval_suffices_example =
    approval_suffices digests revalidate asking plan request answer "1970" refl refl refl
      request_built refl refl refl refl refl

is_authorized :
    validate_execution_authorization digests revalidate approved_state ≡ ok authorization
is_authorized =
    approval_suffices digests revalidate asking plan request answer "1970" refl refl refl
      request_built refl refl refl refl refl

authorization-IsAuthorized_example : IsAuthorized digests revalidate approved_state authorization
authorization-IsAuthorized_example =
    authorization-IsAuthorized digests revalidate approved_state authorization is_authorized

abbrev rejection : Raw ApprovalDecision
rejection = parsed (record answer { approved = false })

approval_needed_example :
    ((d : ApprovalDecision) × (rejection ≡ parsed d) × (d.approved ≡ true))
    ⊎ (validate_execution_authorization digests revalidate
          (request_human_approval digests asking rejection "1970")
        ≡ raised (value_error "workflow phase is not approval_approved"))
approval_needed_example = approval_needed digests revalidate asking rejection "1970" refl

abbrev grounded_request : ApprovalRequest
grounded_request = record request { plan = grounded_plan }

abbrev grounded_state : State
grounded_state = record collected { approval_request = parsed grounded_request }

grounded_built : build_approval_request digests grounded_state ≡ ok grounded_request
unfolding build_approval_request check_request fingerprint request_of
grounded_built = refl

still_accepted :
    revalidate_plan grounds grounded_plan
      (request_human_approval digests grounded_state (parsed answer) "1970")
    ≡ ok tt
unfolding revalidate_plan validate_remediation_plan bind_target validate_relationships is_allowed
    find_resource request_human_approval load_existing_approval_record build_approval_request
    validate_approval_decision
still_accepted = refl

policed :
    validate_execution_authorization digests
      (revalidate_plan grounds)
      (request_human_approval digests grounded_state (parsed answer) "1970")
    ≡ ok (granted_authorization digests grounded_state grounded_request answer "1970" grounded_plan)
policed =
    approval_suffices digests (revalidate_plan grounds) grounded_state grounded_plan
      grounded_request answer "1970" refl refl refl grounded_built refl refl refl refl
      still_accepted

authorized-IsGroundedWrite_example :
    IsGrounded grounds grounded_plan
      (request_human_approval digests grounded_state (parsed answer) "1970")
    × IsGroundedWrite grounds grounded_plan
        (request_human_approval digests grounded_state (parsed answer) "1970")
authorized-IsGroundedWrite_example =
    authorized-IsGroundedWrite digests grounds
      (request_human_approval digests grounded_state (parsed answer) "1970")
      (granted_authorization digests grounded_state grounded_request answer "1970" grounded_plan)
      policed
