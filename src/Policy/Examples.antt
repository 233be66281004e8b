-- ===== src/Policy/Examples.antt =====
-- The plan to patch the selector of a service, with the evidence that it cites.
use k8s_incident_agent.Prelude.{◌≡◌, refl, true, false, none, some, [], ◌∷◌}
use k8s_incident_agent.Outcome.{ok}
use k8s_incident_agent.Schemas.{absent, parsed, RemediationPlan, EvidenceData, EvidenceItem, State}
use k8s_incident_agent.Target.Examples.{plan}
use k8s_incident_agent.TargetIdentity.{bind_target, validate_relationships, find_resource}
use k8s_incident_agent.Policy.{Grounds, is_allowed, validate_references, validate_remediation_plan}
use k8s_incident_agent.Policy.Grounded.{IsGrounded, validated-IsGrounded}
use k8s_incident_agent.Policy.Preparing.{
  prepare_remediation_plan, recited, IsMissing, prepared-IsGrounded,
}

abbrev pub grounds : Grounds
grounds = record {
  diagnostic_facts = λ s. record {
    readiness_patch_supported = false;
    configuration_evidence_complete = true;
    business_failed = false;
    has_runtime_faults = false;
    configuration_evidence_ids = "e1" ∷ "e2" ∷ "e1" ∷ [];
  };
  matched_profile =
      λ s. some (record { service_name = "api"; expected_selector = ("app", "api") ∷ [] });
  validate_profile_action = λ s p. ok tt;
  hypotheses = λ d s. some (record { is_supported = true; evidence_ids = "e1" ∷ "e2" ∷ [] } ∷ []);
  size = λ s. 2;
  has_command = λ s. false;
  is_absolute = λ s. true;
  has_space = λ s. false;
}

abbrev service_data : EvidenceData
service_data = record {
  has_keys = true;
  uid = some "u1";
  namespace = some "agent-demo";
  selector = some (("app", "old") ∷ []);
  containers = [];
  owner_chain = none;
  service_uid = none;
  service_name = none;
  endpoints = [];
}

abbrev service_item : EvidenceItem
service_item = record {
  evidence_id = some "e1";
  resource_type = some "Service";
  resource_name = some "api";
  content = service_data;
  has_error = false;
}

abbrev deployment_item : EvidenceItem
deployment_item = record service_item { evidence_id = some "e2"; resource_type = some "Deployment" }

abbrev pub grounded_plan : RemediationPlan
grounded_plan = record plan { evidence_ids = "e1" ∷ "e2" ∷ []; runbook_ids = "r1" ∷ [] }

abbrev pub collected : State
collected = record {
  incident_id = some "inc-5";
  run_id = some "run-1";
  request =
      some (record { namespace = some "agent-demo"; service_name = some "api"; document = 3 });
  phase = some "awaiting_approval";
  evidence = service_item ∷ deployment_item ∷ [];
  service_profile = none;
  retrieved_runbooks = some "r1" ∷ [];
  diagnosis = some (
      some (record {
        fault_category = some "service_selector_mismatch";
        evidence_ids = "e1" ∷ "e2" ∷ [];
        runbook_ids = "r1" ∷ [];
        has_assessment = true;
        document = 8;
      }));
  remediation_plan = parsed grounded_plan;
  requires_approval = some true;
  approved = none;
  approval_status = some "pending";
  approval_request = absent;
  approval_record = absent;
  action_result = absent;
}

accepted : validate_remediation_plan grounds grounded_plan collected ≡ ok grounded_plan
unfolding validate_remediation_plan bind_target validate_relationships is_allowed find_resource
accepted = refl

validated-IsGrounded_example :
    (grounded_plan ≡ grounded_plan) × IsGrounded grounds grounded_plan collected
validated-IsGrounded_example =
    validated-IsGrounded grounds grounded_plan grounded_plan collected accepted

-- It cites only the service, and has no uid yet.
abbrev draft : RemediationPlan
draft = record grounded_plan { target_uid = none; evidence_ids = "e1" ∷ [] }

completed : prepare_remediation_plan grounds draft collected ≡ ok (grounded_plan, "e2" ∷ [])
unfolding prepare_remediation_plan validate_references is_allowed bind_target validate_relationships
    find_resource validate_remediation_plan
completed = refl

prepared-IsGrounded_example :
    (grounded_plan ≡ recited grounds draft ("e2" ∷ []) (some "u1"))
    × IsMissing grounds draft collected ("e2" ∷ [])
    × IsGrounded grounds grounded_plan collected
prepared-IsGrounded_example =
    prepared-IsGrounded grounds draft grounded_plan ("e2" ∷ []) collected completed
