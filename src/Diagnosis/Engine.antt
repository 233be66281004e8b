-- ===== src/Diagnosis/Engine.antt =====
-- backend/app/diagnosis/rules.py and engine.py: the rules on readiness and health, the fallback, and the
-- engine that tries the rules in order.
use k8s_incident_agent.Prelude.{
  is_empty, says, ℕ, zero, suc, Bool, true, false, not, ◌&&◌, ◌||◌, Option, none, some, List, [],
  ◌∷◌, ◌++◌, String, str_eq, ◌==◌, if◌then◌else◌, all, length, get_or,
}
use k8s_incident_agent.Evidence.{
  PodInfo, EventInfo, ContainerConfigInfo, DeploymentInfo, OwnerChainInfo, ServiceInfo,
  CollectionErrorInfo, ServiceEvidenceBundle, get,
}
use k8s_incident_agent.Report.{
  FaultCategory, DiagnosisStatus, EvidenceSource, Text, literal, text, quoted, number,
  quoted_or_none, text_or_none, join, DiagnosisEvidenceReference, DiagnosisResult,
}
use k8s_incident_agent.Diagnosis.{
  first_some, ready_endpoint_count, pod_reference, service_not_found_rule, selector_mismatch_rule,
  oom_killed_rule, image_pull_rule, crash_loop_rule,
}

-- The probe path of the first container that has a readiness probe.
probe_path_of : List ContainerConfigInfo → Option String
probe_path_of [] = none
probe_path_of (c ∷ cs) = elim c.readiness_probe [
  | none ↦ probe_path_of cs
  | some probe ↦ probe.path
]

abbrev pub owner_deployment : Option OwnerChainInfo → Option String
owner_deployment none = none
owner_deployment (some owner) = owner.deployment_name

probe_path_in : Option DeploymentInfo → Option String
unfolding probe_path_of
probe_path_in none = none
probe_path_in (some deployment) = probe_path_of deployment.containers

probe_path : ServiceEvidenceBundle → Option String → Option String
unfolding probe_path_in
probe_path b none = none
probe_path b (some name) = probe_path_in (get name b.deployments)

unfoldable pub deployment_reference :
    Option String → Option String → List DiagnosisEvidenceReference
deployment_reference none path = []
deployment_reference (some name) path =
    record {
      evidence_id = literal "deployment:" ∷ text name ∷ literal ":probe" ∷ [];
      source = EvidenceSource.deployment;
      resource_name = name;
      summary = literal "readiness_probe_path=" ∷ text_or_none path ∷ [];
    }
    ∷ []

unfoldable pub readiness_result :
    ServiceEvidenceBundle
    → PodInfo
    → EventInfo
    → (deployment_name path : Option String) → DiagnosisResult
unfolding deployment_reference
readiness_result b pod event deployment_name path = record {
  namespace = b.namespace;
  service_name = b.service_name;
  status = DiagnosisStatus.unhealthy;
  fault_category = FaultCategory.readiness_probe_error;
  root_cause =
      literal "Pod "
      ∷ quoted pod.name
      ∷ literal " is running but its readiness probe at "
      ∷ quoted_or_none path
      ∷ literal " is failing."
      ∷ [];
  confidence = 98;
  evidence =
      (pod_reference pod (
          literal "phase=Running; ready=False; ready_endpoint_count="
          ∷ number (ready_endpoint_count b)
          ∷ [])
        ∷ record {
          evidence_id = literal "event:" ∷ text pod.name ∷ literal ":readiness" ∷ [];
          source = EvidenceSource.event;
          resource_name = pod.name;
          summary = text (get_or event.message "") ∷ [];
        }
        ∷ [])
      ++ deployment_reference deployment_name path;
  recommended_action = some "patch_readiness_probe";
  requires_approval = true;
}

-- The service's pods whose status was read.
abbrev pub known_pods : List (String × PodInfo) → List String → List PodInfo
known_pods statuses [] = []
known_pods statuses (name ∷ names) = elim (get name statuses) [
  | none ↦ known_pods statuses names
  | some pod ↦ pod ∷ known_pods statuses names
]

abbrev pub runs_ready : PodInfo → Bool
runs_ready pod = str_eq pod.phase "Running" && pod.ready

unfoldable pub healthy_result : ServiceEvidenceBundle → ServiceInfo → DiagnosisResult
healthy_result b service = record {
  namespace = b.namespace;
  service_name = b.service_name;
  status = DiagnosisStatus.healthy;
  fault_category = FaultCategory.healthy;
  root_cause =
      literal "Service has running and ready Pods and at least one ready EndpointSlice address."
      ∷ [];
  confidence = 100;
  evidence =
      record {
        evidence_id = literal "service:" ∷ text service.name ∷ literal ":healthy" ∷ [];
        source = EvidenceSource.service;
        resource_name = service.name;
        summary =
            literal "ready_pods="
            ∷ number (length (known_pods b.pod_statuses b.service_pod_names))
            ∷ literal "; ready_endpoints="
            ∷ number (ready_endpoint_count b)
            ∷ [];
      }
      ∷ [];
  recommended_action = none;
  requires_approval = false;
}

unfoldable pub healthy_service : ServiceEvidenceBundle → Option ServiceInfo → Option DiagnosisResult
healthy_service b none = none
healthy_service b (some service) =
    if is_empty b.service_pod_names
    then none
    else if is_empty (known_pods b.pod_statuses b.service_pod_names)
    then none
    else if not (all runs_ready (known_pods b.pod_statuses b.service_pod_names))
    then none
    else if ready_endpoint_count b == 0
    then none
    else some (healthy_result b service)

unfoldable pub healthy_rule : ServiceEvidenceBundle → Option DiagnosisResult
unfolding healthy_service
healthy_rule b = healthy_service b b.service

first_errors : ℕ → List CollectionErrorInfo → List Text
first_errors zero es = []
first_errors (suc n) [] = []
first_errors (suc n) (e ∷ es) =
    (text e.operation ∷ literal ": " ∷ text e.message ∷ []) ∷ first_errors n es

-- The summary of an error is never empty, so it is the list of errors that is tested.
unknown_cause : List CollectionErrorInfo → Text
unfolding first_errors
unknown_cause [] = literal "The collected evidence does not match a supported diagnostic rule." ∷ []
unknown_cause (e ∷ es) =
    literal "The collected evidence does not match a supported diagnostic rule."
    ∷ literal " Evidence collection errors: "
    ∷ join "; " (first_errors 3 (e ∷ es))

unfoldable pub unknown_rule : ServiceEvidenceBundle → DiagnosisResult
unfolding unknown_cause
unknown_rule b = record {
  namespace = b.namespace;
  service_name = b.service_name;
  status = DiagnosisStatus.unknown;
  fault_category = FaultCategory.unknown;
  root_cause = unknown_cause b.errors;
  confidence = 0;
  evidence = [];
  recommended_action = some "manual_investigation";
  requires_approval = false;
}

abbrev pub events_of : ServiceEvidenceBundle → String → List EventInfo
events_of b name = get_or (get name b.pod_events) []

module _ (lower : String → String) (occurs_in : String → String → Bool) where
  abbrev pub is_probe_failure : EventInfo → Bool
  is_probe_failure event =
      says event.reason "Unhealthy"
      && occurs_in "readiness probe failed" (lower (get_or event.message ""))

  -- The loop assigns at each event that passes, so the last one is kept.
  abbrev pub last_probe_failure : List EventInfo → Option EventInfo → Option EventInfo
  last_probe_failure [] kept = kept
  last_probe_failure (e ∷ es) kept =
      last_probe_failure es (if is_probe_failure e then some e else kept)

  unfoldable pub readiness_found :
      ServiceEvidenceBundle → String → PodInfo → Option EventInfo → Option DiagnosisResult
  unfolding probe_path
  readiness_found b name pod none = none
  readiness_found b name pod (some event) =
      let deployment_name = owner_deployment (get name b.owner_chains) in
      some (readiness_result b pod event deployment_name (probe_path b deployment_name))

  unfoldable pub readiness_pod : ServiceEvidenceBundle → String × PodInfo → Option DiagnosisResult
  unfolding readiness_found
  readiness_pod b (name, pod) =
      if not (str_eq pod.phase "Running") || pod.ready
      then none
      else readiness_found b name pod (last_probe_failure (events_of b name) none)

  abbrev pub readiness_probe_rule : ServiceEvidenceBundle → Option DiagnosisResult
  readiness_probe_rule b = first_some (readiness_pod b) b.pod_statuses

  -- RULES
  abbrev pub rules : List (ServiceEvidenceBundle → Option DiagnosisResult)
  rules =
      service_not_found_rule ∷ selector_mismatch_rule ∷ oom_killed_rule ∷ image_pull_rule
      ∷ crash_loop_rule ∷ readiness_probe_rule ∷ healthy_rule ∷ []

  unfoldable pub diagnose_by :
      List (ServiceEvidenceBundle → Option DiagnosisResult)
      → ServiceEvidenceBundle
      → DiagnosisResult
  diagnose_by [] b = unknown_rule b
  diagnose_by (rule ∷ rules') b = get_or (rule b) (diagnose_by rules' b)

  unfoldable pub diagnose_evidence : ServiceEvidenceBundle → DiagnosisResult
  unfolding diagnose_by
  diagnose_evidence = diagnose_by rules

  -- ALLOWED_NAMESPACES; `none` is the ValueError, raised before anything is collected.
  unfoldable pub diagnose_service :
      (collect : String → String → ServiceEvidenceBundle)
      → (namespace service_name : String) → Option DiagnosisResult
  unfolding diagnose_evidence
  diagnose_service collect namespace service_name =
      if str_eq namespace "agent-demo"
      then some (diagnose_evidence (collect namespace service_name))
      else none
