-- ===== src/Diagnosis/Examples.antt =====
-- A service whose pod fails its readiness probe.
use k8s_incident_agent.Prelude.{◌≡◌, Bool, false, none, some, [], ◌∷◌, String, str_eq}
use k8s_incident_agent.Evidence.{ServiceInfo, PodInfo, EventInfo, ServiceEvidenceBundle}
use k8s_incident_agent.Report.{FaultCategory}
use k8s_incident_agent.Diagnosis.Engine.{diagnose_evidence}
use k8s_incident_agent.Diagnosis.Profile.{IsCoherent, diagnose_evidence-IsCoherent}
use k8s_incident_agent.Diagnosis.Category.{diagnose_evidence-category}

abbrev web : ServiceInfo
web = record {
  uid = some "u1";
  resource_version = some "7";
  namespace = "agent-demo";
  name = "web";
  service_type = "ClusterIP";
  cluster_ip = none;
  selector = ("app", "web") ∷ [];
  ports = [];
}

abbrev pod : PodInfo
pod = record {
  uid = some "u2";
  resource_version = some "8";
  namespace = "agent-demo";
  name = "web-1";
  phase = "Running";
  ready = false;
  node_name = none;
  pod_ip = none;
  labels = ("app", "web") ∷ [];
  containers = [];
}

abbrev failure : EventInfo
failure = record {
  namespace = "agent-demo";
  resource_name = "web-1";
  event_type = some "Warning";
  reason = some "Unhealthy";
  message = some "readiness probe failed";
  count = some 3;
  first_seen = none;
  last_seen = none;
}

abbrev bundle : ServiceEvidenceBundle
bundle = record {
  namespace = "agent-demo";
  service_name = "web";
  service = some web;
  service_pod_names = "web-1" ∷ [];
  namespace_pod_names = "web-1" ∷ [];
  endpoint_slices = [];
  pod_statuses = ("web-1", pod) ∷ [];
  pod_events = ("web-1", failure ∷ []) ∷ [];
  pod_logs = [];
  owner_chains = [];
  deployments = [];
  nodes = [];
  errors = [];
}

-- The text is in lower case, and is tested whole.
abbrev lower : String → String
lower s = s

abbrev occurs_in : String → String → Bool
occurs_in part whole = str_eq part whole

diagnose_evidence-category_example :
    (diagnose_evidence lower occurs_in bundle).fault_category ≡ FaultCategory.readiness_probe_error
diagnose_evidence-category_example = diagnose_evidence-category lower occurs_in bundle

diagnose_evidence-IsCoherent_example :
    IsCoherent lower occurs_in bundle (diagnose_evidence lower occurs_in bundle)
diagnose_evidence-IsCoherent_example = diagnose_evidence-IsCoherent lower occurs_in bundle
