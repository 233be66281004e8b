-- ===== src/Diagnosis/Citing.antt =====
-- What the diagnoses of backend/app/diagnosis/rules.py may cite: for each fault category, the part of
-- the collected evidence that shows it, and the words in which the reference tells of it.
use mathlib.Core.List.{Memᴰ}
use k8s_incident_agent.Prelude.{
  ◌≡◌, Bool, true, false, any, All, some, [], ◌∷◌, List, String, str_eq, is_empty, get_or, length,
}
use k8s_incident_agent.Evidence.{
  ServiceInfo, ServiceEvidenceBundle, PodInfo, EventInfo, ContainerStatusInfo, get,
}
use k8s_incident_agent.Report.{
  FaultCategory, EvidenceSource, Text, literal, text, number, number_or_none, text_or_none, mapping,
  join, DiagnosisEvidenceReference,
}
use k8s_incident_agent.Diagnosis.{
  pod_summaries, ready_endpoint_count, is_missing, was_oom_killed, oom_exit_code, cannot_pull,
  is_crashing,
}
use k8s_incident_agent.Diagnosis.Engine.{known_pods, is_probe_failure, events_of, owner_deployment}

abbrev Cited : Type 0
Cited = List DiagnosisEvidenceReference

-- A reference to the status of a pod.
abbrev on_pod : PodInfo → Text → DiagnosisEvidenceReference
on_pod pod words = record {
  evidence_id = literal "pod_status:" ∷ text pod.name ∷ [];
  source = EvidenceSource.pod;
  resource_name = pod.name;
  summary = words;
}

-- One reference, to the pod of a container in the bundle that passes the test, and that tells of this
-- container.
pub record CitesContainer (b : ServiceEvidenceBundle) (test : ContainerStatusInfo → Bool)
    (words : ContainerStatusInfo → Text) (evidence : Cited) : Type 0 where
  pub item : String × PodInfo
  pub container : ContainerStatusInfo
  pub pod_in : Memᴰ item b.pod_statuses
  pub container_in : Memᴰ container item.1.containers
  pub passes : test container ≡ true
  pub cited : evidence ≡ on_pod item.1 (words container) ∷ []

abbrev pub oom_words : ContainerStatusInfo → Text
oom_words c =
    literal "container="
    ∷ text c.name
    ∷ literal "; reason=OOMKilled; exit_code="
    ∷ number_or_none (oom_exit_code c)
    ∷ literal "; restart_count="
    ∷ number c.restart_count
    ∷ []

abbrev pub pull_words : ContainerStatusInfo → Text
pull_words c =
    literal "container="
    ∷ text c.name
    ∷ literal "; image="
    ∷ text c.image
    ∷ literal "; waiting_reason="
    ∷ text_or_none c.waiting_reason
    ∷ literal "; message="
    ∷ text_or_none c.waiting_message
    ∷ []

abbrev pub crash_words : ContainerStatusInfo → Text
crash_words c =
    literal "container="
    ∷ text c.name
    ∷ literal "; waiting_reason=CrashLoopBackOff; restart_count="
    ∷ number c.restart_count
    ∷ []

-- The service that was found, its selector, the pods of the namespace, and that no endpoint is ready:
-- the service selects none of these pods.
pub record CitesMismatch (b : ServiceEvidenceBundle) (evidence : Cited) : Type 0 where
  pub service : ServiceInfo
  pub found : b.service ≡ some service
  pub none_ready : ready_endpoint_count b ≡ 0
  pub unselected : is_empty b.service_pod_names ≡ true
  pub cited :
      evidence
      ≡ record {
        evidence_id = literal "service:" ∷ text service.name ∷ [];
        source = EvidenceSource.service;
        resource_name = service.name;
        summary = literal "selector=" ∷ mapping service.selector ∷ literal "; matched_pods=0" ∷ [];
      }
        ∷ record {
          evidence_id = literal "namespace:pods" ∷ [];
          source = EvidenceSource.pod;
          resource_name = b.namespace;
          summary = join "; " (pod_summaries b.pod_statuses);
        }
        ∷ record {
          evidence_id = literal "endpoint_slice:ready_count" ∷ [];
          source = EvidenceSource.endpoint_slice;
          resource_name = service.name;
          summary = literal "ready_endpoint_count=0" ∷ [];
        }
        ∷ []

-- The service that was found, with the numbers of its pods and of its ready endpoints.
pub record CitesHealth (b : ServiceEvidenceBundle) (evidence : Cited) : Type 0 where
  pub service : ServiceInfo
  pub found : b.service ≡ some service
  pub cited :
      evidence
      ≡ record {
        evidence_id = literal "service:" ∷ text service.name ∷ literal ":healthy" ∷ [];
        source = EvidenceSource.service;
        resource_name = service.name;
        summary =
            literal "ready_pods="
            ∷ number (length (known_pods b.pod_statuses b.service_pod_names))
            ∷ literal "; ready_endpoints="
            ∷ number (ready_endpoint_count b)
            ∷ [];
      }
        ∷ []

module _ (lower : String → String) (occurs_in : String → String → Bool)
    (b : ServiceEvidenceBundle) where
  -- A pod in the bundle that runs and is not ready, an event of it that tells of a failed readiness probe, and
  -- at most the deployment that owns the pod.
  pub record CitesProbe (evidence : Cited) : Type 0 where
    pub item : String × PodInfo
    pub event : EventInfo
    pub owner : Cited
    pub pod_in : Memᴰ item b.pod_statuses
    pub runs : str_eq item.1.phase "Running" ≡ true
    pub unready : item.1.ready ≡ false
    pub event_in : Memᴰ event (events_of b item.0)
    pub failed : is_probe_failure lower occurs_in event ≡ true
    pub owned :
        All
          (λ r.
            (r.source ≡ EvidenceSource.deployment)
            × (owner_deployment (get item.0 b.owner_chains) ≡ some r.resource_name))
          owner
    pub cited :
        evidence
        ≡ on_pod item.1 (
            literal "phase=Running; ready=False; ready_endpoint_count="
            ∷ number (ready_endpoint_count b)
            ∷ [])
          ∷ record {
            evidence_id = literal "event:" ∷ text item.1.name ∷ literal ":readiness" ∷ [];
            source = EvidenceSource.event;
            resource_name = item.1.name;
            summary = text (get_or event.message "") ∷ [];
          }
          ∷ owner

  abbrev pub Cites : FaultCategory → Cited → Type 0
  Cites FaultCategory.service_not_found evidence =
      (any is_missing b.errors ≡ true)
      × (evidence
          ≡ record {
            evidence_id = literal "collector:get_service" ∷ [];
            source = EvidenceSource.collector;
            resource_name = b.service_name;
            summary = literal "Kubernetes API returned HTTP 404." ∷ [];
          }
            ∷ [])
  Cites FaultCategory.selector_mismatch evidence = CitesMismatch b evidence
  Cites FaultCategory.oom_killed evidence = CitesContainer b was_oom_killed oom_words evidence
  Cites FaultCategory.image_pull_error evidence = CitesContainer b cannot_pull pull_words evidence
  Cites FaultCategory.crash_loop evidence = CitesContainer b is_crashing crash_words evidence
  Cites FaultCategory.readiness_probe_error evidence = CitesProbe evidence
  Cites FaultCategory.healthy evidence = CitesHealth b evidence
  Cites FaultCategory.unknown evidence = evidence ≡ []
