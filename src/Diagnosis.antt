-- ===== src/Diagnosis.antt =====
-- backend/app/diagnosis/rules.py and engine.py: the seven rules, in their order, and the fallback.
-- `lower` is str.lower and `occurs_in` the substring test `in`, which Python provides.
pub mod Engine
pub mod Citing
pub mod Loops
pub mod Profile
pub mod Category
mod Examples
use k8s_incident_agent.Prelude.{
  is_empty, says, ℕ, ◌+◌, Bool, true, false, not, ◌&&◌, ◌||◌, Option, none, some, List, [], ◌∷◌,
  ◌++◌, String, str_eq, ltb, ◌==◌, if◌then◌else◌, any, all, length, or_else, is_some, get_or,
  equals,
}
use k8s_incident_agent.Evidence.{
  ServiceInfo, EndpointInfo, EndpointSliceInfo, ContainerStatusInfo, PodInfo, EventInfo,
  HttpProbeInfo, ContainerConfigInfo, DeploymentInfo, OwnerChainInfo, CollectionErrorInfo,
  ServiceEvidenceBundle, get,
}
use k8s_incident_agent.Report.{
  FaultCategory, DiagnosisStatus, EvidenceSource, Piece, Text, literal, text, quoted, number,
  text_or_none, quoted_or_none, number_or_none, mapping, join, DiagnosisEvidenceReference,
  DiagnosisResult,
}

-- A loop that returns at the first element for which its body does.
abbrev pub first_some {ℓ κ} : {A : Type ℓ} {B : Type κ} → (A → Option B) → List A → Option B
first_some f [] = none
first_some f (x ∷ xs) = or_else (f x) (first_some f xs)

-- `a or b` on optional texts, where the empty one is false.
abbrev pub or_text : Option String → Option String → Option String
or_text none o = o
or_text (some t) o = if str_eq t "" then o else some t

-- max(len(endpoint.addresses), 1)
abbrev pub address_count : List String → ℕ
address_count [] = 1
address_count (a ∷ as') = length (a ∷ as')

abbrev pub ready_in : List EndpointInfo → ℕ
ready_in [] = 0
ready_in (e ∷ es) = elim e.ready [
  | some true ↦ address_count e.addresses + ready_in es
  | _ ↦ ready_in es
]

abbrev pub ready_in_slices : List EndpointSliceInfo → ℕ
ready_in_slices [] = 0
ready_in_slices (s ∷ ss) = ready_in s.endpoints + ready_in_slices ss

abbrev pub ready_endpoint_count : ServiceEvidenceBundle → ℕ
ready_endpoint_count b = ready_in_slices b.endpoint_slices

abbrev pub pod_reference : PodInfo → Text → DiagnosisEvidenceReference
pod_reference pod summary = record {
  evidence_id = literal "pod_status:" ∷ text pod.name ∷ [];
  source = EvidenceSource.pod;
  resource_name = pod.name;
  summary = summary;
}

abbrev pub is_missing : CollectionErrorInfo → Bool
is_missing error = str_eq error.operation "get_service" && equals error.status_code 404

unfoldable pub missing_result : ServiceEvidenceBundle → DiagnosisResult
missing_result b = record {
  namespace = b.namespace;
  service_name = b.service_name;
  status = DiagnosisStatus.unhealthy;
  fault_category = FaultCategory.service_not_found;
  root_cause =
      literal "Service "
      ∷ quoted b.service_name
      ∷ literal " does not exist in namespace "
      ∷ quoted b.namespace
      ∷ literal "."
      ∷ [];
  confidence = 100;
  evidence =
      record {
        evidence_id = literal "collector:get_service" ∷ [];
        source = EvidenceSource.collector;
        resource_name = b.service_name;
        summary = literal "Kubernetes API returned HTTP 404." ∷ [];
      }
      ∷ [];
  recommended_action = some "verify_service_name";
  requires_approval = false;
}

abbrev pub service_not_found_rule : ServiceEvidenceBundle → Option DiagnosisResult
service_not_found_rule b =
    first_some (λ error. if is_missing error then some (missing_result b) else none) b.errors

abbrev pub pod_summaries : List (String × PodInfo) → List Text
pod_summaries [] = []
pod_summaries ((name, pod) ∷ ps) =
    (text pod.name ∷ literal " labels=" ∷ mapping pod.labels ∷ []) ∷ pod_summaries ps

unfoldable pub mismatch_result : ServiceEvidenceBundle → ServiceInfo → DiagnosisResult
mismatch_result b service = record {
  namespace = b.namespace;
  service_name = b.service_name;
  status = DiagnosisStatus.unhealthy;
  fault_category = FaultCategory.selector_mismatch;
  root_cause =
      literal "Service selector "
      ∷ mapping service.selector
      ∷ literal " matches no Pods, although Pods exist in the namespace."
      ∷ [];
  confidence = 98;
  evidence =
      record {
        evidence_id = literal "service:" ∷ text service.name ∷ [];
        source = EvidenceSource.service;
        resource_name = service.name;
        summary = literal "selector=" ∷ mapping service.selector ∷ literal "; matched_pods=0" ∷ [];
      }
      ∷ record {
        evidence_id = literal "namespace:pods" ∷ [];
        source = EvidenceSource.pod;
        resource_name = b.namespace;
        summary = join "; " (pod_summaries b.pod_statuses);
      }
      ∷ record {
        evidence_id = literal "endpoint_slice:ready_count" ∷ [];
        source = EvidenceSource.endpoint_slice;
        resource_name = service.name;
        summary = literal "ready_endpoint_count=0" ∷ [];
      }
      ∷ [];
  recommended_action = some "patch_service_selector";
  requires_approval = true;
}

selector_mismatch : ServiceEvidenceBundle → Option ServiceInfo → Option DiagnosisResult
selector_mismatch b none = none
selector_mismatch b (some service) =
    if is_empty service.selector
    then none
    else if not (is_empty b.service_pod_names)
    then none
    else if is_empty b.namespace_pod_names
    then none
    else if ltb 0 (ready_endpoint_count b)
    then none
    else some (mismatch_result b service)

unfoldable pub selector_mismatch_rule : ServiceEvidenceBundle → Option DiagnosisResult
unfolding selector_mismatch
selector_mismatch_rule b = selector_mismatch b b.service

abbrev pub was_oom_killed : ContainerStatusInfo → Bool
was_oom_killed c = says (or_text c.last_terminated_reason c.terminated_reason) "OOMKilled"

abbrev pub oom_exit_code : ContainerStatusInfo → Option ℕ
oom_exit_code c =
    if says c.last_terminated_reason "OOMKilled"
    then c.last_terminated_exit_code
    else c.terminated_exit_code

unfoldable pub oom_result : ServiceEvidenceBundle → PodInfo → ContainerStatusInfo → DiagnosisResult
oom_result b pod c = record {
  namespace = b.namespace;
  service_name = b.service_name;
  status = DiagnosisStatus.unhealthy;
  fault_category = FaultCategory.oom_killed;
  root_cause =
      literal "Container "
      ∷ quoted c.name
      ∷ literal " in Pod "
      ∷ quoted pod.name
      ∷ literal " was terminated because it exceeded its memory limit."
      ∷ [];
  confidence = 99;
  evidence =
      pod_reference pod (
        literal "container="
        ∷ text c.name
        ∷ literal "; reason=OOMKilled; exit_code="
        ∷ number_or_none (oom_exit_code c)
        ∷ literal "; restart_count="
        ∷ number c.restart_count
        ∷ [])
      ∷ [];
  recommended_action = some "review_memory_limit";
  requires_approval = false;
}

-- The first container of a pod that passes, and what is said of it.
abbrev pub first_container :
    (ContainerStatusInfo → Bool)
    → (PodInfo → ContainerStatusInfo → DiagnosisResult)
    → ServiceEvidenceBundle
    → Option DiagnosisResult
first_container test result b =
    first_some
      (λ item. first_some (λ c. if test c then some (result item.1 c) else none) item.1.containers)
      b.pod_statuses

abbrev pub oom_killed_rule : ServiceEvidenceBundle → Option DiagnosisResult
oom_killed_rule b = first_container was_oom_killed (oom_result b) b

-- known_reasons
abbrev pub cannot_pull : ContainerStatusInfo → Bool
cannot_pull c =
    says c.waiting_reason "ErrImagePull"
    || says c.waiting_reason "ImagePullBackOff"
    || says c.waiting_reason "InvalidImageName"
    || says c.waiting_reason "RegistryUnavailable"

unfoldable pub image_pull_result :
    ServiceEvidenceBundle → PodInfo → ContainerStatusInfo → DiagnosisResult
image_pull_result b pod c = record {
  namespace = b.namespace;
  service_name = b.service_name;
  status = DiagnosisStatus.unhealthy;
  fault_category = FaultCategory.image_pull_error;
  root_cause =
      literal "Container "
      ∷ quoted c.name
      ∷ literal " in Pod "
      ∷ quoted pod.name
      ∷ literal " cannot pull image "
      ∷ quoted c.image
      ∷ literal "."
      ∷ [];
  confidence = 99;
  evidence =
      pod_reference pod (
        literal "container="
        ∷ text c.name
        ∷ literal "; image="
        ∷ text c.image
        ∷ literal "; waiting_reason="
        ∷ text_or_none c.waiting_reason
        ∷ literal "; message="
        ∷ text_or_none c.waiting_message
        ∷ [])
      ∷ [];
  recommended_action = some "verify_image_reference_and_registry";
  requires_approval = false;
}

abbrev pub image_pull_rule : ServiceEvidenceBundle → Option DiagnosisResult
image_pull_rule b = first_container cannot_pull (image_pull_result b) b

abbrev pub is_crashing : ContainerStatusInfo → Bool
is_crashing c = says c.waiting_reason "CrashLoopBackOff"

unfoldable pub crash_loop_result :
    ServiceEvidenceBundle → PodInfo → ContainerStatusInfo → DiagnosisResult
crash_loop_result b pod c = record {
  namespace = b.namespace;
  service_name = b.service_name;
  status = DiagnosisStatus.unhealthy;
  fault_category = FaultCategory.crash_loop;
  root_cause =
      literal "Container "
      ∷ quoted c.name
      ∷ literal " in Pod "
      ∷ quoted pod.name
      ∷ literal " repeatedly exits and is being restarted."
      ∷ [];
  confidence = 97;
  evidence =
      pod_reference pod (
        literal "container="
        ∷ text c.name
        ∷ literal "; waiting_reason=CrashLoopBackOff; restart_count="
        ∷ number c.restart_count
        ∷ [])
      ∷ [];
  recommended_action = some "inspect_previous_logs";
  requires_approval = false;
}

abbrev pub crash_loop_rule : ServiceEvidenceBundle → Option DiagnosisResult
crash_loop_rule b = first_container is_crashing (crash_loop_result b) b
