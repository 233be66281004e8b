-- ===== src/Diagnosis/Profile.antt =====
-- What backend/app/diagnosis/rules.py says with each fault category.
use mathlib.Core.List.{Memᴰ}
use k8s_incident_agent.Prelude.{
  any, All, arith, is_empty, Holds, not, ltb, all, ◌==◌, ◌||◌, str_eq, ◌≡◌, refl, Bool, true, false,
  Option, none, some, String, if◌then◌else◌,
}
use k8s_incident_agent.Evidence.{
  get, ServiceInfo, ServiceEvidenceBundle, PodInfo, EventInfo, ContainerStatusInfo,
}
use k8s_incident_agent.Report.{EvidenceSource, FaultCategory, DiagnosisStatus, DiagnosisResult}
use k8s_incident_agent.Diagnosis.{
  ready_endpoint_count, first_some, first_container, service_not_found_rule, selector_mismatch_rule,
  selector_mismatch, missing_result, mismatch_result, oom_result, image_pull_result,
  crash_loop_result, is_missing, was_oom_killed, cannot_pull, is_crashing,
}
use k8s_incident_agent.Diagnosis.Citing.{Cites}
use k8s_incident_agent.Passing.{neither, not-false}
use k8s_incident_agent.Diagnosis.Loops.{
  get_or-Holds, first_some-Holds, if-Holds, else-Holds, guards-Holds, last_probe_failure-Holds,
  any-in,
}
use k8s_incident_agent.Diagnosis.Engine.{
  is_probe_failure, deployment_reference, owner_deployment, runs_ready, known_pods,
  readiness_result, healthy_result, healthy_rule, healthy_service, unknown_rule, readiness_found,
  readiness_pod, last_probe_failure, events_of, diagnose_by, diagnose_evidence,
}

abbrev pub status_of : FaultCategory → DiagnosisStatus
status_of FaultCategory.healthy = DiagnosisStatus.healthy
status_of FaultCategory.unknown = DiagnosisStatus.unknown
status_of _ = DiagnosisStatus.unhealthy

abbrev pub action_of : FaultCategory → Option String
action_of FaultCategory.healthy = none
action_of FaultCategory.service_not_found = some "verify_service_name"
action_of FaultCategory.selector_mismatch = some "patch_service_selector"
action_of FaultCategory.image_pull_error = some "verify_image_reference_and_registry"
action_of FaultCategory.oom_killed = some "review_memory_limit"
action_of FaultCategory.crash_loop = some "inspect_previous_logs"
action_of FaultCategory.readiness_probe_error = some "patch_readiness_probe"
action_of FaultCategory.unknown = some "manual_investigation"

-- The two faults that the agent offers to patch.
abbrev pub is_patchable : FaultCategory → Bool
is_patchable FaultCategory.selector_mismatch = true
is_patchable FaultCategory.readiness_probe_error = true
is_patchable _ = false

deployment_reference-owned :
    (o path : Option String)
    → All
        (λ r. (r.source ≡ EvidenceSource.deployment) × (o ≡ some r.resource_name))
        (deployment_reference o path)
unfolding deployment_reference
deployment_reference-owned none path = tt
deployment_reference-owned (some name) path = ((refl, refl), tt)

module _ (lower : String → String) (occurs_in : String → String → Bool)
    (b : ServiceEvidenceBundle) where
  -- The result is about the service of the bundle, and all it says agrees with its category.
  pub record IsCoherent (r : DiagnosisResult) : Type 0 where
    pub same_namespace : r.namespace ≡ b.namespace
    pub same_service : r.service_name ≡ b.service_name
    pub status : r.status ≡ status_of r.fault_category
    pub action : r.recommended_action ≡ action_of r.fault_category
    pub approval : r.requires_approval ≡ is_patchable r.fault_category
    pub cites : Cites lower occurs_in b r.fault_category r.evidence

  missing-IsCoherent : any is_missing b.errors ≡ true → IsCoherent (missing_result b)
  unfolding missing_result
  missing-IsCoherent h = record {
    same_namespace = refl;
    same_service = refl;
    status = refl;
    action = refl;
    approval = refl;
    cites = (h, refl);
  }

  mismatch-IsCoherent :
      (s : ServiceInfo)
      → b.service ≡ some s
      → not (is_empty b.service_pod_names) ≡ false
      → ltb 0 (ready_endpoint_count b) ≡ false
      → IsCoherent (mismatch_result b s)
  unfolding mismatch_result
  mismatch-IsCoherent s found empty unready = record {
    same_namespace = refl;
    same_service = refl;
    status = refl;
    action = refl;
    approval = refl;
    cites = record {
      service = s;
      found = found;
      none_ready = ground arith;
      unselected = ground arith;
      cited = refl;
    };
  }

  oom-IsCoherent :
      (item : String × PodInfo) (c : ContainerStatusInfo)
      → Memᴰ item b.pod_statuses
      → Memᴰ c item.1.containers
      → was_oom_killed c ≡ true
      → IsCoherent (oom_result b item.1 c)
  unfolding oom_result
  oom-IsCoherent item c pod_in container_in passes = record {
    same_namespace = refl;
    same_service = refl;
    status = refl;
    action = refl;
    approval = refl;
    cites = record {
      item = item;
      container = c;
      pod_in = pod_in;
      container_in = container_in;
      passes = passes;
      cited = refl;
    };
  }

  image_pull-IsCoherent :
      (item : String × PodInfo) (c : ContainerStatusInfo)
      → Memᴰ item b.pod_statuses
      → Memᴰ c item.1.containers
      → cannot_pull c ≡ true
      → IsCoherent (image_pull_result b item.1 c)
  unfolding image_pull_result
  image_pull-IsCoherent item c pod_in container_in passes = record {
    same_namespace = refl;
    same_service = refl;
    status = refl;
    action = refl;
    approval = refl;
    cites = record {
      item = item;
      container = c;
      pod_in = pod_in;
      container_in = container_in;
      passes = passes;
      cited = refl;
    };
  }

  crash_loop-IsCoherent :
      (item : String × PodInfo) (c : ContainerStatusInfo)
      → Memᴰ item b.pod_statuses
      → Memᴰ c item.1.containers
      → is_crashing c ≡ true
      → IsCoherent (crash_loop_result b item.1 c)
  unfolding crash_loop_result
  crash_loop-IsCoherent item c pod_in container_in passes = record {
    same_namespace = refl;
    same_service = refl;
    status = refl;
    action = refl;
    approval = refl;
    cites = record {
      item = item;
      container = c;
      pod_in = pod_in;
      container_in = container_in;
      passes = passes;
      cited = refl;
    };
  }

  readiness-IsCoherent :
      (item : String × PodInfo) (e : EventInfo) (path : Option String)
      → Memᴰ item b.pod_statuses
      → str_eq item.1.phase "Running" ≡ true
      → item.1.ready ≡ false
      → Memᴰ e (events_of b item.0)
      → is_probe_failure lower occurs_in e ≡ true
      → IsCoherent (readiness_result b item.1 e (owner_deployment (get item.0 b.owner_chains)) path)
  unfolding readiness_result
  readiness-IsCoherent item e path pod_in runs unready event_in failed = record {
    same_namespace = refl;
    same_service = refl;
    status = refl;
    action = refl;
    approval = refl;
    cites = record {
      item = item;
      event = e;
      owner = deployment_reference (owner_deployment (get item.0 b.owner_chains)) path;
      pod_in = pod_in;
      runs = runs;
      unready = unready;
      event_in = event_in;
      failed = failed;
      owned = deployment_reference-owned (owner_deployment (get item.0 b.owner_chains)) path;
      cited = refl;
    };
  }

  healthy-IsCoherent : (s : ServiceInfo) → b.service ≡ some s → IsCoherent (healthy_result b s)
  unfolding healthy_result
  healthy-IsCoherent s found = record {
    same_namespace = refl;
    same_service = refl;
    status = refl;
    action = refl;
    approval = refl;
    cites = record { service = s; found = found; cited = refl };
  }

  unknown-IsCoherent : IsCoherent (unknown_rule b)
  unfolding unknown_rule
  unknown-IsCoherent = record {
    same_namespace = refl;
    same_service = refl;
    status = refl;
    action = refl;
    approval = refl;
    cites = refl;
  }

  container-IsCoherent :
      (test : ContainerStatusInfo → Bool) (result : PodInfo → ContainerStatusInfo → DiagnosisResult)
      → ((item : String × PodInfo) (c : ContainerStatusInfo)
          → Memᴰ item b.pod_statuses
          → Memᴰ c item.1.containers
          → test c ≡ true
          → IsCoherent (result item.1 c))
      → Holds IsCoherent (first_container test result b)
  container-IsCoherent test result coherent =
      first_some-Holds IsCoherent
        (λ item.
          first_some (λ c. if test c then some (result item.1 c) else none) item.1.containers)
        b.pod_statuses
        (λ item m.
          first_some-Holds IsCoherent (λ c. if test c then some (result item.1 c) else none)
            item.1.containers
            (λ c n. if-Holds IsCoherent (test c) (result item.1 c) (coherent item c m n)))

  missing_rule-IsCoherent : Holds IsCoherent (service_not_found_rule b)
  missing_rule-IsCoherent =
      first_some-Holds IsCoherent (λ e. if is_missing e then some (missing_result b) else none)
        b.errors
        (λ e m.
          if-Holds IsCoherent (is_missing e) (missing_result b)
            (λ t. missing-IsCoherent (any-in is_missing e b.errors m t)))

  mismatch_service-IsCoherent :
      (o : Option ServiceInfo) → b.service ≡ o → Holds IsCoherent (selector_mismatch b o)
  unfolding selector_mismatch
  mismatch_service-IsCoherent none e = tt
  mismatch_service-IsCoherent (some s) e =
      guards-Holds IsCoherent (is_empty s.selector) (not (is_empty b.service_pod_names))
        (is_empty b.namespace_pod_names) (ltb 0 (ready_endpoint_count b)) (mismatch_result b s)
        (mismatch-IsCoherent s e)

  mismatch_rule-IsCoherent : Holds IsCoherent (selector_mismatch_rule b)
  unfolding selector_mismatch_rule
  mismatch_rule-IsCoherent = mismatch_service-IsCoherent b.service refl

  healthy_service-IsCoherent :
      (o : Option ServiceInfo) → b.service ≡ o → Holds IsCoherent (healthy_service b o)
  unfolding healthy_service
  healthy_service-IsCoherent none e = tt
  healthy_service-IsCoherent (some s) e =
      let pods = known_pods b.pod_statuses b.service_pod_names in
      guards-Holds IsCoherent (is_empty b.service_pod_names) (is_empty pods)
        (not (all runs_ready pods)) (ready_endpoint_count b == 0) (healthy_result b s)
        (λ h k. healthy-IsCoherent s e)

  healthy_rule-IsCoherent : Holds IsCoherent (healthy_rule b)
  unfolding healthy_rule
  healthy_rule-IsCoherent = healthy_service-IsCoherent b.service refl

  found-IsCoherent :
      (item : String × PodInfo) (o : Option EventInfo)
      → Memᴰ item b.pod_statuses
      → str_eq item.1.phase "Running" ≡ true
      → item.1.ready ≡ false
      → Holds (λ e. Memᴰ e (events_of b item.0) × (is_probe_failure lower occurs_in e ≡ true)) o
      → Holds IsCoherent (readiness_found lower occurs_in b item.0 item.1 o)
  unfolding readiness_found
  found-IsCoherent item none m runs unready h = tt
  found-IsCoherent item (some event) m runs unready h =
      readiness-IsCoherent item event _ m runs unready h.0 h.1

  pod-IsCoherent :
      (item : String × PodInfo)
      → Memᴰ item b.pod_statuses
      → Holds IsCoherent (readiness_pod lower occurs_in b item)
  unfolding readiness_pod
  pod-IsCoherent (name, pod) m =
      let event = last_probe_failure lower occurs_in (events_of b name) none in
      else-Holds IsCoherent (not (str_eq pod.phase "Running") || pod.ready)
        (readiness_found lower occurs_in b name pod event)
        (λ h.
          found-IsCoherent (name, pod) event m (not-false _ (neither _ _ h).0) (neither _ _ h).1
            (last_probe_failure-Holds lower occurs_in
              (λ e. Memᴰ e (events_of b name) × (is_probe_failure lower occurs_in e ≡ true))
              (events_of b name) none (λ e n t. (n, t)) tt))

  -- Every diagnosis is about the service that was asked for, and its status, its action and its need
  -- of approval are those of its fault category: only a selector mismatch and a readiness probe error
  -- ask for approval of a patch. Its evidence is what the category stands for: of a missing service
  -- the error 404; of a mismatch the service with its selector, which selects no pod; of a killed, an
  -- unpullable and a crashing container a pod of the bundle with such a container and its state; of a
  -- failing probe a pod that runs and is not ready, with an event of that failure and at most its own
  -- deployment; of health the service with its counts; and of an unknown fault nothing.
  pub diagnose_evidence-IsCoherent : IsCoherent (diagnose_evidence lower occurs_in b)
  unfolding diagnose_evidence diagnose_by
  diagnose_evidence-IsCoherent =
      let or = get_or-Holds IsCoherent in
      or _ _ missing_rule-IsCoherent (
        or _ _ mismatch_rule-IsCoherent (
          or _ _ (container-IsCoherent was_oom_killed (oom_result b) oom-IsCoherent) (
            or _ _ (container-IsCoherent cannot_pull (image_pull_result b) image_pull-IsCoherent) (
              or _ _ (container-IsCoherent is_crashing (crash_loop_result b) crash_loop-IsCoherent)
                (or _ _
                  (first_some-Holds IsCoherent (readiness_pod lower occurs_in b) b.pod_statuses
                    pod-IsCoherent)
                  (or _ _ healthy_rule-IsCoherent unknown-IsCoherent))))))
