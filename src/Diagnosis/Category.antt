-- ===== src/Diagnosis/Category.antt =====
-- The fault category that backend/app/diagnosis/engine.py finds, in terms of the evidence alone.
use k8s_incident_agent.Prelude.{
  is_empty, ◌≡◌, refl, ap, sym, ◌∙◌, subst, Bool, true, false, not, ◌&&◌, ◌||◌, Option, none, some,
  List, [], ◌∷◌, String, str_eq, ltb, ◌==◌, arith, if◌then◌else◌, any, all, or_else, get_or,
  is_some,
}
use k8s_incident_agent.Evidence.{
  ServiceInfo, ServiceEvidenceBundle, PodInfo, EventInfo, ContainerStatusInfo,
}
use k8s_incident_agent.Report.{FaultCategory, DiagnosisResult}
use k8s_incident_agent.Diagnosis.{
  first_some, first_container, ready_endpoint_count, selector_mismatch_rule, selector_mismatch,
  service_not_found_rule, missing_result, mismatch_result, oom_result, image_pull_result,
  crash_loop_result, is_missing, was_oom_killed, cannot_pull, is_crashing,
}
use k8s_incident_agent.Diagnosis.Engine.{
  readiness_result, healthy_result, healthy_rule, healthy_service, unknown_rule, readiness_found,
  readiness_pod, known_pods, runs_ready, is_probe_failure, last_probe_failure, events_of,
  diagnose_by, diagnose_evidence,
}

-- Some container of a pod passes.
abbrev pub any_container : (ContainerStatusInfo → Bool) → ServiceEvidenceBundle → Bool
any_container test b = any (λ item. any test item.1.containers) b.pod_statuses

-- The service selects no pod, though the namespace has pods, and no endpoint is ready.
abbrev pub selects_nothing : ServiceEvidenceBundle → Option ServiceInfo → Bool
selects_nothing b none = false
selects_nothing b (some service) =
    not (is_empty service.selector)
    && is_empty b.service_pod_names
    && not (is_empty b.namespace_pod_names)
    && ready_endpoint_count b == 0

-- The service exists and has pods, all those whose status was read run and are ready, there is such a
-- pod, and an endpoint is ready.
abbrev pub serves : ServiceEvidenceBundle → Option ServiceInfo → Bool
serves b none = false
serves b (some service) =
    not (is_empty b.service_pod_names)
    && not (is_empty (known_pods b.pod_statuses b.service_pod_names))
    && all runs_ready (known_pods b.pod_statuses b.service_pod_names)
    && ltb 0 (ready_endpoint_count b)

module _ (lower : String → String) (occurs_in : String → String → Bool) where
  -- A pod runs, is not ready, and has an event of a failed readiness probe.
  abbrev pub fails_probe : ServiceEvidenceBundle → String × PodInfo → Bool
  fails_probe b item =
      str_eq item.1.phase "Running"
      && not item.1.ready
      && any (is_probe_failure lower occurs_in) (events_of b item.0)

  -- The category that the evidence asks for, by existence alone and in the order of severity.
  abbrev pub expected : ServiceEvidenceBundle → FaultCategory
  expected b =
      if any is_missing b.errors
      then FaultCategory.service_not_found
      else if selects_nothing b b.service
      then FaultCategory.selector_mismatch
      else if any_container was_oom_killed b
      then FaultCategory.oom_killed
      else if any_container cannot_pull b
      then FaultCategory.image_pull_error
      else if any_container is_crashing b
      then FaultCategory.crash_loop
      else if any (fails_probe b) b.pod_statuses
      then FaultCategory.readiness_probe_error
      else if serves b b.service
      then FaultCategory.healthy
      else FaultCategory.unknown

abbrev pub Tells : FaultCategory → Bool → Option DiagnosisResult → Type 0
Tells k t none = t ≡ false
Tells k t (some r) = (t ≡ true) × (r.fault_category ≡ k)

module _ (k : FaultCategory) where
  or_else-Tells :
      (s t : Bool) (o p : Option DiagnosisResult)
      → Tells k s o
      → Tells k t p
      → Tells k (s || t) (or_else o p)
  or_else-Tells s t none p h g = subst (λ s. Tells k (s || t) p) (sym h) g
  or_else-Tells s t (some r) p h g = (ground (arith, h.0), h.1)

  first_some-Tells :
      {A : Type 0} (t : A → Bool) (f : A → Option DiagnosisResult)
      → ((x : A) → Tells k (t x) (f x))
      → (xs : List A) → Tells k (any t xs) (first_some f xs)
  first_some-Tells t f h [] = refl
  first_some-Tells t f h (x ∷ xs) =
      or_else-Tells (t x) (any t xs) (f x) (first_some f xs) (h x) (first_some-Tells t f h xs)

  if-Tells :
      (t : Bool) (r : DiagnosisResult)
      → r.fault_category ≡ k
      → Tells k t (if t then some r else none)
  if-Tells true r e = (refl, e)
  if-Tells false r e = refl

  else-Tells :
      (s t : Bool) (o : Option DiagnosisResult)
      → Tells k t o
      → Tells k (not s && t) (if s then none else o)
  else-Tells true t o h = refl
  else-Tells false t o h = h

  guards-Tells :
      (t1 t2 t3 t4 t : Bool) (r : DiagnosisResult)
      → t ≡ (not t1 && not t2 && not t3 && not t4)
      → r.fault_category ≡ k
      → Tells k t (
          if t1
          then none
          else if t2
          then none
          else if t3
          then none
          else if t4
          then none
          else some r)
  guards-Tells true t2 t3 t4 t r h e = h
  guards-Tells false true t3 t4 t r h e = h
  guards-Tells false false true t4 t r h e = h
  guards-Tells false false false true t r h e = h
  guards-Tells false false false false t r h e = (h, e)

  get_or-Tells :
      (t : Bool) (o : Option DiagnosisResult) (r : DiagnosisResult) (c : FaultCategory)
      → Tells k t o
      → r.fault_category ≡ c
      → (get_or o r).fault_category ≡ (if t then k else c)
  get_or-Tells t none r c h e = e ∙ ap (λ t. if t then k else c) (sym h)
  get_or-Tells t (some a) r c h e = h.1 ∙ ap (λ t. if t then k else c) (sym h.0)

  container-Tells :
      (test : ContainerStatusInfo → Bool) (result : PodInfo → ContainerStatusInfo → DiagnosisResult)
      → ((p : PodInfo) (c : ContainerStatusInfo) → (result p c).fault_category ≡ k)
      → (b : ServiceEvidenceBundle) → Tells k (any_container test b) (first_container test result b)
  container-Tells test result h b =
      first_some-Tells (λ item. any test item.1.containers)
        (λ item.
          first_some (λ c. if test c then some (result item.1 c) else none) item.1.containers)
        (λ item.
          first_some-Tells test (λ c. if test c then some (result item.1 c) else none)
            (λ c. if-Tells (test c) (result item.1 c) (h item.1 c)) item.1.containers)
        b.pod_statuses

missing-Tells :
    (b : ServiceEvidenceBundle)
    → Tells FaultCategory.service_not_found (any is_missing b.errors) (service_not_found_rule b)
unfolding missing_result
missing-Tells b =
    first_some-Tells FaultCategory.service_not_found is_missing
      (λ e. if is_missing e then some (missing_result b) else none)
      (λ e. if-Tells FaultCategory.service_not_found (is_missing e) (missing_result b) refl)
      b.errors

mismatch-Tells :
    (b : ServiceEvidenceBundle)
    → (o : Option ServiceInfo)
    → Tells FaultCategory.selector_mismatch (selects_nothing b o) (selector_mismatch b o)
unfolding selector_mismatch mismatch_result
mismatch-Tells b none = refl
mismatch-Tells b (some s) =
    guards-Tells FaultCategory.selector_mismatch (is_empty s.selector)
      (not (is_empty b.service_pod_names)) (is_empty b.namespace_pod_names)
      (ltb 0 (ready_endpoint_count b)) (selects_nothing b (some s)) (mismatch_result b s)
      (ground arith) refl

healthy-Tells :
    (b : ServiceEvidenceBundle)
    → (o : Option ServiceInfo) → Tells FaultCategory.healthy (serves b o) (healthy_service b o)
unfolding healthy_service healthy_result
healthy-Tells b none = refl
healthy-Tells b (some s) =
    let pods = known_pods b.pod_statuses b.service_pod_names in
    guards-Tells FaultCategory.healthy (is_empty b.service_pod_names) (is_empty pods)
      (not (all runs_ready pods)) (ready_endpoint_count b == 0) (serves b (some s))
      (healthy_result b s) (ground arith) refl

oom-category :
    (b : ServiceEvidenceBundle) (p : PodInfo) (c : ContainerStatusInfo)
    → (oom_result b p c).fault_category ≡ FaultCategory.oom_killed
unfolding oom_result
oom-category b p c = refl

image_pull-category :
    (b : ServiceEvidenceBundle) (p : PodInfo) (c : ContainerStatusInfo)
    → (image_pull_result b p c).fault_category ≡ FaultCategory.image_pull_error
unfolding image_pull_result
image_pull-category b p c = refl

crash_loop-category :
    (b : ServiceEvidenceBundle) (p : PodInfo) (c : ContainerStatusInfo)
    → (crash_loop_result b p c).fault_category ≡ FaultCategory.crash_loop
unfolding crash_loop_result
crash_loop-category b p c = refl

last-is_some :
    (lower : String → String) (occurs_in : String → String → Bool) (es : List EventInfo)
    (kept : Option EventInfo)
    → is_some (last_probe_failure lower occurs_in es kept)
      ≡ is_some kept || any (is_probe_failure lower occurs_in) es
last-is_some lower occurs_in [] kept = ground arith
last-is_some lower occurs_in (e ∷ es) kept =
    last-is_some lower occurs_in es (if is_probe_failure lower occurs_in e then some e else kept)
    ∙ kept-lem (is_probe_failure lower occurs_in e) e kept
        (any (is_probe_failure lower occurs_in) es)
  where
    kept-lem :
        (t : Bool) (e : EventInfo) (kept : Option EventInfo) (u : Bool)
        → (is_some (if t then some e else kept) || u) ≡ is_some kept || (t || u)
    kept-lem true e kept u = ground arith
    kept-lem false e kept u = ground arith

module _ (lower : String → String) (occurs_in : String → String → Bool)
    (b : ServiceEvidenceBundle) where
  found-Tells :
      (name : String) (pod : PodInfo) (o : Option EventInfo)
      → Tells FaultCategory.readiness_probe_error
          (is_some o)
          (readiness_found lower occurs_in b name pod o)
  unfolding readiness_found readiness_result
  found-Tells name pod none = refl
  found-Tells name pod (some event) = (refl, refl)

  pod-Tells :
      (item : String × PodInfo)
      → Tells FaultCategory.readiness_probe_error
          (fails_probe lower occurs_in b item)
          (readiness_pod lower occurs_in b item)
  unfolding readiness_pod
  pod-Tells (name, pod) =
      let event = last_probe_failure lower occurs_in (events_of b name) none in
      let skipped = not (str_eq pod.phase "Running") || pod.ready in
      let same : not skipped && is_some event ≡ fails_probe lower occurs_in b (name, pod) =
        ap (λ t. not skipped && t) (last-is_some lower occurs_in (events_of b name) none)
        ∙ guard-lem (str_eq pod.phase "Running") pod.ready
            (any (is_probe_failure lower occurs_in) (events_of b name)) in
      subst
        (λ t.
          Tells FaultCategory.readiness_probe_error t
            (if skipped then none else readiness_found lower occurs_in b name pod event))
        same
        (else-Tells FaultCategory.readiness_probe_error skipped (is_some event)
          (readiness_found lower occurs_in b name pod event) (found-Tells name pod event))
    where
      guard-lem : (t u v : Bool) → (not (not t || u) && v) ≡ (t && not u && v)
      guard-lem t u v = ground arith

  -- The rules, tried in order over the whole evidence, find exactly the category that the evidence asks
  -- for, and there is always one.
  pub diagnose_evidence-category :
      (diagnose_evidence lower occurs_in b).fault_category ≡ expected lower occurs_in b
  unfolding diagnose_evidence diagnose_by healthy_rule selector_mismatch_rule unknown_rule
  diagnose_evidence-category =
      get_or-Tells FaultCategory.service_not_found _ _ _ _ (missing-Tells b) (
        get_or-Tells FaultCategory.selector_mismatch _ _ _ _ (mismatch-Tells b b.service) (
          get_or-Tells FaultCategory.oom_killed _ _ _ _
            (container-Tells FaultCategory.oom_killed was_oom_killed (oom_result b) (oom-category b)
              b)
            (get_or-Tells FaultCategory.image_pull_error _ _ _ _
              (container-Tells FaultCategory.image_pull_error cannot_pull (image_pull_result b)
                (image_pull-category b) b)
              (get_or-Tells FaultCategory.crash_loop _ _ _ _
                (container-Tells FaultCategory.crash_loop is_crashing (crash_loop_result b)
                  (crash_loop-category b) b)
                (get_or-Tells FaultCategory.readiness_probe_error _ _ _ _
                  (first_some-Tells FaultCategory.readiness_probe_error
                    (fails_probe lower occurs_in b) (readiness_pod lower occurs_in b) pod-Tells
                    b.pod_statuses)
                  (get_or-Tells FaultCategory.healthy _ _ _ _ (healthy-Tells b b.service) refl))))))
