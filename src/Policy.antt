-- ===== src/Policy.antt =====
-- backend/app/agent/remediation_policy.py: which plans may be proposed and approved.
-- The messages leave out the values that they quote.
pub mod Citations
pub mod Grounded
pub mod Preparing
pub mod Examples
use k8s_incident_agent.Prelude.{
  ℕ, Bool, true, false, not, ◌&&◌, ◌||◌, Option, none, some, List, [], ◌∷◌, ◌++◌, String, str_eq,
  if◌then◌else◌, length, ◌==◌, any, all, filter, get_or, is_some, is_empty, says,
}
use k8s_incident_agent.Outcome.{
  Error, Outcome, ok, raised, ◌>>=◌, ◌>>◌, raise_if, value_error, other_exception,
}
use k8s_incident_agent.Database.{Action}
use k8s_incident_agent.Schemas.{
  ResourceKind, RiskLevel, RemediationParameters, RemediationPlan, ContainerData, RequestState,
  DiagnosisState, EvidenceItem, State,
}
use k8s_incident_agent.Equality.{same}
use k8s_incident_agent.PlanEquality.{action_equality, kind_equality, risk_equality}
use k8s_incident_agent.Verification.{Labels, same_labels}
use k8s_incident_agent.Target.{same_text, same_opt_port, is_given}
use k8s_incident_agent.TargetIdentity.{bind_target}
use k8s_incident_agent.Approval.{is_manual, safe_namespace}

-- What `diagnostic_facts` of backend/app/agent/diagnosis_policy.py tells.
pub record Facts : Type 0 where
  pub readiness_patch_supported : Bool
  pub configuration_evidence_complete : Bool
  pub business_failed : Bool
  pub has_runtime_faults : Bool
  pub configuration_evidence_ids : List String

pub record Profile : Type 0 where
  pub service_name : String
  pub expected_selector : Labels

pub record Hypothesis : Type 0 where
  pub is_supported : Bool
  pub evidence_ids : List String

-- The functions of other modules and libraries that are called: `diagnostic_facts`; `matched_profile`,
-- none where it is unavailable; `validate_profile_action` on it; the root cause hypotheses of a diagnosis
-- that parses and passes its assessment; len, the search for a command, and the tests of a path.
pub record Grounds : Type 0 where
  pub diagnostic_facts : State → Facts
  pub matched_profile : State → Option Profile
  pub validate_profile_action : State → RemediationPlan → Outcome (Unit {0})
  pub hypotheses : DiagnosisState → State → Option (List Hypothesis)
  pub size : String → ℕ
  pub has_command : String → Bool
  pub is_absolute : String → Bool
  pub has_space : String → Bool

abbrev pub has_id : List String → String → Bool
has_id ids k = any (str_eq k) ids

-- set(ids) <= set(others)
abbrev pub is_subset : List String → List String → Bool
is_subset ids others = all (has_id others) ids

abbrev pub has_duplicates : List String → Bool
has_duplicates [] = false
has_duplicates (k ∷ ks) = has_id ks k || has_duplicates ks

-- The ids that are there and not empty.
abbrev pub given_ids : List (Option String) → List String
given_ids [] = []
given_ids (none ∷ ids) = given_ids ids
given_ids (some k ∷ ids) = let rest = given_ids ids in if str_eq k "" then rest else k ∷ rest

abbrev pub evidence_ids_of : List EvidenceItem → List (Option String)
evidence_ids_of [] = []
evidence_ids_of (e ∷ es) = e.evidence_id ∷ evidence_ids_of es

abbrev pub find_evidence : State → String → String → List EvidenceItem
find_evidence state resource_type resource_name =
    filter (λ e. says e.resource_type resource_type && says e.resource_name resource_name)
      state.evidence

-- `state.get("diagnosis") or {}`
abbrev pub diagnosis_in : State → Option DiagnosisState
diagnosis_in state = elim state.diagnosis [ some (some d) ↦ some d | _ ↦ none ]

abbrev pub cited_evidence : State → List String
cited_evidence state = elim (diagnosis_in state) [ none ↦ [] | some d ↦ d.evidence_ids ]

abbrev pub cited_runbooks : State → List String
cited_runbooks state = elim (diagnosis_in state) [ none ↦ [] | some d ↦ d.runbook_ids ]

abbrev pub evidence_type : ResourceKind → String
evidence_type ResourceKind.service = "Service"
evidence_type ResourceKind.deployment = "Deployment"
evidence_type ResourceKind.pod = "PodStatus"

unfoldable pub validate_references : RemediationPlan → State → Outcome (Unit {0})
validate_references plan state = do
  raise_if (has_duplicates plan.evidence_ids) (value_error "duplicate evidence IDs are not allowed")
  raise_if (has_duplicates plan.runbook_ids) (value_error "duplicate runbook IDs are not allowed")
  raise_if (not (is_subset plan.evidence_ids (given_ids (evidence_ids_of state.evidence))))
      (value_error "unknown remediation evidence IDs")
  raise_if (not (is_subset plan.runbook_ids (given_ids state.retrieved_runbooks)))
      (value_error "unknown remediation runbook IDs")
  raise_if (not (is_subset plan.evidence_ids (cited_evidence state)))
      (value_error "remediation evidence IDs were not declared by diagnosis")
  raise_if (not (is_subset plan.runbook_ids (cited_runbooks state)))
      (value_error "remediation runbook IDs were not declared by diagnosis")

abbrev pub request_namespace : State → Option String
request_namespace state = elim state.request [ none ↦ none | some r ↦ r.namespace ]

abbrev pub request_service : State → Option String
request_service state = elim state.request [ none ↦ none | some r ↦ r.service_name ]

unfoldable pub validate_target : RemediationPlan → State → Outcome (Unit {0})
validate_target plan state =
    let p = plan.parameters in
    do
      raise_if (not (str_eq p.namespace safe_namespace))
          (value_error "remediation namespace is not allowed")
      raise_if (not (says (request_namespace state) p.namespace))
          (value_error "remediation namespace does not match incident request")
      raise_if (is_empty (find_evidence state (evidence_type p.resource_kind) p.resource_name))
          (value_error "remediation target does not exist in collected evidence")

unfoldable pub validate_action_metadata : RemediationPlan → Outcome (Unit {0})
validate_action_metadata plan =
    if not (is_manual plan.action)
    then (do
      raise_if (not plan.requires_approval) (value_error "executable remediation requires approval")
      raise_if (not (same plan.risk_level RiskLevel.medium))
          (value_error "executable remediation must have medium risk"))
    else (do
      raise_if plan.requires_approval
          (value_error "manual investigation must not request execution approval")
      raise_if (not (same plan.risk_level RiskLevel.low))
          (value_error "manual investigation must have low risk"))

unfoldable pub validate_manual_investigation : RemediationPlan → Outcome (Unit {0})
validate_manual_investigation plan =
    let p = plan.parameters in
    do
      raise_if (is_empty p.investigation_steps) (value_error "manual investigation requires steps")
      raise_if
          (is_some p.proposed_probe_path
            || is_some p.proposed_probe_port
            || not (is_empty p.proposed_selector))
          (value_error "manual investigation must not contain executable mutation parameters")

-- `_label_pairs_to_dict`
unfoldable pub label_pairs : Labels → Outcome Labels
label_pairs [] = ok []
label_pairs (item ∷ items) = do
  raise_if (any (λ other. str_eq other.0 item.0) items)
      (value_error "selector contains duplicate label keys")
  rest ← label_pairs items
  ok (item ∷ rest)

-- matches[0]
unfoldable pub first_item : List EvidenceItem → Outcome EvidenceItem
first_item [] = raised other_exception
first_item (e ∷ es) = ok e

unfoldable pub find_container_data : Option String → List ContainerData → Outcome ContainerData
find_container_data name [] = raised (value_error "container does not exist in Deployment evidence")
find_container_data name (c ∷ cs) =
    if same_text c.name name then ok c else find_container_data name cs

unfoldable pub validate_selector_patch : RemediationPlan → State → Outcome (Unit {0})
unfolding label_pairs first_item
validate_selector_patch plan state =
    let p = plan.parameters in
    do
      raise_if (not (same p.resource_kind ResourceKind.service))
          (value_error "selector patch target must be a Service")
      raise_if (not (says (request_service state) p.resource_name))
          (value_error "selector patch must target requested service")
      current ← label_pairs p.current_selector
      proposed ← label_pairs p.proposed_selector
      raise_if (is_empty proposed) (value_error "proposed selector must not be empty")
      e ← first_item (find_evidence state "Service" p.resource_name)
      raise_if (not (same_labels current (get_or e.content.selector [])))
          (value_error "current selector does not match evidence")

-- The action may be proposed for the category.
abbrev pub category_allows : Option String → Action → Bool
category_allows category Action.manual_investigation = any (says category) (
    "application_error" ∷ "dependency_error" ∷ "crash_loop_backoff" ∷ "image_pull_backoff"
    ∷ "oom_killed" ∷ "readiness_probe_error" ∷ "service_selector_mismatch" ∷ [])
category_allows category Action.patch_readiness_probe = says category "readiness_probe_error"
category_allows category Action.patch_service_selector = says category "service_selector_mismatch"

module _ (grounds : Grounds) where
  open grounds use {
    diagnostic_facts, matched_profile, validate_profile_action, hypotheses, size, has_command,
    is_absolute, has_space,
  }

  unfoldable pub has_grounded_selector : State → Option Profile → Bool
  has_grounded_selector state none = false
  has_grounded_selector state (some profile) =
      elim (find_evidence state "Service" profile.service_name) [
        | e ∷ [] ↦ elim e.content.selector [
          | none ↦ false
          | some selector ↦ not (same_labels selector profile.expected_selector)
        ]
        | _ ↦ false
      ]

  -- The tests on a write, once the diagnosis has passed its assessment.
  unfoldable pub is_supported_write : Facts → Option (List Hypothesis) → Bool
  is_supported_write facts none = false
  is_supported_write facts (some hs) =
      facts.configuration_evidence_complete
      && not facts.business_failed
      && not facts.has_runtime_faults
      && any (λ h. h.is_supported && is_subset facts.configuration_evidence_ids h.evidence_ids) hs

  assessed : State → Option DiagnosisState → Option (List Hypothesis)
  assessed state none = none
  assessed state (some d) = hypotheses d state

  -- Whether the action is in `get_allowed_remediation_actions(state)`.
  unfoldable pub is_allowed : State → Action → Bool
  unfolding has_grounded_selector is_supported_write assessed
  is_allowed state action =
      category_allows (elim (diagnosis_in state) [ none ↦ none | some d ↦ d.fault_category ]) action
      && elim action [
        | Action.manual_investigation ↦ true
        | Action.patch_readiness_probe ↦
            (diagnostic_facts state).readiness_patch_supported
            && is_supported_write (diagnostic_facts state) (assessed state (diagnosis_in state))
        | Action.patch_service_selector ↦
            has_grounded_selector state (matched_profile state)
            && is_supported_write (diagnostic_facts state) (assessed state (diagnosis_in state))
      ]

  unfoldable pub validate_text_has_no_commands : RemediationPlan → Outcome (Unit {0})
  validate_text_has_no_commands plan =
      raise_if
        (any has_command (
          plan.summary ∷ plan.expected_result ∷ plan.rollback_plan
          ∷ plan.parameters.investigation_steps))
        (value_error "remediation plan contains a forbidden shell command token")

  unfoldable pub validate_readiness_patch : RemediationPlan → State → Outcome (Unit {0})
  unfolding first_item find_container_data
  validate_readiness_patch plan state =
      let p = plan.parameters in
      do
        raise_if (not (same p.resource_kind ResourceKind.deployment))
            (value_error "readiness patch target must be a Deployment")
        raise_if (not (is_given p.container_name))
            (value_error "readiness patch requires container_name")
        raise_if (not (is_given p.current_probe_path))
            (value_error "readiness patch requires current probe path")
        raise_if (not (is_given p.proposed_probe_path))
            (value_error "readiness patch requires proposed probe path")
        raise_if (not (is_absolute (get_or p.proposed_probe_path "")))
            (value_error "proposed probe path must start with '/'")
        raise_if (has_space (get_or p.proposed_probe_path ""))
            (value_error "proposed probe path must not contain whitespace")
        e ← first_item (find_evidence state "Deployment" p.resource_name)
        c ← find_container_data p.container_name e.content.containers
        raise_if (not (same_text c.probe_path p.current_probe_path))
            (value_error "current probe path does not match evidence")
        raise_if (not (same_opt_port c.probe_port p.current_probe_port))
            (value_error "current probe port does not match evidence")
        raise_if
            (same_text p.current_probe_path p.proposed_probe_path
              && same_opt_port p.current_probe_port p.proposed_probe_port)
            (value_error "proposed probe configuration does not change current configuration")

  -- `except ValueError`
  bound_plan : Outcome RemediationPlan → Outcome (Unit {0})
  bound_plan (ok plan) = ok tt
  bound_plan (raised e) = raised e

  unfoldable pub check_identity : RemediationPlan → State → Outcome (Unit {0})
  unfolding bound_plan
  check_identity plan state =
      if is_some plan.target_uid then bound_plan (bind_target size plan state) else ok tt

  -- What only a write must pass.
  unfoldable pub validate_write : RemediationPlan → State → Outcome (Unit {0})
  validate_write plan state = if is_manual plan.action then ok tt else (do
    raise_if (not (is_subset (diagnostic_facts state).configuration_evidence_ids plan.evidence_ids))
        (value_error "write plan must cite Service and registered Deployment configuration")
    raise_if (is_empty plan.runbook_ids)
        (value_error "write plan requires a retrieved runbook reference")
    validate_profile_action state plan)

  unfoldable pub validate_action : Action → RemediationPlan → State → Outcome (Unit {0})
  unfolding validate_manual_investigation validate_readiness_patch validate_selector_patch
  validate_action Action.manual_investigation plan state = validate_manual_investigation plan
  validate_action Action.patch_readiness_probe plan state = validate_readiness_patch plan state
  validate_action Action.patch_service_selector plan state = validate_selector_patch plan state

  unfoldable pub validate_remediation_plan : RemediationPlan → State → Outcome RemediationPlan
  unfolding is_allowed validate_references validate_target check_identity
      validate_text_has_no_commands validate_action_metadata validate_write validate_action
  validate_remediation_plan plan state = do
    raise_if (not (is_allowed state plan.action))
        (value_error "remediation action is not allowed or not grounded for fault category")
    validate_references plan state
    validate_target plan state
    check_identity plan state
    validate_text_has_no_commands plan
    validate_action_metadata plan
    validate_write plan state
    validate_action plan.action plan state
    ok plan
