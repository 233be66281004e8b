-- ===== src/Policy/Grounded.antt =====
-- What a plan that passes `validate_remediation_plan` of backend/app/agent/remediation_policy.py rests on.
use k8s_incident_agent.Prelude.{
  ◌≡◌, refl, sym, subst, true, false, not, Option, none, some, [], String, str_eq, eq_iff, arith,
  is_some, is_empty, says, get_or, if◌then◌else◌,
}
use k8s_incident_agent.Outcome.{Outcome, ok, raised, >>=-eq-ok}
use k8s_incident_agent.Database.{Action}
use k8s_incident_agent.Schemas.{ResourceKind, RiskLevel, RemediationPlan, EvidenceItem, State}
use k8s_incident_agent.Equality.{same, string_equality}
use k8s_incident_agent.PlanEquality.{kind_equality, risk_equality}
use k8s_incident_agent.Verification.{same_labels}
use k8s_incident_agent.Passing.{passed, last_passed, says-some, same-eq, not-false}
use k8s_incident_agent.TargetIdentity.{bind_target}
use k8s_incident_agent.Approval.{is_manual, safe_namespace}
use k8s_incident_agent.Policy.{
  Grounds, has_id, is_subset, find_evidence, evidence_type, request_namespace, request_service,
  validate_references, validate_target, validate_action_metadata, label_pairs, first_item,
  validate_selector_patch, is_allowed, validate_text_has_no_commands, bound_plan, check_identity,
  validate_write, validate_action, validate_remediation_plan,
}
use k8s_incident_agent.Policy.Citations.{
  subset-has_id, CitesOnly, references-CitesOnly, IsObservedUid, bound_uid, taken, untaken,
  label_pairs_inv,
}

module _ (grounds : Grounds) where
  bound_inv :
      (o : Option String) (uid : String) (x : Outcome RemediationPlan) (u : Unit {0})
      → o ≡ some uid
      → (if is_some o then bound_plan grounds x else ok tt) ≡ ok u
      → (bound : RemediationPlan) × (x ≡ ok bound)
  unfolding bound_plan
  bound_inv none uid x u has h = ground (arith, has)
  bound_inv (some v) uid (ok bound) u has h = (bound, refl)
  bound_inv (some v) uid (raised e) u has h = cc

  identity_checked :
      (plan : RemediationPlan) (state : State) (u : Unit {0})
      → check_identity grounds plan state ≡ ok u
      → (uid : String) → plan.target_uid ≡ some uid
      → IsObservedUid plan state uid
  unfolding check_identity bound_plan
  identity_checked plan state u h uid has =
      let (bound, e) =
        bound_inv plan.target_uid uid (bind_target grounds.size plan state) u has h in
      bound_uid grounds.size plan bound state uid has e

  -- What a write needs beyond what every plan needs.
  pub record IsGroundedWrite (plan : RemediationPlan) (state : State) : Type 0 where
    pub needs_approval : plan.requires_approval ≡ true
    pub has_risk : plan.risk_level ≡ RiskLevel.medium
    pub cites_configuration :
        (k : String)
        → has_id (grounds.diagnostic_facts state).configuration_evidence_ids k ≡ true
        → has_id plan.evidence_ids k ≡ true
    pub cites_runbook : is_empty plan.runbook_ids ≡ false
    pub fits_profile : grounds.validate_profile_action state plan ≡ ok tt

  write_inv :
      (plan : RemediationPlan) (state : State) (u v : Unit {0})
      → is_manual plan.action ≡ false
      → validate_action_metadata plan ≡ ok u
      → validate_write grounds plan state ≡ ok v
      → IsGroundedWrite plan state
  unfolding validate_action_metadata validate_write
  write_inv plan state u v write metadata h =
      let tests = taken (not (is_manual plan.action)) _ _ (rw write refl) metadata in
      let (approval, m1) = passed (not plan.requires_approval) _ _ tests in
      let risk = same-eq plan.risk_level RiskLevel.medium (last_passed _ _ m1) in
      let rest = untaken (is_manual plan.action) _ _ write h in
      let (cites, h1) =
        passed
          (not (
            is_subset (grounds.diagnostic_facts state).configuration_evidence_ids
              plan.evidence_ids))
          _ _ rest in
      let (runbook, h2) = passed (is_empty plan.runbook_ids) _ _ h1 in
      record {
        needs_approval = not-false _ approval;
        has_risk = risk;
        cites_configuration = λ k m. subset-has_id _ plan.evidence_ids k (not-false _ cites) m;
        cites_runbook = runbook;
        fits_profile = h2;
      }

  -- A selector is patched only on the service of the request, from the selector that was observed.
  abbrev pub SelectsObserved : RemediationPlan → State → Type 0
  SelectsObserved plan state =
      (plan.parameters.resource_kind ≡ ResourceKind.service)
      × (request_service state ≡ some plan.parameters.resource_name)
      × ((e : EvidenceItem) × (first_item
              (find_evidence state "Service" plan.parameters.resource_name)
            ≡ ok e)
          × (same_labels plan.parameters.current_selector (get_or e.content.selector []) ≡ true))

  selector_inv :
      (plan : RemediationPlan) (state : State) (u : Unit {0})
      → validate_selector_patch plan state ≡ ok u
      → SelectsObserved plan state
  unfolding validate_selector_patch
  selector_inv plan state u h =
      let p = plan.parameters in
      let (kind, h1) = passed (not (same p.resource_kind ResourceKind.service)) _ _ h in
      let (name, h2) = passed (not (says (request_service state) p.resource_name)) _ _ h1 in
      let (current, c, h3) = >>=-eq-ok (label_pairs p.current_selector) _ h2 in
      let (proposed, d, h4) = >>=-eq-ok (label_pairs p.proposed_selector) _ h3 in
      let (given, h5) = passed (is_empty proposed) _ _ h4 in
      let (e, found, h6) =
        >>=-eq-ok (first_item (find_evidence state "Service" p.resource_name)) _ h5 in
      let agrees =
        not-false _ (last_passed (not (same_labels current (get_or e.content.selector []))) _ h6) in
      (
        same-eq p.resource_kind ResourceKind.service kind,
        says-some (request_service state) p.resource_name name,
        (
          e,
          found,
          subst (λ l. same_labels l (get_or e.content.selector []) ≡ true)
              (sym (label_pairs_inv p.current_selector current c)) agrees,
        ),
      )

  -- What a plan that passes the policy rests on.
  pub record IsGrounded (plan : RemediationPlan) (state : State) : Type 0 where
    pub allowed : is_allowed grounds state plan.action ≡ true
    pub in_namespace : plan.parameters.namespace ≡ safe_namespace
    pub is_requested : request_namespace state ≡ some plan.parameters.namespace
    pub is_collected :
        is_empty (
          find_evidence state
            (evidence_type plan.parameters.resource_kind)
            plan.parameters.resource_name)
        ≡ false
    pub cites : CitesOnly plan state
    pub has_identity : (uid : String) → plan.target_uid ≡ some uid → IsObservedUid plan state uid
    pub writes : is_manual plan.action ≡ false → IsGroundedWrite plan state
    pub selects : plan.action ≡ Action.patch_service_selector → SelectsObserved plan state

  selected :
      (action : Action) (plan : RemediationPlan) (state : State) (u : Unit {0})
      → validate_action grounds action plan state ≡ ok u
      → action ≡ Action.patch_service_selector
      → SelectsObserved plan state
  unfolding validate_action
  selected Action.patch_service_selector plan state u h e = selector_inv plan state u h
  selected Action.manual_investigation plan state u h e = ground (arith, e)
  selected Action.patch_readiness_probe plan state u h e = ground (arith, e)

  -- A plan that passes the policy is returned as it is. Its action is allowed, its target is in
  -- agent-demo and in the namespace of the request and was collected, it cites only what was collected
  -- and what the diagnosis cites, each once, and a target uid that it has is that of the one piece of
  -- evidence on the target. If it writes, it needs approval at medium risk, cites the configuration and
  -- a runbook, and fits the profile; if it patches a selector, it does so on the requested service and
  -- from the selector that was observed.
  pub validated-IsGrounded :
      (plan validated : RemediationPlan) (state : State)
      → validate_remediation_plan grounds plan state ≡ ok validated
      → (validated ≡ plan) × IsGrounded plan state
  unfolding validate_remediation_plan validate_target
  validated-IsGrounded plan validated state h =
      let (allowed, h1) = passed (not (is_allowed grounds state plan.action)) _ _ h in
      let (u1, references, h2) = >>=-eq-ok (validate_references plan state) _ h1 in
      let (u2, target, h3) = >>=-eq-ok (validate_target plan state) _ h2 in
      let (u3, identity, h4) = >>=-eq-ok (check_identity grounds plan state) _ h3 in
      let (u4, texts, h5) = >>=-eq-ok (validate_text_has_no_commands grounds plan) _ h4 in
      let (u5, metadata, h6) = >>=-eq-ok (validate_action_metadata plan) _ h5 in
      let (u6, writes, h7) = >>=-eq-ok (validate_write grounds plan state) _ h6 in
      let (u7, acts, h8) = >>=-eq-ok (validate_action grounds plan.action plan state) _ h7 in
      let (namespace, t1) =
        passed (not (str_eq plan.parameters.namespace safe_namespace)) _ _ target in
      let (requested, t2) =
        passed (not (says (request_namespace state) plan.parameters.namespace)) _ _ t1 in
      (
        ground (arith, h8),
        record {
          allowed = not-false _ allowed;
          in_namespace =
              (eq_iff plan.parameters.namespace safe_namespace).0 (not-false _ namespace);
          is_requested = says-some (request_namespace state) plan.parameters.namespace requested;
          is_collected = last_passed _ _ t2;
          cites = references-CitesOnly plan state u1 references;
          has_identity = identity_checked plan state u3 identity;
          writes = λ write. write_inv plan state u5 u6 write metadata writes;
          selects = selected plan.action plan state u7 acts;
        },
      )
