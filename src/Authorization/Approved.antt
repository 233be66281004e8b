-- ===== src/Authorization/Approved.antt =====
-- A plan that a human approves is authorised by backend/app/agent/execution_policy.py.
use k8s_incident_agent.Prelude.{
  ◌≡◌, refl, sym, subst, ap, ◌∙◌, none, Bool, true, false, not, ◌||◌, some, String, str_eq, arith,
}
use k8s_incident_agent.Outcome.{Error, Outcome, ok, ◌>>=◌, ◌>>◌, raise_if, >>=-eq-ok}
use k8s_incident_agent.Schemas.{
  absent, parsed, RemediationPlan, ApprovalRequest, ApprovalDecision, State,
}
use k8s_incident_agent.Equality.{Equality, same, string_equality, option_equality}
use k8s_incident_agent.PlanEquality.{
  action_equality, kind_equality, plan_equality, request_equality,
}
use k8s_incident_agent.Approval.{
  Digests, is_true, is_manual, load, incident_id_of, build_approval_request, check_request,
  fingerprint, request_of, validate_approval_decision, create_approval_record,
}
use k8s_incident_agent.Approval.Node.{
  request_human_approval, after_request, after_decision, with_record, expected_request,
}
use k8s_incident_agent.Authorization.{
  ExecutionAuthorization, validate_approved_state, load_previous_result, rebuilt, revalidated,
  already, check_binding, build_execution_id, validate_approval_binding,
  validate_execution_authorization,
}
use k8s_incident_agent.Authorization.Complete.{undecided}
use k8s_incident_agent.Passing.{passed}
use k8s_incident_agent.Authorization.Checks.{load-parsed, is_true-some}

-- What `build_approval_request` has tested of the state.
record IsAskedFor (digests : Digests) (state : State) (plan : RemediationPlan)
    (request : ApprovalRequest) : Type 0 where
  is_given : str_eq (incident_id_of digests state) "" ≡ false
  is_required : state.requires_approval ≡ some true
  is_write : is_manual plan.action ≡ false
  same_plan : request.plan ≡ plan
  same_incident : request.incident_id ≡ incident_id_of digests state

asked_inv :
    (digests : Digests) (state : State) (plan : RemediationPlan) (request : ApprovalRequest)
    → state.remediation_plan ≡ parsed plan
    → build_approval_request digests state ≡ ok request
    → IsAskedFor digests state plan request
unfolding build_approval_request check_request request_of
asked_inv digests state plan request has h =
    let (given, h1) = passed (str_eq (incident_id_of digests state) "") _ _ h in
    let (p, loaded, h2) = >>=-eq-ok (load _ _ state.remediation_plan) _ h1 in
    let (u, checked, h3) = >>=-eq-ok (check_request state p) _ h2 in
    let same_plan : plan ≡ p =
      ground (arith, has, load-parsed _ _ state.remediation_plan p loaded) in
    let (needs, h4) = passed (not (is_true state.requires_approval)) _ _ checked in
    let (plan_needs, h5) = passed (not p.requires_approval) _ _ h4 in
    let (write, h6) = passed (is_manual p.action) _ _ h5 in
    let (f, made, h7) = >>=-eq-ok (fingerprint (incident_id_of digests state) p state) _ h3 in
    let e : request_of digests (incident_id_of digests state) p f ≡ request = ground (arith, h7) in
    record {
      is_given = given;
      is_required = is_true-some state.requires_approval needs;
      is_write = ap (λ (x : RemediationPlan). is_manual x.action) same_plan ∙ write;
      same_plan = sym (ap (λ (x : ApprovalRequest). x.plan) e) ∙ sym same_plan;
      same_incident = sym (ap (λ (x : ApprovalRequest). x.incident_id) e);
    }

-- A test that does not raise is passed over.
pass {ℓ} :
    {A : Type ℓ} (b : Bool) (e : Error) (rest : Outcome A)
    → b ≡ false
    → (raise_if b e >> rest) ≡ rest
pass true e rest h = ground (arith, h)
pass false e rest h = refl

last_pass : (b : Bool) (e : Error) → b ≡ false → raise_if b e ≡ ok tt
last_pass true e h = ground (arith, h)
last_pass false e h = refl

then_ok {ℓ κ} :
    {A : Type ℓ} {B : Type κ} (x : Outcome A) (a : A) (f : A → Outcome B)
    → x ≡ ok a
    → (x >>= f) ≡ f a
then_ok x a f h = rw h refl

eq-same : {A : Type 0} ⦃e : Equality A⦄ (a b : A) → a ≡ b → not (same a b) ≡ false
eq-same ⦃e⦄ a b h = rw h (rw (e.reflexive b) refl)

either-false : {a b : Bool} → a ≡ false → b ≡ false → (a || b) ≡ false
either-false h k = rw h k

-- What the node leaves after the decision.
abbrev pub decided : State → ApprovalRequest → ApprovalDecision → String → State
decided state request decision decided_at =
    with_record state request (create_approval_record request decision decided_at)

module _ (digests : Digests) (state : State) (request : ApprovalRequest)
    (decision : ApprovalDecision) (decided_at : String) where
  expected_ok :
      build_approval_request digests state ≡ ok request
      → state.approval_request ≡ parsed request
      → expected_request digests state ≡ ok request
  unfolding expected_request
  expected_ok built stored =
      then_ok (build_approval_request digests state) request _ built
      ∙ then_ok (load _ _ state.approval_request) request _ (ap (load _ _) stored)
      ∙ pass (not (same request request)) _ (ok request) (eq-same request request refl)

  decision_ok :
      decision.approval_id ≡ request.approval_id
      → validate_approval_decision (parsed decision) request ≡ ok decision
  unfolding validate_approval_decision
  decision_ok same_id =
      pass (not (str_eq decision.approval_id request.approval_id)) _ _
        (eq-same decision.approval_id request.approval_id same_id)

  node_decided :
      state.approval_record ≡ absent
      → build_approval_request digests state ≡ ok request
      → state.approval_request ≡ parsed request
      → decision.approval_id ≡ request.approval_id
      → request_human_approval digests state (parsed decision) decided_at
        ≡ decided state request decision decided_at
  unfolding after_request after_decision
  node_decided missing built stored same_id =
      undecided digests state (parsed decision) decided_at missing
      ∙ ap (after_request state (parsed decision) decided_at) (expected_ok built stored)
      ∙ ap (after_decision state request decided_at) (decision_ok same_id)

  -- The request that is rebuilt does not depend on the decision.
  rebuilt_same :
      build_approval_request digests (decided state request decision decided_at)
      ≡ build_approval_request digests state
  unfolding build_approval_request check_request fingerprint with_record
  rebuilt_same = refl

  state_approved :
      state.requires_approval ≡ some true
      → decision.approved ≡ true
      → validate_approved_state (decided state request decision decided_at) ≡ ok tt
  unfolding validate_approved_state with_record create_approval_record
  state_approved needs granted = rw needs (rw granted refl)

  binding_checked :
      (plan : RemediationPlan)
      → decision.approved ≡ true
      → IsAskedFor digests state plan request
      → check_binding
          (incident_id_of digests state)
          plan
          request
          (create_approval_record request decision decided_at)
        ≡ ok tt
  unfolding check_binding create_approval_record
  binding_checked plan granted asked =
      let incident_id = incident_id_of digests state in
      let r = create_approval_record request decision decided_at in
      pass (str_eq incident_id "") _ _ asked.is_given
      ∙ pass (not (same request.incident_id incident_id)) _ _
          (eq-same request.incident_id incident_id asked.same_incident)
      ∙ pass (not (same r.incident_id incident_id)) _ _
          (eq-same r.incident_id incident_id asked.same_incident)
      ∙ pass (not (same request.approval_id r.approval_id)) _ _
          (eq-same request.approval_id r.approval_id refl)
      ∙ pass (not r.approved) _ _ (rw granted refl)
      ∙ pass (not (same request.plan plan)) _ _ (eq-same request.plan plan asked.same_plan)
      ∙ pass
          (not (same request.plan_revision r.plan_revision)
            || not (same request.approval_revision r.approval_revision))
          _ _
          (either-false (eq-same request.plan_revision r.plan_revision refl)
            (eq-same request.approval_revision r.approval_revision refl))
      ∙ last_pass (not (same r.action plan.action)) _
          (eq-same r.action plan.action (ap (λ (x : RemediationPlan). x.action) asked.same_plan))

  -- What is authorised.
  abbrev pub granted_authorization : RemediationPlan → ExecutionAuthorization
  granted_authorization plan = record {
    execution_id = digests.execution_id_of (digests.strip request.approval_id);
    approval_id = request.approval_id;
    incident_id = request.incident_id;
    plan = plan;
    approval_request = request;
    approval_record = create_approval_record request decision decided_at;
    previous_result = none;
    already_executed = false;
  }

  module _ (revalidate : RemediationPlan → State → Outcome (Unit {0})) where
    bound_ok :
        (plan : RemediationPlan)
        → decision.approved ≡ true
        → state.remediation_plan ≡ parsed plan
        → build_approval_request digests state ≡ ok request
        → validate_approval_binding digests revalidate
            (decided state request decision decided_at)
            plan
            request
            (create_approval_record request decision decided_at)
          ≡ ok tt
    unfolding validate_approval_binding rebuilt with_record
    bound_ok plan granted has built =
        then_ok _ tt _
          (binding_checked plan granted (asked_inv digests state plan request has built))
        ∙ then_ok
            (rebuilt (build_approval_request digests (decided state request decision decided_at)))
            request _ (ap rebuilt (rebuilt_same ∙ built))
        ∙ last_pass (not (same request request)) _ (eq-same request request refl)

    decided_authorized :
        (plan : RemediationPlan)
        → decision.approved ≡ true
        → state.remediation_plan ≡ parsed plan
        → build_approval_request digests state ≡ ok request
        → state.action_result ≡ absent
        → digests.is_approval_id (digests.strip request.approval_id) ≡ true
        → revalidate plan (decided state request decision decided_at) ≡ ok tt
        → validate_execution_authorization digests revalidate
            (decided state request decision decided_at)
          ≡ ok (granted_authorization plan)
    unfolding validate_execution_authorization load_previous_result already revalidated
        build_execution_id with_record
    decided_authorized plan granted has built unexecuted id valid =
        let asked = asked_inv digests state plan request has built in
        then_ok _ tt _ (state_approved asked.is_required granted)
        ∙ then_ok (load _ _ state.remediation_plan) plan _ (ap (load _ _) has)
        ∙ pass (is_manual plan.action) _ _ asked.is_write
        ∙ then_ok _ tt _ (bound_ok plan granted has built)
        ∙ then_ok _ tt _ (ap revalidated valid)
        ∙ then_ok (build_execution_id digests revalidate request.approval_id)
            (digests.execution_id_of (digests.strip request.approval_id)) _
            (pass (not (digests.is_approval_id (digests.strip request.approval_id))) _ _
              (rw id refl))
        ∙ then_ok (load_previous_result state.action_result) none _
            (ap load_previous_result unexecuted)

-- If no decision is recorded and nothing was executed, the state holds the request that it would ask
-- for, and the node is resumed with a decision on it that approves, then the plan is authorised with
-- that request and the record of that decision, provided that the id has its form and that the policy
-- still accepts the plan.
pub approval_suffices :
    (digests : Digests) (revalidate : RemediationPlan → State → Outcome (Unit {0})) (state : State)
    (plan : RemediationPlan) (request : ApprovalRequest) (decision : ApprovalDecision)
    (decided_at : String)
    → state.remediation_plan ≡ parsed plan
    → state.approval_record ≡ absent
    → state.action_result ≡ absent
    → build_approval_request digests state ≡ ok request
    → state.approval_request ≡ parsed request
    → decision.approval_id ≡ request.approval_id
    → decision.approved ≡ true
    → digests.is_approval_id (digests.strip request.approval_id) ≡ true
    → revalidate plan (request_human_approval digests state (parsed decision) decided_at) ≡ ok tt
    → validate_execution_authorization digests revalidate
        (request_human_approval digests state (parsed decision) decided_at)
      ≡ ok (granted_authorization digests state request decision decided_at plan)
approval_suffices digests revalidate state plan request decision decided_at has undecided_yet
      unexecuted built stored same_id granted id valid =
    let node =
      node_decided digests state request decision decided_at undecided_yet built stored same_id in
    ap (validate_execution_authorization digests revalidate) node
    ∙ decided_authorized digests state request decision decided_at revalidate plan granted has built
        unexecuted id (subst (λ s. revalidate plan s ≡ ok tt) node valid)
