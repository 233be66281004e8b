-- ===== src/Authorization/Sound.antt =====
-- What an authorisation of backend/app/agent/execution_policy.py says of the state.
use k8s_incident_agent.Prelude.{
  ◌≡◌, refl, sym, ap, ◌∙◌, subst, Bool, true, false, not, ◌||◌, Option, none, some, String, str_eq,
  eq_iff, arith, ◌⊎◌, inl, inr,
}
use k8s_incident_agent.Outcome.{Outcome, ok, raised, >>=-eq-ok, value_error}
use k8s_incident_agent.Schemas.{
  Raw, absent, invalid, parsed, RemediationPlan, ApprovalRequest, ApprovalRecord,
  ActionExecutionResult, State,
}
use k8s_incident_agent.Equality.{same, string_equality, option_equality}
use k8s_incident_agent.PlanEquality.{
  action_equality, kind_equality, plan_equality, request_equality,
}
use k8s_incident_agent.Approval.{
  Digests, is_true, is_manual, safe_namespace, load, incident_id_of, build_approval_request,
  check_request,
}
use k8s_incident_agent.Authorization.{
  ExecutionAuthorization, validate_approved_state, load_previous_result, rebuilt, revalidated,
  was_completed, validate_previous_result, already, check_binding, build_execution_id,
  validate_approval_binding, validate_execution_authorization,
}
use k8s_incident_agent.Passing.{passed, last_passed, same-eq, neither}
use k8s_incident_agent.Authorization.Checks.{
  load-parsed, IsApproved, approved_inv, IsBound, binding_inv,
}

-- The state's result, if it has one, is a completed one of the same execution.
pub record IsCompleted (result : ActionExecutionResult) (auth : ExecutionAuthorization)
    : Type 0 where
  pub same_execution : result.execution_id ≡ auth.execution_id
  pub same_approval : result.approval_id ≡ auth.approval_id
  pub same_action : result.action ≡ auth.plan.action
  pub same_target :
      (result.namespace ≡ auth.plan.parameters.namespace)
      × (result.resource_kind ≡ auth.plan.parameters.resource_kind)
      × (result.resource_name ≡ auth.plan.parameters.resource_name)
  pub is_final : was_completed result.status ≡ true

-- Whether the write was executed before is what the state's result says.
abbrev pub IsRemembered : State → ExecutionAuthorization → Type 0
IsRemembered state auth =
    ((auth.already_executed ≡ false) × (state.action_result ≡ absent))
    ⊎ ((auth.already_executed ≡ true)
        × ((result : ActionExecutionResult) × (state.action_result ≡ parsed result)
            × IsCompleted result auth))

-- What authorises a write.
pub record IsAuthorized (digests : Digests)
    (revalidate : RemediationPlan → State → Outcome (Unit {0})) (state : State)
    (auth : ExecutionAuthorization) : Type 0 where
  pub approved : IsApproved state
  pub has_plan : state.remediation_plan ≡ parsed auth.plan
  pub has_request : state.approval_request ≡ parsed auth.approval_request
  pub has_record : state.approval_record ≡ parsed auth.approval_record
  pub bound :
      IsBound (incident_id_of digests state) auth.plan auth.approval_request auth.approval_record
  -- The request is the one that the state as it is now would ask for.
  pub unchanged : build_approval_request digests state ≡ ok auth.approval_request
  pub is_write : is_manual auth.plan.action ≡ false
  pub in_namespace : auth.plan.parameters.namespace ≡ safe_namespace
  pub is_valid : revalidate auth.plan state ≡ ok tt
  pub identified : build_execution_id digests revalidate auth.approval_id ≡ ok auth.execution_id
  pub named :
      (auth.approval_id ≡ auth.approval_request.approval_id)
      × (auth.incident_id ≡ incident_id_of digests state)
  pub remembered : IsRemembered state auth

rebuilt_inv : (x : Outcome ApprovalRequest) (r : ApprovalRequest) → rebuilt x ≡ ok r → x ≡ ok r
unfolding rebuilt
rebuilt_inv (ok a) r h = h
rebuilt_inv (raised (value_error message)) r h = cc
rebuilt_inv (raised e) r h = cc

revalidated_inv : (x : Outcome (Unit {0})) (u : Unit {0}) → revalidated x ≡ ok u → x ≡ ok tt
unfolding revalidated
revalidated_inv (ok unit) u h = refl
revalidated_inv (raised (value_error message)) u h = cc
revalidated_inv (raised e) u h = cc

-- The target of every request is in the namespace of the demonstration.
build-namespace :
    (digests : Digests) (state : State) (plan : RemediationPlan) (r : ApprovalRequest)
    → state.remediation_plan ≡ parsed plan
    → build_approval_request digests state ≡ ok r
    → plan.parameters.namespace ≡ safe_namespace
unfolding build_approval_request check_request
build-namespace digests state plan r has h =
    let (given, h1) = passed (str_eq (incident_id_of digests state) "") _ _ h in
    let (p, loaded, h2) = >>=-eq-ok (load _ _ state.remediation_plan) _ h1 in
    let (u, checked, h3) = >>=-eq-ok (check_request state p) _ h2 in
    let same_plan : plan ≡ p =
      ground (arith, has, load-parsed _ _ state.remediation_plan p loaded) in
    let (needs, h4) = passed (not (is_true state.requires_approval)) _ _ checked in
    let (plan_needs, h5) = passed (not p.requires_approval) _ _ h4 in
    let (write, h6) = passed (is_manual p.action) _ _ h5 in
    let in_p =
      (eq_iff p.parameters.namespace safe_namespace).0 (ground (arith, last_passed _ _ h6)) in
    ap (λ (x : RemediationPlan). x.parameters.namespace) same_plan ∙ in_p

result-IsCompleted :
    (result : ActionExecutionResult) (execution_id : String) (request : ApprovalRequest)
    (plan : RemediationPlan) (b : Bool) (auth : ExecutionAuthorization)
    → validate_previous_result result execution_id request plan ≡ ok b
    → (auth.execution_id ≡ execution_id)
      × (auth.approval_id ≡ request.approval_id)
      × (auth.plan ≡ plan)
    → (b ≡ true) × IsCompleted result auth
unfolding validate_previous_result
result-IsCompleted result execution_id request plan b auth h (of_execution, of_approval, of_plan) =
    let (executions, h1) = passed (not (same result.execution_id execution_id)) _ _ h in
    let (approvals, h2) = passed (not (same result.approval_id request.approval_id)) _ _ h1 in
    let (actions, h3) = passed (not (same result.action plan.action)) _ _ h2 in
    let (targets, h4) =
      passed
        (not (same result.namespace plan.parameters.namespace)
          || not (same result.resource_kind plan.parameters.resource_kind)
          || not (same result.resource_name plan.parameters.resource_name))
        _ _ h3 in
    let (final, h5) = passed (not (was_completed result.status)) _ _ h4 in
    let (rest, names) = neither _ _ targets in
    let (namespaces, kinds) = neither _ _ rest in
    let back = sym of_plan in
    (
      ground (arith, h5),
      record {
        same_execution = same-eq result.execution_id execution_id executions ∙ sym of_execution;
        same_approval = same-eq result.approval_id request.approval_id approvals ∙ sym of_approval;
        same_action =
            same-eq result.action plan.action actions ∙ ap (λ (x : RemediationPlan). x.action) back;
        same_target = (
          same-eq result.namespace plan.parameters.namespace namespaces
              ∙ ap (λ (x : RemediationPlan). x.parameters.namespace) back,
          same-eq result.resource_kind plan.parameters.resource_kind kinds
              ∙ ap (λ (x : RemediationPlan). x.parameters.resource_kind) back,
          same-eq result.resource_name plan.parameters.resource_name names
              ∙ ap (λ (x : RemediationPlan). x.parameters.resource_name) back,
        );
        is_final = ground (arith, final);
      },
    )

loaded_inv :
    (raw : Raw ActionExecutionResult) (o : Option ActionExecutionResult)
    → load_previous_result raw ≡ ok o
    → ((o ≡ none) × (raw ≡ absent))
      ⊎ ((result : ActionExecutionResult) × (o ≡ some result) × (raw ≡ parsed result))
unfolding load_previous_result
loaded_inv absent o h = inl (ground (arith, h), refl)
loaded_inv (invalid message) o h = cc
loaded_inv (parsed result) o h = inr (result, ground (arith, h), refl)

previous_inv :
    (state : State) (o : Option ActionExecutionResult) (auth : ExecutionAuthorization)
    → load_previous_result state.action_result ≡ ok o
    → already o auth.execution_id auth.approval_request auth.plan ≡ ok auth.already_executed
    → auth.approval_id ≡ auth.approval_request.approval_id
    → IsRemembered state auth
unfolding already
previous_inv state o auth loaded h named = elim (loaded_inv state.action_result o loaded) [
  | inl (nothing, missing) ↦
      let first : ok false ≡ ok auth.already_executed =
        subst
          (λ x.
            already x auth.execution_id auth.approval_request auth.plan ≡ ok auth.already_executed)
          nothing h in
      inl (ground (arith, first), missing)
  | inr (result, there, saved) ↦
      let first =
        subst
          (λ x.
            already x auth.execution_id auth.approval_request auth.plan ≡ ok auth.already_executed)
          there h in
      let c =
        result-IsCompleted result auth.execution_id auth.approval_request auth.plan
          auth.already_executed auth first (refl, named, refl) in
      inr (c.0, (result, saved, c.1))
]

module _ (digests : Digests) (revalidate : RemediationPlan → State → Outcome (Unit {0})) where
  bound_inv :
      (state : State) (plan : RemediationPlan) (request : ApprovalRequest) (r : ApprovalRecord)
      (u : Unit {0})
      → validate_approval_binding digests revalidate state plan request r ≡ ok u
      → (check_binding (incident_id_of digests state) plan request r ≡ ok tt)
        × (build_approval_request digests state ≡ ok request)
  unfolding validate_approval_binding
  bound_inv state plan request r u h =
      let (v, checked, h1) =
        >>=-eq-ok (check_binding (incident_id_of digests state) plan request r) _ h in
      let (expected, built, h2) = >>=-eq-ok (rebuilt (build_approval_request digests state)) _ h1 in
      let agrees = same-eq expected request (last_passed _ _ h2) in
      (checked, rebuilt_inv (build_approval_request digests state) expected built ∙ ap ok agrees)

  -- If the write is authorised, then the state is in its approved phase, its record grants the request,
  -- the request is for the plan of the state and is the one that the state would ask for now, the plan
  -- writes in the namespace agent-demo and passes the policy again, and it counts as executed only
  -- where the state has the completed result of the same execution and target.
  pub authorization-IsAuthorized :
      (state : State) (auth : ExecutionAuthorization)
      → validate_execution_authorization digests revalidate state ≡ ok auth
      → IsAuthorized digests revalidate state auth
  unfolding validate_execution_authorization validate_approval_binding
  authorization-IsAuthorized state auth h =
      let (u, approved, h1) = >>=-eq-ok (validate_approved_state state) _ h in
      let (plan, has_plan, h2) = >>=-eq-ok (load _ _ state.remediation_plan) _ h1 in
      let (request, has_request, h3) = >>=-eq-ok (load _ _ state.approval_request) _ h2 in
      let (r, has_record, h4) = >>=-eq-ok (load _ _ state.approval_record) _ h3 in
      let (write, h5) = passed (is_manual plan.action) _ _ h4 in
      let (v, bound, h6) =
        >>=-eq-ok (validate_approval_binding digests revalidate state plan request r) _ h5 in
      let (w, valid, h7) = >>=-eq-ok (revalidated (revalidate plan state)) _ h6 in
      let (execution_id, identified, h8) =
        >>=-eq-ok (build_execution_id digests revalidate request.approval_id) _ h7 in
      let (previous, loaded, h9) = >>=-eq-ok (load_previous_result state.action_result) _ h8 in
      let (executed, remembered, h10) =
        >>=-eq-ok (already previous execution_id request plan) _ h9 in
      let granted : ExecutionAuthorization = record {
        execution_id = execution_id;
        approval_id = request.approval_id;
        incident_id = request.incident_id;
        plan = plan;
        approval_request = request;
        approval_record = r;
        previous_result = previous;
        already_executed = executed;
      } in
      let (checked, same_request) = bound_inv state plan request r v bound in
      let b = binding_inv (incident_id_of digests state) plan request r tt checked in
      let is_plan = load-parsed _ _ state.remediation_plan plan has_plan in
      let e : granted ≡ auth = ground (arith, h10) in
      subst (IsAuthorized digests revalidate state) e (record {
        approved = approved_inv state u approved;
        has_plan = is_plan;
        has_request = load-parsed _ _ state.approval_request request has_request;
        has_record = load-parsed _ _ state.approval_record r has_record;
        bound = b;
        unchanged = same_request;
        is_write = write;
        in_namespace = build-namespace digests state plan request is_plan same_request;
        is_valid = revalidated_inv (revalidate plan state) w valid;
        identified = identified;
        named = (refl, b.same_incident.0);
        remembered = previous_inv state previous granted loaded remembered refl;
      })
