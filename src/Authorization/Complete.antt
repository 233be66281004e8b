-- ===== src/Authorization/Complete.antt =====
-- From the approval of a human to the authorisation of backend/app/agent/execution_policy.py.
use k8s_incident_agent.Prelude.{
  ◌≡◌, refl, ap, ◌∙◌, true, false, not, some, String, str_eq, arith, ◌⊎◌, inl, inr, Bool-cases,
}
use k8s_incident_agent.Outcome.{Outcome, ok, raised, >>=-eq-ok, value_error}
use k8s_incident_agent.Schemas.{
  Raw, absent, parsed, RemediationPlan, ApprovalRequest, ApprovalDecision, State,
}
use k8s_incident_agent.Equality.{string_equality, option_equality}
use k8s_incident_agent.PlanEquality.{
  action_equality, kind_equality, plan_equality, request_equality,
}
use k8s_incident_agent.Approval.{
  Digests, load, validate_approval_decision, create_approval_record, loaded_record,
  load_existing_approval_record,
}
use k8s_incident_agent.Approval.Node.{
  request_human_approval, after_loading, after_request, after_decision, with_record,
  expected_request, phase_word,
}
use k8s_incident_agent.Authorization.{validate_approved_state, validate_execution_authorization}
use k8s_incident_agent.Passing.{passed}
use k8s_incident_agent.Authorization.Checks.{load-parsed}

-- The phase of the state is not the one of an approval.
abbrev IsUnapproved : State → Type 0
IsUnapproved state =
    (phase : String) × (state.phase ≡ some phase) × (str_eq phase "approval_approved" ≡ false)

decision-IsUnapproved :
    (state : State) (request : ApprovalRequest) (decided_at : String) (x : Outcome ApprovalDecision)
    → ((decision : ApprovalDecision) × (x ≡ ok decision) × (decision.approved ≡ true))
      ⊎ IsUnapproved (after_decision state request decided_at x)
unfolding after_decision with_record create_approval_record
decision-IsUnapproved state request decided_at (raised e) = inr ("approval_failed", refl, refl)
decision-IsUnapproved state request decided_at (ok decision) = elim (Bool-cases decision.approved) [
  | inl granted ↦ inl (decision, refl, granted)
  | inr rejected ↦ inr (phase_word decision.approved, refl, rw rejected refl)
]

validated_parsed :
    (value : Raw ApprovalDecision) (request : ApprovalRequest) (decision : ApprovalDecision)
    → validate_approval_decision value request ≡ ok decision
    → value ≡ parsed decision
unfolding validate_approval_decision
validated_parsed value request decision h =
    let (d, loaded, h1) = >>=-eq-ok (load _ _ value) _ h in
    let (same_id, h2) = passed (not (str_eq d.approval_id request.approval_id)) _ _ h1 in
    let same_decision : d ≡ decision = ground (arith, h2) in
    load-parsed _ _ value d loaded ∙ ap parsed same_decision

request-IsUnapproved :
    (state : State) (resume_value : Raw ApprovalDecision) (decided_at : String)
    (x : Outcome ApprovalRequest)
    → ((decision : ApprovalDecision) × (resume_value ≡ parsed decision)
        × (decision.approved ≡ true))
      ⊎ IsUnapproved (after_request state resume_value decided_at x)
unfolding after_request
request-IsUnapproved state resume_value decided_at (raised e) = inr ("approval_failed", refl, refl)
request-IsUnapproved state resume_value decided_at (ok request) =
    elim (decision-IsUnapproved state request decided_at
      (validate_approval_decision resume_value request)) [
        | inl (decision, valid, granted) ↦
            inl (decision, validated_parsed resume_value request decision valid, granted)
        | inr unapproved ↦ inr unapproved
      ]

-- The node without an earlier record.
pub undecided :
    (digests : Digests) (state : State) (resume_value : Raw ApprovalDecision) (decided_at : String)
    → state.approval_record ≡ absent
    → request_human_approval digests state resume_value decided_at
      ≡ after_request state resume_value decided_at (expected_request digests state)
unfolding request_human_approval after_loading load_existing_approval_record loaded_record
undecided digests state resume_value decided_at missing =
    ap (λ raw. after_loading digests state resume_value decided_at (loaded_record raw)) missing

module _ (digests : Digests) (revalidate : RemediationPlan → State → Outcome (Unit {0})) where
  refused_phase :
      (state : State) (phase : String)
      → state.phase ≡ some phase
      → str_eq phase "approval_approved" ≡ false
      → validate_execution_authorization digests revalidate state
        ≡ raised (value_error "workflow phase is not approval_approved")
  unfolding validate_execution_authorization validate_approved_state
  refused_phase state phase e h = rw e (rw h refl)

  -- If no decision is recorded yet, then after the approval's node either the value that resumed it
  -- is a decision that approves, or the authorisation raises that the phase is not the approved one.
  pub approval_needed :
      (state : State) (resume_value : Raw ApprovalDecision) (decided_at : String)
      → state.approval_record ≡ absent
      → ((decision : ApprovalDecision) × (resume_value ≡ parsed decision)
          × (decision.approved ≡ true))
        ⊎ (validate_execution_authorization digests revalidate
              (request_human_approval digests state resume_value decided_at)
            ≡ raised (value_error "workflow phase is not approval_approved"))
  approval_needed state resume_value decided_at missing =
      elim (request-IsUnapproved state resume_value decided_at (expected_request digests state)) [
        | inl granted ↦ inl granted
        | inr (phase, at_phase, other) ↦ inr (
            ap (validate_execution_authorization digests revalidate)
              (undecided digests state resume_value decided_at missing)
            ∙ refused_phase
                (after_request state resume_value decided_at (expected_request digests state)) phase
                at_phase other)
      ]
