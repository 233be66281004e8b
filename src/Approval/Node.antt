-- ===== src/Approval/Node.antt =====
-- `request_human_approval` of backend/app/agent/nodes.py: the decision of a human enters the state. The
-- entries that it appends to `errors` and `trace` are left out.
use k8s_incident_agent.Prelude.{Bool, not, Option, none, some, String, if◌then◌else◌}
use k8s_incident_agent.Outcome.{Outcome, ok, raised, ◌>>=◌, ◌>>◌, raise_if, value_error}
use k8s_incident_agent.Schemas.{
  Raw, parsed, ApprovalRequest, ApprovalDecision, ApprovalRecord, State,
}
use k8s_incident_agent.Equality.{same}
use k8s_incident_agent.PlanEquality.{request_equality}
use k8s_incident_agent.Approval.{
  Digests, load, build_approval_request, validate_approval_decision, create_approval_record,
  load_existing_approval_record,
}

-- The update of a failure; `approved` is kept.
abbrev pub with_failure : State → State
with_failure state = record state {
  phase = some "approval_failed";
  approval_status = some "failed";
}

-- The same with `approved` None.
abbrev pub without_decision : State → State
without_decision state = record (with_failure state) { approved = none }

abbrev pub status_word : Bool → String
status_word approved = if approved then "approved" else "rejected"

abbrev pub phase_word : Bool → String
phase_word approved = if approved then "approval_approved" else "approval_rejected"

unfoldable pub with_record : State → ApprovalRequest → ApprovalRecord → State
with_record state request r = record state {
  phase = some (phase_word r.approved);
  approval_status = some (status_word r.approved);
  approval_request = parsed request;
  approval_record = parsed r;
  approved = some r.approved;
}

unfoldable pub after_decision :
    State → ApprovalRequest → (decided_at : String) → Outcome ApprovalDecision → State
unfolding with_record
after_decision state request decided_at (raised e) = without_decision state
after_decision state request decided_at (ok decision) =
    with_record state request (create_approval_record request decision decided_at)

-- `resume_value` is what `interrupt` returns when the run is resumed.
unfoldable pub after_request :
    State → Raw ApprovalDecision → (decided_at : String) → Outcome ApprovalRequest → State
unfolding after_decision
after_request state resume_value decided_at (raised e) = without_decision state
after_request state resume_value decided_at (ok request) =
    after_decision state request decided_at (validate_approval_decision resume_value request)

module _ (digests : Digests) where
  -- The request that the state has, if it is the one that is built again.
  unfoldable pub expected_request : State → Outcome ApprovalRequest
  expected_request state = do
    expected ← build_approval_request digests state
    stored ← load "approval_request" "approval_request" state.approval_request
    raise_if (not (same stored expected))
        (value_error "stored approval request does not match remediation plan")
    ok expected

  unfoldable pub after_loading :
      State → Raw ApprovalDecision → (decided_at : String) → Outcome (Option ApprovalRecord) → State
  unfolding after_request expected_request
  after_loading state resume_value decided_at (raised e) = with_failure state
  after_loading state resume_value decided_at (ok (some r)) = record state {
    phase = some (phase_word r.approved);
    approval_status = some (status_word r.approved);
    approved = some r.approved;
  }
  after_loading state resume_value decided_at (ok none) =
      after_request state resume_value decided_at (expected_request state)

  unfoldable pub request_human_approval :
      State → Raw ApprovalDecision → (decided_at : String) → State
  unfolding after_loading
  request_human_approval state resume_value decided_at =
      after_loading state resume_value decided_at (load_existing_approval_record state)
