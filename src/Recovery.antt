-- ===== src/Recovery.antt =====
-- backend/app/runtime/recovery.py: what a worker does with a run whose worker was lost, by what is saved.
pub mod Fitting
mod Examples
use k8s_incident_agent.Prelude.{
  ℕ, Bool, true, false, not, ◌&&◌, ◌||◌, Option, none, some, List, [], ◌∷◌, ◌++◌, String, str_eq,
  ◌==◌, if◌then◌else◌, any, all, is_some, get_or, or_else, equals, says, is_empty,
}
use k8s_incident_agent.Database.{Key, Doc, OperationState, Approval, Operation}
use k8s_incident_agent.Target.{same_text, is_given}
use k8s_incident_agent.Equality.{
  same, nat_equality, string_equality, option_equality, list_equality,
}
use k8s_incident_agent.Approval.{is_true}

pub record Question : Type 0 where
  pub question_id : Option Key
  pub version : Option ℕ

pub record UserAnswer : Type 0 where
  pub answers : Question
  pub message_id : Option Key
  pub document : Doc

-- The columns of the run that are read. `context_snapshot` is none where it is no dictionary.
pub record SavedRun : Type 0 where
  pub run_id : Key
  pub incident_id : Key
  pub workflow_version : String
  pub input_payload : Doc
  pub input_sha256 : Key
  pub context_snapshot : Option Doc
  pub context_sha256 : Option Key
  pub checkpoint_started : Bool
  pub approval_payload : Option Approval
  pub answer_payload : Option UserAnswer
  pub last_error_code : Option String

-- The keys of the checkpoint's values that are read. `document` is the whole.
pub record Values : Type 0 where
  pub document : Doc
  pub incident_id : Option Key
  pub run_id : Option Key
  pub request : Option Doc
  pub round_context : Option Doc
  pub workflow_version : Option String
  pub approval_request_id : Option Key
  pub action_result : Option Doc
  pub approved : Option Bool
  pub approval_status : Option String
  pub requires_approval : Option Bool
  pub phase : Option String
  pub question : Question
  pub clarification_answers : List Doc
  pub answer_messages : List (Option Key)

pub record Task : Type 0 where
  pub name : Option String
  pub has_interrupts : Bool
  pub has_error : Bool

-- The checkpoint of the graph library; `has_values` tells whether the values are not empty.
pub record Snapshot : Type 0 where
  pub has_values : Bool
  pub values : Values
  pub pending : List String
  pub tasks : List Task
  pub checkpoint_id : Option String

pub data RecoveryDecision : Type 0 where
  start continue resume resume_user : RecoveryDecision
  stop : (status : String) → (error_code : Option String) → RecoveryDecision

-- `if test: return stop(status, code)`
abbrev pub stop_if : Bool → String → Option String → RecoveryDecision → RecoveryDecision
stop_if true status code rest = stop status code
stop_if false status code rest = rest

abbrev pub dialogue_workflow : String
dialogue_workflow = "incident-dialogue-v1"

abbrev pub investigation_workflow : String
investigation_workflow = "incident-investigation-v1"

abbrev pub has_name : String → List String → Bool
has_name name names = any (str_eq name) names

abbrev pub is_round : String → Bool
is_round version =
    has_name version ("incident-round-v1" ∷ dialogue_workflow ∷ investigation_workflow ∷ [])

abbrev pub is_investigation : String → Bool
is_investigation version = str_eq version investigation_workflow

abbrev pub read_only_nodes : List String
read_only_nodes =
    "validate_request" ∷ "plan_collection" ∷ "collect_evidence" ∷ "retrieve_runbooks"
    ∷ "diagnose_incident" ∷ "plan_remediation" ∷ "skip_remediation" ∷ "prepare_approval"
    ∷ "request_human_approval" ∷ "finish_failure" ∷ "prepare_clarification" ∷ "await_user_input"
    ∷ []

abbrev pub investigation_nodes : List String
investigation_nodes =
    "initialize" ∷ "decide" ∷ "collect" ∷ "await_investigation_input" ∷ "project_investigation"
    ∷ "prepare_approval" ∷ "request_human_approval" ∷ []

abbrev pub write_nodes : List String
write_nodes = "execute_remediation" ∷ "verify_recovery" ∷ []

-- `saved and saved["decision"].get("approved")`
abbrev pub is_granted : Option Approval → Bool
is_granted none = false
is_granted (some a) = a.approved

unfoldable pub allowed_nodes : SavedRun → List String
allowed_nodes run =
    (if is_investigation run.workflow_version then investigation_nodes else read_only_nodes)
    ++ (if is_granted run.approval_payload then write_nodes else [])

abbrev pub is_in_flight : Option Operation → Bool
is_in_flight none = false
is_in_flight (some o) = elim o.state [
  | OperationState.dispatching ↦ true
  | OperationState.outcome_unknown ↦ true
  | OperationState.manual_required ↦ true
  | _ ↦ false
]

-- The operation has ended with the result that the checkpoint has.
abbrev pub is_ended : Option Operation → Option Doc → Bool
is_ended none result = false
is_ended (some o) result =
    elim o.state [
      | OperationState.succeeded ↦ true
      | OperationState.reconciled ↦ true
      | OperationState.rejected ↦ true
      | _ ↦ false
    ]
    && same result o.result

-- The operation has written.
abbrev pub is_written : Option Operation → Bool
is_written none = false
is_written (some o) = elim o.state [
  | OperationState.succeeded ↦ true
  | OperationState.reconciled ↦ true
  | _ ↦ false
]

-- The checkpoint has written, or may go on to write.
unfoldable pub is_writing : Snapshot → Bool
is_writing snapshot =
    let v = snapshot.values in
    is_some v.action_result
    || is_true v.approved
    || says v.approval_status "approved"
    || any (λ name. has_name name write_nodes) snapshot.pending

-- A result, or a verification to come.
unfoldable pub is_past_write : Snapshot → Bool
is_past_write snapshot =
    is_some snapshot.values.action_result || has_name "verify_recovery" snapshot.pending

-- str(state.get("phase") or "unknown")
abbrev pub phase_in : Values → String
phase_in v = if is_given v.phase then get_or v.phase "" else "unknown"

-- The approval that is saved is not for this state.
unfoldable pub is_unbound : Key → Values → Option Approval → Bool
is_unbound binding v none = false
is_unbound binding v (some a) =
    not (a.binding == binding) || not (equals v.approval_request_id a.approval_id)

-- The reply that was not yet taken in.
unfoldable pub open_answer : SavedRun → Values → Option UserAnswer
open_answer run v = elim run.answer_payload [
  | none ↦ none
  | some a ↦
      if any (λ d. d == a.document) v.clarification_answers
        || is_investigation run.workflow_version && any (λ m. same m a.message_id) v.answer_messages
      then none
      else some a
]

-- The checkpoint of a round is not of the run's context.
unfoldable pub is_other_context : SavedRun → Values → Bool
is_other_context run v =
    is_round run.workflow_version
    && (not (same v.round_context run.context_snapshot) || not (equals v.run_id run.run_id))

-- The checkpoint of an investigation is of another workflow.
unfoldable pub is_other_workflow : SavedRun → Snapshot → Bool
is_other_workflow run snapshot =
    is_investigation run.workflow_version
    && not (says snapshot.values.workflow_version investigation_workflow)
    && (not (same snapshot.pending ("initialize" ∷ [])) || is_some snapshot.values.workflow_version)

-- digest is `request_digest`, binding_of `approval_binding`, ends_with str.endswith.
module _ (digest : Doc → Key) (binding_of : Values → Key) (ends_with : String → String → Bool) where
  unfoldable pub is_corrupt : SavedRun → Bool
  is_corrupt run =
      not (str_eq run.workflow_version "incident-v1" || is_round run.workflow_version)
      || not (digest run.input_payload == run.input_sha256)

  unfoldable pub is_context_corrupt : SavedRun → Bool
  is_context_corrupt run =
      is_round run.workflow_version
      && not (elim run.context_snapshot [
        | none ↦ false
        | some c ↦ equals run.context_sha256 (digest c)
      ])

  unfoldable pub answered_by : Values → Option UserAnswer → RecoveryDecision
  answered_by v none = stop "waiting_user" none
  answered_by v (some a) =
      stop_if
        (not (
          same a.answers.question_id v.question.question_id
          && same a.answers.version v.question.version))
        "failed" (some "QUESTION_VERSION_MISMATCH") resume_user

  -- A human is asked.
  unfoldable pub interrupted : SavedRun → Snapshot → String → RecoveryDecision
  unfolding answered_by open_answer
  interrupted run snapshot phase =
      let v = snapshot.values in
      let human_node =
        if is_investigation run.workflow_version
        then "await_investigation_input"
        else "await_user_input" in
      if has_name run.workflow_version (dialogue_workflow ∷ investigation_workflow ∷ [])
        && str_eq phase "waiting_user"
        && same snapshot.pending (human_node ∷ [])
      then answered_by v (open_answer run v)
      else if str_eq phase "awaiting_approval" && says v.approval_status "pending"
      then (if is_some run.approval_payload && same snapshot.pending ("request_human_approval" ∷ [])
          then resume
          else stop "waiting_approval" none)
      else stop "waiting_user" (some "NEEDS_INPUT")

  -- No node is left.
  unfoldable pub finished : SavedRun → Values → Option Operation → String → RecoveryDecision
  finished run v operation phase =
      if is_some run.approval_payload
        && not (is_granted run.approval_payload)
        && str_eq phase "approval_rejected"
      then stop "succeeded" none
      else if is_written operation && str_eq phase "verification_succeeded"
      then stop "succeeded" none
      else if str_eq phase "remediation_skipped"
          || str_eq phase "remediation_planned" && not (is_true v.requires_approval)
      then stop "succeeded" none
      else stop "failed" (some "WORKFLOW_FAILED")

  -- Nodes are left.
  unfoldable pub pended : SavedRun → Snapshot → RecoveryDecision
  unfolding allowed_nodes
  pended run snapshot =
      let allowed = allowed_nodes run in
      stop_if
        (not (is_given snapshot.checkpoint_id)
          || not (all (λ name. has_name name allowed) snapshot.pending))
        "failed" (some "UNSUPPORTED_PENDING_TASK")
        (stop_if
          (any (λ t. not (elim t.name [ none ↦ false | some name ↦ has_name name allowed ]))
            snapshot.tasks)
          "failed" (some "UNSUPPORTED_PENDING_TASK")
          (stop_if
            (any (λ t. t.has_error) snapshot.tasks
              && not (says run.last_error_code "DEPENDENCY_TEMPORARY"))
            "failed" (some "PENDING_TASK_FAILED") continue))

  unfoldable pub proceed_from : SavedRun → Snapshot → Option Operation → RecoveryDecision
  unfolding interrupted finished pended
  proceed_from run snapshot operation =
      let phase = phase_in snapshot.values in
      if any (λ t. t.has_interrupts) snapshot.tasks
      then interrupted run snapshot phase
      else stop_if (str_eq phase "failed" || ends_with phase "_failed") "failed"
          (some "WORKFLOW_FAILED")
          (if is_empty snapshot.pending
            then finished run snapshot.values operation phase
            else pended run snapshot)

  -- The saved state is of this run, its approval is bound to it, and no write is open.
  unfoldable pub checked : SavedRun → Snapshot → Option Operation → RecoveryDecision
  unfolding is_unbound is_writing is_past_write is_other_context is_other_workflow proceed_from
  checked run snapshot operation =
      let v = snapshot.values in
      stop_if (not (equals v.incident_id run.incident_id)) "failed"
        (some "CHECKPOINT_IDENTITY_MISMATCH")
        (stop_if (not (equals v.request run.input_payload)) "failed"
          (some "CHECKPOINT_INPUT_MISMATCH")
          (stop_if (is_other_context run v) "failed" (some "CHECKPOINT_INPUT_MISMATCH") (
            stop_if (is_other_workflow run snapshot) "failed" (some "CHECKPOINT_WORKFLOW_MISMATCH")
              (stop_if (is_unbound (binding_of v) v run.approval_payload) "failed"
                (some "APPROVAL_BINDING_MISMATCH")
                (stop_if (is_in_flight operation) "reconciling" (some "OPERATION_MANUAL_REQUIRED") (
                  stop_if (is_writing snapshot && not (is_granted run.approval_payload))
                    "reconciling" (some "WRITE_REQUIRES_RECONCILIATION")
                    (stop_if
                      (is_writing snapshot
                        && is_past_write snapshot
                        && not (is_ended operation v.action_result))
                      "reconciling" (some "OPERATION_RESULT_MISMATCH")
                      (proceed_from run snapshot operation))))))))

  abbrev pub is_nothing_saved : Snapshot → Bool
  is_nothing_saved snapshot =
      not snapshot.has_values
      && is_empty snapshot.pending
      && not (is_given snapshot.checkpoint_id)
      && is_empty snapshot.tasks

  unfoldable pub classify : SavedRun → Snapshot → Option Operation → RecoveryDecision
  unfolding is_corrupt is_context_corrupt checked
  classify run snapshot operation =
      stop_if (is_corrupt run) "failed" (some "UNSUPPORTED_OR_CORRUPT_INPUT") (
        stop_if (is_context_corrupt run) "failed" (some "UNSUPPORTED_OR_CORRUPT_INPUT") (
          if is_nothing_saved snapshot
          then stop_if run.checkpoint_started "failed" (some "CHECKPOINT_MISSING") start
          else checked run snapshot operation))
