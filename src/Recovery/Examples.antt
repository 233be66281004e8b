-- ===== src/Recovery/Examples.antt =====
-- A worker was lost before the write of an approved plan.
use k8s_incident_agent.Prelude.{◌+◌, ◌≡◌, refl, Bool, true, false, none, some, [], ◌∷◌, String}
use k8s_incident_agent.Database.{Key, Doc, Approval}
use k8s_incident_agent.Recovery.{
  SavedRun, Values, Snapshot, RecoveryDecision, classify, allowed_nodes,
}
use k8s_incident_agent.Recovery.Fitting.{Fits, classify-Fits}

abbrev digest : Doc → Key
digest d = d + 1000

abbrev binding_of : Values → Key
binding_of v = v.document

abbrev never : String → String → Bool
never s t = false

abbrev saved_approval : Approval
saved_approval = record {
  approval_id = 2;
  approved = true;
  approver = 4;
  comment = 5;
  binding = 66;
}

abbrev saved_run : SavedRun
saved_run = record {
  run_id = 1;
  incident_id = 5;
  workflow_version = "incident-v1";
  input_payload = 3;
  input_sha256 = 1003;
  context_snapshot = none;
  context_sha256 = none;
  checkpoint_started = true;
  approval_payload = some saved_approval;
  answer_payload = none;
  last_error_code = none;
}

abbrev approved_values : Values
approved_values = record {
  document = 66;
  incident_id = some 5;
  run_id = some 1;
  request = some 3;
  round_context = none;
  workflow_version = none;
  approval_request_id = some 2;
  action_result = none;
  approved = some true;
  approval_status = some "approved";
  requires_approval = some true;
  phase = some "approval_approved";
  question = record { question_id = none; version = none };
  clarification_answers = [];
  answer_messages = [];
}

abbrev paused : Snapshot
paused = record {
  has_values = true;
  values = approved_values;
  pending = "execute_remediation" ∷ [];
  tasks =
      record { name = some "execute_remediation"; has_interrupts = false; has_error = false } ∷ [];
  checkpoint_id = some "c7";
}

continues : classify digest binding_of never saved_run paused none ≡ RecoveryDecision.continue
unfolding classify allowed_nodes
continues = refl

-- Without the approval the run is not gone on from.
unapproved_stops :
    classify digest binding_of never (record saved_run { approval_payload = none }) paused none
    ≡ RecoveryDecision.stop "reconciling" (some "WRITE_REQUIRES_RECONCILIATION")
unfolding classify
unapproved_stops = refl

classify-Fits_example :
    Fits digest binding_of never saved_run paused none
      (classify digest binding_of never saved_run paused none)
classify-Fits_example = classify-Fits digest binding_of never saved_run paused none
