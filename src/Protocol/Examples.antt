-- ===== src/Protocol/Examples.antt =====
-- A run in the life of two workers: the hypotheses of the theorems on ownership, the journal and
-- approvals are met.
use k8s_incident_agent.Prelude.{
  ℕ, ◌+◌, ◌*◌, ◌≡◌, ◌≢◌, refl, Bool, true, false, none, some, List, [], ◌∷◌, All, arith,
}
use k8s_incident_agent.Outcome.{ok, raised, lease_lost}
use k8s_incident_agent.Database.{
  Key, RunStatus, OperationState, Attribution, Action, Approval, Run, Incident, Operation, Db,
  find_run, update_run, find_operation, find_incident, update_operation,
}
use k8s_incident_agent.Lease.{Lease, Wait, Finish, claim, fence, finish}
use k8s_incident_agent.Lease.Claiming.{
  TakesFirst, could_claim, claim-TakesFirst, claim-none, claim_then_fence,
}
use k8s_incident_agent.Lease.Evolution.{IsValid}
use k8s_incident_agent.Lease.Finishing.{Publishes, finish_status}
use k8s_incident_agent.Operation.{
  Request, Report, new_operation, assert_revision, prepare, dispatch, record_outcome,
  queue_approval,
}
use k8s_incident_agent.Protocol.{
  Call, ticks, heartbeats, claims, records, run, step, after, after_pair,
}
use k8s_incident_agent.Protocol.Ownership.{claim_supersedes, finish_releases, run-IsValid}
use k8s_incident_agent.Protocol.Journal.{
  StillRejected, Answered, dispatch_once, response_kept, rejected_forever, retry_after_dispatch,
  prepare_again,
}
use k8s_incident_agent.Protocol.Approvals.{approval_saved_once}

abbrev pub fresh : Run
fresh = record {
  run_id = 1;
  incident_id = 5;
  status = RunStatus.queued;
  created_at = 0;
  updated_at = 0;
  finished_at = none;
  last_error = none;
  attempt = 0;
  attempt_base = 0;
  lease_owner = none;
  lease_epoch = 0;
  lease_expires_at = none;
  heartbeat_at = none;
  next_retry_at = none;
  checkpoint_started = false;
  approval_payload = none;
  event_revision = 0;
  stop_requested = false;
  question_payload = none;
  answer_payload = none;
  adopted_message_ids = [];
  output_snapshot = none;
}

abbrev pub incident : Incident
incident = record { incident_id = 5; phase = "created"; event_revision = 0; updated_at = 0 }

abbrev pub start : Db
start = record {
  now = 10;
  workers = [];
  incidents = incident ∷ [];
  runs = fresh ∷ [];
  operations = [];
}

-- A transaction that waits for the incident's row alone.
abbrev pub brief : ℕ → Wait
brief n = record { incident_lock = n; run_lock = 0 }

abbrev unlocked : Key → Bool
unlocked k = false

abbrev pub keys : Key → Key → Key → Key
keys run_id plan approval = run_id * 10000 + plan * 100 + approval

-- Worker 7 holds the run from 10 to 110.
abbrev pub held : Run
held = record fresh {
  status = RunStatus.running;
  updated_at = 10;
  attempt = 1;
  lease_owner = some 7;
  lease_epoch = 1;
  lease_expires_at = some 110;
  heartbeat_at = some 10;
}

abbrev pub lease : Lease
lease = record { row = held; recovery_only = false }

abbrev pub owned : Db
owned = record start { runs = held ∷ [] }

claimed : claim start 7 100 3 unlocked ≡ (some lease, owned)
unfolding claim update_run
claimed = refl

claim-TakesFirst_example : TakesFirst start 3 unlocked lease owned
claim-TakesFirst_example = claim-TakesFirst start 7 100 3 unlocked lease owned (tt, tt) claimed

nothing_left : claim owned 8 100 3 unlocked ≡ (none, owned)
unfolding claim
nothing_left = refl

claim-none_example : All (λ s. could_claim owned unlocked s ≡ false) owned.runs × (owned ≡ owned)
claim-none_example = claim-none owned 8 100 3 unlocked owned nothing_left

claim_then_fence_example :
    fence (record owned { now = 10 + 60 }) lease (brief 5) ≡ ok (record owned { now = 10 + 60 + 5 })
claim_then_fence_example =
    claim_then_fence start 7 100 3 unlocked lease owned 60 (brief 5) (tt, tt) claimed
      (omega arith, omega arith) (omega arith)

-- Worker 8 claims the run after the lease of worker 7 has expired.
abbrev pub second : Lease
second = record {
  row = record held {
    updated_at = 210;
    attempt = 2;
    lease_owner = some 8;
    lease_epoch = 2;
    lease_expires_at = some 310;
    heartbeat_at = some 210;
  };
  recovery_only = false;
}

abbrev pub taken_over : Db
taken_over = record owned { now = 210; runs = second.row ∷ [] }

claimed_again : claim (run keys owned (ticks 200 ∷ [])) 8 100 3 unlocked ≡ (some second, taken_over)
unfolding claim run step update_run
claimed_again = refl

claim_supersedes_example :
    fence (run keys taken_over (heartbeats lease 50 (brief 0) ∷ [])) lease (brief 1)
    ≡ raised lease_lost
claim_supersedes_example =
    claim_supersedes keys start owned taken_over 7 8 100 100 3 3 unlocked unlocked lease second
      (ticks 200 ∷ []) (tt, tt) claimed claimed_again refl (heartbeats lease 50 (brief 0) ∷ [])
      (brief 1)

abbrev success : Finish
success = record {
  status = RunStatus.succeeded;
  phase = some "remediation_skipped";
  error_code = none;
  retry_seconds = none;
  output_snapshot = some 77;
  question = none;
  adopted_message_ids = none;
}

abbrev published : Db
published = after_pair owned (finish owned lease success (brief 2))

finished : finish owned lease success (brief 2) ≡ ok (RunStatus.succeeded, published)
unfolding finish fence find_run
finished = refl

finish_releases_example :
    fence (run keys published (ticks 5 ∷ [])) lease (brief 0) ≡ raised lease_lost
finish_releases_example =
    finish_releases keys owned published lease success (brief 2) RunStatus.succeeded (tt, tt)
      finished (ticks 5 ∷ []) (brief 0)

finish_status_example : Publishes owned lease success RunStatus.succeeded published
finish_status_example =
    finish_status owned lease success (brief 2) RunStatus.succeeded published finished

fresh-IsValid : IsValid fresh
fresh-IsValid = ground arith

run-IsValid_example :
    (s : Run) × (find_run 1 (run keys start (claims 7 100 3 unlocked ∷ [])).runs ≡ some s)
    × IsValid s
unfolding find_run
run-IsValid_example =
    run-IsValid keys start (claims 7 100 3 unlocked ∷ []) 1 fresh (tt, tt) refl fresh-IsValid

abbrev request : Request
request = record {
  approval_id = 40;
  plan_revision = 41;
  plan = 42;
  action = Action.patch_service_selector;
  before = 43;
  target = 44;
  patch = 45;
}

abbrev operation : Operation
operation = record {
  operation_id = 14140;
  run_id = 1;
  incident_id = 5;
  approval_id = 40;
  plan_revision = 41;
  plan_snapshot = 42;
  approval_snapshot = none;
  action = Action.patch_service_selector;
  state = OperationState.prepared;
  lease_epoch = 1;
  before_snapshot = 43;
  target_snapshot = 44;
  request_patch = 45;
  response_snapshot = none;
  observed_snapshot = none;
  result = none;
  attribution = Attribution.not_established;
  error_code = none;
  created_at = 10;
  dispatched_at = none;
  responded_at = none;
  reconciled_at = none;
  updated_at = 10;
}

abbrev journalled : Db
journalled = record owned { operations = operation ∷ [] }

prepared_once : prepare keys owned lease request (brief 0) ≡ ok (operation, journalled)
unfolding prepare fence find_run assert_revision find_operation new_operation find_incident
prepared_once = refl

prepared_twice :
    prepare keys (run keys journalled (ticks 1 ∷ [])) lease request (brief 0)
    ≡ ok (operation, record journalled { now = 11 })
unfolding prepare fence find_run assert_revision find_operation new_operation find_incident run step
prepared_twice = refl

prepare_again_example :
    (operation.request_patch ≡ 45)
    × (operation.before_snapshot ≡ 43)
    × (operation.target_snapshot ≡ 44)
    × (keys 1 41 40 ≡ keys 1 41 40)
    × ((record journalled { now = 11 }).operations
        ≡ (run keys journalled (ticks 1 ∷ [])).operations)
prepare_again_example =
    prepare_again keys owned journalled (record journalled { now = 11 }) lease lease request request
      (brief 0) (brief 0) operation operation (ticks 1 ∷ []) (tt, tt) prepared_once refl
      prepared_twice

abbrev sent : Db
sent = after journalled (dispatch journalled lease 14140 (brief 1))

dispatched_once : dispatch journalled lease 14140 (brief 1) ≡ ok sent
unfolding dispatch fence find_run assert_revision find_operation find_incident
dispatched_once = refl

dispatch_once_example : dispatch (run keys sent (ticks 3 ∷ [])) lease 14140 (brief 0) ≢ ok sent
dispatch_once_example =
    dispatch_once keys journalled sent lease 14140 (brief 1) (tt, tt) dispatched_once (ticks 3 ∷ [])
      lease 14140 (brief 0) sent refl

abbrev answered : Operation
answered = record operation { state = OperationState.succeeded; response_snapshot = some 99 }

abbrev answered_db : Db
answered_db = record owned { operations = answered ∷ [] }

response_kept_example : Answered 1 answered 99 (run keys answered_db (ticks 3 ∷ []))
unfolding find_operation
response_kept_example =
    response_kept keys answered_db 1 answered 99 (tt, tt) refl refl (ticks 3 ∷ [])

abbrev refused : Operation
refused = record operation { state = OperationState.rejected }

abbrev refused_db : Db
refused_db = record owned { operations = refused ∷ [] }

rejected_forever_example :
    StillRejected 1 refused (run keys refused_db (ticks 3 ∷ []))
    × (dispatch (run keys refused_db (ticks 3 ∷ [])) lease 14140 (brief 0) ≢ ok sent)
unfolding find_operation
rejected_forever_example =
    rejected_forever keys refused_db 1 refused (tt, tt) refl refl (ticks 3 ∷ []) lease 14140
      (brief 0) sent refl

abbrev rejection : Report
rejection = record {
  state = OperationState.rejected;
  response = none;
  observed = none;
  result = some 98;
  code = some "KUBERNETES_REJECTED";
  attribution = Attribution.not_established;
}

abbrev retry : Finish
retry = record success {
  status = RunStatus.retry_scheduled;
  phase = none;
  output_snapshot = none;
  retry_seconds = some 30;
}

abbrev rejecting : List Call
rejecting = records lease rejection (brief 0) ∷ []

abbrev retried : Db
retried = after_pair sent (finish (run keys sent rejecting) lease retry (brief 0))

scheduled :
    finish (run keys sent rejecting) lease retry (brief 0) ≡ ok (RunStatus.retry_scheduled, retried)
unfolding finish fence find_run run step record_outcome dispatch assert_revision find_operation
    find_incident update_operation
scheduled = refl

retry_after_dispatch_example :
    (p : Operation) × (find_operation 1 (run keys sent rejecting).operations ≡ some p)
    × (p.state ≡ OperationState.rejected)
retry_after_dispatch_example =
    retry_after_dispatch keys journalled sent lease 14140 (brief 1) (tt, tt) dispatched_once
      rejecting lease retry (brief 0) retried refl scheduled

abbrev waiting : Db
waiting = record start { runs = record fresh { status = RunStatus.waiting_approval } ∷ [] }

abbrev approval : Approval
approval = record { approval_id = 40; approved = true; approver = 50; comment = 51; binding = 52 }

abbrev approved : Db
approved = after waiting (queue_approval waiting 1 approval)

saved_first : queue_approval waiting 1 approval ≡ ok approved
unfolding queue_approval find_run assert_revision find_incident
saved_first = refl

saved_again :
    queue_approval (run keys approved (ticks 3 ∷ [])) 1 approval
    ≡ ok (run keys approved (ticks 3 ∷ []))
unfolding queue_approval find_run assert_revision find_incident run step update_run
saved_again = refl

approval_saved_once_example :
    (approval ≡ approval) × (run keys approved (ticks 3 ∷ []) ≡ run keys approved (ticks 3 ∷ []))
approval_saved_once_example =
    approval_saved_once keys waiting approved (run keys approved (ticks 3 ∷ [])) 1 approval approval
      (ticks 3 ∷ []) (tt, tt) saved_first saved_again
