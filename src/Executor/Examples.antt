-- ===== src/Executor/Examples.antt =====
-- Two workers write to the selector of one service, one after the other's lease has expired.
use k8s_incident_agent.Prelude.{
  ℕ, zero, suc, ◌≤◌, ◌≡◌, refl, true, false, none, some, List, [], ◌∷◌, ◌++◌, All,
}
use k8s_incident_agent.Outcome.{ok}
use k8s_incident_agent.Database.{
  Action, Approval, Db, find_run, find_incident, find_operation, update_run, update_operation,
}
use k8s_incident_agent.Schemas.{ApprovalRecord}
use k8s_incident_agent.Lease.{Lease, assert_owned, fence, claim}
use k8s_incident_agent.Operation.{prepare, assert_revision, dispatch}
use k8s_incident_agent.Protocol.{claims, ticks, step}
use k8s_incident_agent.Protocol.Examples.{brief, keys, held, lease, owned, second}
use k8s_incident_agent.Target.{read_target, build_patch, prior_configuration}
use k8s_incident_agent.Target.Examples.{service, before, plan}
use k8s_incident_agent.Program.{WriteAnswer, Authorization}
use k8s_incident_agent.Executor.{Codec, execute}
use k8s_incident_agent.Executor.System.{Input, Event, calls, starts, proceeds, happen_all, idle}
use k8s_incident_agent.Executor.Moves.{count_for}
use k8s_incident_agent.Executor.Once.{IsWrittenDown, sent_once, sent_journalled}

-- Every document is 5, the patch is 9, and a stored snapshot is the one above.
abbrev codec : Codec
codec = record {
  key = λ s. 2;
  plan_doc = λ p. 5;
  snapshot_doc = λ s. 5;
  patch_doc = λ ops. 9;
  result_doc = λ r. 5;
  loaded = λ d. none;
  loaded_snapshot = λ d. some before;
  isoformat = λ n. "1970";
}

abbrev signed : ApprovalRecord
signed = record {
  approval_id = "apr-1";
  incident_id = "5";
  action = Action.patch_service_selector;
  approved = true;
  approver = "ops";
  comment = "go";
  decided_at = "1970";
  plan_revision = none;
  approval_revision = none;
}

abbrev authorization : Authorization
authorization = record {
  execution_id = "exec-1";
  approval_id = "apr-1";
  plan = plan;
  approval_record = signed;
  binding = 6;
  revision = 3;
  approved_uid = some "u1";
}

-- The API answers every read with the service and loses the answer to the write.
abbrev input : Input
input = record {
  wait = brief 0;
  heartbeat_lost = false;
  profile = ok (some "41");
  target = ok service;
  charged = ok tt;
  write = WriteAnswer.lost;
  time = 12;
}

abbrev approval : Approval
approval = record { approval_id = 2; approved = true; approver = 2; comment = 2; binding = 6 }

abbrev approved : Lease
approved = record lease { row = record held { approval_payload = some approval } }

abbrev approved_again : Lease
approved_again = record second { row = record second.row { approval_payload = some approval } }

abbrev db : Db
db = record owned { runs = approved.row ∷ [] }

abbrev moves : ℕ → ℕ → List Event
moves n zero = []
moves n (suc m) = proceeds n input ∷ moves n m

-- Worker 7 stops after its write; worker 8 claims the run later and does all that it can.
abbrev events : List Event
events =
    starts approved (ok authorization) ∷ moves 0 11
    ++ calls (ticks 200)
      ∷ calls (claims 8 100 3 (λ k. false))
      ∷ starts approved_again (ok authorization)
      ∷ moves 0 12

one_write : (happen_all keys codec (idle db) events).sent ≡ (1, 9) ∷ []
unfolding happen_all execute assert_owned fence find_run step claim find_operation read_target
    build_patch prepare assert_revision find_incident prior_configuration dispatch update_run
    update_operation
one_write = refl

sent_once_example : count_for 1 (happen_all keys codec (idle db) events).sent ≤ 1
sent_once_example = sent_once keys codec db (tt, tt) events 1

sent_journalled_example :
    All
      (IsWrittenDown (happen_all keys codec (idle db) events).db)
      (happen_all keys codec (idle db) events).sent
sent_journalled_example = sent_journalled keys codec db (tt, tt) events
