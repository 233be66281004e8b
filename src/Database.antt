-- ===== src/Database.antt =====
-- The PostgreSQL tables of backend/app/persistence/migrations.py that the lease and operation
-- repositories read and write.
pub mod Rows
use k8s_incident_agent.Prelude.{
  ℕ, Bool, true, false, Option, none, some, List, [], ◌∷◌, String, map, ◌==◌, find, if◌then◌else◌,
}

-- A text that the code only stores and compares (an id, a worker's name, a digest) is known by a
-- number; the numbers of the run ids have the order of the texts.
abbrev pub Key : Type 0
Key = ℕ

-- A JSON document that the code only stores and compares.
abbrev pub Doc : Type 0
Doc = ℕ

pub data RunStatus : Type 0 where
  queued running waiting_user waiting_approval retry_scheduled reconciling : RunStatus
  succeeded failed cancelled : RunStatus

pub data OperationState : Type 0 where
  prepared dispatching succeeded rejected outcome_unknown reconciled manual_required :
      OperationState

pub data Attribution : Type 0 where
  confirmed not_established : Attribution

-- What a remediation plan may ask for; the table `operations` refuses the first.
pub data Action : Type 0 where
  manual_investigation patch_readiness_probe patch_service_selector : Action

-- The saved decision of a human, as `queue_approval` stores it beside the binding's digest.
pub record Approval : Type 0 where
  pub approval_id : Key
  pub approved : Bool
  pub approver : Key
  pub comment : Key
  pub binding : Key

-- Times count the clock's microseconds.
pub record Run : Type 0 where
  pub run_id : Key
  pub incident_id : Key
  pub status : RunStatus
  pub created_at : ℕ
  pub updated_at : ℕ
  pub finished_at : Option ℕ
  pub last_error : Option String
  pub attempt : ℕ
  pub attempt_base : ℕ
  pub lease_owner : Option Key
  pub lease_epoch : ℕ
  pub lease_expires_at : Option ℕ
  pub heartbeat_at : Option ℕ
  pub next_retry_at : Option ℕ
  pub checkpoint_started : Bool
  pub approval_payload : Option Approval
  pub event_revision : ℕ
  pub stop_requested : Bool
  pub question_payload : Option Doc
  pub answer_payload : Option Doc
  pub adopted_message_ids : List Key
  pub output_snapshot : Option Doc

pub record Incident : Type 0 where
  pub incident_id : Key
  pub phase : String
  pub event_revision : ℕ
  pub updated_at : ℕ

pub record Operation : Type 0 where
  pub operation_id : Key
  pub run_id : Key
  pub incident_id : Key
  pub approval_id : Key
  pub plan_revision : Key
  pub plan_snapshot : Doc
  pub approval_snapshot : Option Approval
  pub action : Action
  pub state : OperationState
  pub lease_epoch : ℕ
  pub before_snapshot : Doc
  pub target_snapshot : Doc
  pub request_patch : Doc
  pub response_snapshot : Option Doc
  pub observed_snapshot : Option Doc
  pub result : Option Doc
  pub attribution : Attribution
  pub error_code : Option String
  pub created_at : ℕ
  pub dispatched_at : Option ℕ
  pub responded_at : Option ℕ
  pub reconciled_at : Option ℕ
  pub updated_at : ℕ

pub record Worker : Type 0 where
  pub worker_id : Key
  pub expires_at : ℕ

-- The tables, and the clock that `clock_timestamp()` reads.
pub record Db : Type 0 where
  pub now : ℕ
  pub workers : List Worker
  pub incidents : List Incident
  pub runs : List Run
  pub operations : List Operation

-- UPDATE … WHERE run_id = k
unfoldable pub update_run : Key → (Run → Run) → List Run → List Run
update_run k f [] = []
update_run k f (r ∷ rs) = (if r.run_id == k then f r else r) ∷ update_run k f rs

-- SELECT … WHERE run_id = k, and fetchone
unfoldable pub find_run : Key → List Run → Option Run
find_run k rs = find (λ r. r.run_id == k) rs

unfoldable pub update_incident : Key → (Incident → Incident) → List Incident → List Incident
update_incident k f [] = []
update_incident k f (i ∷ is) = (if i.incident_id == k then f i else i) ∷ update_incident k f is

unfoldable pub find_incident : Key → List Incident → Option Incident
find_incident k is = find (λ i. i.incident_id == k) is

-- The operation of a run: `run_id` is unique in the table.
unfoldable pub update_operation : Key → (Operation → Operation) → List Operation → List Operation
update_operation k f [] = []
update_operation k f (o ∷ os) = (if o.run_id == k then f o else o) ∷ update_operation k f os

unfoldable pub find_operation : Key → List Operation → Option Operation
find_operation k os = find (λ o. o.run_id == k) os

-- `with connection.transaction()` where the statements change one table only.
abbrev pub set_run : Db → Key → (Run → Run) → Db
set_run db k f = record db { runs = update_run k f db.runs }

abbrev pub set_incident : Db → Key → (Incident → Incident) → Db
set_incident db k f = record db { incidents = update_incident k f db.incidents }

abbrev pub set_operation : Db → Key → (Operation → Operation) → Db
set_operation db k f = record db { operations = update_operation k f db.operations }
