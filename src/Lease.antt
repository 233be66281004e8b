-- ===== src/Lease.antt =====
-- backend/app/persistence/leases.py: ownership of runs by workers, and fenced publication.
-- A method takes the database to its outcome; what it raises rolls the transaction back. `wait` is
-- the time that a fenced transaction spends on its two locks; the second reading of the lease's
-- expiry is made after both.
pub mod Fencing
pub mod Evolution
pub mod Follows
pub mod Selection
pub mod Effects
pub mod Claiming
pub mod Finishing
use k8s_incident_agent.Prelude.{
  ℕ, ◌+◌, String, Bool, true, false, not, ◌&&◌, ◌||◌, Option, none, some, List, [], ◌∷◌, ltb, leb,
  ◌==◌, if◌then◌else◌, any, or_else, is_some,
}
use k8s_incident_agent.Outcome.{
  Outcome, ok, raised, ◌>>=◌, ◌>>◌, raise_if, row_of, lease_lost, lock_timeout, unsafe_retry,
  value_error,
}
use k8s_incident_agent.Database.{
  Key, Doc, RunStatus, OperationState, Run, Operation, Worker, Db, find_run, find_operation,
  set_run, set_incident,
}

-- What `claim` returns: the claimed row, with its flag.
pub record Lease : Type 0 where
  pub row : Run
  pub open row use *
  pub recovery_only : Bool

abbrev pub is_running : RunStatus → Bool
is_running RunStatus.running = true
is_running _ = false

abbrev pub is_retry : RunStatus → Bool
is_retry RunStatus.retry_scheduled = true
is_retry _ = false

-- status IN ('succeeded','failed','cancelled')
abbrev pub is_terminal : RunStatus → Bool
is_terminal RunStatus.succeeded = true
is_terminal RunStatus.failed = true
is_terminal RunStatus.cancelled = true
is_terminal _ = false

-- column <= clock_timestamp(), and column > clock_timestamp()
abbrev pub is_due : Option ℕ → ℕ → Bool
is_due none now = false
is_due (some t) now = leb t now

abbrev pub is_ahead : Option ℕ → ℕ → Bool
is_ahead none now = false
is_ahead (some t) now = ltb now t

-- announce: INSERT … ON CONFLICT (worker_id) DO UPDATE
upsert_worker : Key → ℕ → List Worker → List Worker
upsert_worker k t [] = record { worker_id = k; expires_at = t } ∷ []
upsert_worker k t (w ∷ ws) =
    if w.worker_id == k
    then record { worker_id = k; expires_at = t } ∷ ws
    else w ∷ upsert_worker k t ws

unfoldable pub announce : Db → Key → ℕ → Db
unfolding upsert_worker
announce db owner seconds = record db {
  workers = upsert_worker owner (db.now + seconds) db.workers;
}

drop_worker : Key → List Worker → List Worker
drop_worker k [] = []
drop_worker k (w ∷ ws) = let rest = drop_worker k ws in if w.worker_id == k then rest else w ∷ rest

unfoldable pub withdraw : Db → Key → Db
unfolding drop_worker
withdraw db owner = record db { workers = drop_worker owner db.workers }

-- PostgresRunRepository.worker_available
unfoldable pub worker_available : Db → Bool
worker_available db = any (λ w. ltb db.now w.expires_at) db.workers

-- The WHERE clause of `claim`.
claimable_status : RunStatus → ℕ → Run → Bool
claimable_status RunStatus.queued now r = true
claimable_status RunStatus.retry_scheduled now r = is_due r.next_retry_at now
claimable_status RunStatus.running now r = is_due r.lease_expires_at now
claimable_status _ now r = false

unfoldable pub claimable : ℕ → Run → Bool
unfolding claimable_status
claimable now r = claimable_status r.status now r

-- ORDER BY created_at,run_id
unfoldable pub is_before : Run → Run → Bool
is_before a b =
    ltb a.created_at b.created_at || (a.created_at == b.created_at && ltb a.run_id b.run_id)

earlier : Run → Option Run → Option Run
earlier r none = some r
earlier r (some s) = if is_before s r then some s else some r

-- LIMIT 1: the first row in that order, of those that pass.
unfoldable pub select_first : (Run → Bool) → List Run → Option Run
unfolding earlier is_before
select_first p [] = none
select_first p (r ∷ rs) = let rest = select_first p rs in if p r then earlier r rest else rest

-- The claiming UPDATE.
unfoldable pub take_lease : Key → ℕ → ℕ → Bool → Run → Run
take_lease owner seconds now recovery_only r = record r {
  status = RunStatus.running;
  lease_owner = some owner;
  lease_epoch = r.lease_epoch + 1;
  attempt = r.attempt + (if recovery_only then 0 else 1);
  heartbeat_at = some now;
  lease_expires_at = some (now + seconds);
  updated_at = now;
  next_retry_at = none;
}

-- `locked` tells the rows that other transactions hold, which SKIP LOCKED passes over.
unfoldable pub select_claimable : Db → (Key → Bool) → Option Run
unfolding select_first claimable
select_claimable db locked = select_first (λ r. claimable db.now r && not (locked r.run_id)) db.runs

claim_row : Db → Key → ℕ → ℕ → Option Run → Option Lease × Db
unfolding take_lease
claim_row db owner seconds max_attempts none = (none, db)
claim_row db owner seconds max_attempts (some r) =
    let recovery_only = leb (max_attempts + r.attempt_base) r.attempt in
    (
      some (record {
        row = take_lease owner seconds db.now recovery_only r;
        recovery_only = recovery_only;
      }),
      set_run db r.run_id (take_lease owner seconds db.now recovery_only),
    )

-- row["attempt"] - row["attempt_base"] >= max_attempts is written without the subtraction.
unfoldable pub claim : Db → Key → ℕ → ℕ → (Key → Bool) → Option Lease × Db
unfolding select_claimable claim_row
claim db owner seconds max_attempts locked =
    claim_row db owner seconds max_attempts (select_claimable db locked)

same_owner : Option Key → Option Key → Bool
same_owner (some a) (some b) = a == b
same_owner _ _ = false

-- The WHERE clause of `fence`, on the row that has the lease's run_id.
unfoldable pub holds : Lease → ℕ → Run → Bool
unfolding same_owner
holds lease now r =
    same_owner r.lease_owner lease.lease_owner
    && r.lease_epoch == lease.lease_epoch
    && is_running r.status
    && is_ahead r.lease_expires_at now

-- The time that a transaction waits for each of the two rows that it locks.
pub record Wait : Type 0 where
  pub incident_lock : ℕ
  pub run_lock : ℕ

abbrev pub waited : Wait → ℕ
waited wait = wait.incident_lock + wait.run_lock

-- SET LOCAL lock_timeout = '5s', in the clock's microseconds.
abbrev pub lock_limit : ℕ
lock_limit = 5000000

-- The row is locked when it matches, and its expiry is read again under the lock.
fence_row : Db → Lease → Wait → Option Run → Outcome Db
unfolding holds
fence_row db lease wait none = raised lease_lost
fence_row db lease wait (some r) =
    if not (holds lease (db.now + wait.incident_lock) r)
    then raised lease_lost
    else if ltb lock_limit wait.run_lock
    then raised lock_timeout
    else if is_ahead r.lease_expires_at (db.now + waited wait)
    then ok (record db { now = db.now + waited wait })
    else raised lease_lost

-- The connection that `fence` yields: the database, at the time when its locks are held.
unfoldable pub fence : Db → Lease → Wait → Outcome Db
unfolding fence_row
fence db lease wait =
    if ltb lock_limit wait.incident_lock
    then raised lock_timeout
    else fence_row db lease wait (find_run lease.run_id db.runs)

unfoldable pub assert_owned : Db → Lease → Wait → Outcome (Unit {0})
assert_owned db lease wait = do conn ← fence db lease wait; ok tt

unfoldable pub mark_checkpoint_started : Db → Lease → Wait → Outcome Db
mark_checkpoint_started db lease wait = do
  conn ← fence db lease wait
  ok (set_run conn lease.run_id (λ r. record r { checkpoint_started = true }))

unfoldable pub heartbeat : Db → Lease → ℕ → Wait → Outcome Db
heartbeat db lease seconds wait = do
  conn ← fence db lease wait
  ok (
      set_run conn lease.run_id (λ r. record r {
        heartbeat_at = some conn.now;
        lease_expires_at = some (conn.now + seconds);
      }))

-- The arguments of `finish`. An empty question or code is `none`, as `if question` reads it.
pub record Finish : Type 0 where
  pub status : RunStatus
  pub phase : Option String
  pub error_code : Option String
  pub retry_seconds : Option ℕ
  pub output_snapshot : Option Doc
  pub question : Option Doc
  pub adopted_message_ids : Option (List Key)

abbrev pub is_result : RunStatus → Bool
is_result RunStatus.queued = false
is_result RunStatus.running = false
is_result _ = true

-- The results that a requested stop replaces.
abbrev pub is_stoppable : RunStatus → Bool
is_stoppable RunStatus.succeeded = true
is_stoppable RunStatus.failed = true
is_stoppable RunStatus.waiting_user = true
is_stoppable RunStatus.waiting_approval = true
is_stoppable _ = false

-- state IN ('dispatching','outcome_unknown','manual_required')
abbrev pub is_unresolved : OperationState → Bool
is_unresolved OperationState.dispatching = true
is_unresolved OperationState.outcome_unknown = true
is_unresolved OperationState.manual_required = true
is_unresolved _ = false

-- state NOT IN ('prepared','rejected')
abbrev pub may_have_written : OperationState → Bool
may_have_written OperationState.prepared = false
may_have_written OperationState.rejected = false
may_have_written _ = true

unfoldable pub pending : Option Operation → Bool
pending none = false
pending (some o) = is_unresolved o.state

stopped : Option Operation → Finish → Finish
unfolding pending
stopped operation a =
    if pending operation
    then record a {
      status = RunStatus.reconciling;
      phase = some "reconciling";
      error_code = some "CONTROL_PENDING_RECONCILIATION";
    }
    else record a {
      status = RunStatus.cancelled;
      phase = some "cancelled";
      error_code = some "INPUT_SUPERSEDED";
    }

-- The status, phase and code that are published in the end.
unfoldable pub resolve : Bool → Option Operation → Finish → Finish
unfolding stopped
resolve stop_requested operation a =
    if stop_requested && is_stoppable a.status then stopped operation a else a

question_by : RunStatus → Option Doc → Run → Run
question_by RunStatus.waiting_user (some q) r = record r {
  question_payload = some q;
  answer_payload = none;
}
question_by RunStatus.succeeded _ r = record r { question_payload = none }
question_by RunStatus.failed _ r = record r { question_payload = none }
question_by RunStatus.cancelled _ r = record r { question_payload = none }
question_by _ _ r = r

set_question : Finish → Run → Run
unfolding question_by
set_question a r = question_by a.status a.question r

set_adopted : Option (List Key) → Run → Run
set_adopted none r = r
set_adopted (some ids) r = record r { adopted_message_ids = ids }

retry_at : ℕ → Option ℕ → Option ℕ
retry_at now none = none
retry_at now (some seconds) = some (now + seconds)

set_result : Finish → ℕ → Run → Run
unfolding retry_at
set_result a now r = record r {
  status = a.status;
  last_error = a.error_code;
  updated_at = now;
  finished_at = if is_terminal a.status then some now else none;
  next_retry_at = retry_at now a.retry_seconds;
  lease_owner = none;
  lease_expires_at = none;
}

set_output : Finish → Run → Run
set_output a r =
    if is_terminal a.status
    then record r { output_snapshot = or_else r.output_snapshot a.output_snapshot }
    else r

-- The updates of one row, in the order of the statements.
unfoldable pub publish_run : Finish → ℕ → Run → Run
unfolding set_question set_adopted set_result set_output
publish_run a now r =
    set_output a (set_result a now (set_adopted a.adopted_message_ids (set_question a r)))

publish_phase : Option String → Key → Db → Db
publish_phase none k db = db
publish_phase (some p) k db = set_incident db k (λ i. record i { phase = p; updated_at = db.now })

unfoldable pub publish : Db → Lease → Finish → Db
unfolding publish_run publish_phase
publish db lease a =
    publish_phase a.phase lease.incident_id (set_run db lease.run_id (publish_run a db.now))

-- An operation of the run that an ordinary retry would repeat.
unfoldable pub has_written : Db → Key → Bool
has_written db k = any (λ o. o.run_id == k && may_have_written o.state) db.operations

finish_in : Db → Lease → Finish → Run → Outcome (RunStatus × Db)
unfolding resolve publish has_written
finish_in conn lease a current =
    let final = resolve current.stop_requested (find_operation lease.run_id conn.operations) a in
    if is_retry final.status && has_written conn lease.run_id
    then raised unsafe_retry
    else ok (final.status, publish conn lease final)

unfoldable pub finish : Db → Lease → Finish → Wait → Outcome (RunStatus × Db)
unfolding finish_in
finish db lease a wait = do
  raise_if (not (is_result a.status)) (value_error "invalid worker result status")
  raise_if
      (not (if is_retry a.status then is_some a.retry_seconds else not (is_some a.retry_seconds)))
      (value_error "retry delay is required only for retry_scheduled")
  conn ← fence db lease wait
  current ← row_of (find_run lease.run_id conn.runs)
  finish_in conn lease a current
