-- ===== src/Lease/Finishing.antt =====
-- `finish` of backend/app/persistence/leases.py: what is published, and when it is refused.
use k8s_incident_agent.Prelude.{
  ap, sym, ◌∙◌, ◌&&◌, ◌≢◌, inr, false, none, subst, not, if◌then◌else◌, Option, ℕ, ◌+◌, ◌≡◌, refl,
  Option, some, true, arith, Bool, is_some,
}
use k8s_incident_agent.Outcome.{ok, >>=-eq-ok, Outcome, ◌>>=◌, ◌>>◌, raise_if, row_of, value_error}
use k8s_incident_agent.Database.{
  Key, Operation, RunStatus, Run, find_run, find_operation, Db, update_run,
}
use k8s_incident_agent.Database.Rows.{find_run-update_self}
use k8s_incident_agent.Lease.{
  Wait, waited, is_stoppable, pending, Lease, Finish, is_result, is_retry, fence, finish_in,
  has_written, finish, finish_in, has_written, publish_run, publish, publish_phase, resolve,
}
use k8s_incident_agent.Lease.Fencing.{IsStale, IsHeld, fence_inv}
use k8s_incident_agent.Lease.Evolution.{publish_run-Evolves, publish_run-Evolves}
use k8s_incident_agent.Lease.Follows.{Follows, update_run-Follows}

publish-runs :
    (db : Db) (lease : Lease) (a : Finish)
    → (publish db lease a).runs ≡ update_run lease.run_id (publish_run a db.now) db.runs
unfolding publish publish_phase
publish-runs db lease a = ground arith

publish_run-run_id : (a : Finish) (now : ℕ) (r : Run) → (publish_run a now r).run_id ≡ r.run_id
unfolding publish_run
publish_run-run_id a now r = ground arith

-- Replacing a result keeps the agreement between its status and its delay.
resolve-result :
    (stop : Bool) (o : Option Operation) (a : Finish)
    → is_result a.status ≡ true
    → is_some a.retry_seconds ≡ is_retry a.status
    → (is_result (resolve stop o a).status ≡ true)
      × (is_some (resolve stop o a).retry_seconds ≡ is_retry (resolve stop o a).status)
unfolding resolve
resolve-result stop o a h k = (ground arith, ground arith)

-- What a `finish` that returns has done.
pub record IsFinished (db : Db) (lease : Lease) (a : Finish) (wait : Wait) (status : RunStatus)
    (db' : Db) : Type 0 where
  pub row : Run
  pub found : find_run lease.run_id db.runs ≡ some row
  pub held : IsHeld lease (db.now + waited wait) row
  pub final : Finish
  pub resolved : final ≡ resolve row.stop_requested (find_operation lease.run_id db.operations) a
  pub asked : (is_result a.status ≡ true) × (is_some a.retry_seconds ≡ is_retry a.status)
  pub safe : is_retry final.status ≡ true → has_written db lease.run_id ≡ false
  pub returned : status ≡ final.status
  pub published : db' ≡ publish (record db { now = db.now + waited wait }) lease final

finish_checks :
    (a : Finish) (rest : Outcome (RunStatus × Db)) (result : RunStatus × Db)
    → (do
      raise_if (not (is_result a.status)) (value_error "invalid worker result status")
      raise_if
          (not
            (if is_retry a.status then is_some a.retry_seconds else not (is_some a.retry_seconds)))
          (value_error "retry delay is required only for retry_scheduled")
      rest)
      ≡ ok result
    → (is_result a.status ≡ true)
      × (is_some a.retry_seconds ≡ is_retry a.status)
      × (rest ≡ ok result)
finish_checks a rest result h = ground arith

has_written-now :
    (db : Db) (t : ℕ) (k : Key) → has_written (record db { now = t }) k ≡ has_written db k
unfolding has_written
has_written-now db t k = refl

finish_in_inv :
    (conn : Db) (lease : Lease) (a : Finish) (current : Run) (status : RunStatus) (db' : Db)
    → finish_in conn lease a current ≡ ok (status, db')
    → let final = resolve current.stop_requested (find_operation lease.run_id conn.operations) a in
      (is_retry final.status ≡ true → has_written conn lease.run_id ≡ false)
      × (status ≡ final.status)
      × (db' ≡ publish conn lease final)
unfolding finish_in
finish_in_inv conn lease a current status db' h = (λ k. ground arith, ground arith, ground arith)

finish_found :
    (conn : Db) (lease : Lease) (a : Finish) (o : Option Run) (result : RunStatus × Db) (r : Run)
    → o ≡ some r
    → (row_of o >>= λ current. finish_in conn lease a current) ≡ ok result
    → finish_in conn lease a r ≡ ok result
finish_found conn lease a none result r e h = cc
finish_found conn lease a (some s) result r e h = ground arith

finish_held :
    (db : Db) (lease : Lease) (a : Finish) (wait : Wait) (status : RunStatus) (db' : Db) (r : Run)
    → find_run lease.run_id db.runs ≡ some r
    → IsHeld lease (db.now + waited wait) r
    → (is_result a.status ≡ true) × (is_some a.retry_seconds ≡ is_retry a.status)
    → finish_in (record db { now = db.now + waited wait }) lease a r ≡ ok (status, db')
    → IsFinished db lease a wait status db'
finish_held db lease a wait status db' r found held asked ran =
    let (safe, returned, published) = finish_in_inv _ lease a r status db' ran in
    record {
      row = r;
      found = found;
      held = held;
      final = resolve r.stop_requested (find_operation lease.run_id db.operations) a;
      resolved = refl;
      asked = asked;
      safe = λ k. rw (has_written-now db (db.now + waited wait) lease.run_id) at (safe k);
      returned = returned;
      published = published;
    }

-- Whatever `finish` returns, it was asked for a result, by the holder of the run.
pub finish_inv :
    (db : Db) (lease : Lease) (a : Finish) (wait : Wait) (status : RunStatus) (db' : Db)
    → finish db lease a wait ≡ ok (status, db')
    → IsFinished db lease a wait status db'
unfolding finish
finish_inv db lease a wait status db' h =
    let (result, retry, rest) = finish_checks a _ (status, db') h in
    let (conn, passed, found) = >>=-eq-ok (fence db lease wait) _ rest in
    let (r, e, held, clock) = fence_inv db lease wait conn passed in
    finish_held db lease a wait status db' r e held (result, retry)
      (finish_found _ lease a (find_run lease.run_id db.runs) (status, db') r e
        (subst
          (λ c.
            (row_of (find_run lease.run_id c.runs) >>= λ current. finish_in c lease a current)
            ≡ ok (status, db'))
          clock found))

pub finish-Follows :
    (db : Db) (lease : Lease) (a : Finish) (wait : Wait) (status : RunStatus) (db' : Db)
    → finish db lease a wait ≡ ok (status, db')
    → Follows db.runs db'.runs
finish-Follows db lease a wait status db' h =
    let f = finish_inv db lease a wait status db' h in
    let (result, retry) =
      resolve-result f.row.stop_requested (find_operation lease.run_id db.operations) a f.asked.0
        f.asked.1 in
    update_run-Follows lease.run_id f.row (publish_run f.final (db.now + waited wait)) db.runs
      f.found
      (publish_run-Evolves f.final (db.now + waited wait) f.row f.held.runs (rw f.resolved result)
        (rw f.resolved retry))
      (publish_run-run_id f.final (db.now + waited wait)) db'.runs
      (rw f.published (publish-runs (record db { now = db.now + waited wait }) lease f.final))

publish_run-ended :
    (lease : Lease) (a : Finish) (now : ℕ) (r : Run)
    → r.lease_epoch ≡ lease.lease_epoch
    → is_result a.status ≡ true
    → (lease.lease_epoch ≡ (publish_run a now r).lease_epoch)
      × ((publish_run a now r).status ≢ RunStatus.running)
unfolding publish_run
publish_run-ended lease a now r e h = (ground arith, λ k. ground arith)

-- A finished run's lease is stale.
pub finish-IsStale :
    (db : Db) (lease : Lease) (a : Finish) (wait : Wait) (status : RunStatus) (db' : Db)
    → finish db lease a wait ≡ ok (status, db')
    → (r : Run) × (find_run lease.run_id db'.runs ≡ some r) × IsStale lease r
finish-IsStale db lease a wait status db' h =
    let f = finish_inv db lease a wait status db' h in
    let published = publish_run f.final (db.now + waited wait) f.row in
    (
      published,
      rw (f.published, publish-runs)
          (find_run-update_self lease.run_id (publish_run f.final (db.now + waited wait)) db.runs
            f.row (publish_run-run_id f.final (db.now + waited wait)) f.found),
      inr (
          publish_run-ended lease f.final (db.now + waited wait) f.row f.held.same_epoch (
            rw f.resolved
              (resolve-result f.row.stop_requested (find_operation lease.run_id db.operations) a
                f.asked.0 f.asked.1).0)),
    )

publish-operations :
    (db : Db) (lease : Lease) (a : Finish) → (publish db lease a).operations ≡ db.operations
unfolding publish publish_phase
publish-operations db lease a = ground arith

pub finish-operations :
    (db : Db) (lease : Lease) (a : Finish) (wait : Wait) (status : RunStatus) (db' : Db)
    → finish db lease a wait ≡ ok (status, db')
    → db'.operations ≡ db.operations
finish-operations db lease a wait status db' h =
    let f = finish_inv db lease a wait status db' h in rw (f.published, publish-operations)

resolve-status :
    (stop : Bool) (o : Option Operation) (a : Finish)
    → (resolve stop o a).status ≡ (
        if stop && is_stoppable a.status
        then (if pending o then RunStatus.reconciling else RunStatus.cancelled)
        else a.status)
unfolding resolve
resolve-status stop o a = ground arith

publish_run-status :
    (a : Finish) (now : ℕ) (r : Run)
    → ((publish_run a now r).status ≡ a.status) × ((publish_run a now r).lease_owner ≡ none)
unfolding publish_run
publish_run-status a now r = (ground arith, ground arith)

retry_checked : (b c : Bool) → (b ≡ true → c ≡ false) → (b && c) ≡ false
retry_checked true c f = f refl
retry_checked false c f = refl

-- What the tables show after a `finish` that returned the status.
pub record Publishes (db : Db) (lease : Lease) (a : Finish) (status : RunStatus) (db' : Db)
    : Type 0 where
  pub before : Run
  pub now : Run
  pub found : find_run lease.run_id db.runs ≡ some before
  pub published : find_run lease.run_id db'.runs ≡ some now
  pub same_status : now.status ≡ status
  pub released : now.lease_owner ≡ none
  pub resolved : status ≡ (
      if before.stop_requested && is_stoppable a.status
      then (if pending (find_operation lease.run_id db.operations)
          then RunStatus.reconciling
          else RunStatus.cancelled)
      else a.status)
  pub safe : (is_retry status && has_written db lease.run_id) ≡ false

-- Where `finish` returns, the row has the status that it returned, and no owner. A requested stop
-- turns a success, a failure or a wait into `cancelled`, or into `reconciling` while the run's write
-- may be in flight or needs a person; any other status is the one that was asked for. A retry is
-- returned only for a run without an operation that may have written.
pub finish_status :
    (db : Db) (lease : Lease) (a : Finish) (wait : Wait) (status : RunStatus) (db' : Db)
    → finish db lease a wait ≡ ok (status, db')
    → Publishes db lease a status db'
finish_status db lease a wait status db' h =
    let f = finish_inv db lease a wait status db' h in
    let t = db.now + waited wait in
    let (same, free) = publish_run-status f.final t f.row in
    record {
      before = f.row;
      now = publish_run f.final t f.row;
      found = f.found;
      published =
          rw (f.published, publish-runs)
            (find_run-update_self lease.run_id (publish_run f.final t) db.runs f.row
              (publish_run-run_id f.final t) f.found);
      same_status = same ∙ sym f.returned;
      released = free;
      resolved =
          f.returned
          ∙ ap (λ (x : Finish). x.status) f.resolved
          ∙ resolve-status f.row.stop_requested (find_operation lease.run_id db.operations) a;
      safe =
          retry_checked (is_retry status) (has_written db lease.run_id)
            (λ k. f.safe (ap is_retry (sym f.returned) ∙ k));
    }
