-- ===== src/Operation/Dispatching.antt =====
-- `dispatch` of backend/app/persistence/operations.py: when a write may be sent.
use k8s_incident_agent.Prelude.{sym, ◌∙◌, ℕ, ◌+◌, ◌≡◌, refl, subst, Option, none, some, arith}
use k8s_incident_agent.Outcome.{ok, ◌>>◌, >>=-eq-ok}
use k8s_incident_agent.Database.{
  Key, OperationState, Run, Operation, Db, find_run, find_operation, set_operation,
}
use k8s_incident_agent.Lease.{Wait, waited, Lease, fence}
use k8s_incident_agent.Lease.Fencing.{IsHeld, fence_inv}
use k8s_incident_agent.Operation.{assert_revision, dispatch, dispatch_row, start_dispatch}
use k8s_incident_agent.Operation.Evolution.{
  Journals, update_operation-Journals, start_dispatch-Extends,
}

-- What a `dispatch` that returns has done.
pub record IsDispatched (db : Db) (lease : Lease) (operation_id : Key) (wait : Wait) (o : Operation)
    (db' : Db) : Type 0 where
  pub row : Run
  pub owned : find_run lease.run_id db.runs ≡ some row
  pub held : IsHeld lease (db.now + waited wait) row
  pub current : assert_revision db lease.run_id ≡ ok tt
  pub found : find_operation lease.run_id db.operations ≡ some o
  pub same_operation : o.operation_id ≡ operation_id
  pub was_prepared : o.state ≡ OperationState.prepared
  pub written :
      db'
      ≡ set_operation
          (record db { now = db.now + waited wait })
          lease.run_id
          (start_dispatch lease.lease_epoch (db.now + waited wait))

dispatch_row_inv :
    (conn : Db) (lease : Lease) (operation_id : Key) (x : Option Operation) (db' : Db)
    → dispatch_row conn lease operation_id x ≡ ok db'
    → (o : Operation) × (x ≡ some o)
      × (o.operation_id ≡ operation_id)
      × (o.state ≡ OperationState.prepared)
      × (db' ≡ set_operation conn lease.run_id (start_dispatch lease.lease_epoch conn.now))
unfolding dispatch_row
dispatch_row_inv conn lease operation_id none db' h = absurd (ground arith)
dispatch_row_inv conn lease operation_id (some o) db' h =
    (o, refl, ground arith, ground arith, ground arith)

-- The clock does not matter to the revisions.
assert_revision-now :
    (db : Db) (t : ℕ) (k : Key) → assert_revision (record db { now = t }) k ≡ assert_revision db k
unfolding assert_revision
assert_revision-now db t k = refl

dispatch_held :
    (db : Db) (lease : Lease) (operation_id : Key) (wait : Wait) (db' : Db) (row : Run)
    → find_run lease.run_id db.runs ≡ some row
    → IsHeld lease (db.now + waited wait) row
    → (do
      assert_revision (record db { now = db.now + waited wait }) lease.run_id
      dispatch_row
          (record db { now = db.now + waited wait })
          lease
          operation_id
          (find_operation lease.run_id db.operations))
      ≡ ok db'
    → (o : Operation) × IsDispatched db lease operation_id wait o db'
dispatch_held db lease operation_id wait db' row owned held h =
    let (unit, current, h1) =
      >>=-eq-ok (assert_revision (record db { now = db.now + waited wait }) lease.run_id) _ h in
    let (o, found, same, was, written) =
      dispatch_row_inv _ lease operation_id (find_operation lease.run_id db.operations) db' h1 in
    (
      o,
      record {
        row = row;
        owned = owned;
        held = held;
        current = sym (assert_revision-now db (db.now + waited wait) lease.run_id) ∙ current;
        found = found;
        same_operation = same;
        was_prepared = was;
        written = written;
      },
    )

pub dispatch_inv :
    (db : Db) (lease : Lease) (operation_id : Key) (wait : Wait) (db' : Db)
    → dispatch db lease operation_id wait ≡ ok db'
    → (o : Operation) × IsDispatched db lease operation_id wait o db'
unfolding dispatch
dispatch_inv db lease operation_id wait db' h =
    let (conn, passed, h1) = >>=-eq-ok (fence db lease wait) _ h in
    let (row, owned, held, clock) = fence_inv db lease wait conn passed in
    dispatch_held db lease operation_id wait db' row owned held (
      subst
        (λ c.
          (assert_revision c lease.run_id
            >> dispatch_row c lease operation_id (find_operation lease.run_id c.operations))
          ≡ ok db')
        clock h1)

pub dispatch-runs :
    (db : Db) (lease : Lease) (operation_id : Key) (wait : Wait) (db' : Db)
    → dispatch db lease operation_id wait ≡ ok db'
    → db'.runs ≡ db.runs
dispatch-runs db lease operation_id wait db' h =
    let (o, d) = dispatch_inv db lease operation_id wait db' h in rw d.written

start_dispatch-run_id :
    (epoch now : ℕ) (o : Operation) → (start_dispatch epoch now o).run_id ≡ o.run_id
unfolding start_dispatch
start_dispatch-run_id epoch now o = refl

pub dispatch-Journals :
    (db : Db) (lease : Lease) (operation_id : Key) (wait : Wait) (db' : Db)
    → dispatch db lease operation_id wait ≡ ok db'
    → Journals db.operations db'.operations
dispatch-Journals db lease operation_id wait db' h =
    let (o, d) = dispatch_inv db lease operation_id wait db' h in
    rw d.written (
      update_operation-Journals lease.run_id o
        (start_dispatch lease.lease_epoch (db.now + waited wait)) db.operations d.found
        (start_dispatch-Extends lease.lease_epoch (db.now + waited wait) o (rw d.was_prepared))
        (start_dispatch-run_id lease.lease_epoch (db.now + waited wait)))
