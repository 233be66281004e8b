-- ===== src/Protocol/Journal.antt =====
-- What the journal of external writes keeps, across any calls of the two repositories in any order.
use k8s_incident_agent.Prelude.{
  ◌+◌, ◌≡◌, ◌≢◌, refl, ap, ◌∙◌, sym, subst, true, false, ◌&&◌, none, some, List, [], ◌∷◌, any,
  arith, inl, inr, is_some, ◌==◌,
}
use mathlib.Core.Option.{some-injective}
use k8s_incident_agent.Outcome.{ok}
use k8s_incident_agent.Database.{Key, Doc, RunStatus, OperationState, Operation, Db, find_operation}
use k8s_incident_agent.Database.Rows.{find_operation-update_self}
use k8s_incident_agent.Lease.{
  Wait, waited, Lease, Finish, finish, has_written, may_have_written, is_retry,
}
use k8s_incident_agent.Lease.Follows.{IsKeyed}
use k8s_incident_agent.Lease.Finishing.{finish_inv}
use k8s_incident_agent.Operation.{Request, dispatch, start_dispatch, is_prepared, prepare}
use k8s_incident_agent.Operation.Preparing.{prepare_inv, prepare-runs, prepared_row}
use k8s_incident_agent.Operation.Dispatching.{dispatch_inv, dispatch-runs}
use k8s_incident_agent.Operation.Evolution.{is_rejected}
use k8s_incident_agent.Protocol.{Call, run}
use k8s_incident_agent.Protocol.Progress.{run-Advances}

-- The dispatched operation, as the dispatch leaves it.
pub dispatched :
    (db : Db) (lease : Lease) (operation_id : Key) (wait : Wait) (db' : Db)
    → dispatch db lease operation_id wait ≡ ok db'
    → (o : Operation) × (find_operation lease.run_id db'.operations ≡ some o)
      × (o.state ≡ OperationState.dispatching)
      × (IsKeyed db.runs → IsKeyed db'.runs)
unfolding start_dispatch
dispatched db lease operation_id wait db' h =
    let (o, d) = dispatch_inv db lease operation_id wait db' h in
    (
      start_dispatch lease.lease_epoch (db.now + waited wait) o,
      rw d.written (
          find_operation-update_self lease.run_id
            (start_dispatch lease.lease_epoch (db.now + waited wait)) db.operations o (λ p. refl)
            d.found),
      refl,
      λ keyed. rw (dispatch-runs db lease operation_id wait db' h) keyed,
    )

-- A second dispatch would need an operation that is still prepared.
not_dispatched :
    (db : Db) (lease : Lease) (operation_id : Key) (wait : Wait) (o : Operation) (db' : Db)
    → find_operation lease.run_id db.operations ≡ some o
    → is_prepared o.state ≡ false
    → dispatch db lease operation_id wait ≢ ok db'
not_dispatched db lease operation_id wait o db' found left h =
    let (p, d) = dispatch_inv db lease operation_id wait db' h in
    let same : p ≡ o = some-injective p o (sym d.found ∙ found) in
    ground (arith, d.was_prepared, ap (λ (x : Operation). x.state) same)

unwritten :
    (k : Key) (os : List Operation) (o : Operation)
    → find_operation k os ≡ some o
    → any (λ p. p.run_id == k && may_have_written p.state) os ≡ false
    → may_have_written o.state ≡ false
unfolding find_operation
unwritten k [] o found h = cc
unwritten k (p ∷ os) o found h = ground (arith, unwritten k os o)

-- No operation of the run can have been written when `finish` schedules a retry.
pub retry_unwritten :
    (db : Db) (lease : Lease) (a : Finish) (wait : Wait) (db' : Db) (o : Operation)
    → find_operation lease.run_id db.operations ≡ some o
    → finish db lease a wait ≡ ok (RunStatus.retry_scheduled, db')
    → may_have_written o.state ≡ false
unfolding has_written
retry_unwritten db lease a wait db' o found h =
    let f = finish_inv db lease a wait RunStatus.retry_scheduled db' h in
    unwritten lease.run_id db.operations o found (f.safe (ap is_retry (sym f.returned)))

only_rejected :
    (s : OperationState)
    → may_have_written s ≡ false
    → is_prepared s ≡ false
    → s ≡ OperationState.rejected
only_rejected s h k = ground arith

prepared_again :
    (digest : Key → Key → Key → Key) (db : Db) (lease : Lease) (q : Request) (wait : Wait)
    (p : Operation) (db' : Db) (o : Operation)
    → find_operation lease.run_id db.operations ≡ some o
    → prepare digest db lease q wait ≡ ok (p, db')
    → (p ≡ o) × (db'.operations ≡ db.operations)
prepared_again digest db lease q wait p db' o found h =
    elim (prepare_inv digest db lease q wait p db' h).written [
      | inl (there, same) ↦
          (some-injective p o (sym there ∙ found), ap (λ (d : Db). d.operations) same)
      | inr (missing, new, executable, same) ↦ absurd (absent o (sym missing ∙ found))
    ]
  where
    absent : (x : Operation) → none ≡ some x → ⊥
    absent x e = cc

-- The journal has the operation with its response, its authorisation and its patch.
pub record Answered (run_id : Key) (o : Operation) (response : Doc) (db : Db) : Type 0 where
  pub answered : Operation
  pub found : find_operation run_id db.operations ≡ some answered
  pub same_response : answered.response_snapshot ≡ some response
  pub same_operation : answered.operation_id ≡ o.operation_id
  pub same_approval : answered.approval_id ≡ o.approval_id
  pub same_plan : answered.plan_revision ≡ o.plan_revision
  pub same_before : answered.before_snapshot ≡ o.before_snapshot
  pub same_patch : answered.request_patch ≡ o.request_patch

-- The journal has the operation as rejected, with its authorisation and its patch.
pub record StillRejected (run_id : Key) (o : Operation) (db : Db) : Type 0 where
  pub kept : Operation
  pub found : find_operation run_id db.operations ≡ some kept
  pub rejected : kept.state ≡ OperationState.rejected
  pub same_operation : kept.operation_id ≡ o.operation_id
  pub same_approval : kept.approval_id ≡ o.approval_id
  pub same_plan : kept.plan_revision ≡ o.plan_revision
  pub same_patch : kept.request_patch ≡ o.request_patch

is_rejected-eq : (s : OperationState) → is_rejected s ≡ true → s ≡ OperationState.rejected
is_rejected-eq s h = ground arith

module _ (digest : Key → Key → Key → Key) where
  -- A run's operation is dispatched at most once: after a dispatch, no worker dispatches for the run
  -- again, whatever was called in between.
  pub dispatch_once :
      (db db' : Db) (lease : Lease) (operation_id : Key) (wait : Wait)
      → IsKeyed db.runs
      → dispatch db lease operation_id wait ≡ ok db'
      → (later : List Call) (lease' : Lease) (operation_id' : Key) (wait' : Wait) (db2 : Db)
      → lease'.run_id ≡ lease.run_id
      → dispatch (run digest db' later) lease' operation_id' wait' ≢ ok db2
  dispatch_once db db' lease operation_id wait keyed h later lease' operation_id' wait' db2 same =
      let (o, found, dispatching, keep) = dispatched db lease operation_id wait db' h in
      let (p, found', extends) =
        (run-Advances digest db' later (keep keyed)).operations_extend.at_key lease.run_id o
          found in
      not_dispatched (run digest db' later) lease' operation_id' wait' p db2
        (ap (λ i. find_operation i (run digest db' later).operations) same ∙ found')
        (extends.leaves_prepared (ap is_prepared dispatching))

  -- A response that was recorded for an operation stays, with the authorisation and the patch that
  -- it answers.
  pub response_kept :
      (db : Db) (run_id : Key) (o : Operation) (response : Doc)
      → IsKeyed db.runs
      → find_operation run_id db.operations ≡ some o
      → o.response_snapshot ≡ some response
      → (later : List Call) → Answered run_id o response (run digest db later)
  response_kept db run_id o response keyed found recorded later =
      let (p, found', e) =
        (run-Advances digest db later keyed).operations_extend.at_key run_id o found in
      record {
        answered = p;
        found = found';
        same_response = e.keeps_response (ap is_some recorded) ∙ recorded;
        same_operation = e.same_operation.0;
        same_approval = e.same_authority.0;
        same_plan = e.same_authority.1;
        same_before = e.same_write.1;
        same_patch = e.same_write.3;
      }

  -- An operation that was rejected stays in the journal as rejected, with its patch and its
  -- authorisation, after any calls of the two repositories, and it is never dispatched.
  pub rejected_forever :
      (db : Db) (run_id : Key) (o : Operation)
      → IsKeyed db.runs
      → find_operation run_id db.operations ≡ some o
      → o.state ≡ OperationState.rejected
      → (later : List Call) (lease : Lease) (operation_id : Key) (wait : Wait) (db' : Db)
      → lease.run_id ≡ run_id
      → StillRejected run_id o (run digest db later)
        × (dispatch (run digest db later) lease operation_id wait ≢ ok db')
  rejected_forever db run_id o keyed found rejected later lease operation_id wait db' same =
      let (p, found', e) =
        (run-Advances digest db later keyed).operations_extend.at_key run_id o found in
      (
        record {
          kept = p;
          found = found';
          rejected = is_rejected-eq p.state (e.stays_rejected (ap is_rejected rejected));
          same_operation = e.same_operation.0;
          same_approval = e.same_authority.0;
          same_plan = e.same_authority.1;
          same_patch = e.same_write.3;
        },
        not_dispatched (run digest db later) lease operation_id wait p db'
            (ap (λ i. find_operation i (run digest db later).operations) same ∙ found')
            (e.leaves_prepared (ap is_prepared rejected)),
      )

  -- A run that has dispatched its write is scheduled for an ordinary retry only if the write has
  -- been rejected.
  pub retry_after_dispatch :
      (db db' : Db) (lease : Lease) (operation_id : Key) (wait : Wait)
      → IsKeyed db.runs
      → dispatch db lease operation_id wait ≡ ok db'
      → (later : List Call) (lease' : Lease) (a : Finish) (wait' : Wait) (db2 : Db)
      → lease'.run_id ≡ lease.run_id
      → finish (run digest db' later) lease' a wait' ≡ ok (RunStatus.retry_scheduled, db2)
      → (p : Operation) × (find_operation lease.run_id (run digest db' later).operations ≡ some p)
        × (p.state ≡ OperationState.rejected)
  retry_after_dispatch db db' lease operation_id wait keyed h later lease' a wait' db2 same ended =
      let (o, found, dispatching, keep) = dispatched db lease operation_id wait db' h in
      let (p, found', e) =
        (run-Advances digest db' later (keep keyed)).operations_extend.at_key lease.run_id o
          found in
      let silent =
        retry_unwritten (run digest db' later) lease' a wait' db2 p
          (ap (λ i. find_operation i (run digest db' later).operations) same ∙ found') ended in
      let left = e.leaves_prepared (ap is_prepared dispatching) in
      (p, found', only_rejected p.state silent left)

  -- A preparation that is repeated, by a later lease of the run too, returns the operation with the
  -- patch and the snapshots of the first.
  pub prepare_again :
      (db db' db2 : Db) (lease lease' : Lease) (q q' : Request) (wait wait' : Wait)
      (o p : Operation) (later : List Call)
      → IsKeyed db.runs
      → prepare digest db lease q wait ≡ ok (o, db')
      → lease'.run_id ≡ lease.run_id
      → prepare digest (run digest db' later) lease' q' wait' ≡ ok (p, db2)
      → (p.request_patch ≡ o.request_patch)
        × (p.before_snapshot ≡ o.before_snapshot)
        × (p.target_snapshot ≡ o.target_snapshot)
        × (digest lease'.run_id q'.plan_revision q'.approval_id
            ≡ digest lease.run_id q.plan_revision q.approval_id)
        × (db2.operations ≡ (run digest db' later).operations)
  prepare_again db db' db2 lease lease' q q' wait wait' o p later keyed first same second =
      let found = prepared_row digest db lease q wait o db' first in
      let keyed' = subst IsKeyed (sym (prepare-runs digest db lease q wait o db' first)) keyed in
      let (x, found_x, e) =
        (run-Advances digest db' later keyed').operations_extend.at_key lease.run_id o found in
      let (equal, unchanged) =
        prepared_again digest (run digest db' later) lease' q' wait' p db2 x
          (ap (λ i. find_operation i (run digest db' later).operations) same ∙ found_x) second in
      let id' =
        (prepare_inv digest (run digest db' later) lease' q' wait' p db2 second).identified in
      let id = (prepare_inv digest db lease q wait o db' first).identified in
      (
        ap (λ (y : Operation). y.request_patch) equal ∙ e.same_write.3,
        ap (λ (y : Operation). y.before_snapshot) equal ∙ e.same_write.1,
        ap (λ (y : Operation). y.target_snapshot) equal ∙ e.same_write.2,
        sym id' ∙ ap (λ (y : Operation). y.operation_id) equal ∙ e.same_operation.0 ∙ id,
        unchanged,
      )
