-- ===== src/Operation/Preparing.antt =====
-- `prepare` of backend/app/persistence/operations.py: when an operation enters the journal.
use k8s_incident_agent.Prelude.{
  List, ap, sym, ◌∙◌, ℕ, ◌+◌, ◌≡◌, refl, ◌∙◌, sym, subst, true, false, Option, none, some, [], ◌∷◌,
  ◌++◌, arith, inl, inr, ◌⊎◌,
}
use k8s_incident_agent.Outcome.{ok, ◌>>◌, >>=-eq-ok, raise_if, approval_conflict}
use k8s_incident_agent.Database.{Key, Run, Operation, Db, find_run, find_operation}
use k8s_incident_agent.Lease.{Wait, waited, Lease, fence}
use k8s_incident_agent.Lease.Fencing.{IsHeld, fence_inv}
use k8s_incident_agent.Operation.{
  Request, assert_revision, prepare, insert_operation, blocked, new_operation, is_executable,
}
use k8s_incident_agent.Operation.Evolution.{Journals, Journals-refl, append-Journals}

-- The clock does not matter to the revisions.
assert_revision-now :
    (db : Db) (t : ℕ) (k : Key) → assert_revision (record db { now = t }) k ≡ assert_revision db k
unfolding assert_revision
assert_revision-now db t k = refl

-- What a `prepare` that returns has done.
pub record IsPrepared (digest : Key → Key → Key → Key) (db : Db) (lease : Lease) (q : Request)
    (wait : Wait) (o : Operation) (db' : Db) : Type 0 where
  pub row : Run
  pub owned : find_run lease.run_id db.runs ≡ some row
  pub held : IsHeld lease (db.now + waited wait) row
  pub unblocked : blocked lease db.operations ≡ false
  pub current : assert_revision db lease.run_id ≡ ok tt
  pub identified : o.operation_id ≡ digest lease.run_id q.plan_revision q.approval_id
  pub written :
      ((find_operation lease.run_id db.operations ≡ some o)
        × (db' ≡ record db { now = db.now + waited wait }))
      ⊎ ((find_operation lease.run_id db.operations ≡ none)
          × (o
              ≡ new_operation
                  (digest lease.run_id q.plan_revision q.approval_id)
                  lease
                  q
                  (db.now + waited wait))
          × (is_executable q.action ≡ true)
          × (db' ≡ record db { now = db.now + waited wait; operations = db.operations ++ o ∷ [] }))

new_operation-operation_id :
    (k : Key) (lease : Lease) (q : Request) (now : ℕ)
    → (new_operation k lease q now).operation_id ≡ k
unfolding new_operation
new_operation-operation_id k lease q now = refl

insert_inv :
    (conn : Db) (k : Key) (lease : Lease) (q : Request) (x : Option Operation) (o : Operation)
    (db' : Db)
    → insert_operation conn k lease q x ≡ ok (o, db')
    → (o.operation_id ≡ k)
      × (((x ≡ some o) × (db' ≡ conn))
          ⊎ ((x ≡ none)
              × (o ≡ new_operation k lease q conn.now)
              × (is_executable q.action ≡ true)
              × (db' ≡ record conn { operations = conn.operations ++ o ∷ [] })))
unfolding insert_operation
insert_inv conn k lease q (some existing) o db' h = (ground arith, inl (ground arith, ground arith))
insert_inv conn k lease q none o db' h = (
  ground (arith, new_operation-operation_id k lease q conn.now),
  inr (refl, ground arith, ground arith, ground arith),
)

prepare_held :
    (digest : Key → Key → Key → Key) (db : Db) (lease : Lease) (q : Request) (wait : Wait)
    (o : Operation) (db' : Db) (row : Run)
    → find_run lease.run_id db.runs ≡ some row
    → IsHeld lease (db.now + waited wait) row
    → (do
      raise_if (blocked lease db.operations) approval_conflict
      assert_revision (record db { now = db.now + waited wait }) lease.run_id
      insert_operation
          (record db { now = db.now + waited wait })
          (digest lease.run_id q.plan_revision q.approval_id)
          lease
          q
          (find_operation lease.run_id db.operations))
      ≡ ok (o, db')
    → IsPrepared digest db lease q wait o db'
prepare_held digest db lease q wait o db' row owned held h =
    let (u, unblocked, h1) =
      >>=-eq-ok (raise_if (blocked lease db.operations) approval_conflict) _ h in
    let (unit, current, h2) =
      >>=-eq-ok (assert_revision (record db { now = db.now + waited wait }) lease.run_id) _ h1 in
    let (identified, written) =
      insert_inv _ _ lease q (find_operation lease.run_id db.operations) o db' h2 in
    record {
      row = row;
      owned = owned;
      held = held;
      unblocked = ground arith;
      current = sym (assert_revision-now db (db.now + waited wait) lease.run_id) ∙ current;
      identified = identified;
      written = written;
    }

pub prepare_inv :
    (digest : Key → Key → Key → Key) (db : Db) (lease : Lease) (q : Request) (wait : Wait)
    (o : Operation) (db' : Db)
    → prepare digest db lease q wait ≡ ok (o, db')
    → IsPrepared digest db lease q wait o db'
unfolding prepare
prepare_inv digest db lease q wait o db' h =
    let (conn, passed, h1) = >>=-eq-ok (fence db lease wait) _ h in
    let (row, owned, held, clock) = fence_inv db lease wait conn passed in
    prepare_held digest db lease q wait o db' row owned held (
      subst
        (λ c.
          (raise_if (blocked lease c.operations) approval_conflict
            >> (assert_revision c lease.run_id
                >> insert_operation c (digest lease.run_id q.plan_revision q.approval_id) lease q
                    (find_operation lease.run_id c.operations)))
          ≡ ok (o, db'))
        clock h1)

pub prepare-runs :
    (digest : Key → Key → Key → Key) (db : Db) (lease : Lease) (q : Request) (wait : Wait)
    (o : Operation) (db' : Db)
    → prepare digest db lease q wait ≡ ok (o, db')
    → db'.runs ≡ db.runs
prepare-runs digest db lease q wait o db' h =
    let p = prepare_inv digest db lease q wait o db' h in
    elim p.written [ inl (found, same) ↦ rw same | inr (missing, new, executable, same) ↦ rw same ]

pub prepare-Journals :
    (digest : Key → Key → Key → Key) (db : Db) (lease : Lease) (q : Request) (wait : Wait)
    (o : Operation) (db' : Db)
    → prepare digest db lease q wait ≡ ok (o, db')
    → Journals db.operations db'.operations
prepare-Journals digest db lease q wait o db' h =
    let p = prepare_inv digest db lease q wait o db' h in
    elim p.written [
      | inl (found, same) ↦ rw same (Journals-refl db.operations)
      | inr (missing, new, executable, same) ↦ rw same (append-Journals db.operations (o ∷ []))
    ]

find_operation-append_new :
    (os : List Operation) (o : Operation) (k : Key)
    → find_operation k os ≡ none
    → o.run_id ≡ k
    → find_operation k (os ++ o ∷ []) ≡ some o
unfolding find_operation
find_operation-append_new [] o k h e = ground arith
find_operation-append_new (p ∷ os) o k h e = ground (arith, find_operation-append_new os o k)

new_operation-run_id :
    (k : Key) (lease : Lease) (q : Request) (now : ℕ)
    → (new_operation k lease q now).run_id ≡ lease.run_id
unfolding new_operation
new_operation-run_id k lease q now = refl

-- The operation that `prepare` returns is the run's operation in the journal.
pub prepared_row :
    (digest : Key → Key → Key → Key) (db : Db) (lease : Lease) (q : Request) (wait : Wait)
    (o : Operation) (db' : Db)
    → prepare digest db lease q wait ≡ ok (o, db')
    → find_operation lease.run_id db'.operations ≡ some o
prepared_row digest db lease q wait o db' h =
    elim (prepare_inv digest db lease q wait o db' h).written [
      | inl (found, same) ↦ rw same found
      | inr (missing, new, executable, same) ↦ rw same (
          find_operation-append_new db.operations o lease.run_id missing (
            ap (λ (x : Operation). x.run_id) new
            ∙ new_operation-run_id _ lease q (db.now + waited wait)))
    ]
