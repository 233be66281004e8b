-- ===== src/Operation/Recording.antt =====
-- `record` of backend/app/persistence/operations.py: which outcomes are accepted.
use k8s_incident_agent.Prelude.{
  ℕ, ◌+◌, ◌≡◌, refl, subst, Bool, true, false, not, ◌&&◌, ◌||◌, Option, none, some, arith, is_some,
  if◌then◌else◌,
}
use k8s_incident_agent.Outcome.{Outcome, ok, raised, ◌>>◌, >>=-eq-ok, raise_if, value_error}
use k8s_incident_agent.Database.{Run, Operation, Db, find_run, find_operation, set_operation}
use k8s_incident_agent.Lease.{Wait, waited, Lease, fence}
use k8s_incident_agent.Lease.Fencing.{IsHeld, fence_inv}
use k8s_incident_agent.Operation.{
  Report, is_outcome, allowed, record_outcome, record_row, write_report,
}
use k8s_incident_agent.Operation.Evolution.{
  Journals, update_operation-Journals, write_report-Extends,
}

-- What a `record` that returns has done.
pub record IsRecorded (db : Db) (lease : Lease) (q : Report) (wait : Wait) (o : Operation)
    (db' : Db) : Type 0 where
  pub row : Run
  pub owned : find_run lease.run_id db.runs ≡ some row
  pub held : IsHeld lease (db.now + waited wait) row
  pub outcome : is_outcome q.state ≡ true
  pub found : find_operation lease.run_id db.operations ≡ some o
  pub transition : allowed q.state o.state ≡ true
  pub response_once : is_some q.response ≡ true → is_some o.response_snapshot ≡ false
  pub result_once : is_some q.result ≡ true → is_some o.result ≡ false
  pub written :
      db'
      ≡ set_operation
          (record db { now = db.now + waited wait })
          lease.run_id
          (write_report q (db.now + waited wait))

record_checks :
    (a x y z w : Bool) (made db' : Db)
    → (if not a
        then raised (value_error "invalid operation transition")
        else if x && y || z && w
        then raised (value_error "operation response is immutable")
        else ok made)
      ≡ ok db'
    → (a ≡ true) × (x ≡ true → y ≡ false) × (z ≡ true → w ≡ false) × (db' ≡ made)
record_checks a x y z w made db' h =
    (ground arith, λ k. ground arith, λ k. ground arith, ground arith)

record_row_inv :
    (conn : Db) (lease : Lease) (q : Report) (x : Option Operation) (db' : Db)
    → record_row conn lease q x ≡ ok db'
    → (o : Operation) × (x ≡ some o)
      × (allowed q.state o.state ≡ true)
      × (is_some q.response ≡ true → is_some o.response_snapshot ≡ false)
      × (is_some q.result ≡ true → is_some o.result ≡ false)
      × (db' ≡ set_operation conn lease.run_id (write_report q conn.now))
unfolding record_row
record_row_inv conn lease q none db' h = absurd (ground arith)
record_row_inv conn lease q (some o) db' h =
    let (transition, response, result, written) =
      record_checks (allowed q.state o.state) (is_some q.response) (is_some o.response_snapshot)
        (is_some q.result) (is_some o.result)
        (set_operation conn lease.run_id (write_report q conn.now)) db' h in
    (o, refl, transition, response, result, written)

record_held :
    (db : Db) (lease : Lease) (q : Report) (wait : Wait) (db' : Db) (row : Run)
    → find_run lease.run_id db.runs ≡ some row
    → IsHeld lease (db.now + waited wait) row
    → is_outcome q.state ≡ true
    → record_row
        (record db { now = db.now + waited wait })
        lease
        q
        (find_operation lease.run_id db.operations)
      ≡ ok db'
    → (o : Operation) × IsRecorded db lease q wait o db'
record_held db lease q wait db' row owned held outcome h =
    let (o, found, transition, response, result, written) =
      record_row_inv _ lease q (find_operation lease.run_id db.operations) db' h in
    (
      o,
      record {
        row = row;
        owned = owned;
        held = held;
        outcome = outcome;
        found = found;
        transition = transition;
        response_once = response;
        result_once = result;
        written = written;
      },
    )

outcome_check :
    (b : Bool) (rest : Outcome Db) (db' : Db)
    → (raise_if (not b) (value_error "invalid operation outcome") >> rest) ≡ ok db'
    → (b ≡ true) × (rest ≡ ok db')
outcome_check b rest db' h = ground arith

pub record_outcome_inv :
    (db : Db) (lease : Lease) (q : Report) (wait : Wait) (db' : Db)
    → record_outcome db lease q wait ≡ ok db'
    → (o : Operation) × IsRecorded db lease q wait o db'
unfolding record_outcome
record_outcome_inv db lease q wait db' h =
    let (outcome, h0) = outcome_check (is_outcome q.state) _ db' h in
    let (conn, passed, h1) = >>=-eq-ok (fence db lease wait) _ h0 in
    let (row, owned, held, clock) = fence_inv db lease wait conn passed in
    record_held db lease q wait db' row owned held outcome (
      subst (λ c. record_row c lease q (find_operation lease.run_id c.operations) ≡ ok db') clock
        h1)

pub record_outcome-runs :
    (db : Db) (lease : Lease) (q : Report) (wait : Wait) (db' : Db)
    → record_outcome db lease q wait ≡ ok db'
    → db'.runs ≡ db.runs
record_outcome-runs db lease q wait db' h =
    let (o, r) = record_outcome_inv db lease q wait db' h in rw r.written

write_report-run_id :
    (q : Report) (now : ℕ) (o : Operation) → (write_report q now o).run_id ≡ o.run_id
unfolding write_report
write_report-run_id q now o = refl

pub record_outcome-Journals :
    (db : Db) (lease : Lease) (q : Report) (wait : Wait) (db' : Db)
    → record_outcome db lease q wait ≡ ok db'
    → Journals db.operations db'.operations
record_outcome-Journals db lease q wait db' h =
    let (o, r) = record_outcome_inv db lease q wait db' h in
    rw r.written (
      update_operation-Journals lease.run_id o (write_report q (db.now + waited wait)) db.operations
        r.found
        (write_report-Extends q (db.now + waited wait) o r.outcome r.transition r.response_once
          r.result_once)
        (write_report-run_id q (db.now + waited wait)))
