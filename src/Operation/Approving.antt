-- ===== src/Operation/Approving.antt =====
-- `queue_approval` of backend/app/persistence/operations.py: when an approval is saved.
use k8s_incident_agent.Prelude.{
  Bool, sym, ℕ, ◌≡◌, refl, ◌∙◌, ap, true, false, Option, none, some, arith, inl, inr, ◌⊎◌,
}
use mathlib.Core.Option.{some-injective}
use k8s_incident_agent.Outcome.{ok, >>=-eq-ok}
use k8s_incident_agent.Database.{update_run, Key, RunStatus, Approval, Run, Db, find_run, set_run}
use k8s_incident_agent.Lease.Selection.{found_id}
use k8s_incident_agent.Lease.Evolution.{Evolves}
use k8s_incident_agent.Database.Rows.{find_run-update_self}
use k8s_incident_agent.Lease.Follows.{Follows, Follows-refl, update_run-Follows}
use k8s_incident_agent.Operation.{
  bool_eq, queue_approval, queue_row, run_or_conflict, approve_run, same_approval, has_open,
  assert_revision,
}

approve_run-Evolves :
    (payload : Approval) (now : ℕ) (r : Run)
    → r.status ≡ RunStatus.waiting_approval
    → r.approval_payload ≡ none
    → Evolves r (approve_run payload now r)
unfolding approve_run
approve_run-Evolves payload now r waiting fresh = ground arith

run_or_conflict_inv : (o : Option Run) (r : Run) → run_or_conflict o ≡ ok r → o ≡ some r
unfolding run_or_conflict
run_or_conflict_inv o r h = ground arith

approve_run-run_id :
    (payload : Approval) (now : ℕ) (r : Run) → (approve_run payload now r).run_id ≡ r.run_id
unfolding approve_run
approve_run-run_id payload now r = refl

-- An approval is queued once, on a run that waits for it, or is the one that was saved.
pub record IsQueued (db : Db) (run_id : Key) (payload : Approval) (row : Run) (db' : Db)
    : Type 0 where
  pub found : find_run run_id db.runs ≡ some row
  pub current : assert_revision db run_id ≡ ok tt
  pub fresh : row.approval_payload ≡ none
  pub waiting : row.status ≡ RunStatus.waiting_approval
  pub closed : has_open row.incident_id db.operations ≡ false
  pub written : db' ≡ set_run db row.run_id (approve_run payload db.now)

queue_row_inv :
    (db : Db) (payload : Approval) (row : Run) (o : Option Approval) (db' : Db)
    → queue_row db payload row o ≡ ok db'
    → ((saved : Approval) × (o ≡ some saved) × (same_approval saved payload ≡ true) × (db' ≡ db))
      ⊎ ((o ≡ none)
          × (row.status ≡ RunStatus.waiting_approval)
          × (has_open row.incident_id db.operations ≡ false)
          × (db' ≡ set_run db row.run_id (approve_run payload db.now)))
unfolding queue_row
queue_row_inv db payload row (some saved) db' h = inl (saved, refl, ground arith, ground arith)
queue_row_inv db payload row none db' h = inr (refl, ground arith, ground arith, ground arith)

pub queue_approval_inv :
    (db : Db) (run_id : Key) (payload : Approval) (db' : Db)
    → queue_approval db run_id payload ≡ ok db'
    → (db' ≡ db) ⊎ ((row : Run) × IsQueued db run_id payload row db')
unfolding queue_approval
queue_approval_inv db run_id payload db' h =
    let (target, e1, h1) = >>=-eq-ok (run_or_conflict (find_run run_id db.runs)) _ h in
    let (unit, e2, h2) = >>=-eq-ok (assert_revision db run_id) _ h1 in
    let (row, e3, h3) = >>=-eq-ok (run_or_conflict (find_run run_id db.runs)) _ h2 in
    elim (queue_row_inv db payload row row.approval_payload db' h3) [
      | inl same ↦ inl same.3
      | inr new ↦ inr (
        row,
        record {
          found = run_or_conflict_inv (find_run run_id db.runs) row e3;
          current = e2;
          fresh = new.0;
          waiting = new.1;
          closed = new.2;
          written = new.3;
        },
      )
    ]

pub queue_approval-Follows :
    (db : Db) (run_id : Key) (payload : Approval) (db' : Db)
    → queue_approval db run_id payload ≡ ok db'
    → Follows db.runs db'.runs
queue_approval-Follows db run_id payload db' h = elim (queue_approval_inv db run_id payload db' h) [
  | inl same ↦ rw same (Follows-refl db.runs)
  | inr (row, q) ↦
      update_run-Follows row.run_id row (approve_run payload db.now) db.runs
        (ap (λ i. find_run i db.runs) (found_id run_id row db.runs q.found) ∙ q.found)
        (approve_run-Evolves payload db.now row q.waiting q.fresh)
        (approve_run-run_id payload db.now) db'.runs (rw q.written)
]

pub queue_approval-operations :
    (db : Db) (run_id : Key) (payload : Approval) (db' : Db)
    → queue_approval db run_id payload ≡ ok db'
    → db'.operations ≡ db.operations
queue_approval-operations db run_id payload db' h =
    elim (queue_approval_inv db run_id payload db' h) [
      | inl same ↦ rw same
      | inr (row, q) ↦ rw q.written
    ]

bool_eq→eq : (a b : Bool) → bool_eq a b ≡ true → a ≡ b
bool_eq→eq a b h = ground arith

same_approval→eq : (p q : Approval) → same_approval p q ≡ true → p ≡ q
unfolding same_approval
same_approval→eq p q h = ground arith

queue_saved_row :
    (db : Db) (payload : Approval) (row : Run) (o : Option Approval) (saved : Approval) (db' : Db)
    → o ≡ some saved
    → queue_row db payload row o ≡ ok db'
    → (payload ≡ saved) × (db' ≡ db)
queue_saved_row db payload row o saved db' e h = elim (queue_row_inv db payload row o db' h) [
  | inl (there, found, same, unchanged) ↦ (
    sym (same_approval→eq there payload same) ∙ some-injective there saved (sym found ∙ e),
    unchanged,
  )
  | inr (missing, rest, r2, r3) ↦ absurd (absent (sym missing ∙ e))
]
  where
    absent : none ≡ some saved → ⊥
    absent x = cc

-- On a run that has an approval, only that approval is accepted, and nothing changes.
pub queue_saved :
    (db : Db) (run_id : Key) (saved payload : Approval) (row : Run) (db' : Db)
    → find_run run_id db.runs ≡ some row
    → row.approval_payload ≡ some saved
    → queue_approval db run_id payload ≡ ok db'
    → (payload ≡ saved) × (db' ≡ db)
unfolding queue_approval
queue_saved db run_id saved payload row db' found e h =
    let (target, e1, h1) = >>=-eq-ok (run_or_conflict (find_run run_id db.runs)) _ h in
    let (unit, e2, h2) = >>=-eq-ok (assert_revision db run_id) _ h1 in
    let (r, e3, h3) = >>=-eq-ok (run_or_conflict (find_run run_id db.runs)) _ h2 in
    let same : r ≡ row =
      some-injective r row (sym (run_or_conflict_inv (find_run run_id db.runs) r e3) ∙ found) in
    queue_saved_row db payload r r.approval_payload saved db'
      (ap (λ (x : Run). x.approval_payload) same ∙ e) h3

saved_of :
    (db : Db) (run_id : Key) (payload : Approval) (row : Run) (db' : Db)
    → find_run run_id db.runs ≡ some row
    → queue_row db payload row row.approval_payload ≡ ok db'
    → (r : Run) × (find_run run_id db'.runs ≡ some r) × (r.approval_payload ≡ some payload)
unfolding approve_run
saved_of db run_id payload row db' found h =
    elim (queue_row_inv db payload row row.approval_payload db' h) [
      | inl (there, e, same, unchanged) ↦ (
        row,
        ap (λ (d : Db). find_run run_id d.runs) unchanged ∙ found,
        e ∙ ap some (same_approval→eq there payload same),
      )
      | inr (missing, waiting, closed, written) ↦
          let id = found_id run_id row db.runs found in
          let updated =
            find_run-update_self row.run_id (approve_run payload db.now) db.runs row (λ r. refl)
              (ap (λ i. find_run i db.runs) id ∙ found) in
          (
            approve_run payload db.now row,
            ap (λ (d : Db). find_run run_id d.runs) written
                ∙ ap (λ i. find_run i (update_run row.run_id (approve_run payload db.now) db.runs))
                    (sym id)
                ∙ updated,
            refl,
          )
    ]

-- An approval that was accepted is the run's saved one.
pub saved_row :
    (db : Db) (run_id : Key) (payload : Approval) (db' : Db)
    → queue_approval db run_id payload ≡ ok db'
    → (r : Run) × (find_run run_id db'.runs ≡ some r) × (r.approval_payload ≡ some payload)
unfolding queue_approval
saved_row db run_id payload db' h =
    let (target, e1, h1) = >>=-eq-ok (run_or_conflict (find_run run_id db.runs)) _ h in
    let (unit, e2, h2) = >>=-eq-ok (assert_revision db run_id) _ h1 in
    let (row, e3, h3) = >>=-eq-ok (run_or_conflict (find_run run_id db.runs)) _ h2 in
    let found = run_or_conflict_inv (find_run run_id db.runs) row e3 in
    saved_of db run_id payload row db' found h3
