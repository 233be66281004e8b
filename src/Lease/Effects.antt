-- ===== src/Lease/Effects.antt =====
-- The effect of each method of backend/app/persistence/leases.py on the table of the runs.
use k8s_incident_agent.Prelude.{
  false, not, none, ◌&&◌, leb, Option, ℕ, ◌+◌, ◌≡◌, refl, Option, some, true, arith, Bool,
}
use k8s_incident_agent.Outcome.{ok, >>=-eq-ok}
use k8s_incident_agent.Database.{Key, set_run, Run, find_run, Db}
use k8s_incident_agent.Lease.{
  Wait, claim, heartbeat, mark_checkpoint_started, Lease, select_claimable, claim_row, take_lease,
  claimable, fence, heartbeat, mark_checkpoint_started, claim,
}
use k8s_incident_agent.Lease.Fencing.{fence_inv}
use k8s_incident_agent.Lease.Evolution.{
  heartbeat-Evolves, take_lease-Evolves, claimable-live, mark-Evolves,
}
use k8s_incident_agent.Lease.Selection.{select_first-passes, select_first-present}
use k8s_incident_agent.Lease.Follows.{Follows, IsKeyed, Follows-refl, update_run-Follows}

-- The row that the fence found, in the connection that it yields.
pub heartbeat-Follows :
    (db : Db) (lease : Lease) (seconds : ℕ) (wait : Wait) (db' : Db)
    → heartbeat db lease seconds wait ≡ ok db'
    → Follows db.runs db'.runs
unfolding heartbeat
heartbeat-Follows db lease seconds wait db' h =
    let (conn, passed, done) = >>=-eq-ok (fence db lease wait) _ h in
    let (r, found, held, clock) = fence_inv db lease wait conn passed in
    update_run-Follows lease.run_id r
      (λ s. record s { heartbeat_at = some conn.now; lease_expires_at = some (conn.now + seconds) })
      db.runs found (heartbeat-Evolves r _ _ held.runs) (λ s. refl) db'.runs (ground arith)

pub mark-Follows :
    (db : Db) (lease : Lease) (wait : Wait) (db' : Db)
    → mark_checkpoint_started db lease wait ≡ ok db'
    → Follows db.runs db'.runs
unfolding mark_checkpoint_started
mark-Follows db lease wait db' h =
    let (conn, passed, done) = >>=-eq-ok (fence db lease wait) _ h in
    let (r, found, held, clock) = fence_inv db lease wait conn passed in
    update_run-Follows lease.run_id r (λ s. record s { checkpoint_started = true }) db.runs found
      (mark-Evolves r) (λ s. refl) db'.runs (ground arith)

take_lease-run_id :
    (owner : Key) (seconds now : ℕ) (recovery_only : Bool) (r : Run)
    → (take_lease owner seconds now recovery_only r).run_id ≡ r.run_id
unfolding take_lease
take_lease-run_id owner seconds now recovery_only r = refl

-- What a `claim` that returns a lease has done.
pub record IsClaimed (db : Db) (owner : Key) (seconds max_attempts : ℕ) (locked : Key → Bool)
    (lease : Lease) (db' : Db) : Type 0 where
  pub row : Run
  pub selected : select_claimable db locked ≡ some row
  pub spent : lease.recovery_only ≡ leb (max_attempts + row.attempt_base) row.attempt
  pub taken : lease.row ≡ take_lease owner seconds db.now lease.recovery_only row
  pub written : db' ≡ set_run db row.run_id (take_lease owner seconds db.now lease.recovery_only)

claimed_row : Run → Option Run → Run
claimed_row d none = d
claimed_row d (some r) = r

claim_row_inv :
    (db : Db) (owner : Key) (seconds max_attempts : ℕ) (locked : Key → Bool) (o : Option Run)
    (lease : Lease) (db' : Db)
    → select_claimable db locked ≡ o
    → claim_row db owner seconds max_attempts o ≡ (some lease, db')
    → IsClaimed db owner seconds max_attempts locked lease db'
unfolding claim_row
claim_row_inv db owner seconds max_attempts locked none lease db' e h = absurd (ground arith)
claim_row_inv db owner seconds max_attempts locked (some row) lease db' e h = record {
  row = row;
  selected = e;
  spent = ground arith;
  taken = ground arith;
  written = ground arith;
}

pub claim_inv :
    (db : Db) (owner : Key) (seconds max_attempts : ℕ) (locked : Key → Bool) (lease : Lease)
    (db' : Db)
    → claim db owner seconds max_attempts locked ≡ (some lease, db')
    → IsClaimed db owner seconds max_attempts locked lease db'
unfolding claim
claim_inv db owner seconds max_attempts locked lease db' h =
    claim_row_inv db owner seconds max_attempts locked (select_claimable db locked) lease db' refl h

-- The selected row is in the table, and could be claimed.
pub select_claimable-found :
    (db : Db) (locked : Key → Bool) (r : Run)
    → IsKeyed db.runs
    → select_claimable db locked ≡ some r
    → (find_run r.run_id db.runs ≡ some r) × (claimable db.now r ≡ true) × (locked r.run_id ≡ false)
unfolding select_claimable
select_claimable-found db locked r keyed h =
    let passes =
      select_first-passes (λ s. claimable db.now s && not (locked s.run_id)) db.runs r h in
    (
      select_first-present (λ s. claimable db.now s && not (locked s.run_id)) db.runs r keyed h,
      ground arith,
      ground arith,
    )

claim_row-Follows :
    (db : Db) (owner : Key) (seconds max_attempts : ℕ) (locked : Key → Bool) (o : Option Run)
    → IsKeyed db.runs
    → select_claimable db locked ≡ o
    → Follows db.runs (claim_row db owner seconds max_attempts o).1.runs
unfolding claim_row
claim_row-Follows db owner seconds max_attempts locked none keyed e = Follows-refl db.runs
claim_row-Follows db owner seconds max_attempts locked (some r) keyed e =
    let (found, could, free) = select_claimable-found db locked r keyed e in
    update_run-Follows r.run_id r
      (take_lease owner seconds db.now (leb (max_attempts + r.attempt_base) r.attempt)) db.runs
      found
      (take_lease-Evolves owner seconds db.now (leb (max_attempts + r.attempt_base) r.attempt) r
        (claimable-live db.now r could))
      (take_lease-run_id owner seconds db.now (leb (max_attempts + r.attempt_base) r.attempt)) _
      refl

pub claim-Follows :
    (db : Db) (owner : Key) (seconds max_attempts : ℕ) (locked : Key → Bool)
    → IsKeyed db.runs
    → Follows db.runs (claim db owner seconds max_attempts locked).1.runs
unfolding claim
claim-Follows db owner seconds max_attempts locked keyed =
    claim_row-Follows db owner seconds max_attempts locked (select_claimable db locked) keyed refl

pub heartbeat-operations :
    (db : Db) (lease : Lease) (seconds : ℕ) (wait : Wait) (db' : Db)
    → heartbeat db lease seconds wait ≡ ok db'
    → db'.operations ≡ db.operations
unfolding heartbeat
heartbeat-operations db lease seconds wait db' h =
    let (conn, passed, done) = >>=-eq-ok (fence db lease wait) _ h in
    let (r, found, held, clock) = fence_inv db lease wait conn passed in ground arith

pub mark-operations :
    (db : Db) (lease : Lease) (wait : Wait) (db' : Db)
    → mark_checkpoint_started db lease wait ≡ ok db'
    → db'.operations ≡ db.operations
unfolding mark_checkpoint_started
mark-operations db lease wait db' h =
    let (conn, passed, done) = >>=-eq-ok (fence db lease wait) _ h in
    let (r, found, held, clock) = fence_inv db lease wait conn passed in ground arith

pub claim-operations :
    (db : Db) (owner : Key) (seconds max_attempts : ℕ) (locked : Key → Bool)
    → (claim db owner seconds max_attempts locked).1.operations ≡ db.operations
unfolding claim claim_row
claim-operations db owner seconds max_attempts locked = ground arith
