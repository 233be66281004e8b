-- ===== src/Lease/Claiming.antt =====
-- `claim` of backend/app/persistence/leases.py: which run a worker gets, and with what lease.
use k8s_incident_agent.Prelude.{
  ℕ, ◌+◌, ◌≤◌, ◌<◌, ◌≡◌, refl, ap, ◌∙◌, sym, subst, Bool, true, false, not, ◌&&◌, Option, none,
  some, List, All, All-imp, arith, inl, leb, if◌then◌else◌,
}
use mathlib.Core.Option.{some-injective}
use k8s_incident_agent.Outcome.{ok}
use k8s_incident_agent.Database.{Key, Run, Db, find_run}
use k8s_incident_agent.Database.Rows.{find_run-update_self}
use k8s_incident_agent.Lease.{
  lock_limit, Wait, waited, Lease, fence, claim, claim_row, take_lease, select_claimable, claimable,
  is_before,
}
use k8s_incident_agent.Lease.Fencing.{IsStale, fence-fresh}
use k8s_incident_agent.Lease.Follows.{IsKeyed, Distinct}
use k8s_incident_agent.Lease.Selection.{select_first-none, select_first-IsLeast}
use k8s_incident_agent.Lease.Effects.{claim_inv, select_claimable-found, claim-Follows}

-- The claimed row, as the claim leaves it.
pub claim-row :
    (db : Db) (owner : Key) (seconds max_attempts : ℕ) (locked : Key → Bool) (lease : Lease)
    (db' : Db)
    → IsKeyed db.runs
    → claim db owner seconds max_attempts locked ≡ (some lease, db')
    → (r : Run) × (find_run lease.run_id db.runs ≡ some r)
      × (find_run lease.run_id db'.runs ≡ some lease.row)
      × (lease.row ≡ take_lease owner seconds db.now lease.recovery_only r)
      × (claimable db.now r ≡ true)
unfolding take_lease
claim-row db owner seconds max_attempts locked lease db' keyed h =
    let c = claim_inv db owner seconds max_attempts locked lease db' h in
    let (found, could, free) = select_claimable-found db locked c.row keyed c.selected in
    let same : lease.run_id ≡ c.row.run_id = ap (λ (r : Run). r.run_id) c.taken in
    let written =
      find_run-update_self c.row.run_id (take_lease owner seconds db.now lease.recovery_only)
        db.runs c.row (λ r. refl) found in
    (
      c.row,
      ap (λ i. find_run i db.runs) same ∙ found,
      ap (λ i. find_run i db'.runs) same
          ∙ ap (λ (d : Db). find_run c.row.run_id d.runs) c.written
          ∙ written
          ∙ ap some (sym c.taken),
      c.taken,
      could,
    )

pub claim-IsKeyed :
    (db : Db) (owner : Key) (seconds max_attempts : ℕ) (locked : Key → Bool) (lease : Lease)
    (db' : Db)
    → IsKeyed db.runs
    → claim db owner seconds max_attempts locked ≡ (some lease, db')
    → IsKeyed db'.runs
claim-IsKeyed db owner seconds max_attempts locked lease db' keyed h =
    subst IsKeyed (ap (λ (x : Option Lease × Db). x.1.runs) h) (
      subst Distinct (sym (claim-Follows db owner seconds max_attempts locked keyed).same_ids)
        keyed)

-- An earlier lease of the run that is claimed is stale from then on.
pub claim-IsStale :
    (db : Db) (owner : Key) (seconds max_attempts : ℕ) (locked : Key → Bool) (new old : Lease)
    (db' : Db) (r : Run)
    → IsKeyed db.runs
    → claim db owner seconds max_attempts locked ≡ (some new, db')
    → old.run_id ≡ new.run_id
    → find_run old.run_id db.runs ≡ some r
    → old.lease_epoch ≤ r.lease_epoch
    → IsStale old new.row
unfolding take_lease
claim-IsStale db owner seconds max_attempts locked new old db' r keyed h same found issued =
    let (s, found', written, taken, could) =
      claim-row db owner seconds max_attempts locked new db' keyed h in
    let e : r ≡ s = some-injective r s (sym found ∙ ap (λ i. find_run i db.runs) same ∙ found') in
    inl (ground (arith, ap (λ (x : Run). x.lease_epoch) e, ap (λ (x : Run). x.lease_epoch) taken))

both_false : (a b : Bool) → (a ≡ true → b ≡ false) → (a && b) ≡ false
both_false true b f = f refl
both_false false b f = refl

abbrev pub could_claim : Db → (Key → Bool) → Run → Bool
could_claim db locked r = claimable db.now r && not (locked r.run_id)

none_before :
    (p : Run → Bool) (r : Run) (rs : List Run)
    → All (λ s. p s ≡ true → is_before s r ≡ false) rs
    → All (λ s. (p s && is_before s r) ≡ false) rs
none_before p r =
    All-imp (λ s. p s ≡ true → is_before s r ≡ false) (λ s. (p s && is_before s r) ≡ false)
      (λ s f. both_false (p s) (is_before s r) f)

-- How a claimed lease stands to the tables before and after.
pub record TakesFirst (db : Db) (max_attempts : ℕ) (locked : Key → Bool) (lease : Lease) (db' : Db)
    : Type 0 where
  pub before : Run
  pub found : find_run lease.run_id db.runs ≡ some before
  pub could : could_claim db locked before ≡ true
  pub first : All (λ s. (could_claim db locked s && is_before s before) ≡ false) db.runs
  pub written : find_run lease.run_id db'.runs ≡ some lease.row
  pub next_epoch : lease.lease_epoch ≡ before.lease_epoch + 1
  pub spent : lease.recovery_only ≡ leb (max_attempts + before.attempt_base) before.attempt
  pub counted : lease.attempt ≡ before.attempt + (if lease.recovery_only then 0 else 1)

-- The lease that `claim` returns is the first row, by creation time and id, of those that are
-- queued, due for a retry or running with an expired lease, and that no other transaction locks; it
-- is written under the next epoch. The attempt is counted unless the budget of attempts is spent,
-- and exactly then the lease is for recovery only.
pub claim-TakesFirst :
    (db : Db) (owner : Key) (seconds max_attempts : ℕ) (locked : Key → Bool) (lease : Lease)
    (db' : Db)
    → IsKeyed db.runs
    → claim db owner seconds max_attempts locked ≡ (some lease, db')
    → TakesFirst db max_attempts locked lease db'
unfolding take_lease select_claimable
claim-TakesFirst db owner seconds max_attempts locked lease db' keyed h =
    let c = claim_inv db owner seconds max_attempts locked lease db' h in
    let (found, can, free) = select_claimable-found db locked c.row keyed c.selected in
    let (r, found', stored, taken, can') =
      claim-row db owner seconds max_attempts locked lease db' keyed h in
    record {
      before = c.row;
      found = ap (λ i. find_run i db.runs) (ap (λ (r : Run). r.run_id) c.taken) ∙ found;
      could = ground (arith, can, free);
      first =
          none_before (could_claim db locked) c.row db.runs
            (select_first-IsLeast (could_claim db locked) db.runs c.row c.selected);
      written = stored;
      next_epoch = ap (λ (x : Run). x.lease_epoch) c.taken;
      spent = c.spent;
      counted = ap (λ (x : Run). x.attempt) c.taken;
    }

claim-none_inv :
    (db : Db) (owner : Key) (seconds max_attempts : ℕ) (o : Option Run) (db' : Db)
    → claim_row db owner seconds max_attempts o ≡ (none, db')
    → (o ≡ none) × (db' ≡ db)
unfolding claim_row
claim-none_inv db owner seconds max_attempts none db' h = (refl, ground arith)
claim-none_inv db owner seconds max_attempts (some r) db' h = absurd (ground arith)

-- No lease is returned only when every row is locked or cannot be claimed, and nothing changes.
pub claim-none :
    (db : Db) (owner : Key) (seconds max_attempts : ℕ) (locked : Key → Bool) (db' : Db)
    → claim db owner seconds max_attempts locked ≡ (none, db')
    → All (λ s. could_claim db locked s ≡ false) db.runs × (db' ≡ db)
unfolding claim select_claimable
claim-none db owner seconds max_attempts locked db' h =
    let (missing, same) =
      claim-none_inv db owner seconds max_attempts (select_claimable db locked) db' h in
    (select_first-none (could_claim db locked) db.runs missing, same)

-- After a claim, when nothing else has been called since, a fence of the claimed lease is passed
-- if it has its locks before the time that was asked for has passed, and waits at most five
-- seconds for each of the two.
pub claim_then_fence :
    (db : Db) (owner : Key) (seconds max_attempts : ℕ) (locked : Key → Bool) (lease : Lease)
    (db' : Db) (elapsed : ℕ) (wait : Wait)
    → IsKeyed db.runs
    → claim db owner seconds max_attempts locked ≡ (some lease, db')
    → (wait.incident_lock ≤ lock_limit) × (wait.run_lock ≤ lock_limit)
    → elapsed + waited wait < seconds
    → fence (record db' { now = db'.now + elapsed }) lease wait
      ≡ ok (record db' { now = db'.now + elapsed + waited wait })
unfolding take_lease
claim_then_fence db owner seconds max_attempts locked lease db' elapsed wait keyed h quick less =
    let c = claim_inv db owner seconds max_attempts locked lease db' h in
    let (r, found, written, taken, could) =
      claim-row db owner seconds max_attempts locked lease db' keyed h in
    let clock : db'.now ≡ db.now = ap (λ (d : Db). d.now) c.written in
    fence-fresh (record db' { now = db'.now + elapsed }) lease wait lease.row owner
      (db.now + seconds) written
      (ap (λ (x : Run). x.lease_owner) taken, ap (λ (x : Run). x.lease_owner) taken) refl
      (ap (λ (x : Run). x.status) taken) (ap (λ (x : Run). x.lease_expires_at) taken) quick
      (omega arith)
