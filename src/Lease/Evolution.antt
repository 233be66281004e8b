-- ===== src/Lease/Evolution.antt =====
-- How the statements of backend/app/persistence/leases.py may change the row of a run.
use k8s_incident_agent.Prelude.{ℕ, ◌≤◌, ◌≡◌, some, true, false, Bool, arith, is_some}
use k8s_incident_agent.Database.{Key, RunStatus, Run}
use k8s_incident_agent.Lease.{
  Lease, Finish, is_running, is_retry, is_terminal, is_result, take_lease, publish_run, claimable,
}
use k8s_incident_agent.Lease.Fencing.{IsStale}

-- What holds of a row between two calls of the lease and operation repositories.
pub record IsValid (r : Run) : Type 0 where
  pub owned : is_some r.lease_owner ≡ is_running r.status
  pub expiring : is_some r.lease_expires_at ≡ is_running r.status
  pub scheduled : is_some r.next_retry_at ≡ is_retry r.status
  pub ended : is_some r.finished_at ≡ is_terminal r.status
  pub counted : r.attempt_base ≤ r.attempt

-- Epochs never fall, a row runs anew only under a new epoch, what has ended stays as it ended, a
-- started checkpoint stays marked and a published output stays.
pub record Evolves (r s : Run) : Type 0 where
  pub same_run : s.run_id ≡ r.run_id
  pub same_incident : s.incident_id ≡ r.incident_id
  pub epoch_grows : r.lease_epoch ≤ s.lease_epoch
  pub new_epoch :
      r.lease_epoch ≡ s.lease_epoch → is_running s.status ≡ true → is_running r.status ≡ true
  pub stays_ended : is_terminal r.status ≡ true → s.status ≡ r.status
  pub stays_started : r.checkpoint_started ≡ true → s.checkpoint_started ≡ true
  pub stays_approved : is_some r.approval_payload ≡ true → s.approval_payload ≡ r.approval_payload
  pub stays_published : is_some r.output_snapshot ≡ true → s.output_snapshot ≡ r.output_snapshot
  pub keeps_valid : IsValid r → IsValid s

pub Evolves-refl : (r : Run) → Evolves r r
Evolves-refl r = ground arith

pub Evolves-trans : (r s t : Run) → Evolves r s → Evolves s t → Evolves r t
Evolves-trans r s t a b = record {
  same_run = ground arith;
  same_incident = ground arith;
  epoch_grows = omega (arith, a.epoch_grows, b.epoch_grows);
  new_epoch = λ e h. ground (arith, a.epoch_grows, b.epoch_grows, a.new_epoch, b.new_epoch);
  stays_ended = λ h. ground (arith, a.stays_ended, b.stays_ended);
  stays_started = λ h. b.stays_started (a.stays_started h);
  stays_approved = λ h. ground (arith, a.stays_approved, b.stays_approved);
  stays_published = λ h. ground (arith, a.stays_published, b.stays_published);
  keeps_valid = λ v. b.keeps_valid (a.keeps_valid v);
}

pub take_lease-Evolves :
    (owner : Key) (seconds now : ℕ) (recovery_only : Bool) (r : Run)
    → is_terminal r.status ≡ false
    → Evolves r (take_lease owner seconds now recovery_only r)
unfolding take_lease
take_lease-Evolves owner seconds now recovery_only r live = ground arith

pub claimable-live : (now : ℕ) (r : Run) → claimable now r ≡ true → is_terminal r.status ≡ false
unfolding claimable
claimable-live now r h = ground arith

pub heartbeat-Evolves :
    (r : Run) (beat expiry : ℕ)
    → r.status ≡ RunStatus.running
    → Evolves r (record r { heartbeat_at = some beat; lease_expires_at = some expiry })
heartbeat-Evolves r beat expiry h = ground arith

pub mark-Evolves : (r : Run) → Evolves r (record r { checkpoint_started = true })
mark-Evolves r = ground arith

pub publish_run-Evolves :
    (a : Finish) (now : ℕ) (r : Run)
    → r.status ≡ RunStatus.running
    → is_result a.status ≡ true
    → is_some a.retry_seconds ≡ is_retry a.status
    → Evolves r (publish_run a now r)
unfolding publish_run
publish_run-Evolves a now r running result retry = ground arith

-- A stale lease stays stale.
pub IsStale-Evolves : (lease : Lease) (r s : Run) → Evolves r s → IsStale lease r → IsStale lease s
IsStale-Evolves lease r s e stale = ground (arith, e.new_epoch, e.epoch_grows)
