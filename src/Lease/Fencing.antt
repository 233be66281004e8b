-- ===== src/Lease/Fencing.antt =====
-- What a fence establishes, and when it refuses.
use k8s_incident_agent.Prelude.{
  ℕ, ◌+◌, ◌<◌, ◌≤◌, ltb, if◌then◌else◌, ◌≡◌, ◌≢◌, ◌⊎◌, refl, Option, none, some, arith,
}
use k8s_incident_agent.Outcome.{Error, ok, raised, lease_lost, lock_timeout}
use k8s_incident_agent.Database.{RunStatus, Run, Db, find_run}
use k8s_incident_agent.Lease.{lock_limit, Wait, waited, Lease, fence, fence_row, holds}

-- The row `r` is held under the lease until after the time `t`.
pub record IsHeld (lease : Lease) (t : ℕ) (r : Run) : Type 0 where
  pub same_owner : r.lease_owner ≡ lease.lease_owner
  pub same_epoch : r.lease_epoch ≡ lease.lease_epoch
  pub runs : r.status ≡ RunStatus.running
  pub expiry : ℕ
  pub expires : r.lease_expires_at ≡ some expiry
  pub ahead : t < expiry

expiry_of : Run → ℕ
expiry_of r = elim r.lease_expires_at [ none ↦ 0 | some t ↦ t ]

-- Everything that `fence` checks holds at the time when its locks are taken.
fence_row-IsHeld :
    (db : Db) (lease : Lease) (wait : Wait) (r : Run) (conn : Db)
    → fence_row db lease wait (some r) ≡ ok conn
    → IsHeld lease (db.now + waited wait) r
unfolding fence_row holds expiry_of
fence_row-IsHeld db lease wait r conn h = record {
  same_owner = ground arith;
  same_epoch = ground arith;
  runs = ground arith;
  expiry = expiry_of r;
  expires = ground arith;
  ahead = ground arith;
}

fence_row-clock :
    (db : Db) (lease : Lease) (wait : Wait) (r : Run) (conn : Db)
    → fence_row db lease wait (some r) ≡ ok conn
    → conn ≡ record db { now = db.now + waited wait }
unfolding fence_row
fence_row-clock db lease wait r conn h = ground arith

fence_found :
    (db : Db) (lease : Lease) (wait : Wait) (conn : Db) (o : Option Run)
    → fence_row db lease wait o ≡ ok conn
    → (r : Run) × (o ≡ some r)
      × IsHeld lease (db.now + waited wait) r
      × (conn ≡ record db { now = db.now + waited wait })
unfolding fence_row
fence_found db lease wait conn none h = cc
fence_found db lease wait conn (some r) h =
    (r, refl, fence_row-IsHeld db lease wait r conn h, fence_row-clock db lease wait r conn h)

-- A fence that is passed: the row is held, and the connection is the database at the later time.
pub fence_inv :
    (db : Db) (lease : Lease) (wait : Wait) (conn : Db)
    → fence db lease wait ≡ ok conn
    → (r : Run) × (find_run lease.run_id db.runs ≡ some r)
      × IsHeld lease (db.now + waited wait) r
      × (conn ≡ record db { now = db.now + waited wait })
unfolding fence
fence_inv db lease wait conn h =
    fence_found db lease wait conn (find_run lease.run_id db.runs) (ground arith)

-- A row with another epoch, or that does not run, passes no fence of the lease.
abbrev pub IsStale : Lease → Run → Type 0
IsStale lease r =
    (lease.lease_epoch < r.lease_epoch)
    ⊎ ((lease.lease_epoch ≡ r.lease_epoch) × (r.status ≢ RunStatus.running))

-- What the fence of a stale lease raises: the first lock may also take too long.
abbrev pub stale_error : Wait → Error
stale_error wait = if ltb lock_limit wait.incident_lock then lock_timeout else lease_lost

pub fence-IsStale :
    (db : Db) (lease : Lease) (wait : Wait) (r : Run)
    → find_run lease.run_id db.runs ≡ some r
    → IsStale lease r
    → fence db lease wait ≡ raised (stale_error wait)
unfolding fence fence_row holds
fence-IsStale db lease wait r e stale = ground arith

-- The holder passes while its lease lasts, when no lock takes too long.
pub fence-fresh :
    (db : Db) (lease : Lease) (wait : Wait) (r : Run) (owner expiry : ℕ)
    → find_run lease.run_id db.runs ≡ some r
    → (r.lease_owner ≡ some owner) × (lease.lease_owner ≡ some owner)
    → r.lease_epoch ≡ lease.lease_epoch
    → r.status ≡ RunStatus.running
    → r.lease_expires_at ≡ some expiry
    → (wait.incident_lock ≤ lock_limit) × (wait.run_lock ≤ lock_limit)
    → db.now + waited wait < expiry
    → fence db lease wait ≡ ok (record db { now = db.now + waited wait })
unfolding fence fence_row holds
fence-fresh db lease wait r owner expiry found owners epoch runs expires quick ahead = ground arith
