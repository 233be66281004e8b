-- ===== src/Protocol/Ownership.antt =====
-- Who may write for a run: leases across any calls of the two repositories in any order.
use k8s_incident_agent.Prelude.{ℕ, ◌≤◌, ◌≡◌, ap, ◌∙◌, sym, subst, Bool, some, List}
use k8s_incident_agent.Outcome.{ok, raised}
use k8s_incident_agent.Database.{Key, RunStatus, Run, Db, find_run}
use k8s_incident_agent.Lease.{Wait, Lease, Finish, fence, claim, finish}
use k8s_incident_agent.Lease.Fencing.{stale_error, IsStale, fence-IsStale}
use k8s_incident_agent.Lease.Evolution.{IsValid, IsStale-Evolves}
use k8s_incident_agent.Lease.Follows.{IsKeyed, Distinct}
use k8s_incident_agent.Lease.Claiming.{claim-row, claim-IsKeyed, claim-IsStale}
use k8s_incident_agent.Lease.Finishing.{finish-IsStale, finish-Follows}
use k8s_incident_agent.Protocol.{Call, run}
use k8s_incident_agent.Protocol.Progress.{run-Advances, run-IsKeyed}

module _ (digest : Key → Key → Key → Key) where
  -- Once a lease is stale, no fence accepts it again.
  pub stale_forever :
      (db : Db) (lease : Lease) (r : Run)
      → IsKeyed db.runs
      → find_run lease.run_id db.runs ≡ some r
      → IsStale lease r
      → (cs : List Call) (wait : Wait)
      → fence (run digest db cs) lease wait ≡ raised (stale_error wait)
  stale_forever db lease r keyed found stale cs wait =
      let (s, found', evolves) =
        (run-Advances digest db cs keyed).runs_follow.at_key lease.run_id r found in
      fence-IsStale (run digest db cs) lease wait s found' (IsStale-Evolves lease r s evolves stale)

  -- An epoch that a run has reached is not undercut.
  epoch_kept :
      (db : Db) (k : Key) (r : Run)
      → IsKeyed db.runs
      → find_run k db.runs ≡ some r
      → (cs : List Call)
      → (s : Run) × (find_run k (run digest db cs).runs ≡ some s) × (r.lease_epoch ≤ s.lease_epoch)
  epoch_kept db k r keyed found cs =
      let (s, found', evolves) = (run-Advances digest db cs keyed).runs_follow.at_key k r found in
      (s, found', evolves.epoch_grows)

  -- When a run is claimed anew, by any worker, the earlier lease never passes a fence again,
  -- whatever is called in whatever order, also by the earlier holder: the fence raises that the
  -- lease is lost, or that the first of its locks took more than five seconds.
  pub claim_supersedes :
      (db db1 db2 : Db) (owner owner' : Key) (seconds seconds' limit limit' : ℕ)
      (locked locked' : Key → Bool) (old new : Lease) (between : List Call)
      → IsKeyed db.runs
      → claim db owner seconds limit locked ≡ (some old, db1)
      → claim (run digest db1 between) owner' seconds' limit' locked' ≡ (some new, db2)
      → new.run_id ≡ old.run_id
      → (later : List Call) (wait : Wait)
      → fence (run digest db2 later) old wait ≡ raised (stale_error wait)
  claim_supersedes db db1 db2 owner owner' seconds seconds' limit limit' locked locked' old new
        between keyed first second same later wait =
      let keyed1 = claim-IsKeyed db owner seconds limit locked old db1 keyed first in
      let keyed' = run-IsKeyed digest db1 between keyed1 in
      let keyed2 =
        claim-IsKeyed (run digest db1 between) owner' seconds' limit' locked' new db2 keyed'
          second in
      let (r, found, written, taken, could) =
        claim-row db owner seconds limit locked old db1 keyed first in
      let (s, found', issued) = epoch_kept db1 old.run_id old.row keyed1 written between in
      let (t, found_t, written', taken', could') =
        claim-row (run digest db1 between) owner' seconds' limit' locked' new db2 keyed' second in
      stale_forever db2 old new.row keyed2 (ap (λ i. find_run i db2.runs) (sym same) ∙ written')
        (claim-IsStale (run digest db1 between) owner' seconds' limit' locked' new old db2 s keyed'
          second (sym same) found' issued)
        later wait

  -- Once a worker has published a result, its lease never passes a fence again: the fence raises
  -- that the lease is lost, or that the first of its locks took more than five seconds.
  pub finish_releases :
      (db db' : Db) (lease : Lease) (a : Finish) (wait : Wait) (status : RunStatus)
      → IsKeyed db.runs
      → finish db lease a wait ≡ ok (status, db')
      → (later : List Call) (wait' : Wait)
      → fence (run digest db' later) lease wait' ≡ raised (stale_error wait')
  finish_releases db db' lease a wait status keyed h later wait' =
      let (r, found, stale) = finish-IsStale db lease a wait status db' h in
      stale_forever db' lease r
        (subst Distinct (sym (finish-Follows db lease a wait status db' h).same_ids) keyed) found
        stale later wait'

  -- The row of a run that is valid stays, and stays valid, whatever the other rows are, after any calls of the
  -- methods of the lease repository and of the operation repository, whether they return or raise.
  pub run-IsValid :
      (db : Db) (cs : List Call) (k : Key) (r : Run)
      → IsKeyed db.runs
      → find_run k db.runs ≡ some r
      → IsValid r
      → (s : Run) × (find_run k (run digest db cs).runs ≡ some s) × IsValid s
  run-IsValid db cs k r keyed before valid =
      let (s, found, evolves) = (run-Advances digest db cs keyed).runs_follow.at_key k r before in
      (s, found, evolves.keeps_valid valid)
