-- ===== src/Protocol/Approvals.antt =====
-- A saved approval, across any calls of the two repositories in any order.
use k8s_incident_agent.Prelude.{◌≡◌, ap, ◌∙◌, List, is_some}
use k8s_incident_agent.Outcome.{ok}
use k8s_incident_agent.Database.{Key, Approval, Db}
use k8s_incident_agent.Lease.Follows.{IsKeyed}
use k8s_incident_agent.Operation.{queue_approval}
use k8s_incident_agent.Operation.Approving.{saved_row, queue_saved, queue_approval-Follows}
use k8s_incident_agent.Protocol.{Call, run}
use k8s_incident_agent.Protocol.Progress.{run-Advances, Follows-IsKeyed}

module _ (digest : Key → Key → Key → Key) where
  -- Once an approval is accepted for a run, any approval that is accepted later for that run is the
  -- same decision with the same binding, and accepting it changes nothing.
  pub approval_saved_once :
      (db db' db2 : Db) (run_id : Key) (payload payload' : Approval) (later : List Call)
      → IsKeyed db.runs
      → queue_approval db run_id payload ≡ ok db'
      → queue_approval (run digest db' later) run_id payload' ≡ ok db2
      → (payload' ≡ payload) × (db2 ≡ run digest db' later)
  approval_saved_once db db' db2 run_id payload payload' later keyed first second =
      let (r, found, saved) = saved_row db run_id payload db' first in
      let keyed' =
        Follows-IsKeyed db.runs db'.runs keyed
          (queue_approval-Follows db run_id payload db' first) in
      let (s, found', evolves) =
        (run-Advances digest db' later keyed').runs_follow.at_key run_id r found in
      queue_saved (run digest db' later) run_id payload payload' s db2 found'
        (evolves.stays_approved (ap is_some saved) ∙ saved) second
