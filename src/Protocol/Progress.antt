-- ===== src/Protocol/Progress.antt =====
-- How any calls of the two repositories, in any order, may change the tables of runs and operations.
use k8s_incident_agent.Prelude.{◌≡◌, refl, sym, subst, List, [], ◌∷◌}
use k8s_incident_agent.Outcome.{Outcome, ok, raised}
use k8s_incident_agent.Database.{Run, Key, Db}
use k8s_incident_agent.Lease.{announce, withdraw, claim, mark_checkpoint_started, heartbeat, finish}
use k8s_incident_agent.Lease.Follows.{Follows, Follows-refl, Follows-trans, IsKeyed, Distinct}
use k8s_incident_agent.Lease.Effects.{
  heartbeat-Follows, mark-Follows, claim-Follows, claim-operations, mark-operations,
  heartbeat-operations,
}
use k8s_incident_agent.Lease.Finishing.{finish-Follows, finish-operations}
use k8s_incident_agent.Operation.{queue_approval, prepare, dispatch, record_outcome}
use k8s_incident_agent.Operation.Evolution.{Journals, Journals-refl, Journals-trans}
use k8s_incident_agent.Operation.Approving.{queue_approval-Follows, queue_approval-operations}
use k8s_incident_agent.Operation.Preparing.{prepare-runs, prepare-Journals}
use k8s_incident_agent.Operation.Dispatching.{dispatch-runs, dispatch-Journals}
use k8s_incident_agent.Operation.Recording.{record_outcome-runs, record_outcome-Journals}
use k8s_incident_agent.Protocol.{
  Call, ticks, announces, withdraws, claims, marks, heartbeats, finishes, approves, prepares,
  dispatches, records, after, after_pair, step, run,
}

-- What one transaction, or several, may do.
pub record Advances (db after_db : Db) : Type 0 where
  pub runs_follow : Follows db.runs after_db.runs
  pub operations_extend : Journals db.operations after_db.operations

pub Advances-refl : (db : Db) → Advances db db
Advances-refl db = record {
  runs_follow = Follows-refl db.runs;
  operations_extend = Journals-refl db.operations;
}

same_runs : (db after_db : Db) → after_db.runs ≡ db.runs → Follows db.runs after_db.runs
same_runs db after_db e = rw e (Follows-refl db.runs)

same_operations :
    (db after_db : Db)
    → after_db.operations ≡ db.operations
    → Journals db.operations after_db.operations
same_operations db after_db e = rw e (Journals-refl db.operations)

after-Advances :
    (db : Db) (o : Outcome Db)
    → ((after_db : Db) → o ≡ ok after_db → Advances db after_db)
    → Advances db (after db o)
after-Advances db (ok after_db) f = f after_db refl
after-Advances db (raised e) f = Advances-refl db

after_pair-Advances {ℓ} :
    {A : Type ℓ} (db : Db) (o : Outcome (A × Db))
    → ((a : A) (after_db : Db) → o ≡ ok (a, after_db) → Advances db after_db)
    → Advances db (after_pair db o)
after_pair-Advances db (ok (a, after_db)) f = f a after_db refl
after_pair-Advances db (raised e) f = Advances-refl db

pub Follows-IsKeyed : (rs ss : List Run) → IsKeyed rs → Follows rs ss → IsKeyed ss
Follows-IsKeyed rs ss keyed f = subst Distinct (sym f.same_ids) keyed

pub ids-IsKeyed :
    (db after_db : Db) → IsKeyed db.runs → Advances db after_db → IsKeyed after_db.runs
ids-IsKeyed db after_db keyed a = subst Distinct (sym a.runs_follow.same_ids) keyed

module _ (digest : Key → Key → Key → Key) where
  pub step-Advances : (db : Db) (c : Call) → IsKeyed db.runs → Advances db (step digest db c)
  unfolding step announce withdraw
  step-Advances db (ticks n) keyed = record {
    runs_follow = Follows-refl db.runs;
    operations_extend = Journals-refl db.operations;
  }
  step-Advances db (announces owner seconds) keyed = record {
    runs_follow = Follows-refl db.runs;
    operations_extend = Journals-refl db.operations;
  }
  step-Advances db (withdraws owner) keyed = record {
    runs_follow = Follows-refl db.runs;
    operations_extend = Journals-refl db.operations;
  }
  step-Advances db (claims owner seconds max_attempts locked) keyed = record {
    runs_follow = claim-Follows db owner seconds max_attempts locked keyed;
    operations_extend =
        same_operations db (claim db owner seconds max_attempts locked).1
          (claim-operations db owner seconds max_attempts locked);
  }
  step-Advances db (marks lease wait) keyed =
      after-Advances db (mark_checkpoint_started db lease wait) λ d e. record {
        runs_follow = mark-Follows db lease wait d e;
        operations_extend = same_operations db d (mark-operations db lease wait d e);
      }
  step-Advances db (heartbeats lease seconds wait) keyed =
      after-Advances db (heartbeat db lease seconds wait) λ d e. record {
        runs_follow = heartbeat-Follows db lease seconds wait d e;
        operations_extend = same_operations db d (heartbeat-operations db lease seconds wait d e);
      }
  step-Advances db (finishes lease a wait) keyed =
      after_pair-Advances db (finish db lease a wait) λ s d e. record {
        runs_follow = finish-Follows db lease a wait s d e;
        operations_extend = same_operations db d (finish-operations db lease a wait s d e);
      }
  step-Advances db (approves run_id payload) keyed =
      after-Advances db (queue_approval db run_id payload) λ d e. record {
        runs_follow = queue_approval-Follows db run_id payload d e;
        operations_extend = same_operations db d (queue_approval-operations db run_id payload d e);
      }
  step-Advances db (prepares lease q wait) keyed =
      after_pair-Advances db (prepare digest db lease q wait) λ o d e. record {
        runs_follow = same_runs db d (prepare-runs digest db lease q wait o d e);
        operations_extend = prepare-Journals digest db lease q wait o d e;
      }
  step-Advances db (dispatches lease operation_id wait) keyed =
      after-Advances db (dispatch db lease operation_id wait) λ d e. record {
        runs_follow = same_runs db d (dispatch-runs db lease operation_id wait d e);
        operations_extend = dispatch-Journals db lease operation_id wait d e;
      }
  step-Advances db (records lease q wait) keyed =
      after-Advances db (record_outcome db lease q wait) λ d e. record {
        runs_follow = same_runs db d (record_outcome-runs db lease q wait d e);
        operations_extend = record_outcome-Journals db lease q wait d e;
      }

  -- The ids of the runs stay distinct, and the tables advance.
  pub run-Advances : (db : Db) (cs : List Call) → IsKeyed db.runs → Advances db (run digest db cs)
  unfolding run
  run-Advances db [] keyed = Advances-refl db
  run-Advances db (c ∷ cs) keyed =
      let first = step-Advances db c keyed in
      let rest =
        run-Advances (step digest db c) cs (ids-IsKeyed db (step digest db c) keyed first) in
      record {
        runs_follow = Follows-trans _ _ _ first.runs_follow rest.runs_follow;
        operations_extend = Journals-trans _ _ _ first.operations_extend rest.operations_extend;
      }

  pub run-IsKeyed : (db : Db) (cs : List Call) → IsKeyed db.runs → IsKeyed (run digest db cs).runs
  run-IsKeyed db cs keyed = ids-IsKeyed db (run digest db cs) keyed (run-Advances db cs keyed)
