-- ===== src/Executor/System.antt =====
-- Any number of workers that execute or reconcile at the same time, on one database and one cluster.
-- Each event is one move of one party; a worker that has crashed makes no further move, and whatever
-- the cluster, the clock and the budget answer is the input of the move.
use k8s_incident_agent.Prelude.{
  ℕ, zero, suc, Bool, true, false, Option, List, [], ◌∷◌, ◌++◌, String,
}
use k8s_incident_agent.Outcome.{Outcome, ok, raised}
use k8s_incident_agent.Database.{Key, Doc, Operation, Db, find_operation}
use k8s_incident_agent.Lease.{Wait, Lease, assert_owned}
use k8s_incident_agent.Operation.{prepare, dispatch, record_outcome}
use k8s_incident_agent.Protocol
use k8s_incident_agent.Protocol.{Call, after}
use k8s_incident_agent.Target.{ApiObject}
use k8s_incident_agent.Program.{
  WriteAnswer, Program, returns, settles, raises, checks_lost, asserts_owned, loads, reads_profile,
  reads_target, prepares, charges, dispatches, sends, records, asks_time, Authorization,
}
use k8s_incident_agent.Executor.{Codec, execute, reconcile}

-- A worker with its lease and what it has still to do. `armed` says that it has dispatched and has not
-- sent; the code has no such flag.
pub record Thread : Type 0 where
  pub lease : Lease
  pub armed : Bool
  pub program : Program

-- `sent` are the writes that reached the API, each with its run.
pub record System : Type 0 where
  pub db : Db
  pub threads : List Thread
  pub sent : List (Key × Doc)

-- The answers of the surroundings to one move; only that which is asked for is read.
pub record Input : Type 0 where
  pub wait : Wait
  pub heartbeat_lost : Bool
  pub profile : Outcome (Option String)
  pub target : Outcome ApiObject
  pub charged : Outcome (Unit {0})
  pub write : WriteAnswer
  pub time : ℕ

pub data Event : Type 0 where
  calls : Call → Event
  starts : Lease → Outcome Authorization → Event
  reconciles : Lease → Operation → Event
  proceeds : ℕ → Input → Event

-- The database, the writes and the worker after a move.
pub record Moved : Type 0 where
  pub db : Db
  pub sent : List (Key × Doc)
  pub thread : Thread

abbrev pub moved : Db → Thread → Program → Moved
moved db t p = record { db = db; sent = []; thread = record t { program = p } }

unfoldable pub after_owned : Db → Thread → Program → Outcome (Unit {0}) → Moved
after_owned db t p (ok unit) = moved db t p
after_owned db t p (raised e) = moved db t (raises e)

unfoldable pub after_prepare :
    Db → Thread → (Operation → Program) → Outcome (Operation × Db) → Moved
after_prepare db t f (ok (o, db')) = moved db' t (f o)
after_prepare db t f (raised e) = moved db t (raises e)

unfoldable pub after_dispatch : Db → Thread → Program → Outcome Db → Moved
after_dispatch db t p (ok db') = record {
  db = db';
  sent = [];
  thread = record t { armed = true; program = p };
}
after_dispatch db t p (raised e) = moved db t (raises e)

unfoldable pub after_record : Db → Thread → Program → Outcome Db → Moved
after_record db t p (ok db') = moved db' t p
after_record db t p (raised e) = moved db t (raises e)

module _ (digest : Key → Key → Key → Key) where
  unfoldable pub move : Db → Thread → Input → Program → Moved
  unfolding after_owned after_prepare after_dispatch after_record
  move db t i (returns result) = moved db t (returns result)
  move db t i (settles confirmed) = moved db t (settles confirmed)
  move db t i (raises e) = moved db t (raises e)
  move db t i (checks_lost f) = moved db t (f i.heartbeat_lost)
  move db t i (asserts_owned p) = after_owned db t p (assert_owned db t.lease i.wait)
  move db t i (loads f) = moved db t (f (find_operation t.lease.run_id db.operations))
  move db t i (reads_profile f) = moved db t (f i.profile)
  move db t i (reads_target f) = moved db t (f i.target)
  move db t i (prepares q f) = after_prepare db t f (prepare digest db t.lease q i.wait)
  move db t i (charges f) = moved db t (f i.charged)
  move db t i (dispatches operation_id p) =
      after_dispatch db t p (dispatch db t.lease operation_id i.wait)
  move db t i (sends patch f) = record {
    db = db;
    sent = (t.lease.run_id, patch) ∷ [];
    thread = record t { armed = false; program = f i.write };
  }
  move db t i (records q p) = after_record db t p (record_outcome db t.lease q i.wait)
  move db t i (asks_time f) = moved db t (f i.time)

  -- The move of the n-th worker; there is none beyond the last.
  unfoldable pub proceed : ℕ → Input → Db → List Thread → Db × List (Key × Doc) × List Thread
  unfolding move
  proceed n i db [] = (db, [], [])
  proceed zero i db (t ∷ ts) = let m = move db t i t.program in (m.db, m.sent, m.thread ∷ ts)
  proceed (suc n) i db (t ∷ ts) = let rest = proceed n i db ts in (rest.0, rest.1, t ∷ rest.2)

  module _ (codec : Codec) where
    unfoldable pub happen : System → Event → System
    unfolding proceed
    happen s (calls c) = record s { db = Protocol.step digest s.db c }
    happen s (starts lease authorization) = record s {
      threads =
          record { lease = lease; armed = false; program = execute codec lease authorization }
          ∷ s.threads;
    }
    happen s (reconciles lease o) = record s {
      threads = record { lease = lease; armed = false; program = reconcile codec o } ∷ s.threads;
    }
    happen s (proceeds n i) =
        let rest = proceed n i s.db s.threads in
        record { db = rest.0; threads = rest.2; sent = rest.1 ++ s.sent }

    unfoldable pub happen_all : System → List Event → System
    unfolding happen
    happen_all s [] = s
    happen_all s (e ∷ es) = happen_all (happen s e) es

-- No worker has started.
abbrev pub idle : Db → System
idle db = record { db = db; threads = []; sent = [] }
