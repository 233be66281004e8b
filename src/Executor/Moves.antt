-- ===== src/Executor/Moves.antt =====
-- One move of a worker of backend/app/runtime/operations.py, and what it sends.
use k8s_incident_agent.Prelude.{
  ℕ, ◌+◌, ◌≤◌, ◌≡◌, refl, ◌∙◌, subst, true, false, ◌&&◌, Option, none, some, List, [], ◌∷◌, ◌++◌,
  arith, ◌==◌, if◌then◌else◌, All, Option-cases, Bool-cases, ==→eq, inl, inr,
}
use k8s_incident_agent.Outcome.{Outcome, ok, raised}
use k8s_incident_agent.Database.{Key, Doc, Operation, Db, find_operation}
use k8s_incident_agent.Lease.{Wait, Lease, assert_owned}
use k8s_incident_agent.Lease.Follows.{IsKeyed}
use k8s_incident_agent.Operation.{is_prepared, prepare, dispatch, record_outcome}
use k8s_incident_agent.Operation.Dispatching.{dispatch_inv}
use k8s_incident_agent.Operation.Preparing.{prepared_row}
use k8s_incident_agent.Protocol
use k8s_incident_agent.Protocol.{Call, step}
use k8s_incident_agent.Protocol.Journal.{dispatched}
use k8s_incident_agent.Protocol.Progress.{Advances, Advances-refl, step-Advances}
use k8s_incident_agent.Program.{
  Program, returns, settles, raises, checks_lost, asserts_owned, loads, reads_profile, reads_target,
  prepares, charges, dispatches, sends, records, asks_time,
}
use k8s_incident_agent.Executor.System.{
  Thread, Input, Moved, moved, after_owned, after_prepare, after_dispatch, after_record, move,
}
use k8s_incident_agent.Executor.Guarded.{IsGuarded, IsGuarded-mono}

-- Whether the run's operation has left `prepared`, as a number.
abbrev pub left_of : Option Operation → ℕ
left_of none = 0
left_of (some o) = if is_prepared o.state then 0 else 1

abbrev pub has_left : Key → Db → ℕ
has_left k db = left_of (find_operation k db.operations)

abbrev pub armed_for : Key → Thread → ℕ
armed_for k t = if t.armed && t.lease.run_id == k then 1 else 0

-- The workers that have dispatched for the run and have not sent.
abbrev pub armed_by : Key → List Thread → ℕ
armed_by k [] = 0
armed_by k (t ∷ ts) = armed_for k t + armed_by k ts

-- The writes that were sent for the run.
abbrev pub count_for : Key → List (Key × Doc) → ℕ
count_for k [] = 0
count_for k (w ∷ ws) = (if w.0 == k then 1 else 0) + count_for k ws

pub count_for-append :
    (k : Key) (vs ws : List (Key × Doc)) → count_for k (vs ++ ws) ≡ count_for k vs + count_for k ws
count_for-append k [] ws = omega arith
count_for-append k (v ∷ vs) ws = omega (arith, count_for-append k vs ws)

pub left_of-le-one : (o : Option Operation) → left_of o ≤ 1
left_of-le-one none = omega arith
left_of-le-one (some o) = ground arith

pub left-Advances : (k : Key) (db db' : Db) → Advances db db' → has_left k db ≤ has_left k db'
left-Advances k db db' a = elim (Option-cases (find_operation k db.operations)) [
  | inl missing ↦ rw missing (omega arith)
  | inr (o, found) ↦
      let (p, found', e) = a.operations_extend.at_key k o found in
      rw found (rw found' (ground (arith, e.leaves_prepared)))
]

-- The patch of the run's operation in the journal.
abbrev pub Journalled : Db → Key → Doc → Type 0
Journalled db k d =
    (o : Operation) × (find_operation k db.operations ≡ some o) × (o.request_patch ≡ d)

pub Journalled-Advances :
    (db db' : Db) (k : Key) (d : Doc) → Advances db db' → Journalled db k d → Journalled db' k d
Journalled-Advances db db' k d a (o, found, same) =
    let (p, found', e) = a.operations_extend.at_key k o found in (p, found', e.same_write.3 ∙ same)

abbrev pub GuardedIn : Db → Thread → Type 0
GuardedIn db t = IsGuarded (Journalled db t.lease.run_id) t.armed t.program

pub GuardedIn-Advances :
    (db db' : Db) (t : Thread) → Advances db db' → GuardedIn db t → GuardedIn db' t
GuardedIn-Advances db db' t a g =
    IsGuarded-mono _ _ (λ d. Journalled-Advances db db' t.lease.run_id d a) t.armed t.program g

-- A move of a worker: the tables advance, the worker stays guarded, what is sent is in the journal, and
-- each write that is sent or may now be sent is paid for by one that could be sent before, or by an
-- operation that was dispatched.
pub record MovesWell (db : Db) (t : Thread) (m : Moved) : Type 0 where
  pub advances : Advances db m.db
  pub guarded : GuardedIn m.db m.thread
  pub journal : All (λ w. Journalled db w.0 w.1) m.sent
  pub paid :
      (k : Key)
      → count_for k m.sent + armed_for k m.thread + has_left k db ≤ armed_for k t + has_left k m.db

moved-MovesWell :
    (db db' : Db) (t : Thread) (p : Program)
    → Advances db db'
    → IsGuarded (Journalled db' t.lease.run_id) t.armed p
    → MovesWell db t (moved db' t p)
moved-MovesWell db db' t p a g = record {
  advances = a;
  guarded = g;
  journal = tt;
  paid = λ k. omega (arith, left-Advances k db db' a);
}

waits :
    (db : Db) (t : Thread) (p : Program)
    → IsGuarded (Journalled db t.lease.run_id) t.armed p
    → MovesWell db t (moved db t p)
waits db t p g = moved-MovesWell db db t p (Advances-refl db) g

-- A dispatch takes the run's operation out of `prepared`.
dispatch_leaves :
    (db : Db) (lease : Lease) (operation_id : Key) (wait : Wait) (db' : Db)
    → dispatch db lease operation_id wait ≡ ok db'
    → (has_left lease.run_id db ≡ 0) × (has_left lease.run_id db' ≡ 1)
dispatch_leaves db lease operation_id wait db' h =
    let (o, d) = dispatch_inv db lease operation_id wait db' h in
    let (p, found, dispatching, keep) = dispatched db lease operation_id wait db' h in
    (rw d.found (rw d.was_prepared refl), rw found (rw dispatching refl))

module _ (db : Db) (t : Thread) where
  owned-MovesWell :
      (p : Program) (x : Outcome (Unit {0}))
      → IsGuarded (Journalled db t.lease.run_id) t.armed p
      → MovesWell db t (after_owned db t p x)
  unfolding after_owned
  owned-MovesWell p (ok unit) g = waits db t p g
  owned-MovesWell p (raised e) g = waits db t (raises e) tt

  prepare-MovesWell :
      (f : Operation → Program) (x : Outcome (Operation × Db))
      → Advances db (Protocol.after_pair db x)
      → ((o : Operation) (db' : Db)
          → x ≡ ok (o, db')
          → find_operation t.lease.run_id db'.operations ≡ some o)
      → ((o : Operation) → IsGuarded (λ d. o.request_patch ≡ d) t.armed (f o))
      → MovesWell db t (after_prepare db t f x)
  unfolding after_prepare
  prepare-MovesWell f (ok (o, db')) a found g =
      moved-MovesWell db db' t (f o) a
        (IsGuarded-mono _ _ (λ d same. (o, found o db' refl, same)) t.armed (f o) (g o))
  prepare-MovesWell f (raised e) a found g = waits db t (raises e) tt

  record-MovesWell :
      (p : Program) (x : Outcome Db)
      → Advances db (Protocol.after db x)
      → IsGuarded (Journalled db t.lease.run_id) t.armed p
      → MovesWell db t (after_record db t p x)
  unfolding after_record
  record-MovesWell p (ok db') a g =
      moved-MovesWell db db' t p a (GuardedIn-Advances db db' (record t { program = p }) a g)
  record-MovesWell p (raised e) a g = waits db t (raises e) tt

  dispatch-MovesWell :
      (operation_id : Key) (wait : Wait) (p : Program) (x : Outcome Db)
      → dispatch db t.lease operation_id wait ≡ x
      → Advances db (Protocol.after db x)
      → t.armed ≡ false
      → IsGuarded (Journalled db t.lease.run_id) true p
      → MovesWell db t (after_dispatch db t p x)
  unfolding after_dispatch
  dispatch-MovesWell operation_id wait p (raised e) h a unarmed g = waits db t (raises e) tt
  dispatch-MovesWell operation_id wait p (ok db') h a unarmed g = record {
    advances = a;
    guarded = GuardedIn-Advances db db' (record t { armed = true; program = p }) a g;
    journal = tt;
    paid = λ k. elim (Bool-cases (t.lease.run_id == k)) [
      | inl same ↦
          let at_run = dispatch_leaves db t.lease operation_id wait db' h in
          let before : has_left k db ≡ 0 =
            subst (λ j. has_left j db ≡ 0) (==→eq _ _ same) at_run.0 in
          let after : has_left k db' ≡ 1 =
            subst (λ j. has_left j db' ≡ 1) (==→eq _ _ same) at_run.1 in
          rw same (omega (arith, before, after))
      | inr other ↦ rw other (omega (arith, left-Advances k db db' a))
    ];
  }

module _ (digest : Key → Key → Key → Key) where
  pub move-MovesWell :
      (db : Db) (t : Thread) (i : Input) (p : Program)
      → IsKeyed db.runs
      → IsGuarded (Journalled db t.lease.run_id) t.armed p
      → MovesWell db t (move digest db t i p)
  unfolding move step
  move-MovesWell db t i (returns result) keyed g = waits db t (returns result) tt
  move-MovesWell db t i (settles confirmed) keyed g = waits db t (settles confirmed) tt
  move-MovesWell db t i (raises e) keyed g = waits db t (raises e) tt
  move-MovesWell db t i (checks_lost f) keyed g =
      waits db t (f i.heartbeat_lost) (g i.heartbeat_lost)
  move-MovesWell db t i (asserts_owned p) keyed g =
      owned-MovesWell db t p (assert_owned db t.lease i.wait) g
  move-MovesWell db t i (loads f) keyed g =
      waits db t (f (find_operation t.lease.run_id db.operations))
        (g (find_operation t.lease.run_id db.operations))
  move-MovesWell db t i (reads_profile f) keyed g = waits db t (f i.profile) (g i.profile)
  move-MovesWell db t i (reads_target f) keyed g = waits db t (f i.target) (g i.target)
  move-MovesWell db t i (prepares q f) keyed g =
      prepare-MovesWell db t f (prepare digest db t.lease q i.wait)
        (step-Advances digest db (Protocol.prepares t.lease q i.wait) keyed)
        (prepared_row digest db t.lease q i.wait) g
  move-MovesWell db t i (charges f) keyed g = waits db t (f i.charged) (g i.charged)
  move-MovesWell db t i (dispatches operation_id p) keyed g =
      dispatch-MovesWell db t operation_id i.wait p (dispatch db t.lease operation_id i.wait) refl
        (step-Advances digest db (Protocol.dispatches t.lease operation_id i.wait) keyed) g.0 g.1
  move-MovesWell db t i (sends patch f) keyed g = record {
    advances = Advances-refl db;
    guarded = g.2 i.write;
    journal = (g.1, tt);
    paid = λ k. ground (arith, g.0);
  }
  move-MovesWell db t i (records q p) keyed g =
      record-MovesWell db t p (record_outcome db t.lease q i.wait)
        (step-Advances digest db (Protocol.records t.lease q i.wait) keyed) g
  move-MovesWell db t i (asks_time f) keyed g = waits db t (f i.time) (g i.time)
