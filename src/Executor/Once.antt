-- ===== src/Executor/Once.antt =====
-- However the workers of backend/app/runtime/operations.py interleave, a run's write is sent at most
-- once, and only as it stands in the journal.
use k8s_incident_agent.Prelude.{
  ℕ, zero, suc, ◌+◌, ◌≤◌, ◌≡◌, subst, false, some, List, [], ◌∷◌, ◌++◌, arith, ==_refl, All,
}
use k8s_incident_agent.Database.{Key, Doc, Operation, Db, find_operation}
use k8s_incident_agent.Lease.Follows.{IsKeyed}
use k8s_incident_agent.Operation.{is_prepared}
use k8s_incident_agent.Protocol.{step}
use k8s_incident_agent.Protocol.Progress.{Advances, Advances-refl, step-Advances, ids-IsKeyed}
use k8s_incident_agent.Executor.{Codec}
use k8s_incident_agent.Executor.System.{
  Thread, System, Input, Event, calls, starts, reconciles, proceeds, move, proceed, happen,
  happen_all, idle,
}
use k8s_incident_agent.Executor.Guarded.{execute-IsGuarded, reconcile-IsGuarded}
use k8s_incident_agent.Executor.Moves.{
  left_of, has_left, armed_by, count_for, count_for-append, left_of-le-one, left-Advances,
  Journalled, Journalled-Advances, GuardedIn, GuardedIn-Advances, move-MovesWell,
}

threads-GuardedIn :
    (db db' : Db) (ts : List Thread)
    → Advances db db'
    → All (GuardedIn db) ts
    → All (GuardedIn db') ts
threads-GuardedIn db db' [] a gs = tt
threads-GuardedIn db db' (t ∷ ts) a gs =
    (GuardedIn-Advances db db' t a gs.0, threads-GuardedIn db db' ts a gs.1)

-- The journal has the patch for each of the writes.
abbrev InJournal : Db → List (Key × Doc) → Type 0
InJournal db ws = All (λ w. Journalled db w.0 w.1) ws

writes-Journalled :
    (db db' : Db) (ws : List (Key × Doc)) → Advances db db' → InJournal db ws → InJournal db' ws
writes-Journalled db db' [] a js = tt
writes-Journalled db db' (w ∷ ws) a js =
    (Journalled-Advances db db' w.0 w.1 a js.0, writes-Journalled db db' ws a js.1)

all_append :
    (db : Db) (vs ws : List (Key × Doc))
    → InJournal db vs
    → InJournal db ws
    → InJournal db (vs ++ ws)
all_append db [] ws js ks = ks
all_append db (v ∷ vs) ws js ks = (js.0, all_append db vs ws js.1 ks)

-- The write is in the journal, and has been dispatched.
abbrev pub IsWrittenDown : Db → Key × Doc → Type 0
IsWrittenDown db w =
    (o : Operation) × (find_operation w.0 db.operations ≡ some o)
    × (o.request_patch ≡ w.1)
    × (is_prepared o.state ≡ false)

left_then : (o : Operation) → 1 ≤ left_of (some o) → is_prepared o.state ≡ false
left_then o h = ground arith

at_least :
    (db : Db) (w : Key × Doc) (ws : List (Key × Doc))
    → count_for w.0 (w ∷ ws) ≤ has_left w.0 db
    → 1 ≤ has_left w.0 db
at_least db w ws h = ground (arith, ==_refl w.0)

written :
    (db : Db) (ws : List (Key × Doc))
    → InJournal db ws
    → ((k : Key) → count_for k ws ≤ has_left k db)
    → All (IsWrittenDown db) ws
written db [] js within = tt
written db (w ∷ ws) js within =
    let (o, found, same) = js.0 in
    (
      (
        o,
        found,
        same,
        left_then o (subst (λ x. 1 ≤ left_of x) found (at_least db w ws (within w.0))),
      ),
      written db ws js.1 (λ k. omega (arith, within k, count_for-append k (w ∷ []) ws)),
    )

-- The same of the move of one worker among all.
record ProceedsWell (db : Db) (ts : List Thread) (r : Db × List (Key × Doc) × List Thread)
    : Type 0 where
  advances : Advances db r.0
  guarded : All (GuardedIn r.0) r.2
  journal : InJournal db r.1
  paid :
      (k : Key) → count_for k r.1 + armed_by k r.2 + has_left k db ≤ armed_by k ts + has_left k r.0

module _ (digest : Key → Key → Key → Key) where
  proceed-ProceedsWell :
      (n : ℕ) (i : Input) (db : Db) (ts : List Thread)
      → IsKeyed db.runs
      → All (GuardedIn db) ts
      → ProceedsWell db ts (proceed digest n i db ts)
  unfolding proceed
  proceed-ProceedsWell n i db [] keyed gs = record {
    advances = Advances-refl db;
    guarded = tt;
    journal = tt;
    paid = λ k. omega arith;
  }
  proceed-ProceedsWell zero i db (t ∷ ts) keyed gs =
      let m = move-MovesWell digest db t i t.program keyed gs.0 in
      record {
        advances = m.advances;
        guarded =
            (m.guarded, threads-GuardedIn db (move digest db t i t.program).db ts m.advances gs.1);
        journal = m.journal;
        paid = λ k. omega (arith, m.paid k);
      }
  proceed-ProceedsWell (suc n) i db (t ∷ ts) keyed gs =
      let rest = proceed-ProceedsWell n i db ts keyed gs.1 in
      record {
        advances = rest.advances;
        guarded =
            (GuardedIn-Advances db (proceed digest n i db ts).0 t rest.advances gs.0, rest.guarded);
        journal = rest.journal;
        paid = λ k. omega (arith, rest.paid k);
      }

-- What holds of a system after any events.
pub record IsSafe (s : System) : Type 0 where
  pub keyed : IsKeyed s.db.runs
  pub guarded : All (GuardedIn s.db) s.threads
  pub journal : InJournal s.db s.sent
  pub within : (k : Key) → count_for k s.sent + armed_by k s.threads ≤ has_left k s.db

module _ (digest : Key → Key → Key → Key) (codec : Codec) where
  happen-IsSafe : (s : System) (e : Event) → IsSafe s → IsSafe (happen digest codec s e)
  unfolding happen
  happen-IsSafe s (calls c) v =
      let a = step-Advances digest s.db c v.keyed in
      record {
        keyed = ids-IsKeyed s.db (step digest s.db c) v.keyed a;
        guarded = threads-GuardedIn s.db (step digest s.db c) s.threads a v.guarded;
        journal = writes-Journalled s.db (step digest s.db c) s.sent a v.journal;
        within = λ k. omega (arith, v.within k, left-Advances k s.db (step digest s.db c) a);
      }
  happen-IsSafe s (starts lease authorization) v = record {
    keyed = v.keyed;
    guarded =
        (execute-IsGuarded codec (Journalled s.db lease.run_id) lease authorization, v.guarded);
    journal = v.journal;
    within = λ k. omega (arith, v.within k);
  }
  happen-IsSafe s (reconciles lease o) v = record {
    keyed = v.keyed;
    guarded = (reconcile-IsGuarded codec (Journalled s.db lease.run_id) o, v.guarded);
    journal = v.journal;
    within = λ k. omega (arith, v.within k);
  }
  happen-IsSafe s (proceeds n i) v =
      let p = proceed-ProceedsWell digest n i s.db s.threads v.keyed v.guarded in
      let rest = proceed digest n i s.db s.threads in
      record {
        keyed = ids-IsKeyed s.db rest.0 v.keyed p.advances;
        guarded = p.guarded;
        journal =
            all_append rest.0 rest.1 s.sent
              (writes-Journalled s.db rest.0 rest.1 p.advances p.journal)
              (writes-Journalled s.db rest.0 s.sent p.advances v.journal);
        within = λ k. omega (arith, v.within k, p.paid k, count_for-append k rest.1 s.sent);
      }

  happen_all-IsSafe :
      (s : System) (es : List Event) → IsSafe s → IsSafe (happen_all digest codec s es)
  unfolding happen_all
  happen_all-IsSafe s [] v = v
  happen_all-IsSafe s (e ∷ es) v =
      happen_all-IsSafe (happen digest codec s e) es (happen-IsSafe s e v)

  pub reached-IsSafe :
      (db : Db)
      → IsKeyed db.runs
      → (es : List Event) → IsSafe (happen_all digest codec (idle db) es)
  reached-IsSafe db keyed es =
      happen_all-IsSafe (idle db) es
        (record { keyed = keyed; guarded = tt; journal = tt; within = λ j. omega arith })

  -- However many workers execute and reconcile, under whatever leases and authorisations, and however
  -- their moves, those of other parties and the answers of the cluster follow each other: at most one
  -- write is sent for each run.
  pub sent_once :
      (db : Db)
      → IsKeyed db.runs
      → (es : List Event) (k : Key) → count_for k (happen_all digest codec (idle db) es).sent ≤ 1
  sent_once db keyed es k = omega (
    arith,
    (reached-IsSafe db keyed es).within k,
    left_of-le-one (find_operation k (happen_all digest codec (idle db) es).db.operations),
  )

  -- In the same systems, each write that is sent is the patch of its run's operation in the journal,
  -- and that operation is no longer `prepared`.
  pub sent_journalled :
      (db : Db)
      → IsKeyed db.runs
      → (es : List Event)
      → All
          (IsWrittenDown (happen_all digest codec (idle db) es).db)
          (happen_all digest codec (idle db) es).sent
  sent_journalled db keyed es =
      let s = happen_all digest codec (idle db) es in
      let v = reached-IsSafe db keyed es in
      written s.db s.sent v.journal (λ k. omega (arith, v.within k))
