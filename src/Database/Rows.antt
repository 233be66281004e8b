-- ===== src/Database/Rows.antt =====
-- Looking a row up after an update of the table.
use k8s_incident_agent.Prelude.{◌≡◌, some, List, [], ◌∷◌, arith, ◌==◌, if◌then◌else◌}
use k8s_incident_agent.Database.{
  Key, Run, Operation, update_run, find_run, update_operation, find_operation,
}
use mathlib.Core.Option

-- The row that was updated is the new one, and every other is as it was.
pub find_run-update_run :
    (j k : Key) (f : Run → Run) (rs : List Run)
    → ((r : Run) → (f r).run_id ≡ r.run_id)
    → find_run j (update_run k f rs)
      ≡ (if j == k then Option.map f (find_run j rs) else find_run j rs)
unfolding find_run update_run
find_run-update_run j k f [] keeps = ground arith
find_run-update_run j k f (r ∷ rs) keeps =
    ground (arith, keeps r, find_run-update_run j k f rs keeps)

pub find_operation-update_operation :
    (j k : Key) (f : Operation → Operation) (os : List Operation)
    → ((o : Operation) → (f o).run_id ≡ o.run_id)
    → find_operation j (update_operation k f os)
      ≡ (if j == k then Option.map f (find_operation j os) else find_operation j os)
unfolding find_operation update_operation
find_operation-update_operation j k f [] keeps = ground arith
find_operation-update_operation j k f (o ∷ os) keeps =
    ground (arith, keeps o, find_operation-update_operation j k f os keeps)

pub find_run-update_self :
    (k : Key) (f : Run → Run) (rs : List Run) (r : Run)
    → ((s : Run) → (f s).run_id ≡ s.run_id)
    → find_run k rs ≡ some r
    → find_run k (update_run k f rs) ≡ some (f r)
find_run-update_self k f rs r keeps e = ground (arith, find_run-update_run k k f rs keeps)

pub find_operation-update_self :
    (k : Key) (f : Operation → Operation) (os : List Operation) (o : Operation)
    → ((s : Operation) → (f s).run_id ≡ s.run_id)
    → find_operation k os ≡ some o
    → find_operation k (update_operation k f os) ≡ some (f o)
find_operation-update_self k f os o keeps e =
    ground (arith, find_operation-update_operation k k f os keeps)
