-- ===== src/Lease/Follows.antt =====
-- What a transaction may do to the table of the runs.
use k8s_incident_agent.Prelude.{
  ◌≡◌, ◌≢◌, refl, [], ◌∷◌, All, ap, sym, ◌∙◌, subst, true, arith, some, List, ◌==◌, ==→eq,
  Bool-cases, inl, inr,
}
use mathlib.Core.Option.{some-injective}
use k8s_incident_agent.Database.{Key, Run, find_run, update_run}
use k8s_incident_agent.Database.Rows.{find_run-update_run}
use k8s_incident_agent.Lease.Evolution.{Evolves, Evolves-refl, Evolves-trans}

abbrev pub run_ids : List Run → List Key
run_ids [] = []
run_ids (r ∷ rs) = r.run_id ∷ run_ids rs

abbrev pub Distinct : List Key → Type 0
Distinct [] = Unit
Distinct (k ∷ ks) = All (λ j. j ≢ k) ks × Distinct ks

-- `run_id` is the table's primary key.
abbrev pub IsKeyed : List Run → Type 0
IsKeyed rs = Distinct (run_ids rs)

-- Every row is still there, and has evolved; none is new.
pub record Follows (rs ss : List Run) : Type 0 where
  pub same_ids : run_ids ss ≡ run_ids rs
  pub at_key :
      (k : Key) (r : Run)
      → find_run k rs ≡ some r
      → (s : Run) × (find_run k ss ≡ some s) × Evolves r s

pub Follows-refl : (rs : List Run) → Follows rs rs
Follows-refl rs = record { same_ids = refl; at_key = λ k r e. (r, e, Evolves-refl r) }

pub Follows-trans : (rs ss ts : List Run) → Follows rs ss → Follows ss ts → Follows rs ts
Follows-trans rs ss ts f g = record {
  same_ids = g.same_ids ∙ f.same_ids;
  at_key = λ k r e.
      let (s, es, a) = f.at_key k r e in
      let (t, et, b) = g.at_key k s es in (t, et, Evolves-trans r s t a b);
}

run_ids-update_run :
    (k : Key) (f : Run → Run) (rs : List Run)
    → ((s : Run) → (f s).run_id ≡ s.run_id)
    → run_ids (update_run k f rs) ≡ run_ids rs
unfolding update_run
run_ids-update_run k f [] keeps = refl
run_ids-update_run k f (r ∷ rs) keeps = ground (arith, keeps r, run_ids-update_run k f rs keeps)

-- An update of one row, by a function that lets it evolve.
module _ (k : Key) (r : Run) (f : Run → Run) (rs : List Run) (found : find_run k rs ≡ some r)
    (evolves : Evolves r (f r)) where
  evolved_row : (j : Key) (s : Run) → find_run j rs ≡ some s → (j == k) ≡ true → Evolves s (f r)
  evolved_row j s e same =
      subst (λ x. Evolves x (f r))
        (some-injective r s (sym found ∙ (ap (λ i. find_run i rs) (sym (==→eq j k same)) ∙ e)))
        evolves

  pub update_run-Follows :
      ((s : Run) → (f s).run_id ≡ s.run_id)
      → (ss : List Run) → ss ≡ update_run k f rs
      → Follows rs ss
  update_run-Follows keeps ss result = record {
    same_ids = rw result (run_ids-update_run k f rs keeps);
    at_key = λ j s e. rw result (at j s e);
  }
    where
      at :
          (j : Key) (s : Run)
          → find_run j rs ≡ some s
          → (t : Run) × (find_run j (update_run k f rs) ≡ some t) × Evolves s t
      at j s e = elim (Bool-cases (j == k)) [
        | inl same ↦
            (f r, ground (arith, find_run-update_run j k f rs keeps, found), evolved_row j s e same)
        | inr other ↦ (s, ground (arith, find_run-update_run j k f rs keeps), Evolves-refl s)
      ]
