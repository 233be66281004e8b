-- ===== src/Operation/Evolution.antt =====
-- How the statements of backend/app/persistence/operations.py may change a journalled operation.
use k8s_incident_agent.Prelude.{
  ℕ, ◌≡◌, ◌∙◌, ap, sym, subst, Bool, true, false, some, List, [], ◌∷◌, ◌++◌, arith, ◌==◌, ==→eq,
  is_some, inl, inr, Bool-cases,
}
use mathlib.Core.Option.{some-injective}
use k8s_incident_agent.Database.{Key, OperationState, Operation, find_operation, update_operation}
use k8s_incident_agent.Database.Rows.{find_operation-update_operation}
use k8s_incident_agent.Operation.{
  Report, allowed, is_prepared, is_outcome, start_dispatch, write_report,
}

abbrev pub is_dispatching : OperationState → Bool
is_dispatching OperationState.dispatching = true
is_dispatching _ = false

abbrev pub is_rejected : OperationState → Bool
is_rejected OperationState.rejected = true
is_rejected _ = false

-- What was authorised never changes, a response and a result are kept once recorded, an operation
-- is dispatched from `prepared` only and never prepared again, and a rejection is final.
pub record Extends (o p : Operation) : Type 0 where
  pub same_operation :
      (p.operation_id ≡ o.operation_id) × (p.run_id ≡ o.run_id) × (p.incident_id ≡ o.incident_id)
  pub same_authority :
      (p.approval_id ≡ o.approval_id)
      × (p.plan_revision ≡ o.plan_revision)
      × (p.plan_snapshot ≡ o.plan_snapshot)
      × (p.approval_snapshot ≡ o.approval_snapshot)
  pub same_write :
      (p.action ≡ o.action)
      × (p.before_snapshot ≡ o.before_snapshot)
      × (p.target_snapshot ≡ o.target_snapshot)
      × (p.request_patch ≡ o.request_patch)
  pub keeps_response :
      is_some o.response_snapshot ≡ true → p.response_snapshot ≡ o.response_snapshot
  pub keeps_result : is_some o.result ≡ true → p.result ≡ o.result
  pub leaves_prepared : is_prepared o.state ≡ false → is_prepared p.state ≡ false
  pub leaves_dispatching :
      is_prepared o.state ≡ false → is_dispatching o.state ≡ false → is_dispatching p.state ≡ false
  pub stays_rejected : is_rejected o.state ≡ true → is_rejected p.state ≡ true

pub Extends-refl : (o : Operation) → Extends o o
Extends-refl o = ground arith

pub Extends-trans : (o p q : Operation) → Extends o p → Extends p q → Extends o q
Extends-trans o p q a b = record {
  same_operation = ground arith;
  same_authority = ground arith;
  same_write = ground arith;
  keeps_response = λ h. ground (arith, a.keeps_response, b.keeps_response);
  keeps_result = λ h. ground (arith, a.keeps_result, b.keeps_result);
  leaves_prepared = λ h. b.leaves_prepared (a.leaves_prepared h);
  leaves_dispatching = λ h k. b.leaves_dispatching (a.leaves_prepared h) (a.leaves_dispatching h k);
  stays_rejected = λ h. b.stays_rejected (a.stays_rejected h);
}

pub start_dispatch-Extends :
    (epoch now : ℕ) (o : Operation)
    → is_prepared o.state ≡ true
    → Extends o (start_dispatch epoch now o)
unfolding start_dispatch
start_dispatch-Extends epoch now o h = ground arith

pub write_report-Extends :
    (q : Report) (now : ℕ) (o : Operation)
    → is_outcome q.state ≡ true
    → allowed q.state o.state ≡ true
    → (is_some q.response ≡ true → is_some o.response_snapshot ≡ false)
    → (is_some q.result ≡ true → is_some o.result ≡ false)
    → Extends o (write_report q now o)
unfolding write_report allowed
write_report-Extends q now o outcome h response result = ground arith

-- Every operation is still in the journal, and extends what it was.
pub record Journals (os ps : List Operation) : Type 0 where
  pub at_key :
      (k : Key) (o : Operation)
      → find_operation k os ≡ some o
      → (p : Operation) × (find_operation k ps ≡ some p) × Extends o p

pub Journals-refl : (os : List Operation) → Journals os os
Journals-refl os = record { at_key = λ k o e. (o, e, Extends-refl o) }

pub Journals-trans : (os ps qs : List Operation) → Journals os ps → Journals ps qs → Journals os qs
Journals-trans os ps qs f g = record {
  at_key = λ k o e.
      let (p, ep, a) = f.at_key k o e in
      let (q, eq, b) = g.at_key k p ep in (q, eq, Extends-trans o p q a b);
}

find_operation-append :
    (k : Key) (os ps : List Operation) (o : Operation)
    → find_operation k os ≡ some o
    → find_operation k (os ++ ps) ≡ some o
unfolding find_operation
find_operation-append k [] ps o e = cc
find_operation-append k (x ∷ os) ps o e = ground (arith, find_operation-append k os ps o)

pub append-Journals : (os ps : List Operation) → Journals os (os ++ ps)
append-Journals os ps = record {
  at_key = λ k o e. (o, find_operation-append k os ps o e, Extends-refl o);
}

module _ (k : Key) (o : Operation) (f : Operation → Operation) (os : List Operation)
    (found : find_operation k os ≡ some o) (extends : Extends o (f o)) where
  extended_row :
      (j : Key) (p : Operation) → find_operation j os ≡ some p → (j == k) ≡ true → Extends p (f o)
  extended_row j p e same =
      subst (λ x. Extends x (f o))
        (some-injective o p
          (sym found ∙ (ap (λ i. find_operation i os) (sym (==→eq j k same)) ∙ e)))
        extends

  pub update_operation-Journals :
      ((p : Operation) → (f p).run_id ≡ p.run_id) → Journals os (update_operation k f os)
  update_operation-Journals keeps = record { at_key = at }
    where
      at :
          (j : Key) (p : Operation)
          → find_operation j os ≡ some p
          → (q : Operation) × (find_operation j (update_operation k f os) ≡ some q) × Extends p q
      at j p e = elim (Bool-cases (j == k)) [
        | inl same ↦ (
          f o,
          ground (arith, find_operation-update_operation j k f os keeps, found),
          extended_row j p e same,
        )
        | inr other ↦
            (p, ground (arith, find_operation-update_operation j k f os keeps), Extends-refl p)
      ]
