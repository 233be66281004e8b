-- ===== src/Policy/Citations.antt =====
-- What the references and the target of a plan are in the evidence, for
-- backend/app/agent/remediation_policy.py.
use k8s_incident_agent.Prelude.{
  ℕ, ◌≡◌, refl, sym, ap, ◌∙◌, subst, Bool, true, false, not, ◌&&◌, Option, none, some, List, [],
  ◌∷◌, String, str_eq, eq_iff, arith, any, filter, is_some, says, Bool-cases, inl, inr,
  if◌then◌else◌,
}
use k8s_incident_agent.Outcome.{ok, >>=-eq-ok}
use k8s_incident_agent.Schemas.{RemediationPlan, EvidenceItem, State}
use k8s_incident_agent.Equality.{string_equality}
use k8s_incident_agent.PlanEquality.{kind_equality, risk_equality}
use k8s_incident_agent.Verification.{Labels}
use k8s_incident_agent.Passing.{passed, last_passed, not-false, &&-both}
use k8s_incident_agent.TargetIdentity.{is_match, uid_of, only_uid, observed_target_uid, bind_target}
use k8s_incident_agent.Policy.{
  has_id, is_subset, has_duplicates, given_ids, evidence_ids_of, cited_evidence, cited_runbooks,
  validate_references, label_pairs,
}

-- The members of a subset.
pub subset-has_id :
    (xs ys : List String) (k : String)
    → is_subset xs ys ≡ true
    → has_id xs k ≡ true
    → has_id ys k ≡ true
subset-has_id [] ys k h m = ground (arith, m)
subset-has_id (x ∷ xs) ys k h m =
    let both = &&-both (has_id ys x) (is_subset xs ys) h in
    elim (Bool-cases (str_eq k x)) [
      | inl same_id ↦ subst (λ i. has_id ys i ≡ true) (sym ((eq_iff k x).0 same_id)) both.0
      | inr other ↦ subset-has_id xs ys k both.1 (ground (arith, m, other))
    ]

-- The plan cites only evidence that was collected and that the diagnosis cites, and so with runbooks.
pub record CitesOnly (plan : RemediationPlan) (state : State) : Type 0 where
  pub evidence :
      (k : String)
      → has_id plan.evidence_ids k ≡ true
      → (has_id (given_ids (evidence_ids_of state.evidence)) k ≡ true)
        × (has_id (cited_evidence state) k ≡ true)
  pub runbooks :
      (k : String)
      → has_id plan.runbook_ids k ≡ true
      → (has_id (given_ids state.retrieved_runbooks) k ≡ true)
        × (has_id (cited_runbooks state) k ≡ true)
  pub distinct :
      (has_duplicates plan.evidence_ids ≡ false) × (has_duplicates plan.runbook_ids ≡ false)

pub references-CitesOnly :
    (plan : RemediationPlan) (state : State) (u : Unit {0})
    → validate_references plan state ≡ ok u
    → CitesOnly plan state
unfolding validate_references
references-CitesOnly plan state u h =
    let (e1, h1) = passed (has_duplicates plan.evidence_ids) _ _ h in
    let (r1, h2) = passed (has_duplicates plan.runbook_ids) _ _ h1 in
    let (e2, h3) =
      passed (not (is_subset plan.evidence_ids (given_ids (evidence_ids_of state.evidence)))) _ _
        h2 in
    let (r2, h4) =
      passed (not (is_subset plan.runbook_ids (given_ids state.retrieved_runbooks))) _ _ h3 in
    let (e3, h5) = passed (not (is_subset plan.evidence_ids (cited_evidence state))) _ _ h4 in
    let r3 = last_passed (not (is_subset plan.runbook_ids (cited_runbooks state))) _ h5 in
    record {
      evidence = λ k m. (
        subset-has_id plan.evidence_ids _ k (not-false _ e2) m,
        subset-has_id plan.evidence_ids _ k (not-false _ e3) m,
      );
      runbooks = λ k m. (
        subset-has_id plan.runbook_ids _ k (not-false _ r2) m,
        subset-has_id plan.runbook_ids _ k (not-false _ r3) m,
      );
      distinct = (e1, r1);
    }

-- The uid is that of the one piece of evidence on the target.
abbrev pub IsObservedUid : RemediationPlan → State → String → Type 0
IsObservedUid plan state uid =
    (e : EvidenceItem) × (filter (is_match plan.parameters) state.evidence ≡ e ∷ [])
    × (e.content.uid ≡ some uid)

uid_of_inv :
    (size : String → ℕ) (o : Option String) (uid : String) → uid_of size o ≡ ok uid → o ≡ some uid
unfolding uid_of
uid_of_inv size none uid h = cc
uid_of_inv size (some v) uid h = ground (arith, h)

only_uid_inv :
    (size : String → ℕ) (es : List EvidenceItem) (uid : String)
    → only_uid size es ≡ ok uid
    → (e : EvidenceItem) × (es ≡ e ∷ []) × (e.content.uid ≡ some uid)
unfolding only_uid
only_uid_inv size [] uid h = cc
only_uid_inv size (e ∷ []) uid h = (e, refl, uid_of_inv size e.content.uid uid h)
only_uid_inv size (e ∷ f ∷ es) uid h = cc

uid_agrees :
    (o : Option String) (seen uid : String)
    → o ≡ some uid
    → (is_some o && not (says o seen)) ≡ false
    → some seen ≡ some uid
uid_agrees none seen uid has h = ground (arith, has)
uid_agrees (some v) seen uid has h = ap some (sym ((eq_iff v seen).0 (not-false _ h))) ∙ has

pub bound_uid :
    (size : String → ℕ) (plan bound : RemediationPlan) (state : State) (uid : String)
    → plan.target_uid ≡ some uid
    → bind_target size plan state ≡ ok bound
    → IsObservedUid plan state uid
unfolding bind_target observed_target_uid
bound_uid size plan bound state uid has h =
    let (seen, found, h1) = >>=-eq-ok (observed_target_uid size state plan) _ h in
    let (agrees, h2) = passed (is_some plan.target_uid && not (says plan.target_uid seen)) _ _ h1 in
    let (e, alone, has_uid) =
      only_uid_inv size (filter (is_match plan.parameters) state.evidence) seen found in
    (e, alone, has_uid ∙ uid_agrees plan.target_uid seen uid has agrees)

pub taken {ℓ} :
    {A : Type ℓ} (b : Bool) (x y : A) {z : A} → b ≡ true → (if b then x else y) ≡ z → x ≡ z
taken true x y e h = h
taken false x y e h = ground (arith, e)

pub untaken {ℓ} :
    {A : Type ℓ} (b : Bool) (x y : A) {z : A} → b ≡ false → (if b then x else y) ≡ z → y ≡ z
untaken true x y e h = ground (arith, e)
untaken false x y e h = h

pub label_pairs_inv : (items r : Labels) → label_pairs items ≡ ok r → items ≡ r
unfolding label_pairs
label_pairs_inv [] r h = ground (arith, h)
label_pairs_inv (item ∷ items) r h =
    let (distinct, h1) = passed (any (λ other. str_eq other.0 item.0) items) _ _ h in
    let (rest, found, h2) = >>=-eq-ok (label_pairs items) _ h1 in
    let same_rest = label_pairs_inv items rest found in
    ap (λ (xs : Labels). item ∷ xs) same_rest ∙ ground (arith, h2)
