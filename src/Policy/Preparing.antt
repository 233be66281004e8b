-- ===== src/Policy/Preparing.antt =====
-- `prepare_remediation_plan` of backend/app/agent/remediation_policy.py: the citations that it adds.
use k8s_incident_agent.Prelude.{
  ◌≡◌, refl, sym, ap, ◌∙◌, subst, Bool, true, false, not, ◌||◌, Option, List, [], ◌∷◌, ◌++◌, String,
  str_eq, any, filter, is_empty, if◌then◌else◌, arith, Bool-cases, inl, inr, eq_iff,
}
use k8s_incident_agent.Outcome.{Outcome, ok, ◌>>=◌, ◌>>◌, raise_if, >>=-eq-ok, value_error}
use k8s_incident_agent.Schemas.{RemediationPlan, State}
use k8s_incident_agent.TargetIdentity.{observed_target_uid, validate_relationships, bind_target}
use k8s_incident_agent.Approval.{is_manual}
use k8s_incident_agent.Passing.{passed}
use k8s_incident_agent.Policy.{
  Grounds, has_id, is_subset, given_ids, evidence_ids_of, cited_evidence, validate_references,
  is_allowed, validate_remediation_plan,
}
use k8s_incident_agent.Policy.Citations.{taken, untaken}
use k8s_incident_agent.Policy.Grounded.{IsGrounded, validated-IsGrounded}

-- list(dict.fromkeys(ids))
abbrev pub distinct : List String → List String
distinct [] = []
distinct (k ∷ ks) = k ∷ filter (λ j. not (str_eq j k)) (distinct ks)

-- The required ids that are not cited yet.
abbrev pub uncited : List String → List String → List String
uncited cited required = filter (λ k. not (has_id cited k)) required

abbrev pub available_evidence : State → List String
available_evidence state =
    given_ids (evidence_ids_of (filter (λ e. not e.has_error) state.evidence))

ok-inj {ℓ} : {A : Type ℓ} {a b : A} → ok a ≡ ok b → a ≡ b
ok-inj e = ground (arith, e)

module _ (grounds : Grounds) where
  abbrev pub required_ids : State → List String
  required_ids state = distinct (grounds.diagnostic_facts state).configuration_evidence_ids

  unfoldable pub cite_configuration :
      RemediationPlan → State → Outcome (RemediationPlan × List String)
  cite_configuration plan state = if is_manual plan.action then ok (plan, []) else (do
    raise_if (not (is_allowed grounds state plan.action))
        (value_error "write action is not grounded or allowed")
    grounds.validate_profile_action state plan
    raise_if
        (not (grounds.diagnostic_facts state).configuration_evidence_complete
          || is_empty (required_ids state)
          || not (is_subset (required_ids state) (available_evidence state))
          || not (is_subset (required_ids state) (cited_evidence state)))
        (value_error "cannot attach incomplete or undeclared configuration evidence")
    raise_if (not (any (has_id (required_ids state)) plan.evidence_ids))
        (value_error "write plan must already cite at least one configuration evidence")
    ok (
      record plan {
        evidence_ids = plan.evidence_ids ++ uncited plan.evidence_ids (required_ids state);
      },
      uncited plan.evidence_ids (required_ids state),
    ))

  unfoldable pub bind_write : RemediationPlan → State → Outcome RemediationPlan
  bind_write plan state =
      if is_manual plan.action then ok plan else bind_target grounds.size plan state

  unfoldable pub prepare_remediation_plan :
      RemediationPlan → State → Outcome (RemediationPlan × List String)
  unfolding cite_configuration bind_write
  prepare_remediation_plan plan state = do
    validate_references plan state
    cited ← cite_configuration plan state
    bound ← bind_write cited.0 state
    validated ← validate_remediation_plan grounds bound state
    ok (validated, cited.1)

  -- The plan with other citations and another uid.
  abbrev pub recited : RemediationPlan → List String → Option String → RemediationPlan
  recited plan added uid = record plan {
    target_uid = uid;
    evidence_ids = plan.evidence_ids ++ added;
  }

  append_nil : (xs : List String) → (xs ++ []) ≡ xs
  append_nil [] = refl
  append_nil (x ∷ xs) = ap (λ (ys : List String). x ∷ ys) (append_nil xs)

  -- What is added is required configuration that was not cited.
  abbrev pub IsMissing : RemediationPlan → State → List String → Type 0
  IsMissing plan state added =
      (k : String)
      → has_id added k ≡ true
      → (has_id (required_ids state) k ≡ true) × (has_id plan.evidence_ids k ≡ false)

  chosen : (b : Bool) (xs ys : List String) → b ≡ true → (if b then xs else ys) ≡ xs
  chosen b xs ys e = rw e refl

  passed_over : (b : Bool) (xs ys : List String) → b ≡ false → (if b then xs else ys) ≡ ys
  passed_over b xs ys e = rw e refl

  or_right : (a b : Bool) → b ≡ true → (a || b) ≡ true
  or_right true b e = refl
  or_right false b e = e

  filter-has_id :
      (p : String → Bool) (ks : List String) (k : String)
      → has_id (filter p ks) k ≡ true
      → (has_id ks k ≡ true) × (p k ≡ true)
  filter-has_id p [] k h = cc
  filter-has_id p (x ∷ ks) k h = elim (Bool-cases (p x)) [
    | inl kept ↦
        let first : has_id (x ∷ filter p ks) k ≡ true =
          sym (ap (λ l. has_id l k) (chosen (p x) (x ∷ filter p ks) (filter p ks) kept)) ∙ h in
        elim (Bool-cases (str_eq k x)) [
          | inl same_id ↦
              (rw same_id refl, subst (λ y. p y ≡ true) (sym ((eq_iff k x).0 same_id)) kept)
          | inr other ↦
              let rest = filter-has_id p ks k (ground (arith, first, other)) in
              (rw other rest.0, rest.1)
        ]
    | inr dropped ↦
        let later =
          sym (ap (λ l. has_id l k) (passed_over (p x) (x ∷ filter p ks) (filter p ks) dropped))
          ∙ h in
        let rest = filter-has_id p ks k later in (or_right (str_eq k x) _ rest.0, rest.1)
  ]

  cited_inv :
      (plan cited : RemediationPlan) (added : List String) (state : State)
      → cite_configuration plan state ≡ ok (cited, added)
      → (cited ≡ recited plan added plan.target_uid) × IsMissing plan state added
  unfolding cite_configuration
  cited_inv plan cited added state h =
      let Good : RemediationPlan × List String → Type 0 =
        λ r. (r.0 ≡ recited plan r.1 plan.target_uid) × IsMissing plan state r.1 in
      elim (Bool-cases (is_manual plan.action)) [
        | inl manual ↦ subst Good (ok-inj (taken (is_manual plan.action) _ _ manual h)) (
          ap (λ (ids : List String). record plan { evidence_ids = ids })
              (sym (append_nil plan.evidence_ids)),
          λ k m. ground (arith, m),
        )
        | inr write ↦
            let h0 = untaken (is_manual plan.action) _ _ write h in
            let (allowed, h1) = passed (not (is_allowed grounds state plan.action)) _ _ h0 in
            let (u, profile, h2) = >>=-eq-ok (grounds.validate_profile_action state plan) _ h1 in
            let (complete, h3) =
              passed
                (not (grounds.diagnostic_facts state).configuration_evidence_complete
                  || is_empty (required_ids state)
                  || not (is_subset (required_ids state) (available_evidence state))
                  || not (is_subset (required_ids state) (cited_evidence state)))
                _ _ h2 in
            let (overlaps, h4) =
              passed (not (any (has_id (required_ids state)) plan.evidence_ids)) _ _ h3 in
            subst Good (ok-inj h4) (
              refl,
              λ k m.
                  let (required, missing) =
                    filter-has_id (λ j. not (has_id plan.evidence_ids j)) (required_ids state) k
                      m in
                  (required, ground (arith, missing)),
            )
      ]

  bound_inv :
      (plan bound : RemediationPlan) (state : State)
      → bind_write plan state ≡ ok bound
      → bound ≡ record plan { target_uid = bound.target_uid }
  unfolding bind_write bind_target
  bound_inv plan bound state h =
      let Good : RemediationPlan → Type 0 = λ b. b ≡ record plan { target_uid = b.target_uid } in
      elim (Bool-cases (is_manual plan.action)) [
        | inl manual ↦ subst Good (ok-inj (taken (is_manual plan.action) _ _ manual h)) refl
        | inr write ↦
            let h0 = untaken (is_manual plan.action) _ _ write h in
            let (uid, found, h1) = >>=-eq-ok (observed_target_uid grounds.size state plan) _ h0 in
            let (agrees, h2) = passed _ _ _ h1 in
            let (u, related, h3) = >>=-eq-ok (validate_relationships state) _ h2 in
            subst Good (ok-inj h3) refl
      ]

  -- A plan that is prepared differs from the given one in its uid and in citations that are added at the
  -- end, each of them required configuration that it did not cite; it passes the policy as it is now.
  pub prepared-IsGrounded :
      (plan prepared : RemediationPlan) (added : List String) (state : State)
      → prepare_remediation_plan plan state ≡ ok (prepared, added)
      → (prepared ≡ recited plan added prepared.target_uid)
        × IsMissing plan state added
        × IsGrounded grounds prepared state
  unfolding prepare_remediation_plan
  prepared-IsGrounded plan prepared added state h =
      let Good : RemediationPlan × List String → Type 0 = λ r.
        (r.0 ≡ recited plan r.1 r.0.target_uid)
        × IsMissing plan state r.1
        × IsGrounded grounds r.0 state in
      let (u, references, h1) = >>=-eq-ok (validate_references plan state) _ h in
      let (cited, cites, h2) = >>=-eq-ok (cite_configuration plan state) _ h1 in
      let (bound, binds, h3) = >>=-eq-ok (bind_write cited.0 state) _ h2 in
      let (validated, valid, h4) = >>=-eq-ok (validate_remediation_plan grounds bound state) _ h3 in
      let (same_cited, missing) = cited_inv plan cited.0 cited.1 state cites in
      let (same_plan, grounded) = validated-IsGrounded grounds bound validated state valid in
      let from_bound : bound ≡ recited plan cited.1 bound.target_uid =
        bound_inv cited.0 bound state binds
        ∙ ap (λ (x : RemediationPlan). record x { target_uid = bound.target_uid }) same_cited in
      subst Good (ok-inj h4) (
        subst (λ (x : RemediationPlan). Good (x, cited.1)) (sym same_plan)
          (from_bound, missing, grounded))
