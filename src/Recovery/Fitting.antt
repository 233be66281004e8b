-- ===== src/Recovery/Fitting.antt =====
-- What each decision of `classify` in backend/app/runtime/recovery.py says of what is saved.
use k8s_incident_agent.Prelude.{
  ◌≡◌, ◌⊎◌, inl, inr, refl, subst, Bool, true, false, not, ◌&&◌, ◌||◌, Option, none, some, [], ◌∷◌,
  String, str_eq, ==→eq, if◌then◌else◌, any, all, is_some, says, is_empty, arith,
}
use k8s_incident_agent.Database.{Key, Doc, Approval, Operation}
use k8s_incident_agent.Target.{is_given}
use k8s_incident_agent.Equality.{
  same, nat_equality, string_equality, option_equality, list_equality,
}
use k8s_incident_agent.Approval.{is_true}
use k8s_incident_agent.Recovery.{
  Question, UserAnswer, SavedRun, Values, Snapshot, RecoveryDecision, stop_if, has_name,
  allowed_nodes, is_granted, is_in_flight, is_ended, is_written, is_writing, is_past_write,
  is_unbound, is_other_context, is_other_workflow, phase_in, open_answer, is_corrupt,
  is_context_corrupt, answered_by, interrupted, finished, pended, proceed_from, checked,
  is_nothing_saved, classify, is_round, is_investigation, investigation_workflow,
}
use k8s_incident_agent.Passing.{&&-both, neither, not-false, equals-some, says-some}

some-inj : {a b : Approval} → some a ≡ some b → a ≡ b
some-inj e = ground (arith, e)

second_false : (a b : Bool) → (a && b) ≡ false → a ≡ true → b ≡ false
second_false a b h t = ground arith

-- A test that passes although its first part holds: the second part or the third does not.
passes_by : (a b c : Bool) → (a && b && c) ≡ false → a ≡ true → (b ≡ false) ⊎ (c ≡ false)
passes_by a b c h t = ground arith

not_some : (o : Option String) → is_some o ≡ false → o ≡ none
not_some none h = refl
not_some (some s) h = ground arith

same_question : (p q : Question) → p.question_id ≡ q.question_id → p.version ≡ q.version → p ≡ q
same_question p q e f = cc

module _ (digest : Doc → Key) (binding_of : Values → Key) (ends_with : String → String → Bool) where
  -- A saved approval is one of this state.
  abbrev pub IsBoundTo : Values → Approval → Type 0
  IsBoundTo v a = (a.binding ≡ binding_of v) × (v.approval_request_id ≡ some a.approval_id)

  -- What is saved may be gone on from: it is of this run's incident and input, for a round it is of
  -- this run and its context, for an investigation of that workflow or only begun, the approval is
  -- bound to it, no write may be open, and where it has written or may go on to write, a human has
  -- approved.
  pub record IsSound (run : SavedRun) (snapshot : Snapshot) (operation : Option Operation)
      : Type 0 where
    pub same_incident : snapshot.values.incident_id ≡ some run.incident_id
    pub same_input : snapshot.values.request ≡ some run.input_payload
    pub same_round :
        is_round run.workflow_version ≡ true
        → (snapshot.values.round_context ≡ run.context_snapshot)
          × (snapshot.values.run_id ≡ some run.run_id)
    pub same_workflow :
        is_investigation run.workflow_version ≡ true
        → (snapshot.values.workflow_version ≡ some investigation_workflow)
          ⊎ ((snapshot.pending ≡ "initialize" ∷ []) × (snapshot.values.workflow_version ≡ none))
    pub bound : (a : Approval) → run.approval_payload ≡ some a → IsBoundTo snapshot.values a
    pub not_in_flight : is_in_flight operation ≡ false
    pub granted :
        is_writing snapshot ≡ true
        → (a : Approval) × (run.approval_payload ≡ some a)
          × (a.approved ≡ true)
          × IsBoundTo snapshot.values a
    pub ended :
        is_writing snapshot ≡ true
        → is_past_write snapshot ≡ true
        → is_ended operation snapshot.values.action_result ≡ true

  context-same :
      (run : SavedRun) (v : Values)
      → is_other_context run v ≡ false
      → is_round run.workflow_version ≡ true
      → (v.round_context ≡ run.context_snapshot) × (v.run_id ≡ some run.run_id)
  unfolding is_other_context
  context-same run v h round =
      let both = neither _ _ (second_false _ _ h round) in
      (
        option_equality.sound v.round_context run.context_snapshot (not-false _ both.0),
        equals-some v.run_id run.run_id (not-false _ both.1),
      )

  workflow-same :
      (run : SavedRun) (snapshot : Snapshot)
      → is_other_workflow run snapshot ≡ false
      → is_investigation run.workflow_version ≡ true
      → (snapshot.values.workflow_version ≡ some investigation_workflow)
        ⊎ ((snapshot.pending ≡ "initialize" ∷ []) × (snapshot.values.workflow_version ≡ none))
  unfolding is_other_workflow
  workflow-same run snapshot h investigates = elim (passes_by _ _ _ h investigates) [
    | inl named ↦ inl (says-some snapshot.values.workflow_version investigation_workflow named)
    | inr begun ↦
        let both = neither _ _ begun in
        inr (
          list_equality.sound snapshot.pending _ (not-false _ both.0),
          not_some snapshot.values.workflow_version both.1,
        )
  ]

  unfoldable pub Fits : SavedRun → Snapshot → Option Operation → RecoveryDecision → Type 0
  Fits run snapshot operation RecoveryDecision.start =
      (is_nothing_saved digest binding_of ends_with snapshot ≡ true)
      × (run.checkpoint_started ≡ false)
  Fits run snapshot operation RecoveryDecision.continue =
      IsSound run snapshot operation
      × (all (λ name. has_name name (allowed_nodes run)) snapshot.pending ≡ true)
      × (is_given snapshot.checkpoint_id ≡ true)
  Fits run snapshot operation RecoveryDecision.resume =
      IsSound run snapshot operation
      × (is_some run.approval_payload ≡ true)
      × (snapshot.pending ≡ "request_human_approval" ∷ [])
  Fits run snapshot operation RecoveryDecision.resume_user =
      IsSound run snapshot operation
      × ((a : UserAnswer) × (open_answer run snapshot.values ≡ some a)
          × (a.answers ≡ snapshot.values.question))
  Fits run snapshot operation (RecoveryDecision.stop status code) = Unit

  module _ (run : SavedRun) (snapshot : Snapshot) (operation : Option Operation) where
    abbrev Fit : RecoveryDecision → Type 0
    Fit = Fits run snapshot operation

    stop-Fits : (status : String) (code : Option String) → Fit (RecoveryDecision.stop status code)
    unfolding Fits
    stop-Fits status code = tt

    stop_if-Fits :
        (b : Bool) (status : String) (code : Option String) (d : RecoveryDecision)
        → (b ≡ false → Fit d)
        → Fit (stop_if b status code d)
    stop_if-Fits true status code d f = stop-Fits status code
    stop_if-Fits false status code d f = f refl

    if-Fits :
        (b : Bool) (d e : RecoveryDecision)
        → (b ≡ true → Fit d)
        → (b ≡ false → Fit e)
        → Fit (if b then d else e)
    if-Fits true d e f g = f refl
    if-Fits false d e f g = g refl

    -- Both branches stop.
    stops-Fits : (b : Bool) (d e : RecoveryDecision) → Fit d → Fit e → Fit (if b then d else e)
    stops-Fits b d e f g = if-Fits b d e (λ h. f) (λ h. g)

    module _ (sound : IsSound run snapshot operation) where
      resumed-Fits :
          (is_some run.approval_payload && same snapshot.pending ("request_human_approval" ∷ []))
            ≡ true
          → Fit RecoveryDecision.resume
      unfolding Fits
      resumed-Fits h =
          let both = &&-both _ _ h in (sound, both.0, list_equality.sound snapshot.pending _ both.1)

      user-Fits :
          (a : UserAnswer)
          → open_answer run snapshot.values ≡ some a
          → (same a.answers.question_id snapshot.values.question.question_id
              && same a.answers.version snapshot.values.question.version)
            ≡ true
          → Fit RecoveryDecision.resume_user
      unfolding Fits
      user-Fits a h agrees =
          let both = &&-both _ _ agrees in
          let ids =
            option_equality.sound a.answers.question_id snapshot.values.question.question_id
              both.0 in
          let versions =
            option_equality.sound a.answers.version snapshot.values.question.version both.1 in
          (sound, (a, h, same_question a.answers snapshot.values.question ids versions))

      answered-Fits :
          (o : Option UserAnswer)
          → open_answer run snapshot.values ≡ o
          → Fit (answered_by digest binding_of ends_with snapshot.values o)
      unfolding answered_by
      answered-Fits none h = stop-Fits _ _
      answered-Fits (some a) h = stop_if-Fits _ _ _ _ (λ agrees. user-Fits a h (not-false _ agrees))

      interrupted-Fits :
          (phase : String) → Fit (interrupted digest binding_of ends_with run snapshot phase)
      unfolding interrupted
      interrupted-Fits phase =
          stops-Fits _ _ _ (answered-Fits (open_answer run snapshot.values) refl)
            (stops-Fits _ _ _ (if-Fits _ _ _ resumed-Fits (λ h. stop-Fits _ _)) (stop-Fits _ _))

      finished-Fits :
          (phase : String)
          → Fit (finished digest binding_of ends_with run snapshot.values operation phase)
      unfolding finished
      finished-Fits phase =
          stops-Fits
            (is_some run.approval_payload
              && not (is_granted run.approval_payload)
              && str_eq phase "approval_rejected")
            _ _ (stop-Fits "succeeded" none)
            (stops-Fits (is_written operation && str_eq phase "verification_succeeded") _ _
              (stop-Fits "succeeded" none)
              (stops-Fits
                (str_eq phase "remediation_skipped"
                  || str_eq phase "remediation_planned"
                    && not (is_true snapshot.values.requires_approval))
                _ _ (stop-Fits "succeeded" none) (stop-Fits "failed" (some "WORKFLOW_FAILED"))))

      continued-Fits :
          (not (is_given snapshot.checkpoint_id)
              || not (all (λ name. has_name name (allowed_nodes run)) snapshot.pending))
            ≡ false
          → Fit RecoveryDecision.continue
      unfolding Fits
      continued-Fits h = let both = neither _ _ h in (sound, not-false _ both.1, not-false _ both.0)

      pended-Fits : Fit (pended digest binding_of ends_with run snapshot)
      unfolding pended
      pended-Fits = stop_if-Fits _ "failed" (some "UNSUPPORTED_PENDING_TASK") _ (λ h.
          stop_if-Fits
            (any
              (λ t.
                not (elim t.name [ none ↦ false | some name ↦ has_name name (allowed_nodes run) ]))
              snapshot.tasks)
            "failed" (some "UNSUPPORTED_PENDING_TASK") _
            (λ t.
              stop_if-Fits
                (any (λ t. t.has_error) snapshot.tasks
                  && not (says run.last_error_code "DEPENDENCY_TEMPORARY"))
                "failed" (some "PENDING_TASK_FAILED") _ (λ e. continued-Fits h)))

      proceed-Fits : Fit (proceed_from digest binding_of ends_with run snapshot operation)
      unfolding proceed_from
      proceed-Fits =
          let phase = phase_in snapshot.values in
          stops-Fits (any (λ t. t.has_interrupts) snapshot.tasks) _ _ (interrupted-Fits phase) (
            stop_if-Fits (str_eq phase "failed" || ends_with phase "_failed") "failed"
              (some "WORKFLOW_FAILED") _
              (λ h. stops-Fits (is_empty snapshot.pending) _ _ (finished-Fits phase) pended-Fits))

    bound_to :
        (o : Option Approval)
        → is_unbound (binding_of snapshot.values) snapshot.values o ≡ false
        → (a : Approval) → o ≡ some a
        → IsBoundTo snapshot.values a
    unfolding is_unbound
    bound_to none h a e = ground (arith, e)
    bound_to (some b) h a e =
        let both = neither _ _ h in
        let at_b : IsBoundTo snapshot.values b = (
          ==→eq b.binding _ (not-false _ both.0),
          equals-some snapshot.values.approval_request_id b.approval_id (not-false _ both.1),
        ) in
        subst (IsBoundTo snapshot.values) (some-inj e) at_b

    granted_by :
        (o : Option Approval)
        → is_granted o ≡ true
        → (a : Approval) × (o ≡ some a) × (a.approved ≡ true)
    granted_by none h = ground (arith, h)
    granted_by (some a) h = (a, refl, h)

    checked-Fits : Fit (checked digest binding_of ends_with run snapshot operation)
    unfolding checked
    checked-Fits = stop_if-Fits _ _ _ _ (λ incident. stop_if-Fits _ _ _ _ (λ input.
        stop_if-Fits (is_other_context run snapshot.values) _ _ _ (λ context.
          stop_if-Fits (is_other_workflow run snapshot) _ _ _ (λ workflow.
            stop_if-Fits
              (is_unbound (binding_of snapshot.values) snapshot.values run.approval_payload) _ _ _
              (λ binding. stop_if-Fits (is_in_flight operation) _ _ _ (λ flight.
                stop_if-Fits (is_writing snapshot && not (is_granted run.approval_payload)) _ _ _
                  (λ grant.
                    stop_if-Fits
                      (is_writing snapshot
                        && is_past_write snapshot
                        && not (is_ended operation snapshot.values.action_result))
                      _ _ _
                      (λ past. proceed-Fits (record {
                        same_incident =
                            equals-some snapshot.values.incident_id run.incident_id
                              (not-false _ incident);
                        same_input =
                            equals-some snapshot.values.request run.input_payload
                              (not-false _ input);
                        same_round = context-same run snapshot.values context;
                        same_workflow = workflow-same run snapshot workflow;
                        bound = bound_to run.approval_payload binding;
                        not_in_flight = flight;
                        granted = λ writing.
                            let (a, found, approves) =
                              granted_by run.approval_payload (ground (arith, writing, grant)) in
                            (a, found, approves, bound_to run.approval_payload binding a found);
                        ended = λ writing after. ground (arith, writing, after, past);
                      })))))))))

    started-Fits :
        is_nothing_saved digest binding_of ends_with snapshot ≡ true
        → run.checkpoint_started ≡ false
        → Fit RecoveryDecision.start
    unfolding Fits
    started-Fits h k = (h, k)

    -- A run starts anew only if nothing is saved and no checkpoint was begun. It goes on, with or
    -- without an answer of a human, only from a checkpoint of this run's incident and input, which
    -- for a run of a round workflow carries this run's id and context, and for an investigation is
    -- of that workflow or only begun, with no write that may be open, with a saved approval that is
    -- bound to the state, and, where it has written or may go on to write, one that approves. It
    -- continues only with nodes that are allowed, resumes only the wait for an approval that is
    -- saved, and resumes the user's wait only with a new answer to the open question.
    pub classify-Fits :
        Fits run snapshot operation (classify digest binding_of ends_with run snapshot operation)
    unfolding classify
    classify-Fits =
        stop_if-Fits (is_corrupt digest binding_of ends_with run) "failed"
          (some "UNSUPPORTED_OR_CORRUPT_INPUT") _
          (λ a.
            stop_if-Fits (is_context_corrupt digest binding_of ends_with run) "failed"
              (some "UNSUPPORTED_OR_CORRUPT_INPUT") _
              (λ b.
                if-Fits (is_nothing_saved digest binding_of ends_with snapshot) _ _
                  (λ nothing.
                    stop_if-Fits run.checkpoint_started "failed" (some "CHECKPOINT_MISSING") _
                      (λ unstarted. started-Fits nothing unstarted))
                  (λ saved. checked-Fits)))
