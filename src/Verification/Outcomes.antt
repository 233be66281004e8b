-- ===== src/Verification/Outcomes.antt =====
-- What the loop of backend/app/agent/verification.py returns, and that it does.
use k8s_incident_agent.Prelude.{
  Holds, ℕ, zero, suc, ◌+◌, ◌≤◌, ◌≡◌, ◌⊎◌, inl, inr, refl, ap, Bool, true, false, Option, none,
  some, String, arith, leb, Bool-cases,
}
use k8s_incident_agent.Verification.{
  Answer, got, api_error, exception, Cluster, Plan, VerificationObservation, is_success, observe,
}
use k8s_incident_agent.Verification.Loop.{
  VerificationStatus, ActionResult, VerificationResult, is_completed, same_action, plain, observed,
  success, timed_out, api_failure, other_failure, invalid_state, mismatched, not_executed,
  attempt_end, attempt, verify_parsed, verify,
}
use k8s_incident_agent.Schemas.{Raw, parsed, absent, invalid}

abbrev pub is_got {ℓ} : {A : Type ℓ} → Answer A → Bool
is_got (got a) = true
is_got _ = false

module _ (started_at finished_at : String) (clusters : ℕ → Cluster) (clock : ℕ → ℕ)
    (request : Option String) (timeout_seconds : ℕ) where
  abbrev pub seen : Plan → ℕ → Answer VerificationObservation
  seen plan n = observe (clusters n) request plan

  -- What each status says of the last attempt.
  abbrev pub Tells : VerificationStatus → ActionResult → Plan → VerificationResult → Type 0
  Tells VerificationStatus.succeeded a plan r =
      (is_completed a.status ≡ true)
      × (same_action a.action plan.action ≡ true)
      × ((o : VerificationObservation) × (seen plan r.attempts ≡ got o)
          × (is_success o ≡ true)
          × (r.checks ≡ o.checks))
  Tells VerificationStatus.timeout a plan r =
      (clock 0 + timeout_seconds ≤ clock r.attempts)
      × ((o : VerificationObservation) × (seen plan r.attempts ≡ got o)
          × (is_success o ≡ false)
          × (r.checks ≡ o.checks))
  Tells VerificationStatus.skipped a plan r = (is_completed a.status ≡ false) × (r.attempts ≡ 0)
  Tells VerificationStatus.failed a plan r =
      ((same_action a.action plan.action ≡ false) × (r.attempts ≡ 0))
      ⊎ (is_got (seen plan r.attempts) ≡ false)

  abbrev pub Says : ActionResult → Plan → VerificationResult → Type 0
  Says a plan r = Tells r.status a plan r

  module _ (a : ActionResult) (plan : Plan) (completed : is_completed a.status ≡ true)
      (same : same_action a.action plan.action ≡ true) where
    attempt_end_tells :
        (n : ℕ) (last : Option VerificationObservation)
        (again : VerificationObservation → Option VerificationResult)
        (answer : Answer VerificationObservation)
        → seen plan n ≡ answer
        → ((o : VerificationObservation) → Holds (Says a plan) (again o))
        → Holds (Says a plan) (
            attempt_end started_at finished_at clusters clock request timeout_seconds a n last again
              answer)
    unfolding attempt_end success timed_out api_failure other_failure plain observed
    attempt_end_tells n last again (api_error reason message) e h = inr (ap is_got e)
    attempt_end_tells n last again (exception message) e h = inr (ap is_got e)
    attempt_end_tells n last again (got o) e h = elim (Bool-cases (is_success o)) [
      | inl good ↦ rw good (completed, same, (o, e, good, refl))
      | inr bad ↦ elim (Bool-cases (leb (clock 0 + timeout_seconds) (clock n))) [
        | inl late ↦ rw bad (rw late (ground (arith, late), (o, e, bad, refl)))
        | inr early ↦ rw bad (rw early (h o))
      ]
    ]

    attempt_tells :
        (fuel attempts : ℕ) (last : Option VerificationObservation)
        → Holds (Says a plan) (
            attempt started_at finished_at clusters clock request timeout_seconds a plan fuel
              attempts last)
    unfolding attempt
    attempt_tells zero attempts last = tt
    attempt_tells (suc fuel) attempts last =
        attempt_end_tells (attempts + 1) last
          (λ o.
            attempt started_at finished_at clusters clock request timeout_seconds a plan fuel
              (attempts + 1) (some o))
          (seen plan (attempts + 1)) refl (λ o. attempt_tells fuel (attempts + 1) (some o))

  -- Where `verify` returns a result for an execution and a plan that their schemas accept: `succeeded`
  -- comes of a completed execution of the plan's action whose last attempt passed all checks, which
  -- are those of the result; `timeout` of a last attempt that did not, at or after the deadline;
  -- `skipped` of an execution that did not complete; and `failed` of another action or of an attempt
  -- that raised.
  pub verify-Says :
      (fuel : ℕ) (a : ActionResult) (plan : Plan)
      → Holds (Says a plan) (
          verify started_at finished_at clusters clock request timeout_seconds fuel
            (parsed a)
            (parsed plan))
  unfolding verify verify_parsed mismatched not_executed plain
  verify-Says fuel a plan = elim (Bool-cases (same_action a.action plan.action)) [
    | inr other ↦ rw other (inl (other, refl))
    | inl same ↦ elim (Bool-cases (is_completed a.status)) [
      | inr open_end ↦ rw same (rw open_end (open_end, refl))
      | inl completed ↦ rw same (rw completed (attempt_tells a plan completed same fuel 0 none))
    ]
  ]

  clock_grows :
      (poll : ℕ)
      → 1 ≤ poll
      → clock 0 ≤ clock 1
      → ((n : ℕ) → clock (suc n) + poll ≤ clock (suc (suc n)))
      → (n : ℕ) → clock 0 + n ≤ clock (suc n)
  clock_grows poll positive first later zero = omega (arith, first)
  clock_grows poll positive first later (suc n) =
      omega (arith, positive, later n, clock_grows poll positive first later n)

  attempt_end_returns :
      (a : ActionResult) (n : ℕ) (last : Option VerificationObservation)
      (again : VerificationObservation → Option VerificationResult)
      (answer : Answer VerificationObservation)
      → n ≤ timeout_seconds + 1
      → ((o : VerificationObservation)
          → leb (clock 0 + timeout_seconds) (clock n) ≡ false
          → (r : VerificationResult) × (again o ≡ some r) × (r.attempts ≤ timeout_seconds + 1))
      → (r : VerificationResult) × (attempt_end started_at finished_at clusters clock request
            timeout_seconds a n last again answer
          ≡ some r)
        × (r.attempts ≤ timeout_seconds + 1)
  unfolding attempt_end success timed_out api_failure other_failure plain observed
  attempt_end_returns a n last again (api_error reason message) h rest = (_, refl, h)
  attempt_end_returns a n last again (exception message) h rest = (_, refl, h)
  attempt_end_returns a n last again (got o) h rest = elim (Bool-cases (is_success o)) [
    | inl good ↦ (success started_at finished_at a n o, rw good refl, h)
    | inr bad ↦ elim (Bool-cases (leb (clock 0 + timeout_seconds) (clock n))) [
      | inl late ↦ (timed_out started_at finished_at a n o, rw bad (rw late refl), h)
      | inr early ↦ let (r, e, few) = rest o early in (r, rw bad (rw early e), few)
    ]
  ]

  attempt_returns :
      (a : ActionResult) (plan : Plan)
      → ((n : ℕ) → clock 0 + n ≤ clock (suc n))
      → (fuel attempts : ℕ) (last : Option VerificationObservation) → attempts ≤ timeout_seconds
      → timeout_seconds + 1 ≤ fuel + attempts
      → (r : VerificationResult) × (attempt started_at finished_at clusters clock request
            timeout_seconds a plan fuel attempts last
          ≡ some r)
        × (r.attempts ≤ timeout_seconds + 1)
  unfolding attempt
  attempt_returns a plan grows zero attempts last below enough =
      absurd (omega (arith, below, enough))
  attempt_returns a plan grows (suc fuel) attempts last below enough =
      attempt_end_returns a (attempts + 1) last _ (seen plan (attempts + 1)) (omega (arith, below))
        (λ o early.
          let next : attempts + 1 ≤ timeout_seconds = later-lem early in
          attempt_returns a plan grows fuel (attempts + 1) (some o) next (omega (arith, enough)))
    where
      later-lem :
          leb (clock 0 + timeout_seconds) (clock (attempts + 1)) ≡ false
          → attempts + 1 ≤ timeout_seconds
      later-lem early = ground (arith, early, grows attempts)

  verify_parsed_returns :
      (a : ActionResult) (plan : Plan)
      → ((n : ℕ) → clock 0 + n ≤ clock (suc n))
      → (fuel : ℕ) → timeout_seconds + 1 ≤ fuel
      → (r : VerificationResult) × (verify_parsed started_at finished_at clusters clock request
            timeout_seconds fuel a plan
          ≡ some r)
        × (r.attempts ≤ timeout_seconds + 1)
  unfolding verify_parsed mismatched not_executed plain
  verify_parsed_returns a plan grows fuel enough =
      elim (Bool-cases (same_action a.action plan.action)) [
        | inr other ↦ (mismatched started_at finished_at a, rw other refl, omega arith)
        | inl same ↦ elim (Bool-cases (is_completed a.status)) [
          | inr open_end ↦
              (not_executed started_at finished_at a, rw same (rw open_end refl), omega arith)
          | inl completed ↦
              let (r, e, few) =
                attempt_returns a plan grows fuel 0 none (omega arith) (omega (arith, enough)) in
              (r, rw same (rw completed e), few)
        ]
      ]

  -- With time that passes, by at least one unit between two readings that a sleep parts, and fuel of
  -- one attempt more than the timeout has units, `verify` returns a result for whatever the state
  -- holds, after at most that many attempts.
  pub verify_returns :
      (poll : ℕ)
      → 1 ≤ poll
      → clock 0 ≤ clock 1
      → ((n : ℕ) → clock (suc n) + poll ≤ clock (suc (suc n)))
      → (raw_action : Raw ActionResult) (raw_plan : Raw Plan) (fuel : ℕ)
      → timeout_seconds + 1 ≤ fuel
      → (r : VerificationResult) × (verify started_at finished_at clusters clock request
            timeout_seconds fuel raw_action raw_plan
          ≡ some r)
        × (r.attempts ≤ timeout_seconds + 1)
  unfolding verify invalid_state plain
  verify_returns poll positive first later absent plan fuel enough = (_, refl, omega arith)
  verify_returns poll positive first later (invalid message) absent fuel enough =
      (_, refl, omega arith)
  verify_returns poll positive first later (parsed a) absent fuel enough = (_, refl, omega arith)
  verify_returns poll positive first later (invalid message) (invalid other) fuel enough =
      (_, refl, omega arith)
  verify_returns poll positive first later (invalid message) (parsed plan) fuel enough =
      (_, refl, omega arith)
  verify_returns poll positive first later (parsed a) (invalid message) fuel enough =
      (_, refl, omega arith)
  verify_returns poll positive first later (parsed a) (parsed plan) fuel enough =
      verify_parsed_returns a plan (clock_grows poll positive first later) fuel enough
