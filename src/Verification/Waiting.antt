-- ===== src/Verification/Waiting.antt =====
-- The attempts of backend/app/agent/verification.py before the last one.
use k8s_incident_agent.Prelude.{
  ℕ, zero, suc, ◌+◌, ◌<◌, ◌≡◌, ◌⊎◌, inl, inr, refl, subst, false, Option, none, some, String, arith,
  leb, Bool-cases, Holds,
}
use k8s_incident_agent.Verification.{
  Answer, got, api_error, exception, Cluster, Plan, VerificationObservation, is_success,
}
use k8s_incident_agent.Verification.Loop.{
  ActionResult, VerificationResult, is_completed, same_action, plain, observed, success, timed_out,
  api_failure, other_failure, mismatched, not_executed, attempt_end, attempt, verify_parsed, verify,
}
use k8s_incident_agent.Schemas.{parsed}
use k8s_incident_agent.Verification.Outcomes.{seen}

module _ (started_at finished_at : String) (clusters : ℕ → Cluster) (clock : ℕ → ℕ)
    (request : Option String) (timeout_seconds : ℕ) where
  -- An attempt that read the cluster before the deadline and did not find it recovered.
  abbrev pub Waits : Plan → ℕ → Type 0
  Waits plan m =
      (o : VerificationObservation) × (seen started_at finished_at clusters clock request
          timeout_seconds plan m
        ≡ got o)
      × (is_success o ≡ false)
      × (clock m < clock 0 + timeout_seconds)

  abbrev WaitsFrom : Plan → ℕ → VerificationResult → Type 0
  WaitsFrom plan attempts r = (m : ℕ) → attempts < m → m < r.attempts → Waits plan m

  module _ (a : ActionResult) (plan : Plan) where
    -- What waits at this attempt, or at a later one.
    Waits-next :
        (attempts : ℕ) (r : VerificationResult)
        → Waits plan (attempts + 1)
        → WaitsFrom plan (attempts + 1) r
        → WaitsFrom plan attempts r
    Waits-next attempts r here later m low high = elim (cases-lem m low) [
      | inl same ↦ subst (Waits plan) same here
      | inr above ↦ later m above high
    ]
      where
        cases-lem : (m : ℕ) → attempts < m → (attempts + 1 ≡ m) ⊎ (attempts + 1 < m)
        cases-lem m low = ground (arith, low)

    attempt_end_waits :
        (attempts : ℕ) (last : Option VerificationObservation)
        (again : VerificationObservation → Option VerificationResult)
        (answer : Answer VerificationObservation)
        → seen started_at finished_at clusters clock request timeout_seconds plan (attempts + 1)
          ≡ answer
        → ((o : VerificationObservation) → Holds (WaitsFrom plan (attempts + 1)) (again o))
        → Holds (WaitsFrom plan attempts) (
            attempt_end started_at finished_at clusters clock request timeout_seconds a
              (attempts + 1)
              last
              again
              answer)
    unfolding attempt_end success timed_out api_failure other_failure plain observed
    attempt_end_waits attempts last again (api_error reason message) e h =
        λ m low high. absurd (omega (arith, low, high))
    attempt_end_waits attempts last again (exception message) e h =
        λ m low high. absurd (omega (arith, low, high))
    attempt_end_waits attempts last again (got o) e h = elim (Bool-cases (is_success o)) [
      | inl good ↦ rw good (λ m low high. absurd (omega (arith, low, high)))
      | inr bad ↦ elim (Bool-cases (leb (clock 0 + timeout_seconds) (clock (attempts + 1)))) [
        | inl late ↦ rw bad (rw late (λ m low high. absurd (omega (arith, low, high))))
        | inr early ↦
            rw bad (rw early (later-lem (o, e, bad, ground (arith, early)) (again o) (h o)))
      ]
    ]
      where
        later-lem :
            Waits plan (attempts + 1)
            → (p : Option VerificationResult) → Holds (WaitsFrom plan (attempts + 1)) p
            → Holds (WaitsFrom plan attempts) p
        later-lem here none later = tt
        later-lem here (some r) later = Waits-next attempts r here later

    attempt_waits :
        (fuel attempts : ℕ) (last : Option VerificationObservation)
        → Holds (WaitsFrom plan attempts) (
            attempt started_at finished_at clusters clock request timeout_seconds a plan fuel
              attempts last)
    unfolding attempt
    attempt_waits zero attempts last = tt
    attempt_waits (suc fuel) attempts last =
        attempt_end_waits attempts last
          (λ o.
            attempt started_at finished_at clusters clock request timeout_seconds a plan fuel
              (attempts + 1) (some o))
          (seen started_at finished_at clusters clock request timeout_seconds plan (attempts + 1))
          refl (λ o. attempt_waits fuel (attempts + 1) (some o))

    all_wait :
        (fuel : ℕ)
        → Holds (WaitsFrom plan 0) (
            verify started_at finished_at clusters clock request timeout_seconds fuel
              (parsed a)
              (parsed plan))
    unfolding verify verify_parsed mismatched not_executed plain
    all_wait fuel = elim (Bool-cases (same_action a.action plan.action)) [
      | inr other ↦ rw other (λ m low high. absurd (omega (arith, low, high)))
      | inl same ↦ elim (Bool-cases (is_completed a.status)) [
        | inr open_end ↦ rw same (rw open_end (λ m low high. absurd (omega (arith, low, high))))
        | inl completed ↦ rw same (rw completed (attempt_waits fuel 0 none))
      ]
    ]

  -- `verify` stops at the first attempt that succeeds, raises or ends at or after the deadline: every
  -- attempt before the last of a returned result read the cluster, found it not recovered and ended
  -- before the deadline.
  pub verify-Waits :
      (fuel : ℕ) (a : ActionResult) (plan : Plan) (r : VerificationResult)
      → verify started_at finished_at clusters clock request timeout_seconds fuel
          (parsed a)
          (parsed plan)
        ≡ some r
      → (m : ℕ) → 0 < m
      → m < r.attempts
      → Waits plan m
  verify-Waits fuel a plan r returned =
      subst (Holds (WaitsFrom plan 0)) returned (all_wait a plan fuel)
