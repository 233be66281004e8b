-- ===== src/Verification/Loop.antt =====
-- The method `verify` of backend/app/agent/verification.py. Attempt n sees the n-th cluster, and the
-- clock is read before the first attempt (reading 0) and after each attempt that has not succeeded
-- (reading n). The fuel bounds the attempts.
use k8s_incident_agent.Prelude.{
  ℕ, zero, suc, ◌+◌, Bool, true, false, not, Option, none, some, List, [], String, str_eq, leb,
  if◌then◌else◌,
}
use k8s_incident_agent.Database.{Action}
use k8s_incident_agent.Schemas.{ExecutionStatus, Raw, absent, invalid, parsed}
use k8s_incident_agent.Verification.{
  Answer, got, api_error, exception, Cluster, Plan, VerificationCheck, VerificationObservation,
  is_success, observe,
}

pub data VerificationStatus : Type 0 where
  succeeded failed timeout skipped : VerificationStatus

-- What `verify` reads of the result of the execution.
pub record ActionResult : Type 0 where
  pub execution_id : String
  pub action : Action
  pub status : ExecutionStatus

-- The fields that `verify` fills; the others keep their defaults.
pub record VerificationResult : Type 0 where
  pub execution_id : String
  pub action : Action
  pub status : VerificationStatus
  pub started_at : String
  pub finished_at : String
  pub attempts : ℕ
  pub checks : List VerificationCheck
  pub desired_replicas : Option ℕ
  pub available_replicas : Option ℕ
  pub ready_pods : Option ℕ
  pub ready_endpoints : Option ℕ
  pub message : String
  pub error_code : Option String
  pub error_message : Option String

abbrev pub is_completed : ExecutionStatus → Bool
is_completed ExecutionStatus.succeeded = true
is_completed ExecutionStatus.already_applied = true
is_completed _ = false

abbrev pub same_action : Action → Action → Bool
same_action Action.manual_investigation Action.manual_investigation = true
same_action Action.patch_readiness_probe Action.patch_readiness_probe = true
same_action Action.patch_service_selector Action.patch_service_selector = true
same_action _ _ = false

checks_of : Option VerificationObservation → List VerificationCheck
checks_of none = []
checks_of (some o) = o.checks

module _ (started_at finished_at : String) where
  -- A result without an observation.
  unfoldable pub plain :
      String
      → Action
      → VerificationStatus
      → ℕ
      → List VerificationCheck
      → String
      → Option String
      → Option String
      → VerificationResult
  plain execution_id action status attempts checks message code error = record {
    execution_id = execution_id;
    action = action;
    status = status;
    started_at = started_at;
    finished_at = finished_at;
    attempts = attempts;
    checks = checks;
    desired_replicas = none;
    available_replicas = none;
    ready_pods = none;
    ready_endpoints = none;
    message = message;
    error_code = code;
    error_message = error;
  }

  -- A result that tells the last observation.
  unfoldable pub observed :
      ActionResult
      → VerificationStatus
      → ℕ
      → VerificationObservation
      → String
      → Option String
      → Option String
      → VerificationResult
  observed a status attempts o message code error = record {
    execution_id = a.execution_id;
    action = a.action;
    status = status;
    started_at = started_at;
    finished_at = finished_at;
    attempts = attempts;
    checks = o.checks;
    desired_replicas = o.desired_replicas;
    available_replicas = o.available_replicas;
    ready_pods = o.ready_pods;
    ready_endpoints = o.ready_endpoints;
    message = message;
    error_code = code;
    error_message = error;
  }

  unfoldable pub success : ActionResult → ℕ → VerificationObservation → VerificationResult
  unfolding observed
  success a attempts o =
      observed a VerificationStatus.succeeded attempts o
        "Kubernetes recovery verification succeeded." none none

  unfoldable pub timed_out : ActionResult → ℕ → VerificationObservation → VerificationResult
  unfolding observed
  timed_out a attempts o =
      observed a VerificationStatus.timeout attempts o "Kubernetes recovery verification timed out."
        (some "RECOVERY_VERIFICATION_TIMEOUT")
        (some "The approved resource change did not recover before the timeout.")

  -- error.reason where it is a text that is not empty, and the text of the error otherwise.
  reason_of : Option String → String → String
  reason_of none message = message
  reason_of (some reason) message = if str_eq reason "" then message else reason

  unfoldable pub api_failure :
      ActionResult
      → ℕ
      → Option VerificationObservation
      → Option String
      → String
      → VerificationResult
  unfolding plain checks_of reason_of
  api_failure a attempts last reason message =
      plain a.execution_id a.action VerificationStatus.failed attempts (checks_of last)
        "Kubernetes API recovery verification failed." (some "KUBERNETES_VERIFICATION_ERROR")
        (some (reason_of reason message))

  unfoldable pub other_failure :
      ActionResult → ℕ → Option VerificationObservation → String → VerificationResult
  unfolding plain checks_of
  other_failure a attempts last message =
      plain a.execution_id a.action VerificationStatus.failed attempts (checks_of last)
        "Recovery verification raised an unexpected exception." (some "RECOVERY_VERIFICATION_ERROR")
        (some message)

  unfoldable pub invalid_state : String → VerificationResult
  unfolding plain
  invalid_state message =
      plain "exec-0000000000000000" Action.manual_investigation VerificationStatus.failed 0 []
        "Recovery verification state is invalid." (some "INVALID_VERIFICATION_STATE") (some message)

  unfoldable pub mismatched : ActionResult → VerificationResult
  unfolding plain
  mismatched a =
      plain a.execution_id a.action VerificationStatus.failed 0 []
        "Execution result does not match the remediation plan." (some "INVALID_VERIFICATION_STATE")
        (some "action_result.action does not match remediation_plan.action")

  unfoldable pub not_executed : ActionResult → VerificationResult
  unfolding plain
  not_executed a =
      plain a.execution_id a.action VerificationStatus.skipped 0 []
        "Recovery verification was skipped because execution did not complete." none none

  module _ (clusters : ℕ → Cluster) (clock : ℕ → ℕ) (request : Option String)
      (timeout_seconds : ℕ) where
    -- The rest of an attempt, once the cluster has answered; `again` is the loop after the sleep.
    unfoldable pub attempt_end :
        ActionResult
        → ℕ
        → Option VerificationObservation
        → (again : VerificationObservation → Option VerificationResult)
        → Answer VerificationObservation
        → Option VerificationResult
    attempt_end a n last again (api_error reason message) =
        some (api_failure a n last reason message)
    attempt_end a n last again (exception message) = some (other_failure a n last message)
    attempt_end a n last again (got o) =
        let rest = again o in
        if is_success o
        then some (success a n o)
        else if leb (clock 0 + timeout_seconds) (clock n)
        then some (timed_out a n o)
        else rest

    -- The loop after `attempts` attempts.
    unfoldable pub attempt :
        ActionResult
        → Plan
        → (fuel attempts : ℕ) → Option VerificationObservation
        → Option VerificationResult
    unfolding attempt_end
    attempt a plan zero attempts last = none
    attempt a plan (suc fuel) attempts last =
        attempt_end a (attempts + 1) last (λ o. attempt a plan fuel (attempts + 1) (some o))
          (observe (clusters (attempts + 1)) request plan)

    unfoldable pub verify_parsed : ℕ → ActionResult → Plan → Option VerificationResult
    unfolding attempt mismatched not_executed
    verify_parsed fuel a plan =
        let loop = attempt a plan fuel 0 none in
        if not (same_action a.action plan.action)
        then some (mismatched a)
        else if not (is_completed a.status)
        then some (not_executed a)
        else loop

    -- The result of the execution is required and parsed before the plan is parsed, but both must be
    -- there before.
    unfoldable pub verify : ℕ → Raw ActionResult → Raw Plan → Option VerificationResult
    unfolding verify_parsed invalid_state
    verify fuel absent plan = some (invalid_state "action_result is required")
    verify fuel (invalid message) absent = some (invalid_state "remediation_plan is required")
    verify fuel (parsed a) absent = some (invalid_state "remediation_plan is required")
    verify fuel (invalid message) (invalid other) = some (invalid_state message)
    verify fuel (invalid message) (parsed plan) = some (invalid_state message)
    verify fuel (parsed a) (invalid message) = some (invalid_state message)
    verify fuel (parsed a) (parsed plan) = verify_parsed fuel a plan
