-- ===== src/Program.antt =====
-- What LedgerExecutor of backend/app/runtime/operations.py may ask of its surroundings, as a tree: the
-- repository's transactions, reads of the cluster, the budget, the clock and the one write. A program
-- goes on with the answer, and an exception of the repository ends it.
use k8s_incident_agent.Prelude.{ℕ, Bool, true, false, ◌||◌, Option, none, some, String, ◌==◌}
use k8s_incident_agent.Outcome.{Error, Outcome, ok, raised, value_error, lease_lost}
use k8s_incident_agent.Database.{Key, Doc, OperationState, Operation}
use k8s_incident_agent.Schemas.{
  ResourceKind, RemediationPlan, ApprovalRecord, ActionExecutionResult,
}
use k8s_incident_agent.Operation.{Request, Report}
use k8s_incident_agent.Target.{ApiObject}

-- What the API answers to the write: an object, a status, or no answer.
pub data WriteAnswer : Type 0 where
  responded : ApiObject → WriteAnswer
  refused : Option ℕ → WriteAnswer
  lost : WriteAnswer

-- Everything that a worker asks for while it executes under its lease. `checks_lost` asks whether the
-- heartbeat has failed, `reads_profile` for the outcome of `revalidate_live_profile` with the
-- resource version that it returns, `reads_target` for the object or the exception of a read,
-- `charges` for the outcome of the budget's `before_write`, if there is a budget.
pub data Program : Type 0 where
  returns : ActionExecutionResult → Program
  settles : Bool → Program
  raises : Error → Program
  checks_lost : (Bool → Program) → Program
  asserts_owned : Program → Program
  loads : (Option Operation → Program) → Program
  reads_profile : (Outcome (Option String) → Program) → Program
  reads_target : (Outcome ApiObject → Program) → Program
  prepares : Request → (Operation → Program) → Program
  charges : (Outcome (Unit {0}) → Program) → Program
  dispatches : Key → Program → Program
  sends : Doc → (WriteAnswer → Program) → Program
  records : Report → Program → Program
  asks_time : (ℕ → Program) → Program

-- What is raised leaves the method.
abbrev pub or_raise {ℓ} : {A : Type ℓ} → Outcome A → (A → Program) → Program
or_raise (ok a) k = k a
or_raise (raised e) k = raises e

-- `if test: raise error`
abbrev pub refuse_if : Bool → Error → Program → Program
refuse_if true error k = raises error
refuse_if false error k = k

-- The first reason to refuse, if there is one.
abbrev pub refuse_with : Option String → Program → Program
refuse_with none k = k
refuse_with (some message) k = raises (value_error message)

-- What `execute` reads of the authorisation, and of the state beside it: the digest that
-- `approval_binding` computes of the state, the digest of the plan, and the uid that was approved.
pub record Authorization : Type 0 where
  pub execution_id : String
  pub approval_id : String
  pub plan : RemediationPlan
  pub approval_record : ApprovalRecord
  pub binding : Key
  pub revision : Key
  pub approved_uid : Option String

-- The HTTP statuses after which the write was certainly not applied.
abbrev pub is_refusal : Option ℕ → Bool
is_refusal none = false
is_refusal (some s) = s == 400 || s == 401 || s == 403 || s == 404 || s == 409 || s == 422

abbrev pub is_answered : OperationState → Bool
is_answered OperationState.succeeded = true
is_answered OperationState.reconciled = true
is_answered OperationState.rejected = true
is_answered _ = false

abbrev pub is_deployment : ResourceKind → Bool
is_deployment ResourceKind.deployment = true
is_deployment _ = false

-- `self._assert_owned()`
abbrev pub still_owned : Program → Program
still_owned k = checks_lost λ lost. refuse_if lost lease_lost (asserts_owned k)
