-- ===== src/Verification/Recovery.antt =====
-- What a run of backend/app/agent/verification.py that ends as a success says of the cluster.
use k8s_incident_agent.Prelude.{ℕ, ◌≡◌, subst, true, Option, some, String, Holds}
use k8s_incident_agent.Database.{Action}
use k8s_incident_agent.Verification.{
  got, Cluster, Plan, VerificationObservation, is_success, observe_action, observe,
}
use k8s_incident_agent.Verification.Loop.{
  VerificationStatus, ActionResult, VerificationResult, verify,
}
use k8s_incident_agent.Schemas.{parsed}
use k8s_incident_agent.Verification.Outcomes.{Tells, Says, verify-Says}
use k8s_incident_agent.Verification.Checks.{
  SelectorRecovered, ProbeRecovered, selector-SelectorRecovered, readiness-ProbeRecovered,
}

-- The approved state that an action is to reach; there is none to reach by hand.
abbrev pub Recovered : Action → Cluster → Option String → Plan → Type 0
Recovered Action.patch_service_selector cluster request plan =
    SelectorRecovered cluster request plan
Recovered Action.patch_readiness_probe cluster request plan = ProbeRecovered cluster request plan
Recovered Action.manual_investigation cluster request plan = ⊥

action-Recovered :
    (action : Action) (cluster : Cluster) (request : Option String) (plan : Plan)
    (o : VerificationObservation)
    → observe_action action cluster request plan ≡ got o
    → is_success o ≡ true
    → Recovered action cluster request plan
unfolding observe_action
action-Recovered Action.patch_service_selector = selector-SelectorRecovered
action-Recovered Action.patch_readiness_probe = readiness-ProbeRecovered
action-Recovered Action.manual_investigation = λ cluster request plan o h good. cc

module _ (started_at finished_at : String) (clusters : ℕ → Cluster) (clock : ℕ → ℕ)
    (request : Option String) (timeout_seconds : ℕ) where
  -- Where `verify` returns `succeeded`, the cluster as it was read in the last attempt is in the state
  -- that the plan was approved for: the service selects by the approved labels, or the deployment has
  -- the approved probe and has rolled out to all its replicas, with as many ready pods; and an endpoint
  -- of the incident's service is ready.
  pub verify-Recovered :
      (fuel : ℕ) (a : ActionResult) (plan : Plan) (r : VerificationResult)
      → verify started_at finished_at clusters clock request timeout_seconds fuel
          (parsed a)
          (parsed plan)
        ≡ some r
      → r.status ≡ VerificationStatus.succeeded
      → Recovered plan.action (clusters r.attempts) request plan
  unfolding observe
  verify-Recovered fuel a plan r returned succeeded =
      let says : Says started_at finished_at clusters clock request timeout_seconds a plan r =
        subst (Holds (Says started_at finished_at clusters clock request timeout_seconds a plan))
          returned
          (verify-Says started_at finished_at clusters clock request timeout_seconds fuel a plan) in
      let (completed, same, (o, seen, good, checks)) =
        subst
          (λ status.
            Tells started_at finished_at clusters clock request timeout_seconds status a plan r)
          succeeded says in
      action-Recovered plan.action (clusters r.attempts) request plan o seen good
