-- ===== src/Verification/Examples.antt =====
-- A service whose selector was patched and whose endpoint becomes ready before the second attempt.
use k8s_incident_agent.Prelude.{
  ℕ, ◌+◌, ◌*◌, ◌≤◌, ◌≡◌, refl, Option, none, some, List, [], ◌∷◌, Holds, arith, leb,
}
use k8s_incident_agent.Database.{Action}
use k8s_incident_agent.Verification.{
  got, Labels, ApiSlice, ApiDeployment, Cluster, Plan, observe, label_pairs_to_dict, service_of,
  ready_endpoint_count, selector_observation,
}
use k8s_incident_agent.Verification.Loop.{
  VerificationStatus, ActionResult, VerificationResult, success, verify,
}
use k8s_incident_agent.Schemas.{ExecutionStatus, parsed}
use k8s_incident_agent.Verification.Checks.{SelectorRecovered}
use k8s_incident_agent.Verification.Outcomes.{Says, verify-Says, verify_returns}
use k8s_incident_agent.Verification.Recovery.{verify-Recovered}
use k8s_incident_agent.Verification.Waiting.{Waits, verify-Waits}

abbrev labels : Labels
labels = ("app", "web") ∷ []

abbrev slices : ℕ → Option (List ApiSlice)
slices n =
    some (record { endpoints = some (record { conditions = some (some (leb 2 n)) } ∷ []) } ∷ [])

abbrev deployment : ApiDeployment
deployment = record {
  generation = none;
  replicas = none;
  match_labels = none;
  containers = none;
  observed_generation = none;
  updated_replicas = none;
  available_replicas = none;
}

abbrev clusters : ℕ → Cluster
clusters n = record {
  read_service_selector = λ name namespace. got (some labels);
  read_deployment = λ name namespace. got deployment;
  list_pods = λ namespace selector. got none;
  list_endpoint_slices = λ namespace service. got (slices n);
}

abbrev clock : ℕ → ℕ
clock n = n * 2

abbrev plan : Plan
plan = record {
  action = Action.patch_service_selector;
  namespace = "agent-demo";
  resource_name = "web";
  container_name = none;
  proposed_probe_path = none;
  proposed_probe_port = none;
  proposed_selector = labels;
}

abbrev execution : ActionResult
execution = record {
  execution_id = "exec-0123456789abcdef";
  action = Action.patch_service_selector;
  status = ExecutionStatus.succeeded;
}

verify-Says_example :
    Holds
      (Says "t0" "t1" clusters clock (some "web") 60 execution plan)
      (verify "t0" "t1" clusters clock (some "web") 60 61 (parsed execution) (parsed plan))
verify-Says_example = verify-Says "t0" "t1" clusters clock (some "web") 60 61 execution plan

verify_returns_example :
    (r : VerificationResult) × (verify "t0" "t1" clusters clock
        (some "web")
        60
        61
        (parsed execution)
        (parsed plan)
      ≡ some r)
    × (r.attempts ≤ 60 + 1)
verify_returns_example =
    verify_returns "t0" "t1" clusters clock (some "web") 60 2 (omega arith) (omega arith)
      (λ n. omega arith) (parsed execution) (parsed plan) 61 (omega arith)

abbrev result : VerificationResult
result = record {
  execution_id = "exec-0123456789abcdef";
  action = Action.patch_service_selector;
  status = VerificationStatus.succeeded;
  started_at = "t0";
  finished_at = "t1";
  attempts = 2;
  checks = (selector_observation labels labels 1).checks;
  desired_replicas = none;
  available_replicas = none;
  ready_pods = none;
  ready_endpoints = some 1;
  message = "Kubernetes recovery verification succeeded.";
  error_code = none;
  error_message = none;
}

second_attempt :
    verify "t0" "t1" clusters clock (some "web") 60 61 (parsed execution) (parsed plan)
    ≡ some result
unfolding verify success observe selector_observation label_pairs_to_dict service_of
    ready_endpoint_count
second_attempt = refl

verify-Recovered_example : SelectorRecovered (clusters 2) (some "web") plan
verify-Recovered_example =
    verify-Recovered "t0" "t1" clusters clock (some "web") 60 61 execution plan result
      second_attempt refl

verify-Waits_example : Waits "t0" "t1" clusters clock (some "web") 60 plan 1
verify-Waits_example =
    verify-Waits "t0" "t1" clusters clock (some "web") 60 61 execution plan result second_attempt 1
      (omega arith) (omega arith)
