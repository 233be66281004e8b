-- ===== src/Verification.antt =====
-- backend/app/agent/verification.py: what is read of the cluster after a write, and the checks on it.
-- The answers of the Kubernetes client are arguments: an answer is a value, an ApiException with its
-- reason and its text, or another exception with its text. A list of pods or of slices is asked for by
-- labels and by a service's name, from which the code writes the selector. Counts are not negative, and
-- a dictionary is the list of its items.
pub mod Loop
pub mod Outcomes
pub mod Checks
pub mod Recovery
pub mod Waiting
mod Examples
use k8s_incident_agent.Prelude.{
  is_empty, says, ℕ, ◌+◌, Bool, true, false, not, ◌&&◌, Option, none, some, List, [], ◌∷◌, String,
  str_eq, ltb, leb, ◌==◌, if◌then◌else◌, all, any, length, get_or,
}
use k8s_incident_agent.Database.{Action}
use k8s_incident_agent.Evidence.{PortRef, named, numbered, get}

pub data Answer {ℓ} (A : Type ℓ) : Type ℓ where
  got : A → Answer A
  api_error : Option String → String → Answer A
  exception : String → Answer A

module _ {ℓ κ} {A : Type ℓ} {B : Type κ} where
  -- An exception leaves the method.
  abbrev pub and_then : Answer A → (A → Answer B) → Answer B
  and_then (got a) f = f a
  and_then (api_error reason message) f = api_error reason message
  and_then (exception message) f = exception message

abbrev pub Labels : Type 0
Labels = List (String × String)

-- The attributes that are read; `none` is an attribute that is absent or None.
pub record ApiEndpoint : Type 0 where
  pub conditions : Option (Option Bool)

pub record ApiSlice : Type 0 where
  pub endpoints : Option (List ApiEndpoint)

-- The type and the status of each condition.
pub record ApiPod : Type 0 where
  pub conditions : Option (List (Option String × Option String))

pub record ApiHttpGet : Type 0 where
  pub path : Option String
  pub port : Option PortRef

pub record ApiContainer : Type 0 where
  pub name : Option String
  pub http_get : Option ApiHttpGet

pub record ApiDeployment : Type 0 where
  pub generation : Option ℕ
  pub replicas : Option ℕ
  pub match_labels : Option Labels
  pub containers : Option (List ApiContainer)
  pub observed_generation : Option ℕ
  pub updated_replicas : Option ℕ
  pub available_replicas : Option ℕ

-- What the API answers during one attempt, by name and namespace or by namespace and selector.
pub record Cluster : Type 0 where
  pub read_service_selector : String → String → Answer (Option Labels)
  pub read_deployment : String → String → Answer ApiDeployment
  pub list_pods : String → Labels → Answer (Option (List ApiPod))
  pub list_endpoint_slices : String → String → Answer (Option (List ApiSlice))

-- RemediationParameters and RemediationPlan, as far as they are read here.
pub record Plan : Type 0 where
  pub action : Action
  pub namespace : String
  pub resource_name : String
  pub container_name : Option String
  pub proposed_probe_path : Option String
  pub proposed_probe_port : Option PortRef
  pub proposed_selector : Labels

-- What a check has observed or expects.
pub data Value : Type 0 where
  labels : Labels → Value
  probe : Option String → Option PortRef → Value
  number at_least : ℕ → Value

pub record VerificationCheck : Type 0 where
  pub name : String
  pub passed : Bool
  pub observed : Value
  pub expected : Value
  pub message : String

pub record VerificationObservation : Type 0 where
  pub checks : List VerificationCheck
  pub desired_replicas : Option ℕ
  pub available_replicas : Option ℕ
  pub ready_pods : Option ℕ
  pub ready_endpoints : Option ℕ

abbrev pub all_passed : List VerificationCheck → Bool
all_passed cs = not (is_empty cs) && all (λ c. c.passed) cs

-- VerificationObservation.succeeded
abbrev pub is_success : VerificationObservation → Bool
is_success o = all_passed o.checks

-- d[k] = v
put : String → String → Labels → Labels
put k v [] = (k, v) ∷ []
put k v ((j, w) ∷ d) = if str_eq j k then (j, v) ∷ d else (j, w) ∷ put k v d

put_all : Labels → Labels → Labels
unfolding put
put_all [] d = d
put_all ((k, v) ∷ pairs) d = put_all pairs (put k v d)

unfoldable pub label_pairs_to_dict : Labels → Labels
unfolding put_all
label_pairs_to_dict pairs = put_all pairs []

-- The equality of dictionaries.
abbrev pub same_labels : Labels → Labels → Bool
same_labels d e = length d == length e && all (λ item. says (get item.0 e) item.1) d

abbrev pub is_ready_endpoint : ApiEndpoint → Bool
is_ready_endpoint e = elim e.conditions [ some (some true) ↦ true | _ ↦ false ]

abbrev pub count {ℓ} : {A : Type ℓ} → (A → Bool) → List A → ℕ
count p [] = 0
count p (x ∷ xs) = (if p x then 1 else 0) + count p xs

ready_in_slices : List ApiSlice → ℕ
ready_in_slices [] = 0
ready_in_slices (s ∷ ss) = count is_ready_endpoint (get_or s.endpoints []) + ready_in_slices ss

unfoldable pub ready_endpoint_count : Option (List ApiSlice) → ℕ
unfolding ready_in_slices
ready_endpoint_count slices = ready_in_slices (get_or slices [])

abbrev pub pod_is_ready : ApiPod → Bool
pod_is_ready pod =
    any (λ condition. says condition.0 "Ready" && says condition.1 "True")
      (get_or pod.conditions [])

probe_of_container : Option ApiHttpGet → Option String × Option PortRef
probe_of_container none = (none, none)
probe_of_container (some http_get) = (http_get.path, http_get.port)

-- The probe of the first container of that name.
probe_in : List ApiContainer → String → Option String × Option PortRef
unfolding probe_of_container
probe_in [] name = (none, none)
probe_in (c ∷ cs) name =
    if says c.name name then probe_of_container c.http_get else probe_in cs name

unfoldable pub deployment_probe : ApiDeployment → String → Option String × Option PortRef
unfolding probe_in
deployment_probe deployment name = probe_in (get_or deployment.containers []) name

abbrev pub same_port : Option PortRef → PortRef → Bool
same_port (some (named s)) (named t) = str_eq s t
same_port (some (numbered m)) (numbered n) = m == n
same_port _ _ = false

-- The name of the service that the incident is about; one that is no text or empty is refused.
unfoldable pub service_of : Option String → Answer String
service_of none = exception "incident request does not contain service_name"
service_of (some name) =
    if str_eq name "" then exception "incident request does not contain service_name" else got name

abbrev pub check : String → Bool → Value → Value → String → String → VerificationCheck
check name passed observed expected met unmet = record {
  name = name;
  passed = passed;
  observed = observed;
  expected = expected;
  message = if passed then met else unmet;
}

abbrev pub endpoint_check : ℕ → VerificationCheck
endpoint_check ready =
    check "ready_endpoints" (ltb 0 ready) (number ready) (at_least 1)
      "EndpointSlice contains a Ready endpoint." "EndpointSlice does not contain a Ready endpoint."

unfoldable pub selector_observation : Labels → Labels → ℕ → VerificationObservation
selector_observation current proposed ready = record {
  checks =
      check "service_selector" (same_labels current proposed) (labels current) (labels proposed)
        "Service selector matches the approved target."
        "Service selector has not reached the approved target."
      ∷ endpoint_check ready
      ∷ [];
  desired_replicas = none;
  available_replicas = none;
  ready_pods = none;
  ready_endpoints = some ready;
}

unfoldable pub observe_selector : Cluster → Option String → Plan → Answer VerificationObservation
unfolding selector_observation label_pairs_to_dict service_of ready_endpoint_count
observe_selector cluster request plan =
    and_then (cluster.read_service_selector plan.resource_name plan.namespace) (λ current.
      and_then (service_of request) (λ service_name.
        and_then (cluster.list_endpoint_slices plan.namespace service_name) (λ slices. got (
          selector_observation (get_or current []) (label_pairs_to_dict plan.proposed_selector)
            (ready_endpoint_count slices)))))

-- The pods are not read where the deployment selects nothing.
unfoldable pub count_ready_pods : Cluster → String → Labels → Answer ℕ
count_ready_pods cluster namespace [] = got 0
count_ready_pods cluster namespace (l ∷ ls) =
    and_then (cluster.list_pods namespace (l ∷ ls))
      (λ pods. got (count pod_is_ready (get_or pods [])))

-- The numbers that the checks of a deployment compare.
abbrev pub reaches : ℕ → ℕ → Bool
reaches desired n = ltb 0 desired && leb desired n

abbrev pub same_probe : Option String × Option PortRef → String → PortRef → Bool
same_probe observed path port = says observed.0 path && same_port observed.1 port

unfoldable pub readiness_observation :
    ApiDeployment → (container path : String) → PortRef → (pods ready : ℕ) → VerificationObservation
unfolding deployment_probe
readiness_observation deployment container path port pods ready =
    let observed = deployment_probe deployment container in
    let generation = get_or deployment.generation 0 in
    let seen = get_or deployment.observed_generation 0 in
    let desired = get_or deployment.replicas 0 in
    let updated = get_or deployment.updated_replicas 0 in
    let available = get_or deployment.available_replicas 0 in
    record {
      checks =
          check "readiness_probe" (same_probe observed path port) (probe observed.0 observed.1)
            (probe (some path) (some port))
            "Deployment readiness probe matches the approved target."
            "Deployment readiness probe does not match the target."
          ∷ check "deployment_observed_generation" (leb generation seen) (number seen)
              (at_least generation) "Deployment controller observed the latest generation."
              "Deployment controller has not observed the latest generation."
          ∷ check "updated_replicas" (reaches desired updated) (number updated) (number desired)
              "All desired replicas were updated." "Deployment update is incomplete."
          ∷ check "available_replicas" (reaches desired available) (number available)
              (number desired) "All desired replicas are available."
              "Deployment replicas are not fully available."
          ∷ check "ready_pods" (reaches desired pods) (number pods) (number desired)
              "All desired Pods are Ready." "Not all desired Pods are Ready."
          ∷ endpoint_check ready
          ∷ [];
      desired_replicas = some desired;
      available_replicas = some available;
      ready_pods = some pods;
      ready_endpoints = some ready;
    }

-- A parameter that the plan must have.
abbrev pub required {ℓ} : {A : Type ℓ} → Option A → String → Answer A
required none message = exception message
required (some a) message = got a

unfoldable pub observe_readiness : Cluster → Option String → Plan → Answer VerificationObservation
unfolding readiness_observation count_ready_pods service_of ready_endpoint_count
observe_readiness cluster request plan =
    and_then (required plan.container_name "readiness verification requires container_name")
      (λ container.
        and_then
          (required plan.proposed_probe_path "readiness verification requires proposed_probe_path")
          (λ path.
            and_then
              (required plan.proposed_probe_port
                "readiness verification requires proposed_probe_port")
              (λ port.
                and_then (cluster.read_deployment plan.resource_name plan.namespace) (λ deployment.
                  and_then
                    (count_ready_pods cluster plan.namespace (get_or deployment.match_labels []))
                    (λ pods. and_then (service_of request) (λ service_name.
                      and_then (cluster.list_endpoint_slices plan.namespace service_name) (λ slices.
                        got (
                          readiness_observation deployment container path port pods
                            (ready_endpoint_count slices)))))))))

unfoldable pub observe_action :
    Action → Cluster → Option String → Plan → Answer VerificationObservation
unfolding observe_selector observe_readiness
observe_action Action.patch_service_selector = observe_selector
observe_action Action.patch_readiness_probe = observe_readiness
observe_action Action.manual_investigation =
    λ cluster request plan. exception "action 'manual_investigation' cannot be recovery-verified"

unfoldable pub observe : Cluster → Option String → Plan → Answer VerificationObservation
unfolding observe_action
observe cluster request plan = observe_action plan.action cluster request plan
