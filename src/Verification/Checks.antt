-- ===== src/Verification/Checks.antt =====
-- What a success of the checks of backend/app/agent/verification.py says of the cluster.
use k8s_incident_agent.Prelude.{
  ℕ, ◌<◌, ◌≤◌, ◌≡◌, refl, ap, ◌∙◌, Bool, true, ◌&&◌, Option, none, some, List, [], String, arith,
  get_or, ltb, leb,
}
use k8s_incident_agent.Evidence.{PortRef}
use k8s_incident_agent.Verification.{
  Answer, got, api_error, exception, and_then, Labels, ApiDeployment, ApiSlice, Cluster, Plan,
  VerificationObservation, is_success, same_labels, label_pairs_to_dict, ready_endpoint_count,
  reaches, same_probe, deployment_probe, service_of, selector_observation, observe_selector,
  count_ready_pods, readiness_observation, required, observe_readiness,
}

module _ {ℓ κ} {A : Type ℓ} {B : Type κ} where
  and_then-got :
      (m : Answer A) (f : A → Answer B) {b : B}
      → and_then m f ≡ got b
      → (a : A) × (m ≡ got a) × (f a ≡ got b)
  and_then-got (got a) f h = (a, refl, h)
  and_then-got (api_error reason message) f h = cc
  and_then-got (exception message) f h = cc

got-injective : (a b : VerificationObservation) → got a ≡ got b → a ≡ b
got-injective a b h = cc

-- The service selects what was approved, and an endpoint of the incident's service is ready.
pub record SelectorRecovered (cluster : Cluster) (request : Option String) (plan : Plan)
    : Type 0 where
  pub service_name : String
  pub current : Option Labels
  pub slices : Option (List ApiSlice)
  pub asked : service_of request ≡ got service_name
  pub read : cluster.read_service_selector plan.resource_name plan.namespace ≡ got current
  pub listed : cluster.list_endpoint_slices plan.namespace service_name ≡ got slices
  pub approved : same_labels (get_or current []) (label_pairs_to_dict plan.proposed_selector) ≡ true
  pub ready : 0 < ready_endpoint_count slices

selector_passed :
    (current proposed : Labels) (ready : ℕ)
    → is_success (selector_observation current proposed ready) ≡ true
    → (same_labels current proposed ≡ true) × (0 < ready)
unfolding selector_observation
selector_passed current proposed ready h = (ground (arith, h), ground (arith, h))

pub selector-SelectorRecovered :
    (cluster : Cluster) (request : Option String) (plan : Plan) (o : VerificationObservation)
    → observe_selector cluster request plan ≡ got o
    → is_success o ≡ true
    → SelectorRecovered cluster request plan
unfolding observe_selector
selector-SelectorRecovered cluster request plan o h good =
    let (current, read, h1) =
      and_then-got (cluster.read_service_selector plan.resource_name plan.namespace) _ h in
    let (service_name, asked, h2) = and_then-got (service_of request) _ h1 in
    let (slices, listed, h3) =
      and_then-got (cluster.list_endpoint_slices plan.namespace service_name) _ h2 in
    let (approved, ready) =
      selector_passed (get_or current []) (label_pairs_to_dict plan.proposed_selector)
        (ready_endpoint_count slices) (ap is_success (got-injective _ o h3) ∙ good) in
    record {
      service_name = service_name;
      current = current;
      slices = slices;
      asked = asked;
      read = read;
      listed = listed;
      approved = approved;
      ready = ready;
    }

-- The deployment has the approved probe, its controller has seen its latest generation, it asks for a
-- replica at least and has updated and made available all of them, as many of its pods are ready, and an
-- endpoint of the incident's service is ready.
pub record ProbeRecovered (cluster : Cluster) (request : Option String) (plan : Plan) : Type 0 where
  pub service_name : String
  pub container : String
  pub path : String
  pub port : PortRef
  pub deployment : ApiDeployment
  pub pods : ℕ
  pub slices : Option (List ApiSlice)
  pub asked : service_of request ≡ got service_name
  pub named : plan.container_name ≡ some container
  pub same_path : plan.proposed_probe_path ≡ some path
  pub same_port : plan.proposed_probe_port ≡ some port
  pub read : cluster.read_deployment plan.resource_name plan.namespace ≡ got deployment
  pub counted :
      count_ready_pods cluster plan.namespace (get_or deployment.match_labels []) ≡ got pods
  pub listed : cluster.list_endpoint_slices plan.namespace service_name ≡ got slices
  pub approved : same_probe (deployment_probe deployment container) path port ≡ true
  pub generation : get_or deployment.generation 0 ≤ get_or deployment.observed_generation 0
  pub asked_for_one : 0 < get_or deployment.replicas 0
  pub updated : get_or deployment.replicas 0 ≤ get_or deployment.updated_replicas 0
  pub available : get_or deployment.replicas 0 ≤ get_or deployment.available_replicas 0
  pub ready_pods : get_or deployment.replicas 0 ≤ pods
  pub ready : 0 < ready_endpoint_count slices

-- The tests of six checks that all passed.
six_passed :
    (t1 t2 t3 t4 t5 t6 : Bool)
    → (t1 && (t2 && (t3 && (t4 && (t5 && (t6 && true)))))) ≡ true
    → (t1 ≡ true) × (t2 ≡ true) × (t3 ≡ true) × (t4 ≡ true) × (t5 ≡ true) × (t6 ≡ true)
six_passed t1 t2 t3 t4 t5 t6 h =
    (ground arith, ground arith, ground arith, ground arith, ground arith, ground arith)

required-got :
    {A : Type 0} (o : Option A) (message : String) (a : A) → required o message ≡ got a → o ≡ some a
required-got none message a h = cc
required-got (some b) message a h = cc

leb-le : (m n : ℕ) → leb m n ≡ true → m ≤ n
leb-le m n h = ground arith

reaches-le : (m n : ℕ) → reaches m n ≡ true → (0 < m) × (m ≤ n)
reaches-le m n h = (ground arith, ground arith)

ltb-lt : (m n : ℕ) → ltb m n ≡ true → m < n
ltb-lt m n h = ground arith

pub readiness-ProbeRecovered :
    (cluster : Cluster) (request : Option String) (plan : Plan) (o : VerificationObservation)
    → observe_readiness cluster request plan ≡ got o
    → is_success o ≡ true
    → ProbeRecovered cluster request plan
unfolding observe_readiness readiness_observation
readiness-ProbeRecovered cluster request plan o h good =
    let (container, has_name, h1) = and_then-got (required plan.container_name _) _ h in
    let (path, has_path, h2) = and_then-got (required plan.proposed_probe_path _) _ h1 in
    let (port, has_port, h3) = and_then-got (required plan.proposed_probe_port _) _ h2 in
    let (deployment, read, h4) =
      and_then-got (cluster.read_deployment plan.resource_name plan.namespace) _ h3 in
    let (pods, counted, h5) =
      and_then-got (count_ready_pods cluster plan.namespace (get_or deployment.match_labels [])) _
        h4 in
    let (service_name, asked, h6) = and_then-got (service_of request) _ h5 in
    let (slices, listed, h7) =
      and_then-got (cluster.list_endpoint_slices plan.namespace service_name) _ h6 in
    let passed = ap is_success (got-injective _ o h7) ∙ good in
    let (approved, seen, updated, available, ready_pods, ready) = six_passed _ _ _ _ _ _ passed in
    record {
      service_name = service_name;
      container = container;
      path = path;
      port = port;
      deployment = deployment;
      pods = pods;
      slices = slices;
      asked = asked;
      named = required-got plan.container_name _ container has_name;
      same_path = required-got plan.proposed_probe_path _ path has_path;
      same_port = required-got plan.proposed_probe_port _ port has_port;
      read = read;
      counted = counted;
      listed = listed;
      approved = approved;
      generation = leb-le _ _ seen;
      asked_for_one = (reaches-le _ _ updated).0;
      updated = (reaches-le _ _ updated).1;
      available = (reaches-le _ _ available).1;
      ready_pods = (reaches-le _ _ ready_pods).1;
      ready = ltb-lt _ _ ready;
    }
