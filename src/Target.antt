-- ===== src/Target.antt =====
-- What is read of the target of a write, and the patch that is built for it: the snapshots of
-- backend/app/tools/remediation_tools.py and the first functions of backend/app/runtime/operations.py.
pub mod Patches
pub mod Examples
use k8s_incident_agent.Prelude.{
  ℕ, suc, Bool, true, false, not, ◌&&◌, ◌||◌, Option, none, some, List, [], ◌∷◌, ◌++◌, String,
  str_eq, ◌==◌, if◌then◌else◌, length, all, get_or, is_empty, says,
}
use k8s_incident_agent.Outcome.{
  Outcome, ok, raised, ◌>>=◌, ◌>>◌, raise_if, value_error, other_exception,
}
use k8s_incident_agent.Database.{Action}
use k8s_incident_agent.Evidence.{PortRef, get}
use k8s_incident_agent.Report.{Text, literal, number}
use k8s_incident_agent.Schemas.{
  ResourceKind, RemediationParameters, RemediationPlan, Configuration, selector, readiness,
  ResourceSnapshot,
}
use k8s_incident_agent.Verification.{
  Labels, ApiHttpGet, ApiContainer, label_pairs_to_dict, same_labels, same_port,
}

-- The attributes that are read of a service or a deployment.
pub record ApiObject : Type 0 where
  pub uid : Option String
  pub resource_version : Option String
  pub generation : Option ℕ
  pub match_labels : Option Labels
  pub containers : Option (List ApiContainer)

-- Python's == on optional texts.
abbrev pub same_text : Option String → Option String → Bool
same_text none none = true
same_text (some s) (some t) = str_eq s t
same_text _ _ = false

abbrev pub same_opt_port : Option PortRef → Option PortRef → Bool
same_opt_port none none = true
same_opt_port o (some p) = same_port o p
same_opt_port _ _ = false

-- A text that is absent or empty is false.
abbrev pub is_given : Option String → Bool
is_given none = false
is_given (some s) = not (str_eq s "")

resource_version_of : Option String → Outcome String
resource_version_of none =
    raised (value_error "Kubernetes resource does not contain metadata.resourceVersion")
resource_version_of (some v) =
    if str_eq v ""
    then raised (value_error "Kubernetes resource does not contain metadata.resourceVersion")
    else ok v

unfoldable pub service_snapshot : String → String → ApiObject → Outcome ResourceSnapshot
unfolding resource_version_of
service_snapshot namespace name service = do
  version ← resource_version_of service.resource_version
  ok (record {
    uid = service.uid;
    generation = none;
    namespace = namespace;
    resource_kind = ResourceKind.service;
    resource_name = name;
    resource_version = version;
    configuration = selector (get_or service.match_labels []);
  })

unfoldable pub find_container : Option String → List ApiContainer → Option ApiContainer
find_container name [] = none
find_container name (c ∷ cs) = if same_text c.name name then some c else find_container name cs

probe_values : Option ApiHttpGet → Option String × Option PortRef
probe_values none = (none, none)
probe_values (some http_get) = (http_get.path, http_get.port)

-- A container that is not there is refused before the version is read.
deployment_of_container :
    String → String → ApiObject → Option String → Option ApiContainer → Outcome ResourceSnapshot
unfolding resource_version_of probe_values
deployment_of_container namespace name deployment container_name none =
    raised (value_error "container does not exist in Deployment")
deployment_of_container namespace name deployment container_name (some c) = do
  version ← resource_version_of deployment.resource_version
  ok (record {
    uid = deployment.uid;
    generation = deployment.generation;
    namespace = namespace;
    resource_kind = ResourceKind.deployment;
    resource_name = name;
    resource_version = version;
    configuration =
        readiness container_name (probe_values c.http_get).0 (probe_values c.http_get).1;
  })

unfoldable pub deployment_snapshot :
    String → String → ApiObject → Option String → Outcome ResourceSnapshot
unfolding deployment_of_container find_container
deployment_snapshot namespace name deployment container_name =
    deployment_of_container namespace name deployment container_name
      (find_container container_name (get_or deployment.containers []))

-- The snapshot by the kind of the target; what is no service is read as a deployment.
unfoldable pub snapshot_of :
    RemediationParameters → ResourceKind → ApiObject → Outcome ResourceSnapshot
unfolding service_snapshot deployment_snapshot
snapshot_of p ResourceKind.service resource = service_snapshot p.namespace p.resource_name resource
snapshot_of p _ resource = deployment_snapshot p.namespace p.resource_name resource p.container_name

-- The snapshot with the uid and the generation of the object.
unfoldable pub identified : RemediationParameters → ApiObject → Outcome ResourceSnapshot
unfolding snapshot_of
identified p resource = do
  snapshot ← snapshot_of p p.resource_kind resource
  ok (record snapshot { uid = resource.uid; generation = resource.generation })

-- The end of `read_target`, once the API has answered.
unfoldable pub read_target : RemediationParameters → ApiObject → Outcome ResourceSnapshot
unfolding identified
read_target p resource = do
  snapshot ← identified p resource
  raise_if (not (is_given snapshot.uid)) (value_error "target UID is missing")
  ok snapshot

configuration_by :
    Action → (labels : Labels) → (container path : Option String) → Option PortRef → Configuration
configuration_by Action.patch_service_selector labels container path port =
    selector (label_pairs_to_dict labels)
configuration_by _ labels container path port = readiness container path port

unfoldable pub desired_configuration : RemediationPlan → Configuration
unfolding configuration_by label_pairs_to_dict
desired_configuration plan =
    let p = plan.parameters in
    configuration_by plan.action p.proposed_selector p.container_name p.proposed_probe_path
      p.proposed_probe_port

unfoldable pub prior_configuration : RemediationPlan → Configuration
unfolding configuration_by label_pairs_to_dict
prior_configuration plan =
    let p = plan.parameters in
    configuration_by plan.action p.current_selector p.container_name p.current_probe_path
      p.current_probe_port

-- The equality of two configurations, which are dictionaries.
abbrev pub same_configuration : Configuration → Configuration → Bool
same_configuration (selector d) (selector e) = same_labels d e
same_configuration (readiness c path port) (readiness d path' port') =
    same_text c d && same_text path path' && same_opt_port port port'
same_configuration _ _ = false

pub data PatchValue : Type 0 where
  text_value : Option String → PatchValue
  labels_value : Labels → PatchValue
  port_value : Option PortRef → PatchValue

-- One operation of a JSON patch, on a path.
pub data PatchOp : Type 0 where
  tests replaces : Text → PatchValue → PatchOp

-- The first container of that name; `next` raises where there is none.
unfoldable pub index_of : Option String → List ApiContainer → ℕ → Outcome ℕ
index_of name [] n = raised other_exception
index_of name (c ∷ cs) n = if same_text c.name name then ok n else index_of name cs (suc n)

-- before["configuration"]["selector"]
selector_in : Configuration → Outcome Labels
selector_in (selector labels) = ok labels
selector_in _ = raised other_exception

probe_in : Configuration → Outcome (Option String × Option PortRef)
probe_in (readiness container path port) = ok (path, port)
probe_in _ = raised other_exception

identity_tests : ResourceSnapshot → List PatchOp
identity_tests before =
    tests (literal "/metadata/uid" ∷ []) (text_value before.uid)
    ∷ tests (literal "/metadata/resourceVersion" ∷ []) (text_value (some before.resource_version))
    ∷ []

selector_patch : RemediationPlan → ResourceSnapshot → Outcome (List PatchOp)
unfolding identity_tests selector_in desired_configuration
selector_patch plan before = do
  current ← selector_in before.configuration
  desired ← selector_in (desired_configuration plan)
  ok (
      identity_tests before
      ++ tests (literal "/spec/selector" ∷ []) (labels_value current)
        ∷ replaces (literal "/spec/selector" ∷ []) (labels_value desired)
        ∷ [])

-- base + suffix
at_container : ℕ → String → Text
at_container index suffix =
    literal "/spec/template/spec/containers/" ∷ number index ∷ literal suffix ∷ []

readiness_patch : RemediationPlan → ApiObject → ResourceSnapshot → Outcome (List PatchOp)
unfolding identity_tests probe_in desired_configuration index_of at_container
readiness_patch plan resource before = do
  index ← index_of plan.parameters.container_name (get_or resource.containers []) 0
  current ← probe_in before.configuration
  desired ← probe_in (desired_configuration plan)
  ok (
      identity_tests before
      ++ tests (at_container index "/name") (text_value plan.parameters.container_name)
        ∷ tests (at_container index "/readinessProbe/httpGet/path") (text_value current.0)
        ∷ replaces (at_container index "/readinessProbe/httpGet/path") (text_value desired.0)
        ∷ tests (at_container index "/readinessProbe/httpGet/port") (port_value current.1)
        ∷ replaces (at_container index "/readinessProbe/httpGet/port") (port_value desired.1)
        ∷ [])

patch_by : Action → RemediationPlan → ApiObject → ResourceSnapshot → Outcome (List PatchOp)
unfolding selector_patch readiness_patch
patch_by Action.patch_service_selector plan resource before = selector_patch plan before
patch_by _ plan resource before = readiness_patch plan resource before

unfoldable pub build_patch : RemediationPlan → ApiObject → ResourceSnapshot → Outcome (List PatchOp)
unfolding patch_by
build_patch plan resource before = patch_by plan.action plan resource before
