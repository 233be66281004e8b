-- ===== src/TargetIdentity.antt =====
-- backend/app/agent/target_identity.py: the uid of a plan's target, from the collected evidence.
use k8s_incident_agent.Prelude.{
  ℕ, Bool, false, not, ◌&&◌, ◌||◌, Option, none, some, List, [], ◌∷◌, String, if◌then◌else◌, leb,
  says, filter, is_some,
}
use k8s_incident_agent.Outcome.{Outcome, ok, raised, ◌>>=◌, ◌>>◌, raise_if, value_error}
use k8s_incident_agent.Schemas.{
  ResourceKind, RemediationParameters, RemediationPlan, OwnerChainData, EndpointData, EvidenceData,
  EvidenceItem, State,
}
use k8s_incident_agent.Target.{same_text, is_given}

-- The text of a resource kind.
abbrev pub kind_text : ResourceKind → String
kind_text ResourceKind.service = "Service"
kind_text ResourceKind.deployment = "Deployment"
kind_text ResourceKind.pod = "Pod"

-- Evidence on the target that was collected without an error.
abbrev pub is_match : RemediationParameters → EvidenceItem → Bool
is_match p e =
    says e.resource_type (kind_text p.resource_kind)
    && says e.resource_name p.resource_name
    && says e.content.namespace p.namespace
    && not e.has_error

-- A uid that is a text of 1 to 128 characters.
unfoldable pub uid_of : (String → ℕ) → Option String → Outcome String
uid_of size none = raised (value_error "TARGET_IDENTITY_MISSING_OR_AMBIGUOUS")
uid_of size (some uid) =
    if leb 1 (size uid) && leb (size uid) 128
    then ok uid
    else raised (value_error "TARGET_IDENTITY_MISSING_OR_AMBIGUOUS")

unfoldable pub only_uid : (String → ℕ) → List EvidenceItem → Outcome String
unfolding uid_of
only_uid size (e ∷ []) = uid_of size e.content.uid
only_uid size _ = raised (value_error "TARGET_IDENTITY_MISSING_OR_AMBIGUOUS")

-- `size` is len.
unfoldable pub observed_target_uid : (size : String → ℕ) → State → RemediationPlan → Outcome String
unfolding only_uid
observed_target_uid size state plan =
    only_uid size (filter (is_match plan.parameters) state.evidence)

-- The dictionary `resources`, the latest entry first.
abbrev pub Resources : Type 0
Resources = List ((Option String × Option String) × EvidenceData)

unfoldable pub find_resource : Option String → Option String → Resources → Option EvidenceData
find_resource kind name [] = none
find_resource kind name (((k, n), d) ∷ rest) =
    if same_text kind k && same_text name n then some d else find_resource kind name rest

-- A second entry must have the uid and the namespace of the first.
conflicts : Option EvidenceData → EvidenceData → Bool
conflicts none d = false
conflicts (some e) d = not (same_text e.uid d.uid && same_text e.namespace d.namespace)

unfoldable pub index_resources : List EvidenceItem → Resources → Outcome Resources
unfolding conflicts
index_resources [] resources = ok resources
index_resources (e ∷ es) resources =
    let rest = index_resources es (((e.resource_type, e.resource_name), e.content) ∷ resources) in
    if conflicts (find_resource e.resource_type e.resource_name resources) e.content
    then raised (value_error "RESOURCE_IDENTITY_AMBIGUOUS")
    else rest

uid_in : Option EvidenceData → Option String
uid_in none = none
uid_in (some d) = d.uid

namespace_in : Option EvidenceData → Option String
namespace_in none = none
namespace_in (some d) = d.namespace

-- `data.get("owner_chain", {})`
chain_of : Option OwnerChainData → OwnerChainData
chain_of none = record { pod_uid = none; deployment_uid = none; deployment_name = none }
chain_of (some chain) = chain

-- `saved and current and saved != current`
abbrev pub differs : Option String → Option String → Bool
differs saved current = is_given saved && is_given current && not (same_text saved current)

unfoldable pub check_owner : Resources → EvidenceItem → Outcome (Unit {0})
unfolding uid_in chain_of
check_owner resources e =
    let chain = chain_of e.content.owner_chain in
    let pod = uid_in (find_resource (some "PodStatus") e.resource_name resources) in
    let deployment = uid_in (find_resource (some "Deployment") chain.deployment_name resources) in
    do
      raise_if
          (is_given pod
            && is_given chain.deployment_name
            && (not (is_given chain.pod_uid) || not (is_given chain.deployment_uid)))
          (value_error "OWNER_IDENTITY_INCOMPLETE")
      raise_if (differs chain.pod_uid pod || differs chain.deployment_uid deployment)
          (value_error "OWNER_IDENTITY_CHANGED_DURING_COLLECTION")

-- `endpoint.get("target_kind") == "Pod" and pod`
is_present : Option EvidenceData → Bool
is_present none = false
is_present (some d) = d.has_keys

unfoldable pub check_endpoints : Resources → EvidenceData → List EndpointData → Outcome (Unit {0})
unfolding uid_in namespace_in is_present
check_endpoints resources d [] = ok tt
check_endpoints resources d (endpoint ∷ rest) =
    let others = check_endpoints resources d rest in
    let pod = find_resource (some "PodStatus") endpoint.target_name resources in
    let is_pod = says endpoint.target_kind "Pod" in
    do
      raise_if (is_given d.uid && is_pod && not (is_given endpoint.target_uid))
          (value_error "ENDPOINT_POD_IDENTITY_MISSING")
      raise_if
          (is_pod
            && is_present pod
            && (differs endpoint.target_uid (uid_in pod)
                || is_given endpoint.target_namespace
                  && not (same_text endpoint.target_namespace (namespace_in pod))))
          (value_error "ENDPOINT_POD_IDENTITY_MISMATCH")
      others

unfoldable pub check_slice : Resources → EvidenceItem → Outcome (Unit {0})
unfolding uid_in check_endpoints
check_slice resources e =
    let d = e.content in
    let service = uid_in (find_resource (some "Service") d.service_name resources) in
    do
      raise_if (is_given d.uid && not (is_given d.service_uid))
          (value_error "ENDPOINT_SERVICE_IDENTITY_MISSING")
      raise_if (differs d.service_uid service) (value_error "ENDPOINT_SERVICE_IDENTITY_MISMATCH")
      check_endpoints resources d d.endpoints

unfoldable pub check_relationships : Resources → List EvidenceItem → Outcome (Unit {0})
unfolding check_owner check_slice
check_relationships resources [] = ok tt
check_relationships resources (e ∷ es) =
    let rest = check_relationships resources es in
    do
      (if says e.resource_type "OwnerChain" then check_owner resources e else ok tt)
      (if says e.resource_type "EndpointSlice" then check_slice resources e else ok tt)
      rest

unfoldable pub validate_relationships : State → Outcome (Unit {0})
unfolding index_resources check_relationships
validate_relationships state = do
  resources ← index_resources state.evidence []
  check_relationships resources state.evidence

unfoldable pub bind_target : (size : String → ℕ) → RemediationPlan → State → Outcome RemediationPlan
unfolding observed_target_uid validate_relationships
bind_target size plan state = do
  uid ← observed_target_uid size state plan
  raise_if (is_some plan.target_uid && not (says plan.target_uid uid))
      (value_error "PLAN_TARGET_IDENTITY_MISMATCH")
  validate_relationships state
  ok (record plan { target_uid = some uid })
