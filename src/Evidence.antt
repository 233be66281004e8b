-- ===== src/Evidence.antt =====
-- backend/app/schemas/kubernetes.py: what the tools read of the cluster. A dictionary is the list of
-- its items in their order. Counts, codes and ports are not negative.
use k8s_incident_agent.Prelude.{
  ℕ, Bool, Option, none, some, List, [], ◌∷◌, String, str_eq, if◌then◌else◌,
}

-- `str | int | None` of a port: a name or a number.
pub data PortRef : Type 0 where
  named : String → PortRef
  numbered : ℕ → PortRef

pub record ServicePortInfo : Type 0 where
  pub name : Option String
  pub port : ℕ
  pub target_port : Option PortRef
  pub protocol : String

pub record ServiceInfo : Type 0 where
  pub uid : Option String
  pub resource_version : Option String
  pub namespace : String
  pub name : String
  pub service_type : String
  pub cluster_ip : Option String
  pub selector : List (String × String)
  pub ports : List ServicePortInfo

pub record EndpointInfo : Type 0 where
  pub target_uid : Option String
  pub target_namespace : Option String
  pub addresses : List String
  pub ready : Option Bool
  pub serving : Option Bool
  pub terminating : Option Bool
  pub node_name : Option String
  pub target_kind : Option String
  pub target_name : Option String

pub record EndpointSliceInfo : Type 0 where
  pub uid : Option String
  pub resource_version : Option String
  pub service_uid : Option String
  pub namespace : String
  pub name : String
  pub service_name : String
  pub address_type : String
  pub endpoints : List EndpointInfo

pub record ContainerStatusInfo : Type 0 where
  pub name : String
  pub ready : Bool
  pub restart_count : ℕ
  pub image : String
  pub state : String
  pub waiting_reason : Option String
  pub waiting_message : Option String
  pub terminated_reason : Option String
  pub terminated_exit_code : Option ℕ
  pub last_terminated_reason : Option String
  pub last_terminated_exit_code : Option ℕ

pub record PodInfo : Type 0 where
  pub uid : Option String
  pub resource_version : Option String
  pub namespace : String
  pub name : String
  pub phase : String
  pub ready : Bool
  pub node_name : Option String
  pub pod_ip : Option String
  pub labels : List (String × String)
  pub containers : List ContainerStatusInfo

pub record EventInfo : Type 0 where
  pub namespace : String
  pub resource_name : String
  pub event_type : Option String
  pub reason : Option String
  pub message : Option String
  pub count : Option ℕ
  pub first_seen : Option String
  pub last_seen : Option String

pub record PodLogInfo : Type 0 where
  pub namespace : String
  pub pod_name : String
  pub container_name : Option String
  pub previous : Bool
  pub truncated : Bool
  pub content : String

pub record HttpProbeInfo : Type 0 where
  pub path : Option String
  pub port : Option PortRef
  pub scheme : Option String

pub record ContainerConfigInfo : Type 0 where
  pub name : String
  pub image : String
  pub command : List String
  pub args : List String
  pub requests : List (String × String)
  pub limits : List (String × String)
  pub readiness_probe : Option HttpProbeInfo
  pub liveness_probe : Option HttpProbeInfo

pub record DeploymentInfo : Type 0 where
  pub uid : Option String
  pub generation : Option ℕ
  pub resource_version : Option String
  pub namespace : String
  pub name : String
  pub desired_replicas : ℕ
  pub ready_replicas : ℕ
  pub available_replicas : ℕ
  pub unavailable_replicas : ℕ
  pub selector : List (String × String)
  pub template_labels : List (String × String)
  pub containers : List ContainerConfigInfo

pub record OwnerChainInfo : Type 0 where
  pub pod_uid : Option String
  pub direct_owner_uid : Option String
  pub replica_set_uid : Option String
  pub deployment_uid : Option String
  pub namespace : String
  pub pod_name : String
  pub direct_owner_kind : Option String
  pub direct_owner_name : Option String
  pub replica_set_name : Option String
  pub deployment_name : Option String

pub record NodeConditionInfo : Type 0 where
  pub condition_type : String
  pub status : String
  pub reason : Option String
  pub message : Option String

pub record NodeInfo : Type 0 where
  pub name : String
  pub ready : Bool
  pub capacity : List (String × String)
  pub allocatable : List (String × String)
  pub conditions : List NodeConditionInfo

pub record CollectionErrorInfo : Type 0 where
  pub operation : String
  pub resource_kind : String
  pub resource_name : String
  pub message : String
  pub status_code : Option ℕ

pub record ServiceEvidenceBundle : Type 0 where
  pub namespace : String
  pub service_name : String
  pub service : Option ServiceInfo
  pub service_pod_names : List String
  pub namespace_pod_names : List String
  pub endpoint_slices : List EndpointSliceInfo
  pub pod_statuses : List (String × PodInfo)
  pub pod_events : List (String × List EventInfo)
  pub pod_logs : List PodLogInfo
  pub owner_chains : List (String × OwnerChainInfo)
  pub deployments : List (String × DeploymentInfo)
  pub nodes : List (String × NodeInfo)
  pub errors : List CollectionErrorInfo

-- dict.get(key).
abbrev pub get {ℓ} : {A : Type ℓ} → String → List (String × A) → Option A
get k [] = none
get k ((j, a) ∷ d) = if str_eq j k then some a else get k d
