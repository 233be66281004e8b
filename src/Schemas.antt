-- ===== src/Schemas.antt =====
-- backend/app/agent/schemas.py and state.py: plans, approvals, results and the state of the agent's graph.
-- The bounds and patterns of the fields are checked by the schemas' library: a value that stands here
-- has passed them.
use k8s_incident_agent.Prelude.{ℕ, Bool, Option, List, String}
use k8s_incident_agent.Database.{Action}
use k8s_incident_agent.Evidence.{PortRef}

-- A value of the graph's state: absent, refused by its schema with a message, or parsed.
pub data Raw {ℓ} (A : Type ℓ) : Type ℓ where
  absent : Raw A
  invalid : String → Raw A
  parsed : A → Raw A

pub data ExecutionStatus : Type 0 where
  succeeded already_applied conflict failed : ExecutionStatus

pub data ResourceKind : Type 0 where
  service deployment pod : ResourceKind

pub data RiskLevel : Type 0 where
  low medium high : RiskLevel

pub record RemediationParameters : Type 0 where
  pub namespace : String
  pub resource_kind : ResourceKind
  pub resource_name : String
  pub container_name : Option String
  pub current_probe_path : Option String
  pub proposed_probe_path : Option String
  pub current_probe_port : Option PortRef
  pub proposed_probe_port : Option PortRef
  pub current_selector : List (String × String)
  pub proposed_selector : List (String × String)
  pub investigation_steps : List String

pub record RemediationPlan : Type 0 where
  pub target_uid : Option String
  pub action : Action
  pub parameters : RemediationParameters
  pub risk_level : RiskLevel
  pub summary : String
  pub expected_result : String
  pub rollback_plan : String
  pub evidence_ids : List String
  pub runbook_ids : List String
  pub requires_approval : Bool

pub record ApprovalRequest : Type 0 where
  pub approval_id : String
  pub incident_id : String
  pub plan : RemediationPlan
  pub plan_revision : Option String
  pub approval_revision : Option String

pub record ApprovalDecision : Type 0 where
  pub approval_id : String
  pub approved : Bool
  pub approver : String
  pub comment : String

pub record ApprovalRecord : Type 0 where
  pub approval_id : String
  pub incident_id : String
  pub action : Action
  pub approved : Bool
  pub approver : String
  pub comment : String
  pub decided_at : String
  pub plan_revision : Option String
  pub approval_revision : Option String

-- `configuration` of a snapshot: the selector of a service, or a container of a deployment with the
-- path and the port of its readiness probe.
pub data Configuration : Type 0 where
  selector : List (String × String) → Configuration
  readiness : Option String → Option String → Option PortRef → Configuration

pub record ResourceSnapshot : Type 0 where
  pub uid : Option String
  pub generation : Option ℕ
  pub namespace : String
  pub resource_kind : ResourceKind
  pub resource_name : String
  pub resource_version : String
  pub configuration : Configuration

-- `applied_patch` is the document of the patch, where it was applied; `rollback_patch` is empty.
pub record ActionExecutionResult : Type 0 where
  pub execution_id : String
  pub approval_id : String
  pub action : Action
  pub status : ExecutionStatus
  pub namespace : String
  pub resource_kind : ResourceKind
  pub resource_name : String
  pub started_at : String
  pub finished_at : String
  pub before_snapshot : Option ResourceSnapshot
  pub after_snapshot : Option ResourceSnapshot
  pub applied_patch : Option ℕ
  pub message : String
  pub error_code : Option String
  pub error_message : Option String

-- The items of a container in the evidence on a deployment.
pub record ContainerData : Type 0 where
  pub name : Option String
  pub probe_path : Option String
  pub probe_port : Option PortRef

-- An endpoint in the evidence on an endpoint slice.
pub record EndpointData : Type 0 where
  pub target_kind : Option String
  pub target_name : Option String
  pub target_uid : Option String
  pub target_namespace : Option String

-- The `owner_chain` in the evidence on a pod's owners.
pub record OwnerChainData : Type 0 where
  pub pod_uid : Option String
  pub deployment_uid : Option String
  pub deployment_name : Option String

-- The keys of an evidence item's `data` that the policies read; a key that is absent is `none`, or
-- empty. `has_keys` tells whether the dictionary has any key.
pub record EvidenceData : Type 0 where
  pub has_keys : Bool
  pub uid : Option String
  pub namespace : Option String
  pub selector : Option (List (String × String))
  pub containers : List ContainerData
  pub owner_chain : Option OwnerChainData
  pub service_uid : Option String
  pub service_name : Option String
  pub endpoints : List EndpointData

pub record EvidenceItem : Type 0 where
  pub evidence_id : Option String
  pub resource_type : Option String
  pub resource_name : Option String
  pub content : EvidenceData
  pub has_error : Bool

-- The saved service profile of the round.
pub record ProfileSnapshot : Type 0 where
  pub digest : String
  pub deployment_uid : Option String

-- The request of the incident, with its document.
pub record RequestState : Type 0 where
  pub namespace : Option String
  pub service_name : Option String
  pub document : ℕ

-- The saved diagnosis: what it cites, whether it has an assessment, and its document.
pub record DiagnosisState : Type 0 where
  pub fault_category : Option String
  pub evidence_ids : List String
  pub runbook_ids : List String
  pub has_assessment : Bool
  pub document : ℕ

-- The keys of `IncidentState` that the approval, the policy and the authorisation read. A key that is absent or None is
-- `none`, or empty; `diagnosis` tells the two apart. An approval status is its text.
pub record State : Type 0 where
  pub incident_id : Option String
  pub run_id : Option String
  pub request : Option RequestState
  pub phase : Option String
  pub evidence : List EvidenceItem
  pub service_profile : Option ProfileSnapshot
  pub retrieved_runbooks : List (Option String)
  pub diagnosis : Option (Option DiagnosisState)
  pub remediation_plan : Raw RemediationPlan
  pub requires_approval : Option Bool
  pub approved : Option Bool
  pub approval_status : Option String
  pub approval_request : Raw ApprovalRequest
  pub approval_record : Raw ApprovalRecord
  pub action_result : Raw ActionExecutionResult
