-- ===== src/Authorization/Policed.antt =====
-- The authorisation of backend/app/agent/execution_policy.py with the policy of
-- backend/app/agent/remediation_policy.py.
use k8s_incident_agent.Prelude.{◌≡◌, refl}
use k8s_incident_agent.Outcome.{Outcome, ok, raised, ◌>>=◌}
use k8s_incident_agent.Schemas.{RemediationPlan, State}
use k8s_incident_agent.Approval.{Digests}
use k8s_incident_agent.Policy.{Grounds, validate_remediation_plan}
use k8s_incident_agent.Policy.Grounded.{IsGrounded, IsGroundedWrite, validated-IsGrounded}
use k8s_incident_agent.Authorization.{ExecutionAuthorization, validate_execution_authorization}
use k8s_incident_agent.Authorization.Sound.{authorization-IsAuthorized}

-- `validate_remediation_plan`, whose result is not used.
unfoldable pub revalidate_plan : Grounds → RemediationPlan → State → Outcome (Unit {0})
revalidate_plan grounds plan state =
    validate_remediation_plan grounds plan state >>= λ validated. ok tt

returned :
    (grounds : Grounds) (plan : RemediationPlan) (state : State) (x : Outcome RemediationPlan)
    → (x >>= λ validated. ok (tt {0})) ≡ ok (tt {0})
    → (validated : RemediationPlan) × (x ≡ ok validated)
returned grounds plan state (ok validated) h = (validated, refl)
returned grounds plan state (raised e) h = cc

-- If the write is authorised under the policy, then its plan is grounded in the evidence, the diagnosis
-- and the profile of the state as it is when it is executed, and meets what a write needs.
pub authorized-IsGroundedWrite :
    (digests : Digests) (grounds : Grounds) (state : State) (auth : ExecutionAuthorization)
    → validate_execution_authorization digests (revalidate_plan grounds) state ≡ ok auth
    → IsGrounded grounds auth.plan state × IsGroundedWrite grounds auth.plan state
unfolding revalidate_plan
authorized-IsGroundedWrite digests grounds state auth h =
    let a = authorization-IsAuthorized digests (revalidate_plan grounds) state auth h in
    let (validated, e) =
      returned grounds auth.plan state (validate_remediation_plan grounds auth.plan state)
        a.is_valid in
    let g = (validated-IsGrounded grounds auth.plan validated state e).1 in (g, g.writes a.is_write)
