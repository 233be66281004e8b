-- ===== src/PlanEquality.antt =====
-- Python's == on the plans, approvals and enumerations of backend/app/agent/schemas.py.
use k8s_incident_agent.Prelude.{ℕ, zero, suc, ◌≡◌, refl, Bool, true, false, Option, List, String}
use k8s_incident_agent.Database.{Action}
use k8s_incident_agent.Evidence.{PortRef, named, numbered}
use k8s_incident_agent.Schemas.{
  ResourceKind, RiskLevel, RemediationParameters, RemediationPlan, ApprovalRequest,
}
use k8s_incident_agent.Equality.{
  Equality, nat_equality, string_equality, bool_equality, ◌⊗◌, label_equality, known,
  option_equality, list_equality, by_parts,
}

abbrev action_of : ℕ → Action
action_of zero = Action.manual_investigation
action_of (suc zero) = Action.patch_readiness_probe
action_of _ = Action.patch_service_selector

abbrev action_number : Action → ℕ
action_number Action.manual_investigation = 0
action_number Action.patch_readiness_probe = 1
action_number Action.patch_service_selector = 2

pub action_back : (a : Action) → action_of (action_number a) ≡ a
action_back Action.manual_investigation = refl
action_back Action.patch_readiness_probe = refl
action_back Action.patch_service_selector = refl

instance abbrev pub action_equality : Equality Action
action_equality = by_parts known action_number action_of action_back

abbrev kind_of : ℕ → ResourceKind
kind_of zero = ResourceKind.service
kind_of (suc zero) = ResourceKind.deployment
kind_of _ = ResourceKind.pod

abbrev kind_number : ResourceKind → ℕ
kind_number ResourceKind.service = 0
kind_number ResourceKind.deployment = 1
kind_number ResourceKind.pod = 2

pub kind_back : (k : ResourceKind) → kind_of (kind_number k) ≡ k
kind_back ResourceKind.service = refl
kind_back ResourceKind.deployment = refl
kind_back ResourceKind.pod = refl

instance abbrev pub kind_equality : Equality ResourceKind
kind_equality = by_parts known kind_number kind_of kind_back

abbrev risk_of : ℕ → RiskLevel
risk_of zero = RiskLevel.low
risk_of (suc zero) = RiskLevel.medium
risk_of _ = RiskLevel.high

abbrev risk_number : RiskLevel → ℕ
risk_number RiskLevel.low = 0
risk_number RiskLevel.medium = 1
risk_number RiskLevel.high = 2

pub risk_back : (r : RiskLevel) → risk_of (risk_number r) ≡ r
risk_back RiskLevel.low = refl
risk_back RiskLevel.medium = refl
risk_back RiskLevel.high = refl

instance abbrev pub risk_equality : Equality RiskLevel
risk_equality = by_parts known risk_number risk_of risk_back

abbrev port_of : Bool × (String × ℕ) → PortRef
port_of (true, (s, n)) = named s
port_of (false, (s, n)) = numbered n

abbrev port_parts : PortRef → Bool × (String × ℕ)
port_parts (named s) = (true, (s, 0))
port_parts (numbered n) = (false, ("", n))

pub port_back : (p : PortRef) → port_of (port_parts p) ≡ p
port_back (named s) = refl
port_back (numbered n) = refl

instance abbrev pub port_equality : Equality PortRef
port_equality = by_parts (known ⊗ known ⊗ known) port_parts port_of port_back

abbrev Parts : Type 0
Parts =
    String
    × (ResourceKind
        × (String
            × (Option String
                × (Option String
                    × (Option String
                        × (Option PortRef
                            × (Option PortRef
                                × (List (String × String)
                                    × (List (String × String) × (List String))))))))))

abbrev parameters_parts : RemediationParameters → Parts
parameters_parts p = (
  p.namespace,
  (
    p.resource_kind,
    (
      p.resource_name,
      (
        p.container_name,
        (
          p.current_probe_path,
          (
            p.proposed_probe_path,
            (
              p.current_probe_port,
              (
                p.proposed_probe_port,
                (p.current_selector, (p.proposed_selector, p.investigation_steps)),
              ),
            ),
          ),
        ),
      ),
    ),
  ),
)

abbrev parameters_from : Parts → RemediationParameters
parameters_from (ns, (kind, (name, (c, (pp, (np, (po, (npo, (cs, (ps, steps)))))))))) = record {
  namespace = ns;
  resource_kind = kind;
  resource_name = name;
  container_name = c;
  current_probe_path = pp;
  proposed_probe_path = np;
  current_probe_port = po;
  proposed_probe_port = npo;
  current_selector = cs;
  proposed_selector = ps;
  investigation_steps = steps;
}

instance abbrev pub parameters_equality : Equality RemediationParameters
parameters_equality =
    by_parts (known ⊗ known ⊗ known ⊗ known ⊗ known ⊗ known ⊗ known ⊗ known ⊗ known ⊗ known ⊗ known)
      parameters_parts parameters_from (λ p. refl)

abbrev PlanParts : Type 0
PlanParts =
    Option String
    × (Action
        × (RemediationParameters
            × (RiskLevel
                × (String × (String × (String × (List String × (List String × (Bool)))))))))

abbrev plan_parts : RemediationPlan → PlanParts
plan_parts p = (
  p.target_uid,
  (
    p.action,
    (
      p.parameters,
      (
        p.risk_level,
        (
          p.summary,
          (
            p.expected_result,
            (p.rollback_plan, (p.evidence_ids, (p.runbook_ids, p.requires_approval))),
          ),
        ),
      ),
    ),
  ),
)

abbrev plan_of : PlanParts → RemediationPlan
plan_of
      (
        uid,
        (
          action,
          (parameters, (risk, (summary, (expected, (rollback, (evidence, (runbooks, approval))))))),
        ),
      ) =
    record {
      target_uid = uid;
      action = action;
      parameters = parameters;
      risk_level = risk;
      summary = summary;
      expected_result = expected;
      rollback_plan = rollback;
      evidence_ids = evidence;
      runbook_ids = runbooks;
      requires_approval = approval;
    }

instance abbrev pub plan_equality : Equality RemediationPlan
plan_equality =
    by_parts (known ⊗ known ⊗ known ⊗ known ⊗ known ⊗ known ⊗ known ⊗ known ⊗ known ⊗ known)
      plan_parts plan_of (λ p. refl)

instance abbrev pub request_equality : Equality ApprovalRequest
request_equality =
    by_parts
      (string_equality
        ⊗ string_equality
        ⊗ plan_equality
        ⊗ known {A = Option String}
        ⊗ known {A = Option String})
      (λ r. (r.approval_id, (r.incident_id, (r.plan, (r.plan_revision, r.approval_revision)))))
      (λ (a, (i, (p, (v, w)))). record {
        approval_id = a;
        incident_id = i;
        plan = p;
        plan_revision = v;
        approval_revision = w;
      })
      (λ r. refl)
