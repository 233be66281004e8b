-- ===== src/Target/Examples.antt =====
-- A service and a deployment, and the plans and patches for them.
use k8s_incident_agent.Prelude.{
  ◌≡◌, ◌≢◌, refl, sym, ap, Bool, true, false, ◌&&◌, none, some, List, [], ◌∷◌, ℕ, str_eq, eq_iff,
  arith, ◌==◌, ==→eq, if◌then◌else◌, Bool-cases, inl, inr, get_or,
}
use k8s_incident_agent.Outcome.{ok}
use k8s_incident_agent.Database.{Action}
use k8s_incident_agent.Evidence.{named, numbered}
use k8s_incident_agent.Report.{Text, Piece, literal, number}
use k8s_incident_agent.Schemas.{
  ResourceKind, RiskLevel, RemediationParameters, RemediationPlan, selector, readiness,
  ResourceSnapshot,
}
use k8s_incident_agent.Target.{
  ApiObject, PatchValue, text_value, labels_value, port_value, PatchOp, tests, replaces,
  build_patch, desired_configuration, index_of,
}
use k8s_incident_agent.Target.Patches.{
  Object, uid_path, version_path, selector_path, container_path, WritesSelector, WritesProbe,
  selector_write, probe_write,
}

abbrev pub service : ApiObject
service = record {
  uid = some "u1";
  resource_version = some "41";
  generation = none;
  match_labels = some (("app", "old") ∷ []);
  containers = none;
}

abbrev pub parameters : RemediationParameters
parameters = record {
  namespace = "agent-demo";
  resource_kind = ResourceKind.service;
  resource_name = "api";
  container_name = none;
  current_probe_path = none;
  proposed_probe_path = none;
  current_probe_port = none;
  proposed_probe_port = none;
  current_selector = ("app", "old") ∷ [];
  proposed_selector = ("app", "api") ∷ [];
  investigation_steps = [];
}

abbrev pub plan : RemediationPlan
plan = record {
  target_uid = some "u1";
  action = Action.patch_service_selector;
  parameters = parameters;
  risk_level = RiskLevel.medium;
  summary = "select the pods of the deployment";
  expected_result = "the service has endpoints";
  rollback_plan = "restore the selector";
  evidence_ids = "e1" ∷ [];
  runbook_ids = [];
  requires_approval = true;
}

abbrev pub before : ResourceSnapshot
before = record {
  uid = some "u1";
  generation = none;
  namespace = "agent-demo";
  resource_kind = ResourceKind.service;
  resource_name = "api";
  resource_version = "41";
  configuration = selector (("app", "old") ∷ []);
}

abbrev same_piece : Piece → Piece → Bool
same_piece (literal s) (literal t) = str_eq s t
same_piece (number m) (number n) = m == n
same_piece _ _ = false

abbrev same_path : Text → Text → Bool
same_path [] [] = true
same_path (p ∷ ps) (q ∷ qs) = same_piece p q && same_path ps qs
same_path _ _ = false

same_piece→eq : (p q : Piece) → same_piece p q ≡ true → p ≡ q
same_piece→eq (literal s) (literal t) h = ap literal ((eq_iff s t).0 h)
same_piece→eq (number m) (number n) h = ap number (==→eq m n h)
same_piece→eq _ _ h = ground (arith, h)

same_path→eq : (p q : Text) → same_path p q ≡ true → p ≡ q
same_path→eq [] [] h = refl
same_path→eq (p ∷ ps) (q ∷ qs) h =
    let first : same_piece p q ≡ true = ground (arith, h) in
    let rest : same_path ps qs ≡ true = ground (arith, h) in
    let same = same_piece→eq p q first in let others = same_path→eq ps qs rest in cc
same_path→eq _ _ h = ground (arith, h)

abbrev set : Text → PatchValue → Object → Object
set p v d q = if same_path p q then v else d q

set-other : (p : Text) (v : PatchValue) (d : Object) (q : Text) → q ≢ p → set p v d q ≡ d q
set-other p v d q other = elim (Bool-cases (same_path p q)) [
  | inl same ↦ ground (arith, other (sym (same_path→eq p q same)))
  | inr differs ↦ rw differs refl
]

abbrev nothing : Object
nothing q = text_value none

abbrev served : Object
served =
    set selector_path (labels_value (("app", "old") ∷ []))
      (set version_path (text_value (some "41")) (set uid_path (text_value (some "u1")) nothing))

abbrev serving : Object
serving = set selector_path (labels_value (("app", "api") ∷ [])) served

abbrev selector_ops : List PatchOp
selector_ops =
    tests uid_path (text_value (some "u1"))
    ∷ tests version_path (text_value (some "41"))
    ∷ tests selector_path (labels_value (("app", "old") ∷ []))
    ∷ replaces selector_path (labels_value (("app", "api") ∷ []))
    ∷ []

selector_built : build_patch plan service before ≡ ok selector_ops
unfolding build_patch desired_configuration
selector_built = refl

selector_write_example : WritesSelector plan before served serving
selector_write_example =
    selector_write plan service before selector_ops served serving refl selector_built
      (refl, (refl, (refl, (serving, refl, set-other selector_path _ served, λ q. refl))))

abbrev deployment : ApiObject
deployment = record {
  uid = some "u2";
  resource_version = some "7";
  generation = some 3;
  match_labels = none;
  containers = some (
      record { name = some "side"; http_get = none }
      ∷ record {
        name = some "api";
        http_get = some (record { path = some "/old"; port = some (numbered 80) });
      }
      ∷ []);
}

abbrev probe_plan : RemediationPlan
probe_plan = record plan {
  target_uid = some "u2";
  action = Action.patch_readiness_probe;
  parameters = record parameters {
    resource_kind = ResourceKind.deployment;
    container_name = some "api";
    current_probe_path = some "/old";
    proposed_probe_path = some "/ready";
    current_probe_port = some (numbered 80);
    proposed_probe_port = some (named "http");
  };
}

abbrev observed : ResourceSnapshot
observed = record {
  uid = some "u2";
  generation = some 3;
  namespace = "agent-demo";
  resource_kind = ResourceKind.deployment;
  resource_name = "api";
  resource_version = "7";
  configuration = readiness (some "api") (some "/old") (some (numbered 80));
}

abbrev path_of : Text
path_of = container_path 1 "/readinessProbe/httpGet/path"

abbrev port_of : Text
port_of = container_path 1 "/readinessProbe/httpGet/port"

abbrev name_of : Text
name_of = container_path 1 "/name"

abbrev unready : Object
unready = set port_of (port_value (some (numbered 80))) (
    set path_of (text_value (some "/old")) (
      set name_of (text_value (some "api"))
        (set version_path (text_value (some "7")) (set uid_path (text_value (some "u2")) nothing))))

abbrev halfway : Object
halfway = set path_of (text_value (some "/ready")) unready

abbrev ready : Object
ready = set port_of (port_value (some (named "http"))) halfway

abbrev probe_ops : List PatchOp
probe_ops =
    tests uid_path (text_value (some "u2"))
    ∷ tests version_path (text_value (some "7"))
    ∷ tests name_of (text_value (some "api"))
    ∷ tests path_of (text_value (some "/old"))
    ∷ replaces path_of (text_value (some "/ready"))
    ∷ tests port_of (port_value (some (numbered 80)))
    ∷ replaces port_of (port_value (some (named "http")))
    ∷ []

probe_built : build_patch probe_plan deployment observed ≡ ok probe_ops
unfolding build_patch desired_configuration index_of
probe_built = refl

probe_write_example :
    (n : ℕ) × (index_of (some "api") (get_or deployment.containers []) 0 ≡ ok n)
    × WritesProbe probe_plan observed n unready ready
probe_write_example =
    probe_write probe_plan deployment observed probe_ops unready ready refl probe_built (
      refl,
      (
        refl,
        (
          refl,
          (
            refl,
            (
              halfway,
              refl,
              set-other path_of _ unready,
              (refl, (ready, refl, set-other port_of _ halfway, λ q. refl)),
            ),
          ),
        ),
      ),
    )
