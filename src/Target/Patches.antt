-- ===== src/Target/Patches.antt =====
-- What the patches of backend/app/runtime/operations.py do to an object of the API: the meaning of the
-- `test` and `replace` operations of a JSON patch, and of the two patches that are built.
use k8s_incident_agent.Prelude.{
  ◌≡◌, ◌≢◌, refl, sym, subst, ap, ◌∙◌, Option, some, List, [], ◌∷◌, ℕ, String, str_eq, arith,
  get_or,
}
use k8s_incident_agent.Outcome.{ok, >>=-eq-ok}
use k8s_incident_agent.Database.{Action}
use k8s_incident_agent.Evidence.{PortRef}
use k8s_incident_agent.Report.{Text, literal, number}
use k8s_incident_agent.Schemas.{
  RemediationPlan, Configuration, selector, readiness, ResourceSnapshot,
}
use k8s_incident_agent.Verification.{Labels, label_pairs_to_dict}
use k8s_incident_agent.Target.{
  ApiObject, PatchValue, text_value, labels_value, port_value, PatchOp, tests, replaces, index_of,
  selector_in, probe_in, identity_tests, selector_patch, readiness_patch, patch_by, build_patch,
  at_container, desired_configuration, configuration_by,
}

-- An object, by the value at each path.
abbrev pub Object : Type 0
Object = Text → PatchValue

-- The patch applies to the first object and makes the second of it (RFC 6902): a `test` asks for the
-- value, and a `replace` changes the value at its path only.
abbrev pub Applies : List PatchOp → Object → Object → Type 0
Applies [] d e = (q : Text) → e q ≡ d q
Applies (tests p v ∷ ops) d e = (d p ≡ v) × Applies ops d e
Applies (replaces p v ∷ ops) d e =
    (c : Object) × (c p ≡ v) × ((q : Text) → q ≢ p → c q ≡ d q) × Applies ops c e

abbrev pub uid_path : Text
uid_path = literal "/metadata/uid" ∷ []

abbrev pub version_path : Text
version_path = literal "/metadata/resourceVersion" ∷ []

abbrev pub selector_path : Text
selector_path = literal "/spec/selector" ∷ []

abbrev pub container_path : ℕ → String → Text
container_path n suffix = literal "/spec/template/spec/containers/" ∷ number n ∷ literal suffix ∷ []

-- The object has the identity and the version of the snapshot.
abbrev pub IsObserved : ResourceSnapshot → Object → Type 0
IsObserved before d =
    (d uid_path ≡ text_value before.uid)
    × (d version_path ≡ text_value (some before.resource_version))

-- The selector that was observed is replaced by the proposed one, and nothing else.
pub record WritesSelector (plan : RemediationPlan) (before : ResourceSnapshot) (d e : Object)
    : Type 0 where
  pub observed : IsObserved before d
  pub was :
      (labels : Labels) × (before.configuration ≡ selector labels)
      × (d selector_path ≡ labels_value labels)
  pub written :
      e selector_path ≡ labels_value (label_pairs_to_dict plan.parameters.proposed_selector)
  pub kept : (q : Text) → q ≢ selector_path → e q ≡ d q

-- The path and the port of the container's probe are replaced, where they are those that were
-- observed, and nothing else.
pub record WritesProbe (plan : RemediationPlan) (before : ResourceSnapshot) (n : ℕ) (d e : Object)
    : Type 0 where
  pub observed : IsObserved before d
  pub named : d (container_path n "/name") ≡ text_value plan.parameters.container_name
  pub was :
      (container path : Option String) × (port : Option PortRef) × (before.configuration
        ≡ readiness container path port)
      × (d (container_path n "/readinessProbe/httpGet/path") ≡ text_value path)
      × (d (container_path n "/readinessProbe/httpGet/port") ≡ port_value port)
  pub path_written :
      e (container_path n "/readinessProbe/httpGet/path")
      ≡ text_value plan.parameters.proposed_probe_path
  pub port_written :
      e (container_path n "/readinessProbe/httpGet/port")
      ≡ port_value plan.parameters.proposed_probe_port
  pub kept :
      (q : Text)
      → q ≢ container_path n "/readinessProbe/httpGet/path"
      → q ≢ container_path n "/readinessProbe/httpGet/port"
      → e q ≡ d q

selector_in_inv :
    (c : Configuration) (labels : Labels) → selector_in c ≡ ok labels → c ≡ selector labels
unfolding selector_in
selector_in_inv (selector l) labels h = ground arith
selector_in_inv (readiness c p q) labels h = ground arith

probe_in_inv :
    (c : Configuration) (r : Option String × Option PortRef)
    → probe_in c ≡ ok r
    → (container : Option String) × (c ≡ readiness container r.0 r.1)
unfolding probe_in
probe_in_inv (selector l) r h = ground arith
probe_in_inv (readiness c p q) r h =
    let same : (p, q) ≡ r = ground arith in
    (c, ap (λ (x : Option String × Option PortRef). readiness c x.0 x.1) same)

selector_inj : {l m : Labels} → selector l ≡ selector m → l ≡ m
selector_inj e = ground (arith, e)

readiness_inj :
    {c d p q : Option String} {j k : Option PortRef}
    → readiness c p j ≡ readiness d q k
    → (p ≡ q) × (j ≡ k)
readiness_inj e = (ground (arith, e), ground (arith, e))

by_selector :
    (action : Action) (plan : RemediationPlan) (resource : ApiObject) (before : ResourceSnapshot)
    (ops : List PatchOp)
    → action ≡ Action.patch_service_selector
    → patch_by action plan resource before ≡ ok ops
    → selector_patch plan before ≡ ok ops
unfolding patch_by
by_selector Action.patch_service_selector plan resource before ops e h = h
by_selector Action.patch_readiness_probe plan resource before ops e h = ground arith
by_selector Action.manual_investigation plan resource before ops e h = ground arith

desired_selector :
    (plan : RemediationPlan)
    → plan.action ≡ Action.patch_service_selector
    → desired_configuration plan ≡ selector (label_pairs_to_dict plan.parameters.proposed_selector)
unfolding desired_configuration configuration_by
desired_selector plan e = rw e refl

by_probe :
    (action : Action) (plan : RemediationPlan) (resource : ApiObject) (before : ResourceSnapshot)
    (ops : List PatchOp)
    → action ≡ Action.patch_readiness_probe
    → patch_by action plan resource before ≡ ok ops
    → readiness_patch plan resource before ≡ ok ops
unfolding patch_by
by_probe Action.patch_readiness_probe plan resource before ops e h = h
by_probe Action.patch_service_selector plan resource before ops e h = ground arith
by_probe Action.manual_investigation plan resource before ops e h = ground arith

desired_probe :
    (plan : RemediationPlan)
    → plan.action ≡ Action.patch_readiness_probe
    → desired_configuration plan
      ≡ readiness plan.parameters.container_name plan.parameters.proposed_probe_path
          plan.parameters.proposed_probe_port
unfolding desired_configuration configuration_by
desired_probe plan e = rw e refl

-- The operations of the patch for a service.
abbrev selector_ops : ResourceSnapshot → (current desired : Labels) → List PatchOp
selector_ops before current desired =
    tests uid_path (text_value before.uid)
    ∷ tests version_path (text_value (some before.resource_version))
    ∷ tests selector_path (labels_value current)
    ∷ replaces selector_path (labels_value desired)
    ∷ []

selector_patch_inv :
    (plan : RemediationPlan) (before : ResourceSnapshot) (ops : List PatchOp)
    → selector_patch plan before ≡ ok ops
    → (current desired : Labels) × (before.configuration ≡ selector current)
      × (desired_configuration plan ≡ selector desired)
      × (selector_ops before current desired ≡ ops)
unfolding selector_patch identity_tests
selector_patch_inv plan before ops h =
    let (current, found, h1) = >>=-eq-ok (selector_in before.configuration) _ h in
    let (desired, wanted, h2) = >>=-eq-ok (selector_in (desired_configuration plan)) _ h1 in
    (
      current,
      desired,
      selector_in_inv before.configuration current found,
      selector_in_inv (desired_configuration plan) desired wanted,
      ground arith,
    )

abbrev probe_ops :
    RemediationPlan
    → ResourceSnapshot
    → ℕ
    → (current desired : Option String × Option PortRef) → List PatchOp
probe_ops plan before n current desired =
    tests uid_path (text_value before.uid)
    ∷ tests version_path (text_value (some before.resource_version))
    ∷ tests (container_path n "/name") (text_value plan.parameters.container_name)
    ∷ tests (container_path n "/readinessProbe/httpGet/path") (text_value current.0)
    ∷ replaces (container_path n "/readinessProbe/httpGet/path") (text_value desired.0)
    ∷ tests (container_path n "/readinessProbe/httpGet/port") (port_value current.1)
    ∷ replaces (container_path n "/readinessProbe/httpGet/port") (port_value desired.1)
    ∷ []

readiness_patch_inv :
    (plan : RemediationPlan) (resource : ApiObject) (before : ResourceSnapshot) (ops : List PatchOp)
    → readiness_patch plan resource before ≡ ok ops
    → (n : ℕ) × (current desired : Option String × Option PortRef) × (index_of
          plan.parameters.container_name
          (get_or resource.containers [])
          0
        ≡ ok n)
      × (probe_in before.configuration ≡ ok current)
      × (probe_in (desired_configuration plan) ≡ ok desired)
      × (probe_ops plan before n current desired ≡ ops)
unfolding readiness_patch identity_tests at_container
readiness_patch_inv plan resource before ops h =
    let (n, found, h1) =
      >>=-eq-ok (index_of plan.parameters.container_name (get_or resource.containers []) 0) _ h in
    let (current, was, h2) = >>=-eq-ok (probe_in before.configuration) _ h1 in
    let (desired, wanted, h3) = >>=-eq-ok (probe_in (desired_configuration plan)) _ h2 in
    (n, current, desired, found, was, wanted, ground arith)

-- The last part of a path, where it has three.
abbrev last_part : Text → String
last_part (a ∷ b ∷ literal s ∷ []) = s
last_part t = ""

port_is_not_path :
    (n : ℕ)
    → container_path n "/readinessProbe/httpGet/port"
      ≢ container_path n "/readinessProbe/httpGet/path"
port_is_not_path n e =
    let same = ap (λ t. str_eq (last_part t) "/readinessProbe/httpGet/port") e in
    ground (arith, same)

-- If the patch for a service applies to an object, the object is the one that was observed, in that
-- version and with that selector, and its selector alone becomes the proposed one.
pub selector_write :
    (plan : RemediationPlan) (resource : ApiObject) (before : ResourceSnapshot) (ops : List PatchOp)
    (d e : Object)
    → plan.action ≡ Action.patch_service_selector
    → build_patch plan resource before ≡ ok ops
    → Applies ops d e
    → WritesSelector plan before d e
unfolding build_patch
selector_write plan resource before ops d e action built applies =
    let built_by = by_selector plan.action plan resource before ops action built in
    let (current, desired, was, wanted, same) = selector_patch_inv plan before ops built_by in
    let (uid, (version, (there, (c, set, others, last)))) =
      subst (λ x. Applies x d e) (sym same) applies in
    let target : selector desired ≡ selector _ = sym wanted ∙ desired_selector plan action in
    record {
      observed = (uid, version);
      was = (current, was, there);
      written = last selector_path ∙ set ∙ ap labels_value (selector_inj target);
      kept = λ q other. last q ∙ others q other;
    }

-- If the patch for a deployment applies to an object, the object is the one that was observed, in that
-- version and with that container, path and port, and the path and the port of its probe alone
-- become the proposed ones. The container is the first one of the deployment that has the name.
pub probe_write :
    (plan : RemediationPlan) (resource : ApiObject) (before : ResourceSnapshot) (ops : List PatchOp)
    (d e : Object)
    → plan.action ≡ Action.patch_readiness_probe
    → build_patch plan resource before ≡ ok ops
    → Applies ops d e
    → (n : ℕ) × (index_of plan.parameters.container_name (get_or resource.containers []) 0 ≡ ok n)
      × WritesProbe plan before n d e
unfolding build_patch
probe_write plan resource before ops d e action built applies =
    let built_by = by_probe plan.action plan resource before ops action built in
    let (n, current, desired, first, was, wanted, same) =
      readiness_patch_inv plan resource before ops built_by in
    let (uid, (version, (name, (path, (c, set_path, keep, (port, (b, set_port, keep', last))))))) =
      subst (λ x. Applies x d e) (sym same) applies in
    let (container, configuration) = probe_in_inv before.configuration current was in
    let (container', target) = probe_in_inv (desired_configuration plan) desired wanted in
    let goal = readiness_inj (sym target ∙ desired_probe plan action) in
    (
      n,
      first,
      record {
        observed = (uid, version);
        named = name;
        was = (
          container,
          current.0,
          current.1,
          configuration,
          path,
          sym (keep (container_path n "/readinessProbe/httpGet/port") (port_is_not_path n)) ∙ port,
        );
        path_written =
            last (container_path n "/readinessProbe/httpGet/path")
            ∙ keep' (container_path n "/readinessProbe/httpGet/path")
                (λ x. port_is_not_path n (sym x))
            ∙ set_path
            ∙ ap text_value goal.0;
        port_written =
            last (container_path n "/readinessProbe/httpGet/port")
            ∙ set_port
            ∙ ap port_value goal.1;
        kept = λ q path_differs port_differs. last q ∙ keep' q port_differs ∙ keep q path_differs;
      },
    )
