-- ===== src/Executor/Guarded.antt =====
-- The executor of backend/app/runtime/operations.py sends a write only after a dispatch, and once.
use k8s_incident_agent.Prelude.{
  ℕ, ◌≡◌, refl, Bool, true, false, not, Option, none, some, String, if◌then◌else◌,
}
use k8s_incident_agent.Outcome.{Error, Outcome, ok, raised, lease_lost, ◌>>=◌}
use k8s_incident_agent.Database.{Doc, OperationState, Approval, Operation}
use k8s_incident_agent.Schemas.{ExecutionStatus, ResourceSnapshot, ActionExecutionResult}
use k8s_incident_agent.Lease.{Lease}
use k8s_incident_agent.Operation.{is_prepared}
use k8s_incident_agent.Target.{ApiObject, read_target, identified, build_patch}
use k8s_incident_agent.Program.{
  WriteAnswer, responded, refused, lost, Program, returns, settles, raises, checks_lost,
  asserts_owned, loads, reads_profile, reads_target, prepares, charges, dispatches, sends, records,
  asks_time, or_raise, refuse_if, refuse_with, still_owned, Authorization, is_answered, is_refusal,
}
use k8s_incident_agent.Executor.{
  Codec, approval_error, is_off_target, is_unattributable, finish_result, result_with, unknown,
  after_snapshot, after_write, write, prepared, fresh, saved_result, answered, resume, authorized,
  execute, reconcile, reconcile_from, reconcile_observed, parameters_of,
}

-- What a worker may still do: a write needs a dispatch before it, which it uses up, and is one that
-- K allows, or the patch of the operation that the last `prepare` returned.
abbrev pub IsGuarded : (Doc → Type 0) → Bool → Program → Type 0
IsGuarded K armed (returns result) = Unit
IsGuarded K armed (settles confirmed) = Unit
IsGuarded K armed (raises e) = Unit
IsGuarded K armed (checks_lost f) = (b : Bool) → IsGuarded K armed (f b)
IsGuarded K armed (asserts_owned p) = IsGuarded K armed p
IsGuarded K armed (loads f) = (o : Option Operation) → IsGuarded K armed (f o)
IsGuarded K armed (reads_profile f) = (o : Outcome (Option String)) → IsGuarded K armed (f o)
IsGuarded K armed (reads_target f) = (o : Outcome ApiObject) → IsGuarded K armed (f o)
IsGuarded K armed (prepares q f) =
    (o : Operation) → IsGuarded (λ d. o.request_patch ≡ d) armed (f o)
IsGuarded K armed (charges f) = (o : Outcome (Unit {0})) → IsGuarded K armed (f o)
IsGuarded K armed (dispatches operation_id p) = (armed ≡ false) × IsGuarded K true p
IsGuarded K armed (sends patch f) =
    (armed ≡ true) × K patch × ((a : WriteAnswer) → IsGuarded K false (f a))
IsGuarded K armed (records q p) = IsGuarded K armed p
IsGuarded K armed (asks_time f) = (n : ℕ) → IsGuarded K armed (f n)

pub IsGuarded-mono :
    (K L : Doc → Type 0)
    → ((d : Doc) → K d → L d)
    → (armed : Bool) (p : Program) → IsGuarded K armed p
    → IsGuarded L armed p
IsGuarded-mono K L w armed (returns result) h = tt
IsGuarded-mono K L w armed (settles confirmed) h = tt
IsGuarded-mono K L w armed (raises e) h = tt
IsGuarded-mono K L w armed (checks_lost f) h = λ b. IsGuarded-mono K L w armed (f b) (h b)
IsGuarded-mono K L w armed (asserts_owned p) h = IsGuarded-mono K L w armed p h
IsGuarded-mono K L w armed (loads f) h = λ o. IsGuarded-mono K L w armed (f o) (h o)
IsGuarded-mono K L w armed (reads_profile f) h = λ o. IsGuarded-mono K L w armed (f o) (h o)
IsGuarded-mono K L w armed (reads_target f) h = λ o. IsGuarded-mono K L w armed (f o) (h o)
IsGuarded-mono K L w armed (prepares q f) h = h
IsGuarded-mono K L w armed (charges f) h = λ o. IsGuarded-mono K L w armed (f o) (h o)
IsGuarded-mono K L w armed (dispatches operation_id p) h = (h.0, IsGuarded-mono K L w true p h.1)
IsGuarded-mono K L w armed (sends patch f) h =
    (h.0, w patch h.1, λ a. IsGuarded-mono K L w false (f a) (h.2 a))
IsGuarded-mono K L w armed (records q p) h = IsGuarded-mono K L w armed p h
IsGuarded-mono K L w armed (asks_time f) h = λ n. IsGuarded-mono K L w armed (f n) (h n)

refuse_if-IsGuarded :
    (K : Doc → Type 0) (armed t : Bool) (e : Error) (p : Program)
    → IsGuarded K armed p
    → IsGuarded K armed (refuse_if t e p)
refuse_if-IsGuarded K armed true e p h = tt
refuse_if-IsGuarded K armed false e p h = h

if-IsGuarded :
    (K : Doc → Type 0) (armed t : Bool) (p q : Program)
    → IsGuarded K armed p
    → IsGuarded K armed q
    → IsGuarded K armed (if t then p else q)
if-IsGuarded K armed true p q h k = h
if-IsGuarded K armed false p q h k = k

refuse_with-IsGuarded :
    (K : Doc → Type 0) (armed : Bool) (o : Option String) (p : Program)
    → IsGuarded K armed p
    → IsGuarded K armed (refuse_with o p)
refuse_with-IsGuarded K armed none p h = h
refuse_with-IsGuarded K armed (some message) p h = tt

or_raise-IsGuarded :
    {A : Type 0} (K : Doc → Type 0) (armed : Bool) (o : Outcome A) (f : A → Program)
    → ((a : A) → IsGuarded K armed (f a))
    → IsGuarded K armed (or_raise o f)
or_raise-IsGuarded K armed (ok a) f h = h a
or_raise-IsGuarded K armed (raised e) f h = tt

still_owned-IsGuarded :
    (K : Doc → Type 0) (armed : Bool) (p : Program)
    → IsGuarded K armed p
    → IsGuarded K armed (still_owned p)
still_owned-IsGuarded K armed p h failed =
    refuse_if-IsGuarded K armed failed lease_lost (asserts_owned p) h

module _ (codec : Codec) (auth : Authorization) where
  result_with-IsGuarded :
      (K : Doc → Type 0) (armed : Bool) (o : Operation) (status : ExecutionStatus)
      (after : Option ResourceSnapshot) (code : Option String) (before : Option ResourceSnapshot)
      → IsGuarded K armed (result_with codec auth o status after code before)
  unfolding result_with
  result_with-IsGuarded K armed o status after code none = tt
  result_with-IsGuarded K armed o status after code (some before) = λ now. tt

  finish_result-IsGuarded :
      (K : Doc → Type 0) (armed : Bool) (o : Operation) (status : ExecutionStatus)
      (after : Option ResourceSnapshot) (code : Option String)
      → IsGuarded K armed (finish_result codec auth o status after code)
  unfolding finish_result
  finish_result-IsGuarded K armed o status after code =
      result_with-IsGuarded K armed o status after code (codec.loaded_snapshot o.before_snapshot)

  after_snapshot-IsGuarded :
      (K : Doc → Type 0) (armed : Bool) (o : Operation) (before : ResourceSnapshot)
      (after : Outcome ResourceSnapshot)
      → IsGuarded K armed (after_snapshot codec auth o before after)
  unfolding after_snapshot unknown
  after_snapshot-IsGuarded K armed o before (raised e) = tt
  after_snapshot-IsGuarded K armed o before (ok after) =
      if-IsGuarded K armed (is_unattributable codec auth before after) _ _ tt
        (finish_result-IsGuarded K armed o ExecutionStatus.succeeded (some after) none)

  after_write-IsGuarded :
      (K : Doc → Type 0) (armed : Bool) (o : Operation) (before : ResourceSnapshot)
      (a : WriteAnswer)
      → IsGuarded K armed (after_write codec auth o before a)
  unfolding after_write unknown
  after_write-IsGuarded K armed o before (refused status) =
      if-IsGuarded K armed (is_refusal status) _ _
        (finish_result-IsGuarded K armed o ExecutionStatus.conflict none
          (some "KUBERNETES_REJECTED"))
        tt
  after_write-IsGuarded K armed o before lost = tt
  after_write-IsGuarded K armed o before (responded object) =
      after_snapshot-IsGuarded K armed o before (identified auth.plan.parameters object)

  write-IsGuarded :
      (K : Doc → Type 0) (o : Operation) (before : ResourceSnapshot)
      → K o.request_patch
      → IsGuarded K false (write codec auth o before)
  unfolding write
  write-IsGuarded K o before journalled charged = or_raise-IsGuarded K false charged _ (λ unit. (
    refl,
    still_owned-IsGuarded K true (sends o.request_patch (after_write codec auth o before))
        (refl, journalled, after_write-IsGuarded K false o before),
  ))

  prepared-IsGuarded :
      (K : Doc → Type 0) (live : Option String) (before : ResourceSnapshot) (o : Operation)
      → K o.request_patch
      → IsGuarded K false (prepared codec auth live before o)
  unfolding prepared
  prepared-IsGuarded K live before o journalled =
      if-IsGuarded K false (is_off_target codec auth live before o) _ _
        (finish_result-IsGuarded K false o ExecutionStatus.conflict none
          (some "OPERATION_PRECONDITION_FAILED"))
        (write-IsGuarded K o before journalled)

  module _ (K : Doc → Type 0) where
    fresh-IsGuarded : IsGuarded K false (fresh codec auth)
    unfolding fresh
    fresh-IsGuarded live = or_raise-IsGuarded K false live _ (λ version answer.
        or_raise-IsGuarded K false answer _ (λ resource.
          or_raise-IsGuarded K false (read_target auth.plan.parameters resource) _ (λ before.
            or_raise-IsGuarded K false (build_patch auth.plan resource before) _
              (λ patch o. prepared-IsGuarded (λ d. o.request_patch ≡ d) version before o refl))))

    saved_result-IsGuarded :
        (o : Option ActionExecutionResult) → IsGuarded K false (saved_result codec o)
    unfolding saved_result
    saved_result-IsGuarded none = tt
    saved_result-IsGuarded (some r) = tt

    unanswered-IsGuarded :
        (t : Bool) (e : Error) → IsGuarded K false (refuse_if t e (fresh codec auth))
    unanswered-IsGuarded t e = refuse_if-IsGuarded K false t e (fresh codec auth) fresh-IsGuarded

    answered-IsGuarded :
        (state : OperationState) (doc : Option Doc)
        → IsGuarded K false (answered codec auth state doc)
    unfolding answered
    answered-IsGuarded state (some doc) =
        if-IsGuarded K false (is_answered state) _ _ (saved_result-IsGuarded (codec.loaded doc))
          (unanswered-IsGuarded (not (is_prepared state)) _)
    answered-IsGuarded state none = unanswered-IsGuarded (not (is_prepared state)) _

    resume-IsGuarded : (o : Option Operation) → IsGuarded K false (resume codec auth o)
    unfolding resume
    resume-IsGuarded none = fresh-IsGuarded
    resume-IsGuarded (some o) =
        refuse_if-IsGuarded K false _ _ (answered codec auth o.state o.result)
          (answered-IsGuarded o.state o.result)

    authorized-IsGuarded :
        (saved : Option Approval) → IsGuarded K false (authorized codec saved auth)
    unfolding authorized
    authorized-IsGuarded saved =
        refuse_with-IsGuarded K false (approval_error codec auth saved) (loads (resume codec auth))
          resume-IsGuarded

module _ (codec : Codec) (K : Doc → Type 0) where
  -- `execute` sends at most one write, after its dispatch, and the one that it prepared.
  pub execute-IsGuarded :
      (lease : Lease) (authorization : Outcome Authorization)
      → IsGuarded K false (execute codec lease authorization)
  unfolding execute
  execute-IsGuarded lease authorization = still_owned-IsGuarded K false _ (
      or_raise-IsGuarded K false authorization _
        (λ auth. authorized-IsGuarded codec auth K lease.approval_payload))

  observed-IsGuarded :
      (o : Operation) (before target : ResourceSnapshot) (observed : Outcome ResourceSnapshot)
      → IsGuarded K false (reconcile_observed codec o before target observed)
  unfolding reconcile_observed
  observed-IsGuarded o before target (raised e) = tt
  observed-IsGuarded o before target (ok observed) = tt

  from-IsGuarded :
      (o : Operation) (before target : Option ResourceSnapshot)
      → IsGuarded K false (reconcile_from codec o before target)
  unfolding reconcile_from
  from-IsGuarded o (some before) (some target) = λ answer.
      observed-IsGuarded o before target
        (answer >>= λ resource. read_target (parameters_of codec before target) resource)
  from-IsGuarded o (some before) none = tt
  from-IsGuarded o none target = tt

  -- `reconcile` sends nothing.
  pub reconcile-IsGuarded : (o : Operation) → IsGuarded K false (reconcile codec o)
  unfolding reconcile
  reconcile-IsGuarded o =
      from-IsGuarded o (codec.loaded_snapshot o.before_snapshot)
        (codec.loaded_snapshot o.target_snapshot)
