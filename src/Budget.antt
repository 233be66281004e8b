-- ===== src/Budget.antt =====
-- backend/app/runtime/budget.py: the reservations of one run, as its saved payload keeps them.
-- A method takes the payload to its outcome and to the payload that is saved. Where the code raises
-- inside `edit`, nothing is saved; where it raises after it, what was changed is. The lease's fence
-- around `edit` is that of Lease. Tokens are whole numbers and not negative; seconds are Python's
-- numbers, whose arithmetic is a parameter.
pub mod Cases
pub mod Accounting
pub mod Limits
pub mod Replies
pub mod References
mod Examples
pub mod Payload
pub use Payload.*
use k8s_incident_agent.Prelude.{
  ℕ, suc, ◌+◌, ◌-◌, Bool, true, false, not, ◌&&◌, ◌||◌, Option, none, some, List, [], ◌∷◌, ◌++◌,
  String, ltb, leb, ◌==◌, if◌then◌else◌, any, find, length, or_else, is_some, get_or, equals,
}
use k8s_incident_agent.Outcome.{
  Outcome, ok, raised, Error, value_error, budget_exceeded, type_error,
}
use k8s_incident_agent.Database.{Key, Doc}

abbrev pub contains : List Key → Key → Bool
contains ks k = any (λ j. j == k) ks

abbrev pub find_call : Key → List Call → Option Call
find_call t cs = find (λ c. c.ticket == t) cs

pub lookup : Key → List (Key × Key) → Option Key
lookup k [] = none
lookup k ((j, t) ∷ m) = if j == k then some t else lookup k m

-- data.get("requests", {}).get(request_id) where a request id is given.
unfoldable pub requested : Budget → Option Key → Option Key
unfolding lookup
requested b none = none
requested b (some id) = lookup id b.requests

unfoldable pub investigations : List Call → ℕ
investigations [] = 0
investigations (c ∷ cs) = (if is_investigation c.kind then 1 else 0) + investigations cs

is_new : List Key → Option Key → Bool
is_new ks none = false
is_new ks (some k) = not (contains ks k)

is_repeated : List Key → Option Key → Bool
is_repeated ks none = false
is_repeated ks (some k) = contains ks k

-- data["tools"].append(key) for a tool.
add_tool : Kind → Option Key → List Key → List Key
add_tool Kind.tool (some k) ks = ks ++ k ∷ []
add_tool _ _ ks = ks

add_decision : Option Key → List Key → List Key
add_decision none ks = ks
add_decision (some k) ks = if contains ks k then ks else ks ++ k ∷ []

add_request : Option Key → Key → List (Key × Key) → List (Key × Key)
add_request none ticket m = m
add_request (some id) ticket m = (id, ticket) ∷ m

pub same_fingerprint : Option Key → Option Key → Bool
same_fingerprint none none = true
same_fingerprint (some j) (some k) = j == k
same_fingerprint _ _ = false

-- The ticket, and whether it is a new one.
replay : Budget → Option Key → Key → Option Call → Outcome (Key × Bool)
unfolding same_fingerprint
replay b fingerprint existing none = raised type_error
replay b fingerprint existing (some c) =
    if same_fingerprint c.fingerprint fingerprint
    then ok (existing, false)
    else raised (value_error "REQUEST_INPUT_CHANGED")

unfoldable pub end_call : Settlement → Call → Call
end_call s c = record c {
  status = ended s.ending;
  elapsed_seconds = s.elapsed;
  usage = s.usage;
  charged_tokens = get_or s.tokens c.reserved_tokens;
  result = or_else s.result c.result;
}

unfoldable pub update_call : Key → (Call → Call) → List Call → List Call
update_call t f [] = []
update_call t f (c ∷ cs) = if c.ticket == t then f c ∷ cs else c ∷ update_call t f cs

unfoldable pub deny : Budget → String → Outcome (Unit {0}) × Budget
deny b reason = (raised (budget_exceeded reason), record b { exhausted = some reason })

unfoldable pub decision : Budget → Key → Outcome (Unit {0}) × Budget
decision b key =
    if contains b.decisions key
    then (ok tt, b)
    else if exceeds (length b.decisions + 1) b.policy.decisions
    then (
      raised (budget_exceeded "INVESTIGATION_DECISION_LIMIT"),
      record b { exhausted = some "INVESTIGATION_DECISION_LIMIT" },
    )
    else (ok tt, record b { decisions = b.decisions ++ key ∷ [] })

module _ ⦃f : SecondsArithmetic⦄ where
  -- The first limit that the reservation meets, in the order of the tests.
  unfoldable pub refusal : Budget → Reservation → Option String
  unfolding is_new is_repeated investigations
  refusal b r =
      if is_new b.decisions r.decision_key && exceeds (length b.decisions + 1) b.policy.decisions
      then some "INVESTIGATION_DECISION_LIMIT"
      else if is_investigation r.kind
          && leb (get_or b.policy.model_attempts 5) (investigations b.calls)
      then some "MODEL_ATTEMPT_LIMIT"
      else if is_tool r.kind && is_repeated b.tools r.key
      then some "DUPLICATE_TOOL_EVIDENCE"
      else if is_tool r.kind && exceeds (length b.tools + 1) b.policy.tools
      then some "TOOL_REQUEST_LIMIT"
      else if outlasts (b.seconds ⊕ r.seconds ⊕ r.keep_seconds) b.policy.active_seconds
          || r.extra && outlasts (b.extra_seconds ⊕ r.seconds) b.policy.extra_seconds
      then some "ACTIVE_TIME_LIMIT"
      else if exceeds (b.tokens + r.tokens + r.keep_tokens) b.policy.total_tokens
      then some "MODEL_TOKEN_LIMIT"
      else none

  new_call : Key → Reservation → Call
  new_call ticket r = record {
    ticket = ticket;
    kind = r.kind;
    reserved_seconds = r.seconds;
    extra = r.extra;
    reserved_tokens = r.tokens;
    status = started_or_interrupted;
    metadata = r.metadata;
    request_id = r.request_id;
    fingerprint = if is_some r.request_id then r.fingerprint else none;
    elapsed_seconds = whole 0;
    charged_tokens = 0;
    usage = none;
    result = none;
  }

  -- The `else` branch: the reservation is charged in full.
  unfoldable pub admit : Budget → Reservation → Key → Budget
  unfolding new_call add_tool add_decision add_request
  admit b r ticket = record b {
    seconds = b.seconds ⊕ r.seconds;
    extra_seconds = b.extra_seconds ⊕ (if r.extra then r.seconds else whole 0);
    tokens = b.tokens + r.tokens;
    decisions = add_decision r.decision_key b.decisions;
    tools = add_tool r.kind r.key b.tools;
    calls = b.calls ++ new_call ticket r ∷ [];
    requests = add_request r.request_id ticket b.requests;
  }

  settle_refusal : Budget → Reservation → Key → Option String → Outcome (Key × Bool) × Budget
  unfolding admit
  settle_refusal b r ticket none = (ok (ticket, true), admit b r ticket)
  settle_refusal b r ticket (some error) =
      (raised (budget_exceeded error), record b { exhausted = some error })

  reserve_for : Budget → Reservation → Key → Option Key → Outcome (Key × Bool) × Budget
  unfolding replay refusal settle_refusal
  reserve_for b r ticket none = settle_refusal b r ticket (refusal b r)
  reserve_for b r ticket (some existing) =
      (replay b r.fingerprint existing (find_call existing b.calls), b)

  -- `ticket` is the uuid that the call draws.
  unfoldable pub reserve : Budget → Reservation → Key → Outcome (Key × Bool) × Budget
  unfolding reserve_for requested
  reserve b r ticket =
      if is_tool r.kind && not (is_some r.key)
      then (raised (value_error "INVALID_BUDGET_RESERVATION"), b)
      else reserve_for b r ticket (requested b r.request_id)

  -- max(0, elapsed)
  unfoldable pub measured : Settlement → Settlement
  measured s = record s { elapsed = if below (whole 0) s.elapsed then s.elapsed else whole 0 }

  -- The payload when the call ends: what was reserved is given back, and what was used is charged. The
  -- subtraction of tokens does not stop at 0, since the sum holds what the call reserved.
  unfoldable pub settled : Budget → Key → Settlement → Call → Budget
  unfolding end_call update_call measured
  settled b ticket s c =
      let spent = (measured s).elapsed ⊖ c.reserved_seconds in
      let seconds = b.seconds ⊕ spent in
      record b {
        seconds = seconds;
        extra_seconds = if c.extra then b.extra_seconds ⊕ spent else b.extra_seconds;
        tokens = b.tokens + get_or s.tokens c.reserved_tokens - c.reserved_tokens;
        calls = update_call ticket (end_call (measured s)) b.calls;
        exhausted =
            if outlasts seconds b.policy.active_seconds
            then some "ACTIVE_TIME_LIMIT"
            else b.exhausted;
      }

  settle_call : Budget → Key → Settlement → CallStatus → Call → Budget
  unfolding settled
  settle_call b ticket s started_or_interrupted c = settled b ticket s c
  settle_call b ticket s (ended ending) c = b

  settle_found : Budget → Key → Settlement → Option Call → Outcome (Unit {0}) × Budget
  unfolding settle_call
  settle_found b ticket s none = (raised type_error, b)
  settle_found b ticket s (some c) = (ok tt, settle_call b ticket s c.status c)

  unfoldable pub settle : Budget → Key → Settlement → Outcome (Unit {0}) × Budget
  unfolding settle_found
  settle b ticket s = settle_found b ticket s (find_call ticket b.calls)

  -- `required or write_reserve_seconds`, where 0 is no requirement.
  required_seconds : Budget → Seconds → Seconds
  required_seconds b required =
      if below (whole 0) required || below required (whole 0)
      then required
      else b.policy.write_reserve_seconds

  unfoldable pub before_write : Budget → Seconds → Outcome (Unit {0}) × Budget
  unfolding required_seconds
  before_write b required =
      if outlasts (b.seconds ⊕ required_seconds b required) b.policy.active_seconds
        || exceeds b.tokens b.policy.total_tokens
      then (
        raised (budget_exceeded "WRITE_VERIFICATION_BUDGET_NOT_RESERVED"),
        record b { exhausted = some "WRITE_VERIFICATION_BUDGET_NOT_RESERVED" },
      )
      else (ok tt, b)

  -- The start of `activity`: five seconds of overhead are charged without a test. Its end is `settle`.
  unfoldable pub start_activity : Budget → Key → Budget
  start_activity b ticket = record b {
    seconds = b.seconds ⊕ whole 5;
    calls =
        b.calls
        ++ record {
          ticket = ticket;
          kind = Kind.control_overhead;
          reserved_seconds = whole 5;
          extra = false;
          reserved_tokens = 0;
          status = started_or_interrupted;
          metadata = none;
          request_id = none;
          fingerprint = none;
          elapsed_seconds = whole 0;
          charged_tokens = 0;
          usage = none;
          result = none;
        }
          ∷ [];
  }

bind_reference : Option Doc → Key → Doc → List (Key × Doc) → Option (List (Key × Doc))
bind_reference none k v m = some (m ++ (k, v) ∷ [])
bind_reference (some w) k v m = if w == v then some m else none

-- Nothing follows a reference that has changed.
unfoldable pub bind_rest :
    Option (List (Key × Doc))
    → (List (Key × Doc) → Option (List (Key × Doc)))
    → Option (List (Key × Doc))
bind_rest none rest = none
bind_rest (some m) rest = rest m

-- The loop of `references`; none where a key has another value.
unfoldable pub bind_references : List (Key × Doc) → List (Key × Doc) → Option (List (Key × Doc))
unfolding lookup bind_reference bind_rest
bind_references [] m = some m
bind_references ((k, v) ∷ values) m =
    bind_rest (bind_reference (lookup k m) k v m) (λ n. bind_references values n)

save_references : Budget → Option (List (Key × Doc)) → Outcome (List (Key × Doc)) × Budget
save_references b none = (raised (value_error "RESOURCE_REFERENCE_CHANGED"), b)
save_references b (some m) = (ok m, record b { references = m })

-- An empty list of values, or none, only reads.
unfoldable pub references : Budget → List (Key × Doc) → Outcome (List (Key × Doc)) × Budget
unfolding save_references bind_references
references b values = save_references b (bind_references values b.references)

-- One call of the budget, by any part of the run.
pub data Action : Type 0 where
  reserves : Reservation → Key → Action
  settles : Key → Settlement → Action
  denies : String → Action
  decides : Key → Action
  checks_write : Seconds → Action
  starts_activity : Key → Action
  refers : List (Key × Doc) → Action

module _ ⦃f : SecondsArithmetic⦄ where
  unfoldable pub act : Budget → Action → Budget
  act b (reserves r ticket) = (reserve b r ticket).1
  act b (settles ticket s) = (settle b ticket s).1
  act b (denies reason) = (deny b reason).1
  act b (decides key) = (decision b key).1
  act b (checks_write required) = (before_write b required).1
  act b (starts_activity ticket) = start_activity b ticket
  act b (refers values) = (references b values).1

  unfoldable pub act_all : Budget → List Action → Budget
  act_all b [] = b
  act_all b (a ∷ as') = act_all (act b a) as'
