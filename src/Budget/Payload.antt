-- ===== src/Budget/Payload.antt =====
-- The payload that backend/app/runtime/budget.py saves for a run, its policy and what the methods take.
use k8s_incident_agent.Prelude.{ℕ, Bool, true, false, Option, none, some, List, [], String, ltb}
use k8s_incident_agent.Database.{Key, Doc}

-- A number of seconds: which one stands for which float is known to the arithmetic alone.
abbrev pub Seconds : Type 0
Seconds = ℕ

-- Python's arithmetic on the floats and integers that seconds are, which rounds.
pub record SecondsArithmetic : Type 0 where
  pub whole : ℕ → Seconds
  pub add : Seconds → Seconds → Seconds
  pub sub : Seconds → Seconds → Seconds
  pub below : Seconds → Seconds → Bool

module _ ⦃f : SecondsArithmetic⦄ where
  abbrev pub whole : ℕ → Seconds
  whole = f.whole

  infixl 6 ◌⊕◌ ◌⊖◌
  abbrev pub ◌⊕◌ : Seconds → Seconds → Seconds
  t ⊕ u = f.add t u

  abbrev pub ◌⊖◌ : Seconds → Seconds → Seconds
  t ⊖ u = f.sub t u

  abbrev pub below : Seconds → Seconds → Bool
  below = f.below

  -- `exceeds` of seconds.
  abbrev pub outlasts : Seconds → Option Seconds → Bool
  outlasts t none = false
  outlasts t (some limit) = below limit t

-- What is absent in a policy is no limit, but for the attempts, which are then 5.
pub record Policy : Type 0 where
  pub model_attempts : Option ℕ
  pub active_seconds : Option Seconds
  pub extra_seconds : Option Seconds
  pub decisions : Option ℕ
  pub tools : Option ℕ
  pub input_tokens : Option ℕ
  pub output_tokens : Option ℕ
  pub total_tokens : Option ℕ
  pub write_reserve_seconds : Seconds

-- POLICY
abbrev pub count_only : Policy
count_only = record {
  model_attempts = some 6;
  active_seconds = none;
  extra_seconds = none;
  decisions = some 5;
  tools = none;
  input_tokens = none;
  output_tokens = none;
  total_tokens = none;
  write_reserve_seconds = 0;
}

abbrev pub exceeds : ℕ → Option ℕ → Bool
exceeds value none = false
exceeds value (some limit) = ltb limit value

-- The kinds of calls; a stage has a name of its own.
pub data Kind : Type 0 where
  tool investigation_model model embedding control_overhead : Kind
  stage : Key → Kind

abbrev pub is_tool : Kind → Bool
is_tool Kind.tool = true
is_tool _ = false

abbrev pub is_investigation : Kind → Bool
is_investigation Kind.investigation_model = true
is_investigation _ = false

pub data Ending : Type 0 where
  completed failed_or_unknown usage_unavailable : Ending

pub data CallStatus : Type 0 where
  started_or_interrupted : CallStatus
  ended : Ending → CallStatus

pub record Call : Type 0 where
  pub ticket : Key
  pub kind : Kind
  pub reserved_seconds : Seconds
  pub extra : Bool
  pub reserved_tokens : ℕ
  pub status : CallStatus
  pub metadata : Option Doc
  pub request_id : Option Key
  pub fingerprint : Option Key
  pub elapsed_seconds : Seconds
  pub charged_tokens : ℕ
  pub usage : Option Doc
  pub result : Option Doc

pub record Budget : Type 0 where
  pub policy : Policy
  pub seconds : Seconds
  pub extra_seconds : Seconds
  pub tokens : ℕ
  pub decisions : List Key
  pub tools : List Key
  pub calls : List Call
  pub requests : List (Key × Key)
  pub references : List (Key × Doc)
  pub exhausted : Option String

abbrev pub initial : ⦃f : SecondsArithmetic⦄ → Policy → Budget
initial policy = record {
  policy = policy;
  seconds = whole 0;
  extra_seconds = whole 0;
  tokens = 0;
  decisions = [];
  tools = [];
  calls = [];
  requests = [];
  references = [];
  exhausted = none;
}

-- The arguments of `reserve`; an empty key or id is `none`.
pub record Reservation : Type 0 where
  pub kind : Kind
  pub seconds : Seconds
  pub extra : Bool
  pub tokens : ℕ
  pub key : Option Key
  pub metadata : Option Doc
  pub request_id : Option Key
  pub fingerprint : Option Key
  pub decision_key : Option Key
  pub keep_tokens : ℕ
  pub keep_seconds : Seconds

-- The arguments of `settle`.
pub record Settlement : Type 0 where
  pub elapsed : Seconds
  pub tokens : Option ℕ
  pub usage : Option Doc
  pub ending : Ending
  pub result : Option Doc
