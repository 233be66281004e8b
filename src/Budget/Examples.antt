-- ===== src/Budget/Examples.antt =====
-- A run's budget in use: the hypotheses of the theorems on the budget are met.
use k8s_incident_agent.Prelude.{
  ◌+◌, ◌-◌, ltb, ◌≡◌, ◌≤◌, refl, false, none, some, List, [], ◌∷◌, length,
}
use k8s_incident_agent.Outcome.{ok}
use k8s_incident_agent.Budget.{
  SecondsArithmetic, Policy, Budget, Call, Kind, Reservation, Settlement, Ending, Action,
  started_or_interrupted, initial, count_only, reserves, settles, decides, starts_activity, refers,
  lookup, reserve, settle, act_all, refusal, investigations,
}
use k8s_incident_agent.Budget.Accounting.{IsCharged, tokens_exact}
use k8s_incident_agent.Budget.Limits.{IsOnce, run_limits}
use k8s_incident_agent.Budget.References.{reference_kept}
use k8s_incident_agent.Budget.Replies.{settle_once}

-- Whole seconds, which no operation rounds.
instance abbrev whole_seconds : SecondsArithmetic
whole_seconds = record { whole = λ n. n; add = λ t u. t + u; sub = λ t u. t - u; below = ltb }

abbrev question : Reservation
question = record {
  kind = Kind.investigation_model;
  seconds = 30;
  extra = false;
  tokens = 0;
  key = none;
  metadata = none;
  request_id = some 61;
  fingerprint = some 62;
  decision_key = some 63;
  keep_tokens = 0;
  keep_seconds = 0;
}

abbrev logs : Reservation
logs = record question { kind = Kind.tool; key = some 64; request_id = none; decision_key = none }

abbrev answer : Settlement
answer = record {
  elapsed = 12;
  tokens = some 900;
  usage = some 65;
  ending = Ending.completed;
  result = some 66;
}

abbrev session : List Action
session =
    starts_activity 1 ∷ reserves question 2 ∷ settles 2 answer ∷ reserves logs 3 ∷ decides 67 ∷ []

abbrev cost_limited : Policy
cost_limited = record count_only { active_seconds = some 40 }

tokens_exact_example : IsCharged (act_all (initial cost_limited) session)
tokens_exact_example = tokens_exact cost_limited session

run_limits_example :
    (length (act_all (initial count_only) session).decisions ≤ 5)
    × (investigations (act_all (initial count_only) session).calls ≤ 6)
    × IsOnce (act_all (initial count_only) session).tools
run_limits_example = run_limits session

abbrev unused : Budget
unused = initial count_only

abbrev asked : Budget
asked = (reserve unused question 2).1

abbrev call : Call
call = record {
  ticket = 2;
  kind = Kind.investigation_model;
  reserved_seconds = 30;
  extra = false;
  reserved_tokens = 0;
  status = started_or_interrupted;
  metadata = none;
  request_id = some 61;
  fingerprint = some 62;
  elapsed_seconds = 0;
  charged_tokens = 0;
  usage = none;
  result = none;
}

settle_once_example : settle (settle asked 2 answer).1 2 answer ≡ (ok tt, (settle asked 2 answer).1)
unfolding reserve refusal
settle_once_example = settle_once asked 2 answer answer call refl

abbrev known : Budget
known = record unused { references = (71, 72) ∷ [] }

known_first : lookup 71 known.references ≡ some 72
unfolding lookup
known_first = refl

reference_kept_example :
    lookup 71 (act_all known (refers ((73, 74) ∷ []) ∷ refers ((71, 75) ∷ []) ∷ session)).references
    ≡ some 72
reference_kept_example =
    reference_kept 71 72 known known_first
      (refers ((73, 74) ∷ []) ∷ refers ((71, 75) ∷ []) ∷ session)
