-- ===== src/Budget/Limits.antt =====
-- The limits of backend/app/runtime/budget.py hold whatever is called.
use k8s_incident_agent.Prelude.{
  ℕ, ◌+◌, ◌≤◌, ◌≡◌, ◌&&◌, refl, ◌∙◌, Bool, false, Option, none, some, List, [], ◌∷◌, ◌++◌, String,
  arith, leb, length, get_or, ◌==◌, if◌then◌else◌,
}
use k8s_incident_agent.Database.{Key}
use k8s_incident_agent.Budget.Cases.{reserve_cases, settle_cases, references_cases}
use k8s_incident_agent.Budget.{
  SecondsArithmetic, Seconds, Budget, Call, Reservation, Settlement, Action, Kind, initial,
  count_only, exceeds, contains, is_tool, is_investigation, investigations, refusal, admit, is_new,
  is_repeated, add_tool, add_decision, new_call, settled, end_call, update_call, deny, decision,
  before_write, start_activity, act, act_all, reserves, settles, denies, decides, checks_write,
  starts_activity, refers,
}

-- No key stands in the list twice.
abbrev pub IsOnce : List Key → Type 0
IsOnce [] = Unit
IsOnce (k ∷ ks) = (contains ks k ≡ false) × IsOnce ks

-- The limits that no later charge can pass.
pub record IsWithin (b : Budget) : Type 0 where
  pub decisions_within : exceeds (length b.decisions) b.policy.decisions ≡ false
  pub attempts_within : investigations b.calls ≤ get_or b.policy.model_attempts 5
  pub tools_within : exceeds (length b.tools) b.policy.tools ≡ false
  pub tools_once : IsOnce b.tools

length-snoc : (ks : List Key) (k : Key) → length (ks ++ k ∷ []) ≡ length ks + 1
length-snoc [] k = omega arith
length-snoc (j ∷ ks) k = omega (arith, length-snoc ks k)

contains-snoc :
    (ks : List Key) (k j : Key)
    → contains ks j ≡ false
    → (k == j) ≡ false
    → contains (ks ++ k ∷ []) j ≡ false
contains-snoc [] k j h e = ground arith
contains-snoc (i ∷ ks) k j h e = ground (arith, contains-snoc ks k j)

IsOnce-snoc : (ks : List Key) (k : Key) → contains ks k ≡ false → IsOnce ks → IsOnce (ks ++ k ∷ [])
IsOnce-snoc [] k h once = (refl, tt)
IsOnce-snoc (j ∷ ks) k h once =
    (contains-snoc ks k j once.0 (ground arith), IsOnce-snoc ks k (ground arith) once.1)

investigations-snoc :
    (cs : List Call) (c : Call)
    → investigations (cs ++ c ∷ []) ≡ investigations cs + (if is_investigation c.kind then 1 else 0)
unfolding investigations
investigations-snoc [] c = omega arith
investigations-snoc (d ∷ cs) c = omega (arith, investigations-snoc cs c)

investigations-update :
    (t : Key) (s : Settlement) (cs : List Call)
    → investigations (update_call t (end_call s) cs) ≡ investigations cs
unfolding investigations update_call end_call
investigations-update t s [] = refl
investigations-update t s (c ∷ cs) = ground (arith, investigations-update t s cs)

-- The four tests that precede those of time and tokens have failed when nothing is refused.
no_refusal :
    (a b c d : Bool) (e1 e2 e3 e4 : String) (rest : Option String)
    → (if a
        then some e1
        else if b
        then some e2
        else if c
        then some e3
        else if d
        then some e4
        else rest)
      ≡ none
    → (a ≡ false) × (b ≡ false) × (c ≡ false) × (d ≡ false)
no_refusal a b c d e1 e2 e3 e4 rest h = (ground arith, ground arith, ground arith, ground arith)

module _ ⦃f : SecondsArithmetic⦄ where
  record Tested (b : Budget) (r : Reservation) : Type 0 where
    new_decision :
        (is_new b.decisions r.decision_key && exceeds (length b.decisions + 1) b.policy.decisions)
        ≡ false
    attempts :
        (is_investigation r.kind && leb (get_or b.policy.model_attempts 5) (investigations b.calls))
        ≡ false
    repeated : (is_tool r.kind && is_repeated b.tools r.key) ≡ false
    new_tool : (is_tool r.kind && exceeds (length b.tools + 1) b.policy.tools) ≡ false

  refusal-Tested : (b : Budget) (r : Reservation) → refusal b r ≡ none → Tested b r
  unfolding refusal
  refusal-Tested b r free =
      let (t1, t2, t3, t4) = no_refusal _ _ _ _ _ _ _ _ _ free in
      record { new_decision = t1; attempts = t2; repeated = t3; new_tool = t4 }

add_decision-within :
    (ks : List Key) (o : Option Key) (limit : Option ℕ)
    → exceeds (length ks) limit ≡ false
    → (is_new ks o && exceeds (length ks + 1) limit) ≡ false
    → exceeds (length (add_decision o ks)) limit ≡ false
unfolding add_decision is_new
add_decision-within ks none limit h t = h
add_decision-within ks (some k) limit h t = ground (arith, length-snoc ks k)

add_tool-within :
    (ks : List Key) (kind : Kind) (o : Option Key) (limit : Option ℕ)
    → exceeds (length ks) limit ≡ false
    → (is_tool kind && exceeds (length ks + 1) limit) ≡ false
    → exceeds (length (add_tool kind o ks)) limit ≡ false
unfolding add_tool
add_tool-within ks Kind.tool (some k) limit h t = ground (arith, length-snoc ks k)
add_tool-within ks _ _ limit h t = h

add_tool-IsOnce :
    (ks : List Key) (kind : Kind) (o : Option Key)
    → (is_tool kind && is_repeated ks o) ≡ false
    → IsOnce ks
    → IsOnce (add_tool kind o ks)
unfolding add_tool is_repeated
add_tool-IsOnce ks Kind.tool (some k) t once = IsOnce-snoc ks k t once
add_tool-IsOnce ks _ _ t once = once

module _ ⦃f : SecondsArithmetic⦄ where
  new_call-kind : (ticket : Key) (r : Reservation) → (new_call ticket r).kind ≡ r.kind
  unfolding new_call
  new_call-kind ticket r = refl

  admit-IsWithin :
      (b : Budget) (r : Reservation) (ticket : Key)
      → refusal b r ≡ none
      → IsWithin b
      → IsWithin (admit b r ticket)
  unfolding admit
  admit-IsWithin b r ticket free v =
      let t = refusal-Tested b r free in
      record {
        decisions_within =
            add_decision-within b.decisions r.decision_key b.policy.decisions v.decisions_within
              t.new_decision;
        attempts_within = ground (
          arith,
          t.attempts,
          v.attempts_within,
          investigations-snoc b.calls (new_call ticket r),
          new_call-kind ticket r,
        );
        tools_within =
            add_tool-within b.tools r.kind r.key b.policy.tools v.tools_within t.new_tool;
        tools_once = add_tool-IsOnce b.tools r.kind r.key t.repeated v.tools_once;
      }

  settled-IsWithin :
      (b : Budget) (ticket : Key) (s : Settlement) (c : Call)
      → IsWithin b
      → IsWithin (settled b ticket s c)
  unfolding settled
  settled-IsWithin b ticket s c v = record {
    decisions_within = v.decisions_within;
    attempts_within = rw investigations-update v.attempts_within;
    tools_within = v.tools_within;
    tools_once = v.tools_once;
  }

  decision-IsWithin : (b : Budget) (key : Key) → IsWithin b → IsWithin (decision b key).1
  unfolding decision
  decision-IsWithin b key v = record {
    decisions_within = ground (arith, v.decisions_within, length-snoc b.decisions key);
    attempts_within = ground (arith, v.attempts_within);
    tools_within = ground (arith, v.tools_within);
    tools_once = ground (arith, v.tools_once);
  }

  before_write-IsWithin :
      (b : Budget) (required : Seconds) → IsWithin b → IsWithin (before_write b required).1
  unfolding before_write
  before_write-IsWithin b required v = ground arith

  start_activity-IsWithin :
      (b : Budget) (ticket : Key) → IsWithin b → IsWithin (start_activity b ticket)
  unfolding start_activity
  start_activity-IsWithin b ticket v = record {
    decisions_within = v.decisions_within;
    attempts_within = rw investigations-snoc (omega (arith, v.attempts_within));
    tools_within = v.tools_within;
    tools_once = v.tools_once;
  }

  -- No call of the budget, whether it returns or raises, breaks a limit that held.
  pub act-IsWithin : (b : Budget) (a : Action) → IsWithin b → IsWithin (act b a)
  unfolding act deny
  act-IsWithin b (reserves r ticket) v =
      reserve_cases IsWithin b r ticket v
        (λ error. record {
          decisions_within = v.decisions_within;
          attempts_within = v.attempts_within;
          tools_within = v.tools_within;
          tools_once = v.tools_once;
        })
        (λ fresh e. admit-IsWithin b r ticket e v)
  act-IsWithin b (settles ticket s) v =
      settle_cases IsWithin b ticket s v (λ c found started. settled-IsWithin b ticket s c v)
  act-IsWithin b (denies reason) v = record {
    decisions_within = v.decisions_within;
    attempts_within = v.attempts_within;
    tools_within = v.tools_within;
    tools_once = v.tools_once;
  }
  act-IsWithin b (decides key) v = decision-IsWithin b key v
  act-IsWithin b (checks_write required) v = before_write-IsWithin b required v
  act-IsWithin b (starts_activity ticket) v = start_activity-IsWithin b ticket v
  act-IsWithin b (refers values) v =
      references_cases IsWithin b v
        (λ m. record {
          decisions_within = v.decisions_within;
          attempts_within = v.attempts_within;
          tools_within = v.tools_within;
          tools_once = v.tools_once;
        })
        values

  act_all-IsWithin : (b : Budget) (as' : List Action) → IsWithin b → IsWithin (act_all b as')
  unfolding act_all
  act_all-IsWithin b [] v = v
  act_all-IsWithin b (a ∷ as') v = act_all-IsWithin (act b a) as' (act-IsWithin b a v)

  act-policy : (b : Budget) (a : Action) → (act b a).policy ≡ b.policy
  unfolding act deny decision before_write start_activity settled admit
  act-policy b (reserves r ticket) =
      reserve_cases (λ x. x.policy ≡ b.policy) b r ticket refl (λ error. refl) (λ fresh e. refl)
  act-policy b (settles ticket s) =
      settle_cases (λ x. x.policy ≡ b.policy) b ticket s refl (λ c found started. refl)
  act-policy b (denies reason) = refl
  act-policy b (decides key) = ground arith
  act-policy b (checks_write required) = ground arith
  act-policy b (starts_activity ticket) = refl
  act-policy b (refers values) =
      references_cases (λ x. x.policy ≡ b.policy) b refl (λ m. refl) values

  act_all-policy : (b : Budget) (as' : List Action) → (act_all b as').policy ≡ b.policy
  unfolding act_all
  act_all-policy b [] = refl
  act_all-policy b (a ∷ as') = act_all-policy (act b a) as' ∙ act-policy b a

  -- Whatever is called on a run's budget under the policy of the source, and whatever raises, the run
  -- makes at most 5 decisions and 6 model calls of the investigation, and collects no tool evidence
  -- twice.
  pub run_limits :
      (as' : List Action)
      → (length (act_all (initial count_only) as').decisions ≤ 5)
        × (investigations (act_all (initial count_only) as').calls ≤ 6)
        × IsOnce (act_all (initial count_only) as').tools
  unfolding investigations
  run_limits as' =
      let start : IsWithin (initial count_only) = ground arith in
      let v = act_all-IsWithin (initial count_only) as' start in
      let policy = act_all-policy (initial count_only) as' in
      (
        ground (arith, v.decisions_within, policy),
        ground (arith, v.attempts_within, policy),
        v.tools_once,
      )
