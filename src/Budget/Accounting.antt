-- ===== src/Budget/Accounting.antt =====
-- The tokens that backend/app/runtime/budget.py counts are those of its calls.
use k8s_incident_agent.Prelude.{refl, ℕ, ◌+◌, ◌≤◌, ◌≡◌, some, List, [], ◌∷◌, ◌++◌, arith}
use k8s_incident_agent.Database.{Key}
use k8s_incident_agent.Budget.Cases.{reserve_cases, settle_cases, references_cases}
use k8s_incident_agent.Budget.{
  SecondsArithmetic, Seconds, measured, Policy, Budget, Call, CallStatus, Reservation, Settlement,
  Action, started_or_interrupted, ended, initial, find_call, update_call, end_call, admit, new_call,
  settled, deny, decision, before_write, start_activity, act, act_all, reserves, settles, denies,
  decides, checks_write, starts_activity, refers,
}

-- The tokens that a call is charged: its reservation until it ends, and then what it used.
abbrev pub tokens_by : CallStatus → Call → ℕ
tokens_by started_or_interrupted c = c.reserved_tokens
tokens_by (ended e) c = c.charged_tokens

abbrev pub charged : Call → ℕ
charged c = tokens_by c.status c

pub total : (Call → ℕ) → List Call → ℕ
total w [] = 0
total w (c ∷ cs) = w c + total w cs

-- The tokens of the payload are the charges of its calls.
abbrev pub IsCharged : Budget → Type 0
IsCharged b = b.tokens ≡ total charged b.calls

total-append :
    (w : Call → ℕ) (cs : List Call) (c : Call) → total w (cs ++ c ∷ []) ≡ total w cs + w c
unfolding total
total-append w [] c = omega arith
total-append w (d ∷ cs) c = omega (arith, total-append w cs c)

total-update_call :
    (w : Call → ℕ) (t : Key) (f : Call → Call) (cs : List Call) (c : Call)
    → find_call t cs ≡ some c
    → total w (update_call t f cs) + w c ≡ total w cs + w (f c)
unfolding total update_call
total-update_call w t f [] c e = cc
total-update_call w t f (d ∷ cs) c e = ground (arith, total-update_call w t f cs c)

total-le :
    (w : Call → ℕ) (t : Key) (cs : List Call) (c : Call)
    → find_call t cs ≡ some c
    → w c ≤ total w cs
unfolding total
total-le w t [] c e = cc
total-le w t (d ∷ cs) c e = ground (arith, total-le w t cs c)

module _ ⦃f : SecondsArithmetic⦄ where
  admit-IsCharged :
      (b : Budget) (r : Reservation) (ticket : Key) → IsCharged b → IsCharged (admit b r ticket)
  unfolding admit
  admit-IsCharged b r ticket v = omega (arith, v, total-append charged b.calls (new_call ticket r))

  settled-IsCharged :
      (b : Budget) (ticket : Key) (s : Settlement) (c : Call)
      → find_call ticket b.calls ≡ some c
      → c.status ≡ started_or_interrupted
      → IsCharged b
      → IsCharged (settled b ticket s c)
  unfolding settled end_call measured
  settled-IsCharged b ticket s c found started v = ground (
    arith,
    v,
    total-update_call charged ticket (end_call (measured s)) b.calls c,
    total-le charged ticket b.calls c,
  )

  start_activity-IsCharged :
      (b : Budget) (ticket : Key) → IsCharged b → IsCharged (start_activity b ticket)
  unfolding start_activity
  start_activity-IsCharged b ticket v = omega (arith, v, total-append charged b.calls)

  decision-IsCharged : (b : Budget) (key : Key) → IsCharged b → IsCharged (decision b key).1
  unfolding decision
  decision-IsCharged b key v = ground (arith, v)

  before_write-IsCharged :
      (b : Budget) (required : Seconds) → IsCharged b → IsCharged (before_write b required).1
  unfolding before_write
  before_write-IsCharged b required v = ground (arith, v)

  -- No call of the budget, whether it returns or raises, makes the tokens differ from the charges.
  pub act-IsCharged : (b : Budget) (a : Action) → IsCharged b → IsCharged (act b a)
  unfolding act deny
  act-IsCharged b (reserves r ticket) v =
      reserve_cases IsCharged b r ticket v (λ error. v) (λ fresh e. admit-IsCharged b r ticket v)
  act-IsCharged b (settles ticket s) v =
      settle_cases IsCharged b ticket s v
        (λ c found started. settled-IsCharged b ticket s c found started v)
  act-IsCharged b (denies reason) v = v
  act-IsCharged b (decides key) v = decision-IsCharged b key v
  act-IsCharged b (checks_write required) v = before_write-IsCharged b required v
  act-IsCharged b (starts_activity ticket) v = start_activity-IsCharged b ticket v
  act-IsCharged b (refers values) v = references_cases IsCharged b v (λ m. v) values

  act_all-IsCharged : (b : Budget) (as' : List Action) → IsCharged b → IsCharged (act_all b as')
  unfolding act_all
  act_all-IsCharged b [] v = v
  act_all-IsCharged b (a ∷ as') v = act_all-IsCharged (act b a) as' (act-IsCharged b a v)

  -- After any calls of a new budget, whether they return or raise, its tokens are the sum over the
  -- calls of what each has used, or has reserved while it has not ended or has not told its use.
  pub tokens_exact :
      (policy : Policy) (as' : List Action) → IsCharged (act_all (initial policy) as')
  unfolding total
  tokens_exact policy as' = act_all-IsCharged (initial policy) as' refl
