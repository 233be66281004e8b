-- ===== src/Budget/Replies.antt =====
-- What backend/app/runtime/budget.py answers to a request that is repeated and to a call that ends twice.
use k8s_incident_agent.Prelude.{
  not, ◌&&◌, false, is_some, ◌≡◌, refl, sym, ◌∙◌, ap, true, Option, some, List, [], ◌∷◌, arith,
  Bool-cases, inl, inr, ◌==◌, if◌then◌else◌,
}
use k8s_incident_agent.Outcome.{ok, raised, value_error}
use k8s_incident_agent.Database.{Key}
use k8s_incident_agent.Budget.{
  SecondsArithmetic, measured, Ending, CallStatus, started_or_interrupted, ended, settle,
  settle_found, settle_call, reserve, reserve_for, replay, same_fingerprint, is_tool, Budget, Call,
  Reservation, Settlement, find_call, requested, settled, end_call, update_call,
}

-- The request has its ticket, and the ticket's call has the request's fingerprint.
pub record Remembers (id ticket : Key) (fingerprint : Option Key) (b : Budget) : Type 0 where
  pub request_known : requested b (some id) ≡ some ticket
  pub call : Call
  pub call_known : find_call ticket b.calls ≡ some call
  pub unchanged : call.fingerprint ≡ fingerprint

end_call-ticket : (s : Settlement) (c : Call) → (end_call s c).ticket ≡ c.ticket
unfolding end_call
end_call-ticket s c = refl

find_call-ticket :
    (t : Key) (cs : List Call) (c : Call) → find_call t cs ≡ some c → (c.ticket == t) ≡ true
find_call-ticket t [] c h = ground arith
find_call-ticket t (x ∷ cs) c h = ground (arith, find_call-ticket t cs c)

-- Ending a call leaves the others, and its own ticket finds the call that ended.
find_call-update :
    (t j : Key) (s : Settlement) (cs : List Call) (c : Call)
    → find_call t cs ≡ some c
    → find_call t (update_call j (end_call s) cs) ≡ some (if c.ticket == j then end_call s c else c)
unfolding update_call
find_call-update t j s [] c h = ground arith
find_call-update t j s (x ∷ cs) c h = elim (Bool-cases (x.ticket == j)) [
  | inl same ↦ ground (arith, h, same, find_call-ticket t (x ∷ cs) c h, end_call-ticket s x)
  | inr apart ↦
      rw apart (ground (arith, h, apart, find_call-update t j s cs c, end_call-ticket s x))
]

module _ ⦃f : SecondsArithmetic⦄ where
  reserve_good :
      (b : Budget) (r : Reservation) (ticket : Key)
      → (is_tool r.kind && not (is_some r.key)) ≡ false
      → reserve b r ticket ≡ reserve_for b r ticket (requested b r.request_id)
  unfolding reserve
  reserve_good b r ticket good = rw good refl

  -- What a remembered request is answered.
  answered :
      (b : Budget) (id ticket : Key) (fingerprint : Option Key) (again : Reservation) (other : Key)
      → Remembers id ticket fingerprint b
      → again.request_id ≡ some id
      → (is_tool again.kind && not (is_some again.key)) ≡ false
      → reserve b again other ≡ (
        if same_fingerprint fingerprint again.fingerprint
            then ok (ticket, false)
            else raised (value_error "REQUEST_INPUT_CHANGED"),
        b,
      )
  unfolding reserve_for replay
  answered b id ticket fingerprint again other v e good =
      reserve_good b again other good
      ∙ ap (reserve_for b again other) (ap (requested b) e ∙ v.request_known)
      ∙ ap (λ o. (replay b again.fingerprint ticket o, b)) v.call_known
      ∙ ap
          (λ f. (
            if same_fingerprint f again.fingerprint
                then ok (ticket, false)
                else raised (value_error "REQUEST_INPUT_CHANGED"),
            b,
          ))
          v.unchanged

  settled-status :
      (b : Budget) (ticket : Key) (s : Settlement) (c : Call)
      → find_call ticket b.calls ≡ some c
      → find_call ticket (settled b ticket s c).calls ≡ some (end_call (measured s) c)
  unfolding settled
  settled-status b ticket s c h =
      find_call-update ticket ticket (measured s) b.calls c h
      ∙ ap (λ t. some (if t then end_call (measured s) c else c))
          (find_call-ticket ticket b.calls c h)

  settle_ended :
      (b : Budget) (ticket : Key) (s : Settlement) (c : Call) (e : Ending)
      → find_call ticket b.calls ≡ some c
      → c.status ≡ ended e
      → settle b ticket s ≡ (ok tt, b)
  unfolding settle settle_found settle_call
  settle_ended b ticket s c e found status =
      ap (settle_found b ticket s) found ∙ ap (λ x. (ok tt, settle_call b ticket s x c)) status

  settle_again :
      (b : Budget) (ticket : Key) (s again : Settlement) (c : Call) (status : CallStatus)
      → find_call ticket b.calls ≡ some c
      → c.status ≡ status
      → settle (settle_call b ticket s status c) ticket again
        ≡ (ok tt, settle_call b ticket s status c)
  unfolding settle_call end_call measured
  settle_again b ticket s again c started_or_interrupted found e =
      settle_ended (settled b ticket s c) ticket again (end_call (measured s) c) s.ending
        (settled-status b ticket s c found) refl
  settle_again b ticket s again c (ended ending) found e =
      settle_ended b ticket again c ending found e

  -- A call is settled once: after a settlement of a call of the payload, another settlement of it, with
  -- whatever it reports, returns and changes nothing.
  pub settle_once :
      (b : Budget) (ticket : Key) (s again : Settlement) (c : Call)
      → find_call ticket b.calls ≡ some c
      → settle (settle b ticket s).1 ticket again ≡ (ok tt, (settle b ticket s).1)
  unfolding settle settle_found
  settle_once b ticket s again c found =
      let after = ap (λ o. (settle_found b ticket s o).1) found in
      ap (λ x. settle x ticket again) after
      ∙ settle_again b ticket s again c c.status found refl
      ∙ ap (λ x. (ok tt, x)) (sym after)
