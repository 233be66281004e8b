-- ===== src/Budget/Cases.antt =====
-- The payloads that the methods of backend/app/runtime/budget.py can leave.
use k8s_incident_agent.Prelude.{
  List, ◌≡◌, refl, not, ◌&&◌, Option, none, some, String, is_some, Bool-cases, inl, inr,
}
use k8s_incident_agent.Database.{Key, Doc}
use k8s_incident_agent.Budget.{
  SecondsArithmetic, save_references, bind_references, references, Budget, Call, CallStatus,
  Reservation, Settlement, started_or_interrupted, ended, find_call, refusal, admit, reserve,
  reserve_for, settle_refusal, requested, settle, settle_found, settle_call, settled, is_tool,
}

module _ ⦃f : SecondsArithmetic⦄ where
  module _ {ℓ} (P : Budget → Type ℓ) (b : Budget) (r : Reservation) (ticket : Key) (same : P b)
      (refused : (error : String) → P (record b { exhausted = some error }))
      (admitted : requested b r.request_id ≡ none → refusal b r ≡ none → P (admit b r ticket)) where
    settle_refusal_cases :
        (o : Option String)
        → requested b r.request_id ≡ none
        → refusal b r ≡ o
        → P (settle_refusal b r ticket o).1
    unfolding settle_refusal
    settle_refusal_cases none fresh e = admitted fresh e
    settle_refusal_cases (some error) fresh e = refused error

    reserve_for_cases :
        (o : Option Key) → requested b r.request_id ≡ o → P (reserve_for b r ticket o).1
    unfolding reserve_for
    reserve_for_cases none fresh = settle_refusal_cases (refusal b r) fresh refl
    reserve_for_cases (some existing) e = same

    -- A reservation leaves the payload, notes a refusal, or is admitted.
    pub reserve_cases : P (reserve b r ticket).1
    unfolding reserve
    reserve_cases = elim (Bool-cases (is_tool r.kind && not (is_some r.key))) [
      | inl bad ↦ rw bad same
      | inr good ↦ rw good (reserve_for_cases (requested b r.request_id) refl)
    ]

  module _ {ℓ} (P : Budget → Type ℓ) (b : Budget) (ticket : Key) (s : Settlement) (same : P b)
      (ends : (c : Call)
        → find_call ticket b.calls ≡ some c
        → c.status ≡ started_or_interrupted
        → P (settled b ticket s c)) where
    settle_call_cases :
        (c : Call) (status : CallStatus)
        → find_call ticket b.calls ≡ some c
        → c.status ≡ status
        → P (settle_call b ticket s status c)
    unfolding settle_call
    settle_call_cases c started_or_interrupted found e = ends c found e
    settle_call_cases c (ended ending) found e = same

    settle_found_cases :
        (o : Option Call) → find_call ticket b.calls ≡ o → P (settle_found b ticket s o).1
    unfolding settle_found
    settle_found_cases none found = same
    settle_found_cases (some c) found = settle_call_cases c c.status found refl

    -- A settlement leaves the payload, or ends a call that had started.
    pub settle_cases : P (settle b ticket s).1
    unfolding settle
    settle_cases = settle_found_cases (find_call ticket b.calls) refl

  module _ {ℓ} (P : Budget → Type ℓ) (b : Budget) (same : P b)
      (saved : (m : List (Key × Doc)) → P (record b { references = m })) where
    save_references_cases : (o : Option (List (Key × Doc))) → P (save_references b o).1
    unfolding save_references
    save_references_cases none = same
    save_references_cases (some m) = saved m

    -- The references of the payload are all that a call of `references` changes.
    pub references_cases : (values : List (Key × Doc)) → P (references b values).1
    unfolding references
    references_cases values = save_references_cases (bind_references values b.references)
