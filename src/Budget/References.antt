-- ===== src/Budget/References.antt =====
-- The references that backend/app/runtime/budget.py keeps do not change.
use k8s_incident_agent.Prelude.{
  ◌≡◌, Option, none, some, List, [], ◌∷◌, ◌++◌, arith, ◌==◌, Holds, Bool-cases, inl, inr,
}
use k8s_incident_agent.Database.{Key, Doc}
use k8s_incident_agent.Budget.Cases.{reserve_cases, settle_cases}
use k8s_incident_agent.Budget.{
  SecondsArithmetic, Budget, Action, lookup, bind_reference, bind_rest, bind_references,
  save_references, references, admit, settled, deny, decision, before_write, start_activity, act,
  act_all, reserves, settles, denies, decides, checks_write, starts_activity, refers,
}

lookup-snoc :
    (k j : Key) (v w : Doc) (m : List (Key × Doc))
    → lookup k m ≡ some v
    → lookup k (m ++ (j, w) ∷ []) ≡ some v
unfolding lookup
lookup-snoc k j v w [] h = ground arith
lookup-snoc k j v w ((i, u) ∷ m) h = ground (arith, lookup-snoc k j v w m)

module _ ⦃f : SecondsArithmetic⦄ (k : Key) (v : Doc) where
  abbrev Binds : List (Key × Doc) → Type 0
  Binds m = lookup k m ≡ some v

  bind_reference-Binds :
      (o : Option Doc) (j : Key) (w : Doc) (m : List (Key × Doc))
      → Binds m
      → Holds Binds (bind_reference o j w m)
  unfolding bind_reference
  bind_reference-Binds none j w m h = lookup-snoc k j v w m h
  bind_reference-Binds (some u) j w m h = elim (Bool-cases (u == w)) [
    | inl same ↦ rw same h
    | inr other ↦ rw other tt
  ]

  bind_rest-Binds :
      (o : Option (List (Key × Doc))) (rest : List (Key × Doc) → Option (List (Key × Doc)))
      → Holds Binds o
      → ((m : List (Key × Doc)) → Binds m → Holds Binds (rest m))
      → Holds Binds (bind_rest o rest)
  unfolding bind_rest
  bind_rest-Binds none rest h f = tt
  bind_rest-Binds (some m) rest h f = f m h

  bind_references-Binds :
      (values m : List (Key × Doc)) → Binds m → Holds Binds (bind_references values m)
  unfolding bind_references
  bind_references-Binds [] m h = h
  bind_references-Binds ((j, w) ∷ values) m h =
      bind_rest-Binds (bind_reference (lookup j m) j w m) (λ n. bind_references values n)
        (bind_reference-Binds (lookup j m) j w m h) (bind_references-Binds values)

  save_references-Binds :
      (b : Budget) (o : Option (List (Key × Doc)))
      → Binds b.references
      → Holds Binds o
      → Binds (save_references b o).1.references
  unfolding save_references
  save_references-Binds b none h g = h
  save_references-Binds b (some m) h g = g

  act-Binds : (b : Budget) (a : Action) → Binds b.references → Binds (act b a).references
  unfolding act deny decision before_write start_activity settled admit references
  act-Binds b (reserves r ticket) h =
      reserve_cases (λ x. Binds x.references) b r ticket h (λ error. h) (λ fresh e. h)
  act-Binds b (settles ticket s) h =
      settle_cases (λ x. Binds x.references) b ticket s h (λ c found started. h)
  act-Binds b (denies reason) h = h
  act-Binds b (decides key) h = ground (arith, h)
  act-Binds b (checks_write required) h = ground (arith, h)
  act-Binds b (starts_activity ticket) h = h
  act-Binds b (refers values) h =
      save_references-Binds b (bind_references values b.references) h
        (bind_references-Binds values b.references h)

  -- A reference that a budget has keeps its value, whatever is called and whatever raises.
  pub reference_kept :
      (b : Budget)
      → lookup k b.references ≡ some v
      → (as' : List Action) → lookup k (act_all b as').references ≡ some v
  unfolding act_all
  reference_kept b h [] = h
  reference_kept b h (a ∷ as') = reference_kept (act b a) (act-Binds b a h) as'
