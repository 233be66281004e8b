-- ===== src/Lease/Selection.antt =====
-- Which row `claim` takes: ORDER BY created_at,run_id LIMIT 1.
use k8s_incident_agent.Prelude.{
  ◌≡◌, ◌≢◌, some, true, false, List, [], ◌∷◌, arith, Bool, All, All-imp, refl, if◌then◌else◌,
  Option, none,
}
use k8s_incident_agent.Database.{Key, Run, find_run}
use k8s_incident_agent.Lease.{select_first, is_before, earlier}
use k8s_incident_agent.Lease.Follows.{IsKeyed, run_ids}

-- A row that is found by its id is not one that the ids exclude.
ne_of_found :
    (k : Key) (r : Run) (rs : List Run) → find_run k rs ≡ some r → All (λ j. j ≢ k) (run_ids rs) → ⊥
unfolding find_run
ne_of_found k r [] e h = cc
ne_of_found k r (s ∷ rs) e h = ground (arith, ne_of_found k r rs)

pub found_id : (k : Key) (r : Run) (rs : List Run) → find_run k rs ≡ some r → r.run_id ≡ k
unfolding find_run
found_id k r [] e = cc
found_id k r (s ∷ rs) e = ground (arith, found_id k r rs)

pub select_first-passes :
    (p : Run → Bool) (rs : List Run) (r : Run) → select_first p rs ≡ some r → p r ≡ true
unfolding select_first
select_first-passes p [] r h = cc
select_first-passes p (s ∷ rs) r h = ground (arith, select_first-passes p rs r)

pub select_first-present :
    (p : Run → Bool) (rs : List Run) (r : Run)
    → IsKeyed rs
    → select_first p rs ≡ some r
    → find_run r.run_id rs ≡ some r
unfolding select_first find_run
select_first-present p [] r keyed h = cc
select_first-present p (s ∷ rs) r keyed h =
    ground (arith, select_first-present p rs r, ne_of_found r.run_id r rs)

pub select_first-none :
    (p : Run → Bool) (rs : List Run) → select_first p rs ≡ none → All (λ s. p s ≡ false) rs
unfolding select_first
select_first-none p [] h = tt
select_first-none p (s ∷ rs) h = (ground arith, select_first-none p rs (ground arith))

is_before_irrefl : (r : Run) → is_before r r ≡ false
unfolding is_before
is_before_irrefl r = ground arith

is_before_asym : (r s : Run) → is_before r s ≡ true → is_before s r ≡ false
unfolding is_before
is_before_asym r s h = ground arith

-- The order of the query is total.
not-before_trans :
    (r s t : Run) → is_before r s ≡ false → is_before s t ≡ false → is_before r t ≡ false
unfolding is_before
not-before_trans r s t h k = ground arith

-- A row is least among those that pass.
abbrev pub IsLeast : (Run → Bool) → List Run → Run → Type 0
IsLeast p rs r = All (λ s. p s ≡ true → is_before s r ≡ false) rs

IsLeast-none :
    (p : Run → Bool) (rs : List Run) (r : Run) → All (λ s. p s ≡ false) rs → IsLeast p rs r
IsLeast-none p rs r h =
    All-imp (λ s. p s ≡ false) (λ s. p s ≡ true → is_before s r ≡ false) (λ s no k. cc) rs h

IsLeast-trans :
    (p : Run → Bool) (rs : List Run) (t r : Run)
    → is_before t r ≡ false
    → IsLeast p rs t
    → IsLeast p rs r
IsLeast-trans p rs t r e h =
    All-imp (λ s. p s ≡ true → is_before s t ≡ false) (λ s. p s ≡ true → is_before s r ≡ false)
      (λ s f k. not-before_trans s t r (f k) e) rs h

earlier-IsLeast :
    (p : Run → Bool) (s : Run) (rs : List Run) (o : Option Run) (r : Run)
    → ((t : Run) → o ≡ some t → IsLeast p rs t)
    → (o ≡ none → All (λ u. p u ≡ false) rs)
    → (if p s then earlier s o else o) ≡ some r
    → IsLeast p (s ∷ rs) r
unfolding earlier
earlier-IsLeast p s rs none r some_least none_pass h =
    (λ k. ground (arith, is_before_irrefl s), IsLeast-none p rs r (none_pass refl))
earlier-IsLeast p s rs (some t) r some_least none_pass h = (
  λ k. ground (arith, is_before_irrefl s, is_before_asym s t, is_before_asym t s),
  IsLeast-trans p rs t r
      (ground (arith, is_before_irrefl t, is_before_asym t s, is_before_asym s t))
      (some_least t refl),
)

pub select_first-IsLeast :
    (p : Run → Bool) (rs : List Run) (r : Run) → select_first p rs ≡ some r → IsLeast p rs r
unfolding select_first
select_first-IsLeast p [] r h = tt
select_first-IsLeast p (s ∷ rs) r h =
    earlier-IsLeast p s rs (select_first p rs) r (select_first-IsLeast p rs)
      (select_first-none p rs) h
