-- ===== src/Requests/Review/Shown.antt =====
-- Each condition of a request shows its piece of evidence (internal/requests/controller.go).
use marstack_govern.Prelude.{
  ℕ, String, str_eq, Bool, true, false, Bool-cases, List, Option, none, some, Option-cases, Result,
  ok, err, ◌≡◌, refl, ◌∙◌, inl, inr,
}
use marstack_govern.Kube.{ConditionStatus, condition_true, condition_false, Cluster}
use marstack_govern.Requests.Preflight.{Division, PreflightResult}
use marstack_govern.Simulate.Impact.{Impact}
use marstack_govern.Requests.Decision.{Condition, Request, status_text}
use marstack_govern.Requests.Review.{
  Home, Sources, Collected, ApiRecommendation, Simulation, mark, recommend, recommend_as, judge_as,
  preflight, simulate_as, simulate_against, simulate, to_api_simulation, Recommended, recommended,
  no_usage, no_source, other_error,
}
use marstack_govern.Requests.Review.Conditions.{status_of, status_of-set, status_of-other}

abbrev pub shown : Bool → Option String
shown true = some "True"
shown false = some "False"

-- What each condition says of its piece of evidence.
abbrev pub is_recommended : Option ApiRecommendation → Bool
is_recommended none = false
is_recommended (some r) = true

abbrev pub is_admitted : Option PreflightResult → Bool
is_admitted none = false
is_admitted (some p) = p.admitted

abbrev pub is_schedulable : Option Simulation → Bool
is_schedulable none = false
is_schedulable (some s) = s.schedulable

module _ {F : Type 0} (src : Sources F) where
  status_of-mark :
      {A : Type 0} (i : ℕ) (k : String) (s : ConditionStatus) (reason message : String)
      (piece : Option A) (cs : List Condition)
      → status_of k (mark src i k s reason message piece cs).conditions ≡ some (status_text s)
  unfolding mark
  status_of-mark i k s reason message piece cs = status_of-set (src.clock i) k s reason message cs

  -- Only the condition of type `k` differs between the two lists.
  abbrev pub Changes : String → List Condition → List Condition → Type 0
  Changes k cs ds = (j : String) → str_eq k j ≡ false → status_of j ds ≡ status_of j cs

  mark-Changes :
      {A : Type 0} (i : ℕ) (k : String) (s : ConditionStatus) (reason message : String)
      (piece : Option A) (cs : List Condition)
      → Changes k cs (mark src i k s reason message piece cs).conditions
  unfolding mark
  mark-Changes i k s reason message piece cs j d =
      status_of-other (src.clock i) k j s reason message cs d

  -- A piece of evidence whose condition, of type `k`, shows what `test` says of it.
  abbrev pub Shows :
      {A : Type 0} → (Option A → Bool) → String → List Condition → Collected A → Type 0
  Shows test k cs c = (status_of k c.conditions ≡ shown (test c.piece)) × Changes k cs c.conditions

  mark-Shows :
      {A : Type 0} (test : Option A → Bool) (i : ℕ) (k : String) (s : ConditionStatus)
      (reason message : String) (piece : Option A) (cs : List Condition)
      → some (status_text s) ≡ shown (test piece)
      → Shows test k cs (mark src i k s reason message piece cs)
  unfolding mark
  mark-Shows test i k s reason message piece cs same = (
    status_of-mark i k s reason message piece cs ∙ same,
    mark-Changes i k s reason message piece cs,
  )

  recommend_as-Shows :
      (home : Home) (cs : List Condition) (a : Recommended)
      → Shows is_recommended "Recommended" cs (recommend_as src home cs a)
  unfolding recommend_as status_text
  recommend_as-Shows home cs (recommended r) =
      mark-Shows is_recommended 0 _ _ _ _ (some (record { current = home.quota; given = r })) cs
        refl
  recommend_as-Shows home cs (no_usage e) = mark-Shows is_recommended 0 _ _ _ _ none cs refl
  recommend_as-Shows home cs (no_source e) = mark-Shows is_recommended 0 _ _ _ _ none cs refl
  recommend_as-Shows home cs (other_error e) = mark-Shows is_recommended 0 _ _ _ _ none cs refl

  pub recommend-Shows :
      (home : Home) (cs : List Condition)
      → Shows is_recommended "Recommended" cs (recommend src home cs)
  unfolding recommend status_text
  recommend-Shows home cs = elim (Option-cases src.recommender) [
    | inl e ↦ rw (recommend, e) (mark-Shows is_recommended 0 _ _ _ _ none cs refl)
    | inr (ask, e) ↦ rw (recommend, e) (recommend_as-Shows home cs (ask home.namespaces home.quota))
  ]

  judge_as-Shows :
      (cs : List Condition) (a : Result PreflightResult)
      → Shows is_admitted "Preflight" cs (judge_as src cs a)
  unfolding judge_as status_text
  judge_as-Shows cs (err e) = mark-Shows is_admitted 1 _ _ _ _ none cs refl
  judge_as-Shows cs (ok p) = elim (Bool-cases p.admitted) [
    | inl a ↦
        rw (judge_as, a)
          (
            status_of-mark 1 "Preflight" condition_true _ _ (some p) cs,
            mark-Changes 1 "Preflight" condition_true _ _ (some p) cs,
          )
    | inr a ↦
        rw (judge_as, a)
          (
            status_of-mark 1 "Preflight" condition_false _ _ (some p) cs,
            mark-Changes 1 "Preflight" condition_false _ _ (some p) cs,
          )
  ]

  pub preflight-Shows :
      (r : Request) (cs : List Condition) → Shows is_admitted "Preflight" cs (preflight src r cs)
  unfolding preflight status_text
  preflight-Shows r cs = elim (Option-cases src.nodes) [
    | inl e ↦ rw (preflight, e) (mark-Shows is_admitted 1 _ _ _ _ none cs refl)
    | inr (nodes, e) ↦ rw (preflight, e) (judge_as-Shows cs _)
  ]

  simulate_as-Shows :
      (cs : List Condition) (a : Result (Impact F))
      → Shows is_schedulable "Simulated" cs (simulate_as src cs a)
  unfolding simulate_as to_api_simulation status_text
  simulate_as-Shows cs (err e) = mark-Shows is_schedulable 2 _ _ _ _ none cs refl
  simulate_as-Shows cs (ok i) = elim (Bool-cases i.schedulable) [
    | inl a ↦
        rw (simulate_as, a)
          (
            status_of-mark 2 "Simulated" condition_true _ _ (some (to_api_simulation src i)) cs,
            mark-Changes 2 "Simulated" condition_true _ _ (some (to_api_simulation src i)) cs,
          )
    | inr a ↦
        rw (simulate_as, a)
          (
            status_of-mark 2 "Simulated" condition_false _ _ (some (to_api_simulation src i)) cs,
            mark-Changes 2 "Simulated" condition_false _ _ (some (to_api_simulation src i)) cs,
          )
  ]

  simulate_against-Shows :
      (cluster : Cluster) (r : Request) (home : Home) (cs : List Condition)
      (ds : Result (List Division))
      → Shows is_schedulable "Simulated" cs (simulate_against src cluster r home cs ds)
  unfolding simulate_against status_text
  simulate_against-Shows cluster r home cs (err e) =
      mark-Shows is_schedulable 2 _ _ _ _ none cs refl
  simulate_against-Shows cluster r home cs (ok ds) = simulate_as-Shows cs _

  pub simulate-Shows :
      (r : Request) (home : Home) (cs : List Condition)
      → Shows is_schedulable "Simulated" cs (simulate src r home cs)
  unfolding simulate status_text
  simulate-Shows r home cs = elim (Option-cases src.cluster) [
    | inl e ↦ rw (simulate, e) (mark-Shows is_schedulable 2 _ _ _ _ none cs refl)
    | inr (cluster, e) ↦ rw (simulate, e) (simulate_against-Shows cluster r home cs src.divisions)
  ]
