-- ===== src/Requests/Review/Conditions.antt =====
-- The status of the first condition of a type, under `setCondition` and in the comparison of
-- `equalRequestStatus` (internal/requests/controller.go).
use marstack_govern.Prelude.{
  ℤ, String, str_eq, str_eq_iff, true, false, Bool-cases, List, [], ◌∷◌, Option, none, some, ◌≡◌,
  refl, inl, inr, arith, if◌then◌else◌,
}
use marstack_govern.Kube.{ConditionStatus}
use marstack_govern.Requests.Decision.{Condition, status_text, set_condition}
use marstack_govern.Requests.Review.Reconcile.{same_condition, same_conditions}

-- The text of the status that the first condition of a type has.
unfoldable pub status_of : String → List Condition → Option String
unfolding status_text
status_of k [] = none
status_of k (c ∷ cs) =
    let rest = status_of k cs in if str_eq c.kind k then some (status_text c.status) else rest

pub status_of-set :
    (now : ℤ) (k : String) (s : ConditionStatus) (reason message : String) (cs : List Condition)
    → status_of k (set_condition now k s reason message cs) ≡ some (status_text s)
unfolding status_of set_condition
status_of-set now k s reason message [] = rw ((str_eq_iff k k).1 refl, status_of) refl
status_of-set now k s reason message (c ∷ cs) = elim (Bool-cases (str_eq c.kind k)) [
  | inr e ↦ ground (arith, e, status_of-set now k s reason message cs)
  | inl e ↦ ground (arith, e, str_eq_iff (status_text c.status) (status_text s), str_eq_iff k k)
]

pub status_of-other :
    (now : ℤ) (k j : String) (s : ConditionStatus) (reason message : String) (cs : List Condition)
    → str_eq k j ≡ false
    → status_of j (set_condition now k s reason message cs) ≡ status_of j cs
unfolding status_of set_condition
status_of-other now k j s reason message [] d = rw (status_of, d) refl
status_of-other now k j s reason message (c ∷ cs) d = ground (
  arith,
  d,
  str_eq_iff c.kind k,
  str_eq_iff c.kind j,
  str_eq_iff k j,
  str_eq_iff (status_text c.status) (status_text s),
  status_of-other now k j s reason message cs d,
)

pub status_of-same :
    (k : String) (cs ds : List Condition)
    → same_conditions cs ds ≡ true
    → status_of k cs ≡ status_of k ds
unfolding status_of same_conditions same_condition
status_of-same k [] [] h = refl
status_of-same k [] (d ∷ ds) h = cc
status_of-same k (c ∷ cs) [] h = cc
status_of-same k (c ∷ cs) (d ∷ ds) h = ground (
  arith,
  h,
  str_eq_iff c.kind d.kind,
  str_eq_iff (status_text c.status) (status_text d.status),
  str_eq_iff c.kind k,
  str_eq_iff d.kind k,
  status_of-same k cs ds,
)
