-- ===== src/Simulate/Packing/Counts.antt =====
-- `Place` accounts for every pod (internal/simulate/packing.go).
use marstack_govern.Prelude.{
  ◌+◌, ◌≡◌, List, [], ◌∷◌, length, arith, inl, inr, subst, Option-cases, stable_sort,
  length-stable_sort, length-append,
}
use marstack_govern.Simulate.Packing.BestFit.{IsBestFit, best_fit-IsBestFit}
use marstack_govern.Simulate.Packing.{
  Node, Pod, best_fit, Progress, put, place_all, start, place, larger,
}

-- Each pod is placed or reported.
put-counts :
    (pod : Pod) (p : Progress)
    → let q = put pod p (best_fit p.remaining pod) in
      q.placed + length q.unplaced ≡ p.placed + length p.unplaced + 1
unfolding put
put-counts pod p =
    let answer = best_fit-IsBestFit p.remaining pod in
    elim (Option-cases (best_fit p.remaining pod)) [
      | inl none_fits ↦ rw (none_fits, put) (omega (arith, length-append p.unplaced (pod ∷ [])))
      | inr (i, at) ↦
          let (node, here, _, _) = subst (IsBestFit p.remaining pod) at answer in
          rw (at, put, here) (omega arith)
    ]

place_all-counts :
    (p : Progress) (pods : List Pod)
    → let q = place_all p pods in
      q.placed + length q.unplaced ≡ p.placed + length p.unplaced + length pods
unfolding place_all
place_all-counts p [] = omega arith
place_all-counts p (pod ∷ pods) =
    omega (arith, put-counts pod p, place_all-counts (put pod p (best_fit p.remaining pod)) pods)

-- `Place` accounts for every pod: those placed and those it reports as unplaced are as many as the
-- pods given.
pub place_counts :
    (nodes : List Node) (pods : List Pod)
    → (place nodes pods).placed + length (place nodes pods).unplaced ≡ length pods
unfolding place
place_counts nodes pods = omega (
  arith,
  place_all-counts (start nodes) (stable_sort larger pods),
  length-stable_sort larger pods,
)
