-- ===== src/Simulate/Packing/BestFit.antt =====
-- `bestFit` finds a node with room exactly when there is one, and the least CPU left over
-- (internal/simulate/packing.go).
use marstack_govern.Prelude.{
  ℕ, suc, ◌≡◌, refl, sym, ℤ, ◌≤ℤ◌, ltb_ℤ, sub64, true, false, ◌&&◌, List, [], ◌∷◌, get_elem?,
  Option, none, some, arith, get_elem?-snoc, get_elem?-snoc_old, get_elem?-snoc_last, length-append,
  ◌++◌, inl, inr, subst, ltb→lt_ℤ, Bool-cases, Option-cases, if◌then◌else◌, length,
}
use mathlib.Core.List.{append-nil, append_assoc}
use marstack_govern.Simulate.Packing.{Node, free_cpu, Pod, fits, improves, best_from, best_fit}

-- What CPU a pod leaves free on a node.
abbrev pub slack : Pod → Node → ℤ
slack pod node = sub64 (free_cpu node) pod.cpu

-- The candidate that the loop holds is a node of the list with room, at its index, and no node
-- with room that was seen leaves less free.
abbrev IsBest : Pod → List Node → Option (ℕ × ℤ) → Type 0
IsBest pod nodes none =
    (i : ℕ) (node : Node) → get_elem? nodes i ≡ some node → fits pod node ≡ false
IsBest pod nodes (some (i, least)) =
    ((node : Node) × (get_elem? nodes i ≡ some node)
      × (fits pod node ≡ true)
      × (slack pod node ≡ least))
    × ((j : ℕ) (other : Node)
        → get_elem? nodes j ≡ some other
        → fits pod other ≡ true
        → least ≤ℤ slack pod other)

-- The candidate of the loop once `node` is seen.
abbrev step : Pod → Option (ℕ × ℤ) → ℕ → Node → Option (ℕ × ℤ)
step pod best i node =
    if fits pod node && improves best (slack pod node) then some (i, slack pod node) else best

le_of_not_less : (a b : ℤ) → ltb_ℤ a b ≡ false → b ≤ℤ a
le_of_not_less a b h = ground arith

module _ (pod : Pod) where
  keep-IsBest :
      (seen : List Node) (node : Node) (best : Option (ℕ × ℤ))
      → IsBest pod seen best
      → (fits pod node && improves best (slack pod node)) ≡ false
      → IsBest pod (seen ++ (node ∷ [])) best
  keep-IsBest seen node none best h = λ i other at. elim (get_elem?-snoc seen node i at) [
    | inl old ↦ best i other old
    | inr (_, same) ↦ subst (λ n. fits pod n ≡ false) same (unfold improves in ground arith)
  ]
  keep-IsBest seen node (some (i, least)) best h = (
    (best.0.0, get_elem?-snoc_old seen node i best.0.1, best.0.2, best.0.3),
    λ j other at room. elim (get_elem?-snoc seen node j at) [
      | inl old ↦ best.1 j other old room
      | inr (_, same) ↦
          let here : fits pod node ≡ true = subst (λ n. fits pod n ≡ true) (sym same) room in
          subst (λ n. least ≤ℤ slack pod n) same
            (le_of_not_less (slack pod node) least (unfold improves in ground arith))
    ],
  )

  take-IsBest :
      (seen : List Node) (node : Node) (best : Option (ℕ × ℤ))
      → IsBest pod seen best
      → (fits pod node && improves best (slack pod node)) ≡ true
      → IsBest pod (seen ++ (node ∷ [])) (some (length seen, slack pod node))
  take-IsBest seen node none best h = (
    (node, get_elem?-snoc_last seen node, ground arith, refl),
    λ j other at room. elim (get_elem?-snoc seen node j at) [
      | inl old ↦ absurd (let no_room = best j other old in (cc))
      | inr (_, same) ↦ subst (λ n. slack pod node ≤ℤ slack pod n) same (omega arith)
    ],
  )
  take-IsBest seen node (some (i, least)) best h = (
    (node, get_elem?-snoc_last seen node, ground arith, refl),
    λ j other at room. elim (get_elem?-snoc seen node j at) [
      | inl old ↦
          let above = best.1 j other old room in
          let below = ltb→lt_ℤ (slack pod node) least (unfold improves in ground arith) in
          omega arith
      | inr (_, same) ↦ subst (λ n. slack pod node ≤ℤ slack pod n) same (omega arith)
    ],
  )

  step-IsBest :
      (seen : List Node) (node : Node) (best : Option (ℕ × ℤ))
      → IsBest pod seen best
      → IsBest pod (seen ++ (node ∷ [])) (step pod best (length seen) node)
  step-IsBest seen node best h =
      elim (Bool-cases (fits pod node && improves best (slack pod node))) [
        | inl p ↦ rw p (take-IsBest seen node best h p)
        | inr p ↦ rw p (keep-IsBest seen node best h p)
      ]

  best_from-IsBest :
      (seen rest : List Node) (i : ℕ) (best : Option (ℕ × ℤ))
      → i ≡ length seen
      → IsBest pod seen best
      → IsBest pod (seen ++ rest) (best_from pod i best rest)
  unfolding best_from
  best_from-IsBest seen [] i best e h = rw append-nil h
  best_from-IsBest seen (node ∷ rest) i best e h =
      let next =
        best_from-IsBest (seen ++ (node ∷ [])) rest (suc i) (step pod best i node)
          (omega (arith, length-append seen (node ∷ []))) (rw e (step-IsBest seen node best h)) in
      subst (λ all. IsBest pod all (best_from pod i best (node ∷ rest)))
        (append_assoc seen (node ∷ []) rest) next

-- The answer of `bestFit`: no node has room, or the node at the index has, and leaves no more CPU
-- free than any other with room.
abbrev pub IsBestFit : List Node → Pod → Option ℕ → Type 0
IsBestFit nodes pod none =
    (i : ℕ) (node : Node) → get_elem? nodes i ≡ some node → fits pod node ≡ false
IsBestFit nodes pod (some i) =
    (node : Node) × (get_elem? nodes i ≡ some node)
    × (fits pod node ≡ true)
    × ((j : ℕ) (other : Node)
        → get_elem? nodes j ≡ some other
        → fits pod other ≡ true
        → slack pod node ≤ℤ slack pod other)

-- `bestFit` answers -1 exactly when no node has room for the pod, and otherwise the index of a node
-- that has, such that no other node with room would be left with less free CPU.
pub best_fit-IsBestFit : (nodes : List Node) (pod : Pod) → IsBestFit nodes pod (best_fit nodes pod)
unfolding best_fit
best_fit-IsBestFit nodes pod =
    let found = best_from-IsBest pod [] nodes 0 none refl (λ i node at. cc) in
    elim (Option-cases (best_from pod 0 none nodes)) [
      | inl p ↦ rw (p, best_fit) (subst (IsBest pod nodes) p found)
      | inr (r, p) ↦
          let best = subst (IsBest pod nodes) p found in
          rw (p, best_fit)
            (
              best.0.0,
              best.0.1,
              best.0.2,
              λ j other at room.
                  subst (λ s. s ≤ℤ slack pod other) (sym best.0.3) (best.1 j other at room),
            )
    ]
