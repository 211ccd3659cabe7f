-- ===== src/Topology/Reachability/Policies.antt =====
-- What the policies of a namespace admit (internal/topology/reachability.go, `allows`).
use marstack_govern.Prelude.{
  ◌≡◌, refl, sym, ap, ◌∙◌, ◌↔◌, ◌⊎◌, inl, inr, String, str_eq, Bool, true, false, ◌&&◌, List, [],
  ◌∷◌, All, Result, arith, Bool-cases,
}
use marstack_govern.Topology.Reachability.{
  NetworkPolicy, Labels, guards, any_rule, allows_from, allows, labels_of,
}

module _ {S : Type 0} where
  -- The policy stands in the namespace and restricts what comes in.
  abbrev pub isolates : String → NetworkPolicy S → Bool
  isolates target p = str_eq p.namespace target && guards p

module _ {S : Type 0} (selector_of : S → Result (Labels → Bool)) where
  -- Some policy isolates the namespace and admits the source.
  pub data Admits (labels : Labels) (target : String) (by : String)
      : List (NetworkPolicy S) → Type 0 where
    here :
        {p : NetworkPolicy S} {ps : List (NetworkPolicy S)}
        → isolates target p ≡ true
        → any_rule selector_of labels p.ingress ≡ true
        → p.name ≡ by
        → Admits labels target by (p ∷ ps)
    there :
        {p : NetworkPolicy S} {ps : List (NetworkPolicy S)}
        → Admits labels target by ps
        → Admits labels target by (p ∷ ps)

  abbrev pub IsOpen : String → List (NetworkPolicy S) → Type 0
  IsOpen target = All (λ p. isolates target p ≡ false)

  skips :
      (labels : Labels) (target : String) (guarded : Bool) (p : NetworkPolicy S)
      (ps : List (NetworkPolicy S))
      → isolates target p ≡ false
      → allows_from selector_of labels target guarded (p ∷ ps)
        ≡ allows_from selector_of labels target guarded ps
  unfolding allows_from
  skips labels target guarded p ps e = ground (arith, e)

  admits :
      (labels : Labels) (target : String) (guarded : Bool) (p : NetworkPolicy S)
      (ps : List (NetworkPolicy S))
      → isolates target p ≡ true
      → any_rule selector_of labels p.ingress ≡ true
      → allows_from selector_of labels target guarded (p ∷ ps) ≡ (true, p.name)
  unfolding allows_from
  admits labels target guarded p ps e r = ground (arith, e, r)

  refuses :
      (labels : Labels) (target : String) (guarded : Bool) (p : NetworkPolicy S)
      (ps : List (NetworkPolicy S))
      → isolates target p ≡ true
      → any_rule selector_of labels p.ingress ≡ false
      → allows_from selector_of labels target guarded (p ∷ ps)
        ≡ allows_from selector_of labels target true ps
  unfolding allows_from
  refuses labels target guarded p ps e r = ground (arith, e, r)

  -- Why the loop allows the source: it meets no policy that isolates, or one that admits it.
  abbrev Reason : Labels → String → Bool → List (NetworkPolicy S) → Type 0
  Reason labels target guarded ps =
      ((guarded ≡ false) × IsOpen target ps) ⊎ ((by : String) × Admits labels target by ps)

  allows_from-Reason :
      (labels : Labels) (target : String) (guarded : Bool) (ps : List (NetworkPolicy S))
      → (allows_from selector_of labels target guarded ps).0 ≡ true
      → Reason labels target guarded ps
  unfolding allows_from
  allows_from-Reason labels target guarded [] h = inl (ground (arith, h), tt)
  allows_from-Reason labels target guarded (p ∷ ps) h = elim (Bool-cases (isolates target p)) [
    | inl i ↦ elim (Bool-cases (any_rule selector_of labels p.ingress)) [
      | inl a ↦ inr (p.name, here i a refl)
      | inr a ↦
          elim (allows_from-Reason labels target true ps
            (ap (λ x. x.0) (sym (refuses labels target guarded p ps i a)) ∙ h)) [
              | inl (e, _) ↦ ground (arith, e)
              | inr (by, m) ↦ inr (by, there m)
            ]
    ]
    | inr i ↦
        elim (allows_from-Reason labels target guarded ps
          (ap (λ x. x.0) (sym (skips labels target guarded p ps i)) ∙ h)) [
            | inl (e, o) ↦ inl (e, (i, o))
            | inr (by, m) ↦ inr (by, there m)
          ]
  ]

  open-allows_from :
      (labels : Labels) (target : String) (ps : List (NetworkPolicy S))
      → IsOpen target ps
      → (allows_from selector_of labels target false ps).0 ≡ true
  unfolding allows_from
  open-allows_from labels target [] o = refl
  open-allows_from labels target (p ∷ ps) o =
      ap (λ x. x.0) (skips labels target false p ps o.0) ∙ open-allows_from labels target ps o.1

  Admits-allows_from :
      (labels : Labels) (target by : String) (guarded : Bool) (ps : List (NetworkPolicy S))
      → Admits labels target by ps
      → (allows_from selector_of labels target guarded ps).0 ≡ true
  Admits-allows_from labels target by guarded [] m = elim m [ ]
  Admits-allows_from labels target by guarded (p ∷ ps) (here i a n) =
      ap (λ x. x.0) (admits labels target guarded p ps i a)
  Admits-allows_from labels target by guarded (p ∷ ps) (there m) =
      elim (Bool-cases (isolates target p)) [
        | inr i ↦
            ap (λ x. x.0) (skips labels target guarded p ps i)
            ∙ Admits-allows_from labels target by guarded ps m
        | inl i ↦ elim (Bool-cases (any_rule selector_of labels p.ingress)) [
          | inl a ↦ ap (λ x. x.0) (admits labels target guarded p ps i a)
          | inr a ↦
              ap (λ x. x.0) (refuses labels target guarded p ps i a)
              ∙ Admits-allows_from labels target by true ps m
        ]
      ]

-- One namespace may reach another exactly when no policy of the target isolates it, or some policy
-- that isolates it has an ingress rule that admits the source: one without sources, or with a
-- namespace selector that can be read and matches the source's labels.
pub allows_iff :
    {S : Type 0} (selector_of : S → Result (Labels → Bool)) (policies : List (NetworkPolicy S))
    (catalogue : List (String × Labels)) (source target : String)
    → ((allows selector_of policies catalogue source target).0 ≡ true) ↔ (
        IsOpen selector_of target policies
        ⊎ ((by : String) × Admits selector_of (labels_of catalogue source) target by policies))
unfolding allows
allows_iff selector_of policies catalogue source target =
    let labels = labels_of catalogue source in
    (
      λ h. elim (allows_from-Reason selector_of labels target false policies h) [
        | inl (_, o) ↦ inl o
        | inr m ↦ inr m
      ],
      λ r. elim r [
        | inl o ↦ open-allows_from selector_of labels target policies o
        | inr (by, m) ↦ Admits-allows_from selector_of labels target by false policies m
      ],
    )
