-- ===== src/Cost/Pricing/Latest.antt =====
-- Which policy is in force on a day (internal/cost/pricing.go).
use marstack_govern.Prelude.{
  ℕ, suc, get_elem?, ltb→lt_ℤ, ℤ, ltb_ℤ, ◌≤ℤ◌, true, false, Bool-cases, List, [], ◌∷◌, All, Option,
  none, some, Result, ok, err, ◌≡◌, refl, sym, subst, inl, inr, arith,
}
use marstack_govern.Cost.Money.{Rationals}
use marstack_govern.Cost.Pricing.{Policy, effective_on, takes, choose, effective}

none-some : {A : Type 0} {x : A} → none ≡ some x → ⊥
none-some h = cc

some_inj : {A : Type 0} {x y : A} → some x ≡ some y → x ≡ y
some_inj h = cc

module _ {Q : Type 0} (go : Rationals Q) (day : ℤ) where
  -- No policy of the list is in force, or `p` starts no earlier than it.
  abbrev pub Bounded : Policy go → List (Policy go) → Type 0
  Bounded p = All (λ q. effective_on go q day ≡ true → q.from ≤ℤ p.from)

  abbrev pub NoneInForce : List (Policy go) → Type 0
  NoneInForce = All (λ q. effective_on go q day ≡ false)

  -- What the loop answers from `chosen` on.
  data Chosen : Option (Policy go) → List (Policy go) → Option (Policy go) → Type 0 where
    nothing : {ps : List (Policy go)} → NoneInForce ps → Chosen none ps none
    kept : {c : Policy go} {ps : List (Policy go)} → Bounded c ps → Chosen (some c) ps (some c)
    later :
        {chosen : Option (Policy go)} {ps : List (Policy go)} {p : Policy go} (i : ℕ)
        → get_elem? ps i ≡ some p
        → effective_on go p day ≡ true
        → Bounded p ps
        → ((c : Policy go) → chosen ≡ some c → c.from ≤ℤ p.from)
        → Chosen chosen ps (some p)

  skipped :
      (chosen : Option (Policy go)) (p : Policy go)
      → takes go chosen p day ≡ false
      → effective_on go p day ≡ true
      → (c : Policy go) × (chosen ≡ some c) × (p.from ≤ℤ c.from)
  unfolding takes
  skipped none p h e = let q = rw (takes, e) at h in cc
  skipped (some c) p h e =
      let q : ltb_ℤ c.from p.from ≡ false = rw (takes, e) at h in (c, refl, ground (arith, q))

  taken :
      (chosen : Option (Policy go)) (p : Policy go)
      → takes go chosen p day ≡ true
      → (effective_on go p day ≡ true) × ((c : Policy go) → chosen ≡ some c → c.from ≤ℤ p.from)
  unfolding takes
  taken chosen p h = elim (Bool-cases (effective_on go p day)) [
    | inr e ↦ let q = rw (takes, e) at h in cc
    | inl e ↦ (
      e,
      λ c same.
          let q : ltb_ℤ c.from p.from ≡ true = rw (takes, e, same) at h in
          let lt = ltb→lt_ℤ c.from p.from q in omega (arith, lt),
    )
  ]

  le_trans : (a b c : ℤ) → a ≤ℤ b → b ≤ℤ c → a ≤ℤ c
  le_trans a b c p q = omega (arith, p, q)

  after_taken :
      (chosen : Option (Policy go)) (p : Policy go) (ps : List (Policy go)) {r : Option (Policy go)}
      → takes go chosen p day ≡ true
      → Chosen (some p) ps r
      → Chosen chosen (p ∷ ps) r
  after_taken chosen p ps t (kept b) =
      let (e, before) = taken chosen p t in later 0 refl e ((λ _. omega arith), b) before
  after_taken chosen p ps t (later {p = q} i m e b prior) =
      let (_, before) = taken chosen p t in
      later (suc i) m e ((λ _. prior p refl), b)
        (λ c same. le_trans c.from p.from q.from (before c same) (prior p refl))

  after_skipped :
      (chosen : Option (Policy go)) (p : Policy go) (ps : List (Policy go)) {r : Option (Policy go)}
      → takes go chosen p day ≡ false
      → Chosen chosen ps r
      → Chosen chosen (p ∷ ps) r
  after_skipped none p ps t (nothing n) = nothing (elim (Bool-cases (effective_on go p day)) [
    | inr e ↦ (e, n)
    | inl e ↦ let (c, same, _) = skipped none p t e in absurd (none-some same)
  ])
  after_skipped (some c) p ps t (kept b) = kept (
    (λ e.
        let (d, same, le) = skipped (some c) p t e in
        subst (λ x. p.from ≤ℤ x.from) (sym (some_inj same)) le),
    b,
  )
  after_skipped chosen p ps t (later {p = q} i m e b prior) =
      later (suc i) m e
        (
          (λ on.
              let (d, same, le) = skipped chosen p t on in
              le_trans p.from d.from q.from le (prior d same)),
          b,
        )
        prior

  choose-Chosen :
      (chosen : Option (Policy go)) (ps : List (Policy go))
      → Chosen chosen ps (choose go chosen ps day)
  unfolding choose
  choose-Chosen none [] = nothing tt
  choose-Chosen (some c) [] = kept tt
  choose-Chosen chosen (p ∷ ps) = elim (Bool-cases (takes go chosen p day)) [
    | inl t ↦ rw (choose, t) (after_taken chosen p ps t (choose-Chosen (some p) ps))
    | inr t ↦ rw (choose, t) (after_skipped chosen p ps t (choose-Chosen chosen ps))
  ]

  -- What `Effective` answers.
  pub data IsLatest (ps : List (Policy go)) : Result (Policy go) → Type 0 where
    none_in_force :
        NoneInForce ps → IsLatest ps (err "no pricing policy is effective for this period")
    latest :
        (p : Policy go) (i : ℕ)
        → get_elem? ps i ≡ some p
        → effective_on go p day ≡ true
        → Bounded p ps
        → IsLatest ps (ok p)

  from_choice :
      (ps : List (Policy go)) {r : Option (Policy go)}
      → Chosen none ps r
      → IsLatest ps
          (elim r [ none ↦ err "no pricing policy is effective for this period" | some p ↦ ok p ])
  from_choice ps (nothing n) = none_in_force n
  from_choice ps (later {p = p} i m e b prior) = latest p i m e b

  -- `Effective` answers with a policy of the list that is in force on the day and that no other
  -- policy in force on that day starts later than, and with an error only where none is in force.
  pub effective-IsLatest : (ps : List (Policy go)) → IsLatest ps (effective go ps day)
  unfolding effective
  effective-IsLatest ps = from_choice ps (choose-Chosen none ps)
