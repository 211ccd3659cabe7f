-- ===== src/Environments/Lease/Grant.antt =====
-- What a lease grants (internal/environments/lease.go).
use marstack_govern.Prelude.{
  ℕ, ◌+◌, ◌^◌, ◌≤◌, ◌<◌, ◌≡◌, refl, sym, ap, ◌∙◌, ◌⊎◌, inl, inr, ℤ, pos, negsuc, ◌≤ℤ◌, ◌<ℤ◌, ◌+ℤ◌,
  +ℤ_parts, ltb_ℤ, add64, add64_parts, wrap64, Bool-cases, true, false, eq_of_parts, String, concat,
  ltb→lt_ℤ, ◌-◌, List, [], ◌∷◌, Option, none, ok, err, Result-cases, arith,
}
use marstack_govern.Environments.Lease.{
  default_ttl, max_ttl, GoTexts, Lease, expired, Renewal, start_of, parse_ttl, extended, lease_from,
  lease_of,
}

-- The renewals ask for `n` nanoseconds in all.
pub data Extends (go : GoTexts) : List Renewal → ℕ → Type 0 where
  no_renewal : Extends go [] 0
  renewal :
      {r : Renewal} {rs : List Renewal} {m n : ℕ}
      → parse_ttl go r.extend (pos 0) ≡ ok (pos m)
      → Extends go rs n
      → Extends go (r ∷ rs) (m + n)

impossible : {l : Lease} {e : String} → ok l ≡ err e → ⊥
impossible h = cc

ok_inj : {a b : Lease} → ok a ≡ ok b → a ≡ b
ok_inj h = cc

expires_at-lease_from : (s g : ℤ) → (lease_from s g).expires_at ≡ s +ℤ (lease_from s g).granted
unfolding lease_from
expires_at-lease_from s g = refl

lease_from_cases :
    (s g : ℤ)
    → ((g ≤ℤ max_ttl) × ((lease_from s g).granted ≡ g) × ((lease_from s g).clamped ≡ false))
      ⊎ ((max_ttl <ℤ g) × ((lease_from s g).granted ≡ max_ttl) × ((lease_from s g).clamped ≡ true))
unfolding lease_from
lease_from_cases s g = elim (Bool-cases (ltb_ℤ max_ttl g)) [
  | inl p ↦ inr (ltb→lt_ℤ max_ttl g p, rw (p, lease_from) refl, p)
  | inr p ↦ inl (ground arith, rw (p, lease_from) refl, p)
]

ends_before : (s : ℤ) (k : ℕ) → (lease_from s (negsuc k)).expires_at <ℤ s
ends_before s k =
    let kept : (lease_from s (negsuc k)).granted ≡ negsuc k = elim (lease_from_cases s (negsuc k)) [
      | inl (_, same, _) ↦ same
      | inr (over, _, _) ↦ absurd (omega arith)
    ] in
    rw (expires_at-lease_from s (negsuc k), kept) (omega (arith, +ℤ_parts s (negsuc k)))

granted-lease_from-le : (s g : ℤ) → (lease_from s g).granted ≤ℤ max_ttl
granted-lease_from-le s g = elim (lease_from_cases s g) [
  | inl (le, same, _) ↦ rw same le
  | inr (_, cut, _) ↦ rw cut (omega arith)
]

add64_wraps :
    (t m : ℕ)
    → t < 2 ^ 63
    → m < 2 ^ 63
    → 2 ^ 63 ≤ t + m
    → add64 (pos t) (pos m) ≡ negsuc (2 ^ 64 - 1 - (t + m))
unfolding add64 wrap64 ◌+ℤ◌
add64_wraps t m ht hm h = ground arith

module _ (go : GoTexts) where
  add64-pos : (a b : ℕ) → a + b < 2 ^ 63 → add64 (pos a) (pos b) ≡ pos (a + b)
  add64-pos a b h =
      eq_of_parts _ _ (omega (arith, add64_parts (pos a) (pos b) (omega arith) (omega arith)))

  extended_total :
      (g : ℕ) {rs : List Renewal} {n : ℕ}
      → Extends go rs n
      → g + n < 2 ^ 63
      → extended go (pos g) rs ≡ ok (pos (g + n))
  unfolding extended
  extended_total g no_renewal h = ap (λ k. ok (pos k)) (omega arith)
  extended_total g (renewal {rs = rs} {m = m} {n = n} p e) h =
      rw (p, extended, add64-pos g m (omega arith))
        (extended_total (g + m) e (omega arith) ∙ ap (λ k. ok (pos k)) (omega arith))

  lease_of_ok :
      (ttl : String) (renewals : List Renewal) (created : ℤ) (started_at : Option ℤ) (t g : ℤ)
      → parse_ttl go ttl default_ttl ≡ ok t
      → extended go t renewals ≡ ok g
      → lease_of go ttl renewals created started_at
        ≡ ok (lease_from (start_of created started_at) g)
  unfolding lease_of
  lease_of_ok ttl renewals created started_at t g p q = rw (p, lease_of, q) refl

  -- The TTL and the renewals together, where they are less than 2^63 nanoseconds: the lease grants
  -- their sum, cut to seven days, and ends that long after its start; it is marked clamped exactly
  -- when the sum is more than seven days.
  pub lease_of_total :
      (ttl : String) (renewals : List Renewal) (created : ℤ) (started_at : Option ℤ) (t n : ℕ)
      → parse_ttl go ttl default_ttl ≡ ok (pos t)
      → Extends go renewals n
      → t + n < 2 ^ 63
      → (l : Lease) × (lease_of go ttl renewals created started_at ≡ ok l)
        × (l.expires_at ≡ start_of created started_at +ℤ l.granted)
        × (((t + n ≤ 604800000000000) × (l.granted ≡ pos (t + n)) × (l.clamped ≡ false))
            ⊎ ((604800000000000 < t + n) × (l.granted ≡ max_ttl) × (l.clamped ≡ true)))
  lease_of_total ttl renewals created started_at t n p e h = (
    lease_from (start_of created started_at) (pos (t + n)),
    lease_of_ok ttl renewals created started_at _ _ p (extended_total t e h),
    expires_at-lease_from _ _,
    elim (lease_from_cases (start_of created started_at) (pos (t + n))) [
      | inl (le, same, kept) ↦ inl (omega arith, same, kept)
      | inr (lt, cut, marked) ↦ inr (omega arith, cut, marked)
    ],
  )

  lease_of_err :
      (ttl : String) (renewals : List Renewal) (created : ℤ) (started_at : Option ℤ) (e : String)
      → parse_ttl go ttl default_ttl ≡ err e
      → lease_of go ttl renewals created started_at ≡ err (concat "spec.ttl: " e)
  unfolding lease_of
  lease_of_err ttl renewals created started_at e p = rw (p, lease_of) refl

  lease_of_renewal_err :
      (ttl : String) (renewals : List Renewal) (created : ℤ) (started_at : Option ℤ) (t : ℤ)
      (e : String)
      → parse_ttl go ttl default_ttl ≡ ok t
      → extended go t renewals ≡ err e
      → lease_of go ttl renewals created started_at ≡ err e
  unfolding lease_of
  lease_of_renewal_err ttl renewals created started_at t e p q = rw (p, lease_of, q) refl

  -- No lease grants more than seven days, whatever the TTL and the renewals say.
  pub granted-le-max_ttl :
      (ttl : String) (renewals : List Renewal) (created : ℤ) (started_at : Option ℤ) {l : Lease}
      → lease_of go ttl renewals created started_at ≡ ok l
      → l.granted ≤ℤ max_ttl
  granted-le-max_ttl ttl renewals created started_at {l} h =
      elim (Result-cases (parse_ttl go ttl default_ttl)) [
        | inr (e, p) ↦
            absurd (impossible (sym h ∙ lease_of_err ttl renewals created started_at e p))
        | inl (t, p) ↦ elim (Result-cases (extended go t renewals)) [
          | inr (e, q) ↦
              absurd
                (impossible (sym h ∙ lease_of_renewal_err ttl renewals created started_at t e p q))
          | inl (g, q) ↦
              let same : l ≡ lease_from (start_of created started_at) g =
                ok_inj (sym h ∙ lease_of_ok ttl renewals created started_at t g p q) in
              rw same (granted-lease_from-le (start_of created started_at) g)
        ]
      ]

  -- A TTL and a renewal whose sum passes the largest int64 wrap around: the lease ends before it
  -- starts, and is expired from its start on.
  pub lease_of_overflow :
      (ttl : String) (r : Renewal) (created : ℤ) (t m : ℕ)
      → parse_ttl go ttl default_ttl ≡ ok (pos t)
      → parse_ttl go r.extend (pos 0) ≡ ok (pos m)
      → t < 2 ^ 63
      → m < 2 ^ 63
      → 2 ^ 63 ≤ t + m
      → (l : Lease) × (lease_of go ttl (r ∷ []) created none ≡ ok l)
        × (l.expires_at <ℤ created)
        × (expired l created ≡ true)
  unfolding extended expired
  lease_of_overflow ttl r created t m p q ht hm h =
      let wrapped = add64_wraps t m ht hm h in
      let made =
        lease_of_ok ttl (r ∷ []) created none (pos t) (add64 (pos t) (pos m)) p
          (rw (q, extended) refl) in
      let before : (lease_from created (add64 (pos t) (pos m))).expires_at <ℤ created =
        rw (wrapped) (ends_before created (2 ^ 64 - 1 - (t + m))) in
      (lease_from created (add64 (pos t) (pos m)), made, before, ground arith)
