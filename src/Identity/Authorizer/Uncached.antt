-- ===== src/Identity/Authorizer/Uncached.antt =====
-- The cache of internal/identity/authorizer.go changes no answer, as long as the user's groups and
-- Kubernetes' answers stay.
use marstack_govern.Prelude.{
  ℕ, ◌+◌, ℤ, ◌-ℤ◌, ltb_ℤ, String, concat, str_eq, str_eq_iff, Bool, true, false, Bool-cases, List,
  [], ◌∷◌, ◌++◌, some, Option-cases, Result, ok, err, Result-cases, ◌≡◌, refl, sym, ap, subst, ◌∙◌,
  inl, inr, if◌then◌else◌,
}
use marstack_govern.Prelude.Assoc.{lookup, assign, lookup-assign}
use text.Mathlib.TextLemmas.{append_cancel_left}
use marstack_govern.Identity.Authorizer.{
  Actor, Cluster, Kept, Clock, Cache, key_of, cached, asked, remembered, allowed, scan, scope_for,
  scan_uncached, scope_uncached,
}

some_inj : {A : Type 0} {x y : A} → some x ≡ some y → x ≡ y
some_inj h = cc

pick_true : {A : Type 0} {b : Bool} (x y : A) → b ≡ true → (if b then x else y) ≡ x
pick_true x y e = rw e refl

pick_false : {A : Type 0} {b : Bool} (x y : A) → b ≡ false → (if b then x else y) ≡ y
pick_false x y e = rw e refl

module _ (k : Cluster) (clock : Clock) (ttl : ℤ) (actor : Actor) where
  -- What is kept for the user is what Kubernetes answers.
  abbrev pub IsFaithful : Cache → Type 0
  IsFaithful m =
      (namespace : String) (d : Kept)
      → lookup (key_of actor namespace) m ≡ some d
      → asked k actor namespace ≡ ok d.is_allowed

  key_inj : (n p : String) → key_of actor n ≡ key_of actor p → n ≡ p
  unfolding key_of
  key_inj n p h = append_cancel_left (concat actor.subject "|") n p h

  cached-asked :
      (now : ℤ) (n : String) (m : Cache) {b : Bool}
      → IsFaithful m
      → cached ttl now (key_of actor n) m ≡ some b
      → asked k actor n ≡ ok b
  unfolding cached
  cached-asked now n m f h = elim (Option-cases (lookup (key_of actor n) m)) [
    | inl e ↦ let q = rw (cached, e) at h in cc
    | inr (d, e) ↦ elim (Bool-cases (ltb_ℤ ttl (now -ℤ d.at))) [
      | inl o ↦ let q = rw (cached, e, o) at h in cc
      | inr o ↦ f n d e ∙ ap ok (some_inj (rw (cached, e, o) at h))
    ]
  ]

  assign-IsFaithful :
      (now : ℤ) (n : String) (b : Bool) (m : Cache)
      → IsFaithful m
      → asked k actor n ≡ ok b
      → IsFaithful (assign (key_of actor n) (record { is_allowed = b; at = now }) m)
  assign-IsFaithful now n b m f a p d h =
      elim (Bool-cases (str_eq (key_of actor n) (key_of actor p))) [
        | inl e ↦
            let same : n ≡ p = key_inj n p ((str_eq_iff _ _).0 e) in
            let kept : record { is_allowed = b; at = now } ≡ d =
              some_inj
                (sym (lookup-assign (key_of actor n) (key_of actor p) _ m ∙ pick_true _ _ e) ∙ h) in
            subst (λ q. asked k actor q ≡ ok d.is_allowed) same (a ∙ ap (λ x. ok x.is_allowed) kept)
        | inr e ↦
            f p d (sym (lookup-assign (key_of actor n) (key_of actor p) _ m ∙ pick_false _ _ e) ∙ h)
      ]

  remembered-IsFaithful :
      (now : ℤ) (n : String) (m : Cache)
      → IsFaithful m
      → (a : Result Bool) → asked k actor n ≡ a
      → (remembered now (key_of actor n) m a).1 ≡ a
        × IsFaithful (remembered now (key_of actor n) m a).0
  unfolding remembered
  remembered-IsFaithful now n m f (err e) h = (refl, f)
  remembered-IsFaithful now n m f (ok b) h = (refl, assign-IsFaithful now n b m f h)

  allowed-asked :
      (i : ℕ) (n : String) (m : Cache)
      → IsFaithful m
      → ((allowed k clock ttl i actor n m).1 ≡ asked k actor n)
        × IsFaithful (allowed k clock ttl i actor n m).0
  unfolding allowed
  allowed-asked i n m f = elim (Option-cases (cached ttl (clock.read i) (key_of actor n) m)) [
    | inr (b, e) ↦ rw (allowed, e) (sym (cached-asked (clock.read i) n m f e), f)
    | inl e ↦ rw (allowed, e) (remembered-IsFaithful (clock.write i) n m f (asked k actor n) refl)
  ]

  scan-uncached :
      (i : ℕ) (seen ns : List String) (m : Cache)
      → IsFaithful m
      → ((scan k clock ttl i actor seen ns m).1 ≡ scan_uncached k actor seen ns)
        × IsFaithful (scan k clock ttl i actor seen ns m).0
  unfolding scan scan_uncached
  scan-uncached i seen [] m f = (refl, f)
  scan-uncached i seen (n ∷ ns) m f =
      let (same, faithful) = allowed-asked i n m f in
      elim (Result-cases (asked k actor n)) [
        | inr (e, a) ↦ rw (scan, scan_uncached, same ∙ a, a) (refl, faithful)
        | inl (b, a) ↦
            rw (scan, scan_uncached, same ∙ a, a)
              (scan-uncached (i + 1) (if b then seen ++ (n ∷ []) else seen) ns
                (allowed k clock ttl i actor n m).0 faithful)
      ]

  -- Where everything that is kept for a user is what Kubernetes answers for that user and the user's
  -- groups, `ScopeFor` answers, errors included, as it would with no cache, and what it leaves in the
  -- cache is again what Kubernetes answers.
  pub scope_for-uncached :
      (candidates : List String) (m : Cache)
      → IsFaithful m
      → ((scope_for k clock ttl actor candidates m).1 ≡ scope_uncached k actor candidates)
        × IsFaithful (scope_for k clock ttl actor candidates m).0
  unfolding scope_for scope_uncached
  scope_for-uncached candidates m f =
      let (same, faithful) = allowed-asked 0 "" m f in
      elim (Result-cases (asked k actor "")) [
        | inr (e, a) ↦ rw (scope_for, scope_uncached, same ∙ a, a) (refl, faithful)
        | inl (true, a) ↦ rw (scope_for, scope_uncached, same ∙ a, a) (refl, faithful)
        | inl (false, a) ↦
            rw (scope_for, scope_uncached, same ∙ a, a)
              (scan-uncached 1 [] candidates (allowed k clock ttl 0 actor "" m).0 faithful)
      ]
