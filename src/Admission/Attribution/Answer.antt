-- ===== src/Admission/Attribution/Answer.antt =====
-- What stands behind each answer of `Handle` (internal/admission/attribution.go).
use marstack_govern.Prelude.{
  ℕ, ℤ, String, str_eq, ◌≡◌, refl, ap, ◌∙◌, ◌⊎◌, inl, inr, Bool-cases, Option-cases, ok,
  Result-cases,
}
use marstack_govern.Admission.Attribution.{
  Rule, Codec, Operation, create, update, other, Review, errored, patched, Outcome, answered,
  stored, updated, attribute, respond, handle,
}

not_patched : {c : ℕ} {e raw encoded : String} → errored c e ≡ patched raw encoded → ⊥
not_patched h = cc

patched_inj : {a b raw encoded : String} → patched a b ≡ patched raw encoded → b ≡ encoded
patched_inj h = cc

module _ {A : Type 0} (rule : Rule A) (codec : Codec A) (clock : ℕ → ℤ) where
  -- What stands behind an answer with an object to store.
  pub record IsStored (r : Review) (encoded : String) : Type 0 where
    pub next : A
    pub kept : A
    pub decoded : codec.decode r.object ≡ ok next
    pub attributed : attribute rule codec clock r next ≡ stored kept
    pub written : codec.encode kept ≡ ok encoded

  respond-patched :
      (r : Review) (answer : Outcome A) (raw encoded : String)
      → respond rule codec clock r answer ≡ patched raw encoded
      → (answer ≡ answered (patched raw encoded))
        ⊎ ((o : A) × (answer ≡ stored o) × (codec.encode o ≡ ok encoded))
  unfolding respond
  respond-patched r (answered a) raw encoded h = inl (ap answered h)
  respond-patched r (stored o) raw encoded h = elim (Result-cases (codec.encode o)) [
    | inr (e, p) ↦ absurd (not_patched (rw (respond, p) at h))
    | inl (t, p) ↦ inr (o, refl, p ∙ ap ok (patched_inj (rw (respond, p) at h)))
  ]

  updated-answered :
      (user : String) (next previous : A) (raw encoded : String)
      → updated rule codec clock user next previous ≡ answered (patched raw encoded)
      → ⊥
  unfolding updated
  updated-answered user next previous raw encoded h =
      elim (Bool-cases (str_eq (rule.owner next) (rule.owner previous))) [
        | inr e ↦ let p = rw (updated, e) at h in cc
        | inl e ↦ elim (Option-cases rule.stamp) [
          | inl n ↦ let p = rw (updated, e, n) at h in cc
          | inr (stamp, n) ↦ elim (Result-cases (stamp user clock next previous)) [
            | inr (m, q) ↦ let p = rw (updated, e, n, q) at h in cc
            | inl (o, q) ↦ let p = rw (updated, e, n, q) at h in cc
          ]
        ]
      ]

  attribute-answered :
      (r : Review) (next : A) (raw encoded : String)
      → attribute rule codec clock r next ≡ answered (patched raw encoded)
      → ⊥
  unfolding attribute
  attribute-answered r next raw encoded h = go r.operation refl h
    where
      go :
          (op : Operation)
          → r.operation ≡ op
          → attribute rule codec clock r next ≡ answered (patched raw encoded)
          → ⊥
      go create o h = let p = rw (attribute, o) at h in cc
      go other o h = let p = rw (attribute, o) at h in cc
      go update o h = elim (Result-cases (codec.decode r.old_object)) [
        | inr (m, q) ↦ let p = rw (attribute, o, q) at h in cc
        | inl (previous, q) ↦
            updated-answered r.user next previous raw encoded (rw (attribute, o, q) at h)
      ]

  pub handle-IsStored :
      (r : Review) (raw encoded : String)
      → handle rule codec clock r ≡ patched raw encoded
      → IsStored r encoded
  unfolding handle
  handle-IsStored r raw encoded h = elim (Bool-cases (str_eq r.user "")) [
    | inl e ↦ let p = rw (handle, e) at h in cc
    | inr e ↦ elim (Result-cases (codec.decode r.object)) [
      | inr (m, q) ↦ let p = rw (handle, e, q) at h in cc
      | inl (next, q) ↦
          elim (respond-patched r (attribute rule codec clock r next) raw encoded
            (rw (handle, e, q) at h)) [
              | inl a ↦ absurd (attribute-answered r next raw encoded a)
              | inr (o, a, w) ↦ record {
                next = next;
                kept = o;
                decoded = q;
                attributed = a;
                written = w;
              }
            ]
    ]
  ]
