-- ===== src/Audit/Tamper.antt =====
-- The trail is tamper-evident (internal/audit/chain.go, `Verify`): the last hash determines every
-- event, up to a collision of the hash that the proof exhibits.
use marstack_govern.Prelude.{
  Bytes, bytes_eq, bytes_eq_iff, true, List, [], ◌∷◌, ◌++◌, map, ◌≡◌, refl, sym, ◌⊎◌, inl, inr, ◌∙◌,
  ap, length, arith, ◌≢◌, Bool-cases,
}
use marstack_govern.Audit.Event.{Event, Libs, digest}
use marstack_govern.Audit.Table.{last_hash}
use marstack_govern.Audit.Verify.{verify}
use marstack_govern.Audit.Integrity.{IsChain, verify_iff}

-- Two inputs with one hash.
abbrev pub Collision : Libs → Type 0
Collision lib = (x : Bytes) × (y : Bytes) × (x ≢ y) × (lib.sha256 x ≡ lib.sha256 y)

-- SHA-256 has 32 bytes.
abbrev pub IsFixedLength : Libs → Type 0
IsFixedLength lib = (x : Bytes) → length (lib.sha256 x) ≡ 32

append_inj : (p q a b : Bytes) → length p ≡ length q → p ++ a ≡ q ++ b → (p ≡ q) × (a ≡ b)
append_inj [] [] a b h e = (refl, e)
append_inj [] (y ∷ q) a b h e = absurd (omega arith)
append_inj (x ∷ p) [] a b h e = absurd (omega arith)
append_inj (x ∷ p) (y ∷ q) a b h e =
    let (pq, ab) = append_inj p q a b (omega arith) (cc) in (cc, ab)

abbrev pub signed_bytes : List Event → List Bytes
signed_bytes = map (λ e. e.canonical_bytes)

module _ (lib : Libs) (fixed : IsFixedLength lib) where
  same_digest :
      (p q a b : Bytes)
      → length p ≡ length q
      → digest lib p a ≡ digest lib q b
      → Collision lib ⊎ ((p ≡ q) × (a ≡ b))
  unfolding digest
  same_digest p q a b h e = elim (Bool-cases (bytes_eq (p ++ a) (q ++ b))) [
    | inl same ↦ inr (append_inj p q a b h ((bytes_eq_iff _ _).0 same))
    | inr other ↦ inl (
      p ++ a,
      q ++ b,
      (λ s. let t : bytes_eq (p ++ a) (q ++ b) ≡ true = (bytes_eq_iff _ _).1 s in cc),
      e,
    )
  ]

  length-digest : (p a : Bytes) → length (digest lib p a) ≡ 32
  unfolding digest
  length-digest p a = fixed (p ++ a)

  last_hash_determines :
      (p q : Bytes) (es fs : List Event)
      → length p ≡ length q
      → IsChain lib p es
      → IsChain lib q fs
      → length es ≡ length fs
      → last_hash p es ≡ last_hash q fs
      → Collision lib ⊎ ((p ≡ q) × (signed_bytes es ≡ signed_bytes fs))
  unfolding last_hash
  last_hash_determines p q [] [] h c d n e = inr (e, refl)
  last_hash_determines p q [] (f ∷ fs) h c d n e = absurd (omega arith)
  last_hash_determines p q (x ∷ es) [] h c d n e = absurd (omega arith)
  last_hash_determines p q (x ∷ es) (f ∷ fs) h c d n e =
      let long : length x.hash ≡ length f.hash =
        ap length (sym c.0.covers)
        ∙ length-digest p x.canonical_bytes
        ∙ sym (length-digest q f.canonical_bytes)
        ∙ ap length d.0.covers in
      elim (last_hash_determines x.hash f.hash es fs long c.1 d.1 (omega arith) e) [
        | inl found ↦ inl found
        | inr (hashes, rest) ↦
            elim (same_digest p q x.canonical_bytes f.canonical_bytes h
              (c.0.covers ∙ hashes ∙ sym d.0.covers)) [
                | inl found ↦ inl found
                | inr (starts, bytes) ↦ inr (starts, cc)
              ]
      ]

  -- Two trails of one length that verify from the same start and end in the same hash hold the
  -- same signed bytes, event by event; otherwise two inputs of one SHA-256 hash are at hand. The
  -- hypothesis is that a hash has 32 bytes.
  pub tamper_evident :
      (start : Bytes) (es fs : List Event)
      → (verify lib es start).intact ≡ true
      → (verify lib fs start).intact ≡ true
      → length es ≡ length fs
      → last_hash start es ≡ last_hash start fs
      → Collision lib ⊎ (signed_bytes es ≡ signed_bytes fs)
  tamper_evident start es fs c d n e =
      elim (last_hash_determines start start es fs refl ((verify_iff lib es start).0 c)
        ((verify_iff lib fs start).0 d) n e) [ inl found ↦ inl found | inr (_, same) ↦ inr same ]
