-- ===== src/Audit/Integrity.antt =====
-- What an intact chain means, and that `verify` decides it (internal/audit/chain.go).
use marstack_govern.Prelude.{
  ℕ, ◌+◌, Bytes, bytes_eq_iff, true, List, [], ◌∷◌, ◌≡◌, refl, ◌↔◌, arith,
}
use marstack_govern.Audit.Event.{Event, Libs, digest, matches}
use marstack_govern.Audit.Verify.{Verification, broken, verify_from, verify}

-- One stored event that follows the hash `previous`: it names it, its own hash covers it and the
-- canonical bytes, and its columns agree with those bytes.
pub record Follows (lib : Libs) (previous : Bytes) (e : Event) : Type 0 where
  pub links : e.prev_hash ≡ previous
  pub covers : digest lib previous e.canonical_bytes ≡ e.hash
  pub agrees : matches lib e e.canonical_bytes ≡ true

abbrev pub IsChain : Libs → Bytes → List Event → Type 0
IsChain lib previous [] = Unit
IsChain lib previous (e ∷ es) = Follows lib previous e × IsChain lib e.hash es

module _ (lib : Libs) where
  Follows-decided :
      (previous : Bytes) (i : ℕ) (v : Verification) (e : Event) (es : List Event)
      → Follows lib previous e
      → verify_from lib previous i v (e ∷ es)
        ≡ verify_from lib e.hash (i + 1) (record v { checked = v.checked + 1; last_seq = i }) es
  unfolding verify_from
  Follows-decided previous i v e es f =
      rw
        (
          (bytes_eq_iff e.prev_hash previous).1 f.links,
          (bytes_eq_iff (digest lib previous e.canonical_bytes) e.hash).1 f.covers,
          f.agrees,
        )
        refl

  intact→Follows :
      (previous : Bytes) (i : ℕ) (v : Verification) (e : Event) (es : List Event)
      → (verify_from lib previous i v (e ∷ es)).intact ≡ true
      → Follows lib previous e
  unfolding verify_from broken
  intact→Follows previous i v e es h = ground (
    arith,
    bytes_eq_iff e.prev_hash previous,
    bytes_eq_iff (digest lib previous e.canonical_bytes) e.hash,
  )

  IsChain→intact :
      (previous : Bytes) (i : ℕ) (v : Verification) (es : List Event)
      → v.intact ≡ true
      → IsChain lib previous es
      → (verify_from lib previous i v es).intact ≡ true
  IsChain→intact previous i v [] h c = unfold verify_from in h
  IsChain→intact previous i v (e ∷ es) h c =
      rw (Follows-decided previous i v e es c.0) (IsChain→intact e.hash (i + 1) _ es h c.1)

  intact→IsChain :
      (previous : Bytes) (i : ℕ) (v : Verification) (es : List Event)
      → (verify_from lib previous i v es).intact ≡ true
      → IsChain lib previous es
  intact→IsChain previous i v [] h = tt
  intact→IsChain previous i v (e ∷ es) h =
      let f = intact→Follows previous i v e es h in
      (
        f,
        intact→IsChain e.hash (i + 1) (record v { checked = v.checked + 1; last_seq = i }) es
            (rw (Follows-decided previous i v e es f) at h),
      )

  -- `Verify` reports an intact trail exactly when every event follows the one before it: names its
  -- hash, is covered by its own hash and agrees with its canonical bytes.
  pub verify_iff :
      (events : List Event) (start : Bytes)
      → ((verify lib events start).intact ≡ true) ↔ IsChain lib start events
  unfolding verify
  verify_iff events start = (intact→IsChain start 0 _ events, IsChain→intact start 0 _ events refl)
