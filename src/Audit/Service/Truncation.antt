-- ===== src/Audit/Service/Truncation.antt =====
-- What `VerifyChain` cannot see (internal/audit/service.go).
use marstack_govern.Prelude.{
  String, Bytes, Bool, true, false, List, [], ◌∷◌, ◌++◌, All, ◌≡◌, sym, subst, ◌∙◌,
}
use marstack_govern.Audit.Event.{Event, Libs}
use marstack_govern.Audit.Verify.{Verification}
use marstack_govern.Audit.Integrity.{IsChain}
use marstack_govern.Audit.Service.{Record, verified, events_of, verify_chain}
use marstack_govern.Audit.Service.Exact.{
  whole, answering, IsNumbered, IsArchived, IsIntact, verify_chain_iff,
}

verified_inj : {v w : Verification} → verified v ≡ verified w → v ≡ w
verified_inj h = cc

All-kept : {A : Type 0} (P : A → Type 0) (xs ys : List A) → All P (xs ++ ys) → All P xs
All-kept P [] ys h = tt
All-kept P (x ∷ xs) ys h = (h.0, All-kept P xs ys h.1)

module _ (lib : Libs) (hex : Bytes → String) where
  IsChain-kept :
      (previous : Bytes) (xs ys : List Record)
      → IsChain lib previous (events_of (xs ++ ys))
      → IsChain lib previous (events_of xs)
  unfolding events_of
  IsChain-kept previous [] ys c = tt
  IsChain-kept previous (x ∷ xs) ys c = (c.0, IsChain-kept x.event.hash xs ys c.1)

  IsIntact-kept :
      (compared : Bool) (xs ys : List Record) (lines : List Event)
      → IsIntact lib hex compared (xs ++ ys) lines
      → IsIntact lib hex compared xs lines
  IsIntact-kept true xs ys lines (c, a) =
      (IsChain-kept [] xs ys c, All-kept (IsArchived hex lines) xs ys a)
  IsIntact-kept false xs ys lines c = IsChain-kept [] xs ys c

  -- Where `VerifyChain` answers that the whole trail is intact, it answers so as well once any
  -- number of the newest records were deleted from the table, though the archive still has them:
  -- the comparison with the archive does not show it either.
  pub verify_chain-truncated :
      (compared : Bool) (kept deleted : List Record) (lines : List Event)
      → IsNumbered (kept ++ deleted)
      → {v : Verification}
      → verify_chain lib hex (whole compared) (answering (kept ++ deleted) lines) ≡ verified v
      → v.intact ≡ true
      → (v' : Verification) × (verify_chain lib hex (whole compared) (answering kept lines)
          ≡ verified v')
        × (v'.intact ≡ true)
  verify_chain-truncated compared kept deleted lines n {v} answer intact =
      let (u, before, means) = verify_chain_iff lib hex compared (kept ++ deleted) lines n in
      let same : v ≡ u = verified_inj (sym answer ∙ before) in
      let (v', after, means') =
        verify_chain_iff lib hex compared kept lines (All-kept _ kept deleted n) in
      (
        v',
        after,
        means'.1 (
            IsIntact-kept compared kept deleted lines
              (means.0 (subst (λ w. w.intact ≡ true) same intact))),
      )
