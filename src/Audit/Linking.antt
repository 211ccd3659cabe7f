-- ===== src/Audit/Linking.antt =====
-- What the loop of `Chain.Append` (internal/audit/chain.go) makes of a batch: events that follow one
-- another from the hash it starts with.
use marstack_govern.Prelude.{
  ℕ, suc, Bytes, true, List, [], ◌∷◌, ◌≡◌, refl, subst, inl, inr, ap, length, Result, ok, err,
  Result-cases,
}
use marstack_govern.Audit.Event.{Event, Libs, canonical, digest, matches, same_fields}
use marstack_govern.Audit.Table.{last_hash}
use marstack_govern.Audit.Chain.{link, linked}
use marstack_govern.Audit.Integrity.{Follows, IsChain}

module _ (lib : Libs) where
  -- The columns of an event agree with its canonical bytes, whatever hashes it is given: what the
  -- JSON codec must do, decoding the bytes it wrote to an event with the same identifying fields.
  abbrev pub RoundTrips : Type 0
  RoundTrips =
      (e : Event) (bytes : Bytes)
      → lib.marshal e ≡ ok bytes
      → (signed : Event) × (lib.unmarshal bytes ≡ ok signed) × (same_fields lib e signed ≡ true)

  module _ (json : RoundTrips) where
    pub linked-Follows :
        (previous : Bytes) (e : Event) (bytes : Bytes)
        → canonical lib e ≡ ok bytes
        → Follows lib previous (linked previous (digest lib previous bytes) bytes e)
    unfolding canonical linked matches same_fields
    linked-Follows previous e bytes h =
        let (signed, q, r) = json e bytes h in
        record { links = refl; covers = refl; agrees = rw (q, matches) r }

    abbrev pub LinkPost : Bytes → ℕ → Result (List Event × Bytes) → Type 0
    LinkPost previous n (err m) = Unit
    LinkPost previous n (ok r) =
        IsChain lib previous r.0 × (last_hash previous r.0 ≡ r.1) × (length r.0 ≡ n)

    pub link_post :
        (previous : Bytes) (events : List Event)
        → LinkPost previous (length events) (link lib previous events)
    unfolding last_hash link linked
    link_post previous [] = (tt, refl, refl)
    link_post previous (e ∷ es) = elim (Result-cases (canonical lib e)) [
      | inr (m, p) ↦ rw (p, link) tt
      | inl (bytes, p) ↦
          let ih = link_post (digest lib previous bytes) es in
          elim (Result-cases (link lib (digest lib previous bytes) es)) [
            | inr (m, q) ↦ rw (p, link, q) tt
            | inl (r, q) ↦
                let post = subst (LinkPost (digest lib previous bytes) (length es)) q ih in
                rw (p, link, q) ((linked-Follows previous e bytes p, post.0), post.1, ap suc post.2)
          ]
    ]
