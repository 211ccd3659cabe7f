-- ===== src/Identity/Authorizer/Stale.antt =====
-- What the key of the cache leaves out (internal/identity/authorizer.go).
use marstack_govern.Prelude.{
  ℕ, ℤ, ◌-ℤ◌, ltb_ℤ, String, str_eq_iff, Bool, false, none, some, ok, ◌≡◌, refl, sym, ap, ◌∙◌,
  concat,
}
use marstack_govern.Prelude.Assoc.{lookup, assign, lookup-assign}
use marstack_govern.Identity.Authorizer.{
  Actor, Cluster, Kept, Clock, Cache, key_of, cached, asked, remembered, allowed,
}

module _ (k : Cluster) (clock : Clock) (ttl : ℤ) where
  first_answer :
      (i : ℕ) (a : Actor) (n : String) (m : Cache) (b : Bool)
      → cached ttl (clock.read i) (key_of a n) m ≡ none
      → asked k a n ≡ ok b
      → allowed k clock ttl i a n m
        ≡ (assign (key_of a n) (record { is_allowed = b; at = clock.write i }) m, ok b)
  unfolding allowed remembered
  first_answer i a n m b c h = rw (allowed, c, h) refl

  kept_answer :
      (now : ℤ) (key : String) (m : Cache) (d : Kept)
      → ltb_ℤ ttl (now -ℤ d.at) ≡ false
      → cached ttl now key (assign key d m) ≡ some d.is_allowed
  unfolding cached
  kept_answer now key m d fresh =
      let found : lookup key (assign key d m) ≡ some d =
        lookup-assign key key d m ∙ rw ((str_eq_iff key key).1 refl) refl in
      rw (cached, found, fresh) refl

  again :
      (j : ℕ) (a : Actor) (n : String) (m : Cache) (b : Bool)
      → cached ttl (clock.read j) (key_of a n) m ≡ some b
      → (allowed k clock ttl j a n m).1 ≡ ok b
  unfolding allowed
  again j a n m b h = rw (allowed, h) refl

  -- The cache is asked by subject and namespace only: once Kubernetes answered for a user, a call for
  -- the same subject with other groups, within the TTL, gives that answer, whatever Kubernetes would
  -- answer for those groups.
  pub allowed_ignores_groups :
      (i j : ℕ) (before after : Actor) (n : String) (m : Cache) (b : Bool)
      → before.subject ≡ after.subject
      → cached ttl (clock.read i) (key_of before n) m ≡ none
      → asked k before n ≡ ok b
      → ltb_ℤ ttl (clock.read j -ℤ clock.write i) ≡ false
      → (allowed k clock ttl j after n (allowed k clock ttl i before n m).0).1 ≡ ok b
  unfolding key_of
  allowed_ignores_groups i j before after n m b same c h fresh =
      let d : Kept = record { is_allowed = b; at = clock.write i } in
      let kept : cached ttl (clock.read j) (key_of before n) (assign (key_of before n) d m)
          ≡ some b =
        kept_answer (clock.read j) (key_of before n) m d fresh in
      let key : key_of before n ≡ key_of after n = ap (λ s. concat (concat s "|") n) same in
      let stored : (allowed k clock ttl i before n m).0 ≡ assign (key_of before n) d m =
        ap (λ r. r.0) (first_answer i before n m b c h) in
      let answer : cached ttl (clock.read j) (key_of after n) (allowed k clock ttl i before n m).0
          ≡ some b =
        ap (λ s. cached ttl (clock.read j) (key_of after n) s) stored
        ∙ ap (λ s. cached ttl (clock.read j) s (assign (key_of before n) d m)) (sym key)
        ∙ kept in
      again j after n (allowed k clock ttl i before n m).0 b answer
