-- ===== src/Admission/Attribution/Stamped.antt =====
-- What one review records (internal/admission/attribution.go).
use marstack_govern.Prelude.{
  and_parts, eqb_ℤ→eq, ℕ, suc, ◌+◌, ◌≤◌, ℤ, ltb, String, str_eq_iff, ◌≡◌, refl, ap, subst,
  length-append, ◌∙◌, inl, inr, true, Bool-cases, List, [], ◌∷◌, ◌++◌, length, All, Option, none,
  some, Option-cases, ok, err, arith,
}
use marstack_govern.Environments.Lease.{Renewal}
use marstack_govern.Admission.Attribution.{
  EphemeralEnvironment, same_time, same_renewal, rewritten, granted_now, stamp_all, stamp_new,
  stamp_renewals,
}

some-none : {A : Type 0} {x : A} → some x ≡ none → ⊥
some-none h = cc

pub err_ok : {A : Type 0} {x : A} {m : String} → err m ≡ ok x → ⊥
err_ok h = cc

pub ok_inj : {A : Type 0} {x y : A} → ok x ≡ ok y → x ≡ y
ok_inj h = cc

-- A renewal that names `user` as who granted it, and a time.
abbrev pub GrantedBy : String → Renewal → Type 0
GrantedBy user r = (r.granted_by ≡ user) × ((at : ℤ) × (r.granted_at ≡ some at))

same_time→eq : (a b : Option ℤ) → same_time a b ≡ true → a ≡ b
same_time→eq none none h = refl
same_time→eq none (some b) h = cc
same_time→eq (some a) none h = cc
same_time→eq (some a) (some b) h = ap some (eqb_ℤ→eq a b h)

pub same_renewal→eq : (a b : Renewal) → same_renewal a b ≡ true → a ≡ b
unfolding same_renewal
same_renewal→eq a b h =
    let (extend, more) = and_parts _ _ h in
    let (reason, last) = and_parts _ _ more in
    let (granted_by, granted_at) = and_parts _ _ last in
    let p : a.extend ≡ b.extend = (str_eq_iff _ _).0 extend in
    let q : a.reason ≡ b.reason = (str_eq_iff _ _).0 reason in
    let r : a.granted_by ≡ b.granted_by = (str_eq_iff _ _).0 granted_by in
    let s : a.granted_at ≡ b.granted_at = same_time→eq _ _ granted_at in
    λ i. record { extend = p i; reason = q i; granted_by = r i; granted_at = s i }

granted_now-GrantedBy :
    (user : String) (now : ℤ) (r : Renewal) → GrantedBy user (granted_now user now r)
unfolding granted_now
granted_now-GrantedBy user now r = elim (Option-cases r.granted_at) [
  | inl e ↦ (refl, (now, rw e refl))
  | inr (at, e) ↦ (refl, (at, rw e refl))
]

stamp_all-GrantedBy :
    (user : String) (clock : ℕ → ℤ) (i : ℕ) (rs : List Renewal)
    → All (GrantedBy user) (stamp_all user clock i rs)
unfolding stamp_all
stamp_all-GrantedBy user clock i [] = tt
stamp_all-GrantedBy user clock i (r ∷ rs) =
    (granted_now-GrantedBy user (clock i) r, stamp_all-GrantedBy user clock (suc i) rs)

length-stamp_all :
    (user : String) (clock : ℕ → ℤ) (i : ℕ) (rs : List Renewal)
    → length (stamp_all user clock i rs) ≡ length rs
unfolding stamp_all
length-stamp_all user clock i [] = refl
length-stamp_all user clock i (r ∷ rs) = ap suc (length-stamp_all user clock (suc i) rs)

rewritten-none :
    (i : ℕ) (a b : Renewal) (after before : List Renewal)
    → rewritten i (a ∷ after) (b ∷ before) ≡ none
    → (a ≡ b) × (rewritten (suc i) after before ≡ none)
unfolding rewritten
rewritten-none i a b after before h = elim (Bool-cases (same_renewal a b)) [
  | inl e ↦ (same_renewal→eq a b e, rw (rewritten, e) at h)
  | inr e ↦ absurd (some-none (rw (rewritten, e) at h))
]

-- Where nothing was removed or rewritten, the renewals before stay as they are, before the new ones.
stamp_new-append :
    (user : String) (clock : ℕ → ℤ) (i : ℕ) (after before : List Renewal)
    → length before ≤ length after
    → rewritten i after before ≡ none
    → (fresh : List Renewal) × (stamp_new user clock i after before ≡ before ++ fresh)
      × All (GrantedBy user) fresh
      × (length before + length fresh ≡ length after)
unfolding stamp_new
stamp_new-append user clock i after [] le h = (
  stamp_all user clock i after,
  refl,
  stamp_all-GrantedBy user clock i after,
  omega (arith, length-stamp_all user clock i after),
)
stamp_new-append user clock i [] (b ∷ before) le h = absurd (omega arith)
stamp_new-append user clock i (a ∷ after) (b ∷ before) le h =
    let (same, kept) = rewritten-none i a b after before h in
    let (fresh, appended, granted, count) =
      stamp_new-append user clock (suc i) after before (omega (arith, le)) kept in
    (fresh, cc, granted, omega (arith, count))

-- What an update may store: the owner and the renewals that were there, and new renewals that name
-- who asked for the update.
pub record IsUpdate (user : String) (next previous o : EphemeralEnvironment) : Type 0 where
  pub fresh : List Renewal
  pub owner_same : o.requested_by ≡ previous.requested_by
  pub renewals_appended : o.renewals ≡ previous.renewals ++ fresh
  pub fresh_granted : All (GrantedBy user) fresh
  pub renewals_counted : length o.renewals ≡ length next.renewals
  pub rest_same : o.rest ≡ next.rest

stamped :
    (user : String) (clock : ℕ → ℤ) (next previous : EphemeralEnvironment)
    → next.requested_by ≡ previous.requested_by
    → length previous.renewals ≤ length next.renewals
    → rewritten 0 next.renewals previous.renewals ≡ none
    → IsUpdate user next previous
        (record next { renewals = stamp_new user clock 0 next.renewals previous.renewals })
stamped user clock next previous owner le r =
    let (fresh, appended, granted, count) =
      stamp_new-append user clock 0 next.renewals previous.renewals le r in
    record {
      fresh = fresh;
      owner_same = owner;
      renewals_appended = appended;
      fresh_granted = granted;
      renewals_counted = ap length appended ∙ length-append previous.renewals fresh ∙ count;
      rest_same = refl;
    }

pub stamp_renewals-ok :
    (user : String) (clock : ℕ → ℤ) (next previous o : EphemeralEnvironment)
    → next.requested_by ≡ previous.requested_by
    → stamp_renewals user clock next previous ≡ ok o
    → IsUpdate user next previous o
unfolding stamp_renewals
stamp_renewals-ok user clock next previous o owner h =
    elim (Bool-cases (ltb (length next.renewals) (length previous.renewals))) [
      | inl e ↦ absurd (err_ok (rw (stamp_renewals, e) at h))
      | inr e ↦ elim (Option-cases (rewritten 0 next.renewals previous.renewals)) [
        | inr (m, r) ↦ absurd (err_ok (rw (stamp_renewals, e, r) at h))
        | inl r ↦
            let made : record next {
              renewals = stamp_new user clock 0 next.renewals previous.renewals;
            }
                ≡ o =
              ok_inj (rw (stamp_renewals, e, r) at h) in
            subst (IsUpdate user next previous) made
              (stamped user clock next previous owner (ground (arith, e)) r)
      ]
    ]
