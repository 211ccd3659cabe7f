-- ===== src/Requests/Deciding/Guards.antt =====
-- What a decision that `Decide` records was taken against (internal/requests/decisions.go).
use marstack_govern.Prelude.{
  ℤ, pos, leb_ℤ, ◌<ℤ◌, ◌+ℤ◌, +ℤ_parts, String, str_eq, str_eq_iff, true, false, Bool-cases, Option,
  none, some, Option-cases, Result, ok, err, ◌≡◌, ◌≢◌, refl, sym, ap, subst, ◌∙◌, inl, inr, arith,
}
use marstack_govern.Requests.Quota.{is_open}
use marstack_govern.Requests.Decision.{
  DecisionOutcome, outcome_unset, outcome_approved, outcome_rejected, outcome_changes,
}
use marstack_govern.Requests.Review.{QuotaRequest}
use marstack_govern.Requests.Deciding.{
  Answer, refused, accepted, Actor, DecideRequest, Meets, DecisionSpec, then_do, caller,
  outcome_from, grant_window, granted_until, decidable, spec_of, created, decide_on, find_stored,
  as_caller, read_as, decide,
}

pub not_refused : {A : Type 0} {c : _} {e : String} {a : A} → refused c e ≡ accepted a → ⊥
not_refused h = cc

true-false : true ≡ false → ⊥
true-false h = cc

pub accepted_inj : {A : Type 0} {a b : A} → accepted a ≡ accepted b → a ≡ b
accepted_inj h = cc

pub then_do-accepted :
    {A B : Type 0} (a : Answer A) (next : A → Answer B) {b : B}
    → then_do a next ≡ accepted b
    → (x : A) × (a ≡ accepted x) × (next x ≡ accepted b)
then_do-accepted (refused c e) next h = absurd (not_refused h)
then_do-accepted (accepted x) next h = (x, refl, h)

caller-accepted : (actor : Option Actor) {a : Actor} → caller actor ≡ accepted a → actor ≡ some a
unfolding caller
caller-accepted none h = absurd (not_refused h)
caller-accepted (some b) h = ap some (accepted_inj h)

pub read_as-accepted :
    {A : Type 0} (code : _) (r : Result A) {a : A} → read_as code r ≡ accepted a → r ≡ ok a
unfolding read_as
read_as-accepted code (err e) h = absurd (not_refused h)
read_as-accepted code (ok b) h = ap ok (accepted_inj h)

-- The request is open and has evidence, which is what the caller saw.
pub record IsDecidable (ask : DecideRequest) (r : QuotaRequest) : Type 0 where
  pub opened : is_open r.base.phase r.base.withdrawn ≡ true
  pub has_evidence : r.evidence_digest ≢ ""
  pub seen : ask.evidence_digest ≡ r.evidence_digest

decidable-accepted :
    (m : Meets) (ask : DecideRequest) (r : QuotaRequest) {r' : QuotaRequest}
    → decidable m ask r ≡ accepted r'
    → (r ≡ r') × IsDecidable ask r
unfolding decidable
decidable-accepted m ask r h = elim (Bool-cases (is_open r.base.phase r.base.withdrawn)) [
  | inr o ↦ absurd (not_refused (rw (decidable, o) at h))
  | inl o ↦ elim (Bool-cases (str_eq r.evidence_digest "")) [
    | inl d ↦ absurd (not_refused (rw (decidable, o, d) at h))
    | inr d ↦ elim (Bool-cases (str_eq ask.evidence_digest r.evidence_digest)) [
      | inr s ↦ absurd (not_refused (rw (decidable, o, d, s) at h))
      | inl s ↦ (
        accepted_inj (rw (decidable, o, d, s) at h),
        record {
          opened = o;
          has_evidence = λ same. true-false (sym ((str_eq_iff r.evidence_digest "").1 same) ∙ d);
          seen = (str_eq_iff _ _).0 s;
        },
      )
    ]
  ]
]

grant_window-accepted :
    (m : Meets) (duration : String) {w : ℤ} → grant_window m duration ≡ accepted w → pos 0 <ℤ w
unfolding grant_window
grant_window-accepted m duration {w} h = elim (Bool-cases (str_eq duration "")) [
  | inl e ↦ subst (λ v. pos 0 <ℤ v) (accepted_inj (rw (grant_window, e) at h)) (omega arith)
  | inr e ↦ elim (Option-cases (m.parse_duration duration)) [
    | inl p ↦ absurd (not_refused (rw (grant_window, e, p) at h))
    | inr (d, p) ↦ elim (Bool-cases (leb_ℤ d (pos 0))) [
      | inl n ↦ absurd (not_refused (rw (grant_window, e, p, n) at h))
      | inr n ↦
          subst (λ v. pos 0 <ℤ v) (accepted_inj (rw (grant_window, e, p, n) at h))
            (ground (arith, n))
    ]
  ]
]

-- An approval has an end, after `now`, and nothing else has one.
abbrev pub EndsAfter : ℤ → DecisionOutcome → Option ℤ → Type 0
EndsAfter now outcome_approved until = (u : ℤ) × (until ≡ some u) × (now <ℤ u)
EndsAfter now outcome until = until ≡ none

granted_until-accepted :
    (m : Meets) (outcome : DecisionOutcome) (duration : String) {until : Option ℤ}
    → granted_until m outcome duration ≡ accepted until
    → EndsAfter m.now outcome until
unfolding granted_until
granted_until-accepted m outcome_approved duration h =
    let (w, window, made) = then_do-accepted (grant_window m duration) _ h in
    let positive = grant_window-accepted m duration window in
    (m.now +ℤ w, sym (accepted_inj made), omega (arith, positive, +ℤ_parts m.now w))
granted_until-accepted m outcome_rejected duration h = sym (accepted_inj h)
granted_until-accepted m outcome_changes duration h = sym (accepted_inj h)
granted_until-accepted m outcome_unset duration h = sym (accepted_inj h)

-- What a recorded decision rests on.
pub record IsDecided (m : Meets) (ask : DecideRequest) (s : DecisionSpec) : Type 0 where
  pub actor : Actor
  pub request : QuotaRequest
  pub signed_in : m.actor ≡ some actor
  pub read : m.request ≡ ok request
  pub allowed : IsDecidable ask request
  pub attributed : s.decided_by ≡ actor.subject
  pub evidence_kept : (s.evidence ≡ request.evidence) × (s.digest ≡ ask.evidence_digest)
  pub outcome_asked : outcome_from ask.outcome ≡ accepted s.outcome
  pub ends : EndsAfter m.now s.outcome s.granted_until

created-accepted :
    (m : Meets) (actor : Actor) (spec : DecisionSpec) {s : DecisionSpec}
    → created m actor spec ≡ accepted s
    → spec ≡ s
unfolding created
created-accepted m actor spec h = elim (Option-cases m.create) [
  | inr (e, c) ↦ absurd (not_refused (rw (created, c) at h))
  | inl c ↦ accepted_inj (rw (created, c) at h)
]

-- Where `Decide` records a decision: the caller is signed in, the request is open and has evidence,
-- the digest that the caller sent is that of the request's evidence, and the decision carries that
-- evidence, that digest, the caller as who decided and the outcome asked for; it has an end, which
-- lies in the future, exactly when it approves.
pub decide-IsDecided :
    (m : Meets) (ask : DecideRequest) (s : DecisionSpec)
    → decide m ask ≡ accepted s
    → IsDecided m ask s
unfolding decide decide_on spec_of
decide-IsDecided m ask s h =
    let (actor, signed_in, h1) = then_do-accepted (caller m.actor) _ h in
    let (_, _, h2) = then_do-accepted (find_stored m ask) _ h1 in
    let (_, _, h3) = then_do-accepted (as_caller m.writer) _ h2 in
    let (r, read, h4) = then_do-accepted (read_as _ m.request) _ h3 in
    let (r', checked, h5) = then_do-accepted (decidable m ask r) _ h4 in
    let (outcome, named, h6) = then_do-accepted (outcome_from ask.outcome) _ h5 in
    let (until, granted, h7) = then_do-accepted (granted_until m outcome ask.grant_duration) _ h6 in
    let (same, allowed) = decidable-accepted m ask r checked in
    let made : spec_of ask actor r' outcome until ≡ s = created-accepted m actor _ h7 in
    subst (IsDecided m ask) made (record {
      actor = actor;
      request = r;
      signed_in = caller-accepted m.actor signed_in;
      read = read_as-accepted _ m.request read;
      allowed = allowed;
      attributed = refl;
      evidence_kept = (
        ap (λ q. q.evidence) (sym same),
        ap (λ q. q.evidence_digest) (sym same) ∙ sym allowed.seen,
      );
      outcome_asked = named;
      ends = granted_until-accepted m outcome ask.grant_duration granted;
    })
