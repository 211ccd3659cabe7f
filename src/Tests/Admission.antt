-- ===== src/Tests/Admission.antt =====
-- The theorems on attribution at concrete inputs (internal/admission/attribution.go).
use marstack_govern.Prelude.{
  and_parts, ℕ, ℤ, pos, String, str_eq, str_eq_iff, ◌≡◌, refl, sym, ap, subst, Bool, true, false,
  ◌&&◌, Bool-cases, inl, inr, List, [], ◌∷◌, map, Option, none, some, ok, err, if◌then◌else◌,
}
use marstack_govern.Environments.Lease.{Renewal}
use marstack_govern.Admission.Attribution.{
  EphemeralEnvironment, Codec, create, update, Review, same_renewal, stamp_renewals, handle,
}
use marstack_govern.Admission.Attribution.Stamped.{same_renewal→eq}
use marstack_govern.Admission.Attribution.History.{
  created, changed, said, Keeps, IsAttributed, Stored-IsAttributed,
}

abbrev renewal : String → Option ℤ → Renewal
renewal who at = record { extend = "24h"; reason = "review"; granted_by = who; granted_at = at }

abbrev preview : String → List Renewal → EphemeralEnvironment
preview who rs = record { requested_by = who; renewals = rs; rest = "shop/web#7" }

abbrev same_renewals : List Renewal → List Renewal → Bool
same_renewals [] [] = true
same_renewals [] (b ∷ ys) = false
same_renewals (a ∷ xs) [] = false
same_renewals (a ∷ xs) (b ∷ ys) = same_renewal a b && same_renewals xs ys

same_renewals→eq : (xs ys : List Renewal) → same_renewals xs ys ≡ true → xs ≡ ys
same_renewals→eq [] [] h = refl
same_renewals→eq [] (b ∷ ys) h = cc
same_renewals→eq (a ∷ xs) [] h = cc
same_renewals→eq (a ∷ xs) (b ∷ ys) h =
    let (here, more) = and_parts _ _ h in
    let p : a ≡ b = same_renewal→eq a b here in let q : xs ≡ ys = same_renewals→eq xs ys more in cc

abbrev is_preview : EphemeralEnvironment → EphemeralEnvironment → Bool
is_preview o p =
    str_eq o.requested_by p.requested_by
    && (same_renewals o.renewals p.renewals && str_eq o.rest p.rest)

is_preview→eq : (o p : EphemeralEnvironment) → is_preview o p ≡ true → o ≡ p
is_preview→eq o p h =
    let (owner, more) = and_parts _ _ h in
    let (renewals, rest) = and_parts _ _ more in
    let a : o.requested_by ≡ p.requested_by = (str_eq_iff _ _).0 owner in
    let b : o.renewals ≡ p.renewals = same_renewals→eq _ _ renewals in
    let c : o.rest ≡ p.rest = (str_eq_iff _ _).0 rest in
    λ i. record { requested_by = a i; renewals = b i; rest = c i }

abbrev first_preview : EphemeralEnvironment
first_preview = preview "ana" []

abbrev second_preview : EphemeralEnvironment
second_preview = preview "ana" (renewal "ben" (some (pos 9000000000)) ∷ [])

-- The second preview as it is stamped, with a fraction of a second that its text does not have.
abbrev stamped_preview : EphemeralEnvironment
stamped_preview = preview "ana" (renewal "ben" (some (pos 9000000007)) ∷ [])

-- An encoding of the previews that are stored here; two more texts are sent.
abbrev codec : Codec EphemeralEnvironment
codec = record {
  decode = λ text.
      if str_eq text "one"
      then ok first_preview
      else if str_eq text "two"
      then ok second_preview
      else if str_eq text "new"
      then ok (preview "" [])
      else if str_eq text "renewed"
      then ok (preview "ana" (renewal "eve" none ∷ []))
      else err "no such text";
  encode = λ o.
      if is_preview o first_preview
      then ok "one"
      else if is_preview o stamped_preview
      then ok "two"
      else err "no text";
  quote = λ t. t;
}

abbrev clock : ℕ → ℤ
clock i = pos 9000000007

ok_text : {a b : String} → ok a ≡ ok b → a ≡ b
ok_text h = cc

no_text : {m t : String} → err m ≡ ok t → ⊥
no_text h = cc

-- The codec of this file writes no time but a whole second, as `metav1.Time` does.
codec-Keeps : Keeps codec
codec-Keeps o text h = elim (Bool-cases (is_preview o first_preview)) [
  | inl e ↦
      let t : "one" ≡ text = ok_text (rw e at h) in
      let same : o ≡ first_preview = is_preview→eq o first_preview e in
      (
        first_preview,
        subst (λ t. codec.decode t ≡ ok first_preview) t refl,
        record {
          same_owner = ap (λ p. p.requested_by) (sym same);
          same_renewals = ap (λ p. map said p.renewals) (sym same);
        },
      )
  | inr e ↦ elim (Bool-cases (is_preview o stamped_preview)) [
    | inl f ↦
        let t : "two" ≡ text = ok_text (rw (e, f) at h) in
        let same : o ≡ stamped_preview = is_preview→eq o stamped_preview f in
        (
          second_preview,
          subst (λ t. codec.decode t ≡ ok second_preview) t refl,
          record {
            same_owner = ap (λ p. p.requested_by) (sym same);
            same_renewals = ap (λ p. map said p.renewals) (sym same);
          },
        )
    | inr f ↦ absurd (no_text (rw (e, f) at h))
  ]
]

abbrev creation : Review
creation = record { user = "ana"; operation = create; object = "new"; old_object = "" }

abbrev renewing : Review
renewing = record { user = "ben"; operation = update; object = "renewed"; old_object = "one" }

Stored-IsAttributed_example : IsAttributed codec clock "ana" [] ("ben" ∷ []) "two"
unfolding handle stamp_renewals
Stored-IsAttributed_example =
    Stored-IsAttributed codec clock codec-Keeps {creator = "ana"} {first = []} {users = "ben" ∷ []}
      {text = "two"}
      (changed renewing "renewed" (created creation (preview "" []) "new" refl refl refl) refl refl)
