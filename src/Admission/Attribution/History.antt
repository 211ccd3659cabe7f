-- ===== src/Admission/Attribution/History.antt =====
-- The life of a preview in the store, as the reviews of internal/admission/attribution.go let it be.
use marstack_govern.Prelude.{
  ℕ, ℤ, String, str_eq, str_eq_iff, ◌≡◌, refl, sym, ap, subst, ◌∙◌, Bool-cases, inl, inr, List, [],
  ◌∷◌, ◌++◌, map, All, ok, Result-cases,
}
use mathlib.Core.List.{append-nil, append_assoc}
use marstack_govern.Environments.Lease.{Renewal}
use marstack_govern.Admission.Attribution.{
  EphemeralEnvironment, Codec, create, update, Review, patched, stored, stamp_renewals,
  environment_rule, updated, attribute, handle,
}
use marstack_govern.Admission.Attribution.Stamped.{GrantedBy, ok_inj, IsUpdate, stamp_renewals-ok}
use marstack_govern.Admission.Attribution.Answer.{handle-IsStored}

stored_inj : {a b : EphemeralEnvironment} → stored a ≡ stored b → a ≡ b
stored_inj h = cc

-- What a renewal says apart from its time: the extension, the reason and who granted it.
abbrev pub said : Renewal → String × String × String
said r = (r.extend, r.reason, r.granted_by)

-- The renewals that updates by these users appended, the latest user first.
pub data Granted : List String → List (String × String × String) → Type 0 where
  no_update : Granted [] []
  by :
      {user : String} {users : List String} (rs fresh : List (String × String × String))
      → Granted users rs
      → All (λ r. r.2 ≡ user) fresh
      → Granted (user ∷ users) (rs ++ fresh)

-- Two previews with one owner and with the same renewals, their times aside.
pub record IsSame (o p : EphemeralEnvironment) : Type 0 where
  pub same_owner : p.requested_by ≡ o.requested_by
  pub same_renewals : map said p.renewals ≡ map said o.renewals

-- Decoding what was encoded gives the owner and the renewals back. Their times it need not: a
-- `metav1.Time` is written in whole seconds, and the stamp is of the clock's nanoseconds.
abbrev pub Keeps : Codec EphemeralEnvironment → Type 0
Keeps codec =
    (o : EphemeralEnvironment) (text : String)
    → codec.encode o ≡ ok text
    → (p : EphemeralEnvironment) × (codec.decode text ≡ ok p) × IsSame o p

module _ (codec : Codec EphemeralEnvironment) (clock : ℕ → ℤ) where
  -- A text that a creation and then updates have stored: who created it, the renewals that the
  -- creation sent, and who updated it.
  pub data Stored : String → List Renewal → List String → String → Type 0 where
    created :
        (r : Review) (sent : EphemeralEnvironment) (raw : String) {text : String}
        → r.operation ≡ create
        → codec.decode r.object ≡ ok sent
        → handle environment_rule codec clock r ≡ patched raw text
        → Stored r.user sent.renewals [] text
    changed :
        {creator : String} {first : List Renewal} {users : List String} (r : Review) (raw : String)
        {text : String}
        → Stored creator first users r.old_object
        → r.operation ≡ update
        → handle environment_rule codec clock r ≡ patched raw text
        → Stored creator first (r.user ∷ users) text

  -- The preview behind a stored text.
  pub record IsAttributed (creator : String) (first : List Renewal) (users : List String)
      (text : String) : Type 0 where
    pub preview : EphemeralEnvironment
    pub added : List (String × String × String)
    pub decoded : codec.decode text ≡ ok preview
    pub owned : preview.requested_by ≡ creator
    pub grown : map said preview.renewals ≡ map said first ++ added
    pub granted : Granted users added

  updated-IsUpdate :
      (user : String) (next previous o : EphemeralEnvironment)
      → updated environment_rule codec clock user next previous ≡ stored o
      → IsUpdate user next previous o
  unfolding updated
  updated-IsUpdate user next previous o h =
      elim (Bool-cases (str_eq next.requested_by previous.requested_by)) [
        | inr e ↦ let p = rw (updated, e) at h in cc
        | inl e ↦ elim (Result-cases (stamp_renewals user clock next previous)) [
          | inr (m, q) ↦ let p = rw (updated, e, q) at h in cc
          | inl (made, q) ↦
              let same : made ≡ o = stored_inj (rw (updated, e, q) at h) in
              stamp_renewals-ok user clock next previous o ((str_eq_iff _ _).0 e) (q ∙ ap ok same)
        ]
      ]

  -- An update that is answered with an object to store: the owner and the renewals that were there
  -- are kept, and every new renewal names who sent the update, and a time.
  pub handle-IsUpdate :
      (r : Review) (previous : EphemeralEnvironment) {raw text : String}
      → r.operation ≡ update
      → codec.decode r.old_object ≡ ok previous
      → handle environment_rule codec clock r ≡ patched raw text
      → (next : EphemeralEnvironment) × (o : EphemeralEnvironment) × (codec.decode r.object
          ≡ ok next)
        × (codec.encode o ≡ ok text)
        × IsUpdate r.user next previous o
  unfolding attribute
  handle-IsUpdate r previous {raw} {text} op old h =
      let s = handle-IsStored environment_rule codec clock r raw text h in
      (
        s.next,
        s.kept,
        s.decoded,
        s.written,
        updated-IsUpdate r.user s.next previous s.kept (rw (attribute, op, old) at s.attributed),
      )

  -- A creation that is answered with an object to store stores what was sent, with the user as its
  -- owner: the renewals that it carries are kept, whoever they say granted them.
  pub handle_create :
      (r : Review) (sent : EphemeralEnvironment) {raw text : String}
      → r.operation ≡ create
      → codec.decode r.object ≡ ok sent
      → handle environment_rule codec clock r ≡ patched raw text
      → codec.encode (record sent { requested_by = r.user }) ≡ ok text
  unfolding attribute
  handle_create r sent {raw} {text} op d h =
      let s = handle-IsStored environment_rule codec clock r raw text h in
      let same : s.next ≡ sent = ok_inj (sym s.decoded ∙ d) in
      let kept : record (s.next) { requested_by = r.user } ≡ s.kept =
        stored_inj (rw (attribute, op) at s.attributed) in
      subst (λ o. codec.encode (record o { requested_by = r.user }) ≡ ok text) same
        (ap codec.encode kept ∙ s.written)

  GrantedBy-said :
      (user : String) (rs : List Renewal)
      → All (GrantedBy user) rs
      → All (λ r. r.2 ≡ user) (map said rs)
  GrantedBy-said user [] h = tt
  GrantedBy-said user (r ∷ rs) h = (h.0.0, GrantedBy-said user rs h.1)

  map-append : (xs ys : List Renewal) → map said (xs ++ ys) ≡ map said xs ++ map said ys
  map-append [] ys = refl
  map-append (x ∷ xs) ys = ap (λ rs. said x ∷ rs) (map-append xs ys)

  -- Whatever creation and updates have stored a preview: its owner is who created it, and its
  -- renewals are those that the creation sent, whoever they name, followed by renewals that each
  -- update appended and that name who sent that update. The times of the renewals are not stated;
  -- decoding is taken to give back the owner and the renewals of what was encoded, but for them.
  pub Stored-IsAttributed :
      Keeps codec
      → {creator : String} {first : List Renewal} {users : List String} {text : String}
      → Stored creator first users text
      → IsAttributed creator first users text
  Stored-IsAttributed keeps (created r sent raw {text = text} op d h) =
      let (p, read, same) = keeps _ text (handle_create r sent op d h) in
      record {
        preview = p;
        added = [];
        decoded = read;
        owned = same.same_owner;
        grown = same.same_renewals ∙ sym (append-nil (map said sent.renewals));
        granted = no_update;
      }
  Stored-IsAttributed keeps (changed {first = first} r raw {text = text} before op h) =
      let was = Stored-IsAttributed keeps before in
      let (next, o, d, w, u) = handle-IsUpdate r was.preview op was.decoded h in
      let (p, read, same) = keeps o text w in
      record {
        preview = p;
        added = was.added ++ map said u.fresh;
        decoded = read;
        owned = same.same_owner ∙ u.owner_same ∙ was.owned;
        grown =
            same.same_renewals
            ∙ ap (map said) u.renewals_appended
            ∙ map-append was.preview.renewals u.fresh
            ∙ ap (λ rs. rs ++ map said u.fresh) was.grown
            ∙ append_assoc (map said first) was.added (map said u.fresh);
        granted =
            by was.added (map said u.fresh) was.granted
              (GrantedBy-said r.user u.fresh u.fresh_granted);
      }
