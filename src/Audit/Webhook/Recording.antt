-- ===== src/Audit/Webhook/Recording.antt =====
-- What the receiver of internal/audit/webhook.go records, and for whom.
use marstack_govern.Prelude.{
  ℕ, ◌==◌, ==_iff, ltb, Bytes, bytes_eq, bytes_eq_iff, true, false, Bool-cases, Option-cases, List,
  [], ◌∷◌, ◌++◌, some, Result, ok, Result-cases, ◌≡◌, ◌≢◌, refl, sym, ap, subst, ◌∙◌, ◌↔◌, ◌⊎◌, inl,
  inr, arith,
}
use marstack_govern.Audit.Event.{Event, Libs}
use marstack_govern.Audit.Chain.{World, Faults, append}
use marstack_govern.Audit.Delivery.{Delivered, append-Delivered}
use marstack_govern.Audit.Webhook.{
  Item, Wire, Receiver, bearer, cut_prefix, authorised, convert_all, record_items, serve_http,
}

cut_prefix→eq : (ps bytes rest : Bytes) → cut_prefix ps bytes ≡ some rest → bytes ≡ ps ++ rest
unfolding cut_prefix
cut_prefix→eq [] bytes rest h = cc
cut_prefix→eq (p ∷ ps) [] rest h = cc
cut_prefix→eq (p ∷ ps) (b ∷ bs) rest h = elim (Bool-cases (p == b)) [
  | inr e ↦ let q = rw (cut_prefix, e) at h in cc
  | inl e ↦
      let more : bs ≡ ps ++ rest = cut_prefix→eq ps bs rest (rw (cut_prefix, e) at h) in
      let head : p ≡ b = (==_iff p b).0 e in cc
]

cut_prefix-append : (ps rest : Bytes) → cut_prefix ps (ps ++ rest) ≡ some rest
unfolding cut_prefix
cut_prefix-append [] rest = refl
cut_prefix-append (p ∷ ps) rest = rw (cut_prefix, (==_iff p p).1 refl) (cut_prefix-append ps rest)

authorised→header :
    (r : Receiver) (header : Bytes)
    → authorised r header ≡ true
    → (r.token ≢ []) × (header ≡ bearer ++ r.token)
unfolding authorised
authorised→header r header h = elim (Bool-cases (bytes_eq r.token [])) [
  | inl e ↦ let q = rw (authorised, e) at h in cc
  | inr e ↦ elim (Option-cases (cut_prefix bearer header)) [
    | inl c ↦ let q = rw (authorised, e, c) at h in cc
    | inr (presented, c) ↦
        let same : presented ≡ r.token =
          (bytes_eq_iff presented r.token).0 (rw (authorised, e, c) at h) in
        (
          λ empty. let t : bytes_eq r.token [] ≡ true = (bytes_eq_iff r.token []).1 empty in cc,
          cut_prefix→eq bearer header presented c ∙ ap (λ t. bearer ++ t) same,
        )
  ]
]

authorised-cut :
    (r : Receiver) (header presented : Bytes)
    → bytes_eq r.token [] ≡ false
    → cut_prefix bearer header ≡ some presented
    → authorised r header ≡ bytes_eq presented r.token
unfolding authorised
authorised-cut r header presented e c = rw (authorised, e, c) refl

header→authorised : (r : Receiver) → r.token ≢ [] → authorised r (bearer ++ r.token) ≡ true
unfolding authorised
header→authorised r some_token = elim (Bool-cases (bytes_eq r.token [])) [
  | inl e ↦ absurd (some_token ((bytes_eq_iff r.token []).0 e))
  | inr e ↦
      authorised-cut r (bearer ++ r.token) r.token e (cut_prefix-append bearer r.token)
      ∙ (bytes_eq_iff r.token r.token).1 refl
]

-- A request is authorised exactly when a token is configured and its header is "Bearer " followed by
-- that token.
pub authorised_iff :
    (r : Receiver) (header : Bytes)
    → (authorised r header ≡ true) ↔ ((r.token ≢ []) × (header ≡ bearer ++ r.token))
authorised_iff r header = (
  authorised→header r header,
  λ (some_token, same).
      subst (λ h. authorised r h ≡ true) (sym same) (header→authorised r some_token),
)

above_200 : (s : ℕ) → ltb 200 s ≡ true → s ≢ 200
above_200 s above same = ground (arith, above, same)

module _ (lib : Libs) (f : Faults) (r : Receiver) (wire : Wire) where
  -- What a status of 200 stands for: an authorised batch whose converted events were delivered.
  pub record IsRecorded (header : Bytes) (w w' : World) : Type 0 where
    pub body : Bytes
    pub items : List Item
    pub is_authorised : authorised r header ≡ true
    pub read : wire.body ≡ ok body
    pub decoded : wire.decode body ≡ ok items
    pub kept :
        ((convert_all r wire items ≡ []) × (w' ≡ w))
        ⊎ ((n : ℕ) × Delivered lib w w' (convert_all r wire items) n)

  append_kept :
      (w : World) (events : List Event) (n : ℕ)
      → (append lib f w events).1 ≡ ok n
      → ((events ≡ []) × ((append lib f w events).0 ≡ w))
        ⊎ ((n : ℕ) × Delivered lib w (append lib f w events).0 events n)
  unfolding append
  append_kept w [] n h = inl (refl, refl)
  append_kept w (e ∷ es) n h = inr (n, append-Delivered lib f w e es n h)

  record_items-200 :
      (items : List Item) (w w' : World)
      → record_items lib f r wire items w ≡ (w', 200)
      → ((convert_all r wire items ≡ []) × (w' ≡ w))
        ⊎ ((n : ℕ) × Delivered lib w w' (convert_all r wire items) n)
  unfolding record_items
  record_items-200 items w w' h =
      let done : World × Result ℕ = append lib f w (convert_all r wire items) in
      elim (Result-cases (append lib f w (convert_all r wire items)).1) [
        | inr (e, p) ↦ absurd (above_200 503 refl (ap (λ a. a.1) (rw (record_items, p) at h)))
        | inl (n, p) ↦
            let same : (append lib f w (convert_all r wire items)).0 ≡ w' =
              ap (λ a. a.0) (rw (record_items, p) at h) in
            subst
              (λ v.
                ((convert_all r wire items ≡ []) × (v ≡ w))
                ⊎ ((n : ℕ) × Delivered lib w v (convert_all r wire items) n))
              same (append_kept w (convert_all r wire items) n p)
      ]

  -- A batch that is answered with 200 was authorised and decoded, and the events converted from it
  -- went to the trail: they were appended to the table, but for those whose id it had already, and
  -- to the archive where there is one. Where the batch converts to no event, nothing changes.
  pub serve_http-IsRecorded :
      (header : Bytes) (w w' : World)
      → serve_http lib f r wire header w ≡ (w', 200)
      → IsRecorded header w w'
  unfolding serve_http
  serve_http-IsRecorded header w w' h = elim (Bool-cases (authorised r header)) [
    | inr a ↦ absurd (above_200 401 refl (ap (λ s. s.1) (rw (serve_http, a) at h)))
    | inl a ↦ elim (Result-cases wire.body) [
      | inr (e, b) ↦ absurd (above_200 400 refl (ap (λ s. s.1) (rw (serve_http, a, b) at h)))
      | inl (body, b) ↦ elim (Result-cases (wire.decode body)) [
        | inr (e, d) ↦ absurd (above_200 400 refl (ap (λ s. s.1) (rw (serve_http, a, b, d) at h)))
        | inl (items, d) ↦ record {
          body = body;
          items = items;
          is_authorised = a;
          read = b;
          decoded = d;
          kept = record_items-200 items w w' (rw (serve_http, a, b, d) at h);
        }
      ]
    ]
  ]
