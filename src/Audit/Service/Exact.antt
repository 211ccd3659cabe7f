-- ===== src/Audit/Service/Exact.antt =====
-- What the answer of `VerifyChain` means (internal/audit/service.go).
use marstack_govern.Prelude.{
  ◌^◌, ◌≤◌, pos, String, str_eq, str_eq_iff, Bytes, Bool, true, false, Bool-cases, Option-cases,
  List, [], ◌∷◌, All, select, get_elem?, none, some, ok, ◌≡◌, refl, sym, ap, ◌∙◌, ◌↔◌, inl, inr,
  arith, ltb_ℤ,
}
use marstack_govern.Audit.Event.{Event, Libs}
use marstack_govern.Audit.Table.{last_hash}
use marstack_govern.Audit.Verify.{Verification, broken, verify}
use marstack_govern.Audit.Integrity.{IsChain, verify_iff}
use marstack_govern.Audit.Service.{
  Record, Ask, Sources, verified, last_asked, first_asked, in_range, events_of, range,
  archived_hash, compare_records, located, numbered, verify_records, verify_chain,
}

-- A signed-in call for the whole trail.
abbrev pub whole : Bool → Ask
whole compared = record {
  signed_in = true;
  from_seq = pos 0;
  to_seq = pos 0;
  compare_archive = compared;
}

-- The store answers with these records, and the archive with these lines.
abbrev pub answering : List Record → List Event → Sources
answering records lines = record {
  at_start = none;
  at_range = none;
  records = records;
  archive = some (ok lines);
}

-- Sequence numbers start at 1.
abbrev pub IsNumbered : List Record → Type 0
IsNumbered = All (λ r. (1 ≤ r.seq) × (r.seq ≤ 2 ^ 62))

-- A record whose archived copy has the record's hash.
abbrev pub IsArchived : (Bytes → String) → List Event → Record → Type 0
IsArchived hex lines r =
    (h : Bytes) × (archived_hash r.event.audit_id lines ≡ some h) × (hex h ≡ hex r.event.hash)

intact-located : (rs : List Record) (v : Verification) → (located rs v).intact ≡ v.intact
unfolding located
intact-located rs v = elim (Option-cases (get_elem? rs v.broken_at_seq)) [
  | inl e ↦ rw (located, e) refl
  | inr (r, e) ↦ elim (Bool-cases v.intact) [
    | inl i ↦ rw (located, e, i) refl
    | inr i ↦ rw (located, e, i) refl
  ]
]

intact-numbered : (rs : List Record) (v : Verification) → (numbered rs v).intact ≡ v.intact
unfolding numbered
intact-numbered [] v = refl
intact-numbered (r ∷ rs) v = intact-located (r ∷ rs) _

select-in_range :
    (rs : List Record) → IsNumbered rs → select (in_range (pos 1) (pos (2 ^ 62))) rs ≡ rs
unfolding select in_range
select-in_range [] n = refl
select-in_range (r ∷ rs) n =
    let here : in_range (pos 1) (pos (2 ^ 62)) r ≡ true = ground (arith, n.0.0, n.0.1) in
    rw (select, here) (ap (λ t. r ∷ t) (select-in_range rs n.1))

select_before : (rs : List Record) → IsNumbered rs → select (λ r. ltb_ℤ (pos r.seq) (pos 1)) rs ≡ []
unfolding select
select_before [] n = refl
select_before (r ∷ rs) n =
    let here : ltb_ℤ (pos r.seq) (pos 1) ≡ false = ground (arith, n.0.0) in
    rw (select, here) (select_before rs n.1)

module _ (lib : Libs) (hex : Bytes → String) where
  pub verify_chain-whole :
      (compared : Bool) (records : List Record) (lines : List Event)
      → IsNumbered records
      → verify_chain lib hex (whole compared) (answering records lines)
        ≡ verify_records lib hex (whole compared) (answering records lines) records []
  unfolding verify_chain range last_asked events_of last_hash first_asked
  verify_chain-whole compared records lines n =
      rw (verify_chain, range, select-in_range records n, select_before records n) refl

  compare_records-archived :
      (lines : List Event) (r : Record) (rs : List Record) (v : Verification)
      → IsArchived hex lines r
      → compare_records hex lines (r ∷ rs) v ≡ compare_records hex lines rs v
  unfolding compare_records
  compare_records-archived lines r rs v (h, found, same) =
      rw (compare_records, found, (str_eq_iff _ _).1 same) refl

  compare_records→IsArchived :
      (lines : List Event) (r : Record) (rs : List Record) (v : Verification)
      → (compare_records hex lines (r ∷ rs) v).intact ≡ true
      → IsArchived hex lines r
  unfolding compare_records broken
  compare_records→IsArchived lines r rs v i =
      elim (Option-cases (archived_hash r.event.audit_id lines)) [
        | inl e ↦ let p = rw (compare_records, e) at i in cc
        | inr (h, e) ↦ elim (Bool-cases (str_eq (hex h) (hex r.event.hash))) [
          | inl s ↦ (h, e, (str_eq_iff _ _).0 s)
          | inr s ↦ let p = rw (compare_records, e, s) at i in cc
        ]
      ]

  compare_records→intact :
      (lines : List Event) (rs : List Record) (v : Verification)
      → (compare_records hex lines rs v).intact ≡ true
      → (v.intact ≡ true) × All (IsArchived hex lines) rs
  compare_records→intact lines [] v i = (unfold compare_records in i, tt)
  compare_records→intact lines (r ∷ rs) v i =
      let here = compare_records→IsArchived lines r rs v i in
      let (intact, more) =
        compare_records→intact lines rs v (rw (compare_records-archived lines r rs v here) at i) in
      (intact, (here, more))

  intact→compare_records :
      (lines : List Event) (rs : List Record) (v : Verification)
      → v.intact ≡ true
      → All (IsArchived hex lines) rs
      → (compare_records hex lines rs v).intact ≡ true
  intact→compare_records lines [] v i a = unfold compare_records in i
  intact→compare_records lines (r ∷ rs) v i a =
      rw (compare_records-archived lines r rs v a.0) (intact→compare_records lines rs v i a.1)

  -- The verification in the answer for the whole trail.
  whole_answer : Bool → List Record → List Event → Verification
  whole_answer true records lines =
      compare_records hex lines records
        (record (numbered records (verify lib (events_of records) [])) { archive_checked = true })
  whole_answer false records lines = numbered records (verify lib (events_of records) [])

  answered :
      (compared : Bool) (records : List Record) (lines : List Event)
      → IsNumbered records
      → verify_chain lib hex (whole compared) (answering records lines)
        ≡ verified (whole_answer compared records lines)
  unfolding verify_records whole_answer
  answered true records lines n = verify_chain-whole true records lines n
  answered false records lines n = verify_chain-whole false records lines n

  -- What an intact answer says.
  abbrev pub IsIntact : Bool → List Record → List Event → Type 0
  IsIntact true records lines =
      IsChain lib [] (events_of records) × All (IsArchived hex lines) records
  IsIntact false records lines = IsChain lib [] (events_of records)

  verify-numbered :
      (records : List Record)
      → ((numbered records (verify lib (events_of records) [])).intact ≡ true)
        ↔ IsChain lib [] (events_of records)
  verify-numbered records =
      let same = intact-numbered records (verify lib (events_of records) []) in
      let both = verify_iff lib (events_of records) [] in
      (λ i. both.0 (sym same ∙ i), λ c. same ∙ both.1 c)

  whole_answer_iff :
      (compared : Bool) (records : List Record) (lines : List Event)
      → ((whole_answer compared records lines).intact ≡ true) ↔ IsIntact compared records lines
  unfolding whole_answer
  whole_answer_iff false records lines = verify-numbered records
  whole_answer_iff true records lines =
      let both = verify-numbered records in
      let v = record (numbered records (verify lib (events_of records) [])) {
        archive_checked = true;
      } in
      (
        λ i.
            let (intact, archived) = compare_records→intact lines records v i in
            (both.0 intact, archived),
        λ (c, a). intact→compare_records lines records v (both.1 c) a,
      )

  -- A signed-in call of `VerifyChain` for the whole trail, where the database and the archive answer
  -- and the sequence numbers start at 1, is answered with a verification, which is intact exactly
  -- when every event follows the one before it and, where the archive is compared, the archive's
  -- last line for each event has its hash.
  pub verify_chain_iff :
      (compared : Bool) (records : List Record) (lines : List Event)
      → IsNumbered records
      → (v : Verification) × (verify_chain lib hex (whole compared) (answering records lines)
          ≡ verified v)
        × ((v.intact ≡ true) ↔ IsIntact compared records lines)
  verify_chain_iff compared records lines n = (
    whole_answer compared records lines,
    answered compared records lines n,
    whole_answer_iff compared records lines,
  )
