-- ===== src/Api/Hub/Replay.antt =====
-- What a replay gives back after a history of events (internal/api/hub.go).
use marstack_govern.Prelude.{
  ℕ, zero, suc, ◌+◌, ◌-◌, ◌%◌, ◌^◌, ◌≤◌, ◌<◌, ◌≡◌, refl, sym, ap, subst, ◌∙◌, ◌↔◌, inl, inr, ltb,
  Bytes, true, false, List, [], ◌∷◌, length, length-drop, drop, ok, if◌then◌else◌, Bool-cases,
  ltb→lt, lt→ltb, arith,
}
use marstack_govern.Api.Cursor.{format_uint, parse_uint, parse_uint-format_uint, format_uint-some}
use marstack_govern.Api.Hub.{StreamEvent, Hub, Replayed, new_hub, after_cursor, replay_ring, replay}
use marstack_govern.Api.Hub.History.{
  drop-nil, drop-drop, stamp, publish_all, length-stamp, drop-stamp, IsAfter-new_hub,
}

module _ {P : Type 0} where
  after_cursor-first :
      (k c : ℕ) (e : StreamEvent P) (es : List (StreamEvent P))
      → parse_uint e.cursor ≡ ok c
      → after_cursor k (e ∷ es) ≡ (if ltb k c then e ∷ after_cursor k es else after_cursor k es)
  unfolding after_cursor
  after_cursor-first k c e es h = rw (h, after_cursor) refl

  after_cursor-stamp :
      (k m : ℕ) (qs : List P)
      → m + length qs < 2 ^ 64
      → after_cursor k (stamp m qs) ≡ drop (k - m) (stamp m qs)
  unfolding after_cursor
  after_cursor-stamp k m [] h = sym (drop-nil (k - m))
  after_cursor-stamp k m (q ∷ qs) h =
      let event : StreamEvent P = record { cursor = format_uint (m + 1); payload = q } in
      let rest = after_cursor-stamp k (m + 1) qs (omega arith) in
      after_cursor-first k (m + 1) event (stamp (m + 1) qs)
        (parse_uint-format_uint (m + 1) (omega arith))
      ∙ (elim (Bool-cases (ltb k (m + 1))) [
        | inl t ↦
            let l = ltb→lt k _ t in
            rw t (
              ap (λ es. event ∷ es)
                (rest ∙ ap (λ j. drop j (stamp (m + 1) qs)) {x = k - (m + 1)} {y = 0} (omega arith))
              ∙ ap (λ j. drop j (event ∷ stamp (m + 1) qs)) {x = 0} {y = k - m} (omega arith))
        | inr t ↦
            let l : m < k = ground arith in
            rw t (
              rest
              ∙ ap (λ j. drop j (event ∷ stamp (m + 1) qs)) {x = suc (k - (m + 1))} {y = k - m}
                  (omega arith))
      ])

  replay-text :
      (h : Hub P) (text : Bytes) (k : ℕ)
      → 0 < length text
      → parse_uint text ≡ ok k
      → replay h text ≡ replay_ring h.next k h.ring
  unfolding replay
  replay-text h [] k l e = ground (arith, l)
  replay-text h (b ∷ bs) k l e = rw (e, replay) refl

  replay_ring-first :
      (next k c : ℕ) (e : StreamEvent P) (es : List (StreamEvent P))
      → parse_uint e.cursor ≡ ok c
      → k + 1 < 2 ^ 64
      → replay_ring next k (e ∷ es) ≡ (
          if ltb (k + 1) c
          then record { events = []; complete = false }
          else record { events = after_cursor k (e ∷ es); complete = true })
  unfolding replay_ring
  replay_ring-first next k c e es h l =
      let w : (k + 1) % 2 ^ 64 ≡ k + 1 = omega arith in rw (h, replay_ring, w) refl

  -- The replay of a ring that holds the events `m + 1` to `m + length qs`.
  replay_ring-stamp :
      (next k m : ℕ) (qs : List P)
      → 0 < length qs
      → m + length qs < 2 ^ 64
      → k + 1 < 2 ^ 64
      → replay_ring next k (stamp m qs) ≡ (
          if ltb k m
          then record { events = []; complete = false }
          else record { events = drop (k - m) (stamp m qs); complete = true })
  replay_ring-stamp next k m [] z h l = ground (arith, z)
  replay_ring-stamp next k m (q ∷ qs) z h l =
      replay_ring-first next k (m + 1) (record { cursor = format_uint (m + 1); payload = q })
        (stamp (m + 1) qs) (parse_uint-format_uint (m + 1) (omega arith)) l
      ∙ (elim (Bool-cases (ltb k m)) [
        | inl t ↦
            let a = ltb→lt k m t in let b = lt→ltb (k + 1) (m + 1) (omega arith) in rw (t, b) refl
        | inr t ↦
            let b : ltb (k + 1) (m + 1) ≡ false = ground arith in
            rw (t, b)
              (ap (λ es. record { events = es; complete = true })
                (after_cursor-stamp k m (q ∷ qs) h))
      ])

-- What is claimed of a replay from `k`.
abbrev pub IsReplay : {P : Type 0} → ℕ → ℕ → List P → Replayed P → Type 0
IsReplay size k history r =
    ((r.complete ≡ true) ↔ (length history ≤ k + size))
    × (r.complete ≡ true → r.events ≡ drop k (stamp 0 history))
    × (r.complete ≡ false → r.events ≡ [])

abbrev latest : {P : Type 0} → ℕ → ℕ → List (StreamEvent P) → Replayed P
latest k m es =
    if ltb k m
    then record { events = []; complete = false }
    else record { events = drop (k - m) es; complete = true }

IsReplay-latest :
    {P : Type 0} (size k : ℕ) (history : List P)
    → IsReplay size k history
        (latest k (length history - size) (drop (length history - size) (stamp 0 history)))
IsReplay-latest size k history =
    let m = length history - size in
    elim (Bool-cases (ltb k m)) [
      | inl t ↦
          let l = ltb→lt k m t in
          rw t
            ((λ e. ground (arith, e), λ e. ground (arith, l, e)), λ e. ground (arith, e), λ _. refl)
      | inr t ↦
          let l : m ≤ k = ground arith in
          rw t (
            (λ _. omega arith, λ _. refl),
            λ _. drop-drop (k - m) m k (stamp 0 history) (omega arith),
            λ e. ground (arith, e),
          )
    ]

replay-latest :
    {P : Type 0} (size k : ℕ) (history : List P)
    → 0 < size
    → 0 < length history
    → k + 1 < 2 ^ 64
    → length history + 1 < 2 ^ 64
    → let m = length history - size in
      replay (publish_all (new_hub size) history) (format_uint k)
      ≡ latest k m (drop m (stamp 0 history))
replay-latest size k history z s l h =
    let hub = publish_all (new_hub size) history in
    let m = length history - size in
    let a = IsAfter-new_hub size history z (omega arith) in
    let ring = drop-stamp m 0 history in
    replay-text hub (format_uint k) k (format_uint-some k) (parse_uint-format_uint k (omega arith))
    ∙ (ap (replay_ring hub.next k) (a.2 ∙ ring)
        ∙ (replay_ring-stamp hub.next k (0 + m) (drop m history)
              (omega (arith, length-drop m history, z)) (omega (arith, length-drop m history)) l
            ∙ (ap (λ j. latest k j (stamp (0 + m) (drop m history))) {x = 0 + m} {y = m}
                  (omega arith)
                ∙ ap (latest k m) (sym ring))))

-- After a history of fewer than 2^64 - 1 events on a new hub with a positive ring size, a replay
-- from the cursor of the event with number `k` is complete exactly when at most as many events
-- follow it as the ring holds; it then gives the events after `k`, all of them and in their order,
-- and it gives none when it is not complete.
pub replay-history :
    {P : Type 0} (size k : ℕ) (history : List P)
    → 0 < size
    → k ≤ length history
    → length history + 1 < 2 ^ 64
    → IsReplay size k history (replay (publish_all (new_hub size) history) (format_uint k))
unfolding replay_ring new_hub
replay-history size k [] z l h =
    subst (IsReplay size k [])
      (sym (
        replay-text (new_hub size) (format_uint k) k (format_uint-some k)
          (parse_uint-format_uint k (omega arith))))
      ((λ _. omega arith, λ _. ground (arith, l)), λ _. sym (drop-nil k), λ _. ground arith)
replay-history size k (p ∷ ps) z l h =
    subst (IsReplay size k (p ∷ ps))
      (sym (replay-latest size k (p ∷ ps) z (omega arith) (omega arith) h))
      (IsReplay-latest size k (p ∷ ps))

drop-all {ℓ} : {A : Type ℓ} (n : ℕ) (xs : List A) → length xs ≤ n → drop n xs ≡ []
drop-all n [] h = drop-nil n
drop-all zero (x ∷ xs) h = ground (arith, h)
drop-all (suc n) (x ∷ xs) h = drop-all n xs (omega arith)

-- A cursor that the hub has not given yet, such as one from before a restart, is answered with a
-- replay that calls itself complete and is empty, once the hub has published some event.
pub replay-ahead :
    {P : Type 0} (size k : ℕ) (history : List P)
    → 0 < size
    → 0 < length history
    → length history < k
    → k + 1 < 2 ^ 64
    → replay (publish_all (new_hub size) history) (format_uint k)
      ≡ record { events = []; complete = true }
replay-ahead size k history z s l h =
    let m = length history - size in
    let t : ltb k m ≡ false = ground arith in
    replay-latest size k history z s h (omega arith)
    ∙ (rw t (
        ap (λ es. record { events = es; complete = true })
          (drop-drop (k - m) m k (stamp 0 history) (omega arith)
            ∙ drop-all k (stamp 0 history) (omega (arith, length-stamp 0 history)))))
