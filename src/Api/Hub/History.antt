-- ===== src/Api/Hub/History.antt =====
-- What a hub holds after a history of events (internal/api/hub.go).
use marstack_govern.Prelude.{
  ℕ, zero, suc, ◌+◌, ◌-◌, ◌%◌, ◌^◌, ◌≤◌, ◌<◌, ◌≡◌, refl, sym, ap, subst, ◌∙◌, inl, inr, ltb, List,
  [], ◌∷◌, ◌++◌, length, length-append, length-drop, drop, Bool-cases, ltb→lt, arith,
}
use marstack_govern.Api.Cursor.{format_uint}
use marstack_govern.Api.Hub.{StreamEvent, Hub, new_hub, keep, publish}

module _ {ℓ} {A : Type ℓ} where
  pub drop-nil : (n : ℕ) → drop {A = A} n [] ≡ []
  drop-nil zero = refl
  drop-nil (suc n) = refl

  drop-append : (n : ℕ) (xs ys : List A) → n ≤ length xs → drop n (xs ++ ys) ≡ drop n xs ++ ys
  drop-append zero xs ys h = refl
  drop-append (suc n) [] ys h = ground (arith, h)
  drop-append (suc n) (x ∷ xs) ys h = drop-append n xs ys (omega arith)

  pub drop-drop : (n m k : ℕ) (xs : List A) → k ≡ m + n → drop n (drop m xs) ≡ drop k xs
  drop-drop n zero k xs h = ap (λ j. drop j xs) (omega arith)
  drop-drop n (suc m) k [] h = drop-nil n ∙ sym (drop-nil k)
  drop-drop n (suc m) zero (x ∷ xs) h = ground (arith, h)
  drop-drop n (suc m) (suc k) (x ∷ xs) h = drop-drop n m k xs (omega arith)

  append-nil : (xs : List A) → xs ++ [] ≡ xs
  append-nil [] = refl
  append-nil (x ∷ xs) = ap (λ ys. x ∷ ys) (append-nil xs)

  append-snoc : (xs ys : List A) (x : A) → (xs ++ (x ∷ [])) ++ ys ≡ xs ++ (x ∷ ys)
  append-snoc [] ys x = refl
  append-snoc (z ∷ xs) ys x = ap (λ zs. z ∷ zs) (append-snoc xs ys x)

module _ {P : Type 0} where
  -- The events of a history, with the cursors that follow `i`.
  abbrev pub stamp : ℕ → List P → List (StreamEvent P)
  stamp i [] = []
  stamp i (p ∷ ps) = (record { cursor = format_uint (i + 1); payload = p }) ∷ stamp (i + 1) ps

  abbrev pub publish_all : Hub P → List P → Hub P
  publish_all h [] = h
  publish_all h (p ∷ ps) = publish_all (publish h p) ps

  pub length-stamp : (i : ℕ) (ps : List P) → length (stamp i ps) ≡ length ps
  length-stamp i [] = refl
  length-stamp i (p ∷ ps) = ap suc (length-stamp (i + 1) ps)

  stamp-snoc :
      (i : ℕ) (ps : List P) (p : P)
      → stamp i (ps ++ (p ∷ []))
        ≡ stamp i ps ++ ((record { cursor = format_uint (i + length ps + 1); payload = p }) ∷ [])
  stamp-snoc i [] p =
      ap (λ k. record { cursor = format_uint (k + 1); payload = p } ∷ []) (omega arith)
  stamp-snoc i (q ∷ ps) p =
      ap (λ es. record { cursor = format_uint (i + 1); payload = q } ∷ es)
        (stamp-snoc (i + 1) ps p
          ∙ ap (λ k. stamp (i + 1) ps ++ (record { cursor = format_uint k; payload = p } ∷ []))
              (omega arith))

  pub drop-stamp : (m i : ℕ) (ps : List P) → drop m (stamp i ps) ≡ stamp (i + m) (drop m ps)
  drop-stamp zero i ps = ap (λ k. stamp k ps) (omega arith)
  drop-stamp (suc m) i [] = refl
  drop-stamp (suc m) i (p ∷ ps) =
      drop-stamp m (i + 1) ps ∙ ap (λ k. stamp k (drop m ps)) (omega arith)

  keep-drop :
      (size : ℕ) (xs : List (StreamEvent P)) (e : StreamEvent P)
      → keep size (drop (length xs - size) xs ++ (e ∷ []))
        ≡ drop (suc (length xs) - size) (xs ++ (e ∷ []))
  unfolding keep
  keep-drop size xs e =
      let cut = length xs - size in
      let n : length (drop cut xs ++ (e ∷ [])) ≡ length xs - cut + 1 =
        length-append (drop cut xs) (e ∷ []) ∙ ap (λ k. k + 1) (length-drop cut xs) in
      let joined = drop-append cut xs (e ∷ []) (omega arith) in
      elim (Bool-cases (ltb size (length (drop cut xs ++ (e ∷ []))))) [
        | inl t ↦
            let l = ltb→lt size _ t in
            rw t (ap (drop _) (sym joined) ∙ drop-drop _ cut _ (xs ++ (e ∷ [])) (omega (arith, n)))
        | inr t ↦
            let l : length xs < size = ground (arith, n, t) in
            rw t (sym joined ∙ ap (λ k. drop k (xs ++ (e ∷ []))) (omega arith))
      ]

  -- What a hub holds after a history: the number of events, and the latest of them.
  abbrev pub IsAfter : ℕ → List P → Hub P → Type 0
  IsAfter size ps h =
      (h.ring_size ≡ size) × (h.next ≡ length ps) × (h.ring ≡ drop (length ps - size) (stamp 0 ps))

  publish-IsAfter :
      (size : ℕ) (ps : List P) (h : Hub P) (p : P)
      → IsAfter size ps h
      → length ps + 1 < 2 ^ 64
      → IsAfter size (ps ++ (p ∷ [])) (publish h p)
  unfolding publish
  publish-IsAfter size ps h p (s, n, r) k =
      let count = length-append ps (p ∷ []) in
      let event : ℕ → StreamEvent P = λ c. record { cursor = format_uint c; payload = p } in
      let next : (h.next + 1) % 2 ^ 64 ≡ length ps + 1 = omega (arith, n) in
      let same = length-stamp 0 ps in
      (
        s,
        omega (arith, n, count),
        ap (λ c. keep h.ring_size (h.ring ++ (event c ∷ []))) next
            ∙ (ap (λ z. keep z (h.ring ++ (event (length ps + 1) ∷ []))) s
                ∙ (ap (λ es. keep size (es ++ (event (length ps + 1) ∷ []))) r
                    ∙ (ap
                          (λ l.
                            keep size
                              (drop (l - size) (stamp 0 ps) ++ (event (length ps + 1) ∷ [])))
                          (sym same)
                        ∙ (keep-drop size (stamp 0 ps) (event (length ps + 1))
                            ∙ (ap
                                  (λ c.
                                    drop (suc (length (stamp 0 ps)) - size)
                                      (stamp 0 ps ++ (event c ∷ [])))
                                  {x = length ps + 1} {y = 0 + length ps + 1} (omega arith)
                                ∙ (ap (drop _) (sym (stamp-snoc 0 ps p))
                                    ∙ ap (λ m. drop m (stamp 0 (ps ++ (p ∷ []))))
                                        (omega (arith, count, same)))))))),
      )

  publish_all-IsAfter :
      (size : ℕ) (before : List P) (h : Hub P) (ps : List P)
      → IsAfter size before h
      → length before + length ps < 2 ^ 64
      → IsAfter size (before ++ ps) (publish_all h ps)
  publish_all-IsAfter size before h [] a k =
      subst (λ ps. IsAfter size ps h) (sym (append-nil before)) a
  publish_all-IsAfter size before h (p ∷ ps) a k =
      subst (λ qs. IsAfter size qs (publish_all (publish h p) ps)) (append-snoc before ps p)
        (publish_all-IsAfter size (before ++ (p ∷ [])) (publish h p) ps
          (publish-IsAfter size before h p a (omega arith))
          (omega (arith, length-append before (p ∷ []))))

  -- The history of a new hub, with a positive ring size.
  pub IsAfter-new_hub :
      (size : ℕ) (ps : List P)
      → 0 < size
      → length ps < 2 ^ 64
      → IsAfter size ps (publish_all (new_hub size) ps)
  unfolding new_hub
  IsAfter-new_hub size ps z k =
      publish_all-IsAfter size [] (new_hub size) ps
        (ground (arith, z), refl, sym (drop-nil (0 - size))) (omega arith)
