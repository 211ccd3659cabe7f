-- ===== src/Prelude/Sort.antt =====
-- Go's stable sort (sort.SliceStable, sort.Strings), as insertion: its result is determined by the
-- order, since a stable sort is unique.
use Prim.Native.Nat.{suc, Ordering}
use Prim.Native.String.{String, compare}
use mathlib.Core.Path.{◌≡◌, refl, ap, ◌∙◌}
use mathlib.Core.Bool.{Bool, true, false}
use mathlib.Core.List.{List, [], ◌∷◌, Perm}
use mathlib.Core.List.Perm
use native.Mathlib.Omega.{arith}
use marstack_govern.Prelude.Lists.{length, All}

module _ {ℓ} {A : Type ℓ} (less : A → A → Bool) where
  -- Before the first element that is not less than `x`: used from the back, so that equal
  -- elements keep their order.
  unfoldable pub insert_sorted : A → List A → List A
  insert_sorted x [] = x ∷ []
  insert_sorted x (y ∷ ys) = elim (less y x) [ true ↦ y ∷ insert_sorted x ys | false ↦ x ∷ y ∷ ys ]

  unfoldable pub stable_sort : List A → List A
  unfolding insert_sorted
  stable_sort [] = []
  stable_sort (x ∷ xs) = insert_sorted x (stable_sort xs)

  length-insert_sorted : (x : A) (ys : List A) → length (insert_sorted x ys) ≡ suc (length ys)
  unfolding insert_sorted
  length-insert_sorted x [] = refl
  length-insert_sorted x (y ∷ ys) = ground (arith, length-insert_sorted x ys)

  pub length-stable_sort : (xs : List A) → length (stable_sort xs) ≡ length xs
  unfolding stable_sort
  length-stable_sort [] = refl
  length-stable_sort (x ∷ xs) =
      length-insert_sorted x (stable_sort xs) ∙ ap suc (length-stable_sort xs)

  All-insert_sorted {κ} :
      (P : A → Type κ) (x : A) (ys : List A) → P x → All P ys → All P (insert_sorted x ys)
  unfolding insert_sorted
  All-insert_sorted P x [] p h = (p, h)
  All-insert_sorted P x (y ∷ ys) p h =
      (elim (less y x)
        as (λ b. All P (elim b [ true ↦ y ∷ insert_sorted x ys | false ↦ x ∷ y ∷ ys ])) [
          | true ↦ (h.0, All-insert_sorted P x ys p h.1)
          | false ↦ (p, h)
        ])

  pub All-stable_sort {κ} : (P : A → Type κ) (xs : List A) → All P xs → All P (stable_sort xs)
  unfolding stable_sort
  All-stable_sort P [] h = h
  All-stable_sort P (x ∷ xs) h =
      All-insert_sorted P x (stable_sort xs) h.0 (All-stable_sort P xs h.1)

  Perm-insert_sorted : (x : A) (ys : List A) → Perm (insert_sorted x ys) (x ∷ ys)
  unfolding insert_sorted
  Perm-insert_sorted x [] = Perm.rfl
  Perm-insert_sorted x (y ∷ ys) =
      (elim (less y x)
        as (λ b.
          Perm (elim b [ true ↦ y ∷ insert_sorted x ys | false ↦ x ∷ y ∷ ys ]) (x ∷ y ∷ ys)) [
            | true ↦ Perm.trans (Perm.cons y (Perm-insert_sorted x ys)) (Perm.swap x y ys)
            | false ↦ Perm.rfl
          ])

  pub Perm-stable_sort : (xs : List A) → Perm (stable_sort xs) xs
  unfolding stable_sort
  Perm-stable_sort [] = Perm.rfl
  Perm-stable_sort (x ∷ xs) =
      Perm.trans (Perm-insert_sorted x (stable_sort xs)) (Perm.cons x (Perm-stable_sort xs))

-- `a < b` on Go's strings, which are compared byte by byte.
unfoldable pub str_less : String → String → Bool
str_less a b = elim (compare a b) [ Ordering.lt ↦ true | _ ↦ false ]
