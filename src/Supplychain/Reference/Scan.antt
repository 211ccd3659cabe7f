-- ===== src/Supplychain/Reference/Scan.antt =====
-- How the scans of internal/supplychain/reference.go take a joined text apart.
use marstack_govern.Prelude.{
  ℕ, ◌==◌, ==_iff, ◌≡◌, refl, Bytes, false, ◌||◌, [], ◌∷◌, ◌++◌, none, some, arith, Bool-cases, inl,
  inr,
}
use marstack_govern.Supplychain.Reference.{has_byte, cut, cut_last}

pub has_byte-append :
    (c : ℕ) (xs ys : Bytes) → has_byte c (xs ++ ys) ≡ (has_byte c xs || has_byte c ys)
unfolding has_byte
has_byte-append c [] ys = refl
has_byte-append c (x ∷ xs) ys = ground (arith, has_byte-append c xs ys)

pub cut-append :
    (c : ℕ) (xs ys : Bytes) → has_byte c xs ≡ false → cut c (xs ++ (c ∷ ys)) ≡ some (xs, ys)
unfolding cut has_byte
cut-append c [] ys h = rw ((==_iff c c).1 refl, cut) refl
cut-append c (x ∷ xs) ys h = elim (Bool-cases (x == c)) [
  | inl e ↦ ground (arith, e, h)
  | inr e ↦ rw (e, cut, cut-append c xs ys (ground (arith, e, h))) refl
]

pub cut_absent : (c : ℕ) (xs : Bytes) → has_byte c xs ≡ false → cut c xs ≡ none
unfolding cut has_byte
cut_absent c [] h = refl
cut_absent c (x ∷ xs) h = elim (Bool-cases (x == c)) [
  | inl e ↦ ground (arith, e, h)
  | inr e ↦ rw (e, cut, cut_absent c xs (ground (arith, e, h))) refl
]

pub cut_last_absent : (c : ℕ) (xs : Bytes) → has_byte c xs ≡ false → cut_last c xs ≡ none
unfolding cut_last has_byte
cut_last_absent c [] h = refl
cut_last_absent c (x ∷ xs) h = elim (Bool-cases (x == c)) [
  | inl e ↦ ground (arith, e, h)
  | inr e ↦ rw (cut_last_absent c xs (ground (arith, e, h)), cut_last, e) refl
]

pub cut_last-append :
    (c : ℕ) (xs ys : Bytes) → has_byte c ys ≡ false → cut_last c (xs ++ (c ∷ ys)) ≡ some (xs, ys)
unfolding cut_last has_byte
cut_last-append c [] ys h = rw (cut_last_absent c ys h, cut_last, (==_iff c c).1 refl) refl
cut_last-append c (x ∷ xs) ys h = rw (cut_last-append c xs ys h, cut_last) refl
