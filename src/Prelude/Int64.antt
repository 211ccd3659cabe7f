-- ===== src/Prelude/Int64.antt =====
-- Go's int64: an integer reduced modulo 2^64 into [-2^63, 2^63).
use Prim.Native.Nat.{ℕ, ◌+◌, ◌-◌, ◌%◌, ◌^◌, ◌≤◌, ◌<◌}
use mathlib.Core.Path.{◌≡◌, refl}
use mathlib.Core.Logic.{◌⊎◌, inl, inr}
use native.Mathlib.Omega.{arith}
use marstack_govern.Prelude.Tests.{ltb, if◌then◌else◌}
use marstack_govern.Prelude.Int.{
  ℤ, pos, negsuc, pos_part, neg_part, ◌+ℤ◌, ◌-ℤ◌, +ℤ_parts, -ℤ_parts, sub_ℕ,
}

unfoldable pub wrap64 : ℤ → ℤ
wrap64 (pos n) = let m = n % 2 ^ 64 in if ltb m (2 ^ 63) then pos m else negsuc (2 ^ 64 - 1 - m)
wrap64 (negsuc n) = let m = n % 2 ^ 64 in if ltb m (2 ^ 63) then negsuc m else pos (2 ^ 64 - 1 - m)

-- The values that an int64 holds.
abbrev pub IsInt64 : ℤ → Type 0
IsInt64 a = (pos_part a < 2 ^ 63) × (neg_part a ≤ 2 ^ 63)

pub wrap64-eq_self : (a : ℤ) → IsInt64 a → wrap64 a ≡ a
unfolding wrap64
wrap64-eq_self (pos n) h = ground arith
wrap64-eq_self (negsuc n) h = ground arith

pub wrap64-IsInt64 : (a : ℤ) → IsInt64 (wrap64 a)
unfolding wrap64
wrap64-IsInt64 (pos n) = ground arith
wrap64-IsInt64 (negsuc n) = ground arith

-- `a + b` and `a - b` on int64. The values held are integers of the type's range.
unfoldable pub add64 : ℤ → ℤ → ℤ
add64 a b = wrap64 (a +ℤ b)

unfoldable pub sub64 : ℤ → ℤ → ℤ
sub64 a b = wrap64 (a -ℤ b)

-- One part of an integer is zero.
pub parts_exclusive : (a : ℤ) → (pos_part a ≡ 0) ⊎ (neg_part a ≡ 0)
parts_exclusive (pos n) = inr refl
parts_exclusive (negsuc n) = inl refl

InRange-sub_ℕ : (a b : ℕ) → a < b + 2 ^ 63 → b ≤ a + 2 ^ 63 → IsInt64 (sub_ℕ a b)
InRange-sub_ℕ a b h k = ground arith

-- Where the exact result is an int64 the operation is exact.
pub add64-+ℤ :
    (a b : ℤ)
    → pos_part a + pos_part b < neg_part a + neg_part b + 2 ^ 63
    → neg_part a + neg_part b ≤ pos_part a + pos_part b + 2 ^ 63
    → add64 a b ≡ a +ℤ b
unfolding add64 ◌+ℤ◌
add64-+ℤ a b h k = wrap64-eq_self _ (InRange-sub_ℕ _ _ h k)

pub sub64--ℤ :
    (a b : ℤ)
    → pos_part a + neg_part b < neg_part a + pos_part b + 2 ^ 63
    → neg_part a + pos_part b ≤ pos_part a + neg_part b + 2 ^ 63
    → sub64 a b ≡ a -ℤ b
unfolding sub64 ◌-ℤ◌
sub64--ℤ a b h k = wrap64-eq_self _ (InRange-sub_ℕ _ _ h k)

-- The same, in the form that `omega` reads.
pub add64_parts :
    (a b : ℤ)
    → pos_part a + pos_part b < neg_part a + neg_part b + 2 ^ 63
    → neg_part a + neg_part b ≤ pos_part a + pos_part b + 2 ^ 63
    → pos_part (add64 a b) + neg_part a + neg_part b
      ≡ neg_part (add64 a b) + pos_part a + pos_part b
add64_parts a b h k = rw (add64-+ℤ a b h k) (+ℤ_parts a b)

pub sub64_parts :
    (a b : ℤ)
    → pos_part a + neg_part b < neg_part a + pos_part b + 2 ^ 63
    → neg_part a + pos_part b ≤ pos_part a + neg_part b + 2 ^ 63
    → pos_part (sub64 a b) + neg_part a + pos_part b
      ≡ neg_part (sub64 a b) + pos_part a + neg_part b
sub64_parts a b h k = rw (sub64--ℤ a b h k) (-ℤ_parts a b)
