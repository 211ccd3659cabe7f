-- ===== src/Prelude/Format.antt =====
-- Go's `%d` and `strconv.Itoa`: an integer in decimal.
use Prim.Native.Nat.{ℕ, zero, suc, ◌/◌, ◌%◌}
use Prim.Native.String.{String, ◌++◌ as concat}
use mathlib.Core.List.{List, [], ◌∷◌}
use marstack_govern.Prelude.Tests.{ltb, if◌then◌else◌}
use marstack_govern.Prelude.Lists.{get_or}
use marstack_govern.Prelude.Int.{ℤ, pos, negsuc}

digit_texts : List String
digit_texts = "0" ∷ "1" ∷ "2" ∷ "3" ∷ "4" ∷ "5" ∷ "6" ∷ "7" ∷ "8" ∷ "9" ∷ []

-- The digits of `n` before `rest`. A number has fewer digits than its value plus one.
format_digits : ℕ → ℕ → String → String
unfolding digit_texts
format_digits zero n rest = rest
format_digits (suc fuel) n rest =
    let here = concat (get_or digit_texts (n % 10) "") rest in
    let more = format_digits fuel (n / 10) here in if ltb n 10 then here else more

unfoldable pub format_nat : ℕ → String
unfolding format_digits
format_nat n = format_digits (suc n) n ""

unfoldable pub format_int : ℤ → String
unfolding format_nat
format_int (pos n) = format_nat n
format_int (negsuc n) = concat "-" (format_nat (suc n))
