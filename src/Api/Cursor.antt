-- ===== src/Api/Cursor.antt =====
-- `strconv.FormatUint` and `strconv.ParseUint` to base 10 and 64 bits, on texts as bytes: how
-- internal/api/hub.go writes and reads a cursor.
use marstack_govern.Prelude.{
  ℕ, zero, suc, ◌+◌, ◌-◌, ◌*◌, ◌/◌, ◌%◌, ◌^◌, ◌≤◌, ◌<◌, ◌≡◌, refl, ap, ◌∙◌, ltb, leb, ◌&&◌, Bytes,
  [], ◌∷◌, Result, ok, err, if◌then◌else◌, arith, Bool-cases, inl, inr, ltb→lt, length, ◌⊎◌,
}

-- The digits of `n` before `rest`; a number has fewer digits than the fuel `n + 1`.
unfoldable pub format_digits : ℕ → ℕ → Bytes → Bytes
format_digits zero n rest = rest
format_digits (suc fuel) n rest =
    let more = format_digits fuel (n / 10) ((48 + n % 10) ∷ rest) in
    if ltb n 10 then (48 + n) ∷ rest else more

unfoldable pub format_uint : ℕ → Bytes
unfolding format_digits
format_uint n = format_digits (suc n) n []

-- The loop of `ParseUint`, with the value so far.
unfoldable pub parse_from : ℕ → Bytes → Result ℕ
parse_from value [] = ok value
parse_from value (b ∷ bs) =
    let next = value * 10 + (b - 48) in
    let rest = parse_from next bs in
    if leb 48 b && leb b 57
    then (if ltb next (2 ^ 64) then rest else err "value out of range")
    else err "invalid syntax"

unfoldable pub parse_uint : Bytes → Result ℕ
unfolding parse_from
parse_uint [] = err "invalid syntax"
parse_uint (b ∷ bs) = parse_from 0 (b ∷ bs)

parse_from-digit :
    (value d : ℕ) (rest : Bytes)
    → d < 10
    → value * 10 + d < 2 ^ 64
    → parse_from value ((48 + d) ∷ rest) ≡ parse_from (value * 10 + d) rest
unfolding parse_from
parse_from-digit value d rest h k =
    let e : value * 10 + (48 + d - 48) ≡ value * 10 + d = omega arith in
    rw (e) (ground (arith, h, k))

parse_from-format :
    (fuel n : ℕ) (rest : Bytes)
    → n < fuel
    → n < 2 ^ 64
    → parse_from 0 (format_digits fuel n rest) ≡ parse_from n rest
unfolding format_digits
parse_from-format zero n rest h k = ground (arith, h)
parse_from-format (suc fuel) n rest h k = elim (Bool-cases (ltb n 10)) [
  | inl e ↦
      let l = ltb→lt n 10 e in
      rw e (
        parse_from-digit 0 n rest (omega arith) (omega arith)
        ∙ ap (λ v. parse_from v rest) (omega arith))
  | inr e ↦
      let l : 10 ≤ n = ground arith in
      rw e (
        parse_from-format fuel (n / 10) ((48 + n % 10) ∷ rest) (omega arith) (omega arith)
        ∙ (parse_from-digit (n / 10) (n % 10) rest (omega arith) (omega arith)
            ∙ ap (λ v. parse_from v rest) (omega arith)))
]

parse_uint-parse_from : (bs : Bytes) → (bs ≡ []) ⊎ (parse_uint bs ≡ parse_from 0 bs)
unfolding parse_uint
parse_uint-parse_from [] = inl refl
parse_uint-parse_from (b ∷ bs) = inr refl

format_digits-some :
    (fuel n : ℕ) (rest : Bytes) → 0 < length rest → 0 < length (format_digits fuel n rest)
unfolding format_digits
format_digits-some zero n rest h = h
format_digits-some (suc fuel) n rest h =
    ground (arith, format_digits-some fuel (n / 10) ((48 + n % 10) ∷ rest))

pub format_uint-some : (n : ℕ) → 0 < length (format_uint n)
unfolding format_uint format_digits
format_uint-some n = ground (arith, format_digits-some n (n / 10) ((48 + n % 10) ∷ []))

-- Every 64-bit cursor that is written is read back.
pub parse_uint-format_uint : (n : ℕ) → n < 2 ^ 64 → parse_uint (format_uint n) ≡ ok n
unfolding format_uint parse_from
parse_uint-format_uint n h = elim (parse_uint-parse_from (format_uint n)) [
  | inl e ↦ ground (arith, format_uint-some n, e)
  | inr e ↦ e ∙ parse_from-format (suc n) n [] (omega arith) h
]
