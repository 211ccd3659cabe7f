-- ===== src/Cost/Money.antt =====
-- internal/cost/money.go: amounts of a currency. The type `Q` and its operations are `*big.Rat` of
-- Go's library; a nil pointer is `none`.
use marstack_govern.Prelude.{
  ℕ, ℤ, pos, ltb_ℤ, eqb_ℤ, String, concat, str_eq, Bool, Option, none, some, Result, ok, err,
  if◌then◌else◌,
}

pub record Rationals (Q : Type 0) : Type 0 where
  pub nought : Q
  pub add : Q → Q → Q
  pub sub : Q → Q → Q
  pub mul : Q → Q → Q
  pub quo : Q → Q → Q
  pub new_rat : ℤ → ℤ → Q
  pub sign : Q → ℤ
  pub set_string : String → Option Q
  pub set_float : ℤ → Option Q  -- by the bits of a float64; `none` where it is not finite
  pub float_string : Q → ℕ → String
  pub rat_string : Q → String
  pub trim_space : String → String
  pub quote : String → String

module _ {Q : Type 0} (go : Rationals Q) where
  pub record Money : Type 0 where
    pub currency_field : String
    pub amount : Option Q

  -- `NewMoney`
  unfoldable pub new_money : String → Option Q → Money
  new_money currency amount = record {
    currency_field = if str_eq currency "" then "IDR" else currency;
    amount = elim amount [ none ↦ some go.nought | some q ↦ some q ];
  }

  -- `ParseMoney`
  unfoldable pub parse_money : String → String → Result Money
  unfolding new_money
  parse_money currency amount =
      if str_eq (go.trim_space amount) ""
      then ok (new_money currency none)
      else elim (go.set_string (go.trim_space amount)) [
        | none ↦ err (concat (go.quote amount) " is not an amount")
        | some q ↦ ok (new_money currency (some q))
      ]

  -- `Money.Currency`
  unfoldable pub currency : Money → String
  currency m = if str_eq m.currency_field "" then "IDR" else m.currency_field

  -- `Money.Rat`
  unfoldable pub rat : Money → Q
  rat m = elim m.amount [ none ↦ go.nought | some q ↦ q ]

  -- `Money.Times`
  unfoldable pub times : Money → Q → Money
  unfolding new_money currency rat
  times m factor = new_money (currency m) (some (go.mul (rat m) factor))

  -- `Money.Add`
  unfoldable pub add_money : Money → Money → Money
  unfolding new_money currency rat
  add_money m n = new_money (currency m) (some (go.add (rat m) (rat n)))

  -- `Money.Sub`
  unfoldable pub sub_money : Money → Money → Money
  unfolding new_money currency rat
  sub_money m n = new_money (currency m) (some (go.sub (rat m) (rat n)))

  -- `Money.IsZero`
  unfoldable pub is_zero : Money → Bool
  unfolding rat
  is_zero m = eqb_ℤ (go.sign (rat m)) (pos 0)

  -- `Money.Negative`
  unfoldable pub negative : Money → Bool
  unfolding rat
  negative m = ltb_ℤ (go.sign (rat m)) (pos 0)

  -- `Money.String`
  unfoldable pub money_string : Money → String
  unfolding rat
  money_string m = go.float_string (rat m) 2

  -- `Ratio`
  unfoldable pub ratio : ℤ → ℤ → Q
  ratio numerator denominator =
      if eqb_ℤ denominator (pos 0) then go.nought else go.new_rat numerator denominator

  -- `FromFloat`
  unfoldable pub from_float : ℤ → Q
  from_float bits = elim (go.set_float bits) [ none ↦ go.nought | some q ↦ q ]
