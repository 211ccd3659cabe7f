-- ===== src/Cost/Pricing.antt =====
-- internal/cost/pricing.go: pricing policies, and the one in force on a day. Days are times in
-- nanoseconds; `time.Parse(time.DateOnly, …)` is a field of `Dates`.
pub mod Latest
use marstack_govern.Prelude.{
  ℤ, ltb_ℤ, String, concat, str_eq, Bool, true, false, not, ◌&&◌, ◌||◌, List, [], ◌∷◌, Option, none,
  some, Result, ok, err, ◌>>=◌, if◌then◌else◌,
}
use marstack_govern.Cost.Money.{Rationals, Money, parse_money}

pub record Dates : Type 0 where
  pub parse_date : String → Result ℤ
  pub quote : String → String

-- `UnallocatedStrategy`
pub data Strategy : Type 0 where
  platform pro_rata : Strategy

-- `PricingPolicy` of the API, in the parts that `PolicyFrom` reads.
pub record PricingPolicy : Type 0 where
  pub name : String
  pub generation : ℤ
  pub currency : String
  pub effective_from : String
  pub effective_to : String
  pub unallocated : Strategy
  pub approved_by : String
  pub approved_at : ℤ
  pub cpu_core_month : String
  pub memory_gi_month : String
  pub storage_gi_month : String
  pub load_balancer_month : String
  pub egress_gi : String

module _ {Q : Type 0} (go : Rationals Q) where
  pub record Policy : Type 0 where
    pub name : String
    pub revision : ℤ
    pub currency : String
    pub cpu_core : Money go
    pub memory_gi : Money go
    pub storage_gi : Money go
    pub load_balance : Money go
    pub egress_gi : Money go
    pub unallocated : Strategy
    pub approved_by : String
    pub approved_at : ℤ
    pub from : ℤ
    pub to : Option ℤ

  abbrev pub currency_of : PricingPolicy → String
  currency_of p = if str_eq p.currency "" then "IDR" else p.currency

  -- `effectiveTo`, which is optional.
  unfoldable pub parse_end : Dates → String → Result (Option ℤ)
  parse_end dates text = if str_eq text "" then ok none else elim (dates.parse_date text) [
    | err e ↦ err (concat "effectiveTo " (concat (dates.quote text) (concat " is not a date: " e)))
    | ok to ↦ ok (some to)
  ]

  -- The loop of `PolicyFrom` over the rates, in its order.
  unfoldable pub with_rates : PricingPolicy → ℤ → Option ℤ → Result Policy
  unfolding parse_money
  with_rates p from to = do
    cpu_core ← parse_money go (currency_of p) p.cpu_core_month
    memory_gi ← parse_money go (currency_of p) p.memory_gi_month
    storage_gi ← parse_money go (currency_of p) p.storage_gi_month
    load_balance ← parse_money go (currency_of p) p.load_balancer_month
    egress_gi ← parse_money go (currency_of p) p.egress_gi
    ok (record {
      name = p.name;
      revision = p.generation;
      currency = currency_of p;
      cpu_core = cpu_core;
      memory_gi = memory_gi;
      storage_gi = storage_gi;
      load_balance = load_balance;
      egress_gi = egress_gi;
      unallocated = p.unallocated;
      approved_by = p.approved_by;
      approved_at = p.approved_at;
      from = from;
      to = to;
    })

  -- `PolicyFrom`
  unfoldable pub policy_from : Dates → PricingPolicy → Result Policy
  unfolding parse_end with_rates
  policy_from dates p = elim (dates.parse_date p.effective_from) [
    | err e ↦ err (
        concat "effectiveFrom "
          (concat (dates.quote p.effective_from) (concat " is not a date: " e)))
    | ok from ↦ elim (parse_end dates p.effective_to) [
      | err e ↦ err e
      | ok to ↦ with_rates p from to
    ]
  ]

  -- `Policy.EffectiveOn`
  unfoldable pub effective_on : Policy → ℤ → Bool
  effective_on p day =
      if ltb_ℤ day p.from then false else elim p.to [ none ↦ true | some to ↦ not (ltb_ℤ to day) ]

  -- Whether the loop of `Effective` takes the policy, after `chosen`.
  unfoldable pub takes : Option Policy → Policy → ℤ → Bool
  unfolding effective_on
  takes chosen p day =
      effective_on p day && elim chosen [ none ↦ true | some c ↦ ltb_ℤ c.from p.from ]

  -- The loop of `Effective`.
  unfoldable pub choose : Option Policy → List Policy → ℤ → Option Policy
  unfolding takes
  choose chosen [] day = chosen
  choose chosen (p ∷ ps) day = choose (if takes chosen p day then some p else chosen) ps day

  -- `Effective`
  unfoldable pub effective : List Policy → ℤ → Result Policy
  unfolding choose
  effective ps day = elim (choose none ps day) [
    | none ↦ err "no pricing policy is effective for this period"
    | some p ↦ ok p
  ]

  -- `Biller.policy` and `Service.effective`: the policies that cannot be read are left out.
  unfoldable pub readable : Dates → List PricingPolicy → List Policy
  unfolding policy_from
  readable dates [] = []
  readable dates (p ∷ ps) =
      let rest = readable dates ps in elim (policy_from dates p) [ err e ↦ rest | ok q ↦ q ∷ rest ]

  unfoldable pub policy_on : Dates → Result (List PricingPolicy) → ℤ → Result Policy
  unfolding readable effective
  policy_on dates listed day = elim listed [
    | err e ↦ err (concat "list pricing policies: " e)
    | ok ps ↦ effective (readable dates ps) day
  ]
