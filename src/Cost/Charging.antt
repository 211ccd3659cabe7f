-- ===== src/Cost/Charging.antt =====
-- internal/cost/pricing.go: what a usage costs. Durations are nanoseconds of an int64.
use marstack_govern.Prelude.{
  ℤ, pos, ltb_ℤ, leb_ℤ, String, ◌||◌, List, [], ◌∷◌, Option, none, some, if◌then◌else◌,
}
use marstack_govern.Cost.Money.{Rationals, Money, new_money, times, add_money}
use marstack_govern.Cost.Pricing.{Policy}

-- `Resource`, a text.
abbrev pub Resource : Type 0
Resource = String

abbrev pub hours_per_month : ℤ
hours_per_month = pos 730

module _ {Q : Type 0} (go : Rationals Q) where
  -- `Usage`, in the quantities that are charged.
  pub record Usage : Type 0 where
    pub cpu_requested : Option Q
    pub cpu_used : Option Q
    pub memory_requested : Option Q
    pub memory_used : Option Q
    pub storage : Option Q
    pub load_balancer : Option Q

  pub record Line : Type 0 where
    pub resource : Resource
    pub quantity : Q
    pub unit : String
    pub rate : Money go
    pub amount : Money go

  pub record Bill : Type 0 where
    pub policy : Policy go
    pub lines : List Line
    pub total : Money go
    pub idle : Money go
    pub charged : Money go
    pub projected : Money go

  abbrev pub value_or : Option Q → Q
  value_or none = go.nought
  value_or (some q) = q

  -- `line`
  unfoldable pub line : Resource → Option Q → String → Money go → Line
  unfolding times
  line resource quantity unit rate = record {
    resource = resource;
    quantity = value_or quantity;
    unit = unit;
    rate = rate;
    amount = times go rate (value_or quantity);
  }

  -- `difference`
  unfoldable pub difference : Option Q → Option Q → Q
  difference none used = go.nought
  difference (some requested) none = requested
  difference (some requested) (some used) =
      if ltb_ℤ (go.sign (go.sub requested used)) (pos 0) then go.nought else go.sub requested used

  -- `project`
  unfoldable pub project : Money go → ℤ → ℤ → Money go
  unfolding times
  project total elapsed period =
      if leb_ℤ elapsed (pos 0) || (leb_ℤ period (pos 0) || leb_ℤ period elapsed)
      then total
      else times go total (go.quo (go.new_rat period (pos 1)) (go.new_rat elapsed (pos 1)))

  -- The monthly rate of an hour.
  unfoldable pub hourly : Money go → Money go
  unfolding times
  hourly monthly = times go monthly (go.new_rat (pos 1) hours_per_month)

  unfoldable pub charge_lines : Policy go → Usage → List Line
  unfolding line hourly
  charge_lines p u =
      line "cpu" u.cpu_requested "core-hours" (hourly p.cpu_core)
      ∷ line "memory" u.memory_requested "GiB-hours" (hourly p.memory_gi)
      ∷ line "storage" u.storage "GiB-hours" (hourly p.storage_gi)
      ∷ line "loadbalancer" u.load_balancer "hours" (hourly p.load_balance)
      ∷ []

  unfoldable pub total_of : Money go → List Line → Money go
  unfolding add_money
  total_of total [] = total
  total_of total (l ∷ ls) = total_of (add_money go total l.amount) ls

  -- `Charge`
  unfoldable pub charge : Policy go → Usage → ℤ → ℤ → Bill
  unfolding charge_lines total_of difference project hourly new_money add_money
  charge p u elapsed period =
      let total = total_of (new_money go p.currency none) (charge_lines p u) in
      record {
        policy = p;
        lines = charge_lines p u;
        total = total;
        idle =
            add_money go (times go (hourly p.cpu_core) (difference u.cpu_requested u.cpu_used))
              (times go (hourly p.memory_gi) (difference u.memory_requested u.memory_used));
        charged = total;
        projected = project total elapsed period;
      }
