-- ===== src/Tests/Cost.antt =====
-- The theorems on prices and invoices at concrete inputs (internal/cost), with the natural numbers in
-- place of the rationals.
use marstack_govern.Prelude.{
  ℕ, ◌+◌, ◌-◌, ◌*◌, ◌/◌, ℤ, pos, pos_part, String, [], ◌∷◌, none, some, ok, ◌≡◌, refl, arith,
}
use marstack_govern.Cost.Money.{Rationals, Money}
use marstack_govern.Cost.Pricing.{platform, Policy, effective}
use marstack_govern.Cost.Pricing.Latest.{IsLatest, effective-IsLatest}
use marstack_govern.Cost.Invoice.{Formats, Period, over, Chargeable, Invoice, generate_invoice}
use marstack_govern.Cost.Invoice.Total.{IsAdditive, IsInvoice, generate_invoice-IsInvoice}

abbrev naturals : Rationals ℕ
naturals = record {
  nought = 0;
  add = λ a b. a + b;
  sub = λ a b. a - b;
  mul = λ a b. a * b;
  quo = λ a b. a / b;
  new_rat = λ a b. pos_part a / pos_part b;
  sign = λ a. pos a;
  set_string = λ t. some 730;
  set_float = λ bits. none;
  float_string = λ a n. "";
  rat_string = λ a. "";
  trim_space = λ t. t;
  quote = λ t. t;
}

naturals-IsAdditive : IsAdditive naturals
naturals-IsAdditive = record {
  add_nought = λ a. omega arith;
  add_comm = λ a b. omega arith;
  add_assoc = λ a b c. omega arith;
}

abbrev rate : ℕ → Money naturals
rate n = record { currency_field = "IDR"; amount = some n }

abbrev policy : String → ℤ → Policy naturals
policy name from = record {
  name = name;
  revision = pos 1;
  currency = "IDR";
  cpu_core = rate 730;
  memory_gi = rate 730;
  storage_gi = rate 0;
  load_balance = rate 0;
  egress_gi = rate 0;
  unallocated = platform;
  approved_by = "cfo";
  approved_at = pos 0;
  from = from;
  to = none;
}

effective-IsLatest_example :
    IsLatest naturals
      (pos 50)
      (policy "old" (pos 0) ∷ policy "new" (pos 40) ∷ policy "next" (pos 60) ∷ [])
      (effective naturals
        (policy "old" (pos 0) ∷ policy "new" (pos 40) ∷ policy "next" (pos 60) ∷ [])
        (pos 50))
effective-IsLatest_example =
    effective-IsLatest naturals (pos 50)
      (policy "old" (pos 0) ∷ policy "new" (pos 40) ∷ policy "next" (pos 60) ∷ [])

abbrev formats : Formats ℕ
formats = record {
  sha256 = λ t. 1 ∷ [];
  rfc3339 = λ t. "";
  date_only = λ t. "";
  hours = λ a b. 744;
}

abbrev month : Period
month = record { start = pos 0; end = pos 100 }

abbrev charge : String → ℕ → Chargeable naturals
charge label quantity = record {
  workload_uid = label;
  workload_label = label;
  resource = "cpu";
  quantity = quantity;
  unit = "core-hour";
  rate = rate 2;
}

generate_invoice-IsInvoice_example :
    (i : Invoice naturals) × (generate_invoice naturals formats "shop" month
        (policy "new" (pos 0))
        (charge "shop/web" 3 ∷ charge "shop/api" 5 ∷ [])
        (rate 1)
        (pos 120)
      ≡ ok i)
    × IsInvoice naturals naturals-IsAdditive
        (charge "shop/web" 3 ∷ charge "shop/api" 5 ∷ [])
        (rate 1)
        i
unfolding over
generate_invoice-IsInvoice_example =
    generate_invoice-IsInvoice naturals naturals-IsAdditive formats "shop" month
      (policy "new" (pos 0)) (charge "shop/web" 3 ∷ charge "shop/api" 5 ∷ []) (rate 1) (pos 120)
      refl refl
