-- ===== src/Cost/Biller.antt =====
-- internal/cost/biller.go: the invoices of every division, month after month. `InvoiceStore` is the
-- interface of internal/cost/invoice.go, and is configured, as the readers are; the calendar is the
-- field `day_before` of the readers' record.
use marstack_govern.Prelude.{
  ℤ, eqb_ℤ, String, concat, Bool, ◌&&◌, List, [], ◌∷◌, Option, none, some, Result, ok, err,
  if◌then◌else◌,
}
use marstack_govern.Cost.Money.{Rationals, new_money}
use marstack_govern.Cost.Pricing.{Dates, PricingPolicy, policy_on}
use marstack_govern.Cost.Invoice.{
  Formats, Period, WorkloadRequest, Invoice, reproduces, generate_invoice, charges_for,
}

-- The operations on a store with the state `S`.
pub record InvoiceStore {Q : Type 0} (go : Rationals Q) (S : Type 0) : Type 0 where
  pub save_invoice : S → Invoice go → S × Option String  -- the error, if any
  pub invoices : S → String → Result (List (Invoice go))

-- What the cluster answers to a pass of the biller.
pub record Readers : Type 0 where
  pub dates : Dates
  pub policies : Result (List PricingPolicy)
  pub requested : String → Result (List WorkloadRequest)
  pub day_before : ℤ → ℤ

module _ {Q : Type 0} (go : Rationals Q) where
  -- What `Generate` answers.
  pub data Billing : Type 0 where
    billed : Invoice go → Billing
    already_billed : Invoice go → Billing
    failed : String → Billing

  unfoldable pub of_period : Period → Invoice go → Bool
  of_period p i = eqb_ℤ i.period_start p.start && eqb_ℤ i.period_end p.end

  -- The loop of `Biller.existing`.
  unfoldable pub find_period : Period → List (Invoice go) → Option (Invoice go)
  unfolding of_period
  find_period p [] = none
  find_period p (i ∷ is) = let rest = find_period p is in if of_period p i then some i else rest

  module _ {S : Type 0} (store : InvoiceStore go S) (fmt : Formats Q) (readers : Readers) where
    -- `Biller.existing`; `none` for its errors, which `Generate` does not tell apart.
    unfoldable pub existing : S → String → Period → Option (Invoice go)
    unfolding find_period
    existing s division p = elim (store.invoices s division) [
      | err e ↦ none
      | ok is ↦ find_period p is
    ]

    unfoldable pub save : S → Invoice go → S × Billing
    save s invoice =
        let saved = store.save_invoice s invoice in
        elim saved.1 [ some e ↦ (saved.0, failed e) | none ↦ (saved.0, billed invoice) ]

    -- Once the invoice is made.
    unfoldable pub settle : S → String → Period → Invoice go → S × Billing
    unfolding existing save
    settle s division p invoice = elim (existing s division p) [
      | none ↦ save s invoice
      | some old ↦ if reproduces go old invoice then (s, already_billed old) else save s invoice
    ]

    -- The invoice of a division, from the policy in force on the last day of the period.
    unfoldable pub invoice_for : String → Period → ℤ → Result (Invoice go)
    invoice_for division p now =
        elim (policy_on go readers.dates readers.policies (readers.day_before p.end)) [
          | err e ↦ err e
          | ok policy ↦ elim (readers.requested division) [
            | err e ↦ err (concat "read workload requests: " e)
            | ok requested ↦
                generate_invoice go fmt division p policy (charges_for go fmt requested p policy)
                  (new_money go policy.currency none) now
          ]
        ]

    -- `Biller.Generate`
    unfoldable pub generate : S → String → Period → ℤ → S × Billing
    unfolding settle invoice_for
    generate s division p now = elim (invoice_for division p now) [
      | err e ↦ (s, failed e)
      | ok invoice ↦ settle s division p invoice
    ]

    -- The loop of `Biller.sweep` over the divisions; every outcome but the state is logged.
    unfoldable pub sweep : S → List String → Period → ℤ → S
    unfolding generate
    sweep s [] p now = s
    sweep s (d ∷ ds) p now = sweep (generate s d p now).0 ds p now
