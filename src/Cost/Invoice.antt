-- ===== src/Cost/Invoice.antt =====
-- internal/cost/invoice.go: the invoice of a period. The hash, the formats of times and the length
-- of a period in hours are the fields of `Formats`; what is written to the hash is one text.
pub mod Total
use marstack_govern.Prelude.{
  ℕ, ◌+◌, ℤ, pos, ltb_ℤ, String, concat, str_eq, str_less, stable_sort, format_nat, format_int,
  Bytes, bytes_eq, Bool, true, false, not, ◌||◌, List, [], ◌∷◌, ◌++◌, Option, none, some, Result,
  ok, err, if◌then◌else◌,
}
use marstack_govern.Cost.Money.{Rationals, Money, new_money, times, add_money, ratio, money_string}
use marstack_govern.Cost.Pricing.{Policy}
use marstack_govern.Cost.Charging.{Resource, hours_per_month}

pub record Formats (Q : Type 0) : Type 0 where
  pub sha256 : String → Bytes
  pub rfc3339 : ℤ → String
  pub date_only : ℤ → String
  pub hours : ℤ → ℤ → Q  -- `Period.Hours`, from the start and the end

pub record Period : Type 0 where
  pub start : ℤ
  pub end : ℤ

-- `Period.Over`
unfoldable pub over : Period → ℤ → Bool
over p now = not (ltb_ℤ now p.end)

pub record WorkloadRequest : Type 0 where
  pub uid : String
  pub namespace : String
  pub name : String
  pub cpu_millicores : ℤ
  pub memory_bytes : ℤ

module _ {Q : Type 0} (go : Rationals Q) where
  pub record Chargeable : Type 0 where
    pub workload_uid : String
    pub workload_label : String
    pub resource : Resource
    pub quantity : Q
    pub unit : String
    pub rate : Money go

  pub record InvoiceItem : Type 0 where
    pub number : ℕ
    pub workload_uid : String
    pub workload_label : String
    pub resource : Resource
    pub quantity : Q
    pub unit : String
    pub rate : Money go
    pub amount : Money go

  pub record Invoice : Type 0 where
    pub division : String
    pub period_start : ℤ
    pub period_end : ℤ
    pub policy_name : String
    pub policy_revision : ℤ
    pub currency : String
    pub subtotal : Money go
    pub unallocated_share : Money go
    pub total : Money go
    pub lines : List InvoiceItem
    pub inputs_digest : Bytes
    pub generated_at : ℤ

  -- The order of the charges: by label, then by resource.
  unfoldable pub charge_less : Chargeable → Chargeable → Bool
  charge_less a b =
      if not (str_eq a.workload_label b.workload_label)
      then str_less a.workload_label b.workload_label
      else str_less a.resource b.resource

  unfoldable pub item : ℕ → Chargeable → InvoiceItem
  unfolding times
  item i c = record {
    number = i + 1;
    workload_uid = c.workload_uid;
    workload_label = c.workload_label;
    resource = c.resource;
    quantity = c.quantity;
    unit = c.unit;
    rate = c.rate;
    amount = times go c.rate c.quantity;
  }

  -- The loop of `GenerateInvoice`: its lines, and its subtotal.
  unfoldable pub items : ℕ → List Chargeable → List InvoiceItem
  unfolding item
  items i [] = []
  items i (c ∷ cs) = item i c ∷ items (i + 1) cs

  unfoldable pub subtotal_of : Money go → List Chargeable → Money go
  unfolding times add_money
  subtotal_of subtotal [] = subtotal
  subtotal_of subtotal (c ∷ cs) =
      subtotal_of (add_money go subtotal (times go c.rate c.quantity)) cs

  unfoldable pub line_texts : List InvoiceItem → String
  unfolding money_string
  line_texts [] = ""
  line_texts (l ∷ ls) = concat "line=" (
      concat (format_nat l.number) (
        concat "|" (
          concat l.workload_label (
            concat "|" (
              concat l.resource (
                concat "|" (
                  concat (go.rat_string l.quantity) (
                    concat "|" (
                      concat l.unit (
                        concat "|" (
                          concat (money_string go l.rate) (
                            concat "|" (
                              concat (money_string go l.amount)
                                (concat "\n" (line_texts ls)))))))))))))))

  -- What `Invoice.digest` writes to the hash.
  unfoldable pub digest_text : Formats Q → Invoice → String
  unfolding line_texts
  digest_text fmt i = concat "division=" (
      concat i.division (
        concat "\nperiod=" (
          concat (fmt.rfc3339 i.period_start) (
            concat "/" (
              concat (fmt.rfc3339 i.period_end) (
                concat "\npolicy=" (
                  concat i.policy_name (
                    concat "@" (
                      concat (format_int i.policy_revision) (
                        concat "\ncurrency=" (
                          concat i.currency (
                            concat "\n" (
                              concat (line_texts i.lines) (
                                concat "unallocated=" (
                                  concat (money_string go i.unallocated_share) (
                                    concat "\ntotal="
                                      (concat (money_string go i.total) "\n")))))))))))))))))

  -- `Invoice.digest`
  unfoldable pub digest : Formats Q → Invoice → Bytes
  unfolding digest_text
  digest fmt i = fmt.sha256 (digest_text fmt i)

  unfoldable pub has_no_bytes : Bytes → Bool
  has_no_bytes [] = true
  has_no_bytes (b ∷ bs) = false

  -- `Invoice.Reproduces`
  unfoldable pub reproduces : Invoice → Invoice → Bool
  unfolding has_no_bytes
  reproduces i other =
      if has_no_bytes i.inputs_digest || has_no_bytes other.inputs_digest
      then false
      else bytes_eq i.inputs_digest other.inputs_digest

  unfoldable pub period_string : Formats Q → Period → String
  period_string fmt p = concat (fmt.date_only p.start) (concat "/" (fmt.date_only p.end))

  -- The invoice of charges that are in order, before its digest.
  unfoldable pub undigested : String → Period → Policy go → List Chargeable → Money go → ℤ → Invoice
  unfolding items subtotal_of new_money add_money
  undigested division period policy charges unallocated now =
      let subtotal = subtotal_of (new_money go policy.currency none) charges in
      record {
        division = division;
        period_start = period.start;
        period_end = period.end;
        policy_name = policy.name;
        policy_revision = policy.revision;
        currency = policy.currency;
        subtotal = subtotal;
        unallocated_share = unallocated;
        total = add_money go subtotal unallocated;
        lines = items 0 charges;
        inputs_digest = [];
        generated_at = now;
      }

  unfoldable pub digested : Formats Q → Invoice → Invoice
  unfolding digest
  digested fmt i = record i { inputs_digest = digest fmt i }

  -- `GenerateInvoice`
  unfoldable pub generate_invoice :
      Formats Q → String → Period → Policy go → List Chargeable → Money go → ℤ → Result Invoice
  unfolding over period_string charge_less undigested digested
  generate_invoice fmt division period policy charges unallocated now =
      if not (over period now)
      then err (
          concat (period_string fmt period)
            ": the period has not ended yet, so an invoice would be a forecast")
      else if str_eq policy.name ""
      then err (
          concat (period_string fmt period)
            ": no pricing policy was in force for that period, so nothing can be charged")
      else ok (
          digested fmt
            (undigested division period policy (stable_sort charge_less charges) unallocated now))

  abbrev pub gibibyte : ℤ
  gibibyte = pos 1073741824

  -- The charges of one workload.
  unfoldable pub workload_charges : Q → Money go → Money go → WorkloadRequest → List Chargeable
  unfolding ratio
  workload_charges hours cpu memory w =
      let label = concat w.namespace (concat "/" w.name) in
      (if ltb_ℤ (pos 0) w.cpu_millicores
        then (record {
          workload_uid = w.uid;
          workload_label = label;
          resource = "cpu";
          quantity = go.mul (ratio go w.cpu_millicores (pos 1000)) hours;
          unit = "core-hour";
          rate = cpu;
        })
          ∷ []
        else [])
      ++ (if ltb_ℤ (pos 0) w.memory_bytes
          then (record {
            workload_uid = w.uid;
            workload_label = label;
            resource = "memory";
            quantity = go.mul (ratio go w.memory_bytes gibibyte) hours;
            unit = "gibibyte-hour";
            rate = memory;
          })
            ∷ []
          else [])

  unfoldable pub all_charges : Q → Money go → Money go → List WorkloadRequest → List Chargeable
  unfolding workload_charges
  all_charges hours cpu memory [] = []
  all_charges hours cpu memory (w ∷ ws) =
      workload_charges hours cpu memory w ++ all_charges hours cpu memory ws

  -- `ChargesFor`
  unfoldable pub charges_for :
      Formats Q → List WorkloadRequest → Period → Policy go → List Chargeable
  unfolding all_charges times
  charges_for fmt requested period policy =
      all_charges (fmt.hours period.start period.end)
        (times go policy.cpu_core (go.new_rat (pos 1) hours_per_month))
        (times go policy.memory_gi (go.new_rat (pos 1) hours_per_month)) requested
