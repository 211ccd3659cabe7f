-- ===== src/Cost/Invoice/Total.antt =====
-- What an invoice adds up to (internal/cost/invoice.go).
use marstack_govern.Prelude.{
  ℕ, ◌+◌, ℤ, String, str_eq, insert_sorted, stable_sort, Perm, Perm-stable_sort, Bool, true, false,
  Bool-cases, List, [], ◌∷◌, none, ok, ◌≡◌, refl, sym, ap, ◌∙◌, inl, inr,
}
use marstack_govern.Cost.Money.{Rationals, Money, new_money, times, add_money, rat}
use marstack_govern.Cost.Pricing.{Policy}
use marstack_govern.Cost.Invoice.{
  Formats, Period, over, Chargeable, InvoiceItem, Invoice, charge_less, item, items, subtotal_of,
  undigested, digested, generate_invoice,
}

-- The laws of rational sums that an invoice rests on.
pub record IsAdditive {Q : Type 0} (go : Rationals Q) : Type 0 where
  pub add_nought : (a : Q) → go.add go.nought a ≡ a
  pub add_comm : (a b : Q) → go.add a b ≡ go.add b a
  pub add_assoc : (a b c : Q) → go.add (go.add a b) c ≡ go.add a (go.add b c)

module _ {Q : Type 0} (go : Rationals Q) (laws : IsAdditive go) where
  -- The worth of charges, rate by quantity, in the order in which they stand.
  unfoldable pub worth : List (Chargeable go) → Q
  worth [] = go.nought
  worth (c ∷ cs) = go.add (go.mul (rat go c.rate) c.quantity) (worth cs)

  swap_add : (a b c : Q) → go.add a (go.add b c) ≡ go.add b (go.add a c)
  swap_add a b c =
      sym (laws.add_assoc a b c) ∙ ap (λ s. go.add s c) (laws.add_comm a b) ∙ laws.add_assoc b a c

  rat-add_money : (m n : Money go) → rat go (add_money go m n) ≡ go.add (rat go m) (rat go n)
  unfolding rat add_money new_money
  rat-add_money m n = refl

  rat-times : (m : Money go) (q : Q) → rat go (times go m q) ≡ go.mul (rat go m) q
  unfolding rat times new_money
  rat-times m q = refl

  rat-nought : (currency : String) → rat go (new_money go currency none) ≡ go.nought
  unfolding rat new_money
  rat-nought currency = refl

  rat-subtotal_of :
      (m : Money go) (cs : List (Chargeable go))
      → rat go (subtotal_of go m cs) ≡ go.add (rat go m) (worth cs)
  unfolding subtotal_of worth
  rat-subtotal_of m [] = sym (laws.add_comm (rat go m) go.nought ∙ laws.add_nought (rat go m))
  rat-subtotal_of m (c ∷ cs) =
      rat-subtotal_of (add_money go m (times go c.rate c.quantity)) cs
      ∙ ap (λ s. go.add s (worth cs))
          (rat-add_money m (times go c.rate c.quantity)
            ∙ ap (go.add (rat go m)) (rat-times c.rate c.quantity))
      ∙ laws.add_assoc _ _ _

  worth-insert_sorted :
      (less : Chargeable go → Chargeable go → Bool) (c : Chargeable go) (cs : List (Chargeable go))
      → worth (insert_sorted less c cs) ≡ worth (c ∷ cs)
  unfolding worth insert_sorted
  worth-insert_sorted less c [] = refl
  worth-insert_sorted less c (d ∷ cs) = elim (Bool-cases (less d c)) [
    | inr e ↦ rw (insert_sorted, e) refl
    | inl e ↦ rw (insert_sorted, e) (ap (go.add _) (worth-insert_sorted less c cs) ∙ swap_add _ _ _)
  ]

  worth-stable_sort :
      (less : Chargeable go → Chargeable go → Bool) (cs : List (Chargeable go))
      → worth (stable_sort less cs) ≡ worth cs
  unfolding worth stable_sort
  worth-stable_sort less [] = refl
  worth-stable_sort less (c ∷ cs) =
      worth-insert_sorted less c (stable_sort less cs) ∙ ap (go.add _) (worth-stable_sort less cs)

  -- The line with the number `n` of a charge, whose amount is the rate by the quantity.
  pub record IsLine (n : ℕ) (c : Chargeable go) (l : InvoiceItem go) : Type 0 where
    pub numbered : l.number ≡ n
    pub of_workload : l.workload_uid ≡ c.workload_uid
    pub labelled : l.workload_label ≡ c.workload_label
    pub of_resource : l.resource ≡ c.resource
    pub same_quantity : l.quantity ≡ c.quantity
    pub same_unit : l.unit ≡ c.unit
    pub same_rate : l.rate ≡ c.rate
    pub worth_amount : rat go l.amount ≡ go.mul (rat go c.rate) c.quantity

  -- Lines numbered from `n + 1`, one for each of the charges.
  abbrev pub AreLines : ℕ → List (Chargeable go) → List (InvoiceItem go) → Type 0
  AreLines n [] [] = Unit
  AreLines n [] (l ∷ ls) = ⊥
  AreLines n (c ∷ cs) [] = ⊥
  AreLines n (c ∷ cs) (l ∷ ls) = IsLine (n + 1) c l × AreLines (n + 1) cs ls

  items-AreLines : (n : ℕ) (cs : List (Chargeable go)) → AreLines n cs (items go n cs)
  unfolding items item
  items-AreLines n [] = tt
  items-AreLines n (c ∷ cs) = (
    record {
      numbered = refl;
      of_workload = refl;
      labelled = refl;
      of_resource = refl;
      same_quantity = refl;
      same_unit = refl;
      same_rate = refl;
      worth_amount = rat-times c.rate c.quantity;
    },
    items-AreLines (n + 1) cs,
  )

  -- What an invoice says, of these charges.
  pub record IsInvoice (charges : List (Chargeable go)) (unallocated : Money go) (i : Invoice go)
      : Type 0 where
    pub subtotal_worth : rat go i.subtotal ≡ worth charges
    pub total_worth : rat go i.total ≡ go.add (worth charges) (rat go unallocated)
    pub ordered : List (Chargeable go)
    pub reordered : Perm ordered charges
    pub lines_of_charges : AreLines 0 ordered i.lines

  undigested-IsInvoice :
      (division : String) (period : Period) (policy : Policy go) (charges : List (Chargeable go))
      (unallocated : Money go) (now : ℤ)
      → IsInvoice charges unallocated (
          undigested go division period policy
            (stable_sort (charge_less go) charges)
            unallocated
            now)
  unfolding undigested
  undigested-IsInvoice division period policy charges unallocated now =
      let sorted : List (Chargeable go) = stable_sort (charge_less go) charges in
      let start : Money go = new_money go policy.currency none in
      let sum : rat go (subtotal_of go start sorted) ≡ worth charges =
        rat-subtotal_of start sorted
        ∙ ap (λ z. go.add z (worth sorted)) (rat-nought policy.currency)
        ∙ laws.add_nought (worth sorted)
        ∙ worth-stable_sort (charge_less go) charges in
      record {
        subtotal_worth = sum;
        total_worth =
            rat-add_money (subtotal_of go start sorted) unallocated
            ∙ ap (λ s. go.add s (rat go unallocated)) sum;
        ordered = sorted;
        reordered = Perm-stable_sort (charge_less go) charges;
        lines_of_charges = items-AreLines 0 sorted;
      }

  module _ (fmt : Formats Q) where
    digested_same :
        (charges : List (Chargeable go)) (unallocated : Money go) (i : Invoice go)
        → IsInvoice charges unallocated i
        → IsInvoice charges unallocated (digested go fmt i)
    unfolding digested
    digested_same charges unallocated i s = record {
      subtotal_worth = s.subtotal_worth;
      total_worth = s.total_worth;
      ordered = s.ordered;
      reordered = s.reordered;
      lines_of_charges = s.lines_of_charges;
    }

    -- For a period that is over and a policy with a name, `GenerateInvoice` gives an invoice: its
    -- subtotal is the worth of the charges in whatever order they come, its total adds the
    -- unallocated share, and its lines are those of the charges, each once and in some order: they
    -- are numbered from 1, have the workload, resource, quantity, unit and rate of their charge, and
    -- its rate by its quantity as the amount. Sums of rationals are taken to be commutative and
    -- associative, with 0.
    pub generate_invoice-IsInvoice :
        (division : String) (period : Period) (policy : Policy go) (charges : List (Chargeable go))
        (unallocated : Money go) (now : ℤ)
        → over period now ≡ true
        → str_eq policy.name "" ≡ false
        → (i : Invoice go) × (generate_invoice go fmt division period policy charges unallocated now
            ≡ ok i)
          × IsInvoice charges unallocated i
    unfolding generate_invoice
    generate_invoice-IsInvoice division period policy charges unallocated now past named =
        let made : Invoice go =
          undigested go division period policy (stable_sort (charge_less go) charges) unallocated
            now in
        (
          digested go fmt made,
          rw (generate_invoice, past, named) refl,
          digested_same charges unallocated made
              (undigested-IsInvoice division period policy charges unallocated now),
        )
