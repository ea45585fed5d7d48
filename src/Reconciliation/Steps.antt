-- ===== src/Reconciliation/Steps.antt =====
-- Every phase of the engine keeps the books: the loop bodies one by one.
use reconcileflow_ai.Prelude.{
  ◌≤◌, ◌≡◌, Bool, inl, inr, true, false, some, [], ◌∷◌, List, arith, filter, Text, text_eq,
  text_eq→eq, Bool-cases, Option-cases, ltb, length,
}
use reconcileflow_ai.Prelude.Count.{member, count, count_of_not_member}
use reconcileflow_ai.Models.{BankTransaction, ErpInvoice, GatewaySettlementEntry}
use reconcileflow_ai.Reconciliation.Matching.{ReconciliationEngine, sole}
use reconcileflow_ai.Reconciliation.Grouping.{Group, members}
use reconcileflow_ai.Reconciliation.Progress.{Progress}
use reconcileflow_ai.Reconciliation.Outcomes.{
  bank_ids, invoice_ids, gateway_ids, duplicate_outcome, exact_outcome, settlement_outcome,
  tolerance_outcome,
}
use reconcileflow_ai.Reconciliation.Phases.{
  duplicate_step, exact_candidate, exact_step, payout_candidate, settlement_step,
  tolerance_candidate, tolerance_step,
}
use reconcileflow_ai.Reconciliation.Tracking.{
  Fits, Fits-nil, Fits-filter, Fits-sole, Tracks, settle-Tracks,
}

-- An identifier that is not used yet fits, alone.
pub Fits-one :
    (x a : Text) (all used : List Text)
    → member a used ≡ false
    → count x (a ∷ []) ≤ count x all
    → count x used ≤ count x all
    → Fits x all used (a ∷ [])
unfolding count
Fits-one x a all used free within bound = elim (Bool-cases (text_eq x a)) [
  | inl same ↦ omega (arith, count_of_not_member x used (rw (text_eq→eq x a same) free))
  | inr other ↦ rw (other, count) (omega arith)
]

module _ (e : ReconciliationEngine) (x : Text) (banks : List BankTransaction)
    (erp : List ErpInvoice) (gateways : List GatewaySettlementEntry) where
  abbrev pub Kept : Progress → Type 0
  Kept = Tracks x (bank_ids banks) (invoice_ids erp) (gateway_ids gateways)

  -- Lists that a phase filters out of the free records fit.
  pub Fits-banks :
      (p : Progress) (test : BankTransaction → Bool)
      → Kept p
      → ((a : BankTransaction) → test a ≡ true → member a.source_record_id p.used_banks ≡ false)
      → Fits x (bank_ids banks) p.used_banks (bank_ids (filter test banks))
  Fits-banks p test t fresh =
      Fits-filter x (bank_ids banks) p.used_banks (λ bank. bank.source_record_id) test banks fresh
        (omega arith) t.bank_within

  pub Fits-invoices :
      (p : Progress) (test : ErpInvoice → Bool)
      → Kept p
      → ((a : ErpInvoice) → test a ≡ true → member a.invoice_id p.used_invoices ≡ false)
      → Fits x (invoice_ids erp) p.used_invoices (invoice_ids (filter test erp))
  Fits-invoices p test t fresh =
      Fits-filter x (invoice_ids erp) p.used_invoices (λ invoice. invoice.invoice_id) test erp fresh
        (omega arith) t.invoice_within

  pub Fits-bank :
      (p : Progress) (test : BankTransaction → Bool) (bank : BankTransaction)
      → Kept p
      → ((a : BankTransaction) → test a ≡ true → member a.source_record_id p.used_banks ≡ false)
      → sole (filter test banks) ≡ some bank
      → Fits x (bank_ids banks) p.used_banks (bank_ids (bank ∷ []))
  Fits-bank p test bank t fresh found =
      Fits-sole x (bank_ids banks) p.used_banks (λ bank. bank.source_record_id) _ bank found
        (Fits-banks p test t fresh)

  pub no_banks : (p : Progress) → Kept p → Fits x (bank_ids banks) p.used_banks []
  no_banks p t = Fits-nil x _ _ t.bank_within

  pub no_gateways : (p : Progress) → Kept p → Fits x (gateway_ids gateways) p.used_gateways []
  no_gateways p t = Fits-nil x _ _ t.gateway_within

  -- Phase 1. The groups not seen yet stay outside the set of used banks.
  pub duplicate_step-Tracks :
      (p : Progress) (group : Group BankTransaction)
      → Kept p
      → Fits x (bank_ids banks) p.used_banks (bank_ids (members group))
      → Kept (duplicate_step e erp p group)
  unfolding duplicate_step duplicate_outcome
  duplicate_step-Tracks p group t fits = elim (Bool-cases (ltb (length (members group)) 2)) [
    | inl few ↦ rw (few, duplicate_step) t
    | inr many ↦
        rw (many, duplicate_step)
          (settle-Tracks x _ _ _ p _ t fits (Fits-invoices p _ t (λ a h. ground arith))
            (no_gateways p t))
  ]

  -- Phase 2.
  pub exact_step-Tracks :
      (p : Progress) (invoice : ErpInvoice)
      → Kept p
      → count x (invoice.invoice_id ∷ []) ≤ count x (invoice_ids erp)
      → Kept (exact_step e banks p invoice)
  unfolding exact_step exact_outcome
  exact_step-Tracks p invoice t listed =
      elim (Bool-cases (member invoice.invoice_id p.used_invoices)) [
        | inl used ↦ rw (used, exact_step) t
        | inr free ↦ elim (Option-cases (sole (filter (exact_candidate e p invoice) banks))) [
          | inl nobody ↦ rw (free, nobody, exact_step) t
          | inr (bank, found) ↦
              rw (free, found, exact_step)
                (settle-Tracks x _ _ _ p _ t
                  (Fits-bank p (exact_candidate e p invoice) bank t (λ a h. ground arith) found)
                  (Fits-one x _ _ _ free listed t.invoice_within) (no_gateways p t))
        ]
      ]

  -- Phase 3.
  pub settlement_step-Tracks :
      (p : Progress) (group : Group GatewaySettlementEntry)
      → Kept p
      → Fits x (gateway_ids gateways) p.used_gateways (gateway_ids (members group))
      → Kept (settlement_step e banks erp p group)
  unfolding settlement_step settlement_outcome
  settlement_step-Tracks p group t fits =
      elim (Option-cases (sole (filter (payout_candidate e p group) banks))) [
        | inl nobody ↦ rw (nobody, settlement_step) t
        | inr (bank, found) ↦
            rw (found, settlement_step)
              (settle-Tracks x _ _ _ p _ t
                (Fits-bank p (payout_candidate e p group) bank t (λ a h. ground arith) found)
                (Fits-invoices p _ t (λ a h. ground arith)) fits)
      ]

  -- Phase 4.
  pub tolerance_step-Tracks :
      (p : Progress) (invoice : ErpInvoice)
      → Kept p
      → count x (invoice.invoice_id ∷ []) ≤ count x (invoice_ids erp)
      → Kept (tolerance_step e banks p invoice)
  unfolding tolerance_step tolerance_outcome
  tolerance_step-Tracks p invoice t listed =
      elim (Bool-cases (member invoice.invoice_id p.used_invoices)) [
        | inl used ↦ rw (used, tolerance_step) t
        | inr free ↦ elim (Option-cases (sole (filter (tolerance_candidate e p invoice) banks))) [
          | inl nobody ↦ rw (free, nobody, tolerance_step) t
          | inr (bank, found) ↦
              rw (free, found, tolerance_step)
                (settle-Tracks x _ _ _ p _ t
                  (Fits-bank p (tolerance_candidate e p invoice) bank t (λ a h. ground arith) found)
                  (Fits-one x _ _ _ free listed t.invoice_within) (no_gateways p t))
        ]
      ]
