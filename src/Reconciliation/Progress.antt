-- ===== src/Reconciliation/Progress.antt =====
-- backend/src/reconcileflow/reconciliation/engine.py: the local state of `reconcile`, three sets of
-- used identifiers and the list of results, and the closure `add`.
use reconcileflow_ai.Prelude.{ℕ, zero, suc, ◌+◌, ◌-◌, List, [], ◌∷◌, ◌++◌, length, Text, codes, str}
use reconcileflow_ai.Reconciliation.Results.{Outcome, ReconciliationResult}

-- A set is the list of what was put in; only membership is asked of it.
pub record Progress : Type 0 where
  pub used_banks : List Text
  pub used_invoices : List Text
  pub used_gateways : List Text
  pub results : List ReconciliationResult

unfoldable pub start : Progress
start = record { used_banks = []; used_invoices = []; used_gateways = []; results = [] }

zeros : ℕ → Text
zeros zero = []
zeros (suc n) = b'0' ∷ zeros n

-- `f"RESULT-{n:04d}"`
unfoldable pub numbered : ℕ → Text
unfolding zeros
numbered n = codes "RESULT-" ++ zeros (4 - length (str n)) ++ str n

-- `used_banks.update(…)`, `used_invoices.update(…)`, `used_gateways.update(…)`
unfoldable pub mark : Progress → List Text → List Text → List Text → Progress
mark p banks invoices gateways = record p {
  used_banks = banks ++ p.used_banks;
  used_invoices = invoices ++ p.used_invoices;
  used_gateways = gateways ++ p.used_gateways;
}

unfoldable pub add : Progress → Outcome → Progress
unfolding numbered
add p o = record p {
  results = p.results ++ record { result_id = numbered (length p.results + 1); outcome = o } ∷ [];
}

-- A match marks what its result names.
unfoldable pub settle : Progress → Outcome → Progress
unfolding mark add
settle p o = add (mark p o.bank_source_record_ids o.erp_invoice_ids o.gateway_source_record_ids) o
