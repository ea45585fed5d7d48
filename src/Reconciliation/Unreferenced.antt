-- ===== src/Reconciliation/Unreferenced.antt =====
-- Gateway entries and invoices without references: `None in {…, None}` holds in Python.
use mathlib.Core.List.{Memᴰ}
use reconcileflow_ai.Prelude.{◌≡◌, Bool, true, false, none, List, [], ◌∷◌, any, arith}
use reconcileflow_ai.Prelude.Count.{member}
use reconcileflow_ai.Prelude.Members.{Memᴰ-filter}
use reconcileflow_ai.Models.{ErpInvoice, GatewaySettlementEntry}
use reconcileflow_ai.Reconciliation.Matching.{option_eq}
use reconcileflow_ai.Reconciliation.Progress.{Progress}
use reconcileflow_ai.Reconciliation.Phases.{refers_to, awaiting_linked}

any_of {ℓ} :
    {A : Type ℓ} (p : A → Bool) (a : A) (xs : List A) → Memᴰ a xs → p a ≡ true → any p xs ≡ true
unfolding any
any_of p a [] m h = elim m [ ]
any_of p a (x ∷ xs) (Memᴰ.head e) h = rw (rw e at h)
any_of p a (x ∷ xs) (Memᴰ.tail m) h = ground (arith, any_of p a xs m h)

refers_to-none :
    (invoice : ErpInvoice) (entry : GatewaySettlementEntry)
    → entry.invoice_reference ≡ none
    → invoice.payment_reference ≡ none
    → refers_to invoice entry ≡ true
unfolding refers_to option_eq
refers_to-none invoice entry e i = ground arith

-- If one of the entries that await a payout has no invoice reference, then every free invoice
-- without a payment reference is among those that phase 7 links to them.
pub awaiting_links_unreferenced :
    (erp : List ErpInvoice) (p : Progress) (remaining : List GatewaySettlementEntry)
    (entry : GatewaySettlementEntry) (invoice : ErpInvoice)
    → Memᴰ entry remaining
    → entry.invoice_reference ≡ none
    → Memᴰ invoice erp
    → invoice.payment_reference ≡ none
    → member invoice.invoice_id p.used_invoices ≡ false
    → Memᴰ invoice (awaiting_linked erp p remaining)
unfolding awaiting_linked
awaiting_links_unreferenced erp p remaining entry invoice waits no_entry listed no_invoice free =
    Memᴰ-filter invoice _ erp listed (
      rw (
        free,
        any_of (refers_to invoice) entry remaining waits
            (refers_to-none invoice entry no_entry no_invoice),
      ))
