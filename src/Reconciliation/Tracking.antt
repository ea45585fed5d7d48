-- ===== src/Reconciliation/Tracking.antt =====
-- The bookkeeping of the engine, seen at one identifier: how often the results list it, how often
-- the set of used identifiers holds it, and how often the input has it.
use reconcileflow_ai.Prelude.{
  ◌+◌, ◌≤◌, ◌≡◌, refl, Bool, true, false, not, ◌&&◌, some, List, [], ◌∷◌, ◌++◌, map, arith, filter,
  Text, subst,
}
use reconcileflow_ai.Prelude.Count.{member, count, count-append, count_le-filter, filter_fresh}
use reconcileflow_ai.Reconciliation.Results.{Outcome, ReconciliationResult}
use reconcileflow_ai.Reconciliation.Matching.{sole}
use reconcileflow_ai.Reconciliation.Combinations.{sole-eq_some}
use reconcileflow_ai.Reconciliation.Progress.{Progress, start, settle, mark, add}

-- The identifiers of one kind that the results name, one after another.
unfoldable pub listed : (ReconciliationResult → List Text) → List ReconciliationResult → List Text
listed ids [] = []
listed ids (r ∷ rs) = ids r ++ listed ids rs

abbrev pub listed_banks : List ReconciliationResult → List Text
listed_banks = listed (λ r. r.bank_source_record_ids)

abbrev pub listed_invoices : List ReconciliationResult → List Text
listed_invoices = listed (λ r. r.erp_invoice_ids)

abbrev pub listed_gateways : List ReconciliationResult → List Text
listed_gateways = listed (λ r. r.gateway_source_record_ids)

pub count-listed_last :
    (x : Text) (ids : ReconciliationResult → List Text) (rs : List ReconciliationResult)
    (r : ReconciliationResult)
    → count x (listed ids (rs ++ r ∷ [])) ≡ count x (listed ids rs) + count x (ids r)
unfolding listed count
count-listed_last x ids [] r = omega (arith, count-append x (ids r) [])
count-listed_last x ids (q ∷ rs) r = omega (
  arith,
  count-append x (ids q) (listed ids (rs ++ r ∷ [])),
  count-append x (ids q) (listed ids rs),
  count-listed_last x ids rs r,
)

-- Identifiers that may be marked: with what is marked already, they stay within the input.
abbrev pub Fits : Text → List Text → List Text → List Text → Type 0
Fits x all used ids = count x ids + count x used ≤ count x all

pub Fits-nil : (x : Text) (all used : List Text) → count x used ≤ count x all → Fits x all used []
unfolding count
Fits-nil x all used h = omega arith

module _ {ℓ} {A : Type ℓ} (x : Text) (all used : List Text) (f : A → Text) where
  pub Fits-filter :
      (p : A → Bool) (xs : List A)
      → ((a : A) → p a ≡ true → member (f a) used ≡ false)
      → count x (map f xs) ≤ count x all
      → count x used ≤ count x all
      → Fits x all used (map f (filter p xs))
  Fits-filter p xs fresh within bound =
      omega (arith, filter_fresh x f p used xs fresh, count_le-filter x f p xs)

  -- The only candidate fits as the list of candidates does.
  pub Fits-sole :
      (xs : List A) (a : A)
      → sole xs ≡ some a
      → Fits x all used (map f xs)
      → Fits x all used (f a ∷ [])
  Fits-sole xs a e h = subst (λ ys. Fits x all used (map f ys)) (sole-eq_some xs a e) h

-- What a candidate's test says when it begins with `not in used`.
pub free_lem : (b rest : Bool) → (not b && rest) ≡ true → b ≡ false
free_lem true rest h = cc
free_lem false rest h = refl

-- At the identifier `x`: the results list what is used, and nothing is used that is not there.
pub record Tracks (x : Text) (banks invoices gateways : List Text) (p : Progress) : Type 0 where
  pub bank_listed : count x (listed_banks p.results) ≡ count x p.used_banks
  pub bank_within : count x p.used_banks ≤ count x banks
  pub invoice_listed : count x (listed_invoices p.results) ≡ count x p.used_invoices
  pub invoice_within : count x p.used_invoices ≤ count x invoices
  pub gateway_listed : count x (listed_gateways p.results) ≡ count x p.used_gateways
  pub gateway_within : count x p.used_gateways ≤ count x gateways

module _ (x : Text) (banks invoices gateways : List Text) where
  pub start-Tracks : Tracks x banks invoices gateways start
  unfolding start listed count
  start-Tracks = omega arith

  -- A result that names only identifiers that fit keeps the books.
  pub settle-Tracks :
      (p : Progress) (o : Outcome)
      → Tracks x banks invoices gateways p
      → Fits x banks p.used_banks o.bank_source_record_ids
      → Fits x invoices p.used_invoices o.erp_invoice_ids
      → Fits x gateways p.used_gateways o.gateway_source_record_ids
      → Tracks x banks invoices gateways (settle p o)
  unfolding settle mark add
  settle-Tracks p o t b i g = omega (
    arith,
    count-append x o.bank_source_record_ids p.used_banks,
    count-append x o.erp_invoice_ids p.used_invoices,
    count-append x o.gateway_source_record_ids p.used_gateways,
    count-listed_last x,
  )
