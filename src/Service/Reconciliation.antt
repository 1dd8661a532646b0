-- ===== src/Service/Reconciliation.antt =====
-- internal/service/reconciliation.go, over any store. `sort` stands for sort.Slice by the provider's
-- reference, which leaves the order of equal references open.
pub mod Report
use payment_ledger_platform.Base.{Bool, true, false, String, List, [], ◌∷◌, ◌++◌, if◌then◌else◌}
use payment_ledger_platform.Error.{Error, not_found, ok, err, Exec, pure, ◌>>=◌}
use payment_ledger_platform.Amount.{Decimal}
use payment_ledger_platform.Domain.Payment.{Payment}
use payment_ledger_platform.Store.Interface.{Store}

pub record SettlementLine (A : Type 0) : Type 0 where
  pub provider_reference : String
  pub captured_amount : A

pub record ReconciliationMismatch (A : Type 0) : Type 0 where
  pub provider_reference : String
  pub reason : String
  pub expected : A
  pub reported : A

module _ {A : Type 0} ⦃d : Decimal A⦄ where
  abbrev pub unknown_payment : SettlementLine A → ReconciliationMismatch A
  unknown_payment line = record {
    provider_reference = line.provider_reference;
    reason = "unknown_provider_payment";
    expected = d.zero;
    reported = line.captured_amount;
  }

  abbrev pub amount_mismatch : SettlementLine A → Payment A → ReconciliationMismatch A
  amount_mismatch line p = record {
    provider_reference = line.provider_reference;
    reason = "captured_amount_mismatch";
    expected = p.captured_amount;
    reported = line.captured_amount;
  }

module _ {S A : Type 0} ⦃d : Decimal A⦄ where
  -- The loop over the lines, with the mismatches so far.
  unfoldable pub compare_lines :
      Store S A
      → List (SettlementLine A)
      → List (ReconciliationMismatch A)
      → Exec S (List (ReconciliationMismatch A))
  compare_lines store [] mismatches s = (ok mismatches, s)
  compare_lines store (line ∷ lines) mismatches s =
      let (found, s') = store.get_payment_by_provider_reference line.provider_reference s in
      elim found [
        | err not_found ↦ compare_lines store lines (mismatches ++ unknown_payment line ∷ []) s'
        | err e ↦ (err e, s')
        | ok p ↦
            let as_before = compare_lines store lines mismatches s' in
            let with_mismatch =
              compare_lines store lines (mismatches ++ amount_mismatch line p ∷ []) s' in
            if d.equal p.captured_amount line.captured_amount then as_before else with_mismatch
      ]

  -- `ReconciliationService.Reconcile`
  unfoldable pub reconcile :
      Store S A
      → (List (ReconciliationMismatch A) → List (ReconciliationMismatch A))
      → List (SettlementLine A)
      → Exec S (List (ReconciliationMismatch A))
  unfolding compare_lines
  reconcile store sort lines = do mismatches ← compare_lines store lines []; pure (sort mismatches)
