-- ===== src/Service/Fakes.antt =====
-- internal/service/fakes.go: the provider of the demo, and the risk check by a highest amount.
pub mod Threshold
use Prim.Native.String.{slice}
use payment_ledger_platform.Base.{String, none, some}
use payment_ledger_platform.Error.{external, ok, err}
use payment_ledger_platform.Amount.{Decimal}
use payment_ledger_platform.Service.Payments.{Provider, RiskEngine}
use Prim.Native.String

module _ {A : Type 0} where
  -- An identifier is a UUID, so it has the eight bytes that the code slices.
  abbrev pub deterministic_provider : Provider A
  deterministic_provider = record {
    authorize = λ p. ok (String.◌++◌ "demo_" (slice p.id 0 8));
    capture = λ p amount. ok tt;
    refund = λ p amount. ok tt;
  }

  abbrev pub threshold_risk : ⦃d : Decimal A⦄ → String → RiskEngine A
  threshold_risk ⦃d⦄ max_amount = record {
    check = λ p. elim (d.from_string max_amount) [
      | none ↦ err (external (d.from_string_error max_amount))
      | some max ↦ ok (d.less_than_or_equal p.amount max)
    ];
  }
