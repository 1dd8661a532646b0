-- ===== src/Service/Payouts.antt =====
-- internal/service/payout.go: the payout service, over any store.
pub mod Outcome
pub mod Balance
pub mod Once
use payment_ledger_platform.Base.{Bool, true, false, String, List, if◌then◌else◌}
use payment_ledger_platform.Error.{Error, Result, ok, err, Exec, lift, ◌>>=◌}
use payment_ledger_platform.Text.{Unicode}
use payment_ledger_platform.Amount.{Decimal}
use payment_ledger_platform.Domain.Ledger.{LedgerEntry}
use payment_ledger_platform.Domain.Outbox.{OutboxEvent}
use payment_ledger_platform.Domain.Payout.{
  PayoutStatus, pending, paid, failed, unset, Payout, new_payout,
}
use payment_ledger_platform.Json.{payout_json}
use payment_ledger_platform.Store.Memory.Payouts.{merchant_account}
use payment_ledger_platform.Store.Interface.{Store}
use payment_ledger_platform.Service.Journal.{EntryIds, journal}

-- The account that a payout's money leaves the reservation for.
abbrev pub destination : Bool → String → String
destination true merchant = "provider:payout_settled"
destination false merchant = merchant_account merchant "available"

abbrev pub terminal_status : Bool → PayoutStatus
terminal_status true = paid
terminal_status false = failed

abbrev pub terminal_event : Bool → String
terminal_event true = "payout.paid"
terminal_event false = "payout.failed"

module _ {S A : Type 0} ⦃d : Decimal A⦄ where
  unfoldable pub create :
      ⦃u : Unicode⦄ → Store S A → String → EntryIds → String → String → A → Exec S (Payout A)
  create store id ids merchant currency amount = do
    p ← lift (new_payout id merchant currency amount)
    store.create_payout p
        (journal ids "" (merchant_account merchant "available")
          (merchant_account merchant "payout_pending") p.currency amount)
        (record {
          id = ids.event;
          aggregate_id = p.id;
          event_type = "payout.created";
          payload = payout_json p;
          published = false;
        })

  unfoldable pub complete : Store S A → EntryIds → String → String → Bool → Exec S (Payout A)
  complete store ids payout_id reference success = do
    payout ← store.get_payout payout_id
    store.transition_payout payout_id (terminal_status success) reference
        (journal ids "" (merchant_account payout.merchant_id "payout_pending")
          (destination success payout.merchant_id) payout.currency payout.amount)
        (record {
          id = ids.event;
          aggregate_id = payout_id;
          event_type = terminal_event success;
          payload =
              payout_json (record payout {
                status = terminal_status success;
                provider_reference = reference;
              });
          published = false;
        })
