-- ===== src/Service/Disputes.antt =====
-- internal/service/dispute.go: the dispute service, over any store.
pub mod Outcome
use payment_ledger_platform.Base.{Bool, true, false, not, ◌||◌, String, List, if◌then◌else◌}
use payment_ledger_platform.Error.{
  Error, dispute_exceeds, Result, ok, err, Exec, lift, refuse_if, ◌>>=◌, ◌>>◌,
}
use payment_ledger_platform.Text.{Unicode}
use payment_ledger_platform.Amount.{Decimal}
use payment_ledger_platform.Domain.Ledger.{LedgerEntry}
use payment_ledger_platform.Domain.Outbox.{OutboxEvent}
use payment_ledger_platform.Domain.Dispute.{
  DisputeStatus, opened, won, lost, unset, Dispute, new_dispute,
}
use payment_ledger_platform.Json.{dispute_json}
use payment_ledger_platform.Store.Memory.Payouts.{merchant_account}
use payment_ledger_platform.Store.Interface.{Store}
use payment_ledger_platform.Service.Journal.{EntryIds, journal}

-- The account that the frozen money goes to.
abbrev pub destination : Bool → String → String
destination true merchant = merchant_account merchant "available"
destination false merchant = "customer:chargeback"

abbrev pub verdict : Bool → DisputeStatus
verdict true = won
verdict false = lost

abbrev pub verdict_event : Bool → String
verdict_event true = "dispute.won"
verdict_event false = "dispute.lost"

module _ {S A : Type 0} ⦃d : Decimal A⦄ where
  -- `open` is a reserved word.
  unfoldable pub open_dispute :
      ⦃u : Unicode⦄ → Store S A → String → EntryIds → String → String → A → Exec S (Dispute A)
  open_dispute store id ids payment_id reason amount = do
    p ← store.get_payment payment_id
    lift (
        refuse_if
          (not (d.greater_than amount d.zero)
            || d.greater_than amount (d.sub p.captured_amount p.refunded_amount))
          dispute_exceeds)
    dispute ← lift (new_dispute id payment_id p.merchant_id p.currency reason amount)
    store.create_dispute dispute
        (journal ids payment_id (merchant_account p.merchant_id "available")
          (merchant_account p.merchant_id "dispute_frozen") p.currency amount)
        (record {
          id = ids.event;
          aggregate_id = dispute.id;
          event_type = "dispute.opened";
          payload = dispute_json dispute;
          published = false;
        })

  unfoldable pub resolve : Store S A → EntryIds → String → Bool → Exec S (Dispute A)
  resolve store ids dispute_id merchant_wins = do
    dispute ← store.get_dispute dispute_id
    store.resolve_dispute dispute_id (verdict merchant_wins)
        (journal ids dispute.payment_id (merchant_account dispute.merchant_id "dispute_frozen")
          (destination merchant_wins dispute.merchant_id) dispute.currency dispute.amount)
        (record {
          id = ids.event;
          aggregate_id = dispute_id;
          event_type = verdict_event merchant_wins;
          payload = dispute_json (record dispute { status = verdict merchant_wins });
          published = false;
        })
