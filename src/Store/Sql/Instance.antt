-- ===== src/Store/Sql/Instance.antt =====
-- internal/store/postgres.go: `PostgresStore` as an implementation of the interface `Store`.
use payment_ledger_platform.Amount.{Decimal}
use payment_ledger_platform.Store.Interface.{Store}
use payment_ledger_platform.Store.Sql.Tables.{Postgres, Database}
use payment_ledger_platform.Store.Sql.Payments
use payment_ledger_platform.Store.Sql.Outbox
use payment_ledger_platform.Store.Sql.Payouts
use payment_ledger_platform.Store.Sql.Disputes

module _ {A : Type 0} ⦃d : Decimal A⦄ where
  abbrev pub postgres : Postgres A → Store (Database A) A
  postgres server = record {
    create_payment = Payments.create_payment server;
    get_payment = Payments.get_payment server;
    get_payment_by_provider_reference = Payments.get_payment_by_provider_reference server;
    transition = Payments.transition server;
    apply_amount = Payments.apply_amount server;
    append_ledger = Payments.append_ledger server;
    enqueue = Outbox.enqueue server;
    claim_outbox = Outbox.claim_outbox server;
    mark_published = Outbox.mark_published server;
    register_webhook = Outbox.register_webhook server;
    commit_payment_command = Payments.commit_payment_command server;
    create_payout = Payouts.create_payout server;
    get_payout = Payouts.get_payout server;
    available_balance = Payouts.available_balance server;
    transition_payout = Payouts.transition_payout server;
    create_dispute = Disputes.create_dispute server;
    get_dispute = Disputes.get_dispute server;
    resolve_dispute = Disputes.resolve_dispute server;
  }
