-- ===== src/Store/State.antt =====
-- internal/store/store.go: the fields of `MemoryStore`. The set `webhooks` is a map to units.
use payment_ledger_platform.Base.{List, [], String}
use payment_ledger_platform.Base.Dict.{Dict}
use payment_ledger_platform.Error.{Done}
use payment_ledger_platform.Domain.Payment.{Payment}
use payment_ledger_platform.Domain.Ledger.{LedgerEntry}
use payment_ledger_platform.Domain.Outbox.{OutboxEvent}
use payment_ledger_platform.Domain.Payout.{Payout}
use payment_ledger_platform.Domain.Dispute.{Dispute}

pub record MemoryStore (A : Type 0) : Type 0 where
  pub payments : Dict (Payment A)
  pub keys : Dict String
  pub outbox : Dict OutboxEvent
  pub ledger : List (LedgerEntry A)
  pub webhooks : Dict Done
  pub payouts : Dict (Payout A)
  pub disputes : Dict (Dispute A)

abbrev pub new_memory : {A : Type 0} → MemoryStore A
new_memory = record {
  payments = [];
  keys = [];
  outbox = [];
  ledger = [];
  webhooks = [];
  payouts = [];
  disputes = [];
}
