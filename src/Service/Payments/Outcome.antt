-- ===== src/Service/Payments/Outcome.antt =====
-- What a committed payment command leaves in the store in memory, written out independently of the
-- code of internal/service/payment_service.go and internal/store/store.go.
use payment_ledger_platform.Base.{◌≡◌, refl, false, String, Option, some, List, ◌++◌, arith}
use payment_ledger_platform.Base.Dict.{lookup, insert}
use payment_ledger_platform.Error.{Error, Result, ok, err}
use payment_ledger_platform.Amount.{Decimal}
use payment_ledger_platform.Domain.Payment.{Payment}
use payment_ledger_platform.Domain.Ledger.{LedgerEntry}
use payment_ledger_platform.Domain.Outbox.{PaymentCommand}
use payment_ledger_platform.Json.{payment_json}
use payment_ledger_platform.Store.State.{MemoryStore}
use payment_ledger_platform.Store.Memory.Payments.{next_payment, commit_payment_command}
use payment_ledger_platform.Store.Interface.{Visits, memory}
use payment_ledger_platform.Service.Payments.{PaymentService, Provider, RiskEngine}

module _ {A : Type 0} ⦃d : Decimal A⦄ where
  -- The payment service over the store in memory.
  abbrev pub in_memory :
      Visits A
      → Provider A
      → Option (RiskEngine A)
      → Option (String → MemoryStore A → MemoryStore A)
      → PaymentService (MemoryStore A) A
  in_memory visits provider risk metrics = record {
    store = memory visits;
    provider = provider;
    risk = risk;
    metrics = metrics;
  }

  -- The payment `q`, the journal and one event that carries `q` are stored together.
  abbrev pub committed :
      Payment A
      → List (LedgerEntry A)
      → String
      → String
      → MemoryStore A
      → Result (Payment A) × MemoryStore A
  committed q entries event_id event_type s = (
    ok q,
    record s {
      payments = insert q.id q s.payments;
      ledger = s.ledger ++ entries;
      outbox =
          insert event_id
            (record {
              id = event_id;
              aggregate_id = q.id;
              event_type = event_type;
              payload = payment_json q;
              published = false;
            })
            s.outbox;
    },
  )

  -- An accepted command whose event carries the payment it leaves.
  pub commit_lem :
      (command : PaymentCommand A) (p q : Payment A) (s : MemoryStore A)
      → lookup command.payment_id s.payments ≡ some p
      → next_payment command p ≡ ok q
      → command.event.payload ≡ payment_json q
      → command.event.published ≡ false
      → commit_payment_command command s
        ≡ committed q command.ledger command.event.id command.event.event_type s
  unfolding commit_payment_command
  commit_lem command p q s found done payload fresh =
      rw (found, commit_payment_command, done, payload, fresh) refl

  -- A command that is refused changes nothing.
  pub commit_refused :
      (command : PaymentCommand A) (s : MemoryStore A) {e : Error}
      → (commit_payment_command command s).0 ≡ err e
      → (commit_payment_command command s).1 ≡ s
  unfolding commit_payment_command
  commit_refused command s h = ground arith
