-- ===== src/Store/Memory/Disputes.antt =====
-- internal/store/store.go: the dispute methods of `MemoryStore`.
use payment_ledger_platform.Base.{Bool, true, false, not, String, List, ◌++◌}
use payment_ledger_platform.Base.Dict.{lookup, insert, contains}
use payment_ledger_platform.Error.{
  not_found, dispute_exists, dispute_resolved, invalid_dispute_status, refuse_if, or_error, Exec,
  pure, lift, gets, modify, ◌>>=◌, ◌>>◌,
}
use payment_ledger_platform.Amount.{Decimal}
use payment_ledger_platform.Domain.Ledger.{LedgerEntry, validate_balanced}
use payment_ledger_platform.Domain.Outbox.{OutboxEvent}
use payment_ledger_platform.Domain.Dispute.{DisputeStatus, opened, won, lost, Dispute}
use payment_ledger_platform.Store.State.{MemoryStore}

abbrev pub is_opened : DisputeStatus → Bool
is_opened opened = true
is_opened _ = false

abbrev pub is_decided : DisputeStatus → Bool
is_decided won = true
is_decided lost = true
is_decided _ = false

module _ {A : Type 0} ⦃d : Decimal A⦄ where
  unfoldable pub create_dispute :
      Dispute A → List (LedgerEntry A) → OutboxEvent → Exec (MemoryStore A) (Dispute A)
  create_dispute dispute entries event = do
    exists ← gets λ s. contains dispute.id s.disputes
    lift (refuse_if exists dispute_exists)
    lift (validate_balanced entries)
    modify λ s. record s {
      disputes = insert dispute.id dispute s.disputes;
      ledger = s.ledger ++ entries;
      outbox = insert event.id event s.outbox;
    }
    pure dispute

  unfoldable pub get_dispute : String → Exec (MemoryStore A) (Dispute A)
  get_dispute id = do found ← gets λ s. lookup id s.disputes; lift (or_error found not_found)

  unfoldable pub resolve_dispute :
      String → DisputeStatus → List (LedgerEntry A) → OutboxEvent → Exec (MemoryStore A) (Dispute A)
  resolve_dispute id status entries event = do
    found ← gets λ s. lookup id s.disputes
    dispute ← lift (or_error found not_found)
    lift (refuse_if (not (is_opened dispute.status)) dispute_resolved)
    lift (refuse_if (not (is_decided status)) invalid_dispute_status)
    lift (validate_balanced entries)
    let dispute' = record dispute { status = status }
    modify λ s. record s {
      disputes = insert id dispute' s.disputes;
      ledger = s.ledger ++ entries;
      outbox = insert event.id event s.outbox;
    }
    pure dispute'
