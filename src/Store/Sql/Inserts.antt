-- ===== src/Store/Sql/Inserts.antt =====
-- internal/store/postgres.go: the INSERT statements, with the constraints of migrations/*.sql.
use payment_ledger_platform.Base.{
  ℕ, Bool, true, false, not, ◌||◌, String, ◌==◌, List, [], ◌∷◌, ◌++◌, Option, none, some,
}
use payment_ledger_platform.Base.Dict.{insert, contains}
use payment_ledger_platform.Error.{Result, ok, Done, and_then}
use payment_ledger_platform.Amount.{Decimal}
use payment_ledger_platform.Domain.Payment.{Payment}
use payment_ledger_platform.Domain.Ledger.{LedgerEntry}
use payment_ledger_platform.Domain.Outbox.{OutboxEvent}
use payment_ledger_platform.Domain.Payout.{Payout}
use payment_ledger_platform.Domain.Dispute.{Dispute}
use payment_ledger_platform.Store.Sql.Tables.{
  PaymentRow, EntryRow, EventRow, PayoutRow, DisputeRow, Tables, bad_value, duplicate_key,
  failed_check, missing_reference, Postgres,
}
use payment_ledger_platform.Store.Sql.Rows.{
  is_payment_status, is_payout_status, is_dispute_status, stored, check, payment_checks,
  entry_checks,
}

abbrev pub entry_row :
    {A : Type 0} → LedgerEntry A → String → Option String → String → A → A → EntryRow A
entry_row entry id owner currency debit credit = record {
  id = id;
  payment_id = owner;
  account_id = entry.account_id;
  currency = currency;
  debit = debit;
  credit = credit;
}

abbrev pub entry_known : {A : Type 0} → String → List (EntryRow A) → Bool
entry_known id [] = false
entry_known id (row ∷ rows) = row.id == id || entry_known id rows

abbrev pub event_row : OutboxEvent → ℕ → String → String → EventRow
event_row event now aggregate_id payload = record {
  aggregate_id = aggregate_id;
  event_type = event.event_type;
  payload = payload;
  claimed_at = none;
  published_at = none;
  created_at = now;
}

abbrev pub payout_row : {A : Type 0} → Payout A → String → A → PayoutRow A
payout_row p currency amount = record {
  merchant_id = p.merchant_id;
  currency = currency;
  amount = amount;
  status = p.status;
  provider_reference = none;
}

abbrev pub dispute_row : {A : Type 0} → Dispute A → String → String → A → DisputeRow A
dispute_row p payment_id currency amount = record {
  payment_id = payment_id;
  merchant_id = p.merchant_id;
  currency = currency;
  amount = amount;
  reason = p.reason;
  status = p.status;
}

module _ {A : Type 0} ⦃d : Decimal A⦄ where
  abbrev pub payment_row : Payment A → String → A → PaymentRow A
  payment_row p currency amount = record {
    merchant_id = p.merchant_id;
    customer_id = p.customer_id;
    currency = currency;
    amount = amount;
    captured_amount = d.zero;
    refunded_amount = d.zero;
    status = p.status;
    provider_reference = none;
  }

module _ {A : Type 0} ⦃d : Decimal A⦄ (server : Postgres A) where
  -- `INSERT INTO payments`: the other columns have their defaults.
  unfoldable pub insert_payment : Payment A → Tables A → Result (Done × Tables A)
  insert_payment p t = and_then (stored server (server.uuid p.id)) λ key.
      and_then (stored server (server.char_3 p.currency)) λ currency.
        and_then (stored server (server.numeric p.amount)) λ amount.
          and_then (check server (is_payment_status p.status) bad_value) λ _.
            let row = payment_row p currency amount in
            and_then (check server (payment_checks row) failed_check) λ _.
              and_then (check server (not (contains key t.payments)) duplicate_key)
                λ _. ok (tt, record t { payments = insert key row t.payments })

  -- `INSERT INTO idempotency_keys`
  unfoldable pub insert_key : String → String → Tables A → Result (Done × Tables A)
  insert_key key payment_id t = and_then (stored server (server.uuid payment_id)) λ id.
      and_then (check server (not (contains key t.idempotency_keys)) duplicate_key) λ _.
        and_then (check server (contains id t.payments) missing_reference)
          λ _. ok (tt, record t { idempotency_keys = insert key id t.idempotency_keys })

  -- A foreign key to payments that may be NULL.
  abbrev pub owner_known : Option String → Tables A → Bool
  owner_known none t = true
  owner_known (some id) t = contains id t.payments

  -- The payment_id that an entry is inserted with: `$2`, or NULL for a payout.
  abbrev pub owner_column : Bool → LedgerEntry A → Result (Option String)
  owner_column false entry = ok none
  owner_column true entry =
      and_then (stored server (server.uuid entry.payment_id)) λ id. ok (some id)

  -- `INSERT INTO ledger_entries`
  unfoldable pub insert_entry : Bool → LedgerEntry A → Tables A → Result (Done × Tables A)
  insert_entry owned entry t = and_then (stored server (server.uuid entry.id)) λ id.
      and_then (owner_column owned entry) λ owner.
        and_then (stored server (server.char_3 entry.currency)) λ currency.
          and_then (stored server (server.numeric entry.debit)) λ debit.
            and_then (stored server (server.numeric entry.credit)) λ credit.
              let row = entry_row entry id owner currency debit credit in
              and_then (check server (entry_checks row) failed_check) λ _.
                and_then (check server (not (entry_known id t.ledger_entries)) duplicate_key) λ _.
                  and_then (check server (owner_known owner t) missing_reference)
                    λ _. ok (tt, record t { ledger_entries = t.ledger_entries ++ row ∷ [] })

  -- `INSERT INTO outbox_events`, with the aggregate that the statement is given.
  unfoldable pub insert_event : ℕ → String → OutboxEvent → Tables A → Result (Done × Tables A)
  insert_event now aggregate event t = and_then (stored server (server.uuid event.id)) λ id.
      and_then (stored server (server.uuid aggregate)) λ aggregate_id.
        and_then (stored server (server.jsonb event.payload)) λ payload.
          and_then (check server (not (contains id t.outbox_events)) duplicate_key) λ _. ok (
            tt,
            record t {
              outbox_events = insert id (event_row event now aggregate_id payload) t.outbox_events;
            },
          )

  -- `INSERT INTO payouts`
  unfoldable pub insert_payout : Payout A → Tables A → Result (Done × Tables A)
  insert_payout p t = and_then (stored server (server.uuid p.id)) λ key.
      and_then (stored server (server.char_3 p.currency)) λ currency.
        and_then (stored server (server.numeric p.amount)) λ amount.
          and_then (check server (is_payout_status p.status) bad_value) λ _.
            and_then (check server (d.greater_than amount d.zero) failed_check) λ _.
              and_then (check server (not (contains key t.payouts)) duplicate_key) λ _.
                ok (tt, record t { payouts = insert key (payout_row p currency amount) t.payouts })

  -- `INSERT INTO disputes`
  unfoldable pub insert_dispute : Dispute A → Tables A → Result (Done × Tables A)
  insert_dispute p t = and_then (stored server (server.uuid p.id)) λ key.
      and_then (stored server (server.uuid p.payment_id)) λ payment_id.
        and_then (stored server (server.char_3 p.currency)) λ currency.
          and_then (stored server (server.numeric p.amount)) λ amount.
            and_then (check server (is_dispute_status p.status) bad_value) λ _.
              and_then (check server (d.greater_than amount d.zero) failed_check) λ _.
                and_then (check server (not (contains key t.disputes)) duplicate_key) λ _.
                  and_then (check server (contains payment_id t.payments) missing_reference) λ _.
                    ok (
                      tt,
                      record t {
                        disputes = insert key (dispute_row p payment_id currency amount) t.disputes;
                      },
                    )
