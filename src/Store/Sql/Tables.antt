-- ===== src/Store/Sql/Tables.antt =====
-- migrations/*.sql: the tables, and internal/store/postgres.go: statements and transactions. What the
-- server decides (how a column stores a value, the clock, failures, the order of returned rows) is
-- a parameter. Statements of one transaction are not interleaved with others.
use payment_ledger_platform.Base.{ℕ, suc, Bool, String, List, [], Option, none, some}
use payment_ledger_platform.Base.Dict.{Dict}
use payment_ledger_platform.Error.{Error, Result, ok, err, Done, Exec}
use payment_ledger_platform.Domain.Payment.{PaymentStatus}
use payment_ledger_platform.Domain.Outbox.{OutboxEvent}
use payment_ledger_platform.Domain.Payout.{PayoutStatus}
use payment_ledger_platform.Domain.Dispute.{DisputeStatus}

-- A row of a table with a primary key stands under its key. `none` is NULL.
pub record PaymentRow (A : Type 0) : Type 0 where
  pub merchant_id : String
  pub customer_id : String
  pub currency : String
  pub amount : A
  pub captured_amount : A
  pub refunded_amount : A
  pub status : PaymentStatus
  pub provider_reference : Option String

pub record EntryRow (A : Type 0) : Type 0 where
  pub id : String
  pub payment_id : Option String
  pub account_id : String
  pub currency : String
  pub debit : A
  pub credit : A

-- Instants are numbers of microseconds.
pub record EventRow : Type 0 where
  pub aggregate_id : String
  pub event_type : String
  pub payload : String
  pub claimed_at : Option ℕ
  pub published_at : Option ℕ
  pub created_at : ℕ

pub record PayoutRow (A : Type 0) : Type 0 where
  pub merchant_id : String
  pub currency : String
  pub amount : A
  pub status : PayoutStatus
  pub provider_reference : Option String

pub record DisputeRow (A : Type 0) : Type 0 where
  pub payment_id : String
  pub merchant_id : String
  pub currency : String
  pub amount : A
  pub reason : String
  pub status : DisputeStatus

pub record Tables (A : Type 0) : Type 0 where
  pub payments : Dict (PaymentRow A)
  pub idempotency_keys : Dict String
  pub ledger_entries : List (EntryRow A)
  pub outbox_events : Dict EventRow
  pub processed_webhooks : Dict Done
  pub payouts : Dict (PayoutRow A)
  pub disputes : Dict (DisputeRow A)

abbrev pub new_tables : {A : Type 0} → Tables A
new_tables = record {
  payments = [];
  idempotency_keys = [];
  ledger_entries = [];
  outbox_events = [];
  processed_webhooks = [];
  payouts = [];
  disputes = [];
}

-- Why the server refuses a statement, or the driver a row: `null_scanned` is a NULL for a text.
pub data Violation : Type 0 where
  bad_value duplicate_key failed_check missing_reference null_scanned : Violation

-- The columns give what a column of the type stores for a value, or `none` where it takes none: uuid,
-- char(3), numeric(20, 6) and jsonb. `same_char` is `=` on char(3), `outage` the failure of a
-- statement to reach the server, by the number of the statement, and `clock` the server's time then.
-- `scan_payments` and `scan_events` are the orders in which a SELECT meets the rows, and `returned` that
-- of the rows that an UPDATE returns.
pub record Postgres (A : Type 0) : Type 0 where
  pub uuid : String → Option String
  pub char_3 : String → Option String
  pub numeric : A → Option A
  pub jsonb : String → Option String
  pub same_char : String → String → Bool
  pub refusal : Violation → Error
  pub outage : ℕ → Option Error
  pub clock : ℕ → ℕ
  pub scan_payments : Dict (PaymentRow A) → Dict (PaymentRow A)
  pub scan_events : Dict EventRow → Dict EventRow
  pub returned : List OutboxEvent → List OutboxEvent

-- The tables, and how many statements were sent.
pub record Database (A : Type 0) : Type 0 where
  pub tables : Tables A
  pub sent : ℕ

-- How a transaction ends when nothing failed.
pub data Ending (X : Type 0) : Type 0 where
  commits : X → Ending X
  rolls_back : X → Ending X

module _ {A X : Type 0} (server : Postgres A) where
  -- One statement: it is refused as a whole, or takes effect as a whole.
  unfoldable pub statement : (Tables A → Result (X × Tables A)) → Exec (Database A) X
  statement run db = elim (server.outage db.sent) [
    | some e ↦ (err e, record db { sent = suc db.sent })
    | none ↦ elim (run db.tables) [
      | err e ↦ (err e, record db { sent = suc db.sent })
      | ok (x, tables) ↦ (ok x, record { tables = tables; sent = suc db.sent })
    ]
  ]

  -- BEGIN, the statements, and their ending; an error rolls back. The body is given the instant of
  -- BEGIN, which is what now() returns until COMMIT.
  unfoldable pub transaction : (ℕ → Exec (Database A) (Ending X)) → Exec (Database A) X
  transaction body db = elim (server.outage db.sent) [
    | some e ↦ (err e, record db { sent = suc db.sent })
    | none ↦
        let (r, db') = body (server.clock db.sent) (record db { sent = suc db.sent }) in
        elim r [
          | err e ↦ (err e, record db' { tables = db.tables })
          | ok (rolls_back x) ↦ (ok x, record db' { tables = db.tables })
          | ok (commits x) ↦ elim (server.outage db'.sent) [
            | some e ↦ (err e, record { tables = db.tables; sent = suc db'.sent })
            | none ↦ (ok x, record db' { sent = suc db'.sent })
          ]
        ]
  ]

  -- A statement outside a transaction is one by itself.
  unfoldable pub alone : (ℕ → Tables A → Result (X × Tables A)) → Exec (Database A) X
  alone run db = statement (run (server.clock db.sent)) db
