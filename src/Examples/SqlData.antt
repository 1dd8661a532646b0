-- ===== src/Examples/SqlData.antt =====
-- A server with concrete columns, and tables.
use payment_ledger_platform.Base.{
  ◌≡◌, sym, ap, ◌∙◌, ◌*◌, Memᴰ, Bool-cases, inl, inr, refl, ℕ, String, ◌==◌, [], ◌∷◌, Option, none,
  some, false, eqb, if◌then◌else◌, All, arith, eq_iff, eq_refl,
}
use payment_ledger_platform.Base.Dict.{Dict, lookup}
use payment_ledger_platform.Base.Int.{ℤ, pos}
use payment_ledger_platform.Error.{Error, external}
use payment_ledger_platform.Domain.Payment
use payment_ledger_platform.Domain.Payment.{Payment, captured, validate_capture, can_transition}
use payment_ledger_platform.Domain.Outbox.{OutboxEvent, PaymentCommand}
use payment_ledger_platform.Domain.Payment.Limits.{IsSound}
use payment_ledger_platform.Store.Sql.Rows.{payment_of_row}
use payment_ledger_platform.Store.Sql.Accepts.{FitsColumns}
use payment_ledger_platform.Store.Sql.Tables.{
  PaymentRow, EventRow, Tables, new_tables, Postgres, Database,
}
use payment_ledger_platform.Store.Sql.Abstract.{Columns}
use payment_ledger_platform.Store.Sql.Leases.{IsRowOf}
use payment_ledger_platform.Store.Sql.Claims.{Orders}
use payment_ledger_platform.Store.Sql.Complete.{Complete}
use payment_ledger_platform.Examples.Cents.{cents, meaning}

-- A column that takes any text but the empty one.
abbrev pub some_text : String → Option String
some_text text = if text == "" then none else some text

-- The rows of a table without those of a key, and the first row of each key.
unfoldable without : String → Dict EventRow → Dict EventRow
without key [] = []
without key (e ∷ es) = let rest = without key es in if e.0 == key then rest else e ∷ rest

unfoldable pub first_rows : Dict EventRow → Dict EventRow
unfolding without
first_rows [] = []
first_rows (e ∷ es) = e ∷ without e.0 (first_rows es)

without-IsRowOf :
    (e : String × EventRow) (es rows : Dict EventRow)
    → All (IsRowOf es) rows
    → All (IsRowOf (e ∷ es)) (without e.0 rows)
unfolding without lookup
without-IsRowOf e es [] h = tt
without-IsRowOf e es (x ∷ rows) h =
    ground (arith, eq_iff x.0 e.0, eq_iff e.0 x.0, without-IsRowOf e es rows h.1)

pub first_rows-IsRowOf : (table : Dict EventRow) → All (IsRowOf table) (first_rows table)
unfolding first_rows lookup
first_rows-IsRowOf [] = tt
first_rows-IsRowOf (e ∷ es) =
    (ground (arith, eq_refl e.0), without-IsRowOf e es (first_rows es) (first_rows-IsRowOf es))

Memᴰ-without :
    (key : String) (e : String × EventRow) (rows : Dict EventRow)
    → (e.0 == key) ≡ false
    → Memᴰ e rows
    → Memᴰ e (without key rows)
unfolding without
Memᴰ-without key e [] differs m = elim m [ ]
Memᴰ-without key e (x ∷ rows) differs (Memᴰ.head same) =
    rw (ap (λ y. y.0 == key) (sym same) ∙ differs) (Memᴰ.head same)
Memᴰ-without key e (x ∷ rows) differs (Memᴰ.tail m) = elim (Bool-cases (x.0 == key)) [
  | inl equal ↦ rw equal (Memᴰ-without key e rows differs m)
  | inr other ↦ rw other (Memᴰ.tail (Memᴰ-without key e rows differs m))
]

Memᴰ-first_rows :
    (table : Dict EventRow) (e : String × EventRow) → IsRowOf table e → Memᴰ e (first_rows table)
unfolding first_rows lookup
Memᴰ-first_rows [] e present = ground (arith, present)
Memᴰ-first_rows (x ∷ table) e present = elim (Bool-cases (x.0 == e.0)) [
  | inl equal ↦ Memᴰ.head (ground (arith, equal, present, eq_iff x.0 e.0))
  | inr other ↦ Memᴰ.tail (
      Memᴰ-without x.0 e (first_rows table) (ground (arith, other, eq_iff x.0 e.0, eq_iff e.0 x.0))
        (Memᴰ-first_rows table e (ground (arith, other, present))))
]

-- A server with given outages, and with a clock that counts statements.
abbrev pub server_with : (ℕ → Option Error) → Postgres ℤ
server_with outage = record {
  uuid = some_text;
  char_3 = some_text;
  numeric = λ x. some x;
  jsonb = λ text. some text;
  same_char = λ stored text. stored == text;
  refusal = λ violation. external "refused";
  outage = outage;
  clock = λ k. k;
  scan_payments = λ rows. rows;
  scan_events = first_rows;
  returned = λ events. events;
}

abbrev pub server : Postgres ℤ
server = server_with λ k. none

-- The statement of the number does not reach the server.
abbrev pub server_failing_at : ℕ → Postgres ℤ
server_failing_at failing =
    server_with λ k. if eqb k failing then some (external "connection reset") else none

pub failing-Columns : (failing : ℕ) → Columns (server_failing_at failing)
failing-Columns failing = record {
  uuid_again = λ x y h. ground arith;
  numeric_exact = λ x y h. ground arith;
  same_char_stored = λ row x y h. ground arith;
}

pub server-Columns : Columns server
server-Columns = record {
  uuid_again = λ x y h. ground arith;
  numeric_exact = λ x y h. ground arith;
  same_char_stored = λ row x y h. ground arith;
}

abbrev pub db_with : Tables ℤ → Database ℤ
db_with tables = record { tables = tables; sent = 0 }

abbrev pub order_row : PaymentRow ℤ
order_row = record {
  merchant_id = "m1";
  customer_id = "c1";
  currency = "USD";
  amount = pos 100;
  captured_amount = pos 0;
  refunded_amount = pos 0;
  status = Payment.authorized;
  provider_reference = some "demo_1";
}

abbrev pub with_order : Tables ℤ
with_order = record (new_tables {A = ℤ}) {
  payments = ("p1", order_row) ∷ [];
  idempotency_keys = ("order-1", "p1") ∷ [];
}

abbrev pub event_row_at : ℕ → EventRow
event_row_at created = record {
  aggregate_id = "p1";
  event_type = "payment.created";
  payload = "{}";
  claimed_at = none;
  published_at = none;
  created_at = created;
}

abbrev pub with_events : Tables ℤ
with_events = record (new_tables {A = ℤ}) {
  outbox_events = ("e2", event_row_at 2) ∷ ("e1", event_row_at 1) ∷ [];
}

abbrev pub event_named : String → OutboxEvent
event_named id = record {
  id = id;
  aggregate_id = "p1";
  event_type = "payment.created";
  payload = "{}";
  published = false;
}

-- A server with a clock on which more than a minute passes between two statements.
abbrev pub slow_server : Postgres ℤ
slow_server = record server { clock = λ k. k * 100000000 }

pub server-Orders : Orders server
server-Orders = record { scanned = first_rows-IsRowOf; returned_only = λ P es h. h }

pub slow_server-Orders : Orders slow_server
slow_server-Orders = record { scanned = first_rows-IsRowOf; returned_only = λ P es h. h }

pub slow_server-Complete : Complete slow_server
slow_server-Complete = record { scans_all = Memᴰ-first_rows; returns_all = λ e es m. m }

abbrev pub captured_payment : Payment ℤ
captured_payment = record (payment_of_row "p1" order_row) {
  captured_amount = pos 60;
  status = captured;
}

abbrev pub capture_command : PaymentCommand ℤ
capture_command = record {
  payment_id = "p1";
  provider_reference = "";
  event_type = "payment.captured";
  status = captured;
  amount = pos 60;
  ledger =
      record {
        id = "d1";
        payment_id = "p1";
        account_id = "merchant:m1:pending";
        currency = "USD";
        debit = pos 60;
        credit = pos 0;
      }
      ∷ record {
        id = "c1";
        payment_id = "p1";
        account_id = "merchant:m1:available";
        currency = "USD";
        debit = pos 0;
        credit = pos 60;
      }
      ∷ [];
  event = event_named "e1";
}

pub order_row-IsSound : IsSound meaning (payment_of_row "p1" order_row)
order_row-IsSound = ground arith

pub entries_fit : All (FitsColumns server with_order.payments) capture_command.ledger
unfolding lookup
entries_fit = ((refl, refl, refl, refl, refl, refl), ((refl, refl, refl, refl, refl, refl), tt))
