-- ===== src/Examples/Data.antt =====
-- Concrete payments, payouts, disputes and stores.
use payment_ledger_platform.Base.{false, [], ◌∷◌}
use payment_ledger_platform.Base.Int.{ℤ, pos}
use payment_ledger_platform.Error.{ok}
use payment_ledger_platform.Text.{Unicode}
use payment_ledger_platform.Domain.Payment
use payment_ledger_platform.Domain.Payment.{Payment, CreatePayment}
use payment_ledger_platform.Store.State.{MemoryStore, new_memory}
use payment_ledger_platform.Store.Interface.{Visits}
use payment_ledger_platform.Service.Journal.{EntryIds}
use payment_ledger_platform.Service.Payments.{Provider, RiskEngine}
use payment_ledger_platform.Examples.Cents.{cents}
use payment_ledger_platform.Base.{List, arith}
use payment_ledger_platform.Domain.Payment.{captured}
use payment_ledger_platform.Domain.Payment.Limits.{IsSound}
use payment_ledger_platform.Store.Steps.{
  StoreCall, creates_payment, transitions, applies_amount, marks_published,
}
use payment_ledger_platform.Examples.Cents.{meaning}

-- No character beyond ASCII is changed.
instance abbrev pub ascii : Unicode
ascii = record { to_upper = λ c. c }

-- Maps are visited in the order in which their keys were set.
abbrev pub in_order : Visits ℤ
in_order = record { payments = λ m. m; outbox = λ m. m }

abbrev pub accepting : Provider ℤ
accepting = record {
  authorize = λ p. ok "demo_1";
  capture = λ p amount. ok tt;
  refund = λ p amount. ok tt;
}

abbrev pub blocking : RiskEngine ℤ
blocking = record { check = λ p. ok false }

abbrev pub ids_1 : EntryIds
ids_1 = record { debit = "d1"; credit = "c1"; event = "e1" }

abbrev pub ids_2 : EntryIds
ids_2 = record { debit = "d2"; credit = "c2"; event = "e2" }

abbrev pub ids_3 : EntryIds
ids_3 = record { debit = "d3"; credit = "c3"; event = "e3" }

abbrev pub order : CreatePayment ℤ
order = record { merchant_id = "m1"; customer_id = "c1"; currency = "usd"; amount = pos 100 }

abbrev pub new_order : Payment ℤ
new_order = record {
  id = "p1";
  merchant_id = "m1";
  customer_id = "c1";
  currency = "USD";
  amount = pos 100;
  captured_amount = pos 0;
  refunded_amount = pos 0;
  status = Payment.created;
  provider_reference = "";
}

abbrev pub authorized_order : Payment ℤ
authorized_order = record new_order { status = Payment.authorized; provider_reference = "demo_1" }

abbrev pub captured_order : Payment ℤ
captured_order = record authorized_order { status = Payment.captured; captured_amount = pos 60 }

-- A store that holds one payment.
abbrev pub with_payment : Payment ℤ → MemoryStore ℤ
with_payment p = record (new_memory {A = ℤ}) {
  payments = ("p1", p) ∷ [];
  keys = ("order-1", "p1") ∷ [];
}

pub new_order-IsSound : IsSound meaning new_order
new_order-IsSound = ground arith

-- A new payment, an authorisation, two captures of which the second does not fit, and a call on
-- an event that is not there.
abbrev pub calls : List (StoreCall ℤ)
calls =
    creates_payment new_order "order-1"
    ∷ transitions "p1" Payment.authorized "demo_1"
    ∷ applies_amount "p1" captured (pos 60)
    ∷ applies_amount "p1" captured (pos 60)
    ∷ marks_published "e9"
    ∷ []
