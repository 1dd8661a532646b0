-- ===== src/Examples/WorkerWitnesses.antt =====
-- The theorems on the outbox, the worker, metrics and reconciliation, at concrete inputs.
use mathlib.Core.List.Perm
use payment_ledger_platform.Base.{
  Perm, Bool-cases, inl, inr, ℕ, ◌+◌, ltb, some, eq_iff, if◌then◌else◌, ◌≡◌, refl, true, false,
  String, List, [], ◌∷◌, take, ◌==◌, ◌||◌, Bool, eq_refl, All, arith,
}
use Prim.Native.Nat.{Ordering}
use Prim.Native.String.{compare}
use payment_ledger_platform.Base.Dict.{lookup}
use payment_ledger_platform.Base.Int.{ℤ, pos}
use payment_ledger_platform.Error.{external, ok}
use payment_ledger_platform.Domain.Outbox.{OutboxEvent}
use payment_ledger_platform.Store.State.{MemoryStore, new_memory}
use payment_ledger_platform.Store.Interface.{memory}
use payment_ledger_platform.Store.Claims.{unpublished}
use payment_ledger_platform.Service.Outbox.{EventPublisher, deliver}
use payment_ledger_platform.Service.Outbox.Delivery.{Receipts, IsHonest, deliver-IsHonest}
use payment_ledger_platform.Service.Outbox.Progress.{IsPublished, deliver_progress}
use payment_ledger_platform.Service.Outbox.MerchantWebhook.{
  HttpClient, MerchantWebhookPublisher, publish_webhook,
}
use payment_ledger_platform.Service.Outbox.MerchantWebhook.Attempts.{publish_webhook-delivers}
use payment_ledger_platform.Service.Reconciliation.{
  SettlementLine, ReconciliationMismatch, reconcile,
}
use payment_ledger_platform.Service.Reconciliation.Report.{
  VisitsPayments, Reports, reconcile-report,
}
use payment_ledger_platform.Examples.Cents.{cents, meaning}
use payment_ledger_platform.Examples.Data.{in_order, captured_order, with_payment}

abbrev event : String → Bool → OutboxEvent
event id published = record {
  id = id;
  aggregate_id = "p1";
  event_type = "payment.captured";
  payload = "{}";
  published = published;
}

-- Three events, the first of which is published.
abbrev queue : MemoryStore ℤ
queue = record (new_memory {A = ℤ}) {
  outbox = ("e1", event "e1" true) ∷ ("e2", event "e2" false) ∷ ("e3", event "e3" false) ∷ [];
}

-- A publisher that keeps the ids it was given.
abbrev notebook : EventPublisher (List String)
notebook = record { publish = λ event ids. (ok tt, event.id ∷ ids) }

abbrev listed : String → List String → Bool
listed id [] = false
listed id (other ∷ ids) = other == id || listed id ids

abbrev receipts : Receipts notebook
receipts = record {
  Received = λ id ids. listed id ids ≡ true;
  received_ok = λ event ids sent. ground (arith, eq_refl event.id);
  received_kept = λ id event ids h. ground (arith, h);
}

deliver-IsHonest_example :
    IsHonest in_order notebook receipts (deliver (memory in_order) notebook 5 (queue, "e1" ∷ [])).1
deliver-IsHonest_example =
    deliver-IsHonest in_order notebook receipts 5 (queue, "e1" ∷ [])
      ((λ _. refl), ((λ done. ground (arith, done)), ((λ done. ground (arith, done)), tt)))

deliver_progress_example :
    let r = deliver (memory in_order) notebook 5 (queue, []) in
    (r.0 ≡ ok tt) × All (IsPublished r.1.0) (take 5 (unpublished queue.outbox))
unfolding lookup
deliver_progress_example =
    deliver_progress in_order notebook (λ event ids. refl) 5 queue [] (omega arith)
      (refl, (refl, (refl, tt)))

-- The first line is unknown, the second differs and the third agrees.
abbrev lines : List (SettlementLine ℤ)
lines =
    record { provider_reference = "demo_9"; captured_amount = pos 1 }
    ∷ record { provider_reference = "demo_1"; captured_amount = pos 70 }
    ∷ record { provider_reference = "demo_1"; captured_amount = pos 60 }
    ∷ []

abbrev is_less : Ordering → Bool
is_less Ordering.lt = true
is_less _ = false

-- An insertion sort by the provider's reference.
unfoldable put_by_reference :
    ReconciliationMismatch ℤ → List (ReconciliationMismatch ℤ) → List (ReconciliationMismatch ℤ)
put_by_reference x [] = x ∷ []
put_by_reference x (y ∷ ys) =
    let rest = put_by_reference x ys in
    if is_less (compare y.provider_reference x.provider_reference) then y ∷ rest else x ∷ y ∷ ys

unfoldable by_reference : List (ReconciliationMismatch ℤ) → List (ReconciliationMismatch ℤ)
unfolding put_by_reference
by_reference [] = []
by_reference (x ∷ xs) = put_by_reference x (by_reference xs)

put_by_reference-Perm :
    (x : ReconciliationMismatch ℤ) (ys : List (ReconciliationMismatch ℤ))
    → Perm (x ∷ ys) (put_by_reference x ys)
unfolding put_by_reference
put_by_reference-Perm x [] = Perm.refl (x ∷ [])
put_by_reference-Perm x (y ∷ ys) =
    elim (Bool-cases (is_less (compare y.provider_reference x.provider_reference))) [
      | inl less ↦
          rw less (Perm.trans (Perm.swap y x ys) (Perm.cons y (put_by_reference-Perm x ys)))
      | inr not_less ↦ rw not_less (Perm.refl (x ∷ y ∷ ys))
    ]

by_reference-Perm : (xs : List (ReconciliationMismatch ℤ)) → Perm xs (by_reference xs)
unfolding by_reference
by_reference-Perm [] = Perm.refl []
by_reference-Perm (x ∷ xs) =
    Perm.trans (Perm.cons x (by_reference-Perm xs)) (put_by_reference-Perm x (by_reference xs))

in_order-VisitsPayments : VisitsPayments in_order
in_order-VisitsPayments = record { visits_only = λ e t m. m; visits_all = λ e t m. m }

reconcile-report_example :
    (xs ys : List (ReconciliationMismatch ℤ)) × Reports meaning
      (with_payment captured_order)
      lines
      xs
    × Perm xs ys
    × (reconcile (memory in_order) by_reference lines (with_payment captured_order)
        ≡ (ok ys, with_payment captured_order))
reconcile-report_example =
    reconcile-report meaning (with_payment captured_order) in_order in_order-VisitsPayments
      by_reference by_reference-Perm lines

-- A network that counts the requests, and answers 500 to the first two and then 200.
abbrev network : HttpClient ℕ
network = record {
  check = λ request. ok tt;
  send = λ request sent. (ok (if ltb sent 2 then 500 else 200), sent + 1);
  wait = λ delay sent. (ok tt, sent);
  status_error = λ status. external "merchant webhook status";
}

-- Dead letters count as a hundred.
abbrev letters : EventPublisher ℕ
letters = record { publish = λ event sent. (ok tt, sent + 100) }

abbrev endpoint : ℕ → MerchantWebhookPublisher ℕ
endpoint attempts = record {
  url = "https://merchant.example/hook";
  sign = λ text. text;
  client = network;
  attempts = attempts;
  dead_letter = some letters;
}

publish_webhook-delivers_example : publish_webhook (endpoint 0) (event "e2" false) 0 ≡ (ok tt, 3)
publish_webhook-delivers_example =
    publish_webhook-delivers (endpoint 0) (event "e2" false) refl (λ delay sent. refl) 2 0
      (ground (arith, eq_iff "https://merchant.example/hook" "")) (omega arith) (refl, (refl, tt))
      refl
