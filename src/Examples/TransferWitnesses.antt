-- ===== src/Examples/TransferWitnesses.antt =====
-- The theorems on payouts and disputes, at concrete inputs that meet their hypotheses.
use payment_ledger_platform.Base.{◌≡◌, refl, true, false, List, [], ◌∷◌}
use payment_ledger_platform.Base.Dict.{lookup}
use payment_ledger_platform.Base.Int.{ℤ, pos, ◌+ℤ◌, opposite}
use payment_ledger_platform.Error.{payout_resolved, err}
use payment_ledger_platform.Text.{to_upper}
use payment_ledger_platform.Amount.{Le}
use payment_ledger_platform.Domain.Ledger.{LedgerEntry, is_malformed, validate_balanced}
use payment_ledger_platform.Domain.Ledger.Accounts.{net}
use payment_ledger_platform.Domain.Outbox.{OutboxEvent}
use payment_ledger_platform.Domain.Payout
use payment_ledger_platform.Domain.Payout.{Payout, new_payout}
use payment_ledger_platform.Domain.Dispute
use payment_ledger_platform.Domain.Dispute.{Dispute, new_dispute}
use payment_ledger_platform.Store.State.{MemoryStore}
use payment_ledger_platform.Store.Memory.Payouts.{get_payout, transition_payout, available_account}
use payment_ledger_platform.Store.Steps.{StoreCall, marks_published, transitions_payout, run}
use payment_ledger_platform.Store.Interface.{memory}
use payment_ledger_platform.Service.Journal.{journal}
use payment_ledger_platform.Service.Payouts.{create, complete}
use payment_ledger_platform.Service.Payouts.Outcome.{
  paid_out, reserve_journal, release_journal, completed_payout, create-reserves, complete-releases,
}
use payment_ledger_platform.Service.Payouts.Balance.{create-net, failed_payout_restores}
use payment_ledger_platform.Service.Payouts.Once.{complete_once}
use payment_ledger_platform.Service.Disputes.{open_dispute, resolve}
use payment_ledger_platform.Service.Disputes.Outcome.{
  filed, freeze_journal, verdict_journal, open_dispute-freezes, resolve-releases,
}
use payment_ledger_platform.Examples.Cents.{cents, integers, meaning}
use payment_ledger_platform.Examples.Data.{
  ascii, in_order, ids_1, ids_2, captured_order, with_payment,
}

abbrev earnings : LedgerEntry ℤ
earnings = record {
  id = "c0";
  payment_id = "p1";
  account_id = "merchant:m1:available";
  currency = "USD";
  debit = pos 0;
  credit = pos 60;
}

-- The merchant has 60 available.
abbrev funded : MemoryStore ℤ
funded = record (with_payment captured_order) { ledger = earnings ∷ [] }

abbrev payout : Payout ℤ
payout = record {
  id = "o1";
  merchant_id = "m1";
  currency = "USD";
  amount = pos 50;
  provider_reference = "";
  status = Payout.pending;
}

abbrev reserved : MemoryStore ℤ
reserved = record funded { payouts = ("o1", payout) ∷ [] }

create-reserves_example :
    create (memory in_order) "o1" ids_1 "m1" "usd" (pos 50) funded
    ≡ paid_out payout (reserve_journal ids_1 payout) "e1" "payout.created" funded
unfolding new_payout to_upper ◌+ℤ◌ opposite
create-reserves_example =
    create-reserves meaning in_order "o1" ids_1 "m1" "usd" (pos 50) funded {p = payout} refl refl

complete-releases_example :
    complete (memory in_order) ids_1 "o1" "ref" true reserved
      ≡ paid_out
          (completed_payout payout Payout.paid "ref")
          (release_journal ids_1 payout "provider:payout_settled")
          "e1"
          "payout.paid"
          reserved
    × complete (memory in_order) ids_1 "o1" "ref" false reserved
      ≡ paid_out
          (completed_payout payout Payout.failed "ref")
          (release_journal ids_1 payout "merchant:m1:available")
          "e1"
          "payout.failed"
          reserved
unfolding lookup
complete-releases_example =
    complete-releases meaning in_order ids_1 "ref" reserved payout refl refl refl

create-net_example :
    let s' = (create (memory in_order) "o1" ids_1 "m1" "usd" (pos 50) funded).1 in
    (net meaning (available_account "m1") "USD" s'.ledger
      ≡ net meaning (available_account "m1") "USD" funded.ledger +ℤ opposite (pos 50))
    × Le integers (pos 0) (net meaning (available_account "m1") "USD" s'.ledger)
unfolding new_payout to_upper ◌+ℤ◌ opposite
create-net_example =
    create-net meaning in_order "o1" ids_1 "m1" "usd" (pos 50) funded {p = payout} refl refl

failed_payout_restores_example :
    let s' = (create (memory in_order) "o1" ids_1 "m1" "usd" (pos 50) funded).1 in
    let s'' = (complete (memory in_order) ids_2 "o1" "ref" false s').1 in
    net meaning "merchant:m1:available" "USD" s''.ledger
    ≡ net meaning "merchant:m1:available" "USD" funded.ledger
unfolding new_payout to_upper ◌+ℤ◌ opposite
failed_payout_restores_example =
    failed_payout_restores meaning in_order "o1" ids_1 "m1" "usd" (pos 50) funded {p = payout} refl
      refl ids_2 "ref" "merchant:m1:available" "USD"

abbrev later : List (StoreCall ℤ)
later = marks_published "e1" ∷ transitions_payout "o1" Payout.failed "again" [] event ∷ []
  where
    event : OutboxEvent
    event = record {
      id = "e9";
      aggregate_id = "o1";
      event_type = "payout.failed";
      payload = "";
      published = false;
    }

complete_once_example :
    let now = run later (complete (memory in_order) ids_1 "o1" "ref" true reserved).1 in
    complete (memory in_order) ids_2 "o1" "other" false now ≡ (err payout_resolved, now)
unfolding complete get_payout transition_payout lookup validate_balanced is_malformed journal ◌+ℤ◌
complete_once_example =
    complete_once in_order ids_1 ids_2 "o1" "ref" "other" true false reserved later
      {p = completed_payout payout Payout.paid "ref"} refl (tt, (tt, tt))

abbrev dispute : Dispute ℤ
dispute = record {
  id = "x1";
  payment_id = "p1";
  merchant_id = "m1";
  currency = "USD";
  reason = "fraud";
  amount = pos 20;
  status = Dispute.opened;
}

open_dispute-freezes_example :
    open_dispute (memory in_order) "x1" ids_1 "p1" "fraud" (pos 20) funded
    ≡ filed dispute (freeze_journal ids_1 captured_order (pos 20)) "e1" "dispute.opened" funded
unfolding lookup new_dispute to_upper ◌+ℤ◌ opposite
open_dispute-freezes_example =
    open_dispute-freezes meaning in_order "x1" ids_1 "fraud" (pos 20) funded captured_order refl
      {q = dispute} refl refl refl refl

abbrev disputed : MemoryStore ℤ
disputed = record funded { disputes = ("x1", dispute) ∷ [] }

resolve-releases_example :
    resolve (memory in_order) ids_2 "x1" true disputed
      ≡ filed
          (record dispute { status = Dispute.won })
          (verdict_journal ids_2 dispute "merchant:m1:available")
          "e2"
          "dispute.won"
          disputed
    × resolve (memory in_order) ids_2 "x1" false disputed
      ≡ filed
          (record dispute { status = Dispute.lost })
          (verdict_journal ids_2 dispute "customer:chargeback")
          "e2"
          "dispute.lost"
          disputed
unfolding lookup
resolve-releases_example = resolve-releases meaning in_order ids_2 disputed dispute refl refl refl
