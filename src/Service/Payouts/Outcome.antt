-- ===== src/Service/Payouts/Outcome.antt =====
-- internal/service/payout.go over the store in memory: when a payout is created and completed, and
-- what is stored then.
use payment_ledger_platform.Base.{◌≡◌, not, true, false, String, some, List, ◌++◌, arith}
use payment_ledger_platform.Base.Dict.{lookup, insert}
use payment_ledger_platform.Error.{insufficient_balance, Result, ok, err}
use payment_ledger_platform.Text.{Unicode}
use payment_ledger_platform.Amount.{Decimal, Meaning, Le, Lt}
use payment_ledger_platform.Amount.Laws.{zero-plus}
use payment_ledger_platform.Domain.Ledger.{LedgerEntry}
use payment_ledger_platform.Domain.Ledger.Accounts.{net}
use payment_ledger_platform.Domain.Payout.{
  pending, paid, failed, PayoutStatus, Payout, new_payout, new_payout-positive,
}
use payment_ledger_platform.Json.{payout_json}
use payment_ledger_platform.Store.State.{MemoryStore}
use payment_ledger_platform.Store.Memory.Payouts.{
  sum_account, merchant_account, available_account, create_payout, get_payout, transition_payout,
}
use payment_ledger_platform.Store.Interface.{Visits, memory}
use payment_ledger_platform.Store.Balance.{sum_account-net}
use payment_ledger_platform.Service.Journal.{EntryIds, journal}
use payment_ledger_platform.Service.Journal.Effect.{journal-balanced}
use payment_ledger_platform.Service.Payouts.{create, complete}

module _ {A : Type 0} ⦃d : Decimal A⦄ where
  -- A payout, its journal and one event that carries it are stored together.
  abbrev pub paid_out :
      Payout A
      → List (LedgerEntry A)
      → String
      → String
      → MemoryStore A
      → Result (Payout A) × MemoryStore A
  paid_out p entries event_id event_type s = (
    ok p,
    record s {
      payouts = insert p.id p s.payouts;
      ledger = s.ledger ++ entries;
      outbox =
          insert event_id
            (record {
              id = event_id;
              aggregate_id = p.id;
              event_type = event_type;
              payload = payout_json p;
              published = false;
            })
            s.outbox;
    },
  )

  -- From the merchant's available account to the reserved one.
  abbrev pub reserve_journal : EntryIds → Payout A → List (LedgerEntry A)
  reserve_journal ids p =
      journal ids "" (merchant_account p.merchant_id "available")
        (merchant_account p.merchant_id "payout_pending") p.currency p.amount

  -- From the reserved account to another one.
  abbrev pub release_journal : EntryIds → Payout A → String → List (LedgerEntry A)
  release_journal ids p account =
      journal ids "" (merchant_account p.merchant_id "payout_pending") account p.currency p.amount

  abbrev pub completed_payout : Payout A → PayoutStatus → String → Payout A
  completed_payout p status reference = record p { status = status; provider_reference = reference }

module _ {A V : Type 0} ⦃d : Decimal A⦄ (m : Meaning d V) where
  -- The balance that the store compares a payout with.
  covers :
      (p : Payout A) (es : List (LedgerEntry A))
      → d.less_than (sum_account (available_account p.merchant_id) p.currency d.zero es) p.amount
        ≡ not (
            m.numbers.at_most
              (m.value p.amount)
              (net m (available_account p.merchant_id) p.currency es))
  covers p es = ground (
    arith,
    m.less_than_by_value (sum_account (available_account p.merchant_id) p.currency d.zero es)
        p.amount,
    sum_account-net m (available_account p.merchant_id) p.currency d.zero es,
    m.value-zero,
    zero-plus m.numbers (net m (available_account p.merchant_id) p.currency es),
  )

  module _ ⦃u : Unicode⦄ (visits : Visits A) (id : String) (ids : EntryIds)
      (merchant currency : String) (amount : A) (s : MemoryStore A) {p : Payout A}
      (made : new_payout id merchant currency amount ≡ ok p) where
    -- A valid payout whose amount is at most the net of the merchant's available account in its
    -- currency is returned and stored, together with the journal from the available account to
    -- the reserved one and one unpublished event that carries the payout; nothing else changes.
    pub create-reserves :
        Le m.numbers (m.value amount) (net m (available_account merchant) p.currency s.ledger)
        → create (memory visits) id ids merchant currency amount s
          ≡ paid_out p (reserve_journal ids p) ids.event "payout.created" s
    unfolding create create_payout
    create-reserves enough =
        let (_, owner, same, _, positive) =
          new_payout-positive m id merchant currency amount made in
        ground (
          arith,
          made,
          owner,
          same,
          covers p s.ledger,
          journal-balanced m ids "" (merchant_account merchant "available")
              (merchant_account merchant "payout_pending") p.currency amount positive,
        )

    -- A valid payout whose amount exceeds the net of the merchant's available account in its
    -- currency is refused for insufficient balance, and the store in memory is as it was.
    pub create-insufficient :
        Lt m.numbers (net m (available_account merchant) p.currency s.ledger) (m.value amount)
        → create (memory visits) id ids merchant currency amount s ≡ (err insufficient_balance, s)
    unfolding create create_payout
    create-insufficient short =
        let (_, owner, same, _, _) = new_payout-positive m id merchant currency amount made in
        ground (arith, made, owner, same, covers p s.ledger)

  -- Completing a pending payout with a positive amount that is stored under its id returns it
  -- with the given reference, as paid on success and as failed otherwise, and stores together
  -- that payout, the journal from the reserved account to `provider:payout_settled` on success
  -- and back to the merchant's available account otherwise, and one unpublished event,
  -- `payout.paid` or `payout.failed`, that carries that payout; nothing else changes.
  pub complete-releases :
      (visits : Visits A) (ids : EntryIds) (reference : String) (s : MemoryStore A) (p : Payout A)
      → lookup p.id s.payouts ≡ some p
      → p.status ≡ pending
      → Lt m.numbers m.numbers.zero (m.value p.amount)
      → complete (memory visits) ids p.id reference true s
          ≡ paid_out
              (completed_payout p paid reference)
              (release_journal ids p "provider:payout_settled")
              ids.event
              "payout.paid"
              s
        × complete (memory visits) ids p.id reference false s
          ≡ paid_out
              (completed_payout p failed reference)
              (release_journal ids p (merchant_account p.merchant_id "available"))
              ids.event
              "payout.failed"
              s
  unfolding complete get_payout transition_payout
  complete-releases visits ids reference s p found waiting positive =
      let balanced = journal-balanced m ids "" (merchant_account p.merchant_id "payout_pending") in
      (
        ground (arith, balanced "provider:payout_settled" p.currency p.amount positive),
        ground (
          arith,
          balanced (merchant_account p.merchant_id "available") p.currency p.amount positive,
        ),
      )
