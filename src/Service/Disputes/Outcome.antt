-- ===== src/Service/Disputes/Outcome.antt =====
-- internal/service/dispute.go over the store in memory.
use payment_ledger_platform.Base.{◌≡◌, true, false, not, ◌||◌, String, some, List, ◌++◌, arith}
use payment_ledger_platform.Base.Dict.{lookup, insert, contains}
use payment_ledger_platform.Error.{dispute_exceeds, Result, ok, err}
use payment_ledger_platform.Text.{Unicode}
use payment_ledger_platform.Amount.{Decimal, Meaning, Le, Lt}
use payment_ledger_platform.Domain.Payment.{Payment}
use payment_ledger_platform.Domain.Ledger.{LedgerEntry}
use payment_ledger_platform.Domain.Dispute.{opened, won, lost, Dispute, new_dispute}
use payment_ledger_platform.Json.{dispute_json}
use payment_ledger_platform.Store.State.{MemoryStore}
use payment_ledger_platform.Store.Memory.Payments.{get_payment}
use payment_ledger_platform.Store.Memory.Payouts.{merchant_account}
use payment_ledger_platform.Store.Memory.Disputes.{create_dispute, get_dispute, resolve_dispute}
use payment_ledger_platform.Store.Interface.{Visits, memory}
use payment_ledger_platform.Service.Journal.{EntryIds, journal}
use payment_ledger_platform.Service.Journal.Effect.{journal-balanced}
use payment_ledger_platform.Service.Disputes.{open_dispute, resolve}

module _ {A : Type 0} ⦃d : Decimal A⦄ where
  -- A dispute, its journal and one event that carries it are stored together.
  abbrev pub filed :
      Dispute A
      → List (LedgerEntry A)
      → String
      → String
      → MemoryStore A
      → Result (Dispute A) × MemoryStore A
  filed p entries event_id event_type s = (
    ok p,
    record s {
      disputes = insert p.id p s.disputes;
      ledger = s.ledger ++ entries;
      outbox =
          insert event_id
            (record {
              id = event_id;
              aggregate_id = p.id;
              event_type = event_type;
              payload = dispute_json p;
              published = false;
            })
            s.outbox;
    },
  )

  -- From the merchant's available account to the frozen one.
  abbrev pub freeze_journal : EntryIds → Payment A → A → List (LedgerEntry A)
  freeze_journal ids p amount =
      journal ids p.id (merchant_account p.merchant_id "available")
        (merchant_account p.merchant_id "dispute_frozen") p.currency amount

  -- From the frozen account to another one.
  abbrev pub verdict_journal : EntryIds → Dispute A → String → List (LedgerEntry A)
  verdict_journal ids p account =
      journal ids p.payment_id (merchant_account p.merchant_id "dispute_frozen") account p.currency
        p.amount

module _ {A V : Type 0} ⦃d : Decimal A⦄ (m : Meaning d V) where
  -- What a payment has left to dispute: what was captured less what was refunded.
  abbrev pub settled : Payment A → V
  settled p = m.numbers.plus (m.value p.captured_amount) (m.numbers.neg (m.value p.refunded_amount))

  exceeds :
      (p : Payment A) (amount : A)
      → (not (d.greater_than amount d.zero)
          || d.greater_than amount (d.sub p.captured_amount p.refunded_amount))
        ≡ (m.numbers.at_most (m.value amount) m.numbers.zero
            || not (m.numbers.at_most (m.value amount) (settled p)))
  exceeds p amount = ground (
    arith,
    m.greater_than_by_value amount d.zero,
    m.value-zero,
    m.greater_than_by_value amount (d.sub p.captured_amount p.refunded_amount),
    m.value-sub p.captured_amount p.refunded_amount,
  )

  module _ ⦃u : Unicode⦄ (visits : Visits A) (id : String) (ids : EntryIds) (reason : String)
      (amount : A) (s : MemoryStore A) (p : Payment A)
      (found : lookup p.id s.payments ≡ some p) where
    -- For a payment that is stored under its id, a valid dispute with an unused id over a
    -- positive amount that is at most what was captured less what was refunded is returned and
    -- stored, together with the journal from the merchant's available account to the frozen one
    -- and one unpublished event that carries the dispute; nothing else changes.
    pub open_dispute-freezes :
        {q : Dispute A}
        → Lt m.numbers m.numbers.zero (m.value amount)
        → Le m.numbers (m.value amount) (settled p)
        → new_dispute id p.id p.merchant_id p.currency reason amount ≡ ok q
        → contains q.id s.disputes ≡ false
        → open_dispute (memory visits) id ids p.id reason amount s
          ≡ filed q (freeze_journal ids p amount) ids.event "dispute.opened" s
    unfolding open_dispute get_payment create_dispute
    open_dispute-freezes positive within made new = ground (
      arith,
      found,
      exceeds p amount,
      journal-balanced m ids p.id (merchant_account p.merchant_id "available")
          (merchant_account p.merchant_id "dispute_frozen") p.currency amount positive,
    )

    -- For a payment that is stored under its id, a dispute over more than what was captured
    -- less what was refunded is refused, and the store in memory is as it was.
    pub open_dispute-exceeds :
        Lt m.numbers (settled p) (m.value amount)
        → open_dispute (memory visits) id ids p.id reason amount s ≡ (err dispute_exceeds, s)
    unfolding open_dispute get_payment
    open_dispute-exceeds beyond = ground (arith, found, exceeds p amount)

  -- Resolving an open dispute with a positive amount that is stored under its id returns it, as
  -- won when the merchant wins and as lost otherwise, and stores together that dispute, the
  -- journal from the frozen account back to the merchant's available account when the merchant
  -- wins and to `customer:chargeback` otherwise, and one unpublished event, `dispute.won` or
  -- `dispute.lost`, that carries that dispute; nothing else changes.
  pub resolve-releases :
      (visits : Visits A) (ids : EntryIds) (s : MemoryStore A) (p : Dispute A)
      → lookup p.id s.disputes ≡ some p
      → p.status ≡ opened
      → Lt m.numbers m.numbers.zero (m.value p.amount)
      → resolve (memory visits) ids p.id true s
          ≡ filed
              (record p { status = won })
              (verdict_journal ids p (merchant_account p.merchant_id "available"))
              ids.event
              "dispute.won"
              s
        × resolve (memory visits) ids p.id false s
          ≡ filed
              (record p { status = lost })
              (verdict_journal ids p "customer:chargeback")
              ids.event
              "dispute.lost"
              s
  unfolding resolve get_dispute resolve_dispute
  resolve-releases visits ids s p found waiting positive =
      let balanced =
        journal-balanced m ids p.payment_id (merchant_account p.merchant_id "dispute_frozen") in
      (
        ground (
          arith,
          balanced (merchant_account p.merchant_id "available") p.currency p.amount positive,
        ),
        ground (arith, balanced "customer:chargeback" p.currency p.amount positive),
      )
