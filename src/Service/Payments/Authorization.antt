-- ===== src/Service/Payments/Authorization.antt =====
-- internal/service/payment_service.go: `Authorize` over the store in memory.
use payment_ledger_platform.Base.{
  ◌≡◌, ◌≢◌, refl, subst, ◌⊎◌, inl, inr, true, false, String, eq_iff, Option, some, List,
  Option-cases, Bool-cases, arith,
}
use payment_ledger_platform.Base.Dict.{lookup, insert}
use payment_ledger_platform.Error.{Error, blocked_by_risk, ok, err, Result-cases}
use payment_ledger_platform.Amount.{Decimal, Meaning}
use payment_ledger_platform.Domain.Payment.{created, authorized, failed, Payment, can_transition}
use payment_ledger_platform.Domain.Payment.Limits.{IsSound}
use payment_ledger_platform.Domain.Ledger.{LedgerEntry}
use payment_ledger_platform.Domain.Outbox.{PaymentCommand}
use payment_ledger_platform.Store.State.{MemoryStore}
use payment_ledger_platform.Store.Memory.Payments.{get_payment, transition, next_payment}
use payment_ledger_platform.Store.Memory.Payouts.{merchant_account}
use payment_ledger_platform.Store.Interface.{Visits}
use payment_ledger_platform.Service.Journal.{EntryIds, journal}
use payment_ledger_platform.Service.Journal.Effect.{journal-balanced}
use payment_ledger_platform.Service.Payments.{
  Provider, RiskEngine, passes_risk, payment_command, authorize,
}
use payment_ledger_platform.Service.Payments.Outcome.{
  in_memory, committed, commit_lem, commit_refused,
}

module _ {A : Type 0} ⦃d : Decimal A⦄ where
  abbrev pub authorized_payment : Payment A → String → Payment A
  authorized_payment p reference = record p { status = authorized; provider_reference = reference }

  -- From the customer's pending account to the merchant's, for the whole amount.
  abbrev pub authorize_journal : EntryIds → Payment A → List (LedgerEntry A)
  authorize_journal ids p =
      journal ids p.id "customer:pending" (merchant_account p.merchant_id "pending") p.currency
        p.amount

  abbrev authorize_command : EntryIds → Payment A → String → PaymentCommand A
  authorize_command ids p reference =
      payment_command ids.event p authorized d.zero reference (authorize_journal ids p)
        "payment.authorized"

module _ {A V : Type 0} ⦃d : Decimal A⦄ (m : Meaning d V) where
  next-authorize :
      (ids : EntryIds) (p : Payment A) (reference : String)
      → IsSound m p
      → p.status ≡ created
      → reference ≢ ""
      → next_payment (authorize_command ids p reference) p ≡ ok (authorized_payment p reference)
  unfolding next_payment payment_command can_transition
  next-authorize ids p reference sound new named = ground (
    arith,
    journal-balanced m ids p.id "customer:pending" (merchant_account p.merchant_id "pending")
        p.currency p.amount sound.positive,
    eq_iff reference "",
  )

  module _ (visits : Visits A) (provider : Provider A) (risk : Option (RiskEngine A))
      (metrics : Option (String → MemoryStore A → MemoryStore A)) (ids : EntryIds)
      (s : MemoryStore A) where
    -- Authorising a created and sound payment that is stored under its id, passes the risk
    -- check, and that the provider accepts with a reference that is not empty, returns the
    -- payment as authorised under that reference, and stores together that payment, the journal
    -- of the whole amount from the customer's pending account to the merchant's, and one
    -- unpublished event that carries that payment; nothing else changes.
    pub authorize-committed :
        (p : Payment A) (reference : String)
        → lookup p.id s.payments ≡ some p
        → IsSound m p
        → p.status ≡ created
        → passes_risk risk p ≡ ok true
        → provider.authorize p ≡ ok reference
        → reference ≢ ""
        → authorize (in_memory visits provider risk metrics) ids p.id s
          ≡ committed
              (authorized_payment p reference)
              (authorize_journal ids p)
              ids.event
              "payment.authorized"
              s
    unfolding authorize get_payment
    authorize-committed p reference found sound new safe accepted named = ground (
      arith,
      commit_lem (authorize_command ids p reference) p (authorized_payment p reference) s found
          (next-authorize ids p reference sound new named) refl refl,
    )

module _ {A : Type 0} ⦃d : Decimal A⦄ where
  -- Nothing changed, or one payment that was allowed to fail is marked as failed.
  abbrev pub FailsAtMost : String → MemoryStore A → MemoryStore A → Type 0
  FailsAtMost id s s' =
      (s' ≡ s)
      ⊎ ((p : Payment A) × (reference : String) × (lookup id s.payments ≡ some p)
          × (can_transition p failed ≡ true)
          × (s' ≡ record s {
            payments =
                insert id (record p { status = failed; provider_reference = reference }) s.payments;
          }))

  transition-FailsAtMost :
      (id reference : String) (s : MemoryStore A)
      → FailsAtMost id s (transition id failed reference s).1
  unfolding transition
  transition-FailsAtMost id reference s = elim (Option-cases (lookup id s.payments)) [
    | inl missing ↦ inl (ground (arith, missing))
    | inr (p, found) ↦ elim (Bool-cases (can_transition p failed)) [
      | inl may ↦ inr (p, reference, found, may, ground (arith, found, may))
      | inr barred ↦ inl (ground (arith, found, barred))
    ]
  ]

  module _ (visits : Visits A) (provider : Provider A) (risk : Option (RiskEngine A))
      (metrics : Option (String → MemoryStore A → MemoryStore A)) (ids : EntryIds)
      (s : MemoryStore A) where
    -- A payment that is stored under its id, may still fail, and that the risk check blocks, is
    -- marked as failed with the reference risk_blocked; the call returns the error of a blocked
    -- payment, and nothing else changes.
    pub authorize-blocked :
        (p : Payment A)
        → lookup p.id s.payments ≡ some p
        → can_transition p failed ≡ true
        → passes_risk risk p ≡ ok false
        → authorize (in_memory visits provider risk metrics) ids p.id s ≡ (
          err blocked_by_risk,
          record s {
            payments =
                insert p.id
                  (record p { status = failed; provider_reference = "risk_blocked" })
                  s.payments;
          },
        )
    unfolding authorize get_payment transition
    authorize-blocked p found may blocked = ground arith

  module _ (visits : Visits A) (provider : Provider A) (risk : Option (RiskEngine A))
      (metrics : Option (String → MemoryStore A → MemoryStore A)) (ids : EntryIds) (id : String)
      (s : MemoryStore A) {e : Error} where
    -- An authorisation that returns an error, for whatever reason, writes no ledger entry and
    -- no event: the store in memory is as it was, or the payment, which was allowed to fail, is
    -- marked as failed and nothing else has changed.
    pub authorize_fails :
        (authorize (in_memory visits provider risk metrics) ids id s).0 ≡ err e
        → FailsAtMost id s (authorize (in_memory visits provider risk metrics) ids id s).1
    unfolding authorize get_payment
    authorize_fails h = elim (Option-cases (lookup id s.payments)) [
      | inl missing ↦ inl (ground (arith, missing))
      | inr (p, found) ↦ elim (Result-cases (passes_risk risk p)) [
        | inr (_, broken) ↦ inl (ground (arith, found, broken))
        | inl (false, blocked) ↦
            subst (FailsAtMost id s) (ground (arith, found, blocked))
              (transition-FailsAtMost id "risk_blocked" s)
        | inl (true, safe) ↦ elim (Result-cases (provider.authorize p)) [
          | inr (_, declined) ↦
              subst (FailsAtMost id s) (ground (arith, found, safe, declined))
                (transition-FailsAtMost id "provider_error" s)
          | inl (reference, accepted) ↦ inl (
              ground (
                arith,
                found,
                safe,
                accepted,
                commit_refused
                    (payment_command ids.event p authorized d.zero reference
                      (journal ids id "customer:pending" (merchant_account p.merchant_id "pending")
                        p.currency p.amount)
                      "payment.authorized")
                    s {e = e},
              ))
        ]
      ]
    ]
