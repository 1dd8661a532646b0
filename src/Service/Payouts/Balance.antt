-- ===== src/Service/Payouts/Balance.antt =====
-- internal/service/payout.go: what payouts do to the balances of the accounts.
use payment_ledger_platform.Base.{◌≡◌, ◌∙◌, false, String, eq_iff, eq_refl, ◌++◌, arith}
use payment_ledger_platform.Base.Dict.{lookup-insert_self}
use payment_ledger_platform.Error.{ok}
use payment_ledger_platform.Text.{Unicode}
use payment_ledger_platform.Amount.{Decimal, Meaning, Le}
use payment_ledger_platform.Amount.Laws.{zero-plus, minus_nonneg, neg-plus}
use payment_ledger_platform.Domain.Ledger.Accounts.{net, net-append}
use payment_ledger_platform.Domain.Payout.{Payout, new_payout, new_payout-positive}
use payment_ledger_platform.Store.State.{MemoryStore}
use payment_ledger_platform.Store.Memory.Payouts.{merchant_account, available_account}
use payment_ledger_platform.Store.Interface.{Visits, memory}
use payment_ledger_platform.Store.Balance.{merchant_account_ne, eq_false}
use payment_ledger_platform.Service.Journal.{EntryIds}
use payment_ledger_platform.Service.Journal.Effect.{net-journal}
use payment_ledger_platform.Service.Payouts.{create, complete}
use payment_ledger_platform.Service.Payouts.Outcome.{
  paid_out, reserve_journal, release_journal, create-reserves, complete-releases,
}

module _ {A V : Type 0} ⦃d : Decimal A⦄ (m : Meaning d V) where
  -- Reserving takes the amount from the merchant's available account.
  net-reserve :
      (ids : EntryIds) (p : Payout A)
      → net m (available_account p.merchant_id) p.currency (reserve_journal ids p)
        ≡ m.numbers.neg (m.value p.amount)
  net-reserve ids p =
      net-journal m ids "" (merchant_account p.merchant_id "available")
        (merchant_account p.merchant_id "payout_pending") p.currency
        (available_account p.merchant_id) p.currency p.amount
      ∙ ground (
        arith,
        eq_refl (available_account p.merchant_id),
        eq_refl p.currency,
        eq_false (merchant_account p.merchant_id "payout_pending") (available_account p.merchant_id)
            (merchant_account_ne p.merchant_id {kind = "payout_pending"} {kind' = "available"}
              (ground (arith, eq_iff "payout_pending" "available"))),
        m.numbers.plus-zero (m.numbers.neg (m.value p.amount)),
      )

  -- Giving the money back undoes the reservation in every account.
  net-reserve-release :
      (ids ids' : EntryIds) (p : Payout A) (account currency : String)
      → m.numbers.plus (net m account currency (reserve_journal ids p)) (
          net m account currency
            (release_journal ids' p (merchant_account p.merchant_id "available")))
        ≡ m.numbers.zero
  net-reserve-release ids ids' p account currency =
      ap₂'
        (net-journal m ids "" (merchant_account p.merchant_id "available")
          (merchant_account p.merchant_id "payout_pending") p.currency account currency p.amount)
        (net-journal m ids' "" (merchant_account p.merchant_id "payout_pending")
          (merchant_account p.merchant_id "available") p.currency account currency p.amount)
      ∙ ground (
        arith,
        neg-plus m.numbers (m.value p.amount),
        m.numbers.plus-neg (m.value p.amount),
        zero-plus m.numbers (m.value p.amount),
        m.numbers.plus-zero (m.numbers.neg (m.value p.amount)),
        m.numbers.plus-zero m.numbers.zero,
      )
    where
      ap₂' : {x x' y y' : V} → x ≡ x' → y ≡ y' → m.numbers.plus x y ≡ m.numbers.plus x' y'
      ap₂' e f = cc

  module _ ⦃u : Unicode⦄ (visits : Visits A) (id : String) (ids : EntryIds)
      (merchant currency : String) (amount : A) (s : MemoryStore A) {p : Payout A}
      (made : new_payout id merchant currency amount ≡ ok p)
      (enough : Le m.numbers
        (m.value amount)
        (net m (available_account merchant) p.currency s.ledger)) where
    -- When the payout is valid and its amount is at most the net of the merchant's available
    -- account in its currency, creating it lowers that net by exactly the amount, and the net
    -- is not negative afterwards.
    pub create-net :
        let s' = (create (memory visits) id ids merchant currency amount s).1 in
        (net m (available_account merchant) p.currency s'.ledger
          ≡ m.numbers.plus
              (net m (available_account merchant) p.currency s.ledger)
              (m.numbers.neg (m.value amount)))
        × Le m.numbers m.numbers.zero (net m (available_account merchant) p.currency s'.ledger)
    create-net =
        let (_, owner, same, _, _) = new_payout-positive m id merchant currency amount made in
        rw (create-reserves m visits id ids merchant currency amount s made enough) (
          ground (
            arith,
            owner,
            same,
            enough,
            net-append m (available_account merchant) p.currency s.ledger (reserve_journal ids p),
            net-reserve ids p,
            minus_nonneg m.numbers (net m (available_account merchant) p.currency s.ledger)
                (m.value amount),
          ))

    -- When the payout is valid and covered by the available balance, creating it and then
    -- completing it as failed leaves the net of every account in every currency as it was
    -- before.
    pub failed_payout_restores :
        (ids' : EntryIds) (reference account currency' : String)
        → let s' = (create (memory visits) id ids merchant currency amount s).1 in
          let s'' = (complete (memory visits) ids' p.id reference false s').1 in
          net m account currency' s''.ledger ≡ net m account currency' s.ledger
    failed_payout_restores ids' reference account currency' =
        let (_, owner, same, waiting, positive) =
          new_payout-positive m id merchant currency amount made in
        let s' = (paid_out p (reserve_journal ids p) ids.event "payout.created" s).1 in
        rw
          (
            create-reserves m visits id ids merchant currency amount s made enough,
            (complete-releases m visits ids' reference s' p (lookup-insert_self p.id p s.payouts)
                waiting (ground (arith, same, positive))).1,
          )
          (net-append m account currency' (s.ledger ++ reserve_journal ids p)
              (release_journal ids' p (merchant_account p.merchant_id "available"))
            ∙ cc (
              net-append m account currency' s.ledger (reserve_journal ids p),
              m.numbers.plus_assoc (net m account currency' s.ledger)
                  (net m account currency' (reserve_journal ids p))
                  (net m account currency'
                    (release_journal ids' p (merchant_account p.merchant_id "available"))),
              net-reserve-release ids ids' p account currency',
              m.numbers.plus-zero (net m account currency' s.ledger),
            ))
