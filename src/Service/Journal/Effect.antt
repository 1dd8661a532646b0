-- ===== src/Service/Journal/Effect.antt =====
-- What a two-entry journal does: it is balanced, and it moves its amount between two accounts.
use payment_ledger_platform.Base.{◌≡◌, inl, inr, ◌&&◌, String, ◌==◌, if◌then◌else◌, arith}
use payment_ledger_platform.Amount.{Decimal, Meaning, Lt}
use payment_ledger_platform.Amount.Laws.{zero-plus, neg-zero}
use payment_ledger_platform.Error.{ok}
use payment_ledger_platform.Domain.Ledger.{validate_balanced}
use payment_ledger_platform.Domain.Ledger.Balance.{validate_balanced_iff}
use payment_ledger_platform.Domain.Ledger.Accounts.{net}
use payment_ledger_platform.Service.Journal.{EntryIds, journal}

module _ {A V : Type 0} ⦃d : Decimal A⦄ (m : Meaning d V) where
  -- The journal of a positive amount passes the double-entry check.
  pub journal-balanced :
      (ids : EntryIds) (payment_id from to currency : String) (amount : A)
      → Lt m.numbers m.numbers.zero (m.value amount)
      → validate_balanced (journal ids payment_id from to currency amount) ≡ ok tt
  unfolding journal
  journal-balanced ids payment_id from to currency amount positive = (validate_balanced_iff m _).1 (
    omega arith,
    record {
      one_sided = (inl (positive, m.value-zero), (inr (positive, m.value-zero), tt));
      sides_equal = simp (m.value-zero, m.numbers.plus-zero, zero-plus m.numbers);
    },
  )

  -- What the journal adds to an account: the amount where it is credited, less the amount where
  -- it is debited.
  pub net-journal :
      (ids : EntryIds) (payment_id from to currency account currency' : String) (amount : A)
      → net m account currency' (journal ids payment_id from to currency amount)
        ≡ m.numbers.plus
            (if from == account && currency == currency'
              then m.numbers.neg (m.value amount)
              else m.numbers.zero)
            (if to == account && currency == currency' then m.value amount else m.numbers.zero)
  unfolding journal
  net-journal ids payment_id from to currency account currency' amount = ground (
    arith,
    m.value-zero,
    neg-zero m.numbers,
    zero-plus m.numbers (m.numbers.neg (m.value amount)),
    m.numbers.plus-zero (m.value amount),
    m.numbers.plus-zero m.numbers.zero,
  )
