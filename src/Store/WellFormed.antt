-- ===== src/Store/WellFormed.antt =====
-- What holds of the store in memory (internal/store/store.go) between two calls.
pub mod Payments
pub mod Commits
pub mod Payouts
pub mod Disputes
use payment_ledger_platform.Base.{◌≡◌, ◌≢◌, refl, true, String, All}
use payment_ledger_platform.Base.Dict.{Dict, contains}
use payment_ledger_platform.Amount.{Decimal, Meaning, Lt}
use payment_ledger_platform.Domain.Payment.{Payment}
use payment_ledger_platform.Domain.Payment.Limits.{IsSound}
use payment_ledger_platform.Domain.Ledger.Balance.{IsBalanced}
use payment_ledger_platform.Domain.Outbox.{OutboxEvent}
use payment_ledger_platform.Domain.Payout
use payment_ledger_platform.Domain.Payout.{Payout}
use payment_ledger_platform.Domain.Dispute
use payment_ledger_platform.Domain.Dispute.{Dispute}
use payment_ledger_platform.Store.State.{MemoryStore, new_memory}

module _ {A V : Type 0} ⦃d : Decimal A⦄ (m : Meaning d V) where
  -- A payment stands under its own identifier and is sound.
  abbrev pub PaymentEntry : String × Payment A → Type 0
  PaymentEntry e = (e.0 ≡ e.1.id) × IsSound m e.1

  abbrev pub PayoutEntry : String × Payout A → Type 0
  PayoutEntry e =
      (e.0 ≡ e.1.id)
      × Lt m.numbers m.numbers.zero (m.value e.1.amount)
      × (e.1.status ≢ Payout.unset)

  abbrev pub DisputeEntry : String × Dispute A → Type 0
  DisputeEntry e =
      (e.0 ≡ e.1.id)
      × Lt m.numbers m.numbers.zero (m.value e.1.amount)
      × (e.1.status ≢ Dispute.unset)

  pub record IsWellFormed (s : MemoryStore A) : Type 0 where
    pub payments_sound : All PaymentEntry s.payments
    pub keys_known : All (λ e. contains e.1 s.payments ≡ true) s.keys
    pub events_filed : All (λ e. e.0 ≡ e.1.id) s.outbox
    pub ledger_balanced : IsBalanced m s.ledger
    pub payouts_valid : All PayoutEntry s.payouts
    pub disputes_valid : All DisputeEntry s.disputes

  pub new_memory-IsWellFormed : IsWellFormed new_memory
  new_memory-IsWellFormed = record {
    payments_sound = tt;
    keys_known = tt;
    events_filed = tt;
    ledger_balanced = record { one_sided = tt; sides_equal = refl };
    payouts_valid = tt;
    disputes_valid = tt;
  }
