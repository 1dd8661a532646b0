-- ===== src/Service/Fakes/Threshold.antt =====
-- internal/service/fakes.go with internal/service/payment_service.go: what the threshold decides.
use payment_ledger_platform.Base.{
  ◌≡◌, ◌≢◌, refl, ap, ◌∙◌, inl, inr, Bool-cases, if◌then◌else◌, String, Option, some, arith,
}
use payment_ledger_platform.Base.Dict.{lookup, insert}
use payment_ledger_platform.Error.{blocked_by_risk, err}
use payment_ledger_platform.Amount.{Decimal, Meaning}
use payment_ledger_platform.Domain.Payment.{created, failed, Payment, can_transition}
use payment_ledger_platform.Domain.Payment.Limits.{IsSound}
use payment_ledger_platform.Store.State.{MemoryStore}
use payment_ledger_platform.Store.Interface.{Visits}
use payment_ledger_platform.Service.Journal.{EntryIds}
use payment_ledger_platform.Service.Payments.{authorize}
use payment_ledger_platform.Service.Payments.Outcome.{in_memory, committed}
use payment_ledger_platform.Service.Payments.Authorization.{
  authorized_payment, authorize_journal, authorize-committed, authorize-blocked,
}
use payment_ledger_platform.Service.Fakes.{deterministic_provider, threshold_risk}
use Prim.Native.String
use Prim.Native.String.{slice, len}
use text.Mathlib.TextPositions.{len-append}

module _ {A V : Type 0} ⦃d : Decimal A⦄ (m : Meaning d V) (visits : Visits A)
    (metrics : Option (String → MemoryStore A → MemoryStore A)) (ids : EntryIds)
    (max_amount : String) {max : A} (readable : d.from_string max_amount ≡ some max)
    (s : MemoryStore A) (p : Payment A) (found : lookup p.id s.payments ≡ some p)
    (new : p.status ≡ created) where
  abbrev demo_reference : String
  demo_reference = String.◌++◌ "demo_" (slice p.id 0 8)

  -- With the demo provider and a threshold that can be read, authorising a created and sound
  -- payment that is stored under its id decides by its amount. If the amount is at most the
  -- threshold, the payment is authorised under demo_ and the first eight characters of its id,
  -- and stored together with the journal and one event. Otherwise it is marked as failed with
  -- the reference risk_blocked, the call returns the error of a blocked payment, and nothing
  -- else changes.
  pub authorize-threshold :
      IsSound m p
      → authorize
          (in_memory visits deterministic_provider (some (threshold_risk max_amount)) metrics)
          ids
          p.id
          s
        ≡ (if m.numbers.at_most (m.value p.amount) (m.value max)
            then committed
                (authorized_payment p demo_reference)
                (authorize_journal ids p)
                ids.event
                "payment.authorized"
                s
            else (
              err blocked_by_risk,
              record s {
                payments =
                    insert p.id
                      (record p { status = failed; provider_reference = "risk_blocked" })
                      s.payments;
              },
            ))
  unfolding can_transition
  authorize-threshold sound =
      elim (Bool-cases (m.numbers.at_most (m.value p.amount) (m.value max))) [
        | inl within ↦
            authorize-committed m visits deterministic_provider (some (threshold_risk max_amount))
              metrics ids s p demo_reference found sound new
              (ground (arith, readable, within, m.less_than_or_equal_by_value p.amount max)) refl
              demo_reference-named
            ∙ ground (arith, within)
        | inr beyond ↦
            authorize-blocked visits deterministic_provider (some (threshold_risk max_amount))
              metrics ids s p found (ground (arith, new))
              (ground (arith, readable, beyond, m.less_than_or_equal_by_value p.amount max))
            ∙ ground (arith, beyond)
      ]
    where
      demo_reference-named : demo_reference ≢ ""
      demo_reference-named e = omega (arith, len-append "demo_" (slice p.id 0 8), ap len e)
