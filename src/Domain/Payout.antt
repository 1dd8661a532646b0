-- ===== src/Domain/Payout.antt =====
-- internal/domain/payment.go: payouts.
use Prim.Native.String.{len}
use payment_ledger_platform.Base.{◌≡◌, not, ◌||◌, String, ◌==◌, eqb, if◌then◌else◌, arith}
use payment_ledger_platform.Error.{invalid_payout, Result, ok, err}
use payment_ledger_platform.Text.{Unicode, to_upper}
use payment_ledger_platform.Amount.{Decimal, Meaning, Lt}

-- `unset` is Go's zero value, the empty text.
pub data PayoutStatus : Type 0 where
  pending paid failed unset : PayoutStatus

pub record Payout (A : Type 0) : Type 0 where
  pub id : String
  pub merchant_id : String
  pub currency : String
  pub amount : A
  pub provider_reference : String
  pub status : PayoutStatus

module _ {A : Type 0} ⦃d : Decimal A⦄ ⦃u : Unicode⦄ where
  -- `id` is the new UUID.
  unfoldable pub new_payout : String → String → String → A → Result (Payout A)
  new_payout id merchant currency amount =
      if merchant == "" || not (eqb (len currency) 3) || not (d.greater_than amount d.zero)
      then err invalid_payout
      else ok (record {
        id = id;
        merchant_id = merchant;
        currency = to_upper currency;
        amount = amount;
        provider_reference = "";
        status = pending;
      })

module _ {A V : Type 0} ⦃d : Decimal A⦄ (m : Meaning d V) where
  -- A new payout is pending, for the amount that was asked for, which is positive.
  pub new_payout-positive :
      ⦃u : Unicode⦄ (id merchant currency : String) (amount : A) {p : Payout A}
      → new_payout id merchant currency amount ≡ ok p
      → (p.id ≡ id)
        × (p.merchant_id ≡ merchant)
        × (p.amount ≡ amount)
        × (p.status ≡ pending)
        × Lt m.numbers m.numbers.zero (m.value amount)
  unfolding new_payout
  new_payout-positive id merchant currency amount e =
      ground (arith, m.greater_than_by_value amount d.zero, m.value-zero)
